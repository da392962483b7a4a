-- ===== src/Tokens/Tags.antt =====
-- The bounds that SanitizeTags promises.
use Prim.Native.String.{String}
use Prim.Native.Char.{code}
use hypitoken.Prelude.{
  Bool, true, not, ◌⊎◌, inl, inr, Bool-cases, is_space, trim_left, trim_right, ℕ, suc, zero, ◌≤◌,
  ◌≡◌, refl, false, ◌||◌, List, [], ◌∷◌, ltb, str_eq, trim_space, if_cases, arith, exists_where,
  length, All,
}
use hypitoken.Tokens.{
  max_token_tags, max_token_tag_len, rune_count, rune_prefix, cut_tag, sanitize_from, sanitize_tags,
}

-- a text with a first character that is no space
abbrev pub starts_solid : String → Bool
starts_solid String.[] = false
starts_solid (String.◌∷◌ c s) = not (is_space (code c))

-- a tag that begins with no space, so is not blank, and is not too long
abbrev pub IsTag : String → Type 0
IsTag tag = (starts_solid tag ≡ true) × (1 ≤ rune_count tag) × (rune_count tag ≤ max_token_tag_len)

trim_left_solid : (s : String) → (trim_left s ≡ "") ⊎ (starts_solid (trim_left s) ≡ true)
unfolding trim_left
trim_left_solid String.[] = inl refl
trim_left_solid (String.◌∷◌ c s) = elim (Bool-cases (is_space (code c))) [
  | inl space ↦ rw space (trim_left_solid s)
  | inr solid ↦ rw solid (inr (rw solid refl))
]

trim_right_solid : (s : String) → starts_solid s ≡ true → starts_solid (trim_right s) ≡ true
unfolding trim_right
trim_right_solid String.[] h = h
trim_right_solid (String.◌∷◌ c s) h =
    let solid : is_space (code c) ≡ false = ground arith in rw solid (rw solid refl)

trim_space_solid :
    (s : String) → str_eq (trim_space s) "" ≡ false → starts_solid (trim_space s) ≡ true
unfolding trim_space trim_right
trim_space_solid s h = elim (trim_left_solid s) [
  | inl blank ↦
      absurd
        (let empty : str_eq (trim_right (trim_left s)) "" ≡ true = rw blank refl in cc (empty, h))
  | inr solid ↦ trim_right_solid (trim_left s) solid
]

rune_prefix_solid :
    (n : ℕ) (s : String) → starts_solid s ≡ true → starts_solid (rune_prefix (suc n) s) ≡ true
unfolding rune_prefix
rune_prefix_solid n String.[] h = h
rune_prefix_solid n (String.◌∷◌ c s) h = h

rune_count-prefix : (n : ℕ) (s : String) → n ≤ rune_count s → rune_count (rune_prefix n s) ≡ n
unfolding rune_count rune_prefix
rune_count-prefix zero s h = refl
rune_count-prefix (suc n) String.[] h = absurd (omega arith)
rune_count-prefix (suc n) (String.◌∷◌ c s) h =
    let rest = rune_count-prefix n s (omega (arith, h)) in omega (arith, rest)

some_rune : (s : String) → str_eq s "" ≡ false → 1 ≤ rune_count s
unfolding rune_count
some_rune String.[] h = cc
some_rune (String.◌∷◌ c s) h = omega arith

cut_tag-IsTag :
    (tag : String) → str_eq tag "" ≡ false → starts_solid tag ≡ true → IsTag (cut_tag tag)
unfolding cut_tag
cut_tag-IsTag tag h solid =
    if_cases IsTag (ltb max_token_tag_len (rune_count tag))
      (λ long.
        let cut = rune_count-prefix max_token_tag_len tag (ground arith) in
        (rune_prefix_solid 31 tag solid, omega arith, omega arith))
      (λ short. (solid, some_rune tag h, ground arith))

Sane : ℕ → List String → Type 0
Sane left tags = (length tags ≤ left) × All IsTag tags

sanitize_from-Sane :
    (seen : List String) (left : ℕ) (raws : List String) → Sane left (sanitize_from seen left raws)
unfolding sanitize_from Sane
sanitize_from-Sane seen zero raws = (omega arith, tt)
sanitize_from-Sane seen (suc left) [] = (omega arith, tt)
sanitize_from-Sane seen (suc left) (raw ∷ raws) =
    if_cases (λ (tags : List String). Sane (suc left) tags)
      (str_eq (trim_space raw) "" || exists_where (str_eq (trim_space raw)) seen)
      (λ _. sanitize_from-Sane seen (suc left) raws)
      (λ kept.
        let (few, tags) = sanitize_from-Sane (cut_tag (trim_space raw) ∷ seen) left raws in
        let full : str_eq (trim_space raw) "" ≡ false = ground arith in
        (
          omega (arith, few),
          (cut_tag-IsTag (trim_space raw) full (trim_space_solid raw full), tags),
        ))

-- At most eight tags are stored; none of them is blank or begins with a space, and none is longer
-- than 32 characters.
pub sanitize_tags-bounds :
    (raws : List String)
    → (length (sanitize_tags raws) ≤ max_token_tags) × All IsTag (sanitize_tags raws)
unfolding sanitize_tags Sane
sanitize_tags-bounds raws = sanitize_from-Sane [] max_token_tags raws
