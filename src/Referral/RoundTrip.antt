-- ===== src/Referral/RoundTrip.antt =====
-- A redeem code is found again from what is shown of it.
use Prim.Native.Char.{Char, code}
use Prim.Native.String.{String}
use hypitoken.Prelude.{
  ℕ, zero, suc, ◌%◌, ◌==◌, ◌≡◌, refl, ap, ◌∙◌, subst, Bool, true, false, ◌&&◌, ◌||◌, Bool-cases,
  inl, inr, Option, none, some, List, [], ◌∷◌, ltb, leb, is_space, trim_left, trim_right,
  trim_space, arith,
}
use hypitoken.Store.Schema.{Db}
use hypitoken.Store.Sql.{Env, Result, ok, err, Session, run, enter, leave, pure, branch}
use hypitoken.Store.Rules.{pure_end, or_raise_step, branch_step, attempt_step}
use hypitoken.Referral.Codes.{
  redeem_alphabet, char_at, char_count, cons_some, rand_string, hypi, gift_code_taken,
  mint_redeem_code, new_redeem_code, grouped, has_prefix, format_redeem, strip, map_chars,
  normalize_redeem_code,
}

unfoldable pub all_chars : (Char → Bool) → String → Bool
all_chars p String.[] = true
all_chars p (String.◌∷◌ c s) = let rest = all_chars p s in p c && rest

-- an upper-case letter or a digit of ASCII
abbrev pub is_plain : Char → Bool
is_plain c = (leb 65 (code c) && leb (code c) 90) || (leb 48 (code c) && leb (code c) 57)

-- one of these, or a dash
abbrev pub is_shown : Char → Bool
is_shown c = is_plain c || code c == 45

char_at_plain :
    (n : ℕ) (s : String) (c : Char)
    → all_chars is_plain s ≡ true
    → char_at n s ≡ some c
    → is_plain c ≡ true
unfolding char_at all_chars
char_at_plain n String.[] c h e = cc
char_at_plain zero (String.◌∷◌ x s) c h e =
    let same : x ≡ c = cc in subst (λ (y : Char). is_plain y ≡ true) same (ground arith)
char_at_plain (suc n) (String.◌∷◌ x s) c h e = char_at_plain n s c (ground arith) e

rand_string_plain :
    (alphabet : String) (bytes : List ℕ)
    → all_chars is_plain alphabet ≡ true
    → all_chars is_plain (rand_string alphabet bytes) ≡ true
unfolding rand_string all_chars
rand_string_plain alphabet [] h = refl
rand_string_plain alphabet (v ∷ vs) h =
    go (char_at (v % char_count alphabet) alphabet) refl (rand_string_plain alphabet vs h)
  where
    go :
        (o : Option Char)
        → char_at (v % char_count alphabet) alphabet ≡ o
        → all_chars is_plain (rand_string alphabet vs) ≡ true
        → all_chars is_plain (cons_some o (rand_string alphabet vs)) ≡ true
    go none e rest = rest
    go (some c) e rest = let here = char_at_plain _ alphabet c h e in ground arith

-- Nothing is trimmed from a text without spaces.
trim_left_shown : (s : String) → all_chars is_shown s ≡ true → trim_left s ≡ s
unfolding trim_left all_chars
trim_left_shown String.[] h = refl
trim_left_shown (String.◌∷◌ c s) h =
    let solid : is_space (code c) ≡ false = ground arith in rw solid refl

trim_right_shown : (s : String) → all_chars is_shown s ≡ true → trim_right s ≡ s
unfolding trim_right all_chars
trim_right_shown String.[] h = refl
trim_right_shown (String.◌∷◌ c s) h =
    let solid : is_space (code c) ≡ false = ground arith in
    let rest = trim_right_shown s (ground arith) in rw (solid, rest) refl

trim_space_shown : (s : String) → all_chars is_shown s ≡ true → trim_space s ≡ s
unfolding trim_space
trim_space_shown s h = ap trim_right (trim_left_shown s h) ∙ trim_right_shown s h

grouped_shown :
    (left : ℕ) (s : String)
    → all_chars is_plain s ≡ true
    → all_chars is_shown (grouped left s) ≡ true
unfolding grouped all_chars
grouped_shown left String.[] h = refl
grouped_shown zero (String.◌∷◌ c s) h = let rest = grouped_shown 3 s (ground arith) in ground arith
grouped_shown (suc left) (String.◌∷◌ c s) h =
    let rest = grouped_shown left s (ground arith) in ground arith

strip-grouped : (left : ℕ) (s : String) → all_chars is_plain s ≡ true → strip (grouped left s) ≡ s
unfolding grouped strip all_chars
strip-grouped left String.[] h = refl
strip-grouped zero (String.◌∷◌ c s) h =
    let rest = strip-grouped 3 s (ground arith) in
    let kept : (code c == 45 || code c == 32) ≡ false = ground arith in rw (kept, rest) refl
strip-grouped (suc left) (String.◌∷◌ c s) h =
    let rest = strip-grouped left s (ground arith) in
    let kept : (code c == 45 || code c == 32) ≡ false = ground arith in rw (kept, rest) refl

map_chars_shown :
    (f : Char → Char) (s : String)
    → ((c : Char) → is_shown c ≡ true → f c ≡ c)
    → all_chars is_shown s ≡ true
    → map_chars f s ≡ s
unfolding map_chars all_chars
map_chars_shown f String.[] same h = refl
map_chars_shown f (String.◌∷◌ c s) same h =
    ap (λ (x : Char). String.◌∷◌ x (map_chars f s)) (same c (ground arith))
    ∙ ap (λ (t : String). String.◌∷◌ c t) (map_chars_shown f s same (ground arith))

strip_plain : (s : String) → all_chars is_plain s ≡ true → strip s ≡ s
unfolding strip all_chars
strip_plain String.[] h = refl
strip_plain (String.◌∷◌ c s) h =
    let kept : (code c == 45 || code c == 32) ≡ false = ground arith in
    let rest = strip_plain s (ground arith) in rw (kept, rest) refl

plain_shown : (s : String) → all_chars is_plain s ≡ true → all_chars is_shown s ≡ true
unfolding all_chars
plain_shown String.[] h = refl
plain_shown (String.◌∷◌ c s) h = let rest = plain_shown s (ground arith) in ground arith

-- `to_upper` is unicode.ToUpper, which leaves capitals, digits and the dash as they are.
module _ (to_upper : Char → Char) (same : (c : Char) → is_shown c ≡ true → to_upper c ≡ c) where
  typed_in :
      (t body : String)
      → all_chars is_shown t ≡ true
      → strip t ≡ body
      → normalize_redeem_code to_upper (hypi t) ≡ hypi body
  unfolding normalize_redeem_code all_chars strip
  typed_in t body h e =
      ap (λ (s : String). strip (map_chars to_upper s)) (trim_space_shown (hypi t) h)
      ∙ ap strip (map_chars_shown to_upper (hypi t) same h)
      ∙ ap hypi e

  formatted :
      (body : String)
      → all_chars is_plain body ≡ true
      → normalize_redeem_code to_upper (format_redeem (hypi body)) ≡ hypi body
  unfolding format_redeem has_prefix
  formatted body h = elim (Bool-cases (ltb 4 (char_count (hypi body)))) [
    | inl long ↦
        rw long (typed_in (grouped 0 body) body (grouped_shown 0 body h) (strip-grouped 0 body h))
    | inr short ↦ rw short (typed_in body body (plain_shown body h) (strip_plain body h))
  ]

  abbrev Minted : Result String × Session → Type 0
  Minted (ok c, s) = (body : String) × (c ≡ hypi body) × (all_chars is_plain body ≡ true)
  Minted (err e, s) = Unit

  mint_redeem_code-ends :
      (left : ℕ) (draw : ℕ → Option (List ℕ)) (s : Session) → Minted (mint_redeem_code left draw s)
  unfolding mint_redeem_code gift_code_taken all_chars
  mint_redeem_code-ends zero draw s =
      or_raise_step Minted _ _ _ _
        (λ bytes _.
          pure_end Minted _ _
            (rand_string redeem_alphabet bytes, refl, rand_string_plain redeem_alphabet bytes refl))
        tt
  mint_redeem_code-ends (suc left) draw s =
      or_raise_step Minted _ _ _ _
        (λ bytes _.
          attempt_step Minted _ _ _ _ (tried bytes _ _ (λ t. mint_redeem_code-ends left draw t))
            (tried bytes _ _ (λ t. mint_redeem_code-ends left draw t)))
        tt
    where
      tried :
          (bytes : List ℕ) (taken : Bool) (t : Session)
          → ((t : Session) → Minted (mint_redeem_code left draw t))
          → Minted (
              branch taken
                (mint_redeem_code left draw)
                (pure (hypi (rand_string redeem_alphabet bytes)))
                t)
      tried bytes taken t again =
          branch_step Minted taken _ _ t (λ _. again t)
            (λ _. pure_end Minted _ _ (
              rand_string redeem_alphabet bytes,
              refl,
              rand_string_plain redeem_alphabet bytes refl,
            ))

  -- Whatever is drawn, a code that newRedeemCode returns is found again from what is shown of it:
  -- formatted in groups and typed in as that, it is normalized to itself. Capitals, digits and the
  -- dash are their own upper case.
  pub shown_code_is_found :
      (draw : ℕ → Option (List ℕ)) (env : Env) (d d' : Db) (minted : String)
      → run (new_redeem_code draw) env d ≡ (ok minted, d')
      → normalize_redeem_code to_upper (format_redeem minted) ≡ minted
  unfolding new_redeem_code run
  shown_code_is_found draw env d d' minted e =
      go (mint_redeem_code 6 draw (enter env d)) (mint_redeem_code-ends 6 draw (enter env d))
        (ap (λ (r : Result String × Db). r.0) e)
    where
      go :
          (rt : Result String × Session)
          → Minted rt
          → (leave rt).0 ≡ ok minted
          → normalize_redeem_code to_upper (format_redeem minted) ≡ minted
      go (err x, s) m h = cc
      go (ok c, s) (body, is_code, plain) h =
          let same_code : hypi body ≡ minted = cc in
          subst (λ (x : String). normalize_redeem_code to_upper (format_redeem x) ≡ x) same_code
            (formatted body plain)
