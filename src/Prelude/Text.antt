-- ===== src/Prelude/Text.antt =====
-- Texts: the standard library's trimming and prefix tests, and SQLite's LIKE.
use Prim.Native.Nat.{ℕ, ◌+◌}
use Prim.Native.Char.{code}
use Prim.Native.String.{String, ◌++◌}
use mathlib.Core.Bool.{Bool, true, false, ◌&&◌, ◌||◌}
use mathlib.Core.Path.{◌≡◌, refl, sym, subst}
use native.Mathlib.Omega.{arith}
use text.Mathlib.TextLemmas.{cons-append}
use hypitoken.Prelude.Tests.{leb, ◌==◌, if◌then◌else◌}
pub use text.Mathlib.Text.{◌==◌ as str_eq, starts_with}
pub use text.Mathlib.TextEquality.{eq_iff}
pub use text.Mathlib.TextPositions.{eq_refl}

-- unicode.IsSpace
abbrev pub is_space : ℕ → Bool
is_space c =
    (leb 9 c && leb c 13)
    || c == 32
    || c == 0x85
    || c == 0xa0
    || c == 0x1680
    || (leb 0x2000 c && leb c 0x200a)
    || c == 0x2028
    || c == 0x2029
    || c == 0x202f
    || c == 0x205f
    || c == 0x3000

unfoldable pub trim_left : String → String
trim_left String.[] = String.[]
trim_left (String.◌∷◌ c s) = if is_space (code c) then trim_left s else String.◌∷◌ c s

-- Drops the spaces at the end: a space stays only before something that stays.
unfoldable pub trim_right : String → String
trim_right String.[] = String.[]
trim_right (String.◌∷◌ c s) =
    let rest = trim_right s in
    if is_space (code c) && str_eq rest "" then String.[] else String.◌∷◌ c rest

-- strings.TrimSpace
unfoldable pub trim_space : String → String
unfolding trim_left trim_right
trim_space s = trim_right (trim_left s)

trim_both : trim_space "  ab c \t" ≡ "ab c"
unfolding trim_space
trim_both = refl

-- a letter of A to Z in lower case, as LIKE folds it
abbrev fold : ℕ → ℕ
fold c = if leb 65 c && leb c 90 then c + 32 else c

-- One character of a LIKE pattern: `_` stands for any one. The `%` at the end is `like_prefix`.
abbrev like_char : ℕ → ℕ → Bool
like_char p c = p == 95 || fold p == fold c

-- s LIKE 'p%', for a p that has no `%`
unfoldable pub like_prefix : String → String → Bool
like_prefix String.[] s = true
like_prefix (String.◌∷◌ p ps) String.[] = false
like_prefix (String.◌∷◌ p ps) (String.◌∷◌ c cs) =
    let rest = like_prefix ps cs in if like_char (code p) (code c) then rest else false

-- A text with the prefix is like it.
pub like_prefix-concat : (p s : String) → like_prefix p (p ++ s) ≡ true
unfolding like_prefix
like_prefix-concat String.[] s = refl
like_prefix-concat (String.◌∷◌ c p) s =
    subst (λ (t : String). like_prefix (String.◌∷◌ c p) t ≡ true) (sym (cons-append c p s))
      (ground (arith, like_prefix-concat p s))
