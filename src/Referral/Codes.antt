-- ===== src/Referral/Codes.antt =====
-- internal/saas/referral/codes.go: redeem codes. The bytes that a draw of crypto/rand gave, if it
-- gave any, are arguments; unicode.ToUpper, by which strings.ToUpper maps a text, is the parameter
-- `to_upper`. The codes that are formatted are of one-byte characters.
use Prim.Native.Char.{Char, code}
use Prim.Native.String.{String}
use hypitoken.Prelude.{
  ℕ, zero, suc, ◌%◌, ◌==◌, Bool, true, false, Option, none, some, List, [], ◌∷◌, ◌||◌, ◌&&◌,
  trim_space, ltb, if◌then◌else◌, exists_where,
}
use hypitoken.Store.Sql.{random_failed, Sql, pure, or_raise, branch, attempt, query, ◌>>=◌}
use hypitoken.Gifts.{is_gift}

-- redeemAlphabet
abbrev pub redeem_alphabet : String
redeem_alphabet = "ABCDEFGHJKLMNPQRSTUVWXYZ23456789"

-- alphabet[n]
unfoldable pub char_at : ℕ → String → Option Char
char_at n String.[] = none
char_at zero (String.◌∷◌ c s) = some c
char_at (suc n) (String.◌∷◌ c s) = char_at n s

unfoldable pub char_count : String → ℕ
char_count String.[] = 0
char_count (String.◌∷◌ c s) = suc (char_count s)

-- an index out of range does not occur
abbrev pub cons_some : Option Char → String → String
cons_some none s = s
cons_some (some c) s = String.◌∷◌ c s

-- randString, for the bytes that were drawn
unfoldable pub rand_string : String → List ℕ → String
unfolding char_count
rand_string alphabet [] = String.[]
rand_string alphabet (v ∷ vs) =
    cons_some (char_at (v % char_count alphabet) alphabet) (rand_string alphabet vs)

-- the start of a redeem code, before what it is followed by
abbrev pub hypi : String → String
hypi body = String.◌∷◌ "H" (String.◌∷◌ "Y" (String.◌∷◌ "P" (String.◌∷◌ "I" body)))

-- codeTaken in gift_cards: an error counts as no row.
unfoldable pub gift_code_taken : String → Sql Bool
gift_code_taken c = attempt false (query (λ d. exists_where (is_gift c) d.gift_cards.rows))

-- The loop of newRedeemCode, with so many tries left: `draw` are the draws of 16 bytes by the tries
-- left, and the last draw of 24.
unfoldable pub mint_redeem_code : ℕ → (ℕ → Option (List ℕ)) → Sql String
mint_redeem_code zero draw = do
  bytes ← or_raise (draw 0) random_failed
  pure (hypi (rand_string redeem_alphabet bytes))
mint_redeem_code (suc left) draw = do
  bytes ← or_raise (draw (suc left)) random_failed
  let minted = hypi (rand_string redeem_alphabet bytes)
  taken ← gift_code_taken minted
  branch taken (mint_redeem_code left draw) (pure minted)

-- newRedeemCode
unfoldable pub new_redeem_code : (ℕ → Option (List ℕ)) → Sql String
new_redeem_code draw = mint_redeem_code 6 draw

-- The groups of four, each behind a dash; so many characters of the group are still to come.
unfoldable pub grouped : ℕ → String → String
grouped left String.[] = String.[]
grouped zero (String.◌∷◌ c s) = String.◌∷◌ "-" (String.◌∷◌ c (grouped 3 s))
grouped (suc left) (String.◌∷◌ c s) = String.◌∷◌ c (grouped left s)

-- strings.HasPrefix, with the prefix first
unfoldable pub has_prefix : String → String → Bool
has_prefix String.[] s = true
has_prefix (String.◌∷◌ p ps) String.[] = false
has_prefix (String.◌∷◌ p ps) (String.◌∷◌ c cs) =
    let rest = has_prefix ps cs in code p == code c && rest

-- s[4:]
abbrev pub drop_four : String → String
drop_four (String.◌∷◌ a (String.◌∷◌ b (String.◌∷◌ c (String.◌∷◌ d s)))) = s
drop_four s = String.[]

-- formatRedeem
unfoldable pub format_redeem : String → String
format_redeem s =
    if has_prefix "HYPI" s && ltb 4 (char_count s) then hypi (grouped 0 (drop_four s)) else s

-- strings.NewReplacer("-", "", " ", "")
unfoldable pub strip : String → String
strip String.[] = String.[]
strip (String.◌∷◌ c s) =
    let rest = strip s in if code c == 45 || code c == 32 then rest else String.◌∷◌ c rest

unfoldable pub map_chars : (Char → Char) → String → String
map_chars f String.[] = String.[]
map_chars f (String.◌∷◌ c s) = String.◌∷◌ (f c) (map_chars f s)

-- normalizeRedeemCode
unfoldable pub normalize_redeem_code : (Char → Char) → String → String
normalize_redeem_code to_upper s = strip (map_chars to_upper (trim_space s))
