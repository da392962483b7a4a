-- ===== src/Server/Sticky/Keys.antt =====
-- A key names its group and its response when the group's name has no bar in it.
use hypitoken.Prelude.{◌==◌, ◌≡◌, refl, sym, ap, ◌∙◌, Bool, false, ◌||◌, String, concat, arith}
use text.Mathlib.TextLemmas.{nil-append, cons-append, head-eq_of_cons-eq, tail-eq_of_cons-eq}
use Prim.Native.Char.{Char, code}
use hypitoken.Server.Sticky.{resp_key}

-- the name has a bar, which is character 124
unfoldable pub has_bar : String → Bool
has_bar String.[] = false
has_bar (String.◌∷◌ c s) = let rest = has_bar s in code c == 124 || rest

abbrev bar : Char
bar = "|"

nil_key : (r : String) → resp_key String.[] r ≡ String.◌∷◌ bar r
unfolding resp_key
nil_key r =
    nil-append (concat "|" r)
    ∙ cons-append bar "" r
    ∙ ap (λ (s : String). String.◌∷◌ bar s) (nil-append r)

cons_key : (c : Char) (g r : String) → resp_key (String.◌∷◌ c g) r ≡ String.◌∷◌ c (resp_key g r)
unfolding resp_key
cons_key c g r = cons-append c g (concat "|" r)

-- The key of a group without a bar names the group and the response.
pub resp_key_names :
    (g g' r r' : String)
    → has_bar g ≡ false
    → has_bar g' ≡ false
    → resp_key g r ≡ resp_key g' r'
    → (g ≡ g') × (r ≡ r')
unfolding has_bar
resp_key_names String.[] String.[] r r' h h' e =
    (refl, tail-eq_of_cons-eq (sym (nil_key r) ∙ e ∙ nil_key r'))
resp_key_names String.[] (String.◌∷◌ c' g') r r' h h' e =
    let same = head-eq_of_cons-eq (sym (nil_key r) ∙ e ∙ cons_key c' g' r') in
    let is_bar : code bar ≡ code c' = ap code same in absurd (ground arith)
resp_key_names (String.◌∷◌ c g) String.[] r r' h h' e =
    let same = head-eq_of_cons-eq (sym (nil_key r') ∙ sym e ∙ cons_key c g r) in
    let is_bar : code bar ≡ code c = ap code same in absurd (ground arith)
resp_key_names (String.◌∷◌ c g) (String.◌∷◌ c' g') r r' h h' e =
    let both = sym (cons_key c g r) ∙ e ∙ cons_key c' g' r' in
    let first = head-eq_of_cons-eq both in
    let (rest, resp) =
      resp_key_names g g' r r' (ground arith) (ground arith) (tail-eq_of_cons-eq both) in
    (ap (λ (x : Char). String.◌∷◌ x g) first ∙ ap (λ (s : String). String.◌∷◌ c' s) rest, resp)
