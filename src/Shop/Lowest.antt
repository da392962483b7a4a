-- ===== src/Shop/Lowest.antt =====
-- ORDER BY id ASC LIMIT 1: the free card that a settlement hands over.
use hypitoken.Prelude.{
  ℕ, ◌≤◌, ◌≡◌, refl, subst, Bool, true, false, if◌then◌else◌, leb, Option, some, none, List, [],
  ◌∷◌, inl, inr, ◌⊎◌, arith, rows_where, Memᴰ, head, tail, All, count_where,
}
use hypitoken.Shop.Schema.{CardSecret, Shop}
use hypitoken.Shop.Orders.{free_card, lowest, lower_id, is_free}

-- the card is at or above another one of the product, or not for sale
abbrev pub Above : ℕ → ℕ → CardSecret → Type 0
Above product id x = (is_free product x ≡ false) ⊎ (id ≤ x.id)

none_free :
    (product id : ℕ) (cs : List CardSecret)
    → count_where (is_free product) cs ≡ 0
    → All (Above product id) cs
unfolding count_where
none_free product id [] h = tt
none_free product id (c ∷ cs) h = (inl (ground arith), none_free product id cs (ground arith))

raised :
    (product low id : ℕ) (cs : List CardSecret)
    → low ≤ id
    → All (Above product id) cs
    → All (Above product low) cs
raised product low id [] le h = tt
raised product low id (c ∷ cs) le (inl used, h) = (inl used, raised product low id cs le h)
raised product low id (c ∷ cs) le (inr above, h) =
    (inr (omega arith), raised product low id cs le h)

-- the unused card of the lowest identifier, if there is an unused one
abbrev pub IsLowest : ℕ → List CardSecret → Option CardSecret → Type 0
IsLowest product cs none = count_where (is_free product) cs ≡ 0
IsLowest product cs (some c) = Memᴰ c cs × (is_free product c ≡ true) × All (Above product c.id) cs

pub lowest-IsLowest :
    (product : ℕ) (cs : List CardSecret)
    → IsLowest product cs (lowest (rows_where (is_free product) cs))
unfolding lowest rows_where count_where
lowest-IsLowest product [] = refl
lowest-IsLowest product (c ∷ cs) = split (is_free product c) refl (lowest-IsLowest product cs)
  where
    take_lower :
        (d : CardSecret)
        → is_free product c ≡ true
        → IsLowest product cs (some d)
        → (b : Bool) → leb c.id d.id ≡ b
        → IsLowest product (c ∷ cs) (if b then some c else some d)
    take_lower d free (there, unused, above) true le =
        (head refl, free, (inr (omega arith), raised product c.id d.id cs (ground arith) above))
    take_lower d free (there, unused, above) false le =
        (tail there, unused, (inr (ground arith), above))

    lower :
        is_free product c ≡ true
        → (o : Option CardSecret) → IsLowest product cs o
        → IsLowest product (c ∷ cs) (lower_id c o)
    lower free none zero = (head refl, free, (inr (omega arith), none_free product c.id cs zero))
    lower free (some d) h = take_lower d free h (leb c.id d.id) refl

    skip :
        is_free product c ≡ false
        → (o : Option CardSecret) → IsLowest product cs o
        → IsLowest product (c ∷ cs) o
    skip used none zero = ground arith
    skip used (some d) (there, unused, above) = (tail there, unused, (inl used, above))

    split :
        (b : Bool)
        → is_free product c ≡ b
        → IsLowest product cs (lowest (rows_where (is_free product) cs))
        → IsLowest product (c ∷ cs) (
            lowest
              (if b then c ∷ rows_where (is_free product) cs else rows_where (is_free product) cs))
    split true free h = lower free (lowest (rows_where (is_free product) cs)) h
    split false used h = skip used (lowest (rows_where (is_free product) cs)) h

pub free_card-IsLowest :
    (product : ℕ) (d : Shop) (o : Option CardSecret)
    → free_card product d ≡ o
    → IsLowest product d.shop_card_secrets.rows o
unfolding free_card
free_card-IsLowest product d o h =
    subst (IsLowest product d.shop_card_secrets.rows) h
      (lowest-IsLowest product d.shop_card_secrets.rows)
