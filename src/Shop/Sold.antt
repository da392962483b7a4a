-- ===== src/Shop/Sold.antt =====
-- A card that an order was given stays that order's, whatever the shop does after that.
use hypitoken.Prelude.{
  ℕ, ◌+◌, ◌≤◌, ◌≡◌, ◌⊎◌, inl, inr, refl, sym, ap, ◌∙◌, subst, Bool, true, false, not, Bool-cases,
  Option, some, if◌then◌else◌, List, [], ◌∷◌, String, arith, length, exists_where, first_where,
  first_where-holds, first_where-append_some, rows_where, count_where, count_where-append,
  count_where-update_same, count_where-rows_le, count_where-deleted, first_where-update,
  first_where-rows, All-first_where,
}
use hypitoken.Store.Engine.{Result, ok, err, foreign_key_violation}
use hypitoken.Shop.Schema.{Product, CardSecret, ShopStatus, Shop}
use hypitoken.Shop.Products.{
  is_product, is_card, fresh_product, insert_product, edited, update_products, outlives,
  drop_product, unstocked, change_stock, stocked, drop_card, with_card, insert_card,
}
use hypitoken.Shop.Orders.{is_free, consumed_by, consume_card, settle_order}
use hypitoken.Shop.Deliver.{Given, card, template, drained, by_hand, deleted}
use hypitoken.Shop.Calls.{shop_step, ShopReach, start, after}
use hypitoken.Shop.Moves.{
  Inserted, none_left, one_more, ShopMoves, nothing, creates, edits, removes, stocks, discards,
  orders, gives, shop_step-Moves,
}
use hypitoken.Shop.Stock.{IsStocked}
use hypitoken.Shop.Stocked.{reached-IsStocked, free_card-found}

module _ (id : ℕ) (c : CardSecret) where
  -- the row of the card is as it was
  abbrev pub IsThere : Shop → Type 0
  IsThere d = first_where (is_card id) d.shop_card_secrets.rows ≡ some c

  -- the operator deleted the product of the card, and with it the card
  abbrev pub IsGone : Shop → Type 0
  IsGone d =
      (c.product_id ≤ d.shop_products.seq)
      × (count_where (is_product c.product_id) d.shop_products.rows ≡ 0)

  change_stock-IsGone :
      (d : Shop) (product : ℕ) (f : Product → Product)
      → ((p : Product) → (f p).id ≡ p.id)
      → IsGone d
      → IsGone (change_stock product f d)
  unfolding change_stock update_products
  change_stock-IsGone d product f same (issued, gone) =
      let kept =
        count_where-update_same (is_product product) (is_product c.product_id) f
          (λ p h. let e = same p in ground arith) d.shop_products.rows in
      (issued, omega arith)

  inserted_card :
      (product now : ℕ) (l : String) (d e : Shop)
      → insert_card product now l d ≡ ok (tt, e)
      → e ≡ with_card product now l d
  unfolding insert_card
  inserted_card product now l d e h = go (exists_where (is_product product) d.shop_products.rows) h
    where
      go :
          (b : Bool)
          → if◌then◌else◌ {A = Result (Unit {0} × Shop)} b
              (ok (tt, with_card product now l d))
              (err foreign_key_violation)
            ≡ ok (tt, e)
          → e ≡ with_card product now l d
      go true h = cc
      go false h = cc

  Inserted-IsThere :
      (product now : ℕ) (ls : List String) (d e : Shop)
      → Inserted product now ls d e
      → IsThere d
      → IsThere e
  unfolding with_card
  Inserted-IsThere product now _ d _ none_left there = there
  Inserted-IsThere product now _ d e (one_more {l = l} {ls = ls} {e = f} first rest) there =
      Inserted-IsThere product now ls f e rest (
        subst IsThere (sym (inserted_card product now l d f first))
          (first_where-append_some (is_card id) d.shop_card_secrets.rows _ c there))

  Inserted-IsGone :
      (product now : ℕ) (ls : List String) (d e : Shop)
      → Inserted product now ls d e
      → IsGone d
      → IsGone e
  unfolding with_card
  Inserted-IsGone product now _ d _ none_left gone = gone
  Inserted-IsGone product now _ d e (one_more {l = l} {ls = ls} {e = f} first rest) gone =
      Inserted-IsGone product now ls f e rest
        (subst IsGone (sym (inserted_card product now l d f first)) gone)

  Given-IsGone :
      (out : String) (now product : ℕ) (d : Shop) (p : Option Product) (st : ShopStatus)
      (text : String) (w : Shop)
      → Given out now d product p st text w
      → IsGone d
      → IsGone w
  unfolding consume_card
  Given-IsGone out now product d _ _ _ _ (card p k _ chosen _) gone =
      change_stock-IsGone (consume_card out now k.id d) product (unstocked now) (λ q. refl) gone
  Given-IsGone out now product d _ _ _ _ (template p _) gone = gone
  Given-IsGone out now product d _ _ _ _ (drained p _ _ _) gone = gone
  Given-IsGone out now product d _ _ _ _ (by_hand p _ _) gone = gone
  Given-IsGone out now product d _ _ _ _ deleted gone = gone

  -- A card whose product was deleted does not come back.
  Moves-IsGone : (d d' : Shop) → ShopMoves d d' → IsGone d → IsGone d'
  unfolding insert_product update_products drop_product drop_card settle_order change_stock
      count_where
  Moves-IsGone d _ nothing gone = gone
  Moves-IsGone d _ (creates p now) (issued, none_there) =
      let more =
        count_where-append (is_product c.product_id) d.shop_products.rows
          (fresh_product (d.shop_products.seq + 1) now p ∷ []) in
      (omega arith, ground arith)
  Moves-IsGone d _ (edits p now) gone = change_stock-IsGone d p.id (edited p now) (λ q. refl) gone
  Moves-IsGone d _ (removes other) (issued, none_there) =
      let fewer =
        count_where-rows_le (λ p. not (is_product other p)) (is_product c.product_id)
          d.shop_products.rows in
      (issued, omega arith)
  Moves-IsGone d _ (stocks product now clean e inserted) gone =
      change_stock-IsGone e product (stocked (length clean) now) (λ q. refl)
        (Inserted-IsGone product now clean d e inserted gone)
  Moves-IsGone d _ (discards other now k found unsold) gone =
      change_stock-IsGone (drop_card other d) k.product_id (unstocked now) (λ q. refl) gone
  Moves-IsGone d _ (orders os) gone = gone
  Moves-IsGone d _ (gives out now product p st text w f given) gone =
      Given-IsGone out now product d p st text w given gone

  module _ (sold : c.consumed ≡ true) where
    -- A free card is another one.
    another :
        (d : Shop) (other : ℕ) (k : CardSecret)
        → IsThere d
        → first_where (is_card other) d.shop_card_secrets.rows ≡ some k
        → k.consumed ≡ false
        → is_card other c ≡ false
    another d other k there found unsold = elim (Bool-cases (is_card other c)) [
      | inr differs ↦ differs
      | inl same ↦
          let named = first_where-holds (is_card id) d.shop_card_secrets.rows c there in
          let one : other ≡ id = ground arith in
          let seen =
            subst (λ (i : ℕ). first_where (is_card i) d.shop_card_secrets.rows ≡ some k) one
              found in
          let equal : k ≡ c = cc in
          let taken : k.consumed ≡ true = ap (λ (e : CardSecret). e.consumed) equal ∙ sold in
          absurd (ground arith)
    ]

    Given-IsThere :
        (out : String) (now product : ℕ) (d : Shop) (p : Option Product) (st : ShopStatus)
        (text : String) (w : Shop)
        → Given out now d product p st text w
        → IsStocked d
        → IsThere d
        → IsThere w
    unfolding consume_card change_stock update_products
    Given-IsThere out now product d _ _ _ _ (card p k _ chosen _) inv there =
        let (free, found) = free_card-found d product k inv chosen in
        first_where-update (is_card id) (is_card k.id) (consumed_by out now) (λ e _. refl)
          d.shop_card_secrets.rows c there (another d k.id k there found (unsold k free))
      where
        unsold : (k : CardSecret) → is_free product k ≡ true → k.consumed ≡ false
        unsold k free = ground arith
    Given-IsThere out now product d _ _ _ _ (template p _) inv there = there
    Given-IsThere out now product d _ _ _ _ (drained p _ _ _) inv there = there
    Given-IsThere out now product d _ _ _ _ (by_hand p _ _) inv there = there
    Given-IsThere out now product d _ _ _ _ deleted inv there = there

    Moves-IsThere :
        (d d' : Shop) → ShopMoves d d' → IsStocked d → IsThere d → IsThere d' ⊎ IsGone d'
    unfolding insert_product update_products drop_product drop_card settle_order change_stock
    Moves-IsThere d _ nothing inv there = inl there
    Moves-IsThere d _ (creates p now) inv there = inl there
    Moves-IsThere d _ (edits p now) inv there = inl there
    Moves-IsThere d _ (removes other) inv there =
        elim (Bool-cases (outlives other d.shop_products.rows c)) [
          | inl stays ↦ inl (first_where-rows (is_card id) _ d.shop_card_secrets.rows c there stays)
          | inr goes ↦
              let here : c.product_id ≡ other = ground arith in
              inr (
                (All-first_where _ (is_card id) d.shop_card_secrets.rows c inv.cards there).1,
                subst
                    (λ (i : ℕ).
                      count_where (is_product i)
                        (rows_where (λ p. not (is_product other p)) d.shop_products.rows)
                      ≡ 0)
                    (sym here) (count_where-deleted (is_product other) d.shop_products.rows),
              )
        ]
    Moves-IsThere d _ (stocks product now clean e inserted) inv there =
        inl (Inserted-IsThere product now clean d e inserted there)
    Moves-IsThere d _ (discards other now k found unsold) inv there = inl (
        first_where-rows (is_card id) (λ e. not (is_card other e)) d.shop_card_secrets.rows c there
          (let differs = another d other k there found unsold in ground arith))
    Moves-IsThere d _ (orders os) inv there = inl there
    Moves-IsThere d _ (gives out now product p st text w f given) inv there =
        inl (Given-IsThere out now product d p st text w given inv there)

-- A card that was given to an order keeps its row, with its text and that order, through all later
-- calls, in any order and whichever statements fail, unless the operator deletes its product, which
-- deletes it.
pub sold_card_stays :
    (d e : Shop) (id : ℕ) (c : CardSecret)
    → ShopReach d e
    → IsStocked d
    → c.consumed ≡ true
    → first_where (is_card id) d.shop_card_secrets.rows ≡ some c
    → IsThere id c e ⊎ IsGone id c e
sold_card_stays d _ id c start inv sold there = inl there
sold_card_stays d _ id c (after {e = e} call env before) inv sold there =
    step (sold_card_stays d e id c before inv sold there)
  where
    step :
        IsThere id c e ⊎ IsGone id c e
        → IsThere id c (shop_step call env e) ⊎ IsGone id c (shop_step call env e)
    step (inl still) =
        Moves-IsThere id c sold e _ (shop_step-Moves call env e) (reached-IsStocked d e before inv)
          still
    step (inr gone) = inr (Moves-IsGone id c e _ (shop_step-Moves call env e) gone)
