-- ===== src/Shop/Stocked.antt =====
-- The calls of the shop keep the stock of each product at the number of its free cards.
use hypitoken.Prelude.{
  ℕ, suc, ◌+◌, ◌≤◌, ◌≡◌, refl, subst, Bool, true, false, not, Option, some, none, if◌then◌else◌,
  List, [], ◌∷◌, String, arith, length, leb, exists_where, first_where, count_where, All,
  All-update_where, All-rows_where, count_where-rows_le, count_where-update_same, one_less_update,
  one_less_delete, Mem-rows_where, first_where_unique, Memᴰ, head, tail,
}
use hypitoken.Store.Engine.{Result, ok, err, foreign_key_violation}
use hypitoken.Shop.Schema.{Product, CardSecret, ShopOrder, ShopStatus, Shop, set_cards, set_orders}
use hypitoken.Shop.Products.{
  is_product, is_card, unstocked, change_stock, update_products, drop_card, with_card, insert_card,
}
use hypitoken.Shop.Orders.{
  is_free, lower_id, lowest, free_card, consumed_by, consume_card, settle_order,
}
use hypitoken.Shop.Deliver.{Given, card, template, drained, by_hand, deleted}
use hypitoken.Shop.Calls.{ShopReach, start, after}
use hypitoken.Shop.Moves.{
  Inserted, none_left, one_more, ShopMoves, nothing, creates, edits, removes, stocks, discards,
  orders, gives, shop_step-Moves,
}
use hypitoken.Shop.Stock.{
  Owes, IsStocked, free_count, insert_product-IsStocked, edit-IsStocked, drop_product-IsStocked,
  restocked, with_card-Owes, no_lack,
}

-- A card that is free leaves the pool and the stock.
module _ (d : Shop) (inv : IsStocked d) (c : CardSecret) (rows' : List CardSecret)
    (free : c.consumed ≡ false)
    (fewer : (i : ℕ)
      → free_count i rows' + (if is_free i c then 1 else 0)
        ≡ free_count i d.shop_card_secrets.rows) where
  one_less :
      (now : ℕ)
      → All
          (λ (e : CardSecret).
            (e.id ≤ d.shop_card_secrets.seq) × (e.product_id ≤ d.shop_products.seq))
          rows'
      → ((id : ℕ) → count_where (is_card id) rows' ≤ 1)
      → IsStocked (change_stock c.product_id (unstocked now) (set_cards rows' d))
  unfolding change_stock update_products
  one_less now cards' unique' = record {
    products =
        All-update_where (is_product c.product_id) (unstocked now) (λ q e h. h) (λ q e h. h)
          d.shop_products.rows inv.products;
    cards = cards';
    unique = unique';
    stock =
        All-update_where (is_product c.product_id) (unstocked now)
          (λ q e h. let less = fewer q.id in ground arith)
          (λ q e h. let less = fewer q.id in ground arith) d.shop_products.rows inv.stock;
  }

lowest-Mem : (cs : List CardSecret) (c : CardSecret) → lowest cs ≡ some c → Memᴰ c cs
unfolding lowest
lowest-Mem [] c h = cc
lowest-Mem (x ∷ xs) c h = go (lowest xs) (λ e. lowest-Mem xs c e) h
  where
    lesser :
        {y : CardSecret} (b : Bool)
        → (some y ≡ some c → Memᴰ c xs)
        → (if b then some x else some y) ≡ some c
        → Memᴰ c (x ∷ xs)
    lesser true there h = let same : c ≡ x = cc in head same
    lesser false there h = tail (there h)

    go :
        (o : Option CardSecret) → (o ≡ some c → Memᴰ c xs) → lower_id x o ≡ some c → Memᴰ c (x ∷ xs)
    go none there h = let same : c ≡ x = cc in head same
    go (some y) there h = lesser (leb x.id y.id) there h

-- The card that is handed over is a free one of the product, and the only one of its identifier.
pub free_card-found :
    (d : Shop) (product : ℕ) (c : CardSecret)
    → IsStocked d
    → free_card product d ≡ some c
    → (is_free product c ≡ true) × (first_where (is_card c.id) d.shop_card_secrets.rows ≡ some c)
unfolding free_card
free_card-found d product c inv h =
    let (free, there) =
      Mem-rows_where (is_free product) d.shop_card_secrets.rows c (lowest-Mem _ c h) in
    let itself : is_card c.id c ≡ true = ground arith in
    (free, first_where_unique (is_card c.id) _ c there itself (inv.unique c.id))

inserted_card :
    (product now n : ℕ) (l : String) (d e : Shop)
    → insert_card product now l d ≡ ok (tt, e)
    → Owes product n d
    → Owes product (suc n) e
unfolding insert_card
inserted_card product now n l d e h inv =
    go (exists_where (is_product product) d.shop_products.rows)
      (λ there. with_card-Owes d product n now l inv there) h
  where
    go :
        (b : Bool)
        → (b ≡ true → Owes product (suc n) (with_card product now l d))
        → if◌then◌else◌ {A = Result (Unit {0} × Shop)} b
            (ok (tt, with_card product now l d))
            (err foreign_key_violation)
          ≡ ok (tt, e)
        → Owes product (suc n) e
    go true owed h =
        let same : with_card product now l d ≡ e = cc in
        subst (λ (r : Shop). Owes product (suc n) r) same (owed refl)
    go false owed h = cc

Inserted-Owes :
    (product now n : ℕ) (ls : List String) (d e : Shop)
    → Inserted product now ls d e
    → Owes product n d
    → Owes product (length ls + n) e
Inserted-Owes product now n _ d _ none_left inv =
    subst (λ (m : ℕ). Owes product m d) (omega arith) inv
Inserted-Owes product now n _ d e (one_more {ls = ls} first rest) inv =
    subst (λ (m : ℕ). Owes product m e) (omega arith)
      (Inserted-Owes product now (suc n) ls _ e rest (inserted_card product now n _ d _ first inv))

-- Orders do not matter to the stock.
orders_aside : (d : Shop) (os : List ShopOrder) → IsStocked d → IsStocked (set_orders os d)
orders_aside d os inv = record {
  products = inv.products;
  cards = inv.cards;
  unique = inv.unique;
  stock = inv.stock;
}

Given-IsStocked :
    (out : String) (now product : ℕ) (d : Shop) (p : Option Product) (st : ShopStatus)
    (text : String) (w : Shop)
    → Given out now d product p st text w
    → IsStocked d
    → IsStocked w
unfolding consume_card
Given-IsStocked out now product d _ _ _ _ (card p c _ chosen _) inv =
    let (free, found) = free_card-found d product c inv chosen in
    let unsold : c.consumed ≡ false = ground arith in
    let same : c.product_id ≡ product = ground arith in
    subst (λ (i : ℕ). IsStocked (change_stock i (unstocked now) (consume_card out now c.id d))) same
      (one_less d inv c _ unsold
        (λ i.
          one_less_update (is_card c.id) (is_free i) (consumed_by out now) (λ e _. ground arith) _ c
            (inv.unique c.id) found)
        now
        (All-update_where (is_card c.id) (consumed_by out now) (λ e _ h. h) (λ e _ h. h) _
          inv.cards)
        (λ other.
          let kept =
            count_where-update_same (is_card c.id) (is_card other) (consumed_by out now)
              (λ e _. refl) d.shop_card_secrets.rows in
          let before = inv.unique other in omega arith))
Given-IsStocked out now product d _ _ _ _ (template p _) inv = inv
Given-IsStocked out now product d _ _ _ _ (drained p _ _ _) inv = inv
Given-IsStocked out now product d _ _ _ _ (by_hand p _ _) inv = inv
Given-IsStocked out now product d _ _ _ _ deleted inv = inv

-- What a call does to the tables keeps the stock.
pub Moves-IsStocked : (d d' : Shop) → ShopMoves d d' → IsStocked d → IsStocked d'
unfolding drop_card settle_order
Moves-IsStocked d _ nothing inv = inv
Moves-IsStocked d _ (creates p now) inv = insert_product-IsStocked d inv p now
Moves-IsStocked d _ (edits p now) inv = edit-IsStocked d inv p now
Moves-IsStocked d _ (removes id) inv = drop_product-IsStocked d inv id
Moves-IsStocked d _ (stocks product now clean e inserted) inv =
    restocked e product (length clean) now (
      subst (λ (m : ℕ). Owes product m e) (omega arith)
        (Inserted-Owes product now 0 clean d e inserted (no_lack 0 product d inv)))
Moves-IsStocked d _ (discards id now c found unsold) inv =
    one_less d inv c _ unsold
      (λ i. one_less_delete (is_card id) (is_free i) _ c (inv.unique id) found) now
      (All-rows_where _ (λ e _ h. h) _ inv.cards)
      (λ other.
        let kept =
          count_where-rows_le (λ e. not (is_card id e)) (is_card other) d.shop_card_secrets.rows in
        let before = inv.unique other in omega arith)
Moves-IsStocked d _ (orders os) inv = orders_aside d os inv
Moves-IsStocked d _ (gives out now product _ _ _ w f given) inv =
    orders_aside w _ (Given-IsStocked out now product d _ _ _ w given inv)

-- Whatever calls are made and whichever statements fail, each product keeps as many free cards as it
-- shows in stock, and no two cards share an identifier.
pub reached-IsStocked : (d e : Shop) → ShopReach d e → IsStocked d → IsStocked e
reached-IsStocked d _ start inv = inv
reached-IsStocked d _ (after {e = e} c env before) inv =
    Moves-IsStocked e _ (shop_step-Moves c env e) (reached-IsStocked d e before inv)
