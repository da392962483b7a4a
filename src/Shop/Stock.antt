-- ===== src/Shop/Stock.antt =====
-- The stock of the shop: what each product shows as available is the number of its free cards.
use hypitoken.Prelude.{
  ℕ, suc, ◌+◌, ◌==◌, ◌≤◌, ◌≡◌, refl, subst, Bool, true, not, if◌then◌else◌, Bool-cases, List, [],
  ◌∷◌, String, arith, inl, inr, count_where, exists_where, All, All-append, All-map,
  All-update_where, All-rows_where, count_where-append, count_where-rows_same, count_where-rows_le,
}
use hypitoken.Shop.Schema.{Product, CardSecret, Shop}
use hypitoken.Shop.Products.{
  is_product, is_card, insert_product, edited, update_products, outlives, drop_product, fresh_card,
  with_card, stocked, change_stock,
}
use hypitoken.Shop.Orders.{is_free}

-- the free cards of a product
abbrev pub free_count : ℕ → List CardSecret → ℕ
free_count id cards = count_where (is_free id) cards

-- what the rows of a product still lack in stock
abbrev lack : ℕ → ℕ → Product → ℕ
lack product n p = if p.id == product then n else 0

-- Identifiers are those that were issued, no two cards share one, and each product has as many free
-- cards as it shows in stock, but for `n` more of `product`.
pub record Owes (product n : ℕ) (d : Shop) : Type 0 where
  pub products : All (λ (p : Product). p.id ≤ d.shop_products.seq) d.shop_products.rows
  pub cards :
      All
        (λ (c : CardSecret).
          (c.id ≤ d.shop_card_secrets.seq) × (c.product_id ≤ d.shop_products.seq))
        d.shop_card_secrets.rows
  pub unique : (id : ℕ) → count_where (is_card id) d.shop_card_secrets.rows ≤ 1
  pub stock :
      All
        (λ (p : Product).
          p.stock_available + lack product n p ≡ free_count p.id d.shop_card_secrets.rows)
        d.shop_products.rows

-- Each product has as many free cards as it shows in stock.
abbrev pub IsStocked : Shop → Type 0
IsStocked d = Owes 0 0 d

pub no_lack : (product other : ℕ) (d : Shop) → Owes product 0 d → Owes other 0 d
no_lack product other d inv = record {
  products = inv.products;
  cards = inv.cards;
  unique = inv.unique;
  stock = All-map (λ p h. ground arith) d.shop_products.rows inv.stock;
}

module _ (d : Shop) (inv : IsStocked d) where
  none_of_new :
      (seq id : ℕ) (cs : List CardSecret)
      → All (λ (c : CardSecret). (c.id ≤ id) × (c.product_id ≤ seq)) cs
      → free_count (seq + 1) cs ≡ 0
  unfolding count_where
  none_of_new seq id [] h = refl
  none_of_new seq id (c ∷ cs) h =
      let rest = none_of_new seq id cs h.1 in let there = h.0.1 in ground arith

  pub insert_product-IsStocked : (p : Product) (now : ℕ) → IsStocked (insert_product p now d).1
  unfolding insert_product
  insert_product-IsStocked p now = record {
    products =
        All-append _ d.shop_products.rows _
          (All-map (λ q h. omega arith) d.shop_products.rows inv.products) (omega arith, tt);
    cards =
        All-map (λ c h. (h.0, let under = h.1 in omega arith)) d.shop_card_secrets.rows inv.cards;
    unique = inv.unique;
    stock = All-append _ d.shop_products.rows _ inv.stock (
      (let fresh = none_of_new d.shop_products.seq _ d.shop_card_secrets.rows inv.cards in
          ground arith),
      tt,
    );
  }

  pub edit-IsStocked : (p : Product) (now : ℕ) → IsStocked (update_products p.id (edited p now) d).1
  unfolding update_products
  edit-IsStocked p now = record {
    products =
        All-update_where (is_product p.id) (edited p now) (λ q e h. h) (λ q e h. h)
          d.shop_products.rows inv.products;
    cards = inv.cards;
    unique = inv.unique;
    stock =
        All-update_where (is_product p.id) (edited p now) (λ q e h. h) (λ q e h. h)
          d.shop_products.rows inv.stock;
  }

  pub drop_product-IsStocked : (id : ℕ) → IsStocked (drop_product id d).1
  unfolding drop_product
  drop_product-IsStocked id = record {
    products =
        All-rows_where (λ p. not (is_product id p)) (λ p e h. h) d.shop_products.rows inv.products;
    cards =
        All-rows_where (outlives id d.shop_products.rows) (λ c e h. h) d.shop_card_secrets.rows
          inv.cards;
    unique = λ other.
        let kept =
          count_where-rows_le (outlives id d.shop_products.rows) (is_card other)
            d.shop_card_secrets.rows in
        let before = inv.unique other in omega arith;
    stock =
        All-rows_where (λ p. not (is_product id p))
          (λ p e h.
            let same =
              count_where-rows_same (outlives id d.shop_products.rows) (is_free p.id)
                (λ c gone. ground arith) d.shop_card_secrets.rows in
            ground arith)
          d.shop_products.rows inv.stock;
  }

-- putting into stock what is owed
pub restocked :
    (d : Shop) (product n now : ℕ)
    → Owes product n d
    → IsStocked (change_stock product (stocked n now) d)
unfolding change_stock update_products
restocked d product n now inv = record {
  products =
      All-update_where (is_product product) (stocked n now) (λ q e h. h) (λ q e h. h)
        d.shop_products.rows inv.products;
  cards = inv.cards;
  unique = inv.unique;
  stock =
      All-update_where (is_product product) (stocked n now) (λ q e h. ground arith)
        (λ q e h. ground arith) d.shop_products.rows inv.stock;
}

numbered :
    (product seq : ℕ) (ps : List Product)
    → All (λ (p : Product). p.id ≤ seq) ps
    → exists_where (is_product product) ps ≡ true
    → product ≤ seq
unfolding exists_where
numbered product seq [] h there = cc
numbered product seq (p ∷ ps) h there =
    let first = h.0 in
    elim (Bool-cases (is_product product p)) [
      | inl here ↦ ground arith
      | inr elsewhere ↦ numbered product seq ps h.1 (ground arith)
    ]

no_card_yet :
    (seq other : ℕ) (cs : List CardSecret)
    → All (λ (c : CardSecret). (c.id ≤ seq) × (c.product_id ≤ other)) cs
    → count_where (is_card (seq + 1)) cs ≡ 0
unfolding count_where
no_card_yet seq other [] h = refl
no_card_yet seq other (c ∷ cs) h =
    let rest = no_card_yet seq other cs h.1 in let under = h.0.0 in ground arith

-- one card more is owed after its insertion
module _ (d : Shop) (product n now : ℕ) (l : String) (inv : Owes product n d) where
  pub with_card-Owes :
      exists_where (is_product product) d.shop_products.rows ≡ true
      → Owes product (suc n) (with_card product now l d)
  unfolding with_card count_where
  with_card-Owes there =
      let real = numbered product d.shop_products.seq d.shop_products.rows inv.products there in
      record {
        products = inv.products;
        cards =
            All-append _ d.shop_card_secrets.rows _
              (All-map (λ c h. (let under = h.0 in omega arith, h.1)) d.shop_card_secrets.rows
                inv.cards)
              ((omega arith, real), tt);
        unique = λ id.
            let fresh = no_card_yet d.shop_card_secrets.seq _ d.shop_card_secrets.rows inv.cards in
            let old = inv.unique id in ground (arith, both (is_card id), new_id id fresh);
        stock = All-map (λ p h. ground (arith, both (is_free p.id))) d.shop_products.rows inv.stock;
      }
    where
      both :
          (q : CardSecret → Bool)
          → count_where q (with_card product now l d).shop_card_secrets.rows
            ≡ count_where q d.shop_card_secrets.rows
              + (if q (fresh_card (d.shop_card_secrets.seq + 1) product l now) then 1 else 0)
      both q =
          let more =
            count_where-append q d.shop_card_secrets.rows
              (fresh_card (d.shop_card_secrets.seq + 1) product l now ∷ []) in
          omega (arith, more)

      new_id :
          (id : ℕ)
          → count_where (is_card (d.shop_card_secrets.seq + 1)) d.shop_card_secrets.rows ≡ 0
          → d.shop_card_secrets.seq + 1 ≡ id
          → count_where (is_card id) d.shop_card_secrets.rows ≡ 0
      new_id id fresh same =
          subst (λ (i : ℕ). count_where (is_card i) d.shop_card_secrets.rows ≡ 0) same fresh
