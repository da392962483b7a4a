-- ===== src/Shop/Products.antt =====
-- internal/shop/db.go: products and their cards, which the operator edits.
use hypitoken.Prelude.{
  ℕ, ◌+◌, ◌-◌, ◌==◌, Bool, false, not, List, [], ◌∷◌, ◌++◌, map, String, ◌&&◌, ◌||◌, ltb, str_eq,
  trim_space, if◌then◌else◌, first_where, rows_where, update_where, count_where, exists_where,
  length, take, sort_by, ltb_ℤ,
}
use hypitoken.Store.Engine.{
  not_found, foreign_key_violation, card_consumed, Result, ok, err, pure, gets, or_raise, raise_if,
  branch, query, exec, exec_, autocommit, transact, commit, ◌>>=◌, ◌>>◌,
}
use hypitoken.Shop.Schema.{
  Product, CardSecret, Shop, ShopSql, set_products, set_cards, normalize_currency,
}

-- WHERE id = ?
abbrev pub is_product : ℕ → Product → Bool
is_product id p = p.id == id

abbrev pub is_card : ℕ → CardSecret → Bool
is_card id c = c.id == id

-- the row that CreateProduct inserts
abbrev pub fresh_product : ℕ → ℕ → Product → Product
fresh_product id now p = record p {
  id = id;
  currency = normalize_currency p.currency;
  stock_available = 0;
  created_at = now;
  updated_at = now;
}

unfoldable pub insert_product : Product → ℕ → Shop → ℕ × Shop
insert_product p now d =
    let id = d.shop_products.seq + 1 in
    (
      id,
      record d {
        shop_products = record {
          rows = d.shop_products.rows ++ fresh_product id now p ∷ [];
          seq = id;
        };
      },
    )

-- CreateProduct, which stores the identifier in its argument
unfoldable pub create_product : Product → ShopSql ℕ
create_product p = do
  now ← gets (λ s. s.env.now)
  autocommit (exec (λ d. ok (insert_product p now d)))

-- scanProduct: a row as it is read
abbrev pub scan_product : Product → Product
scan_product p = record p { currency = normalize_currency p.currency }

-- GetProduct
unfoldable pub get_product : ℕ → ShopSql Product
get_product id = do
  found ← query (λ d. first_where (is_product id) d.shop_products.rows)
  p ← or_raise found not_found
  pure (scan_product p)

-- ORDER BY sort_order ASC, id ASC
abbrev pub product_later : Product → Product → Bool
product_later a b =
    ltb_ℤ b.sort_order a.sort_order || (not (ltb_ℤ a.sort_order b.sort_order) && ltb b.id a.id)

-- ListProducts
unfoldable pub list_products : Bool → ShopSql (List Product)
list_products active_only = do
  rows ← query (λ d.
      if active_only
      then rows_where (λ (p : Product). p.active) d.shop_products.rows
      else d.shop_products.rows)
  pure (map scan_product (sort_by product_later rows))

-- the editable fields of a product
abbrev pub edited : Product → ℕ → Product → Product
edited p now old = record old {
  name = p.name;
  description = p.description;
  price_cny = p.price_cny;
  currency = normalize_currency p.currency;
  delivery_type = p.delivery_type;
  delivery_template = p.delivery_template;
  active = p.active;
  sort_order = p.sort_order;
  updated_at = now;
}

-- UPDATE shop_products SET … WHERE id = ?, with the number of rows affected
unfoldable pub update_products : ℕ → (Product → Product) → Shop → ℕ × Shop
update_products id f d = (
  count_where (is_product id) d.shop_products.rows,
  set_products (update_where (is_product id) f d.shop_products.rows) d,
)

-- UpdateProduct
unfoldable pub update_product : Product → ShopSql (Unit {0})
update_product p = do
  now ← gets (λ s. s.env.now)
  n ← autocommit (exec (λ d. ok (update_products p.id (edited p now) d)))
  raise_if (n == 0) not_found

-- A card outlives the deletion of a product unless it is a card of it: ON DELETE CASCADE.
abbrev pub outlives : ℕ → List Product → CardSecret → Bool
outlives id products c = not (exists_where (is_product id) products && c.product_id == id)

-- DELETE FROM shop_products WHERE id = ?
unfoldable pub drop_product : ℕ → Shop → ℕ × Shop
drop_product id d = (
  count_where (is_product id) d.shop_products.rows,
  set_cards (rows_where (outlives id d.shop_products.rows) d.shop_card_secrets.rows)
      (set_products (rows_where (λ p. not (is_product id p)) d.shop_products.rows) d),
)

-- DeleteProduct
unfoldable pub delete_product : ℕ → ShopSql (Unit {0})
delete_product id = do
  n ← autocommit (exec (λ d. ok (drop_product id d)))
  raise_if (n == 0) not_found

-- the cards of the list that are not blank
unfoldable pub clean_lines : List String → List String
clean_lines [] = []
clean_lines (l ∷ ls) =
    let rest = clean_lines ls in if str_eq (trim_space l) "" then rest else trim_space l ∷ rest

abbrev pub fresh_card : ℕ → ℕ → String → ℕ → CardSecret
fresh_card id product content now = record {
  id = id;
  product_id = product;
  content = content;
  consumed = false;
  consumed_by_order = "";
  consumed_at = 0;
  created_at = now;
}

unfoldable pub with_card : ℕ → ℕ → String → Shop → Shop
with_card product now content d =
    let id = d.shop_card_secrets.seq + 1 in
    record d {
      shop_card_secrets = record {
        rows = d.shop_card_secrets.rows ++ fresh_card id product content now ∷ [];
        seq = id;
      };
    }

-- INSERT INTO shop_card_secrets, whose product must be there: foreign_keys(1)
unfoldable pub insert_card : ℕ → ℕ → String → Shop → Result (Unit {0} × Shop)
insert_card product now content d =
    if exists_where (is_product product) d.shop_products.rows
    then ok (tt, with_card product now content d)
    else err foreign_key_violation

-- the loop of AppendCardSecrets
unfoldable pub insert_cards : ℕ → ℕ → List String → ShopSql (Unit {0})
insert_cards product now [] = pure tt
insert_cards product now (l ∷ ls) = do exec (insert_card product now l); insert_cards product now ls

abbrev pub stocked : ℕ → ℕ → Product → Product
stocked n now p = record p { stock_available = p.stock_available + n; updated_at = now }

-- MAX(0, stock_available - 1)
abbrev pub unstocked : ℕ → Product → Product
unstocked now p = record p { stock_available = p.stock_available - 1; updated_at = now }

unfoldable pub change_stock : ℕ → (Product → Product) → Shop → Shop
unfolding update_products
change_stock id f d = (update_products id f d).1

-- the end of AppendCardSecrets, after the loop
unfoldable pub append_end : ℕ → List String → ℕ → Unit {0} → ShopSql ℕ
append_end product clean now _ = do
  exec_ (change_stock product (stocked (length clean) now))
  commit
  pure (length clean)

-- AppendCardSecrets
unfoldable pub append_card_secrets : ℕ → List String → ShopSql ℕ
append_card_secrets product lines =
    let clean = clean_lines lines in
    branch (length clean == 0) (pure 0) (
      transact do
        now ← gets (λ s. s.env.now)
        inserted ← insert_cards product now clean
        append_end product clean now inserted)

-- ListCardSecrets; a limit of zero or below has become 0.
unfoldable pub list_card_secrets : ℕ → Bool → ℕ → ShopSql (List CardSecret)
list_card_secrets product include_consumed limit = do
  rows ← query (λ d.
      rows_where
        (λ (c : CardSecret). c.product_id == product && (include_consumed || not c.consumed))
        d.shop_card_secrets.rows)
  pure (
      take (if limit == 0 then 200 else limit) (sort_by (λ (a b : CardSecret). ltb b.id a.id) rows))

-- DELETE FROM shop_card_secrets WHERE id = ?
unfoldable pub drop_card : ℕ → Shop → Shop
drop_card id d = set_cards (rows_where (λ c. not (is_card id c)) d.shop_card_secrets.rows) d

-- DeleteUnconsumedSecret
unfoldable pub delete_unconsumed_secret : ℕ → ShopSql (Unit {0})
delete_unconsumed_secret id = transact do
  found ← query (λ d. first_where (is_card id) d.shop_card_secrets.rows)
  c ← or_raise found not_found
  raise_if c.consumed card_consumed
  exec_ (drop_card id)
  now ← gets (λ s. s.env.now)
  exec_ (change_stock c.product_id (unstocked now))
  commit
