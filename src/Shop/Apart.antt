-- ===== src/Shop/Apart.antt =====
-- The calls on products and cards leave the orders as they are.
use hypitoken.Prelude.{ℕ, ◌≡◌, subst, List, [], ◌∷◌, String, arith}
use hypitoken.Store.Engine.{ok}
use hypitoken.Store.Keeps.{
  Keeps, pure-Keeps, gets-Keeps, or_raise-Keeps, raise_if-Keeps, branch-Keeps, query-Keeps,
  exec-Keeps, exec_ok-Keeps, exec_-Keeps, autocommit-Keeps, transact-Keeps, commit-Keeps,
  bind-Keeps,
}
use hypitoken.Shop.Schema.{Product, ShopOrder, Shop}
use hypitoken.Shop.Products.{
  insert_product, create_product, update_products, update_product, drop_product, delete_product,
  clean_lines, insert_card, insert_cards, with_card, change_stock, append_end, append_card_secrets,
  drop_card, delete_unconsumed_secret,
}

-- The statements on products and cards leave the orders as they are.
module _ (P : List ShopOrder → Type 0) where
  abbrev Here : Shop → Type 0
  Here d = P d.shop_orders

  pub create_product-Keeps : (p : Product) → Keeps Here (create_product p)
  unfolding create_product insert_product
  create_product-Keeps p =
      bind-Keeps Here _ _ (gets-Keeps Here _)
        (λ now. autocommit-Keeps Here _ (exec_ok-Keeps Here _ (λ d h. h)))

  pub update_product-Keeps : (p : Product) → Keeps Here (update_product p)
  unfolding update_product update_products
  update_product-Keeps p = bind-Keeps Here _ _ (gets-Keeps Here _) (λ now.
      bind-Keeps Here _ _ (autocommit-Keeps Here _ (exec_ok-Keeps Here _ (λ d h. h)))
        (λ n. raise_if-Keeps Here _ _))

  pub delete_product-Keeps : (id : ℕ) → Keeps Here (delete_product id)
  unfolding delete_product drop_product
  delete_product-Keeps id =
      bind-Keeps Here _ _ (autocommit-Keeps Here _ (exec_ok-Keeps Here _ (λ d h. h)))
        (λ n. raise_if-Keeps Here _ _)

  insert_card-Here :
      (product now : ℕ) (l : String) (d : Shop) (a : Unit {0}) (e : Shop)
      → Here d
      → insert_card product now l d ≡ ok (a, e)
      → Here e
  unfolding insert_card with_card
  insert_card-Here product now l d a e h done = subst P (ground arith) h

  insert_cards-Keeps :
      (product now : ℕ) (ls : List String) → Keeps Here (insert_cards product now ls)
  unfolding insert_cards
  insert_cards-Keeps product now [] = pure-Keeps Here tt
  insert_cards-Keeps product now (l ∷ ls) =
      bind-Keeps Here _ _ (exec-Keeps Here _ (insert_card-Here product now l))
        (λ _. insert_cards-Keeps product now ls)

  pub append_card_secrets-Keeps :
      (product : ℕ) (lines : List String) → Keeps Here (append_card_secrets product lines)
  unfolding append_card_secrets append_end change_stock
  append_card_secrets-Keeps product lines = branch-Keeps Here _ _ _ (pure-Keeps Here 0) (
      transact-Keeps Here _ (
        bind-Keeps Here _ _ (gets-Keeps Here _) (λ now.
          bind-Keeps Here _ _ (insert_cards-Keeps product now (clean_lines lines)) (λ _.
            bind-Keeps Here _ _ (exec_-Keeps Here _ (λ d h. h))
              (λ _. bind-Keeps Here _ _ (commit-Keeps Here) (λ _. pure-Keeps Here _))))))

  pub delete_unconsumed_secret-Keeps : (id : ℕ) → Keeps Here (delete_unconsumed_secret id)
  unfolding delete_unconsumed_secret drop_card change_stock
  delete_unconsumed_secret-Keeps id = transact-Keeps Here _ (
      bind-Keeps Here _ _ (query-Keeps Here _) (λ found.
        bind-Keeps Here _ _ (or_raise-Keeps Here _ _) (λ c.
          bind-Keeps Here _ _ (raise_if-Keeps Here _ _) (λ _.
            bind-Keeps Here _ _ (exec_-Keeps Here _ (λ d h. h)) (λ _.
              bind-Keeps Here _ _ (gets-Keeps Here _) (λ now.
                bind-Keeps Here _ _ (exec_-Keeps Here _ (λ d h. h)) (λ _. commit-Keeps Here)))))))
