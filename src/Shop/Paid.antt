-- ===== src/Shop/Paid.antt =====
-- The settlement of a shop order completes when the database does, with what the order is due.
use hypitoken.Prelude.{ℕ, ◌≡◌, false, Option, some, none, String, str_eq, Memᴰ, All, count_where}
use hypitoken.Shop.Schema.{Product, CardSecret, Shop, ShopStatus, paid, await_manual}
use hypitoken.Shop.Products.{change_stock, unstocked}
use hypitoken.Shop.Orders.{is_free, consume_card}
use hypitoken.Shop.Lowest.{Above}

-- What an order of a product is due from the shop `d`, and the shop after it was given: the text of
-- an auto product; the unused card of the lowest identifier that a card product has, which is used
-- up for the order and leaves the stock; or nothing yet, for a card product without unused cards,
-- for another delivery and for a product that was deleted.
pub data Due (out : String) (now product : ℕ) (d : Shop)
    : Option Product → ShopStatus → String → Shop → Type 0 where
  as_text :
      (p : Product)
      → p.delivery_type ≡ "auto"
      → Due out now product d (some p) paid p.delivery_template d
  as_card :
      (p : Product) (c : CardSecret)
      → p.delivery_type ≡ "card"
      → Memᴰ c d.shop_card_secrets.rows
      → c.product_id ≡ product
      → c.consumed ≡ false
      → All (Above product c.id) d.shop_card_secrets.rows
      → Due out now product d
          (some p)
          paid
          c.content
          (change_stock product (unstocked now) (consume_card out now c.id d))
  sold_out :
      (p : Product)
      → p.delivery_type ≡ "card"
      → count_where (is_free product) d.shop_card_secrets.rows ≡ 0
      → Due out now product d (some p) await_manual "" d
  by_hand :
      (p : Product)
      → str_eq p.delivery_type "auto" ≡ false
      → str_eq p.delivery_type "card" ≡ false
      → Due out now product d (some p) await_manual "" d
  deleted : Due out now product d none await_manual "" d
