-- ===== src/Shop/Calls.antt =====
-- The operations of internal/shop/db.go together: the calls that the shop makes on its database in
-- any order, each in its own environment, and what each of them does to the tables.
use hypitoken.Prelude.{ℕ, List, String}
use hypitoken.Store.Engine.{Env, run}
use hypitoken.Shop.Schema.{Product, ShopOrder, Shop}
use hypitoken.Shop.Products.{
  create_product, update_product, delete_product, append_card_secrets, delete_unconsumed_secret,
}
use hypitoken.Shop.Orders.{
  create_shop_order, mark_order_paid_and_fulfil, mark_email_sent, set_fulfillment,
  expire_pending_before,
}

-- A call that changes the shop's database.
pub data ShopCall : Type 0 where
  create : Product → ShopCall
  edit : Product → ShopCall
  remove : ℕ → ShopCall
  append_cards : ℕ → List String → ShopCall
  delete_card : ℕ → ShopCall
  place : ShopOrder → ShopCall
  pay : String → String → ShopCall
  mark_sent : String → ShopCall
  fulfil : String → String → ShopCall
  expire_before : ℕ → ShopCall

-- the database that a call leaves
unfoldable pub shop_step : ShopCall → Env → Shop → Shop
shop_step (create p) env d = (run (create_product p) env d).1
shop_step (edit p) env d = (run (update_product p) env d).1
shop_step (remove id) env d = (run (delete_product id) env d).1
shop_step (append_cards product lines) env d = (run (append_card_secrets product lines) env d).1
shop_step (delete_card id) env d = (run (delete_unconsumed_secret id) env d).1
shop_step (place o) env d = (run (create_shop_order o) env d).1
shop_step (pay out trade_no) env d = (run (mark_order_paid_and_fulfil out trade_no) env d).1
shop_step (mark_sent out) env d = (run (mark_email_sent out) env d).1
shop_step (fulfil out text) env d = (run (set_fulfillment out text) env d).1
shop_step (expire_before cutoff) env d = (run (expire_pending_before cutoff) env d).1

-- What calls reach, in any order and in any environments.
pub data ShopReach (d : Shop) : Shop → Type 0 where
  start : ShopReach d d
  after : {e : Shop} (c : ShopCall) (env : Env) → ShopReach d e → ShopReach d (shop_step c env e)
