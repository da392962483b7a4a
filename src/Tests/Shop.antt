-- ===== src/Tests/Shop.antt =====
-- The properties of the shop at a small shop: one product with two cards, one of them free, and two
-- orders of it.
use hypitoken.Prelude.{
  ℕ, ◌≤◌, ◌≡◌, refl, true, false, [], ◌∷◌, String, pos, ◌⊎◌, arith, first_where, rows_where,
  count_where,
}
use hypitoken.Store.Engine.{all_up, ok, run, transact, ◌>>=◌}
use hypitoken.Shop.Schema.{Product, CardSecret, ShopOrder, Shop, pending, paid}
use hypitoken.Shop.Products.{is_card}
use hypitoken.Shop.Orders.{
  scan_order, settled, free_card, lowest, mark_order_paid_and_fulfil, lock_pending_order, deliver,
  pop_card, hand_over, store_settled,
}
use hypitoken.Shop.Deliver.{DeliverEnds, mark_order_paid_and_fulfil-ends}
use hypitoken.Shop.Once.{settled_once}
use hypitoken.Shop.Calls.{ShopReach, start, after, pay, expire_before, shop_step}
use hypitoken.Shop.Stock.{IsStocked}
use hypitoken.Shop.Stocked.{reached-IsStocked}
use hypitoken.Shop.Sold.{IsThere, IsGone, sold_card_stays}

abbrev key_product : Product
key_product = record {
  id = 1;
  name = "key";
  description = "";
  price_cny = pos 100;
  currency = "cny";
  delivery_type = "card";
  delivery_template = "";
  stock_available = 1;
  active = true;
  sort_order = pos 0;
  created_at = 1;
  updated_at = 1;
}

abbrev sold_card : CardSecret
sold_card = record {
  id = 1;
  product_id = 1;
  content = "AAAA";
  consumed = true;
  consumed_by_order = "s0";
  consumed_at = 2;
  created_at = 1;
}

abbrev free : CardSecret
free = record {
  id = 2;
  product_id = 1;
  content = "BBBB";
  consumed = false;
  consumed_by_order = "";
  consumed_at = 0;
  created_at = 1;
}

abbrev order_of : String → ShopOrder
order_of out = record {
  out_trade_no = out;
  product_id = 1;
  product_name = "key";
  email = "a@x.cn";
  query_pass_hash = "";
  amount_cny = pos 100;
  currency = "cny";
  status = pending;
  pay_method = "stripe";
  trade_no = "";
  pay_url = "";
  qr_code = "";
  pay_session_id = "cs_1";
  fulfillment = "";
  created_at = 3;
  paid_at = 0;
  email_sent = false;
  remote_ip = "";
}

abbrev stall : Shop
stall = record {
  shop_products = record { rows = key_product ∷ []; seq = 1 };
  shop_card_secrets = record { rows = sold_card ∷ free ∷ []; seq = 2 };
  shop_orders = order_of "s1" ∷ order_of "s2" ∷ [];
}

one_each : (id : ℕ) → count_where (is_card id) stall.shop_card_secrets.rows ≤ 1
unfolding count_where
one_each id = ground arith

stall-IsStocked : IsStocked stall
unfolding count_where
stall-IsStocked = record {
  products = (omega arith, tt);
  cards = ((omega arith, omega arith), ((omega arith, omega arith), tt));
  unique = one_each;
  stock = (refl, tt);
}

deliver_example :
    DeliverEnds "s1" "t1"
      (all_up 9)
      stall
      (run (mark_order_paid_and_fulfil "s1" "t1") (all_up 9) stall)
deliver_example = mark_order_paid_and_fulfil-ends "s1" "t1" (all_up 9) stall

both_paid :
    ShopReach stall
      (shop_step (pay "s2" "t2") (all_up 9) (shop_step (pay "s1" "t1") (all_up 8) stall))
both_paid = after (pay "s2" "t2") (all_up 9) (after (pay "s1" "t1") (all_up 8) start)

stocked_example :
    IsStocked (shop_step (pay "s2" "t2") (all_up 9) (shop_step (pay "s1" "t1") (all_up 8) stall))
stocked_example = reached-IsStocked stall _ both_paid stall-IsStocked

sold-IsThere : IsThere 1 sold_card stall
unfolding first_where
sold-IsThere = refl

sold_example :
    IsThere 1 sold_card
      (shop_step (pay "s2" "t2") (all_up 9) (shop_step (pay "s1" "t1") (all_up 8) stall))
    ⊎ IsGone 1 sold_card
        (shop_step (pay "s2" "t2") (all_up 9) (shop_step (pay "s1" "t1") (all_up 8) stall))
sold_example = sold_card_stays stall _ 1 sold_card both_paid stall-IsStocked refl sold-IsThere

abbrev paid_order : ShopOrder
paid_order = settled paid "t1" "BBBB" 9 (scan_order (order_of "s1"))

pays :
    run (mark_order_paid_and_fulfil "s1" "t1") (all_up 9) stall
    ≡ (ok paid_order, (run (mark_order_paid_and_fulfil "s1" "t1") (all_up 9) stall).1)
unfolding run mark_order_paid_and_fulfil transact ◌>>=◌ lock_pending_order first_where deliver
    pop_card hand_over free_card lowest rows_where store_settled
pays = refl

abbrev settled_stall : Shop
settled_stall = (run (mark_order_paid_and_fulfil "s1" "t1") (all_up 9) stall).1

settled_once_example :
    (run
        (mark_order_paid_and_fulfil "s1" "t2")
        (all_up 11)
        (shop_step (expire_before 100) (all_up 10) settled_stall)).0
      ≡ ok paid_order
    → ⊥
settled_once_example =
    settled_once "s1" "t1" "t2" (all_up 9) (all_up 11) stall settled_stall _ paid_order paid_order
      pays (after (expire_before 100) (all_up 10) start)
