-- ===== src/Shop/Deliver.antt =====
-- What the settlement of a shop order does: the order is settled, and gets a card, a text, or its
-- place in the operator's queue, all in one commit.
use hypitoken.Prelude.{
  ℕ, suc, ◌≡◌, refl, Bool, true, false, not, Option, some, none, String, str_eq, first_where,
}
use hypitoken.Store.Engine.{
  Error, driver, Env, Result, ok, err, SessionOn, run, leave, tick, follow, ◌>>=◌,
}
use hypitoken.Store.Rules.{
  Undone, pure_end, raise_if_step, gets_step, or_raise_step, query_step, exec__step, branch_step,
  commit_step, transact_step, bind_step,
}
use hypitoken.Shop.Schema.{
  Product, CardSecret, ShopOrder, Shop, ShopSql, ShopStatus, paid, await_manual,
}
use hypitoken.Shop.Products.{is_product, unstocked, change_stock}
use hypitoken.Shop.Orders.{
  is_shop_order, settleable, scan_order, free_card, consume_card, hand_over, pop_card, deliver,
  settled, settle_order, lock_pending_order, mark_order_paid_and_fulfil, store_settled,
}
use hypitoken.Shop.Lowest.{IsLowest, free_card-IsLowest}

-- What an order gets from the shop `d`, and the shop after that.
pub data Given (out : String) (now : ℕ) (d : Shop) (product : ℕ)
    : Option Product → ShopStatus → String → Shop → Type 0 where
  card :
      (p : Product) (c : CardSecret)
      → str_eq p.delivery_type "card" ≡ true
      → free_card product d ≡ some c
      → IsLowest product d.shop_card_secrets.rows (some c)
      → Given out now d product
          (some p)
          paid
          c.content
          (change_stock product (unstocked now) (consume_card out now c.id d))
  template :
      (p : Product)
      → str_eq p.delivery_type "auto" ≡ true
      → Given out now d product (some p) paid p.delivery_template d
  drained :
      (p : Product)
      → str_eq p.delivery_type "card" ≡ true
      → free_card product d ≡ none
      → IsLowest product d.shop_card_secrets.rows none
      → Given out now d product (some p) await_manual "" d
  by_hand :
      (p : Product)
      → str_eq p.delivery_type "auto" ≡ false
      → str_eq p.delivery_type "card" ≡ false
      → Given out now d product (some p) await_manual "" d
  deleted : Given out now d product none await_manual "" d

module _ (out : String) (product now : ℕ)
    (Q : Result (ShopStatus × String) × SessionOn Shop → Type 0) (s : SessionOn Shop)
    (failed : (n : ℕ) (w : Shop) → Q (err driver, record s { clock = n; work = w })) where
  abbrev Good : Option Product → Type 0
  Good p =
      (st : ShopStatus) (text : String) (n : ℕ) (w : Shop)
      → Given out now s.work product p st text w
      → Q (ok (st, text), record s { clock = n; work = w })

  hand_over_end :
      (p : Product)
      → str_eq p.delivery_type "card" ≡ true
      → Good (some p)
      → (card : Option CardSecret) → free_card product s.work ≡ card
      → Q (hand_over card out product now (record s { clock = suc s.clock }))
  unfolding hand_over
  hand_over_end p is_card good none drained_pool = pure_end Q _ _ (
      good _ _ _ _
        (drained p is_card drained_pool (free_card-IsLowest product s.work none drained_pool)))
  hand_over_end p is_card good (some c) found =
      exec__step Q _ _ _
        (exec__step Q _ _ _
          (pure_end Q _ _ (
            good _ _ _ _
              (card p c is_card found (free_card-IsLowest product s.work (some c) found))))
          (failed _ _))
        (failed _ _)

  deliver_end : (p : Option Product) → Good p → Q (deliver p out product now s)
  unfolding deliver pop_card
  deliver_end none good = pure_end Q _ _ (good _ _ _ _ deleted)
  deliver_end (some p) good =
      branch_step Q _ _ _ _ (λ auto. pure_end Q _ _ (good _ _ _ _ (template p auto)))
        (λ not_auto.
          branch_step Q _ _ _ _
            (λ is_card. query_step Q _ _ _ (hand_over_end p is_card good _ refl) (failed _ _))
            (λ not_card. pure_end Q _ _ (good _ _ _ _ (by_hand p not_auto not_card))))

unsettled : (b : Bool) → not b ≡ false → b ≡ true
unsettled true h = refl
unsettled false h = cc

lock_pending_order_step :
    {B : Type 0} (P : Result B × SessionOn Shop → Type 0) (out : String) (k : ShopOrder → ShopSql B)
    (s : SessionOn Shop)
    → ((o : ShopOrder)
        → first_where (is_shop_order out) s.work.shop_orders ≡ some o
        → settleable o ≡ true
        → P (k (scan_order o) (tick s)))
    → ((e : Error) → P (err e, tick s))
    → P ((lock_pending_order out >>= k) s)
unfolding lock_pending_order
lock_pending_order_step P out k s good failed = bind_step P _ k s (
    query_step Q _ _ _
      (or_raise_step Q _ _ _ _
        (λ o found.
          raise_if_step Q _ _ _ _ (λ may. pure_end Q _ _ (good o found (unsettled _ may)))
            (failed _))
        (failed _))
      (failed _))
  where
    Q : Result ShopOrder × SessionOn Shop → Type 0
    Q x = P (follow k x)

module _ (out trade_no : String) (env : Env) (d : Shop) where
  -- A refusal changes nothing. A success finds an order that is pending or expired, gives it what
  -- its product delivers, and stores it as settled with that.
  abbrev pub DeliverEnds : Result ShopOrder × Shop → Type 0
  DeliverEnds (err e, d') = d' ≡ d
  DeliverEnds (ok o', d') =
      (o : ShopOrder) × (first_where (is_shop_order out) d.shop_orders ≡ some o)
      × (settleable o ≡ true)
      × (st : ShopStatus) × (text : String) × (w : Shop) × Given out env.now d o.product_id
          (first_where (is_product o.product_id) d.shop_products.rows) st text w
      × (o' ≡ settled st trade_no text env.now (scan_order o))
      × (d' ≡ settle_order out (settled st trade_no text env.now) w)

  Ends : Result ShopOrder × SessionOn Shop → Type 0
  Ends rt = DeliverEnds (leave rt)

  -- Whatever statement fails, a settlement changes nothing, or it finds an order that is pending or
  -- expired and stores it as settled with what its product delivers: the lowest free card, which is
  -- consumed and leaves the stock, the product's text, or nothing, for the operator to deliver.
  pub mark_order_paid_and_fulfil-ends :
      DeliverEnds (run (mark_order_paid_and_fulfil out trade_no) env d)
  unfolding mark_order_paid_and_fulfil store_settled run Ends
  mark_order_paid_and_fulfil-ends =
      transact_step Ends _ _
        (lock_pending_order_step T _ _ _
          (λ o found may.
            query_step T _ _ _
              (gets_step T _ _ _ (
                bind_step T _ _ _ (
                  deliver_end out o.product_id env.now
                    (λ x. T (follow (store_settled out trade_no (scan_order o) env.now) x)) _
                    (λ n w. refl) _
                    (λ st text n w given.
                      exec__step T _ _ _
                        (commit_step T _ _
                          (pure_end T _ _ (o, found, may, st, text, w, given, refl, refl)) refl)
                        refl))))
              refl)
          (λ e. refl))
        refl
    where
      T : Result ShopOrder × SessionOn Shop → Type 0
      T = Undone Ends
