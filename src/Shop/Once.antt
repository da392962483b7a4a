-- ===== src/Shop/Once.antt =====
-- An order of the shop is settled once.
use hypitoken.Prelude.{
  ◌≡◌, refl, sym, ap, subst, ◌∙◌, true, Bool-cases, inl, inr, some, List, [], ◌∷◌, String, arith,
  first_where, update_where, exists_where, count_where, count_where-replaced, exists_where-update,
  exists_where-first,
}
use hypitoken.Store.Engine.{Env, Result, ok, err, run}
use hypitoken.Store.Keeps.{run-Keeps}
use hypitoken.Shop.Schema.{ShopOrder, Shop}
use hypitoken.Shop.Orders.{
  is_shop_order, settleable, settled, settle_order, mark_order_paid_and_fulfil,
}
use hypitoken.Shop.Calls.{
  ShopCall, shop_step, ShopReach, start, after, create, edit, remove, append_cards, delete_card,
  place, pay, mark_sent, fulfil, expire_before,
}
use hypitoken.Shop.Deliver.{DeliverEnds, mark_order_paid_and_fulfil-ends}
use hypitoken.Shop.Shut.{
  Given-orders, is_due, IsShutIn, IsShut, update_where-IsShut, create_shop_order-Keeps,
  mark_email_sent-Keeps, set_fulfillment-Keeps, expire_pending_before-Keeps,
}
use hypitoken.Shop.Apart.{
  create_product-Keeps, update_product-Keeps, delete_product-Keeps, append_card_secrets-Keeps,
  delete_unconsumed_secret-Keeps,
}

nothing_due :
    (out : String) (os : List ShopOrder) (o : ShopOrder)
    → count_where (is_due out) os ≡ 0
    → first_where (is_shop_order out) os ≡ some o
    → settleable o ≡ true
    → ⊥
unfolding count_where first_where
nothing_due out [] o none_due found may = cc
nothing_due out (x ∷ os) o none_due found may = elim (Bool-cases (is_shop_order out x)) [
  | inl here ↦
      let same : x ≡ o = ground arith in
      let due : settleable x ≡ true = ap settleable same ∙ may in ground arith
  | inr other ↦ nothing_due out os o (ground arith) (ground arith) may
]

-- A settlement shuts its order, and keeps the others shut.
settled-IsShut :
    (out n trade_no : String) (env : Env) (d : Shop) (end : Result ShopOrder × Shop)
    → DeliverEnds n trade_no env d end
    → IsShut out d
    → IsShut out end.1
unfolding settle_order
settled-IsShut out n trade_no env d (err e, d') same h = rw same h
settled-IsShut out n trade_no env d (ok o', d') (o, _, _, st, text, w, given, _, last) h = rw last (
    update_where-IsShut out (is_shop_order n) (settled st trade_no text env.now) (λ o. refl)
      (λ o h k.
        let shut = (Given-orders given).1 (settled st trade_no text env.now o) in ground arith)
      w.shop_orders (rw (Given-orders given).0 h))

shop_step-IsShut :
    (out : String) (c : ShopCall) (env : Env) (d : Shop)
    → IsShut out d
    → IsShut out (shop_step c env d)
unfolding shop_step
shop_step-IsShut out (create p) env d =
    run-Keeps (IsShut out) _ env d (create_product-Keeps (IsShutIn out) p)
shop_step-IsShut out (edit p) env d =
    run-Keeps (IsShut out) _ env d (update_product-Keeps (IsShutIn out) p)
shop_step-IsShut out (remove id) env d =
    run-Keeps (IsShut out) _ env d (delete_product-Keeps (IsShutIn out) id)
shop_step-IsShut out (append_cards product lines) env d =
    run-Keeps (IsShut out) _ env d (append_card_secrets-Keeps (IsShutIn out) product lines)
shop_step-IsShut out (delete_card id) env d =
    run-Keeps (IsShut out) _ env d (delete_unconsumed_secret-Keeps (IsShutIn out) id)
shop_step-IsShut out (place o) env d =
    run-Keeps (IsShut out) _ env d (create_shop_order-Keeps out o)
shop_step-IsShut out (pay n trade_no) env d =
    settled-IsShut out n trade_no env d _ (mark_order_paid_and_fulfil-ends n trade_no env d)
shop_step-IsShut out (mark_sent n) env d =
    run-Keeps (IsShut out) _ env d (mark_email_sent-Keeps out n)
shop_step-IsShut out (fulfil n text) env d =
    run-Keeps (IsShut out) _ env d (set_fulfillment-Keeps out n text)
shop_step-IsShut out (expire_before cutoff) env d =
    run-Keeps (IsShut out) _ env d (expire_pending_before-Keeps out cutoff)

reached-IsShut : (out : String) {d e : Shop} → ShopReach d e → IsShut out d → IsShut out e
reached-IsShut out start h = h
reached-IsShut out (after {e} c env r) h = shop_step-IsShut out c env e (reached-IsShut out r h)

-- Once an order was settled, no settlement of it succeeds again, by whichever payment, after any
-- calls on the shop, in any order and whichever statements fail.
pub settled_once :
    (out trade_no trade_no' : String) (env env' : Env) (d d' e : Shop) (o o' : ShopOrder)
    → run (mark_order_paid_and_fulfil out trade_no) env d ≡ (ok o, d')
    → ShopReach d' e
    → (run (mark_order_paid_and_fulfil out trade_no') env' e).0 ≡ ok o'
    → ⊥
unfolding settle_order
settled_once out trade_no trade_no' env env' d d' e o o' first reach =
    let (old, found, _, st, text, w, given, _, last) =
      subst (DeliverEnds out trade_no env d) first
        (mark_order_paid_and_fulfil-ends out trade_no env d) in
    let f = settled st trade_no text env.now in
    let there : exists_where (is_shop_order out) d.shop_orders ≡ true =
      exists_where-first (is_shop_order out) (is_shop_order out) (λ a h. h) d.shop_orders old
        found in
    let shut : IsShutIn out (update_where (is_shop_order out) f w.shop_orders) = (
      exists_where-update (is_shop_order out) (is_shop_order out) f (λ a. refl) w.shop_orders
          ∙ ap (exists_where (is_shop_order out)) (Given-orders given).0
          ∙ there,
      count_where-replaced (is_shop_order out) (is_due out) f
          (λ a h. let closed = (Given-orders given).1 (f a) in ground arith) (λ a h. ground arith)
          w.shop_orders,
    ) in
    refused (reached-IsShut out reach (subst (IsShut out) (sym last) shut)) _
      (mark_order_paid_and_fulfil-ends out trade_no' env' e)
  where
    refused :
        IsShut out e
        → (end : Result ShopOrder × Shop) → DeliverEnds out trade_no' env' e end
        → end.0 ≡ ok o'
        → ⊥
    refused shut (err x, _) _ h = cc
    refused shut (ok _, _) (again, found, may, _, _, _, _, _, _) h =
        nothing_due out e.shop_orders again shut.1 found may
