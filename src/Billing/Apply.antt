-- ===== src/Billing/Apply.antt =====
-- What a notification does.
use hypitoken.Prelude.{
  ℕ, ◌≡◌, refl, sym, ap, Bool, true, false, not, ◌||◌, Option, some, String, ℤ, ◌⊎◌, inl, inr,
  trim_space, first_where, update_where, ◌∙◌,
}
use hypitoken.Store.Schema.{Db, AlipayOrder, paid, expired, failed}
use hypitoken.Store.Sql.{
  Env, order_expired, Result, ok, err, Session, run, leave, enter, follow, recover, raise, pure,
  committed, ◌>>=◌,
}
use hypitoken.Store.Rules.{
  pure_end, last, bind_step, branch_step, raise_if_step, raise_end, gets_step, or_raise_step,
  query_step, attempt_any_step, catch_end, on_line_cases,
}
use hypitoken.Orders.{
  is_status, is_order, with_status, is_pending_order, set_orders, update_orders, get_order,
  mark_order_expired, credit_paid_order,
}
use hypitoken.Orders.Settle.{CreditEnds, credit_order-ends_at}
use hypitoken.Billing.{
  Notification, Handler, same_money, is_foreign, is_late, is_settled, apply_notification,
  apply_to_order, unknown_order, settled_already,
}

-- the database with the pending order of a number expired
abbrev pub lapsed : String → Db → Db
lapsed out d =
    set_orders (update_where (is_pending_order out) (with_status expired) d.alipay_orders.rows) d

-- Expiring an order is done or not.
mark_order_expired-saved :
    (out : String) (s : Session)
    → s.work ≡ s.saved
    → ((mark_order_expired out s).1.saved ≡ s.saved)
      ⊎ ((mark_order_expired out s).1.saved ≡ lapsed out s.saved)
unfolding mark_order_expired update_orders ◌>>=◌
mark_order_expired-saved out s same =
    on_line_cases
      (λ x.
        ((follow (λ _. pure tt) (committed x)).1.saved ≡ s.saved)
        ⊎ ((follow (λ _. pure tt) (committed x)).1.saved ≡ lapsed out s.saved))
      (s.env.up s.clock) _ _ (λ _. inr (ap (lapsed out) same)) (inl same)

module _ (equal_fold : String → String → Bool) (parse_float : String → Option ℤ) (h : Handler)
    (n : Notification) (note : String) (env : Env) (d : Db) where
  -- the order that a notification names, and that it may settle
  pub record Valid (o : AlipayOrder) : Type 0 where
    pub found : first_where (is_order n.out_trade_no) d.alipay_orders.rows ≡ some o
    pub not_paid : is_status paid o ≡ false
    pub not_closed : is_status expired o || is_status failed o ≡ false
    pub settled : is_settled equal_fold parse_float n ≡ true
    pub ours : is_foreign h n ≡ false
    pub got : ℤ
    pub amount : parse_float (trim_space n.total_amount) ≡ some got
    pub matches : same_money got o.cny_amount ≡ true
    pub in_time : is_late h env.now o ≡ false

  -- A notification leaves the database as it was, or expires the pending order that it names, or
  -- settles an order that it is valid for.
  abbrev pub ApplyEnds : Result (Unit {0}) × Db → Type 0
  ApplyEnds (err e, d') =
      (d' ≡ d)
      ⊎ ((o : AlipayOrder) × (first_where (is_order n.out_trade_no) d.alipay_orders.rows ≡ some o)
          × (e ≡ order_expired)
          × (is_late h env.now o ≡ true)
          × (d' ≡ lapsed o.out_trade_no d))
  ApplyEnds (ok _, d') =
      (d' ≡ d)
      ⊎ ((o : AlipayOrder) × (new : ℤ) × Valid o
          × CreditEnds (is_pending_order o.out_trade_no) n.trade_no o.user_id o.usd_credit
              o.out_trade_no note env d (ok new, d'))

  Ends : Result (Unit {0}) × Session → Type 0
  Ends rt = ApplyEnds (leave rt)

  on_order :
      (o : AlipayOrder) (c : ℕ)
      → first_where (is_order n.out_trade_no) d.alipay_orders.rows ≡ some o
      → Ends (apply_to_order equal_fold parse_float h n note o (record (enter env d) { clock = c }))
  unfolding apply_to_order credit_paid_order settled_already Ends pure
  on_order o c found =
      branch_step Ends _ _ _ _
        (λ _. pure_end Ends tt (record (enter env d) { clock = c }) (inl refl))
        (λ not_paid.
          raise_if_step Ends _ _ _ _
            (λ not_closed.
              raise_if_step Ends _ _ _ _
                (λ is_good.
                  raise_if_step Ends _ _ _ _
                    (λ ours.
                      or_raise_step Ends _ _ _ _
                        (λ got amount.
                          raise_if_step Ends _ _ _ _
                            (λ matches. gets_step Ends _ _ _ (
                              branch_step Ends _ _ _ _
                                (λ late. attempt_any_step Ends _ _ _ (λ r t e. raise_end Ends _ _ (
                                  expiry late t
                                    (ap (λ (x : Result (Unit {0}) × Session). x.1.saved) e))))
                                (λ in_time. catch_end Ends _ _ _ (
                                  bind_step H _ _ _ (
                                    credited
                                      (record {
                                        found = found;
                                        not_paid = not_paid;
                                        not_closed = not_closed;
                                        settled = yes _ is_good;
                                        ours = ours;
                                        got = got;
                                        amount = amount;
                                        matches = yes _ matches;
                                        in_time = in_time;
                                      })
                                      _
                                      (credit_order-ends_at _ n.trade_no o.user_id o.usd_credit
                                        o.out_trade_no note env d c))))))
                            (inl refl))
                        (inl refl))
                    (inl refl))
                (inl refl))
            (inl refl))
    where
      H : Result (Unit {0}) × Session → Type 0
      H rt = Ends (recover settled_already rt)

      yes : (b : Bool) → not b ≡ false → b ≡ true
      yes true p = refl
      yes false p = cc

      expiry :
          is_late h env.now o ≡ true
          → (t : Session)
          → (mark_order_expired o.out_trade_no (record (enter env d) { clock = c })).1.saved
            ≡ t.saved
          → ApplyEnds (err order_expired, t.saved)
      expiry late t e =
          elim (mark_order_expired-saved o.out_trade_no (record (enter env d) { clock = c }) refl) [
            | inl same ↦ inl (sym e ∙ same)
            | inr gone ↦ inr (o, found, refl, late, sym e ∙ gone)
          ]

      credited :
          Valid o
          → (rt : Result ℤ × Session)
          → CreditEnds
              (is_pending_order o.out_trade_no)
              n.trade_no
              o.user_id
              o.usd_credit
              o.out_trade_no
              note
              env
              d
              (leave rt)
          → H (follow (λ _. pure tt) rt)
      credited valid (ok new, t) ends = inr (o, new, valid, ends)
      credited valid (err x, t) same =
          branch_step Ends _ _ _ t (λ _. inl same) (λ _. raise_end Ends x t (inl same))

  -- Whatever statement fails, a notification that is answered with success leaves the database as it
  -- was or settles the pending order that it names, once its status, app id, amount and age were
  -- found to be in order; one that is refused leaves the database as it was or expires the order
  -- that it names, which is past its life.
  pub apply_notification-ends :
      ApplyEnds (run (apply_notification equal_fold parse_float h n note) env d)
  unfolding apply_notification get_order run Ends raise
  apply_notification-ends = bind_step Ends _ _ _ (
      catch_end F _ _ _ (
        query_step G _ _ _
          (last G _ _
            (or_raise_step G _ _ _ _ (λ o found. pure_end G _ _ (on_order o 1 found)) (inl refl)))
          (inl refl)))
    where
      F : Result AlipayOrder × Session → Type 0
      F rt = Ends (follow (apply_to_order equal_fold parse_float h n note) rt)

      G : Result AlipayOrder × Session → Type 0
      G rt = F (recover (λ e. raise (unknown_order e)) rt)
