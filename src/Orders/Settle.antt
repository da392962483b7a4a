-- ===== src/Orders/Settle.antt =====
-- What the settlement of an order does, and that it is done once.
use hypitoken.Prelude.{
  ℕ, ◌≤◌, ◌≡◌, refl, ap, subst, Bool, true, String, ℤ, ◌+ℤ◌, arith, count_where, update_where,
}
use hypitoken.Store.Schema.{Db, AlipayOrder, topup}
use hypitoken.Store.Sql.{Env, Result, ok, err, Session, run, leave, enter}
use hypitoken.Store.Rules.{
  Undone, pure_end, raise_if_step, gets_step, exec_step, commit_step, transact_step,
}
use hypitoken.Store.Ledger.{IsBalanced}
use hypitoken.Wallet.Home.{IsHome, IsHome-same}
use hypitoken.Wallet.Post.{Posts, Posts-IsBalanced}
use hypitoken.Wallet.Rules.{plain_row, personal_workspace_id_step, add_workspace_balance_tx_step}
use hypitoken.Orders.{set_orders, update_orders, settled, credit_order}

-- The database with the orders flipped and nothing credited yet.
abbrev pub flipped : (AlipayOrder → Bool) → String → ℕ → Db → Db
flipped may_flip trade_no now d =
    set_orders (update_where may_flip (settled trade_no now) d.alipay_orders.rows) d

module _ (may_flip : AlipayOrder → Bool) (trade_no : String) (user : ℕ) (usd_credit : ℤ)
    (ref note : String) (env : Env) (d : Db) where
  -- A settlement fails and changes nothing, or it flips at least one order and makes one balanced
  -- movement of the credit into the user's home workspace, both at once.
  abbrev pub CreditEnds : Result ℤ × Db → Type 0
  CreditEnds (err e, d') = d' ≡ d
  CreditEnds (ok new, d') =
      (home : ℕ) × (bal : ℤ) × IsHome user d home
      × (1 ≤ count_where may_flip d.alipay_orders.rows)
      × (new ≡ bal +ℤ usd_credit)
      × Posts (plain_row home user topup usd_credit ref note env.now) bal
          (flipped may_flip trade_no env.now d) d'

  Ends : Result ℤ × Session → Type 0
  Ends rt = CreditEnds (leave rt)

  -- the same at any statement of a longer call
  pub credit_order-ends_at :
      (clock : ℕ)
      → CreditEnds (
          leave (
            credit_order may_flip trade_no user usd_credit ref note
              (record (enter env d) { clock = clock })))
  unfolding credit_order Ends update_orders
  credit_order-ends_at clock =
      transact_step Ends _ _
        (gets_step T _ _ _ (
          exec_step T _ _ _
            (λ n d' updated.
              raise_if_step T _ _ _ _
                (λ flips.
                  personal_workspace_id_step T user _ _
                    (λ home c its.
                      add_workspace_balance_tx_step T user topup usd_credit ref note true home _ _
                        (λ bal c' d'' _ posts.
                          commit_step T _ _
                            (pure_end T _ _ (
                              home,
                              bal,
                              IsHome-same user home d d' (ap (λ (x : Db). x.users) (moved updated))
                                  (ap (λ (x : Db). x.workspaces) (moved updated)) its,
                              ground arith,
                              refl,
                              subst
                                  (λ (x : Db).
                                    Posts (plain_row home user topup usd_credit ref note env.now)
                                      bal x d'')
                                  (moved updated) posts,
                            ))
                            refl)
                        (λ e c' d''. refl))
                    (λ e c. refl))
                refl)
            (λ e. refl)))
        refl
    where
      T : Result ℤ × Session → Type 0
      T = Undone Ends

      moved :
          {n : ℕ} {d' : Db}
          → ok (update_orders may_flip (settled trade_no env.now) d) ≡ ok (n, d')
          → d' ≡ flipped may_flip trade_no env.now d
      moved h = ground arith

  -- Whatever statement fails, a settlement fails and leaves the database as it was, or it marks
  -- at least one order as paid and makes one balanced movement of the credit into the home
  -- workspace of the user, and returns the balance after it.
  pub credit_order-ends :
      CreditEnds (run (credit_order may_flip trade_no user usd_credit ref note) env d)
  unfolding run
  credit_order-ends = credit_order-ends_at 0

  pub CreditEnds-IsBalanced :
      (end : Result ℤ × Db) → CreditEnds end → IsBalanced d → IsBalanced end.1
  CreditEnds-IsBalanced (err e, d') same v = rw same v
  CreditEnds-IsBalanced (ok new, d') (home, bal, _, _, _, posts) v =
      Posts-IsBalanced posts (record { sums = v.sums; issued = v.issued; known = v.known })

  -- No order to flip, no credit.
  pub nothing_to_flip :
      count_where may_flip d.alipay_orders.rows ≡ 0
      → (end : Result ℤ × Db) → CreditEnds end
      → (end.1 ≡ d) × ((new : ℤ) → end.0 ≡ ok new → ⊥)
  nothing_to_flip none_left (err e, d') same = (same, λ new h. cc)
  nothing_to_flip none_left (ok new, d') (_, _, _, some_flip, _, _) = absurd (omega arith)
