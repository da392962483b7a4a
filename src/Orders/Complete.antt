-- ===== src/Orders/Complete.antt =====
-- A settlement completes when the database does.
use hypitoken.Prelude.{
  ℕ, ◌≤◌, ◌≡◌, refl, Bool, false, some, String, ℤ, pos, ◌+ℤ◌, arith, ltb_ℤ, count_where, ◌==◌,
}
use hypitoken.Store.Schema.{Db, AlipayOrder, topup}
use hypitoken.Store.Sql.{all_up, ok, run, ◌>>=◌}
use hypitoken.Store.Ledger.{select_balance, set_balance}
use hypitoken.Wallet.{select_home, personal_workspace_id, add_workspace_balance_tx}
use hypitoken.Wallet.Rules.{plain_row}
use hypitoken.Wallet.Complete.{insert_plain, home_known, unguarded}
use hypitoken.Orders.{credit_order, update_orders}
use hypitoken.Orders.Settle.{flipped}

-- When every statement runs, the settlement of an order that may be flipped, for a user whose home
-- workspace exists, returns the balance with the credit.
pub credit_completes :
    (may_flip : AlipayOrder → Bool) (trade_no : String) (user : ℕ) (usd_credit : ℤ)
    (ref note : String) (now : ℕ) (d : Db) (home : ℕ) (bal : ℤ)
    → 1 ≤ count_where may_flip d.alipay_orders.rows
    → select_home user d ≡ some home
    → 1 ≤ home
    → select_balance home d ≡ some bal
    → (run (credit_order may_flip trade_no user usd_credit ref note) (all_up now) d).0
      ≡ ok (bal +ℤ usd_credit)
unfolding credit_order update_orders personal_workspace_id add_workspace_balance_tx run ◌>>=◌
    set_balance select_home select_balance
credit_completes may_flip trade_no user usd_credit ref note now d home bal flips has_home real
      found =
    let some_flip : (count_where may_flip d.alipay_orders.rows == 0) ≡ false = ground arith in
    let not_zero : (home == 0) ≡ false = ground arith in
    let row = plain_row home user topup usd_credit ref note now in
    let inserted =
      insert_plain row (set_balance home (bal +ℤ usd_credit) now (flipped may_flip trade_no now d))
        (home_known user home d has_home) refl in
    rw
      (
        some_flip,
        has_home,
        not_zero,
        not_zero,
        found,
        unguarded (ltb_ℤ (bal +ℤ usd_credit) (pos 0)),
        inserted,
      )
      refl
