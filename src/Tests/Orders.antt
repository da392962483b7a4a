-- ===== src/Tests/Orders.antt =====
-- The properties of orders and payment notifications at the small bank.
use hypitoken.Prelude.{
  str_eq, ◌≤◌, ◌≡◌, refl, true, false, some, ℤ, pos, ◌+ℤ◌, ◌-ℤ◌, arith, count_where, first_where,
  exists_where, update_where, trim_space,
}
use hypitoken.Store.Sql.{all_up, ok, run, ◌>>=◌}
use hypitoken.Store.Ledger.{select_balance, set_balance, insert_tx}
use hypitoken.Wallet.{select_home, personal_workspace_id, add_workspace_balance_tx}
use hypitoken.Orders.{credit_order, is_unpaid_order, is_order, credit_stripe_order, update_orders}
use hypitoken.Orders.Settle.{CreditEnds, credit_order-ends}
use hypitoken.Orders.Once.{credit_by, credited_once}
use hypitoken.Orders.Complete.{credit_completes}
use hypitoken.Billing.{apply_notification, apply_to_order, same_money, settled_already}
use hypitoken.Orders.{get_order, credit_paid_order}
use hypitoken.Billing.Apply.{ApplyEnds, apply_notification-ends}
use hypitoken.Tests.{bank, bob_home, bob_balance, two_prices, notification, handler}

credit_order_example :
    CreditEnds
      (is_unpaid_order "A1")
      "T"
      2
      (pos 100)
      "r"
      ""
      (all_up 5)
      bank
      (run (credit_order (is_unpaid_order "A1") "T" 2 (pos 100) "r" "") (all_up 5) bank)
credit_order_example =
    credit_order-ends (is_unpaid_order "A1") "T" 2 (pos 100) "r" "" (all_up 5) bank

one_order : count_where (is_order "A1") bank.alipay_orders.rows ≤ 1
unfolding count_where
one_order = omega arith

first_credit :
    credit_by true "A1" "T" 2 (pos 100) "r" "" (all_up 5) bank
    ≡ (ok (pos 100), (credit_by true "A1" "T" 2 (pos 100) "r" "" (all_up 5) bank).1)
unfolding run credit_stripe_order ◌>>=◌ credit_order update_orders count_where personal_workspace_id
    select_home first_where add_workspace_balance_tx select_balance ◌+ℤ◌ insert_tx exists_where
    set_balance
first_credit = refl

credited_once_example :
    ((credit_by false "A1" "T" 2
        (pos 100)
        "r"
        ""
        (all_up 6)
        (credit_by true "A1" "T" 2 (pos 100) "r" "" (all_up 5) bank).1).1
      ≡ (credit_by true "A1" "T" 2 (pos 100) "r" "" (all_up 5) bank).1)
    × ((new : ℤ)
        → (credit_by false "A1" "T" 2
            (pos 100)
            "r"
            ""
            (all_up 6)
            (credit_by true "A1" "T" 2 (pos 100) "r" "" (all_up 5) bank).1).0
          ≡ ok new
        → ⊥)
credited_once_example =
    credited_once true false "A1" "T" "T" 2 2 (pos 100) (pos 100) "r" "r" "" "" (all_up 5)
      (all_up 6) bank _ (pos 100) one_order first_credit

order_waits : 1 ≤ count_where (is_unpaid_order "A1") bank.alipay_orders.rows
unfolding count_where
order_waits = omega arith

credit_completes_example :
    (run (credit_order (is_unpaid_order "A1") "T" 2 (pos 100) "r" "") (all_up 5) bank).0
    ≡ ok (pos 0 +ℤ pos 100)
credit_completes_example =
    credit_completes (is_unpaid_order "A1") "T" 2 (pos 100) "r" "" 5 bank 2 (pos 0) order_waits
      bob_home (omega arith) bob_balance

apply_notification_example :
    ApplyEnds str_eq two_prices handler notification ""
      (all_up 5)
      bank
      (run (apply_notification str_eq two_prices handler notification "") (all_up 5) bank)
apply_notification_example =
    apply_notification-ends str_eq two_prices handler notification "" (all_up 5) bank

-- the notification settles the order
notification_credits :
    select_balance 2
      (run (apply_notification str_eq two_prices handler notification "") (all_up 5) bank).1
    ≡ some (pos 100)
unfolding run apply_notification ◌>>=◌ get_order first_where apply_to_order trim_space same_money
    credit_paid_order credit_order settled_already update_orders count_where update_where
    personal_workspace_id select_home add_workspace_balance_tx select_balance ◌+ℤ◌ ◌-ℤ◌ insert_tx
    exists_where set_balance
notification_credits = refl
