-- ===== src/Orders.antt =====
-- internal/saas/db/orders.go: top-up orders and their settlement.
pub mod Settle
pub mod Once
pub mod Complete
use hypitoken.Prelude.{
  ℕ, zero, suc, ◌+◌, Bool, true, false, Option, none, some, List, [], ◌∷◌, ◌++◌, String, ◌&&◌, ◌||◌,
  not, ℤ, ◌==◌, ltb, leb, str_eq, if◌then◌else◌, first_where, rows_where, update_where, count_where,
  exists_where, take, drop,
}
use hypitoken.Store.Schema.{
  Db, Table, AlipayOrder, OrderStatus, pending, paid, expired, failed, order_rank, topup, User,
}
use hypitoken.Store.Sql.{
  Error, not_found, order_not_pending, unique_violation, foreign_key_violation, Result, ok, err,
  Sql, pure, gets, or_raise, raise_if, query, exec, autocommit, commit, transact, ◌>>=◌, ◌>>◌,
}
use hypitoken.Wallet.{personal_workspace_id, add_workspace_balance_tx}

abbrev pub is_status : OrderStatus → AlipayOrder → Bool
is_status st o = order_rank o.status == order_rank st

abbrev pub is_order : String → AlipayOrder → Bool
is_order out o = str_eq o.out_trade_no out

abbrev pub set_orders : List AlipayOrder → Db → Db
set_orders rows d = record d { alipay_orders = record (d.alipay_orders) { rows = rows } }

-- UPDATE alipay_orders SET … WHERE p, with the number of rows affected
unfoldable pub update_orders : (AlipayOrder → Bool) → (AlipayOrder → AlipayOrder) → Db → ℕ × Db
update_orders p f d =
    (count_where p d.alipay_orders.rows, set_orders (update_where p f d.alipay_orders.rows) d)

-- INSERT INTO alipay_orders: out_trade_no is the primary key, user_id refers to users.
unfoldable pub insert_order : AlipayOrder → Db → Result (Unit {0} × Db)
insert_order o d =
    if not (exists_where (λ (u : User). u.id == o.user_id) d.users.rows)
    then err foreign_key_violation
    else if exists_where (is_order o.out_trade_no) d.alipay_orders.rows
    then err unique_violation
    else ok (tt, set_orders (d.alipay_orders.rows ++ o ∷ []) d)

-- CreateOrder: whatever the caller left in them, the status is pending, there is no trade number,
-- and the times are now and never.
unfoldable pub create_order : AlipayOrder → Sql (Unit {0})
create_order o = do
  now ← gets (λ s. s.env.now)
  autocommit (
      exec (
        insert_order (record o { status = pending; trade_no = ""; created_at = now; paid_at = 0 })))

-- GetOrder
unfoldable pub get_order : String → Sql AlipayOrder
get_order out = do
  found ← query (λ d. first_where (is_order out) d.alipay_orders.rows)
  or_raise found not_found

abbrev pub settled : String → ℕ → AlipayOrder → AlipayOrder
settled trade_no now o = record o { status = paid; trade_no = trade_no; paid_at = now }

abbrev pub with_status : OrderStatus → AlipayOrder → AlipayOrder
with_status st o = record o { status = st }

-- MarkOrderPaid
unfoldable pub mark_order_paid : String → String → Sql (Unit {0})
mark_order_paid out trade_no = do
  now ← gets (λ s. s.env.now)
  n ← autocommit (
      exec (λ d.
        ok (update_orders (λ o. is_order out o && is_status pending o) (settled trade_no now) d)))
  raise_if (n == 0) order_not_pending

-- The common part of CreditPaidOrder and CreditStripeOrder, which differ in the orders that their
-- UPDATE may flip.
unfoldable pub credit_order : (AlipayOrder → Bool) → String → ℕ → ℤ → String → String → Sql ℤ
credit_order may_flip trade_no user usd_credit ref note = transact do
  now ← gets (λ s. s.env.now)
  n ← exec (λ d. ok (update_orders may_flip (settled trade_no now) d))
  raise_if (n == 0) order_not_pending
  ws ← personal_workspace_id user
  bal ← add_workspace_balance_tx ws user topup usd_credit ref note true
  commit
  pure bal

-- WHERE out_trade_no = ? AND status = 'pending'
abbrev pub is_pending_order : String → AlipayOrder → Bool
is_pending_order out o = is_order out o && is_status pending o

-- WHERE out_trade_no = ? AND status != 'paid'
abbrev pub is_unpaid_order : String → AlipayOrder → Bool
is_unpaid_order out o = is_order out o && not (is_status paid o)

-- CreditPaidOrder
unfoldable pub credit_paid_order : String → String → ℕ → ℤ → String → String → Sql ℤ
credit_paid_order out trade_no user usd_credit ref note =
    credit_order (is_pending_order out) trade_no user usd_credit ref note

-- CreditStripeOrder
unfoldable pub credit_stripe_order : String → String → ℕ → ℤ → String → String → Sql ℤ
credit_stripe_order out trade_no user usd_credit ref note =
    credit_order (is_unpaid_order out) trade_no user usd_credit ref note

-- MarkOrderExpired
unfoldable pub mark_order_expired : String → Sql (Unit {0})
mark_order_expired out = do
  autocommit (exec (λ d. ok (update_orders (is_pending_order out) (with_status expired) d)))
  pure tt

-- ExpirePendingOrdersBefore
unfoldable pub expire_pending_orders_before : ℕ → Sql ℕ
expire_pending_orders_before cutoff = autocommit (
    exec (λ d. ok (
      update_orders (λ o. is_status pending o && ltb o.created_at cutoff) (with_status expired) d)))

-- CountPendingOrders
unfoldable pub count_pending_orders : ℕ → Sql ℕ
count_pending_orders user =
    query (λ d. count_where (λ o. o.user_id == user && is_status pending o) d.alipay_orders.rows)

-- activeOrderFilter
abbrev pub is_active : AlipayOrder → Bool
is_active o = is_status pending o || is_status paid o

-- ORDER BY created_at DESC; SQLite leaves the order of equal times open, here it is insertion order.
unfoldable pub insert_newest : AlipayOrder → List AlipayOrder → List AlipayOrder
insert_newest o [] = o ∷ []
insert_newest o (p ∷ ps) =
    if leb p.created_at o.created_at then o ∷ p ∷ ps else p ∷ insert_newest o ps

unfoldable pub newest_first : List AlipayOrder → List AlipayOrder
unfolding insert_newest
newest_first [] = []
newest_first (o ∷ os) = insert_newest o (newest_first os)

abbrev pub page_limit : ℕ → ℕ → ℕ
page_limit preset limit = if limit == 0 then preset else limit

-- ListOrders: a page and the number of rows that the pages are cut from. A limit or an offset below
-- zero has become 0.
unfoldable pub list_orders : ℕ → ℕ → ℕ → Sql (List AlipayOrder × ℕ)
unfolding newest_first
list_orders user limit offset = do
  total ← query (λ d. count_where (λ o. o.user_id == user && is_active o) d.alipay_orders.rows)
  rows ← query (λ d. rows_where (λ o. o.user_id == user && is_active o) d.alipay_orders.rows)
  pure (take (page_limit 50 limit) (drop offset (newest_first rows)), total)

-- ListAllOrders
unfoldable pub list_all_orders : ℕ → ℕ → Sql (List AlipayOrder × ℕ)
unfolding newest_first
list_all_orders limit offset = do
  total ← query (λ d. count_where is_active d.alipay_orders.rows)
  rows ← query (λ d. rows_where is_active d.alipay_orders.rows)
  pure (take (page_limit 100 limit) (drop offset (newest_first rows)), total)

abbrev pub is_dead : ℕ → AlipayOrder → Bool
is_dead cutoff o = (is_status expired o || is_status failed o) && ltb o.created_at cutoff

-- DELETE FROM alipay_orders WHERE p
unfoldable pub delete_orders : (AlipayOrder → Bool) → Db → ℕ × Db
delete_orders p d = (
  count_where p d.alipay_orders.rows,
  set_orders (rows_where (λ o. not (p o)) d.alipay_orders.rows) d,
)

-- DeleteExpiredOrdersBefore
unfoldable pub delete_expired_orders_before : ℕ → Sql ℕ
delete_expired_orders_before cutoff = autocommit (exec (λ d. ok (delete_orders (is_dead cutoff) d)))
