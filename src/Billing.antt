-- ===== src/Billing.antt =====
-- internal/saas/billing/handlers.go: applyNotification, through which the notifications of Alipay
-- and the reconciliation of an order reach the store.
pub mod Apply
use hypitoken.Prelude.{
  ℕ, ◌+◌, ◌-◌, Bool, true, false, Option, none, some, String, ◌&&◌, ◌||◌, not, ℤ, pos, ◌-ℤ◌, abs_ℤ,
  ltb_ℤ, ltb, str_eq, trim_space,
}
use hypitoken.Store.Schema.{AlipayOrder, pending, paid, expired, failed}
use hypitoken.Store.Sql.{
  Error, not_found, order_not_pending, order_unknown, order_expired, order_tampered, not_settled,
  Sql, pure, raise, gets, or_raise, raise_if, branch, attempt, catch, ◌>>=◌, ◌>>◌,
}
use hypitoken.Orders.{is_status, get_order, mark_order_expired, credit_paid_order}

-- Notification, the fields that applyNotification reads
pub record Notification : Type 0 where
  pub out_trade_no : String
  pub trade_no : String
  pub trade_status : String
  pub total_amount : String
  pub app_id : String

-- What the handler has: the gateway's app id, which is empty where there is none, and the life of an
-- order in seconds, with 0 for no limit.
pub record Handler : Type 0 where
  pub app_id : String
  pub order_ttl : ℕ

-- sameMoney: less than half a fen apart, at 10^8 units
unfoldable pub same_money : ℤ → ℤ → Bool
same_money a b = ltb_ℤ (abs_ℤ (a -ℤ b)) (pos 500_000)

abbrev pub is_foreign : Handler → Notification → Bool
is_foreign h n =
    not (str_eq h.app_id "") && (not (str_eq n.app_id "") && not (str_eq n.app_id h.app_id))

-- time.Since(o.CreatedAt) > h.OrderTTL, in whole seconds
abbrev pub is_late : Handler → ℕ → AlipayOrder → Bool
is_late h now o = ltb 0 h.order_ttl && ltb h.order_ttl (now - o.created_at)

abbrev pub unknown_order : Error → Error
unknown_order not_found = order_unknown
unknown_order e = e

abbrev is_not_pending : Error → Bool
is_not_pending order_not_pending = true
is_not_pending e = false

-- another notification that settled the order first counts as success
unfoldable pub settled_already : Error → Sql (Unit {0})
settled_already e = branch (is_not_pending e) (pure tt) (raise e)

-- `equal_fold` is strings.EqualFold and `parse_float` is strconv.ParseFloat.
module _ (equal_fold : String → String → Bool) (parse_float : String → Option ℤ) where
  abbrev pub is_settled : Notification → Bool
  is_settled n =
      equal_fold n.trade_status "TRADE_SUCCESS" || equal_fold n.trade_status "TRADE_FINISHED"

  -- applyNotification from the order that GetOrder found; `note` is the text of the ledger row.
  unfoldable pub apply_to_order : Handler → Notification → String → AlipayOrder → Sql (Unit {0})
  unfolding same_money
  apply_to_order h n note o = branch (is_status paid o) (pure tt) do
    raise_if (is_status expired o || is_status failed o) order_expired
    raise_if (not (is_settled n)) not_settled
    raise_if (is_foreign h n) order_tampered
    got ← or_raise (parse_float (trim_space n.total_amount)) order_tampered
    raise_if (not (same_money got o.cny_amount)) order_tampered
    now ← gets (λ s. s.env.now)
    branch (is_late h now o)
        (do attempt tt (mark_order_expired o.out_trade_no); raise order_expired)
        (catch
          (do
            credit_paid_order o.out_trade_no n.trade_no o.user_id o.usd_credit o.out_trade_no note
            pure tt)
          settled_already)

  -- applyNotification
  unfoldable pub apply_notification : Handler → Notification → String → Sql (Unit {0})
  apply_notification h n note = do
    o ← catch (get_order n.out_trade_no) (λ e. raise (unknown_order e))
    apply_to_order h n note o
