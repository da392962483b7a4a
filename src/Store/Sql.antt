-- ===== src/Store/Sql.antt =====
-- database/sql as internal/saas/db uses it, on its own tables. Transactions are serial, since db.go
-- opens each by BEGIN IMMEDIATE.
use hypitoken.Store.Schema.{Db}
pub use hypitoken.Store.Engine.{
  Error, driver, unique_violation, foreign_key_violation, not_found, insufficient_balance,
  idem_conflict, order_not_pending, gift_not_claimable, key_required, workspace_required,
  amount_not_positive, amount_over_ceiling, email_required, no_code_requested, code_expired,
  too_many_attempts, invalid_code, order_unknown, order_expired, order_tampered, not_settled,
  user_id_required, return_url_required, random_failed, sso_code_invalid, Result, ok, err, Env,
  tick, all_up, enter, kept, recover, on_line, written, rollback, committed, leave, follow, ◌>>◌,
  SessionOn, SqlOn,
}
unfoldable pub use hypitoken.Store.Engine.{
  raise_if, pure, raise, gets, or_raise, branch, attempt, catch, query, exec, transact, autocommit,
  run, exec_, commit, ◌>>=◌,
}

abbrev pub Session : Type 0
Session = SessionOn Db

abbrev pub Sql : Type 0 → Type 0
Sql A = SqlOn Db A
