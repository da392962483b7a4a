-- ===== src/Wallet/Idem/Complete.antt =====
-- A retry of an idempotent movement completes when the database does.
use hypitoken.Prelude.{
  ℕ, ◌≡◌, refl, false, some, ℤ, pos, ◌<ℤ◌, ◌≤ℤ◌, leb_ℤ, ltb_ℤ, str_eq, trim_space, ◌==◌, ◌≤◌, arith,
}
use hypitoken.Store.Schema.{Db, WalletTx, TxKind}
use hypitoken.Store.Sql.{all_up, ok, run, ◌>>=◌}
use hypitoken.Store.Ledger.{select_balance}
use hypitoken.Wallet.Idem.{
  finite, IdemChargeReq, mismatches, replay_of, describe_row, select_key, find_idem_row,
  settle_or_replay, wallet_idem_once, wallet_idem_finite, wallet_idem, max_idem_amount,
}

-- When every statement runs, a call whose key has a row of the same movement returns that row's
-- identifier and magnitude, with the balance of the row's workspace, and changes nothing.
pub replay_completes :
    (req : IdemChargeReq) (kind : TxKind) (amount : ℤ) (now : ℕ) (d : Db) (row : WalletTx)
    → str_eq (trim_space req.idempotency_key) "" ≡ false
    → 1 ≤ req.workspace_id
    → req.amount_usd ≡ finite amount
    → pos 0 <ℤ amount
    → amount ≤ℤ max_idem_amount
    → select_key (trim_space req.idempotency_key) d ≡ some row
    → mismatches req kind row ≡ false
    → run (wallet_idem req kind) (all_up now) d
      ≡ (ok (replay_of amount kind row (select_balance row.workspace_id d)), d)
unfolding wallet_idem wallet_idem_finite wallet_idem_once find_idem_row describe_row
    settle_or_replay run ◌>>=◌
replay_completes req kind amount now d row named real asked positive bounded settled same =
    let some_workspace : (req.workspace_id == 0) ≡ false = ground arith in
    let above_zero : leb_ℤ amount (pos 0) ≡ false = ground arith in
    let within : ltb_ℤ max_idem_amount amount ≡ false = ground arith in
    rw (named, some_workspace, asked, above_zero, within, settled, same) refl
