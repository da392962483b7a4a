-- ===== src/Tests/Wallet.antt =====
-- The properties of the wallet and its idempotent movements at the small bank.
use hypitoken.Prelude.{
  false, ◌≡◌, refl, true, some, pos, ◌+ℤ◌, ◌-ℤ◌, neg_ℤ, ◌≤ℤ◌, ◌<ℤ◌, ◌⊎◌, arith, first_where,
  exists_where, trim_space, ◌==◌,
}
use hypitoken.Store.Schema.{User, charge}
use hypitoken.Store.Sql.{all_up, ok, run, ◌>>=◌}
use hypitoken.Store.Ledger.{no_meta, select_balance, set_balance, insert_tx}
use hypitoken.Wallet.{clamp_charge, charge_workspace_with_floor, insert_ledger_tx}
use hypitoken.Wallet.{add_balance}
use hypitoken.Store.Schema.{Db, topup}
use hypitoken.Wallet.Add.{AddEnds, add_balance-ends}
use hypitoken.Wallet.Clamp.{clamp_charge-floor}
use hypitoken.Wallet.Charge.{ChargeEnds, charge_workspace_with_floor-ends}
use hypitoken.Wallet.Complete.{charge_completes}
use hypitoken.Wallet.Idem.{
  IdemChargeResult, wallet_idem, wallet_idem_finite, wallet_idem_once, find_idem_row, describe_row,
  select_key, settle_or_replay,
}
use hypitoken.Wallet.Idem.Settle.{IdemEnds, wallet_idem-ends}
use hypitoken.Books.{MoneyCall, step, start, after}
use hypitoken.Books.Retry.{retry_moves_nothing}
use hypitoken.Wallet.Idem.{replay_of}
use hypitoken.Wallet.Idem.Complete.{replay_completes}
use hypitoken.Tests.{bank, wallet_found, request, answer, settled_row, with_key}

charge_example :
    ChargeEnds 1 1 charge (pos 30) "r" "" (pos 10) no_meta (all_up 5) bank (
      run (charge_workspace_with_floor 1 1 charge (pos 30) "r" "" (pos 10) no_meta) (all_up 5) bank)
charge_example =
    charge_workspace_with_floor-ends 1 1 charge (pos 30) "r" "" (pos 10) no_meta (all_up 5) bank

alice_known : exists_where (λ (u : User). u.id == 1) bank.users.rows ≡ true
unfolding exists_where
alice_known = refl

charge_completes_example :
    (run
      (charge_workspace_with_floor 1 1 charge (pos 530) "r" "" (pos 10) no_meta)
      (all_up 5)
      bank).0
    ≡ ok (
      pos 500 -ℤ clamp_charge (pos 500) (pos 530) (pos 10),
      clamp_charge (pos 500) (pos 530) (pos 10),
    )
charge_completes_example =
    charge_completes 1 1 charge (pos 530) "r" "" (pos 10) no_meta 5 bank (pos 500) (ground arith)
      wallet_found alice_known

clamp_charge-floor_example :
    ((pos 530 ≤ℤ pos 500 +ℤ pos 10) × (clamp_charge (pos 500) (pos 530) (pos 10) ≡ pos 530))
    ⊎ ((pos 500 +ℤ pos 10 <ℤ pos 530)
        × (pos 0 ≤ℤ pos 500 +ℤ pos 10)
        × (pos 500 -ℤ clamp_charge (pos 500) (pos 530) (pos 10) ≡ neg_ℤ (pos 10)))
    ⊎ ((pos 500 +ℤ pos 10 <ℤ pos 0) × (clamp_charge (pos 500) (pos 530) (pos 10) ≡ pos 0))
clamp_charge-floor_example =
    clamp_charge-floor (pos 500) (pos 530) (pos 10) (ground arith) (ground arith)

wallet_idem_example :
    IdemEnds request charge (all_up 5) bank (run (wallet_idem request charge) (all_up 5) bank)
wallet_idem_example = wallet_idem-ends request charge (all_up 5) bank

first_charge :
    run (wallet_idem request charge) (all_up 5) bank
    ≡ (ok answer, (run (wallet_idem request charge) (all_up 5) bank).1)
unfolding run wallet_idem ◌>>=◌ trim_space wallet_idem_finite wallet_idem_once find_idem_row
    describe_row select_key first_where settle_or_replay select_balance clamp_charge
    insert_ledger_tx insert_tx exists_where set_balance ◌+ℤ◌ ◌-ℤ◌
first_charge = refl

-- what the first call leaves, and after a top-up of the same user
abbrev charged : Db
charged = (run (wallet_idem request charge) (all_up 5) bank).1

abbrev busy : Db
busy = step (MoneyCall.signed 1 topup (pos 5) "r" "" true) (all_up 6) charged

retry_example :
    ((run (wallet_idem request charge) (all_up 7) busy).1 ≡ busy)
    × ((res : IdemChargeResult)
        → (run (wallet_idem request charge) (all_up 7) busy).0 ≡ ok res
        → (res.replayed ≡ true) × (res.tx_id ≡ 2) × (res.charged_usd ≡ pos 60))
retry_example =
    retry_moves_nothing request request charge charge (all_up 5) (all_up 7) bank charged busy answer
      first_charge refl (λ h. cc)
      (after (MoneyCall.signed 1 topup (pos 5) "r" "" true) (all_up 6) start) refl

key_settled : select_key "k1" with_key ≡ some settled_row
unfolding select_key first_where
key_settled = refl

key_trimmed : trim_space " k1 " ≡ "k1"
unfolding trim_space
key_trimmed = refl

replay_completes_example :
    run (wallet_idem request charge) (all_up 5) with_key
    ≡ (ok (replay_of (pos 60) charge settled_row (select_balance 1 with_key)), with_key)
replay_completes_example =
    replay_completes request charge (pos 60) 5 with_key settled_row (rw key_trimmed refl)
      (omega arith) refl (ground arith) (ground arith) (rw key_trimmed key_settled) refl

add_balance_example :
    AddEnds 1 topup
      (pos 5)
      "r"
      ""
      false
      (all_up 5)
      bank
      (run (add_balance 1 topup (pos 5) "r" "" false) (all_up 5) bank)
add_balance_example = add_balance-ends 1 topup (pos 5) "r" "" false (all_up 5) bank
