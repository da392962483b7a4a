-- ===== src/Wallet/Complete.antt =====
-- A charge completes when the database does.
use hypitoken.Prelude.{
  ◌&&◌, not, Bool, none, ℕ, ◌+◌, ◌≡◌, refl, sym, ap, true, false, some, List, [], ◌∷◌, String, ℤ,
  pos, ◌-ℤ◌, ◌<ℤ◌, arith, exists_where, first_where, leb_ℤ, eq_ℤ, ◌==◌, Bool-cases, inl, inr,
}
use hypitoken.Store.Schema.{Db, TxKind, ChargeMeta, WalletTx, User}
use hypitoken.Store.Sql.{all_up, ok, run, ◌>>=◌}
use hypitoken.Store.Ledger.{select_balance, insert_tx, has_key, LedgerRow, append_tx, set_balance}
use hypitoken.Wallet.{select_home, clamp_charge, charge_workspace_with_floor, insert_ledger_tx}
use hypitoken.Wallet.Charge.{charge_row}

-- the empty key is outside of the unique index
no_key_conflict : (ts : List WalletTx) → exists_where (has_key "") ts ≡ false
unfolding exists_where
no_key_conflict [] = refl
no_key_conflict (t ∷ ts) = ground (arith, no_key_conflict ts)

pub insert_plain :
    (r : LedgerRow) (d : Db)
    → exists_where (λ (u : User). u.id == r.user_id) d.users.rows ≡ true
    → r.idem_key ≡ ""
    → insert_tx r d ≡ ok (d.wallet_tx.seq + 1, append_tx r d)
unfolding insert_tx
insert_plain r d known plain = ground (arith, no_key_conflict d.wallet_tx.rows)

-- a user with a home exists
pub home_known :
    (user home : ℕ) (d : Db)
    → select_home user d ≡ some home
    → exists_where (λ (u : User). u.id == user) d.users.rows ≡ true
unfolding select_home exists_where first_where
home_known user home d h =
    elim (Bool-cases (exists_where (λ (u : User). u.id == user) d.users.rows)) [
      | inl there ↦ there
      | inr missing ↦ absurd (ground (arith, h, nobody d.users.rows missing))
    ]
  where
    nobody :
        (us : List User)
        → exists_where (λ (u : User). u.id == user) us ≡ false
        → first_where (λ (u : User). u.id == user) us ≡ none
    nobody [] m = refl
    nobody (u ∷ us) m = ground (arith, nobody us)

-- a move that may go below zero is not held back
pub unguarded : (b : Bool) → b && not true ≡ false
unguarded true = refl
unguarded false = refl

-- When every statement runs, a charge of a positive amount on a workspace that exists, for a user
-- who exists, returns the clamped amount and the balance after it.
pub charge_completes :
    (ws user : ℕ) (kind : TxKind) (amount : ℤ) (ref note : String) (floor : ℤ) (meta : ChargeMeta)
    (now : ℕ) (d : Db) (bal : ℤ)
    → pos 0 <ℤ amount
    → select_balance ws d ≡ some bal
    → exists_where (λ (u : User). u.id == user) d.users.rows ≡ true
    → (run (charge_workspace_with_floor ws user kind amount ref note floor meta) (all_up now) d).0
      ≡ ok (bal -ℤ clamp_charge bal amount floor, clamp_charge bal amount floor)
unfolding set_balance charge_workspace_with_floor insert_ledger_tx run ◌>>=◌
charge_completes ws user kind amount ref note floor meta now d bal positive found known =
    let asked : leb_ℤ amount (pos 0) ≡ false = ground arith in
    elim (Bool-cases (eq_ℤ (clamp_charge bal amount floor) (pos 0))) [
      | inl nothing ↦
          let zero_charge : clamp_charge bal amount floor ≡ pos 0 = ground arith in
          rw (asked, found, nothing)
            (ap (λ (z : ℤ). ok (bal -ℤ clamp_charge bal amount floor, z)) (sym zero_charge))
      | inr something ↦
          let row = charge_row ws user kind (clamp_charge bal amount floor) ref note now meta in
          let inserted =
            insert_plain row (set_balance ws (bal -ℤ clamp_charge bal amount floor) now d) known
              refl in
          rw (asked, found, something, inserted) refl
    ]
