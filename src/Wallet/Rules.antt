-- ===== src/Wallet/Rules.antt =====
-- Rules for the parts that the wallet's transactions share.
use hypitoken.Prelude.{
  ℕ, ◌+◌, ◌≡◌, Bool, false, ◌&&◌, not, some, String, ℤ, pos, ◌+ℤ◌, ltb_ℤ, ◌==◌, arith,
}
use hypitoken.Store.Schema.{Db, TxKind}
use hypitoken.Store.Sql.{
  Error, Result, ok, err, Session, Sql, tick, follow, ◌>>=◌, ◌>>◌, pure, raise_if, not_found,
}
use hypitoken.Store.Rules.{
  pure_end, last, bind_step, branch_bind_step, pure_step, raise_if_step, gets_step, or_raise_step,
  query_step, attempt_step, exec__step, exec_step,
}
use hypitoken.Store.Ledger.{LedgerRow, no_meta, select_balance, insert_tx, append_tx}
use hypitoken.Wallet.{
  get_workspace_balance, personal_workspace_id, add_workspace_balance_tx, add_balance_tx,
}
use hypitoken.Wallet.Post.{Posts}
use hypitoken.Wallet.Home.{IsHome, stored-IsHome, fallback-IsHome}

abbrev pub plain_row : ℕ → ℕ → TxKind → ℤ → String → String → ℕ → LedgerRow
plain_row ws user kind delta ref note now = record {
  user_id = user;
  workspace_id = ws;
  kind = kind;
  amount_usd = delta;
  ref = ref;
  note = note;
  created_at = now;
  meta = no_meta;
  idem_key = "";
  product = "";
}

-- An insert that succeeds appends its row.
pub insert_tx-ok :
    (r : LedgerRow) (d d' : Db) (id : ℕ) → insert_tx r d ≡ ok (id, d') → d' ≡ append_tx r d
unfolding insert_tx
insert_tx-ok r d d' id h = ground arith

pub insert_tx-id :
    (r : LedgerRow) (d d' : Db) (id : ℕ) → insert_tx r d ≡ ok (id, d') → id ≡ d.wallet_tx.seq + 1
unfolding insert_tx
insert_tx-id r d d' id h = ground arith

module _ {B : Type 0} (P : Result B × Session → Type 0) where
  pub get_workspace_balance_step :
      (ws : ℕ) (k : ℤ → Sql B) (s : Session)
      → ((bal : ℤ) → select_balance ws s.work ≡ some bal → P (k bal (tick s)))
      → ((e : Error) → P (err e, tick s))
      → P ((get_workspace_balance ws >>= k) s)
  unfolding get_workspace_balance
  get_workspace_balance_step ws k s h failed = bind_step P _ k s (
      query_step F _ _ s
        (last F _ (tick s) (
          or_raise_step F _ _ _ (tick s) (λ bal found. pure_end F bal (tick s) (h bal found))
            (failed _)))
        (failed _))
    where
      F : Result ℤ × Session → Type 0
      F rt = P (follow k rt)

  pub personal_workspace_id_step :
      (user : ℕ) (k : ℕ → Sql B) (s : Session)
      → ((ws c : ℕ) → IsHome user s.work ws → P (k ws (record s { clock = c })))
      → ((e : Error) (c : ℕ) → P (err e, record s { clock = c }))
      → P ((personal_workspace_id user >>= k) s)
  unfolding personal_workspace_id
  personal_workspace_id_step user k s h failed = bind_step P _ k s (
      query_step F _ _ s
        (or_raise_step F _ _ _ _
          (λ ws found.
            branch_bind_step F _ _ _ _ _
              (λ unset.
                attempt_step F _ _ _ _
                  (finish _ _ (λ real. fallback-IsHome user ws s.work found unset real))
                  (finish 0 _ (λ real. absurd (ground arith))))
              (λ set.
                pure_step F _ _ _ (finish ws _ (λ real. stored-IsHome user ws s.work found real))))
          (failed _ _))
        (failed _ _))
    where
      F : Result ℕ × Session → Type 0
      F rt = P (follow k rt)

      finish :
          (ws c : ℕ)
          → ((ws == 0) ≡ false → IsHome user s.work ws)
          → F ((raise_if (ws == 0) not_found >> pure ws) (record s { clock = c }))
      finish ws c home =
          raise_if_step F _ _ _ _ (λ real. pure_end F _ _ (h ws c (home real))) (failed _ _)

  module _ (user : ℕ) (kind : TxKind) (delta : ℤ) (ref note : String) (allow : Bool) where
    -- A success is a balanced movement that respects the guard; a failure may have written before it.
    pub add_workspace_balance_tx_step :
        (ws : ℕ) (k : ℤ → Sql B) (s : Session)
        → ((bal : ℤ) (c : ℕ) (d : Db)
            → ltb_ℤ (bal +ℤ delta) (pos 0) && not allow ≡ false
            → Posts (plain_row ws user kind delta ref note s.env.now) bal s.work d
            → P (k (bal +ℤ delta) (record s { clock = c; work = d })))
        → ((e : Error) (c : ℕ) (d : Db) → P (err e, record s { clock = c; work = d }))
        → P ((add_workspace_balance_tx ws user kind delta ref note allow >>= k) s)
    unfolding add_workspace_balance_tx
    add_workspace_balance_tx_step ws k s h failed = bind_step P _ k s (
        query_step F _ _ s
          (or_raise_step F _ _ _ _
            (λ bal found.
              raise_if_step F _ _ _ _
                (λ allowed. gets_step F _ _ _ (
                  exec__step F _ _ _
                    (exec_step F _ _ _
                      (λ id d' inserted. pure_end F _ _ (
                        h bal _ d' allowed
                          (record { found = found; after = insert_tx-ok _ _ d' id inserted })))
                      (λ e. failed _ _ _))
                    (failed _ _ _)))
                (failed _ _ _))
            (failed _ _ _))
          (failed _ _ _))
      where
        F : Result ℤ × Session → Type 0
        F rt = P (follow k rt)

module _ {B : Type 0} (P : Result B × Session → Type 0) (user : ℕ) (kind : TxKind) (delta : ℤ)
    (ref note : String) (allow : Bool) where
  pub add_balance_tx_step :
      (k : ℤ → Sql B) (s : Session)
      → ((home : ℕ) (bal : ℤ) (c : ℕ) (d : Db)
          → IsHome user s.work home
          → ltb_ℤ (bal +ℤ delta) (pos 0) && not allow ≡ false
          → Posts (plain_row home user kind delta ref note s.env.now) bal s.work d
          → P (k (bal +ℤ delta) (record s { clock = c; work = d })))
      → ((e : Error) (c : ℕ) (d : Db) → P (err e, record s { clock = c; work = d }))
      → P ((add_balance_tx user kind delta ref note allow >>= k) s)
  unfolding add_balance_tx
  add_balance_tx_step k s h failed = bind_step P _ k s (
      personal_workspace_id_step F user _ s
        (λ ws c home. last F _ _ (
          add_workspace_balance_tx_step F user kind delta ref note allow ws _ _
            (λ bal c' d allowed posts. pure_end F _ _ (h ws bal c' d home allowed posts)) failed))
        (λ e c. failed e c s.work))
    where
      F : Result ℤ × Session → Type 0
      F rt = P (follow k rt)
