-- ===== src/Wallet.antt =====
-- internal/saas/db/wallet.go: signed balance moves, charges with an overdraft floor, and the sums
-- that the caps read.
pub mod Post
pub mod Home
pub mod Rules
pub mod Clamp
pub mod Charge
pub mod Complete
pub mod Add
pub mod Reports
pub mod Idem
use hypitoken.Prelude.{
  ℕ, zero, ◌+◌, ◌≡◌, Bool, true, false, Option, none, some, List, [], ◌∷◌, String, ◌&&◌, ◌||◌, not,
  ℤ, pos, ◌+ℤ◌, ◌-ℤ◌, neg_ℤ, ltb_ℤ, leb_ℤ, eq_ℤ, ◌==◌, leb, if◌then◌else◌, first_where,
}
use hypitoken.Store.Schema.{
  Db, Workspace, WalletTx, User, TxKind, topup, charge, kind_rank, ChargeMeta, personal, type_rank,
}
use hypitoken.Store.Sql.{
  Error, Result, ok, err, not_found, insufficient_balance, Sql, pure, raise, gets, or_raise, query,
  branch, ◌>>=◌, ◌>>◌, raise_if, attempt, exec, exec_, commit, transact,
}
use hypitoken.Store.Ledger.{LedgerRow, no_meta, select_balance, set_balance, insert_tx, sum_where}

abbrev home_pointer : Option User → Option ℕ
home_pointer none = none
home_pointer (some u) = some u.personal_workspace_id

-- SELECT personal_workspace_id FROM users WHERE id = ?
unfoldable pub select_home : ℕ → Db → Option ℕ
select_home user d = home_pointer (first_where (λ (u : User). u.id == user) d.users.rows)

-- SELECT id FROM workspaces WHERE created_by = ? AND type = 'personal' ORDER BY id LIMIT 1, with 0
-- where there is no such row.
unfoldable pub lowest_personal : ℕ → List Workspace → ℕ
lowest_personal user [] = 0
lowest_personal user (w ∷ ws) =
    let rest = lowest_personal user ws in
    if w.created_by == user && type_rank w.type == 0
    then (if rest == 0 || leb w.id rest then w.id else rest)
    else rest

-- personalWorkspaceIDTx, and PersonalWorkspaceID, which runs the same statements outside of a
-- transaction.
unfoldable pub personal_workspace_id : ℕ → Sql ℕ
personal_workspace_id user = do
  found ← query (select_home user)
  ws ← or_raise found not_found
  home ←
      branch (ws == 0) (attempt 0 (query (λ d. lowest_personal user d.workspaces.rows))) (pure ws)
  raise_if (home == 0) not_found
  pure home

-- insertLedgerTx
unfoldable pub insert_ledger_tx : LedgerRow → Sql ℕ
insert_ledger_tx r = exec (insert_tx r)

-- addWorkspaceBalanceTx
unfoldable pub add_workspace_balance_tx : ℕ → ℕ → TxKind → ℤ → String → String → Bool → Sql ℤ
add_workspace_balance_tx ws user kind delta ref note allow_negative = do
  found ← query (select_balance ws)
  bal ← or_raise found not_found
  raise_if (ltb_ℤ (bal +ℤ delta) (pos 0) && not allow_negative) insufficient_balance
  now ← gets (λ s. s.env.now)
  exec_ (set_balance ws (bal +ℤ delta) now)
  exec (
      insert_tx (record {
        user_id = user;
        workspace_id = ws;
        kind = kind;
        amount_usd = delta;
        ref = ref;
        note = note;
        created_at = now;
        meta = no_meta;
        idem_key = "";
        product = "";
      }))
  pure (bal +ℤ delta)

-- AddBalanceTx
unfoldable pub add_balance_tx : ℕ → TxKind → ℤ → String → String → Bool → Sql ℤ
add_balance_tx user kind delta ref note allow_negative = do
  ws ← personal_workspace_id user
  add_workspace_balance_tx ws user kind delta ref note allow_negative

-- AddBalance
unfoldable pub add_balance : ℕ → TxKind → ℤ → String → String → Bool → Sql ℤ
add_balance user kind delta ref note allow_negative =
    transact do bal ← add_balance_tx user kind delta ref note allow_negative; commit; pure bal

-- GetWorkspaceBalance
unfoldable pub get_workspace_balance : ℕ → Sql ℤ
get_workspace_balance ws = do found ← query (select_balance ws); or_raise found not_found

-- GetBalance
unfoldable pub get_balance : ℕ → Sql ℤ
get_balance user = do ws ← personal_workspace_id user; get_workspace_balance ws

-- clampCharge
unfoldable pub clamp_charge : ℤ → ℤ → ℤ → ℤ
clamp_charge bal amount max_overdraft =
    let charged = if ltb_ℤ (bal +ℤ max_overdraft) amount then bal +ℤ max_overdraft else amount in
    if ltb_ℤ (pos 0) max_overdraft
    then (if ltb_ℤ charged (pos 0) then pos 0 else charged)
    else amount

-- ChargeWorkspaceWithFloor: the new balance and what was charged.
unfoldable pub charge_workspace_with_floor :
    ℕ → ℕ → TxKind → ℤ → String → String → ℤ → ChargeMeta → Sql (ℤ × ℤ)
charge_workspace_with_floor ws user kind amount ref note max_overdraft meta =
    branch (leb_ℤ amount (pos 0)) (do bal ← get_workspace_balance ws; pure (bal, pos 0))
      (transact do
        found ← query (select_balance ws)
        bal ← or_raise found not_found
        let charged = clamp_charge bal amount max_overdraft
        branch (eq_ℤ charged (pos 0)) (pure (bal -ℤ charged, pos 0)) do
          now ← gets (λ s. s.env.now)
          exec_ (set_balance ws (bal -ℤ charged) now)
          insert_ledger_tx (record {
            user_id = user;
            workspace_id = ws;
            kind = kind;
            amount_usd = neg_ℤ charged;
            ref = ref;
            note = note;
            created_at = now;
            meta = meta;
            idem_key = "";
            product = "";
          })
          commit
          pure (bal -ℤ charged, charged))

-- ChargeWithFloor
unfoldable pub charge_with_floor : ℕ → TxKind → ℤ → String → String → ℤ → ChargeMeta → Sql (ℤ × ℤ)
charge_with_floor user kind amount ref note max_overdraft meta = do
  ws ← personal_workspace_id user
  charge_workspace_with_floor ws user kind amount ref note max_overdraft meta

-- The sums below negate what they add up, as the source's SUM(-amount_usd).
abbrev is_charge_since : ℕ → WalletTx → Bool
is_charge_since since t = kind_rank t.kind == kind_rank charge && leb since t.created_at

-- SumChargeSince
unfoldable pub sum_charge_since : ℕ → ℕ → Sql ℤ
sum_charge_since user since =
    query
      (λ d. neg_ℤ (sum_where (λ t. t.user_id == user && is_charge_since since t) d.wallet_tx.rows))

-- SumChargeSinceForToken
unfoldable pub sum_charge_since_for_token : ℕ → ℕ → ℕ → Sql ℤ
sum_charge_since_for_token user token since = query (λ d. neg_ℤ (
    sum_where (λ t. t.user_id == user && t.meta.token_id == token && is_charge_since since t)
      d.wallet_tx.rows))

-- SumChargeSinceForWorkspace
unfoldable pub sum_charge_since_for_workspace : ℕ → ℕ → Sql ℤ
sum_charge_since_for_workspace ws since =
    query (λ d.
      neg_ℤ (sum_where (λ t. t.workspace_id == ws && is_charge_since since t) d.wallet_tx.rows))

-- SumChargeSinceForMember
unfoldable pub sum_charge_since_for_member : ℕ → ℕ → ℕ → Sql ℤ
sum_charge_since_for_member ws user since = query (λ d. neg_ℤ (
    sum_where (λ t. t.workspace_id == ws && t.user_id == user && is_charge_since since t)
      d.wallet_tx.rows))
