-- ===== src/Referral/Apart.antt =====
-- What rewards do apart from the conversions: they read, pay into wallets and record milestones.
use hypitoken.Prelude.{
  ℕ, ◌+◌, ◌≡◌, subst, Bool, true, false, List, [], ◌∷◌, String, ℤ, if◌then◌else◌, if_cases,
  exists_where,
}
use hypitoken.Store.Schema.{Db, TxKind, Tier, Conversion, MilestoneGrant, Table}
use hypitoken.Store.Sql.{foreign_key_violation, unique_violation, Result, ok, err, exec}
use hypitoken.Store.Ledger.{LedgerRow, set_balance, insert_tx, append_tx, has_key}
use hypitoken.Store.Keeps.{
  Keeps, exec_ok-Keeps, pure-Keeps, gets-Keeps, or_raise-Keeps, branch-Keeps, attempt-Keeps,
  query-Keeps, exec-Keeps, exec_-Keeps, autocommit-Keeps, transact-Keeps, raise_if-Keeps,
  commit-Keeps, bind-Keeps,
}
use hypitoken.Wallet.{personal_workspace_id, add_workspace_balance_tx, add_balance_tx, add_balance}
use hypitoken.Referral.Rewards.{
  insert_grant_row, grant_tier, grant_tiers, check_milestones, reward_limits, reward_open,
  pay_inviter,
}
use hypitoken.Referral.Conversions.{
  today_bonus_spend, cap_tripped, count_qualified_invites, invitee_spend,
}
use hypitoken.Referral.Live.{active_campaign, list_tiers}

-- Reading keeps everything.
module _ (I : Db → Type 0) where
  cap_tripped-Keeps : (cap : ℤ) → Keeps I (cap_tripped cap)
  unfolding cap_tripped today_bonus_spend
  cap_tripped-Keeps cap = branch-Keeps I _ _ _ (pure-Keeps I false) (
      bind-Keeps I _ _
        (bind-Keeps I _ _ (gets-Keeps I _) (λ now. attempt-Keeps I _ _ (query-Keeps I _)))
        (λ spent. pure-Keeps I _))

  active_campaign-Keeps : Keeps I active_campaign
  unfolding active_campaign
  active_campaign-Keeps =
      bind-Keeps I _ _ (query-Keeps I _)
        (λ rows. bind-Keeps I _ _ (gets-Keeps I _) (λ now. or_raise-Keeps I _ _))

  pub reward_open-Keeps : (invitee : ℕ) → Keeps I (reward_open invitee)
  unfolding reward_open reward_limits invitee_spend
  reward_open-Keeps invitee =
      bind-Keeps I _ _
        (attempt-Keeps I _ _ (bind-Keeps I _ _ active_campaign-Keeps (λ camp. pure-Keeps I _)))
        (λ limits. bind-Keeps I _ _ (cap_tripped-Keeps limits.0) (λ tripped.
          branch-Keeps I _ _ _ (pure-Keeps I false) (
            branch-Keeps I _ _ _
              (bind-Keeps I _ _ (attempt-Keeps I _ _ (query-Keeps I _)) (λ spent. pure-Keeps I _))
              (pure-Keeps I true))))

-- The ledger and the grants are apart from the conversions.
module _ (P : Table Conversion → Type 0) where
  abbrev Here : Db → Type 0
  Here d = P d.referral_conversions

  insert_tx-Keeps : (r : LedgerRow) → Keeps Here (exec (insert_tx r))
  unfolding insert_tx
  insert_tx-Keeps r =
      exec-Keeps Here (insert_tx r)
        (λ d a e h done. go _ (exists_where (has_key r.idem_key) d.wallet_tx.rows) d a e h done)
    where
      go :
          (orphan taken : Bool) (d : Db) (a : ℕ) (e : Db)
          → P d.referral_conversions
          → if◌then◌else◌ {A = Result (ℕ × Db)} orphan
              (err foreign_key_violation)
              (if taken then err unique_violation else ok (d.wallet_tx.seq + 1, append_tx r d))
            ≡ ok (a, e)
          → P e.referral_conversions
      go true taken d a e h done = cc
      go false true d a e h done = cc
      go false false d a e h done =
          let same : append_tx r d ≡ e = cc in subst (λ (x : Db). P x.referral_conversions) same h

  pub add_balance-Keeps :
      (user : ℕ) (kind : TxKind) (delta : ℤ) (ref note : String) (allow : Bool)
      → Keeps Here (add_balance user kind delta ref note allow)
  unfolding add_balance add_balance_tx personal_workspace_id add_workspace_balance_tx set_balance
  add_balance-Keeps user kind delta ref note allow = transact-Keeps Here _ (
      bind-Keeps Here _ _
        (bind-Keeps Here _ _ home_keeps (λ ws. bind-Keeps Here _ _ (query-Keeps Here _) (λ found.
          bind-Keeps Here _ _ (or_raise-Keeps Here _ _) (λ bal.
            bind-Keeps Here _ _ (raise_if-Keeps Here _ _) (λ _.
              bind-Keeps Here _ _ (gets-Keeps Here _) (λ now.
                bind-Keeps Here _ _ (exec_-Keeps Here _ (λ d h. h))
                  (λ _. bind-Keeps Here _ _ (insert_tx-Keeps _) (λ _. pure-Keeps Here _))))))))
        (λ bal. bind-Keeps Here _ _ (commit-Keeps Here) (λ _. pure-Keeps Here bal)))
    where
      home_keeps : Keeps Here (personal_workspace_id user)
      home_keeps = bind-Keeps Here _ _ (query-Keeps Here _) (λ found.
          bind-Keeps Here _ _ (or_raise-Keeps Here _ _) (λ ws.
            bind-Keeps Here _ _
              (branch-Keeps Here _ _ _ (attempt-Keeps Here _ _ (query-Keeps Here _))
                (pure-Keeps Here _))
              (λ home. bind-Keeps Here _ _ (raise_if-Keeps Here _ _) (λ _. pure-Keeps Here home))))

  insert_grant_row_keeps : (g : MilestoneGrant) (d : Db) → Here d → Here (insert_grant_row g d).1
  unfolding insert_grant_row
  insert_grant_row_keeps g d h =
      if_cases (λ (x : Bool × Db). P x.1.referral_conversions) _ (λ _. h) (λ _. h)

  grant_tiers-Keeps :
      (inviter reached : ℕ) (budget : ℤ) (ts : List Tier)
      → Keeps Here (grant_tiers inviter reached budget ts)
  unfolding grant_tiers grant_tier
  grant_tiers-Keeps inviter reached budget [] = pure-Keeps Here tt
  grant_tiers-Keeps inviter reached budget (t ∷ ts) =
      bind-Keeps Here _ _
        (branch-Keeps Here _ _ _ (pure-Keeps Here tt) (
          bind-Keeps Here _ _
            (branch-Keeps Here _ _ _ (cap_tripped-Keeps Here budget) (pure-Keeps Here false))
            (λ deferred.
              branch-Keeps Here _ _ _ (pure-Keeps Here tt) (attempt-Keeps Here _ _ tier_keeps))))
        (λ _. grant_tiers-Keeps inviter reached budget ts)
    where
      tier_keeps : Keeps Here (grant_tier inviter t)
      tier_keeps = bind-Keeps Here _ _ (gets-Keeps Here _) (λ now.
          bind-Keeps Here _ _
            (autocommit-Keeps Here _ (exec_ok-Keeps Here _ (insert_grant_row_keeps _)))
            (λ added.
              branch-Keeps Here _ _ _
                (bind-Keeps Here _ _ (add_balance-Keeps _ _ _ _ _ _) (λ _. pure-Keeps Here tt))
                (pure-Keeps Here tt)))

  pub pay_inviter-Keeps : (c : Conversion) → Keeps Here (pay_inviter c)
  unfolding pay_inviter check_milestones count_qualified_invites list_tiers
  pay_inviter-Keeps c =
      bind-Keeps Here _ _
        (branch-Keeps Here _ _ _
          (bind-Keeps Here _ _ (add_balance-Keeps _ _ _ _ _ _) (λ _. pure-Keeps Here tt))
          (pure-Keeps Here tt))
        (λ _. bind-Keeps Here _ _ (active_campaign-Keeps Here) (λ camp.
          bind-Keeps Here _ _ (gets-Keeps Here _) (λ now.
            branch-Keeps Here _ _ _
              (bind-Keeps Here _ _ (attempt-Keeps Here _ _ (query-Keeps Here _)) (λ reached.
                attempt-Keeps Here _ _
                  (bind-Keeps Here _ _ (query-Keeps Here _) (grant_tiers-Keeps _ reached _))))
              (pure-Keeps Here tt))))
