-- ===== src/Wallet/Charge.antt =====
-- What ChargeWorkspaceWithFloor does.
use hypitoken.Prelude.{
  ℕ, ◌≡◌, refl, ap, some, arith, ℤ, pos, ◌-ℤ◌, neg_ℤ, ◌<ℤ◌, +ℤ-neg, -ℤ-zero, inl, inr, ◌⊎◌, String,
  sym, ◌∙◌,
}
use hypitoken.Store.Schema.{Db, TxKind, ChargeMeta}
use hypitoken.Store.Sql.{Env, Result, ok, err, Session, run, leave}
use hypitoken.Store.Ledger.{LedgerRow, append_tx, select_balance, set_balance, IsBalanced}
use hypitoken.Wallet.{clamp_charge, charge_workspace_with_floor, insert_ledger_tx}
use hypitoken.Store.Rules.{
  Undone, pure_end, branch_step, transact_step, query_step, or_raise_step, gets_step, exec__step,
  exec_step, commit_step,
}
use hypitoken.Wallet.Rules.{get_workspace_balance_step, insert_tx-ok}
use hypitoken.Wallet.Post.{Posts, Posts-IsBalanced}

abbrev pub charge_row : ℕ → ℕ → TxKind → ℤ → String → String → ℕ → ChargeMeta → LedgerRow
charge_row ws user kind charged ref note now meta = record {
  user_id = user;
  workspace_id = ws;
  kind = kind;
  amount_usd = neg_ℤ charged;
  ref = ref;
  note = note;
  created_at = now;
  meta = meta;
  idem_key = "";
  product = "";
}

module _ (ws user : ℕ) (kind : TxKind) (amount : ℤ) (ref note : String) (floor : ℤ)
    (meta : ChargeMeta) (env : Env) (d : Db) where
  -- The ways that a charge ends: a failure, which changes nothing; a charge of nothing; and a
  -- balanced movement of the clamped amount.
  abbrev pub ChargeEnds : Result (ℤ × ℤ) × Db → Type 0
  ChargeEnds (err e, d') = d' ≡ d
  ChargeEnds (ok (new, charged), d') =
      (bal : ℤ) × (select_balance ws d ≡ some bal)
      × (new ≡ bal -ℤ charged)
      × (((charged ≡ pos 0) × (d' ≡ d))
          ⊎ ((pos 0 <ℤ amount)
              × (charged ≡ clamp_charge bal amount floor)
              × Posts (charge_row ws user kind charged ref note env.now meta) bal d d'))

  Ends : Result (ℤ × ℤ) × Session → Type 0
  Ends rt = ChargeEnds (leave rt)

  -- Whatever statement fails, a charge fails and leaves the database as it was, charges nothing
  -- and leaves it as it was, or makes one balanced movement of the clamped amount; a result names
  -- the balance that the workspace has then.
  pub charge_workspace_with_floor-ends :
      ChargeEnds (run (charge_workspace_with_floor ws user kind amount ref note floor meta) env d)
  unfolding charge_workspace_with_floor insert_ledger_tx run Ends
  charge_workspace_with_floor-ends =
      branch_step Ends _ _ _ _
        (λ nonpos.
          get_workspace_balance_step Ends ws _ _
            (λ bal found. pure_end Ends _ _ (bal, found, sym (-ℤ-zero bal), inl (refl, refl)))
            (λ e. refl))
        (λ positive.
          transact_step Ends _ _
            (query_step (Undone Ends) _ _ _
              (or_raise_step (Undone Ends) _ _ _ _
                (λ bal found.
                  branch_step (Undone Ends) _ _ _ _
                    (λ is_zero.
                      pure_end (Undone Ends) _ _ (bal, found, ground arith, inl (refl, refl)))
                    (λ nonzero. gets_step (Undone Ends) _ _ _ (
                      exec__step (Undone Ends) _ _ _
                        (exec_step (Undone Ends) _ _ _
                          (λ id d' inserted.
                            commit_step (Undone Ends) _ _
                              (pure_end (Undone Ends) _ _ (
                                bal,
                                found,
                                refl,
                                inr (
                                  ground arith,
                                  refl,
                                  record {
                                    found = found;
                                    after =
                                        insert_tx-ok _ _ d' id inserted
                                        ∙ ap
                                            (λ (z : ℤ).
                                              append_tx
                                                (charge_row ws user kind
                                                  (clamp_charge bal amount floor) ref note env.now
                                                  meta)
                                                (set_balance ws z env.now d))
                                            (sym (+ℤ-neg bal (clamp_charge bal amount floor)));
                                  },
                                ),
                              ))
                              refl)
                          (λ e. refl))
                        refl)))
                refl)
              refl)
            refl)

-- The charge keeps every balance equal to the sum of its ledger rows.
pub ChargeEnds-IsBalanced :
    (ws user : ℕ) (kind : TxKind) (amount : ℤ) (ref note : String) (floor : ℤ) (meta : ChargeMeta)
    (env : Env) (d : Db) (end : Result (ℤ × ℤ) × Db)
    → ChargeEnds ws user kind amount ref note floor meta env d end
    → IsBalanced d
    → IsBalanced end.1
ChargeEnds-IsBalanced ws user kind amount ref note floor meta env d (err e, d') h v = rw h v
ChargeEnds-IsBalanced ws user kind amount ref note floor meta env d (ok (new, charged), d')
      (bal, found, _, inl (_, same)) v =
    rw same v
ChargeEnds-IsBalanced ws user kind amount ref note floor meta env d (ok (new, charged), d')
      (bal, found, _, inr (_, _, posts)) v =
    Posts-IsBalanced posts v
