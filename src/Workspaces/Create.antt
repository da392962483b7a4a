-- ===== src/Workspaces/Create.antt =====
-- What opening a personal workspace does, and adjusting a balance.
use hypitoken.Prelude.{
  ℕ, ◌+◌, ◌≤◌, ◌<◌, ◌≡◌, refl, sym, ap, ◌∙◌, true, false, List, [], ◌∷◌, String, Option, some, none,
  ℤ, pos, ◌+ℤ◌, ◌⊎◌, inl, inr, arith, ltb, first_where, exists_where, update_where, subst, ◌==◌,
  All, All-append, +ℤ-zero, Bool-cases,
}
use hypitoken.Store.Schema.{Db, User, Workspace, WalletTx, adjust}
use hypitoken.Store.Sql.{Env, Result, ok, err, Session, run, leave, enter}
use hypitoken.Store.Rules.{
  Undone, pure_end, gets_step, attempt_step, exec_step, exec__step, branch_step, commit_step,
  transact_step,
}
use hypitoken.Store.Ledger.{IsBalanced, sum_where, of_workspace}
use hypitoken.Wallet.{select_home}
use hypitoken.Wallet.Post.{Posts, Posts-IsBalanced}
use hypitoken.Wallet.Rules.{plain_row, add_workspace_balance_tx_step}
use hypitoken.Workspaces.{
  append_workspace, set_home, append_member, insert_workspace, insert_member, new_personal,
  create_personal_workspace, member_parents, open_personal, home_or_zero, adjust_workspace_balance,
}

-- the database after a workspace was opened
abbrev pub opened : ℕ → String → ℕ → ℕ → Db → Db
opened user email group now d = append_member (d.workspaces.seq + 1) user "admin" now (
    set_home (d.workspaces.seq + 1) now user
      (append_workspace (new_personal email group user now) d))

insert_member-ok :
    (ws user : ℕ) (role : String) (now : ℕ) (d d' : Db)
    → insert_member ws user role now d ≡ ok (tt, d')
    → (member_parents ws user d ≡ true) × (d' ≡ append_member ws user role now d)
unfolding insert_member
insert_member-ok ws user role now d d' h = ground arith

module _ (user : ℕ) (email : String) (group : ℕ) (env : Env) (d : Db) where
  -- A creation fails and changes nothing, returns the home that the user has and changes nothing,
  -- or opens an empty workspace with the next identifier as the home of an existing user.
  abbrev pub CreateEnds : Result ℕ × Db → Type 0
  CreateEnds (err e, d') = d' ≡ d
  CreateEnds (ok ws, d') =
      ((0 < ws) × (select_home user d ≡ some ws) × (d' ≡ d))
      ⊎ ((ws ≡ d.workspaces.seq + 1)
          × (exists_where (λ (u : User). u.id == user)
                (update_where (λ u. u.id == user)
                  (λ u. record u { personal_workspace_id = ws; updated_at = env.now }) d.users.rows)
              ≡ true)
          × (d' ≡ opened user email group env.now d))

  Ends : Result ℕ × Session → Type 0
  Ends rt = CreateEnds (leave rt)

  pub create_personal_workspace-ends :
      CreateEnds (run (create_personal_workspace user email group) env d)
  unfolding create_personal_workspace open_personal run Ends insert_workspace set_home
  create_personal_workspace-ends =
      transact_step Ends _ _
        (attempt_step T _ _ _ _
          (branch_step T _ _ _ _ (λ has. pure_end T _ _ (has_home (select_home user d) has))
            (λ _. open_new _))
          (branch_step T _ _ _ _ (λ has. absurd (ground arith)) (λ _. open_new _)))
        refl
    where
      T : Result ℕ × Session → Type 0
      T = Undone Ends

      fresh :
          (ws : ℕ) (d' d'' : Db)
          → ok (insert_workspace (new_personal email group user env.now) d) ≡ ok (ws, d')
          → insert_member ws user "admin" env.now (set_home ws env.now user d') ≡ ok (tt, d'')
          → (ws ≡ d.workspaces.seq + 1)
            × (exists_where
                  (λ (u : User). u.id == user)
                  (update_where
                    (λ u. u.id == user)
                    (λ u. record u { personal_workspace_id = ws; updated_at = env.now })
                    d.users.rows)
                ≡ true)
            × (d'' ≡ opened user email group env.now d)
      fresh ws d' d'' inserted member =
          let (parents, after) =
            insert_member-ok ws user "admin" env.now (set_home ws env.now user d') d'' member in
          let number : d.workspaces.seq + 1 ≡ ws = ground arith in
          let grown : append_workspace (new_personal email group user env.now) d ≡ d' =
            ground arith in
          let known : exists_where (λ (u : User). u.id == user)
                (set_home ws env.now user d').users.rows
              ≡ true =
            ground arith in
          (
            sym number,
            subst
                (λ (x : Db).
                  exists_where (λ (u : User). u.id == user) (set_home ws env.now user x).users.rows
                  ≡ true)
                (sym grown) known,
            after
                ∙ ap (λ (x : ℕ). append_member x user "admin" env.now (set_home x env.now user d'))
                    (sym number)
                ∙ ap
                    (λ (x : Db).
                      append_member (d.workspaces.seq + 1) user "admin" env.now
                        (set_home (d.workspaces.seq + 1) env.now user x))
                    (sym grown),
          )

      has_home :
          (o : Option ℕ)
          → ltb 0 (home_or_zero o) ≡ true
          → ((0 < home_or_zero o) × (o ≡ some (home_or_zero o)) × (d ≡ d))
            ⊎ ((home_or_zero o ≡ d.workspaces.seq + 1)
                × (exists_where
                      (λ (u : User). u.id == user)
                      (update_where
                        (λ u. u.id == user)
                        (λ u. record u {
                          personal_workspace_id = home_or_zero o;
                          updated_at = env.now;
                        })
                        d.users.rows)
                    ≡ true)
                × (d ≡ opened user email group env.now d))
      has_home none h = absurd (ground arith)
      has_home (some ws) h = inl (ground arith, refl, refl)

      open_new : (c : ℕ) → T (open_personal user email group (record (enter env d) { clock = c }))
      open_new c = gets_step T _ _ _ (
          exec_step T _ _ _
            (λ ws d' inserted.
              exec__step T _ _ _
                (exec_step T _ _ _
                  (λ u d'' member.
                    commit_step T _ _ (pure_end T _ _ (inr (fresh ws d' d'' inserted member))) refl)
                  (λ e. refl))
                refl)
            (λ e. refl))

-- a row that an update selects is selected after it, when the update keeps the key
first_home :
    (user ws now : ℕ) (us : List User)
    → exists_where
        (λ (u : User). u.id == user)
        (update_where
          (λ u. u.id == user)
          (λ u. record u { personal_workspace_id = ws; updated_at = now })
          us)
      ≡ true
    → (u : User) × (first_where
          (λ u. u.id == user)
          (update_where
            (λ u. u.id == user)
            (λ u. record u { personal_workspace_id = ws; updated_at = now })
            us)
        ≡ some u)
      × (u.personal_workspace_id ≡ ws)
unfolding exists_where update_where first_where
first_home user ws now [] h = absurd cc
first_home user ws now (u ∷ us) h = elim (Bool-cases (u.id == user)) [
  | inl here ↦ (record u { personal_workspace_id = ws; updated_at = now }, ground arith, refl)
  | inr elsewhere ↦
      let (v, found, home) = first_home user ws now us (ground arith) in (v, ground arith, home)
]

-- A creation that returns leaves its result as the user's home.
pub created_is_home :
    (user : ℕ) (email : String) (group : ℕ) (env : Env) (d d' : Db) (ws : ℕ)
    → run (create_personal_workspace user email group) env d ≡ (ok ws, d')
    → select_home user d' ≡ some ws
unfolding select_home set_home
created_is_home user email group env d d' ws e = home (
    subst (CreateEnds user email group env d) e
      (create_personal_workspace-ends user email group env d))
  where
    home : CreateEnds user email group env d (ok ws, d') → select_home user d' ≡ some ws
    home (inl (_, has, same)) = rw same has
    home (inr (number, known, after)) =
        let (u, found, pointer) = first_home user ws env.now d.users.rows known in
        rw after (
          subst (λ (n : ℕ). select_home user (set_home n env.now user d) ≡ some ws) number
            (rw found (ap some pointer)))

-- Opening a workspace keeps the books balanced: the new one is empty and no movement names it.
opened-IsBalanced :
    (user : ℕ) (email : String) (group now : ℕ) (d : Db)
    → IsBalanced d
    → IsBalanced (opened user email group now d)
unfolding set_home sum_where
opened-IsBalanced user email group now d v = record {
  sums =
      All-append (λ (w : Workspace). w.balance_usd ≡ sum_where (of_workspace w.id) d.wallet_tx.rows)
        d.workspaces.rows _ v.sums (sym (unnamed d.wallet_tx.rows v.known), tt);
  issued =
      All-append (λ (w : Workspace). w.id ≤ d.workspaces.seq + 1) d.workspaces.rows _
        (weaken d.workspaces.rows v.issued) (omega arith, tt);
  known = weaken_tx d.wallet_tx.rows v.known;
}
  where
    unnamed :
        (ts : List WalletTx)
        → All (λ (t : WalletTx). t.workspace_id ≤ d.workspaces.seq) ts
        → sum_where (of_workspace (d.workspaces.seq + 1)) ts ≡ pos 0
    unnamed [] h = refl
    unnamed (t ∷ ts) h =
        let named : t.workspace_id ≤ d.workspaces.seq = h.0 in
        let other : (t.workspace_id == d.workspaces.seq + 1) ≡ false = ground arith in
        rw (unnamed ts h.1, other) (+ℤ-zero (pos 0))

    weaken :
        (ws : List Workspace)
        → All (λ (w : Workspace). w.id ≤ d.workspaces.seq) ws
        → All (λ (w : Workspace). w.id ≤ d.workspaces.seq + 1) ws
    weaken [] h = tt
    weaken (w ∷ ws) h = (omega (arith, h.0), weaken ws h.1)

    weaken_tx :
        (ts : List WalletTx)
        → All (λ (t : WalletTx). t.workspace_id ≤ d.workspaces.seq) ts
        → All (λ (t : WalletTx). t.workspace_id ≤ d.workspaces.seq + 1) ts
    weaken_tx [] h = tt
    weaken_tx (t ∷ ts) h = (omega (arith, h.0), weaken_tx ts h.1)

-- A creation keeps the books balanced, however it ends.
pub CreateEnds-IsBalanced :
    (user : ℕ) (email : String) (group : ℕ) (env : Env) (d : Db) (end : Result ℕ × Db)
    → CreateEnds user email group env d end
    → IsBalanced d
    → IsBalanced end.1
CreateEnds-IsBalanced user email group env d (err e, d') same v = rw same v
CreateEnds-IsBalanced user email group env d (ok ws, d') (inl (_, _, same)) v = rw same v
CreateEnds-IsBalanced user email group env d (ok ws, d') (inr (_, _, after)) v =
    rw after (opened-IsBalanced user email group env.now d v)

module _ (ws operator : ℕ) (delta : ℤ) (ref note : String) (env : Env) (d : Db) where
  -- An adjustment fails and changes nothing, or it is one balanced movement.
  abbrev pub AdjustEnds : Result ℤ × Db → Type 0
  AdjustEnds (err e, d') = d' ≡ d
  AdjustEnds (ok new, d') =
      (bal : ℤ) × (new ≡ bal +ℤ delta)
      × Posts (plain_row ws operator adjust delta ref note env.now) bal d d'

  AdjustDone : Result ℤ × Session → Type 0
  AdjustDone rt = AdjustEnds (leave rt)

  pub adjust_workspace_balance-ends :
      AdjustEnds (run (adjust_workspace_balance ws operator delta ref note) env d)
  unfolding adjust_workspace_balance run AdjustDone
  adjust_workspace_balance-ends =
      transact_step AdjustDone _ _
        (add_workspace_balance_tx_step (Undone AdjustDone) operator adjust delta ref note true ws _
          _
          (λ bal c d' _ posts.
            commit_step (Undone AdjustDone) _ _
              (pure_end (Undone AdjustDone) _ _ (bal, refl, posts)) refl)
          (λ e c d'. refl))
        refl

  pub AdjustEnds-IsBalanced :
      (end : Result ℤ × Db) → AdjustEnds end → IsBalanced d → IsBalanced end.1
  AdjustEnds-IsBalanced (err e, d') same v = rw same v
  AdjustEnds-IsBalanced (ok new, d') (_, _, posts) v = Posts-IsBalanced posts v
