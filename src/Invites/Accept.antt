-- ===== src/Invites/Accept.antt =====
-- What accepting an invitation does.
use hypitoken.Prelude.{
  ℕ, ◌==◌, ◌≡◌, refl, ap, ◌∙◌, subst, Bool, true, false, not, ◌&&◌, ◌||◌, inl, inr, Bool-cases,
  Option, some, none, ◌+◌, pos, String, str_eq, arith, if◌then◌else◌, first_where,
  first_where-append, first_where-updated, first_where-exists, first_where-none, update_where,
  exists_where,
}
use hypitoken.Store.Schema.{Db, Table, WorkspaceInvite, WorkspaceMember}
use hypitoken.Store.Sql.{
  foreign_key_violation, Env, Result, ok, err, Session, run, leave, pure, commit,
}
use hypitoken.Store.Rules.{
  Undone, pure_end, gets_step, exec_step, exec__step, commit_step, transact_step, last,
}
use hypitoken.Workspaces.{upsert_member_row, is_member, set_members, append_member, member_parents}
use hypitoken.Invites.{granted_role, accepted_by, mark_accepted, accept_workspace_invite, is_invite}

module _ (inv : WorkspaceInvite) (user : ℕ) (env : Env) (d : Db) where
  -- A refusal changes nothing. A success makes the user a member of the workspace with the role that
  -- is granted, and marks the invitation as accepted by the user.
  abbrev pub AcceptEnds : Result (Unit {0}) × Db → Type 0
  AcceptEnds (err e, d') = d' ≡ d
  AcceptEnds (ok _, d') =
      (w : Db) × (upsert_member_row inv.workspace_id user (granted_role inv.role) env.now d
        ≡ ok (tt, w))
      × (d' ≡ mark_accepted inv.id user w)

  Ends : Result (Unit {0}) × Session → Type 0
  Ends rt = AcceptEnds (leave rt)

  accept_workspace_invite-ends : AcceptEnds (run (accept_workspace_invite inv user) env d)
  unfolding accept_workspace_invite run Ends
  accept_workspace_invite-ends =
      transact_step Ends _ _
        (gets_step T _ _ _ (
          exec_step T _ _ _
            (λ _ w made.
              exec__step T _ _ _
                (last T commit _ (commit_step T pure _ (pure_end T _ _ (w, made, refl)) refl)) refl)
            (λ e. refl)))
        refl
    where
      T : Result (Unit {0}) × Session → Type 0
      T = Undone Ends

abbrev role_if : Option WorkspaceMember → Option String
role_if none = none
role_if (some m) = some m.role

-- the role of a user in a workspace, if the user is a member
unfoldable pub role_of : ℕ → ℕ → Db → Option String
role_of ws user d = role_if (first_where (is_member ws user) d.workspace_members.rows)

a_role :
    (role : String)
    → (str_eq (granted_role role) "admin" || str_eq (granted_role role) "member") ≡ true
a_role role = elim (Bool-cases (str_eq role "admin")) [
  | inl admin ↦ ground arith
  | inr other ↦ elim (Bool-cases (str_eq role "member")) [
    | inl member ↦ ground arith
    | inr neither ↦ rw (other, neither) refl
  ]
]

-- the statement that makes a member
upserted :
    (ws user : ℕ) (role : String) (now : ℕ) (d w : Db)
    → upsert_member_row ws user role now d ≡ ok (tt, w)
    → (role_of ws user w ≡ some role) × (w.workspace_invites ≡ d.workspace_invites)
unfolding upsert_member_row role_of
upserted ws user role now d w h =
    parents (not (member_parents ws user d))
      (exists_where (is_member ws user) d.workspace_members.rows) refl h
  where
    updated : Db
    updated =
        set_members
          (update_where (is_member ws user) (λ (m : WorkspaceMember). record m { role = role })
            d.workspace_members.rows)
          d

    added : WorkspaceMember
    added = record {
      id = d.workspace_members.seq + 1;
      workspace_id = ws;
      user_id = user;
      role = role;
      monthly_usd_cap = pos 0;
      created_at = now;
    }

    found :
        (e : Db)
        → (role_of ws user e ≡ some role)
        → e.workspace_invites ≡ d.workspace_invites
        → e ≡ w
        → (role_of ws user w ≡ some role) × (w.workspace_invites ≡ d.workspace_invites)
    found e has same to =
        subst
          (λ (x : Db).
            (role_of ws user x ≡ some role) × (x.workspace_invites ≡ d.workspace_invites))
          to (has, same)

    parents :
        (orphan known : Bool)
        → exists_where (is_member ws user) d.workspace_members.rows ≡ known
        → if◌then◌else◌ {A = Result (Unit {0} × Db)} orphan
            (err foreign_key_violation)
            (if known then ok (tt, updated) else ok (tt, append_member ws user role now d))
          ≡ ok (tt, w)
        → (role_of ws user w ≡ some role) × (w.workspace_invites ≡ d.workspace_invites)
    parents true known e h = cc
    parents false true e h =
        let (m, there) = first_where-exists (is_member ws user) d.workspace_members.rows e in
        found updated
          (ap role_if (
            first_where-updated (is_member ws user)
              (λ (m : WorkspaceMember). record m { role = role }) (λ a k. k)
              d.workspace_members.rows m there))
          refl cc
    parents false false e h =
        let none_there = first_where-none (is_member ws user) d.workspace_members.rows e in
        let itself : (ws == ws && user == user) ≡ true = ground arith in
        found (append_member ws user role now d)
          (ap role_if (
            first_where-append (is_member ws user) d.workspace_members.rows added none_there
            ∙ ap (λ (b : Bool). if b then some added else none) itself))
          refl cc

-- An invitation that is accepted makes its user a member of its workspace, with the role admin or
-- member that it grants, and is marked as accepted by that user.
pub accepted_is_member :
    (inv : WorkspaceInvite) (user : ℕ) (env : Env) (d d' : Db)
    → run (accept_workspace_invite inv user) env d ≡ (ok tt, d')
    → (role_of inv.workspace_id user d' ≡ some (granted_role inv.role))
      × ((str_eq (granted_role inv.role) "admin" || str_eq (granted_role inv.role) "member") ≡ true)
      × ((i : WorkspaceInvite)
          → first_where (is_invite inv.id) d.workspace_invites.rows ≡ some i
          → first_where (is_invite inv.id) d'.workspace_invites.rows ≡ some (accepted_by user i))
unfolding mark_accepted role_of
accepted_is_member inv user env d d' done =
    let (w, made, after) =
      subst (AcceptEnds inv user env d) done (accept_workspace_invite-ends inv user env d) in
    let (member, same) = upserted inv.workspace_id user (granted_role inv.role) env.now d w made in
    (
      ap (role_of inv.workspace_id user) after ∙ member,
      a_role inv.role,
      λ i there.
          ap (λ (x : Db). first_where (is_invite inv.id) x.workspace_invites.rows) after
          ∙ first_where-updated (is_invite inv.id) (accepted_by user) (λ a k. k)
              w.workspace_invites.rows i
              (ap (λ (t : Table WorkspaceInvite). first_where (is_invite inv.id) t.rows) same
                ∙ there),
    )
