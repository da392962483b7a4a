-- ===== src/Workspaces.antt =====
-- internal/saas/db/workspaces.go: workspaces and their members.
pub mod Create
pub mod Views
use hypitoken.Prelude.{
  ℕ, ◌+◌, Bool, true, false, Option, none, some, List, [], ◌∷◌, ◌++◌, String, ◌&&◌, ◌||◌, not, ℤ,
  pos, ◌==◌, ltb, leb, str_eq, trim_space, if◌then◌else◌, first_where, rows_where, update_where,
  count_where, exists_where, take, drop,
}
use hypitoken.Store.Schema.{
  Db, Table, Workspace, WorkspaceMember, WorkspaceType, personal, enterprise, type_rank, adjust,
  User, WalletTx, charge, kind_rank,
}
use hypitoken.Store.Sql.{
  Error, not_found, foreign_key_violation, Result, ok, err, Sql, pure, gets, or_raise, branch,
  query, exec, exec_, attempt, autocommit, commit, transact, ◌>>=◌, ◌>>◌,
}
use hypitoken.Store.Ledger.{sum_where}
use hypitoken.Wallet.{select_home, add_workspace_balance_tx}

-- GetWorkspace
unfoldable pub get_workspace : ℕ → Sql Workspace
get_workspace id = do
  found ← query (λ d. first_where (λ (w : Workspace). w.id == id) d.workspaces.rows)
  or_raise found not_found

abbrev pub append_workspace : Workspace → Db → Db
append_workspace w d = record d {
  workspaces = record {
    rows = d.workspaces.rows ++ record w { id = d.workspaces.seq + 1 } ∷ [];
    seq = d.workspaces.seq + 1;
  };
}

-- INSERT INTO workspaces, with LastInsertId
unfoldable pub insert_workspace : Workspace → Db → ℕ × Db
insert_workspace w d = (d.workspaces.seq + 1, append_workspace w d)

-- UPDATE users SET personal_workspace_id = ?, updated_at = ? WHERE id = ?
unfoldable pub set_home : ℕ → ℕ → ℕ → Db → Db
set_home ws now user d = record d {
  users = record (d.users) {
    rows =
        update_where (λ u. u.id == user)
          (λ u. record u { personal_workspace_id = ws; updated_at = now }) d.users.rows;
  };
}

abbrev pub is_member : ℕ → ℕ → WorkspaceMember → Bool
is_member ws user m = m.workspace_id == ws && m.user_id == user

abbrev pub set_members : List WorkspaceMember → Db → Db
set_members rows d = record d { workspace_members = record (d.workspace_members) { rows = rows } }

abbrev pub append_member : ℕ → ℕ → String → ℕ → Db → Db
append_member ws user role now d = record d {
  workspace_members = record {
    rows =
        d.workspace_members.rows
        ++ record {
          id = d.workspace_members.seq + 1;
          workspace_id = ws;
          user_id = user;
          role = role;
          monthly_usd_cap = pos 0;
          created_at = now;
        }
          ∷ [];
    seq = d.workspace_members.seq + 1;
  };
}

-- the foreign keys of workspace_members
abbrev pub member_parents : ℕ → ℕ → Db → Bool
member_parents ws user d =
    exists_where (λ (w : Workspace). w.id == ws) d.workspaces.rows
    && exists_where (λ (u : User). u.id == user) d.users.rows

-- INSERT INTO workspace_members of a new workspace, which has no members to be in conflict with
unfoldable pub insert_member : ℕ → ℕ → String → ℕ → Db → Result (Unit {0} × Db)
insert_member ws user role now d =
    if not (member_parents ws user d)
    then err foreign_key_violation
    else if exists_where (is_member ws user) d.workspace_members.rows
    then err Error.unique_violation
    else ok (tt, append_member ws user role now d)

-- INSERT … ON CONFLICT(workspace_id, user_id) DO UPDATE SET role = excluded.role
unfoldable pub upsert_member_row : ℕ → ℕ → String → ℕ → Db → Result (Unit {0} × Db)
upsert_member_row ws user role now d =
    if not (member_parents ws user d)
    then err foreign_key_violation
    else if exists_where (is_member ws user) d.workspace_members.rows
    then ok (
      tt,
      set_members
          (update_where (is_member ws user) (λ m. record m { role = role })
            d.workspace_members.rows)
          d,
    )
    else ok (tt, append_member ws user role now d)

abbrev pub home_or_zero : Option ℕ → ℕ
home_or_zero none = 0
home_or_zero (some ws) = ws

abbrev pub new_personal : String → ℕ → ℕ → ℕ → Workspace
new_personal email group user now = record {
  id = 0;
  name = trim_space email;
  type = personal;
  balance_usd = pos 0;
  daily_usd_cap = pos 0;
  monthly_usd_cap = pos 0;
  group_id = group;
  claude_multiplier = pos 0;
  codex_multiplier = pos 0;
  created_by = user;
  disabled = false;
  created_at = now;
  updated_at = now;
}

-- CreatePersonalWorkspace, from its insert on
unfoldable pub open_personal : ℕ → String → ℕ → Sql ℕ
open_personal user email group = do
  now ← gets (λ s. s.env.now)
  ws ← exec (λ d. ok (insert_workspace (new_personal email group user now) d))
  exec_ (set_home ws now user)
  exec (insert_member ws user "admin" now)
  commit
  pure ws

-- CreatePersonalWorkspace
unfoldable pub create_personal_workspace : ℕ → String → ℕ → Sql ℕ
create_personal_workspace user email group = transact do
  existing ← attempt 0 (query (λ d. home_or_zero (select_home user d)))
  branch (ltb 0 existing) (pure existing) (open_personal user email group)

-- CreateEnterpriseWorkspace
unfoldable pub create_enterprise_workspace : String → ℤ → ℤ → ℤ → ℤ → ℕ → Sql Workspace
create_enterprise_workspace name daily monthly claude codex created_by = do
  now ← gets (λ s. s.env.now)
  id ← autocommit (
      exec (λ d. ok (
        insert_workspace
          (record {
            id = 0;
            name = trim_space name;
            type = enterprise;
            balance_usd = pos 0;
            daily_usd_cap = daily;
            monthly_usd_cap = monthly;
            group_id = 0;
            claude_multiplier = claude;
            codex_multiplier = codex;
            created_by = created_by;
            disabled = false;
            created_at = now;
            updated_at = now;
          })
          d)))
  get_workspace id

-- a workspace with its member count
abbrev pub WorkspaceWithMeta : Type 0
WorkspaceWithMeta = Workspace × ℕ

abbrev of_type : Option WorkspaceType → Workspace → Bool
of_type none w = true
of_type (some t) w = type_rank w.type == type_rank t

-- ORDER BY id DESC
unfoldable pub insert_workspace_desc : Workspace → List Workspace → List Workspace
insert_workspace_desc w [] = w ∷ []
insert_workspace_desc w (v ∷ vs) =
    if leb v.id w.id then w ∷ v ∷ vs else v ∷ insert_workspace_desc w vs

unfoldable pub workspaces_desc : List Workspace → List Workspace
unfolding insert_workspace_desc
workspaces_desc [] = []
workspaces_desc (w ∷ ws) = insert_workspace_desc w (workspaces_desc ws)

unfoldable pub with_member_counts : Db → List Workspace → List WorkspaceWithMeta
with_member_counts d [] = []
with_member_counts d (w ∷ ws) =
    (w, count_where (λ (m : WorkspaceMember). m.workspace_id == w.id) d.workspace_members.rows)
    ∷ with_member_counts d ws

-- ListWorkspaces. A limit or an offset below zero has become 0.
unfoldable pub list_workspaces : Option WorkspaceType → ℕ → ℕ → Sql (List WorkspaceWithMeta × ℕ)
unfolding workspaces_desc
list_workspaces type limit offset = do
  total ← query (λ d. count_where (of_type type) d.workspaces.rows)
  page ← query (λ d. with_member_counts d (
      take (if limit == 0 then 50 else limit)
        (drop offset (workspaces_desc (rows_where (of_type type) d.workspaces.rows)))))
  pure (page, total)

-- WorkspaceUpdate: the fields to change, where they are given.
pub record WorkspaceUpdate : Type 0 where
  pub name : Option String
  pub daily_usd_cap : Option ℤ
  pub monthly_usd_cap : Option ℤ
  pub claude_multiplier : Option ℤ
  pub codex_multiplier : Option ℤ
  pub disabled : Option Bool

abbrev given : {A : Type 0} → Option A → A → A
given none a = a
given (some b) a = b

abbrev trimmed : Option String → Option String
trimmed none = none
trimmed (some s) = some (trim_space s)

abbrev pub is_absent : {A : Type 0} → Option A → Bool
is_absent none = true
is_absent (some a) = false

abbrev pub is_no_update : WorkspaceUpdate → Bool
is_no_update u =
    is_absent u.name
    && is_absent u.daily_usd_cap
    && is_absent u.monthly_usd_cap
    && is_absent u.claude_multiplier
    && is_absent u.codex_multiplier
    && is_absent u.disabled

unfoldable pub updated : WorkspaceUpdate → ℕ → Workspace → Workspace
updated u now w = record w {
  name = given (trimmed u.name) w.name;
  daily_usd_cap = given u.daily_usd_cap w.daily_usd_cap;
  monthly_usd_cap = given u.monthly_usd_cap w.monthly_usd_cap;
  claude_multiplier = given u.claude_multiplier w.claude_multiplier;
  codex_multiplier = given u.codex_multiplier w.codex_multiplier;
  disabled = given u.disabled w.disabled;
  updated_at = now;
}

-- UpdateWorkspace
unfoldable pub update_workspace : ℕ → WorkspaceUpdate → Sql (Unit {0})
unfolding updated
update_workspace id u = branch (is_no_update u) (pure tt) do
  now ← gets (λ s. s.env.now)
  autocommit (
      exec_ (λ d. record d {
        workspaces = record (d.workspaces) {
          rows = update_where (λ w. w.id == id) (updated u now) d.workspaces.rows;
        };
      }))

-- AdjustWorkspaceBalance
unfoldable pub adjust_workspace_balance : ℕ → ℕ → ℤ → String → String → Sql ℤ
adjust_workspace_balance ws operator delta ref note =
    transact
      do bal ← add_workspace_balance_tx ws operator adjust delta ref note true; commit; pure bal

-- UpsertWorkspaceMember: any role but the two known ones becomes member.
unfoldable pub upsert_workspace_member : ℕ → ℕ → String → Sql (Unit {0})
upsert_workspace_member ws user role = do
  now ← gets (λ s. s.env.now)
  autocommit (
      exec (
        upsert_member_row ws user
          (if not (str_eq role "admin") && not (str_eq role "member") then "member" else role) now))

-- RemoveWorkspaceMember
unfoldable pub remove_workspace_member : ℕ → ℕ → Sql (Unit {0})
remove_workspace_member ws user = autocommit (
    exec_
      (λ d. set_members (rows_where (λ m. not (is_member ws user m)) d.workspace_members.rows) d))

-- SetMemberMonthlyCap
unfoldable pub set_member_monthly_cap : ℕ → ℕ → ℤ → Sql (Unit {0})
set_member_monthly_cap ws user cap = autocommit (
    exec_ (λ d.
      set_members
        (update_where (is_member ws user) (λ m. record m { monthly_usd_cap = cap })
          d.workspace_members.rows)
        d))
