-- ===== src/Workspaces/Views.antt =====
-- internal/saas/db/workspaces.go: what a workspace shows of its members and its ledger.
use hypitoken.Prelude.{
  ℕ, ◌==◌, Bool, Option, none, some, List, [], ◌∷◌, String, ◌&&◌, ◌||◌, ℤ, neg_ℤ, ltb_ℤ, ltb, leb,
  if◌then◌else◌, first_where, rows_where, count_where, sort_by, take, drop,
}
use hypitoken.Store.Schema.{
  Db, User, Workspace, WorkspaceMember, WorkspaceType, WalletTx, charge, kind_rank, type_rank,
}
use hypitoken.Store.Sql.{Sql, query, pure, or_raise, not_found, ◌>>=◌}
use hypitoken.Store.Ledger.{sum_where}
use hypitoken.Workspaces.{is_member}

-- MemberWorkspace
pub record MemberWorkspace : Type 0 where
  pub workspace_id : ℕ
  pub name : String
  pub type : WorkspaceType
  pub role : String
  pub claude_multiplier : ℤ
  pub codex_multiplier : ℤ

abbrev joined : WorkspaceMember → Option Workspace → List MemberWorkspace → List MemberWorkspace
joined m none rest = rest
joined m (some w) rest =
    if w.disabled
    then rest
    else record {
      workspace_id = w.id;
      name = w.name;
      type = w.type;
      role = m.role;
      claude_multiplier = w.claude_multiplier;
      codex_multiplier = w.codex_multiplier;
    }
      ∷ rest

-- JOIN workspaces w ON w.id = m.workspace_id WHERE w.disabled = 0
unfoldable pub join_workspaces : Db → List WorkspaceMember → List MemberWorkspace
join_workspaces d [] = []
join_workspaces d (m ∷ ms) =
    joined m (first_where (λ (w : Workspace). w.id == m.workspace_id) d.workspaces.rows)
      (join_workspaces d ms)

-- personal ones first, then by identifier
abbrev stands_behind : MemberWorkspace → MemberWorkspace → Bool
stands_behind a b =
    ltb (type_rank b.type) (type_rank a.type)
    || (type_rank a.type == type_rank b.type && ltb b.workspace_id a.workspace_id)

-- ListWorkspacesForUser
unfoldable pub list_workspaces_for_user : ℕ → Sql (List MemberWorkspace)
list_workspaces_for_user user = query (λ d.
    sort_by stands_behind
      (join_workspaces d (rows_where (λ m. m.user_id == user) d.workspace_members.rows)))

abbrev email_or_empty : Option User → String
email_or_empty none = ""
email_or_empty (some u) = u.email

-- LEFT JOIN users u ON u.id = user, COALESCE(u.email, '')
abbrev email_of : Db → ℕ → String
email_of d user = email_or_empty (first_where (λ (u : User). u.id == user) d.users.rows)

-- MemberUsage
pub record MemberUsage : Type 0 where
  pub user_id : ℕ
  pub email : String
  pub role : String
  pub monthly_usd_cap : ℤ
  pub spent_usd : ℤ

-- the charges of a member since a time
unfoldable pub spent : Db → ℕ → ℕ → ℕ → ℤ
spent d ws user since = neg_ℤ (
    sum_where
      (λ t.
        t.workspace_id == ws
        && (t.user_id == user && (kind_rank t.kind == kind_rank charge && leb since t.created_at)))
      d.wallet_tx.rows)

unfoldable pub usage_rows : Db → ℕ → List WorkspaceMember → List MemberUsage
usage_rows d since [] = []
usage_rows d since (m ∷ ms) =
    record {
      user_id = m.user_id;
      email = email_of d m.user_id;
      role = m.role;
      monthly_usd_cap = m.monthly_usd_cap;
      spent_usd = spent d m.workspace_id m.user_id since;
    }
    ∷ usage_rows d since ms

-- WorkspaceMemberUsage
unfoldable pub workspace_member_usage : ℕ → ℕ → Sql (List MemberUsage)
workspace_member_usage ws since = query (λ d.
    sort_by (λ a b. ltb_ℤ a.spent_usd b.spent_usd)
      (usage_rows d since (rows_where (λ m. m.workspace_id == ws) d.workspace_members.rows)))

-- WorkspaceLedgerRow
pub record WorkspaceLedgerRow : Type 0 where
  pub user_id : ℕ
  pub email : String
  pub ref : String
  pub amount_usd : ℤ
  pub created_at : ℕ

unfoldable pub ledger_rows : Db → List WalletTx → List WorkspaceLedgerRow
ledger_rows d [] = []
ledger_rows d (t ∷ ts) =
    record {
      user_id = t.user_id;
      email = email_of d t.user_id;
      ref = t.ref;
      amount_usd = t.amount_usd;
      created_at = t.created_at;
    }
    ∷ ledger_rows d ts

abbrev is_charge_of : ℕ → WalletTx → Bool
is_charge_of ws t = t.workspace_id == ws && kind_rank t.kind == kind_rank charge

-- WorkspaceLedger. A limit or an offset below zero has become 0.
unfoldable pub workspace_ledger : ℕ → ℕ → ℕ → Sql (List WorkspaceLedgerRow × ℕ)
workspace_ledger ws limit offset = do
  total ← query (λ d. count_where (is_charge_of ws) d.wallet_tx.rows)
  rows ← query (λ d. ledger_rows d (
      take (if limit == 0 then 50 else limit) (
        drop offset (
          sort_by (λ (a b : WalletTx). ltb a.id b.id)
            (rows_where (is_charge_of ws) d.wallet_tx.rows)))))
  pure (rows, total)

-- GetWorkspaceMember
unfoldable pub get_workspace_member : ℕ → ℕ → Sql WorkspaceMember
get_workspace_member ws user = do
  found ← query (λ d. first_where (is_member ws user) d.workspace_members.rows)
  or_raise found not_found
