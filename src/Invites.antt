-- ===== src/Invites.antt =====
-- internal/saas/db/workspace_invites.go: invitations to a workspace. The random link token of a call,
-- if the source of randomness gave one, is an argument. Addresses arrive trimmed and in lower case:
-- strings.ToLower stands outside.
pub mod Accept
use hypitoken.Prelude.{
  ℕ, ◌+◌, ◌==◌, Bool, true, false, not, Option, none, some, List, [], ◌∷◌, ◌++◌, String, ◌&&◌, ◌||◌,
  ltb, str_eq, if◌then◌else◌, first_where, rows_where, update_where, exists_where, sort_by,
}
use hypitoken.Store.Schema.{Db, WorkspaceInvite, InviteStatus, invite_rank, Workspace}
use hypitoken.Store.Sql.{
  not_found, email_required, random_failed, unique_violation, foreign_key_violation, Result, ok,
  err, Sql, pure, gets, or_raise, raise_if, branch, attempt, query, exec, exec_, autocommit, commit,
  transact, ◌>>=◌, ◌>>◌,
}
use hypitoken.Workspaces.{upsert_member_row}

abbrev pub set_invites : List WorkspaceInvite → Db → Db
set_invites rows d = record d { workspace_invites = record (d.workspace_invites) { rows = rows } }

abbrev pub is_invite : ℕ → WorkspaceInvite → Bool
is_invite id i = i.id == id

abbrev pub has_invite_status : InviteStatus → WorkspaceInvite → Bool
has_invite_status st i = invite_rank i.status == invite_rank st

-- EffectiveStatus, in whole seconds; an `expires_at` of 0 is the zero time.
unfoldable pub effective_status : ℕ → WorkspaceInvite → InviteStatus
effective_status now i =
    if has_invite_status InviteStatus.pending i && not (i.expires_at == 0) && ltb i.expires_at now
    then InviteStatus.expired
    else i.status

-- the role that is granted
abbrev pub granted_role : String → String
granted_role role =
    if not (str_eq role "admin") && not (str_eq role "member") then "member" else role

-- getInvite
unfoldable pub get_invite : ℕ → Sql WorkspaceInvite
get_invite id = do
  found ← query (λ d. first_where (is_invite id) d.workspace_invites.rows)
  or_raise found not_found

-- GetWorkspaceInviteByToken
unfoldable pub get_workspace_invite_by_token : String → Sql WorkspaceInvite
get_workspace_invite_by_token token = do
  found ←
      query
        (λ d. first_where (λ (i : WorkspaceInvite). str_eq i.token token) d.workspace_invites.rows)
  or_raise found not_found

-- the link token is unique, but for the row of this identifier
abbrev pub token_taken : ℕ → String → Db → Bool
token_taken id token d =
    exists_where (λ (i : WorkspaceInvite). str_eq i.token token && not (i.id == id))
      d.workspace_invites.rows

-- UPDATE workspace_invites SET … WHERE id = ?, which sets the link token
unfoldable pub reissue :
    ℕ → String → (WorkspaceInvite → WorkspaceInvite) → Db → Result (Unit {0} × Db)
reissue id token f d =
    if token_taken id token d && exists_where (is_invite id) d.workspace_invites.rows
    then err unique_violation
    else ok (tt, set_invites (update_where (is_invite id) f d.workspace_invites.rows) d)

-- INSERT INTO workspace_invites: the workspace must be there, and the link token is unique.
unfoldable pub insert_invite : WorkspaceInvite → Db → Result (ℕ × Db)
insert_invite i d =
    let id = d.workspace_invites.seq + 1 in
    if not (exists_where (λ (w : Workspace). w.id == i.workspace_id) d.workspaces.rows)
    then err foreign_key_violation
    else (if token_taken 0 i.token d
        then err unique_violation
        else ok (
          id,
          record d {
            workspace_invites = record {
              rows = d.workspace_invites.rows ++ record i { id = id } ∷ [];
              seq = id;
            };
          },
        ))

-- WHERE workspace_id = ? AND email = ? AND status = 'pending'
abbrev pub is_pending_for : ℕ → String → WorkspaceInvite → Bool
is_pending_for ws email i =
    i.workspace_id == ws && str_eq i.email email && has_invite_status InviteStatus.pending i

abbrev pub invite_id : Option WorkspaceInvite → ℕ
invite_id none = 0
invite_id (some i) = i.id

-- CreateWorkspaceInvite, with the time to live in seconds
unfoldable pub create_workspace_invite :
    Option String → ℕ → String → String → ℕ → ℕ → Sql WorkspaceInvite
create_workspace_invite random ws email role invited_by ttl = do
  raise_if (str_eq email "") email_required
  token ← or_raise random random_failed
  now ← gets (λ s. s.env.now)
  existing ←
      attempt 0
        (query (λ d. invite_id (first_where (is_pending_for ws email) d.workspace_invites.rows)))
  branch (ltb 0 existing)
      (do
        autocommit (
            exec (
              reissue existing token (λ (i : WorkspaceInvite). record i {
                role = granted_role role;
                token = token;
                expires_at = now + ttl;
                invited_by = invited_by;
              })))
        get_invite existing)
      (do
        id ← autocommit (
            exec (
              insert_invite (record {
                id = 0;
                workspace_id = ws;
                email = email;
                role = granted_role role;
                token = token;
                status = InviteStatus.pending;
                invited_by = invited_by;
                accepted_user_id = 0;
                expires_at = now + ttl;
                created_at = now;
              })))
        get_invite id)

-- ListWorkspaceInvites
unfoldable pub list_workspace_invites : ℕ → Sql (List WorkspaceInvite)
list_workspace_invites ws = do
  rows ←
      query
        (λ d. rows_where (λ (i : WorkspaceInvite). i.workspace_id == ws) d.workspace_invites.rows)
  pure (sort_by (λ (a b : WorkspaceInvite). ltb a.id b.id) rows)

-- ListPendingInvitesForEmail
unfoldable pub list_pending_invites_for_email : String → Sql (List WorkspaceInvite)
unfolding effective_status
list_pending_invites_for_email email = do
  rows ← query (λ d.
      rows_where
        (λ (i : WorkspaceInvite). str_eq i.email email && has_invite_status InviteStatus.pending i)
        d.workspace_invites.rows)
  now ← gets (λ s. s.env.now)
  pure (
      rows_where
        (λ (i : WorkspaceInvite).
          invite_rank (effective_status now i) == invite_rank InviteStatus.pending)
        rows)

-- RevokeWorkspaceInvite
unfoldable pub revoke_workspace_invite : ℕ → Sql (Unit {0})
revoke_workspace_invite id = autocommit (
    exec_ (λ d.
      set_invites
        (update_where (λ i. is_invite id i && has_invite_status InviteStatus.pending i)
          (λ (i : WorkspaceInvite). record i { status = InviteStatus.revoked })
          d.workspace_invites.rows)
        d))

-- RefreshWorkspaceInvite, with the time to live in seconds
unfoldable pub refresh_workspace_invite : Option String → ℕ → ℕ → Sql WorkspaceInvite
refresh_workspace_invite random id ttl = do
  token ← or_raise random random_failed
  now ← gets (λ s. s.env.now)
  autocommit (
      exec (
        reissue id token (λ (i : WorkspaceInvite). record i {
          token = token;
          expires_at = now + ttl;
          status = InviteStatus.pending;
        })))
  get_invite id

abbrev pub accepted_by : ℕ → WorkspaceInvite → WorkspaceInvite
accepted_by user i = record i { status = InviteStatus.accepted; accepted_user_id = user }

-- UPDATE workspace_invites SET status = 'accepted', accepted_user_id = ? WHERE id = ?
unfoldable pub mark_accepted : ℕ → ℕ → Db → Db
mark_accepted id user d =
    set_invites (update_where (is_invite id) (accepted_by user) d.workspace_invites.rows) d

-- AcceptWorkspaceInvite
unfoldable pub accept_workspace_invite : WorkspaceInvite → ℕ → Sql (Unit {0})
accept_workspace_invite inv user = transact do
  now ← gets (λ s. s.env.now)
  exec (upsert_member_row inv.workspace_id user (granted_role inv.role) now)
  exec_ (mark_accepted inv.id user)
  commit
