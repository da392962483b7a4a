-- ===== src/Tokens.antt =====
-- internal/saas/db/tokens.go: the API tokens of users. A fresh secret, if the source of randomness
-- gave one, is an argument of the calls that need one.
pub mod Tags
pub mod Guard
use Prim.Native.String.{String}
use hypitoken.Prelude.{
  ℕ, suc, zero, ◌+◌, ◌==◌, Bool, true, false, not, Option, none, some, List, [], ◌∷◌, ◌++◌, ◌&&◌,
  ◌||◌, ltb, leb, str_eq, trim_space, if◌then◌else◌, first_where, rows_where, update_where,
  count_where, exists_where, map, sort_by, ℤ, pos, length,
}
use hypitoken.Store.Schema.{Db, UserToken, User}
use hypitoken.Store.Sql.{
  not_found, random_failed, unique_violation, foreign_key_violation, Result, ok, err, Sql, pure,
  gets, or_raise, raise_if, branch, attempt, query, exec, exec_, autocommit, ◌>>=◌, ◌>>◌,
}
use hypitoken.Wallet.{personal_workspace_id}

-- MaxTokenTags
abbrev pub max_token_tags : ℕ
max_token_tags = 8

-- MaxTokenTagLen
abbrev pub max_token_tag_len : ℕ
max_token_tag_len = 32

-- len([]rune(s))
unfoldable pub rune_count : String → ℕ
rune_count String.[] = 0
rune_count (String.◌∷◌ c s) = suc (rune_count s)

-- string([]rune(s)[:n]), for a text of n characters at least
unfoldable pub rune_prefix : ℕ → String → String
rune_prefix zero s = String.[]
rune_prefix (suc n) String.[] = String.[]
rune_prefix (suc n) (String.◌∷◌ c s) = String.◌∷◌ c (rune_prefix n s)

-- a tag as it is stored
unfoldable pub cut_tag : String → String
cut_tag tag =
    if ltb max_token_tag_len (rune_count tag) then rune_prefix max_token_tag_len tag else tag

-- The loop of SanitizeTags: `seen` are the tags that were stored, `left` how many more fit.
unfoldable pub sanitize_from : List String → ℕ → List String → List String
unfolding cut_tag
sanitize_from seen zero raws = []
sanitize_from seen (suc left) [] = []
sanitize_from seen (suc left) (raw ∷ raws) =
    let tag = trim_space raw in
    let skip = sanitize_from seen (suc left) raws in
    let keep = sanitize_from (cut_tag tag ∷ seen) left raws in
    if str_eq tag "" || exists_where (str_eq tag) seen then skip else cut_tag tag ∷ keep

-- SanitizeTags
unfoldable pub sanitize_tags : List String → List String
unfolding sanitize_from
sanitize_tags raws = sanitize_from [] max_token_tags raws

-- TokenParams
pub record TokenParams : Type 0 where
  pub name : String
  pub daily_usd_cap : ℤ
  pub monthly_usd_cap : ℤ
  pub max_concurrent : ℤ
  pub rpm : ℤ
  pub groups : List String
  pub workspace_id : ℕ
  pub tags : List String

abbrev pub set_tokens : List UserToken → Db → Db
set_tokens rows d = record d { user_tokens = record (d.user_tokens) { rows = rows } }

abbrev pub is_token : ℕ → UserToken → Bool
is_token id t = t.id == id

abbrev pub has_secret : String → UserToken → Bool
has_secret secret t = str_eq t.token secret

abbrev pub fresh_token : ℕ → ℕ → String → TokenParams → ℕ → ℕ → UserToken
fresh_token id user secret p ws now = record {
  id = id;
  user_id = user;
  token = secret;
  name = p.name;
  daily_usd_cap = p.daily_usd_cap;
  monthly_usd_cap = p.monthly_usd_cap;
  max_concurrent = p.max_concurrent;
  rpm = p.rpm;
  disabled = false;
  last_used_at = 0;
  created_at = now;
  groups = p.groups;
  workspace_id = ws;
  admin_monthly_cap = pos 0;
  tags = sanitize_tags p.tags;
}

-- INSERT INTO user_tokens: the secret is unique, and the user must be there.
unfoldable pub insert_token : ℕ → String → TokenParams → ℕ → ℕ → Db → Result (ℕ × Db)
insert_token user secret p ws now d =
    let id = d.user_tokens.seq + 1 in
    if not (exists_where (λ (u : User). u.id == user) d.users.rows)
    then err foreign_key_violation
    else (if exists_where (has_secret secret) d.user_tokens.rows
        then err unique_violation
        else ok (
          id,
          record d {
            user_tokens = record {
              rows = d.user_tokens.rows ++ fresh_token id user secret p ws now ∷ [];
              seq = id;
            };
          },
        ))

-- GetUserToken
unfoldable pub get_user_token : ℕ → Sql UserToken
get_user_token id = do
  found ← query (λ d. first_where (is_token id) d.user_tokens.rows)
  or_raise found not_found

-- GetUserTokenByValue
unfoldable pub get_user_token_by_value : String → Sql UserToken
get_user_token_by_value secret = do
  found ← query (λ d. first_where (has_secret secret) d.user_tokens.rows)
  or_raise found not_found

-- CreateUserToken; a failed lookup of the personal workspace leaves 0.
unfoldable pub create_user_token : Option String → ℕ → TokenParams → Sql UserToken
create_user_token random user p = do
  secret ← or_raise random random_failed
  ws ← branch (p.workspace_id == 0) (attempt 0 (personal_workspace_id user)) (pure p.workspace_id)
  now ← gets (λ s. s.env.now)
  id ← autocommit (exec (insert_token user secret p ws now))
  get_user_token id

-- ORDER BY id DESC
abbrev by_id_desc : List UserToken → List UserToken
by_id_desc rows = sort_by (λ (a b : UserToken). ltb a.id b.id) rows

-- ListUserTokens
unfoldable pub list_user_tokens : ℕ → Sql (List UserToken)
list_user_tokens user = do
  rows ← query (λ d. rows_where (λ (t : UserToken). t.user_id == user) d.user_tokens.rows)
  pure (by_id_desc rows)

-- ListWorkspaceMemberTokens
unfoldable pub list_workspace_member_tokens : ℕ → ℕ → Sql (List UserToken)
list_workspace_member_tokens ws user = do
  rows ← query (λ d.
      rows_where (λ (t : UserToken). t.workspace_id == ws && t.user_id == user) d.user_tokens.rows)
  pure (by_id_desc rows)

-- AllTokenSecrets
unfoldable pub all_token_secrets : Sql (List String)
all_token_secrets = query (λ d. map (λ (t : UserToken). t.token) d.user_tokens.rows)

abbrev pub change_tokens : (UserToken → Bool) → (UserToken → UserToken) → Db → ℕ × Db
change_tokens p f d =
    (count_where p d.user_tokens.rows, set_tokens (update_where p f d.user_tokens.rows) d)

abbrev pub edited_token : TokenParams → Option Bool → UserToken → UserToken
edited_token p disabled t = record t {
  name = p.name;
  daily_usd_cap = p.daily_usd_cap;
  monthly_usd_cap = p.monthly_usd_cap;
  max_concurrent = p.max_concurrent;
  rpm = p.rpm;
  disabled = flag disabled;
  groups = p.groups;
  tags = sanitize_tags p.tags;
}
  where
    flag : Option Bool → Bool
    flag none = t.disabled
    flag (some b) = b

-- UpdateUserToken
unfoldable pub update_user_token : ℕ → TokenParams → Option Bool → Sql (Unit {0})
update_user_token id p disabled =
    autocommit (exec_ (λ d. (change_tokens (is_token id) (edited_token p disabled) d).1))

-- DeleteUserToken
unfoldable pub delete_user_token : ℕ → Sql (Unit {0})
delete_user_token id =
    autocommit
      (exec_ (λ d. set_tokens (rows_where (λ t. not (is_token id t)) d.user_tokens.rows) d))

-- UPDATE user_tokens SET token = ? WHERE id = ?: the secret stays unique.
unfoldable pub set_secret : ℕ → String → Db → Result (Unit {0} × Db)
set_secret id secret d =
    if exists_where (λ t. has_secret secret t && not (is_token id t)) d.user_tokens.rows
      && exists_where (is_token id) d.user_tokens.rows
    then err unique_violation
    else ok (tt, (change_tokens (is_token id) (λ (t : UserToken). record t { token = secret }) d).1)

-- RotateUserToken
unfoldable pub rotate_user_token : Option String → ℕ → Sql UserToken
rotate_user_token random id = do
  secret ← or_raise random random_failed
  autocommit (exec (set_secret id secret))
  get_user_token id

-- TouchUserToken
unfoldable pub touch_user_token : ℕ → Sql (Unit {0})
touch_user_token id = do
  now ← gets (λ s. s.env.now)
  attempt tt (
      autocommit (
        exec_ (λ d.
          (change_tokens (is_token id) (λ (t : UserToken). record t { last_used_at = now }) d).1)))

-- WHERE id = ? AND workspace_id = ?
abbrev pub is_bound : ℕ → ℕ → UserToken → Bool
is_bound id ws t = is_token id t && t.workspace_id == ws

-- SetTokenAdminMonthlyCap
unfoldable pub set_token_admin_monthly_cap : ℕ → ℕ → ℤ → Sql (Unit {0})
set_token_admin_monthly_cap id ws cap = do
  n ← autocommit (
      exec (λ d. ok (
        change_tokens (is_bound id ws) (λ (t : UserToken). record t { admin_monthly_cap = cap })
          d)))
  raise_if (n == 0) not_found

-- SetTokenTags
unfoldable pub set_token_tags : ℕ → ℕ → List String → Sql (Unit {0})
set_token_tags id ws tags = do
  n ← autocommit (
      exec (λ d. ok (
        change_tokens (is_bound id ws) (λ (t : UserToken). record t { tags = sanitize_tags tags })
          d)))
  raise_if (n == 0) not_found
