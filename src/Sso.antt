-- ===== src/Sso.antt =====
-- internal/saas/db/sso.go: the one-time codes that hand a session over to another origin. The random
-- code of a call, if the source of randomness gave one, is an argument; crypto/sha256 with the hex
-- encoding is the parameter `hash_sso_code`.
pub mod Redeem
pub mod Once
use hypitoken.Prelude.{
  ℕ, ◌+◌, ◌==◌, Bool, not, Option, none, some, List, [], ◌∷◌, ◌++◌, String, ◌&&◌, ltb, str_eq,
  trim_space, if◌then◌else◌, first_where, rows_where, update_where, count_where, exists_where,
}
use hypitoken.Store.Schema.{Db, SsoCode}
use hypitoken.Store.Sql.{
  user_id_required, return_url_required, random_failed, sso_code_invalid, unique_violation, Result,
  ok, err, Sql, pure, gets, or_raise, raise_if, query, exec, autocommit, commit, transact, ◌>>=◌,
  ◌>>◌,
}

abbrev pub set_sso_codes : List SsoCode → Db → Db
set_sso_codes rows d = record d { sso_codes = record (d.sso_codes) { rows = rows } }

abbrev pub has_code : String → SsoCode → Bool
has_code code c = str_eq c.code code

-- INSERT INTO sso_codes, whose key is the code
unfoldable pub insert_sso_code : SsoCode → Db → Result (Unit {0} × Db)
insert_sso_code c d =
    if exists_where (has_code c.code) d.sso_codes.rows
    then err unique_violation
    else ok (tt, set_sso_codes (d.sso_codes.rows ++ c ∷ []) d)

-- SSOCodeTTL, in seconds
abbrev pub sso_code_ttl : ℕ
sso_code_ttl = 120

-- WHERE code = ? AND used_at = 0
abbrev pub is_unused : String → SsoCode → Bool
is_unused code c = has_code code c && c.used_at == 0

-- WHERE code = ? AND used_at = 0 AND expires_at > ?
abbrev pub is_redeemable : String → ℕ → SsoCode → Bool
is_redeemable code now c = is_unused code c && ltb now c.expires_at

-- UPDATE sso_codes SET used_at = ? WHERE code = ? AND used_at = 0, with the rows affected
unfoldable pub use_code : String → ℕ → Db → ℕ × Db
use_code code now d = (
  count_where (is_unused code) d.sso_codes.rows,
  set_sso_codes
      (update_where (is_unused code) (λ (c : SsoCode). record c { used_at = now }) d.sso_codes.rows)
      d,
)

-- DELETE FROM sso_codes WHERE expires_at < ?, with the rows affected
unfoldable pub drop_codes : ℕ → Db → ℕ × Db
drop_codes before d = (
  count_where (λ (c : SsoCode). ltb c.expires_at before) d.sso_codes.rows,
  set_sso_codes (rows_where (λ (c : SsoCode). not (ltb c.expires_at before)) d.sso_codes.rows) d,
)

-- PruneSSOCodes
unfoldable pub prune_sso_codes : ℕ → Sql ℕ
prune_sso_codes before = autocommit (exec (λ d. ok (drop_codes before d)))

-- RedeemSSOCode from the transaction on
unfoldable pub redeem_hashed : String → Sql (ℕ × String)
redeem_hashed hashed = transact do
  now ← gets (λ s. s.env.now)
  found ← query (λ d. first_where (is_redeemable hashed now) d.sso_codes.rows)
  c ← or_raise found sso_code_invalid
  n ← exec (λ d. ok (use_code hashed now d))
  raise_if (not (n == 1)) sso_code_invalid
  commit
  pure (c.user_id, c.return_url)

module _ (hash_sso_code : String → String) where
  -- CreateSSOCode; a ttl of zero or below has become 0, and so has a user below zero.
  unfoldable pub create_sso_code : Option String → ℕ → String → ℕ → Sql String
  create_sso_code random user return_url ttl = do
    raise_if (user == 0) user_id_required
    raise_if (str_eq (trim_space return_url) "") return_url_required
    raw ← or_raise random random_failed
    now ← gets (λ s. s.env.now)
    autocommit (
        exec (
          insert_sso_code (record {
            code = hash_sso_code raw;
            user_id = user;
            return_url = trim_space return_url;
            created_at = now;
            expires_at = now + (if ttl == 0 then sso_code_ttl else ttl);
            used_at = 0;
          })))
    pure raw

  -- RedeemSSOCode
  unfoldable pub redeem_sso_code : String → Sql (ℕ × String)
  redeem_sso_code raw_code = do
    raise_if (str_eq (trim_space raw_code) "") sso_code_invalid
    redeem_hashed (hash_sso_code (trim_space raw_code))
