-- ===== src/EmailCodes.antt =====
-- internal/saas/db/email_codes.go: one-time codes. The address arrives trimmed and in lower case:
-- strings.ToLower stands outside.
pub mod Attempts
pub mod Once
use hypitoken.Prelude.{
  ℕ, ◌+◌, Bool, Option, none, some, List, [], ◌∷◌, ◌++◌, String, ◌&&◌, not, ltb, leb, str_eq,
  if◌then◌else◌, first_where, rows_where, update_where, exists_where,
}
use hypitoken.Store.Schema.{Db, EmailCode}
use hypitoken.Store.Sql.{
  no_code_requested, code_expired, too_many_attempts, invalid_code, Sql, raise, gets, or_raise,
  raise_if, branch, attempt, query, exec_, autocommit, commit, transact, ◌>>=◌, ◌>>◌,
}

abbrev pub is_code : String → String → EmailCode → Bool
is_code email purpose c = str_eq c.email email && str_eq c.purpose purpose

abbrev pub set_codes : List EmailCode → Db → Db
set_codes rows d = record d { email_codes = record (d.email_codes) { rows = rows } }

abbrev pub fresh_code : String → String → String → ℕ → ℕ → EmailCode
fresh_code email code purpose expires now = record {
  email = email;
  code = code;
  purpose = purpose;
  expires_at = expires;
  attempts = 0;
  created_at = now;
}

abbrev pub replaced : EmailCode → EmailCode → EmailCode
replaced c old = record old {
  code = c.code;
  expires_at = c.expires_at;
  attempts = 0;
  created_at = c.created_at;
}

-- INSERT … ON CONFLICT(email, purpose) DO UPDATE
unfoldable pub upsert_code : EmailCode → Db → Db
upsert_code c d =
    set_codes
      (if exists_where (is_code c.email c.purpose) d.email_codes.rows
        then update_where (is_code c.email c.purpose) (replaced c) d.email_codes.rows
        else d.email_codes.rows ++ c ∷ [])
      d

-- PutEmailCode, with the time to live in seconds
unfoldable pub put_email_code : String → String → String → ℕ → Sql (Unit {0})
put_email_code email code purpose ttl = do
  now ← gets (λ s. s.env.now)
  autocommit (exec_ (upsert_code (fresh_code email code purpose (now + ttl) now)))

-- DELETE FROM email_codes WHERE email = ? AND purpose = ?
unfoldable pub delete_code : String → String → Db → Db
delete_code email purpose d =
    set_codes (rows_where (λ c. not (is_code email purpose c)) d.email_codes.rows) d

abbrev pub tried : EmailCode → EmailCode
tried c = record c { attempts = c.attempts + 1 }

-- UPDATE email_codes SET attempts = attempts + 1 WHERE email = ? AND purpose = ?
unfoldable pub count_attempt : String → String → Db → Db
count_attempt email purpose d =
    set_codes (update_where (is_code email purpose) tried d.email_codes.rows) d

-- ConsumeEmailCode: the bookkeeping of a refusal is committed, and its own failures are ignored.
unfoldable pub consume_email_code : String → String → String → Sql (Unit {0})
consume_email_code email code purpose = transact do
  found ← query (λ d. first_where (is_code email purpose) d.email_codes.rows)
  stored ← or_raise found no_code_requested
  now ← gets (λ s. s.env.now)
  branch (ltb stored.expires_at now)
      (do attempt tt (exec_ (delete_code email purpose)); attempt tt commit; raise code_expired)
      (do
        raise_if (leb 5 stored.attempts) too_many_attempts
        branch (not (str_eq stored.code code))
            (do
              attempt tt (exec_ (count_attempt email purpose))
              attempt tt commit
              raise invalid_code)
            (do exec_ (delete_code email purpose); commit))
