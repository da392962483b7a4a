-- ===== src/EmailCodes/Once.antt =====
-- A one-time code is accepted once.
use hypitoken.Prelude.{
  ℕ, ◌≡◌, sym, subst, false, ◌&&◌, not, List, [], ◌∷◌, ◌++◌, String, str_eq, arith, if_cases,
  first_where-stronger, update_where, count_where, count_where-append, count_where-update_le,
  count_where-rows_le, count_where-deleted, All,
}
use hypitoken.Store.Schema.{Db, EmailCode}
use hypitoken.Store.Sql.{
  Error, Env, code_expired, invalid_code, Result, ok, err, run, exec_, attempt, commit, raise, ◌>>◌,
}
use hypitoken.Store.Keeps.{
  Keeps, gets-Keeps, raise-Keeps, or_raise-Keeps, raise_if-Keeps, branch-Keeps, attempt-Keeps,
  query-Keeps, exec_-Keeps, autocommit-Keeps, transact-Keeps, commit-Keeps, bind-Keeps, run-Keeps,
}
use hypitoken.EmailCodes.{
  is_code, replaced, upsert_code, put_email_code, delete_code, tried, count_attempt,
  consume_email_code,
}
use hypitoken.EmailCodes.Attempts.{ConsumeEnds, consume_email_code-ends}

-- A call that changes the codes.
pub data CodeCall : Type 0 where
  puts : String → String → String → ℕ → CodeCall
  consumes : String → String → String → CodeCall

-- the database that a call leaves
unfoldable pub code_step : CodeCall → Env → Db → Db
code_step (puts email code purpose ttl) env d =
    (run (put_email_code email code purpose ttl) env d).1
code_step (consumes email code purpose) env d =
    (run (consume_email_code email code purpose) env d).1

-- the database after calls, the latest first
unfoldable pub codes_after : List (CodeCall × Env) → Db → Db
codes_after [] d = d
codes_after ((c, env) ∷ cs) d = code_step c env (codes_after cs d)

module _ (email purpose : String) where
  -- The call stores no code for this address and purpose.
  abbrev pub IsElsewhere : CodeCall × Env → Type 0
  IsElsewhere (puts e code p ttl, env) = (str_eq e email && str_eq p purpose) ≡ false
  IsElsewhere (consumes e code p, env) = Unit

  -- no code is stored
  abbrev IsGone : Db → Type 0
  IsGone d = count_where (is_code email purpose) d.email_codes.rows ≡ 0

  upsert_code-IsGone :
      (c : EmailCode) (d : Db)
      → is_code email purpose c ≡ false
      → IsGone d
      → IsGone (upsert_code c d)
  unfolding upsert_code count_where
  upsert_code-IsGone c d other gone =
      if_cases (λ (rows : List EmailCode). count_where (is_code email purpose) rows ≡ 0) _
        {x = update_where (is_code c.email c.purpose) (replaced c) d.email_codes.rows}
        {y = d.email_codes.rows ++ c ∷ []}
        (λ known.
          let fewer =
            count_where-update_le (is_code c.email c.purpose) (is_code email purpose) (replaced c)
              (λ a h k. k) d.email_codes.rows in
          omega arith)
        (λ fresh.
          let more = count_where-append (is_code email purpose) d.email_codes.rows (c ∷ []) in
          ground arith)

  put_email_code-Keeps :
      (e code p : String) (ttl : ℕ)
      → (str_eq e email && str_eq p purpose) ≡ false
      → Keeps IsGone (put_email_code e code p ttl)
  unfolding put_email_code
  put_email_code-Keeps e code p ttl other =
      bind-Keeps IsGone _ _ (gets-Keeps IsGone _) (λ now.
        autocommit-Keeps IsGone _ (exec_-Keeps IsGone _ (λ d. upsert_code-IsGone _ d other)))

  consume_email_code-Keeps : (e code p : String) → Keeps IsGone (consume_email_code e code p)
  unfolding consume_email_code delete_code count_attempt
  consume_email_code-Keeps e code p = transact-Keeps IsGone _ (
      bind-Keeps IsGone _ _ (query-Keeps IsGone _) (λ found.
        bind-Keeps IsGone _ _ (or_raise-Keeps IsGone _ _) (λ c.
          bind-Keeps IsGone _ _ (gets-Keeps IsGone _) (λ now.
            branch-Keeps IsGone _ _ _
              (bind-Keeps IsGone _ _ (attempt-Keeps IsGone _ _ deleting) (λ _. noted code_expired))
              (bind-Keeps IsGone _ _ (raise_if-Keeps IsGone _ _) (λ _.
                branch-Keeps IsGone _ _ _
                  (bind-Keeps IsGone _ _ (attempt-Keeps IsGone _ _ counting)
                    (λ _. noted invalid_code))
                  (bind-Keeps IsGone _ _ deleting (λ _. commit-Keeps IsGone))))))))
    where
      deleting : Keeps IsGone (exec_ (delete_code e p))
      deleting = exec_-Keeps IsGone _ (λ d gone.
          let fewer =
            count_where-rows_le (λ c. not (is_code e p c)) (is_code email purpose)
              d.email_codes.rows in
          omega arith)

      counting : Keeps IsGone (exec_ (count_attempt e p))
      counting = exec_-Keeps IsGone _ (λ d gone.
          let fewer =
            count_where-update_le (is_code e p) (is_code email purpose) tried (λ a h k. k)
              d.email_codes.rows in
          omega arith)

      noted : (e : Error) → Keeps IsGone {A = Unit {0}} (attempt tt commit >> raise e)
      noted e =
          bind-Keeps IsGone _ _ (attempt-Keeps IsGone _ _ (commit-Keeps IsGone))
            (λ _. raise-Keeps IsGone (Unit {0}) e)

  code_step-IsGone :
      (c : CodeCall) (env : Env) (d : Db)
      → IsElsewhere (c, env)
      → IsGone d
      → IsGone (code_step c env d)
  unfolding code_step
  code_step-IsGone (puts e code p ttl) env d other =
      run-Keeps IsGone _ env d (put_email_code-Keeps e code p ttl other)
  code_step-IsGone (consumes e code p) env d other =
      run-Keeps IsGone _ env d (consume_email_code-Keeps e code p)

  codes_after-IsGone :
      (cs : List (CodeCall × Env)) (d : Db)
      → All IsElsewhere cs
      → IsGone d
      → IsGone (codes_after cs d)
  unfolding codes_after
  codes_after-IsGone [] d others gone = gone
  codes_after-IsGone ((c, env) ∷ cs) d others gone =
      code_step-IsGone c env (codes_after cs d) others.0 (codes_after-IsGone cs d others.1 gone)

  -- Once a code was accepted, no code is accepted for its address and purpose, whatever is tried,
  -- after any calls that check codes and store codes for other addresses or purposes, whichever
  -- statements fail.
  pub accepted_once :
      (code code' : String) (env env' : Env) (d d' : Db) (cs : List (CodeCall × Env))
      → run (consume_email_code email code purpose) env d ≡ (ok tt, d')
      → All IsElsewhere cs
      → (run (consume_email_code email code' purpose) env' (codes_after cs d')).0 ≡ ok tt
      → ⊥
  unfolding delete_code
  accepted_once code code' env env' d d' cs accepted others =
      let (_, _, _, _, _, last) =
        subst (ConsumeEnds email code purpose env d) accepted
          (consume_email_code-ends email code purpose env d) in
      let gone : IsGone d' =
        subst IsGone (sym last) (count_where-deleted (is_code email purpose) d.email_codes.rows) in
      refused _ (codes_after-IsGone cs d' others gone)
        (consume_email_code-ends email code' purpose env' (codes_after cs d'))
    where
      refused :
          (end : Result (Unit {0}) × Db)
          → IsGone (codes_after cs d')
          → ConsumeEnds email code' purpose env' (codes_after cs d') end
          → end.0 ≡ ok tt
          → ⊥
      refused (ok _, _) gone (c, found, _, _, _, _) h =
          first_where-stronger (is_code email purpose) (is_code email purpose)
            (codes_after cs d').email_codes.rows c (λ b k. k) gone found
      refused (err e, _) gone _ h = cc
