-- ===== src/EmailCodes/Attempts.antt =====
-- What checking a code does: it is accepted in time and within five attempts, or refused for a reason.
use hypitoken.Prelude.{
  ℕ, ltb, leb, ◌≤◌, ◌<◌, ◌≡◌, refl, Bool, true, false, not, String, some, none, ◌⊎◌, inl, inr,
  arith, str_eq, eq_iff, eq_refl, first_where,
}
use hypitoken.Store.Schema.{Db, EmailCode}
use hypitoken.Store.Sql.{
  all_up, ◌>>=◌, Env, Error, driver, no_code_requested, too_many_attempts, invalid_code,
  code_expired, Result, ok, err, Session, run, leave, pure, commit,
}
use hypitoken.Store.Rules.{
  Undone, pure_end, last, raise_end, gets_step, or_raise_why, raise_if_why, query_step, exec__step,
  branch_step, commit_step, transact_step, attempt_exec__step, attempt_commit_step,
}
use hypitoken.EmailCodes.{is_code, delete_code, count_attempt, consume_email_code}

module _ (email code purpose : String) (env : Env) (d : Db) where
  -- Why a code is refused, and what the refusal does: an expired code is deleted and a wrong one
  -- counted, unless the statements for that fail too.
  pub data Refusal (d' : Db) : Error → Type 0 where
    failing : d' ≡ d → Refusal d' driver
    unknown :
        first_where (is_code email purpose) d.email_codes.rows ≡ none
        → d' ≡ d
        → Refusal d' no_code_requested
    late :
        (c : EmailCode)
        → first_where (is_code email purpose) d.email_codes.rows ≡ some c
        → c.expires_at < env.now
        → (d' ≡ d) ⊎ (d' ≡ delete_code email purpose d)
        → Refusal d' code_expired
    locked :
        (c : EmailCode)
        → first_where (is_code email purpose) d.email_codes.rows ≡ some c
        → env.now ≤ c.expires_at
        → 5 ≤ c.attempts
        → d' ≡ d
        → Refusal d' too_many_attempts
    wrong :
        (c : EmailCode)
        → first_where (is_code email purpose) d.email_codes.rows ≡ some c
        → env.now ≤ c.expires_at
        → c.attempts < 5
        → (c.code ≡ code → ⊥)
        → (d' ≡ d) ⊎ (d' ≡ count_attempt email purpose d)
        → Refusal d' invalid_code

  -- A code is accepted when it is the stored one, not expired, and fewer than five wrong ones were
  -- tried; it is deleted then.
  abbrev pub ConsumeEnds : Result (Unit {0}) × Db → Type 0
  ConsumeEnds (ok _, d') =
      (c : EmailCode) × (first_where (is_code email purpose) d.email_codes.rows ≡ some c)
      × (env.now ≤ c.expires_at)
      × (c.attempts < 5)
      × (c.code ≡ code)
      × (d' ≡ delete_code email purpose d)
  ConsumeEnds (err e, d') = Refusal d' e

  Ends : Result (Unit {0}) × Session → Type 0
  Ends rt = ConsumeEnds (leave rt)

  -- Whatever statement fails, a code is accepted only if it is the stored one, not expired, and
  -- fewer than five wrong ones were tried, and it is deleted then. A refusal is the driver's and
  -- changes nothing, or has its reason: no code is stored; the stored one is expired, and it is
  -- deleted or nothing changes; five wrong ones were tried, and nothing changes; or the code is
  -- not the stored one, and the attempt is counted or nothing changes.
  pub consume_email_code-ends : ConsumeEnds (run (consume_email_code email code purpose) env d)
  unfolding consume_email_code run Ends
  consume_email_code-ends =
      transact_step Ends _ _
        (query_step T _ _ _
          (or_raise_why T _ _ _ _
            (λ c found. gets_step T _ _ _ (
              branch_step T _ _ _ _
                (λ passed.
                  let past : c.expires_at < env.now = ground arith in
                  attempt_exec__step T _ _ _
                    (attempt_commit_step T _ _ (raise_end T _ _ (late c found past (inr refl)))
                      (raise_end T _ _ (late c found past (inl refl))))
                    (attempt_commit_step T _ _ (raise_end T _ _ (late c found past (inl refl)))
                      (raise_end T _ _ (late c found past (inl refl)))))
                (λ in_time.
                  raise_if_why T _ _ _ _
                    (λ few.
                      branch_step T _ _ _ _
                        (λ differs.
                          let w = miss c found in_time few differs in
                          attempt_exec__step T _ _ _
                            (attempt_commit_step T _ _ (raise_end T _ _ (w _ (inr refl)))
                              (raise_end T _ _ (w _ (inl refl))))
                            (attempt_commit_step T _ _ (raise_end T _ _ (w _ (inl refl)))
                              (raise_end T _ _ (w _ (inl refl)))))
                        (λ right.
                          exec__step T _ _ _
                            (last T commit _ (
                              commit_step T pure _
                                (pure_end T _ _ (
                                  c,
                                  found,
                                  ground arith,
                                  ground arith,
                                  (eq_iff c.code code).0 (same _ right),
                                  refl,
                                ))
                                (failing refl)))
                            (failing refl)))
                    (λ many. locked c found (ground arith) (ground arith) refl))))
            (λ missing. unknown missing refl))
          (failing refl))
        (failing refl)
    where
      T : Result (Unit {0}) × Session → Type 0
      T = Undone Ends

      same : (b : Bool) → not b ≡ false → b ≡ true
      same true h = refl
      same false h = cc

      other : (c : EmailCode) → not (str_eq c.code code) ≡ true → c.code ≡ code → ⊥
      other c h e = let hit : str_eq c.code code ≡ true = (eq_iff c.code code).1 e in ground arith

      miss :
          (c : EmailCode)
          → first_where (is_code email purpose) d.email_codes.rows ≡ some c
          → ltb c.expires_at env.now ≡ false
          → leb 5 c.attempts ≡ false
          → not (str_eq c.code code) ≡ true
          → (d' : Db) → (d' ≡ d) ⊎ (d' ≡ count_attempt email purpose d)
          → Refusal d' invalid_code
      miss c found in_time few differs d' effect =
          wrong c found (ground arith) (ground arith) (other c differs) effect

-- A code that five wrong ones were tried on is never accepted.
pub locked_after_five :
    (email code purpose : String) (env : Env) (d : Db) (c : EmailCode)
    → first_where (is_code email purpose) d.email_codes.rows ≡ some c
    → 5 ≤ c.attempts
    → (run (consume_email_code email code purpose) env d).0 ≡ ok tt
    → ⊥
locked_after_five email code purpose env d c stored five =
    refused _ (consume_email_code-ends email code purpose env d)
  where
    refused :
        (end : Result (Unit {0}) × Db)
        → ConsumeEnds email code purpose env d end
        → end.0 ≡ ok tt
        → ⊥
    refused (ok _, _) (c', found, _, few, _, _) h = absurd (ground (arith, stored, found))
    refused (err e, _) _ h = cc

-- When every statement runs, the stored code is accepted in time and before the fifth wrong one.
pub consume_completes :
    (email purpose : String) (now : ℕ) (d : Db) (c : EmailCode)
    → first_where (is_code email purpose) d.email_codes.rows ≡ some c
    → now ≤ c.expires_at
    → c.attempts < 5
    → run (consume_email_code email c.code purpose) (all_up now) d
      ≡ (ok tt, delete_code email purpose d)
unfolding consume_email_code run ◌>>=◌
consume_completes email purpose now d c stored in_time few =
    let fresh : ltb c.expires_at now ≡ false = ground arith in
    let allowed : leb 5 c.attempts ≡ false = ground arith in
    rw (stored, fresh, allowed, eq_refl c.code) refl
