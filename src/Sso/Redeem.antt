-- ===== src/Sso/Redeem.antt =====
-- What the redemption of a one-time code does.
use hypitoken.Prelude.{◌⊎◌, inl, inr, ℕ, ◌≡◌, refl, some, String, trim_space, first_where}
use hypitoken.Store.Schema.{Db, SsoCode}
use hypitoken.Store.Sql.{driver, sso_code_invalid, Env, Result, ok, err, Session, run, leave}
use hypitoken.Store.Rules.{
  Undone, pure_end, raise_if_step, gets_step, or_raise_step, query_step, commit_step, transact_step,
}
use hypitoken.Store.Autocommit.{exec_ok_step}
use hypitoken.Sso.{is_redeemable, use_code, redeem_hashed, redeem_sso_code}

module _ (hash : String → String) (raw : String) (env : Env) (d : Db) where
  -- A refusal changes nothing and has one of two errors, whatever is wrong with the code. A success
  -- finds a code that is unused and not expired, answers with its user and address, and marks it as
  -- used.
  abbrev pub RedeemEnds : Result (ℕ × String) × Db → Type 0
  RedeemEnds (err e, d') = ((e ≡ sso_code_invalid) ⊎ (e ≡ driver)) × (d' ≡ d)
  RedeemEnds (ok answer, d') =
      (c : SsoCode) × (first_where (is_redeemable (hash (trim_space raw)) env.now) d.sso_codes.rows
        ≡ some c)
      × (answer ≡ (c.user_id, c.return_url))
      × (d' ≡ (use_code (hash (trim_space raw)) env.now d).1)

  Ends : Result (ℕ × String) × Session → Type 0
  Ends rt = RedeemEnds (leave rt)

  -- Whatever statement fails, a redemption answers with the user and the address of a code that is
  -- unused and not expired, and marks it as used; or it changes nothing, and its error is that of the
  -- driver or the one error for a code that is blank, unknown, expired or used.
  pub redeem_sso_code-ends : RedeemEnds (run (redeem_sso_code hash raw) env d)
  unfolding redeem_sso_code redeem_hashed run Ends
  redeem_sso_code-ends =
      raise_if_step Ends _ _ _ _
        (λ _.
          transact_step Ends _ _
            (gets_step T _ _ _ (
              query_step T _ _ _
                (or_raise_step T _ _ _ _
                  (λ c found.
                    exec_ok_step T _ _ _
                      (raise_if_step T _ _ _ _
                        (λ one.
                          commit_step T _ _ (pure_end T _ _ (c, found, refl, refl))
                            (inr refl, refl))
                        (inl refl, refl))
                      (inr refl, refl))
                  (inl refl, refl))
                (inr refl, refl)))
            (inr refl, refl))
        (inl refl, refl)
    where
      T : Result (ℕ × String) × Session → Type 0
      T = Undone Ends
