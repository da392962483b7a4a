-- ===== src/Sso/Once.antt =====
-- A one-time code is redeemed once.
use hypitoken.Prelude.{
  ℕ, ◌≤◌, ◌≡◌, sym, subst, Bool, true, false, not, ltb, Option, some, none, List, [], ◌∷◌, ◌++◌,
  String, str_eq, trim_space, arith, if◌then◌else◌, count_where, exists_where, count_where-append,
  count_where-update_le, count_where-cleared, first_where-stronger, count_where-rows_le, All,
}
use hypitoken.Store.Schema.{Db, SsoCode}
use hypitoken.Store.Sql.{unique_violation, Env, Result, ok, err, Session, run, leave}
use hypitoken.Store.Rules.{pure_end, raise_if_step, gets_step, or_raise_step, last}
use hypitoken.Store.Autocommit.{autocommit_step, autocommit_ok_step}
use hypitoken.Sso.{
  has_code, is_unused, is_redeemable, insert_sso_code, use_code, drop_codes, prune_sso_codes,
  create_sso_code, redeem_sso_code, set_sso_codes,
}
use hypitoken.Sso.Redeem.{RedeemEnds, redeem_sso_code-ends}

-- no row of the code is unused
abbrev pub IsSpent : String → Db → Type 0
IsSpent code d = count_where (is_unused code) d.sso_codes.rows ≡ 0

-- A call that changes the codes.
pub data SsoCall : Type 0 where
  mints : Option String → ℕ → String → ℕ → SsoCall
  redeems : String → SsoCall
  prunes : ℕ → SsoCall

module _ (hash : String → String) where
  -- the database that a call leaves
  unfoldable pub sso_step : SsoCall → Env → Db → Db
  sso_step (mints random user url ttl) env d =
      (run (create_sso_code hash random user url ttl) env d).1
  sso_step (redeems raw) env d = (run (redeem_sso_code hash raw) env d).1
  sso_step (prunes before) env d = (run (prune_sso_codes before) env d).1

  -- the database after calls, the latest first
  unfoldable pub sso_after : List (SsoCall × Env) → Db → Db
  sso_after [] d = d
  sso_after ((c, env) ∷ cs) d = sso_step c env (sso_after cs d)

  -- The random code of a call, if any, does not have this hash.
  abbrev pub IsOther : String → SsoCall × Env → Type 0
  IsOther code (mints (some raw) user url ttl, env) = str_eq (hash raw) code ≡ false
  IsOther code (c, env) = Unit

  use_code-IsSpent :
      (code other : String) (now : ℕ) (d : Db)
      → IsSpent code d
      → IsSpent code (use_code other now d).1
  unfolding use_code
  use_code-IsSpent code other now d spent =
      let fewer =
        count_where-update_le (is_unused other) (is_unused code)
          (λ (c : SsoCode). record c { used_at = now }) (λ c h k. ground arith) d.sso_codes.rows in
      omega arith

  insert-IsSpent :
      (code : String) (c : SsoCode) (d e : Db)
      → str_eq c.code code ≡ false
      → insert_sso_code c d ≡ ok (tt, e)
      → IsSpent code d
      → IsSpent code e
  unfolding insert_sso_code count_where
  insert-IsSpent code c d e other h spent =
      inserted (exists_where (has_code c.code) d.sso_codes.rows) h
    where
      inserted :
          (taken : Bool)
          → if◌then◌else◌ {A = Result (Unit {0} × Db)} taken
              (err unique_violation)
              (ok (tt, set_sso_codes (d.sso_codes.rows ++ c ∷ []) d))
            ≡ ok (tt, e)
          → IsSpent code e
      inserted true h = cc
      inserted false h =
          let same : set_sso_codes (d.sso_codes.rows ++ c ∷ []) d ≡ e = cc in
          let more = count_where-append (is_unused code) d.sso_codes.rows (c ∷ []) in
          subst (IsSpent code) same (ground arith)

  module _ (code : String) (env : Env) (d : Db) (spent : IsSpent code d) where
    abbrev Spent : {A : Type 0} → Result A × Session → Type 0
    Spent x = IsSpent code (leave x).1

    mint-IsSpent :
        (random : Option String) (user : ℕ) (url : String) (ttl : ℕ)
        → IsOther code (mints random user url ttl, env)
        → IsSpent code (run (create_sso_code hash random user url ttl) env d).1
    unfolding create_sso_code run
    mint-IsSpent none user url ttl other =
        raise_if_step Spent _ _ _ _
          (λ _.
            raise_if_step Spent _ _ _ _ (λ _. or_raise_step Spent _ _ _ _ (λ a e. cc) spent) spent)
          spent
    mint-IsSpent (some raw) user url ttl other =
        raise_if_step Spent _ _ _ _
          (λ _.
            raise_if_step Spent _ _ _ _
              (λ _.
                or_raise_step Spent _ _ _ _
                  (λ a e. gets_step Spent _ _ _ (
                    autocommit_step Spent _ _ _
                      (λ b w done. pure_end Spent _ _ (
                        insert-IsSpent code _ d w
                          (let same : raw ≡ a = cc in
                            subst (λ (r : String). str_eq (hash r) code ≡ false) same other)
                          done spent))
                      (λ e. spent)))
                  spent)
              spent)
          spent

    redeem-IsSpent : (raw : String) → IsSpent code (run (redeem_sso_code hash raw) env d).1
    redeem-IsSpent raw = go _ (redeem_sso_code-ends hash raw env d)
      where
        go : (end : Result (ℕ × String) × Db) → RedeemEnds hash raw env d end → IsSpent code end.1
        go (err e, d') (_, same) = subst (IsSpent code) (sym same) spent
        go (ok answer, d') (c, found, _, after) =
            subst (IsSpent code) (sym after)
              (use_code-IsSpent code (hash (trim_space raw)) env.now d spent)

    prune-IsSpent : (before : ℕ) → IsSpent code (run (prune_sso_codes before) env d).1
    unfolding prune_sso_codes run drop_codes
    prune-IsSpent before = last Spent _ _ (
        autocommit_ok_step Spent _ _ _
          (pure_end Spent _ _ (
            let fewer =
              count_where-rows_le (λ (c : SsoCode). not (ltb c.expires_at before)) (is_unused code)
                d.sso_codes.rows in
            omega arith))
          (λ e. spent))

    sso_step-IsSpent : (c : SsoCall) → IsOther code (c, env) → IsSpent code (sso_step c env d)
    unfolding sso_step
    sso_step-IsSpent (mints random user url ttl) other = mint-IsSpent random user url ttl other
    sso_step-IsSpent (redeems raw) other = redeem-IsSpent raw
    sso_step-IsSpent (prunes before) other = prune-IsSpent before

  sso_after-IsSpent :
      (code : String) (cs : List (SsoCall × Env)) (d : Db)
      → All (IsOther code) cs
      → IsSpent code d
      → IsSpent code (sso_after cs d)
  unfolding sso_after
  sso_after-IsSpent code [] d others spent = spent
  sso_after-IsSpent code ((c, env) ∷ cs) d others spent =
      sso_step-IsSpent code env (sso_after cs d) (sso_after-IsSpent code cs d others.1 spent) c
        others.0

  -- Once a code was redeemed, at a time after the epoch, it is not redeemed again: not after any
  -- calls that mint other codes, redeem, and prune, in any order and whichever statements fail.
  pub redeemed_once :
      (raw : String) (env env' : Env) (d d' : Db) (answer answer' : ℕ × String)
      (cs : List (SsoCall × Env))
      → 1 ≤ env.now
      → run (redeem_sso_code hash raw) env d ≡ (ok answer, d')
      → All (IsOther (hash (trim_space raw))) cs
      → (run (redeem_sso_code hash raw) env' (sso_after cs d')).0 ≡ ok answer'
      → ⊥
  unfolding use_code
  redeemed_once raw env env' d d' answer answer' cs real first others =
      let (c, found, _, after) =
        subst (RedeemEnds hash raw env d) first (redeem_sso_code-ends hash raw env d) in
      let spent : IsSpent (hash (trim_space raw)) d' =
        subst (IsSpent (hash (trim_space raw))) (sym after) (
          count_where-cleared (is_unused (hash (trim_space raw)))
            (λ (c : SsoCode). record c { used_at = env.now }) (λ c h. ground arith)
            d.sso_codes.rows) in
      refused _ (sso_after-IsSpent (hash (trim_space raw)) cs d' others spent)
        (redeem_sso_code-ends hash raw env' (sso_after cs d'))
    where
      refused :
          (end : Result (ℕ × String) × Db)
          → IsSpent (hash (trim_space raw)) (sso_after cs d')
          → RedeemEnds hash raw env' (sso_after cs d') end
          → end.0 ≡ ok answer'
          → ⊥
      refused (err e, _) spent _ h = cc
      refused (ok _, _) spent (c, found, _, _) h =
          first_where-stronger (is_unused (hash (trim_space raw)))
            (is_redeemable (hash (trim_space raw)) env'.now) (sso_after cs d').sso_codes.rows c
            (λ b more. ground arith) spent found
