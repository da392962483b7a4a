-- ===== src/Store/Engine.antt =====
-- database/sql as the stores use it: statements, transactions and their failures, for a database of
-- any tables. A session has the database that its open transaction works on and the database that
-- is committed. Any statement may fail at the driver (a full disk, a lost connection, a damaged
-- file): `up` says which ones do not, by their number. Transactions are serial, since SQLite has
-- one writer.
use hypitoken.Prelude.{ℕ, suc, Bool, true, false, Option, none, some}

pub data Error : Type 0 where
  driver unique_violation foreign_key_violation : Error
  not_found insufficient_balance idem_conflict order_not_pending gift_not_claimable : Error
  key_required workspace_required amount_not_positive amount_over_ceiling : Error
  email_required no_code_requested code_expired too_many_attempts invalid_code : Error
  order_unknown order_expired order_tampered not_settled : Error
  card_consumed user_id_required return_url_required random_failed sso_code_invalid : Error

pub data Result (A : Type 0) : Type 0 where
  ok : A → Result A
  err : Error → Result A

-- The world of one call: which statements the driver executes, and the time.
pub record Env : Type 0 where
  pub up : ℕ → Bool
  pub now : ℕ

pub record SessionOn (D : Type 0) : Type 0 where
  pub env : Env
  pub clock : ℕ
  pub work : D
  pub saved : D

-- A call on a database of tables `D` with a result in `A`.
abbrev pub SqlOn : Type 0 → Type 0 → Type 0
SqlOn D A = SessionOn D → Result A × SessionOn D

abbrev pub tick : {D : Type 0} → SessionOn D → SessionOn D
tick s = record s { clock = suc s.clock }

unfoldable pub raise_if : {D : Type 0} → Bool → Error → SqlOn D (Unit {0})
raise_if true e s = (err e, s)
raise_if false e s = (ok tt, s)

-- a world in which every statement runs
abbrev pub all_up : ℕ → Env
all_up now = record { up = λ _. true; now = now }

abbrev pub enter : {D : Type 0} → Env → D → SessionOn D
enter env d = record { env = env; clock = 0; work = d; saved = d }

module _ {D A : Type 0} where
  unfoldable pub pure : A → SqlOn D A
  pure a s = (ok a, s)

  unfoldable pub raise : Error → SqlOn D A
  raise e s = (err e, s)

  unfoldable pub gets : (SessionOn D → A) → SqlOn D A
  gets f s = (ok (f s), s)

  unfoldable pub or_raise : Option A → Error → SqlOn D A
  or_raise none e s = (err e, s)
  or_raise (some a) e s = (ok a, s)

  -- if b { … } else { … }
  unfoldable pub branch : Bool → SqlOn D A → SqlOn D A → SqlOn D A
  branch true m k s = m s
  branch false m k s = k s

  abbrev pub kept : A → Result A × SessionOn D → Result A × SessionOn D
  kept a (ok b, s) = (ok b, s)
  kept a (err e, s) = (ok a, s)

  -- `_ = tx.QueryRowContext(…).Scan(&x)`: an error leaves the variable as it was.
  unfoldable pub attempt : A → SqlOn D A → SqlOn D A
  attempt a m s = kept a (m s)

  abbrev pub recover : (Error → SqlOn D A) → Result A × SessionOn D → Result A × SessionOn D
  recover h (ok a, s) = (ok a, s)
  recover h (err e, s) = h e s

  -- if err != nil { … }
  unfoldable pub catch : SqlOn D A → (Error → SqlOn D A) → SqlOn D A
  catch m h s = recover h (m s)

  abbrev pub on_line : Bool → Result A × SessionOn D → SessionOn D → Result A × SessionOn D
  on_line true done s = done
  on_line false done s = (err driver, s)

  -- A statement that reads.
  unfoldable pub query : (D → A) → SqlOn D A
  query f s = on_line (s.env.up s.clock) (ok (f s.work), tick s) (tick s)

  abbrev pub written : Result (A × D) → SessionOn D → Result A × SessionOn D
  written (ok (a, d)) s = (ok a, record s { work = d })
  written (err e) s = (err e, s)

  -- A statement that writes; one that violates a constraint writes nothing.
  unfoldable pub exec : (D → Result (A × D)) → SqlOn D A
  exec f s = on_line (s.env.up s.clock) (written (f s.work) (tick s)) (tick s)

  abbrev pub rollback : Result A × SessionOn D → Result A × SessionOn D
  rollback (r, t) = (r, record t { work = t.saved })

  -- db.BeginTx, the body, and the deferred tx.Rollback(), which does nothing after a commit.
  unfoldable pub transact : SqlOn D A → SqlOn D A
  transact body s =
      on_line (s.env.up s.clock)
        (rollback (body (record s { clock = suc s.clock; work = s.saved }))) (tick s)

  abbrev pub committed : Result A × SessionOn D → Result A × SessionOn D
  committed (r, t) = (r, record t { saved = t.work })

  -- db.ExecContext outside a transaction: the statement commits by itself.
  unfoldable pub autocommit : SqlOn D A → SqlOn D A
  autocommit m s = committed (m s)

  abbrev pub leave : Result A × SessionOn D → Result A × D
  leave (r, s) = (r, s.saved)

  -- A call from outside: its result and the database that it leaves.
  unfoldable pub run : SqlOn D A → Env → D → Result A × D
  run m env d = leave (m (enter env d))

-- A statement that violates no constraint.
unfoldable pub exec_ : {D : Type 0} → (D → D) → SqlOn D (Unit {0})
unfolding exec
exec_ f = exec (λ d. ok (tt, f d))

-- tx.Commit()
unfoldable pub commit : {D : Type 0} → SqlOn D (Unit {0})
commit s =
    on_line (s.env.up s.clock) (ok tt, record s { clock = suc s.clock; saved = s.work }) (tick s)

abbrev pub follow :
    {D A B : Type 0} → (A → SqlOn D B) → Result A × SessionOn D → Result B × SessionOn D
follow k (ok a, s) = k a s
follow k (err e, s) = (err e, s)

-- To open this is to open the statements too.
infixl 5 ◌>>=◌ ◌>>◌
unfoldable pub ◌>>=◌ : {D A B : Type 0} → SqlOn D A → (A → SqlOn D B) → SqlOn D B
unfolding pure raise gets or_raise raise_if branch attempt catch query exec exec_ transact
    autocommit commit
◌>>=◌ m k s = follow k (m s)

abbrev pub ◌>>◌ : {D A B : Type 0} → SqlOn D A → SqlOn D B → SqlOn D B
m >> k = m >>= λ _. k
