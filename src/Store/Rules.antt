-- ===== src/Store/Rules.antt =====
-- Rules for what a call does, one for each statement: to prove `P` of the end of a call, prove it
-- for each way on from its first statement. A failed statement only advances the clock.
use hypitoken.Prelude.{suc, ◌≡◌, refl, Bool, true, false, Option, none, some}
use hypitoken.Store.Engine.{
  Error, driver, Result, ok, err, SessionOn, SqlOn, tick, pure, gets, or_raise, raise_if, branch,
  attempt, catch, recover, raise, query, exec, exec_, commit, transact, ◌>>=◌, follow, on_line,
  written, kept, rollback,
}

-- What is to be shown inside a transaction: `P` after its rollback.
abbrev pub Undone :
    {D B : Type 0} → (Result B × SessionOn D → Type 0) → Result B × SessionOn D → Type 0
Undone P rt = P (rollback rt)

module _ {D A : Type 0} (Q : Result A × SessionOn D → Type 0) where
  pub on_line_cases :
      (b : Bool) (done : Result A × SessionOn D) (t : SessionOn D)
      → (b ≡ true → Q done)
      → Q (err driver, t)
      → Q (on_line b done t)
  on_line_cases true done t h failed = h refl
  on_line_cases false done t h failed = failed

module _ {D B : Type 0} (P : Result B × SessionOn D → Type 0) where
  pub pure_end : (b : B) (s : SessionOn D) → P (ok b, s) → P (pure b s)
  unfolding pure
  pure_end b s h = h

  pub last : (m : SqlOn D B) (s : SessionOn D) → P ((m >>= pure) s) → P (m s)
  unfolding ◌>>=◌
  last m s h = go (m s) h
    where
      go : (rt : Result B × SessionOn D) → P (follow pure rt) → P rt
      go (ok a, t) h = h
      go (err e, t) h = h

  -- A rule for the end of `m`, and one for what comes after it.
  pub bind_step :
      {A : Type 0} (m : SqlOn D A) (k : A → SqlOn D B) (s : SessionOn D)
      → P (follow k (m s))
      → P ((m >>= k) s)
  unfolding ◌>>=◌
  bind_step m k s h = h

  pub branch_step :
      (b : Bool) (m k : SqlOn D B) (s : SessionOn D)
      → (b ≡ true → P (m s))
      → (b ≡ false → P (k s))
      → P (branch b m k s)
  unfolding branch
  branch_step true m k s hm hk = hm refl
  branch_step false m k s hm hk = hk refl

  pub raise_if_step :
      (b : Bool) (e : Error) (k : Unit {0} → SqlOn D B) (s : SessionOn D)
      → (b ≡ false → P (k tt s))
      → P (err e, s)
      → P ((raise_if b e >>= k) s)
  unfolding ◌>>=◌
  raise_if_step true e k s h f = f
  raise_if_step false e k s h f = h refl

  -- The same, where the refusal uses what was tested.
  pub raise_if_why :
      (b : Bool) (e : Error) (k : Unit {0} → SqlOn D B) (s : SessionOn D)
      → (b ≡ false → P (k tt s))
      → (b ≡ true → P (err e, s))
      → P ((raise_if b e >>= k) s)
  unfolding ◌>>=◌
  raise_if_why true e k s h f = f refl
  raise_if_why false e k s h f = h refl

  pub or_raise_why :
      {A : Type 0} (o : Option A) (e : Error) (k : A → SqlOn D B) (s : SessionOn D)
      → ((a : A) → o ≡ some a → P (k a s))
      → (o ≡ none → P (err e, s))
      → P ((or_raise o e >>= k) s)
  unfolding ◌>>=◌
  or_raise_why none e k s h f = f refl
  or_raise_why (some a) e k s h f = h a refl

  pub catch_end :
      (m : SqlOn D B) (h : Error → SqlOn D B) (s : SessionOn D)
      → P (recover h (m s))
      → P (catch m h s)
  unfolding catch
  catch_end m h s p = p

  pub raise_end : (e : Error) (s : SessionOn D) → P (err e, s) → P (raise e s)
  unfolding raise
  raise_end e s h = h

  pub or_raise_end :
      (o : Option B) (e : Error) (s : SessionOn D)
      → ((b : B) → o ≡ some b → P (ok b, s))
      → P (err e, s)
      → P (or_raise o e s)
  unfolding or_raise
  or_raise_end none e s h f = f
  or_raise_end (some b) e s h f = h b refl

  -- A branch with something after it.
  pub branch_bind_step :
      {A : Type 0} (b : Bool) (m n : SqlOn D A) (k : A → SqlOn D B) (s : SessionOn D)
      → (b ≡ true → P ((m >>= k) s))
      → (b ≡ false → P ((n >>= k) s))
      → P ((branch b m n >>= k) s)
  unfolding ◌>>=◌
  branch_bind_step true m n k s hm hn = hm refl
  branch_bind_step false m n k s hm hn = hn refl

  pub pure_step :
      {A : Type 0} (a : A) (k : A → SqlOn D B) (s : SessionOn D) → P (k a s) → P ((pure a >>= k) s)
  unfolding ◌>>=◌
  pure_step a k s h = h

  pub gets_step :
      {A : Type 0} (f : SessionOn D → A) (k : A → SqlOn D B) (s : SessionOn D)
      → P (k (f s) s)
      → P ((gets f >>= k) s)
  unfolding ◌>>=◌
  gets_step f k s h = h

  pub or_raise_step :
      {A : Type 0} (o : Option A) (e : Error) (k : A → SqlOn D B) (s : SessionOn D)
      → ((a : A) → o ≡ some a → P (k a s))
      → P (err e, s)
      → P ((or_raise o e >>= k) s)
  unfolding ◌>>=◌
  or_raise_step none e k s h f = f
  or_raise_step (some a) e k s h f = h a refl

  pub query_step :
      {A : Type 0} (f : D → A) (k : A → SqlOn D B) (s : SessionOn D)
      → P (k (f s.work) (tick s))
      → P (err driver, tick s)
      → P ((query f >>= k) s)
  unfolding ◌>>=◌
  query_step f k s h failed =
      on_line_cases (λ x. P (follow k x)) (s.env.up s.clock) (ok (f s.work), tick s) (tick s)
        (λ _. h) failed

  -- A query whose failure is ignored.
  pub attempt_step :
      {A : Type 0} (a : A) (f : D → A) (k : A → SqlOn D B) (s : SessionOn D)
      → P (k (f s.work) (tick s))
      → P (k a (tick s))
      → P ((attempt a (query f) >>= k) s)
  unfolding ◌>>=◌
  attempt_step a f k s h failed =
      on_line_cases (λ x. P (follow k (kept a x))) (s.env.up s.clock) (ok (f s.work), tick s)
        (tick s) (λ _. h) failed

  pub exec_step :
      {A : Type 0} (f : D → Result (A × D)) (k : A → SqlOn D B) (s : SessionOn D)
      → ((a : A) (d : D)
          → f s.work ≡ ok (a, d)
          → P (k a (record s { clock = suc s.clock; work = d })))
      → ((e : Error) → P (err e, tick s))
      → P ((exec f >>= k) s)
  unfolding ◌>>=◌
  exec_step {A} f k s h failed =
      on_line_cases (λ x. P (follow k x)) (s.env.up s.clock) (written (f s.work) (tick s)) (tick s)
        (λ _. go (f s.work) refl) (failed driver)
    where
      go : (r : Result (A × D)) → f s.work ≡ r → P (follow k (written r (tick s)))
      go (ok (a, d)) e = h a d e
      go (err x) e = failed x

  pub exec__step :
      (f : D → D) (k : Unit {0} → SqlOn D B) (s : SessionOn D)
      → P (k tt (record s { clock = suc s.clock; work = f s.work }))
      → P (err driver, tick s)
      → P ((exec_ f >>= k) s)
  unfolding ◌>>=◌
  exec__step f k s h failed =
      on_line_cases (λ x. P (follow k x)) (s.env.up s.clock)
        (ok tt, record s { clock = suc s.clock; work = f s.work }) (tick s) (λ _. h) failed

  pub commit_step :
      (k : Unit {0} → SqlOn D B) (s : SessionOn D)
      → P (k tt (record s { clock = suc s.clock; saved = s.work }))
      → P (err driver, tick s)
      → P ((commit >>= k) s)
  unfolding ◌>>=◌
  commit_step k s h failed =
      on_line_cases (λ x. P (follow k x)) (s.env.up s.clock)
        (ok tt, record s { clock = suc s.clock; saved = s.work }) (tick s) (λ _. h) failed

  pub transact_step :
      (m : SqlOn D B) (s : SessionOn D)
      → P (rollback (m (record s { clock = suc s.clock; work = s.saved })))
      → P (err driver, tick s)
      → P (transact m s)
  unfolding transact
  transact_step m s h failed =
      on_line_cases P (s.env.up s.clock)
        (rollback (m (record s { clock = suc s.clock; work = s.saved }))) (tick s) (λ _. h) failed

  -- A statement whose failure is ignored.
  pub attempt_exec__step :
      (f : D → D) (k : Unit {0} → SqlOn D B) (s : SessionOn D)
      → P (k tt (record s { clock = suc s.clock; work = f s.work }))
      → P (k tt (tick s))
      → P ((attempt tt (exec_ f) >>= k) s)
  unfolding ◌>>=◌
  attempt_exec__step f k s h failed =
      on_line_cases (λ x. P (follow k (kept tt x))) (s.env.up s.clock)
        (ok tt, record s { clock = suc s.clock; work = f s.work }) (tick s) (λ _. h) failed

  pub attempt_commit_step :
      (k : Unit {0} → SqlOn D B) (s : SessionOn D)
      → P (k tt (record s { clock = suc s.clock; saved = s.work }))
      → P (k tt (tick s))
      → P ((attempt tt commit >>= k) s)
  unfolding ◌>>=◌
  attempt_commit_step k s h failed =
      on_line_cases (λ x. P (follow k (kept tt x))) (s.env.up s.clock)
        (ok tt, record s { clock = suc s.clock; saved = s.work }) (tick s) (λ _. h) failed

  -- A part whose failure is ignored.
  pub attempt_any_step :
      (m : SqlOn D (Unit {0})) (k : Unit {0} → SqlOn D B) (s : SessionOn D)
      → ((r : Result (Unit {0})) (t : SessionOn D) → m s ≡ (r, t) → P (k tt t))
      → P ((attempt tt m >>= k) s)
  unfolding ◌>>=◌
  attempt_any_step m k s h = go (m s) refl
    where
      go : (rt : Result (Unit {0}) × SessionOn D) → m s ≡ rt → P (follow k (kept tt rt))
      go (ok tt, t) e = h (ok tt) t e
      go (err x, t) e = h (err x) t e
