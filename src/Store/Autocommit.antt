-- ===== src/Store/Autocommit.antt =====
-- The rule for a statement outside a transaction, which commits by itself.
use hypitoken.Prelude.{suc, ◌≡◌, refl}
use hypitoken.Store.Engine.{
  Error, driver, Result, ok, err, SessionOn, SqlOn, tick, exec, autocommit, ◌>>=◌, follow, written,
  committed,
}
use hypitoken.Store.Rules.{on_line_cases}

pub autocommit_step :
    {D A B : Type 0} (P : Result B × SessionOn D → Type 0) (f : D → Result (A × D))
    (k : A → SqlOn D B) (s : SessionOn D)
    → ((a : A) (d : D)
        → f s.work ≡ ok (a, d)
        → P (k a (record s { clock = suc s.clock; work = d; saved = d })))
    → ((e : Error) → P (err e, record s { clock = suc s.clock; saved = s.work }))
    → P ((autocommit (exec f) >>= k) s)
unfolding ◌>>=◌
autocommit_step {D} {A} P f k s h failed =
    on_line_cases (λ x. P (follow k (committed x))) (s.env.up s.clock) (written (f s.work) (tick s))
      (tick s) (λ _. go (f s.work) (λ a d e. h a d e)) (failed driver)
  where
    go :
        (r : Result (A × D))
        → ((a : A) (d : D)
            → r ≡ ok (a, d)
            → P (k a (record s { clock = suc s.clock; work = d; saved = d })))
        → P (follow k (committed (written r (tick s))))
    go (ok (a, d)) good = good a d refl
    go (err x) good = failed x

-- A statement that violates no constraint.
pub autocommit_ok_step :
    {D A B : Type 0} (P : Result B × SessionOn D → Type 0) (f : D → A × D) (k : A → SqlOn D B)
    (s : SessionOn D)
    → P (
        k
          (f s.work).0
          (record s { clock = suc s.clock; work = (f s.work).1; saved = (f s.work).1 }))
    → ((e : Error) → P (err e, record s { clock = suc s.clock; saved = s.work }))
    → P ((autocommit (exec (λ d. ok (f d))) >>= k) s)
unfolding ◌>>=◌
autocommit_ok_step P f k s good failed =
    on_line_cases (λ x. P (follow k (committed x))) (s.env.up s.clock)
      (written (ok (f s.work)) (tick s)) (tick s) (λ _. good) (failed driver)

-- In a transaction, a statement that violates no constraint fails at the driver only.
pub exec_ok_step :
    {D A B : Type 0} (P : Result B × SessionOn D → Type 0) (f : D → A × D) (k : A → SqlOn D B)
    (s : SessionOn D)
    → P (k (f s.work).0 (record s { clock = suc s.clock; work = (f s.work).1 }))
    → P (err driver, tick s)
    → P ((exec (λ d. ok (f d)) >>= k) s)
unfolding ◌>>=◌
exec_ok_step P f k s good failed =
    on_line_cases (λ x. P (follow k x)) (s.env.up s.clock) (written (ok (f s.work)) (tick s))
      (tick s) (λ _. good) failed
