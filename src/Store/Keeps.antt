-- ===== src/Store/Keeps.antt =====
-- A call keeps a property of the database: where the database that is worked on and the one that is
-- committed have it, they have it after the call, however it ends.
use hypitoken.Prelude.{◌≡◌, refl, Bool, true, false, Option, none, some}
use hypitoken.Store.Engine.{
  Error, Result, ok, err, SessionOn, SqlOn, tick, pure, gets, raise, or_raise, raise_if, branch,
  attempt, query, exec, exec_, autocommit, commit, transact, ◌>>=◌, follow, on_line, written, kept,
  run, enter, Env,
}

module _ {D : Type 0} (I : D → Type 0) where
  abbrev pub Both : SessionOn D → Type 0
  Both s = I s.work × I s.saved

  abbrev pub Keeps : {A : Type 0} → SqlOn D A → Type 0
  Keeps {A} m = (s : SessionOn D) → Both s → Both (m s).1

  module _ {A : Type 0} where
    pub on_line_keeps :
        (up : Bool) (done : Result A × SessionOn D) (t : SessionOn D)
        → Both done.1
        → Both t
        → Both (on_line up done t).1
    on_line_keeps true done t hd ht = hd
    on_line_keeps false done t hd ht = ht

    pub pure-Keeps : (a : A) → Keeps (pure a)
    unfolding pure
    pure-Keeps a s h = h

    pub gets-Keeps : (f : SessionOn D → A) → Keeps (gets f)
    unfolding gets
    gets-Keeps f s h = h

    pub or_raise-Keeps : (o : Option A) (e : Error) → Keeps (or_raise o e)
    unfolding or_raise
    or_raise-Keeps none e s h = h
    or_raise-Keeps (some a) e s h = h

    pub branch-Keeps : (b : Bool) (m k : SqlOn D A) → Keeps m → Keeps k → Keeps (branch b m k)
    unfolding branch
    branch-Keeps true m k hm hk = hm
    branch-Keeps false m k hm hk = hk

    pub attempt-Keeps : (a : A) (m : SqlOn D A) → Keeps m → Keeps (attempt a m)
    unfolding attempt
    attempt-Keeps a m hm s h = go (m s) (hm s h)
      where
        go : (r : Result A × SessionOn D) → Both r.1 → Both (kept a r).1
        go (ok b, t) p = p
        go (err e, t) p = p

    pub query-Keeps : (f : D → A) → Keeps (query f)
    unfolding query
    query-Keeps f s h = on_line_keeps _ _ _ h h

    written_keeps :
        (f : D → Result (A × D)) (s : SessionOn D)
        → ((a : A) (e : D) → f s.work ≡ ok (a, e) → I e)
        → Both s
        → Both (written (f s.work) (tick s)).1
    written_keeps f s hf h = go (f s.work) hf
      where
        go :
            (r : Result (A × D))
            → ((a : A) (e : D) → r ≡ ok (a, e) → I e)
            → Both (written r (tick s)).1
        go (ok (a, e)) hr = (hr a e refl, h.1)
        go (err x) hr = h

    pub exec-Keeps :
        (f : D → Result (A × D))
        → ((d : D) (a : A) (e : D) → I d → f d ≡ ok (a, e) → I e)
        → Keeps (exec f)
    unfolding exec
    exec-Keeps f hf s h = on_line_keeps _ _ _ (written_keeps f s (λ a e. hf s.work a e h.0) h) h

    -- a statement that violates no constraint
    pub exec_ok-Keeps : (f : D → A × D) → ((d : D) → I d → I (f d).1) → Keeps (exec (λ d. ok (f d)))
    unfolding exec
    exec_ok-Keeps f hf s h = on_line_keeps _ _ _ (hf s.work h.0, h.1) h

    pub autocommit-Keeps : (m : SqlOn D A) → Keeps m → Keeps (autocommit m)
    unfolding autocommit
    autocommit-Keeps m hm s h = let after = hm s h in (after.0, after.0)

    pub transact-Keeps : (m : SqlOn D A) → Keeps m → Keeps (transact m)
    unfolding transact
    transact-Keeps m hm s h =
        let after = hm (record (tick s) { work = s.saved }) (h.1, h.1) in
        on_line_keeps _ _ _ (after.1, after.1) h

    pub run-Keeps : (m : SqlOn D A) (env : Env) (d : D) → Keeps m → I d → I (run m env d).1
    unfolding run
    run-Keeps m env d hm h = (hm (enter env d) (h, h)).1

  pub raise-Keeps : (A : Type 0) (e : Error) → Keeps {A = A} (raise e)
  unfolding raise
  raise-Keeps A e s h = h

  pub raise_if-Keeps : (b : Bool) (e : Error) → Keeps (raise_if b e)
  unfolding raise_if
  raise_if-Keeps true e s h = h
  raise_if-Keeps false e s h = h

  pub exec_-Keeps : (f : D → D) → ((d : D) → I d → I (f d)) → Keeps (exec_ f)
  unfolding exec_ exec
  exec_-Keeps f hf s h = on_line_keeps _ _ _ (hf s.work h.0, h.1) h

  pub commit-Keeps : Keeps commit
  unfolding commit
  commit-Keeps s h = on_line_keeps _ _ _ (h.0, h.0) h

  pub bind-Keeps :
      {A B : Type 0} (m : SqlOn D A) (k : A → SqlOn D B)
      → Keeps m
      → ((a : A) → Keeps (k a))
      → Keeps (m >>= k)
  unfolding ◌>>=◌
  bind-Keeps {A} {B} m k hm hk s h = go (m s) (hm s h)
    where
      go : (r : Result A × SessionOn D) → Both r.1 → Both (follow k r).1
      go (ok a, t) p = hk a t p
      go (err e, t) p = p

  -- What comes after a part that keeps the property.
  pub keeps_step :
      {A B : Type 0} (P : Result B × SessionOn D → Type 0) (m : SqlOn D A) (k : A → SqlOn D B)
      (s : SessionOn D)
      → Keeps m
      → Both s
      → ((a : A) (t : SessionOn D) → Both t → P (k a t))
      → ((e : Error) (t : SessionOn D) → Both t → P (err e, t))
      → P ((m >>= k) s)
  unfolding ◌>>=◌
  keeps_step {A} {B} P m k s hm h done failed = go (m s) (hm s h)
    where
      go : (r : Result A × SessionOn D) → Both r.1 → P (follow k r)
      go (ok a, t) p = done a t p
      go (err e, t) p = failed e t p

-- A part whose error is dropped, where only the session matters.
pub attempt_end :
    {D A : Type 0} (Q : SessionOn D → Type 0) (a : A) (m : SqlOn D A) (s : SessionOn D)
    → Q (m s).1
    → Q (attempt a m s).1
unfolding attempt
attempt_end {D} {A} Q a m s h = go (m s) h
  where
    go : (r : Result A × SessionOn D) → Q r.1 → Q (kept a r).1
    go (ok b, t) p = p
    go (err e, t) p = p
