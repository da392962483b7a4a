-- ===== src/Server/Health/Probe.antt =====
-- At most one recovery probe of an API key is out at a time.
use hypitoken.Prelude.{
  ℕ, ◌==◌, ◌≤◌, ◌≡◌, refl, sym, ap, Bool, true, false, not, ◌&&◌, Bool-cases, Option, none, some,
  inl, inr, String, arith, if◌then◌else◌, if_cases, first_where, count_where,
  count_where-update_same, one_less_update,
}
use hypitoken.Server.Health.{
  AuthOps, KeyMap, set_key, Lease, Keys, Attempt, wait, enter_recovery, failed_health,
  record_api_key_failure, record_api_key_success, is_stale, take_probe, begin_api_key_attempt,
  is_lease, release_found, release,
}

-- A call that changes what the proxy keeps about its keys.
pub data HealthCall : Type 0 where
  begins : ℕ → ℕ → HealthCall
  releases : ℕ → HealthCall
  fails : Bool → ℕ → ℕ → ℕ → String → ℕ → HealthCall
  succeeds : ℕ → ℕ → ℕ → HealthCall

-- a probe of the key that is out
abbrev pub is_out : ℕ → Lease → Bool
is_out a l = l.key == a && not l.released

module _ {H : Type 0} (ops : AuthOps H) where
  unfoldable pub health_step : HealthCall → Keys H → Keys H
  health_step (begins a now) s = (begin_api_key_attempt ops a now s).1
  health_step (releases n) s = release n s
  health_step (fails pooled a status reset_at reason now) s =
      record_api_key_failure ops pooled a status reset_at reason now s
  health_step (succeeds a started now) s = record_api_key_success ops a started now s

  -- What calls reach, in any order and at any times.
  pub data HealthReach (s : Keys H) : Keys H → Type 0 where
    start : HealthReach s s
    after : {t : Keys H} (c : HealthCall) → HealthReach s t → HealthReach s (health_step c t)

  -- The flag of a key is set exactly while one probe of it is out.
  pub record IsLeased (s : Keys H) : Type 0 where
    pub out : (a : ℕ) → count_where (is_out a) s.leases ≡ (if s.probes a then 1 else 0)
    pub fresh : (n : ℕ) → s.next_lease ≤ n → count_where (is_lease n) s.leases ≡ 0
    pub unique : (n : ℕ) → count_where (is_lease n) s.leases ≤ 1

  same_leases :
      {health : KeyMap H} {recovery : KeyMap Bool} {s : Keys H}
      → IsLeased s
      → IsLeased (record s { health = health; recovery = recovery })
  same_leases inv = record { out = inv.out; fresh = inv.fresh; unique = inv.unique }

  take_probe-IsLeased :
      (a : ℕ) (s : Keys H) → s.probes a ≡ false → IsLeased s → IsLeased (take_probe a s)
  unfolding take_probe count_where
  take_probe-IsLeased a s idle inv = record {
    out = λ k. let now_out = inv.out a in let others = inv.out k in ground (arith, moved k);
    fresh = λ n h.
        let older : s.next_lease ≤ n = omega (arith, h) in
        let old = inv.fresh n older in ground (arith, h);
    unique = λ n.
        let new = inv.fresh s.next_lease (omega arith) in
        let old = inv.unique n in ground (arith, renamed n);
  }
    where
      moved : (k : ℕ) → a ≡ k → count_where (is_out k) s.leases ≡ count_where (is_out a) s.leases
      moved k same = ap (λ (i : ℕ). count_where (is_out i) s.leases) (sym same)

      renamed :
          (n : ℕ)
          → s.next_lease ≡ n
          → count_where (is_lease n) s.leases ≡ count_where (is_lease s.next_lease) s.leases
      renamed n same = ap (λ (i : ℕ). count_where (is_lease i) s.leases) (sym same)

  begin-IsLeased :
      (a now : ℕ) (s : Keys H) → IsLeased s → IsLeased (begin_api_key_attempt ops a now s).1
  unfolding begin_api_key_attempt
  begin-IsLeased a now s inv =
      if_cases Good (not (ops.serving (s.health a) now)) (λ _. inv)
        (λ _.
          if_cases Good (s.probes a) (λ _. inv)
            (λ idle.
              if_cases Good (not (ops.is_half_open (s.health a) now) && not (s.recovery a))
                (λ _. inv) (λ _. take_probe-IsLeased a s idle inv)))
    where
      Good : Attempt × Keys H → Type 0
      Good x = IsLeased x.1

  release-IsLeased : (n : ℕ) (s : Keys H) → IsLeased s → IsLeased (release n s)
  unfolding release
  release-IsLeased n s inv = go (first_where (is_lease n) s.leases) refl
    where
      go :
          (o : Option Lease)
          → first_where (is_lease n) s.leases ≡ o
          → IsLeased (release_found o n s)
      go none found = inv
      go (some l) found =
          if_cases IsLeased l.released (λ _. inv)
            (λ held. record {
              out = λ k.
                  let before = inv.out k in
                  let fewer =
                    one_less_update (is_lease n) (is_out k)
                      (λ (x : Lease). record x { released = true }) (λ x h. ground arith) s.leases l
                      (inv.unique n) found in
                  ground arith;
              fresh = λ m h.
                  let same =
                    count_where-update_same (is_lease n) (is_lease m)
                      (λ (x : Lease). record x { released = true }) (λ x h. refl) s.leases in
                  let old = inv.fresh m h in omega arith;
              unique = λ m.
                  let same =
                    count_where-update_same (is_lease n) (is_lease m)
                      (λ (x : Lease). record x { released = true }) (λ x h. refl) s.leases in
                  let old = inv.unique m in omega arith;
            })

  enter_recovery-IsLeased :
      (a now : ℕ) (s : Keys H) → IsLeased s → IsLeased (enter_recovery ops a now s)
  unfolding enter_recovery
  enter_recovery-IsLeased a now s inv =
      if_cases IsLeased (ops.serving (s.health a) now) (λ _. inv) (λ _. same_leases inv)

  fail-IsLeased :
      (pooled : Bool) (a status reset_at : ℕ) (reason : String) (now : ℕ) (s : Keys H)
      → IsLeased s
      → IsLeased (record_api_key_failure ops pooled a status reset_at reason now s)
  unfolding record_api_key_failure
  fail-IsLeased pooled a status reset_at reason now s inv =
      if_cases IsLeased (ops.is_disabled (s.health a) now) (λ _. inv)
        (λ _.
          enter_recovery-IsLeased a now
            (record s {
              health =
                  set_key a (failed_health ops pooled status reset_at reason now (s.health a))
                    s.health;
            })
            (same_leases inv))

  succeed-IsLeased :
      (a started now : ℕ) (s : Keys H)
      → IsLeased s
      → IsLeased (record_api_key_success ops a started now s)
  unfolding record_api_key_success
  succeed-IsLeased a started now s inv =
      if_cases IsLeased (is_stale ops a started now s) (λ _. inv) (λ _. same_leases inv)

  health_step-IsLeased : (c : HealthCall) (s : Keys H) → IsLeased s → IsLeased (health_step c s)
  unfolding health_step
  health_step-IsLeased (begins a now) s inv = begin-IsLeased a now s inv
  health_step-IsLeased (releases n) s inv = release-IsLeased n s inv
  health_step-IsLeased (fails pooled a status reset_at reason now) s inv =
      fail-IsLeased pooled a status reset_at reason now s inv
  health_step-IsLeased (succeeds a started now) s inv = succeed-IsLeased a started now s inv

  reached-IsLeased : (s t : Keys H) → HealthReach s t → IsLeased s → IsLeased t
  reached-IsLeased s _ start inv = inv
  reached-IsLeased s _ (after {t = t} c before) inv =
      health_step-IsLeased c t (reached-IsLeased s t before inv)

  -- Whatever calls are made, in any order and at any times, at most one probe of a key is out that
  -- was not released, and while it is, an attempt on the key has to wait and changes nothing.
  pub one_probe_at_a_time :
      (s t : Keys H) (a now : ℕ)
      → IsLeased s
      → HealthReach s t
      → (count_where (is_out a) t.leases ≤ 1)
        × (1 ≤ count_where (is_out a) t.leases
            → (delay : ℕ) × (begin_api_key_attempt ops a now t ≡ (wait delay, t)))
  unfolding begin_api_key_attempt
  one_probe_at_a_time s t a now inv reach =
      let flags = (reached-IsLeased s t reach inv).out a in
      (
        ground arith,
        λ is_one.
            let flag : t.probes a ≡ true = ground arith in
            elim (Bool-cases (ops.serving (t.health a) now)) [
              | inr idle ↦ (ops.retry_after (t.health a) now, rw idle refl)
              | inl up ↦ (1_000_000_000, rw (up, flag) refl)
            ],
      )
