-- ===== src/Tests/Server.antt =====
-- The properties of the proxy's memory at small examples.
use hypitoken.Prelude.{
  ℕ, ◌+◌, ◌==◌, ◌≤◌, ◌≡◌, refl, false, some, List, [], ◌∷◌, ltb, arith, count_where,
}
use hypitoken.Server.Health.{AuthOps, Keys, wait, begin_api_key_attempt, take_probe}
use hypitoken.Server.Health.Probe.{
  HealthReach, start, after, begins, health_step, is_out, IsLeased, one_probe_at_a_time,
}
use hypitoken.Server.Sticky.{Event, binds, sweeps, get, store_after}
use hypitoken.Server.Sticky.Keys.{has_bar}
use hypitoken.Server.Sticky.Refines.{account_of, get-account_of}

-- a health that counts failures, of which three pause a key
abbrev counted : AuthOps ℕ
counted = record {
  serving = λ h now. ltb h 3;
  is_disabled = λ h now. false;
  is_half_open = λ h now. h == 2;
  retry_after = λ h now. 60;
  quarantine_strikes = λ h now. h;
  last_failure = λ h now. 0;
  mark_failure = λ reason now h. h + 1;
  mark_hard_failure = λ reason now h. h + 3;
  mark_success = λ now h. 0;
  report_upstream_error = λ status reset now h. h + 1;
}

abbrev no_keys : Keys ℕ
no_keys = record {
  health = λ k. 2;
  probes = λ k. false;
  recovery = λ k. false;
  leases = [];
  next_lease = 0;
}

no_keys-IsLeased : IsLeased counted no_keys
unfolding count_where
no_keys-IsLeased = record { out = λ a. refl; fresh = λ n h. refl; unique = λ n. omega arith }

probing : HealthReach counted no_keys (health_step counted (begins 7 100) no_keys)
probing = after (begins 7 100) start

one_probe_example :
    (count_where (is_out 7) (health_step counted (begins 7 100) no_keys).leases ≤ 1)
    × (1 ≤ count_where (is_out 7) (health_step counted (begins 7 100) no_keys).leases
        → (delay : ℕ) × (begin_api_key_attempt counted 7 101
              (health_step counted (begins 7 100) no_keys)
            ≡ (wait delay, health_step counted (begins 7 100) no_keys)))
one_probe_example = one_probe_at_a_time counted no_keys _ 7 101 no_keys-IsLeased probing

-- the probe is out
probe_is_out : count_where (is_out 7) (health_step counted (begins 7 100) no_keys).leases ≡ 1
unfolding count_where health_step begin_api_key_attempt take_probe
probe_is_out = refl

abbrev history : List Event
history = sweeps 30 ∷ binds "team" "r1" "acct2" 20 ∷ binds "team" "r1" "acct1" 10 ∷ []

no_bar : has_bar "team" ≡ false
unfolding has_bar
no_bar = refl

answers_example :
    get "team" "r1" 40 (store_after 100 history) ≡ account_of 100 "team" "r1" 40 history
answers_example =
    get-account_of 100 "team" "r1" 40 history no_bar
      (omega arith, (omega arith, no_bar, (omega arith, no_bar, tt)))

-- the last binding answers
last_account : account_of 100 "team" "r1" 40 history ≡ some "acct2"
unfolding account_of
last_account = refl
