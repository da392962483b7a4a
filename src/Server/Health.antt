-- ===== src/Server/Health.antt =====
-- internal/server/apikey_health.go and upstream_health.go: the recovery of API keys. The health of a
-- key is cc-core's; what the proxy calls of it is a parameter. Calls hold apiKeyHealthMu, so they
-- run one after the other. Times are nanoseconds; keys are numbers; a map is a function.
pub mod Probe
use hypitoken.Prelude.{
  ℕ, ◌+◌, ◌==◌, Bool, true, false, not, ◌&&◌, ◌||◌, Option, none, some, List, ◌∷◌, String, ltb, leb,
  if◌then◌else◌, first_where, update_where,
}

-- upstreamFault
pub data Fault : Type 0 where
  fault_none fault_client fault_upstream fault_credential : Fault

-- retryable
abbrev pub retryable : Fault → Bool
retryable fault_upstream = true
retryable fault_credential = true
retryable f = false

-- classifyUpstreamStatus
unfoldable pub classify_upstream_status : ℕ → Fault
classify_upstream_status status =
    if ltb status 400
    then fault_none
    else (if status == 401 || status == 402 || status == 403
        then fault_credential
        else (if status == 408 || status == 429
            then fault_upstream
            else (if leb 500 status then fault_upstream else fault_client)))

abbrev is_credential : Fault → Bool
is_credential fault_credential = true
is_credential f = false

-- What the proxy calls of auth.Auth and of the pool, for the health `H` of one key. The state of a
-- key at a time is disabled, healthy, half open, or none of these.
pub record AuthOps (H : Type 0) : Type 0 where
  pub serving : H → ℕ → Bool
  pub is_disabled : H → ℕ → Bool
  pub is_half_open : H → ℕ → Bool
  pub retry_after : H → ℕ → ℕ
  pub quarantine_strikes : H → ℕ → ℕ
  pub last_failure : H → ℕ → ℕ
  pub mark_failure : String → ℕ → H → H
  pub mark_hard_failure : String → ℕ → H → H
  pub mark_success : ℕ → H → H
  pub report_upstream_error : ℕ → ℕ → ℕ → H → H

abbrev pub KeyMap : Type 0 → Type 0
KeyMap A = ℕ → A

abbrev pub set_key : {A : Type 0} → ℕ → A → KeyMap A → KeyMap A
set_key k a m k' = if k' == k then a else m k'

-- The release function that an attempt got: whether its sync.OnceFunc has run.
pub record Lease : Type 0 where
  pub number : ℕ
  pub key : ℕ
  pub released : Bool

-- the health of each key, apiKeyProbes, apiKeyRecovery, and the release functions that were given out
pub record Keys (H : Type 0) : Type 0 where
  pub health : KeyMap H
  pub probes : KeyMap Bool
  pub recovery : KeyMap Bool
  pub leases : List Lease
  pub next_lease : ℕ

-- what an attempt gets: a wait, nothing to release, or the release function of a probe
pub data Attempt : Type 0 where
  wait : ℕ → Attempt
  free : Attempt
  probe : ℕ → Attempt

-- a new probe of the key, with its release function
unfoldable pub take_probe : {H : Type 0} → ℕ → Keys H → Keys H
take_probe a s = record s {
  probes = set_key a true s.probes;
  leases = record { number = s.next_lease; key = a; released = false } ∷ s.leases;
  next_lease = s.next_lease + 1;
}

module _ {H : Type 0} (ops : AuthOps H) where
  -- the deferred part of recordAPIKeyFailure
  unfoldable pub enter_recovery : ℕ → ℕ → Keys H → Keys H
  enter_recovery a now s =
      if ops.serving (s.health a) now then s else record s { recovery = set_key a true s.recovery }

  -- the failure that the health of the key counts; `pooled` is s.pool != nil
  unfoldable pub failed_health : Bool → ℕ → ℕ → String → ℕ → H → H
  unfolding classify_upstream_status
  failed_health pooled status reset_at reason now h =
      if status == 429 && pooled
      then ops.report_upstream_error status reset_at now h
      else (if is_credential (classify_upstream_status status)
          then ops.mark_hard_failure reason now h
          else ops.mark_failure reason now h)

  -- recordAPIKeyFailure
  unfoldable pub record_api_key_failure : Bool → ℕ → ℕ → ℕ → String → ℕ → Keys H → Keys H
  unfolding enter_recovery failed_health
  record_api_key_failure pooled a status reset_at reason now s =
      if ops.is_disabled (s.health a) now
      then s
      else enter_recovery a now (record s {
        health = set_key a (failed_health pooled status reset_at reason now (s.health a)) s.health;
      })

  -- the response is no news: the key is disabled, or the request started before the last failure
  abbrev pub is_stale : ℕ → ℕ → ℕ → Keys H → Bool
  is_stale a started now s =
      ops.is_disabled (s.health a) now
      || ((ltb 0 (ops.quarantine_strikes (s.health a) now) || s.recovery a)
          && not (ltb (ops.last_failure (s.health a) now) started))

  -- recordAPIKeySuccess
  unfoldable pub record_api_key_success : ℕ → ℕ → ℕ → Keys H → Keys H
  record_api_key_success a started now s = if is_stale a started now s then s else record s {
    health = set_key a (ops.mark_success now (s.health a)) s.health;
    recovery = set_key a false s.recovery;
  }

  -- beginAPIKeyAttempt
  unfoldable pub begin_api_key_attempt : ℕ → ℕ → Keys H → Attempt × Keys H
  begin_api_key_attempt a now s =
      if not (ops.serving (s.health a) now)
      then (wait (ops.retry_after (s.health a) now), s)
      else (if s.probes a
          then (wait 1_000_000_000, s)
          else (if not (ops.is_half_open (s.health a) now) && not (s.recovery a)
              then (free, s)
              else (probe s.next_lease, take_probe a s)))

abbrev pub is_lease : ℕ → Lease → Bool
is_lease n l = l.number == n

abbrev pub release_found : {H : Type 0} → Option Lease → ℕ → Keys H → Keys H
release_found none n s = s
release_found (some l) n s = if l.released then s else record s {
  probes = set_key l.key false s.probes;
  leases = update_where (is_lease n) (λ (x : Lease). record x { released = true }) s.leases;
}

-- the release function, which may be called more than once
unfoldable pub release : {H : Type 0} → ℕ → Keys H → Keys H
release n s = release_found (first_where (is_lease n) s.leases) n s
