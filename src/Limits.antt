-- ===== src/Limits.antt =====
-- internal/saas/auth/ratelimit.go, support/ratelimit.go and referral/ratelimit.go: the sliding
-- windows in memory. Times and durations are nanoseconds; a map is an association list. A cutoff
-- now - w that a time is compared to is written with w on the other side.
pub mod Claim
pub mod Maps
pub mod Bound
pub mod ClaimBound
use hypitoken.Prelude.{
  ℕ, ◌+◌, ◌-◌, ◌/◌, Bool, true, false, List, [], ◌∷◌, ◌++◌, String, concat, ◌&&◌, ◌||◌, not, ltb,
  leb, ◌==◌, str_eq, if◌then◌else◌, rows_where,
}

abbrev pub Events : Type 0
Events = List (String × List ℕ)

-- the second, the minute, the hour and the day
abbrev pub second : ℕ
second = 1_000_000_000

abbrev pub minute : ℕ
minute = 60_000_000_000

abbrev pub hour : ℕ
hour = 3_600_000_000_000

abbrev pub day : ℕ
day = 86_400_000_000_000

-- m[key], where a missing key reads as no times
unfoldable pub times : String → Events → List ℕ
times key [] = []
times key ((k, ts) ∷ m) = if str_eq k key then ts else times key m

-- m[key] = ts
unfoldable pub put : String → List ℕ → Events → Events
put key ts [] = (key, ts) ∷ []
put key ts ((k, old) ∷ m) =
    let rest = put key ts m in if str_eq k key then (k, ts) ∷ m else (k, old) ∷ rest

-- at most `max` events in any `window`
pub record Limit : Type 0 where
  pub max : ℕ
  pub window : ℕ

-- t.After(now.Add(-w))
abbrev pub is_recent : ℕ → ℕ → ℕ → Bool
is_recent now w t = ltb now (t + w)

-- how many of the times are in the window
unfoldable pub recent : ℕ → ℕ → List ℕ → ℕ
recent now w [] = 0
recent now w (t ∷ ts) = (if is_recent now w t then 1 else 0) + recent now w ts

-- The loop of check: the earliest time in the window, and how many it has seen.
unfoldable pub oldest_from : ℕ → ℕ → ℕ → ℕ → List ℕ → ℕ
oldest_from now w seen oldest [] = oldest
oldest_from now w seen oldest (t ∷ ts) =
    let keep = oldest_from now w (seen + 1) oldest ts in
    let swap = oldest_from now w (seen + 1) t ts in
    let skip = oldest_from now w seen oldest ts in
    if is_recent now w t then (if seen == 0 || ltb t oldest then swap else keep) else skip

abbrev pub at_least_one : ℕ → ℕ
at_least_one n = if ltb n 1 then 1 else n

-- what a limiter answers: let through, or try again after so many seconds
pub data Answer : Type 0 where
  allowed : Answer
  retry_after : ℕ → Answer

-- check in auth, over the limits
unfoldable pub check : ℕ → List ℕ → List Limit → Answer
check now stamps [] = allowed
check now stamps (l ∷ ls) =
    let rest = check now stamps ls in
    if leb l.max (recent now l.window stamps)
    then retry_after
        (at_least_one ((oldest_from now l.window 0 0 stamps + l.window - now) / second))
    else rest

-- check in support, which rounds the wait up
unfoldable pub check_support : ℕ → List ℕ → List Limit → Answer
check_support now stamps [] = allowed
check_support now stamps (l ∷ ls) =
    let rest = check_support now stamps ls in
    if leb l.max (recent now l.window stamps)
    then retry_after
        (at_least_one ((oldest_from now l.window 0 0 stamps + l.window - now) / second + 1))
    else rest

abbrev pub entry : String → List ℕ → Events → Events
entry k [] m = m
entry k (t ∷ ts) m = (k, t ∷ ts) ∷ m

-- gcLocked: drops the times older than a day, and the keys without times.
unfoldable pub gc : ℕ → Events → Events
gc now [] = []
gc now ((k, ts) ∷ m) = entry k (rows_where (is_recent now day) ts) (gc now m)

-- append(m[key], now)
unfoldable pub note : ℕ → String → Events → Events
unfolding times put
note now key m = put key (times key m ++ now ∷ []) m

-- The common course of both limiters: the windows of the address, then those of the IP where there
-- is one, and both are noted only when both let through.
abbrev pub decide : Answer → Answer → Bool → Events → Events → Events → Answer × Events
decide (retry_after n) by_ip has_ip m noted both = (retry_after n, m)
decide allowed by_ip false m noted both = (allowed, noted)
decide allowed (retry_after n) true m noted both = (retry_after n, m)
decide allowed allowed true m noted both = (allowed, both)

abbrev pub limit : ℕ → ℕ → Limit
limit max window = record { max = max; window = window }

-- codeRateLimiter.allow
unfoldable pub allow : String → String → ℕ → Events → Answer × Events
unfolding times check note
allow email ip now m =
    let kept = gc now m in
    let by_email =
      check now (times (concat "e:" email) kept) (limit 1 minute ∷ limit 5 hour ∷ []) in
    let by_ip = check now (times (concat "i:" ip) kept) (limit 10 hour ∷ limit 50 day ∷ []) in
    let noted = note now (concat "e:" email) kept in
    decide by_email by_ip (not (str_eq ip "")) kept noted (note now (concat "i:" ip) noted)

-- rateLimiter.allow in support
unfoldable pub allow_support :
    String → String → String → List Limit → List Limit → ℕ → Events → Answer × Events
unfolding times check_support note
allow_support scope email ip email_wins ip_wins now m =
    let kept = gc now m in
    let email_key = concat (concat scope ":e:") email in
    let ip_key = concat (concat scope ":i:") ip in
    let by_email = check_support now (times email_key kept) email_wins in
    let by_ip = check_support now (times ip_key kept) ip_wins in
    let noted = note now email_key kept in
    decide by_email by_ip (not (str_eq ip "")) kept noted (note now ip_key noted)

-- rateLimiter.allowSubmit
unfoldable pub allow_submit : String → String → ℕ → Events → Answer × Events
allow_submit email ip = allow_support "submit" email ip (limit 3 hour ∷ []) (limit 20 day ∷ [])
