-- ===== src/Limits/Claim.antt =====
-- internal/saas/referral/ratelimit.go: claimLimiter, which guards the redemption of gift codes.
use hypitoken.Prelude.{
  ℕ, ◌+◌, ◌-◌, ◌/◌, Bool, true, List, [], ◌∷◌, ◌++◌, String, ltb, leb, length, if◌then◌else◌,
}
use hypitoken.Limits.{
  Events, times, put, second, minute, at_least_one, Answer, allowed, retry_after,
}

pub record ClaimLimiter : Type 0 where
  pub hits : Events
  pub window : ℕ
  pub max : ℕ

-- newClaimLimiter
abbrev pub new_claim_limiter : ClaimLimiter
new_claim_limiter = record { hits = []; window = minute; max = 8 }

-- the loop that skips the times before now - window at the front
unfoldable pub drop_aged : ℕ → ℕ → List ℕ → List ℕ
drop_aged now w [] = []
drop_aged now w (t ∷ ts) = let rest = drop_aged now w ts in if ltb (t + w) now then rest else t ∷ ts

abbrev pub wait : ℕ → ℕ → List ℕ → ℕ
wait now w [] = 1
wait now w (t ∷ ts) = at_least_one ((w + t - now) / second + 1)

-- claimLimiter.allow
unfoldable pub claim_allow : String → ℕ → ClaimLimiter → Answer × ClaimLimiter
unfolding times put drop_aged
claim_allow key now l =
    let h = drop_aged now l.window (times key l.hits) in
    if leb l.max (length h)
    then (retry_after (wait now l.window h), record l { hits = put key h l.hits })
    else (allowed, record l { hits = put key (h ++ now ∷ []) l.hits })

abbrev is_aged : ℕ → ℕ → List ℕ → Bool
is_aged now w [] = true
is_aged now w (t ∷ []) = ltb (t + w) now
is_aged now w (t ∷ u ∷ ts) = is_aged now w (u ∷ ts)

unfoldable pub live_entries : ℕ → ℕ → Events → Events
live_entries now w [] = []
live_entries now w ((k, h) ∷ m) =
    let rest = live_entries now w m in if is_aged now w h then rest else (k, h) ∷ rest

-- claimLimiter.gc
unfoldable pub claim_gc : ℕ → ClaimLimiter → ClaimLimiter
unfolding live_entries
claim_gc now l = record l { hits = live_entries now l.window l.hits }
