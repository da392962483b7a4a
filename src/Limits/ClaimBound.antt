-- ===== src/Limits/ClaimBound.antt =====
-- What the limiter of gift redemptions bounds.
use hypitoken.Prelude.{
  ℕ, ◌+◌, ◌≤◌, ◌<◌, ◌≡◌, refl, true, false, List, [], ◌∷◌, ◌++◌, String, arith, Bool-cases, inl,
  inr, leb, length, count_where, count_where-append,
}
use hypitoken.Limits.{times, Answer, allowed, retry_after}
use hypitoken.Limits.Claim.{ClaimLimiter, claim_allow, drop_aged, wait}
use hypitoken.Limits.Maps.{times-put}

-- how many of the attempts are not older than the window
abbrev pub in_window : ℕ → ℕ → List ℕ → ℕ
in_window now w ts = count_where (λ t. leb now (t + w)) ts

-- Only attempts out of the window are dropped.
in_window-drop_aged :
    (now w : ℕ) (ts : List ℕ) → in_window now w (drop_aged now w ts) ≡ in_window now w ts
unfolding count_where drop_aged
in_window-drop_aged now w [] = refl
in_window-drop_aged now w (t ∷ ts) = ground (arith, in_window-drop_aged now w ts)

length-drop_aged : (now w : ℕ) (ts : List ℕ) → length (drop_aged now w ts) ≤ length ts
unfolding drop_aged
length-drop_aged now w [] = omega arith
length-drop_aged now w (t ∷ ts) = ground (arith, length-drop_aged now w ts)

in_window-length : (now w : ℕ) (ts : List ℕ) → in_window now w ts ≤ length ts
unfolding count_where
in_window-length now w [] = omega arith
in_window-length now w (t ∷ ts) = ground (arith, in_window-length now w ts)

-- An attempt is let through when fewer than the maximum are in the window, and it is one more there.
-- A refusal finds the maximum of attempts on record, leaves those in the window as they are, and
-- asks to wait for a second at least.
abbrev pub ClaimLimited : String → ℕ → ClaimLimiter → Answer × ClaimLimiter → Type 0
ClaimLimited key now l (allowed, l') =
    (in_window now l.window (times key l.hits) < l.max)
    × (in_window now l.window (times key l'.hits) ≡ in_window now l.window (times key l.hits) + 1)
ClaimLimited key now l (retry_after n, l') =
    (1 ≤ n)
    × (l.max ≤ length (times key l.hits))
    × (in_window now l.window (times key l'.hits) ≡ in_window now l.window (times key l.hits))

one_more : (now w : ℕ) (ts : List ℕ) → in_window now w (ts ++ now ∷ []) ≡ in_window now w ts + 1
unfolding count_where
one_more now w ts =
    let more = count_where-append (λ t. leb now (t + w)) ts (now ∷ []) in ground arith

-- Whatever was recorded, the limiter of gift redemptions lets an attempt through only when fewer
-- than its maximum are in its window, and then records it as one more; a refusal finds the maximum
-- of attempts on record, leaves those in the window as they are, and the wait is a second at least.
pub claim_allow-ClaimLimited :
    (key : String) (now : ℕ) (l : ClaimLimiter) → ClaimLimited key now l (claim_allow key now l)
unfolding claim_allow
claim_allow-ClaimLimited key now l =
    let kept = drop_aged now l.window (times key l.hits) in
    let same = in_window-drop_aged now l.window (times key l.hits) in
    elim (Bool-cases (leb l.max (length kept))) [
      | inl full ↦ rw full (
        at_least kept,
        omega (arith, length-drop_aged now l.window (times key l.hits), leb_true full),
        rw (times-put key kept l.hits) same,
      )
      | inr free ↦ rw free (
        omega (arith, same, in_window-length now l.window kept, leb_false free),
        rw (times-put key (kept ++ now ∷ []) l.hits)
            (omega (arith, one_more now l.window kept, same)),
      )
    ]
  where
    at_least : (ts : List ℕ) → 1 ≤ wait now l.window ts
    at_least [] = omega arith
    at_least (t ∷ ts) = ground arith

    leb_true : {a b : ℕ} → leb a b ≡ true → a ≤ b
    leb_true h = ground arith

    leb_false : {a b : ℕ} → leb a b ≡ false → b < a
    leb_false h = ground arith
