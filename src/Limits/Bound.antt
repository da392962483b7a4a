-- ===== src/Limits/Bound.antt =====
-- What the limiter of sign-up codes bounds: the events in each window of an address and of an IP.
use hypitoken.Prelude.{
  ℕ, ◌+◌, ◌≤◌, ◌<◌, ◌≡◌, refl, Bool, true, false, not, List, [], ◌∷◌, ◌++◌, String, concat, str_eq,
  arith, All, Bool-cases, ◌⊎◌, inl, inr, leb, ap, subst, sym, ◌∙◌,
}
use Prim.Native.Char.{code}
use text.Mathlib.TextLemmas.{cons-append}
use hypitoken.Limits.{
  Events, times, recent, Limit, limit, Answer, allowed, retry_after, check, gc, note, decide, allow,
  day,
}
use hypitoken.Limits.Maps.{
  IsMap, times-put, times-put_other, put-IsMap, gc-IsMap, recent-gc, recent-note, unequal,
}

-- A check that lets through has found every window below its limit.
check-allowed :
    (now : ℕ) (stamps : List ℕ) (ls : List Limit)
    → check now stamps ls ≡ allowed
    → All (λ (l : Limit). recent now l.window stamps < l.max) ls
unfolding check
check-allowed now stamps [] h = tt
check-allowed now stamps (l ∷ ls) h = elim (Bool-cases (leb l.max (recent now l.window stamps))) [
  | inl full ↦ absurd (ground arith)
  | inr free ↦ (ground arith, check-allowed now stamps ls (ground arith))
]

-- a window that is full
abbrev pub Full : ℕ → List ℕ → List Limit → Type 0
Full now stamps [] = ⊥
Full now stamps (l ∷ ls) = (l.max ≤ recent now l.window stamps) ⊎ Full now stamps ls

-- A check that refuses has found a full window.
check-retry :
    (now : ℕ) (stamps : List ℕ) (ls : List Limit) (n : ℕ)
    → check now stamps ls ≡ retry_after n
    → (1 ≤ n) × Full now stamps ls
unfolding check
check-retry now stamps [] n h = cc
check-retry now stamps (l ∷ ls) n h = elim (Bool-cases (leb l.max (recent now l.window stamps))) [
  | inl full ↦ (ground arith, inl (ground arith))
  | inr free ↦ let (wait, later) = check-retry now stamps ls n (ground arith) in (wait, inr later)
]

abbrev first_code : String → ℕ
first_code String.[] = 0
first_code (String.◌∷◌ c s) = code c

-- the keys of addresses and of IPs differ in their first letter
keys_apart : (ip email : String) → concat "e:" email ≡ concat "i:" ip → ⊥
keys_apart ip email same = differ (
    subst (λ (s : String). ◌≡◌ {A = ℕ} 101 (first_code s)) (cons-append "i" ":" ip)
      (subst (λ (s : String). first_code s ≡ first_code (concat "i:" ip))
        (cons-append "e" ":" email) (ap first_code same)))
  where
    differ : ◌≡◌ {A = ℕ} 101 105 → ⊥
    differ q = omega arith

-- at most one event in a minute and five in an hour
abbrev pub email_limits : List Limit
email_limits = limit 1 60_000_000_000 ∷ limit 5 3_600_000_000_000 ∷ []

-- at most ten events in an hour and fifty in a day
abbrev pub ip_limits : List Limit
ip_limits = limit 10 3_600_000_000_000 ∷ limit 50 86_400_000_000_000 ∷ []

-- every window has room in `m`, and one event more in `m'`
abbrev pub Noted : ℕ → String → List Limit → Events → Events → Type 0
Noted now key ls m m' =
    All
      (λ (l : Limit).
        (recent now l.window (times key m) < l.max)
        × (recent now l.window (times key m') ≡ recent now l.window (times key m) + 1))
      ls

-- every window has as many events in `m'` as in `m`
abbrev pub Unmoved : ℕ → String → List Limit → Events → Events → Type 0
Unmoved now key ls m m' =
    All (λ (l : Limit). recent now l.window (times key m') ≡ recent now l.window (times key m)) ls

-- What an answer of the sign-up limiter means: an event is let through when every window of its
-- address and of its IP, where there is one, has room, and it is one event more in each of them. A
-- refusal finds a full window, leaves all windows as they are, and asks to wait for a second.
abbrev pub Limited : String → String → ℕ → Events → Answer × Events → Type 0
Limited email ip now m (retry_after n, m') =
    (1 ≤ n)
    × (Full now (times (concat "e:" email) m) email_limits
        ⊎ ((str_eq ip "" ≡ false) × Full now (times (concat "i:" ip) m) ip_limits))
    × Unmoved now (concat "e:" email) email_limits m m'
    × Unmoved now (concat "i:" ip) ip_limits m m'
Limited email ip now m (allowed, m') =
    Noted now (concat "e:" email) email_limits m m'
    × ((str_eq ip "" ≡ true) ⊎ Noted now (concat "i:" ip) ip_limits m m')

module _ (email ip : String) (now : ℕ) (m : Events) (distinct : IsMap m) where
  abbrev g : Events
  g = gc now m

  abbrev Usual : Limit → Type 0
  Usual l = (1 ≤ l.window) × (l.window ≤ day)

  noted :
      (key : String) (m' : Events) (ls : List Limit)
      → times key m' ≡ times key (note now key g)
      → All Usual ls
      → All (λ (l : Limit). recent now l.window (times key g) < l.max) ls
      → Noted now key ls m m'
  noted key m' [] same usual room = tt
  noted key m' (l ∷ ls) same usual room =
      let before = recent-gc now l.window key m usual.0.1 distinct in
      (
        (
          omega (arith, before, room.0),
          ap (recent now l.window) same
              ∙ omega (arith, recent-note now l.window key g usual.0.0, before),
        ),
        noted key m' ls same usual.1 room.1,
      )

  unmoved : (key : String) (ls : List Limit) → All Usual ls → Unmoved now key ls m g
  unmoved key [] usual = tt
  unmoved key (l ∷ ls) usual =
      (recent-gc now l.window key m usual.0.1 distinct, unmoved key ls usual.1)

  full :
      (key : String) (ls : List Limit)
      → All Usual ls
      → Full now (times key g) ls
      → Full now (times key m) ls
  full key [] usual h = h
  full key (l ∷ ls) usual (inl h) =
      inl (omega (arith, recent-gc now l.window key m usual.0.1 distinct, h))
  full key (l ∷ ls) usual (inr h) = inr (full key ls usual.1 h)

  email_windows : All Usual email_limits
  email_windows = ((omega arith, omega arith), ((omega arith, omega arith), tt))

  ip_windows : All Usual ip_limits
  ip_windows = ((omega arith, omega arith), ((omega arith, omega arith), tt))

  decide-Limited :
      (no_ip : Bool) (by_email by_ip : Answer)
      → str_eq ip "" ≡ no_ip
      → check now (times (concat "e:" email) g) email_limits ≡ by_email
      → check now (times (concat "i:" ip) g) ip_limits ≡ by_ip
      → Limited email ip now m (
          decide by_email by_ip
            (not no_ip)
            g
            (note now (concat "e:" email) g)
            (note now (concat "i:" ip) (note now (concat "e:" email) g)))
  unfolding note
  decide-Limited no_ip (retry_after n) by_ip i e h =
      let (wait, why) = check-retry now _ _ n e in
      (
        wait,
        inl (full _ email_limits email_windows why),
        unmoved (concat "e:" email) email_limits email_windows,
        unmoved (concat "i:" ip) ip_limits ip_windows,
      )
  decide-Limited true allowed by_ip i e h =
      (noted _ _ email_limits refl email_windows (check-allowed now _ _ e), inl i)
  decide-Limited false allowed (retry_after n) i e h =
      let (wait, why) = check-retry now _ _ n h in
      (
        wait,
        inr (i, full _ ip_limits ip_windows why),
        unmoved (concat "e:" email) email_limits email_windows,
        unmoved (concat "i:" ip) ip_limits ip_windows,
      )
  decide-Limited false allowed allowed i e h =
      let first = note now (concat "e:" email) g in
      let email_kept : times (concat "e:" email) (note now (concat "i:" ip) first)
          ≡ times (concat "e:" email) first =
        times-put_other (concat "i:" ip) (concat "e:" email) _ first
          (unequal _ _ (λ p. keys_apart ip email (sym p))) in
      let ip_kept : times (concat "i:" ip) first ≡ times (concat "i:" ip) g =
        times-put_other (concat "e:" email) (concat "i:" ip) _ g
          (unequal _ _ (keys_apart ip email)) in
      let again : times (concat "i:" ip) (note now (concat "i:" ip) first)
          ≡ times (concat "i:" ip) (note now (concat "i:" ip) g) =
        times-put (concat "i:" ip) _ first
        ∙ ap (λ (ts : List ℕ). ts ++ now ∷ []) ip_kept
        ∙ sym (times-put (concat "i:" ip) _ g) in
      (
        noted _ _ email_limits email_kept email_windows (check-allowed now _ _ e),
        inr (noted _ _ ip_limits again ip_windows (check-allowed now _ _ h)),
      )

  decide-IsMap :
      (by_email by_ip : Answer) (has_ip : Bool) (a b c : Events)
      → IsMap a
      → IsMap b
      → IsMap c
      → IsMap (decide by_email by_ip has_ip a b c).1
  decide-IsMap (retry_after n) by_ip has_ip a b c ha hb hc = ha
  decide-IsMap allowed by_ip false a b c ha hb hc = hb
  decide-IsMap allowed (retry_after n) true a b c ha hb hc = ha
  decide-IsMap allowed allowed true a b c ha hb hc = hc

  -- Whatever was recorded, in a map without a repeated key, the limiter of sign-up codes lets an
  -- event through only when its address has had no event in the last minute and fewer than five in
  -- the last hour, and its IP, where there is one, fewer than ten in the last hour and fifty in the
  -- last day; the event is then one more in each of these windows. A refusal finds one of them
  -- full, leaves them as they are, and the wait is a second at least. The map stays without a
  -- repeated key.
  pub allow-Limited : Limited email ip now m (allow email ip now m) × IsMap (allow email ip now m).1
  unfolding allow note
  allow-Limited = (
    decide-Limited (str_eq ip "") _ _ refl refl refl,
    decide-IsMap _ _ _ _ _ _ kept (put-IsMap _ _ g kept) (put-IsMap _ _ _ (put-IsMap _ _ g kept)),
  )
    where
      kept : IsMap g
      kept = gc-IsMap now m distinct
