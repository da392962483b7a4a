-- ===== src/Limits/Maps.antt =====
-- The map of a limiter: what is written is read, and what gcLocked drops is in no window.
use hypitoken.Prelude.{
  ℕ, ◌+◌, ◌≤◌, ◌≡◌, refl, false, List, [], ◌∷◌, ◌++◌, String, str_eq, eq_refl, eq_iff, arith,
  Bool-cases, inl, inr, subst, sym, rows_where, if◌then◌else◌,
}
use hypitoken.Limits.{Events, times, put, recent, is_recent, gc, entry, note, day}

pub times-put : (key : String) (ts : List ℕ) (m : Events) → times key (put key ts m) ≡ ts
unfolding times put
times-put key ts [] = rw (eq_refl key) refl
times-put key ts ((k, old) ∷ m) = elim (Bool-cases (str_eq k key)) [
  | inl here ↦ rw (here, here) refl
  | inr elsewhere ↦ rw (elsewhere, elsewhere) (times-put key ts m)
]

pub times-put_other :
    (key other : String) (ts : List ℕ) (m : Events)
    → str_eq key other ≡ false
    → times other (put key ts m) ≡ times other m
unfolding times put
times-put_other key other ts [] apart = rw apart refl
times-put_other key other ts ((k, old) ∷ m) apart = elim (Bool-cases (str_eq k key)) [
  | inl here ↦ rw (here, (eq_iff k key).0 here, apart) refl
  | inr elsewhere ↦ ground (arith, times-put_other key other ts m apart, elsewhere)
]

-- an event that is noted now counts once in each window
recent-append :
    (now w : ℕ) (ts : List ℕ) → 1 ≤ w → recent now w (ts ++ now ∷ []) ≡ recent now w ts + 1
unfolding recent
recent-append now w [] some_time = ground arith
recent-append now w (t ∷ ts) some_time = ground (arith, recent-append now w ts some_time)

pub recent-note :
    (now w : ℕ) (key : String) (m : Events)
    → 1 ≤ w
    → recent now w (times key (note now key m)) ≡ recent now w (times key m) + 1
unfolding note
recent-note now w key m some_time =
    rw (times-put key (times key m ++ now ∷ []) m) (recent-append now w (times key m) some_time)

pub unequal : (s t : String) → (s ≡ t → ⊥) → str_eq s t ≡ false
unequal s t apart = elim (Bool-cases (str_eq s t)) [
  | inl same ↦ absurd (apart ((eq_iff s t).0 same))
  | inr other ↦ other
]

-- the key is not in the map
abbrev Absent : String → Events → Type 0
Absent key [] = Unit
Absent key ((k, ts) ∷ m) = (str_eq k key ≡ false) × Absent key m

-- no key is in the map twice
abbrev pub IsMap : Events → Type 0
IsMap [] = Unit
IsMap ((k, ts) ∷ m) = Absent k m × IsMap m

times-Absent : (key : String) (m : Events) → Absent key m → times key m ≡ []
unfolding times
times-Absent key [] h = refl
times-Absent key ((k, ts) ∷ m) h = rw h.0 (times-Absent key m h.1)

put-Absent :
    (key k : String) (ts : List ℕ) (m : Events)
    → str_eq key k ≡ false
    → Absent k m
    → Absent k (put key ts m)
unfolding put
put-Absent key k ts [] apart h = (apart, tt)
put-Absent key k ts ((l, old) ∷ m) apart h = elim (Bool-cases (str_eq l key)) [
  | inl here ↦ rw here h
  | inr elsewhere ↦ rw elsewhere (h.0, put-Absent key k ts m apart h.1)
]

pub put-IsMap : (key : String) (ts : List ℕ) (m : Events) → IsMap m → IsMap (put key ts m)
unfolding put
put-IsMap key ts [] h = (tt, tt)
put-IsMap key ts ((k, old) ∷ m) h = elim (Bool-cases (str_eq k key)) [
  | inl here ↦ rw here h
  | inr elsewhere ↦
      let apart : str_eq key k ≡ false =
        unequal key k (λ same. let hit = (eq_iff k key).1 (sym same) in cc (hit, elsewhere)) in
      rw elsewhere (put-Absent key k ts m apart h.0, put-IsMap key ts m h.1)
]

gc-Absent : (now : ℕ) (key : String) (m : Events) → Absent key m → Absent key (gc now m)
unfolding gc
gc-Absent now key [] h = tt
gc-Absent now key ((k, ts) ∷ m) h = go (rows_where (is_recent now day) ts) (gc-Absent now key m h.1)
  where
    go : (ks : List ℕ) → Absent key (gc now m) → Absent key (entry k ks (gc now m))
    go [] rest = rest
    go (t ∷ ts) rest = (h.0, rest)

pub gc-IsMap : (now : ℕ) (m : Events) → IsMap m → IsMap (gc now m)
unfolding gc
gc-IsMap now [] h = tt
gc-IsMap now ((k, ts) ∷ m) h = go (rows_where (is_recent now day) ts) (gc-IsMap now m h.1)
  where
    go : (ks : List ℕ) → IsMap (gc now m) → IsMap (entry k ks (gc now m))
    go [] rest = rest
    go (t ∷ ts) rest = (gc-Absent now k m h.0, rest)

recent-rows :
    (now w : ℕ) (ts : List ℕ)
    → w ≤ day
    → recent now w (rows_where (is_recent now day) ts) ≡ recent now w ts
unfolding recent rows_where
recent-rows now w [] short = refl
recent-rows now w (t ∷ ts) short = ground (arith, recent-rows now w ts short)

-- What is dropped is in no window of a day or less.
pub recent-gc :
    (now w : ℕ) (key : String) (m : Events)
    → w ≤ day
    → IsMap m
    → recent now w (times key (gc now m)) ≡ recent now w (times key m)
unfolding gc times recent
recent-gc now w key [] short h = refl
recent-gc now w key ((k, ts) ∷ m) short h =
    go (rows_where (is_recent now day) ts) (recent-rows now w ts short)
      (recent-gc now w key m short h.1)
  where
    go :
        (ks : List ℕ)
        → recent now w ks ≡ recent now w ts
        → recent now w (times key (gc now m)) ≡ recent now w (times key m)
        → recent now w (times key (entry k ks (gc now m)))
          ≡ recent now w (if str_eq k key then ts else times key m)
    go [] same rest = elim (Bool-cases (str_eq k key)) [
      | inl here ↦
          let gone : times key (gc now m) ≡ [] = times-Absent key _ (
            subst (λ (x : String). Absent x (gc now m)) ((eq_iff k key).0 here)
              (gc-Absent now k m h.0)) in
          rw (here, gone) same
      | inr other ↦ rw other rest
    ]
    go (t ∷ ks) same rest = elim (Bool-cases (str_eq k key)) [
      | inl here ↦ rw here same
      | inr other ↦ rw other rest
    ]
