-- ===== src/Server/Sticky/Refines.antt =====
-- What the account store promises, by the history of its bindings alone: no janitor, no keys.
use hypitoken.Prelude.{
  ℕ, ◌+◌, ◌≤◌, ◌≡◌, refl, sym, ap, ◌∙◌, Bool, true, false, Bool-cases, Option, none, some, List, [],
  ◌∷◌, String, ◌&&◌, ◌||◌, ltb, str_eq, eq_iff, if◌then◌else◌, arith, inl, inr,
}
use hypitoken.Server.Sticky.{
  Entry, resp_key, bind, unexpired, get, swept, sweep, Event, binds, sweeps, apply_event,
  store_after,
}
use hypitoken.Server.Sticky.Keys.{has_bar, resp_key_names}

-- The account of a response in a group: of the events, the latest first, the first that binds the
-- response in that group decides.
unfoldable pub account_of : ℕ → String → String → ℕ → List Event → Option String
account_of ttl group resp now [] = none
account_of ttl group resp now (sweeps t ∷ es) = account_of ttl group resp now es
account_of ttl group resp now (binds g r a t ∷ es) =
    let before = account_of ttl group resp now es in
    if str_eq r "" || str_eq a ""
    then before
    else (if str_eq g group && str_eq r resp
        then (if ltb (t + ttl) now then none else some a)
        else before)

-- The events happened one after the other, and the groups that they bind in have no bar.
abbrev pub InOrder : ℕ → List Event → Type 0
InOrder now [] = Unit
InOrder now (binds g r a t ∷ es) = (t ≤ now) × (has_bar g ≡ false) × InOrder t es
InOrder now (sweeps t ∷ es) = (t ≤ now) × InOrder t es

same_key :
    (g g' r r' : String)
    → has_bar g ≡ false
    → has_bar g' ≡ false
    → str_eq (resp_key g' r') (resp_key g r) ≡ (str_eq g g' && str_eq r r')
same_key g g' r r' h h' = elim (Bool-cases (str_eq (resp_key g' r') (resp_key g r))) [
  | inl one ↦
      let (group, resp) = resp_key_names g' g r' r h' h ((eq_iff _ _).0 one) in
      let same_group = (eq_iff g g').1 (sym group) in
      let same_resp = (eq_iff r r').1 (sym resp) in ground arith
  | inr differ ↦ elim (Bool-cases (str_eq g g')) [
    | inr other_group ↦ ground arith
    | inl group ↦ elim (Bool-cases (str_eq r r')) [
      | inr other_resp ↦ ground arith
      | inl resp ↦
          let one : resp_key g' r' ≡ resp_key g r =
            ap (λ (x : String). resp_key x r') (sym ((eq_iff g g').0 group))
            ∙ ap (resp_key g) (sym ((eq_iff r r').0 resp)) in
          let same = (eq_iff (resp_key g' r') (resp_key g r)).1 one in cc
    ]
  ]
]

later : (t now : ℕ) (es : List Event) → t ≤ now → InOrder t es → InOrder now es
later t now [] h o = tt
later t now (binds g r a u ∷ es) h (before, free, rest) = (omega arith, free, rest)
later t now (sweeps u ∷ es) h (before, rest) = (omega arith, rest)

-- an entry that was swept away would not be found any more
swept-unexpired :
    (t now : ℕ) (o : Option Entry) → t ≤ now → unexpired now (swept t o) ≡ unexpired now o
swept-unexpired t now none h = refl
swept-unexpired t now (some e) h = ground arith

-- A lookup in the store after a binding.
after_bind :
    (no_resp no_binding same : Bool) (now : ℕ) (old new : Option Entry)
    → (same ≡ true → no_binding ≡ false → no_resp ≡ false)
    → (if no_resp
        then none
        else unexpired now (if no_binding then old else (if same then new else old)))
      ≡ (if no_binding
          then (if no_resp then none else unexpired now old)
          else (if same then unexpired now new else (if no_resp then none else unexpired now old)))
after_bind true true same now old new h = refl
after_bind true false true now old new h = absurd (let no = h refl refl in cc)
after_bind true false false now old new h = refl
after_bind false true same now old new h = refl
after_bind false false true now old new h = refl
after_bind false false false now old new h = refl

bound_resp :
    (g group r resp a : String)
    → (str_eq g group && str_eq r resp) ≡ true
    → (str_eq r "" || str_eq a "") ≡ false
    → str_eq resp "" ≡ false
bound_resp g group r resp a same real =
    let r_resp : str_eq r resp ≡ true = ground arith in
    let like = ap (λ (s : String). str_eq s "") (sym ((eq_iff r resp).0 r_resp)) in ground arith

-- Whatever is bound and swept, and whenever, the store answers as the history of its bindings says:
-- with the account that was last bound to the response in the same group, unless that has expired.
-- Groups are names without a bar.
pub get-account_of :
    (ttl : ℕ) (group resp : String) (now : ℕ) (es : List Event)
    → has_bar group ≡ false
    → InOrder now es
    → get group resp now (store_after ttl es) ≡ account_of ttl group resp now es
unfolding get store_after apply_event account_of bind sweep
get-account_of ttl group resp now [] h o = ground arith
get-account_of ttl group resp now (binds g r a t ∷ es) h (late, bar_free, o) =
    let before = get-account_of ttl group resp now es h (later t now es late o) in
    let same = same_key g group r resp bar_free h in
    rw (same, sym before)
      (after_bind (str_eq resp "") (str_eq r "" || str_eq a "") (str_eq g group && str_eq r resp)
        now (store_after ttl es (resp_key group resp))
        (some (record { auth_id = a; exp = t + ttl })) (bound_resp g group r resp a))
get-account_of ttl group resp now (sweeps t ∷ es) h (late, o) =
    let before = get-account_of ttl group resp now es h (later t now es late o) in
    ap (λ (x : Option String). if str_eq resp "" then none else x)
      (swept-unexpired t now (store_after ttl es (resp_key group resp)) late)
    ∙ before
