-- ===== src/Prelude/Rows.antt =====
-- What updates and deletions do to the rows of a table, and how many of them a test accepts then.
use Prim.Native.Nat.{◌+◌, ◌≤◌}
use mathlib.Core.Path.{◌≡◌, refl, sym, ap, ◌∙◌, subst}
use mathlib.Core.Logic.{inl, inr}
use mathlib.Core.Bool.{Bool, true, false, not}
use mathlib.Core.List.{List, [], ◌∷◌}
pub use mathlib.Core.List.{Memᴰ}
pub use mathlib.Core.List.Memᴰ.{head, tail, not-nil}
use mathlib.Core.Option.{none, some}
use native.Mathlib.Omega.{arith}
use hypitoken.Prelude.Tests.{if◌then◌else◌, Bool-cases}
use hypitoken.Prelude.Lists.{first_where, rows_where, update_where, count_where, exists_where, All}

module _ {ℓ} {A : Type ℓ} where
  pub All-map {κ λ₁} :
      {P : A → Type κ} {Q : A → Type λ₁} (f : (a : A) → P a → Q a) (xs : List A)
      → All P xs
      → All Q xs
  All-map f [] h = tt
  All-map f (x ∷ xs) h = (f x h.0, All-map f xs h.1)

  -- Each updated row is checked, and each other one.
  pub All-update_where {κ λ₁} :
      {P : A → Type κ} {Q : A → Type λ₁} (p : A → Bool) (f : A → A)
      → ((a : A) → p a ≡ true → P a → Q (f a))
      → ((a : A) → p a ≡ false → P a → Q a)
      → (xs : List A) → All P xs
      → All Q (update_where p f xs)
  unfolding update_where
  All-update_where p f hit miss [] h = tt
  All-update_where {P = P} {Q = Q} p f hit miss (x ∷ xs) h =
      (here (p x) (hit x) (miss x), All-update_where p f hit miss xs h.1)
    where
      here :
          (b : Bool)
          → (b ≡ true → P x → Q (f x))
          → (b ≡ false → P x → Q x)
          → Q (if b then f x else x)
      here true is is_not = is refl h.0
      here false is is_not = is_not refl h.0

  pub All-rows_where {κ λ₁} :
      {P : A → Type κ} {Q : A → Type λ₁} (p : A → Bool)
      → ((a : A) → p a ≡ true → P a → Q a)
      → (xs : List A) → All P xs
      → All Q (rows_where p xs)
  unfolding rows_where
  All-rows_where p keep [] h = tt
  All-rows_where {Q = Q} p keep (x ∷ xs) h =
      here (p x) (λ e. keep x e h.0) (All-rows_where p keep xs h.1)
    where
      here :
          (b : Bool)
          → (b ≡ true → Q x)
          → All Q (rows_where p xs)
          → All Q (if b then x ∷ rows_where p xs else rows_where p xs)
      here true kept rest = (kept refl, rest)
      here false kept rest = rest

  module _ (p q : A → Bool) where
    pub count_where-update_same :
        (f : A → A)
        → ((a : A) → p a ≡ true → q (f a) ≡ q a)
        → (xs : List A) → count_where q (update_where p f xs) ≡ count_where q xs
    unfolding count_where update_where
    count_where-update_same f same [] = refl
    count_where-update_same f same (x ∷ xs) =
        ground (arith, same x, count_where-update_same f same xs)

    -- A deletion of rows that the test does not accept.
    pub count_where-rows_same :
        ((a : A) → p a ≡ false → q a ≡ false)
        → (xs : List A) → count_where q (rows_where p xs) ≡ count_where q xs
    unfolding count_where rows_where
    count_where-rows_same same [] = refl
    count_where-rows_same same (x ∷ xs) = ground (arith, same x, count_where-rows_same same xs)

    pub count_where-rows_le : (xs : List A) → count_where q (rows_where p xs) ≤ count_where q xs
    unfolding count_where rows_where
    count_where-rows_le [] = omega arith
    count_where-rows_le (x ∷ xs) = ground (arith, count_where-rows_le xs)

    -- The update of the one row of a key, which the test does not accept any more.
    pub one_less_update :
        (f : A → A)
        → ((a : A) → p a ≡ true → q (f a) ≡ false)
        → (xs : List A) (a : A) → count_where p xs ≤ 1
        → first_where p xs ≡ some a
        → count_where q (update_where p f xs) + (if q a then 1 else 0) ≡ count_where q xs
    unfolding count_where update_where first_where
    one_less_update f gone [] a u found = cc
    one_less_update f gone (x ∷ xs) a u found = elim (Bool-cases (p x)) [
      | inl here ↦ ground (arith, gone x, untouched xs)
      | inr there ↦
          let rest = one_less_update f gone xs a (ground arith) (ground arith) in ground arith
    ]
      where
        untouched :
            (ys : List A)
            → count_where p ys ≡ 0
            → count_where q (update_where p f ys) ≡ count_where q ys
        untouched [] h = refl
        untouched (y ∷ ys) h = ground (arith, untouched ys)

    -- The deletion of the one row of a key.
    pub one_less_delete :
        (xs : List A) (a : A)
        → count_where p xs ≤ 1
        → first_where p xs ≡ some a
        → count_where q (rows_where (λ x. not (p x)) xs) + (if q a then 1 else 0) ≡ count_where q xs
    unfolding count_where rows_where first_where
    one_less_delete [] a u found = cc
    one_less_delete (x ∷ xs) a u found = elim (Bool-cases (p x)) [
      | inl here ↦ ground (arith, untouched xs)
      | inr there ↦ let rest = one_less_delete xs a (ground arith) (ground arith) in ground arith
    ]
      where
        untouched :
            (ys : List A)
            → count_where p ys ≡ 0
            → count_where q (rows_where (λ x. not (p x)) ys) ≡ count_where q ys
        untouched [] h = refl
        untouched (y ∷ ys) h = ground (arith, untouched ys)

  pub Mem-rows_where :
      (q : A → Bool) (xs : List A) (a : A) → Memᴰ a (rows_where q xs) → (q a ≡ true) × Memᴰ a xs
  unfolding rows_where
  Mem-rows_where q [] a h = absurd (not-nil h)
  Mem-rows_where q (x ∷ xs) a h =
      split (q x) refl
        (λ m. let (accepted, there) = Mem-rows_where q xs a m in (accepted, tail there)) h
    where
      split :
          (b : Bool)
          → q x ≡ b
          → (Memᴰ a (rows_where q xs) → (q a ≡ true) × Memᴰ a (x ∷ xs))
          → Memᴰ a (if b then x ∷ rows_where q xs else rows_where q xs)
          → (q a ≡ true) × Memᴰ a (x ∷ xs)
      split true e further (head same) = (ap q same ∙ e, head same)
      split true e further (tail m) = further m
      split false e further m = further m

  -- A row that the test accepts is counted.
  pub count_where-Mem :
      (p : A → Bool) (xs : List A) (a : A) → Memᴰ a xs → p a ≡ true → 1 ≤ count_where p xs
  unfolding count_where
  count_where-Mem p [] a h accepted = absurd (not-nil h)
  count_where-Mem p (x ∷ xs) a (head same) accepted =
      let here : p x ≡ true = sym (ap p same) ∙ accepted in ground arith
  count_where-Mem p (x ∷ xs) a (tail m) accepted =
      let more = count_where-Mem p xs a m accepted in omega arith

  -- The only row of a key is the one that a query for the key finds.
  pub first_where_unique :
      (p : A → Bool) (xs : List A) (a : A)
      → Memᴰ a xs
      → p a ≡ true
      → count_where p xs ≤ 1
      → first_where p xs ≡ some a
  unfolding first_where count_where
  first_where_unique p [] a h accepted u = absurd (not-nil h)
  first_where_unique p (x ∷ xs) a (head same) accepted u =
      let here : p x ≡ true = sym (ap p same) ∙ accepted in ground arith
  first_where_unique p (x ∷ xs) a (tail m) accepted u =
      let more = count_where-Mem p xs a m accepted in
      let rest = first_where_unique p xs a m accepted (ground arith) in ground arith

  -- A query finds the same row after other rows were changed or deleted.
  pub first_where-update :
      (p q : A → Bool) (f : A → A)
      → ((a : A) → q a ≡ true → p (f a) ≡ p a)
      → (xs : List A) (a : A) → first_where p xs ≡ some a
      → q a ≡ false
      → first_where p (update_where q f xs) ≡ some a
  unfolding first_where update_where
  first_where-update p q f same [] a h miss = cc
  first_where-update p q f same (x ∷ xs) a h miss =
      ground (arith, same x, first_where-update p q f same xs a)

  pub first_where-rows :
      (p q : A → Bool) (xs : List A) (a : A)
      → first_where p xs ≡ some a
      → q a ≡ true
      → first_where p (rows_where q xs) ≡ some a
  unfolding first_where rows_where
  first_where-rows p q [] a h kept = cc
  first_where-rows p q (x ∷ xs) a h kept = ground (arith, first_where-rows p q xs a)

  pub count_where-deleted :
      (p : A → Bool) (xs : List A) → count_where p (rows_where (λ a. not (p a)) xs) ≡ 0
  unfolding count_where rows_where
  count_where-deleted p [] = refl
  count_where-deleted p (x ∷ xs) = ground (arith, count_where-deleted p xs)

  pub All-first_where {κ} :
      (P : A → Type κ) (p : A → Bool) (xs : List A) (a : A)
      → All P xs
      → first_where p xs ≡ some a
      → P a
  unfolding first_where
  All-first_where P p [] a all h = cc
  All-first_where P p (x ∷ xs) a all h = here (p x) (λ e. All-first_where P p xs a all.1 e) h
    where
      here :
          (b : Bool)
          → (first_where p xs ≡ some a → P a)
          → (if b then some x else first_where p xs) ≡ some a
          → P a
      here true further e = let same : x ≡ a = cc in subst P same all.0
      here false further e = further e

  -- A query for a key finds the updated row of the key.
  pub first_where-updated :
      (p : A → Bool) (f : A → A)
      → ((a : A) → p a ≡ true → p (f a) ≡ true)
      → (xs : List A) (a : A) → first_where p xs ≡ some a
      → first_where p (update_where p f xs) ≡ some (f a)
  unfolding first_where update_where
  first_where-updated p f same [] a h = cc
  first_where-updated p f same (x ∷ xs) a h =
      ground (arith, same x, first_where-updated p f same xs a)

  -- The update of all rows of a test, which makes the test fail.
  pub count_where-cleared :
      (p : A → Bool) (f : A → A)
      → ((a : A) → p a ≡ true → p (f a) ≡ false)
      → (xs : List A) → count_where p (update_where p f xs) ≡ 0
  unfolding count_where update_where
  count_where-cleared p f gone [] = refl
  count_where-cleared p f gone (x ∷ xs) = ground (arith, gone x, count_where-cleared p f gone xs)

  -- What no row satisfies is not found by a query that asks for more.
  pub first_where-stronger :
      (p q : A → Bool) (xs : List A) (a : A)
      → ((b : A) → q b ≡ true → p b ≡ true)
      → count_where p xs ≡ 0
      → first_where q xs ≡ some a
      → ⊥
  unfolding count_where first_where
  first_where-stronger p q [] a more zero found = cc
  first_where-stronger p q (x ∷ xs) a more zero found =
      let later = first_where-stronger p q xs a more in ground (arith, more x, later)

  -- An update after which no more rows satisfy the test.
  pub count_where-update_le :
      (p q : A → Bool) (f : A → A)
      → ((a : A) → p a ≡ true → q (f a) ≡ true → q a ≡ true)
      → (xs : List A) → count_where q (update_where p f xs) ≤ count_where q xs
  unfolding count_where update_where
  count_where-update_le p q f old [] = omega arith
  count_where-update_le p q f old (x ∷ xs) =
      ground (arith, old x, count_where-update_le p q f old xs)

  pub first_where-exists :
      (p : A → Bool) (xs : List A)
      → exists_where p xs ≡ true
      → (a : A) × (first_where p xs ≡ some a)
  unfolding first_where exists_where
  first_where-exists p [] h = cc
  first_where-exists p (x ∷ xs) h = elim (Bool-cases (p x)) [
    | inl here ↦ (x, ground arith)
    | inr there ↦ let (a, found) = first_where-exists p xs (ground arith) in (a, ground arith)
  ]

  pub first_where-none :
      (p : A → Bool) (xs : List A) → exists_where p xs ≡ false → first_where p xs ≡ none
  unfolding first_where exists_where
  first_where-none p [] h = refl
  first_where-none p (x ∷ xs) h = ground (arith, first_where-none p xs)
