-- ===== src/Prelude/Lists.antt =====
-- Lists measured by native numbers, and lists read as database tables.
use Prim.Native.Nat.{ℕ, zero, suc, ◌+◌}
use mathlib.Core.Path.{◌≡◌, refl}
use mathlib.Core.Bool.{Bool, true, false}
use mathlib.Core.List.{List, [], ◌∷◌, ◌++◌}
use mathlib.Core.Option.{Option, none, some}
use native.Mathlib.Omega.{arith}
use hypitoken.Prelude.Tests.{if◌then◌else◌}

module _ {ℓ} {A : Type ℓ} where
  abbrev pub length : List A → ℕ
  length [] = 0
  length (x ∷ xs) = suc (length xs)

  -- SELECT … WHERE p LIMIT 1: the first row that the test accepts.
  unfoldable pub first_where : (A → Bool) → List A → Option A
  first_where p [] = none
  first_where p (x ∷ xs) = if p x then some x else first_where p xs

  -- SELECT … WHERE p
  unfoldable pub rows_where : (A → Bool) → List A → List A
  rows_where p [] = []
  rows_where p (x ∷ xs) = let rest = rows_where p xs in if p x then x ∷ rest else rest

  -- UPDATE … SET f WHERE p
  unfoldable pub update_where : (A → Bool) → (A → A) → List A → List A
  update_where p f [] = []
  update_where p f (x ∷ xs) = (if p x then f x else x) ∷ update_where p f xs

  -- SELECT COUNT(*) … WHERE p, and the rows that a write affected
  unfoldable pub count_where : (A → Bool) → List A → ℕ
  count_where p [] = 0
  count_where p (x ∷ xs) = (if p x then 1 else 0) + count_where p xs

  unfoldable pub exists_where : (A → Bool) → List A → Bool
  exists_where p [] = false
  exists_where p (x ∷ xs) = if p x then true else exists_where p xs

  abbrev pub take : ℕ → List A → List A
  take zero xs = []
  take (suc n) [] = []
  take (suc n) (x ∷ xs) = x ∷ take n xs

  abbrev pub drop : ℕ → List A → List A
  drop zero xs = xs
  drop (suc n) [] = []
  drop (suc n) (x ∷ xs) = drop n xs

-- Insertion into a sorted list; `later a b` when a stands behind b.
unfoldable pub insert_by {ℓ} : {A : Type ℓ} → (A → A → Bool) → A → List A → List A
insert_by later a [] = a ∷ []
insert_by later a (b ∷ bs) =
    let rest = insert_by later a bs in if later a b then b ∷ rest else a ∷ b ∷ bs

-- ORDER BY: equal elements keep their order.
unfoldable pub sort_by {ℓ} : {A : Type ℓ} → (A → A → Bool) → List A → List A
unfolding insert_by
sort_by later [] = []
sort_by later (x ∷ xs) = insert_by later x (sort_by later xs)

abbrev pub All {ℓ κ} : {A : Type ℓ} → (A → Type κ) → List A → Type κ
All P [] = Unit
All P (x ∷ xs) = P x × All P xs

module _ {ℓ} {A : Type ℓ} where
  pub length-append : (xs ys : List A) → length (xs ++ ys) ≡ length xs + length ys
  length-append [] ys = omega arith
  length-append (x ∷ xs) ys = omega (arith, length-append xs ys)

  pub All-append {κ} : (P : A → Type κ) (xs ys : List A) → All P xs → All P ys → All P (xs ++ ys)
  All-append P [] ys hx hy = hy
  All-append P (x ∷ xs) ys hx hy = (hx.0, All-append P xs ys hx.1 hy)

  -- What a query for one row returns satisfies the query.
  pub first_where-holds :
      (p : A → Bool) (xs : List A) (a : A) → first_where p xs ≡ some a → p a ≡ true
  unfolding first_where
  first_where-holds p [] a h = cc
  first_where-holds p (x ∷ xs) a h = ground (arith, first_where-holds p xs a)

  pub first_where-append :
      (p : A → Bool) (xs : List A) (y : A)
      → first_where p xs ≡ none
      → first_where p (xs ++ y ∷ []) ≡ (if p y then some y else none)
  unfolding first_where
  first_where-append p [] y h = refl
  first_where-append p (x ∷ xs) y h = ground (arith, first_where-append p xs y)

  pub first_where-append_some :
      (p : A → Bool) (xs : List A) (y a : A)
      → first_where p xs ≡ some a
      → first_where p (xs ++ y ∷ []) ≡ some a
  unfolding first_where
  first_where-append_some p [] y a h = cc
  first_where-append_some p (x ∷ xs) y a h = ground (arith, first_where-append_some p xs y a)

  -- A row that no test accepts is not updated.
  pub update_where-none :
      (p : A → Bool) (f : A → A) (xs : List A)
      → exists_where p xs ≡ false
      → update_where p f xs ≡ xs
  unfolding update_where exists_where
  update_where-none p f [] h = refl
  update_where-none p f (x ∷ xs) h = ground (arith, update_where-none p f xs)

  pub exists_where-count :
      (p : A → Bool) (xs : List A) → exists_where p xs ≡ false → count_where p xs ≡ 0
  unfolding exists_where count_where
  exists_where-count p [] h = refl
  exists_where-count p (x ∷ xs) h = ground (arith, exists_where-count p xs)

  pub count_where-append :
      (p : A → Bool) (xs ys : List A)
      → count_where p (xs ++ ys) ≡ count_where p xs + count_where p ys
  unfolding count_where
  count_where-append p [] ys = omega arith
  count_where-append p (x ∷ xs) ys = omega (arith, count_where-append p xs ys)

  pub first_where-none_iff_count :
      (p : A → Bool) (xs : List A) → first_where p xs ≡ none → count_where p xs ≡ 0
  unfolding first_where count_where
  first_where-none_iff_count p [] h = refl
  first_where-none_iff_count p (x ∷ xs) h = ground (arith, first_where-none_iff_count p xs)

  pub exists_where-update :
      (p q : A → Bool) (f : A → A)
      → ((a : A) → p (f a) ≡ p a)
      → (xs : List A) → exists_where p (update_where q f xs) ≡ exists_where p xs
  unfolding exists_where update_where
  exists_where-update p q f same [] = refl
  exists_where-update p q f same (x ∷ xs) =
      ground (arith, same x, exists_where-update p q f same xs)

  pub exists_where-append_true :
      (p : A → Bool) (xs ys : List A) → exists_where p xs ≡ true → exists_where p (xs ++ ys) ≡ true
  unfolding exists_where
  exists_where-append_true p [] ys h = cc
  exists_where-append_true p (x ∷ xs) ys h = ground (arith, exists_where-append_true p xs ys)

  pub exists_where-first :
      (p q : A → Bool)
      → ((a : A) → q a ≡ true → p a ≡ true)
      → (xs : List A) (a : A) → first_where q xs ≡ some a
      → exists_where p xs ≡ true
  unfolding exists_where first_where
  exists_where-first p q weaker [] a h = cc
  exists_where-first p q weaker (x ∷ xs) a h =
      ground (arith, weaker x, exists_where-first p q weaker xs a)

  pub count_where-replaced :
      (p q : A → Bool) (f : A → A)
      → ((a : A) → p a ≡ true → q (f a) ≡ false)
      → ((a : A) → p a ≡ false → q a ≡ false)
      → (xs : List A) → count_where q (update_where p f xs) ≡ 0
  unfolding count_where update_where
  count_where-replaced p q f gone other [] = refl
  count_where-replaced p q f gone other (x ∷ xs) =
      ground (arith, gone x, other x, count_where-replaced p q f gone other xs)

  -- what was found first is found first in a longer list
  pub first_where-longer :
      (p : A → Bool) (xs ys : List A) (a : A)
      → first_where p xs ≡ some a
      → first_where p (xs ++ ys) ≡ some a
  unfolding first_where
  first_where-longer p [] ys a h = cc
  first_where-longer p (x ∷ xs) ys a h = ground (arith, first_where-longer p xs ys a)
