-- ===== src/Prelude/Sort.antt =====
-- `sorted`: a stable insertion sort by a Boolean order, and what holds of it.
use Prim.Native.Nat.{ℕ, ◌+◌}
use mathlib.Core.Path.{◌≡◌, refl}
use mathlib.Core.Logic.{◌⊎◌}
use mathlib.Core.Bool.{Bool}
use mathlib.Core.List.{List, [], ◌∷◌}
use native.Mathlib.Omega.{arith}
use mailcleanup.Prelude.Tests.{if◌then◌else◌}
use mailcleanup.Prelude.Lists.{In, length, sum_of}

module _ {A : Type 0} (le : A → A → Bool) where
  unfoldable pub insert_by : A → List A → List A
  insert_by x [] = x ∷ []
  insert_by x (y ∷ ys) = let rest = insert_by x ys in if le x y then x ∷ y ∷ ys else y ∷ rest

  unfoldable pub sort_by : List A → List A
  unfolding insert_by
  sort_by [] = []
  sort_by (x ∷ xs) = insert_by x (sort_by xs)

  In-insert_by : (z x : A) (ys : List A) → In z (insert_by x ys) → (z ≡ x) ⊎ In z ys
  unfolding insert_by
  In-insert_by z x [] h = h
  In-insert_by z x (y ∷ ys) h = ground (arith, In-insert_by z x ys)

  insert_by-In : (z x : A) (ys : List A) → (z ≡ x) ⊎ In z ys → In z (insert_by x ys)
  unfolding insert_by
  insert_by-In z x [] h = h
  insert_by-In z x (y ∷ ys) h = ground (arith, insert_by-In z x ys)

  -- sorting keeps exactly the items
  pub In-sort_by : (z : A) (xs : List A) → In z (sort_by xs) → In z xs
  unfolding sort_by
  In-sort_by z [] h = h
  In-sort_by z (x ∷ xs) h = ground (arith, In-insert_by z x (sort_by xs), In-sort_by z xs)

  pub sort_by-In : (z : A) (xs : List A) → In z xs → In z (sort_by xs)
  unfolding sort_by
  sort_by-In z [] h = h
  sort_by-In z (x ∷ xs) h = ground (arith, insert_by-In z x (sort_by xs), sort_by-In z xs)

  insert_by-length : (x : A) (ys : List A) → length (insert_by x ys) ≡ length ys + 1
  unfolding insert_by
  insert_by-length x [] = omega arith
  insert_by-length x (y ∷ ys) = ground (arith, insert_by-length x ys)

  pub length-sort_by : (xs : List A) → length (sort_by xs) ≡ length xs
  unfolding sort_by
  length-sort_by [] = refl
  length-sort_by (x ∷ xs) = omega (arith, insert_by-length x (sort_by xs), length-sort_by xs)

  insert_by-sum : (f : A → ℕ) (x : A) (ys : List A) → sum_of f (insert_by x ys) ≡ f x + sum_of f ys
  unfolding insert_by sum_of
  insert_by-sum f x [] = refl
  insert_by-sum f x (y ∷ ys) = ground (arith, insert_by-sum f x ys)

  pub sum_of-sort_by : (f : A → ℕ) (xs : List A) → sum_of f (sort_by xs) ≡ sum_of f xs
  unfolding sort_by sum_of
  sum_of-sort_by f [] = refl
  sum_of-sort_by f (x ∷ xs) = omega (arith, insert_by-sum f x (sort_by xs), sum_of-sort_by f xs)
