-- ===== src/Prelude/Lists.antt =====
-- Lists measured by native numbers, searched and filtered by Boolean tests.
use Prim.Native.Nat.{ℕ, zero, suc, ◌+◌, ◌≤◌}
use text.Mathlib.TextEquality.{eq_iff}
use Prim.Native.String.{String}
use text.Mathlib.Text.{◌==◌}
use mathlib.Core.Path.{◌≡◌, refl, ap, ◌∙◌}
use mathlib.Core.Logic.{◌⊎◌, inl, inr}
use mathlib.Core.Bool.{Bool, true, false, not, ◌&&◌, ◌||◌}
use mathlib.Core.Option.{some}
use mathlib.Core.List.{List, [], ◌∷◌, ◌++◌, map}
use native.Mathlib.Omega.{arith}
use mailcleanup.Prelude.Tests.{if◌then◌else◌, leb_text, Bool-cases}

module _ {ℓ} {A : Type ℓ} where
  abbrev pub length : List A → ℕ
  length [] = 0
  length (x ∷ xs) = suc (length xs)

  abbrev pub take : ℕ → List A → List A
  take zero xs = []
  take (suc n) [] = []
  take (suc n) (x ∷ xs) = x ∷ take n xs

  -- `any(p(x) for x in xs)`
  unfoldable pub any : (A → Bool) → List A → Bool
  any p [] = false
  any p (x ∷ xs) = p x || any p xs

  -- `all(p(x) for x in xs)`
  unfoldable pub all : (A → Bool) → List A → Bool
  all p [] = true
  all p (x ∷ xs) = p x && all p xs

  -- `[x for x in xs if p(x)]`
  unfoldable pub filter : (A → Bool) → List A → List A
  filter p [] = []
  filter p (x ∷ xs) = let rest = filter p xs in if p x then x ∷ rest else rest

  -- `sum(f(x) for x in xs)`
  unfoldable pub sum_of : (A → ℕ) → List A → ℕ
  sum_of f [] = 0
  sum_of f (x ∷ xs) = f x + sum_of f xs

-- `x` stands in the list: a predicate by recursion, which the tactics read.
module _ {A : Type 0} where
  abbrev pub In : A → List A → Type 0
  In x [] = ⊥
  In x (y ∷ ys) = (x ≡ y) ⊎ In x ys

  pub any_of_In : (p : A → Bool) (x : A) (xs : List A) → In x xs → p x ≡ true → any p xs ≡ true
  unfolding any
  any_of_In p x [] h e = absurd h
  any_of_In p x (y ∷ ys) (inl q) e = ground (arith)
  any_of_In p x (y ∷ ys) (inr q) e = ground (arith, any_of_In p x ys q e)

-- `x in xs`, on texts.
unfoldable pub contains : List String → String → Bool
contains [] x = false
contains (y ∷ ys) x = x == y || contains ys x

module _ {A : Type 0} where
  pub In-map :
      {B : Type 0} (f : A → B) (y : B) (xs : List A)
      → In y (map f xs)
      → (x : A) × In x xs × (y ≡ f x)
  In-map f y [] h = absurd h
  In-map f y (x ∷ xs) (inl e) = (x, inl refl, e)
  In-map f y (x ∷ xs) (inr h) = let (z, i, e) = In-map f y xs h in (z, inr i, e)

  pub In-filter : (p : A → Bool) (x : A) (xs : List A) → p x ≡ true → In x xs → In x (filter p xs)
  unfolding filter
  In-filter p x [] e h = absurd h
  In-filter p x (y ∷ ys) e (inl q) = ground arith
  In-filter p x (y ∷ ys) e (inr q) = ground (arith, In-filter p x ys e q)

-- `len(set(xs)) == len(xs)`, on texts.
unfoldable pub distinct : List String → Bool
distinct [] = true
distinct (x ∷ xs) = not (contains xs x) && distinct xs

-- `tuple(sorted(xs)) == xs`, on texts: each is at most the next.
unfoldable pub is_ascending : List String → Bool
is_ascending [] = true
is_ascending (x ∷ []) = true
is_ascending (x ∷ y ∷ ys) = leb_text x y && is_ascending (y ∷ ys)

pub eq_comm : (s t : String) → (s == t) ≡ (t == s)
eq_comm s t = ground (arith, eq_iff s t, eq_iff t s)

module _ {A : Type 0} where
  pub filter-ext :
      (p q : A → Bool) (xs : List A) → ((x : A) → p x ≡ q x) → filter p xs ≡ filter q xs
  unfolding filter
  filter-ext p q [] h = refl
  filter-ext p q (x ∷ xs) h = ground (arith, h x, filter-ext p q xs h)

  pub length-filter-le : (p : A → Bool) (xs : List A) → length (filter p xs) ≤ length xs
  unfolding filter
  length-filter-le p [] = omega arith
  length-filter-le p (x ∷ xs) = ground (arith, length-filter-le p xs)

  pub length-append : (xs ys : List A) → length (xs ++ ys) ≡ length xs + length ys
  length-append [] ys = omega arith
  length-append (x ∷ xs) ys = omega (arith, length-append xs ys)

  pub all-append : (p : A → Bool) (xs ys : List A) → all p (xs ++ ys) ≡ (all p xs && all p ys)
  unfolding all
  all-append p [] ys = refl
  all-append p (x ∷ xs) ys = ground (arith, all-append p xs ys)

  pub any-append : (p : A → Bool) (xs ys : List A) → any p (xs ++ ys) ≡ (any p xs || any p ys)
  unfolding any
  any-append p [] ys = refl
  any-append p (x ∷ xs) ys = ground (arith, any-append p xs ys)

  -- a weaker test sums to no less
  pub sum_of-filter-le :
      (f : A → ℕ) (p q : A → Bool) (xs : List A)
      → ((x : A) → p x ≡ true → q x ≡ true)
      → sum_of f (filter p xs) ≤ sum_of f (filter q xs)
  unfolding filter sum_of
  sum_of-filter-le f p q [] h = omega arith
  sum_of-filter-le f p q (x ∷ xs) h = ground (arith, h x, sum_of-filter-le f p q xs h)

  pub all_of_In : (p : A → Bool) (x : A) (xs : List A) → all p xs ≡ true → In x xs → p x ≡ true
  unfolding all
  all_of_In p x [] h i = absurd i
  all_of_In p x (y ∷ ys) h (inl e) = ground arith
  all_of_In p x (y ∷ ys) h (inr i) = ground (arith, all_of_In p x ys)

  pub In-of-filter :
      (p : A → Bool) (x : A) (xs : List A) → In x (filter p xs) → In x xs × (p x ≡ true)
  unfolding filter
  In-of-filter p x [] i = absurd i
  In-of-filter p x (y ∷ ys) i = elim (Bool-cases (p y)) [
    | inl t ↦ elim (let j : (x ≡ y) ⊎ In x (filter p ys) = rw (t, filter) at i in j) [
      | inl e ↦ (inl e, ap p e ∙ t)
      | inr j ↦ let (k, h) = In-of-filter p x ys j in (inr k, h)
    ]
    | inr f ↦ let (k, h) = In-of-filter p x ys (rw (f, filter) at i) in (inr k, h)
  ]

pub contains-append :
    (xs ys : List String) (k : String) → contains (xs ++ ys) k ≡ (contains xs k || contains ys k)
unfolding contains
contains-append [] ys k = refl
contains-append (x ∷ xs) ys k = ground (arith, contains-append xs ys k)

tail-absent :
    (x : String) (xs : List String) (k : String)
    → contains (x ∷ xs) k ≡ false
    → contains xs k ≡ false
unfolding contains
tail-absent x xs k e = ground arith

head-present : (x : String) (xs : List String) → contains (x ∷ xs) x ≡ true
unfolding contains
head-present x xs = ground (arith, eq_iff x x)

pub distinct-append :
    (xs ys : List String)
    → distinct xs ≡ true
    → distinct ys ≡ true
    → ((k : String) → contains ys k ≡ true → contains xs k ≡ false)
    → distinct (xs ++ ys) ≡ true
unfolding distinct
distinct-append [] ys dx dy h = dy
distinct-append (x ∷ xs) ys dx dy h = ground (
  arith,
  contains-append xs ys x,
  head-present x xs,
  h x,
  distinct-append xs ys (ground arith) dy (λ k e. tail-absent x xs k (h k e)),
)

pub map-In : {A B : Type 0} (f : A → B) (x : A) (xs : List A) → In x xs → In (f x) (map f xs)
map-In f x [] i = absurd i
map-In f x (y ∷ ys) (inl p) = inl (ap f p)
map-In f x (y ∷ ys) (inr i) = inr (map-In f x ys i)

module _ {A : Type 0} where
  pub In-append : (x : A) (xs ys : List A) → In x (xs ++ ys) → In x xs ⊎ In x ys
  In-append x [] ys i = inr i
  In-append x (y ∷ xs) ys (inl e) = inl (inl e)
  In-append x (y ∷ xs) ys (inr i) = elim (In-append x xs ys i) [
    | inl j ↦ inl (inr j)
    | inr j ↦ inr j
  ]

  pub append-In : (x : A) (xs ys : List A) → In x xs ⊎ In x ys → In x (xs ++ ys)
  append-In x [] ys (inl i) = absurd i
  append-In x [] ys (inr i) = i
  append-In x (y ∷ xs) ys (inl (inl e)) = inl e
  append-In x (y ∷ xs) ys (inl (inr i)) = inr (append-In x xs ys (inl i))
  append-In x (y ∷ xs) ys (inr i) = inr (append-In x xs ys (inr i))

pub some_injective : {A : Type 0} {x y : A} → some x ≡ some y → x ≡ y
some_injective h = cc
