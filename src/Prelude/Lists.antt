-- ===== src/Prelude/Lists.antt =====
-- Tables as lists of rows: the first row that meets a test, a write to every row that meets it,
-- and the number of rows that do. A key is unique where the count of its rows is at most one.
use Prim.Native.Nat.{ℕ, zero, suc, ◌+◌, ◌≤◌, ◌<◌}
use mathlib.Core.Path.{◌≡◌, refl}
use mathlib.Core.Bool.{Bool, true, false, ◌&&◌}
use mathlib.Core.Option.{Option, none, some}
use mathlib.Core.List.{List, [], ◌∷◌, ◌++◌}
use native.Mathlib.Omega.{arith}
use mathlib.Core.Logic.{inl, inr}
use wizpay_core.Prelude.Tests.{if◌then◌else◌, Bool-cases}

abbrev pub from_Bool : Bool → ℕ
from_Bool true = 1
from_Bool false = 0

module _ {ℓ} {A : Type ℓ} where
  abbrev pub length : List A → ℕ
  length [] = 0
  length (x ∷ xs) = suc (length xs)

  abbrev pub take : ℕ → List A → List A
  take zero xs = []
  take (suc n) [] = []
  take (suc n) (x ∷ xs) = x ∷ take n xs

  abbrev pub drop : ℕ → List A → List A
  drop zero xs = xs
  drop (suc n) [] = []
  drop (suc n) (x ∷ xs) = drop n xs

  unfoldable pub find : (A → Bool) → List A → Option A
  find p [] = none
  find p (x ∷ xs) = if p x then some x else find p xs

  unfoldable pub update_where : (A → Bool) → (A → A) → List A → List A
  update_where p f [] = []
  update_where p f (x ∷ xs) = (if p x then f x else x) ∷ update_where p f xs

  unfoldable pub count : (A → Bool) → List A → ℕ
  count p [] = 0
  count p (x ∷ xs) = from_Bool (p x) + count p xs

  unfoldable pub filter : (A → Bool) → List A → List A
  filter p [] = []
  filter p (x ∷ xs) = if p x then x ∷ filter p xs else filter p xs

  unfoldable pub all : (A → Bool) → List A → Bool
  all p [] = true
  all p (x ∷ xs) = p x && all p xs

  abbrev pub any : (A → Bool) → List A → Bool
  any p xs = elim (count p xs) [ zero ↦ false | suc n ↦ true ]

module _ {ℓ} {A : Type ℓ} where
  pub count-append : (p : A → Bool) (xs ys : List A) → count p (xs ++ ys) ≡ count p xs + count p ys
  unfolding count
  count-append p [] ys = omega arith
  count-append p (x ∷ xs) ys = omega (arith, count-append p xs ys)

  -- The row that is found meets the test, and is counted.
  pub find_sound :
      (p : A → Bool) (xs : List A) {x : A} → find p xs ≡ some x → (p x ≡ true) × (0 < count p xs)
  unfolding find count
  find_sound p [] e = cc
  find_sound p (x ∷ xs) {x = y} e = ground (arith, find_sound p xs {x = y})

  pub update_where-absent :
      (p : A → Bool) (f : A → A) (xs : List A) → count p xs ≡ 0 → update_where p f xs ≡ xs
  unfolding update_where count
  update_where-absent p f [] e = refl
  update_where-absent p f (x ∷ xs) e = ground (arith, update_where-absent p f xs)

  -- After a write that keeps the test, a search finds the row that was written.
  pub find_written :
      (p q : A → Bool) (f : A → A) (xs : List A) {x : A}
      → ((a : A) → q (f a) ≡ q a)
      → p x ≡ true
      → find q xs ≡ some x
      → find q (update_where p f xs) ≡ some (f x)
  unfolding find update_where
  find_written p q f [] h k e = cc
  find_written p q f (x ∷ xs) {x = y} h k e = elim (Bool-cases (q x)) [
    | inl here ↦ ground (arith, h x)
    | inr there ↦ ground (arith, h x, find_written p q f xs {x = y} h)
  ]

  pub find-update_where :
      (p : A → Bool) (f : A → A) (xs : List A) {x : A}
      → ((a : A) → p (f a) ≡ p a)
      → find p xs ≡ some x
      → find p (update_where p f xs) ≡ some (f x)
  find-update_where p f xs h e = find_written p p f xs h (find_sound p xs e).0 e

  -- A write to the one row that meets `p` moves the count of `q` by what it does to that row.
  pub count-update_where :
      (p q : A → Bool) (f : A → A) (xs : List A) {x : A}
      → count p xs ≤ 1
      → find p xs ≡ some x
      → count q (update_where p f xs) + from_Bool (q x) ≡ count q xs + from_Bool (q (f x))
  unfolding find update_where count
  count-update_where p q f [] u e = cc
  count-update_where p q f (x ∷ xs) {x = y} u e = elim (Bool-cases (p x)) [
    | inl here ↦ ground (arith, update_where-absent p f xs)
    | inr there ↦ ground (arith, count-update_where p q f xs {x = y})
  ]

  -- A write that leaves `q` alone leaves its count alone.
  pub count-update_where_stable :
      (p q : A → Bool) (f : A → A) (xs : List A)
      → ((x : A) → p x ≡ true → q (f x) ≡ q x)
      → count q (update_where p f xs) ≡ count q xs
  unfolding update_where count
  count-update_where_stable p q f [] h = refl
  count-update_where_stable p q f (x ∷ xs) h =
      ground (arith, h x, count-update_where_stable p q f xs h)

  count-le-count : (p r : A → Bool) (xs : List A) → count (λ a. p a && r a) xs ≤ count p xs
  unfolding count
  count-le-count p r [] = omega arith
  count-le-count p r (x ∷ xs) = ground (arith, count-le-count p r xs)

  -- Where the key `p` is unique, a search by `p` and more that succeeds is a search by `p`.
  pub find-and :
      (p r : A → Bool) (xs : List A) {x : A}
      → count p xs ≤ 1
      → find (λ a. p a && r a) xs ≡ some x
      → find p xs ≡ some x
  unfolding find count
  find-and p r [] u e = cc
  find-and p r (x ∷ xs) {x = y} u e = elim (Bool-cases (p x)) [
    | inl here ↦ ground (arith, find_sound (λ a. p a && r a) xs {x = y}, count-le-count p r xs)
    | inr there ↦ ground (arith, find-and p r xs {x = y})
  ]

  -- A write to other rows leaves a search alone.
  pub find-update_where_ne :
      (p q : A → Bool) (f : A → A) (xs : List A)
      → ((a : A) → q (f a) ≡ q a)
      → ((a : A) → p a ≡ true → q a ≡ false)
      → find q (update_where p f xs) ≡ find q xs
  unfolding find update_where
  find-update_where_ne p q f [] h k = refl
  find-update_where_ne p q f (x ∷ xs) h k =
      ground (arith, h x, k x, find-update_where_ne p q f xs h k)

  pub length-filter : (p : A → Bool) (xs : List A) → length (filter p xs) ≡ count p xs
  unfolding filter count
  length-filter p [] = refl
  length-filter p (x ∷ xs) = ground (arith, length-filter p xs)

module _ {ℓ} {A : Type ℓ} where
  count-zero_of :
      (k p : A → Bool) (xs : List A)
      → ((a : A) → p a ≡ true → k a ≡ true)
      → count k xs ≡ 0
      → count p xs ≡ 0
  unfolding count
  count-zero_of k p [] h e = refl
  count-zero_of k p (x ∷ xs) h e = ground (arith, h x, count-zero_of k p xs h)

  -- Where the key `k` is unique, a test that implies it counts the row of that key alone.
  pub count_of_unique :
      (k p : A → Bool) (xs : List A) {x : A}
      → ((a : A) → p a ≡ true → k a ≡ true)
      → count k xs ≤ 1
      → find k xs ≡ some x
      → count p xs ≡ from_Bool (p x)
  unfolding find count
  count_of_unique k p [] h u e = cc
  count_of_unique k p (x ∷ xs) {x = y} h u e = elim (Bool-cases (k x)) [
    | inl here ↦ ground (arith, h x, count-zero_of k p xs h)
    | inr there ↦ ground (arith, h x, count_of_unique k p xs {x = y} h)
  ]
