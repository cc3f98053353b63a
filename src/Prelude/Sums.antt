-- ===== src/Prelude/Sums.antt =====
-- Sums over lists, and what holds of every element.
use Prim.Native.Nat.{ℕ, zero, suc, ◌+◌, ◌≤◌}
use mathlib.Core.Path.{◌≡◌}
use mathlib.Core.List.{List, [], ◌∷◌, ◌++◌}
use native.Mathlib.Omega.{arith}
use wizpay_core.Prelude.Lists.{length, take, drop}

module _ {ℓ} {A : Type ℓ} where
  -- `reduce((sum, x) => sum + f(x), acc)`
  unfoldable pub sum_by : (A → ℕ) → ℕ → List A → ℕ
  sum_by f acc [] = acc
  sum_by f acc (x ∷ xs) = sum_by f (acc + f x) xs

module _ {ℓ} {A : Type ℓ} (f : A → ℕ) where
  pub sum_by_acc : (acc : ℕ) (xs : List A) → sum_by f acc xs ≡ acc + sum_by f 0 xs
  unfolding sum_by
  sum_by_acc acc [] = omega arith
  sum_by_acc acc (x ∷ xs) =
      let from_acc : sum_by f acc (x ∷ xs) ≡ acc + f x + sum_by f 0 xs =
        sum_by_acc (acc + f x) xs in
      let from_zero : sum_by f 0 (x ∷ xs) ≡ 0 + f x + sum_by f 0 xs = sum_by_acc (0 + f x) xs in
      omega arith

  pub sum_by-cons : (x : A) (xs : List A) → sum_by f 0 (x ∷ xs) ≡ f x + sum_by f 0 xs
  unfolding sum_by
  sum_by-cons x xs =
      let from_zero : sum_by f 0 (x ∷ xs) ≡ 0 + f x + sum_by f 0 xs = sum_by_acc (0 + f x) xs in
      omega arith

  pub sum_by-append : (xs ys : List A) → sum_by f 0 (xs ++ ys) ≡ sum_by f 0 xs + sum_by f 0 ys
  unfolding sum_by
  sum_by-append [] ys = omega arith
  sum_by-append (x ∷ xs) ys =
      omega (arith, sum_by-append xs ys, sum_by-cons x (xs ++ ys), sum_by-cons x xs)

  pub sum_by-take-drop :
      (n : ℕ) (xs : List A) → sum_by f 0 (take n xs) + sum_by f 0 (drop n xs) ≡ sum_by f 0 xs
  unfolding sum_by
  sum_by-take-drop zero xs = omega arith
  sum_by-take-drop (suc n) [] = omega arith
  sum_by-take-drop (suc n) (x ∷ xs) =
      omega (arith, sum_by-take-drop n xs, sum_by-cons x (take n xs), sum_by-cons x xs)

module _ {ℓ} {A : Type ℓ} where
  pub length-drop-le : (n : ℕ) (xs : List A) → length (drop n xs) ≤ length xs
  length-drop-le zero xs = omega arith
  length-drop-le (suc n) [] = omega arith
  length-drop-le (suc n) (x ∷ xs) = omega (arith, length-drop-le n xs)

  pub length-take-le : (n : ℕ) (xs : List A) → length (take n xs) ≤ n
  length-take-le zero xs = omega arith
  length-take-le (suc n) [] = omega arith
  length-take-le (suc n) (x ∷ xs) = omega (arith, length-take-le n xs)

module _ {ℓ κ} {A : Type ℓ} (P : A → Type κ) where
  abbrev pub All : List A → Type κ
  All [] = Unit
  All (x ∷ xs) = P x × All xs

  pub All-append : (xs ys : List A) → All xs → All ys → All (xs ++ ys)
  All-append [] ys h k = k
  All-append (x ∷ xs) ys h k = (h.0, All-append xs ys h.1 k)

  pub All-take : (n : ℕ) (xs : List A) → All xs → All (take n xs)
  All-take zero xs h = tt
  All-take (suc n) [] h = tt
  All-take (suc n) (x ∷ xs) h = (h.0, All-take n xs h.1)

  pub All-drop : (n : ℕ) (xs : List A) → All xs → All (drop n xs)
  All-drop zero xs h = h
  All-drop (suc n) [] h = tt
  All-drop (suc n) (x ∷ xs) h = All-drop n xs h.1

module _ {ℓ} {A : Type ℓ} (f g : A → ℕ) where
  -- Summands that agree on the list have one sum.
  pub sum_by-congr : (xs : List A) → All (λ x. f x ≡ g x) xs → sum_by f 0 xs ≡ sum_by g 0 xs
  unfolding sum_by
  sum_by-congr [] h = omega arith
  sum_by-congr (x ∷ xs) h =
      omega (arith, h.0, sum_by-congr xs h.1, sum_by-cons f x xs, sum_by-cons g x xs)
