-- ===== src/Common/Sorting.antt =====
-- Python's `sorted(xs, key=…)`, which is stable, by a test of what may come first.
use Prim.Native.Nat.{ℕ, zero, suc, ◌+◌}
use mathlib.Core.Path.{◌≡◌, refl}
use mathlib.Core.Bool.{Bool}
use mathlib.Core.List.{List, [], ◌∷◌}
use native.Mathlib.Omega.{arith}
use dmarc_geeks.Common.Tests.{if◌then◌else◌}
use dmarc_geeks.Common.Lists.{sum_by, take, drop}

module _ {ℓ} {A : Type ℓ} (before : A → A → Bool) where
  unfoldable pub insert : A → List A → List A
  insert x [] = x ∷ []
  insert x (y ∷ ys) = let rest = insert x ys in if before x y then x ∷ y ∷ ys else y ∷ rest

  unfoldable pub sorted : List A → List A
  unfolding insert
  sorted [] = []
  sorted (x ∷ xs) = insert x (sorted xs)

  sum_by-insert : (f : A → ℕ) (x : A) (xs : List A) → sum_by f (insert x xs) ≡ f x + sum_by f xs
  unfolding insert
  sum_by-insert f x [] = omega arith
  sum_by-insert f x (y ∷ ys) = ground (arith, sum_by-insert f x ys)

  pub sum_by-sorted : (f : A → ℕ) (xs : List A) → sum_by f (sorted xs) ≡ sum_by f xs
  unfolding sorted
  sum_by-sorted f [] = refl
  sum_by-sorted f (x ∷ xs) = omega (arith, sum_by-insert f x (sorted xs), sum_by-sorted f xs)

pub sum_by-take-drop {ℓ} :
    {A : Type ℓ} (f : A → ℕ) (n : ℕ) (xs : List A)
    → sum_by f (take n xs) + sum_by f (drop n xs) ≡ sum_by f xs
sum_by-take-drop f zero xs = omega arith
sum_by-take-drop f (suc n) [] = omega arith
sum_by-take-drop f (suc n) (x ∷ xs) = omega (arith, sum_by-take-drop f n xs)
