-- ===== src/Common/Tally.antt =====
-- Dicts that a loop adds to: `b = d.setdefault(k, init)` and a change of `b`.
use Prim.Native.Nat.{ℕ, ◌+◌}
use mathlib.Core.Bool.{Bool, true, false}
use mathlib.Core.Path.{◌≡◌, refl}
use mathlib.Core.List.{List, [], ◌∷◌}
use native.Mathlib.Omega.{arith}
use dmarc_geeks.Common.Tests.{if◌then◌else◌, Eq, ◌==◌}
use dmarc_geeks.Common.Lists.{sum_by}

module _ {ℓ κ} {K : Type ℓ} {V : Type κ} ⦃e : Eq K⦄ where
  unfoldable pub bump : K → V → (V → V) → List (K × V) → List (K × V)
  bump k init f [] = (k, f init) ∷ []
  bump k init f ((j, v) ∷ m) =
      let rest = bump k init f m in if j == k then (j, f v) ∷ m else (j, v) ∷ rest

  -- What the change adds to the value of its key it adds to the sum.
  pub sum_by-bump :
      (g : V → ℕ) (k : K) (init : V) (f : V → V) (n : ℕ) (m : List (K × V))
      → g init ≡ 0
      → ((v : V) → g (f v) ≡ g v + n)
      → sum_by (λ (p : K × V). g p.1) (bump k init f m) ≡ sum_by (λ (p : K × V). g p.1) m + n
  unfolding bump
  sum_by-bump g k init f n [] z h = omega (arith, z, h init)
  sum_by-bump g k init f n ((j, v) ∷ m) z h = ground (arith, h v, sum_by-bump g k init f n m z h)

module _ {ℓ κ ι} {R : Type ι} {K : Type ℓ} {V : Type κ} ⦃e : Eq K⦄ (key : R → K) (init : R → V)
    (change : R → V → V) where
  -- The loop over the rows.
  unfoldable pub tally : List R → List (K × V) → List (K × V)
  unfolding bump
  tally [] m = m
  tally (r ∷ rs) m = tally rs (bump (key r) (init r) (change r) m)

  pub sum_by-tally :
      (g : V → ℕ) (w : R → ℕ)
      → ((r : R) → g (init r) ≡ 0)
      → ((r : R) (v : V) → g (change r v) ≡ g v + w r)
      → (rs : List R) (m : List (K × V))
      → sum_by (λ (p : K × V). g p.1) (tally rs m) ≡ sum_by (λ (p : K × V). g p.1) m + sum_by w rs
  unfolding tally
  sum_by-tally g w z h [] m = omega arith
  sum_by-tally g w z h (r ∷ rs) m = omega (
    arith,
    sum_by-tally g w z h rs (bump (key r) (init r) (change r) m),
    sum_by-bump g (key r) (init r) (change r) (w r) m (z r) (h r),
  )

-- Sums over the values of the keys that `t` selects.
module _ {ℓ} {K : Type ℓ} ⦃e : Eq K⦄ (t : K → Bool) where
  abbrev pub sum_at : List (K × ℕ) → ℕ
  sum_at m = sum_by (λ (p : K × ℕ). if t p.0 then p.1 else 0) m

  sum_at-bump :
      (k : K) (n : ℕ) (m : List (K × ℕ))
      → sum_at (bump k 0 (λ v. v + n) m) ≡ sum_at m + (if t k then n else 0)
  unfolding bump
  sum_at-bump k n [] = ground arith
  sum_at-bump k n ((j, v) ∷ m) = by_key (j == k) refl (sum_at-bump k n m)
    where
      by_key :
          (b : Bool)
          → (j == k) ≡ b
          → sum_at (bump k 0 (λ v. v + n) m) ≡ sum_at m + (if t k then n else 0)
          → sum_at (bump k 0 (λ v. v + n) ((j, v) ∷ m))
            ≡ sum_at ((j, v) ∷ m) + (if t k then n else 0)
      by_key true h ih = rw (h, (e.beq_iff j k).0 h) (ground arith)
      by_key false h ih = rw h (omega (arith, ih))

module _ {ℓ ι} {R : Type ι} {K : Type ℓ} ⦃e : Eq K⦄ (t : K → Bool) where
  pub sum_at-tally :
      (key : R → K) (w : R → ℕ) (rs : List R) (m : List (K × ℕ))
      → sum_at t (tally key (λ r. 0) (λ r v. v + w r) rs m)
        ≡ sum_at t m + sum_by (λ r. if t (key r) then w r else 0) rs
  unfolding tally
  sum_at-tally key w [] m = omega arith
  sum_at-tally key w (r ∷ rs) m = omega (
    arith,
    sum_at-tally key w rs (bump (key r) 0 (λ v. v + w r) m),
    sum_at-bump t (key r) (w r) m,
  )
