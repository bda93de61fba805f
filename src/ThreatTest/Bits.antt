-- ===== src/ThreatTest/Bits.antt =====
-- Exclusive or, digit by digit: it undoes itself and stays within the bits of its arguments.
use Prim.Native.Nat.{bit_xor, bit_xor-bitwise, digits, differ}
use native.Mathlib.Nat.{pow-suc}
use dmarc_geeks.Common.{ap, arith, refl, suc, zero, ℕ, ◌%◌, ◌*◌, ◌+◌, ◌/◌, ◌<◌, ◌^◌, ◌≡◌, ◌≤◌}

-- The recursion on the digits does not depend on its fuel.
xor_fuel :
    (a b n m : ℕ) → a ≤ n → a ≤ m → digits (λ x. x) differ n a b ≡ digits (λ x. x) differ m a b
xor_fuel a b zero zero h k = refl
xor_fuel zero b zero (suc m) h k = refl
xor_fuel zero b (suc n) zero h k = refl
xor_fuel zero b (suc n) (suc m) h k = refl
xor_fuel (suc a) b zero m h k = absurd (omega arith)
xor_fuel (suc a) b (suc n) zero h k = absurd (omega arith)
xor_fuel (suc a) b (suc n) (suc m) h k =
    ap (λ d. d * 2 + differ (suc a % 2) (b % 2))
      (xor_fuel (suc a / 2) (b / 2) n m (omega arith) (omega arith))

xor_halves : (a b : ℕ) → bit_xor a b ≡ bit_xor (a / 2) (b / 2) * 2 + differ (a % 2) (b % 2)
xor_halves zero b = simp bit_xor-bitwise (omega arith)
xor_halves (suc a) b = simp bit_xor-bitwise (
    ap (λ d. d * 2 + differ (suc a % 2) (b % 2))
      (xor_fuel (suc a / 2) (b / 2) a (suc a / 2) (omega arith) (omega arith)))

differ_twice : (x y : ℕ) → x < 2 → y < 2 → (differ (differ x y) y ≡ x) × (differ x y < 2)
differ_twice zero zero h k = (refl, omega arith)
differ_twice zero (suc zero) h k = (refl, omega arith)
differ_twice (suc zero) zero h k = (refl, omega arith)
differ_twice (suc zero) (suc zero) h k = (refl, omega arith)
differ_twice (suc (suc x)) y h k = absurd (omega arith)
differ_twice x (suc (suc y)) h k = absurd (omega arith)

half_of : (n x d : ℕ) → n ≡ x * 2 + d → d < 2 → n / 2 ≡ x
half_of n x d e h = omega (arith, e, h)

low_of : (n x d : ℕ) → n ≡ x * 2 + d → d < 2 → n % 2 ≡ d
low_of n x d e h = omega (arith, e, h)

-- What exclusive or gives on numbers of `k` bits.
record IsUndone (k a b : ℕ) : Type 0 where
  undone : bit_xor (bit_xor a b) b ≡ a
  fits : bit_xor a b < 2 ^ k

xor-xor : (k a b : ℕ) → a < 2 ^ k → b < 2 ^ k → IsUndone k a b
xor-xor zero zero zero h l = record { undone = refl; fits = omega arith }
xor-xor zero (suc a) b h l = absurd (omega arith)
xor-xor zero a (suc b) h l = absurd (omega arith)
xor-xor (suc k) a b h l =
    let two = pow-suc 2 k in
    let ih = xor-xor k (a / 2) (b / 2) (omega (arith, h, two)) (omega (arith, l, two)) in
    let digit = differ_twice (a % 2) (b % 2) (omega arith) (omega arith) in
    let once = xor_halves a b in
    let twice = xor_halves (bit_xor a b) b in
    let half = half_of (bit_xor a b) _ _ once digit.1 in
    let low = low_of (bit_xor a b) _ _ once digit.1 in
    record {
      undone = ground (arith, twice, half, low, ih.undone, digit.0);
      fits = omega (arith, once, ih.fits, digit.1, two);
    }

-- A byte that is combined with the same byte twice is the first one again.
pub xor_byte_twice : (a b : ℕ) → a < 256 → b < 256 → bit_xor (bit_xor a b) b ≡ a
xor_byte_twice a b h l = (xor-xor 8 a b h l).undone

pub xor_byte_fits : (a b : ℕ) → a < 256 → b < 256 → bit_xor a b < 256
xor_byte_fits a b h l = (xor-xor 8 a b h l).fits
