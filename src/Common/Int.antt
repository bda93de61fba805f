-- ===== src/Common/Int.antt =====
-- Signed integers over the native numbers, and Python's `int(s)` and `str(n)` on them.
use Prim.Native.Nat.{ℕ, zero, suc, ◌+◌, ◌-◌, ◌*◌, ◌/◌, ◌%◌}
use mathlib.Core.Bool.{Bool, true, false, ◌&&◌}
use mathlib.Core.Option.{Option, none, some}
use mathlib.Core.List.{[], ◌∷◌}
use mathlib.Core.Path.{◌≡◌}
use mathlib.Core.Logic.{◌↔◌}
use native.Mathlib.Omega.{arith}
use dmarc_geeks.Common.Tests.{leb, ltb, if◌then◌else◌, Eq, ◌==◌, nat_eq}
use dmarc_geeks.Common.Lists.{length, filter}
use dmarc_geeks.Common.Strings.{Text, strip}

-- `negsuc n` is -(n + 1).
pub data ℤ : Type 0 where
  pos : ℕ → ℤ
  negsuc : ℕ → ℤ

abbrev pub negate : ℕ → ℤ
negate zero = pos 0
negate (suc n) = negsuc n

abbrev pub lebℤ : ℤ → ℤ → Bool
lebℤ (pos a) (pos b) = leb a b
lebℤ (pos a) (negsuc b) = false
lebℤ (negsuc a) (pos b) = true
lebℤ (negsuc a) (negsuc b) = leb b a

unfoldable pub is_digit : ℕ → Bool
is_digit c = leb 48 c && leb c 57

-- Digits in groups that single underscores join; the flag tells that a digit came last.
int_digits : ℕ → Bool → Text → Option ℕ
unfolding is_digit
int_digits acc last [] = if last then some acc else none
int_digits acc last (c ∷ s) =
    let next = int_digits (acc * 10 + (c - 48)) true s in
    let joined = int_digits acc false s in
    if is_digit c then next else if c == b'_' && last then joined else none

-- CPython refuses more digits than this.
abbrev max_str_digits : ℕ
max_str_digits = 4300

unsigned : Text → Option ℕ
unfolding int_digits
unsigned s = if leb (length (filter is_digit s)) max_str_digits then int_digits 0 false s else none

signed : Text → Option ℤ
unfolding unsigned
signed [] = none
signed (c ∷ s) =
    if c == b'-'
    then (elim (unsigned s) [ none ↦ none | some n ↦ some (negate n) ])
    else if c == b'+'
    then (elim (unsigned s) [ none ↦ none | some n ↦ some (pos n) ])
    else elim (unsigned (c ∷ s)) [ none ↦ none | some n ↦ some (pos n) ]

-- `int(s)`, `none` for ValueError. Digits are the ASCII ones.
unfoldable pub int_of : Text → Option ℤ
unfolding signed strip
int_of s = signed (strip s)

-- The fuel `suc n` exceeds the number of digits.
show_from : ℕ → ℕ → Text → Text
show_from zero n acc = acc
show_from (suc f) n acc =
    let d = (48 + n % 10) ∷ acc in let rest = show_from f (n / 10) d in if ltb n 10 then d else rest

unfoldable pub show : ℕ → Text
unfolding show_from
show n = show_from (suc n) n []

unfoldable pub showℤ : ℤ → Text
unfolding show
showℤ (pos n) = show n
showℤ (negsuc n) = b'-' ∷ show (suc n)

unfoldable pub int_beq : ℤ → ℤ → Bool
int_beq (pos a) (pos b) = a == b
int_beq (negsuc a) (negsuc b) = a == b
int_beq _ _ = false

pub int_beq_iff : (a b : ℤ) → (int_beq a b ≡ true) ↔ (a ≡ b)
unfolding int_beq
int_beq_iff (pos a) (pos b) = (λ h. ground (arith, h), λ h. ground (arith, h))
int_beq_iff (pos a) (negsuc b) = (λ h. ground (arith, h), λ h. ground (arith, h))
int_beq_iff (negsuc a) (pos b) = (λ h. ground (arith, h), λ h. ground (arith, h))
int_beq_iff (negsuc a) (negsuc b) = (λ h. ground (arith, h), λ h. ground (arith, h))

instance abbrev pub int_eq : Eq ℤ
int_eq = record { beq = int_beq; beq_iff = int_beq_iff }
