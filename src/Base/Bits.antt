-- ===== src/Base/Bits.antt =====
-- The bitwise operations through their lowest binary digit, and the law that joins `or` with `and`.
use Prim.Native.Nat.{
  ℕ, zero, suc, ◌+◌, ◌*◌, ◌/◌, ◌%◌, ◌≤◌, min, max, bit_and, bit_or, digits, bit_and-bitwise,
  bit_or-bitwise,
}
use mathlib.Core.Path.{◌≡◌, refl}
use mathlib.Core.Bool.{◌&&◌}
use native.Mathlib.Omega.{arith}
use sysrepo_cpp.Base.Tests.{◌==◌}

-- Zero has no digits, however much fuel there is.
no_digits : (z : ℕ → ℕ) (f : ℕ → ℕ → ℕ) (fuel b : ℕ) → digits z f fuel zero b ≡ z b
no_digits z f zero b = refl
no_digits z f (suc fuel) b = refl

-- A number has fewer digits than it counts, so any two fuels from it on give the same.
settled :
    (z : ℕ → ℕ) (f : ℕ → ℕ → ℕ) (a b more less : ℕ)
    → a ≤ less
    → less ≤ more
    → digits z f more a b ≡ digits z f less a b
settled z f zero b more less low high = rw (no_digits z f more b, no_digits z f less b) refl
settled z f (suc a) b more zero low high = absurd (omega arith)
settled z f (suc a) b zero (suc less) low high = absurd (omega arith)
settled z f (suc a) b (suc more) (suc less) low high =
    let halves = settled z f (suc a / 2) (b / 2) more less (omega arith) (omega arith) in rw halves

bit_or_lowest : (a b : ℕ) → bit_or a b ≡ bit_or (a / 2) (b / 2) * 2 + max (a % 2) (b % 2)
bit_or_lowest zero b = omega (arith, bit_or-bitwise 0 b, bit_or-bitwise 0 (b / 2))
bit_or_lowest (suc a) b = omega (
  arith,
  bit_or-bitwise (suc a) b,
  bit_or-bitwise (suc a / 2) (b / 2),
  settled (λ y. y) max (suc a / 2) (b / 2) a (suc a / 2) (omega arith) (omega arith),
)

bit_and_lowest : (a b : ℕ) → bit_and a b ≡ bit_and (a / 2) (b / 2) * 2 + min (a % 2) (b % 2)
bit_and_lowest zero b = omega (arith, bit_and-bitwise 0 b, bit_and-bitwise 0 (b / 2))
bit_and_lowest (suc a) b = omega (
  arith,
  bit_and-bitwise (suc a) b,
  bit_and-bitwise (suc a / 2) (b / 2),
  settled (λ y. 0) min (suc a / 2) (b / 2) a (suc a / 2) (omega arith) (omega arith),
)

bit_and-zero_below : (n a : ℕ) → a ≤ n → bit_and a 0 ≡ 0
bit_and-zero_below n zero h = omega (arith, bit_and-bitwise 0 0)
bit_and-zero_below zero (suc a) h = absurd (omega arith)
bit_and-zero_below (suc n) (suc a) h =
    omega (arith, bit_and_lowest (suc a) 0, bit_and-zero_below n (suc a / 2) (omega arith))

bit_and-zero : (a : ℕ) → bit_and a 0 ≡ 0
bit_and-zero a = bit_and-zero_below a a (omega arith)

and_or_below :
    (n a b c : ℕ)
    → c ≤ n
    → (bit_and (bit_or a b) c == 0) ≡ ((bit_and a c == 0) && (bit_and b c == 0))
and_or_below n a b zero h =
    ground (arith, bit_and-zero (bit_or a b), bit_and-zero a, bit_and-zero b)
and_or_below zero a b (suc c) h = absurd (omega arith)
and_or_below (suc n) a b (suc c) h = ground (
  arith,
  bit_or_lowest a b,
  bit_and_lowest (bit_or a b) (suc c),
  bit_and_lowest a (suc c),
  bit_and_lowest b (suc c),
  and_or_below n (a / 2) (b / 2) (suc c / 2) (omega arith),
)

-- A mask meets `a | b` unless it misses both.
pub bit_and-bit_or :
    (a b c : ℕ) → (bit_and (bit_or a b) c == 0) ≡ ((bit_and a c == 0) && (bit_and b c == 0))
bit_and-bit_or a b c = and_or_below c a b c (omega arith)
