-- ===== src/Base/Int.antt =====
-- Signed integers over the native numbers, and the range of a 64-bit one.
use Prim.Native.Nat.{ℕ, suc, ◌+◌, ◌-◌, ◌*◌, ◌/◌, ◌^◌}
use mathlib.Core.Bool.{Bool, ◌&&◌}
use mathlib.Core.Option.{Option, none, some}
use sysrepo_cpp.Base.Tests.{ltb, leb, if◌then◌else◌}

-- `negsuc n` is -(n + 1).
pub data ℤ : Type 0 where
  pos : ℕ → ℤ
  negsuc : ℕ → ℤ

abbrev pub pos_part : ℤ → ℕ
pos_part (pos n) = n
pos_part (negsuc n) = 0

abbrev pub neg_part : ℤ → ℕ
neg_part (pos n) = 0
neg_part (negsuc n) = suc n

-- a - b, as an integer.
abbrev pub sub_ℕ : ℕ → ℕ → ℤ
sub_ℕ a b = if leb b a then pos (a - b) else negsuc (b - a - 1)

infixl 65 ◌+ℤ◌ ◌-ℤ◌
infixl 70 ◌*ℤ◌ ◌/ℤ◌
abbrev pub ◌+ℤ◌ : ℤ → ℤ → ℤ
a +ℤ b = sub_ℕ (pos_part a + pos_part b) (neg_part a + neg_part b)

abbrev pub ◌-ℤ◌ : ℤ → ℤ → ℤ
a -ℤ b = sub_ℕ (pos_part a + neg_part b) (neg_part a + pos_part b)

-- The product with a number that is not negative.
abbrev pub ◌*ℤ◌ : ℤ → ℕ → ℤ
a *ℤ k = sub_ℕ (pos_part a * k) (neg_part a * k)

-- The quotient by a number, rounded towards zero, as C++ divides integers.
abbrev pub ◌/ℤ◌ : ℤ → ℕ → ℤ
a /ℤ k = sub_ℕ (pos_part a / k) (neg_part a / k)

-- The values of an int64_t.
abbrev pub fits_int64 : ℤ → Bool
fits_int64 a = ltb (pos_part a) (2 ^ 63) && leb (neg_part a) (2 ^ 63)

-- The result of a signed 64-bit operation; `none` where it overflows, which is undefined.
abbrev pub checked : ℤ → Option ℤ
checked a = if fits_int64 a then some a else none
