-- ===== src/Enums/Flags.antt =====
-- The flag enumerations of include/sysrepo-cpp/Enum.hpp. Any combination of flags is a value, so a
-- value is its underlying number; `operator|` and `operator&` are the two templates.
pub mod Subscribe
pub mod Edit
pub mod Get
pub mod Connect
use Prim.Native.Nat.{bit_and, bit_or}
use sysrepo_cpp.Base.{ℕ, ◌≡◌, Bool, not, ◌||◌, arith, ◌==◌}
use sysrepo_cpp.Base.Bits.{bit_and-bit_or}

unfoldable pub enum_bit_or : ℕ → ℕ → ℕ
enum_bit_or a b = bit_or a b

-- The number `a & b`, converted to bool.
unfoldable pub enum_bit_and : ℕ → ℕ → Bool
enum_bit_and a b = not (bit_and a b == 0)

-- Whatever flags are asked for, a combination `a | b` has one of them exactly when `a` or `b` has.
pub enum_bit_and-enum_bit_or :
    (a b flags : ℕ)
    → enum_bit_and (enum_bit_or a b) flags ≡ (enum_bit_and a flags || enum_bit_and b flags)
unfolding enum_bit_and enum_bit_or
enum_bit_and-enum_bit_or a b flags = ground (arith, bit_and-bit_or a b flags)
