-- ===== src/Times.antt =====
-- The conversions between std::chrono time points and std::timespec of src/utils/utils.cpp.
pub mod RoundTrip
use sysrepo_cpp.Base.{ℕ, Option, none, some}
use sysrepo_cpp.Base.Int.{ℤ, ◌+ℤ◌, ◌-ℤ◌, ◌*ℤ◌, ◌/ℤ◌, checked}

-- std::timespec: whole seconds and nanoseconds.
pub record Timespec : Type 0 where
  pub tv_sec : ℤ
  pub tv_nsec : ℤ

abbrev pub nanos_per_second : ℕ
nanos_per_second = 1_000_000_000

-- A signed 64-bit operation on a value that may already have overflowed.
abbrev pub then_checked : Option ℤ → (ℤ → ℤ) → Option ℤ
then_checked none f = none
then_checked (some a) f = checked (f a)

abbrev pub with_seconds : ℤ → Option ℤ → Option Timespec
with_seconds secs none = none
with_seconds secs (some ns) = some (record { tv_sec = secs; tv_nsec = ns })

-- A time point is its count of nanoseconds since the epoch. `none` stands for a signed overflow.
unfoldable pub to_timespec : ℤ → Option Timespec
to_timespec tp =
    let secs = tp /ℤ nanos_per_second in
    with_seconds secs (then_checked (checked (secs *ℤ nanos_per_second)) (λ back. tp -ℤ back))

unfoldable pub to_time_point : Timespec → Option ℤ
to_time_point ts =
    then_checked (checked (ts.tv_sec *ℤ nanos_per_second)) (λ whole. whole +ℤ ts.tv_nsec)
