-- ===== src/Times/RoundTrip.antt =====
-- What survives the conversions of time points, and when their result is a valid timespec.
use sysrepo_cpp.Base.{ℕ, ◌<◌, ◌%◌, ◌≡◌, ◌↔◌, ◌⊎◌, true, some, arith}
use sysrepo_cpp.Base.Int.{ℤ, pos, negsuc, fits_int64, pos_part, neg_part, ◌/ℤ◌, ◌-ℤ◌, ◌*ℤ◌}
use sysrepo_cpp.Times.{Timespec, to_timespec, to_time_point, nanos_per_second}

abbrev pub split_time : ℤ → Timespec
split_time t = record {
  tv_sec = t /ℤ nanos_per_second;
  tv_nsec = t -ℤ (t /ℤ nanos_per_second) *ℤ nanos_per_second;
}

-- No step of the conversion overflows.
pub to_timespec_fits : (t : ℤ) → fits_int64 t ≡ true → to_timespec t ≡ some (split_time t)
unfolding to_timespec
to_timespec_fits t h = ground arith

pub to_time_point-split_time : (t : ℤ) → fits_int64 t ≡ true → to_time_point (split_time t) ≡ some t
unfolding to_time_point
to_time_point-split_time (pos n) h = ground arith
to_time_point-split_time (negsuc n) h = ground arith

-- Every 64-bit time point, before the epoch too, is converted to a timespec without overflow, and
-- the timespec is converted back to the same time point, again without overflow.
pub to_time_point-to_timespec :
    (t : ℤ)
    → fits_int64 t ≡ true
    → (ts : Timespec) × (to_timespec t ≡ some ts) × (to_time_point ts ≡ some t)
to_time_point-to_timespec t h = (split_time t, to_timespec_fits t h, to_time_point-split_time t h)

-- What the system calls accept: nanoseconds from 0 up to a second.
abbrev pub IsNormal : Timespec → Type 0
IsNormal ts = (neg_part ts.tv_nsec ≡ 0) × (pos_part ts.tv_nsec < nanos_per_second)

split_time-IsNormal :
    (t : ℤ) → IsNormal (split_time t) ↔ ((neg_part t ≡ 0) ⊎ (neg_part t % nanos_per_second ≡ 0))
split_time-IsNormal (pos n) = (λ h. omega arith, λ h. ground arith)
split_time-IsNormal (negsuc n) = (λ h. ground arith, λ h. ground arith)

-- The timespec of a 64-bit time point has its nanoseconds between 0 and a second exactly when the
-- time point is not before the epoch or is a whole number of seconds.
pub to_timespec-IsNormal :
    (t : ℤ)
    → fits_int64 t ≡ true
    → (ts : Timespec) × (to_timespec t ≡ some ts)
      × (IsNormal ts ↔ ((neg_part t ≡ 0) ⊎ (neg_part t % nanos_per_second ≡ 0)))
to_timespec-IsNormal t h = (split_time t, to_timespec_fits t h, split_time-IsNormal t)

-- A normal timespec at or after the epoch, whose time point does not overflow, comes back from the
-- time point unchanged.
pub to_timespec-to_time_point :
    (sec nsec : ℕ) {t : ℤ}
    → nsec < nanos_per_second
    → to_time_point (record { tv_sec = pos sec; tv_nsec = pos nsec }) ≡ some t
    → to_timespec t ≡ some (record { tv_sec = pos sec; tv_nsec = pos nsec })
unfolding to_time_point to_timespec
to_timespec-to_time_point sec nsec lt h = ground arith
