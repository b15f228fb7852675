-- ===== src/Connections/Replay.antt =====
-- The time of the earliest notification that Connection::getModuleReplaySupport returns.
use sysrepo_cpp.Base.{ℕ, ◌≡◌, ◌&&◌, not, Bool, true, none, some, Text, arith, ◌==◌, if◌then◌else◌}
use sysrepo_cpp.Base.Int.{ℤ, pos, negsuc, fits_int64}
use sysrepo_cpp.Times.{Timespec, to_timespec}
use sysrepo_cpp.Times.RoundTrip.{split_time, to_timespec_fits, to_time_point-split_time}
use sysrepo_cpp.Effects.{ok, c_str}
use sysrepo_cpp.Capi.{Sysrepo}
use sysrepo_cpp.Errors.{throw_if_error_bare}
use sysrepo_cpp.Handles.{Connection}
use sysrepo_cpp.Connections.{is_zero, replay_support, get_module_replay_support}

-- Only the epoch has no seconds and no nanoseconds.
split_time_zero :
    (t : ℤ) → (is_zero (split_time t).tv_sec && is_zero (split_time t).tv_nsec) ≡ is_zero t
split_time_zero (pos n) = ground arith
split_time_zero (negsuc n) = ground arith

replay_support-split_time :
    {W : Type 0} (t : ℤ) (enabled : Bool) (w : W)
    → fits_int64 t ≡ true
    → replay_support (split_time t) enabled w ≡ (
      ok (record { enabled = enabled; earliest_notification = if is_zero t then none else some t }),
      w,
    )
unfolding replay_support
replay_support-split_time t enabled w fits =
    rw (split_time_zero t, to_time_point-split_time t fits) (ground arith)

same_timespec :
    (t : ℤ) (ts : Timespec) → fits_int64 t ≡ true → to_timespec t ≡ some ts → split_time t ≡ ts
same_timespec t ts fits e = cc (to_timespec_fits t fits)

module _ {W Node : Type 0} (api : Sysrepo W Node) where
  -- Let the C library return OK and hand over the timespec of a 64-bit time point, which toTimespec
  -- gives. Then getModuleReplaySupport returns that very time point, before the epoch too, and none
  -- for the epoch itself; and it returns whether the flag is not zero. Nothing overflows.
  pub get_module_replay_support-to_timespec :
      (conn : Connection) (module_name : Text) (t : ℤ) (earliest : Timespec) (flag : ℕ) (w w' : W)
      → fits_int64 t ≡ true
      → to_timespec t ≡ some earliest
      → api.sr_get_module_replay_support conn.ctx (c_str module_name) w ≡ ((0, earliest, flag), w')
      → get_module_replay_support api conn module_name w ≡ (
        ok (record {
          enabled = not (flag == 0);
          earliest_notification = if is_zero t then none else some t;
        }),
        w',
      )
  unfolding get_module_replay_support throw_if_error_bare
  get_module_replay_support-to_timespec conn module_name t earliest flag w w' fits e got =
      rw (got, ← same_timespec t earliest fits e)
        (replay_support-split_time t (not (flag == 0)) w' fits)
