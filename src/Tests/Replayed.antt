-- ===== src/Tests/Replayed.antt =====
-- The theorem on replay support at a concrete input.
use sysrepo_cpp.Base.{◌≡◌, refl, ℕ, true, some, codes}
use sysrepo_cpp.Base.Int.{negsuc}
use sysrepo_cpp.Effects.{ok}
use sysrepo_cpp.Capi.{Sysrepo}
use sysrepo_cpp.Times.{to_timespec}
use sysrepo_cpp.Connections.{get_module_replay_support}
use sysrepo_cpp.Connections.Replay.{get_module_replay_support-to_timespec}
use sysrepo_cpp.Tests.{World, demo}
use sysrepo_cpp.Tests.Lives.{start}

-- The earliest notification is from a second and a half before the epoch.
abbrev early : Sysrepo World ℕ
early = record demo {
  sr_get_module_replay_support =
      λ c m w. ((0, record { tv_sec = negsuc 0; tv_nsec = negsuc 499_999_999 }, 1), w);
}

get_module_replay_support-to_timespec_example :
    get_module_replay_support early (record { ctx = 7 }) (codes "a") start
    ≡ (ok (record { enabled = true; earliest_notification = some (negsuc 1_499_999_999) }), start)
unfolding to_timespec
get_module_replay_support-to_timespec_example =
    get_module_replay_support-to_timespec early (record { ctx = 7 }) (codes "a")
      (negsuc 1_499_999_999) (record { tv_sec = negsuc 0; tv_nsec = negsuc 499_999_999 }) 1 start
      start refl refl refl
