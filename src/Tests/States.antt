-- ===== src/Tests/States.antt =====
-- The theorems on enumerations, times, locks and subscriptions at concrete inputs.
use sysrepo_cpp.Base.{ℕ, ◌%◌, ◌≡◌, ◌↔◌, ◌⊎◌, refl, Option, none, some, codes, arith, []}
use sysrepo_cpp.Base.Int.{negsuc, neg_part}
use sysrepo_cpp.Effects.{Eff, ok}
use sysrepo_cpp.Enums.Kinds.{as_datastore}
use sysrepo_cpp.Times.{to_time_point, Timespec, to_timespec}
use sysrepo_cpp.Enums.Codes.{ErrorCode, as_error_code}
use sysrepo_cpp.Enums.Names.{stringify_injective}
use sysrepo_cpp.Times.RoundTrip.{to_time_point-to_timespec, IsNormal, to_timespec-IsNormal}
use sysrepo_cpp.Errors.{throw_if_error, throw_if_error_bare}
use sysrepo_cpp.Handles.{Session}
use sysrepo_cpp.Locks.{Lock, acquire, release}
use sysrepo_cpp.Locks.Restoring.{unlocking, release-acquire}
use sysrepo_cpp.Subscriptions.Actions.{module_change}
use sysrepo_cpp.Subscriptions.{
  emplace_back, save_context, event_pipe, Object, FdHandling, construct, subscribe_with,
}
use sysrepo_cpp.Subscriptions.Safety.{IsValid, construct-IsValid}
use sysrepo_cpp.Subscriptions.Subscribing.{Extends, subscribe_with-IsValid}
use sysrepo_cpp.Subscriptions.Lifecycle.{destroy}
use sysrepo_cpp.Subscriptions.Quiet.{Quiet}
use sysrepo_cpp.Subscriptions.Returning.{destroy_returns}
use sysrepo_cpp.Tests.{World, demo, context_of}

stringify_injective_example : as_error_code 77 ≡ ErrorCode.unnamed 77
unfolding as_error_code
stringify_injective_example = stringify_injective (as_error_code 77) (ErrorCode.unnamed 77) refl

to_time_point-to_timespec_example :
    (ts : Timespec) × (to_timespec (negsuc 1_499_999_999) ≡ some ts)
    × (to_time_point ts ≡ some (negsuc 1_499_999_999))
to_time_point-to_timespec_example = to_time_point-to_timespec (negsuc 1_499_999_999) refl

to_timespec-IsNormal_example :
    (ts : Timespec) × (to_timespec (negsuc 1_499_999_999) ≡ some ts)
    × (IsNormal ts ↔ (
        (neg_part (negsuc 1_499_999_999) ≡ 0)
        ⊎ (neg_part (negsuc 1_499_999_999) % 1_000_000_000 ≡ 0)))
to_timespec-IsNormal_example = to_timespec-IsNormal (negsuc 1_499_999_999) refl

abbrev session : Session
session = record { m_conn = 7; m_sess = 8 }

abbrev callbacks : Option ℕ
callbacks = some 4

-- The lock is taken in the running datastore and destroyed while another one is active.
abbrev lock : Lock
lock = record { m_session = session; m_locked_ds = as_datastore 1; m_module = none }

abbrev at_ds : ℕ → World
at_ds ds = record { ds = ds; pending = []; last = 5; locks = 0; tree = none }

release-acquire_example :
    ((unlocking demo lock (at_ds 2)).ds ≡ 1)
    × ((release demo lock (at_ds 2)).1.ds ≡ 2)
    × ((release demo lock (at_ds 2)).0 ≡ ok tt)
unfolding acquire throw_if_error
release-acquire_example =
    release-acquire demo session none none lock (at_ds 1) (record (at_ds 1) { locks = 1 }) (at_ds 2)
      (λ s ds w. refl) refl

abbrev polling : FdHandling World
polling = record { register_fd = λ fd process w. (ok tt, w); unregister_fd = λ fd w. (ok tt, w) }

abbrev fresh : Object World
fresh = construct 8 (some polling) (at_ds 1)

abbrev accepting : ℕ → ℕ → Option ℕ → Eff World (ℕ × ℕ)
accepting sess priv ctx w = (ok (0, context_of ctx), w)

accepting-Extends : Extends accepting
accepting-Extends sess priv ctx w got r zero = ground arith

subscribe_with-IsValid_example :
    IsValid
      (subscribe_with demo
        (record { kind = module_change; callback = 3 })
        module_change
        accepting
        (codes "Couldn't")
        fresh).1
subscribe_with-IsValid_example =
    subscribe_with-IsValid demo (record { kind = module_change; callback = 3 }) module_change
      accepting (codes "Couldn't") fresh accepting-Extends
      (construct-IsValid 8 (some polling) (at_ds 1))

abbrev subscribed : Object World
subscribed =
    (subscribe_with demo (record { kind = module_change; callback = 3 }) module_change accepting
      (codes "Couldn't") fresh).1

destroy_returns_example :
    ((destroy demo subscribed).0 ≡ ok tt) × Quiet (destroy demo subscribed).1.log
unfolding subscribe_with emplace_back save_context event_pipe throw_if_error throw_if_error_bare
    construct
destroy_returns_example =
    destroy_returns demo subscribed
      (subscribe_with-IsValid demo (record { kind = module_change; callback = 3 }) module_change
        accepting (codes "Couldn't") fresh accepting-Extends
        (construct-IsValid 8 (some polling) (at_ds 1)))
      (λ ctx w. refl) (λ pipe w. refl)
