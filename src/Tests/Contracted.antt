-- ===== src/Tests/Contracted.antt =====
-- The theorems on the contract of a Subscription at concrete objects.
use sysrepo_cpp.Base.{◌≡◌, ℕ, refl, true, [], ◌∷◌, none, some, codes}
use sysrepo_cpp.Base.Int.{pos}
use sysrepo_cpp.Enums.Flags.Subscribe.{default}
use sysrepo_cpp.Subscriptions.Actions.{module_change, oper_get, rpc_action, notification}
use sysrepo_cpp.Subscriptions.Methods.{
  on_module_change, on_oper_get, on_rpc_action, on_notification,
}
use sysrepo_cpp.Subscriptions.Moving.{moved}
use sysrepo_cpp.Subscriptions.Contract.{Refines, view, methods_lem}
use sysrepo_cpp.Tests.{World, demo}
use sysrepo_cpp.Subscriptions.Defaults.{
  Yields, session_on_module_change_default, session_on_oper_get_default,
  session_on_rpc_action_default, session_on_notification_default, session_defaults_lem,
}
use sysrepo_cpp.Subscriptions.Unpiped.{session_without_pipe}
use sysrepo_cpp.Subscriptions.Lifecycle.{
  session_on_module_change, session_on_oper_get, session_on_rpc_action, session_on_notification,
}
use sysrepo_cpp.Enums.Flags.{enum_bit_and}
use sysrepo_cpp.Enums.Flags.Subscribe.{no_thread}
use sysrepo_cpp.Effects.{terminated}
use sysrepo_cpp.Capi.{Sysrepo}
use sysrepo_cpp.Tests.Lives.{target, start, polling}

methods_lem_example :
    Refines demo
      (record { kind = module_change; callback = 7 })
      true
      (record { kind = module_change; callback = 3 } ∷ [])
      (on_module_change demo (codes "a") 7 none 0 default target)
    × Refines demo
        (record { kind = oper_get; callback = 7 })
        true
        (record { kind = module_change; callback = 3 } ∷ [])
        (on_oper_get demo (codes "a") 7 none default target)
    × Refines demo
        (record { kind = rpc_action; callback = 7 })
        true
        (record { kind = module_change; callback = 3 } ∷ [])
        (on_rpc_action demo (codes "a") 7 0 default target)
    × Refines demo
        (record { kind = notification; callback = 7 })
        true
        (record { kind = module_change; callback = 3 } ∷ [])
        (on_notification demo (codes "a") 7 none (some (pos 5)) none default target)
    × (view (moved demo target) ≡ record { kind = module_change; callback = 3 } ∷ [])
methods_lem_example = methods_lem demo (codes "a") 7 none 0 (some (pos 5)) none default target

session_defaults_lem_example :
    Yields demo
      (record { kind = module_change; callback = 7 })
      40
      start
      (session_on_module_change_default demo 8 (codes "a") 7 none start)
    × Yields demo
        (record { kind = oper_get; callback = 7 })
        40
        start
        (session_on_oper_get_default demo 8 (codes "a") 7 none start)
    × Yields demo
        (record { kind = rpc_action; callback = 7 })
        40
        start
        (session_on_rpc_action_default demo 8 (codes "a") 7 start)
    × Yields demo
        (record { kind = notification; callback = 7 })
        40
        start
        (session_on_notification_default demo 8 (codes "a") 7 none start)
session_defaults_lem_example =
    session_defaults_lem demo 8 (codes "a") 7 none 40 40 40 40 start start start start start refl
      refl refl refl

abbrev unpiped : Sysrepo World ℕ
unpiped = record demo { sr_get_event_pipe = λ ctx w. ((7, 0), w) }

session_without_pipe_example :
    ((session_on_module_change unpiped 8 (codes "a") 7 none 0 no_thread (some polling) start).0
      ≡ terminated)
    × ((session_on_oper_get unpiped 8 (codes "a") 7 none no_thread (some polling) start).0
        ≡ terminated)
    × ((session_on_rpc_action unpiped 8 (codes "a") 7 0 no_thread (some polling) start).0
        ≡ terminated)
    × ((session_on_notification unpiped 8
          (codes "a")
          7
          none
          none
          none
          no_thread
          (some polling)
          start).0
        ≡ terminated)
unfolding enum_bit_and
session_without_pipe_example =
    session_without_pipe unpiped 8 (codes "a") 7 none 0 none none no_thread polling 40 start start
      start start start refl (λ w. refl) refl refl refl refl
