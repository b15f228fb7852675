-- ===== src/Subscriptions/Methods.antt =====
-- The four subscribing methods of the class Subscription.
use sysrepo_cpp.Base.{ℕ, Option, none, some, Text, codes}
use sysrepo_cpp.Base.Int.{ℤ}
use sysrepo_cpp.Times.{Timespec, to_timespec}
use sysrepo_cpp.Effects.{Eff, pure, call, dereference, c_str, c_str_or_null, ◌>>=◌, ◌>>◌}
use sysrepo_cpp.Enums.Flags.Subscribe.{SubscribeOptions}
use sysrepo_cpp.Options.{check_no_thread_flag}
use sysrepo_cpp.Capi.{Sysrepo}
use sysrepo_cpp.Subscriptions.Actions.{
  CallbackKind, PrivData, module_change, oper_get, rpc_action, notification,
}
use sysrepo_cpp.Enums.Flags.Subscribe.{to_subscribe_options}
use sysrepo_cpp.Subscriptions.{Object, subscribe_with}

module _ {W Node : Type 0} (api : Sysrepo W Node) where
  -- The beginning and the rest of each of them.
  unfoldable pub checked_subscribe :
      SubscribeOptions
      → PrivData
      → CallbackKind
      → (ℕ → ℕ → Option ℕ → Eff W (ℕ × ℕ))
      → Text
      → Eff (Object W) (Unit {0})
  checked_subscribe opts p trampoline subscribe msg o =
      (do
        check_no_thread_flag opts o.self.custom_event_loop_cbs
        subscribe_with api p trampoline subscribe msg)
        o

  abbrev pub module_change_call :
      Text → Option Text → ℕ → SubscribeOptions → ℕ → ℕ → Option ℕ → Eff W (ℕ × ℕ)
  module_change_call module_name xpath priority opts sess priv ctx = call (
      api.sr_module_change_subscribe sess (c_str module_name) (c_str_or_null xpath) priv priority
        (to_subscribe_options opts) ctx)

  -- Subscription::onModuleChange
  unfoldable pub on_module_change :
      Text → ℕ → Option Text → ℕ → SubscribeOptions → Eff (Object W) (Unit {0})
  on_module_change module_name cb xpath priority opts =
      checked_subscribe opts (record { kind = module_change; callback = cb }) module_change
        (module_change_call module_name xpath priority opts)
        (codes "Couldn't create module change subscription")

  abbrev pub oper_get_call :
      Text → Option Text → SubscribeOptions → ℕ → ℕ → Option ℕ → Eff W (ℕ × ℕ)
  oper_get_call module_name xpath opts sess priv ctx = call (
      api.sr_oper_get_subscribe sess (c_str module_name) (c_str_or_null xpath) priv
        (to_subscribe_options opts) ctx)

  -- Subscription::onOperGet
  unfoldable pub on_oper_get : Text → ℕ → Option Text → SubscribeOptions → Eff (Object W) (Unit {0})
  on_oper_get module_name cb xpath opts =
      checked_subscribe opts (record { kind = oper_get; callback = cb }) oper_get
        (oper_get_call module_name xpath opts)
        (codes "Couldn't create operational get items subscription")

  abbrev pub rpc_action_call : Text → ℕ → SubscribeOptions → ℕ → ℕ → Option ℕ → Eff W (ℕ × ℕ)
  rpc_action_call xpath priority opts sess priv ctx =
      call
        (api.sr_rpc_subscribe_tree sess (c_str xpath) priv priority (to_subscribe_options opts) ctx)

  -- Subscription::onRPCAction
  unfoldable pub on_rpc_action : Text → ℕ → ℕ → SubscribeOptions → Eff (Object W) (Unit {0})
  on_rpc_action xpath cb priority opts =
      checked_subscribe opts (record { kind = rpc_action; callback = cb }) rpc_action
        (rpc_action_call xpath priority opts) (codes "Couldn't create RPC/action subscription")

  abbrev pub spec_of : Option ℤ → Eff W (Option Timespec)
  spec_of none = pure none
  spec_of (some t) = do spec ← dereference (to_timespec t); pure (some spec)

  abbrev pub notification_call :
      Text → Option Text → Option ℤ → Option ℤ → SubscribeOptions → ℕ → ℕ → Option ℕ → Eff W (ℕ × ℕ)
  notification_call module_name xpath start_time stop_time opts sess priv ctx = do
    start_spec ← spec_of start_time
    stop_spec ← spec_of stop_time
    call (
        api.sr_notif_subscribe_tree sess (c_str module_name) (c_str_or_null xpath) start_spec
          stop_spec priv (to_subscribe_options opts) ctx)

  -- Subscription::onNotification
  unfoldable pub on_notification :
      Text → ℕ → Option Text → Option ℤ → Option ℤ → SubscribeOptions → Eff (Object W) (Unit {0})
  on_notification module_name cb xpath start_time stop_time opts =
      checked_subscribe opts (record { kind = notification; callback = cb }) notification
        (notification_call module_name xpath start_time stop_time opts)
        (codes "Couldn't create notification subscription")
