-- ===== src/Subscriptions/Unpiped.antt =====
-- A Subscription whose context has no event pipe.
use sysrepo_cpp.Base.{ℕ, ◌≡◌, refl, true, false, Option, some, none, Text, ◌==◌}
use sysrepo_cpp.Base.Int.{ℤ}
use sysrepo_cpp.Effects.{Eff, ok, terminated}
use sysrepo_cpp.Enums.Flags.{enum_bit_and}
use sysrepo_cpp.Enums.Flags.Subscribe.{SubscribeOptions, no_thread}
use sysrepo_cpp.Options.{check_no_thread_flag}
use sysrepo_cpp.Capi.{Sysrepo}
use sysrepo_cpp.Errors.{throw_if_error, throw_if_error_bare}
use sysrepo_cpp.Subscriptions.Actions.{
  CallbackKind, module_change, oper_get, rpc_action, notification,
}
use sysrepo_cpp.Subscriptions.{
  FdHandling, construct, save_context, emplace_back, subscribe_with, event_pipe,
}
use sysrepo_cpp.Subscriptions.Methods.{
  checked_subscribe, module_change_call, oper_get_call, rpc_action_call, notification_call,
  on_notification, on_module_change, on_oper_get, on_rpc_action,
}
use sysrepo_cpp.Subscriptions.Lifecycle.{
  subscribe_new, session_on_module_change, session_on_oper_get, session_on_rpc_action,
  session_on_notification, destroy, destructor_body, leave_loop,
}

module _ {W Node : Type 0} (api : Sysrepo W Node) where
  -- sr_get_event_pipe fails for the context, in every state.
  abbrev pub HasNoPipe : ℕ → Type 0
  HasNoPipe ctx = (w : W) → ((api.sr_get_event_pipe ctx w).0.0 == 0) ≡ false

  subscribe_new-terminated :
      (kind : CallbackKind) (cb : ℕ) (subscribe : ℕ → ℕ → Option ℕ → Eff W (ℕ × ℕ)) (msg : Text)
      (sess ctx : ℕ) (opts : SubscribeOptions) (fd : FdHandling W) (w w' : W)
      → enum_bit_and opts no_thread ≡ true
      → HasNoPipe ctx
      → subscribe sess 1 none w ≡ (ok (0, ctx), w')
      → (subscribe_new api sess opts
          (some fd)
          (checked_subscribe api opts (record { kind = kind; callback = cb }) kind subscribe msg)
          w).0
        ≡ terminated
  unfolding checked_subscribe subscribe_with emplace_back save_context construct
      check_no_thread_flag throw_if_error event_pipe throw_if_error_bare destroy destructor_body
      leave_loop
  subscribe_new-terminated module_change cb subscribe msg sess ctx opts fd w w' flag no_pipe e =
      rw (flag, e, no_pipe) (rw no_pipe refl)
  subscribe_new-terminated oper_get cb subscribe msg sess ctx opts fd w w' flag no_pipe e =
      rw (flag, e, no_pipe) (rw no_pipe refl)
  subscribe_new-terminated rpc_action cb subscribe msg sess ctx opts fd w w' flag no_pipe e =
      rw (flag, e, no_pipe) (rw no_pipe refl)
  subscribe_new-terminated notification cb subscribe msg sess ctx opts fd w w' flag no_pipe e =
      rw (flag, e, no_pipe) (rw no_pipe refl)

  -- Let a method of Session that subscribes be called with an event loop and with the flag
  -- NoThread, let the C library accept the subscription in a new context, and let sr_get_event_pipe
  -- fail for that context in every state. Then the method neither returns nor throws: while its
  -- exception destroys the Subscription, the destructor asks for the event pipe once more, and its
  -- own exception ends the process.
  pub session_without_pipe :
      (sess : ℕ) (name : Text) (cb : ℕ) (xpath : Option Text) (prio : ℕ) (start stop : Option ℤ)
      (opts : SubscribeOptions) (fd : FdHandling W) (ctx : ℕ) (w w1 w2 w3 w4 : W)
      → enum_bit_and opts no_thread ≡ true
      → HasNoPipe ctx
      → module_change_call api name xpath prio opts sess 1 none w ≡ (ok (0, ctx), w1)
      → oper_get_call api name xpath opts sess 1 none w ≡ (ok (0, ctx), w2)
      → rpc_action_call api name prio opts sess 1 none w ≡ (ok (0, ctx), w3)
      → notification_call api name xpath start stop opts sess 1 none w ≡ (ok (0, ctx), w4)
      → ((session_on_module_change api sess name cb xpath prio opts (some fd) w).0 ≡ terminated)
        × ((session_on_oper_get api sess name cb xpath opts (some fd) w).0 ≡ terminated)
        × ((session_on_rpc_action api sess name cb prio opts (some fd) w).0 ≡ terminated)
        × ((session_on_notification api sess name cb xpath start stop opts (some fd) w).0
            ≡ terminated)
  unfolding session_on_module_change session_on_oper_get session_on_rpc_action
      session_on_notification on_module_change on_oper_get on_rpc_action on_notification
  session_without_pipe sess name cb xpath prio start stop opts fd ctx w w1 w2 w3 w4 flag no_pipe e1
        e2 e3 e4 =
      (
        subscribe_new-terminated module_change cb (module_change_call api name xpath prio opts) _
            sess ctx opts fd w w1 flag no_pipe e1,
        subscribe_new-terminated oper_get cb (oper_get_call api name xpath opts) _ sess ctx opts fd
            w w2 flag no_pipe e2,
        subscribe_new-terminated rpc_action cb (rpc_action_call api name prio opts) _ sess ctx opts
            fd w w3 flag no_pipe e3,
        subscribe_new-terminated notification cb (notification_call api name xpath start stop opts)
            _ sess ctx opts fd w w4 flag no_pipe e4,
      )
