-- ===== src/Subscriptions/Defaults.antt =====
-- The subscribing methods with the default arguments that include/sysrepo-cpp/Session.hpp and
-- include/sysrepo-cpp/Subscription.hpp declare.
use sysrepo_cpp.Base.{ℕ, ◌≡◌, refl, [], ◌∷◌, Option, none, some, Text}
use sysrepo_cpp.Effects.{Eff, Result, ok, c_str, c_str_or_null}
use sysrepo_cpp.Enums.Flags.Subscribe.{default}
use sysrepo_cpp.Enums.Flags.{enum_bit_and}
use sysrepo_cpp.Options.{check_no_thread_flag}
use sysrepo_cpp.Capi.{Sysrepo}
use sysrepo_cpp.Errors.{throw_if_error}
use sysrepo_cpp.Subscriptions.Actions.{
  CallbackKind, module_change, oper_get, rpc_action, notification, PrivData, handed, created,
  priv_data,
}
use sysrepo_cpp.Subscriptions.{
  add_callback, registration, Object, construct, save_context, emplace_back, subscribe_with,
}
use sysrepo_cpp.Subscriptions.Methods.{
  checked_subscribe, module_change_call, oper_get_call, rpc_action_call, notification_call,
  on_module_change, on_oper_get, on_rpc_action, on_notification,
}
use sysrepo_cpp.Subscriptions.Lifecycle.{
  subscribe_new, session_on_module_change, session_on_oper_get, session_on_rpc_action,
  session_on_notification, init_nacm,
}
use sysrepo_cpp.Subscriptions.Contract.{view}

module _ {W Node : Type 0} (api : Sysrepo W Node) where
  -- Subscription::onModuleChange, onRPCAction and onNotification; the xpath of onOperGet has no
  -- default.
  abbrev pub on_module_change_default : Text → ℕ → Eff (Object W) (Unit {0})
  on_module_change_default module_name cb = on_module_change api module_name cb none 0 default

  abbrev pub on_oper_get_default : Text → ℕ → Option Text → Eff (Object W) (Unit {0})
  on_oper_get_default module_name cb xpath = on_oper_get api module_name cb xpath default

  abbrev pub on_rpc_action_default : Text → ℕ → Eff (Object W) (Unit {0})
  on_rpc_action_default xpath cb = on_rpc_action api xpath cb 0 default

  abbrev pub on_notification_default : Text → ℕ → Eff (Object W) (Unit {0})
  on_notification_default module_name cb = on_notification api module_name cb none none none default

  -- The methods of Session that create a Subscription.
  abbrev pub session_on_module_change_default : ℕ → Text → ℕ → Option Text → Eff W (Object W)
  session_on_module_change_default sess module_name cb xpath =
      session_on_module_change api sess module_name cb xpath 0 default none

  abbrev pub session_on_oper_get_default : ℕ → Text → ℕ → Option Text → Eff W (Object W)
  session_on_oper_get_default sess module_name cb xpath =
      session_on_oper_get api sess module_name cb xpath default none

  abbrev pub session_on_rpc_action_default : ℕ → Text → ℕ → Eff W (Object W)
  session_on_rpc_action_default sess xpath cb =
      session_on_rpc_action api sess xpath cb 0 default none

  abbrev pub session_on_notification_default : ℕ → Text → ℕ → Option Text → Eff W (Object W)
  session_on_notification_default sess module_name cb xpath =
      session_on_notification api sess module_name cb xpath none none default none

  abbrev pub init_nacm_default : ℕ → Eff W (Object W)
  init_nacm_default sess = init_nacm api sess default none

  -- A new Subscription is returned; the C library may call the user's function, and the object has
  -- the context that the C library made.
  abbrev pub Yields : PrivData → ℕ → W → Result (Object W) × W → Type 0
  Yields p ctx w r = (o : Object W) × (r ≡ (ok o, w)) × (view o ≡ p ∷ []) × (o.self.sub ≡ some ctx)

  abbrev subscribed : PrivData → ℕ → ℕ → W → Object W
  subscribed p sess ctx w =
      let o = construct sess none w in
      record {
        self = record (add_callback p.kind 1 o.self) { sub = some ctx };
        lib = w;
        log = handed (registration p p.kind ctx 1 0) ∷ created 1 (priv_data p) ∷ o.log;
        next_node = 2;
        loop = [];
      }

  subscribe_new-Yields :
      (kind : CallbackKind) (cb : ℕ) (subscribe : ℕ → ℕ → Option ℕ → Eff W (ℕ × ℕ)) (msg : Text)
      (sess ctx : ℕ) (w w' : W)
      → subscribe sess 1 none w ≡ (ok (0, ctx), w')
      → let p : PrivData = record { kind = kind; callback = cb } in
        Yields p ctx w' (
          subscribe_new api sess default none
            (checked_subscribe api default p kind subscribe msg)
            w)
  unfolding checked_subscribe subscribe_with emplace_back save_context construct
      check_no_thread_flag enum_bit_and throw_if_error
  subscribe_new-Yields module_change cb subscribe msg sess ctx w w' e = (
    subscribed (record { kind = module_change; callback = cb }) sess ctx w',
    rw e refl,
    refl,
    refl,
  )
  subscribe_new-Yields oper_get cb subscribe msg sess ctx w w' e =
      (subscribed (record { kind = oper_get; callback = cb }) sess ctx w', rw e refl, refl, refl)
  subscribe_new-Yields rpc_action cb subscribe msg sess ctx w w' e =
      (subscribed (record { kind = rpc_action; callback = cb }) sess ctx w', rw e refl, refl, refl)
  subscribe_new-Yields notification cb subscribe msg sess ctx w w' e = (
    subscribed (record { kind = notification; callback = cb }) sess ctx w',
    rw e refl,
    refl,
    refl,
  )

  -- Let a method of Session that subscribes be called with its default arguments and no event loop,
  -- and let the C library accept the subscription, for the address of the first stored callback.
  -- Then the method returns a Subscription, in the state that the C library left; the C library may
  -- call the user's function that was given, and nothing else; and the Subscription has the context
  -- that the C library made.
  pub session_defaults_lem :
      (sess : ℕ) (name : Text) (cb : ℕ) (xpath : Option Text) (c1 c2 c3 c4 : ℕ) (w w1 w2 w3 w4 : W)
      → api.sr_module_change_subscribe sess (c_str name) (c_str_or_null xpath) 1 0 default none w
        ≡ ((0, c1), w1)
      → api.sr_oper_get_subscribe sess (c_str name) (c_str_or_null xpath) 1 default none w
        ≡ ((0, c2), w2)
      → api.sr_rpc_subscribe_tree sess (c_str name) 1 0 default none w ≡ ((0, c3), w3)
      → api.sr_notif_subscribe_tree sess
          (c_str name)
          (c_str_or_null xpath)
          none
          none
          1
          default
          none
          w
        ≡ ((0, c4), w4)
      → Yields
          (record { kind = module_change; callback = cb })
          c1
          w1
          (session_on_module_change_default sess name cb xpath w)
        × Yields
            (record { kind = oper_get; callback = cb })
            c2
            w2
            (session_on_oper_get_default sess name cb xpath w)
        × Yields
            (record { kind = rpc_action; callback = cb })
            c3
            w3
            (session_on_rpc_action_default sess name cb w)
        × Yields
            (record { kind = notification; callback = cb })
            c4
            w4
            (session_on_notification_default sess name cb xpath w)
  unfolding session_on_module_change session_on_oper_get session_on_rpc_action
      session_on_notification on_module_change on_oper_get on_rpc_action on_notification
  session_defaults_lem sess name cb xpath c1 c2 c3 c4 w w1 w2 w3 w4 e1 e2 e3 e4 = (
    subscribe_new-Yields module_change cb (module_change_call api name xpath 0 default) _ sess c1 w
        w1 (rw e1 refl),
    subscribe_new-Yields oper_get cb (oper_get_call api name xpath default) _ sess c2 w w2
        (rw e2 refl),
    subscribe_new-Yields rpc_action cb (rpc_action_call api name 0 default) _ sess c3 w w3
        (rw e3 refl),
    subscribe_new-Yields notification cb (notification_call api name xpath none none default) _ sess
        c4 w w4 (rw e4 refl),
  )
