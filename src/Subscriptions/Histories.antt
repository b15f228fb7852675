-- ===== src/Subscriptions/Histories.antt =====
-- Every history of a Subscription: it is created, perhaps by initNacm, it subscribes any number of
-- times, with success or not, it is moved, and the C library changes on its own.
use mathlib.Core.Path.{subst}
use sysrepo_cpp.Base.{
  ℕ, ◌≡◌, refl, sym, ◌∷◌, Option, none, some, Text, codes, arith, ◌⊎◌, inl, inr, Option-cases,
}
use sysrepo_cpp.Base.Int.{ℤ}
use sysrepo_cpp.Effects.{
  Eff, Result, ok, throws, terminated, undefined, after, c_str, c_str_or_null,
}
use sysrepo_cpp.Times.{Timespec, to_timespec}
use sysrepo_cpp.Enums.Flags.Subscribe.{SubscribeOptions}
use sysrepo_cpp.Options.{check_no_thread_flag, check_no_thread_flag_passes}
use sysrepo_cpp.Capi.{Sysrepo}
use sysrepo_cpp.Subscriptions.Safety.{IsValid, construct-IsValid}
use sysrepo_cpp.Subscriptions.Saving.{after_state, save_first-IsValid}
use sysrepo_cpp.Subscriptions.Subscribing.{Extends, subscribe_with-IsValid}
use sysrepo_cpp.Subscriptions.Moving.{moved, moved-IsValid}
use sysrepo_cpp.Subscriptions.Ending.{Released, destroy-Released}
use sysrepo_cpp.Subscriptions.Actions.{
  CallbackKind, PrivData, module_change, oper_get, rpc_action, notification,
}
use sysrepo_cpp.Subscriptions.{Object, FdHandling, construct, save_context, subscribe_with}
use sysrepo_cpp.Subscriptions.Methods.{
  checked_subscribe, module_change_call, oper_get_call, rpc_action_call, notification_call, spec_of,
  on_module_change, on_oper_get, on_rpc_action, on_notification,
}
use sysrepo_cpp.Subscriptions.Lifecycle.{take_nacm, destroy}
use sysrepo_cpp.Subscriptions.Actions.{nacm_initialized}
use sysrepo_cpp.Subscriptions.Quiet.{Valid-neutral}

-- Given a context, a subscribing function of the C library that succeeds hands the same context back.
pub record ExtendsContexts {W Node : Type 0} (api : Sysrepo W Node) : Type 0 where
  pub module_change :
      (s : ℕ) (name : Text) (xpath : Option Text) (p prio opts ctx : ℕ) (w : W)
      → (api.sr_module_change_subscribe s name xpath p prio opts (some ctx) w).0.0 ≡ 0
      → (api.sr_module_change_subscribe s name xpath p prio opts (some ctx) w).0.1 ≡ ctx
  pub oper_get :
      (s : ℕ) (name : Text) (xpath : Option Text) (p opts ctx : ℕ) (w : W)
      → (api.sr_oper_get_subscribe s name xpath p opts (some ctx) w).0.0 ≡ 0
      → (api.sr_oper_get_subscribe s name xpath p opts (some ctx) w).0.1 ≡ ctx
  pub rpc_action :
      (s : ℕ) (xpath : Text) (p prio opts ctx : ℕ) (w : W)
      → (api.sr_rpc_subscribe_tree s xpath p prio opts (some ctx) w).0.0 ≡ 0
      → (api.sr_rpc_subscribe_tree s xpath p prio opts (some ctx) w).0.1 ≡ ctx
  pub notification :
      (s : ℕ) (name : Text) (xpath : Option Text) (start stop : Option Timespec) (p opts ctx : ℕ)
      (w : W)
      → (api.sr_notif_subscribe_tree s name xpath start stop p opts (some ctx) w).0.0 ≡ 0
      → (api.sr_notif_subscribe_tree s name xpath start stop p opts (some ctx) w).0.1 ≡ ctx

module _ {W Node : Type 0} (api : Sysrepo W Node) where
  after_check :
      (r : Result (Unit {0}) × Object W) (f : Unit {0} → Eff (Object W) (Unit {0})) (o : Object W)
      → r.1 ≡ o
      → IsValid o
      → IsValid (f tt o).1
      → IsValid (after r f).1
  after_check (ok tt, o') f o e v k = subst (λ o. IsValid (f tt o).1) (sym e) k
  after_check (throws x, o') f o e v k = subst IsValid (sym e) v
  after_check (terminated, o') f o e v k = subst IsValid (sym e) v
  after_check (undefined, o') f o e v k = subst IsValid (sym e) v

  checked_subscribe-IsValid :
      (opts : SubscribeOptions) (p : PrivData) (trampoline : CallbackKind)
      (subscribe : ℕ → ℕ → Option ℕ → Eff W (ℕ × ℕ)) (msg : Text) (o : Object W)
      → Extends subscribe
      → IsValid o
      → IsValid (checked_subscribe api opts p trampoline subscribe msg o).1
  unfolding checked_subscribe
  checked_subscribe-IsValid opts p trampoline subscribe msg o x v =
      after_check (check_no_thread_flag opts o.self.custom_event_loop_cbs o)
        (λ done. subscribe_with api p trampoline subscribe msg) o
        (check_no_thread_flag_passes opts o.self.custom_event_loop_cbs o).0 v
        (subscribe_with-IsValid api p trampoline subscribe msg o x v)

  module_change_call-Extends :
      (name : Text) (xpath : Option Text) (prio : ℕ) (opts : SubscribeOptions)
      → ExtendsContexts api
      → Extends (module_change_call api name xpath prio opts)
  module_change_call-Extends name xpath prio opts laws sess priv ctx w got r zero =
      ground
        (arith, laws.module_change sess (c_str name) (c_str_or_null xpath) priv prio opts ctx w)

  oper_get_call-Extends :
      (name : Text) (xpath : Option Text) (opts : SubscribeOptions)
      → ExtendsContexts api
      → Extends (oper_get_call api name xpath opts)
  oper_get_call-Extends name xpath opts laws sess priv ctx w got r zero =
      ground (arith, laws.oper_get sess (c_str name) (c_str_or_null xpath) priv opts ctx w)

  rpc_action_call-Extends :
      (xpath : Text) (prio : ℕ) (opts : SubscribeOptions)
      → ExtendsContexts api
      → Extends (rpc_action_call api xpath prio opts)
  rpc_action_call-Extends xpath prio opts laws sess priv ctx w got r zero =
      ground (arith, laws.rpc_action sess (c_str xpath) priv prio opts ctx w)

  -- Either the times can be converted, or the call does not happen.
  spec_of-cases :
      (t : Option ℤ) (w : W)
      → ((spec : Option Timespec) × (spec_of api t w ≡ (ok spec, w)))
        ⊎ (spec_of api t w ≡ (undefined, w))
  spec_of-cases none w = inl (none, refl)
  spec_of-cases (some t) w = elim (Option-cases (to_timespec t)) [
    | inl e ↦ inr (rw e refl)
    | inr (spec, e) ↦ inl (some spec, rw e refl)
  ]

  notification_call-Extends :
      (name : Text) (xpath : Option Text) (start stop : Option ℤ) (opts : SubscribeOptions)
      → ExtendsContexts api
      → Extends (notification_call api name xpath start stop opts)
  notification_call-Extends name xpath start stop opts laws sess priv ctx w got r zero =
      elim (spec_of-cases start w) [
        | inl (begin, e) ↦ elim (spec_of-cases stop w) [
          | inl (end, f) ↦ ground (
            arith,
            laws.notification sess (c_str name) (c_str_or_null xpath) begin end priv opts ctx w,
          )
          | inr f ↦ ground arith
        ]
        | inr e ↦ ground arith
      ]

  -- One event in the life of an object; the last one is a change of the C library from outside.
  pub data Step : Object W → Object W → Type 0 where
    on_module_change_step :
        (name : Text) (cb : ℕ) (xpath : Option Text) (prio : ℕ) (opts : SubscribeOptions)
        (o : Object W)
        → Step o (on_module_change api name cb xpath prio opts o).1
    on_oper_get_step :
        (name : Text) (cb : ℕ) (xpath : Option Text) (opts : SubscribeOptions) (o : Object W)
        → Step o (on_oper_get api name cb xpath opts o).1
    on_rpc_action_step :
        (xpath : Text) (cb prio : ℕ) (opts : SubscribeOptions) (o : Object W)
        → Step o (on_rpc_action api xpath cb prio opts o).1
    on_notification_step :
        (name : Text) (cb : ℕ) (xpath : Option Text) (start stop : Option ℤ)
        (opts : SubscribeOptions) (o : Object W)
        → Step o (on_notification api name cb xpath start stop opts o).1
    moved_step : (o : Object W) → Step o (moved api o)
    outside_step : (w : W) (o : Object W) → Step o (record o { lib = w })

  -- The states that an object comes to.
  pub data Reach : Object W → Type 0 where
    constructed :
        (sess : ℕ) (callbacks : Option (FdHandling W)) (w : W) → Reach (construct sess callbacks w)
    initialized :
        (sess ctx : ℕ) (callbacks : Option (FdHandling W)) (w : W)
        → Reach (take_nacm api ctx (construct sess callbacks w)).1
    then_step : (o o' : Object W) → Reach o → Step o o' → Reach o'

  Step-IsValid : (o o' : Object W) → ExtendsContexts api → Step o o' → IsValid o → IsValid o'
  unfolding on_module_change on_oper_get on_rpc_action on_notification
  Step-IsValid _ _ laws (on_module_change_step name cb xpath prio opts o) v =
      checked_subscribe-IsValid opts (record { kind = module_change; callback = cb }) module_change
        (module_change_call api name xpath prio opts)
        (codes "Couldn't create module change subscription") o
        (module_change_call-Extends name xpath prio opts laws) v
  Step-IsValid _ _ laws (on_oper_get_step name cb xpath opts o) v =
      checked_subscribe-IsValid opts (record { kind = oper_get; callback = cb }) oper_get
        (oper_get_call api name xpath opts)
        (codes "Couldn't create operational get items subscription") o
        (oper_get_call-Extends name xpath opts laws) v
  Step-IsValid _ _ laws (on_rpc_action_step xpath cb prio opts o) v =
      checked_subscribe-IsValid opts (record { kind = rpc_action; callback = cb }) rpc_action
        (rpc_action_call api xpath prio opts) (codes "Couldn't create RPC/action subscription") o
        (rpc_action_call-Extends xpath prio opts laws) v
  Step-IsValid _ _ laws (on_notification_step name cb xpath start stop opts o) v =
      checked_subscribe-IsValid opts (record { kind = notification; callback = cb }) notification
        (notification_call api name xpath start stop opts)
        (codes "Couldn't create notification subscription") o
        (notification_call-Extends name xpath start stop opts laws) v
  Step-IsValid _ _ laws (moved_step o) v = moved-IsValid api o v
  Step-IsValid _ _ laws (outside_step w o) v = v

  take_nacm-IsValid :
      (sess ctx : ℕ) (callbacks : Option (FdHandling W)) (w : W)
      → IsValid (take_nacm api ctx (construct sess callbacks w)).1
  unfolding save_context construct
  take_nacm-IsValid sess ctx callbacks w =
      let v = construct-IsValid sess callbacks w in
      let o = construct sess callbacks w in
      let o1 : Object W = record o { log = nacm_initialized ∷ o.log } in
      let v1 : IsValid o1 =
        Valid-neutral nacm_initialized _ _ _ _ _ _ refl (λ a. refl) v.loop_fits v in
      let v2 = save_first-IsValid api ctx o1 refl v1 in
      after_state IsValid (save_context api ctx o1) _ v2 (λ _ _. v2)

  pub Reach-IsValid : (o : Object W) → ExtendsContexts api → Reach o → IsValid o
  Reach-IsValid _ laws (constructed sess callbacks w) = construct-IsValid sess callbacks w
  Reach-IsValid _ laws (initialized sess ctx callbacks w) = take_nacm-IsValid sess ctx callbacks w
  Reach-IsValid _ laws (then_step o o' r s) = Step-IsValid o o' laws s (Reach-IsValid o laws r)

  -- Let the C library hand a context that it gets back from a subscribing function. After the
  -- creation of a Subscription, with or without NACM, and any number of calls of the four
  -- subscribing methods, with success or not, of moves, and of changes of the C library from
  -- outside, destroying the Subscription lets no exception out; at every moment of the history and
  -- of the destruction, all callbacks that the C library holds are live, with their exception
  -- handler; and if the destructor returns, then the C library holds none.
  pub destroy-Reach : (o : Object W) → ExtendsContexts api → Reach o → Released (destroy api o)
  destroy-Reach o laws r = destroy-Released api o (Reach-IsValid o laws r)
