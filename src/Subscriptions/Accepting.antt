-- ===== src/Subscriptions/Accepting.antt =====
-- What the C library holds when a subscribing method has returned.
use mathlib.Core.Path.{subst}
use sysrepo_cpp.Base.{ℕ, ◌≡◌, refl, List, [], ◌∷◌, Option, none, some, Text, codes}
use sysrepo_cpp.Base.Int.{ℤ}
use sysrepo_cpp.Effects.{Eff, Result, ok, throws, terminated, undefined, after, dereference}
use sysrepo_cpp.Enums.Flags.Subscribe.{SubscribeOptions}
use sysrepo_cpp.Options.{check_no_thread_flag, check_no_thread_flag_passes}
use sysrepo_cpp.Capi.{Sysrepo}
use sysrepo_cpp.Errors.{throw_if_error}
use sysrepo_cpp.Subscriptions.Actions.{
  CallbackKind, module_change, oper_get, rpc_action, notification, PrivData, Held, handed, held,
}
use sysrepo_cpp.Subscriptions.Submitting.{subscribe_with_lem}
use sysrepo_cpp.Subscriptions.{
  Object, FdHandling, lift, event_pipe, process_events, register_context, save_first, save_context,
  emplace_back, registration, subscribe_with,
}
use sysrepo_cpp.Subscriptions.Saving.{after_state}
use sysrepo_cpp.Subscriptions.Methods.{
  checked_subscribe, module_change_call, oper_get_call, rpc_action_call, notification_call,
  on_module_change, on_oper_get, on_rpc_action, on_notification,
}
use sysrepo_cpp.Subscriptions.Histories.{
  Reach, then_step, on_module_change_step, on_oper_get_step, on_rpc_action_step,
  on_notification_step,
}
use sysrepo_cpp.Subscriptions.Serving.{Functions, Served, serve, run_with, serve_lem}

module _ {W Node : Type 0} (api : Sysrepo W Node) where
  -- If the step returns, the C library holds one subscription more than `base`: one of the given
  -- class, for the given function of the user.
  abbrev pub Accepts : PrivData → CallbackKind → List Held → Result (Unit {0}) × Object W → Type 0
  Accepts p kind base (ok done, o) =
      (ctx : ℕ) × (priv : ℕ) × (handler : ℕ) × (held o.log
        ≡ registration p kind ctx priv handler ∷ base)
  Accepts p kind base (throws e, o) = Unit {0}
  Accepts p kind base (terminated, o) = Unit {0}
  Accepts p kind base (undefined, o) = Unit {0}

  after-Accepts :
      {A : Type 0} (p : PrivData) (kind : CallbackKind) (base : List Held) (r : Result A × Object W)
      (f : A → Eff (Object W) (Unit {0}))
      → ((a : A) → r.0 ≡ ok a → Accepts p kind base (f a r.1))
      → Accepts p kind base (after r f)
  after-Accepts p kind base (ok a, o) f k = k a refl
  after-Accepts p kind base (throws e, o) f k = tt
  after-Accepts p kind base (terminated, o) f k = tt
  after-Accepts p kind base (undefined, o) f k = tt

  -- Keeping the context hands nothing over and takes nothing back.
  pub held-register_context :
      (custom : Option (FdHandling W)) (ctx : ℕ) (o : Object W)
      → held (register_context api custom ctx o).1.log ≡ held o.log
  held-register_context none ctx o = refl
  held-register_context (some fd) ctx o =
      let same : Object W → Type 0 = λ o'. held o'.log ≡ held o.log in
      after_state same (lift (event_pipe api ctx) o) _ refl (λ pipe _.
        after_state same
          (lift (fd.register_fd pipe (process_events api ctx)) (lift (event_pipe api ctx) o).1) _
          refl (λ _ _. refl))

  held-save_first :
      (old : Option ℕ) (ctx : ℕ) (o : Object W) → held (save_first api old ctx o).1.log ≡ held o.log
  held-save_first none ctx o =
      held-register_context o.self.custom_event_loop_cbs ctx
        (record o { self = record (o.self) { sub = some ctx } })
  held-save_first (some old) ctx o = refl

  with_result :
      (p : PrivData) (kind : CallbackKind) (base : List Held) (ctx priv handler : ℕ)
      (r : Result (Unit {0}) × Object W)
      → held r.1.log ≡ registration p kind ctx priv handler ∷ base
      → Accepts p kind base r
  with_result p kind base ctx priv handler (ok done, o) e = (ctx, priv, handler, e)
  with_result p kind base ctx priv handler (throws x, o) e = tt
  with_result p kind base ctx priv handler (terminated, o) e = tt
  with_result p kind base ctx priv handler (undefined, o) e = tt

  subscribe_with-Accepts :
      (p : PrivData) (trampoline : CallbackKind) (subscribe : ℕ → ℕ → Option ℕ → Eff W (ℕ × ℕ))
      (msg : Text) (o : Object W)
      → Accepts p trampoline (held o.log) (subscribe_with api p trampoline subscribe msg o)
  unfolding emplace_back save_context
  subscribe_with-Accepts p trampoline subscribe msg o = rw subscribe_with_lem (
      let o1 = (emplace_back p o).1 in
      let get_handler = dereference o.self.exception_handler in
      let get_sess = dereference o.self.sess in
      after-Accepts p trampoline (held o.log) (lift get_handler o1) _ (λ handler _.
        let o2 = (lift get_handler o1).1 in
        after-Accepts p trampoline (held o.log) (lift get_sess o2) _ (λ sess _.
          let o3 = (lift get_sess o2).1 in
          let run = subscribe sess o.next_node o.self.sub in
          after-Accepts p trampoline (held o.log) (lift run o3) _ (λ got _.
            let o4 = (lift run o3).1 in
            let check = throw_if_error api got.0 msg (some sess) in
            after-Accepts p trampoline (held o.log) (lift check o4) _ (λ _ _.
              let o5 = (lift check o4).1 in
              let h = registration p trampoline got.1 o.next_node handler in
              let o6 : Object W = record o5 { log = handed h ∷ o5.log } in
              with_result p trampoline (held o.log) got.1 o.next_node handler
                (save_context api got.1 o6) (held-save_first o6.self.sub got.1 o6))))))

  checked_subscribe-Accepts :
      (opts : SubscribeOptions) (p : PrivData) (trampoline : CallbackKind)
      (subscribe : ℕ → ℕ → Option ℕ → Eff W (ℕ × ℕ)) (msg : Text) (o : Object W)
      → Accepts p trampoline (held o.log) (checked_subscribe api opts p trampoline subscribe msg o)
  unfolding checked_subscribe
  checked_subscribe-Accepts opts p trampoline subscribe msg o =
      let checked = check_no_thread_flag opts o.self.custom_event_loop_cbs o in
      let same = (check_no_thread_flag_passes opts o.self.custom_event_loop_cbs o).0 in
      after-Accepts p trampoline (held o.log) checked _ (λ _ _.
        subst
          (λ o'.
            Accepts p trampoline (held o'.log)
              (subscribe_with api p trampoline subscribe msg checked.1))
          same (subscribe_with-Accepts p trampoline subscribe msg checked.1))

  module _ (functions : Functions W Node) where
    -- If the method returns, the C library holds one subscription more than `base`, of the class of
    -- the call, and serving it runs the user's function.
    abbrev pub Serves :
        (p : PrivData) → Served p.kind → List Held → Result (Unit {0}) × Object W → Type 0
    Serves p served base (ok done, o) =
        (ctx : ℕ) × (priv : ℕ) × (handler : ℕ) × (held o.log
          ≡ registration p p.kind ctx priv handler ∷ base)
        × ((w : W)
            → serve api functions (registration p p.kind ctx priv handler) served o.log w
              ≡ run_with api functions served functions.exception_handler p.callback w)
    Serves p served base (throws e, o) = Unit {0}
    Serves p served base (terminated, o) = Unit {0}
    Serves p served base (undefined, o) = Unit {0}

    accepted-Serves :
        (p : PrivData) (served : Served p.kind) (base : List Held)
        (r : Result (Unit {0}) × Object W)
        → Reach api r.1
        → Accepts p p.kind base r
        → Serves p served base r
    accepted-Serves p served base (ok done, o) reached (ctx, priv, handler, e) = (
      ctx,
      priv,
      handler,
      e,
      λ w.
          serve_lem api functions o [] base (registration p p.kind ctx priv handler) served w
            reached e,
    )
    accepted-Serves p served base (throws x, o) reached accepted = tt
    accepted-Serves p served base (terminated, o) reached accepted = tt
    accepted-Serves p served base (undefined, o) reached accepted = tt

    -- After any history of a Subscription, let one of the four subscribing methods be called with a
    -- user's function, and let it return. Then the C library holds exactly one subscription more,
    -- and a call for it by the C library runs that function of the user, by the function of the
    -- bindings for its class and with the exception handler of the Subscription.
    pub subscribing-Serves :
        (name : Text) (cb : ℕ) (xpath : Option Text) (prio : ℕ) (start stop : Option ℤ)
        (opts : SubscribeOptions) (o : Object W) (change : Served module_change)
        (wanted : Served oper_get) (called : Served rpc_action) (noted : Served notification)
        → Reach api o
        → Serves
            (record { kind = module_change; callback = cb })
            change
            (held o.log)
            (on_module_change api name cb xpath prio opts o)
          × Serves
              (record { kind = oper_get; callback = cb })
              wanted
              (held o.log)
              (on_oper_get api name cb xpath opts o)
          × Serves
              (record { kind = rpc_action; callback = cb })
              called
              (held o.log)
              (on_rpc_action api name cb prio opts o)
          × Serves
              (record { kind = notification; callback = cb })
              noted
              (held o.log)
              (on_notification api name cb xpath start stop opts o)
    unfolding on_module_change on_oper_get on_rpc_action on_notification
    subscribing-Serves name cb xpath prio start stop opts o change wanted called noted r = (
      accepted-Serves _ change (held o.log) (on_module_change api name cb xpath prio opts o)
          (then_step o _ r (on_module_change_step name cb xpath prio opts o))
          (checked_subscribe-Accepts opts _ module_change
            (module_change_call api name xpath prio opts)
            (codes "Couldn't create module change subscription") o),
      accepted-Serves _ wanted (held o.log) (on_oper_get api name cb xpath opts o)
          (then_step o _ r (on_oper_get_step name cb xpath opts o))
          (checked_subscribe-Accepts opts _ oper_get (oper_get_call api name xpath opts)
            (codes "Couldn't create operational get items subscription") o),
      accepted-Serves _ called (held o.log) (on_rpc_action api name cb prio opts o)
          (then_step o _ r (on_rpc_action_step name cb prio opts o))
          (checked_subscribe-Accepts opts _ rpc_action (rpc_action_call api name prio opts)
            (codes "Couldn't create RPC/action subscription") o),
      accepted-Serves _ noted (held o.log) (on_notification api name cb xpath start stop opts o)
          (then_step o _ r (on_notification_step name cb xpath start stop opts o))
          (checked_subscribe-Accepts opts _ notification
            (notification_call api name xpath start stop opts)
            (codes "Couldn't create notification subscription") o),
    )
