-- ===== src/Subscriptions/Contract.antt =====
-- What a Subscription promises, said of nothing but the user's functions that the C library may
-- call: which of them there are after each method, when it returns and when it does not.
use mathlib.Core.Path.{subst}
use sysrepo_cpp.Base.{
  inl, inr, ℕ, ◌≡◌, refl, ◌∙◌, ap, Bool, true, false, not, ◌||◌, List, ◌∷◌, map, Option, none, some,
  Text, codes, has_value,
}
use sysrepo_cpp.Base.Int.{ℤ}
use sysrepo_cpp.Effects.{Eff, Result, ok, throws, terminated, undefined, after, dereference}
use sysrepo_cpp.Enums.Flags.Subscribe.{SubscribeOptions}
use sysrepo_cpp.Options.{check_no_thread_flag, check_no_thread_flag_passes}
use sysrepo_cpp.Capi.{Sysrepo}
use sysrepo_cpp.Errors.{throw_if_error}
use sysrepo_cpp.Subscriptions.Actions.{
  CallbackKind, module_change, oper_get, rpc_action, notification, PrivData, Held, handed, held,
}
use sysrepo_cpp.Subscriptions.Submitting.{subscribe_with_lem}
use sysrepo_cpp.Subscriptions.{
  Subscription, add_callback, Object, FdHandling, lift, register_context, save_first, save_context,
  emplace_back, registration, subscribe_with,
}
use sysrepo_cpp.Subscriptions.Methods.{
  checked_subscribe, module_change_call, oper_get_call, rpc_action_call, notification_call,
  on_module_change, on_oper_get, on_rpc_action, on_notification,
}
use sysrepo_cpp.Subscriptions.Moving.{moved, moved_cases}
use sysrepo_cpp.Subscriptions.Accepting.{held-register_context}

-- The abstract state: the user's functions that the C library may call, with their classes, the
-- newest one first.
abbrev pub entry : Held → PrivData
entry h = record { kind = h.trampoline; callback = h.requested }

abbrev pub view : {W : Type 0} → Object W → List PrivData
view o = map entry (held o.log)

abbrev pub returned : Result (Unit {0}) → Bool
returned (ok done) = true
returned (throws e) = false
returned terminated = false
returned undefined = false

-- The abstract subscribing of a function: it is accepted when the method returns; when the method
-- does not return, nothing has changed, or the function is accepted nevertheless, which only an
-- object that is not settled allows.
pub data Outcome (p : PrivData) (settled : Bool) (before : List PrivData)
    : Result (Unit {0}) → List PrivData → Type 0 where
  accepted : (now : List PrivData) → now ≡ p ∷ before → Outcome p settled before (ok tt) now
  refused :
      (r : Result (Unit {0})) (now : List PrivData)
      → returned r ≡ false
      → now ≡ before
      → Outcome p settled before r now
  unfinished :
      (r : Result (Unit {0})) (now : List PrivData)
      → returned r ≡ false
      → settled ≡ false
      → now ≡ p ∷ before
      → Outcome p settled before r now

-- An object is settled when it has its context, or when no event loop is to be told of a context.
abbrev pub is_settled : {W : Type 0} → Object W → Bool
is_settled o = has_value o.self.sub || not (has_value o.self.custom_event_loop_cbs)

settled-add_callback :
    {W : Type 0} (kind : CallbackKind) (a : ℕ) (s : Subscription W)
    → (has_value (add_callback kind a s).sub
        || not (has_value (add_callback kind a s).custom_event_loop_cbs))
      ≡ (has_value s.sub || not (has_value s.custom_event_loop_cbs))
settled-add_callback module_change a s = refl
settled-add_callback oper_get a s = refl
settled-add_callback rpc_action a s = refl
settled-add_callback notification a s = refl

module _ {W Node : Type 0} (api : Sysrepo W Node) where
  abbrev pub Refines : PrivData → Bool → List PrivData → Result (Unit {0}) × Object W → Type 0
  Refines p settled before (r, o) = Outcome p settled before r (view o)

  after-Refines :
      {A : Type 0} (p : PrivData) (settled : Bool) (before : List PrivData)
      (r : Result A × Object W) (f : A → Eff (Object W) (Unit {0}))
      → view r.1 ≡ before
      → ((a : A) → Refines p settled before (f a r.1))
      → Refines p settled before (after r f)
  after-Refines p settled before (ok a, o) f e k = k a
  after-Refines p settled before (throws x, o) f e k = refused (throws x) (view o) refl e
  after-Refines p settled before (terminated, o) f e k = refused terminated (view o) refl e
  after-Refines p settled before (undefined, o) f e k = refused undefined (view o) refl e

  maybe_unfinished :
      (p : PrivData) (settled : Bool) (before : List PrivData) (r : Result (Unit {0}) × Object W)
      → settled ≡ false
      → view r.1 ≡ p ∷ before
      → Refines p settled before r
  maybe_unfinished p settled before (ok tt, o) s e = accepted (view o) e
  maybe_unfinished p settled before (throws x, o) s e = unfinished (throws x) (view o) refl s e
  maybe_unfinished p settled before (terminated, o) s e = unfinished terminated (view o) refl s e
  maybe_unfinished p settled before (undefined, o) s e = unfinished undefined (view o) refl s e

  register_context-Refines :
      (p : PrivData) (before : List PrivData) (custom : Option (FdHandling W)) (ctx : ℕ)
      (o : Object W)
      → view o ≡ p ∷ before
      → Refines p (not (has_value custom)) before (register_context api custom ctx o)
  register_context-Refines p before none ctx o e = accepted (view o) e
  register_context-Refines p before (some fd) ctx o e =
      maybe_unfinished p false before (register_context api (some fd) ctx o) refl
        (ap (map entry) (held-register_context api (some fd) ctx o) ∙ e)

  save_first-Refines :
      (p : PrivData) (before : List PrivData) (old : Option ℕ) (ctx : ℕ) (o : Object W)
      → view o ≡ p ∷ before
      → Refines p
          (has_value old || not (has_value o.self.custom_event_loop_cbs))
          before
          (save_first api old ctx o)
  save_first-Refines p before (some old) ctx o e = accepted (view o) e
  save_first-Refines p before none ctx o e =
      register_context-Refines p before o.self.custom_event_loop_cbs ctx
        (record o { self = record (o.self) { sub = some ctx } }) e

  subscribe_with-Refines :
      (p : PrivData) (subscribe : ℕ → ℕ → Option ℕ → Eff W (ℕ × ℕ)) (msg : Text) (o : Object W)
      → Refines p (is_settled o) (view o) (subscribe_with api p p.kind subscribe msg o)
  unfolding emplace_back save_context
  subscribe_with-Refines p subscribe msg o = rw subscribe_with_lem (
      let s = is_settled o in
      let v = view o in
      let o1 = (emplace_back p o).1 in
      let get_handler = dereference o.self.exception_handler in
      let get_sess = dereference o.self.sess in
      after-Refines p s v (lift get_handler o1) _ refl (λ handler.
        let o2 = (lift get_handler o1).1 in
        after-Refines p s v (lift get_sess o2) _ refl (λ sess.
          let o3 = (lift get_sess o2).1 in
          let run = subscribe sess o.next_node o.self.sub in
          after-Refines p s v (lift run o3) _ refl (λ got.
            let o4 = (lift run o3).1 in
            let check = throw_if_error api got.0 msg (some sess) in
            after-Refines p s v (lift check o4) _ refl (λ _.
              let o5 = (lift check o4).1 in
              let h = registration p p.kind got.1 o.next_node handler in
              let o6 : Object W = record o5 { log = handed h ∷ o5.log } in
              subst (λ t. Refines p t v (save_first api o6.self.sub got.1 o6))
                (settled-add_callback p.kind o.next_node o.self)
                (save_first-Refines p v o6.self.sub got.1 o6 refl))))))

  view-moved : (o : Object W) → view (moved api o) ≡ view o
  view-moved o = elim (moved_cases api o).1 [
    | inl e ↦ ap (λ log. map entry (held log)) e
    | inr e ↦ ap (λ log. map entry (held log)) e
  ]

  checked_subscribe-Refines :
      (opts : SubscribeOptions) (p : PrivData) (subscribe : ℕ → ℕ → Option ℕ → Eff W (ℕ × ℕ))
      (msg : Text) (o : Object W)
      → Refines p (is_settled o) (view o) (checked_subscribe api opts p p.kind subscribe msg o)
  unfolding checked_subscribe
  checked_subscribe-Refines opts p subscribe msg o =
      let checked = check_no_thread_flag opts o.self.custom_event_loop_cbs o in
      let same = (check_no_thread_flag_passes opts o.self.custom_event_loop_cbs o).0 in
      after-Refines p (is_settled o) (view o) checked _ (ap view same) (λ _.
        subst
          (λ o'.
            Refines p (is_settled o') (view o')
              (subscribe_with api p p.kind subscribe msg checked.1))
          same (subscribe_with-Refines p subscribe msg checked.1))

  -- In every state of a Subscription and for all arguments, each of the four subscribing methods
  -- implements the abstract subscribing. When it returns, the C library may call the user's
  -- function that was given, by the function of its class, and all that it could call before. When
  -- it does not return, the C library may call what it could call before; only if the object had no
  -- context and has an event loop to tell of one, the new function may be among that as well. A
  -- move changes nothing of what the C library may call.
  pub methods_lem :
      (name : Text) (cb : ℕ) (xpath : Option Text) (prio : ℕ) (start stop : Option ℤ)
      (opts : SubscribeOptions) (o : Object W)
      → Refines
          (record { kind = module_change; callback = cb })
          (is_settled o)
          (view o)
          (on_module_change api name cb xpath prio opts o)
        × Refines
            (record { kind = oper_get; callback = cb })
            (is_settled o)
            (view o)
            (on_oper_get api name cb xpath opts o)
        × Refines
            (record { kind = rpc_action; callback = cb })
            (is_settled o)
            (view o)
            (on_rpc_action api name cb prio opts o)
        × Refines
            (record { kind = notification; callback = cb })
            (is_settled o)
            (view o)
            (on_notification api name cb xpath start stop opts o)
        × (view (moved api o) ≡ view o)
  unfolding on_module_change on_oper_get on_rpc_action on_notification
  methods_lem name cb xpath prio start stop opts o = (
    checked_subscribe-Refines opts _ (module_change_call api name xpath prio opts)
        (codes "Couldn't create module change subscription") o,
    checked_subscribe-Refines opts _ (oper_get_call api name xpath opts)
        (codes "Couldn't create operational get items subscription") o,
    checked_subscribe-Refines opts _ (rpc_action_call api name prio opts)
        (codes "Couldn't create RPC/action subscription") o,
    checked_subscribe-Refines opts _ (notification_call api name xpath start stop opts)
        (codes "Couldn't create notification subscription") o,
    view-moved o,
  )
