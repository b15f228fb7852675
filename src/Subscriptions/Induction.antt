-- ===== src/Subscriptions/Induction.antt =====
-- What holds in every history of a Subscription because every single change of the object keeps it.
use mathlib.Core.Path.{subst}
use sysrepo_cpp.Base.{
  List, ◌∙◌, ℕ, ◌≡◌, sym, inl, inr, Bool-cases, true, ◌∷◌, Option, none, some, Text, codes, arith,
}
use sysrepo_cpp.Effects.{Eff, ok, dereference}
use sysrepo_cpp.Enums.Flags.Subscribe.{SubscribeOptions}
use sysrepo_cpp.Options.{check_no_thread_flag, check_no_thread_flag_passes}
use sysrepo_cpp.Capi.{Sysrepo}
use sysrepo_cpp.Errors.{throw_if_error}
use sysrepo_cpp.Subscriptions.Actions.{
  Action, created, stored_at, handed, registered, nacm_initialized, nacm_destroyed,
}
use sysrepo_cpp.Subscriptions.Saving.{after_state, add_callback_keeps}
use sysrepo_cpp.Subscriptions.Moving.{moved}
use sysrepo_cpp.Subscriptions.Histories.{
  Step, on_module_change_step, on_oper_get_step, on_rpc_action_step, on_notification_step,
  moved_step, outside_step, Reach, constructed, initialized, then_step,
}
use sysrepo_cpp.Subscriptions.Actions.{
  PrivData, Stored, priv_data, Held, module_change, oper_get, rpc_action, notification,
}
use sysrepo_cpp.Subscriptions.Submitting.{subscribe_with_lem}
use sysrepo_cpp.Subscriptions.{
  registration, Object, FdHandling, construct, emplace_back, save_first, save_context, event_pipe,
  process_events, subscribe_with, register_context, release_context, lift,
}
use sysrepo_cpp.Subscriptions.Methods.{
  checked_subscribe, module_change_call, oper_get_call, rpc_action_call, notification_call,
  on_module_change, on_oper_get, on_rpc_action, on_notification,
}
use sysrepo_cpp.Subscriptions.Lifecycle.{move_construct, take_nacm, destroy}

module _ {W Node : Type 0} (api : Sysrepo W Node) where
  -- A predicate that each single change of an object keeps.
  pub record Stable (P : Object W → Type 0) : Type 0 where
    pub outside : (w : W) (o : Object W) → P o → P (record o { lib = w })
    pub stores : (p : PrivData) (o : Object W) → P o → P (emplace_back p o).1
    -- The address that the C library is given has a PrivData of the class that its function takes.
    pub hands :
        (h : Held) (o : Object W)
        → stored_at h.callback o.log
          ≡ some (priv_data (record { kind = h.trampoline; callback = h.requested }))
        → o.self.exception_handler ≡ some h.handler
        → P o
        → P (record o { log = handed h ∷ o.log })
    pub adopts :
        (c : ℕ) (o : Object W) → P o → P (record o { self = record (o.self) { sub = some c } })
    pub polls :
        (c pipe : ℕ) (w : W) (o : Object W)
        → (event_pipe api c w).0 ≡ ok pipe
        → P o
        → P (record o { log = registered pipe ∷ o.log; loop = c ∷ o.loop })
    pub starts_nacm : (o : Object W) → P o → P (record o { log = nacm_initialized ∷ o.log })
    pub flags_nacm :
        (o : Object W) → P o → P (record o { self = record (o.self) { did_nacm_init = true } })
    pub ends_nacm : (o : Object W) → P o → P (record o { log = nacm_destroyed ∷ o.log })

  module _ (P : Object W → Type 0) (st : Stable P) where
    lift-P : {A : Type 0} (m : Eff W A) (o : Object W) → P o → P (lift m o).1
    lift-P m o p = st.outside (m o.lib).1 o p

    register_context-P :
        (custom : Option (FdHandling W)) (ctx : ℕ) (o : Object W)
        → P o
        → P (register_context api custom ctx o).1
    register_context-P none ctx o p = p
    register_context-P (some fd) ctx o p =
        let o1 = (lift (event_pipe api ctx) o).1 in
        let p1 : P o1 = lift-P (event_pipe api ctx) o p in
        after_state P (lift (event_pipe api ctx) o) _ p1 (λ pipe r.
          let register = fd.register_fd pipe (process_events api ctx) in
          let p2 : P (lift register o1).1 = lift-P register o1 p1 in
          after_state P (lift register o1) _ p2
            (λ _ _. st.polls ctx pipe o.lib (lift register o1).1 r p2))

    save_first-P : (old : Option ℕ) (ctx : ℕ) (o : Object W) → P o → P (save_first api old ctx o).1
    save_first-P none ctx o p =
        register_context-P o.self.custom_event_loop_cbs ctx
          (record o { self = record (o.self) { sub = some ctx } }) (st.adopts ctx o p)
    save_first-P (some old) ctx o p = p

    save_context-P : (ctx : ℕ) (o : Object W) → P o → P (save_context api ctx o).1
    unfolding save_context
    save_context-P ctx o p = save_first-P o.self.sub ctx o p

    dereferenced :
        {A : Type 0} (x : Option A) (w : W) (a : A) → (dereference x w).0 ≡ ok a → x ≡ some a
    dereferenced none w a e = cc
    dereferenced (some b) w a e = cc

    just_stored : (a : ℕ) (s : Stored) (l : List Action) → stored_at a (created a s ∷ l) ≡ some s
    just_stored a s l = ground arith

    -- The C library is told to call the function for the class of the callback.
    subscribe_with-P :
        (p : PrivData) (subscribe : ℕ → ℕ → Option ℕ → Eff W (ℕ × ℕ)) (msg : Text) (o : Object W)
        → P o
        → P (subscribe_with api p p.kind subscribe msg o).1
    unfolding emplace_back
    subscribe_with-P p subscribe msg o valid = rw subscribe_with_lem (
        let priv = o.next_node in
        let o1 = (emplace_back p o).1 in
        let get_handler = dereference o.self.exception_handler in
        let p2 = lift-P get_handler o1 (st.stores p o valid) in
        after_state P (lift get_handler o1) _ p2 (λ handler found.
          let o2 = (lift get_handler o1).1 in
          let get_sess = dereference o.self.sess in
          let p3 = lift-P get_sess o2 p2 in
          after_state P (lift get_sess o2) _ p3 (λ sess _.
            let o3 = (lift get_sess o2).1 in
            let run = subscribe sess priv o.self.sub in
            let p4 = lift-P run o3 p3 in
            after_state P (lift run o3) _ p4 (λ got _.
              let o4 = (lift run o3).1 in
              let check = throw_if_error api got.0 msg (some sess) in
              let p5 = lift-P check o4 p4 in
              after_state P (lift check o4) _ p5 (λ _ _.
                let o5 = (lift check o4).1 in
                let h = registration p p.kind got.1 priv handler in
                save_context-P got.1 (record o5 { log = handed h ∷ o5.log })
                  (st.hands h o5 (just_stored priv (priv_data p) o.log)
                    ((add_callback_keeps p.kind priv o.self).0
                      ∙ dereferenced o.self.exception_handler o1.lib handler found)
                    p5))))))

    checked_subscribe-P :
        (opts : SubscribeOptions) (p : PrivData) (subscribe : ℕ → ℕ → Option ℕ → Eff W (ℕ × ℕ))
        (msg : Text) (o : Object W)
        → P o
        → P (checked_subscribe api opts p p.kind subscribe msg o).1
    unfolding checked_subscribe
    checked_subscribe-P opts p subscribe msg o valid =
        let same = (check_no_thread_flag_passes opts o.self.custom_event_loop_cbs o).0 in
        after_state P (check_no_thread_flag opts o.self.custom_event_loop_cbs o) _
          (subst P (sym same) valid)
          (λ _ _. subscribe_with-P p subscribe msg _ (subst P (sym same) valid))

    -- What the destructor of a moved-from object does is to end NACM, at most.
    moved-P : (o : Object W) → P o → P (moved api o)
    unfolding move_construct destroy release_context
    moved-P o p = elim (Bool-cases o.self.did_nacm_init) [
      | inl e ↦
          let o1 : Object W = record o {
            lib = api.sr_nacm_destroy o.lib;
            log = nacm_destroyed ∷ o.log;
          } in
          let same : moved api o ≡ o1 = ground arith in
          subst P (sym same) (st.outside o1.lib _ (st.ends_nacm o p))
      | inr e ↦ let same : moved api o ≡ o = ground arith in subst P (sym same) p
    ]

    Step-P : (o o' : Object W) → Step api o o' → P o → P o'
    unfolding on_module_change on_oper_get on_rpc_action on_notification
    Step-P _ _ (on_module_change_step name cb xpath prio opts o) p =
        checked_subscribe-P opts (record { kind = module_change; callback = cb })
          (module_change_call api name xpath prio opts)
          (codes "Couldn't create module change subscription") o p
    Step-P _ _ (on_oper_get_step name cb xpath opts o) p =
        checked_subscribe-P opts (record { kind = oper_get; callback = cb })
          (oper_get_call api name xpath opts)
          (codes "Couldn't create operational get items subscription") o p
    Step-P _ _ (on_rpc_action_step xpath cb prio opts o) p =
        checked_subscribe-P opts (record { kind = rpc_action; callback = cb })
          (rpc_action_call api xpath prio opts) (codes "Couldn't create RPC/action subscription") o
          p
    Step-P _ _ (on_notification_step name cb xpath start stop opts o) p =
        checked_subscribe-P opts (record { kind = notification; callback = cb })
          (notification_call api name xpath start stop opts)
          (codes "Couldn't create notification subscription") o p
    Step-P _ _ (moved_step o) p = moved-P o p
    Step-P _ _ (outside_step w o) p = st.outside w o p

    take_nacm-P : (ctx : ℕ) (o : Object W) → P o → P (take_nacm api ctx o).1
    take_nacm-P ctx o p =
        let o1 : Object W = record o { log = nacm_initialized ∷ o.log } in
        let saved = save_context api ctx o1 in
        let p2 = save_context-P ctx o1 (st.starts_nacm o p) in
        after_state P saved _ p2 (λ _ _. st.flags_nacm saved.1 p2)

    pub Reach-P :
        (o : Object W)
        → ((sess : ℕ) (callbacks : Option (FdHandling W)) (w : W) → P (construct sess callbacks w))
        → Reach api o
        → P o
    Reach-P _ first (constructed sess callbacks w) = first sess callbacks w
    Reach-P _ first (initialized sess ctx callbacks w) = take_nacm-P ctx _ (first sess callbacks w)
    Reach-P _ first (then_step o o' r s) = Step-P o o' s (Reach-P o first r)
