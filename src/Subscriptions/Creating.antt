-- ===== src/Subscriptions/Creating.antt =====
-- The methods of Session that create a Subscription: what they return, and what is left when they
-- throw.
use sysrepo_cpp.Base.{
  Bool, true, false, ◌==◌, ℕ, ◌≡◌, refl, sym, ap, ◌∙◌, ◌⊎◌, inl, inr, Option, some, Text, codes,
  arith,
}
use sysrepo_cpp.Base.Int.{ℤ}
use sysrepo_cpp.Effects.{Exn, Eff, Result, ok, throws, terminated, undefined, after}
use sysrepo_cpp.Enums.Flags.Subscribe.{SubscribeOptions}
use sysrepo_cpp.Options.{check_no_thread_flag, flag_fits, check_no_thread_flag_cases}
use sysrepo_cpp.Capi.{Sysrepo}
use sysrepo_cpp.Errors.{throw_if_error, throw_if_error_bare}
use sysrepo_cpp.Errors.Throwing.{throw_if_error_cases}
use sysrepo_cpp.Subscriptions.Quiet.{Quiet}
use sysrepo_cpp.Subscriptions.Returning.{Released-Quiet}
use sysrepo_cpp.Subscriptions.Freeing.{AllFreed, returned-AllFreed}
use sysrepo_cpp.Subscriptions.Histories.{
  Step, on_module_change_step, on_oper_get_step, on_rpc_action_step, on_notification_step, Reach,
  constructed, initialized, then_step, ExtendsContexts, destroy-Reach,
}
use sysrepo_cpp.Subscriptions.{
  Object, FdHandling, construct, save_context, event_pipe, process_events, drop_closure,
  release_context,
}
use sysrepo_cpp.Subscriptions.Methods.{
  on_module_change, on_oper_get, on_rpc_action, on_notification,
}
use sysrepo_cpp.Subscriptions.Lifecycle.{
  destroy, destructor_body, destroy_members, leave_loop, leave_nacm, take_nacm, rethrow, returning,
  subscribe_new, session_on_module_change, session_on_oper_get, session_on_rpc_action,
  session_on_notification, init_nacm,
}

module _ {W Node : Type 0} (api : Sysrepo W Node) where
  -- The object has been destroyed again, with nothing left behind.
  pub record Undone (o : Object W) (w : W) : Type 0 where
    pub reached : Reach api o
    pub returned : (destroy api o).0 ≡ ok tt
    pub quiet : Quiet (destroy api o).1.log
    pub all_freed : AllFreed api (destroy api o).1.log
    pub state : w ≡ (destroy api o).1.lib

  -- How the creation ends. `passes` says whether the object is made; `before` is the state of the C
  -- library before it is, and `tried` is what the call on the new object gives, with that object.
  abbrev pub Creates : Bool → W → Result (Unit {0}) × Object W → Result (Object W) × W → Type 0
  Creates passes before tried (ok o, w) =
      (passes ≡ true) × (tried ≡ (ok tt, o)) × Reach api o × (w ≡ o.lib)
  Creates passes before tried (throws e, w) =
      ((passes ≡ false) × (w ≡ before))
      ⊎ ((passes ≡ true) × (tried.0 ≡ throws e) × Undone tried.1 w)
  Creates passes before tried (terminated, w) = passes ≡ true
  Creates passes before tried (undefined, w) = passes ≡ true

  destroy-Undone :
      (o : Object W) (r : Result (Unit {0}) × Object W)
      → ExtendsContexts api
      → Reach api o
      → destroy api o ≡ r
      → r.0 ≡ ok tt
      → Undone o r.1.lib
  destroy-Undone o r laws reached e h =
      let returns : (destroy api o).0 ≡ ok tt = ap (λ r. r.0) e ∙ h in
      record {
        reached = reached;
        returned = returns;
        quiet = Released-Quiet api (destroy api o) (destroy-Reach api o laws reached) returns;
        all_freed = returned-AllFreed api o reached returns;
        state = ap (λ r. r.1.lib) (sym e);
      }

  rethrow-Creates :
      (passes : Bool) (before : W) (x : Exn) (o : Object W) (r : Result (Unit {0}) × Object W)
      → ExtendsContexts api
      → Reach api o
      → passes ≡ true
      → destroy api o ≡ r
      → Creates passes before (throws x, o) (rethrow api (throws x) r)
  rethrow-Creates passes before x o (ok tt, o') laws reached p e =
      inr (p, refl, destroy-Undone o (ok tt, o') laws reached e refl)
  rethrow-Creates passes before x o (throws y, o') laws reached p e = p
  rethrow-Creates passes before x o (terminated, o') laws reached p e = p
  rethrow-Creates passes before x o (undefined, o') laws reached p e = p

  returning-Creates :
      (passes : Bool) (before : W) (r : Result (Unit {0}) × Object W)
      → ExtendsContexts api
      → Reach api r.1
      → passes ≡ true
      → Creates passes before r (returning api r)
  returning-Creates passes before (ok done, o) laws reached p = (p, refl, reached, refl)
  returning-Creates passes before (throws x, o) laws reached p =
      rethrow-Creates passes before x o (destroy api o) laws reached p refl
  returning-Creates passes before (terminated, o) laws reached p = p
  returning-Creates passes before (undefined, o) laws reached p = p

  after-Creates :
      (passes : Bool) (before : W) (tried : Result (Unit {0}) × Object W)
      (r : Result (Unit {0}) × W) (f : Unit {0} → Eff W (Object W))
      → ((passes ≡ true) × (r ≡ (ok tt, before)))
        ⊎ ((x : Exn) × (passes ≡ false) × (r ≡ (throws x, before)))
      → (passes ≡ true → Creates passes before tried (f tt before))
      → Creates passes before tried (after r f)
  after-Creates passes before tried r f h k = elim h [
    | inl (p, e) ↦ rw e (k p)
    | inr (x, p, e) ↦ rw e (inl (p, refl))
  ]

  subscribe_new-Creates :
      (sess : ℕ) (opts : SubscribeOptions) (callbacks : Option (FdHandling W))
      (subscribe : Eff (Object W) (Unit {0})) (w : W)
      → ExtendsContexts api
      → ((o : Object W) → Step api o (subscribe o).1)
      → Creates
          (flag_fits opts callbacks)
          w
          (subscribe (construct sess callbacks w))
          (subscribe_new api sess opts callbacks subscribe w)
  subscribe_new-Creates sess opts callbacks subscribe w laws step =
      after-Creates (flag_fits opts callbacks) w (subscribe (construct sess callbacks w))
        (check_no_thread_flag opts callbacks w) _ (check_no_thread_flag_cases opts callbacks w)
        (returning-Creates (flag_fits opts callbacks) w (subscribe (construct sess callbacks w))
          laws (then_step _ _ (constructed sess callbacks w) (step (construct sess callbacks w))))

  init_nacm-Creates :
      (sess : ℕ) (opts : SubscribeOptions) (callbacks : Option (FdHandling W)) (w : W)
      → ExtendsContexts api
      → let got = api.sr_nacm_init sess opts w in
        Creates
          (got.0.0 == 0)
          got.1
          (take_nacm api got.0.1 (construct sess callbacks got.1))
          (init_nacm api sess opts callbacks w)
  unfolding init_nacm
  init_nacm-Creates sess opts callbacks w laws =
      let got = api.sr_nacm_init sess opts w in
      after-Creates (got.0.0 == 0) got.1 (take_nacm api got.0.1 (construct sess callbacks got.1))
        (throw_if_error api got.0.0 (codes "Couldn't initialize NACM") (some sess) got.1) _
        (throw_if_error_cases api got.0.0 (codes "Couldn't initialize NACM") (some sess) got.1)
        (returning-Creates (got.0.0 == 0) got.1
          (take_nacm api got.0.1 (construct sess callbacks got.1)) laws
          (initialized sess got.0.1 callbacks got.1))

  -- Let the C library hand a context that it gets back from a subscribing function. Each of
  -- onModuleChange, onOperGet, onRPCAction and onNotification of Session makes its object just
  -- when the flag NoThread and the callbacks come together, and initNacm just when sr_nacm_init
  -- gives OK. If it returns, the object was made, and it is the new object with the one
  -- subscribing call (for initNacm: the context taken and the flag set) done, which has returned;
  -- its history is one of those that a Subscription can have. If it throws, then either no object
  -- was made and the state of the C library is the one before, which for initNacm is the one that
  -- sr_nacm_init has left; or the call on the new object threw the same, and that very object has
  -- been destroyed: its destructor returned, the C library holds none of its callbacks and held
  -- none that was freed, all its memory has been freed once, and the state of the C library is the
  -- one that the destructor has left. It ends in no other way when no object was made.
  pub sessions-Creates :
      (sess : ℕ) (name : Text) (cb : ℕ) (xpath : Option Text) (prio : ℕ) (start stop : Option ℤ)
      (opts : SubscribeOptions) (callbacks : Option (FdHandling W)) (w : W)
      → ExtendsContexts api
      → let o = construct sess callbacks w in
        let fits = flag_fits opts callbacks in
        let got = api.sr_nacm_init sess opts w in
        Creates fits w
          (on_module_change api name cb xpath prio opts o)
          (session_on_module_change api sess name cb xpath prio opts callbacks w)
        × Creates fits w
            (on_oper_get api name cb xpath opts o)
            (session_on_oper_get api sess name cb xpath opts callbacks w)
        × Creates fits w
            (on_rpc_action api name cb prio opts o)
            (session_on_rpc_action api sess name cb prio opts callbacks w)
        × Creates fits w
            (on_notification api name cb xpath start stop opts o)
            (session_on_notification api sess name cb xpath start stop opts callbacks w)
        × Creates
            (got.0.0 == 0)
            got.1
            (take_nacm api got.0.1 (construct sess callbacks got.1))
            (init_nacm api sess opts callbacks w)
  unfolding session_on_module_change session_on_oper_get session_on_rpc_action
      session_on_notification
  sessions-Creates sess name cb xpath prio start stop opts callbacks w laws = (
    subscribe_new-Creates sess opts callbacks (on_module_change api name cb xpath prio opts) w laws
        (on_module_change_step name cb xpath prio opts),
    subscribe_new-Creates sess opts callbacks (on_oper_get api name cb xpath opts) w laws
        (on_oper_get_step name cb xpath opts),
    subscribe_new-Creates sess opts callbacks (on_rpc_action api name cb prio opts) w laws
        (on_rpc_action_step name cb prio opts),
    subscribe_new-Creates sess opts callbacks (on_notification api name cb xpath start stop opts) w
        laws (on_notification_step name cb xpath start stop opts),
    init_nacm-Creates sess opts callbacks w laws,
  )

  -- When sr_nacm_init succeeds and the user's function that starts the polling then throws, initNacm
  -- throws the same. After that function it calls the C library only to release the subscription
  -- context: sr_unsubscribe_sub, sr_get_event_pipe for the user's function that ends the polling, and
  -- sr_unsubscribe. sr_nacm_destroy is not called.
  pub init_nacm_unfinished :
      (sess ctx pipe pipe' : ℕ) (opts : SubscribeOptions) (fd : FdHandling W) (x : Exn)
      (w w1 w2 w3 w4 w5 : W)
      → api.sr_nacm_init sess opts w ≡ ((0, ctx), w1)
      → api.sr_get_event_pipe ctx w1 ≡ ((0, pipe), w2)
      → fd.register_fd pipe (process_events api ctx) w2 ≡ (throws x, w3)
      → api.sr_get_event_pipe ctx (api.sr_unsubscribe_sub ctx w3) ≡ ((0, pipe'), w4)
      → fd.unregister_fd pipe' w4 ≡ (ok tt, w5)
      → init_nacm api sess opts (some fd) w ≡ (throws x, api.sr_unsubscribe ctx w5)
  unfolding init_nacm save_context event_pipe destroy destructor_body destroy_members leave_loop
      leave_nacm drop_closure release_context throw_if_error throw_if_error_bare construct
  init_nacm_unfinished sess ctx pipe pipe' opts fd x w w1 w2 w3 w4 w5 e1 e2 e3 e4 e5 = ground arith
