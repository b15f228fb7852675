-- ===== src/Subscriptions/Lifecycle.antt =====
-- The end of a Subscription, its moves, and the methods of Session that create one.
use sysrepo_cpp.Base.{ℕ, Bool, true, false, List, [], ◌∷◌, Option, none, some, Text, codes}
use sysrepo_cpp.Base.Int.{ℤ}
use sysrepo_cpp.Effects.{Eff, Result, ok, throws, terminated, undefined, pure, call, ◌>>=◌, ◌>>◌}
use sysrepo_cpp.Enums.Flags.Subscribe.{SubscribeOptions}
use sysrepo_cpp.Options.{check_no_thread_flag}
use sysrepo_cpp.Capi.{Sysrepo}
use sysrepo_cpp.Errors.{throw_if_error}
use sysrepo_cpp.Subscriptions.Actions.{
  Action, freed, emptied, unregistered, nacm_initialized, nacm_destroyed,
}
use sysrepo_cpp.Subscriptions.{
  FdHandling, Subscription, Object, lift, note, construct, drop_closure, release_context,
  event_pipe, save_context,
}
use sysrepo_cpp.Enums.Flags.Subscribe.{to_subscribe_options}
use sysrepo_cpp.Subscriptions.Methods.{
  on_module_change, on_oper_get, on_rpc_action, on_notification,
}

-- The elements of a list are freed one by one.
unfoldable pub free_all : List ℕ → List Action → List Action
free_all [] log = log
free_all (a ∷ rest) log = free_all rest (freed a ∷ log)

abbrev pub free_handler : Option ℕ → List Action → List Action
free_handler none log = log
free_handler (some a) log = freed a ∷ log

-- What follows the context in the reverse order of the members: the exception handler, and the
-- lists of callbacks, the last declared one first.
unfoldable pub free_members : {W : Type 0} → Subscription W → List Action → List Action
unfolding free_all
free_members s log = free_all s.module_change_cbs (
    free_all s.oper_get_cbs (
      free_all s.rpc_action_cbs
        (free_all s.notification_cbs (free_handler s.exception_handler log))))

module _ {W Node : Type 0} (api : Sysrepo W Node) where
  -- The first half of the destructor's body.
  unfoldable pub leave_loop : Option ℕ → Option (FdHandling W) → Eff (Object W) (Unit {0})
  leave_loop none callbacks = pure tt
  leave_loop (some ctx) none = pure tt
  leave_loop (some ctx) (some fd) = do
    lift (call (λ w. (tt, api.sr_unsubscribe_sub ctx w)))
    note (emptied ctx)
    pipe ← lift (event_pipe api ctx)
    lift (fd.unregister_fd pipe)
    note (unregistered pipe)
    λ o. (ok tt, drop_closure api ctx o)

  -- The second half.
  unfoldable pub leave_nacm : Bool → Eff (Object W) (Unit {0})
  leave_nacm false = pure tt
  leave_nacm true = do lift (call (λ w. (tt, api.sr_nacm_destroy w))); note nacm_destroyed

  unfoldable pub destructor_body : Eff (Object W) (Unit {0})
  unfolding leave_loop leave_nacm
  destructor_body o =
      (do leave_loop o.self.sub o.self.custom_event_loop_cbs; leave_nacm o.self.did_nacm_init) o

  -- The members go in the reverse of their order: the context before the others.
  unfoldable pub destroy_members : Object W → Object W
  unfolding free_members
  destroy_members o =
      let o' = release_context api o in record o' { log = free_members o.self o'.log }

  abbrev pub then_members : Result (Unit {0}) × Object W → Result (Unit {0}) × Object W
  then_members (ok done, o) = (ok tt, destroy_members o)
  then_members (throws e, o) = (terminated, o)
  then_members (terminated, o) = (terminated, o)
  then_members (undefined, o) = (undefined, o)

  -- The destructor, which is noexcept.
  unfoldable pub destroy : Eff (Object W) (Unit {0})
  unfolding destructor_body destroy_members
  destroy o = then_members (destructor_body o)

-- What a move leaves behind. The pointers are null and the lists are empty; the flag is copied.
unfoldable pub moved_from : {W : Type 0} → Subscription W → Subscription W
moved_from s = record s {
  module_change_cbs = [];
  oper_get_cbs = [];
  rpc_action_cbs = [];
  notification_cbs = [];
  exception_handler = none;
  sess = none;
  sub = none;
}

-- The defaulted move constructor: the new object has all members of the old one.
unfoldable pub move_construct : {W : Type 0} → Subscription W → Subscription W × Subscription W
unfolding moved_from
move_construct other = (other, moved_from other)

-- The defaulted move assignment replaces the members in the order of their declaration, so each
-- list of callbacks is freed before the context is released.
module _ {W Node : Type 0} (api : Sysrepo W Node) where
  unfoldable pub move_assign : Subscription W → Object W → Object W
  unfolding free_all release_context
  move_assign other o =
      let s = o.self in
      let freed_lists = free_all s.notification_cbs (
        free_all s.rpc_action_cbs (free_all s.oper_get_cbs (free_all s.module_change_cbs o.log))) in
      let o' =
        release_context api (record o { log = free_handler s.exception_handler freed_lists }) in
      record o' { self = other }

  -- A constructor's caller that leaves by an exception destroys the object.
  abbrev pub rethrow : {A : Type 0} → Result A → Result (Unit {0}) × Object W → Result A × W
  rethrow r (ok done, o) = (r, o.lib)
  rethrow r (throws e, o) = (terminated, o.lib)
  rethrow r (terminated, o) = (terminated, o.lib)
  rethrow r (undefined, o) = (undefined, o.lib)

  abbrev pub returning : Result (Unit {0}) × Object W → Result (Object W) × W
  returning (ok done, o) = (ok o, o.lib)
  returning (throws e, o) = rethrow (throws e) (destroy api o)
  returning (terminated, o) = (terminated, o.lib)
  returning (undefined, o) = (undefined, o.lib)

  -- `check; auto sub = Subscription{...}; sub.on...; return sub;`
  abbrev pub subscribe_new :
      ℕ → SubscribeOptions → Option (FdHandling W) → Eff (Object W) (Unit {0}) → Eff W (Object W)
  subscribe_new sess opts callbacks subscribe = do
    check_no_thread_flag opts callbacks
    λ w. returning (subscribe (construct sess callbacks w))

  -- Session::onModuleChange
  unfoldable pub session_on_module_change :
      ℕ → Text → ℕ → Option Text → ℕ → SubscribeOptions → Option (FdHandling W) → Eff W (Object W)
  session_on_module_change sess module_name cb xpath priority opts callbacks =
      subscribe_new sess opts callbacks (on_module_change api module_name cb xpath priority opts)

  -- Session::onOperGet
  unfoldable pub session_on_oper_get :
      ℕ → Text → ℕ → Option Text → SubscribeOptions → Option (FdHandling W) → Eff W (Object W)
  session_on_oper_get sess module_name cb xpath opts callbacks =
      subscribe_new sess opts callbacks (on_oper_get api module_name cb xpath opts)

  -- Session::onRPCAction
  unfoldable pub session_on_rpc_action :
      ℕ → Text → ℕ → ℕ → SubscribeOptions → Option (FdHandling W) → Eff W (Object W)
  session_on_rpc_action sess xpath cb priority opts callbacks =
      subscribe_new sess opts callbacks (on_rpc_action api xpath cb priority opts)

  -- Session::onNotification
  unfoldable pub session_on_notification :
      ℕ
      → Text
      → ℕ
      → Option Text
      → Option ℤ
      → Option ℤ
      → SubscribeOptions
      → Option (FdHandling W)
      → Eff W (Object W)
  session_on_notification sess module_name cb xpath start_time stop_time opts callbacks =
      subscribe_new sess opts callbacks
        (on_notification api module_name cb xpath start_time stop_time opts)

  abbrev pub set_nacm_flag : Eff (Object W) (Unit {0})
  set_nacm_flag o = (ok tt, record o { self = record (o.self) { did_nacm_init = true } })

  -- What is done to the new object.
  abbrev pub take_nacm : ℕ → Eff (Object W) (Unit {0})
  take_nacm ctx = do note nacm_initialized; save_context api ctx; set_nacm_flag

  -- Session::initNacm, which does not check the flag NoThread.
  unfoldable pub init_nacm : ℕ → SubscribeOptions → Option (FdHandling W) → Eff W (Object W)
  init_nacm sess opts callbacks = do
    got ← call (api.sr_nacm_init sess (to_subscribe_options opts))
    throw_if_error api got.0 (codes "Couldn't initialize NACM") (some sess)
    λ w. returning (take_nacm got.1 (construct sess callbacks w))
