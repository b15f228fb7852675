-- ===== src/Subscriptions.antt =====
-- The class Subscription of src/Subscription.cpp: the storage of the callbacks, the subscription
-- context that the object shares with the user's event loop, and their release.
pub mod Actions
pub mod Methods
pub mod Moving
pub mod Histories
pub mod Assigning
pub mod Returning
pub mod Induction
pub mod Memory
pub mod Freeing
pub mod Descriptors
pub mod Creating
pub mod Typing
pub mod Serving
pub mod Accepting
pub mod Contract
pub mod Unpiped
pub mod Defaults
pub mod Lifecycle
pub mod Safety
pub mod Saving
pub mod Submitting
pub mod Subscribing
pub mod Quiet
pub mod Ending
use Actions.{
  CallbackKind, module_change, oper_get, rpc_action, notification, PrivData, handler_object,
  priv_data, Held, Action, created, freed, handed, emptied, unsubscribed, registered, unregistered,
  nacm_destroyed, remove_first,
}
use sysrepo_cpp.Base.{
  ℕ, ◌+◌, Bool, true, false, ◌||◌, List, [], ◌∷◌, ◌++◌, Option, none, some, Text, codes, ◌==◌,
  if◌then◌else◌, has_value,
}
use sysrepo_cpp.Base.Int.{ℤ}
use sysrepo_cpp.Times.{Timespec, to_timespec}
use sysrepo_cpp.Effects.{
  Eff, Call, Result, ok, throws, terminated, undefined, pure, call, dereference, noexcept, ◌>>=◌,
  ◌>>◌, c_str, c_str_or_null,
}
use sysrepo_cpp.Enums.Flags.Subscribe.{SubscribeOptions}
use sysrepo_cpp.Options.{check_no_thread_flag}
use sysrepo_cpp.Capi.{Sysrepo}
use sysrepo_cpp.Errors.{throw_if_error, throw_if_error_bare}

-- The user's event loop. It keeps the function that processes the events of a descriptor from the
-- registration up to the end of the registration.
pub record FdHandling (W : Type 0) : Type 0 where
  pub register_fd : ℕ → Eff W (Unit {0}) → Eff W (Unit {0})
  pub unregister_fd : ℕ → Eff W (Unit {0})

-- A callback is known by the address of its PrivData.
pub record Subscription (W : Type 0) : Type 0 where
  pub custom_event_loop_cbs : Option (FdHandling W)
  pub module_change_cbs : List ℕ
  pub oper_get_cbs : List ℕ
  pub rpc_action_cbs : List ℕ
  pub notification_cbs : List ℕ
  pub exception_handler : Option ℕ
  pub sess : Option ℕ
  pub sub : Option ℕ
  pub did_nacm_init : Bool

-- An object with what is around it: the C library, the history of its actions, the next free address,
-- and the contexts that the functions in the event loop hold a share of.
pub record Object (W : Type 0) : Type 0 where
  pub self : Subscription W
  pub lib : W
  pub log : List Action
  pub next_node : ℕ
  pub loop : List ℕ

abbrev pub contains : ℕ → List ℕ → Bool
contains a [] = false
contains a (b ∷ l) = a == b || contains a l

abbrev pub holds : Option ℕ → ℕ → Bool
holds none c = false
holds (some d) c = c == d

module _ {W : Type 0} where
  abbrev pub on_lib : {A : Type 0} → Result A × W → Object W → Result A × Object W
  on_lib (r, w) o = (r, record o { lib = w })

  abbrev pub lift : {A : Type 0} → Eff W A → Eff (Object W) A
  lift m o = on_lib (m o.lib) o

  abbrev pub note : Action → Eff (Object W) (Unit {0})
  note a o = (ok tt, record o { log = a ∷ o.log })

-- A new callback is put into the list of its class.
abbrev pub add_callback : {W : Type 0} → CallbackKind → ℕ → Subscription W → Subscription W
add_callback module_change a s = record s { module_change_cbs = s.module_change_cbs ++ (a ∷ []) }
add_callback oper_get a s = record s { oper_get_cbs = s.oper_get_cbs ++ (a ∷ []) }
add_callback rpc_action a s = record s { rpc_action_cbs = s.rpc_action_cbs ++ (a ∷ []) }
add_callback notification a s = record s { notification_cbs = s.notification_cbs ++ (a ∷ []) }

-- `emplace_back(PrivData{cb, m_exceptionHandler.get()})`: the address of the new element.
unfoldable pub emplace_back : {W : Type 0} → PrivData → Eff (Object W) ℕ
emplace_back p o = (
  ok o.next_node,
  record o {
    self = add_callback p.kind o.next_node o.self;
    log = created o.next_node (priv_data p) ∷ o.log;
    next_node = o.next_node + 1;
  },
)

-- What the C library keeps when it accepts a subscription.
abbrev pub registration : PrivData → CallbackKind → ℕ → ℕ → ℕ → Held
registration p trampoline ctx priv handler = record {
  context = ctx;
  callback = priv;
  handler = handler;
  trampoline = trampoline;
  requested = p.callback;
}

module _ {W : Type 0} where
  -- A call of a function of the C library that subscribes, with the address of the callback. The C library
  -- keeps the subscription when the result of the call is OK, and only then.
  abbrev pub kept_by_library : ℕ → Held → Eff (Object W) (Unit {0})
  kept_by_library res h = if res == 0 then note (handed h) else pure tt

  abbrev pub submit :
      PrivData
      → CallbackKind
      → (ℕ → ℕ → Option ℕ → Eff W (ℕ × ℕ))
      → ℕ
      → ℕ
      → ℕ
      → Option ℕ
      → Eff (Object W) (ℕ × ℕ)
  submit p trampoline subscribe sess priv handler sub = do
    got ← lift (subscribe sess priv sub)
    kept_by_library got.0 (registration p trampoline got.1 priv handler)
    pure got

-- The constructor. The exception handler is put on the heap.
unfoldable pub construct : {W : Type 0} → ℕ → Option (FdHandling W) → W → Object W
construct sess callbacks w = record {
  self = record {
    custom_event_loop_cbs = callbacks;
    module_change_cbs = [];
    oper_get_cbs = [];
    rpc_action_cbs = [];
    notification_cbs = [];
    exception_handler = some 0;
    sess = some sess;
    sub = none;
    did_nacm_init = false;
  };
  lib = w;
  log = created 0 handler_object ∷ [];
  next_node = 1;
  loop = [];
}

module _ {W Node : Type 0} (api : Sysrepo W Node) where
  -- The deleter of the shared context.
  abbrev pub unsubscribe : ℕ → Object W → Object W
  unsubscribe ctx o = record o {
    lib = api.sr_unsubscribe ctx o.lib;
    log = unsubscribed ctx ∷ o.log;
  }

  -- The event loop forgets its function, and with it its share of the context.
  unfoldable pub drop_closure : ℕ → Object W → Object W
  drop_closure ctx o =
      let rest = remove_first ctx o.loop in
      let o' = record o { loop = rest } in
      if contains ctx o.loop
      then (if holds o.self.sub ctx || contains ctx rest then o' else unsubscribe ctx o')
      else o

  -- The destructor of m_sub.
  unfoldable pub release_context : Object W → Object W
  release_context o =
      let o' = record o { self = record (o.self) { sub = none } } in
      elim o.self.sub [
        | none ↦ o
        | some ctx ↦ if contains ctx o.loop then o' else unsubscribe ctx o'
      ]

  -- Subscription::eventPipe
  unfoldable pub event_pipe : ℕ → Eff W ℕ
  event_pipe ctx = do
    got ← call (api.sr_get_event_pipe ctx)
    throw_if_error_bare got.0 (codes "Couldn't retrieve event pipe")
    pure got.1

  -- The function that is handed to the event loop.
  unfoldable pub process_events : ℕ → Eff W (Unit {0})
  process_events ctx = do
    res ← call (api.sr_subscription_process_events ctx)
    throw_if_error_bare res (codes "Couldn't process events")

  abbrev pub keep_closure : ℕ → ℕ → Eff (Object W) (Unit {0})
  keep_closure ctx pipe o = (ok tt, record o { log = registered pipe ∷ o.log; loop = ctx ∷ o.loop })

  abbrev pub register_context : Option (FdHandling W) → ℕ → Eff (Object W) (Unit {0})
  register_context none ctx = pure tt
  register_context (some fd) ctx = do
    pipe ← lift (event_pipe ctx)
    lift (fd.register_fd pipe (process_events ctx))
    keep_closure ctx pipe

  abbrev pub adopt : ℕ → Eff (Object W) (Unit {0})
  adopt ctx o = (ok tt, record o { self = record (o.self) { sub = some ctx } })

  abbrev pub save_first : Option ℕ → ℕ → Eff (Object W) (Unit {0})
  save_first (some old) ctx o = (ok tt, o)
  save_first none ctx o = (do adopt ctx; register_context o.self.custom_event_loop_cbs ctx) o

  -- Subscription::saveContext
  unfoldable pub save_context : ℕ → Eff (Object W) (Unit {0})
  save_context ctx o = save_first o.self.sub ctx o

  -- The part that the four subscribing methods share: store the callback, call the C library with its
  -- address and the function to call, throw if that fails, and keep the context. An object that was moved
  -- from has no session and no handler; the source hands null pointers to the C library then, which
  -- is undefined behaviour here.
  unfoldable pub subscribe_with :
      PrivData
      → CallbackKind
      → (ℕ → ℕ → Option ℕ → Eff W (ℕ × ℕ))
      → Text
      → Eff (Object W) (Unit {0})
  subscribe_with p trampoline subscribe msg o =
      (do
        priv ← emplace_back p
        handler ← lift (dereference o.self.exception_handler)
        sess ← lift (dereference o.self.sess)
        got ← submit p trampoline subscribe sess priv handler o.self.sub
        lift (throw_if_error api got.0 msg (some sess))
        save_context got.1)
        o
