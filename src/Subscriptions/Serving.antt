-- ===== src/Subscriptions/Serving.antt =====
-- The C library serves a subscription: it calls the function that it was given with the address
-- that it was given. The functions are moduleChangeCb, operGetItemsCb, rpcActionCb and eventNotifCb
-- of src/Subscription.cpp, each with the cast at its beginning.
use mathlib.Core.Path.{subst}
use sysrepo_cpp.Base.{
  ℕ, ◌≡◌, refl, Bool, true, false, List, [], ◌∷◌, ◌++◌, Option, none, some, Text, if◌then◌else◌,
}
use sysrepo_cpp.Effects.{Eff, pure, dereference, ◌>>=◌}
use sysrepo_cpp.Times.{Timespec}
use sysrepo_cpp.Capi.{Sysrepo}
use sysrepo_cpp.Callbacks.{
  ModuleChangeCb, OperGetCb, RpcActionCb, NotifCb, ExceptionHandler, module_change_cb,
  oper_get_items_cb, rpc_action_cb, event_notif_cb,
}
use sysrepo_cpp.Subscriptions.Actions.{
  CallbackKind, module_change, oper_get, rpc_action, notification, Stored, handler_object,
  priv_data, Held, Action, held, stored_at,
}
use sysrepo_cpp.Subscriptions.Typing.{Fits, AllFit, Reach-Typed}
use sysrepo_cpp.Subscriptions.Histories.{Reach}
use sysrepo_cpp.Subscriptions.{Object}

-- The user's functions by their numbers, and the exception handler of the Subscription.
pub record Functions (W Node : Type 0) : Type 0 where
  pub module_changes : ℕ → ModuleChangeCb W
  pub oper_gets : ℕ → OperGetCb W Node
  pub rpc_actions : ℕ → RpcActionCb W Node
  pub notifications : ℕ → NotifCb W Node
  pub exception_handler : ExceptionHandler W

-- A call of one of the four functions by the C library, with all arguments but the private data.
pub data Served : CallbackKind → Type 0 where
  changed :
      (session subscription_id : ℕ) (module_name : Text) (sub_xpath : Option Text)
      (event request_id : ℕ)
      → Served module_change
  data_wanted :
      (session subscription_id : ℕ) (module_name : Text) (sub_xpath request_xpath : Option Text)
      (request_id : ℕ) (parent : Option ℕ)
      → Served oper_get
  operation_called :
      (session subscription_id : ℕ) (operation_path : Text) (input event request_id output : ℕ)
      → Served rpc_action
  notified :
      (session subscription_id type : ℕ) (notified_node : Option ℕ) (timestamp : Timespec)
      → Served notification

-- What the C library gets back: a code, with the tree of an operational callback, or nothing.
pub data Answer : Type 0 where
  code : ℕ → Answer
  code_and_tree : ℕ → Option ℕ → Answer
  nothing : Answer

abbrev pub same_kind : CallbackKind → CallbackKind → Bool
same_kind module_change module_change = true
same_kind oper_get oper_get = true
same_kind rpc_action rpc_action = true
same_kind notification notification = true
same_kind _ _ = false

-- `reinterpret_cast<PrivData<...>*>(privateData)` and the read of its callback, which is defined if
-- there is a PrivData of that class.
unfoldable pub cast_priv : CallbackKind → Option Stored → Option ℕ
cast_priv kind none = none
cast_priv kind (some handler_object) = none
cast_priv kind (some (priv_data p)) = if same_kind kind p.kind then some p.callback else none

module _ {W Node : Type 0} (api : Sysrepo W Node) (functions : Functions W Node) where
  -- The pointer to the exception handler in the PrivData.
  abbrev pub read_handler : Option Stored → Option (ExceptionHandler W)
  read_handler none = none
  read_handler (some handler_object) = some functions.exception_handler
  read_handler (some (priv_data p)) = none

  -- The function of a class, with a user's function.
  abbrev pub run_with : {kind : CallbackKind} → Served kind → ExceptionHandler W → ℕ → Eff W Answer
  run_with (changed session id name xpath event request) handler cb = do
    ret ←
        module_change_cb api (functions.module_changes cb) handler session id name xpath event
          request
    pure (code ret)
  run_with (data_wanted session id name xpath wanted request parent) handler cb = do
    ret ←
        oper_get_items_cb api (functions.oper_gets cb) handler session id name xpath wanted request
          parent
    pure (code_and_tree ret.0 ret.1)
  run_with (operation_called session id path input event request output) handler cb = do
    ret ←
        rpc_action_cb api (functions.rpc_actions cb) handler session id path input event request
          output
    pure (code ret)
  run_with (notified session id type node timestamp) handler cb = do
    done ← event_notif_cb api (functions.notifications cb) handler session id type node timestamp
    pure nothing

  -- A call for a subscription, in the memory that a history leaves.
  unfoldable pub serve : (h : Held) → Served h.trampoline → List Action → Eff W Answer
  unfolding cast_priv
  serve h served memory = do
    cb ← dereference (cast_priv h.trampoline (stored_at h.callback memory))
    handler ← dereference (read_handler (stored_at h.handler memory))
    run_with served handler cb

  same_kind_refl : (kind : CallbackKind) → same_kind kind kind ≡ true
  same_kind_refl module_change = refl
  same_kind_refl oper_get = refl
  same_kind_refl rpc_action = refl
  same_kind_refl notification = refl

  serve-Fits :
      (h : Held) (served : Served h.trampoline) (memory : List Action) (w : W)
      → Fits h memory
      → serve h served memory w ≡ run_with served functions.exception_handler h.requested w
  unfolding serve cast_priv
  serve-Fits h served memory w (p, q) = rw (p, q, same_kind_refl h.trampoline) refl

  AllFit-middle :
      (before after : List Held) (h : Held) (l : List Action)
      → AllFit (before ++ (h ∷ after)) l
      → Fits h l
  AllFit-middle [] after h l v = v.0
  AllFit-middle (x ∷ before) after h l v = AllFit-middle before after h l v.1

  -- After any history of a Subscription, let the C library hold a subscription, and call the
  -- function that was given for it. Then the private data are a PrivData of the class that the
  -- function casts them to, with the very function of the user that the subscription was made for,
  -- and with the exception handler of the Subscription; so the call runs that function, and nothing
  -- is undefined before it.
  pub serve_lem :
      (o : Object W) (before after : List Held) (h : Held) (served : Served h.trampoline) (w : W)
      → Reach api o
      → held o.log ≡ before ++ (h ∷ after)
      → serve h served o.log w ≡ run_with served functions.exception_handler h.requested w
  serve_lem o before after h served w r e = serve-Fits h served o.log w (
      AllFit-middle before after h o.log
        (subst (λ hs. AllFit hs o.log) e (Reach-Typed api o r).fits))
