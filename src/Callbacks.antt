-- ===== src/Callbacks.antt =====
-- The functions that the C library calls back, in src/Subscription.cpp: each wraps its arguments,
-- calls the user's callback and turns an exception into a result code.
pub mod Containment
pub mod Parents
use sysrepo_cpp.Base.{ℕ, Option, none, some, Text, codes}
use sysrepo_cpp.Base.Int.{ℤ}
use sysrepo_cpp.Times.{Timespec, to_time_point}
use sysrepo_cpp.Effects.{
  Exn, Result, Eff, ok, throws, terminated, undefined, pure, terminate, call, catch_std,
  dereference, what, ◌>>=◌, ◌>>◌,
}
use sysrepo_cpp.Enums.Codes.{ErrorCode, error_code_value}
use sysrepo_cpp.Enums.Kinds.{Event, NotificationType, to_event, to_notification_type}
use sysrepo_cpp.Capi.{Sysrepo}
use sysrepo_cpp.Handles.{Session, wrap_unmanaged_session}

-- The handler of a PrivData; an empty std::function is `none`.
abbrev pub ExceptionHandler : Type 0 → Type 0
ExceptionHandler W = Option (Exn → Eff W (Unit {0}))

abbrev pub ModuleChangeCb : Type 0 → Type 0
ModuleChangeCb W = Session → ℕ → Text → Option Text → Event → ℕ → Eff W ErrorCode

-- The callback may replace the node that it is given by reference, also if it throws.
abbrev pub OperGetCb : Type 0 → Type 0 → Type 0
OperGetCb W Node =
    Session → ℕ → Text → Option Text → Option Text → ℕ → Eff (W × Option Node) ErrorCode

abbrev pub RpcActionCb : Type 0 → Type 0 → Type 0
RpcActionCb W Node = Session → ℕ → Text → Node → Event → ℕ → Node → Eff W ErrorCode

abbrev pub NotifCb : Type 0 → Type 0 → Type 0
NotifCb W Node = Session → ℕ → NotificationType → Option Node → ℤ → Eff W (Unit {0})

-- A computation that does not look at the second part of the state.
abbrev pub beside : {W S A : Type 0} → Result A × W → S → Result A × (W × S)
beside (r, w) s = (r, (w, s))

abbrev pub lift : {W S A : Type 0} → Eff W A → Eff (W × S) A
lift m (w, s) = beside (m w) s

abbrev pub fold_node : {W S A : Type 0} → Result A × (W × S) → Result (A × S) × W
fold_node (ok a, (w, s)) = (ok (a, s), w)
fold_node (throws e, (w, s)) = (throws e, w)
fold_node (terminated, (w, s)) = (terminated, w)
fold_node (undefined, (w, s)) = (undefined, w)

-- Runs code that has a local variable besides the state, and returns the variable with the result.
abbrev pub with_node : {W S A : Type 0} → S → Eff (W × S) A → Eff W (A × S)
with_node s m w = fold_node (m (w, s))

module _ {W Node : Type 0} (api : Sysrepo W Node) where
  -- An exception of the handler ends the process, if it is a std::exception.
  unfoldable pub run_handler : (Exn → Eff W (Unit {0})) → Exn → Eff W (Unit {0})
  run_handler handler ex =
      catch_std (handler ex)
        (λ inner. do call (λ w. (tt, api.srplg_log_wrn (what inner) w)); terminate)

  -- handleExceptionFromCb
  unfoldable pub handle_exception_from_cb : Exn → ExceptionHandler W → Eff W (Unit {0})
  unfolding run_handler
  handle_exception_from_cb ex none = do call (λ w. (tt, api.srplg_log_err (what ex) w)); terminate
  handle_exception_from_cb ex (some handler) = run_handler handler ex

  -- The handler of an exception from a callback that returns a code.
  unfoldable pub failed : ExceptionHandler W → Exn → Eff W ErrorCode
  unfolding handle_exception_from_cb
  failed handler ex = do handle_exception_from_cb ex handler; pure ErrorCode.operation_failed

  unfoldable pub module_change_cb :
      ModuleChangeCb W → ExceptionHandler W → ℕ → ℕ → Text → Option Text → ℕ → ℕ → Eff W ℕ
  unfolding wrap_unmanaged_session failed
  module_change_cb callback handler session subscription_id module_name sub_xpath event request_id =
      do
        ret ←
            catch_std
              (λ w.
                callback (wrap_unmanaged_session api session w) subscription_id module_name
                  sub_xpath (to_event event) request_id w)
              (failed handler)
        pure (error_code_value ret)

  abbrev pub wrap_parent : Option ℕ → Eff W (Option Node)
  wrap_parent none = pure none
  wrap_parent (some p) = do node ← call (api.wrap_raw_node p); pure (some node)

  abbrev pub release_parent : Option Node → Eff W (Option ℕ)
  release_parent none = pure none
  release_parent (some node) = do p ← call (api.release_raw_node node); pure (some p)

  -- The code and the new value of `*parent`.
  unfoldable pub oper_get_items_cb :
      OperGetCb W Node
      → ExceptionHandler W
      → ℕ
      → ℕ
      → Text
      → Option Text
      → Option Text
      → ℕ
      → Option ℕ
      → Eff W (ℕ × Option ℕ)
  unfolding wrap_unmanaged_session failed
  oper_get_items_cb callback handler session subscription_id module_name sub_xpath request_xpath
        request_id parent =
      do
        node ← wrap_parent parent
        called ← with_node node (
            catch_std
              (λ s.
                callback (wrap_unmanaged_session api session s.0) subscription_id module_name
                  sub_xpath request_xpath request_id s)
              (λ ex. lift (failed handler ex)))
        new_parent ← release_parent called.1
        pure (error_code_value called.0, new_parent)

  unfoldable pub rpc_action_cb :
      RpcActionCb W Node → ExceptionHandler W → ℕ → ℕ → Text → ℕ → ℕ → ℕ → ℕ → Eff W ℕ
  unfolding wrap_unmanaged_session failed
  rpc_action_cb callback handler session subscription_id operation_path input event request_id
        output =
      do
        output_node ← call (api.wrap_raw_node output)
        ret ←
            catch_std
              (λ w.
                callback (wrap_unmanaged_session api session w) subscription_id operation_path
                  (api.wrap_unmanaged_raw_node input) (to_event event) request_id output_node w)
              (failed handler)
        released ← call (api.release_raw_node output_node)
        pure (error_code_value ret)

  abbrev pub wrap_notification : Option ℕ → Option Node
  wrap_notification none = none
  wrap_notification (some n) = some (api.wrap_unmanaged_raw_node n)

  -- A time stamp beyond the range of the clock overflows, which is undefined.
  unfoldable pub event_notif_cb :
      NotifCb W Node → ExceptionHandler W → ℕ → ℕ → ℕ → Option ℕ → Timespec → Eff W (Unit {0})
  unfolding wrap_unmanaged_session handle_exception_from_cb
  event_notif_cb callback handler session subscription_id type notification timestamp =
      catch_std
        (do
          time ← dereference (to_time_point timestamp)
          (λ w.
              callback (wrap_unmanaged_session api session w) subscription_id
                (to_notification_type type) (wrap_notification notification) time w))
        (λ ex. handle_exception_from_cb ex handler)
