-- ===== src/Callbacks/Containment.antt =====
-- What reaches the C library when a user's callback throws.
use sysrepo_cpp.Base.{ℕ, Option, none, some, Text}
use sysrepo_cpp.Times.{Timespec}
use sysrepo_cpp.Effects.{
  Exn, error_with_code, error, out_of_range, std_exception, foreign, Result, Eff, ok, throws,
  terminated, undefined, handle_std, after, pure, call, ◌>>=◌,
}
use sysrepo_cpp.Enums.Codes.{ErrorCode, error_code_value}
use sysrepo_cpp.Capi.{Sysrepo}
use sysrepo_cpp.Handles.{wrap_unmanaged_session}
use sysrepo_cpp.Callbacks.{
  ExceptionHandler, ModuleChangeCb, OperGetCb, RpcActionCb, NotifCb, failed,
  handle_exception_from_cb, module_change_cb, oper_get_items_cb, rpc_action_cb, event_notif_cb,
  release_parent, fold_node, lift,
}
use sysrepo_cpp.Enums.Kinds.{to_event}

-- No std::exception leaves the call; an object of another type may.
abbrev pub IsContained : {A : Type 0} → Result A → Type 0
IsContained (ok a) = Unit {0}
IsContained (throws (error_with_code t c)) = ⊥
IsContained (throws (error t)) = ⊥
IsContained (throws (out_of_range t)) = ⊥
IsContained (throws (std_exception t)) = ⊥
IsContained (throws foreign) = Unit {0}
IsContained terminated = Unit {0}
IsContained undefined = Unit {0}

-- What handles each std::exception without one of its own contains them all.
handle_std-IsContained :
    {W A : Type 0} (r : Result A × W) (h : Exn → Eff W A)
    → ((e : Exn) (w : W) → IsContained (h e w).0)
    → IsContained (handle_std r h).0
handle_std-IsContained (ok a, w) h c = tt
handle_std-IsContained (throws (error_with_code t e), w) h c = c (error_with_code t e) w
handle_std-IsContained (throws (error t), w) h c = c (error t) w
handle_std-IsContained (throws (out_of_range t), w) h c = c (out_of_range t) w
handle_std-IsContained (throws (std_exception t), w) h c = c (std_exception t) w
handle_std-IsContained (throws foreign, w) h c = tt
handle_std-IsContained (terminated, w) h c = tt
handle_std-IsContained (undefined, w) h c = tt

module _ {W Node : Type 0} (api : Sysrepo W Node) where
  handle_exception_from_cb-IsContained :
      (handler : ExceptionHandler W) (e : Exn) (w : W)
      → IsContained (handle_exception_from_cb api e handler w).0
  unfolding handle_exception_from_cb
  handle_exception_from_cb-IsContained none e w = tt
  handle_exception_from_cb-IsContained (some h) e w =
      handle_std-IsContained (h e w) _ (λ inner w'. tt)

  IsContained-next :
      {A B : Type 0} (r : Result A × W) (f : A → Eff W B)
      → IsContained r.0
      → ((a : A) (w : W) → IsContained (f a w).0)
      → IsContained (after r f).0
  IsContained-next (ok a, w) f c d = d a w
  IsContained-next (throws (error_with_code t e), w) f c d = c
  IsContained-next (throws (error t), w) f c d = c
  IsContained-next (throws (out_of_range t), w) f c d = c
  IsContained-next (throws (std_exception t), w) f c d = c
  IsContained-next (throws foreign, w) f c d = tt
  IsContained-next (terminated, w) f c d = tt
  IsContained-next (undefined, w) f c d = tt

  failed-IsContained :
      (handler : ExceptionHandler W) (e : Exn) (w : W) → IsContained (failed api handler e w).0
  unfolding failed
  failed-IsContained handler e w =
      IsContained-next (handle_exception_from_cb api e handler w) _
        (handle_exception_from_cb-IsContained handler e w) (λ a w'. tt)

  handled-IsContained :
      (r : Result ErrorCode × W) (handler : ExceptionHandler W)
      → IsContained (handle_std r (failed api handler)).0
  handled-IsContained r handler =
      handle_std-IsContained r (failed api handler) (failed-IsContained handler)

  fold_node-IsContained :
      {S A : Type 0} (r : Result A × (W × S)) → IsContained r.0 → IsContained (fold_node r).0
  fold_node-IsContained (ok a, (w, s)) c = tt
  fold_node-IsContained (throws (error_with_code t e), (w, s)) c = c
  fold_node-IsContained (throws (error t), (w, s)) c = c
  fold_node-IsContained (throws (out_of_range t), (w, s)) c = c
  fold_node-IsContained (throws (std_exception t), (w, s)) c = c
  fold_node-IsContained (throws foreign, (w, s)) c = tt
  fold_node-IsContained (terminated, (w, s)) c = tt
  fold_node-IsContained (undefined, (w, s)) c = tt

  module_change_cb-IsContained :
      (cb : ModuleChangeCb W) (handler : ExceptionHandler W) (s i : ℕ) (name : Text)
      (xpath : Option Text) (event request : ℕ) (w : W)
      → IsContained (module_change_cb api cb handler s i name xpath event request w).0
  unfolding module_change_cb
  module_change_cb-IsContained cb handler s i name xpath event request w =
      IsContained-next {B = ℕ}
        (handle_std (cb (wrap_unmanaged_session api s w) i name xpath (to_event event) request w)
          (failed api handler))
        (λ ret. pure (error_code_value ret)) (handled-IsContained _ handler) (λ a w'. tt)

  rpc_action_cb-IsContained :
      (cb : RpcActionCb W Node) (handler : ExceptionHandler W) (s i : ℕ) (path : Text)
      (input event request output : ℕ) (w : W)
      → IsContained (rpc_action_cb api cb handler s i path input event request output w).0
  unfolding rpc_action_cb
  rpc_action_cb-IsContained cb handler s i path input event request output w =
      let (node, w') = api.wrap_raw_node output w in
      IsContained-next {B = ℕ}
        (handle_std
          (cb (wrap_unmanaged_session api s w') i path (api.wrap_unmanaged_raw_node input)
            (to_event event) request node w')
          (failed api handler))
        (λ ret. call (api.release_raw_node node) >>= λ p. pure (error_code_value ret))
        (handled-IsContained _ handler) (λ a w2. tt)

  event_notif_cb-IsContained :
      (cb : NotifCb W Node) (handler : ExceptionHandler W) (s i type : ℕ) (n : Option ℕ)
      (time : Timespec) (w : W)
      → IsContained (event_notif_cb api cb handler s i type n time w).0
  unfolding event_notif_cb
  event_notif_cb-IsContained cb handler s i type n time w =
      handle_std-IsContained _ _ (handle_exception_from_cb-IsContained handler)

  release_parent-IsContained :
      (r : Result (ErrorCode × Option Node) × W)
      → IsContained r.0
      → IsContained {A = ℕ × Option ℕ}
          (after r
            (λ called. release_parent api called.1 >>= λ p. pure (error_code_value called.0, p))).0
  release_parent-IsContained r c =
      IsContained-next {B = ℕ × Option ℕ} r _ c (λ called w. released called.0 called.1 w)
    where
      released :
          (code : ErrorCode) (node : Option Node) (w : W)
          → IsContained
              ((release_parent api node >>= λ p. pure {A = ℕ × Option ℕ} (error_code_value code, p))
                w).0
      released code none w = tt
      released code (some node) w = tt

  called-IsContained :
      (cb : OperGetCb W Node) (handler : ExceptionHandler W) (s i : ℕ) (name : Text)
      (sub_xpath request_xpath : Option Text) (request : ℕ) (node : Option Node) (w : W)
      → IsContained
          (fold_node (
            handle_std
              (cb (wrap_unmanaged_session api s w) i name sub_xpath request_xpath request (w, node))
              (λ ex. lift (failed api handler ex)))).0
  called-IsContained cb handler s i name sub_xpath request_xpath request n w =
      fold_node-IsContained _ (
        handle_std-IsContained _ (λ ex. lift (failed api handler ex))
          (λ ex s. failed-IsContained handler ex s.0))

  oper_get_items_cb-IsContained :
      (cb : OperGetCb W Node) (handler : ExceptionHandler W) (s i : ℕ) (name : Text)
      (sub_xpath request_xpath : Option Text) (request : ℕ) (parent : Option ℕ) (w : W)
      → IsContained
          (oper_get_items_cb api cb handler s i name sub_xpath request_xpath request parent w).0
  unfolding oper_get_items_cb
  oper_get_items_cb-IsContained cb handler s i name sub_xpath request_xpath request none w =
      release_parent-IsContained _
        (called-IsContained cb handler s i name sub_xpath request_xpath request none w)
  oper_get_items_cb-IsContained cb handler s i name sub_xpath request_xpath request (some p) w =
      let (node, w') = api.wrap_raw_node p w in
      release_parent-IsContained _
        (called-IsContained cb handler s i name sub_xpath request_xpath request (some node) w')

  -- Whatever a user's callback does, with an exception handler or without one, and whatever the
  -- handler does: none of the four functions that the C library calls lets a std::exception out.
  -- Each returns, ends the process, lets an object of another type through, or has undefined
  -- behaviour.
  pub callbacks-IsContained :
      (module_cb : ModuleChangeCb W) (oper_cb : OperGetCb W Node) (rpc_cb : RpcActionCb W Node)
      (notif_cb : NotifCb W Node) (handler : ExceptionHandler W)
      (s i event request input output : ℕ) (name : Text) (xpath request_xpath : Option Text)
      (tree : Option ℕ) (time : Timespec) (w : W)
      → IsContained (module_change_cb api module_cb handler s i name xpath event request w).0
        × IsContained
            (oper_get_items_cb api oper_cb handler s i name xpath request_xpath request tree w).0
        × IsContained (rpc_action_cb api rpc_cb handler s i name input event request output w).0
        × IsContained (event_notif_cb api notif_cb handler s i event tree time w).0
  callbacks-IsContained module_cb oper_cb rpc_cb notif_cb handler s i event request input output
        name xpath request_xpath tree time w =
      (
        module_change_cb-IsContained module_cb handler s i name xpath event request w,
        oper_get_items_cb-IsContained oper_cb handler s i name xpath request_xpath request tree w,
        rpc_action_cb-IsContained rpc_cb handler s i name input event request output w,
        event_notif_cb-IsContained notif_cb handler s i event tree time w,
      )
