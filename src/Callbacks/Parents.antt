-- ===== src/Callbacks/Parents.antt =====
-- What the C library gets back from the callbacks: the code, and the data of an operational request.
use sysrepo_cpp.Base.{ℕ, ◌≡◌, refl, ◌∙◌, Option, none, some, Text, arith}
use sysrepo_cpp.Effects.{
  Exn, error_with_code, error, out_of_range, std_exception, foreign, Result, ok, throws, terminated,
  undefined, handle_std, after, pure, ◌>>=◌,
}
use sysrepo_cpp.Enums.Codes.{ErrorCode, error_code_value}
use sysrepo_cpp.Enums.Kinds.{to_event}
use sysrepo_cpp.Capi.{Sysrepo}
use sysrepo_cpp.Handles.{wrap_unmanaged_session}
use sysrepo_cpp.Callbacks.{
  ExceptionHandler, ModuleChangeCb, OperGetCb, failed, release_parent, fold_node, lift,
  module_change_cb, oper_get_items_cb,
}

module _ {W Node : Type 0} (api : Sysrepo W Node) where
  -- How the handling of the exception `ex`, thrown in the state w, ends: the process ends if there
  -- is no handler, or if the handler throws a std::exception; the result is `done` if the handler
  -- returns.
  abbrev pub handled : {A : Type 0} → A → Exn → ExceptionHandler W → W → Result A
  handled done ex none w = terminated
  handled done ex (some h) w = elim (h ex w).0 [
    | ok _ ↦ ok done
    | throws (error_with_code t c) ↦ terminated
    | throws (error t) ↦ terminated
    | throws (out_of_range t) ↦ terminated
    | throws (std_exception t) ↦ terminated
    | throws foreign ↦ throws foreign
    | terminated ↦ terminated
    | undefined ↦ undefined
  ]

  -- How the callback's own result reaches the C library.
  abbrev pub code_result : Result ErrorCode → ExceptionHandler W → W → Result ℕ
  code_result (ok c) handler w = ok (error_code_value c)
  code_result (throws (error_with_code t c)) handler w = handled 10 (error_with_code t c) handler w
  code_result (throws (error t)) handler w = handled 10 (error t) handler w
  code_result (throws (out_of_range t)) handler w = handled 10 (out_of_range t) handler w
  code_result (throws (std_exception t)) handler w = handled 10 (std_exception t) handler w
  code_result (throws foreign) handler w = throws foreign
  code_result terminated handler w = terminated
  code_result undefined handler w = undefined

  failed_code :
      (ex : Exn) (handler : ExceptionHandler W) (w : W)
      → (after (failed api handler ex w) (λ ret. pure (error_code_value ret))).0
        ≡ handled 10 ex handler w
  unfolding failed error_code_value
  failed_code ex none w = refl
  failed_code ex (some h) w = ground arith

  guarded_code :
      (r : Result ErrorCode × W) (handler : ExceptionHandler W)
      → (after (handle_std r (failed api handler)) (λ ret. pure (error_code_value ret))).0
        ≡ code_result r.0 handler r.1
  unfolding failed error_code_value
  guarded_code (ok c, w) handler = refl
  guarded_code (throws (error_with_code t c), w) handler =
      failed_code (error_with_code t c) handler w
  guarded_code (throws (error t), w) handler = failed_code (error t) handler w
  guarded_code (throws (out_of_range t), w) handler = failed_code (out_of_range t) handler w
  guarded_code (throws (std_exception t), w) handler = failed_code (std_exception t) handler w
  guarded_code (throws foreign, w) handler = refl
  guarded_code (terminated, w) handler = refl
  guarded_code (undefined, w) handler = refl

  -- The code that the C library gets from a module change callback, on every branch: the callback's
  -- own code, also when it is not an enumerator's; SR_ERR_OPERATION_FAILED when the callback throws
  -- a std::exception and the exception handler returns; none when there is no handler or when the
  -- handler throws a std::exception, since the process ends.
  pub module_change_cb_lem :
      (cb : ModuleChangeCb W) (handler : ExceptionHandler W) (s i : ℕ) (name : Text)
      (xpath : Option Text) (event request : ℕ) (w : W)
      → let called = cb (wrap_unmanaged_session api s w) i name xpath (to_event event) request w in
        (module_change_cb api cb handler s i name xpath event request w).0
        ≡ code_result called.0 handler called.1
  unfolding module_change_cb
  module_change_cb_lem cb handler s i name xpath event request w =
      guarded_code (cb (wrap_unmanaged_session api s w) i name xpath (to_event event) request w)
        handler

  -- The tree that the C library gets for the node in the output argument.
  abbrev pub parent_of : Option Node → W → Option ℕ
  parent_of none w = none
  parent_of (some node) w = some (api.release_raw_node node w).0

  abbrev pub wrapped : Option ℕ → W → Option Node × W
  wrapped none w = (none, w)
  wrapped (some p) w = (some (api.wrap_raw_node p w).0, (api.wrap_raw_node p w).1)

  abbrev finish : Result (ErrorCode × Option Node) × W → Result (ℕ × Option ℕ) × W
  finish r =
      after {B = ℕ × Option ℕ} r
        (λ called. release_parent api called.1 >>= λ p. pure (error_code_value called.0, p))

  finish_ok :
      (code : ErrorCode) (n : Option Node) (w : W)
      → (finish (ok (code, n), w)).0 ≡ ok (error_code_value code, parent_of n w)
  finish_ok code none w = refl
  finish_ok code (some n) w = refl

  finish-failed :
      (ex : Exn) (handler : ExceptionHandler W) (w : W) (n : Option Node) (c : ℕ)
      → handled 10 ex handler w ≡ ok c
      → (w' : W) × ((finish (fold_node (lift (failed api handler ex) (w, n)))).0
          ≡ ok (c, parent_of n w'))
  unfolding failed error_code_value
  finish-failed ex none w n c h = cc
  finish-failed ex (some f) w none c h = ((f ex w).1, ground arith)
  finish-failed ex (some f) w (some node) c h = ((f ex w).1, ground arith)

  parent_code :
      (r : Result ErrorCode × (W × Option Node)) (handler : ExceptionHandler W) (c : ℕ)
      → code_result r.0 handler r.1.0 ≡ ok c
      → (w' : W) × ((finish (fold_node (handle_std r (λ ex. lift (failed api handler ex))))).0
          ≡ ok (c, parent_of r.1.1 w'))
  parent_code (ok code, (w, n)) handler c h = (w, finish_ok code n w ∙ cc)
  parent_code (throws (error_with_code t e), (w, n)) handler c h =
      finish-failed (error_with_code t e) handler w n c h
  parent_code (throws (error t), (w, n)) handler c h = finish-failed (error t) handler w n c h
  parent_code (throws (out_of_range t), (w, n)) handler c h =
      finish-failed (out_of_range t) handler w n c h
  parent_code (throws (std_exception t), (w, n)) handler c h =
      finish-failed (std_exception t) handler w n c h
  parent_code (throws foreign, (w, n)) handler c h = cc
  parent_code (terminated, (w, n)) handler c h = cc
  parent_code (undefined, (w, n)) handler c h = cc

  -- What the callback of an operational request does, from the state w and the tree in `*parent`.
  abbrev pub oper_called :
      OperGetCb W Node
      → ℕ
      → ℕ
      → Text
      → Option Text
      → Option Text
      → ℕ
      → Option ℕ
      → W
      → Result ErrorCode × (W × Option Node)
  oper_called cb s i name sub_xpath request_xpath request parent w =
      let (node, w1) = wrapped parent w in
      cb (wrap_unmanaged_session api s w1) i name sub_xpath request_xpath request (w1, node)

  -- Whatever way an operational callback comes to a code, by returning it or by an exception that the
  -- handler takes, the C library gets that code; and its tree in `*parent` is null if the callback
  -- left nothing in its output argument, and otherwise the tree of the node that it left there, also
  -- when it threw after that.
  pub oper_get_items_cb_lem :
      (cb : OperGetCb W Node) (handler : ExceptionHandler W) (s i : ℕ) (name : Text)
      (sub_xpath request_xpath : Option Text) (request : ℕ) (parent : Option ℕ) (w : W) (c : ℕ)
      → code_result
          (oper_called cb s i name sub_xpath request_xpath request parent w).0
          handler
          (oper_called cb s i name sub_xpath request_xpath request parent w).1.0
        ≡ ok c
      → (w' : W) × ((oper_get_items_cb api cb handler s i name sub_xpath request_xpath request
            parent w).0
          ≡ ok (
            c,
            parent_of (oper_called cb s i name sub_xpath request_xpath request parent w).1.1 w',
          ))
  unfolding oper_get_items_cb
  oper_get_items_cb_lem cb handler s i name sub_xpath request_xpath request none w c h =
      parent_code _ handler c h
  oper_get_items_cb_lem cb handler s i name sub_xpath request_xpath request (some p) w c h =
      parent_code _ handler c h
