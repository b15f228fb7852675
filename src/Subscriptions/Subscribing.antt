-- ===== src/Subscriptions/Subscribing.antt =====
-- Subscribing keeps the invariant, whether it succeeds, fails or throws.
use mathlib.Core.Path.{subst}
use sysrepo_cpp.Base.{
  ℕ, ◌≡◌, refl, sym, ◌∙◌, ap, ◌⊎◌, inl, inr, true, List, ◌∷◌, Option, none, some, Text, arith,
}
use sysrepo_cpp.Effects.{Eff, Result, ok, ◌>>=◌, ◌>>◌, dereference}
use sysrepo_cpp.Capi.{Sysrepo}
use sysrepo_cpp.Errors.{throw_if_error}
use sysrepo_cpp.Errors.Throwing.{throw_if_error-ok}
use sysrepo_cpp.Subscriptions.Actions.{Action, created, handed, is_live}
use sysrepo_cpp.Subscriptions.Safety.{
  ValidAt, IsValid, Valid-handed, Valid-adopt, loop_empty, HandlerLive,
}
use sysrepo_cpp.Subscriptions.Actions.{CallbackKind, PrivData, Stored, priv_data, Held}
use sysrepo_cpp.Subscriptions.{
  registration, Object, emplace_back, save_first, save_context, subscribe_with, note, lift,
}
use sysrepo_cpp.Subscriptions.Submitting.{subscribe_with_lem}
use sysrepo_cpp.Subscriptions.Saving.{
  after_state, add_callback_keeps, emplace_back-IsValid, register_context-IsValid,
}

-- What the C library documents of its subscribing functions: given a context, they extend it.
abbrev pub Extends : {W : Type 0} → (ℕ → ℕ → Option ℕ → Eff W (ℕ × ℕ)) → Type 0
Extends {W} subscribe =
    (sess priv ctx : ℕ) (w : W) (got : ℕ × ℕ)
    → (subscribe sess priv (some ctx) w).0 ≡ ok got
    → got.0 ≡ 0
    → got.1 ≡ ctx

module _ {W Node : Type 0} (api : Sysrepo W Node) where
  -- The last two steps: the C library has the callback, and the context is kept.
  abbrev finish : Held → Eff (Object W) (Unit {0})
  finish h = do note (handed h); save_context api h.context

  finish_first :
      (old : Option ℕ) (h : Held) (o : Object W)
      → o.self.sub ≡ old
      → (old ≡ none) ⊎ (old ≡ some h.context)
      → is_live h.callback o.log ≡ true
      → is_live h.handler o.log ≡ true
      → IsValid o
      → IsValid (save_first api old h.context (record o { log = handed h ∷ o.log })).1
  finish_first none h o e known lp lh v =
      let at : ValidAt o none = subst (ValidAt o) e v in
      register_context-IsValid api o.self.custom_event_loop_cbs h.context
        (record o { self = record (o.self) { sub = some h.context }; log = handed h ∷ o.log }) refl
        refl (loop_empty o.self.custom_event_loop_cbs o.loop at.loop_fits)
        (Valid-handed h (some h.context) _ _ _ _ refl lp lh (Valid-adopt h.context _ _ _ _ at))
  finish_first (some c) h o e (inl bad) lp lh v = cc
  finish_first (some c) h o e (inr same) lp lh v = Valid-handed h _ _ _ _ _ (e ∙ same) lp lh v

  finish-IsValid :
      (h : Held) (o : Object W)
      → (o.self.sub ≡ none) ⊎ (o.self.sub ≡ some h.context)
      → is_live h.callback o.log ≡ true
      → is_live h.handler o.log ≡ true
      → IsValid o
      → IsValid (finish h o).1
  unfolding save_context
  finish-IsValid h o known lp lh v = finish_first o.self.sub h o refl known lp lh v

  context_known :
      (subscribe : ℕ → ℕ → Option ℕ → Eff W (ℕ × ℕ)) (sess priv : ℕ) (sub : Option ℕ) (w : W)
      (got : ℕ × ℕ)
      → Extends subscribe
      → (subscribe sess priv sub w).0 ≡ ok got
      → got.0 ≡ 0
      → (sub ≡ none) ⊎ (sub ≡ some got.1)
  context_known subscribe sess priv none w got x r z = inl refl
  context_known subscribe sess priv (some ctx) w got x r z =
      inr (ap some (sym (x sess priv ctx w got r z)))

  -- From the state in which the callback is stored at `priv` and the handler is at `handler`.
  abbrev hand_over :
      PrivData
      → CallbackKind
      → (ℕ → ℕ → Option ℕ → Eff W (ℕ × ℕ))
      → Text
      → ℕ
      → ℕ
      → ℕ
      → Option ℕ
      → Eff (Object W) (Unit {0})
  hand_over p trampoline subscribe msg sess priv handler sub = do
    got ← lift (subscribe sess priv sub)
    lift (throw_if_error api got.0 msg (some sess))
    note (handed (registration p trampoline got.1 priv handler))
    save_context api got.1

  hand_over-IsValid :
      (p : PrivData) (trampoline : CallbackKind) (subscribe : ℕ → ℕ → Option ℕ → Eff W (ℕ × ℕ))
      (msg : Text) (sess priv handler : ℕ) (o : Object W)
      → Extends subscribe
      → is_live priv o.log ≡ true
      → is_live handler o.log ≡ true
      → IsValid o
      → IsValid (hand_over p trampoline subscribe msg sess priv handler o.self.sub o).1
  hand_over-IsValid p trampoline subscribe msg sess priv handler o x lp lh v =
      after_state IsValid (lift (subscribe sess priv o.self.sub) o) _ v (λ got r.
        let o1 = (lift (subscribe sess priv o.self.sub) o).1 in
        after_state IsValid (lift (throw_if_error api got.0 msg (some sess)) o1) _ v (λ done z.
          finish-IsValid (registration p trampoline got.1 priv handler)
            (lift (throw_if_error api got.0 msg (some sess)) o1).1
            (context_known subscribe sess priv o.self.sub o.lib got x r
              (throw_if_error-ok api got.0 msg (some sess) o1.lib z))
            lp lh v))

  abbrev stored :
      PrivData
      → CallbackKind
      → (ℕ → ℕ → Option ℕ → Eff W (ℕ × ℕ))
      → Text
      → ℕ
      → Option ℕ
      → Option ℕ
      → Option ℕ
      → Eff (Object W) (Unit {0})
  stored p trampoline subscribe msg priv exception_handler session sub = do
    handler ← lift (dereference exception_handler)
    sess ← lift (dereference session)
    hand_over p trampoline subscribe msg sess priv handler sub

  stored-IsValid :
      (p : PrivData) (trampoline : CallbackKind) (subscribe : ℕ → ℕ → Option ℕ → Eff W (ℕ × ℕ))
      (msg : Text) (priv : ℕ) (exception_handler session : Option ℕ) (o : Object W)
      → Extends subscribe
      → is_live priv o.log ≡ true
      → HandlerLive exception_handler o.log
      → IsValid o
      → IsValid (stored p trampoline subscribe msg priv exception_handler session o.self.sub o).1
  stored-IsValid p trampoline subscribe msg priv none session o x lp lh v = v
  stored-IsValid p trampoline subscribe msg priv (some h) none o x lp lh v = v
  stored-IsValid p trampoline subscribe msg priv (some h) (some sess) o x lp lh v =
      hand_over-IsValid p trampoline subscribe msg sess priv h o x lp lh v

  just_created : (a : ℕ) (s : Stored) (l : List Action) → is_live a (created a s ∷ l) ≡ true
  just_created a s l = ground arith

  -- Let a function of the C library be given that hands a context that it gets back, if it
  -- succeeds. Subscribing a new callback with it keeps the invariant, whether it succeeds, fails or
  -- throws at any step: all callbacks that the C library holds are in the object's own context and
  -- are live, with their exception handler, then and at every moment before.
  pub subscribe_with-IsValid :
      (p : PrivData) (trampoline : CallbackKind) (subscribe : ℕ → ℕ → Option ℕ → Eff W (ℕ × ℕ))
      (msg : Text) (o : Object W)
      → Extends subscribe
      → IsValid o
      → IsValid (subscribe_with api p trampoline subscribe msg o).1
  unfolding emplace_back
  subscribe_with-IsValid p trampoline subscribe msg o x v =
      let o1 = (emplace_back p o).1 in
      let v1 : IsValid o1 = emplace_back-IsValid p o v in
      let same = add_callback_keeps p.kind o.next_node o.self in
      let handler_live = subst (λ h. HandlerLive h o1.log) same.0 v1.handler_live in
      let handed_to : Option ℕ → Result (Unit {0}) × Object W = λ sub.
        stored p trampoline subscribe msg o.next_node o.self.exception_handler o.self.sess sub o1 in
      let valid : IsValid (handed_to o.self.sub).1 =
        subst (λ sub. IsValid (handed_to sub).1) same.1
          (stored-IsValid p trampoline subscribe msg o.next_node o.self.exception_handler
            o.self.sess o1 x (just_created o.next_node (priv_data p) o.log) handler_live v1) in
      rw subscribe_with_lem valid
