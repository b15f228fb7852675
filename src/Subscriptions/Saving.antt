-- ===== src/Subscriptions/Saving.antt =====
-- Storing a callback and keeping the context keep the invariant.
use mathlib.Core.Path.{subst}
use sysrepo_cpp.Base.{ℕ, ◌≡◌, refl, inr, List, [], ◌∷◌, Option, none, some}
use sysrepo_cpp.Effects.{Eff, Result, ok, throws, terminated, undefined, after}
use sysrepo_cpp.Capi.{Sysrepo}
use sysrepo_cpp.Subscriptions.Actions.{created}
use sysrepo_cpp.Subscriptions.Safety.{
  LoopFits, ValidAt, IsValid, Valid-created, Valid-registered, Valid-adopt, loop_empty,
}
use sysrepo_cpp.Subscriptions.Actions.{
  CallbackKind, PrivData, Stored, priv_data, module_change, oper_get, rpc_action, notification,
}
use sysrepo_cpp.Subscriptions.{
  Subscription, add_callback, Object, FdHandling, emplace_back, save_first, event_pipe,
  process_events, register_context, lift,
}

-- The state at the end of a chain of steps: where the chain stops, or the end of the later steps.
pub after_state :
    {S A B : Type 0} (P : S → Type 0) (r : Result A × S) (f : A → Eff S B)
    → P r.1
    → ((a : A) → r.0 ≡ ok a → P (f a r.1).1)
    → P (after r f).1
after_state P (ok a, s) f p q = q a refl
after_state P (throws e, s) f p q = p
after_state P (terminated, s) f p q = p
after_state P (undefined, s) f p q = p

-- A new callback is put into a list, and the other members stay.
pub add_callback_keeps :
    {W : Type 0} (kind : CallbackKind) (a : ℕ) (s : Subscription W)
    → ((add_callback kind a s).exception_handler ≡ s.exception_handler)
      × ((add_callback kind a s).sub ≡ s.sub)
add_callback_keeps module_change a s = (refl, refl)
add_callback_keeps oper_get a s = (refl, refl)
add_callback_keeps rpc_action a s = (refl, refl)
add_callback_keeps notification a s = (refl, refl)

pub added-IsValid :
    {W : Type 0} (kind : CallbackKind) (stored : Stored) (o : Object W)
    → IsValid o
    → IsValid (record o {
      self = add_callback kind o.next_node o.self;
      log = created o.next_node stored ∷ o.log;
    })
added-IsValid module_change stored o v = Valid-created _ _ _ _ _ _ _ v
added-IsValid oper_get stored o v = Valid-created _ _ _ _ _ _ _ v
added-IsValid rpc_action stored o v = Valid-created _ _ _ _ _ _ _ v
added-IsValid notification stored o v = Valid-created _ _ _ _ _ _ _ v

pub emplace_back-IsValid :
    {W : Type 0} (p : PrivData) (o : Object W) → IsValid o → IsValid (emplace_back p o).1
unfolding emplace_back
emplace_back-IsValid p o v = added-IsValid p.kind (priv_data p) o v

pub fits_one :
    {W : Type 0} (fd : FdHandling W) (ctx : ℕ) (sub : Option ℕ) (custom : Option (FdHandling W))
    (loop : List ℕ)
    → sub ≡ some ctx
    → custom ≡ some fd
    → loop ≡ []
    → LoopFits sub custom (ctx ∷ loop)
fits_one fd ctx none custom loop es ec el = cc
fits_one fd ctx (some c) none loop es ec el = cc
fits_one fd ctx (some c) (some fd') loop es ec el = inr (cc)

module _ {W Node : Type 0} (api : Sysrepo W Node) where
  pub register_context-IsValid :
      (custom : Option (FdHandling W)) (ctx : ℕ) (o : Object W)
      → o.self.sub ≡ some ctx
      → o.self.custom_event_loop_cbs ≡ custom
      → o.loop ≡ []
      → IsValid o
      → IsValid (register_context api custom ctx o).1
  register_context-IsValid none ctx o es ec el v = v
  register_context-IsValid (some fd) ctx o es ec el v =
      after_state IsValid (lift (event_pipe api ctx) o) _ v (λ pipe _.
        after_state IsValid
          (lift (fd.register_fd pipe (process_events api ctx)) (lift (event_pipe api ctx) o).1) _ v
          (λ _ _. Valid-registered _ _ _ _ _ _ pipe (fits_one fd ctx _ _ _ es ec el) v))

  -- The first context is kept.
  pub save_first-IsValid :
      (ctx : ℕ) (o : Object W)
      → o.self.sub ≡ none
      → IsValid o
      → IsValid (save_first api none ctx o).1
  save_first-IsValid ctx o e v =
      let at : ValidAt o none = subst (ValidAt o) e v in
      register_context-IsValid o.self.custom_event_loop_cbs ctx
        (record o { self = record (o.self) { sub = some ctx } }) refl refl
        (loop_empty o.self.custom_event_loop_cbs o.loop at.loop_fits) (Valid-adopt ctx _ _ _ _ at)
