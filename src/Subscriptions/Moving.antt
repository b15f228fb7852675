-- ===== src/Subscriptions/Moving.antt =====
-- The move constructor, with the end of the object that it leaves behind.
use mathlib.Core.Path.{subst}
use sysrepo_cpp.Base.{ℕ, ◌≡◌, refl, sym, ◌⊎◌, inl, inr, Bool-cases, true, List, ◌∷◌, arith}
use sysrepo_cpp.Capi.{Sysrepo}
use sysrepo_cpp.Subscriptions.Actions.{Action, nacm_destroyed}
use sysrepo_cpp.Subscriptions.{Object, release_context}
use sysrepo_cpp.Subscriptions.Safety.{Valid, IsValid}
use sysrepo_cpp.Subscriptions.Quiet.{Valid-neutral}
use sysrepo_cpp.Subscriptions.Lifecycle.{move_construct, destroy}

module _ {W Node : Type 0} (api : Sysrepo W Node) where
  -- The object after a move, with the object that the move left behind destroyed.
  abbrev pub moved : Object W → Object W
  moved o =
      let shell = (destroy api (record o { self = (move_construct o.self).1 })).1 in
      record shell { self = (move_construct o.self).0 }

  -- All that the object left behind can do is to end NACM.
  pub moved_cases :
      (o : Object W)
      → ((moved o).loop ≡ o.loop)
        × (((moved o).log ≡ o.log) ⊎ ((moved o).log ≡ nacm_destroyed ∷ o.log))
  unfolding move_construct destroy release_context
  moved_cases o = elim (Bool-cases o.self.did_nacm_init) [
    | inl e ↦ (ground arith, inr (ground arith))
    | inr e ↦ (ground arith, inl (ground arith))
  ]

  pub moved-IsValid : (o : Object W) → IsValid o → IsValid (moved o)
  unfolding move_construct
  moved-IsValid o v =
      let at : List Action → List ℕ → Type 0 = λ log loop.
        Valid o.self.sub o.self.custom_event_loop_cbs o.self.exception_handler log loop in
      subst (at (moved o).log) (sym (moved_cases o).0) (elim (moved_cases o).1 [
        | inl e ↦ subst (λ log. at log o.loop) (sym e) v
        | inr e ↦
            subst (λ log. at log o.loop) (sym e)
              (Valid-neutral nacm_destroyed _ _ _ _ _ _ refl (λ a. refl) v.loop_fits v)
      ])

  -- When a Subscription that initialized NACM is moved, the destructor of the object that the move
  -- left behind calls sr_nacm_destroy, while the new object still has the flag that makes its own
  -- destructor call it.
  pub moved_nacm :
      (o : Object W)
      → o.self.did_nacm_init ≡ true
      → ((moved o).log ≡ nacm_destroyed ∷ o.log) × ((moved o).self.did_nacm_init ≡ true)
  unfolding move_construct destroy release_context
  moved_nacm o e = (ground arith, e)
