-- ===== src/Subscriptions/Ending.antt =====
-- The destructor: after it the C library holds no callback, and none was freed while it did.
use mathlib.Core.Path.{subst}
use sysrepo_cpp.Base.{
  ℕ, ◌≡◌, refl, sym, ◌⊎◌, inl, inr, Bool, true, false, [], ◌∷◌, Option, none, some, arith,
  Option-cases,
}
use sysrepo_cpp.Effects.{Eff, Result, ok, throws, terminated, undefined, after}
use sysrepo_cpp.Capi.{Sysrepo}
use sysrepo_cpp.Subscriptions.Actions.{
  emptied, unsubscribed, unregistered, nacm_destroyed, held, Safe,
}
use sysrepo_cpp.Subscriptions.Safety.{loop_empty, Valid-unshared, LoopFits, AllFrom, IsValid}
use sysrepo_cpp.Subscriptions.Quiet.{
  Quiet, Quiet-unsubscribed, Quiet-free_members, from_none, Valid-emptied, Valid-neutral,
}
use sysrepo_cpp.Subscriptions.{Object, FdHandling, lift, drop_closure, release_context, event_pipe}
use sysrepo_cpp.Subscriptions.Lifecycle.{
  leave_loop, leave_nacm, destructor_body, destroy_members, then_members, destroy,
}

-- How the destruction ends.
abbrev pub Released : {W : Type 0} → Result (Unit {0}) × Object W → Type 0
Released (ok done, o) = Quiet o.log
Released (throws e, o) = ⊥
Released (terminated, o) = Safe o.log
Released (undefined, o) = Safe o.log

module _ {W Node : Type 0} (api : Sysrepo W Node) where
  drop_closure_none : (ctx : ℕ) (o : Object W) → o.loop ≡ [] → drop_closure api ctx o ≡ o
  unfolding drop_closure
  drop_closure_none ctx o e = rw (e, drop_closure) refl

  drop_closure_one :
      (ctx : ℕ) (o : Object W)
      → o.self.sub ≡ some ctx
      → o.loop ≡ ctx ∷ []
      → drop_closure api ctx o ≡ record o { loop = [] }
  unfolding drop_closure
  drop_closure_one ctx o s e = ground arith

  release_none : (o : Object W) → o.self.sub ≡ none → (release_context api o).log ≡ o.log
  unfolding release_context
  release_none o n = ground arith

  release_some :
      (o : Object W) (c : ℕ)
      → o.self.sub ≡ some c
      → o.loop ≡ []
      → (release_context api o).log ≡ unsubscribed c ∷ o.log
  unfolding release_context
  release_some o c s e = ground arith

  release_context-Quiet :
      (o : Object W) → IsValid o → o.loop ≡ [] → Quiet (release_context api o).log
  release_context-Quiet o v e = elim (Option-cases o.self.sub) [
    | inl n ↦
        subst Quiet (sym (release_none o n))
          (from_none (held o.log) (subst (λ s. AllFrom s (held o.log)) n v.owned), v.safe)
    | inr (c, s) ↦
        subst Quiet (sym (release_some o c s e))
          (Quiet-unsubscribed c o.log (subst (λ s. AllFrom s (held o.log)) s v.owned) v.safe)
  ]

  destroy_members-Quiet :
      (o : Object W) → IsValid o → o.loop ≡ [] → Quiet (destroy_members api o).log
  unfolding destroy_members
  destroy_members-Quiet o v e =
      Quiet-free_members o.self (release_context api o).log (release_context-Quiet o v e)

  -- The object stays valid, and if the step returns the event loop has no share any more.
  abbrev Leaves : Result (Unit {0}) × Object W → Type 0
  Leaves (ok done, o) = IsValid o × (o.loop ≡ [])
  Leaves (throws e, o) = IsValid o
  Leaves (terminated, o) = IsValid o
  Leaves (undefined, o) = IsValid o

  after-Leaves :
      {A : Type 0} (r : Result A × Object W) (f : A → Eff (Object W) (Unit {0}))
      → IsValid r.1
      → ((a : A) → Leaves (f a r.1))
      → Leaves (after r f)
  after-Leaves (ok a, o) f v k = k a
  after-Leaves (throws e, o) f v k = v
  after-Leaves (terminated, o) f v k = v
  after-Leaves (undefined, o) f v k = v

  pub fitting :
      (c : ℕ) (fd : FdHandling W) (o : Object W)
      → o.self.sub ≡ some c
      → o.self.custom_event_loop_cbs ≡ some fd
      → LoopFits o.self.sub o.self.custom_event_loop_cbs o.loop
      → (o.loop ≡ []) ⊎ (o.loop ≡ c ∷ [])
  fitting c fd o s k fits =
      subst (λ k. LoopFits (some c) k o.loop) k
        (subst (λ s. LoopFits s o.self.custom_event_loop_cbs o.loop) s fits)

  drop_closure-Leaves :
      (c : ℕ) (fd : FdHandling W) (o : Object W)
      → o.self.sub ≡ some c
      → o.self.custom_event_loop_cbs ≡ some fd
      → IsValid o
      → Leaves (ok tt, drop_closure api c o)
  drop_closure-Leaves c fd o s k v = elim (fitting c fd o s k v.loop_fits) [
    | inl e ↦ rw (drop_closure_none c o e) (v, e)
    | inr e ↦ rw (drop_closure_one c o s e) (Valid-unshared _ _ _ _ _ v, refl)
  ]

  leave_loop-Leaves :
      (sub : Option ℕ) (custom : Option (FdHandling W)) (o : Object W)
      → o.self.sub ≡ sub
      → o.self.custom_event_loop_cbs ≡ custom
      → IsValid o
      → Leaves (leave_loop api sub custom o)
  unfolding leave_loop
  leave_loop-Leaves none custom o s k v = (
    v,
    loop_empty o.self.custom_event_loop_cbs o.loop
        (subst (λ s. LoopFits s o.self.custom_event_loop_cbs o.loop) s v.loop_fits),
  )
  leave_loop-Leaves (some c) none o s k v =
      (v, subst (λ k. LoopFits o.self.sub k o.loop) k v.loop_fits)
  leave_loop-Leaves (some c) (some fd) o s k v =
      let w1 = api.sr_unsubscribe_sub c o.lib in
      let o1 : Object W = record o { lib = w1; log = emptied c ∷ o.log } in
      let v1 : IsValid o1 = Valid-emptied c _ _ _ _ _ v in
      after-Leaves (lift (event_pipe api c) o1) _ v1 (λ pipe.
        let o2 = (lift (event_pipe api c) o1).1 in
        after-Leaves (lift (fd.unregister_fd pipe) o2) _ v1 (λ done.
          let o3 = (lift (fd.unregister_fd pipe) o2).1 in
          drop_closure-Leaves c fd (record o3 { log = unregistered pipe ∷ o3.log }) s k
            (Valid-neutral (unregistered pipe) _ _ _ _ _ _ refl (λ a. refl) v1.loop_fits v1)))

  leave_nacm-Leaves :
      (flag : Bool) (r : Result (Unit {0}) × Object W)
      → Leaves r
      → Leaves (after r (λ done. leave_nacm api flag))
  unfolding leave_nacm
  leave_nacm-Leaves false (ok tt, o) (v, e) = (v, e)
  leave_nacm-Leaves true (ok tt, o) (v, e) =
      (Valid-neutral nacm_destroyed _ _ _ _ _ _ refl (λ a. refl) v.loop_fits v, e)
  leave_nacm-Leaves flag (throws x, o) v = v
  leave_nacm-Leaves flag (terminated, o) v = v
  leave_nacm-Leaves flag (undefined, o) v = v

  destructor_body-Leaves : (o : Object W) → IsValid o → Leaves (destructor_body api o)
  unfolding destructor_body
  destructor_body-Leaves o v =
      leave_nacm-Leaves o.self.did_nacm_init
        (leave_loop api o.self.sub o.self.custom_event_loop_cbs o)
        (leave_loop-Leaves o.self.sub o.self.custom_event_loop_cbs o refl refl v)

  then_members-Released :
      (r : Result (Unit {0}) × Object W) → Leaves r → Released (then_members api r)
  then_members-Released (ok done, o) (v, e) = destroy_members-Quiet o v e
  then_members-Released (throws x, o) v = v.safe
  then_members-Released (terminated, o) v = v.safe
  then_members-Released (undefined, o) v = v.safe

  -- Destroying a valid object lets no exception out, and at every moment of it, up to its end or to
  -- the end of the process, all that the C library holds is live; if the destructor returns, then
  -- the C library holds none of the object's callbacks.
  pub destroy-Released : (o : Object W) → IsValid o → Released (destroy api o)
  unfolding destroy
  destroy-Released o v = then_members-Released (destructor_body api o) (destructor_body-Leaves o v)
