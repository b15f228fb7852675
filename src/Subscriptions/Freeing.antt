-- ===== src/Subscriptions/Freeing.antt =====
-- The destructor frees what the members own, once.
use sysrepo_cpp.Base.{ℕ, ◌≤◌, ◌≡◌, Bool, true, false, List, ◌∷◌, Option, none, some, arith}
use sysrepo_cpp.Effects.{Result, ok, throws, terminated, undefined}
use sysrepo_cpp.Capi.{Sysrepo}
use sysrepo_cpp.Subscriptions.Actions.{Action, emptied, unregistered}
use sysrepo_cpp.Subscriptions.Saving.{after_state}
use sysrepo_cpp.Subscriptions.Memory.{allocations, frees, Exact, frees-free_members, Reach-Exact}
use sysrepo_cpp.Subscriptions.Histories.{Reach, ExtendsContexts, Reach-IsValid}
use sysrepo_cpp.Subscriptions.Returning.{HasPipes, Unregisters, destroy_returns}
use sysrepo_cpp.Subscriptions.{Object, FdHandling, lift, drop_closure, release_context, event_pipe}
use sysrepo_cpp.Subscriptions.Lifecycle.{
  leave_loop, leave_nacm, destructor_body, destroy_members, then_members, destroy,
}

module _ {W Node : Type 0} (api : Sysrepo W Node) where
  drop_closure-Exact : (ctx : ℕ) (o : Object W) → Exact o → Exact (drop_closure api ctx o)
  unfolding drop_closure
  drop_closure-Exact ctx o v a = ground (arith, v a)

  release_context_keeps :
      (a : ℕ) (o : Object W)
      → (allocations a (release_context api o).log ≡ allocations a o.log)
        × (frees a (release_context api o).log ≡ frees a o.log)
  unfolding release_context
  release_context_keeps a o = (ground arith, ground arith)

  leave_loop-Exact :
      (sub : Option ℕ) (custom : Option (FdHandling W)) (o : Object W)
      → Exact o
      → Exact (leave_loop api sub custom o).1
  unfolding leave_loop
  leave_loop-Exact none custom o v = v
  leave_loop-Exact (some c) none o v = v
  leave_loop-Exact (some c) (some fd) o v =
      let o1 : Object W = record o {
        lib = api.sr_unsubscribe_sub c o.lib;
        log = emptied c ∷ o.log;
      } in
      after_state Exact (lift (event_pipe api c) o1) _ v (λ pipe _.
        let o2 = (lift (event_pipe api c) o1).1 in
        after_state Exact (lift (fd.unregister_fd pipe) o2) _ v (λ _ _.
          let o3 = (lift (fd.unregister_fd pipe) o2).1 in
          drop_closure-Exact c (record o3 { log = unregistered pipe ∷ o3.log }) v))

  leave_nacm-Exact : (flag : Bool) (o : Object W) → Exact o → Exact (leave_nacm api flag o).1
  unfolding leave_nacm
  leave_nacm-Exact false o v = v
  leave_nacm-Exact true o v = v

  body-Exact : (o : Object W) → Exact o → Exact (destructor_body api o).1
  unfolding destructor_body
  body-Exact o v =
      let left = leave_loop api o.self.sub o.self.custom_event_loop_cbs o in
      let kept = leave_loop-Exact o.self.sub o.self.custom_event_loop_cbs o v in
      after_state Exact left _ kept (λ _ _. leave_nacm-Exact o.self.did_nacm_init left.1 kept)

  -- All that was allocated has been freed, once.
  abbrev pub AllFreed : List Action → Type 0
  AllFreed log = (a : ℕ) → (frees a log ≡ allocations a log) × (allocations a log ≤ 1)

  destroy_members-AllFreed : (o : Object W) → Exact o → AllFreed (destroy_members api o).log
  unfolding destroy_members
  destroy_members-AllFreed o v a =
      let released = release_context_keeps a o in
      let gone = frees-free_members a o.self (release_context api o).log in
      (omega (arith, v a, released, gone), omega (arith, v a, released, gone))

  then_members-AllFreed :
      (r : Result (Unit {0}) × Object W)
      → Exact r.1
      → (then_members api r).0 ≡ ok tt
      → AllFreed (then_members api r).1.log
  then_members-AllFreed (ok done, o) v e = destroy_members-AllFreed o v
  then_members-AllFreed (throws x, o) v e = cc
  then_members-AllFreed (terminated, o) v e = cc
  then_members-AllFreed (undefined, o) v e = cc

  -- If the destructor returns, it has freed all.
  pub returned-AllFreed :
      (o : Object W) → Reach api o → (destroy api o).0 ≡ ok tt → AllFreed (destroy api o).1.log
  unfolding destroy
  returned-AllFreed o r returns =
      then_members-AllFreed (destructor_body api o) (body-Exact o (Reach-Exact api o r)) returns

  -- Let the C library hand a context that it gets back from a subscribing function, let every
  -- context have its event pipe, and let the user's function that ends the polling of a descriptor
  -- return. Then, after any history of a Subscription, its destructor returns, and every address at
  -- which a callback or the exception handler was stored in that history has been given out once
  -- and freed once: nothing leaks, and nothing is freed twice.
  pub destroy-AllFreed :
      (o : Object W)
      → ExtendsContexts api
      → HasPipes api
      → Unregisters api o.self.custom_event_loop_cbs
      → Reach api o
      → ((destroy api o).0 ≡ ok tt) × AllFreed (destroy api o).1.log
  destroy-AllFreed o laws pipes ends r =
      let returns = (destroy_returns api o (Reach-IsValid api o laws r) pipes ends).0 in
      (returns, returned-AllFreed o r returns)
