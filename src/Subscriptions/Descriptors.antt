-- ===== src/Subscriptions/Descriptors.antt =====
-- The descriptors that the user's event loop polls.
use sysrepo_cpp.Base.{
  ℕ, ◌≡◌, refl, ap, ◌∙◌, ◌⊎◌, inl, inr, Bool, true, false, List, [], ◌∷◌, Option, none, some, map,
  arith,
}
use mathlib.Core.Path.{subst}
use sysrepo_cpp.Effects.{Eff, Result, ok, throws, terminated, undefined, after}
use sysrepo_cpp.Capi.{Sysrepo}
use sysrepo_cpp.Subscriptions.Actions.{Action, freed, emptied, unregistered, remove_first, open_fds}
use sysrepo_cpp.Subscriptions.Safety.{IsValid, LoopFits, loop_empty}
use sysrepo_cpp.Subscriptions.Ending.{fitting}
use sysrepo_cpp.Subscriptions.Induction.{Stable, Reach-P}
use sysrepo_cpp.Subscriptions.Histories.{Reach, ExtendsContexts, Reach-IsValid}
use sysrepo_cpp.Subscriptions.Returning.{Unregisters, event_pipe_lem, destroy_returns}
use sysrepo_cpp.Subscriptions.Actions.{PrivData}
use sysrepo_cpp.Subscriptions.{
  Subscription, Object, FdHandling, construct, emplace_back, lift, drop_closure, release_context,
  event_pipe,
}
use sysrepo_cpp.Subscriptions.Lifecycle.{
  free_all, free_handler, free_members, leave_loop, leave_nacm, destructor_body, destroy_members,
  then_members, destroy,
}

open_fds-free_all : (l : List ℕ) (log : List Action) → open_fds (free_all l log) ≡ open_fds log
unfolding free_all
open_fds-free_all [] log = refl
open_fds-free_all (a ∷ l) log = open_fds-free_all l (freed a ∷ log)

open_fds-free_handler :
    (h : Option ℕ) (log : List Action) → open_fds (free_handler h log) ≡ open_fds log
open_fds-free_handler none log = refl
open_fds-free_handler (some a) log = refl

open_fds-free_members :
    {W : Type 0} (s : Subscription W) (log : List Action)
    → open_fds (free_members s log) ≡ open_fds log
unfolding free_members
open_fds-free_members s log =
    open_fds-free_all s.module_change_cbs _
    ∙ open_fds-free_all s.oper_get_cbs _
    ∙ open_fds-free_all s.rpc_action_cbs _
    ∙ open_fds-free_all s.notification_cbs _
    ∙ open_fds-free_handler s.exception_handler log

-- Each context has an event pipe, which stays the same.
abbrev pub HasPipe : {W Node : Type 0} → Sysrepo W Node → (ℕ → ℕ) → Type 0
HasPipe {W} api pipe_of = (ctx : ℕ) (w : W) → (api.sr_get_event_pipe ctx w).0 ≡ (0, pipe_of ctx)

module _ {W Node : Type 0} (api : Sysrepo W Node) (pipe_of : ℕ → ℕ) where
  -- The event loop polls the pipes of the contexts that its functions have a share of.
  abbrev pub Polled : Object W → Type 0
  Polled o = open_fds o.log ≡ map pipe_of o.loop

  pipe_found :
      (ctx pipe : ℕ) (w : W)
      → HasPipe api pipe_of
      → (event_pipe api ctx w).0 ≡ ok pipe
      → pipe ≡ pipe_of ctx
  pipe_found ctx pipe w law e =
      let found = event_pipe_lem api ctx w (λ c w. ap (λ p. p.0) (law c w)) in
      ground (arith, found, law ctx w)

  emplace_back-Polled : (p : PrivData) (o : Object W) → Polled o → Polled (emplace_back p o).1
  unfolding emplace_back
  emplace_back-Polled p o v = v

  construct-Polled :
      (sess : ℕ) (callbacks : Option (FdHandling W)) (w : W) → Polled (construct sess callbacks w)
  unfolding construct
  construct-Polled sess callbacks w = refl

  Polled-Stable : HasPipe api pipe_of → Stable api Polled
  Polled-Stable law = record {
    outside = λ w o v. v;
    stores = emplace_back-Polled;
    hands = λ h o e f v. v;
    adopts = λ c o v. v;
    polls = λ c pipe w o e v. ground (arith, v, pipe_found c pipe w law e);
    starts_nacm = λ o v. v;
    flags_nacm = λ o v. v;
    ends_nacm = λ o v. v;
  }

  -- After any history of a Subscription, the descriptors that the event loop polls are the event
  -- pipes of the contexts that its functions have a share of.
  Reach-Polled : (o : Object W) → HasPipe api pipe_of → Reach api o → Polled o
  Reach-Polled o law r = Reach-P api Polled (Polled-Stable law) o construct-Polled r

  open_fds-drop_closure :
      (ctx : ℕ) (o : Object W) → open_fds (drop_closure api ctx o).log ≡ open_fds o.log
  unfolding drop_closure
  open_fds-drop_closure ctx o = ground arith

  open_fds-release_context : (o : Object W) → open_fds (release_context api o).log ≡ open_fds o.log
  unfolding release_context
  open_fds-release_context o = ground arith

  removed :
      (c : ℕ) (loop fds : List ℕ)
      → (loop ≡ []) ⊎ (loop ≡ c ∷ [])
      → fds ≡ map pipe_of loop
      → remove_first (pipe_of c) fds ≡ []
  removed c loop fds (inl e) h = ground (arith, ap (map pipe_of) e)
  removed c loop fds (inr e) h = ground (arith, ap (map pipe_of) e)

  -- If the step returns, nothing is polled afterwards.
  abbrev Closes : Result (Unit {0}) × Object W → Type 0
  Closes (ok done, o) = open_fds o.log ≡ []
  Closes (throws e, o) = Unit {0}
  Closes (terminated, o) = Unit {0}
  Closes (undefined, o) = Unit {0}

  after-Closes :
      {A : Type 0} (r : Result A × Object W) (f : A → Eff (Object W) (Unit {0}))
      → ((a : A) → r.0 ≡ ok a → Closes (f a r.1))
      → Closes (after r f)
  after-Closes (ok a, o) f k = k a refl
  after-Closes (throws e, o) f k = tt
  after-Closes (terminated, o) f k = tt
  after-Closes (undefined, o) f k = tt

  leave_loop-Closes :
      (sub : Option ℕ) (custom : Option (FdHandling W)) (o : Object W)
      → o.self.sub ≡ sub
      → o.self.custom_event_loop_cbs ≡ custom
      → HasPipe api pipe_of
      → IsValid o
      → Polled o
      → Closes (leave_loop api sub custom o)
  unfolding leave_loop
  leave_loop-Closes none custom o s k law v p =
      p
      ∙ ap (map pipe_of) (
          loop_empty o.self.custom_event_loop_cbs o.loop
            (subst (λ s. LoopFits s o.self.custom_event_loop_cbs o.loop) s v.loop_fits))
  leave_loop-Closes (some c) none o s k law v p =
      p ∙ ap (map pipe_of) (subst (λ k. LoopFits o.self.sub k o.loop) k v.loop_fits)
  leave_loop-Closes (some c) (some fd) o s k law v p =
      let w1 = api.sr_unsubscribe_sub c o.lib in
      let o1 : Object W = record o { lib = w1; log = emptied c ∷ o.log } in
      after-Closes (lift (event_pipe api c) o1) _ (λ pipe r.
        let o2 = (lift (event_pipe api c) o1).1 in
        after-Closes (lift (fd.unregister_fd pipe) o2) _ (λ _ _.
          let o3 = (lift (fd.unregister_fd pipe) o2).1 in
          open_fds-drop_closure c (record o3 { log = unregistered pipe ∷ o3.log })
          ∙ ap (λ pipe. remove_first pipe (open_fds o.log)) (pipe_found c pipe w1 law r)
          ∙ removed c o.loop (open_fds o.log) (fitting api c fd o s k v.loop_fits) p))

  leave_nacm-Closes :
      (flag : Bool) (o : Object W) → open_fds o.log ≡ [] → Closes (leave_nacm api flag o)
  unfolding leave_nacm
  leave_nacm-Closes false o e = e
  leave_nacm-Closes true o e = e

  then_nacm-Closes :
      (flag : Bool) (r : Result (Unit {0}) × Object W)
      → Closes r
      → Closes (after r (λ _. leave_nacm api flag))
  then_nacm-Closes flag (ok done, o) e = leave_nacm-Closes flag o e
  then_nacm-Closes flag (throws x, o) e = tt
  then_nacm-Closes flag (terminated, o) e = tt
  then_nacm-Closes flag (undefined, o) e = tt

  then_members-Closes :
      (r : Result (Unit {0}) × Object W)
      → Closes r
      → (then_members api r).0 ≡ ok tt
      → open_fds (then_members api r).1.log ≡ []
  unfolding destroy_members
  then_members-Closes (ok done, o) e q =
      open_fds-free_members o.self (release_context api o).log ∙ open_fds-release_context o ∙ e
  then_members-Closes (throws x, o) e q = cc
  then_members-Closes (terminated, o) e q = cc
  then_members-Closes (undefined, o) e q = cc

  -- Let the C library hand a context that it gets back from a subscribing function, let every
  -- context have an event pipe that stays the same, and let the user's function that ends the
  -- polling of a descriptor return. Then, after any history of a Subscription, the event loop polls
  -- the event pipes of exactly the contexts that its functions have a share of; and the destructor
  -- returns, after which the event loop polls none of them.
  pub destroy-Polled :
      (o : Object W)
      → ExtendsContexts api
      → HasPipe api pipe_of
      → Unregisters api o.self.custom_event_loop_cbs
      → Reach api o
      → Polled o × ((destroy api o).0 ≡ ok tt) × (open_fds (destroy api o).1.log ≡ [])
  unfolding destroy destructor_body
  destroy-Polled o laws law ends r =
      let polled = Reach-Polled o law r in
      let valid = Reach-IsValid api o laws r in
      let returns = (destroy_returns api o valid (λ c w. ap (λ p. p.0) (law c w)) ends).0 in
      let sub = o.self.sub in
      let custom = o.self.custom_event_loop_cbs in
      let left = leave_loop-Closes sub custom o refl refl law valid polled in
      (
        polled,
        returns,
        then_members-Closes (destructor_body api o)
            (then_nacm-Closes o.self.did_nacm_init (leave_loop api sub custom o) left) returns,
      )
