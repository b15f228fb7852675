-- ===== src/Subscriptions/Returning.antt =====
-- When the destructor of a Subscription returns.
use sysrepo_cpp.Base.{ℕ, ◌≡◌, refl, Bool, true, false, Option, none, some, arith}
use sysrepo_cpp.Effects.{Result, ok, throws, terminated, undefined, after}
use sysrepo_cpp.Capi.{Sysrepo}
use sysrepo_cpp.Errors.{throw_if_error_bare}
use sysrepo_cpp.Subscriptions.{Object, FdHandling, event_pipe}
use sysrepo_cpp.Subscriptions.Safety.{IsValid}
use sysrepo_cpp.Subscriptions.Quiet.{Quiet}
use sysrepo_cpp.Subscriptions.Ending.{Released, destroy-Released}
use sysrepo_cpp.Subscriptions.Lifecycle.{
  leave_loop, leave_nacm, destructor_body, then_members, destroy,
}

module _ {W Node : Type 0} (api : Sysrepo W Node) where
  -- A context has its event pipe.
  abbrev pub HasPipes : Type 0
  HasPipes = (ctx : ℕ) (w : W) → (api.sr_get_event_pipe ctx w).0.0 ≡ 0

  -- The user's function that ends the polling of a descriptor returns.
  abbrev pub Unregisters : Option (FdHandling W) → Type 0
  Unregisters none = Unit {0}
  Unregisters (some fd) = (pipe : ℕ) (w : W) → (fd.unregister_fd pipe w).0 ≡ ok tt

  pub event_pipe_lem :
      (ctx : ℕ) (w : W)
      → HasPipes
      → event_pipe api ctx w
        ≡ (ok (api.sr_get_event_pipe ctx w).0.1, (api.sr_get_event_pipe ctx w).1)
  unfolding event_pipe throw_if_error_bare
  event_pipe_lem ctx w pipes = ground (arith, pipes ctx w)

  leave_loop_returns :
      (sub : Option ℕ) (custom : Option (FdHandling W)) (o : Object W)
      → HasPipes
      → Unregisters custom
      → (leave_loop api sub custom o).0 ≡ ok tt
  unfolding leave_loop
  leave_loop_returns none custom o pipes ends = refl
  leave_loop_returns (some c) none o pipes ends = refl
  leave_loop_returns (some c) (some fd) o pipes ends =
      let w = api.sr_unsubscribe_sub c o.lib in
      let got = api.sr_get_event_pipe c w in
      rw (event_pipe_lem c w pipes) (ground (arith, ends got.0.1 got.1))

  body_returns :
      (flag : Bool) (r : Result (Unit {0}) × Object W)
      → r.0 ≡ ok tt
      → (then_members api (after r (λ done. leave_nacm api flag))).0 ≡ ok tt
  unfolding leave_nacm
  body_returns false (ok tt, o) h = refl
  body_returns true (ok tt, o) h = refl
  body_returns flag (throws x, o) h = cc
  body_returns flag (terminated, o) h = cc
  body_returns flag (undefined, o) h = cc

  pub Released-Quiet : (r : Result (Unit {0}) × Object W) → Released r → r.0 ≡ ok tt → Quiet r.1.log
  Released-Quiet (ok done, o) q h = q
  Released-Quiet (throws x, o) q h = cc
  Released-Quiet (terminated, o) q h = cc
  Released-Quiet (undefined, o) q h = cc

  -- Let every context have its event pipe, and let the user's function that ends the polling of a
  -- descriptor return. Then the destructor of a valid Subscription returns, with or without an event
  -- loop; the C library holds no callback of it afterwards, and none was freed while it was held.
  pub destroy_returns :
      (o : Object W)
      → IsValid o
      → HasPipes
      → Unregisters o.self.custom_event_loop_cbs
      → ((destroy api o).0 ≡ ok tt) × Quiet (destroy api o).1.log
  unfolding destroy destructor_body
  destroy_returns o v pipes ends =
      let returns : (destroy api o).0 ≡ ok tt =
        body_returns o.self.did_nacm_init (leave_loop api o.self.sub o.self.custom_event_loop_cbs o)
          (leave_loop_returns o.self.sub o.self.custom_event_loop_cbs o pipes ends) in
      (returns, Released-Quiet (destroy api o) (destroy-Released api o v) returns)
