-- ===== src/Subscriptions/Memory.antt =====
-- The storage of the callbacks and of the exception handler: what is allocated is freed once.
use sysrepo_cpp.Base.{
  ℕ, ◌+◌, ◌≤◌, ◌≡◌, refl, ◌∙◌, List, [], ◌∷◌, ◌++◌, Option, none, some, arith, ◌==◌, if◌then◌else◌,
}
use sysrepo_cpp.Capi.{Sysrepo}
use sysrepo_cpp.Subscriptions.Actions.{
  Action, created, freed, handed, emptied, unsubscribed, registered, unregistered, nacm_initialized,
  nacm_destroyed,
}
use sysrepo_cpp.Subscriptions.Induction.{Stable, Reach-P}
use sysrepo_cpp.Subscriptions.Histories.{Reach}
use sysrepo_cpp.Subscriptions.Actions.{
  CallbackKind, PrivData, module_change, oper_get, rpc_action, notification,
}
use sysrepo_cpp.Subscriptions.{
  Subscription, Object, FdHandling, construct, emplace_back, add_callback,
}
use sysrepo_cpp.Subscriptions.Lifecycle.{free_all, free_handler, free_members}

abbrev pub one_if_same : ℕ → ℕ → ℕ
one_if_same a b = if a == b then 1 else 0

-- How often an address was given out.
abbrev pub allocations : ℕ → List Action → ℕ
allocations a [] = 0
allocations a (created b s ∷ l) = one_if_same a b + allocations a l
allocations a (freed b ∷ l) = allocations a l
allocations a (handed h ∷ l) = allocations a l
allocations a (emptied c ∷ l) = allocations a l
allocations a (unsubscribed c ∷ l) = allocations a l
allocations a (registered fd ∷ l) = allocations a l
allocations a (unregistered fd ∷ l) = allocations a l
allocations a (nacm_initialized ∷ l) = allocations a l
allocations a (nacm_destroyed ∷ l) = allocations a l

-- How often it was freed.
abbrev pub frees : ℕ → List Action → ℕ
frees a [] = 0
frees a (created b s ∷ l) = frees a l
frees a (freed b ∷ l) = one_if_same a b + frees a l
frees a (handed h ∷ l) = frees a l
frees a (emptied c ∷ l) = frees a l
frees a (unsubscribed c ∷ l) = frees a l
frees a (registered fd ∷ l) = frees a l
frees a (unregistered fd ∷ l) = frees a l
frees a (nacm_initialized ∷ l) = frees a l
frees a (nacm_destroyed ∷ l) = frees a l

abbrev pub occurs : ℕ → List ℕ → ℕ
occurs a [] = 0
occurs a (b ∷ l) = one_if_same a b + occurs a l

abbrev pub occurs_in : ℕ → Option ℕ → ℕ
occurs_in a none = 0
occurs_in a (some b) = one_if_same a b

-- How often it is among the members.
abbrev pub owns : {W : Type 0} → ℕ → Subscription W → ℕ
owns a s =
    occurs a s.module_change_cbs
    + occurs a s.oper_get_cbs
    + occurs a s.rpc_action_cbs
    + occurs a s.notification_cbs
    + occurs_in a s.exception_handler

-- The members own what was allocated and not freed; nothing was allocated twice.
abbrev pub Exact : {W : Type 0} → Object W → Type 0
Exact o =
    (a : ℕ)
    → (allocations a o.log ≡ frees a o.log + owns a o.self)
      × (allocations a o.log ≤ 1)
      × (o.next_node ≤ a → allocations a o.log ≡ 0)

occurs-append : (a b : ℕ) (l : List ℕ) → occurs a (l ++ (b ∷ [])) ≡ one_if_same a b + occurs a l
occurs-append a b [] = refl
occurs-append a b (x ∷ l) = omega (arith, occurs-append a b l)

module _ {W : Type 0} where
  owns-add_callback :
      (kind : CallbackKind) (a b : ℕ) (s : Subscription W)
      → owns a (add_callback kind b s) ≡ one_if_same a b + owns a s
  owns-add_callback module_change a b s = omega (arith, occurs-append a b s.module_change_cbs)
  owns-add_callback oper_get a b s = omega (arith, occurs-append a b s.oper_get_cbs)
  owns-add_callback rpc_action a b s = omega (arith, occurs-append a b s.rpc_action_cbs)
  owns-add_callback notification a b s = omega (arith, occurs-append a b s.notification_cbs)

  emplace_back-Exact : (p : PrivData) (o : Object W) → Exact o → Exact (emplace_back p o).1
  unfolding emplace_back
  emplace_back-Exact p o v a =
      let grown = owns-add_callback p.kind a o.next_node o.self in
      (ground (arith, v a, grown), ground (arith, v a), λ le. ground (arith, v a))

  construct-Exact :
      (sess : ℕ) (callbacks : Option (FdHandling W)) (w : W) → Exact (construct sess callbacks w)
  unfolding construct
  construct-Exact sess callbacks w a = (ground arith, ground arith, λ le. ground arith)

frees-free_all :
    (a : ℕ) (l : List ℕ) (log : List Action)
    → (frees a (free_all l log) ≡ occurs a l + frees a log)
      × (allocations a (free_all l log) ≡ allocations a log)
unfolding free_all
frees-free_all a [] log = (omega arith, refl)
frees-free_all a (b ∷ l) log =
    let rest = frees-free_all a l (freed b ∷ log) in (omega (arith, rest), rest.1)

frees-free_handler :
    (a : ℕ) (h : Option ℕ) (log : List Action)
    → (frees a (free_handler h log) ≡ occurs_in a h + frees a log)
      × (allocations a (free_handler h log) ≡ allocations a log)
frees-free_handler a none log = (omega arith, refl)
frees-free_handler a (some b) log = (refl, refl)

pub frees-free_members :
    {W : Type 0} (a : ℕ) (s : Subscription W) (log : List Action)
    → (frees a (free_members s log) ≡ owns a s + frees a log)
      × (allocations a (free_members s log) ≡ allocations a log)
unfolding free_members
frees-free_members a s log =
    let l1 = free_handler s.exception_handler log in
    let l2 = free_all s.notification_cbs l1 in
    let l3 = free_all s.rpc_action_cbs l2 in
    let l4 = free_all s.oper_get_cbs l3 in
    let h1 = frees-free_handler a s.exception_handler log in
    let h2 = frees-free_all a s.notification_cbs l1 in
    let h3 = frees-free_all a s.rpc_action_cbs l2 in
    let h4 = frees-free_all a s.oper_get_cbs l3 in
    let h5 = frees-free_all a s.module_change_cbs l4 in
    (omega (arith, h1, h2, h3, h4, h5), h5.1 ∙ h4.1 ∙ h3.1 ∙ h2.1 ∙ h1.1)

module _ {W Node : Type 0} (api : Sysrepo W Node) where
  pub Exact-Stable : Stable api Exact
  Exact-Stable = record {
    outside = λ w o v. v;
    stores = emplace_back-Exact;
    hands = λ h o e f v. v;
    adopts = λ c o v. v;
    polls = λ c pipe w o e v. v;
    starts_nacm = λ o v. v;
    flags_nacm = λ o v. v;
    ends_nacm = λ o v. v;
  }

  pub Reach-Exact : (o : Object W) → Reach api o → Exact o
  Reach-Exact o r = Reach-P api Exact Exact-Stable o construct-Exact r
