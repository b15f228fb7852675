-- ===== src/Subscriptions/Assigning.antt =====
-- The defaulted move assignment, when the target still has a subscription of its own.
use sysrepo_cpp.Base.{
  ℕ, ◌≡◌, refl, ◌∙◌, true, false, List, [], ◌∷◌, ◌++◌, Option, none, some, arith, ◌==◌, ◌⊎◌, inl,
  inr, Bool-cases, Option-cases,
}
use mathlib.Core.Path.{subst}
use sysrepo_cpp.Capi.{Sysrepo}
use sysrepo_cpp.Subscriptions.Actions.{
  Action, freed, unsubscribed, Held, held, is_live, AllLive, Safe,
}
use sysrepo_cpp.Subscriptions.{Subscription, Object, contains, release_context}
use sysrepo_cpp.Subscriptions.Lifecycle.{free_all, free_handler, move_assign}

held-free_all : (cbs : List ℕ) (l : List Action) → held (free_all cbs l) ≡ held l
unfolding free_all
held-free_all [] l = refl
held-free_all (a ∷ cbs) l = held-free_all cbs (freed a ∷ l)

stays_dead :
    (cbs : List ℕ) (a : ℕ) (l : List Action)
    → is_live a l ≡ false
    → is_live a (free_all cbs l) ≡ false
unfolding free_all
stays_dead [] a l dead = dead
stays_dead (b ∷ cbs) a l dead = stays_dead cbs a (freed b ∷ l) (ground arith)

is_live-free_all :
    (cbs : List ℕ) (a : ℕ) (l : List Action)
    → contains a cbs ≡ true
    → is_live a (free_all cbs l) ≡ false
unfolding free_all
is_live-free_all [] a l h = cc
is_live-free_all (b ∷ cbs) a l h = elim (Bool-cases (a == b)) [
  | inl e ↦ stays_dead cbs a (freed b ∷ l) (ground arith)
  | inr e ↦ is_live-free_all cbs a (freed b ∷ l) (ground arith)
]

-- What is safe was safe before.
Safe-free_all : (cbs : List ℕ) (l : List Action) → Safe (free_all cbs l) → Safe l
unfolding free_all
Safe-free_all [] l s = s
Safe-free_all (a ∷ cbs) l s = (Safe-free_all cbs (freed a ∷ l) s).1

Safe-free_handler : (handler : Option ℕ) (l : List Action) → Safe (free_handler handler l) → Safe l
Safe-free_handler none l s = s
Safe-free_handler (some a) l s = s.1

AllLive-now : (l : List Action) → Safe l → AllLive (held l) l
AllLive-now [] s = tt
AllLive-now (x ∷ l) s = s.0

AllLive-middle :
    (newer older : List Held) (h : Held) (l : List Action)
    → AllLive (newer ++ (h ∷ older)) l
    → is_live h.callback l ≡ true
AllLive-middle [] older h l all = all.0
AllLive-middle (g ∷ newer) older h l all = AllLive-middle newer older h l all.2

module _ {W Node : Type 0} (api : Sysrepo W Node) where
  release_context_log :
      (o : Object W)
      → ((release_context api o).log ≡ o.log)
        ⊎ ((c : ℕ) × ((release_context api o).log ≡ unsubscribed c ∷ o.log))
  unfolding release_context
  release_context_log o = elim (Option-cases o.self.sub) [
    | inl e ↦ inl (ground arith)
    | inr (c, e) ↦ elim (Bool-cases (contains c o.loop)) [
      | inl e' ↦ inl (ground arith)
      | inr e' ↦ inr (c, ground arith)
    ]
  ]

  Safe-release_context : (o : Object W) → Safe (release_context api o).log → Safe o.log
  Safe-release_context o s = elim (release_context_log o) [
    | inl e ↦ subst Safe e s
    | inr (c, e) ↦ (subst Safe e s).1
  ]

  -- The state in which the assignment has freed the storage of the target.
  abbrev without_storage : Object W → Object W
  without_storage o =
      let s = o.self in
      record o {
        log = free_handler s.exception_handler (
            free_all s.notification_cbs (
              free_all s.rpc_action_cbs
                (free_all s.oper_get_cbs (free_all s.module_change_cbs o.log))));
      }

  -- If any of the subscriptions that the C library holds, the newest one or an older one, has a module
  -- change callback of the target of a move assignment, then the assignment is not safe: at some
  -- moment of it the C library holds a callback that is already freed.
  pub move_assign_unsafe :
      (other : Subscription W) (o : Object W) (newer older : List Held) (h : Held)
      → held o.log ≡ newer ++ (h ∷ older)
      → contains h.callback o.self.module_change_cbs ≡ true
      → ¬ (Safe (move_assign api other o).log)
  unfolding move_assign
  move_assign_unsafe other o newer older h e c s =
      let cbs = o.self.module_change_cbs in
      let first : Safe (free_all cbs o.log) = Safe-free_all o.self.oper_get_cbs _ (
        Safe-free_all o.self.rpc_action_cbs _ (
          Safe-free_all o.self.notification_cbs _ (
            Safe-free_handler o.self.exception_handler _
              (Safe-release_context (without_storage o) s)))) in
      let live : AllLive (newer ++ (h ∷ older)) (free_all cbs o.log) =
        subst (λ hs. AllLive hs (free_all cbs o.log)) (held-free_all cbs o.log ∙ e)
          (AllLive-now (free_all cbs o.log) first) in
      let dead : is_live h.callback (free_all cbs o.log) ≡ false =
        is_live-free_all cbs h.callback o.log c in
      let alive : is_live h.callback (free_all cbs o.log) ≡ true =
        AllLive-middle newer older h (free_all cbs o.log) live in
      cc
