-- ===== src/Subscriptions/Quiet.antt =====
-- Actions that release what the C library holds, and actions that leave it alone.
use mathlib.Core.Path.{subst}
use sysrepo_cpp.Base.{ℕ, ◌≡◌, refl, sym, ◌∙◌, List, [], ◌∷◌, Option, none, some, arith}
use sysrepo_cpp.Subscriptions.Actions.{
  Action, freed, emptied, unsubscribed, Held, drop_context, held, is_live, AllLive, Safe,
}
use sysrepo_cpp.Subscriptions.Safety.{LoopFits, HandlerLive, AllFrom, Valid}
use sysrepo_cpp.Subscriptions.{FdHandling, Subscription}
use sysrepo_cpp.Subscriptions.Lifecycle.{free_all, free_handler, free_members}

AllLive-emptied :
    (hs : List Held) (c : ℕ) (l : List Action)
    → AllLive hs l
    → AllLive (drop_context c hs) (emptied c ∷ l)
AllLive-emptied [] c l h = tt
AllLive-emptied (x ∷ hs) c l h = ground (arith, AllLive-emptied hs c l h.2)

AllFrom-drop_context :
    (sub : Option ℕ) (hs : List Held) (c : ℕ) → AllFrom sub hs → AllFrom sub (drop_context c hs)
AllFrom-drop_context sub [] c h = tt
AllFrom-drop_context sub (x ∷ hs) c h = ground (arith, AllFrom-drop_context sub hs c h.1)

-- Dropping the only context drops everything.
drop_own : (hs : List Held) (c : ℕ) → AllFrom (some c) hs → drop_context c hs ≡ []
drop_own [] c h = refl
drop_own (x ∷ hs) c h = ground (arith, drop_own hs c h.1)

pub from_none : (hs : List Held) → AllFrom none hs → hs ≡ []
from_none [] h = refl
from_none (x ∷ hs) h = cc

-- Nothing is held, and nothing held was freed before.
abbrev pub Quiet : List Action → Type 0
Quiet l = (held l ≡ []) × Safe l

nothing_held : (hs : List Held) (l : List Action) → hs ≡ [] → AllLive hs l
nothing_held hs l e = subst (λ hs. AllLive hs l) (sym e) tt

pub Quiet-freed : (a : ℕ) (l : List Action) → Quiet l → Quiet (freed a ∷ l)
Quiet-freed a l (e, s) = (e, (nothing_held (held l) (freed a ∷ l) e, s))

pub Quiet-unsubscribed :
    (c : ℕ) (l : List Action) → AllFrom (some c) (held l) → Safe l → Quiet (unsubscribed c ∷ l)
Quiet-unsubscribed c l own s =
    let e = drop_own (held l) c own in
    (e, (nothing_held (drop_context c (held l)) (unsubscribed c ∷ l) e, s))

Quiet-free_all : (cbs : List ℕ) (l : List Action) → Quiet l → Quiet (free_all cbs l)
unfolding free_all
Quiet-free_all [] l q = q
Quiet-free_all (a ∷ cbs) l q = Quiet-free_all cbs (freed a ∷ l) (Quiet-freed a l q)

Quiet-free_handler : (h : Option ℕ) (l : List Action) → Quiet l → Quiet (free_handler h l)
Quiet-free_handler none l q = q
Quiet-free_handler (some a) l q = Quiet-freed a l q

pub Quiet-free_members :
    {W : Type 0} (s : Subscription W) (l : List Action) → Quiet l → Quiet (free_members s l)
unfolding free_members
Quiet-free_members s l q = Quiet-free_all s.module_change_cbs _ (
    Quiet-free_all s.oper_get_cbs _ (
      Quiet-free_all s.rpc_action_cbs _
        (Quiet-free_all s.notification_cbs _ (Quiet-free_handler s.exception_handler l q))))

-- An action that touches neither the memory nor the subscriptions.
AllLive-neutral :
    (hs : List Held) (x : Action) (l : List Action)
    → ((a : ℕ) → is_live a (x ∷ l) ≡ is_live a l)
    → AllLive hs l
    → AllLive hs (x ∷ l)
AllLive-neutral [] x l e h = tt
AllLive-neutral (k ∷ hs) x l e h =
    (e k.callback ∙ h.0, e k.handler ∙ h.1, AllLive-neutral hs x l e h.2)

module _ {W : Type 0} where
  pub Valid-emptied :
      (c : ℕ) (sub : Option ℕ) (custom : Option (FdHandling W)) (h : Option ℕ) (l : List Action)
      (loop : List ℕ)
      → Valid sub custom h l loop
      → Valid sub custom h (emptied c ∷ l) loop
  Valid-emptied c sub custom h l loop v = record {
    safe = (AllLive-emptied (held l) c l v.live, v.safe);
    live = AllLive-emptied (held l) c l v.live;
    owned = AllFrom-drop_context sub (held l) c v.owned;
    handler_live = still h v.handler_live;
    loop_fits = v.loop_fits;
  }
    where
      still : (h : Option ℕ) → HandlerLive h l → HandlerLive h (emptied c ∷ l)
      still none k = tt
      still (some a) k = k

  pub Valid-neutral :
      (x : Action) (sub : Option ℕ) (custom : Option (FdHandling W)) (h : Option ℕ)
      (l : List Action) (loop loop' : List ℕ)
      → held (x ∷ l) ≡ held l
      → ((a : ℕ) → is_live a (x ∷ l) ≡ is_live a l)
      → LoopFits sub custom loop'
      → Valid sub custom h l loop
      → Valid sub custom h (x ∷ l) loop'
  Valid-neutral x sub custom h l loop loop' same e fits v = record {
    safe = (still_live, v.safe);
    live = still_live;
    owned = subst (AllFrom sub) (sym same) v.owned;
    handler_live = still h v.handler_live;
    loop_fits = fits;
  }
    where
      still_live : AllLive (held (x ∷ l)) (x ∷ l)
      still_live =
          subst (λ hs. AllLive hs (x ∷ l)) (sym same) (AllLive-neutral (held l) x l e v.live)

      still : (h : Option ℕ) → HandlerLive h l → HandlerLive h (x ∷ l)
      still none k = tt
      still (some a) k = e a ∙ k
