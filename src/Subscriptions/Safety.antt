-- ===== src/Subscriptions/Safety.antt =====
-- The invariant of a Subscription: the C library holds no address of a callback that has been freed.
use sysrepo_cpp.Base.{ℕ, ◌≡◌, refl, ◌⊎◌, inl, true, List, [], ◌∷◌, Option, none, some, arith}
use sysrepo_cpp.Subscriptions.Actions.{
  Stored, Action, created, handed, registered, Held, held, is_live, AllLive, Safe,
}
use sysrepo_cpp.Subscriptions.{Object, FdHandling, construct}

-- Every subscription that the C library holds is in the object's own context.
abbrev pub AllFrom : Option ℕ → List Held → Type 0
AllFrom sub [] = Unit {0}
AllFrom sub (h ∷ hs) = (sub ≡ some h.context) × AllFrom sub hs

abbrev pub HandlerLive : Option ℕ → List Action → Type 0
HandlerLive none l = Unit {0}
HandlerLive (some h) l = is_live h l ≡ true

-- The event loop holds at most one share of the object's context, and none without custom callbacks.
abbrev pub LoopFits : {W : Type 0} → Option ℕ → Option (FdHandling W) → List ℕ → Type 0
LoopFits sub none l = l ≡ []
LoopFits none (some fd) l = l ≡ []
LoopFits (some c) (some fd) l = (l ≡ []) ⊎ (l ≡ c ∷ [])

pub record Valid {W : Type 0} (sub : Option ℕ) (custom : Option (FdHandling W)) (handler : Option ℕ)
    (log : List Action) (loop : List ℕ) : Type 0 where
  pub safe : Safe log
  pub live : AllLive (held log) log
  pub owned : AllFrom sub (held log)
  pub handler_live : HandlerLive handler log
  pub loop_fits : LoopFits sub custom loop

-- Whenever the C library holds a callback, the callback and its handler are live, now and at every
-- earlier moment; the C library holds callbacks only in the context that the object shares.
abbrev pub IsValid : {W : Type 0} → Object W → Type 0
IsValid o = Valid o.self.sub o.self.custom_event_loop_cbs o.self.exception_handler o.log o.loop

-- The same, of an object whose context is known.
abbrev pub ValidAt : {W : Type 0} → Object W → Option ℕ → Type 0
ValidAt o sub = Valid sub o.self.custom_event_loop_cbs o.self.exception_handler o.log o.loop

AllLive-created :
    (hs : List Held) (a : ℕ) (s : Stored) (l : List Action)
    → AllLive hs l
    → AllLive hs (created a s ∷ l)
AllLive-created [] a s l h = tt
AllLive-created (x ∷ hs) a s l h = (ground arith, ground arith, AllLive-created hs a s l h.2)

HandlerLive-created :
    (h : Option ℕ) (a : ℕ) (s : Stored) (l : List Action)
    → HandlerLive h l
    → HandlerLive h (created a s ∷ l)
HandlerLive-created none a s l v = tt
HandlerLive-created (some h) a s l v = ground arith

-- What is live stays live, and stays as it is held, by an action that neither frees nor hands over.
AllLive-registered :
    (hs : List Held) (fd : ℕ) (l : List Action) → AllLive hs l → AllLive hs (registered fd ∷ l)
AllLive-registered [] fd l h = tt
AllLive-registered (x ∷ hs) fd l h = (h.0, h.1, AllLive-registered hs fd l h.2)

AllLive-handed :
    (hs : List Held) (y : Held) (l : List Action) → AllLive hs l → AllLive hs (handed y ∷ l)
AllLive-handed [] y l h = tt
AllLive-handed (x ∷ hs) y l h = (h.0, h.1, AllLive-handed hs y l h.2)

HandlerLive-handed :
    (h : Option ℕ) (y : Held) (l : List Action) → HandlerLive h l → HandlerLive h (handed y ∷ l)
HandlerLive-handed none y l v = tt
HandlerLive-handed (some h) y l v = v

HandlerLive-registered :
    (h : Option ℕ) (fd : ℕ) (l : List Action) → HandlerLive h l → HandlerLive h (registered fd ∷ l)
HandlerLive-registered none fd l v = tt
HandlerLive-registered (some h) fd l v = v

AllFrom-none : (sub : Option ℕ) (hs : List Held) → AllFrom none hs → AllFrom sub hs
AllFrom-none sub [] h = tt
AllFrom-none sub (x ∷ hs) h = cc

module _ {W : Type 0} where
  pub Valid-created :
      (sub : Option ℕ) (custom : Option (FdHandling W)) (h : Option ℕ) (l : List Action)
      (loop : List ℕ) (a : ℕ) (s : Stored)
      → Valid sub custom h l loop
      → Valid sub custom h (created a s ∷ l) loop
  Valid-created sub custom h l loop a s v = record {
    safe = (AllLive-created (held l) a s l v.live, v.safe);
    live = AllLive-created (held l) a s l v.live;
    owned = v.owned;
    handler_live = HandlerLive-created h a s l v.handler_live;
    loop_fits = v.loop_fits;
  }

  pub Valid-handed :
      (y : Held) (sub : Option ℕ) (custom : Option (FdHandling W)) (h : Option ℕ) (l : List Action)
      (loop : List ℕ)
      → sub ≡ some y.context
      → is_live y.callback l ≡ true
      → is_live y.handler l ≡ true
      → Valid sub custom h l loop
      → Valid sub custom h (handed y ∷ l) loop
  Valid-handed y sub custom h l loop e la lk v = record {
    safe = ((la, lk, AllLive-handed (held l) y l v.live), v.safe);
    live = (la, lk, AllLive-handed (held l) y l v.live);
    owned = (e, v.owned);
    handler_live = HandlerLive-handed h y l v.handler_live;
    loop_fits = v.loop_fits;
  }

  pub Valid-registered :
      (sub : Option ℕ) (custom : Option (FdHandling W)) (h : Option ℕ) (l : List Action)
      (loop loop' : List ℕ) (fd : ℕ)
      → LoopFits sub custom loop'
      → Valid sub custom h l loop
      → Valid sub custom h (registered fd ∷ l) loop'
  Valid-registered sub custom h l loop loop' fd fits v = record {
    safe = (AllLive-registered (held l) fd l v.live, v.safe);
    live = AllLive-registered (held l) fd l v.live;
    owned = v.owned;
    handler_live = HandlerLive-registered h fd l v.handler_live;
    loop_fits = fits;
  }

  pub loop_empty :
      (custom : Option (FdHandling W)) (loop : List ℕ) → LoopFits none custom loop → loop ≡ []
  loop_empty none loop h = h
  loop_empty (some fd) loop h = h

  fits_empty :
      (sub : Option ℕ) (custom : Option (FdHandling W)) (loop : List ℕ)
      → loop ≡ []
      → LoopFits sub custom loop
  fits_empty sub none loop h = h
  fits_empty none (some fd) loop h = h
  fits_empty (some c) (some fd) loop h = inl h

  pub Valid-adopt :
      (ctx : ℕ) (custom : Option (FdHandling W)) (h : Option ℕ) (l : List Action) (loop : List ℕ)
      → Valid none custom h l loop
      → Valid (some ctx) custom h l loop
  Valid-adopt ctx custom h l loop v = record {
    safe = v.safe;
    live = v.live;
    owned = AllFrom-none (some ctx) (held l) v.owned;
    handler_live = v.handler_live;
    loop_fits = fits_empty (some ctx) custom loop (loop_empty custom loop v.loop_fits);
  }

  -- The event loop gives its share back.
  pub Valid-unshared :
      (sub : Option ℕ) (custom : Option (FdHandling W)) (h : Option ℕ) (l : List Action)
      (loop : List ℕ)
      → Valid sub custom h l loop
      → Valid sub custom h l []
  Valid-unshared sub custom h l loop v = record {
    safe = v.safe;
    live = v.live;
    owned = v.owned;
    handler_live = v.handler_live;
    loop_fits = fits_empty sub custom [] refl;
  }

pub construct-IsValid :
    {W : Type 0} (sess : ℕ) (callbacks : Option (FdHandling W)) (w : W)
    → IsValid (construct sess callbacks w)
unfolding construct
construct-IsValid sess callbacks w = record {
  safe = (tt, tt);
  live = tt;
  owned = tt;
  handler_live = refl;
  loop_fits = fits_empty none callbacks [] refl;
}
