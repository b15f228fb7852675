-- ===== src/Subscriptions/Typing.antt =====
-- What is stored at the addresses that the C library has.
use mathlib.Core.Path.{subst}
use sysrepo_cpp.Base.{
  ℕ, ◌≤◌, ◌≡◌, refl, sym, ◌∙◌, List, [], ◌∷◌, Option, none, some, arith, ◌==◌, inl, inr, Bool-cases,
}
use sysrepo_cpp.Capi.{Sysrepo}
use sysrepo_cpp.Subscriptions.Actions.{
  PrivData, Stored, handler_object, priv_data, Held, Action, created, handed, held, stored_at,
}
use sysrepo_cpp.Subscriptions.Saving.{add_callback_keeps}
use sysrepo_cpp.Subscriptions.Induction.{Stable, Reach-P}
use sysrepo_cpp.Subscriptions.Histories.{Reach}
use sysrepo_cpp.Subscriptions.{Object, FdHandling, construct, emplace_back}

-- The address that a subscription was made with has the user's function for which it was asked, in a
-- PrivData of the class that the C library's function takes, and the address of the handler has one.
abbrev pub Fits : Held → List Action → Type 0
Fits h l =
    (stored_at h.callback l
      ≡ some (priv_data (record { kind = h.trampoline; callback = h.requested })))
    × (stored_at h.handler l ≡ some handler_object)

abbrev pub AllFit : List Held → List Action → Type 0
AllFit [] l = Unit {0}
AllFit (h ∷ hs) l = Fits h l × AllFit hs l

abbrev pub HandlerStored : Option ℕ → List Action → Type 0
HandlerStored none l = Unit {0}
HandlerStored (some h) l = stored_at h l ≡ some handler_object

-- All that the C library holds fits, the object's handler is where the object has it, and no
-- address has been given out that is not below the next one.
pub record Typed {W : Type 0} (o : Object W) : Type 0 where
  pub fits : AllFit (held o.log) o.log
  pub handler : HandlerStored o.self.exception_handler o.log
  pub fresh : (a : ℕ) → o.next_node ≤ a → stored_at a o.log ≡ none

-- What is stored elsewhere stays.
stays :
    (n : ℕ) (s t : Stored) (l : List Action) (a : ℕ)
    → stored_at n l ≡ none
    → stored_at a l ≡ some t
    → stored_at a (created n s ∷ l) ≡ some t
stays n s t l a free e = elim (Bool-cases (a == n)) [
  | inl same ↦ ground arith
  | inr other ↦ rw other e
]

AllFit-created :
    (hs : List Held) (n : ℕ) (s : Stored) (l : List Action)
    → stored_at n l ≡ none
    → AllFit hs l
    → AllFit hs (created n s ∷ l)
AllFit-created [] n s l free h = tt
AllFit-created (x ∷ hs) n s l free ((p, q), rest) = (
  (stays n s _ l x.callback free p, stays n s _ l x.handler free q),
  AllFit-created hs n s l free rest,
)

HandlerStored-created :
    (h : Option ℕ) (n : ℕ) (s : Stored) (l : List Action)
    → stored_at n l ≡ none
    → HandlerStored h l
    → HandlerStored h (created n s ∷ l)
HandlerStored-created none n s l free h = tt
HandlerStored-created (some k) n s l free h = stays n s _ l k free h

AllFit-same :
    (hs : List Held) (l l' : List Action)
    → ((a : ℕ) → stored_at a l' ≡ stored_at a l)
    → AllFit hs l
    → AllFit hs l'
AllFit-same [] l l' e h = tt
AllFit-same (x ∷ hs) l l' e ((p, q), rest) =
    ((e x.callback ∙ p, e x.handler ∙ q), AllFit-same hs l l' e rest)

HandlerStored-same :
    (h : Option ℕ) (l l' : List Action)
    → ((a : ℕ) → stored_at a l' ≡ stored_at a l)
    → HandlerStored h l
    → HandlerStored h l'
HandlerStored-same none l l' e h = tt
HandlerStored-same (some k) l l' e h = e k ∙ h

module _ {W : Type 0} where
  emplace_back-Typed : (p : PrivData) (o : Object W) → Typed o → Typed (emplace_back p o).1
  unfolding emplace_back
  emplace_back-Typed p o v =
      let free = v.fresh o.next_node (omega arith) in
      record {
        fits = AllFit-created (held o.log) o.next_node (priv_data p) o.log free v.fits;
        handler =
            subst (λ h. HandlerStored h (created o.next_node (priv_data p) ∷ o.log))
              (sym (add_callback_keeps p.kind o.next_node o.self).0)
              (HandlerStored-created o.self.exception_handler o.next_node (priv_data p) o.log free
                v.handler);
        fresh = λ a le. ground (arith, v.fresh a);
      }

  -- An action that is only noted.
  noted-Typed :
      (o o' : Object W)
      → o'.self.exception_handler ≡ o.self.exception_handler
      → o'.next_node ≡ o.next_node
      → held o'.log ≡ held o.log
      → ((a : ℕ) → stored_at a o'.log ≡ stored_at a o.log)
      → Typed o
      → Typed o'
  noted-Typed o o' eh en el es v = record {
    fits =
        subst (λ hs. AllFit hs o'.log) (sym el) (AllFit-same (held o.log) o.log o'.log es v.fits);
    handler =
        subst (λ h. HandlerStored h o'.log) (sym eh)
          (HandlerStored-same o.self.exception_handler o.log o'.log es v.handler);
    fresh = λ a le. es a ∙ v.fresh a (subst (λ n. n ≤ a) en le);
  }

  handed-Typed :
      (h : Held) (o : Object W)
      → stored_at h.callback o.log
        ≡ some (priv_data (record { kind = h.trampoline; callback = h.requested }))
      → o.self.exception_handler ≡ some h.handler
      → Typed o
      → Typed (record o { log = handed h ∷ o.log })
  handed-Typed h o e f v =
      let at : stored_at h.handler o.log ≡ some handler_object =
        subst (λ k. HandlerStored k o.log) f v.handler in
      record {
        fits = ((e, at), AllFit-same (held o.log) o.log (handed h ∷ o.log) (λ a. refl) v.fits);
        handler =
            HandlerStored-same o.self.exception_handler o.log (handed h ∷ o.log) (λ a. refl)
              v.handler;
        fresh = v.fresh;
      }

  construct-Typed :
      (sess : ℕ) (callbacks : Option (FdHandling W)) (w : W) → Typed (construct sess callbacks w)
  unfolding construct
  construct-Typed sess callbacks w = record {
    fits = tt;
    handler = refl;
    fresh = λ a le. ground arith;
  }

module _ {W Node : Type 0} (api : Sysrepo W Node) where
  Typed-Stable : Stable api Typed
  Typed-Stable = record {
    outside = λ w o v. noted-Typed o _ refl refl refl (λ a. refl) v;
    stores = emplace_back-Typed;
    hands = handed-Typed;
    adopts = λ c o v. noted-Typed o _ refl refl refl (λ a. refl) v;
    polls = λ c pipe w o e v. noted-Typed o _ refl refl refl (λ a. refl) v;
    starts_nacm = λ o v. noted-Typed o _ refl refl refl (λ a. refl) v;
    flags_nacm = λ o v. noted-Typed o _ refl refl refl (λ a. refl) v;
    ends_nacm = λ o v. noted-Typed o _ refl refl refl (λ a. refl) v;
  }

  pub Reach-Typed : (o : Object W) → Reach api o → Typed o
  Reach-Typed o r = Reach-P api Typed Typed-Stable o construct-Typed r
