-- ===== src/Subscriptions/Submitting.antt =====
-- When a subscribing method goes on after the call of the C library, the C library has kept the
-- subscription.
use sysrepo_cpp.Base.{ℕ, ◌≡◌, refl, Option, none, some, Text, inl, inr}
use sysrepo_cpp.Effects.{
  Eff, Result, ok, throws, terminated, undefined, after, dereference, ◌>>=◌, ◌>>◌,
}
use sysrepo_cpp.Capi.{Sysrepo}
use sysrepo_cpp.Errors.{throw_if_error}
use sysrepo_cpp.Errors.Throwing.{throw_if_error_cases}
use sysrepo_cpp.Subscriptions.Actions.{CallbackKind, PrivData, handed}
use sysrepo_cpp.Subscriptions.{
  Object, registration, emplace_back, save_context, kept_by_library, submit, subscribe_with, note,
  lift,
}

module _ {W Node : Type 0} (api : Sysrepo W Node) where
  -- The same steps, with what the C library keeps at the end of the ones that can fail.
  abbrev pub rest_late :
      PrivData → CallbackKind → Text → ℕ → ℕ → ℕ → ℕ × ℕ → Eff (Object W) (Unit {0})
  rest_late p trampoline msg sess priv handler got = do
    lift (throw_if_error api got.0 msg (some sess))
    note (handed (registration p trampoline got.1 priv handler))
    save_context api got.1

  abbrev pub hand_over_late :
      PrivData
      → CallbackKind
      → (ℕ → ℕ → Option ℕ → Eff W (ℕ × ℕ))
      → Text
      → ℕ
      → ℕ
      → ℕ
      → Option ℕ
      → Eff (Object W) (Unit {0})
  hand_over_late p trampoline subscribe msg sess priv handler sub = do
    got ← lift (subscribe sess priv sub)
    rest_late p trampoline msg sess priv handler got

  abbrev pub subscribe_late :
      PrivData
      → CallbackKind
      → (ℕ → ℕ → Option ℕ → Eff W (ℕ × ℕ))
      → Text
      → Eff (Object W) (Unit {0})
  subscribe_late p trampoline subscribe msg o =
      (do
        priv ← emplace_back p
        handler ← lift (dereference o.self.exception_handler)
        sess ← lift (dereference o.self.sess)
        hand_over_late p trampoline subscribe msg sess priv handler o.self.sub)
        o

  abbrev hand_over_now :
      PrivData
      → CallbackKind
      → (ℕ → ℕ → Option ℕ → Eff W (ℕ × ℕ))
      → Text
      → ℕ
      → ℕ
      → ℕ
      → Option ℕ
      → Eff (Object W) (Unit {0})
  hand_over_now p trampoline subscribe msg sess priv handler sub = do
    got ← submit p trampoline subscribe sess priv handler sub
    lift (throw_if_error api got.0 msg (some sess))
    save_context api got.1

  called_lem :
      (p : PrivData) (trampoline : CallbackKind) (msg : Text) (sess priv handler : ℕ)
      (r : Result (ℕ × ℕ) × Object W)
      → after
          (after r (λ got. do
            kept_by_library got.0 (registration p trampoline got.1 priv handler)
            λ o. (ok got, o)))
          (λ got. do lift (throw_if_error api got.0 msg (some sess)); save_context api got.1)
        ≡ after r (rest_late p trampoline msg sess priv handler)
  called_lem p trampoline msg sess priv handler (ok got, o) =
      elim (throw_if_error_cases api got.0 msg (some sess) o.lib) [
        | inl (e, returns) ↦ rw (e, returns) refl
        | inr (x, e, fails) ↦ rw (e, fails) refl
      ]
  called_lem p trampoline msg sess priv handler (throws x, o) = refl
  called_lem p trampoline msg sess priv handler (terminated, o) = refl
  called_lem p trampoline msg sess priv handler (undefined, o) = refl

  hand_over_lem :
      (p : PrivData) (trampoline : CallbackKind) (subscribe : ℕ → ℕ → Option ℕ → Eff W (ℕ × ℕ))
      (msg : Text) (sess priv handler : ℕ) (sub : Option ℕ) (o : Object W)
      → hand_over_now p trampoline subscribe msg sess priv handler sub o
        ≡ hand_over_late p trampoline subscribe msg sess priv handler sub o
  hand_over_lem p trampoline subscribe msg sess priv handler sub o =
      called_lem p trampoline msg sess priv handler (lift (subscribe sess priv sub) o)

  subscribed_lem :
      (p : PrivData) (trampoline : CallbackKind) (subscribe : ℕ → ℕ → Option ℕ → Eff W (ℕ × ℕ))
      (msg : Text) (priv : ℕ) (exception_handler session sub : Option ℕ) (o : Object W)
      → (do
        handler ← lift (dereference exception_handler)
        sess ← lift (dereference session)
        hand_over_now p trampoline subscribe msg sess priv handler sub)
          o
        ≡ (do
          handler ← lift (dereference exception_handler)
          sess ← lift (dereference session)
          hand_over_late p trampoline subscribe msg sess priv handler sub)
            o
  subscribed_lem p trampoline subscribe msg priv none session sub o = refl
  subscribed_lem p trampoline subscribe msg priv (some handler) none sub o = refl
  subscribed_lem p trampoline subscribe msg priv (some handler) (some sess) sub o =
      hand_over_lem p trampoline subscribe msg sess priv handler sub o

  pub subscribe_with_lem :
      (p : PrivData) (trampoline : CallbackKind) (subscribe : ℕ → ℕ → Option ℕ → Eff W (ℕ × ℕ))
      (msg : Text) (o : Object W)
      → subscribe_with api p trampoline subscribe msg o
        ≡ subscribe_late p trampoline subscribe msg o
  unfolding subscribe_with emplace_back
  subscribe_with_lem p trampoline subscribe msg o =
      subscribed_lem p trampoline subscribe msg o.next_node o.self.exception_handler o.self.sess
        o.self.sub (emplace_back p o).1
