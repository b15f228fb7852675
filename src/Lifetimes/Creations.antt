-- ===== src/Lifetimes/Creations.antt =====
-- What creates an object keeps the balance of a store.
use sysrepo_cpp.Base.{ℕ, ◌+◌, ◌<◌, ◌≤◌, ◌≡◌, Option, none, some, arith}
use sysrepo_cpp.Lifetimes.{Resource, Store, make_pointer, copy_pointer, copy_pointers}
use sysrepo_cpp.Lifetimes.Balance.{Covers, more_at}
use sysrepo_cpp.Lifetimes.Ordering.{Sound, Sound-same, copy_pointer-Sound}
use sysrepo_cpp.Lifetimes.Stores.{shares_in, make_pointer-Sound, copy_pointers-Sound}
use sysrepo_cpp.Lifetimes.Holders.{
  Holder, members, supply, open_connection, connection_of, open_session, wrap_session, wrap_data,
  context_of, changes_of, iterate, new_subscription, poll,
}

-- What creates an object from nothing, or from an object that is there, keeps the balance.
abbrev pub Adds : (ℕ → ℕ) → Holder × Store → Type 0
Adds owed made = Sound (λ j. shares_in (members made.0) j + owed j) made.1

module _ (owed : ℕ → ℕ) (st : Store) (v : Sound owed st) where
  -- A new block of which the object has the only share.
  pub made-Sound :
      (r : Resource) (keeps : Option ℕ) (f : ℕ → ℕ)
      → Covers keeps owed
      → ((j : ℕ) → f j ≡ more_at (some (make_pointer r keeps st).0) owed j)
      → Sound f (make_pointer r keeps st).1
  made-Sound r keeps f c e =
      Sound-same (more_at (some (make_pointer r keeps st).0) owed) f (make_pointer r keeps st).1
        (λ j. omega (arith, e j)) (make_pointer-Sound r keeps owed st c v)

  pub supply-Adds : (conn : ℕ) → Adds owed (supply conn st)
  unfolding supply members
  supply-Adds conn = made-Sound (Resource.supplied_connection conn) none _ tt (λ j. omega arith)

  pub open_connection-Adds : (conn : ℕ) → Adds owed (open_connection conn st)
  unfolding open_connection members
  open_connection-Adds conn = made-Sound (Resource.connection conn) none _ tt (λ j. omega arith)

  pub connection_of-Adds : (ctx : ℕ) → 0 < owed ctx → Adds owed (connection_of ctx st)
  unfolding connection_of members
  connection_of-Adds ctx c =
      Sound-same _ _ _ (λ j. omega arith) (copy_pointer-Sound ctx owed st c v)

  pub wrap_data-Adds : (sess d : ℕ) → 0 < owed sess → Adds owed (wrap_data sess d st)
  unfolding wrap_data members
  wrap_data-Adds sess d c = made-Sound (Resource.sr_data d) (some sess) _ c (λ j. omega arith)

  pub context_of-Adds : (sess raw : ℕ) → 0 < owed sess → Adds owed (context_of sess raw st)
  unfolding context_of members
  context_of-Adds sess raw c = made-Sound (Resource.context raw) (some sess) _ c (λ j. omega arith)

  pub changes_of-Adds : (sess : ℕ) → 0 < owed sess → Adds owed (changes_of sess st)
  unfolding changes_of members
  changes_of-Adds sess c = Sound-same _ _ _ (λ j. omega arith) (copy_pointer-Sound sess owed st c v)

  pub new_subscription-Adds : (sess : ℕ) → 0 < owed sess → Adds owed (new_subscription sess st)
  unfolding new_subscription members
  new_subscription-Adds sess c =
      Sound-same _ _ _ (λ j. omega arith) (copy_pointer-Sound sess owed st c v)

  pub poll-Adds : (sub : ℕ) → 0 < owed sub → Adds owed (poll sub st)
  unfolding poll members
  poll-Adds sub c = Sound-same _ _ _ (λ j. omega arith) (copy_pointer-Sound sub owed st c v)

  pub copied-Adds :
      (h : Holder)
      → ((j : ℕ) → shares_in (members h) j ≤ owed j)
      → Adds owed (h, copy_pointers (members h) st)
  copied-Adds h c =
      Sound-same _ _ _ (λ j. omega arith) (copy_pointers-Sound (members h) owed st c v)

module _ (owed : ℕ → ℕ) (st : Store) (v : Sound owed st) where
  -- Session::Session copies the connection, and captures a second copy.
  pub open_session-Adds : (ctx sess : ℕ) → 0 < owed ctx → Adds owed (open_session ctx sess st)
  unfolding open_session members
  open_session-Adds ctx sess c =
      made-Sound (more_at (some ctx) owed) (copy_pointer ctx st)
        (copy_pointer-Sound ctx owed st c v) (Resource.session sess) (some ctx) _ (ground arith)
        (λ j. omega arith)

  pub wrap_session-Adds : (conn sess : ℕ) → Adds owed (wrap_session conn sess st)
  unfolding wrap_session members
  wrap_session-Adds conn sess =
      let first = make_pointer (Resource.unmanaged_connection conn) none st in
      made-Sound (more_at (some first.0) owed) first.1
        (make_pointer-Sound (Resource.unmanaged_connection conn) none owed st tt v)
        (Resource.unmanaged_session sess) none _ tt (λ j. omega arith)

  pub iterate-Adds : (sess iter : ℕ) → 0 < owed sess → Adds owed (iterate sess iter st)
  unfolding iterate members
  iterate-Adds sess iter c =
      let made = make_pointer (Resource.change_iter iter) none st in
      Sound-same (more_at (some sess) (more_at (some made.0) owed)) _ (copy_pointer sess made.1)
        (λ j. omega arith)
        (copy_pointer-Sound sess (more_at (some made.0) owed) made.1 (ground arith)
          (make_pointer-Sound (Resource.change_iter iter) none owed st tt v))
