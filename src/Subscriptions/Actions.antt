-- ===== src/Subscriptions/Actions.antt =====
-- What a Subscription does that others depend on, as a history with the newest action first, and what
-- the history says of the memory that the C library may use.
use sysrepo_cpp.Base.{
  Option, none, some, ℕ, ◌≡◌, Bool, true, false, not, ◌&&◌, ◌||◌, List, [], ◌∷◌, ◌==◌,
  if◌then◌else◌,
}

-- The class of a callback: one of the four std::function types of
-- include/sysrepo-cpp/Subscription.hpp. Each has a list in a Subscription, and a function of
-- src/Subscription.cpp that the C library calls.
pub data CallbackKind : Type 0 where
  module_change oper_get rpc_action notification : CallbackKind

-- A PrivData; the user's function is known by a number.
pub record PrivData : Type 0 where
  pub kind : CallbackKind
  pub callback : ℕ

-- What is stored at an address.
pub data Stored : Type 0 where
  handler_object : Stored
  priv_data : PrivData → Stored

-- A subscription that the C library accepted in a context: the address of the PrivData and of the
-- exception handler, the function that the C library calls, and the user's function for which the
-- subscription was asked for.
pub record Held : Type 0 where
  pub context : ℕ
  pub callback : ℕ
  pub handler : ℕ
  pub trampoline : CallbackKind
  pub requested : ℕ

-- `created` and `freed` are the storage of a callback or of the exception handler; `handed` is a
-- subscription that the C library accepted; `emptied` is sr_unsubscribe_sub of all subscriptions of
-- a context, and `unsubscribed` is sr_unsubscribe.
pub data Action : Type 0 where
  created : ℕ → Stored → Action
  freed : ℕ → Action
  handed : Held → Action
  emptied unsubscribed : ℕ → Action
  registered unregistered : ℕ → Action
  nacm_initialized nacm_destroyed : Action

abbrev pub drop_context : ℕ → List Held → List Held
drop_context c [] = []
drop_context c (h ∷ hs) = if h.context == c then drop_context c hs else h ∷ drop_context c hs

-- The subscriptions that the C library may serve after a history.
abbrev pub held : List Action → List Held
held [] = []
held (handed h ∷ l) = h ∷ held l
held (emptied c ∷ l) = drop_context c (held l)
held (unsubscribed c ∷ l) = drop_context c (held l)
held (created a s ∷ l) = held l
held (freed a ∷ l) = held l
held (registered fd ∷ l) = held l
held (unregistered fd ∷ l) = held l
held (nacm_initialized ∷ l) = held l
held (nacm_destroyed ∷ l) = held l

-- Whether an address holds a live object.
abbrev pub is_live : ℕ → List Action → Bool
is_live a [] = false
is_live a (created b s ∷ l) = a == b || is_live a l
is_live a (freed b ∷ l) = not (a == b) && is_live a l
is_live a (handed h ∷ l) = is_live a l
is_live a (emptied c ∷ l) = is_live a l
is_live a (unsubscribed c ∷ l) = is_live a l
is_live a (registered fd ∷ l) = is_live a l
is_live a (unregistered fd ∷ l) = is_live a l
is_live a (nacm_initialized ∷ l) = is_live a l
is_live a (nacm_destroyed ∷ l) = is_live a l

-- What an address holds, if anything.
abbrev pub stored_at : ℕ → List Action → Option Stored
stored_at a [] = none
stored_at a (created b s ∷ l) = if a == b then some s else stored_at a l
stored_at a (freed b ∷ l) = if a == b then none else stored_at a l
stored_at a (handed h ∷ l) = stored_at a l
stored_at a (emptied c ∷ l) = stored_at a l
stored_at a (unsubscribed c ∷ l) = stored_at a l
stored_at a (registered fd ∷ l) = stored_at a l
stored_at a (unregistered fd ∷ l) = stored_at a l
stored_at a (nacm_initialized ∷ l) = stored_at a l
stored_at a (nacm_destroyed ∷ l) = stored_at a l

-- Every callback that the C library may call, and its handler, is live.
abbrev pub AllLive : List Held → List Action → Type 0
AllLive [] l = Unit {0}
AllLive (h ∷ hs) l = (is_live h.callback l ≡ true) × (is_live h.handler l ≡ true) × AllLive hs l

-- So it has been at every moment of the history.
abbrev pub Safe : List Action → Type 0
Safe [] = Unit {0}
Safe (x ∷ l) = AllLive (held (x ∷ l)) (x ∷ l) × Safe l

abbrev pub remove_first : ℕ → List ℕ → List ℕ
remove_first a [] = []
remove_first a (b ∷ l) = if a == b then l else b ∷ remove_first a l

-- The file descriptors that the event loop polls after a history.
abbrev pub open_fds : List Action → List ℕ
open_fds [] = []
open_fds (registered fd ∷ l) = fd ∷ open_fds l
open_fds (unregistered fd ∷ l) = remove_first fd (open_fds l)
open_fds (created a s ∷ l) = open_fds l
open_fds (freed a ∷ l) = open_fds l
open_fds (handed h ∷ l) = open_fds l
open_fds (emptied c ∷ l) = open_fds l
open_fds (unsubscribed c ∷ l) = open_fds l
open_fds (nacm_initialized ∷ l) = open_fds l
open_fds (nacm_destroyed ∷ l) = open_fds l
