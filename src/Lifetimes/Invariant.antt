-- ===== src/Lifetimes/Invariant.antt =====
-- In every program each share that is out is a share of an object or of the deleter of a live block.
use sysrepo_cpp.Base.{ℕ, ◌+◌, ◌-◌, ◌<◌, ◌≤◌, ◌≡◌, refl, List, [], ◌∷◌, ◌++◌, none, some, arith}
use sysrepo_cpp.Lifetimes.{Resource, make_pointer, copy_pointers, destroy_pointers}
use sysrepo_cpp.Lifetimes.Ordering.{Sound, Sound-same}
use sysrepo_cpp.Lifetimes.Stores.{shares_in, destroy_pointers-Sound}
use sysrepo_cpp.Lifetimes.Assigning.{assign_pointers-Sound}
use sysrepo_cpp.Lifetimes.Holders.{
  Holder, supplied, connection, change_collection, session, subscription, members, keep_context,
  take_lock, copy, destruct, take_from, assign, move_into,
}
use sysrepo_cpp.Lifetimes.Creations.{
  made-Sound, supply-Adds, open_connection-Adds, connection_of-Adds, wrap_data-Adds,
  context_of-Adds, changes_of-Adds, new_subscription-Adds, poll-Adds, copied-Adds,
  open_session-Adds, wrap_session-Adds, iterate-Adds, Adds,
}
use sysrepo_cpp.Lifetimes.Programs.{
  Program, Has, held_by, with_replaced, Step, supplies, connects, wraps_connection, starts_session,
  wraps_session, gets_connection, gets_data, gets_context, gets_changes, begins, subscribes,
  saves_context, registers, locks, copies, ends, moves, assigns, moves_into, destroys, Reach,
  started, then_step,
}

pub held_by-middle :
    (before after : List Holder) (h : Holder) (j : ℕ)
    → held_by (before ++ (h ∷ after)) j ≡ shares_in (members h) j + held_by (before ++ after) j
held_by-middle [] after h j = refl
held_by-middle (g ∷ before) after h j = omega (arith, held_by-middle before after h j)

-- An object has its own shares.
pub shares_of_object :
    (p : Program) (before after : List Holder) (h : Holder)
    → Has p before h after
    → (j : ℕ) → shares_in (members h) j ≤ held_by p.holders j
shares_of_object p before after h e j = rw e (omega (arith, held_by-middle before after h j))

-- A block that an object has a share of.
owns :
    (p : Program) (before after : List Holder) (h : Holder) (j : ℕ)
    → Has p before h after
    → 0 < shares_in (members h) j
    → 0 < held_by p.holders j
owns p before after h j e c = omega (arith, shares_of_object p before after h e j)

-- Each share that is out is a share of an object, or of the deleter of a block that is alive.
abbrev pub IsSound : Program → Type 0
IsSound p = Sound (held_by p.holders) p.store

module _ (p : Program) (v : IsSound p) where
  copy-Adds :
      (before after : List Holder) (h : Holder)
      → Has p before h after
      → Adds (held_by p.holders) (h, copy_pointers (members h) p.store)
  copy-Adds before after h e =
      copied-Adds (held_by p.holders) p.store v h (shares_of_object p before after h e)

  destroys-IsSound :
      (before after : List Holder) (h : Holder)
      → Has p before h after
      → IsSound (record { store = destruct h p.store; holders = before ++ after })
  unfolding destruct
  destroys-IsSound before after h e =
      Sound-same (λ j. held_by p.holders j - shares_in (members h) j) _
        (destroy_pointers (members h) p.store)
        (λ j. rw e (omega (arith, held_by-middle before after h j)))
        (destroy_pointers-Sound (members h) (held_by p.holders) p.store
          (shares_of_object p before after h e) v)

  saves_context-IsSound :
      (before after : List Holder) (m_sess ctx : ℕ)
      → Has p before (subscription m_sess none) after
      → IsSound (with_replaced before (keep_context m_sess ctx p.store) after)
  unfolding keep_context members
  saves_context-IsSound before after m_sess ctx e =
      made-Sound (held_by p.holders) p.store v (Resource.subscription_ctx ctx) none _ tt (λ j.
        rw e (
          omega (
            arith,
            held_by-middle before after (subscription m_sess none) j,
            held_by-middle before after
                (subscription m_sess
                  (some (make_pointer (Resource.subscription_ctx ctx) none p.store).0))
                j,
          )))

  -- The source and the target of an assignment are two objects, each with its own shares.
  pair_shares :
      (before after left right : List Holder) (target source : Holder)
      → Has p before target after
      → before ++ after ≡ left ++ (source ∷ right)
      → (j : ℕ)
      → (held_by p.holders j ≡ shares_in (members target) j + held_by (before ++ after) j)
        × (held_by (before ++ after) j ≡ shares_in (members source) j + held_by (left ++ right) j)
  pair_shares before after left right target source e f j =
      (rw e (held_by-middle before after target j), rw f (held_by-middle left right source j))

  assigns-IsSound :
      (before after left right : List Holder) (target source : Holder)
      → Has p before target after
      → before ++ after ≡ left ++ (source ∷ right)
      → IsSound (with_replaced before (assign source target p.store) after)
  unfolding assign
  assigns-IsSound before after left right target source e f =
      Sound-same _ _ _
        (λ j. omega (
          arith,
          pair_shares before after left right target source e f j,
          held_by-middle before after source j,
        ))
        (assign_pointers-Sound (members source) (members target) (held_by p.holders) p.store
          (λ j. omega (arith, pair_shares before after left right target source e f j)) v)

  moves_into-IsSound :
      (before after left right : List Holder) (target source : Holder)
      → Has p before target after
      → before ++ after ≡ left ++ (source ∷ right)
      → IsSound (record {
        store = move_into target p.store;
        holders = (take_from source).0 ∷ (left ++ ((take_from source).1 ∷ right));
      })
  unfolding move_into take_from members
  moves_into-IsSound before after left right target source e f =
      Sound-same _ _ _
        (λ j. omega (
          arith,
          pair_shares before after left right target source e f j,
          held_by-middle left right (take_from source).1 j,
        ))
        (assign_pointers-Sound [] (members target) (held_by p.holders) p.store
          (λ j. omega (arith, pair_shares before after left right target source e f j)) v)

  moves-IsSound :
      (before after : List Holder) (h : Holder)
      → Has p before h after
      → IsSound (record p { holders = (take_from h).0 ∷ (before ++ ((take_from h).1 ∷ after)) })
  unfolding take_from members
  moves-IsSound before after h e =
      Sound-same (held_by p.holders) _ p.store
        (λ j. rw e (
          omega (
            arith,
            held_by-middle before after h j,
            held_by-middle before after (take_from h).1 j,
          )))
        v

-- Every step keeps the balance.
Step-IsSound : (p q : Program) → Step p q → IsSound p → IsSound q
unfolding copy take_lock members
Step-IsSound p _ (supplies conn) v = supply-Adds _ p.store v conn
Step-IsSound p _ (connects conn) v = open_connection-Adds _ p.store v conn
Step-IsSound p _ (wraps_connection before after conn e) v =
    connection_of-Adds _ p.store v conn (owns p before after (supplied conn) conn e (ground arith))
Step-IsSound p _ (starts_session before after ctx sess e) v =
    open_session-Adds _ p.store v ctx sess
      (owns p before after (connection ctx) ctx e (ground arith))
Step-IsSound p _ (wraps_session conn sess) v = wrap_session-Adds _ p.store v conn sess
Step-IsSound p _ (gets_connection before after m_conn m_sess e) v =
    connection_of-Adds _ p.store v m_conn
      (owns p before after (session m_conn m_sess) m_conn e (ground arith))
Step-IsSound p _ (gets_data before after m_conn m_sess d e) v =
    wrap_data-Adds _ p.store v m_sess d
      (owns p before after (session m_conn m_sess) m_sess e (ground arith))
Step-IsSound p _ (gets_context before after m_conn m_sess raw e) v =
    context_of-Adds _ p.store v m_sess raw
      (owns p before after (session m_conn m_sess) m_sess e (ground arith))
Step-IsSound p _ (gets_changes before after m_conn m_sess e) v =
    changes_of-Adds _ p.store v m_sess
      (owns p before after (session m_conn m_sess) m_sess e (ground arith))
Step-IsSound p _ (begins before after m_sess iter e) v =
    iterate-Adds _ p.store v m_sess iter
      (owns p before after (change_collection m_sess) m_sess e (ground arith))
Step-IsSound p _ (subscribes before after m_conn m_sess e) v =
    new_subscription-Adds _ p.store v m_sess
      (owns p before after (session m_conn m_sess) m_sess e (ground arith))
Step-IsSound p _ (saves_context before after m_sess ctx e) v =
    saves_context-IsSound p v before after m_sess ctx e
Step-IsSound p _ (registers before after m_sess m_sub e) v =
    poll-Adds _ p.store v m_sub
      (owns p before after (subscription m_sess (some m_sub)) m_sub e (ground arith))
Step-IsSound p _ (locks before after m_conn m_sess e) v =
    copy-Adds p v before after (session m_conn m_sess) e
Step-IsSound p _ (copies before after h e c) v = copy-Adds p v before after h e
Step-IsSound p _ ends v = Sound-same (held_by p.holders) _ p.store (λ j. omega arith) v
Step-IsSound p _ (moves before after h e c) v = moves-IsSound p v before after h e
Step-IsSound p _ (assigns before after left right target source e f c d) v =
    assigns-IsSound p v before after left right target source e f
Step-IsSound p _ (moves_into before after left right target source e f c d) v =
    moves_into-IsSound p v before after left right target source e f
Step-IsSound p _ (destroys before after h e) v = destroys-IsSound p v before after h e

-- In every state that a program comes to, the use count of each block is the number of the objects'
-- shares of it and of the deleters of live blocks that have captured one.
pub Reach-IsSound : (p : Program) → Reach p → IsSound p
Reach-IsSound _ started = record {
  balanced = λ j. refl;
  accounted = λ i. ground arith;
  in_order = λ k j e p. absurd (cc);
}
Reach-IsSound _ (then_step p q r s) = Step-IsSound p q s (Reach-IsSound p r)
