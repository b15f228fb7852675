-- ===== src/Lifetimes/Programs.antt =====
-- Programs that use the classes: the objects that exist, and the steps that create, copy and
-- destroy them.
use sysrepo_cpp.Base.{ℕ, true, ◌+◌, ◌≡◌, List, [], ◌∷◌, ◌++◌, none, some}
use sysrepo_cpp.Lifetimes.{Store}
use sysrepo_cpp.Lifetimes.Classes.{Class, is_copyable, is_movable, is_assignable}
use sysrepo_cpp.Lifetimes.Stores.{shares_in}
use sysrepo_cpp.Lifetimes.Holders.{
  Holder, supplied, connection, change_collection, session, subscription, members, supply,
  open_connection, connection_of, open_session, wrap_session, wrap_data, context_of, changes_of,
  iterate, new_subscription, keep_context, poll, take_lock, copy, destruct, emptied, class_of,
  take_from, assign, move_into,
}

-- The shares that a list of objects holds.
abbrev pub held_by : List Holder → ℕ → ℕ
held_by [] j = 0
held_by (h ∷ hs) j = shares_in (members h) j + held_by hs j

pub record Program : Type 0 where
  pub store : Store
  pub holders : List Holder

-- The object is there, between others.
abbrev pub Has : Program → List Holder → Holder → List Holder → Type 0
Has p before h after = p.holders ≡ before ++ (h ∷ after)

-- The object that a piece of code creates is added to the others.
abbrev pub with_new : Program → Holder × Store → Program
with_new p made = record { store = made.1; holders = made.0 ∷ p.holders }

-- The object takes the place of another one.
abbrev pub with_replaced : List Holder → Holder × Store → List Holder → Program
with_replaced before made after = record { store = made.1; holders = before ++ (made.0 ∷ after) }

-- A step is taken on an object that the program has. The order of the objects has no meaning. What is
-- assigned to an object comes from another one of its class.
pub data Step (p : Program) : Program → Type 0 where
  supplies : (conn : ℕ) → Step p (with_new p (supply conn p.store))
  connects : (conn : ℕ) → Step p (with_new p (open_connection conn p.store))
  wraps_connection :
      (before after : List Holder) (conn : ℕ)
      → Has p before (supplied conn) after
      → Step p (with_new p (connection_of conn p.store))
  starts_session :
      (before after : List Holder) (ctx sess : ℕ)
      → Has p before (connection ctx) after
      → Step p (with_new p (open_session ctx sess p.store))
  wraps_session : (conn sess : ℕ) → Step p (with_new p (wrap_session conn sess p.store))
  gets_connection :
      (before after : List Holder) (m_conn m_sess : ℕ)
      → Has p before (session m_conn m_sess) after
      → Step p (with_new p (connection_of m_conn p.store))
  gets_data :
      (before after : List Holder) (m_conn m_sess data_ptr : ℕ)
      → Has p before (session m_conn m_sess) after
      → Step p (with_new p (wrap_data m_sess data_ptr p.store))
  gets_context :
      (before after : List Holder) (m_conn m_sess raw : ℕ)
      → Has p before (session m_conn m_sess) after
      → Step p (with_new p (context_of m_sess raw p.store))
  gets_changes :
      (before after : List Holder) (m_conn m_sess : ℕ)
      → Has p before (session m_conn m_sess) after
      → Step p (with_new p (changes_of m_sess p.store))
  begins :
      (before after : List Holder) (m_sess iter : ℕ)
      → Has p before (change_collection m_sess) after
      → Step p (with_new p (iterate m_sess iter p.store))
  subscribes :
      (before after : List Holder) (m_conn m_sess : ℕ)
      → Has p before (session m_conn m_sess) after
      → Step p (with_new p (new_subscription m_sess p.store))
  saves_context :
      (before after : List Holder) (m_sess ctx : ℕ)
      → Has p before (subscription m_sess none) after
      → Step p (with_replaced before (keep_context m_sess ctx p.store) after)
  registers :
      (before after : List Holder) (m_sess m_sub : ℕ)
      → Has p before (subscription m_sess (some m_sub)) after
      → Step p (with_new p (poll m_sub p.store))
  locks :
      (before after : List Holder) (m_conn m_sess : ℕ)
      → Has p before (session m_conn m_sess) after
      → Step p (with_new p (take_lock m_conn m_sess p.store))
  copies :
      (before after : List Holder) (h : Holder)
      → Has p before h after
      → is_copyable (class_of h) ≡ true
      → Step p (with_new p (copy h p.store))
  ends : Step p (with_new p (emptied Class.change_iterator, p.store))
  moves :
      (before after : List Holder) (h : Holder)
      → Has p before h after
      → is_movable (class_of h) ≡ true
      → Step p (record p { holders = (take_from h).0 ∷ (before ++ ((take_from h).1 ∷ after)) })
  assigns :
      (before after left right : List Holder) (target source : Holder)
      → Has p before target after
      → before ++ after ≡ left ++ (source ∷ right)
      → class_of source ≡ class_of target
      → is_assignable (class_of target) ≡ true
      → Step p (with_replaced before (assign source target p.store) after)
  moves_into :
      (before after left right : List Holder) (target source : Holder)
      → Has p before target after
      → before ++ after ≡ left ++ (source ∷ right)
      → class_of source ≡ class_of target
      → is_movable (class_of target) ≡ true
      → Step p (record {
        store = move_into target p.store;
        holders = (take_from source).0 ∷ (left ++ ((take_from source).1 ∷ right));
      })
  destroys :
      (before after : List Holder) (h : Holder)
      → Has p before h after
      → Step p (record { store = destruct h p.store; holders = before ++ after })

abbrev pub at_start : Program
at_start = record { store = record { blocks = []; released = [] }; holders = [] }

pub data Reach : Program → Type 0 where
  started : Reach at_start
  then_step : (p q : Program) → Reach p → Step p q → Reach q
