-- ===== src/Lifetimes/Typing.antt =====
-- What kinds of resources the objects of a program hold, and what the deleters have captured.
use mathlib.Core.Path.{subst}
use sysrepo_cpp.Base.{
  ℕ, ◌≡◌, refl, true, false, List, [], ◌∷◌, ◌++◌, Option, none, some, length, ◌⊎◌, inl, inr, ◌==◌,
  Bool-cases,
}
use sysrepo_cpp.Lifetimes.{Resource}
use sysrepo_cpp.Lifetimes.Holders.{
  Holder, supplied, connection, data_node, context, change_collection, closure, session, lock,
  change_iterator, subscription, emptied,
}
use sysrepo_cpp.Lifetimes.Shapes.{
  Shape, Kind, absent, a_connection, managed_session, user_session, a_tree, a_context, an_iterator,
  a_subscription, kind_of, kind_at, keeps_at, is_connection, is_session, is_dependent, serves_for,
  is_managed, is_user_session, is_tree, is_context, is_iterator, is_subscription, inside,
  later_same, later_kind, is_managed_lem, is_user_session_lem,
}

-- A deleter has captured what it needs, and only that.
abbrev pub Fits : Kind → Option ℕ → Shape → Type 0
Fits k none s = is_dependent k ≡ false
Fits k (some j) s = serves_for k (kind_at s j) ≡ true

abbrev pub AllFit : Shape → Type 0
AllFit [] = Unit {0}
AllFit (x ∷ s) = Fits (kind_of x.0) x.1 s × AllFit s

-- A managed session keeps the connection that it is held with.
abbrev pub Backed : Shape → ℕ → ℕ → Type 0
Backed s m_conn m_sess =
    (is_user_session (kind_at s m_sess) ≡ true)
    ⊎ ((is_managed (kind_at s m_sess) ≡ true) × (keeps_at s m_sess ≡ some m_conn))

-- The members of an object are of the kinds that their types say.
abbrev pub Typed : Shape → Holder → Type 0
Typed s (supplied conn) = is_connection (kind_at s conn) ≡ true
Typed s (connection ctx) = is_connection (kind_at s ctx) ≡ true
Typed s (data_node data_ptr) = is_tree (kind_at s data_ptr) ≡ true
Typed s (context ctx) = is_context (kind_at s ctx) ≡ true
Typed s (change_collection sess) = is_session (kind_at s sess) ≡ true
Typed s (closure sub) = is_subscription (kind_at s sub) ≡ true
Typed s (session m_conn m_sess) = (is_connection (kind_at s m_conn) ≡ true) × Backed s m_conn m_sess
Typed s (lock m_conn m_sess) = (is_connection (kind_at s m_conn) ≡ true) × Backed s m_conn m_sess
Typed s (change_iterator m_iter m_sess) =
    (is_iterator (kind_at s m_iter) ≡ true) × (is_session (kind_at s m_sess) ≡ true)
Typed s (subscription m_sess none) = is_session (kind_at s m_sess) ≡ true
Typed s (subscription m_sess (some m_sub)) =
    (is_session (kind_at s m_sess) ≡ true) × (is_subscription (kind_at s m_sub) ≡ true)
Typed s (emptied c) = Unit {0}

abbrev pub AllTyped : Shape → List Holder → Type 0
AllTyped s [] = Unit {0}
AllTyped s (h ∷ hs) = Typed s h × AllTyped s hs

serves_absent : (k : Kind) → serves_for k absent ≡ false
serves_absent absent = refl
serves_absent a_connection = refl
serves_absent managed_session = refl
serves_absent user_session = refl
serves_absent a_tree = refl
serves_absent a_context = refl
serves_absent an_iterator = refl
serves_absent a_subscription = refl

Fits-later :
    (x : Resource × Option ℕ) (s : Shape) (k : Kind) (ks : Option ℕ)
    → Fits k ks s
    → Fits k ks (x ∷ s)
Fits-later x s k none h = h
Fits-later x s k (some j) h = later_kind (serves_for k) x s j (serves_absent k) h

Fits-same :
    (s : Shape) (k k' : Kind) (ks ks' : Option ℕ) → k ≡ k' → ks ≡ ks' → Fits k ks s → Fits k' ks' s
Fits-same s k k' ks ks' e f h = subst (λ ks. Fits k' ks s) f (subst (λ k. Fits k ks s) e h)

-- What the deleter of any block has captured.
pub all_fit : (s : Shape) (i : ℕ) → AllFit s → Fits (kind_at s i) (keeps_at s i) s
all_fit [] i v = refl
all_fit (x ∷ s) i (f, v) = elim (Bool-cases (i == length s)) [
  | inl same ↦ rw same (Fits-later x s (kind_of x.0) x.1 f)
  | inr other ↦ rw other (Fits-later x s (kind_at s i) (keeps_at s i) (all_fit s i v))
]

Backed-later :
    (x : Resource × Option ℕ) (s : Shape) (m_conn m_sess : ℕ)
    → Backed s m_conn m_sess
    → Backed (x ∷ s) m_conn m_sess
Backed-later x s m_conn m_sess (inl u) = inl (later_kind is_user_session x s m_sess refl u)
Backed-later x s m_conn m_sess (inr (m, k)) = inr (
  later_kind is_managed x s m_sess refl m,
  rw ((later_same x s m_sess (inside is_managed s m_sess refl m)).1) k,
)

-- A new block leaves the objects typed.
pub Typed-later : (x : Resource × Option ℕ) (s : Shape) (h : Holder) → Typed s h → Typed (x ∷ s) h
Typed-later x s (supplied conn) t = later_kind is_connection x s conn refl t
Typed-later x s (connection ctx) t = later_kind is_connection x s ctx refl t
Typed-later x s (data_node data_ptr) t = later_kind is_tree x s data_ptr refl t
Typed-later x s (context ctx) t = later_kind is_context x s ctx refl t
Typed-later x s (change_collection sess) t = later_kind is_session x s sess refl t
Typed-later x s (closure sub) t = later_kind is_subscription x s sub refl t
Typed-later x s (session m_conn m_sess) (c, b) =
    (later_kind is_connection x s m_conn refl c, Backed-later x s m_conn m_sess b)
Typed-later x s (lock m_conn m_sess) (c, b) =
    (later_kind is_connection x s m_conn refl c, Backed-later x s m_conn m_sess b)
Typed-later x s (change_iterator m_iter m_sess) (i, b) =
    (later_kind is_iterator x s m_iter refl i, later_kind is_session x s m_sess refl b)
Typed-later x s (subscription m_sess none) t = later_kind is_session x s m_sess refl t
Typed-later x s (subscription m_sess (some m_sub)) (t, b) =
    (later_kind is_session x s m_sess refl t, later_kind is_subscription x s m_sub refl b)
Typed-later x s (emptied c) t = tt

pub AllTyped-later :
    (x : Resource × Option ℕ) (s : Shape) (hs : List Holder) → AllTyped s hs → AllTyped (x ∷ s) hs
AllTyped-later x s [] t = tt
AllTyped-later x s (h ∷ hs) (t, ts) = (Typed-later x s h t, AllTyped-later x s hs ts)

pub AllTyped-take :
    (s : Shape) (before after : List Holder) (h : Holder)
    → AllTyped s (before ++ (h ∷ after))
    → Typed s h × AllTyped s (before ++ after)
AllTyped-take s [] after h (t, ts) = (t, ts)
AllTyped-take s (g ∷ before) after h (t, ts) =
    let ih = AllTyped-take s before after h ts in (ih.0, (t, ih.1))

pub AllTyped-put :
    (s : Shape) (before after : List Holder) (h : Holder)
    → Typed s h
    → AllTyped s (before ++ after)
    → AllTyped s (before ++ (h ∷ after))
AllTyped-put s [] after h t ts = (t, ts)
AllTyped-put s (g ∷ before) after h t (u, ts) = (u, AllTyped-put s before after h t ts)

pub Backed-IsSession :
    (s : Shape) (m_conn m_sess : ℕ) → Backed s m_conn m_sess → is_session (kind_at s m_sess) ≡ true
Backed-IsSession s m_conn m_sess (inl u) = rw (is_user_session_lem (kind_at s m_sess) u) refl
Backed-IsSession s m_conn m_sess (inr (m, k)) = rw (is_managed_lem (kind_at s m_sess) m) refl

-- A resource that needs another one keeps one of the right kind.
pub captured_kind :
    (k : Kind) (ks : Option ℕ) (s : Shape)
    → Fits k ks s
    → is_dependent k ≡ true
    → (j : ℕ) × (ks ≡ some j) × (serves_for k (kind_at s j) ≡ true)
captured_kind k none s f d = absurd (cc)
captured_kind k (some j) s f d = (j, refl, f)
