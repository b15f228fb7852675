-- ===== src/Lifetimes/Shapes.antt =====
-- What the blocks of a store are for: the resource of each and what its deleter has captured, which
-- no use of the shared pointers changes.
use sysrepo_cpp.Base.{
  ℕ, ◌<◌, ◌≡◌, refl, ap, ◌∙◌, Bool, true, false, List, [], ◌∷◌, Option, none, some, arith, length,
  ◌==◌, if◌then◌else◌, inl, inr, ◌⊎◌,
}
use sysrepo_cpp.Lifetimes.{
  Resource, Block, Store, share, increased, elsewhere, drop_share, lessened, passed_on,
  copy_pointer, destroy_pointer, make_pointer, copy_pointers, destroy_pointers, assign_pointers,
}
use sysrepo_cpp.Lifetimes.Aliveness.{keeps_of}

abbrev pub Shape : Type 0
Shape = List (Resource × Option ℕ)

abbrev pub shape : List Block → Shape
shape [] = []
shape (b ∷ bs) = (b.resource, b.keeps) ∷ shape bs

pub length-shape : (bs : List Block) → length (shape bs) ≡ length bs
length-shape [] = refl
length-shape (b ∷ bs) = ground (arith, length-shape bs)

shape-increased :
    (target : Option ℕ) (id : ℕ) (b : Block)
    → ((increased target id b).resource ≡ b.resource) × ((increased target id b).keeps ≡ b.keeps)
shape-increased target id b = ground arith

shape-lessened :
    (target : Option ℕ) (id : ℕ) (b : Block)
    → ((lessened target id b).resource ≡ b.resource) × ((lessened target id b).keeps ≡ b.keeps)
shape-lessened target id b = ground arith

shape-share : (target : Option ℕ) (bs : List Block) → shape (share target bs) ≡ shape bs
unfolding share
shape-share target [] = refl
shape-share target (b ∷ bs) = cc (
  shape-share (elsewhere target (length bs)) bs,
  (shape-increased target (length bs) b).0,
  (shape-increased target (length bs) b).1,
)

shape-drop_share : (target : Option ℕ) (bs : List Block) → shape (drop_share target bs).0 ≡ shape bs
unfolding drop_share
shape-drop_share target [] = refl
shape-drop_share target (b ∷ bs) = cc (
  shape-drop_share (passed_on target (length bs) b) bs,
  (shape-lessened target (length bs) b).0,
  (shape-lessened target (length bs) b).1,
)

pub shape-make_pointer :
    (r : Resource) (keeps : Option ℕ) (st : Store)
    → shape (make_pointer r keeps st).1.blocks ≡ (r, keeps) ∷ shape st.blocks
unfolding make_pointer
shape-make_pointer r keeps st = ap (λ s. (r, keeps) ∷ s) (shape-share keeps st.blocks)

pub shape-copy_pointer : (a : ℕ) (st : Store) → shape (copy_pointer a st).blocks ≡ shape st.blocks
unfolding copy_pointer
shape-copy_pointer a st = shape-share (some a) st.blocks

pub shape-destroy_pointer :
    (a : ℕ) (st : Store) → shape (destroy_pointer a st).blocks ≡ shape st.blocks
unfolding destroy_pointer
shape-destroy_pointer a st = shape-drop_share (some a) st.blocks

pub shape-copy_pointers :
    (ptrs : List ℕ) (st : Store) → shape (copy_pointers ptrs st).blocks ≡ shape st.blocks
unfolding copy_pointers
shape-copy_pointers [] st = refl
shape-copy_pointers (a ∷ rest) st =
    shape-copy_pointers rest (copy_pointer a st) ∙ shape-copy_pointer a st

pub shape-destroy_pointers :
    (ptrs : List ℕ) (st : Store) → shape (destroy_pointers ptrs st).blocks ≡ shape st.blocks
unfolding destroy_pointers
shape-destroy_pointers [] st = refl
shape-destroy_pointers (a ∷ rest) st =
    shape-destroy_pointer a (destroy_pointers rest st) ∙ shape-destroy_pointers rest st

pub shape-assign_pointers :
    (news olds : List ℕ) (st : Store)
    → shape (assign_pointers news olds st).blocks ≡ shape st.blocks
unfolding assign_pointers
shape-assign_pointers [] [] st = refl
shape-assign_pointers [] (b ∷ olds) st =
    shape-assign_pointers [] olds (destroy_pointer b st) ∙ shape-destroy_pointer b st
shape-assign_pointers (a ∷ news) [] st =
    shape-assign_pointers news [] (copy_pointer a st) ∙ shape-copy_pointer a st
shape-assign_pointers (a ∷ news) (b ∷ olds) st =
    shape-assign_pointers news olds (destroy_pointer b (copy_pointer a st))
    ∙ (shape-destroy_pointer b (copy_pointer a st) ∙ shape-copy_pointer a st)

-- What a resource is for.
pub data Kind : Type 0 where
  absent a_connection managed_session user_session a_tree a_context an_iterator a_subscription :
      Kind

abbrev pub kind_of : Resource → Kind
kind_of (Resource.connection c) = a_connection
kind_of (Resource.session s) = managed_session
kind_of (Resource.sr_data d) = a_tree
kind_of (Resource.context c) = a_context
kind_of (Resource.change_iter i) = an_iterator
kind_of (Resource.subscription_ctx c) = a_subscription
kind_of (Resource.supplied_connection c) = a_connection
kind_of (Resource.unmanaged_connection c) = a_connection
kind_of (Resource.unmanaged_session s) = user_session

abbrev pub kind_at : Shape → ℕ → Kind
kind_at [] i = absent
kind_at (x ∷ xs) i = if i == length xs then kind_of x.0 else kind_at xs i

abbrev pub keeps_at : Shape → ℕ → Option ℕ
keeps_at [] i = none
keeps_at (x ∷ xs) i = if i == length xs then x.1 else keeps_at xs i

pub keeps_at-shape : (bs : List Block) (i : ℕ) → keeps_at (shape bs) i ≡ keeps_of bs i
keeps_at-shape [] i = refl
keeps_at-shape (b ∷ bs) i = rw (length-shape bs) (ground (arith, keeps_at-shape bs i))

abbrev pub is_connection : Kind → Bool
is_connection a_connection = true
is_connection k = false

abbrev pub is_session : Kind → Bool
is_session managed_session = true
is_session user_session = true
is_session k = false

-- The deleter of such a resource needs another resource; and which one.
abbrev pub is_dependent : Kind → Bool
is_dependent managed_session = true
is_dependent a_tree = true
is_dependent a_context = true
is_dependent k = false

abbrev pub serves_for : Kind → Kind → Bool
serves_for managed_session k = is_connection k
serves_for a_tree k = is_session k
serves_for a_context k = is_session k
serves_for other k = false

abbrev pub is_managed : Kind → Bool
is_managed managed_session = true
is_managed k = false

abbrev pub is_user_session : Kind → Bool
is_user_session user_session = true
is_user_session k = false

abbrev pub is_tree : Kind → Bool
is_tree a_tree = true
is_tree k = false

abbrev pub is_context : Kind → Bool
is_context a_context = true
is_context k = false

abbrev pub is_iterator : Kind → Bool
is_iterator an_iterator = true
is_iterator k = false

abbrev pub is_subscription : Kind → Bool
is_subscription a_subscription = true
is_subscription k = false

-- A block of a kind is one of the list.
pub inside :
    (f : Kind → Bool) (s : Shape) (i : ℕ) → f absent ≡ false → f (kind_at s i) ≡ true → i < length s
inside f [] i z h = absurd (cc)
inside f (x ∷ s) i z h = ground (arith, inside f s i z)

pub later_same :
    (x : Resource × Option ℕ) (s : Shape) (i : ℕ)
    → i < length s
    → (kind_at (x ∷ s) i ≡ kind_at s i) × (keeps_at (x ∷ s) i ≡ keeps_at s i)
later_same x s i h = (ground arith, ground arith)

-- A new block leaves the kinds of the older ones.
pub later_kind :
    (f : Kind → Bool) (x : Resource × Option ℕ) (s : Shape) (i : ℕ)
    → f absent ≡ false
    → f (kind_at s i) ≡ true
    → f (kind_at (x ∷ s) i) ≡ true
later_kind f x s i z h = rw ((later_same x s i (inside f s i z h)).0) h

-- The kinds that pass a test.
pub is_managed_lem : (k : Kind) → is_managed k ≡ true → k ≡ managed_session
is_managed_lem absent h = absurd (cc)
is_managed_lem a_connection h = absurd (cc)
is_managed_lem managed_session h = refl
is_managed_lem user_session h = absurd (cc)
is_managed_lem a_tree h = absurd (cc)
is_managed_lem a_context h = absurd (cc)
is_managed_lem an_iterator h = absurd (cc)
is_managed_lem a_subscription h = absurd (cc)

pub is_user_session_lem : (k : Kind) → is_user_session k ≡ true → k ≡ user_session
is_user_session_lem absent h = absurd (cc)
is_user_session_lem a_connection h = absurd (cc)
is_user_session_lem managed_session h = absurd (cc)
is_user_session_lem user_session h = refl
is_user_session_lem a_tree h = absurd (cc)
is_user_session_lem a_context h = absurd (cc)
is_user_session_lem an_iterator h = absurd (cc)
is_user_session_lem a_subscription h = absurd (cc)

pub is_tree_lem : (k : Kind) → is_tree k ≡ true → k ≡ a_tree
is_tree_lem absent h = absurd (cc)
is_tree_lem a_connection h = absurd (cc)
is_tree_lem managed_session h = absurd (cc)
is_tree_lem user_session h = absurd (cc)
is_tree_lem a_tree h = refl
is_tree_lem a_context h = absurd (cc)
is_tree_lem an_iterator h = absurd (cc)
is_tree_lem a_subscription h = absurd (cc)

pub is_context_lem : (k : Kind) → is_context k ≡ true → k ≡ a_context
is_context_lem absent h = absurd (cc)
is_context_lem a_connection h = absurd (cc)
is_context_lem managed_session h = absurd (cc)
is_context_lem user_session h = absurd (cc)
is_context_lem a_tree h = absurd (cc)
is_context_lem a_context h = refl
is_context_lem an_iterator h = absurd (cc)
is_context_lem a_subscription h = absurd (cc)

pub is_session_lem : (k : Kind) → is_session k ≡ true → (k ≡ user_session) ⊎ (k ≡ managed_session)
is_session_lem absent h = absurd (cc)
is_session_lem a_connection h = absurd (cc)
is_session_lem managed_session h = inr refl
is_session_lem user_session h = inl refl
is_session_lem a_tree h = absurd (cc)
is_session_lem a_context h = absurd (cc)
is_session_lem an_iterator h = absurd (cc)
is_session_lem a_subscription h = absurd (cc)
