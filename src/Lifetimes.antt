-- ===== src/Lifetimes.antt =====
-- The shared pointers behind the classes: Session::Session and wrapSrData of src/Session.cpp, the
-- constructors of src/Connection.cpp, and those of src/Subscription.cpp. A shared pointer is a
-- share of a control block, and the deleter of a block may have captured a share of another one.
pub mod Balance
pub mod Classes
pub mod Holders
pub mod Stores
pub mod Programs
pub mod Aliveness
pub mod Releases
pub mod Ordering
pub mod Assigning
pub mod Creations
pub mod Invariant
pub mod Shapes
pub mod Typing
pub mod Wiring
pub mod Acquiring
pub mod Guarantees
pub mod Members
use sysrepo_cpp.Base.{
  ℕ, ◌+◌, ◌-◌, Bool, true, false, ◌&&◌, List, [], ◌∷◌, ◌++◌, Option, none, some, length, ◌==◌,
  if◌then◌else◌,
}

-- What the deleter of a block releases. A session and a context are known by the session's handle;
-- the last three are blocks whose deleter is another program's, or does nothing.
pub data Resource : Type 0 where
  connection session sr_data context change_iter subscription_ctx : ℕ → Resource
  supplied_connection unmanaged_connection unmanaged_session : ℕ → Resource

-- `keeps` is the block of which the deleter has captured a share. It is older than the block itself.
pub record Block : Type 0 where
  pub resource : Resource
  pub keeps : Option ℕ
  pub use_count : ℕ

-- A block is known by the number of blocks that are older; the newest block stands first.
abbrev pub is_target : Option ℕ → ℕ → Bool
is_target none b = false
is_target (some a) b = a == b

abbrev pub increased : Option ℕ → ℕ → Block → Block
increased target id b = if is_target target id then record b { use_count = b.use_count + 1 } else b

abbrev pub elsewhere : Option ℕ → ℕ → Option ℕ
elsewhere target id = if is_target target id then none else target

-- One more shared pointer to a block.
unfoldable pub share : Option ℕ → List Block → List Block
share target [] = []
share target (b ∷ bs) = increased target (length bs) b ∷ share (elsewhere target (length bs)) bs

-- The block when one share of `target` is given back.
abbrev pub lessened : Option ℕ → ℕ → Block → Block
lessened target id b = if is_target target id then record b { use_count = b.use_count - 1 } else b

-- The share that is given back next: when the last share goes, the deleter runs and is destroyed,
-- with what it has captured.
abbrev pub passed_on : Option ℕ → ℕ → Block → Option ℕ
passed_on target id b =
    if is_target target id then (if b.use_count == 1 then b.keeps else none) else target

abbrev pub fired : Option ℕ → ℕ → Block → List ℕ
fired target id b = if is_target target id && b.use_count == 1 then id ∷ [] else []

-- One shared pointer is destroyed: the blocks afterwards, and the blocks whose deleters run, in
-- order.
unfoldable pub drop_share : Option ℕ → List Block → List Block × List ℕ
drop_share target [] = ([], [])
drop_share target (b ∷ bs) =
    let rest = drop_share (passed_on target (length bs) b) bs in
    (lessened target (length bs) b ∷ rest.0, fired target (length bs) b ++ rest.1)

-- All control blocks, and the blocks whose deleters have run, in the order in which they ran.
pub record Store : Type 0 where
  pub blocks : List Block
  pub released : List ℕ

-- A shared pointer is copied.
unfoldable pub copy_pointer : ℕ → Store → Store
unfolding share
copy_pointer a st = record st { blocks = share (some a) st.blocks }

-- A shared pointer is destroyed.
unfoldable pub destroy_pointer : ℕ → Store → Store
unfolding drop_share
destroy_pointer a st =
    let dropped = drop_share (some a) st.blocks in
    record { blocks = dropped.0; released = st.released ++ dropped.1 }

-- A shared pointer is made from a raw one, with a deleter that captures a copy of another one.
unfoldable pub make_pointer : Resource → Option ℕ → Store → ℕ × Store
unfolding share
make_pointer resource keeps st = (
  length st.blocks,
  record st {
    blocks = record { resource = resource; keeps = keeps; use_count = 1 } ∷ share keeps st.blocks;
  },
)

-- The members of a class are copied in the order of their declaration, and destroyed in the reverse.
unfoldable pub copy_pointers : List ℕ → Store → Store
copy_pointers [] st = st
copy_pointers (a ∷ rest) st = copy_pointers rest (copy_pointer a st)

unfoldable pub destroy_pointers : List ℕ → Store → Store
destroy_pointers [] st = st
destroy_pointers (a ∷ rest) st = destroy_pointer a (destroy_pointers rest st)

-- Members are assigned in the order of their declaration: the shared pointer that a member gets is
-- copied, then the one that it had is destroyed. Null pointers are left out of both lists.
unfoldable pub assign_pointers : List ℕ → List ℕ → Store → Store
assign_pointers [] [] st = st
assign_pointers [] (b ∷ olds) st = assign_pointers [] olds (destroy_pointer b st)
assign_pointers (a ∷ news) [] st = assign_pointers news [] (copy_pointer a st)
assign_pointers (a ∷ news) (b ∷ olds) st =
    assign_pointers news olds (destroy_pointer b (copy_pointer a st))
