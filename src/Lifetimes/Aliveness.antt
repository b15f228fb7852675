-- ===== src/Lifetimes/Aliveness.antt =====
-- The blocks that are alive, and what their deleters have captured.
use sysrepo_cpp.Base.{
  ℕ, ◌<◌, ◌≡◌, Bool, true, false, not, List, [], ◌∷◌, Option, none, some, arith, length, ◌==◌,
  if◌then◌else◌, inl, inr, Bool-cases,
}
use sysrepo_cpp.Lifetimes.{Block}
use sysrepo_cpp.Lifetimes.Balance.{passed, Balanced}

-- Whether the count of a block is positive.
abbrev pub is_alive : List Block → ℕ → Bool
is_alive [] i = false
is_alive (b ∷ bs) i = if i == length bs then not (b.use_count == 0) else is_alive bs i

-- The block of which the deleter of a block has captured a share.
abbrev pub keeps_of : List Block → ℕ → Option ℕ
keeps_of [] i = none
keeps_of (b ∷ bs) i = if i == length bs then b.keeps else keeps_of bs i

pub owed_alive :
    (owed : ℕ → ℕ) (bs : List Block) (i : ℕ) → Balanced owed bs → 0 < owed i → is_alive bs i ≡ true
owed_alive owed [] i v c = absurd (omega (arith, v i))
owed_alive owed (b ∷ bs) i (e, o, v) c =
    ground (arith, owed_alive (passed owed b (length bs)) bs i v)

pub alive_inside : (bs : List Block) (i : ℕ) → is_alive bs i ≡ true → i < length bs
alive_inside [] i h = cc
alive_inside (b ∷ bs) i h = ground (arith, alive_inside bs i)

pub keeps_inside : (bs : List Block) (k i : ℕ) → keeps_of bs k ≡ some i → k < length bs
keeps_inside [] k i h = cc
keeps_inside (b ∷ bs) k i h = ground (arith, keeps_inside bs k i)

-- What the deleter of a live block has captured is alive.
pub kept_alive :
    (owed : ℕ → ℕ) (bs : List Block) (k i : ℕ)
    → Balanced owed bs
    → is_alive bs k ≡ true
    → keeps_of bs k ≡ some i
    → is_alive bs i ≡ true
kept_alive owed [] k i v a c = cc
kept_alive owed (b ∷ bs) k i (e, o, v) a c = elim (Bool-cases (k == length bs)) [
  | inl same ↦ ground (arith, owed_alive (passed owed b (length bs)) bs i v)
  | inr other ↦ ground (arith, kept_alive (passed owed b (length bs)) bs k i v, alive_inside bs i)
]
