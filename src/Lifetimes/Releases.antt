-- ===== src/Lifetimes/Releases.antt =====
-- Which deleters run, how often, and in which order.
use sysrepo_cpp.Base.{
  ℕ, suc, ◌+◌, ◌<◌, ◌≤◌, ◌≡◌, refl, Bool, true, not, ◌&&◌, List, [], ◌∷◌, ◌++◌, Option, none, some,
  arith, length, ◌==◌, if◌then◌else◌, inl, inr, Bool-cases,
}
use sysrepo_cpp.Lifetimes.{
  Block, is_target, share, elsewhere, lessened, passed_on, fired, drop_share,
}
use sysrepo_cpp.Lifetimes.Balance.{one_at, length-drop_share, length-share}
use sysrepo_cpp.Lifetimes.Aliveness.{is_alive, keeps_of, alive_inside}

-- How often a block is in a list of blocks.
abbrev pub times_in : List ℕ → ℕ → ℕ
times_in [] j = 0
times_in (a ∷ rest) j = one_at (some a) j + times_in rest j

pub times_in-append :
    (xs ys : List ℕ) (j : ℕ) → times_in (xs ++ ys) j ≡ times_in xs j + times_in ys j
times_in-append [] ys j = omega arith
times_in-append (x ∷ xs) ys j = omega (arith, times_in-append xs ys j)

abbrev pub one_if : Bool → ℕ
one_if b = if b then 1 else 0

step_fires :
    (target : Option ℕ) (i id : ℕ) (b : Block) (es : List ℕ) (after before : List Block)
    → times_in es i + one_if (is_alive after i) ≡ one_if (is_alive before i)
    → (is_alive before i ≡ true → i < id)
    → times_in (fired target id b ++ es) i
        + one_if (if i == id then not ((lessened target id b).use_count == 0) else is_alive after i)
      ≡ one_if (if i == id then not (b.use_count == 0) else is_alive before i)
step_fires none i id b es after before e inside = ground arith
step_fires (some a) i id b es after before e inside =
    ground (arith, times_in-append (fired (some a) id b) es i)

-- The deleter of a block runs just when its count becomes zero.
pub drop_share_fires :
    (target : Option ℕ) (bs : List Block) (i : ℕ)
    → times_in (drop_share target bs).1 i + one_if (is_alive (drop_share target bs).0 i)
      ≡ one_if (is_alive bs i)
unfolding drop_share
drop_share_fires target [] i = refl
drop_share_fires target (b ∷ bs) i =
    let next = passed_on target (length bs) b in
    rw (length-drop_share next bs) (
      step_fires target i (length bs) b (drop_share next bs).1 (drop_share next bs).0 bs
        (drop_share_fires next bs i) (alive_inside bs i))

-- The numbers of a list are below `n` and descend.
abbrev pub Descends : ℕ → List ℕ → Type 0
Descends n [] = Unit {0}
Descends n (x ∷ xs) = (x < n) × Descends x xs

Descends-weaken : (m n : ℕ) (xs : List ℕ) → m ≤ n → Descends m xs → Descends n xs
Descends-weaken m n [] h d = tt
Descends-weaken m n (x ∷ xs) h (lt, d) = (omega arith, d)

step_Descends :
    (target : Option ℕ) (id : ℕ) (b : Block) (es : List ℕ)
    → Descends id es
    → Descends (suc id) (fired target id b ++ es)
step_Descends target id b es d = elim (Bool-cases (is_target target id && b.use_count == 1)) [
  | inl yes' ↦ rw yes' (omega arith, d)
  | inr no' ↦ rw no' (Descends-weaken id (suc id) es (omega arith) d)
]

pub drop_share-Descends :
    (target : Option ℕ) (bs : List Block) → Descends (length bs) (drop_share target bs).1
unfolding drop_share
drop_share-Descends target [] = tt
drop_share-Descends target (b ∷ bs) =
    let next = passed_on target (length bs) b in
    let ih = drop_share-Descends next bs in
    step_Descends target (length bs) b (drop_share next bs).1 ih

pub keeps_of-drop_share :
    (target : Option ℕ) (bs : List Block) (k : ℕ)
    → keeps_of (drop_share target bs).0 k ≡ keeps_of bs k
unfolding drop_share
keeps_of-drop_share target [] k = refl
keeps_of-drop_share target (b ∷ bs) k =
    let next = passed_on target (length bs) b in
    rw (length-drop_share next bs) (ground (arith, keeps_of-drop_share next bs k))

pub keeps_of-share :
    (target : Option ℕ) (bs : List Block) (k : ℕ) → keeps_of (share target bs) k ≡ keeps_of bs k
unfolding share
keeps_of-share target [] k = refl
keeps_of-share target (b ∷ bs) k =
    let next = elsewhere target (length bs) in
    rw (length-share next bs) (ground (arith, keeps_of-share next bs k))

abbrev pub TargetAlive : Option ℕ → List Block → Type 0
TargetAlive none bs = Unit {0}
TargetAlive (some a) bs = is_alive bs a ≡ true

-- One more share of a live block brings no block back.
pub alive-share :
    (target : Option ℕ) (bs : List Block) (i : ℕ)
    → TargetAlive target bs
    → is_alive (share target bs) i ≡ is_alive bs i
unfolding share
alive-share target [] i h = refl
alive-share none (b ∷ bs) i h = rw (length-share none bs) (ground (arith, alive-share none bs i tt))
alive-share (some a) (b ∷ bs) i h = elim (Bool-cases (a == length bs)) [
  | inl same ↦
      rw (length-share (elsewhere (some a) (length bs)) bs)
        (ground (arith, alive-share none bs i tt))
  | inr other ↦
      rw (length-share (elsewhere (some a) (length bs)) bs)
        (ground (arith, alive-share (some a) bs i))
]
