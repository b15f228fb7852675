-- ===== src/Lifetimes/Balance.antt =====
-- The count of each block is the number of shares that are out: those of objects, and those of the
-- deleters of blocks that are alive.
use mathlib.Core.Path.{subst, fun_ext}
use sysrepo_cpp.Base.{
  ℕ, suc, ◌+◌, ◌-◌, ◌<◌, ◌≤◌, ◌≡◌, refl, ap, List, [], ◌∷◌, Option, none, some, arith, length, ◌==◌,
  if◌then◌else◌, inl, inr, Option-cases,
}
use sysrepo_cpp.Lifetimes.{
  Block, is_target, increased, elsewhere, share, lessened, passed_on, drop_share,
}

abbrev pub one_at : Option ℕ → ℕ → ℕ
one_at target j = if is_target target j then 1 else 0

-- The shares that the deleter of a block holds.
abbrev pub contributes : Block → ℕ → ℕ
contributes b j = if b.use_count == 0 then 0 else one_at b.keeps j

-- The shares of older blocks, those of the deleter of `b` included.
abbrev pub passed : (ℕ → ℕ) → Block → ℕ → ℕ → ℕ
passed owed b id j = if j == id then 0 else owed j + contributes b j

abbrev pub Older : Option ℕ → ℕ → Type 0
Older none id = Unit {0}
Older (some j) id = j < id

-- `owed j` is the number of shares of the block `j` that are held from outside the list.
abbrev pub Balanced : (ℕ → ℕ) → List Block → Type 0
Balanced owed [] = (j : ℕ) → owed j ≡ 0
Balanced owed (b ∷ bs) =
    (b.use_count ≡ owed (length bs))
    × Older b.keeps (length bs)
    × Balanced (passed owed b (length bs)) bs

-- There is a share to give back.
abbrev pub Covers : Option ℕ → (ℕ → ℕ) → Type 0
Covers none owed = Unit {0}
Covers (some j) owed = 0 < owed j

abbrev pub less_at : Option ℕ → (ℕ → ℕ) → ℕ → ℕ
less_at target owed j = owed j - one_at target j

abbrev pub more_at : Option ℕ → (ℕ → ℕ) → ℕ → ℕ
more_at target owed j = owed j + one_at target j

pub Balanced-same :
    (f g : ℕ → ℕ) (bs : List Block) → ((j : ℕ) → f j ≡ g j) → Balanced f bs → Balanced g bs
Balanced-same f g bs e v = subst (λ h. Balanced h bs) (fun_ext e) v

pub length-drop_share :
    (target : Option ℕ) (bs : List Block) → length (drop_share target bs).0 ≡ length bs
unfolding drop_share
length-drop_share target [] = refl
length-drop_share target (b ∷ bs) = ap suc (length-drop_share (passed_on target (length bs) b) bs)

Covers-passed_on :
    (target : Option ℕ) (id : ℕ) (b : Block) (owed : ℕ → ℕ)
    → Covers target owed
    → b.use_count ≡ owed id
    → Older b.keeps id
    → Covers (passed_on target id b) (passed owed b id)
Covers-passed_on none id b owed c e o = tt
Covers-passed_on (some i) id b owed c e o = elim (Option-cases b.keeps) [
  | inl k ↦ ground arith
  | inr (j, k) ↦ ground arith
]

passed-less_at :
    (target : Option ℕ) (id : ℕ) (b : Block) (owed : ℕ → ℕ)
    → Covers target owed
    → b.use_count ≡ owed id
    → Older b.keeps id
    → (j : ℕ)
    → less_at (passed_on target id b) (passed owed b id) j
      ≡ passed (less_at target owed) (lessened target id b) id j
passed-less_at none id b owed c e o j = ground arith
passed-less_at (some i) id b owed c e o j = elim (Option-cases b.keeps) [
  | inl k ↦ ground arith
  | inr (j', k) ↦ ground arith
]

lessened-count :
    (target : Option ℕ) (id : ℕ) (b : Block) (owed : ℕ → ℕ)
    → Covers target owed
    → b.use_count ≡ owed id
    → (lessened target id b).use_count ≡ less_at target owed id
lessened-count none id b owed c e = ground arith
lessened-count (some i) id b owed c e = ground arith

lessened-Older :
    (target : Option ℕ) (id : ℕ) (b : Block)
    → Older b.keeps id
    → Older (lessened target id b).keeps id
lessened-Older target id b o = ground arith

-- Giving a share back keeps the balance, the cascade of deleters included.
pub drop_share-Balanced :
    (target : Option ℕ) (owed : ℕ → ℕ) (bs : List Block)
    → Covers target owed
    → Balanced owed bs
    → Balanced (less_at target owed) (drop_share target bs).0
unfolding drop_share
drop_share-Balanced none owed [] c v = λ j. omega (arith, v j)
drop_share-Balanced (some i) owed [] c v = λ j. omega (arith, v i)
drop_share-Balanced target owed (b ∷ bs) c (e, o, v) =
    let next = passed_on target (length bs) b in
    let rest = drop_share next bs in
    let ih : Balanced (less_at next (passed owed b (length bs))) rest.0 =
      drop_share-Balanced next (passed owed b (length bs)) bs
        (Covers-passed_on target (length bs) b owed c e o) v in
    rw (length-drop_share next bs) (
      lessened-count target (length bs) b owed c e,
      lessened-Older target (length bs) b o,
      Balanced-same (less_at next (passed owed b (length bs)))
          (passed (less_at target owed) (lessened target (length bs) b) (length bs)) rest.0
          (passed-less_at target (length bs) b owed c e o) ih,
    )

pub length-share : (target : Option ℕ) (bs : List Block) → length (share target bs) ≡ length bs
unfolding share
length-share target [] = refl
length-share target (b ∷ bs) = ap suc (length-share (elsewhere target (length bs)) bs)

-- Only blocks of the list have shares.
pub outside_zero :
    (owed : ℕ → ℕ) (bs : List Block) (j : ℕ) → Balanced owed bs → length bs ≤ j → owed j ≡ 0
outside_zero owed [] j v h = v j
outside_zero owed (b ∷ bs) j (e, o, v) h =
    ground (arith, outside_zero (passed owed b (length bs)) bs j v)

pub Covers-Older :
    (target : Option ℕ) (owed : ℕ → ℕ) (bs : List Block)
    → Covers target owed
    → Balanced owed bs
    → Older target (length bs)
Covers-Older none owed bs c v = tt
Covers-Older (some j) owed bs c v = ground (arith, outside_zero owed bs j v)

Covers-elsewhere :
    (target : Option ℕ) (id : ℕ) (b : Block) (owed : ℕ → ℕ)
    → Covers target owed
    → Covers (elsewhere target id) (passed owed b id)
Covers-elsewhere none id b owed c = tt
Covers-elsewhere (some i) id b owed c = ground arith

increased-count :
    (target : Option ℕ) (id : ℕ) (b : Block) (owed : ℕ → ℕ)
    → b.use_count ≡ owed id
    → (increased target id b).use_count ≡ more_at target owed id
increased-count none id b owed e = ground arith
increased-count (some i) id b owed e = ground arith

increased-Older :
    (target : Option ℕ) (id : ℕ) (b : Block)
    → Older b.keeps id
    → Older (increased target id b).keeps id
increased-Older target id b o = ground arith

passed-more_at :
    (target : Option ℕ) (id : ℕ) (b : Block) (owed : ℕ → ℕ)
    → Covers target owed
    → b.use_count ≡ owed id
    → (j : ℕ)
    → more_at (elsewhere target id) (passed owed b id) j
      ≡ passed (more_at target owed) (increased target id b) id j
passed-more_at none id b owed c e j = ground arith
passed-more_at (some i) id b owed c e j = ground arith

-- Making one more shared pointer from one that is there keeps the balance.
pub share-Balanced :
    (target : Option ℕ) (owed : ℕ → ℕ) (bs : List Block)
    → Covers target owed
    → Balanced owed bs
    → Balanced (more_at target owed) (share target bs)
unfolding share
share-Balanced none owed [] c v = λ j. omega (arith, v j)
share-Balanced (some i) owed [] c v = λ j. ground (arith, v i)
share-Balanced target owed (b ∷ bs) c (e, o, v) =
    let next = elsewhere target (length bs) in
    let ih : Balanced (more_at next (passed owed b (length bs))) (share next bs) =
      share-Balanced next (passed owed b (length bs)) bs
        (Covers-elsewhere target (length bs) b owed c) v in
    rw (length-share next bs) (
      increased-count target (length bs) b owed e,
      increased-Older target (length bs) b o,
      Balanced-same (more_at next (passed owed b (length bs)))
          (passed (more_at target owed) (increased target (length bs) b) (length bs))
          (share next bs) (passed-more_at target (length bs) b owed c e) ih,
    )
