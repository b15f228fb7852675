-- ===== src/Lifetimes/Stores.antt =====
-- Making, copying and destroying shared pointers keeps the balance of a store.
use sysrepo_cpp.Base.{
  ℕ, ◌+◌, ◌-◌, ◌<◌, ◌≤◌, ◌≡◌, List, [], ◌∷◌, Option, none, some, arith, length, inl, inr,
  Bool-cases, ◌==◌,
}
use sysrepo_cpp.Lifetimes.{
  Resource, Block, Store, share, copy_pointer, destroy_pointer, make_pointer, copy_pointers,
  destroy_pointers,
}
use sysrepo_cpp.Lifetimes.Balance.{
  one_at, passed, Older, Balanced, Covers, less_at, more_at, Balanced-same, share-Balanced,
  outside_zero, Covers-Older, length-share,
}
use sysrepo_cpp.Lifetimes.Aliveness.{owed_alive, alive_inside}
use sysrepo_cpp.Lifetimes.Releases.{times_in, TargetAlive, alive-share, keeps_of-share}
use sysrepo_cpp.Lifetimes.Ordering.{
  Accounted, InOrder, Sound, Sound-same, copy_pointer-Sound, destroy_pointer-Sound,
}

-- How many of the shares in a list are shares of the block `j`.
abbrev pub shares_in : List ℕ → ℕ → ℕ
shares_in [] j = 0
shares_in (a ∷ rest) j = one_at (some a) j + shares_in rest j

made_passed :
    (r : Resource) (keeps : Option ℕ) (owed : ℕ → ℕ) (n : ℕ)
    → owed n ≡ 0
    → Older keeps n
    → (j : ℕ)
    → more_at keeps owed j
      ≡ passed (more_at (some n) owed) (record { resource = r; keeps = keeps; use_count = 1 }) n j
made_passed r none owed n z o j = ground arith
made_passed r (some k) owed n z o j = ground arith

covered_alive :
    (keeps : Option ℕ) (owed : ℕ → ℕ) (bs : List Block)
    → Covers keeps owed
    → Balanced owed bs
    → TargetAlive keeps bs
covered_alive none owed bs c v = tt
covered_alive (some a) owed bs c v = owed_alive owed bs a v c

-- The newest block is alive, and the others are as they were.
new-Accounted :
    (r : Resource) (keeps : Option ℕ) (bs : List Block) (es : List ℕ)
    → TargetAlive keeps bs
    → Accounted bs es
    → Accounted (record { resource = r; keeps = keeps; use_count = 1 } ∷ share keeps bs) es
new-Accounted r keeps bs es h a i =
    rw (length-share keeps bs, alive-share keeps bs i h) (ground (arith, a i, alive_inside bs i))

kept_not_released :
    (keeps : Option ℕ) (bs : List Block) (es : List ℕ) (j : ℕ)
    → TargetAlive keeps bs
    → Accounted bs es
    → keeps ≡ some j
    → 0 < times_in es j
    → ⊥
kept_not_released none bs es j h a e p = cc
kept_not_released (some i) bs es j h a e p = ground (arith, a i)

-- What the newest block keeps is alive, so its deleter did not run.
new-InOrder :
    (r : Resource) (keeps : Option ℕ) (bs : List Block) (es : List ℕ)
    → TargetAlive keeps bs
    → Accounted bs es
    → InOrder bs es
    → InOrder (record { resource = r; keeps = keeps; use_count = 1 } ∷ share keeps bs) es
new-InOrder r keeps bs es h a ord k j e p = elim (Bool-cases (k == length bs)) [
  | inl same ↦
      let kept : keeps ≡ some j = ground (arith, length-share keeps bs) in
      absurd (kept_not_released keeps bs es j h a kept p)
  | inr other ↦ ord k j (ground (arith, length-share keeps bs, keeps_of-share keeps bs k)) p
]

pub make_pointer-Sound :
    (r : Resource) (keeps : Option ℕ) (owed : ℕ → ℕ) (st : Store)
    → Covers keeps owed
    → Sound owed st
    → Sound (more_at (some (make_pointer r keeps st).0) owed) (make_pointer r keeps st).1
unfolding make_pointer
make_pointer-Sound r keeps owed st c v =
    let n = length st.blocks in
    let free : owed n ≡ 0 = outside_zero owed st.blocks n v.balanced (omega arith) in
    let older : Older keeps n = Covers-Older keeps owed st.blocks c v.balanced in
    let alive : TargetAlive keeps st.blocks = covered_alive keeps owed st.blocks c v.balanced in
    record {
      balanced = rw (length-share keeps st.blocks) (
        ground arith,
        older,
        Balanced-same (more_at keeps owed) _ (share keeps st.blocks)
            (made_passed r keeps owed n free older)
            (share-Balanced keeps owed st.blocks c v.balanced),
      );
      accounted = new-Accounted r keeps st.blocks st.released alive v.accounted;
      in_order = new-InOrder r keeps st.blocks st.released alive v.accounted v.in_order;
    }

pub copy_pointers-Sound :
    (ptrs : List ℕ) (owed : ℕ → ℕ) (st : Store)
    → ((j : ℕ) → shares_in ptrs j ≤ owed j)
    → Sound owed st
    → Sound (λ j. owed j + shares_in ptrs j) (copy_pointers ptrs st)
unfolding copy_pointers
copy_pointers-Sound [] owed st h v = Sound-same owed _ st (λ j. omega arith) v
copy_pointers-Sound (a ∷ rest) owed st h v =
    Sound-same (λ j. more_at (some a) owed j + shares_in rest j) _
      (copy_pointers rest (copy_pointer a st)) (λ j. omega arith)
      (copy_pointers-Sound rest (more_at (some a) owed) (copy_pointer a st)
        (λ j. ground (arith, h j)) (copy_pointer-Sound a owed st (ground (arith, h a)) v))

pub destroy_pointers-Sound :
    (ptrs : List ℕ) (owed : ℕ → ℕ) (st : Store)
    → ((j : ℕ) → shares_in ptrs j ≤ owed j)
    → Sound owed st
    → Sound (λ j. owed j - shares_in ptrs j) (destroy_pointers ptrs st)
unfolding destroy_pointers
destroy_pointers-Sound [] owed st h v = Sound-same owed _ st (λ j. omega arith) v
destroy_pointers-Sound (a ∷ rest) owed st h v =
    Sound-same (less_at (some a) (λ j. owed j - shares_in rest j)) _
      (destroy_pointer a (destroy_pointers rest st)) (λ j. ground arith)
      (destroy_pointer-Sound a (λ j. owed j - shares_in rest j) (destroy_pointers rest st)
        (ground (arith, h a)) (destroy_pointers-Sound rest owed st (λ j. ground (arith, h j)) v))
