-- ===== src/Lifetimes/Assigning.antt =====
-- The assignment of members keeps the balance of a store.
use sysrepo_cpp.Base.{ℕ, ◌+◌, ◌-◌, ◌≤◌, List, [], ◌∷◌, some, arith}
use sysrepo_cpp.Lifetimes.{Store, copy_pointer, destroy_pointer, assign_pointers}
use sysrepo_cpp.Lifetimes.Balance.{less_at, more_at}
use sysrepo_cpp.Lifetimes.Ordering.{Sound, Sound-same, copy_pointer-Sound, destroy_pointer-Sound}
use sysrepo_cpp.Lifetimes.Stores.{shares_in}

pub assign_pointers-Sound :
    (news olds : List ℕ) (owed : ℕ → ℕ) (st : Store)
    → ((j : ℕ) → shares_in news j + shares_in olds j ≤ owed j)
    → Sound owed st
    → Sound (λ j. owed j + shares_in news j - shares_in olds j) (assign_pointers news olds st)
unfolding assign_pointers
assign_pointers-Sound [] [] owed st h v = Sound-same owed _ st (λ j. omega arith) v
assign_pointers-Sound [] (b ∷ olds) owed st h v =
    Sound-same (λ j. less_at (some b) owed j + 0 - shares_in olds j) _
      (assign_pointers [] olds (destroy_pointer b st)) (λ j. ground (arith, h j))
      (assign_pointers-Sound [] olds (less_at (some b) owed) (destroy_pointer b st)
        (λ j. ground (arith, h j)) (destroy_pointer-Sound b owed st (ground (arith, h b)) v))
assign_pointers-Sound (a ∷ news) [] owed st h v =
    Sound-same (λ j. more_at (some a) owed j + shares_in news j - 0) _
      (assign_pointers news [] (copy_pointer a st)) (λ j. ground (arith, h j))
      (assign_pointers-Sound news [] (more_at (some a) owed) (copy_pointer a st)
        (λ j. ground (arith, h j)) (copy_pointer-Sound a owed st (ground (arith, h a)) v))
assign_pointers-Sound (a ∷ news) (b ∷ olds) owed st h v =
    let copied = copy_pointer a st in
    Sound-same
      (λ j. less_at (some b) (more_at (some a) owed) j + shares_in news j - shares_in olds j) _
      (assign_pointers news olds (destroy_pointer b copied)) (λ j. ground (arith, h j))
      (assign_pointers-Sound news olds (less_at (some b) (more_at (some a) owed))
        (destroy_pointer b copied) (λ j. ground (arith, h j))
        (destroy_pointer-Sound b (more_at (some a) owed) copied (ground (arith, h b))
          (copy_pointer-Sound a owed st (ground (arith, h a)) v)))
