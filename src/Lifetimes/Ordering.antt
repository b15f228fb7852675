-- ===== src/Lifetimes/Ordering.antt =====
-- A deleter runs before the deleters of what it has captured.
use sysrepo_cpp.Base.{
  ℕ, ◌+◌, ◌<◌, ◌≤◌, ◌≡◌, refl, sym, ◌∙◌, Bool, true, false, List, [], ◌∷◌, ◌++◌, Option, some,
  arith, length, ltb, ◌==◌, if◌then◌else◌, inl, inr, Bool-cases,
}
use sysrepo_cpp.Lifetimes.{Block, Store, copy_pointer, destroy_pointer, drop_share}
use sysrepo_cpp.Lifetimes.Balance.{
  passed, Balanced, Balanced-same, Covers, less_at, more_at, drop_share-Balanced, share-Balanced,
  length-drop_share, length-share,
}
use sysrepo_cpp.Lifetimes.Aliveness.{is_alive, keeps_of, owed_alive, keeps_inside, kept_alive}
use sysrepo_cpp.Lifetimes.Releases.{
  times_in, times_in-append, one_if, drop_share_fires, Descends, drop_share-Descends,
  keeps_of-drop_share, keeps_of-share, alive-share,
}

-- Whether `k` comes in the list, and before `j` comes.
abbrev pub comes_before : ℕ → ℕ → List ℕ → Bool
comes_before k j [] = false
comes_before k j (x ∷ xs) =
    let later = comes_before k j xs in if x == k then true else if x == j then false else later

pub comes_before-append :
    (k j : ℕ) (xs ys : List ℕ) → comes_before k j xs ≡ true → comes_before k j (xs ++ ys) ≡ true
comes_before-append k j [] ys h = cc
comes_before-append k j (x ∷ xs) ys h = ground (arith, comes_before-append k j xs ys)

-- What comes only later leaves the order open until then.
pub before_later :
    (k j : ℕ) (xs ys : List ℕ)
    → times_in xs j ≡ 0
    → 0 < times_in xs k
    → comes_before k j (xs ++ ys) ≡ true
before_later k j [] ys a b = absurd (omega arith)
before_later k j (x ∷ xs) ys a b = ground (arith, before_later k j xs ys)

both_later :
    (k j : ℕ) (xs ys : List ℕ)
    → times_in xs j ≡ 0
    → comes_before k j ys ≡ true
    → comes_before k j (xs ++ ys) ≡ true
both_later k j [] ys a h = h
both_later k j (x ∷ xs) ys a h = ground (arith, both_later k j xs ys)

below_all : (n j : ℕ) (xs : List ℕ) → Descends n xs → n ≤ j → times_in xs j ≡ 0
below_all n j [] d h = refl
below_all n j (x ∷ xs) (lt, d) h = ground (arith, below_all x j xs d)

descending_before :
    (k j n : ℕ) (xs : List ℕ)
    → Descends n xs
    → j < k
    → 0 < times_in xs k
    → comes_before k j xs ≡ true
descending_before k j n [] d lt c = absurd (omega arith)
descending_before k j n (x ∷ xs) (lx, d) lt c =
    ground (arith, descending_before k j x xs d, below_all x k xs d)

-- The deleters of all blocks that have captured a share of a block ran before its own.
abbrev pub InOrder : List Block → List ℕ → Type 0
InOrder bs es = (k j : ℕ) → keeps_of bs k ≡ some j → 0 < times_in es j → comes_before k j es ≡ true

-- The deleter of each block that is not alive ran exactly once, and no other.
abbrev pub Accounted : List Block → List ℕ → Type 0
Accounted bs es = (i : ℕ) → times_in es i + one_if (is_alive bs i) ≡ one_if (ltb i (length bs))

keeps_older :
    (owed : ℕ → ℕ) (bs : List Block) (k j : ℕ) → Balanced owed bs → keeps_of bs k ≡ some j → j < k
keeps_older owed [] k j v e = absurd (cc)
keeps_older owed (b ∷ bs) k j (c, o, v) e =
    ground (arith, keeps_older (passed owed b (length bs)) bs k j v)

pub record Sound (owed : ℕ → ℕ) (st : Store) : Type 0 where
  pub balanced : Balanced owed st.blocks
  pub accounted : Accounted st.blocks st.released
  pub in_order : InOrder st.blocks st.released

pub Sound-same : (f g : ℕ → ℕ) (st : Store) → ((j : ℕ) → f j ≡ g j) → Sound f st → Sound g st
Sound-same f g st e v = record {
  balanced = Balanced-same f g st.blocks e v.balanced;
  accounted = v.accounted;
  in_order = v.in_order;
}

Accounted-drop_share :
    (target : Option ℕ) (bs : List Block) (es : List ℕ)
    → Accounted bs es
    → Accounted (drop_share target bs).0 (es ++ (drop_share target bs).1)
Accounted-drop_share target bs es a i = rw (length-drop_share target bs) (
    omega (arith, a i, drop_share_fires target bs i, times_in-append es (drop_share target bs).1 i))

dead_keeper :
    (owed : ℕ → ℕ) (bs : List Block) (k j : ℕ)
    → Balanced owed bs
    → keeps_of bs k ≡ some j
    → is_alive bs j ≡ false
    → is_alive bs k ≡ false
dead_keeper owed bs k j v e dead = ground (arith, kept_alive owed bs k j v)

new_before :
    (k j n : ℕ) (es fs : List ℕ)
    → times_in es j == 0 ≡ true
    → Descends n fs
    → j < k
    → 0 < times_in (es ++ fs) k
    → comes_before k j (es ++ fs) ≡ true
new_before k j n es fs z d lt p = elim (Bool-cases (times_in es k == 0)) [
  | inl none_yet ↦
      both_later k j es fs (ground arith)
        (descending_before k j n fs d lt (ground (arith, times_in-append es fs k)))
  | inr some_yet ↦ before_later k j es fs (ground arith) (ground arith)
]

-- After the drop, all that keeps a block that is not alive is not alive either.
InOrder-drop_share :
    (target : Option ℕ) (owed : ℕ → ℕ) (bs : List Block) (es : List ℕ)
    → Covers target owed
    → Balanced owed bs
    → Accounted bs es
    → InOrder bs es
    → InOrder (drop_share target bs).0 (es ++ (drop_share target bs).1)
InOrder-drop_share target owed bs es c v a ord k j e p =
    let r = drop_share target bs in
    let keep : keeps_of bs k ≡ some j = sym (keeps_of-drop_share target bs k) ∙ e in
    elim (Bool-cases (times_in es j == 0)) [
      | inl z ↦
          let dead : is_alive r.0 j ≡ false =
            ground (arith, drop_share_fires target bs j, times_in-append es r.1 j) in
          let keeper : is_alive r.0 k ≡ false =
            dead_keeper (less_at target owed) r.0 k j (drop_share-Balanced target owed bs c v) e
              dead in
          new_before k j (length bs) es r.1 z (drop_share-Descends target bs)
            (keeps_older owed bs k j v keep)
            (ground (
              arith,
              Accounted-drop_share target bs es a k,
              length-drop_share target bs,
              keeps_inside bs k j keep,
            ))
      | inr n ↦ comes_before-append k j es r.1 (ord k j keep (ground arith))
    ]

-- Giving a share back, with the cascade of deleters.
pub destroy_pointer-Sound :
    (a : ℕ) (owed : ℕ → ℕ) (st : Store)
    → 0 < owed a
    → Sound owed st
    → Sound (less_at (some a) owed) (destroy_pointer a st)
unfolding destroy_pointer
destroy_pointer-Sound a owed st c v = record {
  balanced = drop_share-Balanced (some a) owed st.blocks c v.balanced;
  accounted = Accounted-drop_share (some a) st.blocks st.released v.accounted;
  in_order =
      InOrder-drop_share (some a) owed st.blocks st.released c v.balanced v.accounted v.in_order;
}

pub copy_pointer-Sound :
    (a : ℕ) (owed : ℕ → ℕ) (st : Store)
    → 0 < owed a
    → Sound owed st
    → Sound (more_at (some a) owed) (copy_pointer a st)
unfolding copy_pointer
copy_pointer-Sound a owed st c v = record {
  balanced = share-Balanced (some a) owed st.blocks c v.balanced;
  accounted = λ i.
      rw
        (
          length-share (some a) st.blocks,
          alive-share (some a) st.blocks i (owed_alive owed st.blocks a v.balanced c),
        )
        (v.accounted i);
  in_order = λ k j e p. v.in_order k j (sym (keeps_of-share (some a) st.blocks k) ∙ e) p;
}
