-- ===== src/Lifetimes/Members.antt =====
-- The order in which the members of a class give their shares back.
use sysrepo_cpp.Base.{
  sym, ℕ, ◌≤◌, ◌≡◌, ◌≢◌, true, false, List, [], ◌∷◌, some, arith, length, ◌==◌, if◌then◌else◌, inl,
  inr, Bool-cases,
}
use sysrepo_cpp.Lifetimes.{
  Block, Store, drop_share, destroy_pointer, destroy_pointers, assign_pointers, passed_on,
}
use sysrepo_cpp.Lifetimes.Balance.{length-drop_share, less_at}
use sysrepo_cpp.Lifetimes.Stores.{shares_in}
use sysrepo_cpp.Lifetimes.Aliveness.{is_alive, owed_alive}
use sysrepo_cpp.Lifetimes.Releases.{times_in-append, drop_share_fires}
use sysrepo_cpp.Lifetimes.Ordering.{Sound, comes_before, before_later, destroy_pointer-Sound}
use sysrepo_cpp.Lifetimes.Holders.{
  Holder, subscription, change_iterator, members, destruct, move_into,
}
use sysrepo_cpp.Lifetimes.Programs.{Program, Has, held_by, Reach}
use sysrepo_cpp.Lifetimes.Invariant.{Reach-IsSound, shares_of_object}

abbrev pub count_of : List Block → ℕ → ℕ
count_of [] i = 0
count_of (b ∷ bs) i = if i == length bs then b.use_count else count_of bs i

-- The only share of a block is given back.
last_fires :
    (i : ℕ) (bs : List Block)
    → count_of bs i ≡ 1
    → (is_alive bs i ≡ true) × (is_alive (drop_share (some i) bs).0 i ≡ false)
unfolding drop_share
last_fires i [] h = absurd (omega arith)
last_fires i (b ∷ bs) h = elim (Bool-cases (i == length bs)) [
  | inl same ↦
      rw (length-drop_share (passed_on (some i) (length bs) b) bs) (ground arith, ground arith)
  | inr other ↦
      let ih = last_fires i bs (ground arith) in
      rw (length-drop_share (passed_on (some i) (length bs) b) bs) (ground arith, rw other ih.1)
]

-- Of two members, the later one is destroyed first: if its share is the last one, and afterwards the
-- deleter of the first one's block ran too, then the later one's deleter ran first.
later_first :
    (a b : ℕ) (owed : ℕ → ℕ) (st : Store)
    → a ≢ b
    → ((j : ℕ) → shares_in (a ∷ b ∷ []) j ≤ owed j)
    → Sound owed st
    → count_of st.blocks b ≡ 1
    → comes_before b a (destroy_pointers (a ∷ b ∷ []) st).released ≡ true
unfolding destroy_pointers destroy_pointer
later_first a b owed st ne has v last =
    let st1 = destroy_pointer b st in
    let v1 = destroy_pointer-Sound b owed st (ground (arith, has b)) v in
    let alive : is_alive st1.blocks a ≡ true =
      owed_alive (less_at (some b) owed) st1.blocks a v1.balanced (ground (arith, has a)) in
    before_later b a st1.released (drop_share (some a) st1.blocks).1
      (ground (arith, v1.accounted a))
      (ground (
        arith,
        last_fires b st.blocks last,
        drop_share_fires (some b) st.blocks b,
        times_in-append st.released (drop_share (some b) st.blocks).1 b,
      ))

-- When a Subscription with the last share of its context is destroyed, then sr_unsubscribe of that
-- context comes before the session is stopped, if that happens at all.
pub subscription_order :
    (p : Program) (before after : List Holder) (m_sess m_sub : ℕ)
    → Reach p
    → Has p before (subscription m_sess (some m_sub)) after
    → m_sess ≢ m_sub
    → count_of p.store.blocks m_sub ≡ 1
    → comes_before m_sub m_sess (destruct (subscription m_sess (some m_sub)) p.store).released
      ≡ true
unfolding destruct members
subscription_order p before after m_sess m_sub r e ne last =
    later_first m_sess m_sub (held_by p.holders) p.store ne
      (shares_of_object p before after (subscription m_sess (some m_sub)) e) (Reach-IsSound p r)
      last

-- When a Subscription is moved by assignment to another one that has the last share of its session,
-- then that session is stopped before sr_unsubscribe of the context that it had, if that happens at
-- all: the members are assigned in the order of their declaration, and destroyed in the reverse.
pub assignment_order :
    (p : Program) (before after : List Holder) (m_sess m_sub : ℕ)
    → Reach p
    → Has p before (subscription m_sess (some m_sub)) after
    → m_sess ≢ m_sub
    → count_of p.store.blocks m_sess ≡ 1
    → comes_before m_sess m_sub (move_into (subscription m_sess (some m_sub)) p.store).released
      ≡ true
unfolding move_into members assign_pointers destroy_pointers
assignment_order p before after m_sess m_sub r e ne last =
    later_first m_sub m_sess (held_by p.holders) p.store (λ q. ne (sym q))
      (λ j. omega (arith, shares_of_object p before after (subscription m_sess (some m_sub)) e j))
      (Reach-IsSound p r) last

-- When a ChangeIterator with the last share of its session is destroyed, then the session is stopped
-- before sr_free_change_iter is called for the iterator.
pub change_iterator_order :
    (p : Program) (before after : List Holder) (m_iter m_sess : ℕ)
    → Reach p
    → Has p before (change_iterator m_iter m_sess) after
    → m_iter ≢ m_sess
    → count_of p.store.blocks m_sess ≡ 1
    → comes_before m_sess m_iter (destruct (change_iterator m_iter m_sess) p.store).released ≡ true
unfolding destruct members
change_iterator_order p before after m_iter m_sess r e ne last =
    later_first m_iter m_sess (held_by p.holders) p.store ne
      (shares_of_object p before after (change_iterator m_iter m_sess) e) (Reach-IsSound p r) last
