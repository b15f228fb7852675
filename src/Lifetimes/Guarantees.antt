-- ===== src/Lifetimes/Guarantees.antt =====
-- What the shared pointers guarantee to a program that uses the classes.
use mathlib.Core.Path.{subst}
use sysrepo_cpp.Base.{
  ℕ, ◌<◌, ◌≡◌, refl, sym, ◌∙◌, Bool, true, false, List, [], ◌∷◌, some, none, arith, length, ◌⊎◌,
  inl, inr, ltb, ◌==◌, if◌then◌else◌, Bool-cases,
}
use sysrepo_cpp.Lifetimes.{Block, Store}
use sysrepo_cpp.Lifetimes.Balance.{passed, Balanced}
use sysrepo_cpp.Lifetimes.Stores.{shares_in}
use sysrepo_cpp.Lifetimes.Aliveness.{is_alive, keeps_of, owed_alive, keeps_inside, kept_alive}
use sysrepo_cpp.Lifetimes.Releases.{times_in}
use sysrepo_cpp.Lifetimes.Ordering.{comes_before}
use sysrepo_cpp.Lifetimes.Holders.{
  Holder, supplied, connection, data_node, context, change_collection, closure, session, lock,
  change_iterator, subscription, emptied, members,
}
use sysrepo_cpp.Lifetimes.Programs.{Program, Has, held_by, Reach}
use sysrepo_cpp.Lifetimes.Invariant.{IsSound, Reach-IsSound, shares_of_object}
use sysrepo_cpp.Lifetimes.Shapes.{
  shape, Kind, kind_at, keeps_at, keeps_at-shape, is_connection, is_session, is_managed,
  is_user_session, is_tree, is_context, is_iterator, is_subscription, is_dependent, serves_for,
  is_tree_lem, is_context_lem, is_session_lem,
}
use sysrepo_cpp.Lifetimes.Typing.{AllTyped, AllTyped-take, Typed, Backed, all_fit, captured_kind}
use sysrepo_cpp.Lifetimes.Wiring.{IsTyped, Reach-IsTyped}
use sysrepo_cpp.Lifetimes.Acquiring.{resources_in, acquired, acquired_lem, length-resources}

-- A resource of the kind that is asked for, which has not been released.
abbrev pub InPlace : (Kind → Bool) → Store → ℕ → Type 0
InPlace f st i = (f (kind_at (shape st.blocks) i) ≡ true) × (times_in st.released i ≡ 0)

-- A session that was not stopped, with the connection that its deleter keeps, if it has one.
abbrev pub UsableSession : Store → ℕ → Type 0
UsableSession st m_sess =
    InPlace is_user_session st m_sess
    ⊎ (InPlace is_managed st m_sess
        × ((c : ℕ) × (keeps_of st.blocks m_sess ≡ some c) × InPlace is_connection st c))

-- A session that was not stopped, whose deleter keeps the given connection, if it has one.
abbrev pub UsableWith : Store → ℕ → ℕ → Type 0
UsableWith st m_conn m_sess =
    InPlace is_connection st m_conn
    × (InPlace is_user_session st m_sess
        ⊎ (InPlace is_managed st m_sess × (keeps_of st.blocks m_sess ≡ some m_conn)))

abbrev pub KeepsSession : Store → ℕ → Type 0
KeepsSession st d = (m_sess : ℕ) × (keeps_of st.blocks d ≡ some m_sess) × UsableSession st m_sess

-- All that an object uses is there.
abbrev pub Usable : Store → Holder → Type 0
Usable st (supplied conn) = InPlace is_connection st conn
Usable st (connection ctx) = InPlace is_connection st ctx
Usable st (data_node data_ptr) = InPlace is_tree st data_ptr × KeepsSession st data_ptr
Usable st (context ctx) = InPlace is_context st ctx × KeepsSession st ctx
Usable st (change_collection sess) = UsableSession st sess
Usable st (closure sub) = InPlace is_subscription st sub
Usable st (session m_conn m_sess) = UsableWith st m_conn m_sess
Usable st (lock m_conn m_sess) = UsableWith st m_conn m_sess
Usable st (change_iterator m_iter m_sess) = InPlace is_iterator st m_iter × UsableSession st m_sess
Usable st (subscription m_sess none) = UsableSession st m_sess
Usable st (subscription m_sess (some m_sub)) =
    UsableSession st m_sess × InPlace is_subscription st m_sub
Usable st (emptied c) = Unit {0}

module _ (p : Program) (v : IsSound p) (t : IsTyped p) where
  -- A live block was not released.
  in_place :
      (f : Kind → Bool) (i : ℕ)
      → f (kind_at (shape p.store.blocks) i) ≡ true
      → is_alive p.store.blocks i ≡ true
      → InPlace f p.store i
  in_place f i k a = (k, ground (arith, v.accounted i))

  -- What the deleter of a resource has captured that needs another one.
  captured :
      (i : ℕ)
      → is_dependent (kind_at (shape p.store.blocks) i) ≡ true
      → (j : ℕ) × (keeps_of p.store.blocks i ≡ some j)
        × (serves_for (kind_at (shape p.store.blocks) i) (kind_at (shape p.store.blocks) j) ≡ true)
  captured i d =
      let s = shape p.store.blocks in
      let got = captured_kind (kind_at s i) (keeps_at s i) s (all_fit s i t.0) d in
      (got.0, sym (keeps_at-shape p.store.blocks i) ∙ got.1, got.2)

  session_usable :
      (m_sess : ℕ)
      → is_session (kind_at (shape p.store.blocks) m_sess) ≡ true
      → is_alive p.store.blocks m_sess ≡ true
      → UsableSession p.store m_sess
  session_usable m_sess k a = elim (is_session_lem (kind_at (shape p.store.blocks) m_sess) k) [
    | inl u ↦ inl (in_place is_user_session m_sess (rw u refl) a)
    | inr g ↦
        let got = captured m_sess (rw g refl) in
        let alive : is_alive p.store.blocks got.0 ≡ true =
          kept_alive (held_by p.holders) p.store.blocks m_sess got.0 v.balanced a got.1 in
        inr (
          in_place is_managed m_sess (rw g refl) a,
          (
            got.0,
            got.1,
            in_place is_connection got.0
                (subst (λ k. serves_for k (kind_at (shape p.store.blocks) got.0) ≡ true) g got.2)
                alive,
          ),
        )
  ]

  keeps_session :
      (d : ℕ)
      → (is_tree (kind_at (shape p.store.blocks) d) ≡ true)
        ⊎ (is_context (kind_at (shape p.store.blocks) d) ≡ true)
      → is_alive p.store.blocks d ≡ true
      → KeepsSession p.store d
  keeps_session d (inl k) a =
      let g = is_tree_lem (kind_at (shape p.store.blocks) d) k in
      let got = captured d (rw g refl) in
      (
        got.0,
        got.1,
        session_usable got.0
            (subst (λ k. serves_for k (kind_at (shape p.store.blocks) got.0) ≡ true) g got.2)
            (kept_alive (held_by p.holders) p.store.blocks d got.0 v.balanced a got.1),
      )
  keeps_session d (inr k) a =
      let g = is_context_lem (kind_at (shape p.store.blocks) d) k in
      let got = captured d (rw g refl) in
      (
        got.0,
        got.1,
        session_usable got.0
            (subst (λ k. serves_for k (kind_at (shape p.store.blocks) got.0) ≡ true) g got.2)
            (kept_alive (held_by p.holders) p.store.blocks d got.0 v.balanced a got.1),
      )

  usable_with :
      (m_conn m_sess : ℕ)
      → is_connection (kind_at (shape p.store.blocks) m_conn) ≡ true
      → Backed (shape p.store.blocks) m_conn m_sess
      → is_alive p.store.blocks m_conn ≡ true
      → is_alive p.store.blocks m_sess ≡ true
      → UsableWith p.store m_conn m_sess
  usable_with m_conn m_sess c (inl u) a b =
      (in_place is_connection m_conn c a, inl (in_place is_user_session m_sess u b))
  usable_with m_conn m_sess c (inr (m, k)) a b = (
    in_place is_connection m_conn c a,
    inr (in_place is_managed m_sess m b, sym (keeps_at-shape p.store.blocks m_sess) ∙ k),
  )

  usable :
      (h : Holder)
      → Typed (shape p.store.blocks) h
      → ((i : ℕ) → 0 < shares_in (members h) i → is_alive p.store.blocks i ≡ true)
      → Usable p.store h
  unfolding members
  usable (supplied conn) k a = in_place is_connection conn k (a conn (ground arith))
  usable (connection ctx) k a = in_place is_connection ctx k (a ctx (ground arith))
  usable (data_node d) k a =
      (in_place is_tree d k (a d (ground arith)), keeps_session d (inl k) (a d (ground arith)))
  usable (context d) k a =
      (in_place is_context d k (a d (ground arith)), keeps_session d (inr k) (a d (ground arith)))
  usable (change_collection sess) k a = session_usable sess k (a sess (ground arith))
  usable (closure sub) k a = in_place is_subscription sub k (a sub (ground arith))
  usable (session m_conn m_sess) (c, b) a =
      usable_with m_conn m_sess c b (a m_conn (ground arith)) (a m_sess (ground arith))
  usable (lock m_conn m_sess) (c, b) a =
      usable_with m_conn m_sess c b (a m_conn (ground arith)) (a m_sess (ground arith))
  usable (change_iterator m_iter m_sess) (i, k) a = (
    in_place is_iterator m_iter i (a m_iter (ground arith)),
    session_usable m_sess k (a m_sess (ground arith)),
  )
  usable (subscription m_sess none) k a = session_usable m_sess k (a m_sess (ground arith))
  usable (subscription m_sess (some m_sub)) (k, b) a = (
    session_usable m_sess k (a m_sess (ground arith)),
    in_place is_subscription m_sub b (a m_sub (ground arith)),
  )
  usable (emptied c) k a = tt

-- While an object of any class is there, all that it uses is there: each of its shared pointers has a
-- resource of its kind, whose deleter did not run; the deleter of a managed session keeps the
-- connection that the Session or Lock is held with, and a connection in any case; and the deleter
-- of a data tree or of a context keeps a session, which is there with its connection.
pub object_keeps :
    (p : Program) (before after : List Holder) (h : Holder)
    → Reach p
    → Has p before h after
    → Usable p.store h
object_keeps p before after h r e =
    let v = Reach-IsSound p r in
    let t = Reach-IsTyped p r in
    let typed =
      (AllTyped-take (shape p.store.blocks) before after h
        (subst (AllTyped (shape p.store.blocks)) e t.1)).0 in
    usable p v t h typed (λ i c.
      owed_alive (held_by p.holders) p.store.blocks i v.balanced
        (omega (arith, shares_of_object p before after h e i)))

-- A managed session has captured a connection, and a data tree or a context that was handed out has
-- captured a session. The deleter of what was captured did not run; or it ran once, the deleter of
-- the one that has captured it ran once too, and before. So a session is stopped before its
-- connection is ended, and data and contexts are released before their session is stopped.
pub released_in_order :
    (p : Program) (k : ℕ)
    → Reach p
    → is_dependent (kind_at (shape p.store.blocks) k) ≡ true
    → (j : ℕ) × (keeps_of p.store.blocks k ≡ some j)
      × (serves_for (kind_at (shape p.store.blocks) k) (kind_at (shape p.store.blocks) j) ≡ true)
      × ((times_in p.store.released j ≡ 0)
          ⊎ ((comes_before k j p.store.released ≡ true)
              × (times_in p.store.released k ≡ 1)
              × (times_in p.store.released j ≡ 1)))
released_in_order p k r d =
    let v = Reach-IsSound p r in
    let got = captured p v (Reach-IsTyped p r) k d in
    let j = got.0 in
    (
      j,
      got.1,
      got.2,
      elim (Bool-cases (times_in p.store.released j == 0)) [
        | inl z ↦ inl (ground arith)
        | inr n ↦
            let dead : is_alive p.store.blocks j ≡ false = ground (arith, v.accounted j) in
            inr (
              v.in_order k j got.1 (ground arith),
              ground (
                arith,
                v.accounted k,
                keeps_inside p.store.blocks k j got.1,
                kept_alive (held_by p.holders) p.store.blocks k j v.balanced,
              ),
              ground (arith, v.accounted j),
            )
      ],
    )

nothing_alive :
    (owed : ℕ → ℕ) (bs : List Block) (i : ℕ)
    → Balanced owed bs
    → ((j : ℕ) → owed j ≡ 0)
    → is_alive bs i ≡ false
nothing_alive owed [] i v z = refl
nothing_alive owed (b ∷ bs) i (e, o, v) z = ground (
  arith,
  z (length bs),
  nothing_alive (passed owed b (length bs)) bs i v (λ j. ground (arith, z j, z (length bs))),
)

-- The shared pointers of a program have deleters for exactly the resources that its steps got from the
-- C library or from the user, each for one. When the program has destroyed all its objects, each of
-- these deleters ran exactly once, and no other.
pub all_released :
    (p : Program) (r : Reach p)
    → p.holders ≡ []
    → (resources_in p ≡ acquired p r)
      × ((i : ℕ) → times_in p.store.released i ≡ (if ltb i (length (acquired p r)) then 1 else 0))
all_released p r e =
    let v = Reach-IsSound p r in
    let same = acquired_lem p r in
    (
      same,
      λ i.
          rw (sym same, length-resources p.store.blocks)
            (ground (
              arith,
              v.accounted i,
              nothing_alive (held_by p.holders) p.store.blocks i v.balanced (λ j. rw e refl),
            )),
    )
