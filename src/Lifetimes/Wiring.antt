-- ===== src/Lifetimes/Wiring.antt =====
-- What the objects of a program hold and what the deleters have captured, through every step.
use mathlib.Core.Path.{subst}
use sysrepo_cpp.Base.{
  ℕ, ◌≡◌, refl, sym, ap, ◌∙◌, true, List, [], ◌∷◌, ◌++◌, Option, none, some, arith, length, inl,
  inr,
}
use sysrepo_cpp.Lifetimes.{Resource, Store, make_pointer, copy_pointer}
use sysrepo_cpp.Lifetimes.Holders.{
  Holder, supplied, connection, change_collection, session, subscription, members, supply,
  open_connection, connection_of, open_session, wrap_session, wrap_data, context_of, changes_of,
  iterate, new_subscription, keep_context, poll, take_lock, copy, destruct, take_from, assign,
  move_into,
}
use sysrepo_cpp.Lifetimes.Programs.{
  Program, Has, with_new, with_replaced, Step, supplies, connects, wraps_connection, starts_session,
  wraps_session, gets_connection, gets_data, gets_context, gets_changes, begins, subscribes,
  saves_context, registers, locks, copies, ends, moves, assigns, moves_into, destroys, Reach,
  started, then_step,
}
use sysrepo_cpp.Lifetimes.Shapes.{
  Shape, shape, length-shape, kind_of, kind_at, is_connection, is_session, shape-make_pointer,
  shape-copy_pointer, shape-copy_pointers, shape-destroy_pointers, shape-assign_pointers,
  later_kind,
}
use sysrepo_cpp.Lifetimes.Typing.{
  Fits, AllFit, Typed, AllTyped, AllTyped-later, AllTyped-take, AllTyped-put, Backed-IsSession,
}

abbrev pub IsTyped : Program → Type 0
IsTyped p = AllFit (shape p.store.blocks) × AllTyped (shape p.store.blocks) p.holders

abbrev shape_of : Program → Shape
shape_of p = shape p.store.blocks

module _ (p : Program) (v : IsTyped p) where
  -- One of the objects, and the others.
  taken :
      (before after : List Holder) (h : Holder)
      → Has p before h after
      → Typed (shape_of p) h × AllTyped (shape_of p) (before ++ after)
  taken before after h e =
      AllTyped-take (shape_of p) before after h (subst (AllTyped (shape_of p)) e v.1)

  -- The blocks are the same, and other objects are there.
  same_blocks :
      (st : Store) (hs : List Holder)
      → shape st.blocks ≡ shape_of p
      → AllTyped (shape_of p) hs
      → IsTyped (record { store = st; holders = hs })
  same_blocks st hs e t = rw e (v.0, t)

  copied :
      (r : Holder × Store)
      → shape r.1.blocks ≡ shape_of p
      → Typed (shape_of p) r.0
      → IsTyped (with_new p r)
  copied r e t = same_blocks r.1 (r.0 ∷ p.holders) e (t, v.1)

  -- One block is new.
  new_block :
      (x : Resource × Option ℕ) (st : Store) (hs : List Holder)
      → shape st.blocks ≡ x ∷ shape_of p
      → Fits (kind_of x.0) x.1 (shape_of p)
      → AllTyped (x ∷ shape_of p) hs
      → IsTyped (record { store = st; holders = hs })
  new_block x st hs e f t = rw e ((f, v.0), t)

  made :
      (x : Resource × Option ℕ) (r : Holder × Store)
      → shape r.1.blocks ≡ x ∷ shape_of p
      → Fits (kind_of x.0) x.1 (shape_of p)
      → Typed (x ∷ shape_of p) r.0
      → IsTyped (with_new p r)
  made x r e f t =
      new_block x r.1 (r.0 ∷ p.holders) e f (t, AllTyped-later x (shape_of p) p.holders v.1)

  supplies-IsTyped : (conn : ℕ) → IsTyped (with_new p (supply conn p.store))
  unfolding supply make_pointer
  supplies-IsTyped conn =
      made (Resource.supplied_connection conn, none) (supply conn p.store)
        (shape-make_pointer (Resource.supplied_connection conn) none p.store) refl
        (rw (length-shape p.store.blocks) (ground arith))

  connects-IsTyped : (conn : ℕ) → IsTyped (with_new p (open_connection conn p.store))
  unfolding open_connection make_pointer
  connects-IsTyped conn =
      made (Resource.connection conn, none) (open_connection conn p.store)
        (shape-make_pointer (Resource.connection conn) none p.store) refl
        (rw (length-shape p.store.blocks) (ground arith))

  connection_of-IsTyped :
      (ctx : ℕ)
      → is_connection (kind_at (shape_of p) ctx) ≡ true
      → IsTyped (with_new p (connection_of ctx p.store))
  unfolding connection_of
  connection_of-IsTyped ctx t =
      copied (connection_of ctx p.store) (shape-copy_pointer ctx p.store) t

  open_session-IsTyped :
      (ctx sess : ℕ)
      → is_connection (kind_at (shape_of p) ctx) ≡ true
      → IsTyped (with_new p (open_session ctx sess p.store))
  unfolding open_session make_pointer
  open_session-IsTyped ctx sess t =
      let x : Resource × Option ℕ = (Resource.session sess, some ctx) in
      let st = copy_pointer ctx p.store in
      let e : shape st.blocks ≡ shape_of p = shape-copy_pointer ctx p.store in
      let n : length st.blocks ≡ length (shape_of p) = sym (length-shape st.blocks) ∙ ap length e in
      made x (open_session ctx sess p.store)
        (shape-make_pointer (Resource.session sess) (some ctx) st ∙ ap (λ s. x ∷ s) e) t
        (
          later_kind is_connection x (shape_of p) ctx refl t,
          rw n (inr (ground arith, ground arith)),
        )

  wrap_data-IsTyped :
      (sess d : ℕ)
      → is_session (kind_at (shape_of p) sess) ≡ true
      → IsTyped (with_new p (wrap_data sess d p.store))
  unfolding wrap_data make_pointer
  wrap_data-IsTyped sess d t =
      made (Resource.sr_data d, some sess) (wrap_data sess d p.store)
        (shape-make_pointer (Resource.sr_data d) (some sess) p.store) t
        (rw (length-shape p.store.blocks) (ground arith))

  context_of-IsTyped :
      (sess raw : ℕ)
      → is_session (kind_at (shape_of p) sess) ≡ true
      → IsTyped (with_new p (context_of sess raw p.store))
  unfolding context_of make_pointer
  context_of-IsTyped sess raw t =
      made (Resource.context raw, some sess) (context_of sess raw p.store)
        (shape-make_pointer (Resource.context raw) (some sess) p.store) t
        (rw (length-shape p.store.blocks) (ground arith))

  iterate-IsTyped :
      (sess iter : ℕ)
      → is_session (kind_at (shape_of p) sess) ≡ true
      → IsTyped (with_new p (iterate sess iter p.store))
  unfolding iterate make_pointer
  iterate-IsTyped sess iter t =
      let x : Resource × Option ℕ = (Resource.change_iter iter, none) in
      let made_iter = make_pointer (Resource.change_iter iter) none p.store in
      made x (iterate sess iter p.store)
        (shape-copy_pointer sess made_iter.1
          ∙ shape-make_pointer (Resource.change_iter iter) none p.store)
        refl
        (
          rw (length-shape p.store.blocks) (ground arith),
          later_kind is_session x (shape_of p) sess refl t,
        )

  saves_context-IsTyped :
      (before after : List Holder) (m_sess ctx : ℕ)
      → Has p before (subscription m_sess none) after
      → IsTyped (with_replaced before (keep_context m_sess ctx p.store) after)
  unfolding keep_context make_pointer
  saves_context-IsTyped before after m_sess ctx e =
      let x : Resource × Option ℕ = (Resource.subscription_ctx ctx, none) in
      let had = taken before after (subscription m_sess none) e in
      let kept = keep_context m_sess ctx p.store in
      new_block x kept.1 (before ++ (kept.0 ∷ after))
        (shape-make_pointer (Resource.subscription_ctx ctx) none p.store) refl
        (AllTyped-put (x ∷ shape_of p) before after kept.0
          (
            later_kind is_session x (shape_of p) m_sess refl had.0,
            rw (length-shape p.store.blocks) (ground arith),
          )
          (AllTyped-later x (shape_of p) (before ++ after) had.1))

  assigns-IsTyped :
      (before after left right : List Holder) (target source : Holder)
      → Has p before target after
      → before ++ after ≡ left ++ (source ∷ right)
      → IsTyped (with_replaced before (assign source target p.store) after)
  unfolding assign
  assigns-IsTyped before after left right target source e f =
      let others = (taken before after target e).1 in
      let typed =
        (AllTyped-take (shape_of p) left right source (subst (AllTyped (shape_of p)) f others)).0 in
      same_blocks (assign source target p.store).1 (before ++ (source ∷ after))
        (shape-assign_pointers (members source) (members target) p.store)
        (AllTyped-put (shape_of p) before after source typed others)

  moves_into-IsTyped :
      (before after left right : List Holder) (target source : Holder)
      → Has p before target after
      → before ++ after ≡ left ++ (source ∷ right)
      → IsTyped (record {
        store = move_into target p.store;
        holders = (take_from source).0 ∷ (left ++ ((take_from source).1 ∷ right));
      })
  unfolding move_into take_from
  moves_into-IsTyped before after left right target source e f =
      let others = (taken before after target e).1 in
      let had =
        AllTyped-take (shape_of p) left right source (subst (AllTyped (shape_of p)) f others) in
      same_blocks (move_into target p.store)
        ((take_from source).0 ∷ (left ++ ((take_from source).1 ∷ right)))
        (shape-assign_pointers [] (members target) p.store)
        (had.0, AllTyped-put (shape_of p) left right (take_from source).1 tt had.1)

  moves-IsTyped :
      (before after : List Holder) (h : Holder)
      → Has p before h after
      → IsTyped (record p { holders = (take_from h).0 ∷ (before ++ ((take_from h).1 ∷ after)) })
  unfolding take_from
  moves-IsTyped before after h e =
      let had = taken before after h e in
      (v.0, (had.0, AllTyped-put (shape_of p) before after (take_from h).1 tt had.1))

  destroys-IsTyped :
      (before after : List Holder) (h : Holder)
      → Has p before h after
      → IsTyped (record { store = destruct h p.store; holders = before ++ after })
  unfolding destruct
  destroys-IsTyped before after h e =
      same_blocks (destruct h p.store) (before ++ after)
        (shape-destroy_pointers (members h) p.store) (taken before after h e).1

  session_kind :
      (before after : List Holder) (m_conn m_sess : ℕ)
      → Has p before (session m_conn m_sess) after
      → is_session (kind_at (shape_of p) m_sess) ≡ true
  session_kind before after m_conn m_sess e =
      Backed-IsSession (shape_of p) m_conn m_sess (taken before after (session m_conn m_sess) e).0.1

wrap_session-IsTyped :
    (p : Program) (conn sess : ℕ)
    → IsTyped p
    → IsTyped (with_new p (wrap_session conn sess p.store))
unfolding wrap_session make_pointer
wrap_session-IsTyped p conn sess v =
    let x : Resource × Option ℕ = (Resource.unmanaged_connection conn, none) in
    let y : Resource × Option ℕ = (Resource.unmanaged_session sess, none) in
    let st = (make_pointer (Resource.unmanaged_connection conn) none p.store).1 in
    let e : shape st.blocks ≡ x ∷ shape_of p =
      shape-make_pointer (Resource.unmanaged_connection conn) none p.store in
    let p1 : Program = record { store = st; holders = p.holders } in
    let v1 : IsTyped p1 =
      new_block p v x st p.holders e refl (AllTyped-later x (shape_of p) p.holders v.1) in
    let conn_kind : is_connection (kind_at (shape st.blocks) (length p.store.blocks)) ≡ true =
      subst (λ s. is_connection (kind_at s (length p.store.blocks)) ≡ true) (sym e)
        (rw (length-shape p.store.blocks) (ground arith)) in
    made p1 v1 y (wrap_session conn sess p.store)
      (shape-make_pointer (Resource.unmanaged_session sess) none st) refl
      (
        later_kind is_connection y (shape st.blocks) (length p.store.blocks) refl conn_kind,
        inl (rw (length-shape st.blocks) (ground arith)),
      )

Step-IsTyped : (p q : Program) → Step p q → IsTyped p → IsTyped q
unfolding copy take_lock members changes_of new_subscription poll
Step-IsTyped p _ (supplies conn) v = supplies-IsTyped p v conn
Step-IsTyped p _ (connects conn) v = connects-IsTyped p v conn
Step-IsTyped p _ (wraps_connection before after conn e) v =
    connection_of-IsTyped p v conn (taken p v before after (supplied conn) e).0
Step-IsTyped p _ (starts_session before after ctx sess e) v =
    open_session-IsTyped p v ctx sess (taken p v before after (connection ctx) e).0
Step-IsTyped p _ (wraps_session conn sess) v = wrap_session-IsTyped p conn sess v
Step-IsTyped p _ (gets_connection before after m_conn m_sess e) v =
    connection_of-IsTyped p v m_conn (taken p v before after (session m_conn m_sess) e).0.0
Step-IsTyped p _ (gets_data before after m_conn m_sess d e) v =
    wrap_data-IsTyped p v m_sess d (session_kind p v before after m_conn m_sess e)
Step-IsTyped p _ (gets_context before after m_conn m_sess raw e) v =
    context_of-IsTyped p v m_sess raw (session_kind p v before after m_conn m_sess e)
Step-IsTyped p _ (gets_changes before after m_conn m_sess e) v =
    copied p v (changes_of m_sess p.store) (shape-copy_pointer m_sess p.store)
      (session_kind p v before after m_conn m_sess e)
Step-IsTyped p _ (begins before after m_sess iter e) v =
    iterate-IsTyped p v m_sess iter (taken p v before after (change_collection m_sess) e).0
Step-IsTyped p _ (subscribes before after m_conn m_sess e) v =
    copied p v (new_subscription m_sess p.store) (shape-copy_pointer m_sess p.store)
      (session_kind p v before after m_conn m_sess e)
Step-IsTyped p _ (saves_context before after m_sess ctx e) v =
    saves_context-IsTyped p v before after m_sess ctx e
Step-IsTyped p _ (registers before after m_sess m_sub e) v =
    copied p v (poll m_sub p.store) (shape-copy_pointer m_sub p.store)
      (taken p v before after (subscription m_sess (some m_sub)) e).0.1
Step-IsTyped p _ (locks before after m_conn m_sess e) v =
    copied p v (take_lock m_conn m_sess p.store)
      (shape-copy_pointers (m_conn ∷ m_sess ∷ []) p.store)
      (taken p v before after (session m_conn m_sess) e).0
Step-IsTyped p _ (copies before after h e c) v =
    copied p v (copy h p.store) (shape-copy_pointers (members h) p.store)
      (taken p v before after h e).0
Step-IsTyped p _ ends v = (v.0, (tt, v.1))
Step-IsTyped p _ (moves before after h e c) v = moves-IsTyped p v before after h e
Step-IsTyped p _ (assigns before after left right target source e f c d) v =
    assigns-IsTyped p v before after left right target source e f
Step-IsTyped p _ (moves_into before after left right target source e f c d) v =
    moves_into-IsTyped p v before after left right target source e f
Step-IsTyped p _ (destroys before after h e) v = destroys-IsTyped p v before after h e

-- In every state that a program comes to, each object holds what its type says, and each deleter has
-- captured what it needs.
pub Reach-IsTyped : (p : Program) → Reach p → IsTyped p
Reach-IsTyped _ started = (tt, tt)
Reach-IsTyped _ (then_step p q r s) = Step-IsTyped p q s (Reach-IsTyped p r)
