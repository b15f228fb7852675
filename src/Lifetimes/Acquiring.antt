-- ===== src/Lifetimes/Acquiring.antt =====
-- The resources that a program gets, by the steps that it takes, and those that its shared pointers
-- release.
use sysrepo_cpp.Base.{
  ℕ, ◌≡◌, refl, ap, ◌∙◌, List, [], ◌∷◌, ◌++◌, Option, none, some, map, length, arith,
}
use sysrepo_cpp.Lifetimes.{Resource, Block, Store, make_pointer, copy_pointer}
use sysrepo_cpp.Lifetimes.Holders.{
  members, supply, open_connection, connection_of, open_session, wrap_session, wrap_data,
  context_of, changes_of, iterate, new_subscription, keep_context, poll, take_lock, copy, destruct,
  take_from, assign, move_into,
}
use sysrepo_cpp.Lifetimes.Programs.{
  Program, Step, supplies, connects, wraps_connection, starts_session, wraps_session,
  gets_connection, gets_data, gets_context, gets_changes, begins, subscribes, saves_context,
  registers, locks, copies, ends, moves, assigns, moves_into, destroys, Reach, started, then_step,
}
use sysrepo_cpp.Lifetimes.Shapes.{
  Shape, shape, shape-make_pointer, shape-copy_pointer, shape-copy_pointers, shape-destroy_pointers,
  shape-assign_pointers,
}

-- What a step gets: a handle of the C library, or one that the user supplies. Nothing else gets any.
abbrev pub takes : (p q : Program) → Step p q → List Resource
takes p _ (supplies conn) = Resource.supplied_connection conn ∷ []
takes p _ (connects conn) = Resource.connection conn ∷ []
takes p _ (starts_session before after ctx sess e) = Resource.session sess ∷ []
takes p _ (wraps_session conn sess) =
    Resource.unmanaged_session sess ∷ Resource.unmanaged_connection conn ∷ []
takes p _ (gets_data before after m_conn m_sess data_ptr e) = Resource.sr_data data_ptr ∷ []
takes p _ (gets_context before after m_conn m_sess raw e) = Resource.context raw ∷ []
takes p _ (begins before after m_sess iter e) = Resource.change_iter iter ∷ []
takes p _ (saves_context before after m_sess ctx e) = Resource.subscription_ctx ctx ∷ []
takes p _ other = []

-- All that the steps of a program have got, the latest first.
abbrev pub acquired : (p : Program) → Reach p → List Resource
acquired _ started = []
acquired _ (then_step p q r s) = takes p q s ++ acquired p r

abbrev resources : Shape → List Resource
resources s = map (λ x. x.0) s

-- What the deleters of all blocks release.
abbrev pub resources_in : Program → List Resource
resources_in p = map (λ x. x.0) (shape p.store.blocks)

pub length-resources : (bs : List Block) → length (resources (shape bs)) ≡ length bs
length-resources [] = refl
length-resources (b ∷ bs) = ground (arith, length-resources bs)

one_more :
    (r : Resource) (keeps : Option ℕ) (st : Store)
    → resources (shape (make_pointer r keeps st).1.blocks) ≡ r ∷ resources (shape st.blocks)
one_more r keeps st = ap resources (shape-make_pointer r keeps st)

takes_lem : (p q : Program) (s : Step p q) → resources_in q ≡ takes p q s ++ resources_in p
unfolding supply open_connection connection_of open_session wrap_session wrap_data context_of
    changes_of iterate new_subscription keep_context poll take_lock copy destruct take_from assign
    move_into
takes_lem p _ (supplies conn) = one_more (Resource.supplied_connection conn) none p.store
takes_lem p _ (connects conn) = one_more (Resource.connection conn) none p.store
takes_lem p _ (wraps_connection before after conn e) =
    ap resources (shape-copy_pointer conn p.store)
takes_lem p _ (starts_session before after ctx sess e) =
    one_more (Resource.session sess) (some ctx) (copy_pointer ctx p.store)
    ∙ ap (λ s. Resource.session sess ∷ resources s) (shape-copy_pointer ctx p.store)
takes_lem p _ (wraps_session conn sess) =
    one_more (Resource.unmanaged_session sess) none
      (make_pointer (Resource.unmanaged_connection conn) none p.store).1
    ∙ ap (λ rs. Resource.unmanaged_session sess ∷ rs)
        (one_more (Resource.unmanaged_connection conn) none p.store)
takes_lem p _ (gets_connection before after m_conn m_sess e) =
    ap resources (shape-copy_pointer m_conn p.store)
takes_lem p _ (gets_data before after m_conn m_sess d e) =
    one_more (Resource.sr_data d) (some m_sess) p.store
takes_lem p _ (gets_context before after m_conn m_sess raw e) =
    one_more (Resource.context raw) (some m_sess) p.store
takes_lem p _ (gets_changes before after m_conn m_sess e) =
    ap resources (shape-copy_pointer m_sess p.store)
takes_lem p _ (begins before after m_sess iter e) =
    ap resources
      (shape-copy_pointer m_sess (make_pointer (Resource.change_iter iter) none p.store).1)
    ∙ one_more (Resource.change_iter iter) none p.store
takes_lem p _ (subscribes before after m_conn m_sess e) =
    ap resources (shape-copy_pointer m_sess p.store)
takes_lem p _ (saves_context before after m_sess ctx e) =
    one_more (Resource.subscription_ctx ctx) none p.store
takes_lem p _ (registers before after m_sess m_sub e) =
    ap resources (shape-copy_pointer m_sub p.store)
takes_lem p _ (locks before after m_conn m_sess e) =
    ap resources (shape-copy_pointers (m_conn ∷ m_sess ∷ []) p.store)
takes_lem p _ (copies before after h e c) = ap resources (shape-copy_pointers (members h) p.store)
takes_lem p _ ends = refl
takes_lem p _ (moves before after h e c) = refl
takes_lem p _ (assigns before after left right target source e f c d) =
    ap resources (shape-assign_pointers (members source) (members target) p.store)
takes_lem p _ (moves_into before after left right target source e f c d) =
    ap resources (shape-assign_pointers [] (members target) p.store)
takes_lem p _ (destroys before after h e) =
    ap resources (shape-destroy_pointers (members h) p.store)

-- The shared pointers have deleters for exactly what the steps have got.
pub acquired_lem : (p : Program) (r : Reach p) → resources_in p ≡ acquired p r
acquired_lem _ started = refl
acquired_lem _ (then_step p q r s) =
    takes_lem p q s ∙ ap (λ rs. takes p q s ++ rs) (acquired_lem p r)
