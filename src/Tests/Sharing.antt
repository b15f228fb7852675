-- ===== src/Tests/Sharing.antt =====
-- The theorems on shared pointers at small programs.
use sysrepo_cpp.Base.{ℕ, ◌⊎◌, length, ltb, if◌then◌else◌, ◌≡◌, refl, true, [], ◌∷◌, some, arith}
use sysrepo_cpp.Lifetimes.{
  Resource, share, drop_share, copy_pointer, destroy_pointer, make_pointer, destroy_pointers,
}
use sysrepo_cpp.Lifetimes.Releases.{times_in}
use sysrepo_cpp.Lifetimes.Ordering.{comes_before}
use sysrepo_cpp.Lifetimes.Classes.{Class, is_movable}
use sysrepo_cpp.Lifetimes.Holders.{
  emptied, connection, data_node, change_collection, session, change_iterator, subscription,
  members, open_connection, open_session, wrap_data, changes_of, iterate, new_subscription,
  keep_context, destruct, move_into, take_from, class_of,
}
use sysrepo_cpp.Lifetimes.Programs.{
  Program, connects, starts_session, gets_data, gets_changes, begins, subscribes, saves_context,
  moves, destroys, Reach, started, then_step, at_start, with_new, with_replaced,
}
use sysrepo_cpp.Lifetimes.Aliveness.{keeps_of}
use sysrepo_cpp.Lifetimes.Shapes.{shape, kind_at, serves_for}
use sysrepo_cpp.Lifetimes.Acquiring.{resources_in, acquired}
use sysrepo_cpp.Lifetimes.Guarantees.{Usable, released_in_order, object_keeps, all_released}
use sysrepo_cpp.Lifetimes.Members.{subscription_order, assignment_order, change_iterator_order}

abbrev connected : Program
connected = with_new at_start (open_connection 70 at_start.store)

connected-Reach : Reach connected
connected-Reach = then_step at_start connected started (connects 70)

abbrev with_session : Program
with_session = with_new connected (open_session 0 80 connected.store)

with_session-Reach : Reach with_session
unfolding open_connection make_pointer
with_session-Reach =
    then_step connected with_session connected-Reach (starts_session [] [] 0 80 refl)

-- A session with a data tree, and the connection.
abbrev with_data : Program
with_data = with_new with_session (wrap_data 1 90 with_session.store)

with_data-Reach : Reach with_data
unfolding open_session open_connection make_pointer copy_pointer share
with_data-Reach =
    then_step with_session with_data with_session-Reach
      (gets_data [] (connection 0 ∷ []) 0 1 90 refl)

object_keeps_example : Usable with_data.store (data_node 2)
unfolding wrap_data open_session open_connection make_pointer copy_pointer share
object_keeps_example =
    object_keeps with_data [] (session 0 1 ∷ connection 0 ∷ []) (data_node 2) with_data-Reach refl

-- The user destroys the session and the connection, and the data last.
abbrev without_session : Program
without_session = record {
  store = destruct (session 0 1) with_data.store;
  holders = data_node 2 ∷ connection 0 ∷ [];
}

abbrev without_connection : Program
without_connection = record {
  store = destruct (connection 0) without_session.store;
  holders = data_node 2 ∷ [];
}

abbrev without_data : Program
without_data = record { store = destruct (data_node 2) without_connection.store; holders = [] }

without_data-Reach : Reach without_data
unfolding wrap_data open_session open_connection make_pointer copy_pointer share members
without_data-Reach =
    then_step without_connection without_data
      (then_step without_session without_connection
        (then_step with_data without_session with_data-Reach
          (destroys (data_node 2 ∷ []) (connection 0 ∷ []) (session 0 1) refl))
        (destroys (data_node 2 ∷ []) [] (connection 0) refl))
      (destroys [] [] (data_node 2) refl)

released_in_order_example :
    (j : ℕ) × (keeps_of without_data.store.blocks 1 ≡ some j)
    × (serves_for
          (kind_at (shape without_data.store.blocks) 1)
          (kind_at (shape without_data.store.blocks) j)
        ≡ true)
    × ((times_in without_data.store.released j ≡ 0)
        ⊎ ((comes_before 1 j without_data.store.released ≡ true)
            × (times_in without_data.store.released 1 ≡ 1)
            × (times_in without_data.store.released j ≡ 1)))
unfolding wrap_data open_session open_connection make_pointer copy_pointer share members destruct
    destroy_pointers destroy_pointer drop_share
released_in_order_example = released_in_order without_data 1 without_data-Reach refl

all_released_example :
    (resources_in without_data ≡ acquired without_data without_data-Reach)
    × ((i : ℕ)
        → times_in without_data.store.released i
          ≡ (if ltb i (length (acquired without_data without_data-Reach)) then 1 else 0))
all_released_example = all_released without_data without_data-Reach refl

-- The connection, the session and the data that it got are all.
without_data_resources :
    resources_in without_data
    ≡ Resource.sr_data 90 ∷ Resource.session 80 ∷ Resource.connection 70 ∷ []
unfolding wrap_data open_session open_connection make_pointer copy_pointer share members destruct
    destroy_pointers destroy_pointer drop_share
without_data_resources = refl

abbrev with_subscription : Program
with_subscription = with_new with_session (new_subscription 1 with_session.store)

abbrev with_context : Program
with_context =
    with_replaced [] (keep_context 1 60 with_subscription.store) (session 0 1 ∷ connection 0 ∷ [])

with_context-Reach : Reach with_context
unfolding new_subscription open_session open_connection make_pointer copy_pointer share
with_context-Reach =
    then_step with_subscription with_context
      (then_step with_session with_subscription with_session-Reach
        (subscribes [] (connection 0 ∷ []) 0 1 refl))
      (saves_context [] (session 0 1 ∷ connection 0 ∷ []) 1 60 refl)

subscription_order_example :
    comes_before 2 1 (destruct (subscription 1 (some 2)) with_context.store).released ≡ true
unfolding keep_context new_subscription open_session open_connection make_pointer copy_pointer share
subscription_order_example =
    subscription_order with_context [] (session 0 1 ∷ connection 0 ∷ []) 1 2 with_context-Reach refl
      (omega arith) refl

-- The Subscription is moved to a new object, and the session's own object is destroyed.
abbrev moved_context : Program
moved_context = record with_context {
  holders = subscription 1 (some 2) ∷ emptied Class.subscription ∷ session 0 1 ∷ connection 0 ∷ [];
}

abbrev only_subscription : Program
only_subscription = record {
  store = destruct (session 0 1) moved_context.store;
  holders = subscription 1 (some 2) ∷ emptied Class.subscription ∷ connection 0 ∷ [];
}

only_subscription-Reach : Reach only_subscription
unfolding take_from class_of is_movable keep_context new_subscription open_session open_connection
    make_pointer copy_pointer share
only_subscription-Reach =
    then_step moved_context only_subscription
      (then_step with_context moved_context with_context-Reach
        (moves [] (session 0 1 ∷ connection 0 ∷ []) (subscription 1 (some 2)) refl refl))
      (destroys (subscription 1 (some 2) ∷ emptied Class.subscription ∷ []) (connection 0 ∷ [])
        (session 0 1) refl)

assignment_order_example :
    comes_before 1 2 (move_into (subscription 1 (some 2)) only_subscription.store).released ≡ true
unfolding keep_context new_subscription open_session open_connection make_pointer copy_pointer share
    members destruct destroy_pointers destroy_pointer drop_share
assignment_order_example =
    assignment_order only_subscription [] (emptied Class.subscription ∷ connection 0 ∷ []) 1 2
      only_subscription-Reach refl (omega arith) refl

-- An iterator over changes that is all that is left.
abbrev with_changes : Program
with_changes = with_new with_session (changes_of 1 with_session.store)

abbrev with_iterator : Program
with_iterator = with_new with_changes (iterate 1 50 with_changes.store)

abbrev only_iterator : Program
only_iterator = record {
  store = destruct (session 0 1) (destruct (change_collection 1) with_iterator.store);
  holders = change_iterator 2 1 ∷ connection 0 ∷ [];
}

only_iterator-Reach : Reach only_iterator
unfolding iterate changes_of open_session open_connection make_pointer copy_pointer share
only_iterator-Reach =
    then_step
      (record {
        store = destruct (change_collection 1) with_iterator.store;
        holders = change_iterator 2 1 ∷ session 0 1 ∷ connection 0 ∷ [];
      })
      only_iterator
      (then_step with_iterator _
        (then_step with_changes with_iterator
          (then_step with_session with_changes with_session-Reach
            (gets_changes [] (connection 0 ∷ []) 0 1 refl))
          (begins [] (session 0 1 ∷ connection 0 ∷ []) 1 50 refl))
        (destroys (change_iterator 2 1 ∷ []) (session 0 1 ∷ connection 0 ∷ []) (change_collection 1)
          refl))
      (destroys (change_iterator 2 1 ∷ []) (connection 0 ∷ []) (session 0 1) refl)

change_iterator_order_example :
    comes_before 1 2 (destruct (change_iterator 2 1) only_iterator.store).released ≡ true
unfolding iterate changes_of open_session open_connection make_pointer copy_pointer share members
    destruct destroy_pointers destroy_pointer drop_share
change_iterator_order_example =
    change_iterator_order only_iterator [] (connection 0 ∷ []) 2 1 only_iterator-Reach refl
      (omega arith) refl
