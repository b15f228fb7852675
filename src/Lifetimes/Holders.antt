-- ===== src/Lifetimes/Holders.antt =====
-- The objects that hold shared pointers, with the shared pointers among their members in the order of
-- their declaration, and the code that creates such objects.
use sysrepo_cpp.Base.{ℕ, List, [], ◌∷◌, Option, none, some}
use sysrepo_cpp.Lifetimes.Classes.{Class}
use sysrepo_cpp.Lifetimes.{
  Resource, Store, make_pointer, copy_pointer, copy_pointers, destroy_pointers, assign_pointers,
}

-- A `supplied` object is the shared pointer that a user hands to wrapUnmanagedConnection. A
-- `data_node` is the wrapper that libyang-cpp makes for wrapSrData: it holds the given shared
-- pointer. A `closure` is the function in the event loop. The pointer to the context of a
-- Subscription may be null. An `emptied` object is one that was moved from, or the end of an
-- iteration: its shared pointers are null.
pub data Holder : Type 0 where
  supplied connection data_node context change_collection closure : ℕ → Holder
  session lock change_iterator : ℕ → ℕ → Holder
  subscription : ℕ → Option ℕ → Holder
  emptied : Class → Holder

unfoldable pub members : Holder → List ℕ
members (supplied conn) = conn ∷ []
members (connection ctx) = ctx ∷ []
members (data_node data_ptr) = data_ptr ∷ []
members (context ctx) = ctx ∷ []
members (change_collection sess) = sess ∷ []
members (closure sub) = sub ∷ []
members (session m_conn m_sess) = m_conn ∷ m_sess ∷ []
members (lock m_conn m_sess) = m_conn ∷ m_sess ∷ []
members (change_iterator m_iter m_sess) = m_iter ∷ m_sess ∷ []
members (subscription m_sess none) = m_sess ∷ []
members (subscription m_sess (some m_sub)) = m_sess ∷ m_sub ∷ []
members (emptied c) = []

unfoldable pub class_of : Holder → Class
class_of (supplied conn) = Class.supplied
class_of (connection ctx) = Class.connection
class_of (data_node data_ptr) = Class.data_node
class_of (context ctx) = Class.context
class_of (change_collection sess) = Class.change_collection
class_of (closure sub) = Class.closure
class_of (session m_conn m_sess) = Class.session
class_of (lock m_conn m_sess) = Class.lock
class_of (change_iterator m_iter m_sess) = Class.change_iterator
class_of (subscription m_sess m_sub) = Class.subscription
class_of (emptied c) = c

-- A user's shared pointer to a connection.
unfoldable pub supply : ℕ → Store → Holder × Store
unfolding make_pointer
supply conn st =
    let made = make_pointer (Resource.supplied_connection conn) none st in (supplied made.0, made.1)

-- Connection::Connection, once sr_connect has succeeded.
unfoldable pub open_connection : ℕ → Store → Holder × Store
unfolding make_pointer
open_connection conn st =
    let made = make_pointer (Resource.connection conn) none st in (connection made.0, made.1)

-- wrapUnmanagedConnection, and Session::getConnection: a Connection from a shared pointer.
unfoldable pub connection_of : ℕ → Store → Holder × Store
unfolding copy_pointer
connection_of ctx st = (connection ctx, copy_pointer ctx st)

-- Session::Session of a connection; the deleter of m_sess captures the connection.
unfoldable pub open_session : ℕ → ℕ → Store → Holder × Store
unfolding copy_pointer make_pointer
open_session conn sess st =
    let made = make_pointer (Resource.session sess) (some conn) (copy_pointer conn st) in
    (session conn made.0, made.1)

-- Session::Session of an unmanaged session: neither deleter does anything.
unfoldable pub wrap_session : ℕ → ℕ → Store → Holder × Store
unfolding make_pointer
wrap_session conn sess st =
    let m_conn = make_pointer (Resource.unmanaged_connection conn) none st in
    let m_sess = make_pointer (Resource.unmanaged_session sess) none m_conn.1 in
    (session m_conn.0 m_sess.0, m_sess.1)

-- wrapSrData: the deleter of the sr_data_t captures the session.
unfoldable pub wrap_data : ℕ → ℕ → Store → Holder × Store
unfolding make_pointer
wrap_data sess data_ptr st =
    let made = make_pointer (Resource.sr_data data_ptr) (some sess) st in (data_node made.0, made.1)

-- Session::getContext: the deleter that releases the context captures the session.
unfoldable pub context_of : ℕ → ℕ → Store → Holder × Store
unfolding make_pointer
context_of sess raw st =
    let made = make_pointer (Resource.context raw) (some sess) st in (context made.0, made.1)

-- ChangeCollection::ChangeCollection, called by Session::getChanges.
unfoldable pub changes_of : ℕ → Store → Holder × Store
unfolding copy_pointer
changes_of sess st = (change_collection sess, copy_pointer sess st)

-- The first constructor of ChangeIterator, called by ChangeCollection::begin.
unfoldable pub iterate : ℕ → ℕ → Store → Holder × Store
unfolding copy_pointer make_pointer
iterate sess iter st =
    let made = make_pointer (Resource.change_iter iter) none st in
    (change_iterator made.0 sess, copy_pointer sess made.1)

-- Subscription::Subscription; there is no context yet.
unfoldable pub new_subscription : ℕ → Store → Holder × Store
unfolding copy_pointer
new_subscription sess st = (subscription sess none, copy_pointer sess st)

-- The assignment to m_sub in Subscription::saveContext.
unfoldable pub keep_context : ℕ → ℕ → Store → Holder × Store
unfolding make_pointer
keep_context sess ctx st =
    let made = make_pointer (Resource.subscription_ctx ctx) none st in
    (subscription sess (some made.0), made.1)

-- The function that Subscription::saveContext hands to the event loop captures m_sub.
unfoldable pub poll : ℕ → Store → Holder × Store
unfolding copy_pointer
poll sub st = (closure sub, copy_pointer sub st)

-- The member m_session of a Lock is a copy of the session.
unfoldable pub take_lock : ℕ → ℕ → Store → Holder × Store
unfolding copy_pointers
take_lock m_conn m_sess st = (lock m_conn m_sess, copy_pointers (m_conn ∷ m_sess ∷ []) st)

-- The copy constructor that the compiler generates. A Subscription and a Lock have none.
unfoldable pub copy : Holder → Store → Holder × Store
unfolding members copy_pointers
copy h st = (h, copy_pointers (members h) st)

-- The destructor that the compiler generates, or what follows the body of the class's own.
unfoldable pub destruct : Holder → Store → Store
unfolding members destroy_pointers
destruct h st = destroy_pointers (members h) st

-- The move constructor takes the shared pointers: the new object, and what is left of the old one.
unfoldable pub take_from : Holder → Holder × Holder
unfolding class_of
take_from h = (h, emptied (class_of h))

-- The copy assignment to `target`, member by member.
unfoldable pub assign : Holder → Holder → Store → Holder × Store
unfolding members assign_pointers
assign source target st = (source, assign_pointers (members source) (members target) st)

-- The move assignment to `target`: the source's pointers are taken, and the target's old ones are
-- destroyed, member by member in the order of their declaration.
unfoldable pub move_into : Holder → Store → Store
unfolding members assign_pointers
move_into target st = assign_pointers [] (members target) st
