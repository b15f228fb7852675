-- ===== src/Lifetimes/Classes.antt =====
-- The classes of the objects that hold shared pointers, and which of their copy and move operations
-- exist: those that include/sysrepo-cpp/Session.hpp and include/sysrepo-cpp/Subscription.hpp
-- declare or delete, and those that the compiler generates elsewhere.
use sysrepo_cpp.Base.{Bool, true, false}

pub data Class : Type 0 where
  supplied connection data_node context change_collection closure : Class
  session lock change_iterator subscription : Class

-- A Subscription and a Lock cannot be copied.
unfoldable pub is_copyable : Class → Bool
is_copyable lock = false
is_copyable subscription = false
is_copyable c = true

-- What moves its shared pointers. A Lock cannot be moved; the wrappers of libyang-cpp and the
-- function in the event loop are other programs' types.
unfoldable pub is_movable : Class → Bool
is_movable lock = false
is_movable data_node = false
is_movable context = false
is_movable closure = false
is_movable c = true

-- What is assigned member by member from an object that keeps its shares.
unfoldable pub is_assignable : Class → Bool
is_assignable supplied = true
is_assignable connection = true
is_assignable session = true
is_assignable change_collection = true
is_assignable change_iterator = true
is_assignable c = false
