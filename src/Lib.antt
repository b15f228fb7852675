-- ===== src/Lib.antt =====
-- sysrepo-cpp is a C++ binding of the C library sysrepo, a datastore of YANG data. Its classes own
-- or share handles of the C library, turn result codes into exceptions, and let the C library call
-- C++ functions. This library models its sources under src/ and include/sysrepo-cpp/, and its
-- example under examples/.
--
-- The parts:
-- - Base: names of the standard library that are passed on, with texts, lists, integers and bits.
-- - Enums: include/sysrepo-cpp/Enum.hpp, src/utils/enum.hpp and src/Enum.cpp. Enums/Kinds and
--   Enums/Codes have the enumerations, the casts and the printers. A C++ enumeration with a fixed
--   underlying type has values besides its enumerators; these are the constructor `unnamed`. The
--   flags are numbers in Enums/Flags and its children. Enums/Assertions has the static assertions
--   of src/utils/enum.hpp, over the constants of sysrepo.h as a record in Enums/Constants; those
--   on the underlying types are left out.
-- - Times: toTimespec and toTimePoint of src/utils/utils.cpp. A time point is its count of
--   nanoseconds, and a signed overflow is a missing result.
-- - Options: checkNoThreadFlag of src/utils/utils.cpp.
-- - Effects: what a piece of C++ does with the state of the C library: it returns, throws, ends
--   the process or runs into undefined behaviour.
-- - Capi: the functions of sysrepo and libyang as the fields of a record. They are a parameter of
--   every definition that calls one.
-- - Errors: throwIfError of src/utils/exception.cpp, and impl_getErrors and the printers of errors
--   of src/Session.cpp.
-- - Changes: ChangeCollection and ChangeIterator of src/Subscription.cpp. `collect` is a range-for
--   loop over a collection.
-- - Callbacks: moduleChangeCb, operGetItemsCb, rpcActionCb, eventNotifCb and handleExceptionFromCb
--   of src/Subscription.cpp.
-- - Handles: Session and Connection as pairs of handles, and the functions that wrap and unwrap
--   them.
-- - Sessions: the methods of Session in src/Session.cpp; those that hand over data trees are in
--   Sessions/Data. The modules Sessions/Defaults, Connections/Defaults and Subscriptions/Defaults
--   have the methods with the default arguments that the headers declare.
-- - Connections: src/Connection.cpp.
-- - Locks: the class Lock of src/Session.cpp.
-- - Subscriptions: the class Subscription of src/Subscription.cpp with its members in the order of
--   include/sysrepo-cpp/Subscription.hpp, in Subscriptions/Methods the four subscribing methods,
--   and in Subscriptions/Lifecycle its destructor, its moves, and the methods of Session that
--   create one. Subscriptions/Histories has all that can happen to an object, and
--   Subscriptions/Induction what every single change keeps. Subscriptions/Serving has the calls of
--   the C library: the casts of the private data at the beginning of the functions of Callbacks. A
--   user's function is known by a number, and a record gives the functions. Subscriptions/Contract
--   has the abstract view of a Subscription, the list of the user's functions that the C library
--   may call.
-- - Lifetimes: the shared pointers of all classes. Lifetimes.antt has the control blocks with
--   their counts, and what the end of a share sets off; Lifetimes/Holders has the objects that
--   hold shares, and the code of src/Session.cpp, src/Connection.cpp and src/Subscription.cpp that
--   creates, copies, moves and assigns them; Lifetimes/Classes says which classes can be copied
--   and moved; Lifetimes/Programs has the programs that use the classes, as a step relation.
--   Lifetimes/Balance to Lifetimes/Invariant have the counts, Lifetimes/Shapes, Lifetimes/Typing
--   and Lifetimes/Wiring what each block and each deleter is for, and Lifetimes/Acquiring the
--   resources that the steps of a program get.
-- - Example: examples/module_change_example.cpp, with the printing of nodes and changes, the
--   callback and, in Example/Running, the function main. Example/Printing, Example/Looping and
--   Example/Watching say what is printed, Example/Ending how main ends. The state is the C library
--   with the text written to std::cout and std::cerr; what is read of libyang's nodes is a record
--   of functions, and all that happens during pause() is a parameter.
-- - Tests: a small library in place of sysrepo and libyang, and the theorems at concrete inputs.
--
-- How the parts interact: every method passes its arguments to one function of Capi and its result
-- code to Errors. A Subscription stores a callback, hands its address to the C library, and keeps
-- the context that it gets back; the C library calls the functions of Callbacks with that address.
-- A module change callback reads the changes through Changes. When callbacks of an event loop are
-- given, the descriptor of the context is registered with the event loop, whose function shares
-- the context.
--
-- A Subscription is modelled with the history of its actions: memory that is created and freed,
-- subscriptions that the C library accepts, contexts that are emptied and released, and
-- descriptors that are registered and unregistered. What the C library holds, what is live and
-- what an address has are read off the history. The shares of the context are not counted in that
-- history; Lifetimes counts the shares of all resources, with the copies, moves and assignments of
-- the objects. A constructor that throws destroys what it has copied, and leaves what a copy of a
-- pointer and its destruction leave. The event loop keeps its function from the registration up to
-- the end of the registration.
--
-- Fuel: `collect` and the loop of the example count rounds, and need two more than there are
-- changes. The printing of a number n uses n + 1 steps, which is more than its digits.
--
-- Not modelled: subscribing on a Subscription that was moved from, which hands null pointers for
-- the session and the handler to the C library and is undefined behaviour here; sysrepo and
-- libyang themselves; the bodies of users' callbacks, which are arbitrary effects; exhausted
-- memory; threads of the C library, apart from the question what a callback could reach at each
-- moment. Times in milliseconds are passed on as counts. The end of the example's session and
-- connection is the business of Lifetimes. The tests and the build files are not modelled.
pub mod Base
pub mod Enums
pub mod Times
pub mod Effects
pub mod Capi
pub mod Errors
pub mod Options
pub mod Changes
pub mod Callbacks
pub mod Handles
pub mod Sessions
pub mod Connections
pub mod Locks
pub mod Subscriptions
pub mod Lifetimes
pub mod Example
pub mod Tests
