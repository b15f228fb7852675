-- ===== src/Connections/Defaults.antt =====
-- The constructor and the methods of Connection with the default arguments that
-- include/sysrepo-cpp/Connection.hpp declares.
use sysrepo_cpp.Base.{none}
use sysrepo_cpp.Base.Int.{pos}
use sysrepo_cpp.Effects.{Eff}
use sysrepo_cpp.Enums.Kinds.{Datastore}
use sysrepo_cpp.Enums.Flags.Connect
use sysrepo_cpp.Capi.{Sysrepo}
use sysrepo_cpp.Handles.{Session, Connection}
use sysrepo_cpp.Connections.{connect, session_start, discard_operational_changes}

module _ {W Node : Type 0} (api : Sysrepo W Node) where
  abbrev pub connect_default : Eff W Connection
  connect_default = connect api Connect.default

  abbrev pub session_start_default : Connection → Eff W Session
  session_start_default conn = session_start api conn Datastore.running

  abbrev pub discard_operational_changes_default : Connection → Eff W (Unit {0})
  discard_operational_changes_default conn = discard_operational_changes api conn none none (pos 0)
