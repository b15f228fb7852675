-- ===== src/Enums/Flags/Connect.antt =====
-- The values of ConnectionFlags, in include/sysrepo-cpp/Enum.hpp.
use sysrepo_cpp.Base.{ℕ}

abbrev pub ConnectionFlags : Type 0
ConnectionFlags = ℕ

abbrev pub default : ConnectionFlags
default = 0

abbrev pub cache_running : ConnectionFlags
cache_running = 1

abbrev pub lib_yang_priv_parsed : ConnectionFlags
lib_yang_priv_parsed = 2
