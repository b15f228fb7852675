-- ===== src/Handles.antt =====
-- The handles that Connection and Session wrap, and the functions that wrap and unwrap them.
use sysrepo_cpp.Base.{ℕ, Text, codes, ◌++◌}
use sysrepo_cpp.Capi.{Sysrepo}
use sysrepo_cpp.Effects.{Eff, call}
use sysrepo_cpp.Enums.Kinds.{LogLevel, to_log_level}

-- Copies share the handles.
pub record Session : Type 0 where
  pub m_conn : ℕ
  pub m_sess : ℕ

pub record Connection : Type 0 where
  pub ctx : ℕ

-- wrapUnmanagedSession, by the constructor for unmanaged sessions.
unfoldable pub wrap_unmanaged_session : {W Node : Type 0} → Sysrepo W Node → ℕ → W → Session
wrap_unmanaged_session api session w = record {
  m_conn = api.sr_session_get_connection session w;
  m_sess = session;
}

-- wrapUnmanagedConnection
unfoldable pub wrap_unmanaged_connection : ℕ → Connection
wrap_unmanaged_connection conn = record { ctx = conn }

-- getRawSession
unfoldable pub get_raw_session : Session → ℕ
get_raw_session sess = sess.m_sess

-- Session::getConnection
unfoldable pub get_connection : Session → Connection
get_connection sess = record { ctx = sess.m_conn }

-- A path or an XPath as the messages quote it.
abbrev pub quoted : Text → Text
quoted s = codes "'" ++ (s ++ codes "'")

-- setLogLevelStderr
unfoldable pub set_log_level_stderr :
    {W Node : Type 0} → Sysrepo W Node → LogLevel → Eff W (Unit {0})
set_log_level_stderr api level = call (λ w. (tt, api.sr_log_stderr (to_log_level level) w))
