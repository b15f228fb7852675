-- ===== src/Connections.antt =====
-- src/Connection.cpp.
pub mod Replay
pub mod Defaults
use sysrepo_cpp.Base.{
  ℕ, ◌++◌, ◌&&◌, not, Bool, false, Option, none, some, Text, codes, ◌==◌, if◌then◌else◌,
}
use sysrepo_cpp.Base.Int.{ℤ, pos, negsuc}
use sysrepo_cpp.Times.{Timespec, to_time_point}
use sysrepo_cpp.Effects.{Eff, pure, call, dereference, ◌>>=◌, ◌>>◌, c_str, c_str_or_null}
use sysrepo_cpp.Enums.Kinds.{Datastore, to_datastore}
use sysrepo_cpp.Enums.Flags.Connect.{ConnectionFlags}
use sysrepo_cpp.Capi.{Sysrepo}
use sysrepo_cpp.Errors.{throw_if_error_bare}
use sysrepo_cpp.Handles.{Session, Connection}

pub record ModuleReplaySupport : Type 0 where
  pub enabled : Bool
  pub earliest_notification : Option ℤ

abbrev pub is_zero : ℤ → Bool
is_zero (pos n) = n == 0
is_zero (negsuc n) = false

abbrev pub session_handle : Option Session → Option ℕ
session_handle none = none
session_handle (some s) = some s.m_sess

unfoldable pub replay_support : {W : Type 0} → Timespec → Bool → Eff W ModuleReplaySupport
replay_support earliest enabled =
    let found = (do
      time ← dereference (to_time_point earliest)
      pure (record { enabled = enabled; earliest_notification = some time })) in
    if is_zero earliest.tv_sec && is_zero earliest.tv_nsec
    then pure (record { enabled = enabled; earliest_notification = none })
    else found

module _ {W Node : Type 0} (api : Sysrepo W Node) where
  -- The constructor that connects.
  unfoldable pub connect : ConnectionFlags → Eff W Connection
  connect options = do
    got ← call (api.sr_connect options)
    throw_if_error_bare got.0 (codes "Couldn't connect to sysrepo")
    pure (record { ctx = got.1 })

  -- Connection::sessionStart
  unfoldable pub session_start : Connection → Datastore → Eff W Session
  session_start conn datastore = do
    got ← call (api.sr_session_start conn.ctx (to_datastore datastore))
    throw_if_error_bare got.0 (codes "Couldn't start sysrepo session")
    pure (record { m_conn = conn.ctx; m_sess = got.1 })

  -- Connection::discardOperationalChanges
  unfoldable pub discard_operational_changes :
      Connection → Option Text → Option Session → ℤ → Eff W (Unit {0})
  discard_operational_changes conn xpath session timeout = do
    res ← call (
        api.sr_discard_oper_changes conn.ctx (session_handle session) (c_str_or_null xpath) timeout)
    throw_if_error_bare res (codes "Couldn't discard operational changes")

  -- Connection::setModuleReplaySupport
  unfoldable pub set_module_replay_support : Connection → Text → Bool → Eff W (Unit {0})
  set_module_replay_support conn module_name enabled = do
    res ← call (api.sr_set_module_replay_support conn.ctx (c_str module_name) enabled)
    throw_if_error_bare res
        (codes "Couldn't set replay support for module '" ++ (module_name ++ codes "'"))

  -- Connection::getModuleReplaySupport: a time of zero says that there is no notification.
  unfoldable pub get_module_replay_support : Connection → Text → Eff W ModuleReplaySupport
  get_module_replay_support conn module_name = do
    got ← call (api.sr_get_module_replay_support conn.ctx (c_str module_name))
    throw_if_error_bare got.0
        (codes "Couldn't get replay support for module '" ++ (module_name ++ codes "'"))
    replay_support got.1 (not (got.2 == 0))
