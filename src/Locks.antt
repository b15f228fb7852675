-- ===== src/Locks.antt =====
-- The class Lock of src/Session.cpp: its constructor locks a datastore or a module, its destructor
-- unlocks in the datastore that was active at the time of locking.
pub mod Restoring
use sysrepo_cpp.Base.{ℕ, Option, none, some, Text, codes}
use sysrepo_cpp.Base.Int.{ℤ, pos}
use sysrepo_cpp.Effects.{Eff, pure, call, read, noexcept, ◌>>=◌, ◌>>◌, c_str_or_null}
use sysrepo_cpp.Enums.Kinds.{Datastore, to_datastore}
use sysrepo_cpp.Capi.{Sysrepo}
use sysrepo_cpp.Errors.{throw_if_error}
use sysrepo_cpp.Handles.{Session, get_raw_session}
use sysrepo_cpp.Sessions.{active_datastore}

pub record Lock : Type 0 where
  pub m_session : Session
  pub m_locked_ds : Datastore
  pub m_module : Option Text

abbrev pub count_or_zero : Option ℤ → ℤ
count_or_zero none = pos 0
count_or_zero (some t) = t

module _ {W Node : Type 0} (api : Sysrepo W Node) where
  -- The constructor. If it throws there is no Lock, and so no destructor runs.
  unfoldable pub acquire : Session → Option Text → Option ℤ → Eff W Lock
  unfolding active_datastore get_raw_session
  acquire session module_name timeout = do
    locked_ds ← read (active_datastore api session)
    res ←
        call (
          api.sr_lock (get_raw_session session) (c_str_or_null module_name) (count_or_zero timeout))
    throw_if_error api res (codes "Cannot lock session") (some (get_raw_session session))
    pure (record { m_session = session; m_locked_ds = locked_ds; m_module = module_name })

  -- The destructor. It is noexcept, as destructors are by default.
  unfoldable pub release : Lock → Eff W (Unit {0})
  unfolding get_raw_session
  release lock =
      let sess = get_raw_session lock.m_session in
      noexcept (do
        current_ds ← read (api.sr_session_get_ds sess)
        switched ← call (api.sr_session_switch_ds sess (to_datastore lock.m_locked_ds))
        res ← call (api.sr_unlock sess (c_str_or_null lock.m_module))
        restored ← call (api.sr_session_switch_ds sess current_ds)
        throw_if_error api res (codes "Cannot unlock session") (some sess))
