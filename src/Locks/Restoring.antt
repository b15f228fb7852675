-- ===== src/Locks/Restoring.antt =====
-- A Lock is released in the datastore that it was taken in, and the session's own choice of datastore
-- survives the release.
use sysrepo_cpp.Base.{if◌then◌else◌, ℕ, ◌≡◌, refl, ◌∙◌, ap, Option, some, Text, codes, arith, ◌==◌}
use sysrepo_cpp.Base.Int.{ℤ}
use sysrepo_cpp.Effects.{ok, terminated, c_str_or_null}
use sysrepo_cpp.Enums.Kinds.{as_datastore, to_datastore}
use sysrepo_cpp.Enums.Casts.{to_datastore-as_datastore}
use sysrepo_cpp.Capi.{Sysrepo}
use sysrepo_cpp.Errors.Throwing.{stop_exception-throw_if_error}
use sysrepo_cpp.Handles.{Session}
use sysrepo_cpp.Locks.{Lock, acquire, release}

module _ {W Node : Type 0} (api : Sysrepo W Node) where
  -- What the C library documents of a session's datastore: switching sets it.
  abbrev pub SwitchSets : Type 0
  SwitchSets = (s ds : ℕ) (w : W) → api.sr_session_get_ds s (api.sr_session_switch_ds s ds w).1 ≡ ds

  -- The state in which the destructor calls sr_unlock.
  abbrev pub unlocking : Lock → W → W
  unlocking lock w =
      (api.sr_session_switch_ds lock.m_session.m_sess (to_datastore lock.m_locked_ds) w).1

  -- What sr_unlock returns there, and the state that it leaves.
  abbrev pub unlocked : Lock → W → ℕ × W
  unlocked lock w =
      api.sr_unlock lock.m_session.m_sess (c_str_or_null lock.m_module) (unlocking lock w)

  -- The state in which the destructor ends.
  abbrev restored : Lock → W → W
  restored lock w =
      (api.sr_session_switch_ds lock.m_session.m_sess
        (api.sr_session_get_ds lock.m_session.m_sess w) (unlocked lock w).1).1

  release_lem :
      (lock : Lock) (w : W)
      → release api lock w
        ≡ (if (unlocked lock w).0 == 0 then ok tt else terminated, restored lock w)
  unfolding release
  release_lem lock w =
      stop_exception-throw_if_error api (unlocked lock w).0 (codes "Cannot unlock session")
        (some lock.m_session.m_sess) (restored lock w)

  acquire_fields :
      (session : Session) (module_name : Option Text) (timeout : Option ℤ) (lock : Lock) (w w' : W)
      → acquire api session module_name timeout w ≡ (ok lock, w')
      → (lock.m_session ≡ session)
        × (lock.m_locked_ds ≡ as_datastore (api.sr_session_get_ds session.m_sess w))
        × (lock.m_module ≡ module_name)
  unfolding acquire
  acquire_fields session module_name timeout lock w w' taken = ground arith

  -- Let a Lock be taken in the state `before`, and be destroyed in any later state `later`, in
  -- which another datastore may be active. If switching sets the datastore, then sr_unlock is
  -- called with the same datastore active that was active when the lock was taken; afterwards the
  -- datastore of the state `later` is active again; and the destructor returns if the unlocking
  -- succeeds, and ends the process if it fails.
  pub release-acquire :
      (session : Session) (module_name : Option Text) (timeout : Option ℤ) (lock : Lock)
      (before after_lock later : W)
      → SwitchSets
      → acquire api session module_name timeout before ≡ (ok lock, after_lock)
      → (api.sr_session_get_ds session.m_sess (unlocking lock later)
          ≡ api.sr_session_get_ds session.m_sess before)
        × (api.sr_session_get_ds session.m_sess (release api lock later).1
            ≡ api.sr_session_get_ds session.m_sess later)
        × ((release api lock later).0
            ≡ (if (unlocked lock later).0 == 0 then ok tt else terminated))
  release-acquire session module_name timeout lock before after_lock later sets taken =
      let (same, ds, _) = acquire_fields session module_name timeout lock before after_lock taken in
      (
        rw (← same) (sets lock.m_session.m_sess (to_datastore lock.m_locked_ds) later)
            ∙ (ap to_datastore ds
                ∙ to_datastore-as_datastore (api.sr_session_get_ds session.m_sess before)),
        rw (release_lem, ← same) (sets _ _ _),
        rw release_lem refl,
      )
