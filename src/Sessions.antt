-- ===== src/Sessions.antt =====
-- The methods of Session in src/Session.cpp that edit, read and send data. Each passes its
-- arguments to one function of the C library and turns the result code into an exception.
pub mod Data
pub mod Defaults
pub mod Edits
use sysrepo_cpp.Base.{ℕ, ◌++◌, Option, none, some, Text, codes}
use sysrepo_cpp.Base.Int.{ℤ}
use sysrepo_cpp.Effects.{Eff, dereference, pure, call, read, ◌>>=◌, ◌>>◌, c_str, c_str_or_null}
use sysrepo_cpp.Enums.Kinds.{
  Datastore, as_datastore, to_datastore, MovePosition, to_move_position, DefaultOperation,
  to_default_operation,
}
use sysrepo_cpp.Enums.Flags.Edit.{EditOptions}
use sysrepo_cpp.Capi.{Sysrepo}
use sysrepo_cpp.Errors.{throw_if_error}
use sysrepo_cpp.Enums.Flags.Edit.{to_edit_options}
use sysrepo_cpp.Handles.{Session, quoted}

abbrev pub set_item_value : Option Text → Text
set_item_value none = codes ""
set_item_value (some v) = codes " to '" ++ (v ++ codes "'")

abbrev pub discard_target : Option Text → Text
discard_target none = codes "all nodes"
discard_target (some x) = quoted x

module _ {W Node : Type 0} (api : Sysrepo W Node) (sess : Session) where
  -- Session::activeDatastore
  unfoldable pub active_datastore : W → Datastore
  active_datastore w = as_datastore (api.sr_session_get_ds sess.m_sess w)

  -- Session::switchDatastore
  unfoldable pub switch_datastore : Datastore → Eff W (Unit {0})
  switch_datastore ds = do
    res ← call (api.sr_session_switch_ds sess.m_sess (to_datastore ds))
    throw_if_error api res (codes "Couldn't switch datastore") (some sess.m_sess)

  -- Session::setItem
  unfoldable pub set_item : Text → Option Text → EditOptions → Eff W (Unit {0})
  set_item path value opts = do
    res ← call (
        api.sr_set_item_str sess.m_sess (c_str path) (c_str_or_null value) none
          (to_edit_options opts))
    throw_if_error api res
        (codes "Session::setItem: Couldn't set " ++ (quoted path ++ set_item_value value))
        (some sess.m_sess)

  -- Session::editBatch
  unfoldable pub edit_batch : Node → DefaultOperation → Eff W (Unit {0})
  edit_batch edit op = do
    operation ← dereference (to_default_operation op)
    res ← call (api.sr_edit_batch sess.m_sess (api.get_raw_node edit) operation)
    throw_if_error api res (codes "Session::editBatch: Couldn't apply the edit batch")
        (some sess.m_sess)

  -- Session::deleteItem
  unfoldable pub delete_item : Text → EditOptions → Eff W (Unit {0})
  delete_item path opts = do
    res ← call (api.sr_delete_item sess.m_sess (c_str path) (to_edit_options opts))
    throw_if_error api res (codes "Session::deleteItem: Can't delete " ++ quoted path)
        (some sess.m_sess)

  -- Session::discardItems
  unfoldable pub discard_items : Option Text → Eff W (Unit {0})
  discard_items xpath = do
    res ← call (api.sr_discard_items sess.m_sess (c_str_or_null xpath))
    throw_if_error api res (codes "Session::discardItems: Can't discard " ++ discard_target xpath)
        (some sess.m_sess)

  -- Session::moveItem
  unfoldable pub move_item :
      Text → MovePosition → Option Text → Option Text → EditOptions → Eff W (Unit {0})
  move_item path move keys_or_value origin opts = do
    res ← call (
        api.sr_move_item sess.m_sess (c_str path) (to_move_position move)
          (c_str_or_null keys_or_value) (c_str_or_null keys_or_value) (c_str_or_null origin)
          (to_edit_options opts))
    throw_if_error api res (codes "Session::moveItem: Can't move " ++ quoted path)
        (some sess.m_sess)

  -- Session::applyChanges
  unfoldable pub apply_changes : ℤ → Eff W (Unit {0})
  apply_changes timeout = do
    res ← call (api.sr_apply_changes sess.m_sess timeout)
    throw_if_error api res (codes "Session::applyChanges: Couldn't apply changes")
        (some sess.m_sess)

  -- Session::discardChanges
  unfoldable pub discard_changes : Eff W (Unit {0})
  discard_changes = do
    res ← call (api.sr_discard_changes sess.m_sess)
    throw_if_error api res (codes "Session::discardChanges: Couldn't discard changes")
        (some sess.m_sess)

  -- Session::copyConfig
  unfoldable pub copy_config : Datastore → Option Text → ℤ → Eff W (Unit {0})
  copy_config source module_name timeout = do
    res ←
        call
          (api.sr_copy_config sess.m_sess (c_str_or_null module_name) (to_datastore source) timeout)
    throw_if_error api res (codes "Couldn't copy config") (some sess.m_sess)

  -- Session::setNacmUser
  unfoldable pub set_nacm_user : Text → Eff W (Unit {0})
  set_nacm_user user = do
    res ← call (api.sr_nacm_set_user sess.m_sess (c_str user))
    throw_if_error api res (codes "Couldn't set NACM user") (some sess.m_sess)

  -- Session::getOriginatorName
  unfoldable pub get_originator_name : W → Text
  get_originator_name w = api.sr_session_get_orig_name sess.m_sess w

  -- Session::setOriginatorName, whose message is the one of switchDatastore.
  unfoldable pub set_originator_name : Text → Eff W (Unit {0})
  set_originator_name name = do
    res ← call (api.sr_session_set_orig_name sess.m_sess (c_str name))
    throw_if_error api res (codes "Couldn't switch datastore") (some sess.m_sess)

  -- Session::getId
  unfoldable pub get_id : W → ℕ
  get_id w = api.sr_session_get_id sess.m_sess w
