-- ===== src/Sessions/Edits.antt =====
-- The methods of Session and Connection that change something report the result of the C library.
use sysrepo_cpp.Base.{
  Option-cases, inl, inr, refl, Bool, some, map, ℕ, ◌≡◌, ◌↔◌, Option, none, Text, arith,
}
use sysrepo_cpp.Base.Int.{ℤ}
use sysrepo_cpp.Effects.{Result, ok, undefined, c_str, c_str_or_null}
use sysrepo_cpp.Enums.Kinds.{
  Datastore, to_datastore, MovePosition, to_move_position, DefaultOperation, to_default_operation,
}
use sysrepo_cpp.Enums.Flags.Edit.{EditOptions, to_edit_options}
use sysrepo_cpp.Capi.{Sysrepo}
use sysrepo_cpp.Errors.{throw_if_error, throw_if_error_bare, NetconfErrorInfo}
use sysrepo_cpp.Errors.Throwing.{throw_if_error_lem}
use sysrepo_cpp.Handles.{Session, Connection}
use sysrepo_cpp.Connections.{session_handle, discard_operational_changes, set_module_replay_support}
use sysrepo_cpp.Sessions.Data.{
  Wait, wait_flag, send_notification, replace_config, set_error_message, set_netconf_error,
}
use sysrepo_cpp.Sessions.{
  switch_datastore, set_item, edit_batch, delete_item, discard_items, move_item, apply_changes,
  discard_changes, copy_config, set_nacm_user, set_originator_name,
}

-- A method that ends with `r` leaves the state that the function of the C library left, and returns
-- exactly when the function's result is OK.
abbrev pub Reports : {W : Type 0} → Result (Unit {0}) × W → ℕ × W → Type 0
Reports r got = (r.1 ≡ got.1) × ((r.0 ≡ ok tt) ↔ (got.0 ≡ 0))

-- A method that needs the text of an operation: a value without a text is undefined behaviour.
abbrev pub ReportsText :
    {W : Type 0} → Option Text → Result (Unit {0}) × W → W → (Text → ℕ × W) → Type 0
ReportsText none r w got = r ≡ (undefined, w)
ReportsText (some text) r w got = Reports r (got text)

module _ {W Node : Type 0} (api : Sysrepo W Node) where
  throw_if_error-Reports :
      (got : ℕ × W) (msg : Text) (sess : Option ℕ)
      → Reports (throw_if_error api got.0 msg sess got.1) got
  throw_if_error-Reports got msg sess =
      let thrown = throw_if_error_lem api got.0 msg sess got.1 in
      (ground (arith, thrown), (λ h. ground (arith, thrown), λ h. ground (arith, thrown)))

  throw_if_error_bare-Reports :
      (got : ℕ × W) (msg : Text) → Reports (throw_if_error_bare got.0 msg got.1) got
  unfolding throw_if_error_bare
  throw_if_error_bare-Reports got msg = (ground arith, (λ h. ground arith, λ h. ground arith))

  edit_batch-Reports :
      (sess : Session) (edit : Node) (op : DefaultOperation) (w : W)
      → ReportsText
          (to_default_operation op)
          (edit_batch api sess edit op w)
          w
          (λ text. api.sr_edit_batch sess.m_sess (api.get_raw_node edit) text w)
  unfolding edit_batch
  edit_batch-Reports sess edit op w = elim (Option-cases (to_default_operation op)) [
    | inl e ↦ rw e refl
    | inr (text, e) ↦ rw e (throw_if_error-Reports _ _ _)
  ]

  -- The copy of a configuration whose tree sr_replace_config takes over.
  abbrev pub copied : Node → W → ℕ × W
  copied config w =
      let thrashable = api.duplicate_with_siblings config w in
      api.release_raw_node thrashable.0 thrashable.1

  -- Each of the methods that edit, apply or discard changes, copy or replace a configuration, send
  -- a notification, set an error for the caller, or set the datastore, the NACM user or the name of
  -- the originator, and the methods of Connection that discard changes and set replay support, call
  -- one function of the C library with their own arguments, leave the state that this function
  -- leaves, and return exactly when the function's result is OK; otherwise they do not return. A
  -- default operation that is none of the enumerators is undefined behaviour. What
  -- sr_replace_config gets is the tree of a copy of the configuration, or none.
  pub edits_report :
      (sess : Session) (conn : Connection) (path : Text) (value origin : Option Text) (edit : Node)
      (op : DefaultOperation) (move : MovePosition) (opts : EditOptions) (ds : Datastore)
      (wait : Wait) (info : NetconfErrorInfo) (from : Option Session) (enabled : Bool) (timeout : ℤ)
      (w : W)
      → let s = sess.m_sess in
        Reports
          (set_item api sess path value opts w)
          (api.sr_set_item_str s (c_str path) (c_str_or_null value) none (to_edit_options opts) w)
        × ReportsText
            (to_default_operation op)
            (edit_batch api sess edit op w)
            w
            (λ text. api.sr_edit_batch s (api.get_raw_node edit) text w)
        × Reports
            (delete_item api sess path opts w)
            (api.sr_delete_item s (c_str path) (to_edit_options opts) w)
        × Reports (discard_items api sess value w) (api.sr_discard_items s (c_str_or_null value) w)
        × Reports (move_item api sess path move value origin opts w) (
            api.sr_move_item s
              (c_str path)
              (to_move_position move)
              (c_str_or_null value)
              (c_str_or_null value)
              (c_str_or_null origin)
              (to_edit_options opts)
              w)
        × Reports (apply_changes api sess timeout w) (api.sr_apply_changes s timeout w)
        × Reports (discard_changes api sess w) (api.sr_discard_changes s w)
        × Reports
            (copy_config api sess ds value timeout w)
            (api.sr_copy_config s (c_str_or_null value) (to_datastore ds) timeout w)
        × Reports (switch_datastore api sess ds w) (api.sr_session_switch_ds s (to_datastore ds) w)
        × Reports (set_nacm_user api sess path w) (api.sr_nacm_set_user s (c_str path) w)
        × Reports
            (set_originator_name api sess path w)
            (api.sr_session_set_orig_name s (c_str path) w)
        × Reports
            (send_notification api sess edit wait timeout w)
            (api.sr_notif_send_tree s (api.get_raw_node edit) timeout (wait_flag wait) w)
        × Reports
            (replace_config api sess none value timeout w)
            (api.sr_replace_config s (c_str_or_null value) none timeout w)
        × Reports (replace_config api sess (some edit) value timeout w) (
            api.sr_replace_config s
              (c_str_or_null value)
              (some (copied edit w).0)
              timeout
              (copied edit w).1)
        × Reports
            (set_error_message api sess path w)
            (api.sr_session_set_error_message s (c_str path) w)
        × Reports (set_netconf_error api sess info w) (
            api.sr_session_set_netconf_error2 s
              (c_str info.type)
              (c_str info.tag)
              (c_str_or_null info.app_tag)
              (c_str_or_null info.path)
              (c_str info.message)
              (map (λ i. c_str i.element) info.info_elements)
              (map (λ i. c_str i.value) info.info_elements)
              w)
        × Reports (discard_operational_changes api conn value from timeout w) (
            api.sr_discard_oper_changes conn.ctx
              (session_handle from)
              (c_str_or_null value)
              timeout
              w)
        × Reports
            (set_module_replay_support api conn path enabled w)
            (api.sr_set_module_replay_support conn.ctx (c_str path) enabled w)
  unfolding set_item edit_batch delete_item discard_items move_item apply_changes discard_changes
      copy_config switch_datastore set_nacm_user set_originator_name send_notification
      replace_config set_error_message set_netconf_error discard_operational_changes
      set_module_replay_support
  edits_report sess conn path value origin edit op move opts ds wait info from enabled timeout w = (
    throw_if_error-Reports _ _ _,
    edit_batch-Reports sess edit op w,
    throw_if_error-Reports _ _ _,
    throw_if_error-Reports _ _ _,
    throw_if_error-Reports _ _ _,
    throw_if_error-Reports _ _ _,
    throw_if_error-Reports _ _ _,
    throw_if_error-Reports _ _ _,
    throw_if_error-Reports _ _ _,
    throw_if_error-Reports _ _ _,
    throw_if_error-Reports _ _ _,
    throw_if_error-Reports _ _ _,
    throw_if_error-Reports _ _ _,
    throw_if_error-Reports _ _ _,
    throw_if_error_bare-Reports _ _,
    throw_if_error_bare-Reports _ _,
    throw_if_error_bare-Reports _ _,
    throw_if_error_bare-Reports _ _,
  )
