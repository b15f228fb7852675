-- ===== src/Sessions/Data.antt =====
-- The methods of Session in src/Session.cpp that hand over data trees.
use sysrepo_cpp.Base.{ℕ, ◌++◌, Option, none, some, Text, map, codes}
use sysrepo_cpp.Base.Int.{ℤ}
use sysrepo_cpp.Effects.{Eff, pure, call, read, dereference, ◌>>=◌, ◌>>◌, c_str, c_str_or_null}
use sysrepo_cpp.Enums.Flags.Get.{GetOptions}
use sysrepo_cpp.Capi.{Sysrepo}
use sysrepo_cpp.Errors.{throw_if_error, throw_if_error_bare, NetconfErrorInfo}
use sysrepo_cpp.Changes.{ChangeCollection}
use sysrepo_cpp.Enums.Flags.Get.{to_get_options}
use sysrepo_cpp.Handles.{Session, quoted}

-- Whether sendNotification waits for the callbacks.
pub data Wait : Type 0 where
  wait_yes wait_no : Wait

abbrev pub wait_flag : Wait → ℕ
wait_flag wait_yes = 1
wait_flag wait_no = 0

module _ {W Node : Type 0} (api : Sysrepo W Node) where
  -- wrapSrData: the tree is taken out of the sr_data_t, which the wrapper of the tree keeps alive
  -- together with the session.
  unfoldable pub wrap_sr_data : ℕ → ℕ → Eff W Node
  wrap_sr_data sess data_ptr = do
    tree ← read (api.data_tree data_ptr)
    emptied ← call (λ w. (tt, api.set_data_tree data_ptr none w))
    call (api.wrap_raw_node_of tree data_ptr sess)

  -- The copy of a configuration that sr_replace_config may take over.
  abbrev pub released_copy : Option Node → Eff W (Option ℕ)
  released_copy none = pure none
  released_copy (some config) = do
    thrashable ← call (api.duplicate_with_siblings config)
    raw ← call (api.release_raw_node thrashable)
    pure (some raw)

module _ {W Node : Type 0} (api : Sysrepo W Node) (sess : Session) where
  -- Session::getData
  unfoldable pub get_data : Text → ℤ → GetOptions → ℤ → Eff W (Option Node)
  get_data path max_depth opts timeout = do
    got ← call (api.sr_get_data sess.m_sess (c_str path) max_depth timeout (to_get_options opts))
    throw_if_error api got.0 (codes "Session::getData: Couldn't get " ++ quoted path)
        (some sess.m_sess)
    elim got.1 [
      | none ↦ pure none
      | some d ↦ (do node ← wrap_sr_data api sess.m_sess d; pure (some node))
    ]

  -- Session::getOneNode, which takes it that there is data when the call succeeds.
  unfoldable pub get_one_node : Text → ℤ → Eff W Node
  get_one_node path timeout = do
    got ← call (api.sr_get_node sess.m_sess (c_str path) timeout)
    throw_if_error api got.0 (codes "Session::getOneNode: Couldn't get " ++ quoted path)
        (some sess.m_sess)
    d ← dereference got.1
    wrap_sr_data api sess.m_sess d

  -- Session::getPendingChanges
  unfoldable pub get_pending_changes : W → Option Node
  get_pending_changes w = elim (api.sr_get_changes sess.m_sess w) [
    | none ↦ none
    | some changes ↦ some (api.wrap_unmanaged_raw_node changes)
  ]

  -- Session::sendRPC; its assertion is that there is an output.
  unfoldable pub send_rpc : Node → ℤ → Eff W Node
  send_rpc input timeout = do
    got ← call (api.sr_rpc_send_tree sess.m_sess (api.get_raw_node input) timeout)
    throw_if_error api got.0 (codes "Couldn't send RPC") (some sess.m_sess)
    output ← dereference got.1
    wrap_sr_data api sess.m_sess output

  -- Session::sendNotification
  unfoldable pub send_notification : Node → Wait → ℤ → Eff W (Unit {0})
  send_notification notification wait timeout = do
    res ← call (
        api.sr_notif_send_tree sess.m_sess (api.get_raw_node notification) timeout (wait_flag wait))
    throw_if_error api res (codes "Couldn't send notification") (some sess.m_sess)

  -- Session::replaceConfig
  unfoldable pub replace_config : Option Node → Option Text → ℤ → Eff W (Unit {0})
  replace_config config module_name timeout = do
    raw ← released_copy api config
    res ← call (api.sr_replace_config sess.m_sess (c_str_or_null module_name) raw timeout)
    throw_if_error api res (codes "sr_replace_config failed") (some sess.m_sess)

  -- Session::setErrorMessage
  unfoldable pub set_error_message : Text → Eff W (Unit {0})
  set_error_message msg = do
    res ← call (api.sr_session_set_error_message sess.m_sess (c_str msg))
    throw_if_error_bare res (codes "Couldn't set error message")

  -- Session::setNetconfError
  unfoldable pub set_netconf_error : NetconfErrorInfo → Eff W (Unit {0})
  set_netconf_error info = do
    res ← call (
        api.sr_session_set_netconf_error2 sess.m_sess (c_str info.type) (c_str info.tag)
          (c_str_or_null info.app_tag) (c_str_or_null info.path) (c_str info.message)
          (map (λ i. c_str i.element) info.info_elements)
          (map (λ i. c_str i.value) info.info_elements))
    throw_if_error_bare res (codes "Couldn't set error messsage")

  -- Session::getChanges
  unfoldable pub get_changes : Text → ChangeCollection
  get_changes xpath = record { xpath = xpath; sess = sess.m_sess }
