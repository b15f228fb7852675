-- ===== src/Capi.antt =====
-- The functions of the C libraries sysrepo and libyang that the bindings call. They are not part of
-- the repository, so they are the fields of a record: the state W of the libraries and the type
-- Node of libyang::DataNode are its parameters. A pointer is a number, and a pointer that may be
-- null is an Option; `int` results and unsigned arguments are their bit patterns. What a function
-- hands back through a pointer argument stands behind its result code. Times in milliseconds are
-- passed as the count that the bindings pass, before the conversion at the C function's parameter.
use sysrepo_cpp.Base.{ℕ, Text, Option, List, Bool}
use sysrepo_cpp.Base.Int.{ℤ}
use sysrepo_cpp.Effects.{Call}
use sysrepo_cpp.Times.{Timespec}

-- An entry of sr_error_info_t; `error_data` is the pointer to its details.
pub record SrError : Type 0 where
  pub err_code : ℕ
  pub message : Option Text
  pub error_format : Option Text
  pub error_data : ℕ

-- What sr_err_get_netconf_error hands back; the two arrays of info elements are read in step.
pub record NetconfDetails : Type 0 where
  pub type : Text
  pub tag : Text
  pub app_tag : Option Text
  pub path : Option Text
  pub message : Text
  pub info : Option (List (Text × Text))

-- What sr_get_change_tree_next hands back.
pub record RawChange : Type 0 where
  pub operation : ℕ
  pub node : ℕ
  pub prev_value : Option Text
  pub prev_list : Option Text
  pub prev_default : ℕ

pub record Sysrepo (W Node : Type 0) : Type 0 where
  pub sr_connect : ℕ → Call W (ℕ × ℕ)
  pub sr_session_start : ℕ → ℕ → Call W (ℕ × ℕ)
  pub sr_session_get_connection : ℕ → W → ℕ
  pub sr_session_get_ds : ℕ → W → ℕ
  pub sr_session_switch_ds : ℕ → ℕ → Call W ℕ
  pub sr_session_get_error : ℕ → W → ℕ × Option (List SrError)
  pub sr_err_get_netconf_error : SrError → W → ℕ × NetconfDetails
  pub sr_session_set_error_message : ℕ → Text → Call W ℕ
  pub sr_session_set_netconf_error2 :
      ℕ → Text → Text → Option Text → Option Text → Text → List Text → List Text → Call W ℕ
  pub sr_session_get_orig_name : ℕ → W → Text
  pub sr_session_set_orig_name : ℕ → Text → Call W ℕ
  pub sr_session_get_id : ℕ → W → ℕ
  pub sr_set_item_str : ℕ → Text → Option Text → Option Text → ℕ → Call W ℕ
  pub sr_edit_batch : ℕ → ℕ → Text → Call W ℕ
  pub sr_delete_item : ℕ → Text → ℕ → Call W ℕ
  pub sr_discard_items : ℕ → Option Text → Call W ℕ
  pub sr_move_item : ℕ → Text → ℕ → Option Text → Option Text → Option Text → ℕ → Call W ℕ
  pub sr_get_data : ℕ → Text → ℤ → ℤ → ℕ → Call W (ℕ × Option ℕ)
  pub sr_get_node : ℕ → Text → ℤ → Call W (ℕ × Option ℕ)
  pub sr_get_changes : ℕ → W → Option ℕ
  pub sr_apply_changes : ℕ → ℤ → Call W ℕ
  pub sr_discard_changes : ℕ → Call W ℕ
  pub sr_copy_config : ℕ → Option Text → ℕ → ℤ → Call W ℕ
  pub sr_replace_config : ℕ → Option Text → Option ℕ → ℤ → Call W ℕ
  pub sr_rpc_send_tree : ℕ → ℕ → ℤ → Call W (ℕ × Option ℕ)
  pub sr_notif_send_tree : ℕ → ℕ → ℤ → ℕ → Call W ℕ
  pub sr_nacm_set_user : ℕ → Text → Call W ℕ
  pub sr_nacm_init : ℕ → ℕ → Call W (ℕ × ℕ)
  pub sr_nacm_destroy : W → W
  pub sr_lock : ℕ → Option Text → ℤ → Call W ℕ
  pub sr_unlock : ℕ → Option Text → Call W ℕ
  pub sr_get_changes_iter : ℕ → Text → Call W (ℕ × ℕ)
  pub sr_get_change_tree_next : Option ℕ → Option ℕ → Call W (ℕ × RawChange)
  pub sr_discard_oper_changes : ℕ → Option ℕ → Option Text → ℤ → Call W ℕ
  pub sr_set_module_replay_support : ℕ → Text → Bool → Call W ℕ
  pub sr_get_module_replay_support : ℕ → Text → Call W (ℕ × Timespec × ℕ)
  -- The session, the target, the private data of the callback, and the context to extend, if any.
  pub sr_module_change_subscribe : ℕ → Text → Option Text → ℕ → ℕ → ℕ → Option ℕ → Call W (ℕ × ℕ)
  pub sr_oper_get_subscribe : ℕ → Text → Option Text → ℕ → ℕ → Option ℕ → Call W (ℕ × ℕ)
  pub sr_rpc_subscribe_tree : ℕ → Text → ℕ → ℕ → ℕ → Option ℕ → Call W (ℕ × ℕ)
  pub sr_notif_subscribe_tree :
      ℕ → Text → Option Text → Option Timespec → Option Timespec → ℕ → ℕ → Option ℕ → Call W (ℕ × ℕ)
  pub sr_get_event_pipe : ℕ → Call W (ℕ × ℕ)
  pub sr_subscription_process_events : ℕ → Call W ℕ
  pub sr_unsubscribe_sub : ℕ → W → W
  pub sr_unsubscribe : ℕ → W → W
  pub sr_log_stderr : ℕ → W → W
  pub srplg_log_err : Text → W → W
  pub srplg_log_wrn : Text → W → W
  -- The field `tree` of an sr_data_t.
  pub data_tree : ℕ → W → Option ℕ
  pub set_data_tree : ℕ → Option ℕ → W → W
  -- libyang-cpp. The wrapper of a tree from sysrepo keeps the sr_data_t and the session alive.
  pub get_raw_node : Node → ℕ
  pub wrap_raw_node : ℕ → Call W Node
  pub wrap_raw_node_of : Option ℕ → ℕ → ℕ → Call W Node
  pub wrap_unmanaged_raw_node : ℕ → Node
  pub release_raw_node : Node → Call W ℕ
  pub duplicate_with_siblings : Node → Call W Node
  pub node_eq : Node → Node → Bool
