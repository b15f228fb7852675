-- ===== src/Enums/Constants.antt =====
-- The constants of sysrepo.h that the static assertions of src/utils/enum.hpp name.
use sysrepo_cpp.Base.{ℕ}

pub record SrDatastore : Type 0 where
  pub sr_ds_running : ℕ
  pub sr_ds_candidate : ℕ
  pub sr_ds_operational : ℕ
  pub sr_ds_startup : ℕ
  pub sr_ds_factory_default : ℕ

pub record SrEvent : Type 0 where
  pub sr_ev_update : ℕ
  pub sr_ev_change : ℕ
  pub sr_ev_done : ℕ
  pub sr_ev_abort : ℕ
  pub sr_ev_enabled : ℕ
  pub sr_ev_rpc : ℕ

pub record SrEditFlag : Type 0 where
  pub sr_edit_default : ℕ
  pub sr_edit_non_recursive : ℕ
  pub sr_edit_strict : ℕ
  pub sr_edit_isolate : ℕ

pub record SrSubscrFlag : Type 0 where
  pub sr_subscr_default : ℕ
  pub sr_subscr_no_thread : ℕ
  pub sr_subscr_passive : ℕ
  pub sr_subscr_done_only : ℕ
  pub sr_subscr_enabled : ℕ
  pub sr_subscr_update : ℕ
  pub sr_subscr_oper_merge : ℕ
  pub sr_subscr_thread_suspend : ℕ

pub record SrChangeOper : Type 0 where
  pub sr_op_created : ℕ
  pub sr_op_modified : ℕ
  pub sr_op_deleted : ℕ
  pub sr_op_moved : ℕ

pub record SrLogLevel : Type 0 where
  pub sr_ll_none : ℕ
  pub sr_ll_err : ℕ
  pub sr_ll_wrn : ℕ
  pub sr_ll_inf : ℕ
  pub sr_ll_dbg : ℕ

pub record SrErrorCode : Type 0 where
  pub sr_err_ok : ℕ
  pub sr_err_inval_arg : ℕ
  pub sr_err_ly : ℕ
  pub sr_err_sys : ℕ
  pub sr_err_no_memory : ℕ
  pub sr_err_not_found : ℕ
  pub sr_err_exists : ℕ
  pub sr_err_internal : ℕ
  pub sr_err_unsupported : ℕ
  pub sr_err_validation_failed : ℕ
  pub sr_err_operation_failed : ℕ
  pub sr_err_unauthorized : ℕ
  pub sr_err_locked : ℕ
  pub sr_err_time_out : ℕ
  pub sr_err_callback_failed : ℕ
  pub sr_err_callback_shelve : ℕ

pub record SrMovePosition : Type 0 where
  pub sr_move_before : ℕ
  pub sr_move_after : ℕ
  pub sr_move_first : ℕ
  pub sr_move_last : ℕ

pub record SrEvNotifType : Type 0 where
  pub sr_ev_notif_realtime : ℕ
  pub sr_ev_notif_replay : ℕ
  pub sr_ev_notif_replay_complete : ℕ
  pub sr_ev_notif_terminated : ℕ
  pub sr_ev_notif_modified : ℕ
  pub sr_ev_notif_suspended : ℕ
  pub sr_ev_notif_resumed : ℕ

pub record SrConnFlag : Type 0 where
  pub sr_conn_default : ℕ
  pub sr_conn_cache_running : ℕ
  pub sr_conn_ctx_set_priv_parsed : ℕ

pub record SrGetFlag : Type 0 where
  pub sr_oper_default : ℕ
  pub sr_oper_no_state : ℕ
  pub sr_oper_no_config : ℕ
  pub sr_oper_no_subs : ℕ
  pub sr_oper_no_stored : ℕ
  pub sr_oper_with_origin : ℕ
  pub sr_oper_no_poll_cached : ℕ
  pub sr_oper_no_run_cached : ℕ
  pub sr_get_no_filter : ℕ

-- One version of sysrepo.
pub record Constants : Type 0 where
  pub datastore : SrDatastore
  pub event : SrEvent
  pub edit : SrEditFlag
  pub subscribe : SrSubscrFlag
  pub change_operation : SrChangeOper
  pub log_level : SrLogLevel
  pub error_code : SrErrorCode
  pub move_position : SrMovePosition
  pub notification_type : SrEvNotifType
  pub connection : SrConnFlag
  pub get : SrGetFlag
