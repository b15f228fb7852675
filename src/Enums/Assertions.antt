-- ===== src/Enums/Assertions.antt =====
-- The static assertions of src/utils/enum.hpp on the values of the enumerators. The library is
-- built only when all of them hold for the sysrepo that it is built against.
use Prim.Native.Nat.{bit_or}
use sysrepo_cpp.Base.{Bool, true, ◌&&◌, List, [], ◌∷◌, ◌==◌}
use sysrepo_cpp.Enums.Kinds.{
  Datastore, Event, MovePosition, ChangeOperation, LogLevel, NotificationType, to_datastore,
  event_value, change_operation_value, to_log_level, to_move_position, notification_type_value,
  to_event, to_change_oper, to_notification_type,
}
use sysrepo_cpp.Enums.Codes.{ErrorCode, error_code_value, as_error_code}
use sysrepo_cpp.Enums.Flags.{enum_bit_or}
use sysrepo_cpp.Enums.Flags.Edit.{to_edit_options}
use sysrepo_cpp.Enums.Flags.Subscribe.{to_subscribe_options}
use sysrepo_cpp.Enums.Flags.Edit
use sysrepo_cpp.Enums.Flags.Subscribe
use sysrepo_cpp.Enums.Flags.Connect
use sysrepo_cpp.Enums.Flags.Get
use sysrepo_cpp.Enums.Constants.{
  SrDatastore, SrEvent, SrEditFlag, SrSubscrFlag, SrChangeOper, SrLogLevel, SrErrorCode,
  SrMovePosition, SrEvNotifType, SrConnFlag, SrGetFlag, Constants,
}

unfoldable pub all_hold : List Bool → Bool
all_hold [] = true
all_hold (b ∷ bs) = b && all_hold bs

unfoldable pub datastore_assertions : SrDatastore → List Bool
unfolding to_datastore
datastore_assertions k =
    (to_datastore Datastore.running == k.sr_ds_running)
    ∷ (to_datastore Datastore.candidate == k.sr_ds_candidate)
    ∷ (to_datastore Datastore.operational == k.sr_ds_operational)
    ∷ (to_datastore Datastore.startup == k.sr_ds_startup)
    ∷ (to_datastore Datastore.factory_default == k.sr_ds_factory_default)
    ∷ []

unfoldable pub event_assertions : SrEvent → List Bool
unfolding to_event event_value
event_assertions k =
    (event_value (to_event k.sr_ev_update) == event_value Event.update)
    ∷ (event_value (to_event k.sr_ev_change) == event_value Event.change)
    ∷ (event_value (to_event k.sr_ev_done) == event_value Event.done)
    ∷ (event_value (to_event k.sr_ev_abort) == event_value Event.abort)
    ∷ (event_value (to_event k.sr_ev_enabled) == event_value Event.enabled)
    ∷ (event_value (to_event k.sr_ev_rpc) == event_value Event.rpc)
    ∷ []

unfoldable pub edit_assertions : SrEditFlag → List Bool
edit_assertions k =
    (to_edit_options Edit.default == k.sr_edit_default)
    ∷ (to_edit_options Edit.non_recursive == k.sr_edit_non_recursive)
    ∷ (to_edit_options Edit.strict == k.sr_edit_strict)
    ∷ (to_edit_options Edit.isolate == k.sr_edit_isolate)
    ∷ []

unfoldable pub subscribe_assertions : SrSubscrFlag → List Bool
subscribe_assertions k =
    (to_subscribe_options Subscribe.default == k.sr_subscr_default)
    ∷ (to_subscribe_options Subscribe.no_thread == k.sr_subscr_no_thread)
    ∷ (to_subscribe_options Subscribe.passive == k.sr_subscr_passive)
    ∷ (to_subscribe_options Subscribe.done_only == k.sr_subscr_done_only)
    ∷ (to_subscribe_options Subscribe.enabled == k.sr_subscr_enabled)
    ∷ (to_subscribe_options Subscribe.update == k.sr_subscr_update)
    ∷ (to_subscribe_options Subscribe.oper_merge == k.sr_subscr_oper_merge)
    ∷ (to_subscribe_options Subscribe.thread_suspend == k.sr_subscr_thread_suspend)
    ∷ []

unfoldable pub change_operation_assertions : SrChangeOper → List Bool
unfolding to_change_oper change_operation_value
change_operation_assertions k =
    (change_operation_value (to_change_oper k.sr_op_created)
      == change_operation_value ChangeOperation.created)
    ∷ (change_operation_value (to_change_oper k.sr_op_modified)
        == change_operation_value ChangeOperation.modified)
    ∷ (change_operation_value (to_change_oper k.sr_op_deleted)
        == change_operation_value ChangeOperation.deleted)
    ∷ (change_operation_value (to_change_oper k.sr_op_moved)
        == change_operation_value ChangeOperation.moved)
    ∷ []

unfoldable pub log_level_assertions : SrLogLevel → List Bool
unfolding to_log_level
log_level_assertions k =
    (to_log_level LogLevel.none == k.sr_ll_none)
    ∷ (to_log_level LogLevel.error == k.sr_ll_err)
    ∷ (to_log_level LogLevel.warning == k.sr_ll_wrn)
    ∷ (to_log_level LogLevel.information == k.sr_ll_inf)
    ∷ (to_log_level LogLevel.debug == k.sr_ll_dbg)
    ∷ []

unfoldable pub error_code_assertions : SrErrorCode → List Bool
unfolding as_error_code error_code_value
error_code_assertions k =
    (error_code_value (as_error_code k.sr_err_ok) == error_code_value ErrorCode.ok)
    ∷ (error_code_value (as_error_code k.sr_err_inval_arg)
        == error_code_value ErrorCode.invalid_argument)
    ∷ (error_code_value (as_error_code k.sr_err_ly) == error_code_value ErrorCode.libyang)
    ∷ (error_code_value (as_error_code k.sr_err_sys) == error_code_value ErrorCode.syscall_failed)
    ∷ (error_code_value (as_error_code k.sr_err_no_memory)
        == error_code_value ErrorCode.not_enough_memory)
    ∷ (error_code_value (as_error_code k.sr_err_not_found) == error_code_value ErrorCode.not_found)
    ∷ (error_code_value (as_error_code k.sr_err_exists)
        == error_code_value ErrorCode.item_already_exists)
    ∷ (error_code_value (as_error_code k.sr_err_internal) == error_code_value ErrorCode.internal)
    ∷ (error_code_value (as_error_code k.sr_err_unsupported)
        == error_code_value ErrorCode.unsupported)
    ∷ (error_code_value (as_error_code k.sr_err_validation_failed)
        == error_code_value ErrorCode.validation_failed)
    ∷ (error_code_value (as_error_code k.sr_err_operation_failed)
        == error_code_value ErrorCode.operation_failed)
    ∷ (error_code_value (as_error_code k.sr_err_unauthorized)
        == error_code_value ErrorCode.unauthorized)
    ∷ (error_code_value (as_error_code k.sr_err_locked) == error_code_value ErrorCode.locked)
    ∷ (error_code_value (as_error_code k.sr_err_time_out) == error_code_value ErrorCode.timeout)
    ∷ (error_code_value (as_error_code k.sr_err_callback_failed)
        == error_code_value ErrorCode.callback_failed)
    ∷ (error_code_value (as_error_code k.sr_err_callback_shelve)
        == error_code_value ErrorCode.callback_shelve)
    ∷ []

unfoldable pub move_position_assertions : SrMovePosition → List Bool
unfolding to_move_position
move_position_assertions k =
    (to_move_position MovePosition.before == k.sr_move_before)
    ∷ (to_move_position MovePosition.after == k.sr_move_after)
    ∷ (to_move_position MovePosition.first == k.sr_move_first)
    ∷ (to_move_position MovePosition.last == k.sr_move_last)
    ∷ []

unfoldable pub notification_type_assertions : SrEvNotifType → List Bool
unfolding to_notification_type notification_type_value
notification_type_assertions k =
    (notification_type_value (to_notification_type k.sr_ev_notif_realtime)
      == notification_type_value NotificationType.realtime)
    ∷ (notification_type_value (to_notification_type k.sr_ev_notif_replay)
        == notification_type_value NotificationType.replay)
    ∷ (notification_type_value (to_notification_type k.sr_ev_notif_replay_complete)
        == notification_type_value NotificationType.replay_complete)
    ∷ (notification_type_value (to_notification_type k.sr_ev_notif_terminated)
        == notification_type_value NotificationType.terminated)
    ∷ (notification_type_value (to_notification_type k.sr_ev_notif_modified)
        == notification_type_value NotificationType.modified)
    ∷ (notification_type_value (to_notification_type k.sr_ev_notif_suspended)
        == notification_type_value NotificationType.suspended)
    ∷ (notification_type_value (to_notification_type k.sr_ev_notif_resumed)
        == notification_type_value NotificationType.resumed)
    ∷ []

unfoldable pub connection_assertions : SrConnFlag → List Bool
unfolding enum_bit_or
connection_assertions k =
    (k.sr_conn_default == Connect.default)
    ∷ (k.sr_conn_cache_running == Connect.cache_running)
    ∷ (k.sr_conn_ctx_set_priv_parsed == Connect.lib_yang_priv_parsed)
    ∷ (bit_or k.sr_conn_cache_running k.sr_conn_ctx_set_priv_parsed
        == enum_bit_or Connect.cache_running Connect.lib_yang_priv_parsed)
    ∷ []

unfoldable pub get_assertions : SrGetFlag → List Bool
get_assertions k =
    (k.sr_oper_default == Get.default)
    ∷ (k.sr_oper_no_state == Get.oper_no_state)
    ∷ (k.sr_oper_no_config == Get.oper_no_config)
    ∷ (k.sr_oper_no_subs == Get.oper_no_pull_subscriptions)
    ∷ (k.sr_oper_no_stored == Get.oper_no_pushed_data)
    ∷ (k.sr_oper_with_origin == Get.oper_with_origin)
    ∷ (k.sr_oper_no_poll_cached == Get.oper_no_poll_subscriptions_cached)
    ∷ (k.sr_oper_no_run_cached == Get.oper_no_running_cached)
    ∷ (k.sr_get_no_filter == Get.no_filter)
    ∷ []

-- All of them.
unfoldable pub static_assertions : Constants → Bool
unfolding all_hold datastore_assertions event_assertions edit_assertions subscribe_assertions
    change_operation_assertions log_level_assertions error_code_assertions move_position_assertions
    notification_type_assertions connection_assertions get_assertions
static_assertions k = all_hold (
    all_hold (datastore_assertions k.datastore)
    ∷ all_hold (event_assertions k.event)
    ∷ all_hold (edit_assertions k.edit)
    ∷ all_hold (subscribe_assertions k.subscribe)
    ∷ all_hold (change_operation_assertions k.change_operation)
    ∷ all_hold (log_level_assertions k.log_level)
    ∷ all_hold (error_code_assertions k.error_code)
    ∷ all_hold (move_position_assertions k.move_position)
    ∷ all_hold (notification_type_assertions k.notification_type)
    ∷ all_hold (connection_assertions k.connection)
    ∷ all_hold (get_assertions k.get)
    ∷ [])
