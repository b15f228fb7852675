-- ===== src/Tests/Compiled.antt =====
-- The static assertions hold for the constants of one version of sysrepo.
use sysrepo_cpp.Base.{◌≡◌, refl, true}
use sysrepo_cpp.Enums.Flags.{enum_bit_or}
use sysrepo_cpp.Enums.Constants.{Constants}
use sysrepo_cpp.Enums.Assertions.{static_assertions}

abbrev current : Constants
current = record {
  datastore = record {
    sr_ds_running = 1;
    sr_ds_candidate = 2;
    sr_ds_operational = 3;
    sr_ds_startup = 0;
    sr_ds_factory_default = 4;
  };
  event = record {
    sr_ev_update = 0;
    sr_ev_change = 1;
    sr_ev_done = 2;
    sr_ev_abort = 3;
    sr_ev_enabled = 4;
    sr_ev_rpc = 5;
  };
  edit = record {
    sr_edit_default = 0;
    sr_edit_non_recursive = 1;
    sr_edit_strict = 2;
    sr_edit_isolate = 4;
  };
  subscribe = record {
    sr_subscr_default = 0;
    sr_subscr_no_thread = 1;
    sr_subscr_passive = 2;
    sr_subscr_done_only = 4;
    sr_subscr_enabled = 8;
    sr_subscr_update = 16;
    sr_subscr_oper_merge = 32;
    sr_subscr_thread_suspend = 64;
  };
  change_operation = record {
    sr_op_created = 0;
    sr_op_modified = 1;
    sr_op_deleted = 2;
    sr_op_moved = 3;
  };
  log_level = record { sr_ll_none = 0; sr_ll_err = 1; sr_ll_wrn = 2; sr_ll_inf = 3; sr_ll_dbg = 4 };
  error_code = record {
    sr_err_ok = 0;
    sr_err_inval_arg = 1;
    sr_err_ly = 2;
    sr_err_sys = 3;
    sr_err_no_memory = 4;
    sr_err_not_found = 5;
    sr_err_exists = 6;
    sr_err_internal = 7;
    sr_err_unsupported = 8;
    sr_err_validation_failed = 9;
    sr_err_operation_failed = 10;
    sr_err_unauthorized = 11;
    sr_err_locked = 12;
    sr_err_time_out = 13;
    sr_err_callback_failed = 14;
    sr_err_callback_shelve = 15;
  };
  move_position = record {
    sr_move_before = 0;
    sr_move_after = 1;
    sr_move_first = 2;
    sr_move_last = 3;
  };
  notification_type = record {
    sr_ev_notif_realtime = 0;
    sr_ev_notif_replay = 1;
    sr_ev_notif_replay_complete = 2;
    sr_ev_notif_terminated = 3;
    sr_ev_notif_modified = 4;
    sr_ev_notif_suspended = 5;
    sr_ev_notif_resumed = 6;
  };
  connection = record {
    sr_conn_default = 0;
    sr_conn_cache_running = 1;
    sr_conn_ctx_set_priv_parsed = 2;
  };
  get = record {
    sr_oper_default = 0;
    sr_oper_no_state = 1;
    sr_oper_no_config = 2;
    sr_oper_no_subs = 4;
    sr_oper_no_stored = 8;
    sr_oper_with_origin = 16;
    sr_oper_no_poll_cached = 32;
    sr_oper_no_run_cached = 64;
    sr_get_no_filter = 65536;
  };
}

current_constants : static_assertions current ≡ true
unfolding static_assertions enum_bit_or
current_constants = refl
