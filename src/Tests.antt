-- ===== src/Tests.antt =====
-- A small library in place of sysrepo and libyang, on which the theorems are applied. Its sessions
-- share one datastore setting, and its iterator hands out the pending changes.
pub mod Compiled
pub mod Examples
pub mod States
pub mod Lives
pub mod Sharing
pub mod Creations
pub mod Watched
pub mod Served
pub mod Replayed
pub mod Contracted
use sysrepo_cpp.Base.{ℕ, ◌+◌, ◌==◌, List, [], ◌∷◌, Option, none, some, Text, codes}
use sysrepo_cpp.Base.Int.{ℤ, pos}
use sysrepo_cpp.Times.{Timespec}
use sysrepo_cpp.Capi.{Sysrepo, SrError, NetconfDetails, RawChange}

-- The active datastore, the changes that the iterator has left, the code that ends the iteration, the
-- number of locks, and the tree of the data that are handed out.
pub record World : Type 0 where
  pub ds : ℕ
  pub pending : List RawChange
  pub last : ℕ
  pub locks : ℕ
  pub tree : Option ℕ

abbrev pub change_of : ℕ → RawChange
change_of n = record {
  operation = 1;
  node = n;
  prev_value = none;
  prev_list = none;
  prev_default = 0;
}

abbrev pub next_change : List RawChange → World → (ℕ × RawChange) × World
next_change [] w = ((w.last, change_of 0), w)
next_change (c ∷ cs) w = ((0, c), record w { pending = cs })

-- A subscription without a context gets the context 40.
abbrev pub context_of : Option ℕ → ℕ
context_of none = 40
context_of (some ctx) = ctx

abbrev pub raw_of : Option ℕ → ℕ
raw_of none = 0
raw_of (some p) = p

abbrev pub plain_error : SrError
plain_error = record {
  err_code = 5;
  message = some (codes "No such node");
  error_format = none;
  error_data = 0;
}

abbrev pub wrong_type : SrError
wrong_type = record {
  err_code = 9;
  message = some (codes "Wrong type");
  error_format = some (codes "NETCONF");
  error_data = 1;
}

abbrev pub details : NetconfDetails
details = record {
  type = codes "application";
  tag = codes "invalid-value";
  app_tag = none;
  path = some (codes "/a:b");
  message = codes "Wrong type";
  info = none;
}

abbrev pub demo : Sysrepo World ℕ
demo = record {
  sr_connect = λ opts w. ((0, 7), w);
  sr_session_start = λ c ds w. ((0, 8), record w { ds = ds });
  sr_session_get_connection = λ s w. 7;
  sr_session_get_ds = λ s w. w.ds;
  sr_session_switch_ds = λ s ds w. (0, record w { ds = ds });
  sr_session_get_error = λ s w. (0, some (plain_error ∷ wrong_type ∷ []));
  sr_err_get_netconf_error = λ e w. (0, details);
  sr_session_set_error_message = λ s m w. (0, w);
  sr_session_set_netconf_error2 = λ s t g a p m es vs w. (0, w);
  sr_session_get_orig_name = λ s w. codes "";
  sr_session_set_orig_name = λ s n w. (0, w);
  sr_session_get_id = λ s w. s;
  sr_set_item_str = λ s p v o opts w. (0, w);
  sr_edit_batch = λ s e op w. (0, w);
  sr_delete_item = λ s p opts w. (0, w);
  sr_discard_items = λ s x w. (0, w);
  sr_move_item = λ s p m k v o opts w. (0, w);
  sr_get_data = λ s p d t opts w. ((0, some 9), record w { tree = some 60 });
  sr_get_node = λ s p t w. ((0, some 9), w);
  sr_get_changes = λ s w. none;
  sr_apply_changes = λ s t w. (0, w);
  sr_discard_changes = λ s w. (0, w);
  sr_copy_config = λ s m ds t w. (0, w);
  sr_replace_config = λ s m c t w. (0, w);
  sr_rpc_send_tree = λ s i t w. ((0, some 9), w);
  sr_notif_send_tree = λ s n t wait w. (0, w);
  sr_nacm_set_user = λ s u w. (0, w);
  sr_nacm_init = λ s opts w. ((0, 40), w);
  sr_nacm_destroy = λ w. w;
  sr_lock = λ s m t w. (0, record w { locks = w.locks + 1 });
  sr_unlock = λ s m w. (0, record w { locks = 0 });
  sr_get_changes_iter = λ s x w. ((0, 3), w);
  sr_get_change_tree_next = λ s i w. next_change w.pending w;
  sr_discard_oper_changes = λ c s x t w. (0, w);
  sr_set_module_replay_support = λ c m e w. (0, w);
  sr_get_module_replay_support = λ c m w. ((0, record { tv_sec = pos 0; tv_nsec = pos 0 }, 1), w);
  sr_module_change_subscribe = λ s m x p prio opts ctx w. ((0, context_of ctx), w);
  sr_oper_get_subscribe = λ s m x p opts ctx w. ((0, context_of ctx), w);
  sr_rpc_subscribe_tree = λ s x p prio opts ctx w. ((0, context_of ctx), w);
  sr_notif_subscribe_tree = λ s m x start stop p opts ctx w. ((0, context_of ctx), w);
  sr_get_event_pipe = λ ctx w. ((0, 5), w);
  sr_subscription_process_events = λ ctx w. (0, w);
  sr_unsubscribe_sub = λ ctx w. w;
  sr_unsubscribe = λ ctx w. w;
  sr_log_stderr = λ l w. w;
  srplg_log_err = λ t w. w;
  srplg_log_wrn = λ t w. w;
  data_tree = λ d w. w.tree;
  set_data_tree = λ d t w. record w { tree = t };
  get_raw_node = λ n. n;
  wrap_raw_node = λ p w. (p, w);
  wrap_raw_node_of = λ t d s w. (raw_of t, w);
  wrap_unmanaged_raw_node = λ p. p;
  release_raw_node = λ n w. (n, w);
  duplicate_with_siblings = λ n w. (n, w);
  node_eq = λ a b. a == b;
}
