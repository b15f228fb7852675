-- ===== src/Tests/Lives.antt =====
-- The theorems on the life of a Subscription and on the methods of Session at concrete inputs.
use sysrepo_cpp.Base.{true, ℕ, ◌≡◌, refl, false, [], ◌∷◌, none, some, codes}
use sysrepo_cpp.Base.Int.{pos}
use sysrepo_cpp.Effects.{ok}
use sysrepo_cpp.Errors.{NetconfErrorInfo}
use sysrepo_cpp.Enums.Kinds.{Datastore, to_datastore}
use sysrepo_cpp.Enums.Flags.Subscribe.{no_thread}
use sysrepo_cpp.Handles.{Session, Connection}
use sysrepo_cpp.Connections.{discard_operational_changes, set_module_replay_support}
use sysrepo_cpp.Enums.Kinds.{MovePosition, DefaultOperation, to_default_operation}
use sysrepo_cpp.Sessions.{
  switch_datastore, set_item, edit_batch, delete_item, discard_items, move_item, apply_changes,
  discard_changes, copy_config, set_nacm_user, set_originator_name,
}
use sysrepo_cpp.Sessions.Edits.{Reports, edits_report}
use sysrepo_cpp.Sessions.Data.{
  wait_no, send_notification, replace_config, set_error_message, set_netconf_error,
}
use sysrepo_cpp.Subscriptions.Actions.{
  created, handed, Safe, module_change, handler_object, priv_data,
}
use sysrepo_cpp.Subscriptions.{Subscription, Object, FdHandling, construct}
use sysrepo_cpp.Subscriptions.Methods.{on_module_change, on_oper_get}
use sysrepo_cpp.Subscriptions.Lifecycle.{destroy, move_assign}
use sysrepo_cpp.Subscriptions.Ending.{Released}
use sysrepo_cpp.Subscriptions.Histories.{
  ExtendsContexts, on_module_change_step, moved_step, on_oper_get_step, Reach, constructed,
  then_step, destroy-Reach,
}
use sysrepo_cpp.Subscriptions.Actions.{nacm_destroyed}
use sysrepo_cpp.Subscriptions.Moving.{moved, moved_nacm}
use sysrepo_cpp.Subscriptions.Assigning.{move_assign_unsafe}
use sysrepo_cpp.Tests.{World, demo}

abbrev pub start : World
start = record { ds = 1; pending = []; last = 5; locks = 0; tree = none }

abbrev session : Session
session = record { m_conn = 7; m_sess = 8 }

abbrev pub polling : FdHandling World
polling = record { register_fd = λ fd process w. (ok tt, w); unregister_fd = λ fd w. (ok tt, w) }

pub demo-ExtendsContexts : ExtendsContexts demo
demo-ExtendsContexts = record {
  module_change = λ s name xpath p prio opts ctx w h. refl;
  oper_get = λ s name xpath p opts ctx w h. refl;
  rpc_action = λ s xpath p prio opts ctx w h. refl;
  notification = λ s name xpath begin end p opts ctx w h. refl;
}

abbrev fresh : Object World
fresh = construct 8 (some polling) start

abbrev after_one : Object World
after_one = (on_module_change demo (codes "a") 3 none 0 no_thread fresh).1

-- It subscribes, is moved, and subscribes again.
abbrev pub after_two : Object World
after_two =
    (on_oper_get demo (codes "a") 4 (some (codes "/a:b")) no_thread (moved demo after_one)).1

pub after_two-Reach : Reach demo after_two
after_two-Reach =
    then_step (moved demo after_one) after_two
      (then_step after_one (moved demo after_one)
        (then_step fresh after_one (constructed 8 (some polling) start)
          (on_module_change_step (codes "a") 3 none 0 no_thread fresh))
        (moved_step after_one))
      (on_oper_get_step (codes "a") 4 (some (codes "/a:b")) no_thread (moved demo after_one))

destroy-Reach_example : Released (destroy demo after_two)
destroy-Reach_example = destroy-Reach demo after_two demo-ExtendsContexts after_two-Reach

abbrev empty : Subscription World
empty = record {
  custom_event_loop_cbs = none;
  module_change_cbs = [];
  oper_get_cbs = [];
  rpc_action_cbs = [];
  notification_cbs = [];
  exception_handler = some 9;
  sess = some 8;
  sub = none;
  did_nacm_init = false;
}

-- One module change subscription in the context 40.
abbrev pub target : Object World
target = record {
  self = record empty { module_change_cbs = 1 ∷ []; exception_handler = some 0; sub = some 40 };
  lib = start;
  log =
      handed (record {
        context = 40;
        callback = 1;
        handler = 0;
        trampoline = module_change;
        requested = 3;
      })
      ∷ created 1 (priv_data (record { kind = module_change; callback = 3 }))
      ∷ created 0 handler_object
      ∷ [];
  next_node = 2;
  loop = [];
}

move_assign_unsafe_example : ¬ (Safe (move_assign demo empty target).log)
move_assign_unsafe_example =
    move_assign_unsafe demo empty target [] []
      (record {
        context = 40;
        callback = 1;
        handler = 0;
        trampoline = module_change;
        requested = 3;
      })
      refl refl

abbrev handed_tree : ℕ
handed_tree = 60

abbrev connection : Connection
connection = record { ctx = 7 }

abbrev refusal : NetconfErrorInfo
refusal = record {
  type = codes "application";
  tag = codes "invalid-value";
  app_tag = none;
  path = none;
  message = codes "no";
  info_elements = [];
}

edits_report_example :
    Reports (set_item demo session (codes "/a:b") none 0 start) (0, start)
    × Reports (edit_batch demo session handed_tree DefaultOperation.merge start) (0, start)
    × Reports (delete_item demo session (codes "/a:b") 0 start) (0, start)
    × Reports (discard_items demo session none start) (0, start)
    × Reports
        (move_item demo session (codes "/a:b") MovePosition.first none none 0 start)
        (0, start)
    × Reports (apply_changes demo session (pos 0) start) (0, start)
    × Reports (discard_changes demo session start) (0, start)
    × Reports (copy_config demo session Datastore.startup none (pos 0) start) (0, start)
    × Reports (switch_datastore demo session Datastore.startup start) (0, record start { ds = 0 })
    × Reports (set_nacm_user demo session (codes "/a:b") start) (0, start)
    × Reports (set_originator_name demo session (codes "/a:b") start) (0, start)
    × Reports (send_notification demo session handed_tree wait_no (pos 0) start) (0, start)
    × Reports (replace_config demo session none none (pos 0) start) (0, start)
    × Reports (replace_config demo session (some handed_tree) none (pos 0) start) (0, start)
    × Reports (set_error_message demo session (codes "/a:b") start) (0, start)
    × Reports (set_netconf_error demo session refusal start) (0, start)
    × Reports (discard_operational_changes demo connection none none (pos 0) start) (0, start)
    × Reports (set_module_replay_support demo connection (codes "/a:b") true start) (0, start)
unfolding to_datastore to_default_operation
edits_report_example =
    edits_report demo session connection (codes "/a:b") none none handed_tree DefaultOperation.merge
      MovePosition.first 0 Datastore.startup wait_no refusal none true (pos 0) start

-- It has initialized NACM.
abbrev guarding : Object World
guarding = record target { self = record (target.self) { did_nacm_init = true } }

moved_nacm_example :
    ((moved demo guarding).log ≡ nacm_destroyed ∷ guarding.log)
    × ((moved demo guarding).self.did_nacm_init ≡ true)
moved_nacm_example = moved_nacm demo guarding refl
