-- ===== src/Sessions/Defaults.antt =====
-- The methods of Session with the default arguments that include/sysrepo-cpp/Session.hpp declares.
use sysrepo_cpp.Base.{Option, none, Text, codes}
use sysrepo_cpp.Base.Int.{pos}
use sysrepo_cpp.Effects.{Eff}
use sysrepo_cpp.Enums.Kinds.{Datastore, MovePosition}
use sysrepo_cpp.Enums.Flags.Edit
use sysrepo_cpp.Enums.Flags.Get
use sysrepo_cpp.Capi.{Sysrepo}
use sysrepo_cpp.Handles.{Session}
use sysrepo_cpp.Changes.{ChangeCollection}
use sysrepo_cpp.Sessions.{set_item, delete_item, move_item, apply_changes, copy_config}
use sysrepo_cpp.Sessions.Data.{
  Wait, get_data, get_one_node, send_rpc, send_notification, replace_config, get_changes,
}

module _ {W Node : Type 0} (api : Sysrepo W Node) (sess : Session) where
  abbrev pub set_item_default : Text → Option Text → Eff W (Unit {0})
  set_item_default path value = set_item api sess path value Edit.default

  abbrev pub delete_item_default : Text → Eff W (Unit {0})
  delete_item_default path = delete_item api sess path Edit.default

  abbrev pub move_item_default : Text → MovePosition → Option Text → Eff W (Unit {0})
  move_item_default path move keys_or_value =
      move_item api sess path move keys_or_value none Edit.default

  abbrev pub get_data_default : Text → Eff W (Option Node)
  get_data_default path = get_data api sess path (pos 0) Get.default (pos 0)

  abbrev pub get_one_node_default : Text → Eff W Node
  get_one_node_default path = get_one_node api sess path (pos 0)

  abbrev pub apply_changes_default : Eff W (Unit {0})
  apply_changes_default = apply_changes api sess (pos 0)

  abbrev pub copy_config_default : Datastore → Eff W (Unit {0})
  copy_config_default source = copy_config api sess source none (pos 0)

  abbrev pub send_rpc_default : Node → Eff W Node
  send_rpc_default input = send_rpc api sess input (pos 0)

  abbrev pub send_notification_default : Node → Wait → Eff W (Unit {0})
  send_notification_default notification wait = send_notification api sess notification wait (pos 0)

  abbrev pub replace_config_default : Option Node → Eff W (Unit {0})
  replace_config_default config = replace_config api sess config none (pos 0)

  -- All changes of the session.
  abbrev pub get_changes_default : ChangeCollection
  get_changes_default = get_changes api sess (codes "//.")
