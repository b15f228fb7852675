-- ===== src/Tests/Watched.antt =====
-- The theorems on the example program at concrete inputs.
use sysrepo_cpp.Base.{ℕ, ◌≡◌, ◌++◌, refl, true, [], ◌∷◌, none, some, codes, arith}
use sysrepo_cpp.Errors.{throw_if_error}
use sysrepo_cpp.Effects.{ok, pure}
use sysrepo_cpp.Enums.Codes.{ErrorCode}
use sysrepo_cpp.Enums.Kinds.{Event}
use sysrepo_cpp.Handles.{Session}
use sysrepo_cpp.Sessions.Data.{get_data, wrap_sr_data}
use sysrepo_cpp.Example.{
  NodeReader, Console, module_change_cb, print_current_config, print_siblings, print_nodes,
  print_value,
}
use sysrepo_cpp.Example.Running.{main}
use sysrepo_cpp.Example.Ending.{
  arguments, watch_text, reading_text, listening_text, exit_text, at_end, main_ends,
}
use sysrepo_cpp.Subscriptions.{Object, construct, subscribe_with, emplace_back, save_context}
use sysrepo_cpp.Subscriptions.Methods.{on_module_change, checked_subscribe}
use sysrepo_cpp.Subscriptions.Lifecycle.{destroy, session_on_module_change}
use sysrepo_cpp.Subscriptions.Quiet.{Quiet}
use sysrepo_cpp.Subscriptions.Freeing.{AllFreed}
use sysrepo_cpp.Subscriptions.Returning.{Unregisters}
use sysrepo_cpp.Options.{check_no_thread_flag}
use sysrepo_cpp.Enums.Flags.{enum_bit_and}
use sysrepo_cpp.Enums.Kinds.{to_datastore}
use sysrepo_cpp.Tests.Lives.{demo-ExtendsContexts}
use sysrepo_cpp.Example.Printing.{siblings_text}
use sysrepo_cpp.Example.Looping.{went_on}
use sysrepo_cpp.Example.Watching.{
  config_heading, reported, module_change_cb_changes, module_change_cb_config,
}
use sysrepo_cpp.Tests.{World, demo, change_of}

-- Each node is a leaf, with one sibling.
abbrev leaves : NodeReader World ℕ
leaves = record {
  path = λ n w. codes "/a:leaf";
  node_type = λ n w. 4;
  value_str = λ n w. n ∷ [];
  has_default_value = λ n w. true;
  siblings = λ n w. n ∷ 65 ∷ [];
  children_dfs = λ n w. n ∷ [];
  container_type = 1;
  list_type = 16;
  leaf_type = 4;
}

abbrev session : Session
session = record { m_conn = 7; m_sess = 8 }

abbrev watching : Console World
watching = record {
  lib = record {
    ds = 0;
    pending = change_of 11 ∷ change_of 12 ∷ [];
    last = 5;
    locks = 0;
    tree = none;
  };
  out = [];
  err = [];
}

module_change_cb_changes_example :
    module_change_cb demo leaves 4 session 1
      (codes "a")
      (some (codes "/a:b"))
      Event.change
      2
      watching
    ≡ (
      ok (some ErrorCode.ok),
      reported demo leaves 3 session
          (codes "a")
          (some (codes "/a:b"))
          Event.change
          (change_of 11 ∷ change_of 12 ∷ [])
          watching,
    )
module_change_cb_changes_example =
    module_change_cb_changes demo leaves 4 3 1 2 session (codes "a") (some (codes "/a:b"))
      Event.change (change_of 11 ∷ change_of 12 ∷ []) watching refl (refl, (refl, refl))
      (omega arith) (λ e. cc)

abbrev configured : World
configured = record { ds = 0; pending = []; last = 5; locks = 0; tree = none }

module_change_cb_config_example :
    module_change_cb demo leaves 4 session 1 (codes "a") none Event.done 2 watching ≡ (
      ok (some ErrorCode.ok),
      went_on configured
          (config_heading demo leaves ++ siblings_text leaves (60 ∷ 65 ∷ []) configured)
          (reported demo leaves 3 session
            (codes "a")
            none
            Event.done
            (change_of 11 ∷ change_of 12 ∷ [])
            watching),
    )
unfolding get_data wrap_sr_data throw_if_error
module_change_cb_config_example =
    module_change_cb_config demo leaves 4 3 1 2 session (codes "a") none
      (change_of 11 ∷ change_of 12 ∷ []) 60 configured watching refl (refl, (refl, refl))
      (omega arith) refl

-- The console when the configuration is to be printed, and after it.
abbrev connected : Console World
connected = record {
  lib = record configured { ds = 1 };
  out = ([] ++ watch_text (codes "a") none) ++ reading_text;
  err = [];
}

abbrev read_config : Console World
read_config = (print_current_config demo leaves session (codes "a") connected).1

config_read : print_current_config demo leaves session (codes "a") connected ≡ (ok tt, read_config)
unfolding print_current_config get_data wrap_sr_data print_siblings print_nodes print_value
    throw_if_error
config_read = refl

abbrev subscribed : Object World
subscribed = (on_module_change demo (codes "a") 0 none 0 0 (construct 8 none read_config.lib)).1

subscription_made :
    session_on_module_change demo 8 (codes "a") 0 none 0 0 none read_config.lib
    ≡ (ok subscribed, subscribed.lib)
unfolding session_on_module_change on_module_change checked_subscribe check_no_thread_flag construct
    enum_bit_and subscribe_with emplace_back throw_if_error save_context
subscription_made = refl

no_polling : Unregisters demo subscribed.self.custom_event_loop_cbs
unfolding on_module_change checked_subscribe check_no_thread_flag construct enum_bit_and
    subscribe_with emplace_back throw_if_error save_context
no_polling = tt

abbrev waited : Console World
waited = record read_config { lib = subscribed.lib; out = read_config.out ++ listening_text }

main_ends_example :
    let ended = (destroy demo (at_end demo leaves subscribed waited.lib)).1 in
    (main demo leaves
        (pure tt)
        (arguments (codes "example") (codes "a") none)
        (record { lib = configured; out = []; err = [] })
      ≡ (ok 0, record waited { lib = ended.lib; out = waited.out ++ exit_text }))
    × Quiet ended.log
    × AllFreed demo ended.log
unfolding to_datastore
main_ends_example =
    main_ends demo leaves (pure tt) (codes "example") (codes "a") none 7 8 subscribed configured
      (record configured { ds = 1 }) subscribed.lib
      (record { lib = configured; out = []; err = [] }) read_config waited demo-ExtendsContexts
      (λ ctx w. refl) no_polling refl refl config_read subscription_made refl
