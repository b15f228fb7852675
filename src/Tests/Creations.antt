-- ===== src/Tests/Creations.antt =====
-- The theorems on memory, on descriptors and on the creation of a Subscription at concrete inputs.
use sysrepo_cpp.Base.{true, ◌≡◌, refl, [], none, some, codes}
use sysrepo_cpp.Effects.{ok, throws, foreign}
use sysrepo_cpp.Enums.Flags.Subscribe.{no_thread}
use sysrepo_cpp.Errors.{throw_if_error, throw_if_error_bare}
use sysrepo_cpp.Enums.Flags.{enum_bit_and}
use sysrepo_cpp.Options.{check_no_thread_flag}
use sysrepo_cpp.Subscriptions.Returning.{Unregisters}
use sysrepo_cpp.Subscriptions.Actions.{open_fds}
use sysrepo_cpp.Subscriptions.Methods.{
  on_module_change, on_oper_get, checked_subscribe, on_rpc_action, on_notification,
}
use sysrepo_cpp.Subscriptions.{
  Object, FdHandling, construct, subscribe_with, emplace_back, save_context, event_pipe,
}
use sysrepo_cpp.Subscriptions.Lifecycle.{
  take_nacm, destroy, move_construct, init_nacm, session_on_module_change, session_on_oper_get,
  session_on_rpc_action, session_on_notification,
}
use sysrepo_cpp.Subscriptions.Freeing.{AllFreed, destroy-AllFreed}
use sysrepo_cpp.Subscriptions.Descriptors.{Polled, destroy-Polled}
use sysrepo_cpp.Subscriptions.Creating.{Creates, sessions-Creates, init_nacm_unfinished}
use sysrepo_cpp.Tests.{World, demo}
use sysrepo_cpp.Tests.Lives.{start, polling, demo-ExtendsContexts, after_two, after_two-Reach}

after_two-Unregisters : Unregisters demo after_two.self.custom_event_loop_cbs
unfolding on_oper_get checked_subscribe check_no_thread_flag move_construct on_module_change
    construct enum_bit_and subscribe_with emplace_back throw_if_error save_context event_pipe
    throw_if_error_bare
after_two-Unregisters = λ pipe w. refl

destroy-AllFreed_example :
    ((destroy demo after_two).0 ≡ ok tt) × AllFreed demo (destroy demo after_two).1.log
destroy-AllFreed_example =
    destroy-AllFreed demo after_two demo-ExtendsContexts (λ ctx w. refl) after_two-Unregisters
      after_two-Reach

destroy-Polled_example :
    Polled demo (λ ctx. 5) after_two
    × ((destroy demo after_two).0 ≡ ok tt)
    × (open_fds (destroy demo after_two).1.log ≡ [])
destroy-Polled_example =
    destroy-Polled demo (λ ctx. 5) after_two demo-ExtendsContexts (λ ctx w. refl)
      after_two-Unregisters after_two-Reach

-- The new object.
abbrev fresh : Object World
fresh = construct 8 (some polling) start

sessions-Creates_example :
    Creates demo true start
      (on_module_change demo (codes "a") 3 none 1 no_thread fresh)
      (session_on_module_change demo 8 (codes "a") 3 none 1 no_thread (some polling) start)
    × Creates demo true start
        (on_oper_get demo (codes "a") 3 none no_thread fresh)
        (session_on_oper_get demo 8 (codes "a") 3 none no_thread (some polling) start)
    × Creates demo true start
        (on_rpc_action demo (codes "a") 3 1 no_thread fresh)
        (session_on_rpc_action demo 8 (codes "a") 3 1 no_thread (some polling) start)
    × Creates demo true start
        (on_notification demo (codes "a") 3 none none none no_thread fresh)
        (session_on_notification demo 8 (codes "a") 3 none none none no_thread (some polling) start)
    × Creates demo true start
        (take_nacm demo 40 fresh)
        (init_nacm demo 8 no_thread (some polling) start)
unfolding enum_bit_and
sessions-Creates_example =
    sessions-Creates demo 8 (codes "a") 3 none 1 none none no_thread (some polling) start
      demo-ExtendsContexts

-- An event loop that takes no more descriptors.
abbrev refusing : FdHandling World
refusing = record {
  register_fd = λ fd process w. (throws foreign, w);
  unregister_fd = λ fd w. (ok tt, w);
}

init_nacm_unfinished_example :
    init_nacm demo 8 no_thread (some refusing) start ≡ (throws foreign, start)
init_nacm_unfinished_example =
    init_nacm_unfinished demo 8 40 5 5 no_thread refusing foreign start start start start start
      start refl refl refl refl refl
