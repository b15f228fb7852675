-- ===== src/Tests/Served.antt =====
-- The theorems on the serving of subscriptions at concrete inputs.
use sysrepo_cpp.Base.{ℕ, ◌≡◌, refl, [], ◌∷◌, none, some, codes}
use sysrepo_cpp.Base.Int.{pos}
use sysrepo_cpp.Effects.{ok, pure}
use sysrepo_cpp.Errors.{throw_if_error, throw_if_error_bare}
use sysrepo_cpp.Enums.Codes.{ErrorCode}
use sysrepo_cpp.Enums.Flags.{enum_bit_and}
use sysrepo_cpp.Enums.Flags.Subscribe.{no_thread}
use sysrepo_cpp.Options.{check_no_thread_flag}
use sysrepo_cpp.Subscriptions.Actions.{
  Held, held, module_change, oper_get, rpc_action, notification,
}
use sysrepo_cpp.Subscriptions.{
  construct, subscribe_with, emplace_back, save_context, event_pipe, release_context,
}
use sysrepo_cpp.Subscriptions.Methods.{
  checked_subscribe, on_module_change, on_oper_get, on_rpc_action, on_notification,
}
use sysrepo_cpp.Subscriptions.Lifecycle.{move_construct, destroy}
use sysrepo_cpp.Subscriptions.Serving.{
  Functions, Served, changed, data_wanted, operation_called, notified, serve, run_with, serve_lem,
}
use sysrepo_cpp.Subscriptions.Accepting.{Serves, subscribing-Serves}
use sysrepo_cpp.Tests.{World, demo}
use sysrepo_cpp.Tests.Lives.{start, after_two, after_two-Reach}

abbrev functions : Functions World ℕ
functions = record {
  module_changes = λ n sess id name xpath event request. pure ErrorCode.ok;
  oper_gets = λ n sess id name xpath wanted request w. (ok ErrorCode.ok, (w.0, some n));
  rpc_actions = λ n sess id path input event request output. pure ErrorCode.internal;
  notifications = λ n sess id type node time. pure tt;
  exception_handler = none;
}

abbrev wanted : Served oper_get
wanted = data_wanted 8 1 (codes "a") none none 2 none

-- The second subscription of the object.
abbrev second : Held
second = record { context = 40; callback = 2; handler = 0; trampoline = oper_get; requested = 4 }

abbrev first : Held
first = record {
  context = 40;
  callback = 1;
  handler = 0;
  trampoline = module_change;
  requested = 3;
}

both_held : held after_two.log ≡ second ∷ first ∷ []
unfolding on_oper_get checked_subscribe check_no_thread_flag move_construct on_module_change
    construct enum_bit_and subscribe_with emplace_back throw_if_error save_context event_pipe
    throw_if_error_bare destroy release_context
both_held = refl

serve_lem_example :
    serve demo functions second wanted after_two.log start
    ≡ run_with demo functions wanted none 4 start
serve_lem_example =
    serve_lem demo functions after_two [] (first ∷ []) second wanted start after_two-Reach both_held

subscribing-Serves_example :
    Serves demo functions
      (record { kind = module_change; callback = 5 })
      (changed 8 1 (codes "a") none 1 2)
      (held after_two.log)
      (on_module_change demo (codes "a") 5 none 0 no_thread after_two)
    × Serves demo functions
        (record { kind = oper_get; callback = 5 })
        wanted
        (held after_two.log)
        (on_oper_get demo (codes "a") 5 none no_thread after_two)
    × Serves demo functions
        (record { kind = rpc_action; callback = 5 })
        (operation_called 8 1 (codes "/a:b") 11 1 2 12)
        (held after_two.log)
        (on_rpc_action demo (codes "a") 5 0 no_thread after_two)
    × Serves demo functions
        (record { kind = notification; callback = 5 })
        (notified 8 1 0 none (record { tv_sec = pos 1; tv_nsec = pos 0 }))
        (held after_two.log)
        (on_notification demo (codes "a") 5 none none none no_thread after_two)
subscribing-Serves_example =
    subscribing-Serves demo functions (codes "a") 5 none 0 none none no_thread after_two
      (changed 8 1 (codes "a") none 1 2) wanted (operation_called 8 1 (codes "/a:b") 11 1 2 12)
      (notified 8 1 0 none (record { tv_sec = pos 1; tv_nsec = pos 0 })) after_two-Reach
