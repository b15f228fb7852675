-- ===== src/Tests/Examples.antt =====
-- The theorems at concrete inputs.
use sysrepo_cpp.Base.{ℕ, ◌≡◌, refl, ◌++◌, [], ◌∷◌, none, some, Text, codes, arith, map}
use sysrepo_cpp.Base.Int.{pos}
use sysrepo_cpp.Effects.{Eff, ok, throws, error_with_code, std_exception}
use sysrepo_cpp.Enums.Codes.{as_error_code}
use sysrepo_cpp.Errors.{throw_if_error, get_errors, get_netconf_errors, error_head}
use sysrepo_cpp.Errors.Retrieval.{info_of, netconf_outcome, get_errors_lem, get_netconf_errors_lem}
use sysrepo_cpp.Errors.Throwing.{
  throw_outcome, entry_line, throw_if_error_lem, throw_if_error_reports,
}
use sysrepo_cpp.Changes.{ChangeCollection, wrap_change, collect}
use sysrepo_cpp.Changes.Loop.{StopsWith, collect_lem, collect_fails}
use sysrepo_cpp.Callbacks.{
  ModuleChangeCb, OperGetCb, RpcActionCb, NotifCb, ExceptionHandler, module_change_cb,
  oper_get_items_cb, rpc_action_cb, event_notif_cb,
}
use sysrepo_cpp.Callbacks.Containment.{IsContained, callbacks-IsContained}
use sysrepo_cpp.Callbacks.Parents.{module_change_cb_lem, oper_get_items_cb_lem}
use sysrepo_cpp.Tests.{World, demo, change_of, plain_error, wrong_type}

abbrev two_changes : World
two_changes = record {
  ds = 0;
  pending = change_of 11 ∷ change_of 12 ∷ [];
  last = 5;
  locks = 0;
  tree = none;
}

abbrev broken : World
broken = record { ds = 0; pending = change_of 11 ∷ []; last = 7; locks = 0; tree = none }

abbrev changes : ChangeCollection
changes = record { xpath = codes "/a:b"; sess = 8 }

collect_lem_example : collect demo 4 changes two_changes ≡ (
  ok (some (wrap_change demo (change_of 11) ∷ wrap_change demo (change_of 12) ∷ [])),
  record two_changes { pending = [] },
)
collect_lem_example =
    collect_lem demo 4 3 changes (change_of 11 ∷ change_of 12 ∷ []) two_changes refl
      (refl, (refl, refl)) (omega arith)

collect_fails_example :
    StopsWith demo 7 8 (record broken { pending = [] }) (collect demo 4 changes broken)
collect_fails_example =
    collect_fails demo 4 7 3 changes (change_of 11) [] broken (omega arith) (omega arith) refl
      (refl, refl) refl (omega arith)

throw_if_error_lem_example :
    throw_if_error demo 9 (codes "Couldn't") (some 8) broken
    ≡ (throw_outcome demo 9 (codes "Couldn't") (some 8) broken, broken)
throw_if_error_lem_example = throw_if_error_lem demo 9 (codes "Couldn't") (some 8) broken

throw_if_error_reports_example :
    (before : Text) × (behind : Text) × (throw_if_error demo 9 (codes "Couldn't") (some 8) broken
      ≡ (
        throws (
            error_with_code
              (error_head 9 (codes "Couldn't")
                ++ (before ++ (entry_line (codes "Wrong type") wrong_type ++ behind)))
              (as_error_code 9)),
        broken,
      ))
throw_if_error_reports_example =
    throw_if_error_reports demo 9 (codes "Couldn't") 8 broken (plain_error ∷ []) [] wrong_type
      (codes "Wrong type") (omega arith) refl refl refl

get_errors_lem_example :
    get_errors demo 8 broken ≡ (ok (map info_of (plain_error ∷ wrong_type ∷ [])), broken)
get_errors_lem_example = get_errors_lem demo 8 broken

get_netconf_errors_lem_example :
    get_netconf_errors demo 8 broken
    ≡ (netconf_outcome demo (plain_error ∷ wrong_type ∷ []) broken, broken)
get_netconf_errors_lem_example = get_netconf_errors_lem demo 8 broken

abbrev throwing : {A : Type 0} → Eff World A
throwing w = (throws (std_exception (codes "oops")), w)

abbrev ignoring : ExceptionHandler World
ignoring = some (λ ex w. (ok tt, w))

abbrev failing_change_cb : ModuleChangeCb World
failing_change_cb sess i name xpath event request = throwing

abbrev failing_rpc_cb : RpcActionCb World ℕ
failing_rpc_cb sess i path input event request output = throwing

abbrev failing_notif_cb : NotifCb World ℕ
failing_notif_cb sess i type tree time = throwing

-- It leaves a node in its output argument and throws.
abbrev failing_oper_cb : OperGetCb World ℕ
failing_oper_cb sess i name sub_xpath request_xpath request (w, n) =
    (throws (std_exception (codes "oops")), (w, some 33))

callbacks-IsContained_example :
    IsContained (module_change_cb demo failing_change_cb none 8 1 (codes "a") none 1 2 broken).0
    × IsContained
        (oper_get_items_cb demo failing_oper_cb none 8 1 (codes "a") none none 2 (some 30) broken).0
    × IsContained (rpc_action_cb demo failing_rpc_cb none 8 1 (codes "a") 30 1 2 31 broken).0
    × IsContained
        (event_notif_cb demo failing_notif_cb none 8 1 1
          (some 30)
          (record { tv_sec = pos 1; tv_nsec = pos 0 })
          broken).0
callbacks-IsContained_example =
    callbacks-IsContained demo failing_change_cb failing_oper_cb failing_rpc_cb failing_notif_cb
      none 8 1 1 2 30 31 (codes "a") none none (some 30)
      (record { tv_sec = pos 1; tv_nsec = pos 0 }) broken

module_change_cb_lem_example :
    (module_change_cb demo failing_change_cb ignoring 8 1 (codes "a") none 1 2 broken).0 ≡ ok 10
module_change_cb_lem_example =
    module_change_cb_lem demo failing_change_cb ignoring 8 1 (codes "a") none 1 2 broken

oper_get_items_cb_lem_example :
    (w' : World) × ((oper_get_items_cb demo failing_oper_cb ignoring 8 1
        (codes "a")
        none
        none
        2
        none
        broken).0
      ≡ ok (10, some 33))
oper_get_items_cb_lem_example =
    oper_get_items_cb_lem demo failing_oper_cb ignoring 8 1 (codes "a") none none 2 none broken 10
      refl
