-- ===== src/Example.antt =====
-- The program src/examples/module_change_example.cpp of the repository (examples/ at its root): it
-- prints the configuration of a module and then each change of it.
pub mod Printing
pub mod Looping
pub mod Watching
pub mod Running
pub mod Ending
use sysrepo_cpp.Base.{
  ℕ, zero, suc, Bool, true, false, ◌&&◌, List, [], ◌∷◌, ◌++◌, Option, none, some, Text, codes, ◌==◌,
  if◌then◌else◌,
}
use sysrepo_cpp.Base.Int.{pos}
use sysrepo_cpp.Effects.{Eff, Result, ok, pure, read, c_str, ◌>>=◌, ◌>>◌}
use sysrepo_cpp.Enums.Codes.{ErrorCode}
use sysrepo_cpp.Enums.Kinds.{ChangeOperation, Event, print_change_operation, print_event}
use sysrepo_cpp.Capi.{Sysrepo}
use sysrepo_cpp.Handles.{Session}
use sysrepo_cpp.Changes.{
  Change, ChangeIterator, ChangeCollection, begin, increment, deref, iterator_eq, end_iterator,
}
use sysrepo_cpp.Sessions.Data.{get_changes}
use sysrepo_cpp.Sessions.Defaults.{get_data_default}

-- What the program reads of libyang's nodes, and the values of libyang::NodeType that it tells apart.
pub record NodeReader (W Node : Type 0) : Type 0 where
  pub path : Node → W → Text
  pub node_type : Node → W → ℕ
  pub value_str : Node → W → Text
  pub has_default_value : Node → W → Bool
  pub siblings : Node → W → List Node
  pub children_dfs : Node → W → List Node
  pub container_type : ℕ
  pub list_type : ℕ
  pub leaf_type : ℕ

-- The C library and what has been written to std::cout and std::cerr.
pub record Console (W : Type 0) : Type 0 where
  pub lib : W
  pub out : Text
  pub err : Text

abbrev pub newline : Text
newline = 10 ∷ []

abbrev pub blank_line : Text
blank_line = 10 ∷ 10 ∷ []

module _ {W : Type 0} where
  abbrev pub put_lib : {A : Type 0} → Result A × W → Console W → Result A × Console W
  put_lib (r, w) c = (r, record c { lib = w })

  -- A call of the bindings.
  abbrev pub in_lib : {A : Type 0} → Eff W A → Eff (Console W) A
  in_lib m c = put_lib (m c.lib) c

  abbrev pub say : Text → Eff (Console W) (Unit {0})
  say t c = (ok tt, record c { out = c.out ++ t })

  -- What is read of the library is printed.
  abbrev pub show : (W → Text) → Eff (Console W) (Unit {0})
  show f c = say (f c.lib) c

  abbrev pub complain : Text → Eff (Console W) (Unit {0})
  complain t c = (ok tt, record c { err = c.err ++ t })

module _ {W Node : Type 0} (ly : NodeReader W Node) where
  abbrev pub print_content : ℕ → Node → Eff (Console W) (Unit {0})
  print_content type node =
      if type == ly.container_type
      then say (codes "(container)")
      else if type == ly.list_type
      then say (codes "(list instance)")
      else if type == ly.leaf_type
      then show (ly.value_str node)
      else say (codes "(unprintable)")

  abbrev pub print_default : ℕ → Node → Eff (Console W) (Unit {0})
  print_default type node =
      let marked = (do
        is_default ← in_lib (read (ly.has_default_value node))
        if is_default then say (codes " [default]") else pure tt) in
      if type == ly.leaf_type then marked else pure tt

  -- printValue
  unfoldable pub print_value : Node → Eff (Console W) (Unit {0})
  print_value node = do
    show (ly.path node)
    say (codes " = ")
    type ← in_lib (read (ly.node_type node))
    print_content type node
    print_default type node
    say newline

  abbrev pub previous_text : Option Text → Text
  previous_text none = codes "{none}"
  previous_text (some v) = v

  abbrev pub print_details : ChangeOperation → Change Node → Eff (Console W) (Unit {0})
  print_details ChangeOperation.created change = print_value change.node
  print_details ChangeOperation.deleted change = print_value change.node
  print_details ChangeOperation.modified change = do
    print_value change.node
    say (codes " previous value: ")
    say (previous_text change.previous_value)
  print_details ChangeOperation.moved change = show (ly.path change.node)
  print_details (ChangeOperation.unnamed n) change = pure tt

  -- printChange
  unfoldable pub print_change : Change Node → Eff (Console W) (Unit {0})
  unfolding print_value
  print_change change = do
    say (print_change_operation change.operation)
    say (codes ": ")
    print_details change.operation change

  unfoldable pub print_nodes : List Node → Eff (Console W) (Unit {0})
  print_nodes [] = pure tt
  print_nodes (node ∷ rest) = do print_value node; print_nodes rest

  unfoldable pub print_siblings : List Node → Eff (Console W) (Unit {0})
  print_siblings [] = pure tt
  print_siblings (sibling ∷ rest) = do
    nodes ← in_lib (read (ly.children_dfs sibling))
    print_nodes nodes
    print_siblings rest

  abbrev pub print_data : Option Node → Eff (Console W) (Unit {0})
  print_data none = complain (codes "<no data>" ++ newline)
  print_data (some node) = do siblings ← in_lib (read (ly.siblings node)); print_siblings siblings

-- The XPath of all nodes of a module.
abbrev pub all_nodes : Text → Text
all_nodes module_name = codes "/" ++ (module_name ++ codes ":*//.")

abbrev pub path_for_changes : Text → Option Text → Text
path_for_changes module_name none = all_nodes module_name
path_for_changes module_name (some xpath) = xpath ++ codes "//."

abbrev pub is_done : Event → Bool
is_done Event.done = true
is_done Event.update = false
is_done Event.change = false
is_done Event.abort = false
is_done Event.enabled = false
is_done Event.rpc = false
is_done (Event.unnamed n) = false

module _ {W Node : Type 0} (api : Sysrepo W Node) (ly : NodeReader W Node) where
  -- printCurrentConfig; the arguments that it leaves out are zero.
  unfoldable pub print_current_config : Session → Text → Eff (Console W) (Unit {0})
  print_current_config session module_name = do
    tree ← in_lib (get_data_default api session (c_str (all_nodes module_name)))
    print_data ly tree

  -- `for (const auto& change : changes) printChange(change);`; `none` means that the fuel ran out.
  unfoldable pub print_changes_from : ℕ → ChangeIterator Node → Eff (Console W) (Option (Unit {0}))
  print_changes_from zero it = pure none
  print_changes_from (suc fuel) it =
      let rest = (do
        change ← in_lib (deref api it)
        print_change ly change
        next ← in_lib (increment api it)
        print_changes_from fuel next) in
      if iterator_eq api it end_iterator then pure (some tt) else rest

  abbrev pub print_config_after : Session → Text → Bool → Eff (Console W) (Unit {0})
  print_config_after session module_name false = pure tt
  print_config_after session module_name true = do
    say (
        blank_line
        ++ (codes " ========== CONFIG HAS CHANGED, CURRENT RUNNING CONFIG: =========="
            ++ blank_line))
    print_current_config session (c_str module_name)

  abbrev pub report :
      Session → Text → Event → Option (Unit {0}) → Eff (Console W) (Option ErrorCode)
  report session module_name event none = pure none
  report session module_name event (some done) = do
    say (blank_line ++ codes " ========== END OF CHANGES =======================================")
    print_config_after session module_name (is_done event)
    pure (some ErrorCode.ok)

  -- moduleChangeCb
  unfoldable pub module_change_cb :
      ℕ → Session → ℕ → Text → Option Text → Event → ℕ → Eff (Console W) (Option ErrorCode)
  unfolding print_changes_from print_current_config
  module_change_cb fuel session subscription_id module_name sub_xpath event request_id = do
    say (blank_line ++ codes " ========== EVENT ")
    say (print_event event)
    say (codes " CHANGES: ====================================" ++ blank_line)
    it ←
        in_lib
          (begin api (get_changes api session (c_str (path_for_changes module_name sub_xpath))))
    done ← print_changes_from fuel it
    report session module_name event done
