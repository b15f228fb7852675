-- ===== src/Example/Printing.antt =====
-- What the example prints of nodes and of changes.
use mathlib.Core.List.{append_assoc, append-nil}
use sysrepo_cpp.Base.{
  ℕ, ◌≡◌, refl, ◌&&◌, List, [], ◌∷◌, ◌++◌, Text, codes, ◌==◌, if◌then◌else◌, arith, inl, inr,
  Bool-cases,
}
use sysrepo_cpp.Effects.{ok}
use sysrepo_cpp.Enums.Kinds.{ChangeOperation, print_change_operation}
use sysrepo_cpp.Changes.{Change}
use sysrepo_cpp.Example.{
  NodeReader, Console, newline, print_value, print_content, print_default, previous_text,
  print_details, print_change, print_nodes, print_siblings,
}

module _ {W Node : Type 0} (ly : NodeReader W Node) where
  -- The line of a node.
  abbrev pub content_text : ℕ → Node → W → Text
  content_text type node w =
      if type == ly.container_type
      then codes "(container)"
      else if type == ly.list_type
      then codes "(list instance)"
      else if type == ly.leaf_type
      then ly.value_str node w
      else codes "(unprintable)"

  abbrev pub default_text : ℕ → Node → W → Text
  default_text type node w =
      if type == ly.leaf_type && ly.has_default_value node w then codes " [default]" else []

  abbrev pub node_text : Node → W → Text
  node_text node w =
      let type = ly.node_type node w in
      ly.path node w
      ++ (codes " = " ++ (content_text type node w ++ (default_text type node w ++ newline)))

  -- The state when a text has been printed.
  abbrev pub printed : Text → Console W → Console W
  printed t c = record c { out = c.out ++ t }

  print_content_lem :
      (type : ℕ) (node : Node) (c : Console W)
      → print_content ly type node c ≡ (ok tt, printed (content_text type node c.lib) c)
  print_content_lem type node c = ground arith

  print_default_lem :
      (type : ℕ) (node : Node) (c : Console W)
      → print_default ly type node c ≡ (ok tt, printed (default_text type node c.lib) c)
  print_default_lem type node c = elim (Bool-cases (type == ly.leaf_type)) [
    | inl leaf ↦ elim (Bool-cases (ly.has_default_value node c.lib)) [
      | inl marked ↦ rw (leaf, marked) refl
      | inr plain ↦ rw (leaf, plain) (simp (append-nil))
    ]
    | inr other ↦ rw other (simp (append-nil))
  ]

  pub print_value_lem :
      (node : Node) (c : Console W)
      → print_value ly node c ≡ (ok tt, printed (node_text node c.lib) c)
  unfolding print_value
  print_value_lem node c = rw (print_content_lem, print_default_lem) (simp (append_assoc))

  -- What a change is printed as.
  abbrev pub details_text : ChangeOperation → Change Node → W → Text
  details_text ChangeOperation.created change w = node_text change.node w
  details_text ChangeOperation.deleted change w = node_text change.node w
  details_text ChangeOperation.modified change w =
      node_text change.node w
      ++ (codes " previous value: " ++ previous_text ly change.previous_value)
  details_text ChangeOperation.moved change w = ly.path change.node w
  details_text (ChangeOperation.unnamed n) change w = []

  abbrev pub change_text : Change Node → W → Text
  change_text change w =
      print_change_operation change.operation
      ++ (codes ": " ++ details_text change.operation change w)

  print_details_lem :
      (operation : ChangeOperation) (change : Change Node) (c : Console W)
      → print_details ly operation change c
        ≡ (ok tt, printed (details_text operation change c.lib) c)
  print_details_lem ChangeOperation.created change c = print_value_lem change.node c
  print_details_lem ChangeOperation.deleted change c = print_value_lem change.node c
  print_details_lem ChangeOperation.modified change c = rw (print_value_lem) (simp (append_assoc))
  print_details_lem ChangeOperation.moved change c = refl
  print_details_lem (ChangeOperation.unnamed n) change c = simp (append-nil)

  pub print_change_lem :
      (change : Change Node) (c : Console W)
      → print_change ly change c ≡ (ok tt, printed (change_text change c.lib) c)
  unfolding print_change
  print_change_lem change c = rw (print_details_lem) (simp (append_assoc))

  abbrev pub nodes_text : List Node → W → Text
  nodes_text [] w = []
  nodes_text (node ∷ rest) w = node_text node w ++ nodes_text rest w

  print_nodes_lem :
      (nodes : List Node) (c : Console W)
      → print_nodes ly nodes c ≡ (ok tt, printed (nodes_text nodes c.lib) c)
  unfolding print_nodes
  print_nodes_lem [] c = simp (append-nil)
  print_nodes_lem (node ∷ rest) c = rw (print_value_lem, print_nodes_lem rest) (simp (append_assoc))

  -- All nodes below all siblings, each sibling's in turn.
  abbrev pub siblings_text : List Node → W → Text
  siblings_text [] w = []
  siblings_text (sibling ∷ rest) w =
      nodes_text (ly.children_dfs sibling w) w ++ siblings_text rest w

  pub print_siblings_lem :
      (siblings : List Node) (c : Console W)
      → print_siblings ly siblings c ≡ (ok tt, printed (siblings_text siblings c.lib) c)
  unfolding print_siblings
  print_siblings_lem [] c = simp (append-nil)
  print_siblings_lem (sibling ∷ rest) c =
      rw (print_nodes_lem, print_siblings_lem rest) (simp (append_assoc))
