-- ===== src/Changes.antt =====
-- ChangeCollection and ChangeIterator of src/Subscription.cpp: an input iterator over the changes
-- that the C library hands out one at a time.
pub mod Loop
pub mod Comparing
use sysrepo_cpp.Base.{
  ℕ, zero, suc, Bool, true, false, not, ◌&&◌, ◌||◌, List, [], ◌∷◌, Option, none, some, Text, codes,
  ◌==◌, if◌then◌else◌, has_value,
}
use sysrepo_cpp.Effects.{Eff, pure, throw, call, c_str, ◌>>=◌, ◌>>◌, out_of_range}
use sysrepo_cpp.Enums.Kinds.{ChangeOperation, to_change_oper}
use sysrepo_cpp.Capi.{Sysrepo, RawChange}
use sysrepo_cpp.Errors.{throw_if_error}

pub record Change (Node : Type 0) : Type 0 where
  pub operation : ChangeOperation
  pub node : Node
  pub previous_value : Option Text
  pub previous_list : Option Text
  pub previous_default : Bool

-- The pointers of the end iterator are null.
pub record ChangeIterator (Node : Type 0) : Type 0 where
  pub current : Option (Change Node)
  pub iter : Option ℕ
  pub sess : Option ℕ

pub record ChangeCollection : Type 0 where
  pub xpath : Text
  pub sess : ℕ

-- SR_ERR_NOT_FOUND, which src/Enum.cpp checks against the position of ErrorCode::NotFound.
abbrev pub sr_err_not_found : ℕ
sr_err_not_found = 5

abbrev pub end_iterator : {Node : Type 0} → ChangeIterator Node
end_iterator = record { current = none; iter = none; sess = none }

abbrev pub same_bool : Bool → Bool → Bool
same_bool true b = b
same_bool false b = not b

abbrev pub prepend : {A : Type 0} → A → Option (List A) → Option (List A)
prepend a none = none
prepend a (some l) = some (a ∷ l)

module _ {W Node : Type 0} (api : Sysrepo W Node) where
  unfoldable pub wrap_change : RawChange → Change Node
  wrap_change raw = record {
    operation = to_change_oper raw.operation;
    node = api.wrap_unmanaged_raw_node raw.node;
    previous_value = raw.prev_value;
    previous_list = raw.prev_list;
    previous_default = not (raw.prev_default == 0);
  }

  -- operator++
  unfoldable pub increment : ChangeIterator Node → Eff W (ChangeIterator Node)
  increment it = do
    got ← call (api.sr_get_change_tree_next it.sess it.iter)
    if got.0 == sr_err_not_found then pure (record it { current = none }) else (do
      throw_if_error api got.0 (codes "Could not iterate to the next change") it.sess
      pure (record it { current = some (wrap_change got.1) }))

  -- The first constructor of ChangeIterator.
  unfoldable pub new_iterator : ℕ → ℕ → Eff W (ChangeIterator Node)
  new_iterator iter sess = increment (record { current = none; iter = some iter; sess = some sess })

  -- begin
  unfoldable pub begin : ChangeCollection → Eff W (ChangeIterator Node)
  unfolding new_iterator
  begin changes = do
    got ← call (api.sr_get_changes_iter changes.sess (c_str changes.xpath))
    throw_if_error api got.0 (codes "Couldn't create an iterator for changes") (some changes.sess)
    new_iterator got.1 changes.sess

  -- operator++(int): the iterator before the step, and the one after it.
  unfoldable pub post_increment :
      ChangeIterator Node → Eff W (ChangeIterator Node × ChangeIterator Node)
  post_increment it = do next ← increment it; pure (it, next)

  abbrev pub same_node : Option (Change Node) → Option (Change Node) → Bool
  same_node none b = false
  same_node (some a) none = false
  same_node (some a) (some b) = api.node_eq a.node b.node

  -- operator==
  unfoldable pub iterator_eq : ChangeIterator Node → ChangeIterator Node → Bool
  iterator_eq a b =
      same_bool (has_value a.current) (has_value b.current)
      && (not (has_value a.current) || same_node a.current b.current)

  -- operator*, and operator-> alike
  unfoldable pub deref : ChangeIterator Node → Eff W (Change Node)
  deref it = elim it.current [
    | none ↦ throw (out_of_range (codes "Dereferenced an .end iterator"))
    | some change ↦ pure change
  ]

  -- `for (const auto& change : changes)`, collecting the changes; `none` means that the fuel ran out.
  unfoldable pub collect_from : ℕ → ChangeIterator Node → Eff W (Option (List (Change Node)))
  collect_from zero it = pure none
  collect_from (suc fuel) it =
      let rest = (do
        change ← deref it
        next ← increment it
        others ← collect_from fuel next
        pure (prepend change others)) in
      if iterator_eq it end_iterator then pure (some []) else rest

  unfoldable pub collect : ℕ → ChangeCollection → Eff W (Option (List (Change Node)))
  unfolding collect_from
  collect fuel changes = do it ← begin changes; collect_from fuel it
