-- ===== src/Changes/Comparing.antt =====
-- Comparing iterators, and reading through them.
use sysrepo_cpp.Base.{
  ◌≡◌, ◌↔◌, refl, Bool, true, not, ◌&&◌, ◌||◌, Option, none, some, codes, arith, inl, inr,
  Option-cases, has_value,
}
use sysrepo_cpp.Effects.{throws, out_of_range}
use sysrepo_cpp.Capi.{Sysrepo}
use sysrepo_cpp.Changes.{
  Change, ChangeIterator, end_iterator, iterator_eq, deref, same_bool, same_node,
}

module _ {W Node : Type 0} (api : Sysrepo W Node) where
  -- Reading through an iterator changes nothing, and throws std::out_of_range exactly when the
  -- iterator compares equal to the end iterator.
  pub deref-iterator_eq :
      (it : ChangeIterator Node) (w : W)
      → ((deref api it w).1 ≡ w)
        × (((deref api it w).0 ≡ throws (out_of_range (codes "Dereferenced an .end iterator")))
            ↔ (iterator_eq api it end_iterator ≡ true))
  unfolding iterator_eq deref
  deref-iterator_eq it w = elim (Option-cases it.current) [
    | inl e ↦ (ground arith, (λ h. ground arith, λ h. ground arith))
    | inr (c, e) ↦ (ground arith, (λ h. ground arith, λ h. ground arith))
  ]

  -- libyang's comparison of nodes is an equivalence.
  pub record NodeEquivalence : Type 0 where
    pub reflexive : (a : Node) → api.node_eq a a ≡ true
    pub symmetric : (a b : Node) → api.node_eq a b ≡ api.node_eq b a
    pub transitive :
        (a b c : Node) → api.node_eq a b ≡ true → api.node_eq b c ≡ true → api.node_eq a c ≡ true

  -- operator== reads only the current changes.
  abbrev current_eq : Option (Change Node) → Option (Change Node) → Bool
  current_eq a b = same_bool (has_value a) (has_value b) && (not (has_value a) || same_node api a b)

  current_eq_refl : NodeEquivalence → (a : Option (Change Node)) → current_eq a a ≡ true
  current_eq_refl eq none = refl
  current_eq_refl eq (some a) = eq.reflexive a.node

  current_eq_sym : NodeEquivalence → (a b : Option (Change Node)) → current_eq a b ≡ current_eq b a
  current_eq_sym eq none none = refl
  current_eq_sym eq none (some b) = refl
  current_eq_sym eq (some a) none = refl
  current_eq_sym eq (some a) (some b) = eq.symmetric a.node b.node

  current_eq_trans :
      NodeEquivalence
      → (a b c : Option (Change Node)) → current_eq a b ≡ true
      → current_eq b c ≡ true
      → current_eq a c ≡ true
  current_eq_trans eq none none c h k = k
  current_eq_trans eq none (some b) c h k = cc
  current_eq_trans eq (some a) none c h k = cc
  current_eq_trans eq (some a) (some b) none h k = k
  current_eq_trans eq (some a) (some b) (some c) h k = eq.transitive a.node b.node c.node h k

  -- If the comparison of nodes is an equivalence, then so is the comparison of iterators.
  pub iterator_eq_equivalence :
      (a b c : ChangeIterator Node)
      → NodeEquivalence
      → (iterator_eq api a a ≡ true)
        × (iterator_eq api a b ≡ iterator_eq api b a)
        × (iterator_eq api a b ≡ true → iterator_eq api b c ≡ true → iterator_eq api a c ≡ true)
  unfolding iterator_eq
  iterator_eq_equivalence a b c eq = (
    current_eq_refl eq a.current,
    current_eq_sym eq a.current b.current,
    current_eq_trans eq a.current b.current c.current,
  )
