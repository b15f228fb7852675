-- ===== src/Example/Looping.antt =====
-- What the loop of the example prints of the changes that the C library hands out.
use mathlib.Core.List.{append_assoc, append-nil}
use sysrepo_cpp.Base.{
  ℕ, zero, suc, ◌<◌, ◌≡◌, ◌∙◌, List, [], ◌∷◌, ◌++◌, Option, none, some, Text, arith, length,
}
use sysrepo_cpp.Effects.{Eff, ok, ◌>>=◌}
use sysrepo_cpp.Capi.{Sysrepo, RawChange}
use sysrepo_cpp.Changes.{Change, wrap_change, increment, deref, iterator_eq}
use sysrepo_cpp.Changes.Loop.{HandsOut, drained, iterator_at, increment_next, increment_last}
use sysrepo_cpp.Example.Printing.{change_text, print_change_lem}
use sysrepo_cpp.Example.{NodeReader, Console, in_lib, print_changes_from}

-- The library has gone on, and a text has been printed.
abbrev pub went_on : {W : Type 0} → W → Text → Console W → Console W
went_on w t c = record c { lib = w; out = c.out ++ t }

module _ {W Node : Type 0} (api : Sysrepo W Node) (ly : NodeReader W Node) where
  -- The changes that the iterator hands out from a state, each as it is printed when it is read.
  abbrev pub changes_text : ℕ → ℕ → List RawChange → W → Text
  changes_text sess iter [] w = []
  changes_text sess iter (raw ∷ cs) w =
      let w' = (api.sr_get_change_tree_next (some sess) (some iter) w).1 in
      change_text ly (wrap_change api raw) w' ++ changes_text sess iter cs w'

  print_from_current :
      (fuel sess iter : ℕ) (change : Change Node) (cs : List RawChange) (c : Console W)
      → HandsOut api sess iter cs c.lib
      → length cs < fuel
      → print_changes_from api ly (suc fuel) (iterator_at api sess iter (some change)) c ≡ (
        ok (some tt),
        went_on
            (drained api sess iter cs c.lib)
            (change_text ly change c.lib ++ changes_text sess iter cs c.lib)
            c,
      )
  unfolding print_changes_from deref iterator_eq
  print_from_current zero sess iter change cs c h lt = elim lt [ ]
  print_from_current (suc fuel) sess iter change [] c h lt =
      rw (print_change_lem, increment_last api sess iter (some change) c.lib h) (simp (append-nil))
  print_from_current (suc fuel) sess iter change (raw ∷ cs) c h lt =
      let w' = (api.sr_get_change_tree_next (some sess) (some iter) c.lib).1 in
      rw (print_change_lem, increment_next api sess iter (some change) raw c.lib h.0)
        (print_from_current fuel sess iter (wrap_change api raw) cs
            (went_on w' (change_text ly change c.lib) c) h.1 (omega (arith, lt))
          ∙ simp (append_assoc))

  -- The loop from the creation of the iterator.
  abbrev pub start_from : ℕ → ℕ → ℕ → Eff (Console W) (Option (Unit {0}))
  start_from fuel sess iter = do
    it ← in_lib (increment api (iterator_at api sess iter none))
    print_changes_from api ly fuel it

  pub print_from_first :
      (fuel sess iter : ℕ) (cs : List RawChange) (c : Console W)
      → HandsOut api sess iter cs c.lib
      → length cs < fuel
      → start_from (suc fuel) sess iter c ≡ (
        ok (some tt),
        went_on (drained api sess iter cs c.lib) (changes_text sess iter cs c.lib) c,
      )
  unfolding print_changes_from iterator_eq
  print_from_first fuel sess iter [] c h lt =
      rw (increment_last api sess iter none c.lib h) (simp (append-nil))
  print_from_first fuel sess iter (raw ∷ cs) c h lt =
      let w' = (api.sr_get_change_tree_next (some sess) (some iter) c.lib).1 in
      rw (increment_next api sess iter none raw c.lib h.0) (
        print_from_current fuel sess iter (wrap_change api raw) cs (record c { lib = w' }) h.1
          (omega (arith, lt)))
