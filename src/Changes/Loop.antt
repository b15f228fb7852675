-- ===== src/Changes/Loop.antt =====
-- A range-for loop over the changes sees each change that the C library hands out, once and in order.
use sysrepo_cpp.Base.{
  ℕ, zero, suc, ◌<◌, ◌≡◌, ◌≢◌, ◌++◌, List, [], ◌∷◌, Option, none, some, Text, map, codes, arith,
  length,
}
use sysrepo_cpp.Effects.{Result, ok, throws, c_str, ◌>>=◌, error_with_code}
use sysrepo_cpp.Capi.{Sysrepo, RawChange}
use sysrepo_cpp.Errors.{throw_if_error, error_head}
use sysrepo_cpp.Enums.Codes.{as_error_code}
use sysrepo_cpp.Errors.Throwing.{throw_if_error_lem, retrieval_code, session_text}
use sysrepo_cpp.Changes.{
  Change, ChangeIterator, ChangeCollection, sr_err_not_found, wrap_change, increment, new_iterator,
  begin, deref, iterator_eq, collect_from, collect,
}

module _ {W Node : Type 0} (api : Sysrepo W Node) where
  -- From the state w the C library's iterator hands out the changes of the list, one at each call,
  -- and then returns the code `last`.
  abbrev pub EndsWith : ℕ → ℕ → ℕ → List RawChange → W → Type 0
  EndsWith last sess iter [] w = (api.sr_get_change_tree_next (some sess) (some iter) w).0.0 ≡ last
  EndsWith last sess iter (c ∷ cs) w =
      let got = api.sr_get_change_tree_next (some sess) (some iter) w in
      (got.0 ≡ (0, c)) × EndsWith last sess iter cs got.1

  -- It hands the changes out, and then says that there are no more.
  abbrev pub HandsOut : ℕ → ℕ → List RawChange → W → Type 0
  HandsOut = EndsWith sr_err_not_found

  -- The state when the loop has read all changes.
  abbrev pub drained : ℕ → ℕ → List RawChange → W → W
  drained sess iter [] w = (api.sr_get_change_tree_next (some sess) (some iter) w).1
  drained sess iter (c ∷ cs) w =
      drained sess iter cs (api.sr_get_change_tree_next (some sess) (some iter) w).1

  abbrev pub iterator_at : ℕ → ℕ → Option (Change Node) → ChangeIterator Node
  iterator_at sess iter c = record { current = c; iter = some iter; sess = some sess }

  pub increment_last :
      (sess iter : ℕ) (c : Option (Change Node)) (w : W)
      → HandsOut sess iter [] w
      → increment api (iterator_at sess iter c) w
        ≡ (ok (iterator_at sess iter none), drained sess iter [] w)
  unfolding increment
  increment_last sess iter c w h = ground arith

  pub increment_next :
      (sess iter : ℕ) (c : Option (Change Node)) (raw : RawChange) (w : W)
      → (api.sr_get_change_tree_next (some sess) (some iter) w).0 ≡ (0, raw)
      → increment api (iterator_at sess iter c) w ≡ (
        ok (iterator_at sess iter (some (wrap_change api raw))),
        (api.sr_get_change_tree_next (some sess) (some iter) w).1,
      )
  unfolding increment throw_if_error
  increment_next sess iter c raw w h = ground arith

  collect_from_current :
      (fuel sess iter : ℕ) (c : Change Node) (cs : List RawChange) (w : W)
      → HandsOut sess iter cs w
      → length cs < fuel
      → (collect_from api (suc fuel) (iterator_at sess iter (some c)) w
          ≡ (ok (some (c ∷ map (wrap_change api) cs)), drained sess iter cs w))
  unfolding collect_from deref iterator_eq
  collect_from_current zero sess iter c cs w h lt = elim lt [ ]
  collect_from_current (suc fuel) sess iter c [] w h lt =
      ground (arith, increment_last sess iter (some c) w h)
  collect_from_current (suc fuel) sess iter c (raw ∷ cs) w h lt = ground (
    arith,
    increment_next sess iter (some c) raw w h.0,
    collect_from_current fuel sess iter (wrap_change api raw) cs
        (api.sr_get_change_tree_next (some sess) (some iter) w).1 h.1,
  )

  collect_from_first :
      (fuel sess iter : ℕ) (cs : List RawChange) (w : W)
      → HandsOut sess iter cs w
      → length cs < fuel
      → (increment api (iterator_at sess iter none) >>= collect_from api (suc fuel)) w
        ≡ (ok (some (map (wrap_change api) cs)), drained sess iter cs w)
  unfolding collect_from iterator_eq
  collect_from_first zero sess iter cs w h lt = elim lt [ ]
  collect_from_first (suc fuel) sess iter [] w h lt =
      ground (arith, increment_last sess iter none w h)
  collect_from_first (suc fuel) sess iter (raw ∷ cs) w h lt = ground (
    arith,
    increment_next sess iter none raw w h.0,
    collect_from_current (suc fuel) sess iter (wrap_change api raw) cs
        (api.sr_get_change_tree_next (some sess) (some iter) w).1 h.1,
  )

  -- The state in which the iterator of a collection has been created.
  abbrev pub iterated : ChangeCollection → W → W
  iterated changes w = (api.sr_get_changes_iter changes.sess (c_str changes.xpath) w).1

  -- When the C library creates an iterator that hands out a list of changes, a loop over the
  -- collection visits exactly these changes, each once and in the order of the list, and ends; two
  -- rounds more than there are changes are enough. It leaves the library in the state in which all
  -- changes are read.
  pub collect_lem :
      (fuel iter : ℕ) (changes : ChangeCollection) (cs : List RawChange) (w : W)
      → (api.sr_get_changes_iter changes.sess (c_str changes.xpath) w).0 ≡ (0, iter)
      → HandsOut changes.sess iter cs (iterated changes w)
      → suc (length cs) < fuel
      → collect api fuel changes w
        ≡ (ok (some (map (wrap_change api) cs)), drained changes.sess iter cs (iterated changes w))
  unfolding collect begin new_iterator throw_if_error
  collect_lem zero iter changes cs w created h lt = elim lt [ ]
  collect_lem (suc fuel) iter changes cs w created h lt =
      ground (arith, collect_from_first fuel changes.sess iter cs (iterated changes w) h)

  -- The state in which the call that ends the loop has returned, and the message of its exception.
  abbrev pub loop_message : Text
  loop_message = codes "Could not iterate to the next change"

  -- The exception of a code that ends the loop early.
  abbrev pub StopsWith : {A : Type 0} → ℕ → ℕ → W → Result A × W → Type 0
  StopsWith last sess w r = r ≡ (
    throws (
        error_with_code (error_head last loop_message ++ session_text api (some sess) w)
          (as_error_code last)),
    w,
  )

  increment_fails :
      (last sess iter : ℕ) (c : Option (Change Node)) (w : W)
      → last ≢ 0
      → last ≢ sr_err_not_found
      → EndsWith last sess iter [] w
      → retrieval_code api (some sess) (drained sess iter [] w) ≡ none
      → StopsWith last sess (drained sess iter [] w) (increment api (iterator_at sess iter c) w)
  unfolding increment
  increment_fails last sess iter c w n m h ready =
      ground (arith, throw_if_error_lem api last loop_message (some sess) (drained sess iter [] w))

  collect_from_fails :
      (fuel last sess iter : ℕ) (c : Change Node) (cs : List RawChange) (w : W)
      → last ≢ 0
      → last ≢ sr_err_not_found
      → EndsWith last sess iter cs w
      → retrieval_code api (some sess) (drained sess iter cs w) ≡ none
      → length cs < fuel
      → StopsWith last sess
          (drained sess iter cs w)
          (collect_from api (suc fuel) (iterator_at sess iter (some c)) w)
  unfolding collect_from deref iterator_eq
  collect_from_fails zero last sess iter c cs w n m h ready lt = elim lt [ ]
  collect_from_fails (suc fuel) last sess iter c [] w n m h ready lt =
      ground (arith, increment_fails last sess iter (some c) w n m h ready)
  collect_from_fails (suc fuel) last sess iter c (raw ∷ cs) w n m h ready lt = ground (
    arith,
    increment_next sess iter (some c) raw w h.0,
    collect_from_fails fuel last sess iter (wrap_change api raw) cs
        (api.sr_get_change_tree_next (some sess) (some iter) w).1 n m h.1 ready,
  )

  -- When the C library's iterator hands out some changes and then fails with a code other than
  -- SR_ERR_NOT_FOUND, the loop does not end as if there were no more changes: it throws the
  -- exception of that code, provided that the errors of the session can be retrieved.
  pub collect_fails :
      (fuel last iter : ℕ) (changes : ChangeCollection) (raw : RawChange) (cs : List RawChange)
      (w : W)
      → last ≢ 0
      → last ≢ sr_err_not_found
      → (api.sr_get_changes_iter changes.sess (c_str changes.xpath) w).0 ≡ (0, iter)
      → EndsWith last changes.sess iter (raw ∷ cs) (iterated changes w)
      → retrieval_code api
          (some changes.sess)
          (drained changes.sess iter (raw ∷ cs) (iterated changes w))
        ≡ none
      → suc (length cs) < fuel
      → StopsWith last changes.sess
          (drained changes.sess iter (raw ∷ cs) (iterated changes w))
          (collect api fuel changes w)
  unfolding collect begin new_iterator throw_if_error
  collect_fails zero last iter changes raw cs w n m created h ready lt = elim lt [ ]
  collect_fails (suc fuel) last iter changes raw cs w n m created h ready lt = ground (
    arith,
    increment_next changes.sess iter none raw (iterated changes w) h.0,
    collect_from_fails fuel last changes.sess iter (wrap_change api raw) cs
        (api.sr_get_change_tree_next (some changes.sess) (some iter) (iterated changes w)).1 n m h.1
        ready,
  )
