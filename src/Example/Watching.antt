-- ===== src/Example/Watching.antt =====
-- What the callback of the example prints of the changes that the C library hands out.
use mathlib.Core.List.{append_assoc}
use sysrepo_cpp.Base.{
  ℕ, zero, suc, ◌<◌, ◌≡◌, ◌≢◌, ◌∙◌, ap, refl, List, ◌++◌, Option, none, some, Text, codes, arith,
  length,
}
use sysrepo_cpp.Base.Int.{pos}
use sysrepo_cpp.Effects.{
  Eff, Result, ok, throws, terminated, undefined, after, pure, c_str, ◌>>=◌, ◌>>◌,
}
use sysrepo_cpp.Enums.Codes.{ErrorCode}
use sysrepo_cpp.Enums.Kinds.{Event, print_event}
use sysrepo_cpp.Capi.{Sysrepo, RawChange}
use sysrepo_cpp.Errors.{throw_if_error}
use sysrepo_cpp.Handles.{Session}
use sysrepo_cpp.Sessions.Data.{get_data, get_changes}
use sysrepo_cpp.Changes.{increment, new_iterator, begin}
use sysrepo_cpp.Changes.Loop.{HandsOut, drained, iterator_at}
use sysrepo_cpp.Example.Looping.{changes_text, went_on, print_from_first}
use sysrepo_cpp.Example.Printing.{siblings_text, print_siblings_lem}
use sysrepo_cpp.Example.{
  NodeReader, Console, in_lib, blank_line, all_nodes, path_for_changes, print_current_config,
  print_changes_from, is_done, print_config_after, report, module_change_cb,
}

module _ {W Node : Type 0} (api : Sysrepo W Node) (ly : NodeReader W Node) where
  -- The heading, the changes and the end of the changes.
  abbrev pub report_text : Event → Text → Text
  report_text event changes =
      blank_line
      ++ (codes " ========== EVENT "
          ++ (print_event event
              ++ (codes " CHANGES: ===================================="
                  ++ (blank_line
                      ++ (changes
                          ++ (blank_line
                              ++ codes
                                  " ========== END OF CHANGES ======================================="))))))

  -- What follows when the event is Done.
  abbrev pub config_heading : Text
  config_heading =
      blank_line
      ++ (codes " ========== CONFIG HAS CHANGED, CURRENT RUNNING CONFIG: ==========" ++ blank_line)

  -- The state in which the iterator has been created.
  abbrev pub opened : Session → Text → Option Text → W → W
  opened session module_name sub_xpath w =
      (api.sr_get_changes_iter session.m_sess
        (c_str (c_str (path_for_changes module_name sub_xpath))) w).1

  after_assoc :
      {A B C : Type 0} (r : Result A × Console W) (k : A → Eff (Console W) B)
      (f : B → Eff (Console W) C)
      → after r (λ a. k a >>= f) ≡ after (after r k) f
  after_assoc (ok a, c) k f = refl
  after_assoc (throws e, c) k f = refl
  after_assoc (terminated, c) k f = refl
  after_assoc (undefined, c) k f = refl

  -- The state when the changes have been reported.
  abbrev pub reported :
      ℕ → Session → Text → Option Text → Event → List RawChange → Console W → Console W
  reported iter session module_name sub_xpath event cs c =
      let w = opened session module_name sub_xpath c.lib in
      went_on (drained api session.m_sess iter cs w)
        (report_text event (changes_text api ly session.m_sess iter cs w)) c

  -- What the callback does after that.
  abbrev conclude : Session → Text → Event → Eff (Console W) (Option ErrorCode)
  conclude session module_name event = do
    print_config_after api ly session module_name (is_done event)
    pure (some ErrorCode.ok)

  report_lem :
      (fuel iter id request : ℕ) (session : Session) (name : Text) (xpath : Option Text)
      (event : Event) (cs : List RawChange) (c : Console W)
      → (api.sr_get_changes_iter session.m_sess
          (c_str (c_str (path_for_changes name xpath)))
          c.lib).0
        ≡ (0, iter)
      → HandsOut api session.m_sess iter cs (opened session name xpath c.lib)
      → suc (length cs) < fuel
      → module_change_cb api ly fuel session id name xpath event request c
        ≡ conclude session name event (reported iter session name xpath event cs c)
  unfolding module_change_cb begin new_iterator throw_if_error get_changes
  report_lem zero iter id request session name xpath event cs c e h lt = elim lt [ ]
  report_lem (suc fuel) iter id request session name xpath event cs c e h lt =
      let w = opened session name xpath c.lib in
      let heading =
        blank_line
        ++ (codes " ========== EVENT "
            ++ (print_event event
                ++ (codes " CHANGES: ====================================" ++ blank_line))) in
      let c1 = went_on w heading c in
      rw e (
        simp (append_assoc) (
          after_assoc (in_lib (increment api (iterator_at api session.m_sess iter none)) c1)
            (print_changes_from api ly (suc fuel)) (report api ly session name event)
          ∙ ap (λ r. after r (report api ly session name event))
              (print_from_first api ly fuel session.m_sess iter cs c1 h (omega (arith, lt)))
          ∙ ap (conclude session name event) (simp (append_assoc))))

  quiet_otherwise :
      (session : Session) (name : Text) (event : Event) (c : Console W)
      → event ≢ Event.done
      → conclude session name event c ≡ (ok (some ErrorCode.ok), c)
  quiet_otherwise session name Event.done c n = elim (n refl) [ ]
  quiet_otherwise session name Event.update c n = refl
  quiet_otherwise session name Event.change c n = refl
  quiet_otherwise session name Event.abort c n = refl
  quiet_otherwise session name Event.enabled c n = refl
  quiet_otherwise session name Event.rpc c n = refl
  quiet_otherwise session name (Event.unnamed k) c n = refl

  -- Let the C library create an iterator for the path of the callback, the XPath of the
  -- subscription or that of the module, and let it hand out a list of changes. When the event is
  -- not Done, the callback prints the heading with the event, then each change of the list, once
  -- and in its order, as it reads it, and the end of the changes; it leaves the library where all
  -- changes are read, and returns Ok. Two rounds more than there are changes are enough.
  pub module_change_cb_changes :
      (fuel iter id request : ℕ) (session : Session) (name : Text) (xpath : Option Text)
      (event : Event) (cs : List RawChange) (c : Console W)
      → (api.sr_get_changes_iter session.m_sess
          (c_str (c_str (path_for_changes name xpath)))
          c.lib).0
        ≡ (0, iter)
      → HandsOut api session.m_sess iter cs (opened session name xpath c.lib)
      → suc (length cs) < fuel
      → event ≢ Event.done
      → module_change_cb api ly fuel session id name xpath event request c
        ≡ (ok (some ErrorCode.ok), reported iter session name xpath event cs c)
  module_change_cb_changes fuel iter id request session name xpath event cs c e h lt other =
      report_lem fuel iter id request session name xpath event cs c e h lt
      ∙ quiet_otherwise session name event (reported iter session name xpath event cs c) other

  -- When the event is Done and getData then returns a node, the callback prints the same, and after
  -- it the nodes below all siblings of that node; it leaves the library where getData has left it,
  -- and returns Ok.
  pub module_change_cb_config :
      (fuel iter id request : ℕ) (session : Session) (name : Text) (xpath : Option Text)
      (cs : List RawChange) (node : Node) (w : W) (c : Console W)
      → (api.sr_get_changes_iter session.m_sess
          (c_str (c_str (path_for_changes name xpath)))
          c.lib).0
        ≡ (0, iter)
      → HandsOut api session.m_sess iter cs (opened session name xpath c.lib)
      → suc (length cs) < fuel
      → get_data api session
          (c_str (all_nodes (c_str name)))
          (pos 0)
          0
          (pos 0)
          (reported iter session name xpath Event.done cs c).lib
        ≡ (ok (some node), w)
      → module_change_cb api ly fuel session id name xpath Event.done request c ≡ (
        ok (some ErrorCode.ok),
        went_on w
            (config_heading ++ siblings_text ly (ly.siblings node w) w)
            (reported iter session name xpath Event.done cs c),
      )
  unfolding print_current_config
  module_change_cb_config fuel iter id request session name xpath cs node w c e h lt got =
      report_lem fuel iter id request session name xpath Event.done cs c e h lt
      ∙ rw (got, print_siblings_lem) (simp (append_assoc))
