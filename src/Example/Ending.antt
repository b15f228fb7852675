-- ===== src/Example/Ending.antt =====
-- How the example ends.
use sysrepo_cpp.Base.{Bool, ℕ, ◌≡◌, refl, List, [], ◌∷◌, ◌++◌, Option, none, some, Text, codes}
use sysrepo_cpp.Effects.{Eff, Result, ok}
use sysrepo_cpp.Capi.{Sysrepo}
use sysrepo_cpp.Errors.{throw_if_error_bare}
use sysrepo_cpp.Handles.{set_log_level_stderr}
use sysrepo_cpp.Connections.{connect, session_start}
use sysrepo_cpp.Enums.Kinds.{Datastore, to_datastore, to_log_level}
use sysrepo_cpp.Subscriptions.{Object}
use sysrepo_cpp.Subscriptions.Lifecycle.{destroy, session_on_module_change}
use sysrepo_cpp.Subscriptions.Histories.{
  ExtendsContexts, Reach, then_step, outside_step, destroy-Reach,
}
use sysrepo_cpp.Subscriptions.Quiet.{Quiet}
use sysrepo_cpp.Subscriptions.Returning.{HasPipes, Unregisters, Released-Quiet}
use sysrepo_cpp.Subscriptions.Freeing.{AllFreed, destroy-AllFreed}
use sysrepo_cpp.Subscriptions.Creating.{Creates, sessions-Creates}
use mathlib.Core.Path.{subst}
use sysrepo_cpp.Example.{NodeReader, Console, newline, blank_line, print_current_config}
use sysrepo_cpp.Example.Running.{target, run, main}

abbrev pub arguments : Text → Text → Option Text → List Text
arguments program module_name none = program ∷ module_name ∷ []
arguments program module_name (some xpath) = program ∷ module_name ∷ xpath ∷ []

abbrev pub watch_text : Text → Option Text → Text
watch_text module_name xpath =
    codes "Application will watch for changes in \"" ++ (target module_name xpath ++ codes "\"")

abbrev pub reading_text : Text
reading_text = newline ++ (codes " ========== READING RUNNING CONFIG: ==========" ++ blank_line)

abbrev pub listening_text : Text
listening_text = blank_line ++ (codes " ========== LISTENING FOR CHANGES ==========" ++ blank_line)

abbrev pub exit_text : Text
exit_text = codes "Application exit requested, exiting." ++ newline

module _ {W Node : Type 0} (api : Sysrepo W Node) (ly : NodeReader W Node) where
  -- The Subscription at the end of main.
  abbrev pub at_end : Object W → W → Object W
  at_end sub w = record sub { lib = w }

  run_lem :
      (pause : Eff (Console W) (Unit {0})) (name : Text) (xpath : Option Text) (ctx sess : ℕ)
      (sub : Object W) (w1 w2 w4 : W) (c c3 c5 : Console W)
      → api.sr_connect 0 (api.sr_log_stderr 2 c.lib) ≡ ((0, ctx), w1)
      → api.sr_session_start ctx (to_datastore Datastore.running) w1 ≡ ((0, sess), w2)
      → print_current_config api ly
          (record { m_conn = ctx; m_sess = sess })
          name
          (record c { lib = w2; out = (c.out ++ watch_text name xpath) ++ reading_text })
        ≡ (ok tt, c3)
      → session_on_module_change api sess name 0 xpath 0 0 none c3.lib ≡ (ok sub, w4)
      → pause (record c3 { lib = w4; out = c3.out ++ listening_text }) ≡ (ok tt, c5)
      → (destroy api (at_end sub c5.lib)).0 ≡ ok tt
      → run api ly pause name xpath c ≡ (
        ok 0,
        record c5 { lib = (destroy api (at_end sub c5.lib)).1.lib; out = c5.out ++ exit_text },
      )
  unfolding run connect session_start set_log_level_stderr throw_if_error_bare to_log_level
  run_lem pause name xpath ctx sess sub w1 w2 w4 c c3 c5 e1 e2 e3 e4 e5 e6 =
      rw (e1, e2, e3, e4, e5, e6) refl

  main-run :
      (pause : Eff (Console W) (Unit {0})) (program name : Text) (xpath : Option Text)
      (c c' : Console W)
      → run api ly pause name xpath c ≡ (ok 0, c')
      → main api ly pause (arguments program name xpath) c ≡ (ok 0, c')
  unfolding main
  main-run pause program name none c c' e = rw e refl
  main-run pause program name (some xpath) c c' e = rw e refl

  created-Reach :
      (passes : Bool) (before : W) (tried : Result (Unit {0}) × Object W)
      (r : Result (Object W) × W) (sub : Object W) (w : W)
      → r ≡ (ok sub, w)
      → Creates api passes before tried r
      → Reach api sub
  created-Reach passes before tried r sub w e made =
      (subst (Creates api passes before tried) e made).2

  -- Let the C library hand a context that it gets back from a subscribing function, and let every
  -- context have its event pipe. Let the program be called with a module and perhaps an XPath, let
  -- it connect, start a session, print the current configuration and subscribe, and let pause
  -- return, whatever happens to the C library meanwhile; and if the object had an event loop, let
  -- that end its polling. Then main returns 0 with the text of its end as the last one printed. The
  -- destructor of the Subscription has returned: the C library holds no callback of it, none was
  -- freed while it was held, and all memory of the object has been freed once.
  pub main_ends :
      (pause : Eff (Console W) (Unit {0})) (program name : Text) (xpath : Option Text)
      (ctx sess : ℕ) (sub : Object W) (w1 w2 w4 : W) (c c3 c5 : Console W)
      → ExtendsContexts api
      → HasPipes api
      → Unregisters api sub.self.custom_event_loop_cbs
      → api.sr_connect 0 (api.sr_log_stderr 2 c.lib) ≡ ((0, ctx), w1)
      → api.sr_session_start ctx (to_datastore Datastore.running) w1 ≡ ((0, sess), w2)
      → print_current_config api ly
          (record { m_conn = ctx; m_sess = sess })
          name
          (record c { lib = w2; out = (c.out ++ watch_text name xpath) ++ reading_text })
        ≡ (ok tt, c3)
      → session_on_module_change api sess name 0 xpath 0 0 none c3.lib ≡ (ok sub, w4)
      → pause (record c3 { lib = w4; out = c3.out ++ listening_text }) ≡ (ok tt, c5)
      → let ended = (destroy api (at_end sub c5.lib)).1 in
        (main api ly pause (arguments program name xpath) c
          ≡ (ok 0, record c5 { lib = ended.lib; out = c5.out ++ exit_text }))
        × Quiet ended.log
        × AllFreed api ended.log
  main_ends pause program name xpath ctx sess sub w1 w2 w4 c c3 c5 laws pipes ends e1 e2 e3 e4 e5 =
      let made = (sessions-Creates api sess name 0 xpath 0 none none 0 none c3.lib laws).0 in
      let reached : Reach api (at_end sub c5.lib) =
        then_step sub (at_end sub c5.lib)
          (created-Reach _ c3.lib _ (session_on_module_change api sess name 0 xpath 0 0 none c3.lib)
            sub w4 e4 made)
          (outside_step c5.lib sub) in
      let freed = destroy-AllFreed api (at_end sub c5.lib) laws pipes ends reached in
      let ran = run_lem pause name xpath ctx sess sub w1 w2 w4 c c3 c5 e1 e2 e3 e4 e5 freed.0 in
      (
        main-run pause program name xpath c _ ran,
        Released-Quiet api (destroy api (at_end sub c5.lib))
            (destroy-Reach api (at_end sub c5.lib) laws reached) freed.0,
        freed.1,
      )
