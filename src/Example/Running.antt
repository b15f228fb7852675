-- ===== src/Example/Running.antt =====
-- The function main of src/examples/module_change_example.cpp.
use sysrepo_cpp.Base.{ℕ, List, [], ◌∷◌, ◌++◌, Option, none, some, Text, codes}
use sysrepo_cpp.Effects.{Eff, Result, pure, undefined_behaviour, noexcept, ◌>>=◌, ◌>>◌}
use sysrepo_cpp.Enums.Kinds.{LogLevel}
use sysrepo_cpp.Capi.{Sysrepo}
use sysrepo_cpp.Handles.{set_log_level_stderr}
use sysrepo_cpp.Connections.Defaults.{connect_default, session_start_default}
use sysrepo_cpp.Subscriptions.{Object}
use sysrepo_cpp.Subscriptions.Lifecycle.{destroy}
use sysrepo_cpp.Subscriptions.Defaults.{session_on_module_change_default}
use sysrepo_cpp.Example.{
  NodeReader, Console, newline, blank_line, in_lib, say, print_current_config,
}

-- What the program watches: the XPath, or else the module.
abbrev pub target : Text → Option Text → Text
target module_name none = module_name
target module_name (some xpath) = xpath

module _ {W Node : Type 0} (api : Sysrepo W Node) (ly : NodeReader W Node) where
  abbrev pub ended : Result (Unit {0}) × Object W → Result (Unit {0}) × W
  ended (r, o) = (r, o.lib)

  -- The end of the Subscription, which is a local variable.
  abbrev pub end_subscription : Object W → Eff W (Unit {0})
  end_subscription sub w = ended (destroy api (record sub { lib = w }))

  -- `pause` is all that happens until the signal comes, the calls of the callback included.
  unfoldable pub run : Eff (Console W) (Unit {0}) → Text → Option Text → Eff (Console W) ℕ
  run pause module_name xpath = do
    say (
        codes "Application will watch for changes in \""
        ++ (target module_name xpath ++ codes "\""))
    in_lib (set_log_level_stderr api LogLevel.warning)
    conn ← in_lib (connect_default api)
    session ← in_lib (session_start_default api conn)
    say (newline ++ (codes " ========== READING RUNNING CONFIG: ==========" ++ blank_line))
    print_current_config api ly session module_name
    sub ← in_lib (session_on_module_change_default api session.m_sess module_name 0 xpath)
    say (blank_line ++ (codes " ========== LISTENING FOR CHANGES ==========" ++ blank_line))
    pause
    say (codes "Application exit requested, exiting." ++ newline)
    in_lib (end_subscription sub)
    pure 0

  abbrev pub usage : Text → Eff (Console W) ℕ
  usage program = do
    say (program ++ (codes " <module-to-subscribe> [<xpath-to-subscribe>]" ++ newline))
    pure 1

  -- main, with the elements of argv. Without any element, argv[0] is null, and it is printed.
  unfoldable pub main : Eff (Console W) (Unit {0}) → List Text → Eff (Console W) ℕ
  unfolding run
  main pause [] = undefined_behaviour
  main pause (program ∷ []) = usage program
  main pause (program ∷ module_name ∷ []) = noexcept (run pause module_name none)
  main pause (program ∷ module_name ∷ xpath ∷ []) = noexcept (run pause module_name (some xpath))
  main pause (program ∷ a ∷ b ∷ c ∷ rest) = usage program
