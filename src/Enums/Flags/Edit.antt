-- ===== src/Enums/Flags/Edit.antt =====
-- The values of EditOptions, in include/sysrepo-cpp/Enum.hpp.
use sysrepo_cpp.Base.{ℕ}

abbrev pub EditOptions : Type 0
EditOptions = ℕ

abbrev pub default : EditOptions
default = 0

abbrev pub non_recursive : EditOptions
non_recursive = 1

abbrev pub strict : EditOptions
strict = 2

abbrev pub isolate : EditOptions
isolate = 4

-- The cast to the underlying number.
abbrev pub to_edit_options : EditOptions → ℕ
to_edit_options opts = opts
