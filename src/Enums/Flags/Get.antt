-- ===== src/Enums/Flags/Get.antt =====
-- The values of GetOptions, in include/sysrepo-cpp/Enum.hpp.
use sysrepo_cpp.Base.{ℕ}

abbrev pub GetOptions : Type 0
GetOptions = ℕ

abbrev pub default : GetOptions
default = 0

abbrev pub oper_no_state : GetOptions
oper_no_state = 1

abbrev pub oper_no_config : GetOptions
oper_no_config = 2

abbrev pub oper_no_pull_subscriptions : GetOptions
oper_no_pull_subscriptions = 4

abbrev pub oper_no_pushed_data : GetOptions
oper_no_pushed_data = 8

abbrev pub oper_with_origin : GetOptions
oper_with_origin = 0x10

abbrev pub oper_no_poll_subscriptions_cached : GetOptions
oper_no_poll_subscriptions_cached = 0x20

abbrev pub oper_no_running_cached : GetOptions
oper_no_running_cached = 0x40

abbrev pub no_filter : GetOptions
no_filter = 0x010000

-- The cast to the underlying number.
abbrev pub to_get_options : GetOptions → ℕ
to_get_options opts = opts
