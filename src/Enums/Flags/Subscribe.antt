-- ===== src/Enums/Flags/Subscribe.antt =====
-- The values of SubscribeOptions, in include/sysrepo-cpp/Enum.hpp.
use sysrepo_cpp.Base.{ℕ}

abbrev pub SubscribeOptions : Type 0
SubscribeOptions = ℕ

abbrev pub default : SubscribeOptions
default = 0

abbrev pub no_thread : SubscribeOptions
no_thread = 1

abbrev pub passive : SubscribeOptions
passive = 2

abbrev pub done_only : SubscribeOptions
done_only = 4

abbrev pub enabled : SubscribeOptions
enabled = 8

abbrev pub update : SubscribeOptions
update = 16

abbrev pub oper_merge : SubscribeOptions
oper_merge = 32

abbrev pub thread_suspend : SubscribeOptions
thread_suspend = 64

-- The cast to the underlying number.
abbrev pub to_subscribe_options : SubscribeOptions → ℕ
to_subscribe_options opts = opts
