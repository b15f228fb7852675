-- ===== src/Enums/Kinds.antt =====
-- The enumerations of include/sysrepo-cpp/Enum.hpp but ErrorCode, and the casts of src/utils/enum.hpp
-- between them and the numbers of the C library. An `enum class` over uint32_t can hold any number:
-- `unnamed n` is the value n that no enumerator names.
use sysrepo_cpp.Base.{ℕ, zero, suc, Option, some, Text, codes}

-- Wraps sr_datastore_t.
pub data Datastore : Type 0 where
  startup running candidate operational factory_default : Datastore
  unnamed : ℕ → Datastore

unfoldable pub to_datastore : Datastore → ℕ
to_datastore Datastore.startup = 0
to_datastore Datastore.running = 1
to_datastore Datastore.candidate = 2
to_datastore Datastore.operational = 3
to_datastore Datastore.factory_default = 4
to_datastore (Datastore.unnamed n) = n

unfoldable pub as_datastore : ℕ → Datastore
as_datastore zero = Datastore.startup
as_datastore (suc zero) = Datastore.running
as_datastore (suc (suc zero)) = Datastore.candidate
as_datastore (suc (suc (suc zero))) = Datastore.operational
as_datastore (suc (suc (suc (suc zero)))) = Datastore.factory_default
as_datastore n = Datastore.unnamed n

-- Wraps sr_event_t.
pub data Event : Type 0 where
  update change done abort enabled rpc : Event
  unnamed : ℕ → Event

unfoldable pub event_value : Event → ℕ
event_value Event.update = 0
event_value Event.change = 1
event_value Event.done = 2
event_value Event.abort = 3
event_value Event.enabled = 4
event_value Event.rpc = 5
event_value (Event.unnamed n) = n

unfoldable pub to_event : ℕ → Event
to_event zero = Event.update
to_event (suc zero) = Event.change
to_event (suc (suc zero)) = Event.done
to_event (suc (suc (suc zero))) = Event.abort
to_event (suc (suc (suc (suc zero)))) = Event.enabled
to_event (suc (suc (suc (suc (suc zero))))) = Event.rpc
to_event n = Event.unnamed n

-- Wraps sr_move_position_t.
pub data MovePosition : Type 0 where
  before after first last : MovePosition
  unnamed : ℕ → MovePosition

unfoldable pub to_move_position : MovePosition → ℕ
to_move_position MovePosition.before = 0
to_move_position MovePosition.after = 1
to_move_position MovePosition.first = 2
to_move_position MovePosition.last = 3
to_move_position (MovePosition.unnamed n) = n

unfoldable pub as_move_position : ℕ → MovePosition
as_move_position zero = MovePosition.before
as_move_position (suc zero) = MovePosition.after
as_move_position (suc (suc zero)) = MovePosition.first
as_move_position (suc (suc (suc zero))) = MovePosition.last
as_move_position n = MovePosition.unnamed n

-- Wraps sr_change_oper_t.
pub data ChangeOperation : Type 0 where
  created modified deleted moved : ChangeOperation
  unnamed : ℕ → ChangeOperation

unfoldable pub change_operation_value : ChangeOperation → ℕ
change_operation_value ChangeOperation.created = 0
change_operation_value ChangeOperation.modified = 1
change_operation_value ChangeOperation.deleted = 2
change_operation_value ChangeOperation.moved = 3
change_operation_value (ChangeOperation.unnamed n) = n

unfoldable pub to_change_oper : ℕ → ChangeOperation
to_change_oper zero = ChangeOperation.created
to_change_oper (suc zero) = ChangeOperation.modified
to_change_oper (suc (suc zero)) = ChangeOperation.deleted
to_change_oper (suc (suc (suc zero))) = ChangeOperation.moved
to_change_oper n = ChangeOperation.unnamed n

-- Wraps sr_log_level_t.
pub data LogLevel : Type 0 where
  none error warning information debug : LogLevel
  unnamed : ℕ → LogLevel

unfoldable pub to_log_level : LogLevel → ℕ
to_log_level LogLevel.none = 0
to_log_level LogLevel.error = 1
to_log_level LogLevel.warning = 2
to_log_level LogLevel.information = 3
to_log_level LogLevel.debug = 4
to_log_level (LogLevel.unnamed n) = n

unfoldable pub as_log_level : ℕ → LogLevel
as_log_level zero = LogLevel.none
as_log_level (suc zero) = LogLevel.error
as_log_level (suc (suc zero)) = LogLevel.warning
as_log_level (suc (suc (suc zero))) = LogLevel.information
as_log_level (suc (suc (suc (suc zero)))) = LogLevel.debug
as_log_level n = LogLevel.unnamed n

-- Wraps sr_ev_notif_type_t.
pub data NotificationType : Type 0 where
  realtime replay replay_complete terminated modified suspended resumed : NotificationType
  unnamed : ℕ → NotificationType

unfoldable pub notification_type_value : NotificationType → ℕ
notification_type_value NotificationType.realtime = 0
notification_type_value NotificationType.replay = 1
notification_type_value NotificationType.replay_complete = 2
notification_type_value NotificationType.terminated = 3
notification_type_value NotificationType.modified = 4
notification_type_value NotificationType.suspended = 5
notification_type_value NotificationType.resumed = 6
notification_type_value (NotificationType.unnamed n) = n

unfoldable pub to_notification_type : ℕ → NotificationType
to_notification_type zero = NotificationType.realtime
to_notification_type (suc zero) = NotificationType.replay
to_notification_type (suc (suc zero)) = NotificationType.replay_complete
to_notification_type (suc (suc (suc zero))) = NotificationType.terminated
to_notification_type (suc (suc (suc (suc zero)))) = NotificationType.modified
to_notification_type (suc (suc (suc (suc (suc zero))))) = NotificationType.suspended
to_notification_type (suc (suc (suc (suc (suc (suc zero)))))) = NotificationType.resumed
to_notification_type n = NotificationType.unnamed n

-- The operations of an edit batch; the C library takes a text. There is no text for a value without a
-- name: __builtin_unreachable.
pub data DefaultOperation : Type 0 where
  merge replace none : DefaultOperation
  unnamed : ℕ → DefaultOperation

unfoldable pub to_default_operation : DefaultOperation → Option Text
to_default_operation merge = some (codes "merge")
to_default_operation replace = some (codes "replace")
to_default_operation DefaultOperation.none = some (codes "none")
to_default_operation (DefaultOperation.unnamed n) = Option.none

-- operator<<
unfoldable pub print_notification_type : NotificationType → Text
print_notification_type NotificationType.realtime = codes "sysrepo::NotificationType::Realtime"
print_notification_type NotificationType.replay = codes "sysrepo::NotificationType::Replay"
print_notification_type NotificationType.replay_complete =
    codes "sysrepo::NotificationType::ReplayComplete"
print_notification_type NotificationType.terminated = codes "sysrepo::NotificationType::Terminated"
print_notification_type NotificationType.modified = codes "sysrepo::NotificationType::Modified"
print_notification_type NotificationType.suspended = codes "sysrepo::NotificationType::Suspended"
print_notification_type NotificationType.resumed = codes "sysrepo::NotificationType::Resumed"
print_notification_type (NotificationType.unnamed n) = codes "[unknown event type]"

unfoldable pub print_event : Event → Text
print_event Event.update = codes "sysrepo::Event::Update"
print_event Event.change = codes "sysrepo::Event::Change"
print_event Event.done = codes "sysrepo::Event::Done"
print_event Event.abort = codes "sysrepo::Event::Abort"
print_event Event.enabled = codes "sysrepo::Event::Enabled"
print_event Event.rpc = codes "sysrepo::Event::RPC"
print_event (Event.unnamed n) = codes "[unknown event type]"

unfoldable pub print_change_operation : ChangeOperation → Text
print_change_operation ChangeOperation.created = codes "sysrepo::ChangeOperation::Created"
print_change_operation ChangeOperation.modified = codes "sysrepo::ChangeOperation::Modified"
print_change_operation ChangeOperation.deleted = codes "sysrepo::ChangeOperation::Deleted"
print_change_operation ChangeOperation.moved = codes "sysrepo::ChangeOperation::Moved"
print_change_operation (ChangeOperation.unnamed n) = codes "[unknown change operation type]"
