-- ===== src/Domain/Event.antt =====
-- The events of tasks (internal/domain/event/task_events.go). The id and the time that NewBaseEvent
-- gives an event are left out.
use go_clean_arch_poc.Base.{GoString, bytes, Option, none, some}
use go_clean_arch_poc.Domain.Status
use go_clean_arch_poc.Domain.Status.{TaskStatus}
use go_clean_arch_poc.Domain.Priority.{Priority}
use go_clean_arch_poc.Domain.Task.{Uuid}

pub record TaskCreated : Type 0 where
  pub title : GoString
  pub description : GoString
  pub priority : Priority
  pub status : TaskStatus
  pub creator_id : Uuid

pub record TaskUpdated : Type 0 where
  pub title : Option GoString
  pub description : Option GoString
  pub priority : Option Priority
  pub status : Option TaskStatus
  pub updated_by : Uuid

pub record TaskStatusChanged : Type 0 where
  pub old_status : TaskStatus
  pub new_status : TaskStatus
  pub changed_by : Uuid

pub record TaskAttachmentCleanupRequested : Type 0 where
  pub attachment_id : Uuid
  pub object_key : GoString

-- What an event holds besides the id of its task. An id is of who acts; before it stands the assignee
-- or the label.
pub data Payload : Type 0 where
  created : TaskCreated → Payload
  updated : TaskUpdated → Payload
  deleted completed archived : Uuid → Payload
  assigned unassigned label_added label_removed : Uuid → Uuid → Payload
  status_changed : TaskStatusChanged → Payload
  attachment_cleanup_requested : TaskAttachmentCleanupRequested → Payload

pub record TaskEvent : Type 0 where
  pub aggregate_id : Uuid
  pub payload : Payload

abbrev pub attachment_cleanup_requested_type : GoString
attachment_cleanup_requested_type = bytes "task.attachment_cleanup_requested"

abbrev pub type_of : Payload → GoString
type_of (Payload.created _) = bytes "task.created"
type_of (Payload.updated _) = bytes "task.updated"
type_of (Payload.deleted _) = bytes "task.deleted"
type_of (Payload.completed _) = bytes "task.completed"
type_of (Payload.archived _) = bytes "task.archived"
type_of (Payload.assigned _ _) = bytes "task.assigned"
type_of (Payload.unassigned _ _) = bytes "task.unassigned"
type_of (Payload.label_added _ _) = bytes "task.label_added"
type_of (Payload.label_removed _ _) = bytes "task.label_removed"
type_of (Payload.status_changed _) = bytes "task.status_changed"
type_of (Payload.attachment_cleanup_requested _) = attachment_cleanup_requested_type

abbrev pub event_type : TaskEvent → GoString
event_type evt = type_of evt.payload

abbrev pub new_task_created : Uuid → GoString → GoString → Priority → Uuid → TaskEvent
new_task_created task_id title description priority creator_id = record {
  aggregate_id = task_id;
  payload = Payload.created (record {
    title = title;
    description = description;
    priority = priority;
    status = Status.todo;
    creator_id = creator_id;
  });
}

abbrev pub new_task_updated : Uuid → TaskUpdated
new_task_updated updated_by = record {
  title = none;
  description = none;
  priority = none;
  status = none;
  updated_by = updated_by;
}

abbrev pub with_title : GoString → TaskUpdated → TaskUpdated
with_title title e = record e { title = some title }

abbrev pub with_priority : Priority → TaskUpdated → TaskUpdated
with_priority priority e = record e { priority = some priority }

abbrev pub new_task_status_changed : Uuid → TaskStatus → TaskStatus → Uuid → TaskEvent
new_task_status_changed task_id old_status new_status changed_by = record {
  aggregate_id = task_id;
  payload =
      Payload.status_changed
        (record { old_status = old_status; new_status = new_status; changed_by = changed_by });
}

abbrev pub new_task_attachment_cleanup_requested : Uuid → Uuid → GoString → TaskEvent
new_task_attachment_cleanup_requested task_id attachment_id object_key = record {
  aggregate_id = task_id;
  payload =
      Payload.attachment_cleanup_requested
        (record { attachment_id = attachment_id; object_key = object_key });
}
