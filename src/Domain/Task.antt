-- ===== src/Domain/Task.antt =====
-- The Task aggregate (internal/domain/entity/task.go). A method that mutates `*Task` returns the new
-- record; one that may fail changes nothing before it fails, and returns a `Result`. `time.Now()`
-- and `uuid.New()` are arguments. Identifiers and times are numbers.
pub mod Transitions
pub mod Labels
pub mod Lifecycle
use go_clean_arch_poc.Base.{
  ℕ, GoString, Bool, true, false, not, ◌||◌, ◌&&◌, Option, none, some, List, [], ◌∷◌, ◌++◌, any,
  ltb, ◌==◌, str_eq, is_some, if◌then◌else◌,
}
use go_clean_arch_poc.Domain.Error.{Error, EntityError, Result, ok, err}
use go_clean_arch_poc.Domain.Status
use go_clean_arch_poc.Domain.Status.{TaskStatus, done, archived}
use go_clean_arch_poc.Domain.Priority
use go_clean_arch_poc.Domain.Priority.{Priority}

-- The sixteen bytes of a UUID as a number; `uuid.Nil` is 0.
abbrev pub Uuid : Type 0
Uuid = ℕ

-- Nanoseconds since Go's zero time.
abbrev pub Time : Type 0
Time = ℕ

pub record Task : Type 0 where
  pub id : Uuid
  pub title : GoString
  pub description : GoString
  pub status : TaskStatus
  pub priority : Priority
  pub due_date : Option Time
  pub assignee_id : Option Uuid
  pub creator_id : Uuid
  pub labels : List Uuid
  pub created_at : Time
  pub updated_at : Time

unfoldable pub new_task : Time → Uuid → GoString → GoString → Priority → Uuid → Result Task
new_task now id title description priority creator_id =
    if str_eq title []
    then err (Error.entity EntityError.empty_title)
    else if not (Priority.is_valid priority)
    then err (Error.entity EntityError.invalid_priority)
    else ok (record {
      id = id;
      title = title;
      description = description;
      status = Status.todo;
      priority = priority;
      due_date = none;
      assignee_id = none;
      creator_id = creator_id;
      labels = [];
      created_at = now;
      updated_at = now;
    })

unfoldable pub complete : Time → Task → Result Task
complete now t =
    if str_eq t.status archived
    then err (Error.entity EntityError.task_archived)
    else ok (record t { status = done; updated_at = now })

unfoldable pub archive : Time → Task → Result Task
archive now t =
    if not (str_eq t.status done)
    then err (Error.entity EntityError.task_not_done)
    else ok (record t { status = archived; updated_at = now })

unfoldable pub assign : Time → Uuid → Task → Result Task
assign now assignee_id t =
    if str_eq t.status archived
    then err (Error.entity EntityError.task_archived)
    else ok (record t { assignee_id = some assignee_id; updated_at = now })

unfoldable pub unassign : Time → Task → Task
unassign now t = record t { assignee_id = none; updated_at = now }

unfoldable pub change_status : Time → TaskStatus → Task → Result Task
change_status now status t =
    if str_eq t.status archived
    then err (Error.entity EntityError.task_archived)
    else if not (Status.is_valid status)
    then err (Error.entity EntityError.invalid_status)
    else if str_eq t.status done && not (str_eq status archived)
    then err (Error.entity EntityError.invalid_status_transition)
    else ok (record t { status = status; updated_at = now })

unfoldable pub update_title : Time → GoString → Task → Result Task
update_title now title t =
    if str_eq title []
    then err (Error.entity EntityError.empty_title)
    else ok (record t { title = title; updated_at = now })

unfoldable pub update_description : Time → GoString → Task → Task
update_description now description t = record t { description = description; updated_at = now }

unfoldable pub update_priority : Time → Priority → Task → Result Task
update_priority now priority t =
    if not (Priority.is_valid priority)
    then err (Error.entity EntityError.invalid_priority)
    else ok (record t { priority = priority; updated_at = now })

unfoldable pub set_due_date : Time → Time → Task → Task
set_due_date now due_date t = record t { due_date = some due_date; updated_at = now }

unfoldable pub clear_due_date : Time → Task → Task
clear_due_date now t = record t { due_date = none; updated_at = now }

-- The loop of AddLabel: is the label there?
abbrev pub has_label : Uuid → List Uuid → Bool
has_label label_id = any (λ id. id == label_id)

unfoldable pub add_label : Time → Uuid → Task → Task
add_label now label_id t =
    if has_label label_id t.labels
    then t
    else record t { labels = t.labels ++ label_id ∷ []; updated_at = now }

-- `append(labels[:i], labels[i+1:]...)` at the first index of the label.
unfoldable pub remove_first : Uuid → List Uuid → List Uuid
remove_first label_id [] = []
remove_first label_id (id ∷ ids) =
    let rest = remove_first label_id ids in if id == label_id then ids else id ∷ rest

unfoldable pub remove_label : Time → Uuid → Task → Task
unfolding remove_first
remove_label now label_id t =
    if has_label label_id t.labels
    then record t { labels = remove_first label_id t.labels; updated_at = now }
    else t

-- `now.After(due)` is `due < now`.
unfoldable pub is_overdue : Time → Task → Bool
is_overdue now t = elim t.due_date [
  | none ↦ false
  | some due ↦ if str_eq t.status done || str_eq t.status archived then false else ltb due now
]

unfoldable pub is_assigned : Task → Bool
is_assigned t = is_some t.assignee_id

unfoldable pub can_be_modified_by : Uuid → Task → Bool
can_be_modified_by user_id t =
    if t.creator_id == user_id
    then true
    else elim t.assignee_id [ none ↦ false | some assignee ↦ assignee == user_id ]
