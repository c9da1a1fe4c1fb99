-- ===== src/Tasks/Table.antt =====
-- TaskRepository (internal/infrastructure/database/repository/task_repository.go) as its queries
-- (internal/infrastructure/database/sqlc/tasks.sql.go) read and write the tables tasks and
-- task_attachments. The database is up: no query fails but an insertion under an id that is taken and
-- an update of a row that is missing. NOW() is the time in the task. PostgreSQL's search, its order,
-- LIMIT and OFFSET are parameters.
pub mod Uncalled
pub use go_clean_arch_poc.Tasks.Schema.{TaskRow, AttachmentRow, TaskDb, Postgres, keep_rows}
use go_clean_arch_poc.Tasks.QueryBuilder as QueryBuilder
use go_clean_arch_poc.Base.{
  ℕ, ◌+◌, ◌/◌, ◌%◌, zero, suc, GoString, Bool, true, false, not, ◌&&◌, Option, none, some, List, [],
  ◌∷◌, any, map, length, ◌==◌, ltb, str_eq, if◌then◌else◌,
}
use go_clean_arch_poc.Base.Int.{ℤ, pos, negsuc}
use go_clean_arch_poc.Domain.Error.{Error, Result, ok, err, ◌>>=◌}
use go_clean_arch_poc.Domain.Status.{TaskStatus}
use go_clean_arch_poc.Domain.Priority.{Priority}
use go_clean_arch_poc.Domain.Task.{Uuid, Time, Task}
use go_clean_arch_poc.Domain.Label.{Label}
use go_clean_arch_poc.Domain.TaskAttachment.{TaskAttachment}
use go_clean_arch_poc.Tasks.Ports.{
  TaskFilter, Pagination, PaginatedResult, TaskRepository, TaskAttachmentRepository,
  LabelRepository,
}

-- `if text != "" { value = &text }`
abbrev pub non_empty : GoString → Option GoString
non_empty text = if str_eq text [] then none else some text

abbrev pub or_else {ℓ} : {A : Type ℓ} → A → Option A → A
or_else x none = x
or_else x (some y) = y

unfoldable pub row_of : Task → TaskRow
row_of t = record {
  id = t.id;
  title = t.title;
  description = non_empty t.description;
  status = t.status;
  priority = t.priority;
  due_date = t.due_date;
  assignee_id = t.assignee_id;
  creator_id = t.creator_id;
  created_at = t.created_at;
  updated_at = t.updated_at;
}

unfoldable pub sqlc_task_to_entity : TaskRow → Task
sqlc_task_to_entity r = record {
  id = r.id;
  title = r.title;
  description = or_else [] r.description;
  status = r.status;
  priority = r.priority;
  due_date = r.due_date;
  assignee_id = r.assignee_id;
  creator_id = r.creator_id;
  labels = [];
  created_at = r.created_at;
  updated_at = r.updated_at;
}

-- COALESCE(description, old description); the other columns are never NULL, or take the NULL.
unfoldable pub updated_row : Task → TaskRow → TaskRow
updated_row t r = record r {
  title = t.title;
  description = elim (non_empty t.description) [ none ↦ r.description | some text ↦ some text ];
  status = t.status;
  priority = t.priority;
  due_date = t.due_date;
  assignee_id = t.assignee_id;
  updated_at = t.updated_at;
}

abbrev pub has_task : Uuid → List TaskRow → Bool
has_task id = any (λ r. r.id == id)

unfoldable pub task_row : Uuid → List TaskRow → Option TaskRow
task_row id [] = none
task_row id (r ∷ rs) = if r.id == id then some r else task_row id rs

unfoldable pub update_rows : Task → List TaskRow → List TaskRow
unfolding updated_row
update_rows t [] = []
update_rows t (r ∷ rs) =
    let rest = update_rows t rs in if r.id == t.id then updated_row t r ∷ rest else r ∷ rest

unfoldable pub attachment_row_of : TaskAttachment → AttachmentRow
attachment_row_of a = record {
  id = a.id;
  task_id = a.task_id;
  filename = a.filename;
  s3_key = a.s3_key;
  content_type = non_empty a.content_type;
  size_bytes = if ltb 0 a.size_bytes then some a.size_bytes else none;
  uploaded_by = if a.uploaded_by == 0 then none else some a.uploaded_by;
  created_at = a.created_at;
}

unfoldable pub sqlc_attachment_to_entity : AttachmentRow → TaskAttachment
sqlc_attachment_to_entity r = record {
  id = r.id;
  task_id = r.task_id;
  filename = r.filename;
  s3_key = r.s3_key;
  content_type = or_else [] r.content_type;
  size_bytes = or_else 0 r.size_bytes;
  uploaded_by = or_else 0 r.uploaded_by;
  created_at = r.created_at;
}

abbrev pub entity_of : Option TaskRow → Option Task
entity_of none = none
entity_of (some r) = some (sqlc_task_to_entity r)

unfoldable pub attachment_row : Uuid → List AttachmentRow → Option TaskAttachment
unfolding sqlc_attachment_to_entity
attachment_row id [] = none
attachment_row id (r ∷ rs) =
    if r.id == id then some (sqlc_attachment_to_entity r) else attachment_row id rs

-- The rows that FindAll asks for: those of the first field that is set, of the four it looks at.
unfoldable pub selected : Postgres → TaskFilter → TaskRow → Bool
selected pg filter r = elim filter.status [
  | some status ↦ str_eq r.status status
  | none ↦ elim filter.assignee_id [
    | some assignee ↦ elim r.assignee_id [ none ↦ false | some id ↦ id == assignee ]
    | none ↦ elim filter.creator_id [
      | some creator ↦ r.creator_id == creator
      | none ↦ if str_eq filter.search [] then true else pg.matches_text filter.search r
    ]
  ]
]

-- The number of pages. A page size of 0 panics in the source, and PostgreSQL refuses a negative LIMIT.
unfoldable pub total_pages : ℕ → ℤ → Result ℤ
total_pages total (pos zero) = err (Error.external 0)
total_pages total (negsuc _) = err (Error.external 2201)
total_pages total (pos (suc n)) =
    ok (pos (total / suc n + (if ltb 0 (total % suc n) then 1 else 0)))

unfoldable pub with_pages : Pagination → List Task → ℕ → Result (List Task × PaginatedResult)
unfolding total_pages
with_pages p tasks total = total_pages total p.page_size >>= λ pages.
    ok
      (tasks, record { total = total; page = p.page; page_size = p.page_size; total_pages = pages })

abbrev pub paginated : Pagination → List TaskRow → ℕ → Result (List Task × PaginatedResult)
unfolding with_pages sqlc_task_to_entity
paginated p rows total = with_pages p (map sqlc_task_to_entity rows) total

-- The total is of all tasks, whatever the filter.
unfoldable pub find_all :
    Postgres → TaskFilter → Pagination → TaskDb → Result (List Task × PaginatedResult)
unfolding selected with_pages sqlc_task_to_entity
find_all pg filter p d =
    pg.page p (keep_rows (selected pg filter) d.tasks) >>= λ rows. paginated p rows (length d.tasks)

unfoldable pub search :
    Postgres → GoString → Pagination → TaskDb → Result (List Task × PaginatedResult)
unfolding with_pages QueryBuilder.search
search pg query p d =
    QueryBuilder.search pg query p d.tasks >>= λ found. with_pages p found.0 found.1

unfoldable pub find_overdue :
    Postgres → Time → Pagination → TaskDb → Result (List Task × PaginatedResult)
unfolding with_pages QueryBuilder.find_overdue
find_overdue pg now p d =
    QueryBuilder.find_overdue pg now p d.tasks >>= λ found. with_pages p found.0 found.1

unfoldable pub table_repository : Postgres → TaskRepository TaskDb
unfolding row_of task_row update_rows find_all search find_overdue
table_repository pg = record {
  save = λ t d.
      if has_task t.id d.tasks
      then err (Error.external 23505)
      else ok (record d { tasks = row_of t ∷ d.tasks });
  update = λ t d.
      if has_task t.id d.tasks
      then ok (record d { tasks = update_rows t d.tasks })
      else err (Error.external 0);
  delete = λ id d. ok (record d {
    tasks = keep_rows (λ r. not (r.id == id)) d.tasks;
    attachments = keep_rows (λ r. not (r.task_id == id)) d.attachments;
    task_labels = keep_rows (λ r. not (r.0 == id)) d.task_labels;
  });
  find_by_id = λ id d. ok (entity_of (task_row id d.tasks));
  exists_by_id = λ id d. ok (has_task id d.tasks);
  find_all = find_all pg;
  search = search pg;
  find_overdue = find_overdue pg;
}

unfoldable pub attachment_repository : TaskAttachmentRepository TaskDb
unfolding attachment_row_of attachment_row
attachment_repository = record {
  save_attachment = λ a d.
      if any (λ r. r.id == a.id) d.attachments
      then err (Error.external 23505)
      else if has_task a.task_id d.tasks
      then ok (record d { attachments = attachment_row_of a ∷ d.attachments })
      else err (Error.external 23503);
  find_attachment_by_id = λ id d. ok (attachment_row id d.attachments);
  find_attachments_by_task_id =
      λ id d. ok (map sqlc_attachment_to_entity (keep_rows (λ r. r.task_id == id) d.attachments));
  delete_attachment =
      λ id d. ok (record d { attachments = keep_rows (λ r. not (r.id == id)) d.attachments });
}

abbrev pub is_label_of : Uuid → Label → Uuid × Uuid → Bool
is_label_of task_id l r = r.0 == task_id && r.1 == l.id

-- The part of LabelRepository (label_repository.go) that reads the labels of a task.
unfoldable pub task_label_repository : LabelRepository TaskDb
task_label_repository = record {
  exists_by_id = λ id d. ok (any (λ l. l.id == id) d.labels);
  find_by_task_id = λ id d. ok (keep_rows (λ l. any (is_label_of id l) d.task_labels) d.labels);
}
