-- ===== src/Tasks/Schema.antt =====
-- The tables of tasks (migrations/000001_init.up.sql) as the repository and the query builder of
-- internal/infrastructure/database see them.
use go_clean_arch_poc.Base.{ℕ, GoString, Bool, Option, List, [], ◌∷◌, if◌then◌else◌}
use go_clean_arch_poc.Domain.Error.{Result}
use go_clean_arch_poc.Domain.Status.{TaskStatus}
use go_clean_arch_poc.Domain.Priority.{Priority}
use go_clean_arch_poc.Domain.Task.{Uuid, Time}
use go_clean_arch_poc.Domain.Label.{Label}
use go_clean_arch_poc.Tasks.Ports.{Pagination}

-- NULL is none.
pub record TaskRow : Type 0 where
  pub id : Uuid
  pub title : GoString
  pub description : Option GoString
  pub status : TaskStatus
  pub priority : Priority
  pub due_date : Option Time
  pub assignee_id : Option Uuid
  pub creator_id : Uuid
  pub created_at : Time
  pub updated_at : Time

pub record AttachmentRow : Type 0 where
  pub id : Uuid
  pub task_id : Uuid
  pub filename : GoString
  pub s3_key : GoString
  pub content_type : Option GoString
  pub size_bytes : Option ℕ
  pub uploaded_by : Option Uuid
  pub created_at : Time

-- A row of task_labels is the id of a task and the id of a label.
pub record TaskDb : Type 0 where
  pub tasks : List TaskRow
  pub attachments : List AttachmentRow
  pub task_labels : List (Uuid × Uuid)
  pub labels : List Label

-- What PostgreSQL does: the page of a query of sqlc, with its order; the text search of sqlc's
-- SearchTasks; `value ILIKE '%' || text || '%'`; the order of a column, downwards or not. And
-- strings.EqualFold.
pub record Postgres : Type 0 where
  pub page : Pagination → List TaskRow → Result (List TaskRow)
  pub matches_text : GoString → TaskRow → Bool
  pub ilike : GoString → GoString → Bool
  pub ordered : Option (GoString × Bool) → List TaskRow → List TaskRow
  pub equal_fold : GoString → GoString → Bool

abbrev pub keep_rows {ℓ} : {A : Type ℓ} → (A → Bool) → List A → List A
keep_rows p [] = []
keep_rows p (r ∷ rs) = let rest = keep_rows p rs in if p r then r ∷ rest else rest
