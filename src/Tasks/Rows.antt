-- ===== src/Tasks/Rows.antt =====
-- What TaskRepository (internal/infrastructure/database/repository/task_repository.go) gives back of what
-- it was given.
use go_clean_arch_poc.Base.{
  GoString, Bool, ◌≡◌, refl, arith, Option, none, some, List, [], ◌∷◌, ◌==◌, str_eq, if◌then◌else◌,
}
use go_clean_arch_poc.Domain.Error.{Result, ok, err}
use go_clean_arch_poc.Domain.Task.{Uuid, Task}
use go_clean_arch_poc.Domain.TaskAttachment.{TaskAttachment}
use go_clean_arch_poc.Tasks.Ports.{TaskFilter, Pagination}
use go_clean_arch_poc.Tasks.Table.{
  TaskRow, TaskDb, Postgres, row_of, sqlc_task_to_entity, updated_row, task_row, update_rows,
  attachment_row_of, sqlc_attachment_to_entity, attachment_row, selected, find_all, keep_rows,
  entity_of, table_repository, attachment_repository,
}

-- A task that was saved is found as it was, but for its labels.
pub find_by_id-save :
    (pg : Postgres) (t : Task) (d d' : TaskDb)
    → (table_repository pg).save t d ≡ ok d'
    → (table_repository pg).find_by_id t.id d' ≡ ok (some (record t { labels = [] }))
unfolding table_repository task_row row_of sqlc_task_to_entity
find_by_id-save pg t d d' h = ground arith

-- An attachment that was saved is found as it was.
pub find_attachment-save :
    (a : TaskAttachment) (d d' : TaskDb)
    → attachment_repository.save_attachment a d ≡ ok d'
    → attachment_repository.find_attachment_by_id a.id d' ≡ ok (some a)
unfolding attachment_repository attachment_row attachment_row_of sqlc_attachment_to_entity
find_attachment-save a d d' h = ground arith

-- What an update leaves of a row.
abbrev pub updated : Task → Option TaskRow → Option TaskRow
updated t none = none
updated t (some r) = some (updated_row t r)

pub task_row-update_rows :
    (t : Task) (j : Uuid) (rows : List TaskRow)
    → task_row j (update_rows t rows)
      ≡ (if t.id == j then updated t (task_row j rows) else task_row j rows)
unfolding task_row update_rows updated_row
task_row-update_rows t j [] = ground arith
task_row-update_rows t j (r ∷ rows) = ground (arith, task_row-update_rows t j rows)

-- The entity that an update leaves: the description stays where the new one is empty, and the labels
-- are lost.
abbrev pub merged : Task → Task → Task
merged t old = record t {
  description = if str_eq t.description [] then old.description else t.description;
  creator_id = old.creator_id;
  labels = [];
  created_at = old.created_at;
  id = old.id;
}

abbrev pub merged_given : Task → Option Task → Option Task
merged_given t none = none
merged_given t (some old) = some (merged t old)

abbrev pub result_map {ℓ κ} : {A : Type ℓ} {B : Type κ} → (A → B) → Result A → Result B
result_map f (ok x) = ok (f x)
result_map f (err e) = err e

entity_of-updated :
    (t : Task) (o : Option TaskRow) → entity_of (updated t o) ≡ merged_given t (entity_of o)
unfolding updated_row sqlc_task_to_entity
entity_of-updated t none = refl
entity_of-updated t (some r) = ground arith

-- After an update the task is found with the fields that were written, but for an empty description,
-- which leaves the old one, and for its labels, which are lost; every other task is found as before.
pub find_by_id-update :
    (pg : Postgres) (t : Task) (j : Uuid) (d d' : TaskDb)
    → (table_repository pg).update t d ≡ ok d'
    → (table_repository pg).find_by_id j d' ≡ (
        if t.id == j
        then result_map (merged_given t) ((table_repository pg).find_by_id j d)
        else (table_repository pg).find_by_id j d)
unfolding table_repository
find_by_id-update pg t j d d' h =
    ground (arith, task_row-update_rows t j d.tasks, entity_of-updated t (task_row j d.tasks))

keep_rows_congr {ℓ} :
    {A : Type ℓ} (p q : A → Bool)
    → ((x : A) → p x ≡ q x)
    → (xs : List A) → keep_rows p xs ≡ keep_rows q xs
keep_rows_congr p q h [] = refl
keep_rows_congr p q h (x ∷ xs) = ground (arith, h x, keep_rows_congr p q h xs)

-- Of two filters with the same status FindAll finds the same tasks and the same total, whatever
-- else the filters ask for.
pub find_all-status :
    (pg : Postgres) (f g : TaskFilter) (status : GoString) (p : Pagination) (d : TaskDb)
    → f.status ≡ some status
    → g.status ≡ some status
    → find_all pg f p d ≡ find_all pg g p d
unfolding find_all selected
find_all-status pg f g status p d hf hg =
    ground (arith, keep_rows_congr (selected pg f) (selected pg g) (λ r. ground arith) d.tasks)
