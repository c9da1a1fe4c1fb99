-- ===== src/Labels/Table.antt =====
-- LabelRepository (internal/infrastructure/database/repository/label_repository.go) as its queries
-- read the table labels (internal/infrastructure/database/sqlc/labels.sql.go). LOWER of PostgreSQL is
-- the parameter `lower`. The database is up: a query fails for an id that is taken, or for a name that
-- is taken under LOWER, on which migrations/000002_add_unique_index_for_labels_lower_name.up.sql makes
-- a unique index. The trigger of the table sets `updated_at`, to the time in the label here.
use go_clean_arch_poc.Base.{
  GoString, Bool, Option, none, some, List, [], ◌∷◌, any, ◌==◌, ◌||◌, ◌&&◌, not, str_eq,
  if◌then◌else◌,
}
use go_clean_arch_poc.Domain.Error.{Error, ok, err}
use go_clean_arch_poc.Domain.Task.{Uuid}
use go_clean_arch_poc.Domain.Label.{Label}
use go_clean_arch_poc.Labels.{LabelRepository}

abbrev pub LabelTable : Type 0
LabelTable = List Label

abbrev pub has_id : Uuid → LabelTable → Bool
has_id id = any (λ r. r.id == id)

unfoldable pub row_by_id : Uuid → LabelTable → Option Label
row_by_id id [] = none
row_by_id id (r ∷ d) = if r.id == id then some r else row_by_id id d

unfoldable pub delete_row : Uuid → LabelTable → LabelTable
delete_row id [] = []
delete_row id (r ∷ d) = let rest = delete_row id d in if r.id == id then rest else r ∷ rest

-- UPDATE labels SET name, color WHERE id.
abbrev pub written : Label → Label → Label
written l r = record r { name = l.name; color = l.color; updated_at = l.updated_at }

unfoldable pub update_row : Label → LabelTable → LabelTable
update_row l [] = []
update_row l (r ∷ d) =
    let rest = update_row l d in if r.id == l.id then written l r ∷ rest else r ∷ rest

module _ (lower : GoString → GoString) where
  abbrev pub is_named : GoString → Label → Bool
  is_named name r = str_eq (lower r.name) (lower name)

  unfoldable pub row_by_name : GoString → LabelTable → Option Label
  row_by_name name [] = none
  row_by_name name (r ∷ d) = if is_named name r then some r else row_by_name name d

  unfoldable pub table_repository : LabelRepository LabelTable
  unfolding row_by_id row_by_name delete_row update_row
  table_repository = record {
    save = λ l d.
        if has_id l.id d || any (is_named l.name) d then err (Error.external 23505) else ok (l ∷ d);
    update = λ l d.
        if has_id l.id d
        then (if any (λ r. is_named l.name r && not (r.id == l.id)) d
            then err (Error.external 23505)
            else ok (update_row l d))
        else err (Error.external 0);
    delete = λ id d. ok (delete_row id d);
    find_by_id = λ id d. ok (row_by_id id d);
    find_by_name = λ name d. ok (row_by_name name d);
    find_all = λ d. ok d;
    exists_by_id = λ id d. ok (has_id id d);
  }
