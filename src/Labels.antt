-- ===== src/Labels.antt =====
-- LabelUseCase (internal/application/usecase/label/label_usecase.go) over the port LabelRepository
-- (internal/application/port/output/task_repository.go). `D` is the state of the database. A method
-- that returns an error has written nothing. The logger is left out, and an output is the entity, of
-- which LabelFromEntity copies every field.
pub mod Table
pub mod Rows
pub mod Unique
use go_clean_arch_poc.Base.{
  ℕ, GoString, Bool, true, false, not, Option, none, some, List, ◌==◌, if◌then◌else◌,
}
use go_clean_arch_poc.Domain.Error.{Error, ErrorCode, Result, ok, err, ◌>>=◌, err_label_not_found}
use go_clean_arch_poc.Domain.Task.{Uuid, Time}
use go_clean_arch_poc.Domain.Label
use go_clean_arch_poc.Domain.Label.{Label, new_label}

pub record LabelRepository (D : Type 0) : Type 0 where
  pub save : Label → D → Result D
  pub update : Label → D → Result D
  pub delete : Uuid → D → Result D
  pub find_by_id : Uuid → D → Result (Option Label)
  pub find_by_name : GoString → D → Result (Option Label)
  pub find_all : D → Result (List Label)
  pub exists_by_id : Uuid → D → Result Bool

pub record CreateLabelInput : Type 0 where
  pub name : GoString
  pub color : GoString

pub record UpdateLabelInput : Type 0 where
  pub name : Option GoString
  pub color : Option GoString

-- go-playground/validator on the tags of the inputs.
pub record Validator : Type 0 where
  pub create_label : CreateLabelInput → Result (Unit {0})
  pub update_label : UpdateLabelInput → Result (Unit {0})

abbrev pub err_label_name_already_exists : Error
err_label_name_already_exists = Error.domain ErrorCode.conflict "label name already exists"

-- `if label == nil { return nil, ErrLabelNotFound }`
abbrev pub or_not_found : Option Label → Result Label
or_not_found none = err err_label_not_found
or_not_found (some l) = ok l

-- The name is free, or it is the label's own.
abbrev pub is_own : Uuid → Option Label → Bool
is_own id none = true
is_own id (some existing) = existing.id == id

module _ {D : Type 0} (repo : LabelRepository D) (valid : Validator) where
  unfoldable pub create_label : Time → Uuid → CreateLabelInput → D → Result (D × Label)
  create_label now id input d = valid.create_label input >>= λ _.
      repo.find_by_name input.name d >>= λ existing. elim existing [
        | some _ ↦ err err_label_name_already_exists
        | none ↦
            (new_label now id input.name input.color >>= λ l. repo.save l d >>= λ d'. ok (d', l))
      ]

  unfoldable pub rename : Time → Option GoString → Label → D → Result Label
  rename now none l d = ok l
  rename now (some name) l d = repo.find_by_name name d >>= λ existing.
      if is_own l.id existing
      then Label.update_name now name l
      else err err_label_name_already_exists

  unfoldable pub recolor : Time → Option GoString → Label → Result Label
  recolor now none l = ok l
  recolor now (some color) l = Label.update_color now color l

  unfoldable pub update_label : Time → Uuid → UpdateLabelInput → D → Result (D × Label)
  unfolding rename recolor
  update_label now id input d = valid.update_label input >>= λ _. repo.find_by_id id d >>= λ found.
      or_not_found found >>= λ l. rename now input.name l d >>= λ l1.
      recolor now input.color l1 >>= λ l2. repo.update l2 d >>= λ d'. ok (d', l2)

  unfoldable pub delete_label : Uuid → D → Result D
  delete_label id d = repo.exists_by_id id d >>= λ exists.
      if not exists then err err_label_not_found else repo.delete id d

  unfoldable pub get_label : Uuid → D → Result Label
  get_label id d = repo.find_by_id id d >>= or_not_found

  unfoldable pub list_labels : D → Result (List Label)
  list_labels d = repo.find_all d
