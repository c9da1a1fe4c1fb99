-- ===== src/Tasks/Stored.antt =====
-- TaskUseCase (internal/application/usecase/task/task_usecase.go) over TaskRepository
-- (internal/infrastructure/database/repository/task_repository.go): what the tables hold after a call.
use go_clean_arch_poc.Base.{
  ◌≡◌, refl, sym, ap, ◌∙◌, arith, Option, none, some, List, [], ◌∷◌, ◌==◌, if◌then◌else◌,
}
use go_clean_arch_poc.Domain.Error.{ok}
use go_clean_arch_poc.Domain.Task
use go_clean_arch_poc.Domain.Task.{Uuid, Time, Task}
use go_clean_arch_poc.Domain.Task.Lifecycle
use go_clean_arch_poc.Domain.Task.Lifecycle.{TaskOp, IsValid, stage, apply-stage}
use go_clean_arch_poc.Auth.Jwt.{TokenClaims}
use go_clean_arch_poc.Tasks.Ports.{UpdateTaskInput, TaskOutput, TaskState, TaskUseCase}
use go_clean_arch_poc.Tasks.Shared.{task_from_entity}
use go_clean_arch_poc.Cache.Aside.{lookup}
use go_clean_arch_poc.Tasks.Reading.{get_task, or_no_labels}
use go_clean_arch_poc.Tasks.Table.{
  TaskRow, TaskDb, Postgres, sqlc_task_to_entity, task_row, table_repository, attachment_repository,
  task_label_repository,
}
use go_clean_arch_poc.Tasks.Rows.{result_map, merged, merged_given, find_by_id-update}
use go_clean_arch_poc.Tasks.Calls.{TaskCall, call, call-ok, run_at, ops_of, changed}
use go_clean_arch_poc.Tasks.Fresh.{uncached, call-get_task}

task_row-id :
    (id : Uuid) (rows : List TaskRow) (r : TaskRow) → task_row id rows ≡ some r → r.id ≡ id
unfolding task_row
task_row-id id [] r h = ground arith
task_row-id id (x ∷ rows) r h = ground (arith, task_row-id id rows r)

-- What UpdateTask makes of a task whose description is to be cleared.
run_at-clear_description :
    (now : Time) (input : UpdateTaskInput) (t : Task)
    → input.description ≡ some []
    → ((run_at now (ops_of (TaskCall.update input)) t).description ≡ [])
      × ((run_at now (ops_of (TaskCall.update input)) t).id ≡ t.id)
unfolding run_at ops_of Lifecycle.apply Task.update_title Task.update_description
    Task.update_priority Task.set_due_date Task.clear_due_date
run_at-clear_description now input t h = ground arith

module _ {C F P : Type 0} (base : TaskUseCase C TaskDb F P) (pg : Postgres) where
  -- The use case over the tables.
  abbrev pub on_tables : TaskUseCase C TaskDb F P
  on_tables = record base {
    task_repo = table_repository pg;
    attachment_repo = attachment_repository;
    label_repo = task_label_repository;
  }

  -- The row of a task that is found.
  pub found_row :
      (id : Uuid) (s : TaskState C TaskDb F P) (t : Task)
      → on_tables.task_repo.find_by_id id s.db ≡ ok (some t)
      → (r : TaskRow) × (task_row id s.db.tasks ≡ some r) × (t ≡ sqlc_task_to_entity r)
  unfolding table_repository
  found_row id s t h = elim-row (task_row id s.db.tasks) refl
    where
      elim-row :
          (o : Option TaskRow)
          → task_row id s.db.tasks ≡ o
          → (r : TaskRow) × (task_row id s.db.tasks ≡ some r) × (t ≡ sqlc_task_to_entity r)
      elim-row none e = ground arith
      elim-row (some r) e = (r, e, ground arith)

  pub found-id :
      (id : Uuid) (s : TaskState C TaskDb F P) (t : Task)
      → on_tables.task_repo.find_by_id id s.db ≡ ok (some t)
      → t.id ≡ id
  unfolding sqlc_task_to_entity
  found-id id s t h =
      let (row, fr, er) = found_row id s t h in
      ap (λ (x : Task). x.id) er ∙ task_row-id id s.db.tasks row fr

  -- What the database gives as the task of an id after a call of the use case.
  call-find_by_id :
      (now : Time) (ctx : Option TokenClaims) (id j : Uuid) (c : TaskCall)
      (s s' : TaskState C TaskDb F P) (out : TaskOutput)
      → call on_tables now ctx id c s ≡ (s', ok out)
      → (t : Task) × (on_tables.task_repo.find_by_id id s.db ≡ ok (some t))
        × (out ≡ task_from_entity now (changed on_tables now c t))
        × (on_tables.task_repo.find_by_id j s'.db ≡ (
            if (changed on_tables now c t).id == j
            then result_map
                (merged_given (changed on_tables now c t))
                (on_tables.task_repo.find_by_id j s.db)
            else on_tables.task_repo.find_by_id j s.db))
  call-find_by_id now ctx id j c s s' out h =
      let saved = call-ok on_tables now ctx id c s s' out h in
      (
        saved.task,
        saved.found,
        saved.returned,
        find_by_id-update pg (changed on_tables now c saved.task) j s.db s'.db saved.written,
      )

  -- No call writes the tables of labels.
  call-labels :
      (now : Time) (ctx : Option TokenClaims) (id j : Uuid) (c : TaskCall)
      (s s' : TaskState C TaskDb F P) (out : TaskOutput)
      → call on_tables now ctx id c s ≡ (s', ok out)
      → on_tables.label_repo.find_by_task_id j s'.db ≡ on_tables.label_repo.find_by_task_id j s.db
  unfolding table_repository task_label_repository
  call-labels now ctx id j c s s' out h =
      let saved = call-ok on_tables now ctx id c s s' out h in ground (arith, saved.written)

  get_task-labels :
      (later : Time) (id : Uuid) (s : TaskState C TaskDb F P) (out : TaskOutput)
      → (get_task on_tables later id (uncached on_tables s)).1 ≡ ok out
      → out.labels ≡ or_no_labels (on_tables.label_repo.find_by_task_id id s.db)
  unfolding get_task lookup table_repository
  get_task-labels later id s out h = ground arith

  -- Over the tables of the database a label that AddLabel has added without an error is lost: a
  -- GetTask of the task that returns no error, at any time after and before any other call,
  -- returns exactly the labels that the database held before.
  pub add_label-lost :
      (now later : Time) (ctx : Option TokenClaims) (id label_id : Uuid)
      (s s' s'' : TaskState C TaskDb F P) (out out' : TaskOutput)
      → call on_tables now ctx id (TaskCall.add_label label_id) s ≡ (s', ok out)
      → get_task on_tables later id s' ≡ (s'', ok out')
      → out'.labels ≡ or_no_labels (on_tables.label_repo.find_by_task_id id s.db)
  add_label-lost now later ctx id label_id s s' s'' out out' h g =
      let c = TaskCall.add_label label_id in
      let fresh : (get_task on_tables later id (uncached on_tables s')).1 ≡ ok out' =
        sym (call-get_task on_tables now later ctx id c s s' out h) ∙ ap (λ x. x.1) g in
      get_task-labels later id s' out' fresh
      ∙ ap or_no_labels (call-labels now ctx id id c s s' out h)

  get_task-description :
      (later : Time) (id : Uuid) (s : TaskState C TaskDb F P) (t : Task) (out : TaskOutput)
      → (get_task on_tables later id (uncached on_tables s)).1 ≡ ok out
      → on_tables.task_repo.find_by_id id s.db ≡ ok (some t)
      → out.description ≡ t.description
  unfolding get_task lookup table_repository
  get_task-description later id s t out h f = ground arith

  -- Over the tables of the database a description cannot be cleared: an UpdateTask with an empty
  -- one that returns no error returns a task without description, and a GetTask that returns no
  -- error, at any time after and before any other call, the old one.
  pub update_task-old_description :
      (now later : Time) (ctx : Option TokenClaims) (id : Uuid) (input : UpdateTaskInput)
      (s s' s'' : TaskState C TaskDb F P) (t : Task) (out out' : TaskOutput)
      → input.description ≡ some []
      → on_tables.task_repo.find_by_id id s.db ≡ ok (some t)
      → call on_tables now ctx id (TaskCall.update input) s ≡ (s', ok out)
      → get_task on_tables later id s' ≡ (s'', ok out')
      → (out.description ≡ []) × (out'.description ≡ t.description)
  update_task-old_description now later ctx id input s s' s'' t out out' he hf h g =
      let c = TaskCall.update input in
      let fresh : (get_task on_tables later id (uncached on_tables s')).1 ≡ ok out' =
        sym (call-get_task on_tables now later ctx id c s s' out h) ∙ ap (λ x. x.1) g in
      let (u, f, r, w) = call-find_by_id now ctx id id c s s' out h in
      let cleared = run_at-clear_description now input u he in
      let same : u ≡ t = ground arith in
      let own = found-id id s t hf in
      let stored : on_tables.task_repo.find_by_id id s'.db
          ≡ ok (some (merged (changed on_tables now c u) t)) =
        ground arith in
      (
        ground (arith, cleared.0),
        get_task-description later id s' (merged (changed on_tables now c u) t) out' fresh stored
            ∙ ground (arith, cleared.0),
      )
