-- ===== src/Tasks/Valid.antt =====
-- TaskUseCase (internal/application/usecase/task/task_usecase.go) over TaskRepository
-- (internal/infrastructure/database/repository/task_repository.go): what holds of every row.
use go_clean_arch_poc.Base.{
  ◌≤◌, Bool, true, not, ◌&&◌, all, ◌≡◌, refl, sym, ap, ◌∙◌, arith, Option, some, List, [], ◌∷◌,
  ◌==◌, str_eq, if◌then◌else◌,
}
use mathlib.Core.Path.{subst}
use go_clean_arch_poc.Domain.Error.{Result, ok, err}
use go_clean_arch_poc.Domain.Status
use go_clean_arch_poc.Domain.Priority
use go_clean_arch_poc.Domain.Task.{Uuid, Time, Task}
use go_clean_arch_poc.Domain.Task.Lifecycle
use go_clean_arch_poc.Domain.Task.Lifecycle.{TaskOp, IsValid, stage, apply-stage, apply-identity}
use go_clean_arch_poc.Auth.Jwt.{TokenClaims}
use go_clean_arch_poc.Tasks.Ports.{TaskOutput, TaskState, TaskUseCase}
use go_clean_arch_poc.Domain.Task.Labels.{Distinct}
use go_clean_arch_poc.Tasks.Table.{
  TaskRow, TaskDb, Postgres, sqlc_task_to_entity, updated_row, task_row, update_rows,
  table_repository,
}
use go_clean_arch_poc.Tasks.Rows.{task_row-update_rows}
use go_clean_arch_poc.Tasks.Stored.{on_tables, found_row, found-id}
use go_clean_arch_poc.Tasks.Calls.{
  TaskCall, call, call-ok, call-err, run_at, run_at-IsValid, ops_of, changed,
}

run_at-id : (now : Time) (ops : List TaskOp) (t : Task) → (run_at now ops t).id ≡ t.id
unfolding run_at
run_at-id now [] t = refl
run_at-id now (op ∷ ops) t =
    run_at-id now ops (Lifecycle.apply now op t) ∙ (apply-identity now op t).0

-- A title, a status and a priority among the constants.
abbrev pub is_valid_row : TaskRow → Bool
is_valid_row r =
    not (str_eq r.title []) && (Status.is_valid r.status && Priority.is_valid r.priority)

run_at-stage :
    (now : Time) (ops : List TaskOp) (t : Task) → stage t.status ≤ stage (run_at now ops t).status
unfolding run_at
run_at-stage now [] t = omega arith
run_at-stage now (op ∷ ops) t =
    omega (arith, apply-stage now op t, run_at-stage now ops (Lifecycle.apply now op t))

is_valid_row-IsValid :
    (r : TaskRow) (t : Task) → t ≡ sqlc_task_to_entity r → is_valid_row r ≡ true → IsValid t
unfolding sqlc_task_to_entity
is_valid_row-IsValid r t e h = record {
  titled = ground arith;
  status_valid = ground arith;
  priority_valid = ground arith;
  labels_distinct = subst (λ ls. Distinct ls) (sym (ap (λ (x : Task). x.labels) e)) tt;
}

all-task_row :
    (id : Uuid) (rows : List TaskRow) (r : TaskRow)
    → all is_valid_row rows ≡ true
    → task_row id rows ≡ some r
    → is_valid_row r ≡ true
unfolding task_row
all-task_row id [] r v h = ground arith
all-task_row id (x ∷ rows) r v h = ground (arith, all-task_row id rows r)

all-update_rows :
    (t : Task) (rows : List TaskRow)
    → IsValid t
    → all is_valid_row rows ≡ true
    → all is_valid_row (update_rows t rows) ≡ true
unfolding update_rows updated_row
all-update_rows t [] w v = refl
all-update_rows t (r ∷ rows) w v = ground (arith, all-update_rows t rows w)

module _ {C F P : Type 0} (base : TaskUseCase C TaskDb F P) (pg : Postgres) where
  -- Over the tables of the database, if every row of the table tasks has a title, and a status and
  -- a priority among the constants, so it is after any call that changes a task, whether or not it
  -- returns an error.
  pub call-is_valid_row :
      (now : Time) (ctx : Option TokenClaims) (id : Uuid) (c : TaskCall)
      (s : TaskState C TaskDb F P)
      → all is_valid_row s.db.tasks ≡ true
      → all is_valid_row (call (on_tables base pg) now ctx id c s).0.db.tasks ≡ true
  unfolding table_repository
  call-is_valid_row now ctx id c s v = elim-result (call (on_tables base pg) now ctx id c s) refl
    where
      elim-result :
          (o : TaskState C TaskDb F P × Result TaskOutput)
          → call (on_tables base pg) now ctx id c s ≡ o
          → all is_valid_row o.0.db.tasks ≡ true
      elim-result (s', err e) h = ground (arith, call-err (on_tables base pg) now ctx id c s s' e h)
      elim-result (s', ok out) h =
          let saved = call-ok (on_tables base pg) now ctx id c s s' out h in
          let (r, f, e) = found_row base pg id s saved.task saved.found in
          let w = is_valid_row-IsValid r saved.task e (all-task_row id s.db.tasks r v f) in
          let w' = run_at-IsValid now (ops_of c) saved.task w in
          ground (
            arith,
            saved.written,
            all-update_rows (changed (on_tables base pg) now c saved.task) s.db.tasks w' v,
          )

  -- Over the tables of the database no call that changes a task takes any task back, whether or
  -- not it returns an error: an archived one stays archived, and one that is done stays done or is
  -- archived.
  pub call-stage :
      (now : Time) (ctx : Option TokenClaims) (id j : Uuid) (c : TaskCall)
      (s : TaskState C TaskDb F P) (r : TaskRow)
      → task_row j s.db.tasks ≡ some r
      → (r' : TaskRow) × (task_row j (call (on_tables base pg) now ctx id c s).0.db.tasks ≡ some r')
        × (stage r.status ≤ stage r'.status)
  unfolding table_repository updated_row sqlc_task_to_entity
  call-stage now ctx id j c s r h = elim-result (call (on_tables base pg) now ctx id c s) refl
    where
      elim-result :
          (o : TaskState C TaskDb F P × Result TaskOutput)
          → call (on_tables base pg) now ctx id c s ≡ o
          → (r' : TaskRow) × (task_row j o.0.db.tasks ≡ some r')
            × (stage r.status ≤ stage r'.status)
      elim-result (s', err e) k =
          (r, ground (arith, call-err (on_tables base pg) now ctx id c s s' e k), omega arith)
      elim-result (s', ok out) k =
          let saved = call-ok (on_tables base pg) now ctx id c s s' out k in
          let t = saved.task in
          let t' = changed (on_tables base pg) now c t in
          let (found, f, e) = found_row base pg id s t saved.found in
          let own = found-id base pg id s t saved.found in
          let same : t'.id ≡ t.id = run_at-id now (ops_of c) t in
          let forward : stage t.status ≤ stage t'.status = run_at-stage now (ops_of c) t in
          let status : t.status ≡ found.status = ap (λ (x : Task). x.status) e in
          (
            if t'.id == j then updated_row t' r else r,
            ground (arith, saved.written, task_row-update_rows t' j s.db.tasks),
            ground arith,
          )
