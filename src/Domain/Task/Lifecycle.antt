-- ===== src/Domain/Task/Lifecycle.antt =====
-- What holds of a task over any sequence of its operations (internal/domain/entity/task.go).
use go_clean_arch_poc.Base.{
  ℕ, ◌≤◌, GoString, true, ◌≡◌, ◌≢◌, ◌⊎◌, inl, ◌∙◌, refl, arith, none, List, [], ◌∷◌, str_eq,
  if◌then◌else◌,
}
use go_clean_arch_poc.Domain.Error.{Result, ok, err}
use go_clean_arch_poc.Domain.Status
use go_clean_arch_poc.Domain.Status.{TaskStatus, done, archived}
use go_clean_arch_poc.Domain.Priority
use go_clean_arch_poc.Domain.Priority.{Priority}
use go_clean_arch_poc.Domain.Task
use go_clean_arch_poc.Domain.Task.{Uuid, Time, Task, new_task}
use go_clean_arch_poc.Domain.Task.Labels.{Distinct, Distinct-append, Distinct-remove_first}

-- A call of a method that mutates a task.
pub data TaskOp : Type 0 where
  complete archive unassign clear_due_date : TaskOp
  assign add_label remove_label : Uuid → TaskOp
  change_status : TaskStatus → TaskOp
  update_title update_description : GoString → TaskOp
  update_priority : Priority → TaskOp
  set_due_date : Time → TaskOp

-- A method that returns an error leaves the task as it is.
abbrev pub keep : Task → Result Task → Task
keep t (ok t') = t'
keep t (err e) = t

unfoldable pub apply : Time → TaskOp → Task → Task
apply now complete t = keep t (Task.complete now t)
apply now archive t = keep t (Task.archive now t)
apply now unassign t = Task.unassign now t
apply now clear_due_date t = Task.clear_due_date now t
apply now (assign u) t = keep t (Task.assign now u t)
apply now (add_label l) t = Task.add_label now l t
apply now (remove_label l) t = Task.remove_label now l t
apply now (change_status s) t = keep t (Task.change_status now s t)
apply now (update_title s) t = keep t (Task.update_title now s t)
apply now (update_description s) t = Task.update_description now s t
apply now (update_priority p) t = keep t (Task.update_priority now p t)
apply now (set_due_date d) t = Task.set_due_date now d t

-- Calls in the order in which they are made, each with its time.
pub run : List (Time × TaskOp) → Task → Task
run [] t = t
run ((now, op) ∷ ops) t = run ops (apply now op t)

pub record IsValid (t : Task) : Type 0 where
  pub titled : t.title ≢ []
  pub status_valid : Status.is_valid t.status ≡ true
  pub priority_valid : Priority.is_valid t.priority ≡ true
  pub labels_distinct : Distinct t.labels

-- What NewTask returns is valid.
new_task-IsValid :
    (now : Time) (id : Uuid) (title description : GoString) (p : Priority) (creator : Uuid)
    {t : Task}
    → new_task now id title description p creator ≡ ok t
    → IsValid t
unfolding new_task Status.is_valid
new_task-IsValid now id title description p creator h = ground arith

pub apply-IsValid : (now : Time) (op : TaskOp) (t : Task) → IsValid t → IsValid (apply now op t)
unfolding apply Task.complete Task.archive Task.assign Task.unassign Task.change_status
    Task.update_title Task.update_description Task.update_priority Task.set_due_date
    Task.clear_due_date Task.add_label Task.remove_label Status.is_valid
apply-IsValid now complete t v = ground arith
apply-IsValid now (add_label l) t v = ground (arith, Distinct-append t.labels l v.labels_distinct)
apply-IsValid now (remove_label l) t v =
    ground (arith, Distinct-remove_first l t.labels v.labels_distinct)
apply-IsValid now _ t v = ground arith

run-IsValid : (ops : List (Time × TaskOp)) (t : Task) → IsValid t → IsValid (run ops t)
unfolding run
run-IsValid [] t v = v
run-IsValid ((now, op) ∷ ops) t v = run-IsValid ops (apply now op t) (apply-IsValid now op t v)

-- A task that NewTask makes keeps, over any calls of its methods, a title, a status and a priority
-- among the constants, and labels of which none stands twice.
pub run-new_task-IsValid :
    (now : Time) (id : Uuid) (title description : GoString) (p : Priority) (creator : Uuid)
    (ops : List (Time × TaskOp)) {t : Task}
    → new_task now id title description p creator ≡ ok t
    → IsValid (run ops t)
run-new_task-IsValid now id title description p creator ops {t} h =
    run-IsValid ops t (new_task-IsValid now id title description p creator h)

-- How far a task has gone: open, done, archived.
unfoldable pub stage : TaskStatus → ℕ
stage s = if str_eq s archived then 2 else if str_eq s done then 1 else 0

pub apply-stage :
    (now : Time) (op : TaskOp) (t : Task) → stage t.status ≤ stage (apply now op t).status
unfolding apply stage Task.complete Task.archive Task.assign Task.unassign Task.change_status
    Task.update_title Task.update_description Task.update_priority Task.set_due_date
    Task.clear_due_date Task.add_label Task.remove_label
apply-stage now complete t = ground arith
apply-stage now _ t = ground arith

-- No sequence of calls takes a task back: an archived task stays archived, and one that is done
-- stays done or is archived.
pub run-stage : (ops : List (Time × TaskOp)) (t : Task) → stage t.status ≤ stage (run ops t).status
unfolding run
run-stage [] t = omega arith
run-stage ((now, op) ∷ ops) t = omega (arith, apply-stage now op t, run-stage ops (apply now op t))

-- What no method writes, and what NewTask sets.
pub apply-identity :
    (now : Time) (op : TaskOp) (t : Task)
    → ((apply now op t).id ≡ t.id)
      × ((apply now op t).creator_id ≡ t.creator_id)
      × ((apply now op t).created_at ≡ t.created_at)
unfolding apply Task.complete Task.archive Task.assign Task.unassign Task.change_status
    Task.update_title Task.update_description Task.update_priority Task.set_due_date
    Task.clear_due_date Task.add_label Task.remove_label
apply-identity now complete t = ground arith
apply-identity now _ t = ground arith

run-identity :
    (ops : List (Time × TaskOp)) (t : Task)
    → ((run ops t).id ≡ t.id)
      × ((run ops t).creator_id ≡ t.creator_id)
      × ((run ops t).created_at ≡ t.created_at)
unfolding run
run-identity [] t = (refl, refl, refl)
run-identity ((now, op) ∷ ops) t =
    let (a, b, c) = run-identity ops (apply now op t) in
    let (a', b', c') = apply-identity now op t in (a ∙ a', b ∙ b', c ∙ c')

-- The creator of a task may modify it, whatever calls were made.
pub run-can_be_modified_by :
    (ops : List (Time × TaskOp)) (t : Task)
    → Task.can_be_modified_by t.creator_id (run ops t) ≡ true
unfolding Task.can_be_modified_by
run-can_be_modified_by ops t = ground (arith, run-identity ops t)

-- One call on an archived task leaves it archived, and its assignee or none.
apply-archived_assignee :
    (now : Time) (op : TaskOp) (t : Task)
    → t.status ≡ archived
    → ((apply now op t).status ≡ archived)
      × (((apply now op t).assignee_id ≡ t.assignee_id) ⊎ ((apply now op t).assignee_id ≡ none))
unfolding apply Task.complete Task.archive Task.assign Task.unassign Task.change_status
    Task.update_title Task.update_description Task.update_priority Task.set_due_date
    Task.clear_due_date Task.add_label Task.remove_label
apply-archived_assignee now complete t h = ground arith
apply-archived_assignee now _ t h = ground arith

-- Over any calls on an archived task it stays archived, and its assignee stays or is removed.
pub run-archived_assignee :
    (ops : List (Time × TaskOp)) (t : Task)
    → t.status ≡ archived
    → ((run ops t).status ≡ archived)
      × (((run ops t).assignee_id ≡ t.assignee_id) ⊎ ((run ops t).assignee_id ≡ none))
unfolding run
run-archived_assignee [] t h = (h, inl refl)
run-archived_assignee ((now, op) ∷ ops) t h =
    let step = apply-archived_assignee now op t h in
    let rest = run-archived_assignee ops (apply now op t) step.0 in ground arith
