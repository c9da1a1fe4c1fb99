-- ===== src/Tasks/Calls.antt =====
-- The calls of TaskUseCase (internal/application/usecase/task/task_usecase.go) that change a task that
-- exists, each as what it does to the entity.
use go_clean_arch_poc.Base.{
  GoString, ◌≡◌, refl, arith, Option, none, some, List, [], ◌∷◌, ◌++◌, if◌then◌else◌,
}
use go_clean_arch_poc.Domain.Error.{Error, Result, ok, err}
use go_clean_arch_poc.Domain.Status.{parse_task_status}
use go_clean_arch_poc.Domain.Priority.{parse_priority}
use go_clean_arch_poc.Domain.Task
use go_clean_arch_poc.Domain.Task.{Uuid, Time, Task}
use go_clean_arch_poc.Domain.Task.Lifecycle
use go_clean_arch_poc.Domain.Task.Lifecycle.{TaskOp, IsValid, apply-IsValid}
use go_clean_arch_poc.Domain.Event.{TaskEvent, Payload, new_task_status_changed}
use go_clean_arch_poc.Auth.Jwt.{TokenClaims}
use go_clean_arch_poc.Auth.Sessions.Attempts.{attempt-ok, attempt_some-ok}
use go_clean_arch_poc.Tasks.Ports.{UpdateTaskInput, TaskOutput, TaskState, TaskUseCase}
use go_clean_arch_poc.Tasks.Shared.{
  get_creator_id_from_context, publish_given, task_from_entity, save_changes,
  invalidate_task_caches,
}
use go_clean_arch_poc.Tasks.Writing.{apply_updates, update_task, present, updated_event}
use go_clean_arch_poc.Tasks.Editing
use go_clean_arch_poc.Tasks.Editing.{
  event_of, assign_task, unassign_task, change_task_status, complete_task, archive_task,
}

pub data TaskCall : Type 0 where
  update : UpdateTaskInput → TaskCall
  assign add_label remove_label : Uuid → TaskCall
  change_status : GoString → TaskCall
  unassign complete archive : TaskCall

abbrev op_given {ℓ} : {A : Type ℓ} → (A → List TaskOp) → Option A → List TaskOp
op_given f none = []
op_given f (some a) = f a

abbrev op_parsed : (GoString → TaskOp) → Result GoString → List TaskOp
op_parsed f (ok x) = f x ∷ []
op_parsed f (err _) = []

-- The calls on the entity that a call of the use case makes.
unfoldable pub ops_of : TaskCall → List TaskOp
ops_of (TaskCall.update input) =
    op_given (λ title. TaskOp.update_title title ∷ []) input.title
    ++ (op_given (λ d. TaskOp.update_description d ∷ []) input.description
        ++ (op_given (λ p. op_parsed TaskOp.update_priority (parse_priority p)) input.priority
            ++ elim input.due_date [
              | some due ↦ TaskOp.set_due_date due ∷ []
              | none ↦ if input.clear_due_date then TaskOp.clear_due_date ∷ [] else []
            ]))
ops_of (TaskCall.assign u) = TaskOp.assign u ∷ []
ops_of (TaskCall.add_label l) = TaskOp.add_label l ∷ []
ops_of (TaskCall.remove_label l) = TaskOp.remove_label l ∷ []
ops_of (TaskCall.change_status text) = op_parsed TaskOp.change_status (parse_task_status text)
ops_of TaskCall.unassign = TaskOp.unassign ∷ []
ops_of TaskCall.complete = TaskOp.complete ∷ []
ops_of TaskCall.archive = TaskOp.archive ∷ []

-- They are made at one time.
unfoldable pub run_at : Time → List TaskOp → Task → Task
run_at now [] t = t
run_at now (op ∷ ops) t = run_at now ops (Lifecycle.apply now op t)

pub run_at-IsValid :
    (now : Time) (ops : List TaskOp) (t : Task) → IsValid t → IsValid (run_at now ops t)
unfolding run_at
run_at-IsValid now [] t v = v
run_at-IsValid now (op ∷ ops) t v =
    run_at-IsValid now ops (Lifecycle.apply now op t) (apply-IsValid now op t v)

pub apply_updates-run_at :
    (now : Time) (input : UpdateTaskInput) (t t' : Task)
    → apply_updates now input t ≡ ok t'
    → (t' ≡ run_at now (ops_of (TaskCall.update input)) t) × (t'.id ≡ t.id)
unfolding apply_updates run_at ops_of Lifecycle.apply Task.update_title Task.update_description
    Task.update_priority Task.set_due_date Task.clear_due_date
apply_updates-run_at now input t t' h = ground arith

module _ {C D F P : Type 0} (uc : TaskUseCase C D F P) where
  unfoldable pub call :
      Time
      → Option TokenClaims
      → Uuid
      → TaskCall
      → TaskState C D F P
      → TaskState C D F P × Result TaskOutput
  unfolding update_task assign_task unassign_task change_task_status complete_task archive_task
      Editing.add_label Editing.remove_label
  call now ctx id (TaskCall.update input) s = update_task uc now ctx id input s
  call now ctx id (TaskCall.assign u) s = assign_task uc now ctx id u s
  call now ctx id (TaskCall.add_label l) s = Editing.add_label uc now ctx id l s
  call now ctx id (TaskCall.remove_label l) s = Editing.remove_label uc now ctx id l s
  call now ctx id (TaskCall.change_status text) s = change_task_status uc now ctx id text s
  call now ctx id TaskCall.unassign s = unassign_task uc now ctx id s
  call now ctx id TaskCall.complete s = complete_task uc now ctx id s
  call now ctx id TaskCall.archive s = archive_task uc now ctx id s

  -- What the entity becomes when a call succeeds.
  abbrev pub changed : Time → TaskCall → Task → Task
  changed now c t = run_at now (ops_of c) t

  -- A call that returns an error changes nothing.
  pub call-err :
      (now : Time) (ctx : Option TokenClaims) (id : Uuid) (c : TaskCall) (s s' : TaskState C D F P)
      (e : Error)
      → call now ctx id c s ≡ (s', err e)
      → s' ≡ s
  unfolding call save_changes
  call-err now ctx id (TaskCall.update input) s s' e h = ground arith
  call-err now ctx id (TaskCall.assign u) s s' e h = ground arith
  call-err now ctx id _ s s' e h = ground arith

  -- The event of a call on a task, for which `actor` is the user in the context.
  unfoldable pub event_for : Uuid → Uuid → TaskCall → Task → Option TaskEvent
  event_for actor id (TaskCall.update input) t = some (updated_event t.id actor input)
  event_for actor id (TaskCall.assign u) t = some (event_of id (Payload.assigned u actor))
  event_for actor id (TaskCall.add_label l) t = some (event_of id (Payload.label_added l actor))
  event_for actor id (TaskCall.remove_label l) t =
      some (event_of id (Payload.label_removed l actor))
  event_for actor id (TaskCall.change_status text) t = elim (parse_task_status text) [
    | err _ ↦ none
    | ok new_status ↦ some (new_task_status_changed id t.status new_status actor)
  ]
  event_for actor id TaskCall.unassign t = elim t.assignee_id [
    | none ↦ none
    | some previous ↦ some (event_of id (Payload.unassigned previous actor))
  ]
  event_for actor id TaskCall.complete t = some (event_of id (Payload.completed actor))
  event_for actor id TaskCall.archive t = some (event_of id (Payload.archived actor))

  -- What a call that returns no error has done: it read the task, wrote what the entity made of it, and
  -- invalidated the caches.
  pub record Saved (now : Time) (ctx : Option TokenClaims) (id : Uuid) (c : TaskCall)
      (s s' : TaskState C D F P) (out : TaskOutput) : Type 0 where
    pub task : Task
    pub found : uc.task_repo.find_by_id id s.db ≡ ok (some task)
    pub written : uc.task_repo.update (changed now c task) s.db ≡ ok s'.db
    pub dropped : s'.cache ≡ invalidate_task_caches uc id s.cache
    pub returned : out ≡ task_from_entity now (changed now c task)
    pub published :
        s'.published
        ≡ publish_given uc (event_for (get_creator_id_from_context ctx) id c task) s.published
    pub files_kept : s'.files ≡ s.files

  saved :
      (now : Time) (ctx : Option TokenClaims) (id : Uuid) (c : TaskCall) (t t' : Task)
      (evt : Option TaskEvent) (s s' : TaskState C D F P) (out : TaskOutput)
      → save_changes uc now id t' evt s ≡ (s', ok out)
      → uc.task_repo.find_by_id id s.db ≡ ok (some t)
      → t' ≡ changed now c t
      → evt ≡ event_for (get_creator_id_from_context ctx) id c t
      → Saved now ctx id c s s' out
  unfolding save_changes
  saved now ctx id c t t' evt s s' out h f e v =
      let (db, w, k) = attempt-ok (uc.task_repo.update t' s.db) s s' _ out h in
      record {
        task = t;
        found = f;
        written = ground arith;
        dropped = ground arith;
        returned = ground arith;
        published = ground arith;
        files_kept = ground arith;
      }

  pub call-ok :
      (now : Time) (ctx : Option TokenClaims) (id : Uuid) (c : TaskCall) (s s' : TaskState C D F P)
      (out : TaskOutput)
      → call now ctx id c s ≡ (s', ok out)
      → Saved now ctx id c s s' out
  unfolding call update_task assign_task unassign_task change_task_status complete_task archive_task
      Editing.add_label Editing.remove_label ops_of event_for run_at Lifecycle.apply
      Task.update_title Task.update_description Task.update_priority Task.set_due_date
      Task.clear_due_date Task.assign Task.unassign Task.change_status Task.complete Task.archive
      Task.add_label Task.remove_label
  call-ok now ctx id (TaskCall.update input) s s' out h =
      let (u0, v, h1) = attempt-ok (uc.validator.update_task input) s s' _ out h in
      let (t, f, h2) = attempt_some-ok (uc.task_repo.find_by_id id s.db) _ s s' _ out h1 in
      let (t', a, h3) = attempt-ok (apply_updates now input t) s s' _ out h2 in
      let lem = apply_updates-run_at now input t t' a in
      saved now ctx id (TaskCall.update input) t t'
        (some (updated_event t'.id (get_creator_id_from_context ctx) input)) s s' out h3 f lem.0
        (ground (arith, lem.1))
  call-ok now ctx id (TaskCall.assign u) s s' out h =
      let (t, f, h1) = attempt_some-ok (uc.task_repo.find_by_id id s.db) _ s s' _ out h in
      let (u0, v, h2) =
        attempt-ok (present uc (uc.user_repo.exists_by_id u s.db) _) s s' _ out h1 in
      let (t', a, h3) = attempt-ok (Task.assign now u t) s s' _ out h2 in
      saved now ctx id (TaskCall.assign u) t t'
        (event_for (get_creator_id_from_context ctx) id (TaskCall.assign u) t) s s' out h3 f
        (ground arith) refl
  call-ok now ctx id (TaskCall.add_label l) s s' out h =
      let (t, f, h1) = attempt_some-ok (uc.task_repo.find_by_id id s.db) _ s s' _ out h in
      let (u0, v, h2) =
        attempt-ok (present uc (uc.label_repo.exists_by_id l s.db) _) s s' _ out h1 in
      saved now ctx id (TaskCall.add_label l) t _
        (event_for (get_creator_id_from_context ctx) id (TaskCall.add_label l) t) s s' out h2 f refl
        refl
  call-ok now ctx id (TaskCall.remove_label l) s s' out h =
      let (t, f, h1) = attempt_some-ok (uc.task_repo.find_by_id id s.db) _ s s' _ out h in
      saved now ctx id (TaskCall.remove_label l) t _
        (event_for (get_creator_id_from_context ctx) id (TaskCall.remove_label l) t) s s' out h1 f
        refl refl
  call-ok now ctx id (TaskCall.change_status text) s s' out h =
      let (st, p, h1) = attempt-ok (parse_task_status text) s s' _ out h in
      let (t, f, h2) = attempt_some-ok (uc.task_repo.find_by_id id s.db) _ s s' _ out h1 in
      let (t', a, h3) = attempt-ok (Task.change_status now st t) s s' _ out h2 in
      saved now ctx id (TaskCall.change_status text) t t'
        (some (new_task_status_changed id t.status st (get_creator_id_from_context ctx))) s s' out
        h3 f (ground arith) (ground arith)
  call-ok now ctx id TaskCall.unassign s s' out h =
      let (t, f, h1) = attempt_some-ok (uc.task_repo.find_by_id id s.db) _ s s' _ out h in
      saved now ctx id TaskCall.unassign t _
        (event_for (get_creator_id_from_context ctx) id TaskCall.unassign t) s s' out h1 f refl refl
  call-ok now ctx id TaskCall.complete s s' out h =
      let (t, f, h1) = attempt_some-ok (uc.task_repo.find_by_id id s.db) _ s s' _ out h in
      let (t', a, h2) = attempt-ok (Task.complete now t) s s' _ out h1 in
      saved now ctx id TaskCall.complete t t'
        (event_for (get_creator_id_from_context ctx) id TaskCall.complete t) s s' out h2 f
        (ground arith) refl
  call-ok now ctx id TaskCall.archive s s' out h =
      let (t, f, h1) = attempt_some-ok (uc.task_repo.find_by_id id s.db) _ s s' _ out h in
      let (t', a, h2) = attempt-ok (Task.archive now t) s s' _ out h1 in
      saved now ctx id TaskCall.archive t t'
        (event_for (get_creator_id_from_context ctx) id TaskCall.archive t) s s' out h2 f
        (ground arith) refl
