-- ===== src/Tasks/Writing.antt =====
-- CreateTask, UpdateTask and DeleteTask (internal/application/usecase/task/task_usecase.go), with the
-- removal of the files of a task. `ctx` is the claims that the context holds. What a method logs is
-- left out.
use go_clean_arch_poc.Base.{GoString, Bool, Option, none, some, List, [], ◌∷◌, if◌then◌else◌, ◌<|◌}
use go_clean_arch_poc.Domain.Error.{
  Error, ErrorCode, Result, ok, err, ◌>>=◌, err_task_not_found, err_user_not_found,
  err_label_not_found,
}
use go_clean_arch_poc.Domain.Priority.{Priority, parse_priority}
use go_clean_arch_poc.Domain.Task.{
  Uuid, Time, Task, new_task, set_due_date, clear_due_date, assign, add_label, update_title,
  update_description, update_priority,
}
use go_clean_arch_poc.Domain.TaskAttachment.{TaskAttachment}
use go_clean_arch_poc.Domain.Event.{
  TaskEvent, Payload, new_task_created, new_task_updated, with_title, with_priority,
  new_task_attachment_cleanup_requested,
}
use go_clean_arch_poc.Auth.Jwt.{TokenClaims}
use go_clean_arch_poc.Auth.Sessions.{attempt, attempt_some}
use go_clean_arch_poc.Tasks.Ports.{
  CreateTaskInput, UpdateTaskInput, TaskOutput, TaskState, TaskUseCase,
}
use go_clean_arch_poc.Tasks.Shared.{
  topic_task_events, get_creator_id_from_context, task_from_entity, publish_task_event,
  invalidate_task_caches, invalidate_task_list_caches, save_changes,
}

-- `if x != nil { f(*x) }`
abbrev pub when_given {ℓ κ} : {A : Type ℓ} {B : Type κ} → Option A → (A → B → B) → B → B
when_given none f x = x
when_given (some a) f x = f a x

-- The same, where `f` may fail.
abbrev pub try_given {ℓ κ} :
    {A : Type ℓ} {B : Type κ} → Option A → (A → B → Result B) → B → Result B
try_given none f x = ok x
try_given (some a) f x = f a x

-- The changes of UpdateTask, in its order.
unfoldable pub apply_updates : Time → UpdateTaskInput → Task → Result Task
apply_updates now input t0 = try_given input.title (update_title now) t0 >>= λ t1.
    let t2 = when_given input.description (update_description now) t1 in
    try_given input.priority
      (λ text t. parse_priority text >>= λ priority. update_priority now priority t) t2
    >>= λ t3. ok (elim input.due_date [
      | some due_date ↦ set_due_date now due_date t3
      | none ↦ if input.clear_due_date then clear_due_date now t3 else t3
    ])

-- `priority, _ := ParsePriority(text)`
abbrev pub or_zero : Result Priority → Priority
or_zero (ok p) = p
or_zero (err _) = []

abbrev pub updated_event : Uuid → Uuid → UpdateTaskInput → TaskEvent
updated_event task_id updated_by input =
    let e = when_given input.title with_title (new_task_updated updated_by) in
    record {
      aggregate_id = task_id;
      payload =
          Payload.updated
            (when_given input.priority (λ text. with_priority (or_zero (parse_priority text))) e);
    }

module _ {C D F P : Type 0} (uc : TaskUseCase C D F P) where
  -- `exists, err := ExistsByID(id)`, with the error for a missing one.
  abbrev pub present : Result Bool → Error → Result (Unit {0})
  present found absent = found >>= λ exists. if exists then ok tt else err absent

  unfoldable pub assign_existing : Time → Uuid → D → Task → Result Task
  assign_existing now assignee_id d t =
      present (uc.user_repo.exists_by_id assignee_id d) err_user_not_found >>= λ _.
      assign now assignee_id t

  unfoldable pub add_labels : Time → List Uuid → D → Task → Result Task
  add_labels now [] d t = ok t
  add_labels now (label_id ∷ label_ids) d t =
      present (uc.label_repo.exists_by_id label_id d) err_label_not_found >>= λ _.
      add_labels now label_ids d (add_label now label_id t)

  -- CreateTask up to the call of Save.
  unfoldable pub build_task : Time → Uuid → Option TokenClaims → CreateTaskInput → D → Result Task
  unfolding assign_existing add_labels
  build_task now id ctx input d = uc.validator.create_task input >>= λ _.
      parse_priority input.priority >>= λ priority.
      new_task now id input.title input.description priority (get_creator_id_from_context ctx)
      >>= λ t0.
          let t1 = when_given input.due_date (set_due_date now) t0 in
          try_given input.assignee_id (λ assignee_id. assign_existing now assignee_id d) t1
          >>= λ t2. add_labels now input.label_ids d t2

  unfoldable pub create_task :
      Time
      → Uuid
      → Option TokenClaims
      → CreateTaskInput
      → TaskState C D F P
      → TaskState C D F P × Result TaskOutput
  unfolding build_task
  create_task now id ctx input s = attempt (build_task now id ctx input s.db) s <| λ t.
      attempt (uc.task_repo.save t s.db) s <| λ db. (
        record s {
          db = db;
          cache = invalidate_task_list_caches uc s.cache;
          published =
              publish_task_event uc
                (new_task_created t.id t.title t.description t.priority t.creator_id) s.published;
        },
        ok (task_from_entity now t),
      )

  unfoldable pub update_task :
      Time
      → Option TokenClaims
      → Uuid
      → UpdateTaskInput
      → TaskState C D F P
      → TaskState C D F P × Result TaskOutput
  unfolding apply_updates save_changes
  update_task now ctx id input s = attempt (uc.validator.update_task input) s <| λ _.
      attempt_some (uc.task_repo.find_by_id id s.db) err_task_not_found s <| λ t.
      attempt (apply_updates now input t) s <| λ t'.
      save_changes uc now id t' (some (updated_event t'.id (get_creator_id_from_context ctx) input))
        s

  -- The request to delete an object later, which fails without a publisher or if it is not published.
  unfoldable pub publish_attachment_cleanup_requested :
      Uuid → Uuid → GoString → TaskState C D F P → TaskState C D F P × Result (Unit {0})
  publish_attachment_cleanup_requested task_id attachment_id object_key s =
      elim uc.event_publisher [
        | none ↦
            (s, err (Error.domain ErrorCode.internal_error "attachment cleanup is unavailable"))
        | some publisher ↦
            let (p, r) =
              publisher.publish topic_task_events
                (new_task_attachment_cleanup_requested task_id attachment_id object_key)
                s.published in
            let s' = record s { published = p } in
            elim r [
              | ok _ ↦ (s', ok tt)
              | err e ↦ (
                s',
                err (
                    Error.wrap ErrorCode.internal_error
                      "failed to publish attachment cleanup request" e),
              )
            ]
      ]

  unfoldable pub delete_attachment_object :
      Uuid → Uuid → GoString → TaskState C D F P → TaskState C D F P × Result (Unit {0})
  unfolding publish_attachment_cleanup_requested
  delete_attachment_object task_id attachment_id object_key s = elim uc.file_storage [
    | none ↦ publish_attachment_cleanup_requested task_id attachment_id object_key s
    | some storage ↦
        let (f, r) = storage.delete object_key s.files in
        let s' = record s { files = f } in
        elim r [
          | ok _ ↦ (s', ok tt)
          | err _ ↦ publish_attachment_cleanup_requested task_id attachment_id object_key s'
        ]
  ]

  -- The loop of DeleteTask, which stops at the first error.
  unfoldable pub delete_attachment_objects :
      Uuid → List TaskAttachment → TaskState C D F P → TaskState C D F P × Result (Unit {0})
  unfolding delete_attachment_object
  delete_attachment_objects task_id [] s = (s, ok tt)
  delete_attachment_objects task_id (a ∷ more) s =
      let (s', r) = delete_attachment_object task_id a.id a.s3_key s in
      let rest = delete_attachment_objects task_id more s' in attempt r s' (λ _. rest)

  unfoldable pub delete_task :
      Option TokenClaims → Uuid → TaskState C D F P → TaskState C D F P × Result (Unit {0})
  unfolding delete_attachment_objects
  delete_task ctx id s =
      attempt (present (uc.task_repo.exists_by_id id s.db) err_task_not_found) s <| λ _.
      attempt (uc.attachment_repo.find_attachments_by_task_id id s.db) s <| λ attachments.
      let (s', r) = delete_attachment_objects id attachments s in
      attempt r s' <| λ _. attempt (uc.task_repo.delete id s'.db) s' <| λ db. (
        record s' {
          db = db;
          cache = invalidate_task_caches uc id s'.cache;
          published =
              publish_task_event uc
                (record {
                  aggregate_id = id;
                  payload = Payload.deleted (get_creator_id_from_context ctx);
                })
                s'.published;
        },
        ok tt,
      )
