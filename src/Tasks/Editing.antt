-- ===== src/Tasks/Editing.antt =====
-- The methods of TaskUseCase (internal/application/usecase/task/task_usecase.go) that make one change
-- to one task. `ctx` is the claims that the context holds. What a method logs is left out.
use go_clean_arch_poc.Base.{GoString, Option, none, some, ◌<|◌}
use go_clean_arch_poc.Domain.Error.{
  Result, err_task_not_found, err_user_not_found, err_label_not_found,
}
use go_clean_arch_poc.Domain.Status.{parse_task_status}
use go_clean_arch_poc.Domain.Task
use go_clean_arch_poc.Domain.Task.{
  Uuid, Time, Task, assign, unassign, change_status, complete, archive,
}
use go_clean_arch_poc.Domain.Event.{TaskEvent, Payload, new_task_status_changed}
use go_clean_arch_poc.Auth.Jwt.{TokenClaims}
use go_clean_arch_poc.Auth.Sessions.{attempt, attempt_some}
use go_clean_arch_poc.Tasks.Ports.{TaskOutput, TaskState, TaskUseCase}
use go_clean_arch_poc.Tasks.Shared.{get_creator_id_from_context, save_changes}
use go_clean_arch_poc.Tasks.Writing.{present}

abbrev pub event_of : Uuid → Payload → TaskEvent
event_of task_id payload = record { aggregate_id = task_id; payload = payload }

module _ {C D F P : Type 0} (uc : TaskUseCase C D F P) where
  -- What each method gives: the new state, and the task as it was written.
  abbrev pub Outcome : Type 0
  Outcome = TaskState C D F P × Result TaskOutput

  unfoldable pub assign_task : Time → Option TokenClaims → Uuid → Uuid → TaskState C D F P → Outcome
  unfolding save_changes
  assign_task now ctx task_id assignee_id s =
      attempt_some (uc.task_repo.find_by_id task_id s.db) err_task_not_found s <| λ t.
      attempt (present uc (uc.user_repo.exists_by_id assignee_id s.db) err_user_not_found) s <| λ _.
      attempt (assign now assignee_id t) s <| λ t'.
      save_changes uc now task_id t'
        (some (event_of task_id (Payload.assigned assignee_id (get_creator_id_from_context ctx)))) s

  unfoldable pub unassign_task : Time → Option TokenClaims → Uuid → TaskState C D F P → Outcome
  unfolding save_changes
  unassign_task now ctx task_id s =
      attempt_some (uc.task_repo.find_by_id task_id s.db) err_task_not_found s <| λ t.
      save_changes uc now task_id (unassign now t)
        (elim t.assignee_id [
          | none ↦ none
          | some previous ↦
              some
                (event_of task_id (Payload.unassigned previous (get_creator_id_from_context ctx)))
        ])
        s

  unfoldable pub change_task_status :
      Time → Option TokenClaims → Uuid → GoString → TaskState C D F P → Outcome
  unfolding save_changes
  change_task_status now ctx task_id status s =
      attempt (parse_task_status status) s <| λ new_status.
      attempt_some (uc.task_repo.find_by_id task_id s.db) err_task_not_found s <| λ t.
      attempt (change_status now new_status t) s <| λ t'.
      save_changes uc now task_id t'
        (some
          (new_task_status_changed task_id t.status new_status (get_creator_id_from_context ctx)))
        s

  unfoldable pub complete_task : Time → Option TokenClaims → Uuid → TaskState C D F P → Outcome
  unfolding save_changes
  complete_task now ctx task_id s =
      attempt_some (uc.task_repo.find_by_id task_id s.db) err_task_not_found s <| λ t.
      attempt (complete now t) s <| λ t'.
      save_changes uc now task_id t'
        (some (event_of task_id (Payload.completed (get_creator_id_from_context ctx)))) s

  unfoldable pub archive_task : Time → Option TokenClaims → Uuid → TaskState C D F P → Outcome
  unfolding save_changes
  archive_task now ctx task_id s =
      attempt_some (uc.task_repo.find_by_id task_id s.db) err_task_not_found s <| λ t.
      attempt (archive now t) s <| λ t'.
      save_changes uc now task_id t'
        (some (event_of task_id (Payload.archived (get_creator_id_from_context ctx)))) s

  unfoldable pub add_label : Time → Option TokenClaims → Uuid → Uuid → TaskState C D F P → Outcome
  unfolding save_changes
  add_label now ctx task_id label_id s =
      attempt_some (uc.task_repo.find_by_id task_id s.db) err_task_not_found s <| λ t.
      attempt (present uc (uc.label_repo.exists_by_id label_id s.db) err_label_not_found) s <| λ _.
      save_changes uc now task_id (Task.add_label now label_id t)
        (some (event_of task_id (Payload.label_added label_id (get_creator_id_from_context ctx)))) s

  unfoldable pub remove_label :
      Time → Option TokenClaims → Uuid → Uuid → TaskState C D F P → Outcome
  unfolding save_changes
  remove_label now ctx task_id label_id s =
      attempt_some (uc.task_repo.find_by_id task_id s.db) err_task_not_found s <| λ t.
      save_changes uc now task_id (Task.remove_label now label_id t)
        (some (event_of task_id (Payload.label_removed label_id (get_creator_id_from_context ctx))))
        s
