-- ===== src/Domain/Task/Transitions.antt =====
-- The status transitions of a task: ChangeStatus, Complete and Archive (task.go) against
-- CanTransitionTo (task_status.go).
use go_clean_arch_poc.Base.{true, false, not, ◌||◌, ◌&&◌, ◌≡◌, ◌≢◌, ◌↔◌, ◌⊎◌, arith, str_eq}
use go_clean_arch_poc.Domain.Error.{Error, EntityError, ok, err, is_ok, ◌>>=◌}
use go_clean_arch_poc.Domain.Status.{
  TaskStatus, done, archived, is_valid, is_terminal, can_transition_to,
}
use go_clean_arch_poc.Domain.Task.{Time, Task, change_status, complete, archive}

-- ChangeStatus succeeds exactly if the task is not archived, the new status is one of the five,
-- and the task is not done or goes to archived; the new task has that status and the time of the
-- call, and nothing else changes.
pub change_status-eq-ok :
    (now : Time) (s : TaskStatus) (t t' : Task)
    → (change_status now s t ≡ ok t') ↔ (
        (t.status ≢ archived)
        × (is_valid s ≡ true)
        × ((t.status ≢ done) ⊎ (s ≡ archived))
        × (t' ≡ record t { status = s; updated_at = now }))
unfolding change_status
change_status-eq-ok now s t t' =
    (λ h. (ground arith, ground arith, ground arith, ground arith), λ h. ground arith)

-- On valid statuses ChangeStatus accepts what CanTransitionTo allows, and one thing more:
-- archiving a task that is not done.
pub change_status-can_transition_to :
    (now : Time) (s : TaskStatus) (t : Task)
    → is_valid s ≡ true
    → is_ok (change_status now s t)
      ≡ (can_transition_to t.status s || (str_eq s archived && not (is_terminal t.status)))
unfolding change_status can_transition_to is_terminal
change_status-can_transition_to now s t h = ground arith

-- Archive refuses every task that is not done, and ChangeStatus archives each of those that is not
-- archived, which CanTransitionTo forbids.
pub archive_bypassed :
    (now : Time) (t : Task)
    → t.status ≢ done
    → t.status ≢ archived
    → (archive now t ≡ err (Error.entity EntityError.task_not_done))
      × (can_transition_to t.status archived ≡ false)
      × (change_status now archived t ≡ ok (record t { status = archived; updated_at = now }))
unfolding archive change_status can_transition_to is_valid
archive_bypassed now t h k = (ground arith, ground arith, ground arith)

-- A task that is completed and then archived ends archived, from every status but archived.
pub complete-archive :
    (now later : Time) (t : Task)
    → t.status ≢ archived
    → (complete now t >>= λ t'. archive later t')
      ≡ ok (record t { status = archived; updated_at = later })
unfolding complete archive
complete-archive now later t h = ground arith
