-- ===== src/Tests/Tasks.antt =====
-- Tasks and roles at concrete inputs (internal/domain/entity/task.go, role.go).
use go_clean_arch_poc.Base.{
  ℕ, ◌≡◌, ◌||◌, ◌&&◌, refl, bytes, not, none, some, List, [], ◌∷◌, any, str_eq, str_discrete,
}
use go_clean_arch_poc.Domain.Error.{ok, is_ok}
use go_clean_arch_poc.Domain.Status
use go_clean_arch_poc.Domain.Status.{done, archived, can_transition_to, is_terminal}
use go_clean_arch_poc.Domain.Priority
use go_clean_arch_poc.Domain.Task.{Task, new_task, change_status}
use go_clean_arch_poc.Domain.Task.Lifecycle.{TaskOp, IsValid, run, run-new_task-IsValid}
use go_clean_arch_poc.Domain.Task.Transitions.{change_status-can_transition_to}
use go_clean_arch_poc.Domain.Role.{Permission, Role, matches, role_has_permission, star}
use go_clean_arch_poc.Domain.Role.Grants.{role_has_permission-matches}

abbrev pub report : Task
report = record {
  id = 1;
  title = bytes "Report";
  description = [];
  status = Status.in_review;
  priority = Priority.medium;
  due_date = none;
  assignee_id = some 5;
  creator_id = 4;
  labels = 7 ∷ 8 ∷ [];
  created_at = 10;
  updated_at = 10;
}

abbrev old_report : Task
old_report = record report { status = archived }

abbrev calls : List (ℕ × TaskOp)
calls =
    (11, TaskOp.assign 6)
    ∷ (12, TaskOp.complete)
    ∷ (13, TaskOp.change_status Status.todo)
    ∷ (14, TaskOp.archive)
    ∷ []

abbrev first_report : Task
first_report = record report { status = Status.todo; labels = []; assignee_id = none }

first_report-new : new_task 10 1 (bytes "Report") [] Priority.medium 4 ≡ ok first_report
unfolding new_task Priority.is_valid str_discrete
first_report-new = refl

run-new_task-IsValid_example : IsValid (run calls first_report)
run-new_task-IsValid_example =
    run-new_task-IsValid 10 1 (bytes "Report") [] Priority.medium 4 calls first_report-new

change_status-can_transition_to_example : is_ok (change_status 20 archived report) ≡ (
    can_transition_to Status.in_review archived
    || (str_eq archived archived && not (is_terminal Status.in_review)))
unfolding Status.is_valid str_discrete
change_status-can_transition_to_example = change_status-can_transition_to 20 archived report refl

abbrev read_all : Permission
read_all = record {
  id = 1;
  name = bytes "read all";
  resource = star;
  action = bytes "read";
  created_at = 0;
}

abbrev auditor : Role
auditor = record {
  id = 2;
  name = bytes "auditor";
  description = [];
  permissions = read_all ∷ [];
  created_at = 0;
  updated_at = 0;
}

role_has_permission-matches_example :
    role_has_permission auditor (bytes "tasks") (bytes "delete")
    ≡ any
        (λ p. matches p (bytes "tasks") (bytes "delete") || str_eq p.resource star)
        auditor.permissions
role_has_permission-matches_example =
    role_has_permission-matches auditor (bytes "tasks") (bytes "delete")
