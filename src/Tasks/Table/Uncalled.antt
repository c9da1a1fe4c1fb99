-- ===== src/Tasks/Table/Uncalled.antt =====
-- The methods of TaskRepository (internal/infrastructure/database/repository/task_repository.go) that
-- no use case calls.
use go_clean_arch_poc.Base.{ℕ, not, none, some, List, [], length, ◌==◌, str_eq}
use go_clean_arch_poc.Domain.Error.{Result, ok}
use go_clean_arch_poc.Domain.Status.{TaskStatus}
use go_clean_arch_poc.Domain.Task.{Task, Uuid}
use go_clean_arch_poc.Tasks.Ports.{PaginatedResult, Pagination, TaskFilter}
use go_clean_arch_poc.Tasks.Table.{Postgres, TaskDb, find_all, keep_rows}

abbrev any_task : TaskFilter
any_task = record {
  status = none;
  priority = none;
  assignee_id = none;
  creator_id = none;
  label_ids = [];
  search = [];
  is_overdue = none;
}

unfoldable pub find_by_assignee :
    Postgres → Uuid → Pagination → TaskDb → Result (List Task × PaginatedResult)
unfolding find_all
find_by_assignee pg assignee_id p d =
    find_all pg (record any_task { assignee_id = some assignee_id }) p d

unfoldable pub find_by_creator :
    Postgres → Uuid → Pagination → TaskDb → Result (List Task × PaginatedResult)
unfolding find_all
find_by_creator pg creator_id p d =
    find_all pg (record any_task { creator_id = some creator_id }) p d

unfoldable pub count_by_status : TaskStatus → TaskDb → Result ℕ
count_by_status status d = ok (length (keep_rows (λ r. str_eq r.status status) d.tasks))

unfoldable pub delete_attachments_by_task_id : Uuid → TaskDb → Result TaskDb
delete_attachments_by_task_id task_id d =
    ok (record d { attachments = keep_rows (λ r. not (r.task_id == task_id)) d.attachments })
