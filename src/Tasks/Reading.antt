-- ===== src/Tasks/Reading.antt =====
-- The methods of TaskUseCase (internal/application/usecase/task/task_usecase.go) that read: GetTask
-- and ListTasks, which look in the cache first, SearchTasks and GetOverdueTasks.
use go_clean_arch_poc.Base.{GoString, none, some, List, [], ◌<|◌}
use go_clean_arch_poc.Domain.Error.{Result, ok, err, ◌>>=◌, err_task_not_found}
use go_clean_arch_poc.Domain.Task.{Uuid, Time}
use go_clean_arch_poc.Domain.Label.{Label}
use go_clean_arch_poc.Cache.Keys.{task, task_list}
use go_clean_arch_poc.Cache.Aside.{lookup, store}
use go_clean_arch_poc.Auth.Sessions.{attempt, attempt_some}
use go_clean_arch_poc.Tasks.Ports.{
  TaskFilter, Pagination, TaskOutput, TaskListOutput, TaskState, TaskUseCase,
}
use go_clean_arch_poc.Tasks.Shared.{
  keys, entity_cache_ttl, list_cache_ttl, task_from_entity, list_output, build_task_list_cache_key,
}

-- The labels, or none where reading them failed.
abbrev pub or_no_labels : Result (List Label) → List Label
or_no_labels (ok labels) = labels
or_no_labels (err _) = []

module _ {C D F P : Type 0} (uc : TaskUseCase C D F P) where
  unfoldable pub get_task : Time → Uuid → TaskState C D F P → TaskState C D F P × Result TaskOutput
  get_task now id s =
      let key = task keys (uc.uuids.string id) in
      elim (lookup uc.cache_repo uc.task_json now key s.cache) [
        | some cached ↦ (s, ok cached)
        | none ↦ attempt_some (uc.task_repo.find_by_id id s.db) err_task_not_found s <| λ t.
            let out = record (task_from_entity now t) {
              labels = or_no_labels (uc.label_repo.find_by_task_id id s.db);
            } in
            (
              record s {
                cache = store uc.cache_repo uc.task_json now key out entity_cache_ttl s.cache;
              },
              ok out,
            )
      ]

  unfoldable pub list_tasks :
      Time → TaskFilter → Pagination → TaskState C D F P → TaskState C D F P × Result TaskListOutput
  unfolding build_task_list_cache_key
  list_tasks now filter pagination s = attempt (uc.validator.filter filter) s <| λ _.
      attempt (uc.validator.pagination pagination) s <| λ _.
      let key = task_list keys (build_task_list_cache_key uc filter pagination) in
      elim (lookup uc.cache_repo uc.list_json now key s.cache) [
        | some cached ↦ (s, ok cached)
        | none ↦ attempt (uc.task_repo.find_all filter pagination s.db) s <| λ found.
            let out = list_output now found.0 found.1 in
            (
              record s {
                cache = store uc.cache_repo uc.list_json now key out list_cache_ttl s.cache;
              },
              ok out,
            )
      ]

  unfoldable pub search_tasks :
      Time → GoString → Pagination → TaskState C D F P → Result TaskListOutput
  search_tasks now query pagination s =
      uc.task_repo.search query pagination s.db >>= λ found. ok (list_output now found.0 found.1)

  unfoldable pub get_overdue_tasks : Time → Pagination → TaskState C D F P → Result TaskListOutput
  get_overdue_tasks now pagination s = uc.task_repo.find_overdue now pagination s.db >>= λ found.
      ok (list_output now found.0 found.1)
