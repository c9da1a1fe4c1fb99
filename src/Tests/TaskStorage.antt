-- ===== src/Tests/TaskStorage.antt =====
-- Attachments, lists and descriptions of tasks, and the consumer of events, at concrete inputs
-- (internal/application/usecase/task/task_usecase.go, internal/application/worker/event_consumer.go).
use go_clean_arch_poc.Base.{
  ◌↔◌, ltb, str_eq, ◌||◌, ◌==◌, if◌then◌else◌, GoString, Bool, Option, ◌+◌, ◌*◌, bytes, ◌≡◌, refl,
  arith, true, false, none, some, List, [], ◌∷◌, ◌++◌, map, length, str_discrete,
}
use go_clean_arch_poc.Base.Dict
use go_clean_arch_poc.Cache.Memory
use go_clean_arch_poc.Cache.Memory.{MemoryCache, new_memory_cache}
use go_clean_arch_poc.Cache.Port.{memory_repository}
use go_clean_arch_poc.Cache.Aside.{lookup, get_json}
use go_clean_arch_poc.Domain.Error.{Error, Result, ok, err}
use go_clean_arch_poc.Domain.Task
use go_clean_arch_poc.Domain.TaskAttachment.{TaskAttachment}
use go_clean_arch_poc.Domain.Event.{TaskEvent, new_task_attachment_cleanup_requested}
use go_clean_arch_poc.Messaging.EventBus.{channels, send}
use go_clean_arch_poc.Tasks.Ports.{TaskFilter, TaskListOutput, TaskOutput, UpdateTaskInput}
use go_clean_arch_poc.Tasks.Shared.{
  topic_task_events, save_changes, invalidate_task_caches, drop_task_lists,
}
use go_clean_arch_poc.Tasks.Writing.{
  apply_updates, delete_attachment_object, delete_attachment_objects, delete_task, update_task,
}
use go_clean_arch_poc.Tasks.Attachments.{delete_task_attachment}
use go_clean_arch_poc.Tasks.Reading.{get_task, list_tasks}
use go_clean_arch_poc.Tasks.Table.{
  attachment_repository, table_repository, attachment_row, sqlc_attachment_to_entity, task_row,
  update_rows, updated_row, sqlc_task_to_entity, find_all, selected, with_pages, total_pages,
}
use go_clean_arch_poc.Tasks.Schema.{TaskRow, keep_rows}
use go_clean_arch_poc.Tasks.QueryBuilder.{
  limited, order_by, scan_page, scan_tasks, search, selected_page,
}
use go_clean_arch_poc.Tasks.Scanned.{asked_order, row_at, described_task, search-row_at}
use go_clean_arch_poc.Tasks.Rows.{find_all-status}
use go_clean_arch_poc.Tasks.Files.{AllSettled, delete_task-ok}
use go_clean_arch_poc.Tasks.ListKeys.{key-injected, list_tasks-same_key}
use go_clean_arch_poc.Tasks.Calls.{TaskCall, call}
use go_clean_arch_poc.Tasks.Stored.{update_task-old_description}
use go_clean_arch_poc.Workers.{EventConsumer, Consumes, new_event_consumer}
use go_clean_arch_poc.Workers.Consuming.{handle_all, HasEnded, Consumes-iff}
use go_clean_arch_poc.Workers.Cleanup.{on_bus, cleaning, delete_attachment_object-retried}
use go_clean_arch_poc.Tests.Libraries.{uuids}
use go_clean_arch_poc.Tests.TaskService.{
  Files, State, base, disk, empty_list, first_page, no_filter, out_of, postgres, service,
  start_state, report_row,
}

-- A search text that spells out an assignee, and the search with the assignee.
abbrev spelled : TaskFilter
spelled = record no_filter {
  search = bytes "a" ++ (bytes "|assignee=" ++ uuids.string 2);
  assignee_id = none;
}

abbrev assigned : TaskFilter
assigned = record no_filter { search = bytes "a"; assignee_id = some 2 }

abbrev listed : State × Result TaskListOutput
listed = list_tasks service 10 spelled first_page start_state

abbrev list_of : Result TaskListOutput → TaskListOutput
list_of (ok out) = out
list_of (err e) = empty_list

lists : listed ≡ (listed.0, ok (list_of listed.1))
unfolding list_tasks lookup get_json memory_repository Memory.get new_memory_cache Dict.get
    table_repository find_all with_pages total_pages selected
lists = refl

list_tasks-same_key_example :
    list_tasks service 20 assigned first_page listed.0 ≡ (listed.0, ok empty_list)
unfolding lookup get_json memory_repository Memory.get new_memory_cache Dict.get
list_tasks-same_key_example =
    list_tasks-same_key service 10 20 spelled assigned first_page start_state listed.0
      new_memory_cache (list_of listed.1) [] refl refl lists refl (omega arith) refl
      (key-injected service no_filter first_page (bytes "a") 2)

abbrev by_status : TaskFilter
by_status = record no_filter { status = some (bytes "TODO") }

find_all-status_example :
    find_all postgres by_status first_page start_state.db
    ≡ find_all postgres (record by_status { assignee_id = some 9 }) first_page start_state.db
find_all-status_example =
    find_all-status postgres by_status (record by_status { assignee_id = some 9 }) (bytes "TODO")
      first_page start_state.db refl refl

abbrev detached : State
detached = (delete_task_attachment service 7 3 start_state).0

abbrev deleted : State
deleted = (delete_task service none 7 start_state).0

deletes : delete_task service none 7 start_state ≡ (deleted, ok tt)
unfolding delete_task delete_attachment_objects delete_attachment_object attachment_repository
    attachment_row sqlc_attachment_to_entity table_repository
deletes = refl

delete_task-ok_example :
    (attachments : List TaskAttachment) × (s1 : State) × (service.task_repo.exists_by_id 7
        start_state.db
      ≡ ok true)
    × (service.attachment_repo.find_attachments_by_task_id 7 start_state.db ≡ ok attachments)
    × AllSettled service 7 attachments start_state s1
    × (service.task_repo.delete 7 start_state.db ≡ ok deleted.db)
    × (deleted.files ≡ s1.files)
    × (deleted.cache ≡ invalidate_task_caches service 7 start_state.cache)
delete_task-ok_example = delete_task-ok service none 7 start_state deleted deletes

abbrev clearing : UpdateTaskInput
clearing = record {
  title = none;
  description = some [];
  priority = none;
  due_date = none;
  clear_due_date = false;
}

abbrev cleared : State × Result TaskOutput
cleared = call service 10 none 7 (TaskCall.update clearing) start_state

clears : cleared ≡ (cleared.0, ok (out_of cleared.1))
unfolding call update_task apply_updates save_changes table_repository task_row update_rows
    updated_row sqlc_task_to_entity Task.update_description
clears = refl

abbrev reread : State × Result TaskOutput
reread = get_task service 20 7 cleared.0

rereads : reread ≡ (reread.0, ok (out_of reread.1))
unfolding call update_task apply_updates save_changes table_repository task_row update_rows
    updated_row sqlc_task_to_entity Task.update_description get_task lookup get_json
    memory_repository Memory.get new_memory_cache Dict.get invalidate_task_caches drop_task_lists
    Memory.delete Memory.delete_pattern Dict.remove_if Dict.remove
rereads = refl

update_task-old_description_example :
    ((out_of cleared.1).description ≡ []) × ((out_of reread.1).description ≡ bytes "draft")
unfolding table_repository task_row sqlc_task_to_entity
update_task-old_description_example =
    update_task-old_description base postgres 10 20 none 7 clearing start_state cleared.0 reread.0
      (sqlc_task_to_entity report_row) (out_of cleared.1) (out_of reread.1) refl refl clears rereads

abbrev cleaner : EventConsumer Files
cleaner = cleaning base disk new_event_consumer

abbrev request : TaskEvent
request = new_task_attachment_cleanup_requested 7 3 (bytes "k")

abbrev two_files : Files
two_files = bytes "k" ∷ bytes "l" ∷ []

Consumes-iff_example :
    Consumes cleaner true false (request ∷ request ∷ []) two_files [] []
    ↔ HasEnded cleaner true false (request ∷ request ∷ []) two_files [] []
Consumes-iff_example = Consumes-iff cleaner true false (request ∷ request ∷ []) [] two_files []

abbrev emptied : State
emptied = record start_state { files = [] }

delete_attachment_object-retried_example :
    let (s', r) = delete_attachment_object (on_bus base disk) 7 3 (bytes "k") emptied in
    (r ≡ ok tt)
    × (channels topic_task_events s'.published
        ≡ map (send request) (channels topic_task_events emptied.published))
    × (handle_all cleaner (send request (request ∷ [])) two_files
        ≡ (disk.delete (bytes "k") (handle_all cleaner (request ∷ []) two_files)).0)
delete_attachment_object-retried_example =
    delete_attachment_object-retried base disk new_event_consumer 7 3 (bytes "k") emptied []
      (Error.external 9) (request ∷ []) two_files refl (omega arith)

abbrev found_page : List TaskRow
found_page = report_row ∷ []

abbrev first_order : Option (GoString × Bool)
first_order = asked_order postgres first_page

searches :
    search postgres (bytes "rep") first_page found_page
    ≡ ok (sqlc_task_to_entity report_row ∷ [], 1)
unfolding search selected_page scan_page limited scan_tasks sqlc_task_to_entity order_by
    str_discrete
searches = refl

search-row_at_example :
    let titled = length (
      keep_rows
        (λ r. str_eq (bytes "rep") [] || postgres.ilike (bytes "rep") r.title)
        found_page) in
    let found = postgres.ordered first_order (
      keep_rows
        (λ r.
          str_eq (bytes "rep") []
          || (postgres.ilike (bytes "rep") r.title || elim r.description [
            | none ↦ false
            | some text ↦ postgres.ilike (bytes "rep") text
          ]))
        found_page) in
    (1 ≡ titled)
    × (row_at 0 (map some (sqlc_task_to_entity report_row ∷ [])) ≡ (
        if titled == 0
        then none
        else if ltb 0 20
        then row_at (0 * 20 + 0) (map described_task found)
        else none))
search-row_at_example =
    search-row_at postgres (bytes "rep") first_page found_page (sqlc_task_to_entity report_row ∷ [])
      1 0 20 0 refl refl (omega arith) (omega arith) (omega arith) searches
