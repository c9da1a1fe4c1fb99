-- ===== src/Tests/TaskService.antt =====
-- The use case of tasks at concrete inputs (internal/application/usecase/task/task_usecase.go): over the
-- in-memory cache, tables of one task with one attachment, a storage that fails once it is empty, and
-- the event bus.
use go_clean_arch_poc.Base.{
  str_eq, GoString, bytes, ◌≡◌, refl, arith, true, false, none, some, List, [], ◌∷◌, length,
  str_discrete,
}
use go_clean_arch_poc.Base.Json.{Json}
use go_clean_arch_poc.Base.Int.{pos}
use go_clean_arch_poc.Domain.Error.{Error, Result, ok, err}
use go_clean_arch_poc.Domain.Status
use go_clean_arch_poc.Domain.Task.{Task}
use go_clean_arch_poc.Domain.Event.{TaskEvent}
use go_clean_arch_poc.Cache.Memory.{MemoryCache, new_memory_cache}
use go_clean_arch_poc.Cache.Port.{memory_repository}
use go_clean_arch_poc.Messaging.EventBus.{EventBus, new_event_bus}
use go_clean_arch_poc.Tasks.Ports.{
  TaskOutput, TaskListOutput, TaskState, TaskUseCase, FileStorage, Validator, Printing,
  UserRepository, TaskFilter, Pagination,
}
use go_clean_arch_poc.Tasks.Table.{
  TaskDb, Postgres, table_repository, attachment_repository, task_label_repository,
}
use go_clean_arch_poc.Base.{all, ◌≤◌}
use go_clean_arch_poc.Base.Dict
use go_clean_arch_poc.Cache.Memory
use go_clean_arch_poc.Cache.Aside.{lookup, get_json}
use go_clean_arch_poc.Domain.Priority
use go_clean_arch_poc.Domain.Task
use go_clean_arch_poc.Domain.Task.Lifecycle.{stage}
use go_clean_arch_poc.Tasks.Shared.{save_changes, invalidate_task_caches, drop_task_lists}
use go_clean_arch_poc.Tasks.Editing
use go_clean_arch_poc.Tasks.Reading.{get_task, list_tasks, or_no_labels}
use go_clean_arch_poc.Tasks.Table.{TaskRow, task_row, update_rows, updated_row, sqlc_task_to_entity}
use go_clean_arch_poc.Tasks.Fresh.{uncached, call-fresh}
use go_clean_arch_poc.Tasks.Stored.{on_tables, add_label-lost}
use go_clean_arch_poc.Tasks.Valid.{is_valid_row, call-is_valid_row, call-stage}
use go_clean_arch_poc.Tasks.Calls.{TaskCall, call}
use go_clean_arch_poc.Workers.Cleanup.{bus_publisher}
use go_clean_arch_poc.Tests.Libraries.{uuids}

abbrev pub Files : Type 0
Files = List GoString

abbrev pub disk : FileStorage Files
disk = record {
  upload = λ key content options f. (key ∷ f, ok (record { key = key; size = length content }));
  download = λ key f. ok key;
  delete = λ key f. elim f [ [] ↦ ([], err (Error.external 9)) | _ ∷ more ↦ (more, ok tt) ];
}

abbrev pub empty_list : TaskListOutput
empty_list = record { tasks = []; total = 0; page = pos 1; page_size = pos 20; total_pages = pos 0 }

abbrev pub list_json : Json TaskListOutput
list_json = record {
  marshal = λ x. some [];
  unmarshal = λ text. some empty_list;
  as_read = λ x. empty_list;
  unmarshal-marshal = λ x text h. refl;
}

pub never : (x : TaskOutput) (text : GoString) → none ≡ some text → none ≡ some x
never x text h = ground arith

abbrev pub no_json : Json TaskOutput
no_json = record {
  marshal = λ x. none;
  unmarshal = λ text. none;
  as_read = λ x. x;
  unmarshal-marshal = λ x text h. never x text h;
}

abbrev pub accept_all : Validator
accept_all = record {
  create_task = λ i. ok tt;
  update_task = λ i. ok tt;
  filter = λ f. ok tt;
  pagination = λ p. ok tt;
}

abbrev pub printing : Printing
printing = record {
  decimal = λ i. bytes "1";
  address = λ a. bytes "0xc0";
  less = λ a b. false;
  sha256_hex = λ t. t;
}

abbrev pub postgres : Postgres
postgres = record {
  page = λ p rows. ok rows;
  matches_text = λ text r. true;
  ilike = λ query text. true;
  ordered = λ order rows. rows;
  equal_fold = str_eq;
}

abbrev pub everyone : UserRepository TaskDb
everyone = record { exists_by_id = λ id d. ok true }

abbrev pub base : TaskUseCase MemoryCache TaskDb Files (EventBus TaskEvent)
base = record {
  task_repo = table_repository postgres;
  attachment_repo = attachment_repository;
  user_repo = everyone;
  label_repo = task_label_repository;
  file_storage = some disk;
  cache_repo = memory_repository;
  event_publisher = some bus_publisher;
  validator = accept_all;
  uuids = uuids;
  task_json = no_json;
  list_json = list_json;
  printing = printing;
}

abbrev pub report_row : TaskRow
report_row = record {
  id = 7;
  title = bytes "report";
  description = some (bytes "draft");
  status = Status.todo;
  priority = bytes "LOW";
  due_date = none;
  assignee_id = none;
  creator_id = 5;
  created_at = 1;
  updated_at = 1;
}

abbrev pub tables : TaskDb
tables = record {
  tasks = report_row ∷ [];
  attachments =
      record {
        id = 3;
        task_id = 7;
        filename = bytes "a.txt";
        s3_key = bytes "k";
        content_type = none;
        size_bytes = some 4;
        uploaded_by = some 5;
        created_at = 2;
      }
      ∷ [];
  task_labels = [];
  labels =
      record { id = 4; name = bytes "bug"; color = bytes "#f00"; created_at = 0; updated_at = 0 }
      ∷ [];
}

abbrev pub start_state : TaskState MemoryCache TaskDb Files (EventBus TaskEvent)
start_state = record {
  cache = some new_memory_cache;
  db = tables;
  files = bytes "k" ∷ [];
  published = new_event_bus;
}

abbrev pub out_of : Result TaskOutput → TaskOutput
out_of (ok out) = out
out_of (err e) = record {
  id = 0;
  title = [];
  description = [];
  status = [];
  priority = [];
  due_date = none;
  assignee_id = none;
  creator_id = 0;
  labels = [];
  is_overdue = false;
  created_at = 0;
  updated_at = 0;
}

abbrev pub service : TaskUseCase MemoryCache TaskDb Files (EventBus TaskEvent)
service = on_tables base postgres

abbrev pub State : Type 0
State = TaskState MemoryCache TaskDb Files (EventBus TaskEvent)

abbrev pub label_4 : TaskCall
label_4 = TaskCall.add_label 4

abbrev pub labelled : State
labelled = (call service 10 none 7 label_4 start_state).0

abbrev pub labelled_out : TaskOutput
labelled_out = out_of (call service 10 none 7 label_4 start_state).1

labels : call service 10 none 7 label_4 start_state ≡ (labelled, ok labelled_out)
unfolding call Editing.add_label save_changes table_repository task_label_repository task_row
    update_rows updated_row sqlc_task_to_entity Task.add_label
labels = refl

abbrev pub no_filter : TaskFilter
no_filter = record {
  status = none;
  priority = none;
  assignee_id = none;
  creator_id = none;
  label_ids = [];
  search = [];
  is_overdue = none;
}

abbrev pub first_page : Pagination
first_page = record { page = pos 1; page_size = pos 20; sort_by = []; sort_desc = false }

call-fresh_example :
    ((get_task service 20 7 labelled).1 ≡ (get_task service 20 7 (uncached service labelled)).1)
    × ((list_tasks service 20 no_filter first_page labelled).1
        ≡ (list_tasks service 20 no_filter first_page (uncached service labelled)).1)
call-fresh_example =
    call-fresh service 10 20 none 7 label_4 no_filter first_page start_state labelled labelled_out
      labels

abbrev pub read_again : State × Result TaskOutput
read_again = get_task service 20 7 labelled

reads_again : read_again ≡ (read_again.0, ok (out_of read_again.1))
unfolding call Editing.add_label save_changes table_repository task_label_repository task_row
    update_rows updated_row sqlc_task_to_entity Task.add_label get_task lookup get_json
    memory_repository Memory.get new_memory_cache Dict.get invalidate_task_caches drop_task_lists
    Memory.delete Memory.delete_pattern Dict.remove_if Dict.remove
reads_again = refl

add_label-lost_example :
    (out_of read_again.1).labels
    ≡ or_no_labels (service.label_repo.find_by_task_id 7 start_state.db)
add_label-lost_example =
    add_label-lost base postgres 10 20 none 7 4 start_state labelled read_again.0 labelled_out
      (out_of read_again.1) labels reads_again

call-is_valid_row_example :
    all is_valid_row (call service 10 none 7 label_4 start_state).0.db.tasks ≡ true
unfolding str_discrete Status.is_valid Priority.is_valid
call-is_valid_row_example = call-is_valid_row base postgres 10 none 7 label_4 start_state refl

call-stage_example :
    (r : TaskRow) × (task_row 7 (call service 10 none 7 TaskCall.complete start_state).0.db.tasks
      ≡ some r)
    × (stage Status.todo ≤ stage r.status)
unfolding task_row
call-stage_example =
    call-stage base postgres 10 none 7 7 TaskCall.complete start_state report_row refl
