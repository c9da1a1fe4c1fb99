-- ===== src/Tasks/Shared.antt =====
-- What the methods of TaskUseCase (internal/application/usecase/task/task_usecase.go) share: outputs,
-- events, caches and their keys.
use go_clean_arch_poc.Base.{
  GoString, bytes, Bool, true, false, Option, none, some, List, [], ◌∷◌, ◌++◌, map, if◌then◌else◌,
  ◌*◌, ◌<|◌, ℕ,
}
use go_clean_arch_poc.Base.Int.{Duration, pos}
use go_clean_arch_poc.Domain.Error.{Result, ok}
use go_clean_arch_poc.Domain.Task.{Uuid, Time, Task, is_overdue}
use go_clean_arch_poc.Domain.Event.{TaskEvent}
use go_clean_arch_poc.Cache.Keys.{CacheKeyBuilder, new_cache_key_builder, task, task_list}
use go_clean_arch_poc.Auth.Jwt.{TokenClaims}
use go_clean_arch_poc.Auth.Sessions.{attempt}
use go_clean_arch_poc.Tasks.Ports.{
  TaskFilter, Pagination, PaginatedResult, TaskOutput, TaskListOutput, TaskState, TaskUseCase,
  Printing,
}

abbrev pub keys : CacheKeyBuilder
keys = new_cache_key_builder (bytes "app")

abbrev pub entity_cache_ttl : Duration
entity_cache_ttl = pos (5 * 60 * 1000000000)

abbrev pub list_cache_ttl : Duration
list_cache_ttl = pos (2 * 60 * 1000000000)

abbrev pub topic_task_events : GoString
topic_task_events = bytes "task-events"

-- The user whose claims stand in the context, or the nil id.
abbrev pub get_creator_id_from_context : Option TokenClaims → Uuid
get_creator_id_from_context none = 0
get_creator_id_from_context (some claims) = claims.user_id

abbrev pub task_from_entity : Time → Task → TaskOutput
task_from_entity now t = record {
  id = t.id;
  title = t.title;
  description = t.description;
  status = t.status;
  priority = t.priority;
  due_date = t.due_date;
  assignee_id = t.assignee_id;
  creator_id = t.creator_id;
  labels = [];
  is_overdue = is_overdue now t;
  created_at = t.created_at;
  updated_at = t.updated_at;
}

abbrev pub list_output : Time → List Task → PaginatedResult → TaskListOutput
list_output now tasks result = record {
  tasks = map (task_from_entity now) tasks;
  total = result.total;
  page = result.page;
  page_size = result.page_size;
  total_pages = result.total_pages;
}

-- `name=text|`
abbrev pub part : GoString → GoString → GoString
part name text = name ++ (bytes "=" ++ (text ++ bytes "|"))

abbrev pub optional_part : GoString → Option GoString → GoString
optional_part name none = []
optional_part name (some text) = part name text

abbrev pub print_bool : Bool → GoString
print_bool true = bytes "true"
print_bool false = bytes "false"

unfoldable pub pagination_text : Printing → Pagination → GoString
pagination_text printing p =
    part (bytes "page") (printing.decimal p.page)
    ++ (part (bytes "size") (printing.decimal p.page_size)
        ++ (part (bytes "sort") p.sort_by ++ (bytes "desc=" ++ print_bool p.sort_desc)))

module _ {C D F P : Type 0} (uc : TaskUseCase C D F P) where
  -- An event that cannot be published is logged and lost.
  unfoldable pub publish_task_event : TaskEvent → P → P
  publish_task_event evt p = elim uc.event_publisher [
    | none ↦ p
    | some publisher ↦ (publisher.publish topic_task_events evt p).0
  ]

  unfoldable pub publish_given : Option TaskEvent → P → P
  unfolding publish_task_event
  publish_given none p = p
  publish_given (some evt) p = publish_task_event evt p

  unfoldable pub drop_task_lists : C → C
  drop_task_lists c = uc.cache_repo.delete_pattern (task_list keys [] ++ bytes "*") c

  unfoldable pub invalidate_task_list_caches : Option C → Option C
  unfolding drop_task_lists
  invalidate_task_list_caches none = none
  invalidate_task_list_caches (some c) = some (drop_task_lists c)

  unfoldable pub invalidate_task_caches : Uuid → Option C → Option C
  unfolding drop_task_lists
  invalidate_task_caches task_id none = none
  invalidate_task_caches task_id (some c) =
      some (drop_task_lists (uc.cache_repo.delete (task keys (uc.uuids.string task_id)) c))

  -- The end of each method that changes a task: the write, the caches, the event if there is one, the
  -- output.
  unfoldable pub save_changes :
      Time
      → Uuid
      → Task
      → Option TaskEvent
      → TaskState C D F P
      → TaskState C D F P × Result TaskOutput
  unfolding invalidate_task_caches publish_given
  save_changes now task_id t evt s = attempt (uc.task_repo.update t s.db) s <| λ db. (
    record s {
      db = db;
      cache = invalidate_task_caches task_id s.cache;
      published = publish_given evt s.published;
    },
    ok (task_from_entity now t),
  )

  -- `sort.Slice` on the texts of the ids; ids with one text are the same.
  unfoldable pub insert_id : Uuid → List Uuid → List Uuid
  insert_id id [] = id ∷ []
  insert_id id (x ∷ xs) =
      let rest = insert_id id xs in
      if uc.printing.less (uc.uuids.string x) (uc.uuids.string id) then x ∷ rest else id ∷ x ∷ xs

  unfoldable pub sort_ids : List Uuid → List Uuid
  unfolding insert_id
  sort_ids [] = []
  sort_ids (x ∷ xs) = insert_id x (sort_ids xs)

  abbrev pub optional_id : Option Uuid → Option GoString
  optional_id none = none
  optional_id (some id) = some (uc.uuids.string id)

  abbrev pub label_parts : List Uuid → GoString
  label_parts [] = []
  label_parts (id ∷ ids) = part (bytes "label") (uc.uuids.string id) ++ label_parts ids

  -- `%v` of a `*bool` prints the address, or `<nil>`.
  abbrev pub print_pointer : Option (ℕ × Bool) → GoString
  print_pointer none = bytes "<nil>"
  print_pointer (some (address, value)) = uc.printing.address address

  unfoldable pub filter_text : TaskFilter → GoString
  unfolding sort_ids
  filter_text filter =
      part (bytes "search") filter.search
      ++ (optional_part (bytes "assignee") (optional_id filter.assignee_id)
          ++ (optional_part (bytes "creator") (optional_id filter.creator_id)
              ++ (part (bytes "overdue") (print_pointer filter.is_overdue)
                  ++ (label_parts (sort_ids filter.label_ids)
                      ++ (optional_part (bytes "status") filter.status
                          ++ optional_part (bytes "priority") filter.priority)))))

  unfoldable pub build_task_list_cache_key : TaskFilter → Pagination → GoString
  unfolding filter_text pagination_text
  build_task_list_cache_key filter p =
      uc.printing.sha256_hex (filter_text filter ++ pagination_text uc.printing p)
