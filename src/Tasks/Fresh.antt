-- ===== src/Tasks/Fresh.antt =====
-- What GetTask and ListTasks (internal/application/usecase/task/task_usecase.go) answer from the cache:
-- nothing that was read before a change, and what the first of two reads has stored.
use go_clean_arch_poc.Base.{
  ℕ, ◌+◌, ◌*◌, ◌≤◌, GoString, false, ◌≡◌, refl, arith, Option, none, some, str_eq_refl,
  if◌then◌else◌,
}
use go_clean_arch_poc.Base.Json.{Json}
use go_clean_arch_poc.Base.Int.{pos}
use go_clean_arch_poc.Domain.Error.{ok}
use go_clean_arch_poc.Domain.Task.{Uuid, Time}
use go_clean_arch_poc.Cache.Keys.{task, task_list}
use go_clean_arch_poc.Cache.Memory.Laws.{has_lapsed}
use go_clean_arch_poc.Cache.Aside.{get_json, set_json, lookup, store}
use go_clean_arch_poc.Auth.Jwt.{TokenClaims}
use go_clean_arch_poc.Tasks.Ports.{TaskFilter, Pagination, TaskOutput, TaskState, TaskUseCase}
use go_clean_arch_poc.Tasks.Shared.{keys, build_task_list_cache_key, invalidate_task_caches}
use go_clean_arch_poc.Tasks.Reading.{get_task, list_tasks}
use go_clean_arch_poc.Tasks.Caches.{is_task_key, task_list-has_prefix, get-invalidate_task_caches}
use go_clean_arch_poc.Tasks.Calls.{TaskCall, call, call-ok}

module _ {C D F P : Type 0} (uc : TaskUseCase C D F P) where
  lookup-invalidate_task_caches :
      {A : Type 0} (json : Json A) (now : Time) (id : Uuid) (key : GoString) (o : Option C)
      → lookup uc.cache_repo json now key (invalidate_task_caches uc id o) ≡ (
          if is_task_key (uc.uuids.string id) key
          then none
          else lookup uc.cache_repo json now key o)
  unfolding lookup get_json invalidate_task_caches
  lookup-invalidate_task_caches json now id key none = ground arith
  lookup-invalidate_task_caches json now id key (some c) =
      ground (arith, get-invalidate_task_caches uc now id key c _ refl)

  -- GetTask without a cache to look in.
  abbrev pub uncached : TaskState C D F P → TaskState C D F P
  uncached s = record s { cache = none }

  get_task-miss :
      (now : Time) (id : Uuid) (s : TaskState C D F P)
      → lookup uc.cache_repo uc.task_json now (task keys (uc.uuids.string id)) s.cache ≡ none
      → (get_task uc now id s).1 ≡ (get_task uc now id (uncached s)).1
  unfolding get_task lookup
  get_task-miss now id s h = ground arith

  list_tasks-miss :
      (now : Time) (filter : TaskFilter) (p : Pagination) (s : TaskState C D F P)
      → lookup uc.cache_repo uc.list_json now
          (task_list keys (build_task_list_cache_key uc filter p))
          s.cache
        ≡ none
      → (list_tasks uc now filter p s).1 ≡ (list_tasks uc now filter p (uncached s)).1
  unfolding list_tasks lookup
  list_tasks-miss now filter p s h = ground arith

  pub call-get_task :
      (now later : Time) (ctx : Option TokenClaims) (id : Uuid) (c : TaskCall)
      (s s' : TaskState C D F P) (out : TaskOutput)
      → call uc now ctx id c s ≡ (s', ok out)
      → (get_task uc later id s').1 ≡ (get_task uc later id (uncached s')).1
  call-get_task now later ctx id c s s' out h =
      let key = task keys (uc.uuids.string id) in
      get_task-miss later id s' (
        ground (
          arith,
          (call-ok uc now ctx id c s s' out h).dropped,
          str_eq_refl key,
          lookup-invalidate_task_caches uc.task_json later id key s.cache,
        ))

  call-list_tasks :
      (now later : Time) (ctx : Option TokenClaims) (id : Uuid) (c : TaskCall) (filter : TaskFilter)
      (p : Pagination) (s s' : TaskState C D F P) (out : TaskOutput)
      → call uc now ctx id c s ≡ (s', ok out)
      → (list_tasks uc later filter p s').1 ≡ (list_tasks uc later filter p (uncached s')).1
  call-list_tasks now later ctx id c filter p s s' out h =
      let hash = build_task_list_cache_key uc filter p in
      list_tasks-miss later filter p s' (
        ground (
          arith,
          (call-ok uc now ctx id c s s' out h).dropped,
          task_list-has_prefix keys hash,
          lookup-invalidate_task_caches uc.list_json later id (task_list keys hash) s.cache,
        ))

  -- After a call that changes a task and returns no error GetTask of it, and ListTasks with any
  -- filter, answer at any time as they would without a cache.
  pub call-fresh :
      (now later : Time) (ctx : Option TokenClaims) (id : Uuid) (c : TaskCall) (filter : TaskFilter)
      (p : Pagination) (s s' : TaskState C D F P) (out : TaskOutput)
      → call uc now ctx id c s ≡ (s', ok out)
      → ((get_task uc later id s').1 ≡ (get_task uc later id (uncached s')).1)
        × ((list_tasks uc later filter p s').1 ≡ (list_tasks uc later filter p (uncached s')).1)
  call-fresh now later ctx id c filter p s s' out h = (
    call-get_task now later ctx id c s s' out h,
    call-list_tasks now later ctx id c filter p s s' out h,
  )

  pub lookup-store :
      {A : Type 0} (json : Json A) (now later : Time) (key text : GoString) (x : A) (n : ℕ) (c : C)
      → json.marshal x ≡ some text
      → has_lapsed now later (pos n) ≡ false
      → lookup uc.cache_repo json later key (store uc.cache_repo json now key x (pos n) (some c))
        ≡ some (json.as_read x)
  unfolding lookup get_json store set_json
  lookup-store json now later key text x n c m l = ground (
    arith,
    uc.cache_repo.get-set now later key key text (pos n) c,
    str_eq_refl key,
    json.unmarshal-marshal x text m,
  )

  -- What GetTask has read and stored it answers again for five minutes, as JSON gives it back,
  -- whatever becomes of the database.
  pub get_task-again :
      (now later : Time) (id : Uuid) (s s' : TaskState C D F P) (c : C) (d : D) (out : TaskOutput)
      (text : GoString)
      → s.cache ≡ some c
      → lookup uc.cache_repo uc.task_json now (task keys (uc.uuids.string id)) (some c) ≡ none
      → get_task uc now id s ≡ (s', ok out)
      → uc.task_json.marshal out ≡ some text
      → later ≤ now + 5 * 60 * 1000000000
      → get_task uc later id (record s' { db = d })
        ≡ (record s' { db = d }, ok (uc.task_json.as_read out))
  unfolding get_task has_lapsed
  get_task-again now later id s s' c d out text hc miss h m l =
      let kept : has_lapsed now later (pos (5 * 60 * 1000000000)) ≡ false = ground arith in
      ground (
        arith,
        lookup-store uc.task_json now later (task keys (uc.uuids.string id)) text out
            (5 * 60 * 1000000000) c m kept,
      )
