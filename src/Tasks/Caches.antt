-- ===== src/Tasks/Caches.antt =====
-- What the cache holds after TaskUseCase (internal/application/usecase/task/task_usecase.go) has
-- invalidated its keys.
use go_clean_arch_poc.Base.{
  GoString, bytes, Bool, has_prefix, has_prefix-append_both, has_prefix-append, true, ◌||◌, ◌≡◌,
  ◌∙◌, none, some, [], str_eq, if◌then◌else◌, arith,
}
use go_clean_arch_poc.Base.Int.{Time}
use go_clean_arch_poc.Domain.Task.{Uuid}
use go_clean_arch_poc.Cache.Keys.{CacheKeyBuilder, task, task_list}
use go_clean_arch_poc.Tasks.Ports.{TaskUseCase}
use go_clean_arch_poc.Tasks.Shared.{keys, drop_task_lists, invalidate_task_caches}

-- A key that invalidateTaskCaches removes.
abbrev pub is_task_key : GoString → GoString → Bool
is_task_key id j = str_eq (task keys id) j || has_prefix (task_list keys []) j

pub task_list-has_prefix :
    (b : CacheKeyBuilder) (hash : GoString) → has_prefix (task_list b []) (task_list b hash) ≡ true
unfolding task_list
task_list-has_prefix b hash =
    has_prefix-append_both b.prefix _ _ ∙ has_prefix-append (bytes ":tasks:list:") hash

module _ {C D F P : Type 0} (uc : TaskUseCase C D F P) where
  pub get-drop_task_lists :
      (now : Time) (j : GoString) (c : C)
      → uc.cache_repo.get now j (drop_task_lists uc c)
        ≡ (if has_prefix (task_list keys []) j then none else uc.cache_repo.get now j c)
  unfolding drop_task_lists
  get-drop_task_lists now j c = uc.cache_repo.get-delete_pattern now (task_list keys []) j c

  -- The cache, where there is one, answers no key of the task and no key of a list, and every other
  -- key as before.
  pub get-invalidate_task_caches :
      (now : Time) (id : Uuid) (j : GoString) (c c' : C)
      → invalidate_task_caches uc id (some c) ≡ some c'
      → uc.cache_repo.get now j c'
        ≡ (if is_task_key (uc.uuids.string id) j then none else uc.cache_repo.get now j c)
  unfolding invalidate_task_caches
  get-invalidate_task_caches now id j c c' h =
      let key = task keys (uc.uuids.string id) in
      ground (
        arith,
        get-drop_task_lists now j (uc.cache_repo.delete key c),
        uc.cache_repo.get-delete now key j c,
      )
