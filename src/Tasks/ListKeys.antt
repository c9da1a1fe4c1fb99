-- ===== src/Tasks/ListKeys.antt =====
-- Filters that ListTasks (internal/application/usecase/task/task_usecase.go) does not tell apart in the
-- cache.
use go_clean_arch_poc.Base.{
  ℕ, ◌+◌, ◌*◌, ◌≤◌, GoString, bytes, Bool, false, ◌≡◌, refl, sym, ap, ◌∙◌, arith, none, some, ◌++◌,
  append_assoc,
}
use go_clean_arch_poc.Base.Int.{pos}
use go_clean_arch_poc.Domain.Error.{ok}
use go_clean_arch_poc.Domain.Task.{Uuid, Time}
use go_clean_arch_poc.Cache.Keys.{task_list}
use go_clean_arch_poc.Cache.Memory.Laws.{has_lapsed}
use go_clean_arch_poc.Cache.Aside.{lookup}
use go_clean_arch_poc.Tasks.Ports.{TaskFilter, Pagination, TaskListOutput, TaskState, TaskUseCase}
use go_clean_arch_poc.Tasks.Shared.{
  keys, part, optional_part, optional_id, print_pointer, label_parts, sort_ids, filter_text,
  pagination_text, build_task_list_cache_key,
}
use go_clean_arch_poc.Tasks.Reading.{list_tasks}
use go_clean_arch_poc.Tasks.Fresh.{lookup-store}

-- `search=text|assignee=id|`, read in two ways.
spelled_out :
    (text id rest : GoString)
    → part (bytes "search") (text ++ (bytes "|assignee=" ++ id)) ++ rest
      ≡ part (bytes "search") text ++ (part (bytes "assignee") id ++ rest)
spelled_out text id rest =
    ap (λ t. bytes "search=" ++ t)
      (append_assoc (text ++ (bytes "|assignee=" ++ id)) (bytes "|") rest
        ∙ append_assoc text (bytes "|assignee=" ++ id) (bytes "|" ++ rest)
        ∙ ap (λ t. text ++ (bytes "|assignee=" ++ t)) (sym (append_assoc id (bytes "|") rest))
        ∙ sym (append_assoc text (bytes "|") (part (bytes "assignee") id ++ rest)))

module _ {C D F P : Type 0} (uc : TaskUseCase C D F P) where
  -- Two filters that differ only in the Boolean at one address have one key.
  pub key-pointer :
      (f : TaskFilter) (p : Pagination) (address : ℕ) (a b : Bool)
      → build_task_list_cache_key uc (record f { is_overdue = some (address, a) }) p
        ≡ build_task_list_cache_key uc (record f { is_overdue = some (address, b) }) p
  unfolding build_task_list_cache_key filter_text
  key-pointer f p address a b = refl

  -- A search text with the part of an assignee at its end, and no assignee, has the key of the search
  -- text and the assignee.
  pub key-injected :
      (f : TaskFilter) (p : Pagination) (text : GoString) (id : Uuid)
      → build_task_list_cache_key uc
          (record f {
            search = text ++ (bytes "|assignee=" ++ uc.uuids.string id);
            assignee_id = none;
          })
          p
        ≡ build_task_list_cache_key uc (record f { search = text; assignee_id = some id }) p
  unfolding build_task_list_cache_key filter_text
  key-injected f p text id =
      ap (λ t. uc.printing.sha256_hex (t ++ pagination_text uc.printing p))
        (spelled_out text (uc.uuids.string id) (
          optional_part (bytes "creator") (optional_id uc f.creator_id)
          ++ (part (bytes "overdue") (print_pointer uc f.is_overdue)
              ++ (label_parts uc (sort_ids uc f.label_ids)
                  ++ (optional_part (bytes "status") f.status
                      ++ optional_part (bytes "priority") f.priority)))))

  -- What a ListTasks has read and stored in the cache is answered, as JSON gives it back and for
  -- two minutes, to a ListTasks whose valid filter has the same key, whatever it asks for.
  pub list_tasks-same_key :
      (now later : Time) (f g : TaskFilter) (p : Pagination) (s s' : TaskState C D F P) (c : C)
      (out : TaskListOutput) (text : GoString)
      → s.cache ≡ some c
      → lookup uc.cache_repo uc.list_json now
          (task_list keys (build_task_list_cache_key uc f p))
          (some c)
        ≡ none
      → list_tasks uc now f p s ≡ (s', ok out)
      → uc.list_json.marshal out ≡ some text
      → later ≤ now + 2 * 60 * 1000000000
      → uc.validator.filter g ≡ ok tt
      → build_task_list_cache_key uc f p ≡ build_task_list_cache_key uc g p
      → list_tasks uc later g p s' ≡ (s', ok (uc.list_json.as_read out))
  unfolding list_tasks has_lapsed
  list_tasks-same_key now later f g p s s' c out text hc miss h m l v e =
      let kept : has_lapsed now later (pos (2 * 60 * 1000000000)) ≡ false = ground arith in
      ground (
        arith,
        lookup-store uc uc.list_json now later (task_list keys (build_task_list_cache_key uc f p))
            text out (2 * 60 * 1000000000) c m kept,
      )
