-- ===== src/Domain/Status.antt =====
-- TaskStatus (internal/domain/valueobject/task_status.go): a string type, so that a value need not
-- be one of the five constants.
use go_clean_arch_poc.Base.{
  GoString, bytes, str_eq, Bool, false, not, ◌||◌, List, [], ◌∷◌, any, if◌then◌else◌,
}
use go_clean_arch_poc.Domain.Error.{Error, ValueError, Result, ok, err}

abbrev pub TaskStatus : Type 0
TaskStatus = GoString

abbrev pub todo : TaskStatus
todo = bytes "TODO"

abbrev pub in_progress : TaskStatus
in_progress = bytes "IN_PROGRESS"

abbrev pub in_review : TaskStatus
in_review = bytes "IN_REVIEW"

abbrev pub done : TaskStatus
done = bytes "DONE"

abbrev pub archived : TaskStatus
archived = bytes "ARCHIVED"

abbrev pub all_task_statuses : List TaskStatus
all_task_statuses = todo ∷ in_progress ∷ in_review ∷ done ∷ archived ∷ []

-- The map `validTaskStatuses` holds the five constants, each with `true`.
unfoldable pub is_valid : TaskStatus → Bool
is_valid s = any (str_eq s) all_task_statuses

unfoldable pub parse_task_status : GoString → Result TaskStatus
unfolding is_valid
parse_task_status s =
    if not (is_valid s) then err (Error.value ValueError.invalid_task_status) else ok s

unfoldable pub is_terminal : TaskStatus → Bool
is_terminal s = str_eq s done || str_eq s archived

unfoldable pub can_transition_to : TaskStatus → TaskStatus → Bool
can_transition_to s target =
    if str_eq s archived
    then false
    else if str_eq s done
    then str_eq target archived
    else not (str_eq target archived) || str_eq s done
