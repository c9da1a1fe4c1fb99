-- ===== src/Tasks/QueryBuilder.antt =====
-- TaskQueryBuilder (internal/infrastructure/database/querybuilder/task_queries.go). The queries that it
-- writes as texts are what they ask of the rows; the database is up.
use go_clean_arch_poc.Base.{
  ℕ, zero, suc, ◌*◌, ◌-◌, ◌%◌, ◌^◌, GoString, bytes, Bool, true, false, not, ◌&&◌, ◌||◌, Option,
  none, some, List, [], ◌∷◌, length, ◌==◌, ltb, str_eq, if◌then◌else◌,
}
use go_clean_arch_poc.Base.Int.{ℤ, pos, negsuc}
use go_clean_arch_poc.Domain.Error.{Error, Result, ok, err, ◌>>=◌}
use go_clean_arch_poc.Domain.Task.{Uuid, Time, Task}
use go_clean_arch_poc.Tasks.Ports.{TaskFilter, Pagination}
use go_clean_arch_poc.Tasks.Schema.{TaskRow, Postgres, keep_rows}

abbrev pub task_allowed_sort_columns : List GoString
task_allowed_sort_columns =
    bytes "title"
    ∷ bytes "status"
    ∷ bytes "priority"
    ∷ bytes "due_date"
    ∷ bytes "created_at"
    ∷ bytes "updated_at"
    ∷ []

-- The loop over the allowed columns.
unfoldable pub allowed_column : Postgres → GoString → List GoString → Option GoString
allowed_column pg sort_by [] = none
allowed_column pg sort_by (allowed ∷ rest) =
    if pg.equal_fold sort_by allowed then some allowed else allowed_column pg sort_by rest

-- A column that is not allowed gives no ORDER BY.
unfoldable pub order_by : Postgres → GoString → Bool → Option (GoString × Bool)
unfolding allowed_column
order_by pg sort_by sort_desc = elim (allowed_column pg sort_by task_allowed_sort_columns) [
  | none ↦ none
  | some column ↦ some (column, sort_desc)
]

abbrev pub page_of : ℤ → ℕ
page_of (pos n) = if ltb n 1 then 1 else n
page_of (negsuc _) = 1

abbrev pub size_of : ℤ → ℕ
size_of (pos n) = if ltb n 1 then 20 else if ltb 100 n then 100 else n
size_of (negsuc _) = 20

abbrev pub take {ℓ} : {A : Type ℓ} → ℕ → List A → List A
take zero xs = []
take (suc n) [] = []
take (suc n) (x ∷ xs) = x ∷ take n xs

abbrev pub drop {ℓ} : {A : Type ℓ} → ℕ → List A → List A
drop zero xs = xs
drop (suc n) [] = []
drop (suc n) (x ∷ xs) = drop n xs

-- LIMIT and OFFSET. The product wraps in an int, and `uint64` keeps its bits; an OFFSET that is no
-- bigint is an error of the database.
unfoldable pub limited : Pagination → List TaskRow → Result (List TaskRow)
limited p rows =
    let offset = ((page_of p.page - 1) * size_of p.page_size) % 2 ^ 64 in
    if ltb offset (2 ^ 63)
    then ok (take (size_of p.page_size) (drop offset rows))
    else err (Error.external 22003)

-- Scan fails on a NULL for a string.
unfoldable pub scan_tasks : List TaskRow → Result (List Task)
scan_tasks [] = ok []
scan_tasks (r ∷ rs) = elim r.description [
  | none ↦ err (Error.external 1)
  | some description ↦ scan_tasks rs >>= λ tasks. ok (
      record {
        id = r.id;
        title = r.title;
        description = description;
        status = r.status;
        priority = r.priority;
        due_date = r.due_date;
        assignee_id = r.assignee_id;
        creator_id = r.creator_id;
        labels = [];
        created_at = r.created_at;
        updated_at = r.updated_at;
      }
      ∷ tasks)
]

-- The page is selected and scanned.
unfoldable pub scan_page : Pagination → ℕ → List TaskRow → Result (List Task × ℕ)
unfolding limited scan_tasks
scan_page p total rows = limited p rows >>= λ page. scan_tasks page >>= λ tasks. ok (tasks, total)

-- The tasks of a page, and the total that was counted before; nothing is selected if that is 0.
unfoldable pub selected_page : Pagination → ℕ → List TaskRow → Result (List Task × ℕ)
unfolding scan_page
selected_page p total rows = if total == 0 then ok ([], 0) else scan_page p total rows

abbrev pub equals : Option Uuid → Uuid → Bool
equals none id = false
equals (some x) id = x == id

-- The conditions that FindWithFilter joins.
unfoldable pub matches_filter : Postgres → TaskFilter → TaskRow → Bool
matches_filter pg filter r =
    elim filter.status [ none ↦ true | some x ↦ str_eq x [] || str_eq r.status x ]
    && (elim filter.priority [ none ↦ true | some x ↦ str_eq x [] || str_eq r.priority x ]
        && (elim filter.assignee_id [ none ↦ true | some x ↦ equals r.assignee_id x ]
            && (elim filter.creator_id [ none ↦ true | some x ↦ r.creator_id == x ]
                && (str_eq filter.search [] || pg.ilike filter.search r.title))))

unfoldable pub find_with_filter :
    Postgres → TaskFilter → Pagination → List TaskRow → Result (List Task × ℕ)
unfolding matches_filter selected_page order_by
find_with_filter pg filter p rows =
    let found = keep_rows (matches_filter pg filter) rows in
    let sort_by = if str_eq p.sort_by [] then bytes "created_at" else p.sort_by in
    selected_page p (length found) (pg.ordered (order_by pg sort_by p.sort_desc) found)

-- The rows that Search counts, and those that it selects: NULL ILIKE is not true.
abbrev pub counts : Postgres → GoString → TaskRow → Bool
counts pg query r = str_eq query [] || pg.ilike query r.title

abbrev pub finds : Postgres → GoString → TaskRow → Bool
finds pg query r =
    str_eq query []
    || (pg.ilike query r.title
        || elim r.description [ none ↦ false | some text ↦ pg.ilike query text ])

unfoldable pub search : Postgres → GoString → Pagination → List TaskRow → Result (List Task × ℕ)
unfolding selected_page order_by
search pg query p rows =
    let order = if str_eq p.sort_by [] then none else order_by pg p.sort_by p.sort_desc in
    selected_page p (length (keep_rows (counts pg query) rows))
      (pg.ordered order (keep_rows (finds pg query) rows))

abbrev pub overdue_row : Time → TaskRow → Bool
overdue_row now r =
    elim r.due_date [ none ↦ false | some due ↦ ltb due now ]
    && not (str_eq r.status (bytes "DONE") || str_eq r.status (bytes "ARCHIVED"))

unfoldable pub find_overdue : Postgres → Time → Pagination → List TaskRow → Result (List Task × ℕ)
unfolding selected_page
find_overdue pg now p rows =
    let found = keep_rows (overdue_row now) rows in
    selected_page p (length found) (pg.ordered (some (bytes "due_date", false)) found)
