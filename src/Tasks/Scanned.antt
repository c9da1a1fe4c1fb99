-- ===== src/Tasks/Scanned.antt =====
-- What Search of the query builder (internal/infrastructure/database/querybuilder/task_queries.go) finds.
use go_clean_arch_poc.Base.{
  ℕ, zero, suc, ◌+◌, ◌*◌, ◌^◌, ◌%◌, ◌-◌, ◌<◌, ◌≤◌, sym, ltb, bytes, Bool, false, ap, ◌∙◌, ◌||◌,
  GoString, ◌≡◌, refl, arith, inl, inr, Option, none, some, List, [], ◌∷◌, map, length, str_eq,
  if◌then◌else◌, ◌==◌, Bool-cases,
}
use go_clean_arch_poc.Domain.Error.{Error, Result, ok, err, ◌>>=◌}
use go_clean_arch_poc.Domain.Task.{Task}
use go_clean_arch_poc.Tasks.Ports.{Pagination}
use go_clean_arch_poc.Tasks.Schema.{TaskRow, Postgres, keep_rows}
use go_clean_arch_poc.Base.Int.{ℤ, pos}
use go_clean_arch_poc.Tasks.Table.{sqlc_task_to_entity}
use go_clean_arch_poc.Tasks.QueryBuilder.{
  take, drop, page_of, size_of, limited, order_by, scan_tasks, search, selected_page, scan_page,
  counts, finds,
}

-- The row at a place, from 0 on.
abbrev pub row_at {ℓ} : {A : Type ℓ} → ℕ → List A → Option A
row_at i [] = none
row_at zero (x ∷ xs) = some x
row_at (suc i) (x ∷ xs) = row_at i xs

-- The task that FindByID makes of a row, if the row has a description.
abbrev pub described_task : TaskRow → Option Task
unfolding sqlc_task_to_entity
described_task r = elim r.description [ none ↦ none | some _ ↦ some (sqlc_task_to_entity r) ]

-- The order that a client asks for, if it is one of these six columns.
abbrev pub asked_order : Postgres → Pagination → Option (GoString × Bool)
asked_order pg p =
    let is = pg.equal_fold p.sort_by in
    if str_eq p.sort_by []
    then none
    else if is (bytes "title")
    then some (bytes "title", p.sort_desc)
    else if is (bytes "status")
    then some (bytes "status", p.sort_desc)
    else if is (bytes "priority")
    then some (bytes "priority", p.sort_desc)
    else if is (bytes "due_date")
    then some (bytes "due_date", p.sort_desc)
    else if is (bytes "created_at")
    then some (bytes "created_at", p.sort_desc)
    else if is (bytes "updated_at")
    then some (bytes "updated_at", p.sort_desc)
    else none

asked_order-eq :
    (pg : Postgres) (p : Pagination)
    → (if str_eq p.sort_by [] then none else order_by pg p.sort_by p.sort_desc) ≡ asked_order pg p
unfolding order_by
asked_order-eq pg p = ground arith

row_at-take :
    {A : Type 0} (n i : ℕ) (xs : List A)
    → row_at i (take n xs) ≡ (if ltb i n then row_at i xs else none)
row_at-take zero i xs = ground arith
row_at-take (suc n) i [] = ground arith
row_at-take (suc n) zero (x ∷ xs) = ground arith
row_at-take (suc n) (suc i) (x ∷ xs) = ground (arith, row_at-take n i xs)

row_at-drop : {A : Type 0} (m i : ℕ) (xs : List A) → row_at i (drop m xs) ≡ row_at (m + i) xs
row_at-drop zero i xs = ap (λ j. row_at j xs) (omega arith)
row_at-drop (suc m) i [] = refl
row_at-drop (suc m) i (x ∷ xs) =
    row_at-drop m i xs
    ∙ ap (λ j. row_at j (x ∷ xs)) (let e : suc (m + i) ≡ suc m + i = omega arith in e)

map-take : {A B : Type 0} (f : A → B) (n : ℕ) (xs : List A) → map f (take n xs) ≡ take n (map f xs)
map-take f zero xs = refl
map-take f (suc n) [] = refl
map-take f (suc n) (x ∷ xs) = ap (λ ys. f x ∷ ys) (map-take f n xs)

map-drop : {A B : Type 0} (f : A → B) (n : ℕ) (xs : List A) → map f (drop n xs) ≡ drop n (map f xs)
map-drop f zero xs = refl
map-drop f (suc n) [] = refl
map-drop f (suc n) (x ∷ xs) = map-drop f n xs

-- A slice of a list that is mapped.
row_at-slice :
    {A B : Type 0} (f : A → B) (n m i : ℕ) (xs : List A)
    → row_at i (map f (take n (drop m xs))) ≡ (if ltb i n then row_at (m + i) (map f xs) else none)
row_at-slice f n m i xs =
    ap (λ ys. row_at i ys) (map-take f n (drop m xs) ∙ ap (take n) (map-drop f m xs))
    ∙ row_at-take n i (drop m (map f xs))
    ∙ ap (λ o. if ltb i n then o else none) (row_at-drop m i (map f xs))

then_ok :
    {A B : Type 0} (x : Result A) (next : A → Result B) (b : B)
    → (x >>= next) ≡ ok b
    → (a : A) × (x ≡ ok a) × (next a ≡ ok b)
then_ok (ok a) next b h = (a, refl, h)
then_ok (err e) next b h = ground arith

described :
    (o : Option GoString) (next : GoString → Result (List Task)) (ts : List Task)
    → elim o [ none ↦ err (Error.external 1) | some text ↦ next text ] ≡ ok ts
    → (text : GoString) × (o ≡ some text) × (next text ≡ ok ts)
described none next ts h = ground arith
described (some text) next ts h = (text, refl, h)

scan_tasks-described :
    (rows : List TaskRow) (ts : List Task)
    → scan_tasks rows ≡ ok ts
    → map some ts ≡ map described_task rows
unfolding scan_tasks sqlc_task_to_entity
scan_tasks-described [] ts h = ground arith
scan_tasks-described (r ∷ rows) ts h =
    let (text, d, h1) = described r.description _ ts h in
    let (rest, e, h2) = then_ok (scan_tasks rows) _ ts h1 in
    ground (arith, scan_tasks-described rows rest e, d, h2)

page_of-suc : (z : ℤ) (k : ℕ) → z ≡ pos (suc k) → page_of z ≡ suc k
page_of-suc z k e = ap page_of e ∙ ground arith

size_of_range : (z : ℤ) (n : ℕ) → z ≡ pos n → 1 ≤ n → n ≤ 100 → size_of z ≡ n
size_of_range z n e a b = ap size_of e ∙ ground arith

mod_small : (m : ℕ) → m < 2 ^ 63 → m % 2 ^ 64 ≡ m
mod_small m h = omega arith

-- No offset of such a page wraps.
limited-ok :
    (p : Pagination) (rows page : List TaskRow) (k n : ℕ)
    → p.page ≡ pos (suc k)
    → p.page_size ≡ pos n
    → 1 ≤ n
    → n ≤ 100
    → k * n < 2 ^ 63
    → limited p rows ≡ ok page
    → page ≡ take n (drop (k * n) rows)
unfolding limited
limited-ok p rows page k n hp hs h1 hn hb h =
    let size = size_of_range p.page_size n hs h1 hn in
    let offset : ((page_of p.page - 1) * size_of p.page_size) % 2 ^ 64 ≡ k * n =
      ap (λ x. ((x - 1) * size_of p.page_size) % 2 ^ 64) (page_of-suc p.page k hp)
      ∙ ap (λ x. ((suc k - 1) * x) % 2 ^ 64) size
      ∙ ap (λ x. (x * n) % 2 ^ 64) (let e : suc k - 1 ≡ k = omega arith in e)
      ∙ mod_small (k * n) hb in
    ground (arith, h, offset, size)

scan_page-ok :
    (p : Pagination) (count : ℕ) (rows : List TaskRow) (ts : List Task) (total k n i : ℕ)
    → p.page ≡ pos (suc k)
    → p.page_size ≡ pos n
    → 1 ≤ n
    → n ≤ 100
    → k * n < 2 ^ 63
    → scan_page p count rows ≡ ok (ts, total)
    → (total ≡ count)
      × (row_at i (map some ts)
          ≡ (if ltb i n then row_at (k * n + i) (map described_task rows) else none))
unfolding scan_page
scan_page-ok p count rows ts total k n i hp hs h1 hn hb h =
    let (page, a, h2) = then_ok (limited p rows) _ (ts, total) h in
    let (tasks, b, h3) = then_ok (scan_tasks page) _ (ts, total) h2 in
    let same : tasks ≡ ts = ground (arith, h3) in
    let cut = limited-ok p rows page k n hp hs h1 hn hb a in
    (
      ground (arith, h3),
      ap (row_at i) (
            ap (map some) (sym same)
            ∙ scan_tasks-described page tasks b
            ∙ ap (map described_task) cut)
          ∙ row_at-slice described_task n (k * n) i rows,
    )

selected_page-ok :
    (p : Pagination) (count : ℕ) (rows : List TaskRow) (ts : List Task) (total k n i : ℕ)
    → p.page ≡ pos (suc k)
    → p.page_size ≡ pos n
    → 1 ≤ n
    → n ≤ 100
    → k * n < 2 ^ 63
    → selected_page p count rows ≡ ok (ts, total)
    → (total ≡ count)
      × (row_at i (map some ts) ≡ (
          if count == 0
          then none
          else if ltb i n
          then row_at (k * n + i) (map described_task rows)
          else none))
unfolding selected_page
selected_page-ok p count rows ts total k n i hp hs h1 hn hb h = elim (Bool-cases (count == 0)) [
  | inl e ↦ (ground arith, ground arith)
  | inr e ↦
      let (t, at) = scan_page-ok p count rows ts total k n i hp hs h1 hn hb (ground arith) in
      (t, at ∙ sym (rw e refl))
]

-- A Search of the query builder for the page k + 1 of n tasks, 1 to 100, that returns no error and
-- whose offset k * n fits 64 bits has as its total the number of tasks whose title matches the
-- text, or of all where the text is empty. Where that is 0 it returns no task; else exactly the
-- page: its task i, for i < n, is the row k * n + i, in the order that was asked for, of those
-- whose title or description matches, with its columns and its description, without which no row
-- is among them, and there is none where that row is missing or i is not below n.
pub search-row_at :
    (pg : Postgres) (query : GoString) (p : Pagination) (rows : List TaskRow) (ts : List Task)
    (total k n i : ℕ)
    → p.page ≡ pos (suc k)
    → p.page_size ≡ pos n
    → 1 ≤ n
    → n ≤ 100
    → k * n < 2 ^ 63
    → search pg query p rows ≡ ok (ts, total)
    → let titled = length (keep_rows (λ r. str_eq query [] || pg.ilike query r.title) rows) in
      let found = pg.ordered (asked_order pg p) (
        keep_rows
          (λ r.
            str_eq query []
            || (pg.ilike query r.title
                || elim r.description [ none ↦ false | some text ↦ pg.ilike query text ]))
          rows) in
      (total ≡ titled)
      × (row_at i (map some ts) ≡ (
          if titled == 0
          then none
          else if ltb i n
          then row_at (k * n + i) (map described_task found)
          else none))
unfolding search
search-row_at pg query p rows ts total k n i hp hs h1 hn hb h =
    selected_page-ok p _ _ ts total k n i hp hs h1 hn hb (
      ap
        (λ o.
          selected_page p (length (keep_rows (counts pg query) rows))
            (pg.ordered o (keep_rows (finds pg query) rows)))
        (sym (asked_order-eq pg p))
      ∙ h)
