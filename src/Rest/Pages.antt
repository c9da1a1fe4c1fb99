-- ===== src/Rest/Pages.antt =====
-- The pages that parsePagination (internal/transport/rest/handler/common.go) lets a client ask for.
use go_clean_arch_poc.Base.{
  ℕ, ◌≤◌, GoString, String, bytes, ◌≡◌, refl, arith, ◌⊎◌, inl, inr, true, false, ap, ◌∙◌,
}
use go_clean_arch_poc.Base.Int.{ℤ, pos, negsuc, is_positive}
use go_clean_arch_poc.Tasks.Ports.{Pagination}
use go_clean_arch_poc.Rest.Response.{HttpLib, Request}
use go_clean_arch_poc.Rest.Query.{
  default_pagination, parse_positive_int, parse_page, parse_page_size, parse_sort_desc,
  parse_pagination, exceeds, sorted_by,
}

-- The least integer is given, or both ends are.
abbrev pub IsFrom : ℕ → ℤ → Type 0
IsFrom least (pos n) = least ≤ n
IsFrom least (negsuc n) = ⊥

abbrev pub IsBetween : ℕ → ℕ → ℤ → Type 0
IsBetween least most (pos n) = (least ≤ n) × (n ≤ most)
IsBetween least most (negsuc n) = ⊥

abbrev pub IsInRange : Pagination → Type 0
IsInRange p = IsFrom 1 p.page × IsBetween 1 100 p.page_size

is_positive-IsFrom : (i : ℤ) → is_positive i ≡ true → IsFrom 1 i
is_positive-IsFrom (pos n) h = ground arith
is_positive-IsFrom (negsuc n) h = ground arith

exceeds-IsBetween : (i : ℤ) → is_positive i ≡ true → exceeds i ≡ false → IsBetween 1 100 i
exceeds-IsBetween (pos n) h k = ground arith
exceeds-IsBetween (negsuc n) h k = ground arith

parse_positive_int-inr :
    (lib : HttpLib) (s : GoString) (message : String) (i : ℤ)
    → parse_positive_int lib s message ≡ inr i
    → is_positive i ≡ true
unfolding parse_positive_int
parse_positive_int-inr lib s message i h = ground arith

parse_page-cases :
    (lib : HttpLib) (page : GoString) (p q : Pagination)
    → parse_page lib page p ≡ inr q
    → (is_positive p.page ≡ true)
    → (is_positive q.page ≡ true) × (q.page_size ≡ p.page_size)
unfolding parse_page
parse_page-cases lib page p q h k =
    ground (arith, parse_positive_int-inr lib page "page must be a positive integer")

parse_page_size-cases :
    (lib : HttpLib) (page_size : GoString) (p q : Pagination)
    → parse_page_size lib page_size p ≡ inr q
    → (is_positive p.page_size ≡ true)
    → (exceeds p.page_size ≡ false)
    → (q.page ≡ p.page) × (is_positive q.page_size ≡ true) × (exceeds q.page_size ≡ false)
unfolding parse_page_size
parse_page_size-cases lib page_size p q h k l =
    ground (arith, parse_positive_int-inr lib page_size "pageSize must be a positive integer")

parse_sort_desc-same :
    (lib : HttpLib) (sort_desc : GoString) (p q : Pagination)
    → parse_sort_desc lib sort_desc p ≡ inr q
    → (q.page ≡ p.page) × (q.page_size ≡ p.page_size)
unfolding parse_sort_desc
parse_sort_desc-same lib sort_desc p q h = ground arith

sorted_by-same :
    (sort_by : GoString) (p : Pagination)
    → ((sorted_by sort_by p).page ≡ p.page) × ((sorted_by sort_by p).page_size ≡ p.page_size)
sorted_by-same sort_by p = ground arith

-- What follows a step that gave a value.
then_inr :
    {A B : Type 0} (x : String ⊎ A) (next : A → String ⊎ B) (b : B)
    → elim x [ inl e ↦ inl e | inr a ↦ next a ] ≡ inr b
    → (a : A) × (x ≡ inr a) × (next a ≡ inr b)
then_inr (inl e) next b h = ground arith
then_inr (inr a) next b h = (a, refl, h)

-- A pagination that parsePagination reads from a query, whatever Atoi and ParseBool make of its
-- texts, has a page of at least 1 and a page size from 1 to 100.
pub parse_pagination-IsInRange :
    (lib : HttpLib) (req : Request) (p : Pagination)
    → parse_pagination lib req ≡ inr p
    → IsInRange p
unfolding parse_pagination
parse_pagination-IsInRange lib req p h =
    let (q, a, h1) =
      then_inr (parse_page lib (req.query (bytes "page")) default_pagination) _ p h in
    let (r, b, h2) = then_inr (parse_page_size lib (req.query (bytes "pageSize")) q) _ p h1 in
    let (positive, same) = parse_page-cases lib _ default_pagination q a refl in
    let (page, from, most) = parse_page_size-cases lib _ q r b (rw same refl) (rw same refl) in
    let (e, f) = parse_sort_desc-same lib _ (sorted_by (req.query (bytes "sortBy")) r) p h2 in
    let (g, k) = sorted_by-same (req.query (bytes "sortBy")) r in
    (
      is_positive-IsFrom p.page (ap is_positive (e ∙ g ∙ page) ∙ positive),
      exceeds-IsBetween p.page_size (ap is_positive (f ∙ k) ∙ from) (ap exceeds (f ∙ k) ∙ most),
    )
