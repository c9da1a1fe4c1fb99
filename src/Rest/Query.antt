-- ===== src/Rest/Query.antt =====
-- parsePagination and parsePositiveInt (internal/transport/rest/handler/common.go). The left
-- side of a result is the text of the error.
use go_clean_arch_poc.Base.{
  GoString, bytes, Bool, true, false, String, none, some, ◌⊎◌, inl, inr, [], str_eq, ltb,
  if◌then◌else◌,
}
use go_clean_arch_poc.Base.Int.{ℤ, pos, negsuc, is_positive}
use go_clean_arch_poc.Tasks.Ports.{Pagination}
use go_clean_arch_poc.Rest.Response.{HttpLib, Request}

-- DefaultPagination (internal/application/dto/task_dto.go).
abbrev pub default_pagination : Pagination
default_pagination = record {
  page = pos 1;
  page_size = pos 20;
  sort_by = bytes "createdAt";
  sort_desc = true;
}

-- `message` is the text `<field> must be a positive integer`.
unfoldable pub parse_positive_int : HttpLib → GoString → String → String ⊎ ℤ
parse_positive_int lib s message = elim (lib.atoi s) [
  | none ↦ inl message
  | some n ↦ if is_positive n then inr n else inl message
]

-- ps > 100
abbrev pub exceeds : ℤ → Bool
exceeds (pos n) = ltb 100 n
exceeds (negsuc n) = false

unfoldable pub parse_page : HttpLib → GoString → Pagination → String ⊎ Pagination
unfolding parse_positive_int
parse_page lib page p =
    if str_eq page []
    then inr p
    else elim (parse_positive_int lib page "page must be a positive integer") [
      | inl e ↦ inl e
      | inr n ↦ inr (record p { page = n })
    ]

unfoldable pub parse_page_size : HttpLib → GoString → Pagination → String ⊎ Pagination
unfolding parse_positive_int
parse_page_size lib page_size p =
    if str_eq page_size []
    then inr p
    else elim (parse_positive_int lib page_size "pageSize must be a positive integer") [
      | inl e ↦ inl e
      | inr n ↦
          if exceeds n
          then inl "pageSize must be between 1 and 100"
          else inr (record p { page_size = n })
    ]

abbrev pub sorted_by : GoString → Pagination → Pagination
sorted_by sort_by p = if str_eq sort_by [] then p else record p { sort_by = sort_by }

unfoldable pub parse_sort_desc : HttpLib → GoString → Pagination → String ⊎ Pagination
parse_sort_desc lib sort_desc p =
    if str_eq sort_desc [] then inr p else elim (lib.parse_bool sort_desc) [
      | none ↦ inl "sortDesc must be a boolean"
      | some b ↦ inr (record p { sort_desc = b })
    ]

unfoldable pub parse_pagination : HttpLib → Request → String ⊎ Pagination
unfolding parse_page parse_page_size parse_sort_desc
parse_pagination lib req = elim (parse_page lib (req.query (bytes "page")) default_pagination) [
  | inl e ↦ inl e
  | inr p ↦ elim (parse_page_size lib (req.query (bytes "pageSize")) p) [
    | inl e ↦ inl e
    | inr q ↦
        parse_sort_desc lib (req.query (bytes "sortDesc"))
          (sorted_by (req.query (bytes "sortBy")) q)
  ]
]
