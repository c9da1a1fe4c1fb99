-- ===== src/Graphql/Mapping.antt =====
-- The mappers (internal/transport/graphql/mappers.go) and the answers of resolvers. A node holds what
-- it was made from, with the fields that a mapper changes beside it.
use go_clean_arch_poc.Base.{
  ℕ, ◌+◌, ◌-◌, ◌*◌, GoString, Bool, Option, none, some, List, [], ◌∷◌, map, str_eq, ltb,
  if◌then◌else◌,
}
use go_clean_arch_poc.Base.Int.{ℤ, pos, negsuc, is_positive}
use go_clean_arch_poc.Domain.Label.{Label}
use go_clean_arch_poc.Domain.Role.{Role}
use go_clean_arch_poc.Auth.Sessions.{AuthOutput}
use go_clean_arch_poc.Tasks.Ports.{Pagination, TaskAttachmentOutput, TaskOutput}
use go_clean_arch_poc.Users.Ports.{UserListOutput, UserOutput}
use go_clean_arch_poc.Rest.Query.{default_pagination}

-- A string that is left out where it is empty.
abbrev pub or_nil : GoString → Option GoString
or_nil text = if str_eq text [] then none else some text

pub record RoleNode : Type 0 where
  pub role : Role
  pub description : Option GoString

unfoldable pub role_to_graphql : Role → RoleNode
role_to_graphql r = record { role = r; description = or_nil r.description }

pub record UserNode : Type 0 where
  pub user : UserOutput
  pub roles : List RoleNode

unfoldable pub user_to_graphql : UserOutput → UserNode
unfolding role_to_graphql
user_to_graphql u = record { user = u; roles = map role_to_graphql u.roles }

pub record TaskNode : Type 0 where
  pub task : TaskOutput
  pub description : Option GoString
  pub assignee : Option UserNode
  pub creator : Option UserNode

abbrev node_of : Option UserOutput → Option UserNode
unfolding user_to_graphql
node_of none = none
node_of (some u) = some (user_to_graphql u)

unfoldable pub task_to_graphql : TaskOutput → Option UserOutput → Option UserOutput → TaskNode
unfolding user_to_graphql
task_to_graphql t assignee creator = record {
  task = t;
  description = or_nil t.description;
  assignee = node_of assignee;
  creator = node_of creator;
}

-- The pagination of the input: nil fields, and numbers that are not positive, keep the default.
pub record PaginationInput : Type 0 where
  pub page : Option ℤ
  pub page_size : Option ℤ
  pub sort_by : Option GoString
  pub sort_desc : Option Bool

abbrev pub or_default : Option ℤ → ℤ → ℤ
or_default none d = d
or_default (some n) d = if is_positive n then n else d

abbrev pub or_else {ℓ} : {A : Type ℓ} → Option A → A → A
or_else none d = d
or_else (some a) d = a

unfoldable pub pagination_from_input : Option PaginationInput → Pagination
pagination_from_input none = default_pagination
pagination_from_input (some p) = record {
  page = or_default p.page default_pagination.page;
  page_size = or_default p.page_size default_pagination.page_size;
  sort_by = or_else p.sort_by default_pagination.sort_by;
  sort_desc = or_else p.sort_desc default_pagination.sort_desc;
}

-- A cursor is the number that encodeCursor prints. Pages and their sizes are positive here.
pub record PageInfo : Type 0 where
  pub has_next_page : Bool
  pub has_previous_page : Bool
  pub start_cursor : Option ℕ
  pub end_cursor : Option ℕ

unfoldable pub page_info_from_pagination : ℕ → ℕ → ℕ → ℕ → PageInfo
page_info_from_pagination page page_size total_pages total_count = record {
  has_next_page = ltb page total_pages;
  has_previous_page = ltb 1 page;
  start_cursor = if ltb 0 total_count then some ((page - 1) * page_size + 1) else none;
  end_cursor = if ltb 0 total_count then some ((page - 1) * page_size + total_count) else none;
}

abbrev pub natural : ℤ → ℕ
natural (pos n) = n
natural (negsuc n) = 0

-- The nodes with their cursors, from the one after `before` on.
abbrev pub edges_from {ℓ} : {A : Type ℓ} → ℕ → List A → List (A × ℕ)
edges_from before [] = []
edges_from before (a ∷ as') = (a, before + 1) ∷ edges_from (before + 1) as'

pub record Connection (A : Type 0) : Type 0 where
  pub edges : List (A × ℕ)
  pub page_info : PageInfo
  pub total_count : ℕ

unfoldable pub connection : {A : Type 0} → List A → ℤ → ℤ → ℤ → ℕ → Connection A
unfolding page_info_from_pagination
connection nodes page page_size total_pages total = record {
  edges = edges_from ((natural page - 1) * natural page_size) nodes;
  page_info =
      page_info_from_pagination (natural page) (natural page_size) (natural total_pages) total;
  total_count = total;
}

unfoldable pub user_connection_to_graphql : UserListOutput → Connection UserNode
unfolding connection user_to_graphql
user_connection_to_graphql list =
    connection (map user_to_graphql list.users) list.page list.page_size list.total_pages list.total

-- What a resolver gives.
pub data Answer : Type 0 where
  boolean : Bool → Answer
  task : TaskNode → Answer
  tasks : Connection TaskNode → Answer
  user : UserNode → Answer
  users : Connection UserNode → Answer
  auth : AuthOutput → Answer
  role : RoleNode → Answer
  roles : List RoleNode → Answer
  label : Label → Answer
  labels : List Label → Answer
  attachment : TaskAttachmentOutput → Answer
  attachments : List TaskAttachmentOutput → Answer
  download : TaskAttachmentOutput → GoString → Answer
