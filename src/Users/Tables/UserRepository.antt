-- ===== src/Users/Tables/UserRepository.antt =====
-- UserRepository (internal/infrastructure/database/repository/user_repository.go) over the tables.
-- A method of the source that writes the user and then its roles does so without a transaction: where a
-- later statement fails it leaves what the earlier ones wrote. Here a method that fails gives an error
-- and no tables, so that the tables after an error are not modelled.
use go_clean_arch_poc.Base.{
  GoString, Bool, Option, none, some, List, [], ◌∷◌, any, map, length, ◌==◌, str_eq, if◌then◌else◌,
}
use go_clean_arch_poc.Domain.Error.{Result, ok, ◌>>=◌}
use go_clean_arch_poc.Domain.Task.{Uuid}
use go_clean_arch_poc.Domain.Role.{Role, Permission}
use go_clean_arch_poc.Domain.User.{User}
use go_clean_arch_poc.Auth.Sessions as Sessions
use go_clean_arch_poc.Tasks.Ports.{Pagination, PaginatedResult}
use go_clean_arch_poc.Tasks.Table.{total_pages}
use go_clean_arch_poc.Users.Ports.{UserFilter, UserRepository}
use go_clean_arch_poc.Users.Tables.{
  RoleRow, UserDb, UserRow, assign_role_to_user, create_user, delete_user,
  get_permissions_by_role_ids, get_user, get_user_by_email, get_user_roles, keep,
  remove_role_from_user, update_user, user_exists_by_email,
}

-- ILIKE, ORDER BY created_at with LIMIT and OFFSET, and the order of the lists of roles and of
-- permissions.
pub record Postgres : Type 0 where
  pub matches_text : GoString → UserRow → Bool
  pub page : Pagination → List UserRow → Result (List UserRow)
  pub by_name : List RoleRow → List RoleRow
  pub by_resource : List Permission → List Permission

abbrev pub row_of : User → UserRow
row_of u = record {
  id = u.id;
  email = u.email;
  password_hash = u.password_hash;
  name = u.name;
  created_at = u.created_at;
  updated_at = u.updated_at;
}

unfoldable pub sqlc_user_to_entity : UserRow → User
sqlc_user_to_entity r = record {
  id = r.id;
  email = r.email;
  password_hash = r.password_hash;
  name = r.name;
  roles = [];
  created_at = r.created_at;
  updated_at = r.updated_at;
}

abbrev pub or_empty : Option GoString → GoString
or_empty none = []
or_empty (some text) = text

-- The permissions that were loaded with the id of the role.
unfoldable pub permissions_of : Uuid → List (Uuid × Permission) → List Permission
permissions_of role_id [] = []
permissions_of role_id ((r, p) ∷ rows) =
    let rest = permissions_of role_id rows in if r == role_id then p ∷ rest else rest

abbrev pub loaded_role : List (Uuid × Permission) → RoleRow → Role
unfolding permissions_of
loaded_role perms r = record {
  id = r.id;
  name = r.name;
  description = or_empty r.description;
  permissions = permissions_of r.id perms;
  created_at = r.created_at;
  updated_at = r.updated_at;
}

unfoldable pub load_user_roles : Uuid → UserDb → List Role
unfolding get_user_roles get_permissions_by_role_ids permissions_of
load_user_roles user_id d =
    let rows = get_user_roles user_id d in
    map (loaded_role (get_permissions_by_role_ids (map (λ r. r.id) rows) d)) rows

-- The first loop of syncUserRoles: the roles that are there and not wanted.
unfoldable pub remove_roles : Uuid → List Role → List RoleRow → UserDb → UserDb
remove_roles user_id desired [] d = d
remove_roles user_id desired (r ∷ rows) d =
    remove_roles user_id desired rows
      (if any (λ role. role.id == r.id) desired then d else remove_role_from_user user_id r.id d)

-- The second: those that are wanted and were not there.
unfoldable pub assign_roles : Uuid → List RoleRow → List Role → UserDb → Result UserDb
assign_roles user_id existing [] d = ok d
assign_roles user_id existing (role ∷ roles) d =
    (if any (λ r. r.id == role.id) existing then ok d else assign_role_to_user user_id role.id d)
    >>= λ d'. assign_roles user_id existing roles d'

unfoldable pub sync_user_roles : User → UserDb → Result UserDb
unfolding remove_roles assign_roles get_user_roles
sync_user_roles u d =
    let existing = get_user_roles u.id d in
    assign_roles u.id existing u.roles (remove_roles u.id u.roles existing d)

unfoldable pub save : User → UserDb → Result UserDb
unfolding create_user sync_user_roles
save u d = create_user (row_of u) d >>= sync_user_roles u

unfoldable pub update : User → UserDb → Result UserDb
unfolding update_user sync_user_roles
update u d = update_user (row_of u) d >>= sync_user_roles u

abbrev pub with_roles : UserDb → Option UserRow → Option User
unfolding sqlc_user_to_entity load_user_roles
with_roles d none = none
with_roles d (some r) = some (record (sqlc_user_to_entity r) { roles = load_user_roles r.id d })

unfoldable pub find_by_id : Uuid → UserDb → Result (Option User)
unfolding get_user sqlc_user_to_entity load_user_roles
find_by_id id d = ok (with_roles d (get_user id d))

unfoldable pub find_by_email : GoString → UserDb → Result (Option User)
unfolding get_user_by_email sqlc_user_to_entity load_user_roles
find_by_email email d = ok (with_roles d (get_user_by_email email d))

-- The filter's role is not read, and the total is that of the table.
unfoldable pub find_all :
    Postgres → UserFilter → Pagination → UserDb → Result (List User × PaginatedResult)
unfolding keep sqlc_user_to_entity total_pages
find_all pg filter pagination d =
    pg.page pagination
      (if str_eq filter.search [] then d.users else keep (pg.matches_text filter.search) d.users)
    >>= λ rows. total_pages (length d.users) pagination.page_size >>= λ pages. ok (
      map sqlc_user_to_entity rows,
      record {
        total = length d.users;
        page = pagination.page;
        page_size = pagination.page_size;
        total_pages = pages;
      },
    )

unfoldable pub user_repository : Postgres → UserRepository UserDb
unfolding save update find_by_id find_by_email find_all delete_user user_exists_by_email
user_repository pg = record {
  save = save;
  update = update;
  delete = λ id d. ok (delete_user id d);
  find_by_id = find_by_id;
  find_by_email = find_by_email;
  exists_by_email = λ email d. ok (user_exists_by_email email d);
  find_all = find_all pg;
}

-- The part that the authentication calls.
unfoldable pub auth_user_repository : Sessions.UserRepository UserDb
unfolding save update find_by_id find_by_email user_exists_by_email
auth_user_repository = record {
  save = save;
  update = update;
  find_by_id = find_by_id;
  find_by_email = find_by_email;
  exists_by_email = λ email d. ok (user_exists_by_email email d);
}
