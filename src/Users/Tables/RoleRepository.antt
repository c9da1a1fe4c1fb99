-- ===== src/Users/Tables/RoleRepository.antt =====
-- RoleRepository and PermissionRepository (internal/infrastructure/database/repository/
-- role_repository.go) over the tables.
use go_clean_arch_poc.Base.{
  GoString, Bool, Option, none, some, List, [], ◌∷◌, map, str_eq, if◌then◌else◌,
}
use go_clean_arch_poc.Domain.Error.{Result, ok, ◌>>=◌}
use go_clean_arch_poc.Domain.Task.{Uuid}
use go_clean_arch_poc.Domain.Role.{Role, Permission}
use go_clean_arch_poc.Auth.Sessions as Sessions
use go_clean_arch_poc.Users.Ports as Ports
use go_clean_arch_poc.Users.Tables.{
  RoleRow, UserDb, add_permission_to_role, create_permission, delete_permission, delete_role,
  delete_role_by_name, delete_roles_by_names, get_permission, get_permission_by_name,
  get_permissions_by_role_ids, get_role, get_role_by_name, get_role_permissions, get_user_roles,
  permission_exists, remove_all_permissions_from_role, role_exists, role_exists_by_name,
  update_role, upsert_permission, upsert_role,
}
use go_clean_arch_poc.Users.Tables.UserRepository.{Postgres, loaded_role, or_empty, permissions_of}

-- An empty description is NULL.
abbrev pub role_row_of : Role → RoleRow
role_row_of r = record {
  id = r.id;
  name = r.name;
  description = if str_eq r.description [] then none else some r.description;
  created_at = r.created_at;
  updated_at = r.updated_at;
}

unfoldable pub sqlc_role_to_entity : RoleRow → Role
sqlc_role_to_entity r = record {
  id = r.id;
  name = r.name;
  description = or_empty r.description;
  permissions = [];
  created_at = r.created_at;
  updated_at = r.updated_at;
}

-- The loop over the permissions: the id that came back, under the id of the entity.
unfoldable pub save_permissions : Uuid → List Permission → UserDb → Result UserDb
unfolding upsert_permission add_permission_to_role
save_permissions role_id [] d = ok d
save_permissions role_id (p ∷ ps) d = upsert_permission p d >>= λ row.
    add_permission_to_role role_id row.0 row.1 >>= λ d'. save_permissions role_id ps d'

unfoldable pub save : Role → UserDb → Result UserDb
unfolding upsert_role save_permissions
save r d = upsert_role (role_row_of r) d >>= save_permissions r.id r.permissions

unfoldable pub update : Role → UserDb → Result UserDb
unfolding update_role
update r d = update_role (role_row_of r) d

abbrev pub with_permissions : UserDb → Option RoleRow → Option Role
unfolding sqlc_role_to_entity get_role_permissions
with_permissions d none = none
with_permissions d (some r) = some (record (sqlc_role_to_entity r) {
  permissions = map (λ row. row.1) (get_role_permissions r.id d);
})

unfoldable pub find_by_id : Uuid → UserDb → Result (Option Role)
unfolding get_role sqlc_role_to_entity get_role_permissions
find_by_id id d = ok (with_permissions d (get_role id d))

unfoldable pub find_by_name : GoString → UserDb → Result (Option Role)
unfolding get_role_by_name sqlc_role_to_entity get_role_permissions
find_by_name name d = ok (with_permissions d (get_role_by_name name d))

unfoldable pub find_all : Postgres → UserDb → Result (List Role)
unfolding get_permissions_by_role_ids permissions_of
find_all pg d =
    let rows = pg.by_name d.roles in
    ok (map (loaded_role (get_permissions_by_role_ids (map (λ r. r.id) rows) d)) rows)

-- These roles come without their permissions.
unfoldable pub find_by_user_id : Uuid → UserDb → Result (List Role)
unfolding get_user_roles sqlc_role_to_entity
find_by_user_id user_id d = ok (map sqlc_role_to_entity (get_user_roles user_id d))

unfoldable pub role_repository : Postgres → Ports.RoleRepository UserDb
unfolding save find_by_id find_by_name find_all delete_roles_by_names
    remove_all_permissions_from_role
role_repository pg = record {
  save = save;
  find_by_id = find_by_id;
  find_by_name = find_by_name;
  find_all = find_all pg;
  delete_by_names = λ names d. ok (delete_roles_by_names names d);
  remove_all_permissions = λ id d. ok (remove_all_permissions_from_role id d);
}

-- The part that the authentication calls.
unfoldable pub auth_role_repository : Sessions.RoleRepository UserDb
unfolding find_by_name
auth_role_repository = record { find_by_name = find_by_name }

-- The methods that no use case calls.
pub record MoreRoles : Type 0 where
  pub update : Role → UserDb → Result UserDb
  pub delete : Uuid → UserDb → UserDb
  pub find_by_user_id : Uuid → UserDb → Result (List Role)
  pub exists_by_id : Uuid → UserDb → Bool
  pub exists_by_name : GoString → UserDb → Bool
  pub delete_by_name : GoString → UserDb → UserDb

unfoldable pub more_roles : MoreRoles
unfolding update delete_role find_by_user_id role_exists role_exists_by_name delete_role_by_name
more_roles = record {
  update = update;
  delete = delete_role;
  find_by_user_id = find_by_user_id;
  exists_by_id = role_exists;
  exists_by_name = role_exists_by_name;
  delete_by_name = delete_role_by_name;
}

-- PermissionRepository: a row is the entity.
pub record PermissionRepository : Type 0 where
  pub save : Permission → UserDb → Result UserDb
  pub delete : Uuid → UserDb → UserDb
  pub find_by_id : Uuid → UserDb → Option Permission
  pub find_by_name : GoString → UserDb → Option Permission
  pub find_all : UserDb → List Permission
  pub find_by_role_id : Uuid → UserDb → List Permission
  pub exists_by_id : Uuid → UserDb → Bool

unfoldable pub permission_repository : Postgres → PermissionRepository
unfolding create_permission delete_permission get_permission get_permission_by_name
    get_role_permissions permission_exists
permission_repository pg = record {
  save = create_permission;
  delete = delete_permission;
  find_by_id = get_permission;
  find_by_name = get_permission_by_name;
  find_all = λ d. pg.by_resource d.permissions;
  find_by_role_id = λ id d. map (λ row. row.1) (get_role_permissions id d);
  exists_by_id = permission_exists;
}
