-- ===== src/Tests/Access.antt =====
-- RBAC and access control lists at concrete inputs (internal/auth/rbac/authorizer.go,
-- internal/auth/acl/checker.go).
use go_clean_arch_poc.Base.{
  ◌≡◌, ◌||◌, ◌&&◌, refl, bytes, true, not, some, [], ◌∷◌, any, ◌==◌, str_discrete,
}
use go_clean_arch_poc.Domain.Error.{ok}
use go_clean_arch_poc.Domain.Role.{Role, matches, role_manager, role_member}
use go_clean_arch_poc.Domain.User.{User}
use go_clean_arch_poc.Domain.Acl.{
  AclEntry, permission_read, permission_admin, subject_user, subject_role,
}
use go_clean_arch_poc.Auth.Rbac.{new_authorizer, policy_allows, has_permission}
use go_clean_arch_poc.Auth.Rbac.Claims.{has_permission-matches}
use go_clean_arch_poc.Auth.Rbac.Policy.{allowed, policy_table}
use go_clean_arch_poc.Auth.Acl.{can_access, grant_access, revoke_all_access}
use go_clean_arch_poc.Auth.Acl.Table.{AclTable, table_repository, insert_row, where_rows}
use go_clean_arch_poc.Auth.Acl.Changes.{has_entry, can_access-matches}

abbrev manager_role : Role
manager_role = record {
  id = 3;
  name = role_manager;
  description = [];
  permissions =
      record {
        id = 1;
        name = bytes "edit";
        resource = bytes "task";
        action = bytes "update";
        created_at = 0;
      }
      ∷ [];
  created_at = 0;
  updated_at = 0;
}

abbrev manager : User
manager = record {
  id = 6;
  email = bytes "m@x.org";
  password_hash = [];
  name = bytes "Mo";
  roles = manager_role ∷ [];
  created_at = 0;
  updated_at = 0;
}

has_permission-matches_example :
    has_permission new_authorizer (some manager) (bytes "task") (bytes "update") ≡ (
      any (λ r. any (λ p. matches p (bytes "task") (bytes "update")) r.permissions) manager.roles
      || any
          (λ r. policy_allows new_authorizer (bytes "task") (bytes "update") r.name)
          manager.roles)
has_permission-matches_example =
    has_permission-matches new_authorizer manager (bytes "task") (bytes "update")
      (((refl, refl), tt), tt)

-- A user may read task 1, and a role may do everything with it.
abbrev reader : AclEntry
reader = record {
  id = 10;
  resource_type = bytes "task";
  resource_id = 1;
  subject_type = subject_user;
  subject_id = 5;
  permission = permission_read;
  created_at = 0;
}

abbrev keeper : AclEntry
keeper = record {
  id = 11;
  resource_type = bytes "task";
  resource_id = 1;
  subject_type = subject_role;
  subject_id = 3;
  permission = permission_admin;
  created_at = 0;
}

abbrev rows : AclTable
rows = reader ∷ keeper ∷ []

can_access-matches_example :
    can_access table_repository 9 (3 ∷ []) (bytes "task") 1 permission_read rows
    ≡ ok (
        not (9 == 0)
        && (has_entry (bytes "task") 1 permission_read rows subject_user 9
            || any (has_entry (bytes "task") 1 permission_read rows subject_role) (3 ∷ [])))
can_access-matches_example = can_access-matches (bytes "task") 1 permission_read rows 9 (3 ∷ [])

keeper_reads :
    can_access table_repository 9 (3 ∷ []) (bytes "task") 1 permission_read rows ≡ ok true
unfolding go_clean_arch_poc.Domain.Acl.matches str_discrete
keeper_reads = can_access-matches (bytes "task") 1 permission_read rows 9 (3 ∷ [])

revoked : revoke_all_access table_repository (bytes "task") 1 rows ≡ ok []
unfolding revoke_all_access table_repository where_rows str_discrete
revoked = refl

granted :
    grant_access table_repository 0 11
      (bytes "task")
      1
      subject_role
      3
      permission_admin
      (reader ∷ [])
    ≡ ok rows
unfolding grant_access table_repository insert_row str_discrete
    go_clean_arch_poc.Domain.Acl.new_acl_entry
granted = refl

member_creates : allowed (bytes "tasks") (bytes "create") role_member ≡ true
unfolding str_discrete
member_creates = (policy_table (bytes "tasks") (bytes "create")).2
