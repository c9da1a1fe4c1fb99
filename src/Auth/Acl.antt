-- ===== src/Auth/Acl.antt =====
-- The ACL checker (internal/auth/acl/checker.go) over its port, the ACLRepository
-- (internal/application/port/output/user_repository.go). `D` is the state of the database: a method
-- that reads does not change it, and one that fails leaves it.
pub mod Table
pub mod Access
pub mod Changes
pub mod Revoking
use go_clean_arch_poc.Base.{
  ℕ, zero, Bool, true, false, not, List, [], ◌∷◌, ◌==◌, str_eq, if◌then◌else◌,
}
use go_clean_arch_poc.Domain.Error.{Result, ok, err, ◌>>=◌}
use go_clean_arch_poc.Domain.Task.{Uuid, Time}
use go_clean_arch_poc.Domain.Role.Resource.{ResourceType}
use go_clean_arch_poc.Domain.Acl.{
  AclPermission, AclSubjectType, AclEntry, new_acl_entry, permission_admin, subject_user,
  subject_role,
}

pub record AclRepository (D : Type 0) : Type 0 where
  pub save : AclEntry → D → Result D
  pub delete : Uuid → D → Result D
  pub find_by_resource : ResourceType → Uuid → D → Result (List AclEntry)
  pub find_by_subject : AclSubjectType → Uuid → D → Result (List AclEntry)
  pub has_permission : ResourceType → Uuid → AclSubjectType → Uuid → AclPermission → D → Result Bool
  pub delete_by_resource : ResourceType → Uuid → D → Result D

module _ {D : Type 0} (repo : AclRepository D) where
  -- One subject: the permission asked for, and then admin, unless that was it. What is bound by
  -- `let` runs only if the calls before it have neither failed nor granted.
  unfoldable pub check_subject :
      ResourceType → Uuid → AclSubjectType → Uuid → AclPermission → D → Result Bool
  check_subject resource_type resource_id subject_type subject_id permission d =
      repo.has_permission resource_type resource_id subject_type subject_id permission d
      >>= λ granted.
          if granted
          then ok true
          else if not (str_eq permission permission_admin)
          then repo.has_permission resource_type resource_id subject_type subject_id
              permission_admin d
          else ok false

  -- The loop over the roles.
  unfoldable pub check_roles : List Uuid → ResourceType → Uuid → AclPermission → D → Result Bool
  unfolding check_subject
  check_roles [] resource_type resource_id permission d = ok false
  check_roles (role_id ∷ role_ids) resource_type resource_id permission d =
      let rest = check_roles role_ids resource_type resource_id permission d in
      check_subject resource_type resource_id subject_role role_id permission d >>= λ granted.
      if granted then ok true else rest

  unfoldable pub can_access :
      Uuid → List Uuid → ResourceType → Uuid → AclPermission → D → Result Bool
  unfolding check_subject check_roles
  can_access user_id role_ids resource_type resource_id permission d =
      if user_id == 0
      then ok false
      else (check_subject resource_type resource_id subject_user user_id permission d >>= λ granted.
          if granted then ok true else check_roles role_ids resource_type resource_id permission d)

  unfoldable pub grant_access :
      Time → Uuid → ResourceType → Uuid → AclSubjectType → Uuid → AclPermission → D → Result D
  grant_access now id resource_type resource_id subject_type subject_id permission d = do
    entry ← new_acl_entry now id resource_type resource_id subject_type subject_id permission
    repo.save entry d

  unfoldable pub revoke_access : Uuid → D → Result D
  revoke_access entry_id d = repo.delete entry_id d

  unfoldable pub revoke_all_access : ResourceType → Uuid → D → Result D
  revoke_all_access resource_type resource_id d =
      repo.delete_by_resource resource_type resource_id d

  unfoldable pub get_resource_permissions : ResourceType → Uuid → D → Result (List AclEntry)
  get_resource_permissions resource_type resource_id d =
      repo.find_by_resource resource_type resource_id d

  unfoldable pub get_user_permissions : Uuid → D → Result (List AclEntry)
  get_user_permissions user_id d = repo.find_by_subject subject_user user_id d
