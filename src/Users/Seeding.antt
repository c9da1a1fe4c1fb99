-- ===== src/Users/Seeding.antt =====
-- SeedSystemRoles (internal/application/usecase/user/user_usecase.go), inside its transaction: the state
-- that it returns is kept, and an error keeps the old one. What `uuid.New()` gives for the role of a name
-- and for its permission of a name are arguments.
pub mod Granted
use go_clean_arch_poc.Base.{
  GoString, bytes, Bool, not, Option, none, some, List, [], ◌∷◌, ◌++◌, any, map, str_eq,
  if◌then◌else◌, ◌<|◌,
}
use go_clean_arch_poc.Domain.Error.{Result, ok, err, ◌>>=◌}
use go_clean_arch_poc.Domain.Task.{Uuid, Time}
use go_clean_arch_poc.Domain.Role
use go_clean_arch_poc.Domain.Role.{
  Role, star, role_admin, role_manager, role_member, role_viewer, new_role, new_permission,
  add_permission, update_description,
}
use go_clean_arch_poc.Domain.Role.Resource
use go_clean_arch_poc.Domain.Role.Resource.{ResourceType}
use go_clean_arch_poc.Domain.Role.Action
use go_clean_arch_poc.Domain.Role.Action.{PermissionAction}
use go_clean_arch_poc.Users.Ports.{UserUseCase}

pub record DesiredRole : Type 0 where
  pub name : GoString
  pub description : GoString
  pub permissions : List (ResourceType × PermissionAction)

abbrev pub desired_roles : List DesiredRole
desired_roles =
    record {
      name = role_admin;
      description = bytes "Full system access";
      permissions =
          (Resource.task, star)
          ∷ (Resource.user, star)
          ∷ (Resource.role, star)
          ∷ (Resource.permissions, star)
          ∷ (Resource.labels, star)
          ∷ [];
    }
    ∷ record {
      name = role_manager;
      description = bytes "Management access";
      permissions =
          (Resource.task, Action.create)
          ∷ (Resource.task, Action.read)
          ∷ (Resource.task, Action.update)
          ∷ (Resource.task, Action.delete)
          ∷ (Resource.task, Action.assign)
          ∷ (Resource.user, Action.read)
          ∷ (Resource.label, star)
          ∷ [];
    }
    ∷ record {
      name = role_member;
      description = bytes "Member access";
      permissions =
          (Resource.task, Action.create)
          ∷ (Resource.task, Action.read)
          ∷ (Resource.task, Action.update)
          ∷ (Resource.label, Action.read)
          ∷ [];
    }
    ∷ record {
      name = role_viewer;
      description = bytes "Viewer access";
      permissions =
          (Resource.task, Action.read)
          ∷ (Resource.user, Action.read)
          ∷ (Resource.label, Action.read)
          ∷ [];
    }
    ∷ []

abbrev pub is_desired : GoString → Bool
is_desired name = any (λ (r : DesiredRole). str_eq r.name name) desired_roles

unfoldable pub obsolete_roles : List Role → List GoString
obsolete_roles [] = []
obsolete_roles (r ∷ rs) =
    let rest = obsolete_roles rs in if not (is_desired r.name) then r.name ∷ rest else rest

unfoldable pub add_permissions :
    Time → (GoString → Uuid) → List (ResourceType × PermissionAction) → Role → Result Role
add_permissions now new_id [] r = ok r
add_permissions now new_id ((resource, action) ∷ more) r =
    let name = resource ++ b':' ∷ action in
    new_permission now (new_id name) name resource action >>= λ p.
    add_permissions now new_id more (add_permission now p r)

-- The entity that is saved for a role: a new one, or the one that there is with another description;
-- its permissions are made anew.
unfoldable pub desired_entity :
    Time → Uuid → (GoString → Uuid) → DesiredRole → Option Role → Result Role
unfolding add_permissions
desired_entity now id new_id r found =
    elim found [
      | none ↦ new_role now id r.name r.description
      | some role ↦ ok (record (update_description now r.description role) { updated_at = now })
    ]
    >>= λ role. add_permissions now new_id r.permissions (record role { permissions = [] })

module _ {C D : Type 0} (uc : UserUseCase C D) (now : Time) (new_id : GoString → Uuid)
    (new_permission_id : GoString → GoString → Uuid) where
  unfoldable pub sync_roles : List DesiredRole → D → Result D
  unfolding desired_entity
  sync_roles [] d = ok d
  sync_roles (r ∷ rs) d = uc.role_repo.find_by_name r.name d >>= λ found.
      desired_entity now (new_id r.name) (new_permission_id r.name) r found >>= λ role.
      uc.role_repo.remove_all_permissions role.id d >>= λ d1.
      uc.role_repo.save role d1 >>= λ d2. sync_roles rs d2

  abbrev pub delete_obsolete : List GoString → D → Result D
  delete_obsolete [] d = ok d
  delete_obsolete (name ∷ names) d = uc.role_repo.delete_by_names (name ∷ names) d

  unfoldable pub seed_system_roles : D → Result D
  unfolding obsolete_roles sync_roles
  seed_system_roles d = uc.role_repo.find_all d >>= λ existing.
      delete_obsolete (obsolete_roles existing) d >>= λ d1. sync_roles desired_roles d1
