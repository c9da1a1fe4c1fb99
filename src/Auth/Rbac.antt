-- ===== src/Auth/Rbac.antt =====
-- The RBAC authorizer (internal/auth/rbac/authorizer.go). A pointer that may be nil is an `Option`.
pub mod Claims
pub mod Policy
pub mod Managing
use go_clean_arch_poc.Base.{
  ℕ, GoString, bytes, Bool, true, false, ◌||◌, ◌&&◌, Option, none, some, List, [], ◌∷◌, ◌++◌, map,
  any, ◌==◌, str_eq, str_discrete, split, if◌then◌else◌,
}
use go_clean_arch_poc.Base.Dict
use go_clean_arch_poc.Base.Dict.{Dict}
use go_clean_arch_poc.Domain.Task.{Uuid, Task}
use go_clean_arch_poc.Domain.Role.{
  Role, star, role_admin, role_manager, role_member, role_viewer, permission_string,
}
use go_clean_arch_poc.Domain.Role.Resource
use go_clean_arch_poc.Domain.Role.Resource.{ResourceType}
use go_clean_arch_poc.Domain.Role.Action
use go_clean_arch_poc.Domain.Role.Action.{PermissionAction}
use go_clean_arch_poc.Domain.User.{User}

-- `Permission` of package rbac: a resource and an action.
pub record PolicyPermission : Type 0 where
  pub resource : ResourceType
  pub action : PermissionAction

pub record Authorizer : Type 0 where
  pub role_permissions : Dict GoString (List PolicyPermission)

abbrev allow : ResourceType → PermissionAction → PolicyPermission
allow resource action = record { resource = resource; action = action }

unfoldable pub default_role_permissions : Dict GoString (List PolicyPermission)
default_role_permissions =
    (
      role_admin,
      allow Resource.tasks star
          ∷ allow Resource.users star
          ∷ allow Resource.roles star
          ∷ allow Resource.permissions star
          ∷ allow Resource.labels star
          ∷ [],
    )
    ∷ (
      role_manager,
      allow Resource.tasks Action.create
          ∷ allow Resource.tasks Action.read
          ∷ allow Resource.tasks Action.update
          ∷ allow Resource.tasks Action.delete
          ∷ allow Resource.tasks Action.assign
          ∷ allow Resource.users Action.read
          ∷ allow Resource.labels star
          ∷ [],
    )
    ∷ (
      role_member,
      allow Resource.tasks Action.create
          ∷ allow Resource.tasks Action.read
          ∷ allow Resource.tasks Action.update
          ∷ allow Resource.labels Action.read
          ∷ [],
    )
    ∷ (
      role_viewer,
      allow Resource.tasks Action.read
          ∷ allow Resource.users Action.read
          ∷ allow Resource.labels Action.read
          ∷ [],
    )
    ∷ []

unfoldable pub new_authorizer : Authorizer
unfolding default_role_permissions
new_authorizer = record { role_permissions = default_role_permissions }

unfoldable pub match_permission :
    ResourceType → PermissionAction → ResourceType → PermissionAction → Bool
match_permission resource action required_resource required_action =
    (str_eq resource star || str_eq resource required_resource)
    && (str_eq action star || str_eq action required_action)

-- The body of the loop over the permissions: a claim that is not of two parts is skipped.
unfoldable pub match_parts : List GoString → ResourceType → PermissionAction → Bool
unfolding match_permission
match_parts (p ∷ a ∷ []) resource action = match_permission p a resource action
match_parts _ resource action = false

-- The body of the loop over the roles.
unfoldable pub policy_allows : Authorizer → ResourceType → PermissionAction → GoString → Bool
unfolding match_permission
policy_allows a resource action role_name =
    elim (Dict.get str_discrete role_name a.role_permissions) [
      | none ↦ false
      | some perms ↦ any (λ p. match_permission p.resource p.action resource action) perms
    ]

unfoldable pub has_permission_from_claims :
    Authorizer → List GoString → List GoString → ResourceType → PermissionAction → Bool
has_permission_from_claims a roles permissions resource action =
    if any (λ p. match_parts (split b':' p) resource action) permissions
    then true
    else any (policy_allows a resource action) roles

-- The names of the roles, and the permissions of all of them in order.
unfoldable pub role_names : List Role → List GoString
role_names roles = map (λ r. r.name) roles

unfoldable pub permission_strings : List Role → List GoString
unfolding permission_string
permission_strings [] = []
permission_strings (r ∷ roles) = map permission_string r.permissions ++ permission_strings roles

unfoldable pub has_permission : Authorizer → Option User → ResourceType → PermissionAction → Bool
unfolding role_names permission_strings has_permission_from_claims
has_permission a none resource action = false
has_permission a (some user) resource action =
    has_permission_from_claims a (role_names user.roles) (permission_strings user.roles) resource
      action

unfoldable pub has_role_from_claims : List GoString → GoString → Bool
has_role_from_claims roles role_name = any (λ r. str_eq r role_name) roles

unfoldable pub has_role : Option User → GoString → Bool
unfolding has_role_from_claims role_names
has_role none role_name = false
has_role (some user) role_name = has_role_from_claims (role_names user.roles) role_name

unfoldable pub has_any_role_from_claims : List GoString → List GoString → Bool
unfolding has_role_from_claims
has_any_role_from_claims user_roles names = any (has_role_from_claims user_roles) names

unfoldable pub has_any_role : Option User → List GoString → Bool
unfolding has_any_role_from_claims role_names
has_any_role none names = false
has_any_role (some user) names = has_any_role_from_claims (role_names user.roles) names

abbrev is_assignee : Uuid → Option Uuid → Bool
is_assignee id none = false
is_assignee id (some assignee) = assignee == id

unfoldable pub can_manage_task : Option User → Option Task → Bool
unfolding has_role
can_manage_task (some user) (some task) =
    if has_role (some user) role_admin
    then true
    else if task.creator_id == user.id
    then true
    else if is_assignee user.id task.assignee_id
    then true
    else if has_role (some user) role_manager
    then true
    else false
can_manage_task _ _ = false

unfoldable pub can_view_task : Authorizer → Option User → Option Task → Bool
unfolding has_permission
can_view_task a (some user) (some task) = has_permission a (some user) Resource.tasks Action.read
can_view_task a _ _ = false

unfoldable pub can_manage_user : Option User → Uuid → Bool
unfolding has_role
can_manage_user none target_user_id = false
can_manage_user (some actor) target_user_id =
    if has_role (some actor) role_admin
    then true
    else if actor.id == target_user_id
    then true
    else false
