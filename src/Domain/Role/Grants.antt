-- ===== src/Domain/Role/Grants.antt =====
-- What the permissions of a role grant: Role.HasPermission against Permission.Matches
-- (internal/domain/entity/role.go, permission.go).
use go_clean_arch_poc.Base.{Bool, false, ◌||◌, ◌&&◌, ◌≡◌, arith, any, str_eq, any_congr, any-concat}
use go_clean_arch_poc.Domain.Task.{Time}
use go_clean_arch_poc.Domain.Role.Resource.{ResourceType}
use go_clean_arch_poc.Domain.Role.Action.{PermissionAction}
use go_clean_arch_poc.Domain.Role.{
  star, Permission, Role, matches, grants, role_has_permission, holds, add_permission,
}

grants_cases : (a b c d : Bool) → ((a && b) || (c || (a && d))) ≡ (((c || a) && (d || b)) || c)
grants_cases a b c d = ground arith

-- A role has the permission for an action on a resource exactly if one of its permissions matches
-- it, or is for every resource: a permission for every resource and one action grants every
-- action.
pub role_has_permission-matches :
    (r : Role) (resource : ResourceType) (action : PermissionAction)
    → role_has_permission r resource action
      ≡ any (λ p. matches p resource action || str_eq p.resource star) r.permissions
unfolding role_has_permission matches
role_has_permission-matches r resource action =
    any_congr _ _
      (λ p.
        grants_cases (str_eq p.resource resource) (str_eq p.action action) (str_eq p.resource star)
          (str_eq p.action star))
      r.permissions

-- A permission that was not among those of the role by its id adds to what the role grants what it
-- grants by itself, and takes nothing away.
pub role_has_permission-add_permission :
    (now : Time) (p : Permission) (r : Role) (resource : ResourceType) (action : PermissionAction)
    → holds p.id r.permissions ≡ false
    → role_has_permission (add_permission now p r) resource action
      ≡ (role_has_permission r resource action || grants resource action p)
unfolding role_has_permission add_permission
role_has_permission-add_permission now p r resource action h =
    rw h (any-concat (grants resource action) r.permissions p)
