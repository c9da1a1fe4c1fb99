-- ===== src/Domain/Role.antt =====
-- Permissions and roles (internal/domain/entity/permission.go, role.go, resource_type.go).
pub mod Resource
pub mod Action
pub mod Grants
use go_clean_arch_poc.Base.{
  ℕ, GoString, bytes, Bool, ◌||◌, ◌&&◌, List, [], ◌∷◌, ◌++◌, any, ◌==◌, str_eq, if◌then◌else◌,
}
use go_clean_arch_poc.Domain.Error.{Error, EntityError, Result, ok, err}
use go_clean_arch_poc.Domain.Task.{Uuid, Time}
use go_clean_arch_poc.Domain.Role.Resource.{ResourceType}
use go_clean_arch_poc.Domain.Role.Action.{PermissionAction}

-- `ResourceTypeAll` and `PermissionActionAll`.
abbrev pub star : GoString
star = bytes "*"

abbrev pub role_admin : GoString
role_admin = bytes "admin"

abbrev pub role_manager : GoString
role_manager = bytes "manager"

abbrev pub role_member : GoString
role_member = bytes "member"

abbrev pub role_viewer : GoString
role_viewer = bytes "viewer"

pub record Permission : Type 0 where
  pub id : Uuid
  pub name : GoString
  pub resource : ResourceType
  pub action : PermissionAction
  pub created_at : Time

unfoldable pub new_permission :
    Time → Uuid → GoString → ResourceType → PermissionAction → Result Permission
new_permission now id name resource action =
    if str_eq name []
    then err (Error.entity EntityError.empty_permission_name)
    else if str_eq resource []
    then err (Error.entity EntityError.empty_resource)
    else if str_eq action []
    then err (Error.entity EntityError.empty_action)
    else ok
        (record { id = id; name = name; resource = resource; action = action; created_at = now })

unfoldable pub matches : Permission → ResourceType → PermissionAction → Bool
matches p resource action =
    (str_eq p.resource star || str_eq p.resource resource)
    && (str_eq p.action star || str_eq p.action action)

-- `Permission.String`, which RBAC and the token's claims spell out too.
unfoldable pub permission_string : Permission → GoString
permission_string p = p.resource ++ b':' ∷ p.action

pub record Role : Type 0 where
  pub id : Uuid
  pub name : GoString
  pub description : GoString
  pub permissions : List Permission
  pub created_at : Time
  pub updated_at : Time

unfoldable pub new_role : Time → Uuid → GoString → GoString → Result Role
new_role now id name description =
    if str_eq name []
    then err (Error.entity EntityError.empty_role_name)
    else ok (record {
      id = id;
      name = name;
      description = description;
      permissions = [];
      created_at = now;
      updated_at = now;
    })

abbrev pub holds : Uuid → List Permission → Bool
holds id = any (λ p. p.id == id)

unfoldable pub add_permission : Time → Permission → Role → Role
add_permission now permission r =
    if holds permission.id r.permissions
    then r
    else record r { permissions = r.permissions ++ permission ∷ []; updated_at = now }

unfoldable pub drop_permission : Uuid → List Permission → List Permission
drop_permission id [] = []
drop_permission id (p ∷ ps) =
    let rest = drop_permission id ps in if p.id == id then ps else p ∷ rest

unfoldable pub remove_permission : Time → Uuid → Role → Role
unfolding drop_permission
remove_permission now id r =
    if holds id r.permissions
    then record r { permissions = drop_permission id r.permissions; updated_at = now }
    else r

-- The body of the loop of `Role.HasPermission`.
abbrev pub grants : ResourceType → PermissionAction → Permission → Bool
grants resource action p =
    (str_eq p.resource resource && str_eq p.action action)
    || (str_eq p.resource star || (str_eq p.resource resource && str_eq p.action star))

unfoldable pub role_has_permission : Role → ResourceType → PermissionAction → Bool
role_has_permission r resource action = any (grants resource action) r.permissions

unfoldable pub update_name : Time → GoString → Role → Result Role
update_name now name r =
    if str_eq name []
    then err (Error.entity EntityError.empty_role_name)
    else ok (record r { name = name; updated_at = now })

unfoldable pub update_description : Time → GoString → Role → Role
update_description now description r = record r { description = description; updated_at = now }
