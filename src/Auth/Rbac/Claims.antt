-- ===== src/Auth/Rbac/Claims.antt =====
-- HasPermission through the text of the claims, against the permissions themselves
-- (internal/auth/rbac/authorizer.go).
use go_clean_arch_poc.Base.{
  Bool, true, false, ◌||◌, ◌≡◌, refl, arith, ◌∙◌, ap, ap₂, some, List, [], ◌∷◌, map, any,
  any-append, any-map, All, has_byte, split, split_none, split-append, if◌then◌else◌,
}
use go_clean_arch_poc.Domain.Role.{Role, Permission, matches, permission_string}
use go_clean_arch_poc.Domain.Role.Resource.{ResourceType}
use go_clean_arch_poc.Domain.Role.Action.{PermissionAction}
use go_clean_arch_poc.Domain.User.{User}
use go_clean_arch_poc.Auth.Rbac.{
  Authorizer, match_parts, policy_allows, permission_strings, role_names, has_permission,
}

-- Neither part of the permission holds a colon.
abbrev pub IsPlain : Permission → Type 0
IsPlain p = (has_byte b':' p.resource ≡ false) × (has_byte b':' p.action ≡ false)

match_parts-split :
    (p : Permission) (resource : ResourceType) (action : PermissionAction)
    → IsPlain p
    → match_parts (split b':' (permission_string p)) resource action ≡ matches p resource action
unfolding match_parts matches permission_string
match_parts-split p resource action h =
    ap (λ parts. match_parts parts resource action)
      (split-append b':' p.resource p.action h.0
        ∙ ap (λ rest. p.resource ∷ rest) (split_none b':' p.action h.1))

any-permission_string :
    (ps : List Permission) (resource : ResourceType) (action : PermissionAction)
    → All IsPlain ps
    → any (λ s. match_parts (split b':' s) resource action) (map permission_string ps)
      ≡ any (λ p. matches p resource action) ps
any-permission_string [] resource action h = refl
any-permission_string (p ∷ ps) resource action h =
    rw (match_parts-split p resource action h.0, any-permission_string ps resource action h.1)

any-permission_strings :
    (roles : List Role) (resource : ResourceType) (action : PermissionAction)
    → All (λ r. All IsPlain r.permissions) roles
    → any (λ s. match_parts (split b':' s) resource action) (permission_strings roles)
      ≡ any (λ r. any (λ p. matches p resource action) r.permissions) roles
unfolding permission_strings
any-permission_strings [] resource action h = refl
any-permission_strings (r ∷ roles) resource action h = rw any-append (
    rw (
      any-permission_string r.permissions resource action h.0,
      any-permission_strings roles resource action h.1,
    ))

if_eq_or : (x y : Bool) → (if x then true else y) ≡ (x || y)
if_eq_or x y = ground arith

-- A user whose permissions hold no colon has the permission for an action on a resource exactly if
-- a permission of one of the roles matches, or the policy allows it to one of the roles: writing
-- the permissions into the claims and splitting them there loses nothing.
pub has_permission-matches :
    (a : Authorizer) (user : User) (resource : ResourceType) (action : PermissionAction)
    → All (λ r. All IsPlain r.permissions) user.roles
    → has_permission a (some user) resource action ≡ (
        any (λ r. any (λ p. matches p resource action) r.permissions) user.roles
        || any (λ r. policy_allows a resource action r.name) user.roles)
unfolding has_permission
has_permission-matches a user resource action h =
    if_eq_or (any (λ s. match_parts (split b':' s) resource action) (permission_strings user.roles))
      (any (policy_allows a resource action) (role_names user.roles))
    ∙ ap₂ (λ x y. x || y) (any-permission_strings user.roles resource action h)
        (any-map (λ r. r.name) (policy_allows a resource action) user.roles)
