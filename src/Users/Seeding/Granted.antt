-- ===== src/Users/Seeding/Granted.antt =====
-- What the roles that SeedSystemRoles (internal/application/usecase/user/user_usecase.go) saves grant.
use go_clean_arch_poc.Base.{
  GoString, false, ◌||◌, ◌≡◌, refl, sym, ap, ◌∙◌, arith, some, List, [], ◌∷◌, ◌++◌, any, map, ◌==◌,
}
use mathlib.Core.Path.{subst}
use go_clean_arch_poc.Messaging.EventBus.Delivery.{append_one, append_nil}
use go_clean_arch_poc.Domain.Error.{ok}
use go_clean_arch_poc.Domain.Task.{Uuid, Time}
use go_clean_arch_poc.Domain.Role.{
  Role, Permission, holds, new_permission, add_permission, update_description,
}
use go_clean_arch_poc.Domain.Role.Resource.{ResourceType}
use go_clean_arch_poc.Domain.Role.Action.{PermissionAction}
use go_clean_arch_poc.Users.Seeding.{DesiredRole, add_permissions, desired_entity}

abbrev pub grant : Permission → ResourceType × PermissionAction
grant p = (p.resource, p.action)

abbrev pub id_of : (GoString → Uuid) → ResourceType × PermissionAction → Uuid
id_of new_id (resource, action) = new_id (resource ++ b':' ∷ action)

-- Each permission gets an id that none before it has.
abbrev pub IsFresh : (GoString → Uuid) → List Uuid → List (ResourceType × PermissionAction) → Type 0
IsFresh new_id used [] = Unit
IsFresh new_id used (p ∷ ps) =
    (any (λ id. id == id_of new_id p) used ≡ false)
    × IsFresh new_id (used ++ id_of new_id p ∷ []) ps

map-concat :
    {A B : Type 0} (f : A → B) (xs : List A) (y : A) → map f (xs ++ y ∷ []) ≡ map f xs ++ f y ∷ []
map-concat f [] y = refl
map-concat f (x ∷ xs) y = ap (λ r. f x ∷ r) (map-concat f xs y)

holds-any :
    (id : Uuid) (ps : List Permission) → holds id ps ≡ any (λ x. x == id) (map (λ p. p.id) ps)
holds-any id [] = refl
holds-any id (p ∷ ps) = ap (λ b. p.id == id || b) (holds-any id ps)

-- The role after one more permission.
abbrev made : Time → (GoString → Uuid) → ResourceType → PermissionAction → Permission
made now new_id resource action = record {
  id = new_id (resource ++ b':' ∷ action);
  name = resource ++ b':' ∷ action;
  resource = resource;
  action = action;
  created_at = now;
}

abbrev with_made : Time → (GoString → Uuid) → ResourceType → PermissionAction → Role → Role
with_made now new_id resource action r = record r {
  permissions = r.permissions ++ made now new_id resource action ∷ [];
  updated_at = now;
}

add_permissions-next :
    (now : Time) (new_id : GoString → Uuid) (resource : ResourceType) (action : PermissionAction)
    (ps : List (ResourceType × PermissionAction)) (r r' : Role)
    → holds (new_id (resource ++ b':' ∷ action)) r.permissions ≡ false
    → add_permissions now new_id ((resource, action) ∷ ps) r ≡ ok r'
    → add_permissions now new_id ps (with_made now new_id resource action r) ≡ ok r'
unfolding add_permissions new_permission add_permission
add_permissions-next now new_id resource action ps r r' n h = ground arith

add_permissions-grant :
    (now : Time) (new_id : GoString → Uuid) (ps : List (ResourceType × PermissionAction))
    (r r' : Role)
    → IsFresh new_id (map (λ p. p.id) r.permissions) ps
    → add_permissions now new_id ps r ≡ ok r'
    → (map grant r'.permissions ≡ map grant r.permissions ++ ps)
      × (r'.id ≡ r.id)
      × (r'.name ≡ r.name)
      × (r'.description ≡ r.description)
unfolding add_permissions
add_permissions-grant now new_id [] r r' f h = ground (arith, append_nil (map grant r.permissions))
add_permissions-grant now new_id ((resource, action) ∷ ps) r r' f h =
    let id = new_id (resource ++ b':' ∷ action) in
    let next =
      add_permissions-next now new_id resource action ps r r' (holds-any id r.permissions ∙ f.0)
        h in
    let fresh =
      subst (λ ids. IsFresh new_id ids ps)
        (sym
          (map-concat (λ (p : Permission). p.id) r.permissions (made now new_id resource action)))
        f.1 in
    let (g, i, n, d) =
      add_permissions-grant now new_id ps (with_made now new_id resource action r) r' fresh next in
    (
      g
          ∙ ap (λ x. x ++ ps) (map-concat grant r.permissions (made now new_id resource action))
          ∙ append_one (map grant r.permissions) ps (resource, action),
      i,
      n,
      d,
    )

-- The entity that SeedSystemRoles saves for a role that there is has the name, the description and
-- exactly the permissions that are desired, in their order, and keeps its id, whatever its
-- permissions and description were, where every permission gets an id of its own.
pub desired_entity-ok :
    (now : Time) (id : Uuid) (new_id : GoString → Uuid) (r : DesiredRole) (old role : Role)
    → IsFresh new_id [] r.permissions
    → old.name ≡ r.name
    → desired_entity now id new_id r (some old) ≡ ok role
    → (map grant role.permissions ≡ r.permissions)
      × (role.name ≡ r.name)
      × (role.description ≡ r.description)
      × (role.id ≡ old.id)
unfolding desired_entity update_description
desired_entity-ok now id new_id r old role f n h =
    let (g, i, m, d) =
      add_permissions-grant now new_id r.permissions
        (record old { description = r.description; updated_at = now; permissions = [] }) role f h in
    (g, m ∙ n, d, i)
