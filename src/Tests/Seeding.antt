-- ===== src/Tests/Seeding.antt =====
-- The seeding of roles (internal/application/usecase/user/user_usecase.go) at concrete inputs.
use go_clean_arch_poc.Base.{◌+◌, ◌*◌, GoString, bytes, ◌≡◌, refl, some, str_discrete, [], ◌∷◌, map}
use go_clean_arch_poc.Domain.Error.{Result, ok, err}
use go_clean_arch_poc.Domain.Task.{Uuid}
use go_clean_arch_poc.Domain.Role.{Role, role_viewer, add_permission, new_permission}
use go_clean_arch_poc.Domain.Role.Resource
use go_clean_arch_poc.Domain.Role.Action
use go_clean_arch_poc.Users.Seeding.{DesiredRole, add_permissions, desired_entity}
use go_clean_arch_poc.Users.Seeding.Granted.{grant, desired_entity-ok}
use go_clean_arch_poc.Tests.Sessions.{member}

-- An id for every name.
abbrev numbered : GoString → Uuid
numbered [] = 1
numbered (b ∷ s) = b + 3 * numbered s

abbrev viewer : DesiredRole
viewer = record {
  name = role_viewer;
  description = bytes "Viewer access";
  permissions =
      (Resource.task, Action.read)
      ∷ (Resource.user, Action.read)
      ∷ (Resource.label, Action.read)
      ∷ [];
}

-- The role as it was before, with other permissions.
abbrev old_viewer : Role
old_viewer = record member { id = 8; name = role_viewer }

abbrev role_of : Result Role → Role
role_of (ok r) = r
role_of (err e) = member

abbrev seeded : Result Role
seeded = desired_entity 10 9 numbered viewer (some old_viewer)

seeds : seeded ≡ ok (role_of seeded)
unfolding desired_entity add_permissions new_permission add_permission str_discrete
seeds = refl

desired_entity-ok_example :
    (map grant (role_of seeded).permissions ≡ viewer.permissions)
    × ((role_of seeded).name ≡ role_viewer)
    × ((role_of seeded).description ≡ bytes "Viewer access")
    × ((role_of seeded).id ≡ 8)
desired_entity-ok_example =
    desired_entity-ok 10 9 numbered viewer old_viewer (role_of seeded) (refl, (refl, (refl, tt)))
      refl seeds
