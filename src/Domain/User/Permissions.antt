-- ===== src/Domain/User/Permissions.antt =====
-- GetAllPermissions of a user (internal/domain/entity/user.go).
use go_clean_arch_poc.Base.{
  Bool, ◌||◌, ◌≡◌, refl, arith, List, [], ◌∷◌, any, is_some, ◌==◌, ℕ_discrete,
}
use go_clean_arch_poc.Base.Dict
use go_clean_arch_poc.Base.Dict.{Dict, get-put, IsDict, put-IsDict}
use go_clean_arch_poc.Domain.Task.{Uuid}
use go_clean_arch_poc.Domain.Role.{Permission, Role, holds}
use go_clean_arch_poc.Domain.User.{User, put_permissions, put_role_permissions, get_all_permissions}

abbrev pub has : Uuid → Dict Uuid Permission → Bool
has id m = is_some (Dict.get ℕ_discrete id m)

has-put :
    (id : Uuid) (p : Permission) (m : Dict Uuid Permission)
    → has id (Dict.put ℕ_discrete p.id p m) ≡ (p.id == id || has id m)
unfolding ℕ_discrete
has-put id p m = ground (arith, get-put ℕ_discrete p.id id p m)

has-put_permissions :
    (id : Uuid) (ps : List Permission) (m : Dict Uuid Permission)
    → has id (put_permissions ps m) ≡ (holds id ps || has id m)
unfolding put_permissions
has-put_permissions id [] m = refl
has-put_permissions id (p ∷ ps) m =
    ground (arith, has-put_permissions id ps (Dict.put ℕ_discrete p.id p m), has-put id p m)

has-put_role_permissions :
    (id : Uuid) (roles : List Role) (m : Dict Uuid Permission)
    → has id (put_role_permissions roles m) ≡ (any (λ r. holds id r.permissions) roles || has id m)
unfolding put_role_permissions
has-put_role_permissions id [] m = refl
has-put_role_permissions id (r ∷ roles) m = ground (
  arith,
  has-put_role_permissions id roles (put_permissions r.permissions m),
  has-put_permissions id r.permissions m,
)

put_permissions-IsDict :
    (ps : List Permission) (m : Dict Uuid Permission)
    → IsDict ℕ_discrete m
    → IsDict ℕ_discrete (put_permissions ps m)
unfolding put_permissions
put_permissions-IsDict [] m d = d
put_permissions-IsDict (p ∷ ps) m d = put_permissions-IsDict ps _ (put-IsDict ℕ_discrete p.id p m d)

put_role_permissions-IsDict :
    (roles : List Role) (m : Dict Uuid Permission)
    → IsDict ℕ_discrete m
    → IsDict ℕ_discrete (put_role_permissions roles m)
unfolding put_role_permissions
put_role_permissions-IsDict [] m d = d
put_role_permissions-IsDict (r ∷ roles) m d =
    put_role_permissions-IsDict roles _ (put_permissions-IsDict r.permissions m d)

-- GetAllPermissions returns no two permissions with one id, and one with an id exactly if some
-- role of the user holds one with that id.
pub get_all_permissions_lem :
    (u : User) (id : Uuid)
    → IsDict ℕ_discrete (get_all_permissions u)
      × (has id (get_all_permissions u) ≡ any (λ r. holds id r.permissions) u.roles)
unfolding get_all_permissions Dict.get
get_all_permissions_lem u id = (
  put_role_permissions-IsDict u.roles [] tt,
  ground (arith, has-put_role_permissions id u.roles []),
)
