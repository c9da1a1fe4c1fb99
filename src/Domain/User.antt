-- ===== src/Domain/User.antt =====
-- Users (internal/domain/entity/user.go). bcrypt is a parameter.
pub mod Permissions
use go_clean_arch_poc.Base.{
  ℕ, GoString, Bool, true, ◌≡◌, List, [], ◌∷◌, ◌++◌, any, ◌==◌, str_eq, if◌then◌else◌,
}
use go_clean_arch_poc.Domain.Error.{Error, EntityError, Result, ok, err, ◌>>=◌}
use go_clean_arch_poc.Domain.Task.{Uuid, Time}
use go_clean_arch_poc.Domain.Role.Resource.{ResourceType}
use go_clean_arch_poc.Domain.Role.Action.{PermissionAction}
use go_clean_arch_poc.Base.{ℕ_discrete}
use go_clean_arch_poc.Base.Dict
use go_clean_arch_poc.Base.Dict.{Dict}
use go_clean_arch_poc.Domain.Role.{Permission, Role, role_admin, role_has_permission}

-- golang.org/x/crypto/bcrypt: a hash of a password under a random salt, which may fail, and the
-- comparison of a hash with a password.
pub record Bcrypt : Type 0 where
  pub generate : ℕ → GoString → Result GoString
  pub compare : GoString → GoString → Bool
  pub compare-generate :
      (salt : ℕ) (password hash : GoString)
      → generate salt password ≡ ok hash
      → compare hash password ≡ true

pub record User : Type 0 where
  pub id : Uuid
  pub email : GoString
  pub password_hash : GoString
  pub name : GoString
  pub roles : List Role
  pub created_at : Time
  pub updated_at : Time

module _ (bcrypt : Bcrypt) where
  unfoldable pub new_user : Time → Uuid → ℕ → GoString → GoString → GoString → Result User
  new_user now id salt email password name =
      if str_eq email []
      then err (Error.entity EntityError.empty_email)
      else if str_eq password []
      then err (Error.entity EntityError.empty_password)
      else if str_eq name []
      then err (Error.entity EntityError.empty_name)
      else do
        hashed ← bcrypt.generate salt password
        ok (record {
          id = id;
          email = email;
          password_hash = hashed;
          name = name;
          roles = [];
          created_at = now;
          updated_at = now;
        })

  unfoldable pub verify_password : GoString → User → Bool
  verify_password password u = bcrypt.compare u.password_hash password

  unfoldable pub update_password : Time → ℕ → GoString → User → Result User
  update_password now salt new_password u =
      if str_eq new_password [] then err (Error.entity EntityError.empty_password) else do
        hashed ← bcrypt.generate salt new_password
        ok (record u { password_hash = hashed; updated_at = now })

unfoldable pub update_name : Time → GoString → User → Result User
update_name now name u =
    if str_eq name []
    then err (Error.entity EntityError.empty_name)
    else ok (record u { name = name; updated_at = now })

unfoldable pub update_email : Time → GoString → User → Result User
update_email now email u =
    if str_eq email []
    then err (Error.entity EntityError.empty_email)
    else ok (record u { email = email; updated_at = now })

abbrev pub holds_role : Uuid → List Role → Bool
holds_role id = any (λ r. r.id == id)

unfoldable pub assign_role : Time → Role → User → User
assign_role now role u =
    if holds_role role.id u.roles
    then u
    else record u { roles = u.roles ++ role ∷ []; updated_at = now }

unfoldable pub drop_role : Uuid → List Role → List Role
drop_role id [] = []
drop_role id (r ∷ rs) = let rest = drop_role id rs in if r.id == id then rs else r ∷ rest

unfoldable pub remove_role : Time → Uuid → User → User
unfolding drop_role
remove_role now id u =
    if holds_role id u.roles then record u { roles = drop_role id u.roles; updated_at = now } else u

unfoldable pub has_role : GoString → User → Bool
has_role name u = any (λ r. str_eq r.name name) u.roles

unfoldable pub user_has_permission : User → ResourceType → PermissionAction → Bool
user_has_permission u resource action = any (λ r. role_has_permission r resource action) u.roles

unfoldable pub is_admin : User → Bool
unfolding has_role
is_admin u = has_role role_admin u

-- The inner and the outer loop of `GetAllPermissions`.
unfoldable pub put_permissions : List Permission → Dict Uuid Permission → Dict Uuid Permission
put_permissions [] m = m
put_permissions (p ∷ ps) m = put_permissions ps (Dict.put ℕ_discrete p.id p m)

unfoldable pub put_role_permissions : List Role → Dict Uuid Permission → Dict Uuid Permission
unfolding put_permissions
put_role_permissions [] m = m
put_role_permissions (r ∷ roles) m = put_role_permissions roles (put_permissions r.permissions m)

-- The map whose values `GetAllPermissions` returns, in no order.
unfoldable pub get_all_permissions : User → Dict Uuid Permission
unfolding put_role_permissions
get_all_permissions u = put_role_permissions u.roles []
