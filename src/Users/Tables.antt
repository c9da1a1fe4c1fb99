-- ===== src/Users/Tables.antt =====
-- The tables users, roles, permissions, user_roles and role_permissions (migrations/
-- 000001_init.up.sql), and the queries on them (internal/infrastructure/database/sqlc/users.sql.go and
-- roles.sql.go). The database is up: a query fails where a key is taken or missing, or where it asks
-- for a row that is not there. A join gives its rows in the order of the table that joins. NOW() is the
-- time that is written.
pub mod UserRepository
pub mod RoleRepository
pub mod Pairs
pub mod Synced
pub mod Assigned
use go_clean_arch_poc.Base.{
  ℕ, zero, GoString, Bool, true, false, not, ◌&&◌, ◌||◌, Option, none, some, List, [], ◌∷◌, ◌++◌,
  any, ◌==◌, str_eq, if◌then◌else◌,
}
use go_clean_arch_poc.Domain.Error.{Error, Result, ok, err}
use go_clean_arch_poc.Domain.Task.{Uuid, Time}
use go_clean_arch_poc.Domain.Role.{Permission}

pub record UserRow : Type 0 where
  pub id : Uuid
  pub email : GoString
  pub password_hash : GoString
  pub name : GoString
  pub created_at : Time
  pub updated_at : Time

pub record RoleRow : Type 0 where
  pub id : Uuid
  pub name : GoString
  pub description : Option GoString
  pub created_at : Time
  pub updated_at : Time

-- A row of permissions is the entity; one of user_roles or role_permissions is two ids.
pub record UserDb : Type 0 where
  pub users : List UserRow
  pub roles : List RoleRow
  pub permissions : List Permission
  pub user_roles : List (Uuid × Uuid)
  pub role_permissions : List (Uuid × Uuid)

-- The first row of which a test holds.
unfoldable pub find {ℓ} : {A : Type ℓ} → (A → Bool) → List A → Option A
find p [] = none
find p (x ∷ xs) = if p x then some x else find p xs

unfoldable pub keep {ℓ} : {A : Type ℓ} → (A → Bool) → List A → List A
keep p [] = []
keep p (x ∷ xs) = let rest = keep p xs in if p x then x ∷ rest else rest

-- UPDATE of the rows of which a test holds.
unfoldable pub update_where {ℓ} : {A : Type ℓ} → (A → Bool) → (A → A) → List A → List A
update_where p f [] = []
update_where p f (x ∷ xs) = let rest = update_where p f xs in if p x then f x ∷ rest else x ∷ rest

abbrev pub has_pair : Uuid → Uuid → List (Uuid × Uuid) → Bool
has_pair a b [] = false
has_pair a b ((x, y) ∷ pairs) = (x == a && y == b) || has_pair a b pairs

-- INSERT ... ON CONFLICT DO NOTHING
abbrev pub put_pair : Uuid → Uuid → List (Uuid × Uuid) → List (Uuid × Uuid)
put_pair a b pairs = if has_pair a b pairs then pairs else pairs ++ (a, b) ∷ []

unfoldable pub drop_pair : Uuid → Uuid → List (Uuid × Uuid) → List (Uuid × Uuid)
drop_pair a b [] = []
drop_pair a b ((x, y) ∷ pairs) =
    let rest = drop_pair a b pairs in if x == a && y == b then rest else (x, y) ∷ rest

abbrev pub unique_violation : Error
unique_violation = Error.external 23505

abbrev pub foreign_key_violation : Error
foreign_key_violation = Error.external 23503

abbrev pub no_rows : Error
no_rows = Error.external 0

-- users

unfoldable pub get_user : Uuid → UserDb → Option UserRow
unfolding find
get_user id d = find (λ r. r.id == id) d.users

unfoldable pub get_user_by_email : GoString → UserDb → Option UserRow
unfolding find
get_user_by_email email d = find (λ r. str_eq r.email email) d.users

unfoldable pub user_exists : Uuid → UserDb → Bool
user_exists id d = any (λ r. r.id == id) d.users

unfoldable pub user_exists_by_email : GoString → UserDb → Bool
user_exists_by_email email d = any (λ r. str_eq r.email email) d.users

unfoldable pub create_user : UserRow → UserDb → Result UserDb
unfolding user_exists user_exists_by_email
create_user r d =
    if user_exists r.id d || user_exists_by_email r.email d
    then err unique_violation
    else ok (record d { users = r ∷ d.users })

-- Neither value of an UPDATE is NULL, so that COALESCE takes it.
abbrev pub written_user : UserRow → UserRow → UserRow
written_user new r = record r {
  email = new.email;
  name = new.name;
  password_hash = new.password_hash;
  updated_at = new.updated_at;
}

unfoldable pub update_user : UserRow → UserDb → Result UserDb
unfolding user_exists update_where
update_user new d =
    if not (user_exists new.id d)
    then err no_rows
    else if any (λ r. str_eq r.email new.email && not (r.id == new.id)) d.users
    then err unique_violation
    else ok (record d { users = update_where (λ r. r.id == new.id) (written_user new) d.users })

-- The rows of the user in user_roles go with it.
unfoldable pub delete_user : Uuid → UserDb → UserDb
unfolding keep
delete_user id d = record d {
  users = keep (λ r. not (r.id == id)) d.users;
  user_roles = keep (λ p. not (p.0 == id)) d.user_roles;
}

-- roles

unfoldable pub get_role : Uuid → UserDb → Option RoleRow
unfolding find
get_role id d = find (λ r. r.id == id) d.roles

unfoldable pub get_role_by_name : GoString → UserDb → Option RoleRow
unfolding find
get_role_by_name name d = find (λ r. str_eq r.name name) d.roles

unfoldable pub role_exists : Uuid → UserDb → Bool
role_exists id d = any (λ r. r.id == id) d.roles

unfoldable pub role_exists_by_name : GoString → UserDb → Bool
role_exists_by_name name d = any (λ r. str_eq r.name name) d.roles

-- Nothing but the row's id and time of creation stay where the name is taken.
unfoldable pub upsert_role : RoleRow → UserDb → Result UserDb
unfolding role_exists role_exists_by_name update_where
upsert_role new d =
    if role_exists_by_name new.name d
    then ok (record d {
      roles =
          update_where (λ r. str_eq r.name new.name)
            (λ r. record r { description = new.description; updated_at = new.updated_at }) d.roles;
    })
    else if role_exists new.id d
    then err unique_violation
    else ok (record d { roles = new ∷ d.roles })

abbrev pub or_old {ℓ} : {A : Type ℓ} → Option A → Option A → Option A
or_old none old = old
or_old (some a) old = some a

unfoldable pub update_role : RoleRow → UserDb → Result UserDb
unfolding role_exists update_where
update_role new d =
    if not (role_exists new.id d)
    then err no_rows
    else if any (λ r. str_eq r.name new.name && not (r.id == new.id)) d.roles
    then err unique_violation
    else ok (record d {
      roles =
          update_where (λ r. r.id == new.id)
            (λ r. record r {
              name = new.name;
              description = or_old new.description r.description;
              updated_at = new.updated_at;
            })
            d.roles;
    })

-- DELETE FROM roles, and the rows of user_roles and role_permissions that go with them.
unfoldable pub delete_roles : (RoleRow → Bool) → UserDb → UserDb
unfolding keep
delete_roles gone d =
    let is_gone = λ (id : Uuid). any (λ r. r.id == id && gone r) d.roles in
    record d {
      roles = keep (λ r. not (gone r)) d.roles;
      user_roles = keep (λ p. not (is_gone p.1)) d.user_roles;
      role_permissions = keep (λ p. not (is_gone p.0)) d.role_permissions;
    }

unfoldable pub delete_role : Uuid → UserDb → UserDb
unfolding delete_roles
delete_role id d = delete_roles (λ r. r.id == id) d

unfoldable pub delete_role_by_name : GoString → UserDb → UserDb
unfolding delete_roles
delete_role_by_name name d = delete_roles (λ r. str_eq r.name name) d

unfoldable pub delete_roles_by_names : List GoString → UserDb → UserDb
unfolding delete_roles
delete_roles_by_names names d = delete_roles (λ r. any (λ name. str_eq r.name name) names) d

-- permissions

unfoldable pub get_permission : Uuid → UserDb → Option Permission
unfolding find
get_permission id d = find (λ p. p.id == id) d.permissions

unfoldable pub get_permission_by_name : GoString → UserDb → Option Permission
unfolding find
get_permission_by_name name d = find (λ p. str_eq p.name name) d.permissions

unfoldable pub permission_exists : Uuid → UserDb → Bool
permission_exists id d = any (λ p. p.id == id) d.permissions

unfoldable pub create_permission : Permission → UserDb → Result UserDb
unfolding permission_exists
create_permission p d =
    if permission_exists p.id d || any (λ q. str_eq q.name p.name) d.permissions
    then err unique_violation
    else ok (record d { permissions = p ∷ d.permissions })

-- The id of the row comes back: that of the permission of this name, if there is one.
unfoldable pub upsert_permission : Permission → UserDb → Result (Uuid × UserDb)
unfolding get_permission_by_name permission_exists update_where
upsert_permission p d = elim (get_permission_by_name p.name d) [
  | some old ↦ ok (
    old.id,
    record d {
      permissions =
          update_where (λ q. str_eq q.name p.name)
            (λ q. record q { resource = p.resource; action = p.action }) d.permissions;
    },
  )
  | none ↦
      if permission_exists p.id d
      then err unique_violation
      else ok (p.id, record d { permissions = p ∷ d.permissions })
]

unfoldable pub delete_permission : Uuid → UserDb → UserDb
unfolding keep
delete_permission id d = record d {
  permissions = keep (λ p. not (p.id == id)) d.permissions;
  role_permissions = keep (λ p. not (p.1 == id)) d.role_permissions;
}

-- user_roles and role_permissions

-- SELECT FROM roles JOIN user_roles.
unfoldable pub join_roles : Uuid → List (Uuid × Uuid) → UserDb → List RoleRow
unfolding get_role
join_roles user_id [] d = []
join_roles user_id ((u, r) ∷ pairs) d =
    let rest = join_roles user_id pairs d in
    if u == user_id then elim (get_role r d) [ none ↦ rest | some row ↦ row ∷ rest ] else rest

unfoldable pub get_user_roles : Uuid → UserDb → List RoleRow
unfolding join_roles
get_user_roles user_id d = join_roles user_id d.user_roles d

unfoldable pub assign_role_to_user : Uuid → Uuid → UserDb → Result UserDb
unfolding user_exists role_exists
assign_role_to_user user_id role_id d =
    if not (user_exists user_id d && role_exists role_id d)
    then err foreign_key_violation
    else ok (record d { user_roles = put_pair user_id role_id d.user_roles })

unfoldable pub remove_role_from_user : Uuid → Uuid → UserDb → UserDb
unfolding drop_pair
remove_role_from_user user_id role_id d = record d {
  user_roles = drop_pair user_id role_id d.user_roles;
}

-- SELECT FROM permissions JOIN role_permissions, with the id of the role.
unfoldable pub join_permissions :
    (Uuid → Bool) → List (Uuid × Uuid) → UserDb → List (Uuid × Permission)
unfolding get_permission
join_permissions wanted [] d = []
join_permissions wanted ((r, p) ∷ pairs) d =
    let rest = join_permissions wanted pairs d in
    if wanted r
    then elim (get_permission p d) [ none ↦ rest | some row ↦ (r, row) ∷ rest ]
    else rest

unfoldable pub get_permissions_by_role_ids : List Uuid → UserDb → List (Uuid × Permission)
unfolding join_permissions
get_permissions_by_role_ids ids d =
    join_permissions (λ id. any (λ x. x == id) ids) d.role_permissions d

unfoldable pub get_role_permissions : Uuid → UserDb → List (Uuid × Permission)
unfolding join_permissions
get_role_permissions role_id d = join_permissions (λ id. id == role_id) d.role_permissions d

unfoldable pub add_permission_to_role : Uuid → Uuid → UserDb → Result UserDb
unfolding role_exists permission_exists
add_permission_to_role role_id permission_id d =
    if not (role_exists role_id d && permission_exists permission_id d)
    then err foreign_key_violation
    else ok (record d { role_permissions = put_pair role_id permission_id d.role_permissions })

unfoldable pub remove_all_permissions_from_role : Uuid → UserDb → UserDb
unfolding keep
remove_all_permissions_from_role role_id d = record d {
  role_permissions = keep (λ p. not (p.0 == role_id)) d.role_permissions;
}
