-- ===== src/Users/Tables/Synced.antt =====
-- What a write of a user leaves in the tables, and what is read back
-- (internal/infrastructure/database/repository/user_repository.go).
use go_clean_arch_poc.Base.{
  Bool, true, ◌&&◌, ◌||◌, ◌≡◌, refl, ap, ◌∙◌, arith, some, List, [], ◌∷◌, inl, inr, any, map, ◌==◌,
  Bool-cases, if◌then◌else◌,
}
use go_clean_arch_poc.Domain.Error.{Result, ok, err}
use go_clean_arch_poc.Domain.Task.{Uuid}
use go_clean_arch_poc.Domain.Role.{Role}
use go_clean_arch_poc.Domain.User.{User, holds_role}
use go_clean_arch_poc.Users.Tables.{
  RoleRow, UserDb, UserRow, assign_role_to_user, find, get_user, get_user_roles, has_pair,
  join_roles, put_pair, remove_role_from_user, role_exists, update_user, update_where, user_exists,
  written_user,
}
use go_clean_arch_poc.Users.Tables.UserRepository.{
  assign_roles, find_by_id, load_user_roles, remove_roles, row_of, sqlc_user_to_entity,
  sync_user_roles, update,
}
use go_clean_arch_poc.Users.Tables.Pairs.{
  IsSound, has_pair-sync_user_roles, in_rows, in_rows-join_roles,
}

-- The tables but for user_roles.
abbrev pub IsSameBut : UserDb → UserDb → Type 0
IsSameBut d' d =
    (d'.users ≡ d.users)
    × (d'.roles ≡ d.roles)
    × (d'.permissions ≡ d.permissions)
    × (d'.role_permissions ≡ d.role_permissions)

remove_roles-others :
    (user_id : Uuid) (desired : List Role) (rows : List RoleRow) (d : UserDb)
    → IsSameBut (remove_roles user_id desired rows d) d
unfolding remove_roles remove_role_from_user
remove_roles-others user_id desired [] d = (refl, refl, refl, refl)
remove_roles-others user_id desired (r ∷ rows) d = ground (
  arith,
  remove_roles-others user_id desired rows d,
  remove_roles-others user_id desired rows (remove_role_from_user user_id r.id d),
)

assign_roles-others :
    (user_id : Uuid) (existing : List RoleRow) (roles : List Role) (d d' : UserDb)
    → assign_roles user_id existing roles d ≡ ok d'
    → IsSameBut d' d
unfolding assign_roles assign_role_to_user
assign_roles-others user_id existing [] d d' h = ground arith
assign_roles-others user_id existing (role ∷ roles) d d' h = ground (
  arith,
  assign_roles-others user_id existing roles d d',
  assign_roles-others user_id existing roles
      (record d { user_roles = put_pair user_id role.id d.user_roles }) d',
)

pub sync_user_roles-others :
    (u : User) (d d' : UserDb) → sync_user_roles u d ≡ ok d' → IsSameBut d' d
unfolding sync_user_roles get_user_roles
sync_user_roles-others u d d' h = ground (
  arith,
  remove_roles-others u.id u.roles (join_roles u.id d.user_roles d) d,
  assign_roles-others u.id (join_roles u.id d.user_roles d) u.roles
      (remove_roles u.id u.roles (join_roles u.id d.user_roles d) d) d',
)

-- The first row of an id, after the rows of that id have been written.
find-update_where :
    (new : UserRow) (rows : List UserRow)
    → any (λ r. r.id == new.id) rows ≡ true
    → (r : UserRow) × (find
          (λ x. x.id == new.id)
          (update_where (λ x. x.id == new.id) (written_user new) rows)
        ≡ some (written_user new r))
      × (r.id ≡ new.id)
unfolding find update_where
find-update_where new [] h = ground arith
find-update_where new (r ∷ rows) h = elim (Bool-cases (r.id == new.id)) [
  | inl e ↦ (r, rw (e, find) (rw e), ground arith)
  | inr e ↦ let (x, f, i) = find-update_where new rows (ground arith) in (x, rw e (rw e f), i)
]

update_user-ok :
    (new : UserRow) (d d' : UserDb)
    → update_user new d ≡ ok d'
    → (any (λ r. r.id == new.id) d.users ≡ true)
      × (d' ≡ record d { users = update_where (λ r. r.id == new.id) (written_user new) d.users })
unfolding update_user user_exists
update_user-ok new d d' h = ground arith

update-ok :
    (u : User) (d d' : UserDb)
    → update u d ≡ ok d'
    → (d1 : UserDb) × (update_user (row_of u) d ≡ ok d1) × (sync_user_roles u d1 ≡ ok d')
unfolding update
update-ok u d d' h = by_result (update_user (row_of u) d) refl
  where
    by_result :
        (r : Result UserDb)
        → update_user (row_of u) d ≡ r
        → (d1 : UserDb) × (update_user (row_of u) d ≡ ok d1) × (sync_user_roles u d1 ≡ ok d')
    by_result (ok d1) e = (d1, e, ground arith)
    by_result (err x) e = ground arith

-- What is in user_roles after an Update: for the user exactly the roles written, for others what was.
pub has_pair-update :
    (u : User) (d d' : UserDb) (x y : Uuid)
    → IsSound d
    → update u d ≡ ok d'
    → has_pair x y d'.user_roles
      ≡ (if x == u.id then holds_role y u.roles else has_pair x y d.user_roles)
has_pair-update u d d' x y sound h =
    let (d1, a, b) = update-ok u d d' h in
    let (e, f) = update_user-ok (row_of u) d d1 a in
    has_pair-sync_user_roles u d1 d' x y (rw f sound) b ∙ rw f

pub any-map :
    {A B : Type 0} (p : B → Bool) (f : A → B) (xs : List A)
    → any p (map f xs) ≡ any (λ x. p (f x)) xs
any-map p f [] = refl
any-map p f (x ∷ xs) = ap (λ b. p (f x) || b) (any-map p f xs)

pub holds_role-load_user_roles :
    (user_id y : Uuid) (d : UserDb)
    → holds_role y (load_user_roles user_id d)
      ≡ (has_pair user_id y d.user_roles && in_rows y d.roles)
unfolding load_user_roles get_user_roles
holds_role-load_user_roles user_id y d =
    any-map _ _ (join_roles user_id d.user_roles d) ∙ in_rows-join_roles user_id y d.user_roles d

-- A role that was given has a row.
assign_roles-in_rows :
    (user_id y : Uuid) (existing : List RoleRow) (roles : List Role) (d d' : UserDb)
    → assign_roles user_id existing roles d ≡ ok d'
    → holds_role y roles ≡ true
    → (in_rows y existing || in_rows y d.roles) ≡ true
unfolding assign_roles assign_role_to_user role_exists
assign_roles-in_rows user_id y existing [] d d' h m = ground arith
assign_roles-in_rows user_id y existing (role ∷ roles) d d' h m = ground (
  arith,
  assign_roles-in_rows user_id y existing roles d d',
  assign_roles-in_rows user_id y existing roles
      (record d { user_roles = put_pair user_id role.id d.user_roles }) d',
)

sync_user_roles-in_rows :
    (u : User) (d d' : UserDb) (y : Uuid)
    → sync_user_roles u d ≡ ok d'
    → holds_role y u.roles ≡ true
    → in_rows y d.roles ≡ true
unfolding sync_user_roles get_user_roles
sync_user_roles-in_rows u d d' y h m =
    let rows = join_roles u.id d.user_roles d in
    let d1 = remove_roles u.id u.roles rows d in
    ground (
      arith,
      in_rows-join_roles u.id y d.user_roles d,
      remove_roles-others u.id u.roles rows d,
      assign_roles-in_rows u.id y rows u.roles d1 d' h m,
    )

sync_user_roles-IsSound :
    (u : User) (d d' : UserDb) → IsSound d → sync_user_roles u d ≡ ok d' → IsSound d'
sync_user_roles-IsSound u d d' sound h x y m = ground (
  arith,
  has_pair-sync_user_roles u d d' x y sound h,
  sync_user_roles-in_rows u d d' y h,
  sync_user_roles-others u d d' h,
  sound x y,
)

pub update-IsSound : (u : User) (d d' : UserDb) → IsSound d → update u d ≡ ok d' → IsSound d'
update-IsSound u d d' sound h =
    let (d1, a, b) = update-ok u d d' h in
    let (e, f) = update_user-ok (row_of u) d d1 a in sync_user_roles-IsSound u d1 d' (rw f sound) b

pub update-roles : (u : User) (d d' : UserDb) → update u d ≡ ok d' → d'.roles ≡ d.roles
update-roles u d d' h =
    let (d1, a, b) = update-ok u d d' h in
    let (e, f) = update_user-ok (row_of u) d d1 a in
    (sync_user_roles-others u d1 d' b).1 ∙ ap (λ (x : UserDb). x.roles) f

-- Over tables in which every pair of user_roles has its role, what an Update that returns no error
-- has written FindByID reads: the user with the id, the email, the hash and the name, and with
-- exactly the roles that were written.
pub find_by_id-update :
    (u : User) (d d' : UserDb)
    → IsSound d
    → update u d ≡ ok d'
    → (found : User) × (find_by_id u.id d' ≡ ok (some found))
      × (found.id ≡ u.id)
      × (found.email ≡ u.email)
      × (found.password_hash ≡ u.password_hash)
      × (found.name ≡ u.name)
      × ((y : Uuid) → holds_role y found.roles ≡ holds_role y u.roles)
unfolding find_by_id get_user sqlc_user_to_entity
find_by_id-update u d d' sound h =
    let (d1, a, b) = update-ok u d d' h in
    let (e, f) = update_user-ok (row_of u) d d1 a in
    let (r, g, i) = find-update_where (row_of u) d.users e in
    let (users, roles, permissions, grants) = sync_user_roles-others u d1 d' b in
    let row = written_user (row_of u) r in
    (
      record (sqlc_user_to_entity row) { roles = load_user_roles r.id d' },
      rw (users, f) (rw g),
      i,
      refl,
      refl,
      refl,
      λ y. ground (
        arith,
        i,
        holds_role-load_user_roles u.id y d',
        has_pair-update u d d' u.id y sound h,
        update-IsSound u d d' sound h u.id y,
      ),
    )
