-- ===== src/Users/Tables/Assigned.antt =====
-- AssignRole (internal/application/usecase/user/user_usecase.go) over the tables.
use go_clean_arch_poc.Base.{
  Bool, true, ◌||◌, ◌≡◌, refl, sym, ap, ◌∙◌, arith, Option, none, some, List, [], ◌∷◌, inl, inr,
  any, any-concat, ◌==◌, str_eq, str_eq_refl, if◌then◌else◌,
}
use go_clean_arch_poc.Domain.Error.{ok}
use go_clean_arch_poc.Domain.Task.{Uuid, Time}
use go_clean_arch_poc.Domain.Role.{Role}
use go_clean_arch_poc.Domain.User as DomainUser
use go_clean_arch_poc.Domain.User.{User, holds_role, has_role}
use go_clean_arch_poc.Auth.Sessions.Attempts.{attempt-ok, attempt_some-ok}
use go_clean_arch_poc.Users.Ports.{UserOutput, UserState, UserUseCase}
use go_clean_arch_poc.Users.Operations.{assign_role, save_roles}
use go_clean_arch_poc.Users.Tables.{
  RoleRow, UserDb, UserRow, find, get_role, get_user, get_user_roles, has_pair, join_roles,
}
use go_clean_arch_poc.Users.Tables.UserRepository.{
  Postgres, find_by_id, load_user_roles, sqlc_user_to_entity, update, user_repository, with_roles,
}
use go_clean_arch_poc.Users.Tables.RoleRepository
use go_clean_arch_poc.Users.Tables.RoleRepository.{role_repository, sqlc_role_to_entity}
use go_clean_arch_poc.Users.Tables.Pairs.{IsSound, find-cases}
use go_clean_arch_poc.Users.Tables.Synced.{
  find_by_id-update, any-map, has_pair-update, update-roles,
}

-- The use case over the tables.
abbrev pub on_tables : {C : Type 0} → UserUseCase C UserDb → Postgres → UserUseCase C UserDb
on_tables uc pg = record uc { user_repo = user_repository pg; role_repo = role_repository pg }

pub holds_role-assign_role :
    (now : Time) (role : Role) (u : User) (y : Uuid)
    → holds_role y (DomainUser.assign_role now role u).roles
      ≡ (holds_role y u.roles || role.id == y)
unfolding DomainUser.assign_role
holds_role-assign_role now role u y = ground (arith, any-concat (λ r. r.id == y) u.roles role)

-- A role that a user has is among the rows that are joined.
any-join_roles :
    (p : RoleRow → Bool) (user_id role_id : Uuid) (row : RoleRow) (pairs : List (Uuid × Uuid))
    (d : UserDb)
    → has_pair user_id role_id pairs ≡ true
    → get_role role_id d ≡ some row
    → p row ≡ true
    → any p (join_roles user_id pairs d) ≡ true
unfolding join_roles get_role
any-join_roles p user_id role_id row [] d h g q = ground arith
any-join_roles p user_id role_id row ((u, r) ∷ pairs) d h g q = elim (find-cases r d.roles) [
  | inl (n, a) ↦ ground (arith, n, any-join_roles p user_id role_id row pairs d)
  | inr (x, f, i, a) ↦ ground (arith, f, any-join_roles p user_id role_id row pairs d)
]

find-test : {A : Type 0} (p : A → Bool) (xs : List A) (x : A) → find p xs ≡ some x → p x ≡ true
unfolding find
find-test p [] x h = ground arith
find-test p (y ∷ xs) x h = ground (arith, find-test p xs x)

user_of_id :
    (id : Uuid) (d : UserDb) (u : User)
    → find_by_id id d ≡ ok (some u)
    → (u.id ≡ id) × (u.roles ≡ load_user_roles id d)
unfolding find_by_id get_user sqlc_user_to_entity
user_of_id id d u h = by_row (find (λ r. r.id == id) d.users) refl
  where
    by_row :
        (o : Option UserRow)
        → find (λ r. r.id == id) d.users ≡ o
        → (u.id ≡ id) × (u.roles ≡ load_user_roles id d)
    by_row none e = ground arith
    by_row (some r) e =
        let i : r.id ≡ id = ground (arith, find-test (λ (x : UserRow). x.id == id) d.users r e) in
        let same : with_roles d (some r) ≡ some u = ap (with_roles d) (sym e) ∙ ground (arith, h) in
        (ground (arith, same, i), ground (arith, same) ∙ ap (λ x. load_user_roles x d) i)

role_of_id :
    (id : Uuid) (d : UserDb) (role : Role)
    → RoleRepository.find_by_id id d ≡ ok (some role)
    → (row : RoleRow) × (get_role id d ≡ some row)
      × (row.id ≡ id)
      × (role.id ≡ id)
      × (role.name ≡ row.name)
unfolding RoleRepository.find_by_id sqlc_role_to_entity get_role
role_of_id id d role h = elim (find-cases id d.roles) [
  | inl (n, a) ↦ ground (arith, n)
  | inr (row, f, i, a) ↦ (row, f, i, ground (arith, f), ground (arith, f))
]

held-if : (x y : Uuid) (a b : Bool) → y ≡ x → a ≡ true → (if x == y then a else b) ≡ true
held-if x y a b e h = ground arith

holds_self : (b : Bool) (x y : Uuid) → x ≡ y → (b || x == y) ≡ true
holds_self b x y e = ground arith

get_role-update :
    (u : User) (d d' : UserDb) (id : Uuid) → update u d ≡ ok d' → get_role id d' ≡ get_role id d
unfolding get_role
get_role-update u d d' id h = ap (find (λ r. r.id == id)) (update-roles u d d' h)

-- A role that a user holds, by its row's name.
has_role-load_user_roles :
    (user_id role_id : Uuid) (row : RoleRow) (found : User) (d : UserDb)
    → found.roles ≡ load_user_roles user_id d
    → has_pair user_id role_id d.user_roles ≡ true
    → get_role role_id d ≡ some row
    → has_role row.name found ≡ true
unfolding has_role load_user_roles get_user_roles
has_role-load_user_roles user_id role_id row found d e h g =
    ap (any (λ r. str_eq r.name row.name)) e
    ∙ any-map _ _ (join_roles user_id d.user_roles d)
    ∙ any-join_roles (λ r. str_eq r.name row.name) user_id role_id row d.user_roles d h g
        (str_eq_refl row.name)

module _ {C : Type 0} (uc : UserUseCase C UserDb) (pg : Postgres) where
  assign_role-update :
      (now : Time) (user_id role_id : Uuid) (s s' : UserState C UserDb) (out : UserOutput)
      → assign_role (on_tables uc pg) now user_id role_id s ≡ (s', ok out)
      → (u : User) × (role : Role) × (find_by_id user_id s.db ≡ ok (some u))
        × (RoleRepository.find_by_id role_id s.db ≡ ok (some role))
        × (update (DomainUser.assign_role now role u) s.db ≡ ok s'.db)
  unfolding assign_role save_roles user_repository role_repository
  assign_role-update now user_id role_id s s' out h =
      let (u, f, h1) = attempt_some-ok (find_by_id user_id s.db) _ s s' _ out h in
      let (role, g, h2) =
        attempt_some-ok (RoleRepository.find_by_id role_id s.db) _ s s' _ out h1 in
      let (d, w, h3) = attempt-ok (update (DomainUser.assign_role now role u) s.db) s s' _ out h2 in
      (u, role, f, g, ground arith)

  -- Over the tables, after an AssignRole that returns no error, FindByID finds the user with the
  -- roles from before and the role of that id, and with no other.
  pub assign_role-find_by_id :
      (now : Time) (user_id role_id : Uuid) (s s' : UserState C UserDb) (out : UserOutput)
      → IsSound s.db
      → assign_role (on_tables uc pg) now user_id role_id s ≡ (s', ok out)
      → (u found : User) × (role : Role) × (find_by_id user_id s.db ≡ ok (some u))
        × (RoleRepository.find_by_id role_id s.db ≡ ok (some role))
        × (find_by_id user_id s'.db ≡ ok (some found))
        × ((y : Uuid) → holds_role y found.roles ≡ (holds_role y u.roles || role_id == y))
        × (has_role role.name found ≡ true)
  unfolding DomainUser.assign_role
  assign_role-find_by_id now user_id role_id s s' out sound h =
      let (u, role, f, g, w) = assign_role-update now user_id role_id s s' out h in
      let (i, rs) = user_of_id user_id s.db u f in
      let (row, gr, ri, rid, rn) = role_of_id role_id s.db role g in
      let u' = DomainUser.assign_role now role u in
      let same : u'.id ≡ user_id = ground arith in
      let (found, ff, fi, fe, fp, fn, roles) = find_by_id-update u' s.db s'.db sound w in
      let there = rw same at ff in
      let pair = has_pair-update u' s.db s'.db user_id role_id sound w in
      (
        u,
        found,
        role,
        f,
        g,
        there,
        λ y.
            roles y
            ∙ holds_role-assign_role now role u y
            ∙ ap (λ x. holds_role y u.roles || x == y) rid,
        ap (λ n. has_role n found) rn
            ∙ has_role-load_user_roles user_id role_id row found s'.db
                (user_of_id user_id s'.db found there).1
                (pair
                  ∙ held-if user_id u'.id (holds_role role_id u'.roles) _ same (
                      holds_role-assign_role now role u role_id
                      ∙ holds_self (holds_role role_id u.roles) role.id role_id rid))
                (get_role-update u' s.db s'.db role_id w ∙ gr),
      )
