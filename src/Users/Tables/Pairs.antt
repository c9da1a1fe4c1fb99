-- ===== src/Users/Tables/Pairs.antt =====
-- What syncUserRoles (internal/infrastructure/database/repository/user_repository.go) leaves in
-- user_roles.
use go_clean_arch_poc.Base.{
  Bool, true, false, not, ◌&&◌, ◌||◌, ◌≡◌, refl, arith, none, some, List, [], ◌∷◌, ◌++◌, ◌⊎◌, inl,
  inr, any, ◌==◌, Bool-cases, if◌then◌else◌,
}
use go_clean_arch_poc.Domain.Error.{ok}
use go_clean_arch_poc.Domain.Task.{Uuid}
use go_clean_arch_poc.Domain.Role.{Role}
use go_clean_arch_poc.Domain.User.{User, holds_role}
use go_clean_arch_poc.Users.Tables.{
  RoleRow, UserDb, assign_role_to_user, drop_pair, find, get_role, get_user_roles, has_pair,
  join_roles, put_pair, remove_role_from_user,
}
use go_clean_arch_poc.Users.Tables.UserRepository.{assign_roles, remove_roles, sync_user_roles}

pub has_pair-drop_pair :
    (a b x y : Uuid) (pairs : List (Uuid × Uuid))
    → has_pair x y (drop_pair a b pairs) ≡ (has_pair x y pairs && not (x == a && y == b))
unfolding drop_pair
has_pair-drop_pair a b x y [] = refl
has_pair-drop_pair a b x y ((c, e) ∷ pairs) = ground (arith, has_pair-drop_pair a b x y pairs)

has_pair-concat :
    (a b x y : Uuid) (pairs : List (Uuid × Uuid))
    → has_pair x y (pairs ++ (a, b) ∷ []) ≡ (has_pair x y pairs || (a == x && b == y))
has_pair-concat a b x y [] = ground arith
has_pair-concat a b x y ((c, e) ∷ pairs) = ground (arith, has_pair-concat a b x y pairs)

has_pair_eq :
    (a b x y : Uuid) (pairs : List (Uuid × Uuid))
    → (a == x && b == y) ≡ true
    → has_pair x y pairs ≡ has_pair a b pairs
has_pair_eq a b x y pairs h = ground arith

pub has_pair-put_pair :
    (a b x y : Uuid) (pairs : List (Uuid × Uuid))
    → has_pair x y (put_pair a b pairs) ≡ (has_pair x y pairs || (a == x && b == y))
has_pair-put_pair a b x y pairs =
    ground (arith, has_pair-concat a b x y pairs, has_pair_eq a b x y pairs)

abbrev pub in_rows : Uuid → List RoleRow → Bool
in_rows id = any (λ r. r.id == id)

-- The first loop drops what stands in the rows and is not desired.
has_pair-remove_roles :
    (user_id x y : Uuid) (desired : List Role) (rows : List RoleRow) (d : UserDb)
    → has_pair x y (remove_roles user_id desired rows d).user_roles ≡ (
        has_pair x y d.user_roles
        && not (x == user_id && (in_rows y rows && not (holds_role y desired))))
unfolding remove_roles remove_role_from_user
has_pair-remove_roles user_id x y desired [] d = ground arith
has_pair-remove_roles user_id x y desired (r ∷ rows) d = ground (
  arith,
  has_pair-remove_roles user_id x y desired rows d,
  has_pair-remove_roles user_id x y desired rows (remove_role_from_user user_id r.id d),
  has_pair-drop_pair user_id r.id x y d.user_roles,
)

-- The second adds what is wanted and does not stand in the rows.
has_pair-assign_roles :
    (user_id x y : Uuid) (existing : List RoleRow) (roles : List Role) (d d' : UserDb)
    → assign_roles user_id existing roles d ≡ ok d'
    → has_pair x y d'.user_roles ≡ (
        has_pair x y d.user_roles
        || (user_id == x && (holds_role y roles && not (in_rows y existing))))
unfolding assign_roles assign_role_to_user
has_pair-assign_roles user_id x y existing [] d d' h = ground arith
has_pair-assign_roles user_id x y existing (role ∷ roles) d d' h = ground (
  arith,
  has_pair-assign_roles user_id x y existing roles d d',
  has_pair-assign_roles user_id x y existing roles
      (record d { user_roles = put_pair user_id role.id d.user_roles }) d',
  has_pair-put_pair user_id role.id x y d.user_roles,
)

-- The rows of a user are those of its pairs that have a role.
pub find-cases :
    (y : Uuid) (rows : List RoleRow)
    → ((find (λ r. r.id == y) rows ≡ none) × (in_rows y rows ≡ false))
      ⊎ ((row : RoleRow) × (find (λ r. r.id == y) rows ≡ some row)
          × (row.id ≡ y)
          × (in_rows y rows ≡ true))
unfolding find
find-cases y [] = inl (refl, refl)
find-cases y (r ∷ rows) = elim (Bool-cases (r.id == y)) [
  | inl e ↦ inr (r, rw e, ground arith, rw e)
  | inr e ↦ elim (find-cases y rows) [
    | inl (n, a) ↦ inl (rw e n, rw e a)
    | inr (row, f, i, a) ↦ inr (row, rw e f, i, rw e a)
  ]
]

pub in_rows-join_roles :
    (user_id y : Uuid) (pairs : List (Uuid × Uuid)) (d : UserDb)
    → in_rows y (join_roles user_id pairs d) ≡ (has_pair user_id y pairs && in_rows y d.roles)
unfolding join_roles get_role
in_rows-join_roles user_id y [] d = refl
in_rows-join_roles user_id y ((u, r) ∷ pairs) d = elim (find-cases r d.roles) [
  | inl (n, a) ↦ ground (arith, n, a, in_rows-join_roles user_id y pairs d)
  | inr (row, f, i, a) ↦ ground (arith, f, i, a, in_rows-join_roles user_id y pairs d)
]

-- Every row of user_roles is about a role that there is: the foreign key.
abbrev pub IsSound : UserDb → Type 0
IsSound d = (u r : Uuid) → has_pair u r d.user_roles ≡ true → in_rows r d.roles ≡ true

pub has_pair-sync_user_roles :
    (u : User) (d d' : UserDb) (x y : Uuid)
    → IsSound d
    → sync_user_roles u d ≡ ok d'
    → has_pair x y d'.user_roles
      ≡ (if x == u.id then holds_role y u.roles else has_pair x y d.user_roles)
unfolding sync_user_roles get_user_roles
has_pair-sync_user_roles u d d' x y sound h =
    let rows = get_user_roles u.id d in
    ground (
      arith,
      sound u.id y,
      in_rows-join_roles u.id y d.user_roles d,
      has_pair-remove_roles u.id x y u.roles (join_roles u.id d.user_roles d) d,
      has_pair-assign_roles u.id x y (join_roles u.id d.user_roles d) u.roles
          (remove_roles u.id u.roles (join_roles u.id d.user_roles d) d) d',
    )
