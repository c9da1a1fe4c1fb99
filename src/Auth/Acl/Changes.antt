-- ===== src/Auth/Acl/Changes.antt =====
-- What CanAccess says on the table acl_entries, and what GrantAccess and RevokeAllAccess change
-- (internal/auth/acl/checker.go, internal/infrastructure/database/repository/acl_repository.go).
use go_clean_arch_poc.Base.{
  Bool, true, false, not, ◌||◌, ◌&&◌, ◌≡◌, refl, arith, List, [], ◌∷◌, any, ◌==◌, str_eq,
  if◌then◌else◌,
}
use go_clean_arch_poc.Domain.Error.{ok}
use go_clean_arch_poc.Domain.Task.{Uuid}
use go_clean_arch_poc.Domain.Role.Resource.{ResourceType}
use go_clean_arch_poc.Domain.Acl.{
  AclPermission, AclSubjectType, matches, permission_admin, subject_user, subject_role,
}
use go_clean_arch_poc.Auth.Acl.{check_subject, check_roles, can_access}
use go_clean_arch_poc.Auth.Acl.Table.{AclTable, selects, table_repository}

admin_implies :
    (a b c d p q : Bool)
    → (a && (b && (c && (d && (q || q))))) ≡ true
    → (a && (b && (c && (d && (p || q))))) ≡ true
admin_implies a b c d p q h = ground arith

any_mono {ℓ} :
    {A : Type ℓ} (p q : A → Bool)
    → ((x : A) → p x ≡ true → q x ≡ true)
    → (xs : List A) → any p xs ≡ true
    → any q xs ≡ true
any_mono p q h [] e = e
any_mono p q h (x ∷ xs) e = ground (arith, h x, any_mono p q h xs)

module _ (resource_type : ResourceType) (resource_id : Uuid) (permission : AclPermission)
    (d : AclTable) where
  -- Some row of the table matches the subject, by the method of the entity.
  abbrev pub has_entry : AclSubjectType → Uuid → Bool
  has_entry subject_type subject_id =
      any (λ e. matches e resource_type resource_id subject_type subject_id permission) d

  admin_entry :
      (subject_type : AclSubjectType) (subject_id : Uuid)
      → any (selects resource_type resource_id subject_type subject_id permission_admin) d ≡ true
      → any (selects resource_type resource_id subject_type subject_id permission) d ≡ true
  admin_entry subject_type subject_id =
      any_mono _ _
        (λ e.
          admin_implies (str_eq e.resource_type resource_type) (e.resource_id == resource_id)
            (str_eq e.subject_type subject_type) (e.subject_id == subject_id)
            (str_eq e.permission permission) (str_eq e.permission permission_admin))
        d

  check_subject-table :
      (subject_type : AclSubjectType) (subject_id : Uuid)
      → check_subject table_repository resource_type resource_id subject_type subject_id permission
          d
        ≡ ok (has_entry subject_type subject_id)
  unfolding check_subject table_repository matches
  check_subject-table subject_type subject_id =
      cases _ _ (str_eq permission permission_admin) (admin_entry subject_type subject_id)
    where
      cases :
          (x y z : Bool)
          → (y ≡ true → x ≡ true)
          → (if x then ok true else (if not z then ok y else ok false)) ≡ ok x
      cases x y z h = ground arith

  check_roles-table :
      (role_ids : List Uuid)
      → check_roles table_repository role_ids resource_type resource_id permission d
        ≡ ok (any (has_entry subject_role) role_ids)
  unfolding check_roles
  check_roles-table [] = refl
  check_roles-table (r ∷ rs) =
      rw (check_subject-table subject_role r, check_roles-table rs)
        (cases (has_entry subject_role r) (any (has_entry subject_role) rs))
    where
      cases : (x y : Bool) → (if x then ok true else ok y) ≡ ok (x || y)
      cases x y = ground arith

  -- On the table acl_entries a user has access exactly if the user is not nil and a row matches
  -- the user or one of the roles, with the permission or with admin.
  pub can_access-matches :
      (user_id : Uuid) (role_ids : List Uuid)
      → can_access table_repository user_id role_ids resource_type resource_id permission d
        ≡ ok (
            not (user_id == 0)
            && (has_entry subject_user user_id || any (has_entry subject_role) role_ids))
  unfolding can_access
  can_access-matches user_id role_ids =
      rw (check_subject-table subject_user user_id, check_roles-table role_ids)
        (cases (user_id == 0) (has_entry subject_user user_id)
          (any (has_entry subject_role) role_ids))
    where
      cases :
          (n x y : Bool)
          → (if n then ok false else (if x then ok true else ok y)) ≡ ok (not n && (x || y))
      cases n x y = ground arith
