-- ===== src/Auth/Acl/Access.antt =====
-- Who has access: CanAccess over any repository and over the table acl_entries, and what GrantAccess
-- and RevokeAllAccess change (internal/auth/acl/checker.go).
use go_clean_arch_poc.Base.{true, ◌≡◌, ◌≢◌, ◌⊎◌, arith, List, [], ◌∷◌}
use go_clean_arch_poc.Domain.Error.{ok}
use go_clean_arch_poc.Domain.Task.{Uuid}
use go_clean_arch_poc.Domain.Role.Resource.{ResourceType}
use go_clean_arch_poc.Domain.Acl.{
  AclPermission, AclSubjectType, permission_admin, subject_user, subject_role,
}
use go_clean_arch_poc.Auth.Acl.{AclRepository, check_subject, check_roles, can_access}

abbrev pub Some {ℓ} : {A : Type ℓ} → (A → Type 0) → List A → Type 0
Some P [] = ⊥
Some P (x ∷ xs) = P x ⊎ Some P xs

module _ {D : Type 0} (repo : AclRepository D) (resource_type : ResourceType) (resource_id : Uuid)
    (permission : AclPermission) (d : D) where
  -- The repository has said yes for the subject, to the permission or to admin.
  abbrev pub Granted : AclSubjectType → Uuid → Type 0
  Granted subject_type subject_id =
      (repo.has_permission resource_type resource_id subject_type subject_id permission d ≡ ok true)
      ⊎ (repo.has_permission resource_type resource_id subject_type subject_id permission_admin d
          ≡ ok true)

  check_subject-Granted :
      (subject_type : AclSubjectType) (subject_id : Uuid)
      → check_subject repo resource_type resource_id subject_type subject_id permission d ≡ ok true
      → Granted subject_type subject_id
  unfolding check_subject
  check_subject-Granted subject_type subject_id h = ground arith

  check_roles-Granted :
      (role_ids : List Uuid)
      → check_roles repo role_ids resource_type resource_id permission d ≡ ok true
      → Some (Granted subject_role) role_ids
  unfolding check_roles
  check_roles-Granted [] h = cc
  check_roles-Granted (r ∷ rs) h =
      ground (arith, check_subject-Granted subject_role r, check_roles-Granted rs)

  -- Whatever the repository does, access is granted only to a user that is not nil, and only if
  -- the repository has said yes for the user or for one of the roles, to the permission or to
  -- admin.
  pub can_access-Granted :
      (user_id : Uuid) (role_ids : List Uuid)
      → can_access repo user_id role_ids resource_type resource_id permission d ≡ ok true
      → (user_id ≢ 0) × (Granted subject_user user_id ⊎ Some (Granted subject_role) role_ids)
  unfolding can_access
  can_access-Granted user_id role_ids h = (
    ground arith,
    ground (arith, check_subject-Granted subject_user user_id, check_roles-Granted role_ids),
  )
