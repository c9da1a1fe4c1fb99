-- ===== src/Auth/Acl/Revoking.antt =====
-- What GrantAccess and RevokeAllAccess change on the table acl_entries (internal/auth/acl/checker.go,
-- internal/infrastructure/database/repository/acl_repository.go).
use go_clean_arch_poc.Base.{
  Bool, true, false, not, ◌||◌, ◌&&◌, ◌≡◌, ◌≢◌, refl, arith, ◌⊎◌, inl, inr, ◌∙◌, List, [], ◌∷◌,
  ◌++◌, ap, sym, any, any-concat, any_congr, ◌==◌, str_eq,
}
use go_clean_arch_poc.Domain.Error.{ok}
use go_clean_arch_poc.Domain.Task.{Uuid, Time}
use go_clean_arch_poc.Domain.Role.Resource.{ResourceType}
use go_clean_arch_poc.Domain.Acl.{
  AclPermission, AclSubjectType, AclEntry, matches, permission_admin, subject_user, subject_role,
  new_acl_entry,
}
use go_clean_arch_poc.Auth.Acl.{can_access, grant_access, revoke_all_access}
use go_clean_arch_poc.Auth.Acl.Table.{
  AclTable, on_resource, table_repository, where_rows, insert_row,
}
use go_clean_arch_poc.Auth.Acl.Changes.{has_entry, can_access-matches}

-- After a grant that succeeds a subject has a matching row exactly if it had one before, or if it
-- is the subject of the grant and asks on its resource for the permission granted, or for any if
-- that is admin.
pub grant_access-has_entry :
    (now : Time) (id : Uuid) (resource_type : ResourceType) (resource_id : Uuid)
    (subject_type : AclSubjectType) (subject_id : Uuid) (permission : AclPermission) (d : AclTable)
    {d' : AclTable}
    → grant_access table_repository now id resource_type resource_id subject_type subject_id
        permission d
      ≡ ok d'
    → (r : ResourceType) (i : Uuid) (s : AclSubjectType) (j : Uuid) (p : AclPermission)
    → has_entry r i p d' s j ≡ (
        has_entry r i p d s j
        || (str_eq resource_type r
            && (resource_id == i
                && (str_eq subject_type s
                    && (subject_id == j
                        && (str_eq permission p || str_eq permission permission_admin))))))
unfolding grant_access table_repository insert_row new_acl_entry
grant_access-has_entry now id resource_type resource_id subject_type subject_id permission d {d'} h
      r i s j p =
    let entry : AclEntry = record {
      id = id;
      resource_type = resource_type;
      resource_id = resource_id;
      subject_type = subject_type;
      subject_id = subject_id;
      permission = permission;
      created_at = now;
    } in
    let added : d' ≡ d ++ entry ∷ [] = ground arith in
    rw added (unfold matches in any-concat (λ e. matches e r i s j p) d entry)

any-where_rows :
    (p q : AclEntry → Bool) (d : AclTable) → any p (where_rows q d) ≡ any (λ e. q e && p e) d
unfolding where_rows
any-where_rows p q [] = refl
any-where_rows p q (e ∷ d) = ground (arith, any-where_rows p q d)

any_none {ℓ} :
    {A : Type ℓ} (p : A → Bool) → ((x : A) → p x ≡ false) → (xs : List A) → any p xs ≡ false
any_none p h [] = refl
any_none p h (x ∷ xs) = rw (h x, any_none p h xs)

revoked_cases : (a b c : Bool) → (not (a && b) && (a && (b && c))) ≡ false
revoked_cases a b c = ground arith

kept_cases :
    (a b x y c : Bool)
    → (a ≡ true → b ≡ true → x ≡ true → y ≡ true → ⊥)
    → (not (a && b) && (x && (y && c))) ≡ (x && (y && c))
kept_cases a b x y c h = ground arith

str_eq-eq : (s r : ResourceType) → str_eq s r ≡ true → s ≡ r
str_eq-eq s r h = ground arith

distinct_rows :
    (a r s : ResourceType) (b i j : Uuid)
    → ((s ≢ r) ⊎ (j ≢ i))
    → str_eq a r ≡ true
    → b == i ≡ true
    → str_eq a s ≡ true
    → b == j ≡ true
    → ⊥
distinct_rows a r s b i j (inl n) p q p' q' = n (sym (str_eq-eq a s p') ∙ str_eq-eq a r p)
distinct_rows a r s b i j (inr n) p q p' q' = n (ground arith)

and_false : (x : Bool) → (x && false) ≡ false
and_false x = ground arith

module _ (resource_type : ResourceType) (resource_id : Uuid) (d : AclTable) {d' : AclTable}
    (revoked : revoke_all_access table_repository resource_type resource_id d ≡ ok d') where
  rows_left : d' ≡ where_rows (λ e. not (on_resource resource_type resource_id e)) d
  unfolding revoke_all_access table_repository
  rows_left = ground arith

  has_entry-none :
      (s : AclSubjectType) (p : AclPermission) (j : Uuid)
      → has_entry resource_type resource_id p d' s j ≡ false
  unfolding matches
  has_entry-none s p j = rw rows_left (
      any-where_rows _ _ d
      ∙ any_none _
          (λ e.
            revoked_cases (str_eq e.resource_type resource_type) (e.resource_id == resource_id) _)
          d)

  -- After RevokeAllAccess nobody has access to the resource any more, by any role.
  pub revoke_all_access-none :
      (user_id : Uuid) (role_ids : List Uuid) (permission : AclPermission)
      → can_access table_repository user_id role_ids resource_type resource_id permission d'
        ≡ ok false
  revoke_all_access-none user_id role_ids permission =
      can_access-matches resource_type resource_id permission d' user_id role_ids
      ∙ rw (has_entry-none subject_user permission user_id) (
          rw (any_none _ (has_entry-none subject_role permission) role_ids)
            (ap ok (and_false (not (user_id == 0)))))

  -- RevokeAllAccess leaves the rows of every other resource.
  pub revoke_all_access-other :
      (r : ResourceType) (i : Uuid) (s : AclSubjectType) (j : Uuid) (p : AclPermission)
      → ((r ≢ resource_type) ⊎ (i ≢ resource_id))
      → has_entry r i p d' s j ≡ has_entry r i p d s j
  unfolding matches
  revoke_all_access-other r i s j p h = rw rows_left (
      any-where_rows _ _ d
      ∙ any_congr _ _
          (λ e.
            kept_cases (str_eq e.resource_type resource_type) (e.resource_id == resource_id)
              (str_eq e.resource_type r) (e.resource_id == i) _
              (distinct_rows e.resource_type resource_type r e.resource_id resource_id i h))
          d)
