-- ===== src/Auth/Acl/Table.antt =====
-- The ACL repository (internal/infrastructure/database/repository/acl_repository.go) as its queries
-- read the table acl_entries (internal/infrastructure/database/sqlc/acl.sql.go). The database is up:
-- no query fails but an insertion under an id that is taken.
use go_clean_arch_poc.Base.{
  Bool, not, ◌||◌, ◌&&◌, List, [], ◌∷◌, ◌++◌, any, ◌==◌, str_eq, if◌then◌else◌,
}
use go_clean_arch_poc.Domain.Error.{Error, Result, ok, err}
use go_clean_arch_poc.Domain.Task.{Uuid}
use go_clean_arch_poc.Domain.Role.Resource.{ResourceType}
use go_clean_arch_poc.Domain.Acl.{AclPermission, AclSubjectType, AclEntry, permission_admin}
use go_clean_arch_poc.Auth.Acl.{AclRepository}

abbrev pub AclTable : Type 0
AclTable = List AclEntry

-- The rows of a SELECT, or those that a DELETE leaves.
unfoldable pub where_rows : (AclEntry → Bool) → AclTable → AclTable
where_rows p [] = []
where_rows p (e ∷ d) = let rest = where_rows p d in if p e then e ∷ rest else rest

-- PRIMARY KEY (id), and UNIQUE over the other columns but the time
-- (migrations/000001_init.up.sql). PostgreSQL's SQLSTATE for a violation is 23505.
abbrev pub conflicts : AclEntry → AclEntry → Bool
conflicts e row =
    row.id == e.id
    || (str_eq row.resource_type e.resource_type
        && (row.resource_id == e.resource_id
            && (str_eq row.subject_type e.subject_type
                && (row.subject_id == e.subject_id && str_eq row.permission e.permission))))

abbrev pub unique_violation : Error
unique_violation = Error.external 23505

unfoldable pub insert_row : AclEntry → AclTable → Result AclTable
insert_row e d = if any (conflicts e) d then err unique_violation else ok (d ++ e ∷ [])

-- The WHERE clause of the query HasPermission.
abbrev pub selects : ResourceType → Uuid → AclSubjectType → Uuid → AclPermission → AclEntry → Bool
selects resource_type resource_id subject_type subject_id permission e =
    str_eq e.resource_type resource_type
    && (e.resource_id == resource_id
        && (str_eq e.subject_type subject_type
            && (e.subject_id == subject_id
                && (str_eq e.permission permission || str_eq e.permission permission_admin))))

abbrev pub on_resource : ResourceType → Uuid → AclEntry → Bool
on_resource resource_type resource_id e =
    str_eq e.resource_type resource_type && e.resource_id == resource_id

unfoldable pub table_repository : AclRepository AclTable
unfolding where_rows insert_row
table_repository = record {
  save = insert_row;
  delete = λ id d. ok (where_rows (λ e. not (e.id == id)) d);
  find_by_resource =
      λ resource_type resource_id d. ok (where_rows (on_resource resource_type resource_id) d);
  find_by_subject = λ subject_type subject_id d.
      ok (where_rows (λ e. str_eq e.subject_type subject_type && e.subject_id == subject_id) d);
  has_permission = λ resource_type resource_id subject_type subject_id permission d.
      ok (any (selects resource_type resource_id subject_type subject_id permission) d);
  delete_by_resource = λ resource_type resource_id d.
      ok (where_rows (λ e. not (on_resource resource_type resource_id e)) d);
}
