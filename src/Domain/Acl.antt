-- ===== src/Domain/Acl.antt =====
-- Entries of an access control list (internal/domain/entity/acl_entry.go).
use go_clean_arch_poc.Base.{
  GoString, bytes, Bool, true, ◌||◌, ◌&&◌, [], ◌==◌, str_eq, if◌then◌else◌,
}
use go_clean_arch_poc.Domain.Error.{Error, EntityError, Result, ok, err}
use go_clean_arch_poc.Domain.Task.{Uuid, Time}
use go_clean_arch_poc.Domain.Role.Resource.{ResourceType}

abbrev pub AclPermission : Type 0
AclPermission = GoString

abbrev pub AclSubjectType : Type 0
AclSubjectType = GoString

abbrev pub permission_read : AclPermission
permission_read = bytes "read"

abbrev pub permission_write : AclPermission
permission_write = bytes "write"

abbrev pub permission_delete : AclPermission
permission_delete = bytes "delete"

abbrev pub permission_admin : AclPermission
permission_admin = bytes "admin"

abbrev pub subject_user : AclSubjectType
subject_user = bytes "user"

abbrev pub subject_role : AclSubjectType
subject_role = bytes "role"

pub record AclEntry : Type 0 where
  pub id : Uuid
  pub resource_type : ResourceType
  pub resource_id : Uuid
  pub subject_type : AclSubjectType
  pub subject_id : Uuid
  pub permission : AclPermission
  pub created_at : Time

unfoldable pub new_acl_entry :
    Time → Uuid → ResourceType → Uuid → AclSubjectType → Uuid → AclPermission → Result AclEntry
new_acl_entry now id resource_type resource_id subject_type subject_id permission =
    if str_eq resource_type []
    then err (Error.entity EntityError.empty_resource_type)
    else if str_eq subject_type []
    then err (Error.entity EntityError.empty_subject_type)
    else if str_eq permission []
    then err (Error.entity EntityError.empty_action)
    else ok (record {
      id = id;
      resource_type = resource_type;
      resource_id = resource_id;
      subject_type = subject_type;
      subject_id = subject_id;
      permission = permission;
      created_at = now;
    })

unfoldable pub matches :
    AclEntry → ResourceType → Uuid → AclSubjectType → Uuid → AclPermission → Bool
matches a resource_type resource_id subject_type subject_id permission =
    str_eq a.resource_type resource_type
    && (a.resource_id == resource_id
        && (str_eq a.subject_type subject_type
            && (a.subject_id == subject_id
                && (str_eq a.permission permission || str_eq a.permission permission_admin))))

unfoldable pub grants_permission : AclEntry → AclPermission → Bool
grants_permission a permission =
    if str_eq a.permission permission_admin then true else str_eq a.permission permission
