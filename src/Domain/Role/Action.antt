-- ===== src/Domain/Role/Action.antt =====
-- PermissionAction (internal/domain/entity/permission.go).
use go_clean_arch_poc.Base.{GoString, bytes}

abbrev pub PermissionAction : Type 0
PermissionAction = GoString

abbrev pub create : PermissionAction
create = bytes "create"

abbrev pub read : PermissionAction
read = bytes "read"

abbrev pub update : PermissionAction
update = bytes "update"

abbrev pub delete : PermissionAction
delete = bytes "delete"

abbrev pub assign : PermissionAction
assign = bytes "assign"
