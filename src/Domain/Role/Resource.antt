-- ===== src/Domain/Role/Resource.antt =====
-- ResourceType (internal/domain/entity/resource_type.go).
use go_clean_arch_poc.Base.{GoString, bytes}

abbrev pub ResourceType : Type 0
ResourceType = GoString

abbrev pub tasks : ResourceType
tasks = bytes "tasks"

abbrev pub users : ResourceType
users = bytes "users"

abbrev pub roles : ResourceType
roles = bytes "roles"

abbrev pub permissions : ResourceType
permissions = bytes "permissions"

abbrev pub labels : ResourceType
labels = bytes "labels"

abbrev pub task : ResourceType
task = bytes "task"

abbrev pub user : ResourceType
user = bytes "user"

abbrev pub role : ResourceType
role = bytes "role"

abbrev pub label : ResourceType
label = bytes "label"
