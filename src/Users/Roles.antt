-- ===== src/Users/Roles.antt =====
-- RoleUseCase (internal/application/usecase/rbac/role_usecase.go). A role is the entity, of which
-- RoleFromEntity copies every field. The inputs of the methods that refuse are not read.
use go_clean_arch_poc.Base.{none, some, List}
use go_clean_arch_poc.Base.{String}
use go_clean_arch_poc.Domain.Error.{Error, ErrorCode, Result, ok, err, ◌>>=◌, err_role_not_found}
use go_clean_arch_poc.Domain.Task.{Uuid}
use go_clean_arch_poc.Domain.Role.{Role}
use go_clean_arch_poc.Users.Ports.{RoleRepository}

abbrev refuse {ℓ} : {A : Type ℓ} → String → Result A
refuse message = err (Error.domain ErrorCode.invalid_operation message)

abbrev pub create_role : Result Role
create_role = refuse "role creation not supported via graphql"

abbrev pub update_role : Result Role
update_role = refuse "role update not supported via graphql"

abbrev pub delete_role : Result (Unit {0})
delete_role = refuse "role deletion not supported via graphql"

abbrev pub add_role_permission : Result Role
add_role_permission = refuse "permission management not supported via graphql"

abbrev pub remove_role_permission : Result Role
remove_role_permission = refuse "permission management not supported via graphql"

module _ {D : Type 0} (repo : RoleRepository D) where
  unfoldable pub get_role : Uuid → D → Result Role
  get_role id d = repo.find_by_id id d >>= λ found. elim found [
    | none ↦ err err_role_not_found
    | some role ↦ ok role
  ]

  unfoldable pub list_roles : D → Result (List Role)
  list_roles d = repo.find_all d
