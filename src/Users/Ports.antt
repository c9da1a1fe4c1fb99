-- ===== src/Users/Ports.antt =====
-- What UserUseCase (internal/application/usecase/user/user_usecase.go) holds and is given: its ports
-- (internal/application/port/output), its inputs and outputs (internal/application/dto/user_dto.go)
-- and its state. A write to the database that returns an error has written nothing. The transaction
-- manager runs a function on the state and keeps what it wrote if it returned no error.
use go_clean_arch_poc.Base.{ℕ, GoString, Bool, Option, List}
use go_clean_arch_poc.Base.Int.{ℤ, Time}
use go_clean_arch_poc.Base.Json.{Json}
use go_clean_arch_poc.Domain.Error.{Result}
use go_clean_arch_poc.Domain.Task.{Uuid}
use go_clean_arch_poc.Domain.Role.{Role}
use go_clean_arch_poc.Domain.User.{Bcrypt, User}
use go_clean_arch_poc.Cache.Port.{CacheRepository}
use go_clean_arch_poc.Auth.Jwt.{UuidLib}
use go_clean_arch_poc.Auth.Sessions.{CreateUserInput}
use go_clean_arch_poc.Tasks.Ports.{Pagination, PaginatedResult, Printing}

pub record UserFilter : Type 0 where
  pub search : GoString
  pub role_id : Option Uuid

pub record UserRepository (D : Type 0) : Type 0 where
  pub save : User → D → Result D
  pub update : User → D → Result D
  pub delete : Uuid → D → Result D
  pub find_by_id : Uuid → D → Result (Option User)
  pub find_by_email : GoString → D → Result (Option User)
  pub exists_by_email : GoString → D → Result Bool
  pub find_all : UserFilter → Pagination → D → Result (List User × PaginatedResult)

pub record RoleRepository (D : Type 0) : Type 0 where
  pub save : Role → D → Result D
  pub find_by_id : Uuid → D → Result (Option Role)
  pub find_by_name : GoString → D → Result (Option Role)
  pub find_all : D → Result (List Role)
  pub delete_by_names : List GoString → D → Result D
  pub remove_all_permissions : Uuid → D → Result D

pub record UpdateUserInput : Type 0 where
  pub email : Option GoString
  pub name : Option GoString

-- A role is the entity, of which RoleFromEntity copies every field.
pub record UserOutput : Type 0 where
  pub id : Uuid
  pub email : GoString
  pub name : GoString
  pub roles : List Role
  pub created_at : Time
  pub updated_at : Time

pub record UserListOutput : Type 0 where
  pub users : List UserOutput
  pub total : ℕ
  pub page : ℤ
  pub page_size : ℤ
  pub total_pages : ℤ

-- go-playground/validator on the tags of the inputs.
pub record Validator : Type 0 where
  pub create_user : CreateUserInput → Result (Unit {0})
  pub update_user : UpdateUserInput → Result (Unit {0})
  pub filter : UserFilter → Result (Unit {0})
  pub pagination : Pagination → Result (Unit {0})

-- The events handed to the publisher, whose errors are only logged. Those of roles hold the user, the
-- role, its name, and who acts.
pub data UserEvent : Type 0 where
  user_created : Uuid → GoString → GoString → UserEvent
  user_updated user_deleted : Uuid → UserEvent
  user_role_assigned user_role_removed : Uuid → Uuid → GoString → Uuid → UserEvent

pub record UserState (C D : Type 0) : Type 0 where
  pub cache : Option C
  pub db : D
  pub events : List UserEvent

pub record UserUseCase (C D : Type 0) : Type 0 where
  pub user_repo : UserRepository D
  pub role_repo : RoleRepository D
  pub cache_repo : CacheRepository C
  pub validator : Validator
  pub uuids : UuidLib
  pub bcrypt : Bcrypt
  pub user_json : Json UserOutput
  pub list_json : Json UserListOutput
  pub printing : Printing
