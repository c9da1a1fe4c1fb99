-- ===== src/Auth/Sessions/Ports.antt =====
-- What AuthUseCase (internal/application/usecase/auth/auth_usecase.go) holds and is given: its ports,
-- its inputs (internal/application/dto/user_dto.go), its state and its outputs; and how it passes
-- errors on.
use go_clean_arch_poc.Base.{◌≡◌, GoString, bytes, Bool, Option, none, some, List, [], map}
use go_clean_arch_poc.Base.Int.{Time}
use go_clean_arch_poc.Domain.Error.{Error, Result, ok, err}
use go_clean_arch_poc.Domain.Task.{Uuid}
use go_clean_arch_poc.Domain.Role.{Role, role_member}
use go_clean_arch_poc.Domain.User.{Bcrypt, User}
use go_clean_arch_poc.Cache.Keys.{CacheKeyBuilder, new_cache_key_builder}
use go_clean_arch_poc.Cache.Port.{CacheRepository}
use go_clean_arch_poc.Auth.Jwt.{UuidLib, JwtLib, TokenService, TokenPair}

-- The parts of UserRepository and RoleRepository (internal/application/port/output/
-- user_repository.go) that the use case calls, over the state `D` of the database.
pub record UserRepository (D : Type 0) : Type 0 where
  pub save : User → D → Result D
  pub update : User → D → Result D
  pub find_by_id : Uuid → D → Result (Option User)
  pub find_by_email : GoString → D → Result (Option User)
  pub exists_by_email : GoString → D → Result Bool

pub record RoleRepository (D : Type 0) : Type 0 where
  pub find_by_name : GoString → D → Result (Option Role)

-- What is stored as JSON with a session.
pub record SessionData : Type 0 where
  pub user_id : GoString
  pub access_token_id : GoString
  pub refresh_token_id : GoString
  pub created_at : Time
  pub expires_at : Time

-- encoding/json: a session as text, and the string under a key of such a text.
pub record JsonLib : Type 0 where
  pub marshal : SessionData → GoString
  pub string_field : GoString → GoString → Option GoString
  pub refresh_token_id-marshal :
      (d : SessionData)
      → string_field (bytes "refreshTokenId") (marshal d) ≡ some d.refresh_token_id

-- The events handed to the publisher, whose errors are only logged.
pub data UserEvent : Type 0 where
  user_created : Uuid → GoString → GoString → UserEvent
  user_logged_in user_logged_out user_password_changed : Uuid → UserEvent

pub record CreateUserInput : Type 0 where
  pub email : GoString
  pub password : GoString
  pub name : GoString

pub record LoginInput : Type 0 where
  pub email : GoString
  pub password : GoString

pub record ChangePasswordInput : Type 0 where
  pub old_password : GoString
  pub new_password : GoString

-- go-playground/validator on the tags of each input.
pub record Validator : Type 0 where
  pub create_user : CreateUserInput → Result (Unit {0})
  pub login : LoginInput → Result (Unit {0})
  pub change_password : ChangePasswordInput → Result (Unit {0})

pub record AuthState (C D : Type 0) : Type 0 where
  pub cache : Option C
  pub db : D
  pub events : List UserEvent

-- dto.AuthOutput, with the entity in place of what UserFromEntity copies of it, which is all but the
-- password hash.
pub record AuthOutput : Type 0 where
  pub tokens : TokenPair
  pub user : User

abbrev pub cache_prefix : GoString
cache_prefix = bytes "app"

abbrev pub default_registration_role : GoString
default_registration_role = role_member

abbrev pub keys : CacheKeyBuilder
keys = new_cache_key_builder cache_prefix

abbrev pub revoked_mark : GoString
revoked_mark = bytes "revoked"

-- `if err != nil { return nil, err }`
abbrev pub attempt {ℓ κ μ} :
    {S : Type ℓ} {A : Type κ} {B : Type μ} → Result A → S → (A → S × Result B) → S × Result B
attempt (ok a) s next = next a
attempt (err e) s next = (s, err e)

-- `if err != nil { return nil, err }; if x == nil { return nil, absent }`
abbrev pub attempt_some {ℓ κ μ} :
    {S : Type ℓ} {A : Type κ} {B : Type μ}
    → Result (Option A)
    → Error
    → S
    → (A → S × Result B)
    → S × Result B
attempt_some (ok (some a)) absent s next = next a
attempt_some (ok none) absent s next = (s, err absent)
attempt_some (err e) absent s next = (s, err e)

-- `x, _ := f()`: the zero value with an error.
abbrev pub or_empty : Result GoString → GoString
or_empty (ok t) = t
or_empty (err _) = []

abbrev pub role_ids : User → List Uuid
role_ids u = map (λ r. r.id) u.roles

-- The fields of AuthUseCase, and the libraries that it calls.
pub record AuthUseCase (C D : Type 0) : Type 0 where
  pub user_repo : UserRepository D
  pub role_repo : RoleRepository D
  pub cache_repo : CacheRepository C
  pub token_service : TokenService
  pub validator : Validator
  pub uuids : UuidLib
  pub jwt : JwtLib
  pub json : JsonLib
  pub bcrypt : Bcrypt
