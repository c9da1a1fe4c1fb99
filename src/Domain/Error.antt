-- ===== src/Domain/Error.antt =====
-- The errors of the program (internal/domain/entity/errors.go, internal/domain/valueobject/errors.go,
-- internal/domain/error/domain_error.go), and functions that may fail.
use go_clean_arch_poc.Base.{ℕ, String, Bool, true, false, Option, none, some}

-- The codes of a DomainError.
pub data ErrorCode : Type 0 where
  not_found validation conflict unauthorized forbidden : ErrorCode
  internal_error invalid_operation invalid_state : ErrorCode

-- The sentinel values of package entity.
pub data EntityError : Type 0 where
  empty_title invalid_priority invalid_status task_archived : EntityError
  task_not_done invalid_status_transition : EntityError
  empty_email empty_password empty_name invalid_email : EntityError
  empty_role_name empty_permission_name empty_resource empty_action : EntityError
  empty_label_name empty_label_color empty_resource_type empty_subject_type : EntityError

-- The sentinel values of package valueobject.
pub data ValueError : Type 0 where
  invalid_task_status invalid_priority empty_email invalid_email : ValueError

-- A Go `error`: a sentinel, a DomainError with or without a cause, an error that `%w` wraps, or
-- one that comes from outside the program.
pub data Error : Type 0 where
  entity : EntityError → Error
  value : ValueError → Error
  domain : ErrorCode → String → Error
  wrap : ErrorCode → String → Error → Error
  errorf : String → Error → Error
  external : ℕ → Error

abbrev pub err_task_not_found : Error
err_task_not_found = Error.domain ErrorCode.not_found "task not found"

abbrev pub err_user_not_found : Error
err_user_not_found = Error.domain ErrorCode.not_found "user not found"

abbrev pub err_role_not_found : Error
err_role_not_found = Error.domain ErrorCode.not_found "role not found"

abbrev pub err_label_not_found : Error
err_label_not_found = Error.domain ErrorCode.not_found "label not found"

abbrev pub err_attachment_not_found : Error
err_attachment_not_found = Error.domain ErrorCode.not_found "attachment not found"

abbrev pub err_invalid_credentials : Error
err_invalid_credentials = Error.domain ErrorCode.unauthorized "invalid email or password"

abbrev pub err_invalid_token : Error
err_invalid_token = Error.domain ErrorCode.unauthorized "invalid or expired token"

abbrev pub err_email_already_exists : Error
err_email_already_exists = Error.domain ErrorCode.conflict "email already exists"

-- `errors.As` with a DomainError: the code of the first one in the chain of causes.
unfoldable pub code_of : Error → Option ErrorCode
code_of (Error.entity _) = none
code_of (Error.value _) = none
code_of (Error.domain c _) = some c
code_of (Error.wrap c _ _) = some c
code_of (Error.errorf _ e) = code_of e
code_of (Error.external _) = none

abbrev is_not_found : ErrorCode → Bool
is_not_found ErrorCode.not_found = true
is_not_found _ = false

unfoldable pub is_not_found_error : Error → Bool
unfolding code_of
is_not_found_error e = elim (code_of e) [ none ↦ false | some c ↦ is_not_found c ]

abbrev is_validation : ErrorCode → Bool
is_validation ErrorCode.validation = true
is_validation _ = false

unfoldable pub is_validation_error : Error → Bool
unfolding code_of
is_validation_error e = elim (code_of e) [ none ↦ false | some c ↦ is_validation c ]

abbrev is_conflict : ErrorCode → Bool
is_conflict ErrorCode.conflict = true
is_conflict _ = false

unfoldable pub is_conflict_error : Error → Bool
unfolding code_of
is_conflict_error e = elim (code_of e) [ none ↦ false | some c ↦ is_conflict c ]

abbrev is_unauthorized : ErrorCode → Bool
is_unauthorized ErrorCode.unauthorized = true
is_unauthorized _ = false

unfoldable pub is_unauthorized_error : Error → Bool
unfolding code_of
is_unauthorized_error e = elim (code_of e) [ none ↦ false | some c ↦ is_unauthorized c ]

abbrev is_forbidden : ErrorCode → Bool
is_forbidden ErrorCode.forbidden = true
is_forbidden _ = false

unfoldable pub is_forbidden_error : Error → Bool
unfolding code_of
is_forbidden_error e = elim (code_of e) [ none ↦ false | some c ↦ is_forbidden c ]

abbrev pub err_unauthorized : Error
err_unauthorized = Error.domain ErrorCode.unauthorized "authentication required"

abbrev pub err_forbidden : Error
err_forbidden = Error.domain ErrorCode.forbidden "access denied"

-- The result of a function that returns a value and an `error`.
pub data Result {ℓ} (A : Type ℓ) : Type ℓ where
  ok : A → Result A
  err : Error → Result A

infixl 5 ◌>>=◌
abbrev pub ◌>>=◌ {ℓ κ} : {A : Type ℓ} {B : Type κ} → Result A → (A → Result B) → Result B
ok a >>= f = f a
err e >>= f = err e

abbrev pub is_ok {ℓ} : {A : Type ℓ} → Result A → Bool
is_ok (ok _) = true
is_ok (err _) = false
