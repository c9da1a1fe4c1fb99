-- ===== src/Rest/Response.antt =====
-- What a handler reads and answers: internal/transport/rest/presenter/response.go, with handleError and
-- parsePagination of internal/transport/rest/handler/common.go. The texts of errors are left out: a
-- message is a literal or that of an error. net/http, encoding/json and strconv are parameters.
use go_clean_arch_poc.Base.{
  ℕ, GoString, String, Bool, true, false, Option, List, if◌then◌else◌, ◌==◌,
}
use go_clean_arch_poc.Base.Int.{ℤ}
use go_clean_arch_poc.Domain.Error.{
  Error, EntityError, ValueError, is_not_found_error, is_validation_error, is_conflict_error,
  is_unauthorized_error, is_forbidden_error,
}
use go_clean_arch_poc.Domain.Task.{Uuid}
use go_clean_arch_poc.Domain.Label.{Label}
use go_clean_arch_poc.Auth.Sessions.{AuthOutput, ChangePasswordInput, CreateUserInput, LoginInput}
use go_clean_arch_poc.Labels.{CreateLabelInput, UpdateLabelInput}
use go_clean_arch_poc.Tasks.Ports.{
  CreateTaskInput, TaskAttachmentOutput, TaskListOutput, TaskOutput, UpdateTaskInput,
}
use go_clean_arch_poc.Users.Ports.{UpdateUserInput, UserListOutput, UserOutput}

-- The `data` of a response, or the bytes of a file.
pub data Payload : Type 0 where
  task : TaskOutput → Payload
  tasks : TaskListOutput → Payload
  attachment : TaskAttachmentOutput → Payload
  attachments : List TaskAttachmentOutput → Payload
  file : TaskAttachmentOutput → GoString → Payload
  user : UserOutput → Payload
  users : UserListOutput → Payload
  auth : AuthOutput → Payload
  label : Label → Payload
  labels : List Label → Payload

pub data Message : Type 0 where
  text : String → Message
  of_error : Error → Message

-- A status with a body of JSON, an error with the code of its status, the details of a validation, or a
-- status alone.
pub data Response : Type 0 where
  json : ℕ → Payload → Response
  failed : ℕ → String → Message → Response
  invalid : Error → Response
  empty : ℕ → Response

abbrev pub status : Response → ℕ
status (Response.json n _) = n
status (Response.failed n _ _) = n
status (Response.invalid _) = 400
status (Response.empty n) = n

-- A form of mime/multipart, as UploadAttachment tells them apart.
pub data Form : Type 0 where
  too_large malformed no_file : Form
  file : GoString → GoString → GoString → Form

-- The headers and the parts of the URL that are read, a missing one empty, and the body.
pub record Request : Type 0 where
  pub method : GoString
  pub authorization : GoString
  pub path_value : GoString → GoString
  pub query : GoString → GoString
  pub body : GoString

-- encoding/json, mime/multipart, strconv and strings.ToLower; and the type assertion to
-- `*validation.ValidationError`, an error that the validator made.
pub record HttpLib : Type 0 where
  pub create_task : GoString → Option CreateTaskInput
  pub update_task : GoString → Option UpdateTaskInput
  pub assignee_id : GoString → Option Uuid
  pub status : GoString → Option GoString
  pub update_user : GoString → Option UpdateUserInput
  pub login : GoString → Option LoginInput
  pub create_user : GoString → Option CreateUserInput
  pub refresh_token : GoString → Option GoString
  pub change_password : GoString → Option ChangePasswordInput
  pub create_label : GoString → Option CreateLabelInput
  pub update_label : GoString → Option UpdateLabelInput
  pub parse_multipart_form : GoString → Form
  pub atoi : GoString → Option ℤ
  pub parse_bool : GoString → Option Bool
  pub to_lower : GoString → GoString
  pub is_of_validator : Error → Bool

unfoldable pub status_to_code : ℕ → String
status_to_code n =
    if n == 400
    then "BAD_REQUEST"
    else if n == 401
    then "UNAUTHORIZED"
    else if n == 403
    then "FORBIDDEN"
    else if n == 404
    then "NOT_FOUND"
    else if n == 409
    then "CONFLICT"
    else if n == 422
    then "UNPROCESSABLE_ENTITY"
    else if n == 429
    then "TOO_MANY_REQUESTS"
    else if n == 500
    then "INTERNAL_ERROR"
    else if n == 503
    then "SERVICE_UNAVAILABLE"
    else "ERROR"

-- presenter.Error
unfoldable pub error_response : ℕ → Message → Response
unfolding status_to_code
error_response n message = Response.failed n (status_to_code n) message

-- errors.Is with one of the five errors of a status.
unfoldable pub is_status_error : Error → Bool
is_status_error (Error.entity EntityError.invalid_status) = true
is_status_error (Error.entity EntityError.invalid_status_transition) = true
is_status_error (Error.entity EntityError.task_archived) = true
is_status_error (Error.entity EntityError.task_not_done) = true
is_status_error (Error.value ValueError.invalid_task_status) = true
is_status_error (Error.wrap _ _ e) = is_status_error e
is_status_error (Error.errorf _ e) = is_status_error e
is_status_error _ = false

unfoldable pub handle_error : HttpLib → Error → Response
unfolding error_response is_status_error is_not_found_error is_validation_error is_conflict_error
    is_unauthorized_error is_forbidden_error
handle_error lib e =
    if lib.is_of_validator e
    then Response.invalid e
    else if is_not_found_error e
    then error_response 404 (Message.of_error e)
    else if is_validation_error e
    then error_response 400 (Message.of_error e)
    else if is_conflict_error e
    then error_response 409 (Message.of_error e)
    else if is_status_error e
    then error_response 400 (Message.of_error e)
    else if is_unauthorized_error e
    then error_response 401 (Message.of_error e)
    else if is_forbidden_error e
    then error_response 403 (Message.of_error e)
    else error_response 500 (Message.text "Internal server error")
