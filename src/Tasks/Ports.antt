-- ===== src/Tasks/Ports.antt =====
-- What TaskUseCase (internal/application/usecase/task/task_usecase.go) holds and is given: its ports
-- (internal/application/port/output), its inputs and outputs (internal/application/dto/task_dto.go)
-- and its state. `D` is the state of the database, `F` of the file storage, `P` of the publisher.
-- A write to the database is one SQL statement, so that one that returns an error has written
-- nothing; what the storage and the publisher did before an error is not known, and they return a
-- state with it.
use go_clean_arch_poc.Base.{ℕ, GoString, Bool, Option, List}
use go_clean_arch_poc.Base.Int.{ℤ}
use go_clean_arch_poc.Base.Json.{Json}
use go_clean_arch_poc.Domain.Error.{Result}
use go_clean_arch_poc.Domain.Task.{Uuid, Time, Task}
use go_clean_arch_poc.Domain.Label.{Label}
use go_clean_arch_poc.Domain.TaskAttachment.{TaskAttachment}
use go_clean_arch_poc.Domain.Event.{TaskEvent}
use go_clean_arch_poc.Cache.Port.{CacheRepository}
use go_clean_arch_poc.Auth.Jwt.{UuidLib}

-- `is_overdue` is a `*bool`: its address, and what stands there.
pub record TaskFilter : Type 0 where
  pub status : Option GoString
  pub priority : Option GoString
  pub assignee_id : Option Uuid
  pub creator_id : Option Uuid
  pub label_ids : List Uuid
  pub search : GoString
  pub is_overdue : Option (ℕ × Bool)

pub record Pagination : Type 0 where
  pub page : ℤ
  pub page_size : ℤ
  pub sort_by : GoString
  pub sort_desc : Bool

pub record PaginatedResult : Type 0 where
  pub total : ℕ
  pub page : ℤ
  pub page_size : ℤ
  pub total_pages : ℤ

pub record TaskRepository (D : Type 0) : Type 0 where
  pub save : Task → D → Result D
  pub update : Task → D → Result D
  pub delete : Uuid → D → Result D
  pub find_by_id : Uuid → D → Result (Option Task)
  pub exists_by_id : Uuid → D → Result Bool
  pub find_all : TaskFilter → Pagination → D → Result (List Task × PaginatedResult)
  pub search : GoString → Pagination → D → Result (List Task × PaginatedResult)
  pub find_overdue : Time → Pagination → D → Result (List Task × PaginatedResult)

pub record TaskAttachmentRepository (D : Type 0) : Type 0 where
  pub save_attachment : TaskAttachment → D → Result D
  pub find_attachment_by_id : Uuid → D → Result (Option TaskAttachment)
  pub find_attachments_by_task_id : Uuid → D → Result (List TaskAttachment)
  pub delete_attachment : Uuid → D → Result D

-- The parts of UserRepository and LabelRepository that the use case calls.
pub record UserRepository (D : Type 0) : Type 0 where
  pub exists_by_id : Uuid → D → Result Bool

pub record LabelRepository (D : Type 0) : Type 0 where
  pub exists_by_id : Uuid → D → Result Bool
  pub find_by_task_id : Uuid → D → Result (List Label)

-- The metadata of an upload that this code writes: the task, who uploads, the name of the file.
pub record UploadOptions : Type 0 where
  pub content_type : GoString
  pub task_id : GoString
  pub uploaded_by : GoString
  pub filename : GoString

-- The part of FileMetadata that this code reads.
pub record FileMetadata : Type 0 where
  pub key : GoString
  pub size : ℕ

pub record FileStorage (F : Type 0) : Type 0 where
  pub upload : GoString → GoString → UploadOptions → F → F × Result FileMetadata
  pub download : GoString → F → Result GoString
  pub delete : GoString → F → F × Result (Unit {0})

pub record EventPublisher (P : Type 0) : Type 0 where
  pub publish : GoString → TaskEvent → P → P × Result (Unit {0})

pub record CreateTaskInput : Type 0 where
  pub title : GoString
  pub description : GoString
  pub priority : GoString
  pub due_date : Option Time
  pub assignee_id : Option Uuid
  pub label_ids : List Uuid

pub record UpdateTaskInput : Type 0 where
  pub title : Option GoString
  pub description : Option GoString
  pub priority : Option GoString
  pub due_date : Option Time
  pub clear_due_date : Bool

-- Without the fields Assignee and Creator, which this code leaves nil. A label is the entity, of which
-- LabelFromEntity copies every field.
pub record TaskOutput : Type 0 where
  pub id : Uuid
  pub title : GoString
  pub description : GoString
  pub status : GoString
  pub priority : GoString
  pub due_date : Option Time
  pub assignee_id : Option Uuid
  pub creator_id : Uuid
  pub labels : List Label
  pub is_overdue : Bool
  pub created_at : Time
  pub updated_at : Time

pub record TaskListOutput : Type 0 where
  pub tasks : List TaskOutput
  pub total : ℕ
  pub page : ℤ
  pub page_size : ℤ
  pub total_pages : ℤ

pub record TaskAttachmentOutput : Type 0 where
  pub id : Uuid
  pub task_id : Uuid
  pub filename : GoString
  pub content_type : GoString
  pub size_bytes : ℕ
  pub uploaded_by : Uuid
  pub created_at : Time

-- go-playground/validator on the tags of the inputs.
pub record Validator : Type 0 where
  pub create_task : CreateTaskInput → Result (Unit {0})
  pub update_task : UpdateTaskInput → Result (Unit {0})
  pub filter : TaskFilter → Result (Unit {0})
  pub pagination : Pagination → Result (Unit {0})

-- What the keys of lists are made with: `%d` and `%v` of an int and of a pointer, the order of strings,
-- and SHA-256 in hexadecimal.
pub record Printing : Type 0 where
  pub decimal : ℤ → GoString
  pub address : ℕ → GoString
  pub less : GoString → GoString → Bool
  pub sha256_hex : GoString → GoString

pub record TaskState (C D F P : Type 0) : Type 0 where
  pub cache : Option C
  pub db : D
  pub files : F
  pub published : P

-- A storage or a publisher that is nil is none.
pub record TaskUseCase (C D F P : Type 0) : Type 0 where
  pub task_repo : TaskRepository D
  pub attachment_repo : TaskAttachmentRepository D
  pub user_repo : UserRepository D
  pub label_repo : LabelRepository D
  pub file_storage : Option (FileStorage F)
  pub cache_repo : CacheRepository C
  pub event_publisher : Option (EventPublisher P)
  pub validator : Validator
  pub uuids : UuidLib
  pub task_json : Json TaskOutput
  pub list_json : Json TaskListOutput
  pub printing : Printing
