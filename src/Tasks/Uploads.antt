-- ===== src/Tasks/Uploads.antt =====
-- What an upload of an attachment in TaskUseCase (internal/application/usecase/task/task_usecase.go)
-- leaves.
use go_clean_arch_poc.Base.{GoString, bytes, Bool, ◌||◌, [], ◌++◌, str_eq}
use go_clean_arch_poc.Domain.Error.{Error}
use go_clean_arch_poc.Domain.Task.{Uuid}
use go_clean_arch_poc.Domain.TaskAttachment.{TaskAttachment}
use go_clean_arch_poc.Tasks.Ports.{TaskUseCase, UploadOptions}
use go_clean_arch_poc.Tasks.Attachments.{task_attachment_key}

-- The file names that an upload refuses.
abbrev invalid_filename : GoString → Bool
invalid_filename safe = str_eq safe [] || (str_eq safe (bytes ".") || str_eq safe (bytes "/"))

module _ {C D F P : Type 0} (uc : TaskUseCase C D F P) where
  abbrev pub options : Uuid → Uuid → GoString → GoString → UploadOptions
  options task_id uploaded_by content_type filename = record {
    content_type = content_type;
    task_id = uc.uuids.string task_id;
    uploaded_by = uc.uuids.string uploaded_by;
    filename = filename;
  }

  -- The key of the object of an upload.
  abbrev pub object_key : Uuid → Uuid → GoString → GoString
  object_key task_id name_id filename =
      task_attachment_key (bytes "attachments") (uc.uuids.string task_id)
        (uc.uuids.string name_id ++ (bytes "-" ++ filename))
