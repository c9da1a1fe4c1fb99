-- ===== src/Tasks/Attachments.antt =====
-- The methods of TaskUseCase (internal/application/usecase/task/task_usecase.go) for attachments. A
-- reader is its content. What a method logs is left out.
use go_clean_arch_poc.Base.{
  GoString, bytes, not, ◌||◌, Option, none, some, List, [], ◌++◌, map, ◌==◌, if◌then◌else◌, ◌<|◌,
  str_eq,
}
use go_clean_arch_poc.Domain.Error.{
  Error, ErrorCode, Result, ok, err, ◌>>=◌, err_task_not_found, err_attachment_not_found,
}
use go_clean_arch_poc.Domain.Task.{Uuid, Time}
use go_clean_arch_poc.Domain.TaskAttachment.{TaskAttachment, new_task_attachment}
use go_clean_arch_poc.Auth.Jwt.{TokenClaims}
use go_clean_arch_poc.Auth.Sessions.{attempt, attempt_some}
use go_clean_arch_poc.Tasks.Ports.{FileStorage, TaskAttachmentOutput, TaskState, TaskUseCase}
use go_clean_arch_poc.Tasks.Shared.{get_creator_id_from_context}
use go_clean_arch_poc.Tasks.Writing.{
  present, publish_attachment_cleanup_requested, delete_attachment_object,
}
use go_clean_arch_poc.Tasks.Filename.{sanitize_attachment_filename}

abbrev pub attachment_output : TaskAttachment → TaskAttachmentOutput
attachment_output a = record {
  id = a.id;
  task_id = a.task_id;
  filename = a.filename;
  content_type = a.content_type;
  size_bytes = a.size_bytes;
  uploaded_by = a.uploaded_by;
  created_at = a.created_at;
}

-- FileKeyBuilder.TaskAttachment (internal/application/port/output/file_storage.go).
unfoldable pub task_attachment_key : GoString → GoString → GoString → GoString
task_attachment_key prefix task_id filename =
    prefix ++ (bytes "/tasks/" ++ (task_id ++ (bytes "/attachments/" ++ filename)))

-- `if attachment.TaskID != taskID { return ErrAttachmentNotFound }`
abbrev pub of_task : Uuid → TaskAttachment → Result (Unit {0})
of_task task_id a = if not (a.task_id == task_id) then err err_attachment_not_found else ok tt

module _ {C D F P : Type 0} (uc : TaskUseCase C D F P) where
  unfoldable pub ensure_file_storage_available : Result (FileStorage F)
  ensure_file_storage_available = elim uc.file_storage [
    | none ↦ err (Error.domain ErrorCode.internal_error "file storage is unavailable")
    | some storage ↦ ok storage
  ]

  -- The object of an upload whose record was not saved is deleted, or its deletion requested.
  unfoldable pub cleanup_uploaded_attachment_object :
      Uuid → Uuid → GoString → TaskState C D F P → TaskState C D F P
  cleanup_uploaded_attachment_object task_id attachment_id object_key s = elim uc.file_storage [
    | none ↦ s
    | some storage ↦
        let (f, r) = storage.delete object_key s.files in
        let s' = record s { files = f } in
        elim r [
          | ok _ ↦ s'
          | err _ ↦ (publish_attachment_cleanup_requested uc task_id attachment_id object_key s').0
        ]
  ]

  -- From the call of Upload on. `name_id` makes the key of the object unique, `id` is the id of the
  -- attachment.
  unfoldable pub upload_file :
      Time
      → Uuid
      → Uuid
      → Uuid
      → Uuid
      → GoString
      → GoString
      → GoString
      → FileStorage F
      → TaskState C D F P
      → TaskState C D F P × Result TaskAttachmentOutput
  unfolding task_attachment_key cleanup_uploaded_attachment_object
  upload_file now name_id id uploaded_by task_id safe_filename content_type content storage s =
      let key =
        task_attachment_key (bytes "attachments") (uc.uuids.string task_id)
          (uc.uuids.string name_id ++ (bytes "-" ++ safe_filename)) in
      let (f, r) =
        storage.upload key content
          (record {
            content_type = content_type;
            task_id = uc.uuids.string task_id;
            uploaded_by = uc.uuids.string uploaded_by;
            filename = safe_filename;
          })
          s.files in
      let s' = record s { files = f } in
      elim r [
        | err e ↦ (s', err (Error.errorf "failed to upload file" e))
        | ok meta ↦
            let a =
              new_task_attachment now id task_id safe_filename meta.key content_type meta.size
                uploaded_by in
            elim (uc.attachment_repo.save_attachment a s'.db) [
              | err e ↦ (
                cleanup_uploaded_attachment_object task_id a.id meta.key s',
                err (Error.errorf "failed to save attachment" e),
              )
              | ok db ↦ (record s' { db = db }, ok (attachment_output a))
            ]
      ]

  unfoldable pub upload_task_attachment :
      Time
      → Uuid
      → Uuid
      → Option TokenClaims
      → Uuid
      → GoString
      → GoString
      → GoString
      → TaskState C D F P
      → TaskState C D F P × Result TaskAttachmentOutput
  unfolding ensure_file_storage_available upload_file
  upload_task_attachment now name_id id ctx task_id filename content_type content s =
      attempt ensure_file_storage_available s <| λ storage.
      attempt (present uc (uc.task_repo.exists_by_id task_id s.db) err_task_not_found) s <| λ _.
      let safe_filename = sanitize_attachment_filename filename in
      if str_eq safe_filename []
        || (str_eq safe_filename (bytes ".") || str_eq safe_filename (bytes "/"))
      then (s, err (Error.domain ErrorCode.validation "invalid filename"))
      else upload_file now name_id id (get_creator_id_from_context ctx) task_id safe_filename
          content_type content storage s

  unfoldable pub download_task_attachment :
      Uuid → Uuid → TaskState C D F P → TaskState C D F P × Result (GoString × TaskAttachmentOutput)
  unfolding ensure_file_storage_available
  download_task_attachment task_id attachment_id s =
      attempt ensure_file_storage_available s <| λ storage.
      attempt_some (uc.attachment_repo.find_attachment_by_id attachment_id s.db)
        err_attachment_not_found s
      <| λ a. attempt (of_task task_id a) s <| λ _. (
        s,
        elim (storage.download a.s3_key s.files) [
          | err e ↦ err (Error.errorf "failed to download file" e)
          | ok content ↦ ok (content, attachment_output a)
        ],
      )

  unfoldable pub list_task_attachments :
      Uuid → TaskState C D F P → Result (List TaskAttachmentOutput)
  list_task_attachments task_id s =
      present uc (uc.task_repo.exists_by_id task_id s.db) err_task_not_found >>= λ _.
      uc.attachment_repo.find_attachments_by_task_id task_id s.db >>= λ attachments.
      ok (map attachment_output attachments)

  unfoldable pub delete_task_attachment :
      Uuid → Uuid → TaskState C D F P → TaskState C D F P × Result (Unit {0})
  unfolding delete_attachment_object
  delete_task_attachment task_id attachment_id s =
      attempt_some (uc.attachment_repo.find_attachment_by_id attachment_id s.db)
        err_attachment_not_found s
      <| λ a. attempt (of_task task_id a) s <| λ _.
          let (s', r) = delete_attachment_object uc task_id attachment_id a.s3_key s in
          attempt r s' <| λ _.
          attempt (uc.attachment_repo.delete_attachment attachment_id s'.db) s' <| λ db.
          (record s' { db = db }, ok tt)
