-- ===== src/Domain/TaskAttachment.antt =====
-- Files attached to tasks (internal/domain/entity/task_attachment.go). A size is an int64 that the
-- storage counted, and not negative.
use go_clean_arch_poc.Base.{ℕ, GoString}
use go_clean_arch_poc.Domain.Task.{Uuid, Time}

pub record TaskAttachment : Type 0 where
  pub id : Uuid
  pub task_id : Uuid
  pub filename : GoString
  pub s3_key : GoString
  pub content_type : GoString
  pub size_bytes : ℕ
  pub uploaded_by : Uuid
  pub created_at : Time

abbrev pub new_task_attachment :
    Time → Uuid → Uuid → GoString → GoString → GoString → ℕ → Uuid → TaskAttachment
new_task_attachment now id task_id filename s3_key content_type size_bytes uploaded_by = record {
  id = id;
  task_id = task_id;
  filename = filename;
  s3_key = s3_key;
  content_type = content_type;
  size_bytes = size_bytes;
  uploaded_by = uploaded_by;
  created_at = now;
}
