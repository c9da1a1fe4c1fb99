-- ===== src/Tests/Uploads.antt =====
-- An upload of an attachment (internal/application/usecase/task/task_usecase.go) at concrete inputs.
use go_clean_arch_poc.Base.{bytes, none, []}
use go_clean_arch_poc.Domain.Error.{Result, ok, err}
use go_clean_arch_poc.Domain.TaskAttachment.{TaskAttachment, new_task_attachment}
use go_clean_arch_poc.Tasks.Ports.{TaskAttachmentOutput}
use go_clean_arch_poc.Tasks.Attachments.{attachment_output, upload_task_attachment}
use go_clean_arch_poc.Tests.TaskService.{State, service, start_state}

abbrev sent : State × Result TaskAttachmentOutput
sent =
    upload_task_attachment service 10 20 21 none 7 (bytes " ..\\x/y.txt ") (bytes "text/plain")
      (bytes "hello") start_state

abbrev attached : Result TaskAttachmentOutput → TaskAttachmentOutput
attached (ok out) = out
attached (err e) = attachment_output (new_task_attachment 0 0 0 [] [] [] 0 0)
