-- ===== src/Rest/TaskHandlers.antt =====
-- TaskHandler and TaskQueryHandler (internal/transport/rest/handler/task_handler.go and
-- task_query_handler.go). A download answers with the whole file: a reader that fails later is left
-- out, and so is the text of a pagination that is not valid.
use go_clean_arch_poc.Base.{GoString, bytes, Option, none, some, [], str_eq, ◌<|◌, if◌then◌else◌}
use go_clean_arch_poc.Domain.Task.{Uuid}
use go_clean_arch_poc.Domain.Acl.{
  AclPermission, permission_read, permission_write, permission_delete,
}
use go_clean_arch_poc.Domain.Role.Resource
use go_clean_arch_poc.Tasks.Ports.{TaskFilter}
use go_clean_arch_poc.Tasks.Writing.{create_task, update_task, delete_task}
use go_clean_arch_poc.Tasks.Editing.{
  assign_task, unassign_task, change_task_status, complete_task, archive_task, add_label,
  remove_label,
}
use go_clean_arch_poc.Tasks.Reading.{get_task, list_tasks, search_tasks, get_overdue_tasks}
use go_clean_arch_poc.Tasks.Attachments.{
  delete_task_attachment, download_task_attachment, list_task_attachments, upload_task_attachment,
}
use go_clean_arch_poc.Service.{Service, State, Context, on_tasks, task_state}
use go_clean_arch_poc.Rest.Response.{HttpLib, Request, Payload, Response, Form}
use go_clean_arch_poc.Rest.Query.{parse_pagination}
use go_clean_arch_poc.Rest.Guards.{Handler, check_acl, refuse}
use go_clean_arch_poc.Rest.Replies.{parsed, given, allowed, answer, answer_empty}

abbrev or_none : GoString → Option GoString
or_none text = if str_eq text [] then none else some text

-- The filter that the query of a list asks for.
abbrev pub query_filter : Request → TaskFilter
query_filter req = record {
  status = or_none (req.query (bytes "status"));
  priority = or_none (req.query (bytes "priority"));
  assignee_id = none;
  creator_id = none;
  label_ids = [];
  search = req.query (bytes "search");
  is_overdue = none;
}

module _ {C D F P : Type 0} (svc : Service C D F P) (lib : HttpLib) where
  abbrev pub task_acl : Context → Uuid → AclPermission → State C D F P → Option Response
  task_acl ctx id permission s =
      check_acl svc lib Resource.task "You do not have permission for this task" ctx id permission s

  abbrev pub id_in : Request → GoString → Option Uuid
  id_in req name = svc.uuids.parse (req.path_value name)

  -- The id in the path, and the access to that task.
  abbrev pub with_task :
      AclPermission
      → Context
      → Request
      → State C D F P
      → (Uuid → State C D F P × Response)
      → State C D F P × Response
  with_task permission ctx req s next = given (id_in req (bytes "id")) "Invalid task ID" s <| λ id.
      allowed (task_acl ctx id permission s) s <| next id

  unfoldable pub create : Handler svc lib
  create at ctx req s = given (lib.create_task req.body) "Invalid request body" s <| λ input.
      answer lib 201 Payload.task
        (on_tasks (create_task svc.tasks at.now at.first_id ctx.claims input) s)

  unfoldable pub get : Handler svc lib
  unfolding check_acl
  get at ctx req s = with_task permission_read ctx req s <| λ id.
      answer lib 200 Payload.task (on_tasks (get_task svc.tasks at.now id) s)

  unfoldable pub list : Handler svc lib
  unfolding parse_pagination
  list at ctx req s = parsed (parse_pagination lib req) s <| λ pagination.
      answer lib 200 Payload.tasks
        (on_tasks (list_tasks svc.tasks at.now (query_filter req) pagination) s)

  unfoldable pub update : Handler svc lib
  unfolding check_acl
  update at ctx req s = with_task permission_write ctx req s <| λ id.
      given (lib.update_task req.body) "Invalid request body" s <| λ input.
      answer lib 200 Payload.task (on_tasks (update_task svc.tasks at.now ctx.claims id input) s)

  unfoldable pub delete : Handler svc lib
  unfolding check_acl
  delete at ctx req s = with_task permission_delete ctx req s <| λ id.
      answer_empty lib 204 (on_tasks (delete_task svc.tasks ctx.claims id) s)

  unfoldable pub assign : Handler svc lib
  unfolding check_acl
  assign at ctx req s = with_task permission_write ctx req s <| λ id.
      given (lib.assignee_id req.body) "Invalid request body" s <| λ assignee_id.
      answer lib 200 Payload.task
        (on_tasks (assign_task svc.tasks at.now ctx.claims id assignee_id) s)

  unfoldable pub unassign : Handler svc lib
  unfolding check_acl
  unassign at ctx req s = with_task permission_write ctx req s <| λ id.
      answer lib 200 Payload.task (on_tasks (unassign_task svc.tasks at.now ctx.claims id) s)

  unfoldable pub complete : Handler svc lib
  unfolding check_acl
  complete at ctx req s = with_task permission_write ctx req s <| λ id.
      answer lib 200 Payload.task (on_tasks (complete_task svc.tasks at.now ctx.claims id) s)

  unfoldable pub archive : Handler svc lib
  unfolding check_acl
  archive at ctx req s = with_task permission_write ctx req s <| λ id.
      answer lib 200 Payload.task (on_tasks (archive_task svc.tasks at.now ctx.claims id) s)

  unfoldable pub change_status : Handler svc lib
  unfolding check_acl
  change_status at ctx req s = with_task permission_write ctx req s <| λ id.
      given (lib.status req.body) "Invalid request body" s <| λ status.
      answer lib 200 Payload.task
        (on_tasks (change_task_status svc.tasks at.now ctx.claims id status) s)

  unfoldable pub add_task_label : Handler svc lib
  unfolding check_acl
  add_task_label at ctx req s = with_task permission_write ctx req s <| λ id.
      given (id_in req (bytes "labelId")) "Invalid label ID" s <| λ label_id.
      answer lib 200 Payload.task (on_tasks (add_label svc.tasks at.now ctx.claims id label_id) s)

  unfoldable pub remove_task_label : Handler svc lib
  unfolding check_acl
  remove_task_label at ctx req s = with_task permission_write ctx req s <| λ id.
      given (id_in req (bytes "labelId")) "Invalid label ID" s <| λ label_id.
      answer lib 200 Payload.task
        (on_tasks (remove_label svc.tasks at.now ctx.claims id label_id) s)

  unfoldable pub upload_attachment : Handler svc lib
  unfolding check_acl
  upload_attachment at ctx req s = with_task permission_write ctx req s <| λ id.
      elim (lib.parse_multipart_form req.body) [
        | Form.too_large ↦ (s, refuse 413 "Attachment exceeds maximum size of 32 MB")
        | Form.malformed ↦ (s, refuse 400 "Invalid multipart form")
        | Form.no_file ↦ (s, refuse 400 "Failed to read file")
        | Form.file filename content_type content ↦ answer lib 201 Payload.attachment (
            on_tasks
              (upload_task_attachment svc.tasks at.now at.first_id at.second_id ctx.claims id
                filename content_type content)
              s)
      ]

  unfoldable pub download_attachment : Handler svc lib
  unfolding check_acl
  download_attachment at ctx req s = with_task permission_read ctx req s <| λ id.
      given (id_in req (bytes "attachmentId")) "Invalid attachment ID" s <| λ attachment_id.
      answer lib 200 (λ found. Payload.file found.1 found.0)
        (on_tasks (download_task_attachment svc.tasks id attachment_id) s)

  unfoldable pub list_attachments : Handler svc lib
  unfolding check_acl
  list_attachments at ctx req s = with_task permission_read ctx req s <| λ id.
      answer lib 200 Payload.attachments (s, list_task_attachments svc.tasks id (task_state s))

  unfoldable pub delete_attachment : Handler svc lib
  unfolding check_acl
  delete_attachment at ctx req s = with_task permission_write ctx req s <| λ id.
      given (id_in req (bytes "attachmentId")) "Invalid attachment ID" s <| λ attachment_id.
      answer_empty lib 204 (on_tasks (delete_task_attachment svc.tasks id attachment_id) s)

  unfoldable pub search : Handler svc lib
  unfolding parse_pagination
  search at ctx req s =
      if str_eq (req.query (bytes "q")) []
      then (s, refuse 400 "Missing search query")
      else (parsed (parse_pagination lib req) s <| λ pagination.
          answer lib 200 Payload.tasks
            (s, search_tasks svc.tasks at.now (req.query (bytes "q")) pagination (task_state s)))

  unfoldable pub overdue : Handler svc lib
  unfolding parse_pagination
  overdue at ctx req s = parsed (parse_pagination lib req) s <| λ pagination.
      answer lib 200 Payload.tasks (s, get_overdue_tasks svc.tasks at.now pagination (task_state s))
