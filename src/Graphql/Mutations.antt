-- ===== src/Graphql/Mutations.antt =====
-- The resolvers of mutations (internal/transport/graphql/schema.resolvers.go).
use go_clean_arch_poc.Base.{GoString, true, false, Option, List, [], ◌∷◌, ◌<|◌}
use go_clean_arch_poc.Domain.Error.{Result, ok, ◌>>=◌}
use go_clean_arch_poc.Domain.Priority
use go_clean_arch_poc.Domain.Task.{Uuid, Time}
use go_clean_arch_poc.Domain.Role.{role_admin, role_manager}
use go_clean_arch_poc.Auth.Sessions
use go_clean_arch_poc.Auth.Sessions.{
  attempt, register, ChangePasswordInput, CreateUserInput, LoginInput,
}
use go_clean_arch_poc.Labels
use go_clean_arch_poc.Labels.{CreateLabelInput, UpdateLabelInput}
use go_clean_arch_poc.Tasks.Writing as Writing
use go_clean_arch_poc.Tasks.Editing as Editing
use go_clean_arch_poc.Tasks.Attachments as Attachments
use go_clean_arch_poc.Users.Operations as Operations
use go_clean_arch_poc.Users.Ports.{UpdateUserInput, UserOutput}
use go_clean_arch_poc.Service.{
  Service, State, Context, Moment, done, on_auth, on_labels, on_tasks, on_users,
}
use go_clean_arch_poc.Graphql.Mapping.{Answer, or_else, user_to_graphql}
use go_clean_arch_poc.Graphql.Resolver.{
  Outcome, answer, answer_task, require_any_role, require_auth,
}

-- The input of createTask; a priority is one of the constants, and the zero of a description is empty.
pub record CreateTaskInput : Type 0 where
  pub title : GoString
  pub description : Option GoString
  pub priority : Option GoString
  pub due_date : Option Time
  pub assignee_id : Option Uuid
  pub label_ids : List Uuid

-- That of updateTask, which cannot clear the due date.
pub record UpdateTaskInput : Type 0 where
  pub title : Option GoString
  pub description : Option GoString
  pub priority : Option GoString
  pub due_date : Option Time

abbrev pub yes_answer : Unit {0} → Answer
yes_answer _ = Answer.boolean true

abbrev pub editors : List GoString
editors = role_admin ∷ role_manager ∷ []

module _ {C D F P : Type 0} (svc : Service C D F P) where
  abbrev pub Mutate : Type 0
  Mutate = Moment → Context → State C D F P → Outcome svc

  unfoldable pub login : LoginInput → Mutate
  login input at ctx s =
      answer svc Answer.auth
        (on_auth (Sessions.login svc.auth at.now at.first_id at.second_id input) s)

  unfoldable pub register_user : CreateUserInput → Mutate
  register_user input at ctx s =
      answer svc Answer.auth
        (on_auth (register svc.auth at.now at.first_id at.salt at.second_id at.third_id input) s)

  unfoldable pub refresh_token : GoString → Mutate
  refresh_token token at ctx s =
      answer svc Answer.auth
        (on_auth (Sessions.refresh_token svc.auth at.now at.first_id at.second_id token) s)

  unfoldable pub logout : Mutate
  logout at ctx s = attempt (require_auth ctx) s <| λ claims.
      answer svc yes_answer (on_auth (Sessions.logout svc.auth at.now claims.user_id ctx.token) s)

  unfoldable pub create_task : CreateTaskInput → Mutate
  create_task input at ctx s = attempt (require_auth ctx) s <| λ _. answer_task svc at.now (
      on_tasks
        (Writing.create_task svc.tasks at.now at.first_id ctx.claims (record {
          title = input.title;
          description = or_else input.description [];
          priority = or_else input.priority Priority.medium;
          due_date = input.due_date;
          assignee_id = input.assignee_id;
          label_ids = input.label_ids;
        }))
        s)

  unfoldable pub update_task : Uuid → UpdateTaskInput → Mutate
  update_task id input at ctx s = attempt (require_auth ctx) s <| λ _. answer_task svc at.now (
      on_tasks
        (Writing.update_task svc.tasks at.now ctx.claims id (record {
          title = input.title;
          description = input.description;
          priority = input.priority;
          due_date = input.due_date;
          clear_due_date = false;
        }))
        s)

  unfoldable pub delete_task : Uuid → Mutate
  delete_task id at ctx s = attempt (require_auth ctx) s <| λ _.
      answer svc yes_answer (on_tasks (Writing.delete_task svc.tasks ctx.claims id) s)

  unfoldable pub assign_task : Uuid → Uuid → Mutate
  assign_task id assignee_id at ctx s = attempt (require_auth ctx) s <| λ _.
      answer_task svc at.now
        (on_tasks (Editing.assign_task svc.tasks at.now ctx.claims id assignee_id) s)

  unfoldable pub unassign_task : Uuid → Mutate
  unassign_task id at ctx s = attempt (require_auth ctx) s <| λ _.
      answer_task svc at.now (on_tasks (Editing.unassign_task svc.tasks at.now ctx.claims id) s)

  unfoldable pub change_task_status : Uuid → GoString → Mutate
  change_task_status id status at ctx s = attempt (require_auth ctx) s <| λ _.
      answer_task svc at.now
        (on_tasks (Editing.change_task_status svc.tasks at.now ctx.claims id status) s)

  unfoldable pub complete_task : Uuid → Mutate
  complete_task id at ctx s = attempt (require_auth ctx) s <| λ _.
      answer_task svc at.now (on_tasks (Editing.complete_task svc.tasks at.now ctx.claims id) s)

  unfoldable pub archive_task : Uuid → Mutate
  archive_task id at ctx s = attempt (require_auth ctx) s <| λ _.
      answer_task svc at.now (on_tasks (Editing.archive_task svc.tasks at.now ctx.claims id) s)

  unfoldable pub add_label_to_task : Uuid → Uuid → Mutate
  add_label_to_task task_id label_id at ctx s = attempt (require_auth ctx) s <| λ _.
      answer_task svc at.now
        (on_tasks (Editing.add_label svc.tasks at.now ctx.claims task_id label_id) s)

  unfoldable pub remove_label_from_task : Uuid → Uuid → Mutate
  remove_label_from_task task_id label_id at ctx s = attempt (require_auth ctx) s <| λ _.
      answer_task svc at.now
        (on_tasks (Editing.remove_label svc.tasks at.now ctx.claims task_id label_id) s)

  unfoldable pub upload_task_attachment : Uuid → GoString → GoString → GoString → Mutate
  upload_task_attachment task_id filename content_type content at ctx s =
      attempt (require_auth ctx) s <| λ _. answer svc Answer.attachment (
        on_tasks
          (Attachments.upload_task_attachment svc.tasks at.now at.first_id at.second_id ctx.claims
            task_id filename content_type content)
          s)

  unfoldable pub delete_task_attachment : Uuid → Uuid → Mutate
  delete_task_attachment task_id attachment_id at ctx s = attempt (require_auth ctx) s <| λ _.
      answer svc yes_answer
        (on_tasks (Attachments.delete_task_attachment svc.tasks task_id attachment_id) s)

  abbrev answer_user : State C D F P × Result UserOutput → Outcome svc
  unfolding user_to_graphql
  answer_user out = answer svc (λ u. Answer.user (user_to_graphql u)) out

  unfoldable pub update_user : Uuid → UpdateUserInput → Mutate
  unfolding user_to_graphql
  update_user id input at ctx s = attempt (require_auth ctx) s <| λ _.
      answer_user (on_users (Operations.update_user svc.users at.now id input) s)

  unfoldable pub delete_user : Uuid → Mutate
  delete_user id at ctx s = attempt (require_auth ctx) s <| λ _.
      answer svc yes_answer (on_users (Operations.delete_user svc.users id) s)

  unfoldable pub assign_role : Uuid → Uuid → Mutate
  unfolding user_to_graphql
  assign_role user_id role_id at ctx s = attempt (require_auth ctx) s <| λ _.
      answer_user (on_users (Operations.assign_role svc.users at.now user_id role_id) s)

  unfoldable pub remove_role : Uuid → Uuid → Mutate
  unfolding user_to_graphql
  remove_role user_id role_id at ctx s = attempt (require_auth ctx) s <| λ _.
      answer_user (on_users (Operations.remove_role svc.users at.now user_id role_id) s)

  unfoldable pub change_password : ChangePasswordInput → Mutate
  change_password input at ctx s = attempt (require_auth ctx) s <| λ claims.
      answer svc yes_answer
        (on_auth (Sessions.change_password svc.auth at.now at.salt claims.user_id input) s)

  unfoldable pub create_label : CreateLabelInput → Mutate
  unfolding require_any_role
  create_label input at ctx s = attempt (require_auth ctx) s <| λ _.
      attempt (require_any_role editors ctx) s <| λ _. answer svc Answer.label (
        on_labels (Labels.create_label svc.label_repo svc.label_validator at.now at.first_id input)
          s)

  unfoldable pub update_label : Uuid → UpdateLabelInput → Mutate
  unfolding require_any_role
  update_label id input at ctx s = attempt (require_auth ctx) s <| λ _.
      attempt (require_any_role editors ctx) s <| λ _.
      answer svc Answer.label
        (on_labels (Labels.update_label svc.label_repo svc.label_validator at.now id input) s)

  unfoldable pub delete_label : Uuid → Mutate
  unfolding require_any_role
  delete_label id at ctx s = attempt (require_auth ctx) s <| λ _.
      attempt (require_any_role editors ctx) s <| λ _. answer svc yes_answer (
        on_labels
          (λ d. Labels.delete_label svc.label_repo svc.label_validator id d >>= λ d'. ok (done d'))
          s)
