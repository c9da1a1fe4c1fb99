-- ===== src/Graphql/Schema.antt =====
-- The fields of the schema that resolvers answer (internal/transport/graphql/schema.resolvers.go).
use go_clean_arch_poc.Base.{GoString, Option}
use go_clean_arch_poc.Domain.Task.{Uuid}
use go_clean_arch_poc.Auth.Sessions.{ChangePasswordInput, CreateUserInput, LoginInput}
use go_clean_arch_poc.Labels.{CreateLabelInput, UpdateLabelInput}
use go_clean_arch_poc.Users.Ports.{UpdateUserInput}
use go_clean_arch_poc.Service.{Service}
use go_clean_arch_poc.Graphql.Mapping.{PaginationInput}
use go_clean_arch_poc.Graphql.Mutations
use go_clean_arch_poc.Graphql.Mutations.{CreateTaskInput, UpdateTaskInput, Mutate}
use go_clean_arch_poc.Graphql.Queries
use go_clean_arch_poc.Graphql.Queries.{TaskFilterInput, UserFilterInput}

-- The mutations that only ask for a token.
pub data TokenMutation : Type 0 where
  create_task : CreateTaskInput → TokenMutation
  update_task : Uuid → UpdateTaskInput → TokenMutation
  assign_task add_label_to_task remove_label_from_task : Uuid → Uuid → TokenMutation
  delete_task unassign_task complete_task archive_task : Uuid → TokenMutation
  change_task_status : Uuid → GoString → TokenMutation
  upload_task_attachment : Uuid → GoString → GoString → GoString → TokenMutation
  delete_task_attachment : Uuid → Uuid → TokenMutation
  update_user : Uuid → UpdateUserInput → TokenMutation
  delete_user : Uuid → TokenMutation
  assign_role remove_role : Uuid → Uuid → TokenMutation
  change_password : ChangePasswordInput → TokenMutation

-- Those that ask for a role too.
pub data LabelMutation : Type 0 where
  create : CreateLabelInput → LabelMutation
  update : Uuid → UpdateLabelInput → LabelMutation
  delete : Uuid → LabelMutation

pub data QueryField : Type 0 where
  task user role label task_attachments : Uuid → QueryField
  tasks : Option TaskFilterInput → Option PaginationInput → QueryField
  users : Option UserFilterInput → Option PaginationInput → QueryField
  overdue_tasks : Option PaginationInput → QueryField
  me roles labels : QueryField
  download_task_attachment : Uuid → Uuid → QueryField

-- A field of the schema.
pub data Field : Type 0 where
  login : LoginInput → Field
  register : CreateUserInput → Field
  refresh_token : GoString → Field
  logout : Field
  by_token : TokenMutation → Field
  of_label : LabelMutation → Field
  query : QueryField → Field

module _ {C D F P : Type 0} (svc : Service C D F P) where
  unfoldable pub mutate : TokenMutation → Mutate svc
  mutate (TokenMutation.create_task input) = Mutations.create_task svc input
  mutate (TokenMutation.update_task id input) = Mutations.update_task svc id input
  mutate (TokenMutation.assign_task id u) = Mutations.assign_task svc id u
  mutate (TokenMutation.add_label_to_task id l) = Mutations.add_label_to_task svc id l
  mutate (TokenMutation.remove_label_from_task id l) = Mutations.remove_label_from_task svc id l
  mutate (TokenMutation.delete_task id) = Mutations.delete_task svc id
  mutate (TokenMutation.unassign_task id) = Mutations.unassign_task svc id
  mutate (TokenMutation.complete_task id) = Mutations.complete_task svc id
  mutate (TokenMutation.archive_task id) = Mutations.archive_task svc id
  mutate (TokenMutation.change_task_status id status) = Mutations.change_task_status svc id status
  mutate (TokenMutation.upload_task_attachment id filename content_type content) =
      Mutations.upload_task_attachment svc id filename content_type content
  mutate (TokenMutation.delete_task_attachment id a) = Mutations.delete_task_attachment svc id a
  mutate (TokenMutation.update_user id input) = Mutations.update_user svc id input
  mutate (TokenMutation.delete_user id) = Mutations.delete_user svc id
  mutate (TokenMutation.assign_role u r) = Mutations.assign_role svc u r
  mutate (TokenMutation.remove_role u r) = Mutations.remove_role svc u r
  mutate (TokenMutation.change_password input) = Mutations.change_password svc input

  unfoldable pub mutate_label : LabelMutation → Mutate svc
  mutate_label (LabelMutation.create input) = Mutations.create_label svc input
  mutate_label (LabelMutation.update id input) = Mutations.update_label svc id input
  mutate_label (LabelMutation.delete id) = Mutations.delete_label svc id

  unfoldable pub ask : QueryField → Mutate svc
  ask (QueryField.task id) = Queries.task svc id
  ask (QueryField.user id) = Queries.user svc id
  ask (QueryField.role id) = Queries.role svc id
  ask (QueryField.label id) = Queries.label svc id
  ask (QueryField.task_attachments id) = Queries.task_attachments svc id
  ask (QueryField.tasks filter p) = Queries.tasks svc filter p
  ask (QueryField.users filter p) = Queries.users svc filter p
  ask (QueryField.overdue_tasks p) = Queries.overdue_tasks svc p
  ask QueryField.me = Queries.me svc
  ask QueryField.roles = Queries.roles svc
  ask QueryField.labels = Queries.labels svc
  ask (QueryField.download_task_attachment id a) = Queries.download_task_attachment svc id a

  unfoldable pub resolve : Field → Mutate svc
  unfolding mutate mutate_label ask
  resolve (Field.login input) = Mutations.login svc input
  resolve (Field.register input) = Mutations.register_user svc input
  resolve (Field.refresh_token token) = Mutations.refresh_token svc token
  resolve Field.logout = Mutations.logout svc
  resolve (Field.by_token m) = mutate m
  resolve (Field.of_label m) = mutate_label m
  resolve (Field.query q) = ask q
