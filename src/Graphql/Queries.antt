-- ===== src/Graphql/Queries.antt =====
-- The resolvers of queries (internal/transport/graphql/schema.resolvers.go and task.resolvers.go).
use go_clean_arch_poc.Base.{GoString, Option, none, some, List, [], map, ◌<|◌, if◌then◌else◌}
use go_clean_arch_poc.Domain.Error.{Result, ok, err, is_not_found_error}
use go_clean_arch_poc.Domain.Task.{Uuid}
use go_clean_arch_poc.Auth.Sessions.{attempt}
use go_clean_arch_poc.Labels
use go_clean_arch_poc.Tasks.Ports.{TaskFilter, TaskListOutput}
use go_clean_arch_poc.Tasks.Reading as Reading
use go_clean_arch_poc.Tasks.Attachments as Attachments
use go_clean_arch_poc.Users.Ports.{UserFilter}
use go_clean_arch_poc.Users.Reading as UserReading
use go_clean_arch_poc.Users.Roles as Roles
use go_clean_arch_poc.Service.{Service, State, Context, Moment, on_tasks, on_users, task_state}
use go_clean_arch_poc.Graphql.Mapping.{
  Answer, PaginationInput, connection, or_else, pagination_from_input, role_to_graphql,
  user_connection_to_graphql, user_to_graphql,
}
use go_clean_arch_poc.Graphql.Resolver.{Outcome, answer, answer_task, enrich_tasks, require_auth}

-- The filter of tasks, with nil for what is not asked for.
pub record TaskFilterInput : Type 0 where
  pub status : Option GoString
  pub priority : Option GoString
  pub assignee_id : Option Uuid
  pub creator_id : Option Uuid
  pub label_ids : List Uuid
  pub search : Option GoString

abbrev pub no_filter : TaskFilter
no_filter = record {
  status = none;
  priority = none;
  assignee_id = none;
  creator_id = none;
  label_ids = [];
  search = [];
  is_overdue = none;
}

abbrev pub task_filter : Option TaskFilterInput → TaskFilter
task_filter none = no_filter
task_filter (some f) = record {
  status = f.status;
  priority = f.priority;
  assignee_id = f.assignee_id;
  creator_id = f.creator_id;
  label_ids = f.label_ids;
  search = or_else f.search [];
  is_overdue = none;
}

pub record UserFilterInput : Type 0 where
  pub search : Option GoString
  pub role_id : Option Uuid

abbrev pub user_filter : Option UserFilterInput → UserFilter
user_filter none = record { search = []; role_id = none }
user_filter (some f) = record { search = or_else f.search []; role_id = f.role_id }

module _ {C D F P : Type 0} (svc : Service C D F P) where
  abbrev pub Query : Type 0
  Query = Moment → Context → State C D F P → Outcome svc

  -- The nodes of a list of tasks, and where they stand in it.
  unfoldable pub task_connection : Moment → State C D F P × Result TaskListOutput → Outcome svc
  unfolding enrich_tasks connection
  task_connection at (s, err e) = (s, err e)
  task_connection at (s, ok list) =
      answer svc
        (λ nodes.
          Answer.tasks (connection nodes list.page list.page_size list.total_pages list.total))
        (enrich_tasks svc at.now list.tasks s)

  unfoldable pub task : Uuid → Query
  task id at ctx s = attempt (require_auth ctx) s <| λ _.
      answer_task svc at.now (on_tasks (Reading.get_task svc.tasks at.now id) s)

  unfoldable pub tasks : Option TaskFilterInput → Option PaginationInput → Query
  unfolding task_connection pagination_from_input
  tasks filter pagination at ctx s = attempt (require_auth ctx) s <| λ _. task_connection at (
      on_tasks
        (Reading.list_tasks svc.tasks at.now (task_filter filter)
          (pagination_from_input pagination))
        s)

  unfoldable pub overdue_tasks : Option PaginationInput → Query
  unfolding task_connection pagination_from_input
  overdue_tasks pagination at ctx s = attempt (require_auth ctx) s <| λ _. task_connection at (
    s,
    Reading.get_overdue_tasks svc.tasks at.now (pagination_from_input pagination) (task_state s),
  )

  unfoldable pub me : Query
  unfolding user_to_graphql
  me at ctx s = attempt (require_auth ctx) s <| λ claims.
      answer svc (λ u. Answer.user (user_to_graphql u))
        (on_users (UserReading.get_user svc.users at.now claims.user_id) s)

  unfoldable pub user : Uuid → Query
  unfolding user_to_graphql
  user id at ctx s = attempt (require_auth ctx) s <| λ _.
      answer svc (λ u. Answer.user (user_to_graphql u))
        (on_users (UserReading.get_user svc.users at.now id) s)

  unfoldable pub users : Option UserFilterInput → Option PaginationInput → Query
  unfolding user_connection_to_graphql pagination_from_input
  users filter pagination at ctx s = attempt (require_auth ctx) s <| λ _.
      answer svc (λ list. Answer.users (user_connection_to_graphql list))
        (on_users
          (UserReading.list_users svc.users at.now (user_filter filter)
            (pagination_from_input pagination))
          s)

  unfoldable pub roles : Query
  unfolding role_to_graphql
  roles at ctx s = attempt (require_auth ctx) s <| λ _.
      answer svc (λ rs. Answer.roles (map role_to_graphql rs))
        (s, Roles.list_roles svc.users.role_repo s.db)

  unfoldable pub role : Uuid → Query
  unfolding role_to_graphql
  role id at ctx s = attempt (require_auth ctx) s <| λ _.
      answer svc (λ r. Answer.role (role_to_graphql r))
        (s, Roles.get_role svc.users.role_repo id s.db)

  unfoldable pub label : Uuid → Query
  label id at ctx s = attempt (require_auth ctx) s <| λ _.
      answer svc Answer.label (s, Labels.get_label svc.label_repo svc.label_validator id s.db)

  unfoldable pub labels : Query
  labels at ctx s = attempt (require_auth ctx) s <| λ _.
      answer svc Answer.labels (s, Labels.list_labels svc.label_repo svc.label_validator s.db)

  unfoldable pub task_attachments : Uuid → Query
  task_attachments task_id at ctx s = attempt (require_auth ctx) s <| λ _.
      answer svc Answer.attachments
        (s, Attachments.list_task_attachments svc.tasks task_id (task_state s))

  unfoldable pub download_task_attachment : Uuid → Uuid → Query
  download_task_attachment task_id attachment_id at ctx s = attempt (require_auth ctx) s <| λ _.
      answer svc (λ found. Answer.download found.1 found.0)
        (on_tasks (Attachments.download_task_attachment svc.tasks task_id attachment_id) s)

  -- The field of a task, which asks for no token; a task that is gone has none.
  unfoldable pub attachments_of : Uuid → State C D F P → Outcome svc
  attachments_of id s = elim (Attachments.list_task_attachments svc.tasks id (task_state s)) [
    | ok found ↦ (s, ok (Answer.attachments found))
    | err e ↦ if is_not_found_error e then (s, ok (Answer.attachments [])) else (s, err e)
  ]
