-- ===== src/Rest/Router.antt =====
-- The routes (internal/transport/rest/router.go), but for the health check and the documentation, and
-- CORSMiddleware (internal/transport/rest/middleware/middleware.go). net/http picks the route for the
-- method and the path of a request; the other middleware logs, names the request and recovers.
use go_clean_arch_poc.Base.{bytes, [], ◌∷◌, str_eq, if◌then◌else◌}
use go_clean_arch_poc.Domain.Role.{role_admin, role_manager}
use go_clean_arch_poc.Domain.Role.Resource
use go_clean_arch_poc.Domain.Role.Action
use go_clean_arch_poc.Service.{Service}
use go_clean_arch_poc.Rest.Response.{HttpLib, Response}
use go_clean_arch_poc.Rest.Guards.{Handler, with_auth, with_any_role, with_permission}
use go_clean_arch_poc.Rest.TaskHandlers
use go_clean_arch_poc.Rest.UserHandlers
use go_clean_arch_poc.Rest.AuthHandlers
use go_clean_arch_poc.Rest.LabelHandlers

-- The routes of one task: `/api/v1/tasks/{id}` and below.
pub data TaskRoute : Type 0 where
  get update delete assign unassign complete archive change_status : TaskRoute
  add_label remove_label : TaskRoute
  upload_attachment list_attachments download_attachment delete_attachment : TaskRoute

pub data LabelRoute : Type 0 where
  list get create update delete : LabelRoute

-- The routes of one user: `/api/v1/users/{id}`, but for those of its roles.
pub data UserRoute : Type 0 where
  get update delete : UserRoute

pub data Route : Type 0 where
  login register refresh logout change_password : Route
  search_tasks overdue_tasks list_tasks create_task : Route
  of_task : TaskRoute → Route
  of_label : LabelRoute → Route
  list_users me : Route
  of_user : UserRoute → Route
  assign_role remove_role : Route

module _ {C D F P : Type 0} (svc : Service C D F P) (lib : HttpLib) where
  unfoldable pub task_handler : TaskRoute → Handler svc lib
  task_handler TaskRoute.get = TaskHandlers.get svc lib
  task_handler TaskRoute.update = TaskHandlers.update svc lib
  task_handler TaskRoute.delete = TaskHandlers.delete svc lib
  task_handler TaskRoute.assign = TaskHandlers.assign svc lib
  task_handler TaskRoute.unassign = TaskHandlers.unassign svc lib
  task_handler TaskRoute.complete = TaskHandlers.complete svc lib
  task_handler TaskRoute.archive = TaskHandlers.archive svc lib
  task_handler TaskRoute.change_status = TaskHandlers.change_status svc lib
  task_handler TaskRoute.add_label = TaskHandlers.add_task_label svc lib
  task_handler TaskRoute.remove_label = TaskHandlers.remove_task_label svc lib
  task_handler TaskRoute.upload_attachment = TaskHandlers.upload_attachment svc lib
  task_handler TaskRoute.list_attachments = TaskHandlers.list_attachments svc lib
  task_handler TaskRoute.download_attachment = TaskHandlers.download_attachment svc lib
  task_handler TaskRoute.delete_attachment = TaskHandlers.delete_attachment svc lib

  unfoldable pub label_handler : LabelRoute → Handler svc lib
  unfolding with_auth with_any_role
  label_handler LabelRoute.list = with_auth svc lib (LabelHandlers.list svc lib)
  label_handler LabelRoute.get = with_auth svc lib (LabelHandlers.get svc lib)
  label_handler LabelRoute.create =
      with_any_role svc lib (LabelHandlers.create svc lib) (role_admin ∷ role_manager ∷ [])
  label_handler LabelRoute.update =
      with_any_role svc lib (LabelHandlers.update svc lib) (role_admin ∷ role_manager ∷ [])
  label_handler LabelRoute.delete =
      with_any_role svc lib (LabelHandlers.delete svc lib) (role_admin ∷ role_manager ∷ [])

  unfoldable pub user_handler : UserRoute → Handler svc lib
  user_handler UserRoute.get = UserHandlers.get svc lib
  user_handler UserRoute.update = UserHandlers.update svc lib
  user_handler UserRoute.delete = UserHandlers.delete svc lib

  unfoldable pub endpoint : Route → Handler svc lib
  unfolding with_auth with_permission task_handler user_handler label_handler
  endpoint Route.login = AuthHandlers.login svc lib
  endpoint Route.register = AuthHandlers.register_user svc lib
  endpoint Route.refresh = AuthHandlers.refresh svc lib
  endpoint Route.logout = with_auth svc lib (AuthHandlers.logout svc lib)
  endpoint Route.change_password = with_auth svc lib (AuthHandlers.change_password svc lib)
  endpoint Route.search_tasks = with_auth svc lib (TaskHandlers.search svc lib)
  endpoint Route.overdue_tasks = with_auth svc lib (TaskHandlers.overdue svc lib)
  endpoint Route.list_tasks = with_auth svc lib (TaskHandlers.list svc lib)
  endpoint Route.create_task =
      with_permission svc lib Resource.tasks Action.create (TaskHandlers.create svc lib)
  endpoint (Route.of_task route) = with_auth svc lib (task_handler route)
  endpoint (Route.of_label route) = label_handler route
  endpoint Route.list_users =
      with_permission svc lib Resource.users Action.read (UserHandlers.list svc lib)
  endpoint Route.me = with_auth svc lib (UserHandlers.me svc lib)
  endpoint (Route.of_user route) = with_auth svc lib (user_handler route)
  endpoint Route.assign_role =
      with_permission svc lib Resource.users Action.update (UserHandlers.assign_user_role svc lib)
  endpoint Route.remove_role =
      with_permission svc lib Resource.users Action.update (UserHandlers.remove_user_role svc lib)

  unfoldable pub cors_middleware : Handler svc lib → Handler svc lib
  cors_middleware next at ctx req s =
      if str_eq req.method (bytes "OPTIONS") then (s, Response.empty 200) else next at ctx req s

  unfoldable pub serve : Route → Handler svc lib
  unfolding cors_middleware endpoint
  serve route = cors_middleware (endpoint route)
