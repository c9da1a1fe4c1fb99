-- ===== src/Rest/Access.antt =====
-- Who gets past the guards of a route (internal/transport/rest/router.go and handler).
use go_clean_arch_poc.Base.{
  GoString, String, bytes, true, false, ◌≡◌, refl, arith, Option, none, some, [], ◌∷◌, ◌⊎◌, inl,
  inr, str_eq,
}
use go_clean_arch_poc.Domain.Error.{ok}
use go_clean_arch_poc.Domain.Task.{Uuid}
use go_clean_arch_poc.Domain.Acl.{
  AclPermission, permission_read, permission_write, permission_delete,
}
use go_clean_arch_poc.Domain.Role.{role_admin, role_manager}
use go_clean_arch_poc.Domain.Role.Resource
use go_clean_arch_poc.Domain.Role.Resource.{ResourceType}
use go_clean_arch_poc.Domain.Role.Action
use go_clean_arch_poc.Domain.Role.Action.{PermissionAction}
use go_clean_arch_poc.Auth.Acl.{can_access}
use go_clean_arch_poc.Auth.Jwt.{TokenClaims}
use go_clean_arch_poc.Auth.Rbac.{has_permission_from_claims, has_any_role_from_claims}
use go_clean_arch_poc.Service.{Service, State, Context, Moment}
use go_clean_arch_poc.Rest.Response.{HttpLib, Request, Response, error_response}
use go_clean_arch_poc.Rest.Guards.{Handler, check_acl, with_any_role, with_auth}
use go_clean_arch_poc.Rest.Replies.{given, allowed}
use go_clean_arch_poc.Rest.TaskHandlers
use go_clean_arch_poc.Rest.UserHandlers
use go_clean_arch_poc.Rest.AuthHandlers
use go_clean_arch_poc.Rest.LabelHandlers
use go_clean_arch_poc.Rest.Router.{
  LabelRoute, Route, TaskRoute, UserRoute, endpoint, label_handler, serve, task_handler,
  user_handler,
}
use go_clean_arch_poc.Rest.Refusals.{
  IsRefused, IsCaller, check_acl-cases, claims_context, with_any_role-cases, with_auth-cases,
  with_permission-cases,
}

-- What a user has to be granted on the task, or the user, that a route is about.
abbrev pub permission_of : TaskRoute → AclPermission
permission_of TaskRoute.get = permission_read
permission_of TaskRoute.list_attachments = permission_read
permission_of TaskRoute.download_attachment = permission_read
permission_of TaskRoute.delete = permission_delete
permission_of _ = permission_write

abbrev pub user_permission_of : UserRoute → AclPermission
user_permission_of UserRoute.get = permission_read
user_permission_of UserRoute.update = permission_write
user_permission_of UserRoute.delete = permission_delete

module _ {C D F P : Type 0} (svc : Service C D F P) (lib : HttpLib) where
  -- The steps before the body of a handler of one resource.
  with_resource :
      (resource_type : ResourceType) (denied bad_id : String) (permission : AclPermission)
      (token : GoString) (claims : TokenClaims) (found : Option Uuid) (s : State C D F P)
      (next : Uuid → State C D F P × Response)
      → IsRefused s (
          given found bad_id s (λ id.
            allowed
              (check_acl svc lib resource_type denied (claims_context claims token) id permission s)
              s
              (next id)))
        ⊎ ((id : Uuid) × (found ≡ some id)
            × (can_access svc.acl_repo claims.user_id claims.role_ids resource_type id permission
                  s.db
                ≡ ok true))
  unfolding error_response
  with_resource resource_type denied bad_id permission token claims none s next =
      inl (refl, omega arith)
  with_resource resource_type denied bad_id permission token claims (some id) s next =
      elim (check_acl-cases svc lib resource_type denied claims token id permission s) [
        | inl (r, e, l) ↦ inl (rw e (refl, l))
        | inr granted ↦ inr (id, refl, granted)
      ]

  module _ (at : Moment) (req : Request) (s : State C D F P) where
    -- The request carries a valid token, with claims of which `Q` holds.
    abbrev pub Bears : (TokenClaims → Type 0) → Type 0
    Bears Q =
        (token : GoString) × (claims : TokenClaims) × IsCaller svc lib at req s token claims
        × Q claims

    -- The user of the token has been granted the permission on the resource whose id is in the path.
    abbrev pub IsGranted : ResourceType → AclPermission → TokenClaims → Type 0
    IsGranted resource_type permission claims =
        (id : Uuid) × (svc.uuids.parse (req.path_value (bytes "id")) ≡ some id)
        × (can_access svc.acl_repo claims.user_id claims.role_ids resource_type id permission s.db
            ≡ ok true)

    abbrev pub IsPermitted : ResourceType → PermissionAction → TokenClaims → Type 0
    IsPermitted resource action claims =
        has_permission_from_claims svc.authorizer claims.roles claims.permissions resource action
        ≡ true

    abbrev pub IsEditor : TokenClaims → Type 0
    IsEditor claims = has_any_role_from_claims claims.roles (role_admin ∷ role_manager ∷ []) ≡ true

    abbrev pub IsAnyone : TokenClaims → Type 0
    IsAnyone claims = Unit {0}

    -- Who may use a route.
    abbrev pub IsAllowed : Route → Type 0
    IsAllowed Route.login = Unit {0}
    IsAllowed Route.register = Unit {0}
    IsAllowed Route.refresh = Unit {0}
    IsAllowed Route.create_task = Bears (IsPermitted Resource.tasks Action.create)
    IsAllowed (Route.of_task route) = Bears (IsGranted Resource.task (permission_of route))
    IsAllowed (Route.of_label LabelRoute.create) = Bears IsEditor
    IsAllowed (Route.of_label LabelRoute.update) = Bears IsEditor
    IsAllowed (Route.of_label LabelRoute.delete) = Bears IsEditor
    IsAllowed Route.list_users = Bears (IsPermitted Resource.users Action.read)
    IsAllowed (Route.of_user route) = Bears (IsGranted Resource.user (user_permission_of route))
    IsAllowed Route.assign_role = Bears (IsPermitted Resource.users Action.update)
    IsAllowed Route.remove_role = Bears (IsPermitted Resource.users Action.update)
    IsAllowed _ = Bears IsAnyone

    task_handler-allowed :
        (route : TaskRoute) (token : GoString) (claims : TokenClaims)
        → IsRefused s (task_handler svc lib route at (claims_context claims token) req s)
          ⊎ IsGranted Resource.task (permission_of route) claims
    unfolding task_handler TaskHandlers.get TaskHandlers.update TaskHandlers.delete
        TaskHandlers.assign TaskHandlers.unassign TaskHandlers.complete TaskHandlers.archive
        TaskHandlers.change_status TaskHandlers.add_task_label TaskHandlers.remove_task_label
        TaskHandlers.upload_attachment TaskHandlers.list_attachments
        TaskHandlers.download_attachment TaskHandlers.delete_attachment
    task_handler-allowed TaskRoute.get token claims =
        with_resource Resource.task "You do not have permission for this task" "Invalid task ID"
          permission_read token claims (svc.uuids.parse (req.path_value (bytes "id"))) s _
    task_handler-allowed route token claims =
        with_resource Resource.task "You do not have permission for this task" "Invalid task ID"
          (permission_of route) token claims (svc.uuids.parse (req.path_value (bytes "id"))) s _

    user_handler-allowed :
        (route : UserRoute) (token : GoString) (claims : TokenClaims)
        → IsRefused s (user_handler svc lib route at (claims_context claims token) req s)
          ⊎ IsGranted Resource.user (user_permission_of route) claims
    unfolding user_handler UserHandlers.get UserHandlers.update UserHandlers.delete
    user_handler-allowed UserRoute.get token claims =
        with_resource Resource.user "You do not have permission for this user" "Invalid user ID"
          permission_read token claims (svc.uuids.parse (req.path_value (bytes "id"))) s _
    user_handler-allowed route token claims =
        with_resource Resource.user "You do not have permission for this user" "Invalid user ID"
          (user_permission_of route) token claims (svc.uuids.parse (req.path_value (bytes "id"))) s
          _

    module _ (ctx : Context) (m : str_eq req.method (bytes "OPTIONS") ≡ false) where
      of_IsAnyone :
          (next : Handler svc lib)
          → IsRefused s (with_auth svc lib next at ctx req s) ⊎ Bears IsAnyone
      of_IsAnyone next = elim (with_auth-cases svc lib at req s next ctx m) [
        | inl r ↦ inl r
        | inr (token, claims, v, e) ↦ inr (token, claims, v, tt)
      ]

      of_IsEditor :
          (next : Handler svc lib)
          → IsRefused s (with_any_role svc lib next (role_admin ∷ role_manager ∷ []) at ctx req s)
            ⊎ Bears IsEditor
      of_IsEditor next =
          with_any_role-cases svc lib at req s (role_admin ∷ role_manager ∷ []) next ctx m

      guarded_by :
          (next : Handler svc lib) (Q : TokenClaims → Type 0)
          → ((token : GoString) (claims : TokenClaims)
              → IsRefused s (next at (claims_context claims token) req s) ⊎ Q claims)
          → IsRefused s (with_auth svc lib next at ctx req s) ⊎ Bears Q
      guarded_by next Q body = elim (with_auth-cases svc lib at req s next ctx m) [
        | inl r ↦ inl r
        | inr (token, claims, v, e) ↦ elim (body token claims) [
          | inl r ↦ inl (rw e r)
          | inr q ↦ inr (token, claims, v, q)
        ]
      ]

      label_handler-IsAllowed :
          (route : LabelRoute)
          → IsRefused s (label_handler svc lib route at ctx req s)
            ⊎ IsAllowed (Route.of_label route)
      unfolding label_handler
      label_handler-IsAllowed LabelRoute.list = of_IsAnyone (LabelHandlers.list svc lib)
      label_handler-IsAllowed LabelRoute.get = of_IsAnyone (LabelHandlers.get svc lib)
      label_handler-IsAllowed LabelRoute.create = of_IsEditor (LabelHandlers.create svc lib)
      label_handler-IsAllowed LabelRoute.update = of_IsEditor (LabelHandlers.update svc lib)
      label_handler-IsAllowed LabelRoute.delete = of_IsEditor (LabelHandlers.delete svc lib)

      endpoint-IsAllowed :
          (route : Route) → IsRefused s (endpoint svc lib route at ctx req s) ⊎ IsAllowed route
      unfolding endpoint
      endpoint-IsAllowed Route.login = inr tt
      endpoint-IsAllowed Route.register = inr tt
      endpoint-IsAllowed Route.refresh = inr tt
      endpoint-IsAllowed Route.logout = of_IsAnyone (AuthHandlers.logout svc lib)
      endpoint-IsAllowed Route.change_password = of_IsAnyone (AuthHandlers.change_password svc lib)
      endpoint-IsAllowed Route.search_tasks = of_IsAnyone (TaskHandlers.search svc lib)
      endpoint-IsAllowed Route.overdue_tasks = of_IsAnyone (TaskHandlers.overdue svc lib)
      endpoint-IsAllowed Route.list_tasks = of_IsAnyone (TaskHandlers.list svc lib)
      endpoint-IsAllowed Route.create_task =
          with_permission-cases svc lib at req s Resource.tasks Action.create
            (TaskHandlers.create svc lib) ctx m
      endpoint-IsAllowed (Route.of_task route) =
          guarded_by (task_handler svc lib route) (IsGranted Resource.task (permission_of route))
            (task_handler-allowed route)
      endpoint-IsAllowed (Route.of_label route) = label_handler-IsAllowed route
      endpoint-IsAllowed Route.list_users =
          with_permission-cases svc lib at req s Resource.users Action.read
            (UserHandlers.list svc lib) ctx m
      endpoint-IsAllowed Route.me = of_IsAnyone (UserHandlers.me svc lib)
      endpoint-IsAllowed (Route.of_user route) =
          guarded_by (user_handler svc lib route)
            (IsGranted Resource.user (user_permission_of route)) (user_handler-allowed route)
      endpoint-IsAllowed Route.assign_role =
          with_permission-cases svc lib at req s Resource.users Action.update
            (UserHandlers.assign_user_role svc lib) ctx m
      endpoint-IsAllowed Route.remove_role =
          with_permission-cases svc lib at req s Resource.users Action.update
            (UserHandlers.remove_user_role svc lib) ctx m

      -- Every route of REST, asked by another method than OPTIONS, either refuses the request with
      -- a status of 400 or more and changes nothing, or is open to anyone (login, register,
      -- refresh), or was asked with an Authorization header that is Bearer, in any case, a space
      -- and a token, which ValidateToken accepts and whose claims have what the route demands: for
      -- a task or a user, the access to it; for the creation of a task, the list of users and the
      -- roles of a user, the permission; for a change of a label, the role admin or manager.
      pub serve-IsAllowed :
          (route : Route) → IsRefused s (serve svc lib route at ctx req s) ⊎ IsAllowed route
      unfolding serve
      serve-IsAllowed route = rw m (endpoint-IsAllowed route)
