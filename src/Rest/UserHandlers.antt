-- ===== src/Rest/UserHandlers.antt =====
-- UserHandler (internal/transport/rest/handler/user_handler.go).
use go_clean_arch_poc.Base.{bytes, Option, none, some, ◌<|◌}
use go_clean_arch_poc.Domain.Task.{Uuid}
use go_clean_arch_poc.Domain.Acl.{
  AclPermission, permission_read, permission_write, permission_delete,
}
use go_clean_arch_poc.Domain.Role.Resource
use go_clean_arch_poc.Users.Operations.{update_user, delete_user, assign_role, remove_role}
use go_clean_arch_poc.Users.Reading.{get_user, list_users}
use go_clean_arch_poc.Service.{Service, State, Context, on_users}
use go_clean_arch_poc.Rest.Response.{HttpLib, Request, Payload, Response}
use go_clean_arch_poc.Rest.Query.{parse_pagination}
use go_clean_arch_poc.Rest.Guards.{Handler, check_acl, refuse}
use go_clean_arch_poc.Rest.Replies.{parsed, given, allowed, answer, answer_empty}
use go_clean_arch_poc.Rest.TaskHandlers.{id_in}

module _ {C D F P : Type 0} (svc : Service C D F P) (lib : HttpLib) where
  abbrev pub user_acl : Context → Uuid → AclPermission → State C D F P → Option Response
  user_acl ctx id permission s =
      check_acl svc lib Resource.user "You do not have permission for this user" ctx id permission s

  -- The id in the path, and the access to that user.
  abbrev pub with_user :
      AclPermission
      → Context
      → Request
      → State C D F P
      → (Uuid → State C D F P × Response)
      → State C D F P × Response
  with_user permission ctx req s next =
      given (id_in svc lib req (bytes "id")) "Invalid user ID" s <| λ id.
      allowed (user_acl ctx id permission s) s <| next id

  -- The ids of the user and the role in the path.
  abbrev with_user_and_role :
      Request → State C D F P → (Uuid → Uuid → State C D F P × Response) → State C D F P × Response
  with_user_and_role req s next =
      given (id_in svc lib req (bytes "id")) "Invalid user ID" s <| λ id.
      given (id_in svc lib req (bytes "roleId")) "Invalid role ID" s <| λ role_id. next id role_id

  unfoldable pub list : Handler svc lib
  unfolding parse_pagination
  list at ctx req s = parsed (parse_pagination lib req) s <| λ pagination.
      answer lib 200 Payload.users (
        on_users
          (list_users svc.users at.now
            (record { search = req.query (bytes "search"); role_id = none }) pagination)
          s)

  unfoldable pub get : Handler svc lib
  unfolding check_acl
  get at ctx req s = with_user permission_read ctx req s <| λ id.
      answer lib 200 Payload.user (on_users (get_user svc.users at.now id) s)

  unfoldable pub me : Handler svc lib
  me at ctx req s = elim ctx.claims [
    | none ↦ (s, refuse 401 "User not authenticated")
    | some claims ↦
        answer lib 200 Payload.user (on_users (get_user svc.users at.now claims.user_id) s)
  ]

  unfoldable pub update : Handler svc lib
  unfolding check_acl
  update at ctx req s = with_user permission_write ctx req s <| λ id.
      given (lib.update_user req.body) "Invalid request body" s <| λ input.
      answer lib 200 Payload.user (on_users (update_user svc.users at.now id input) s)

  unfoldable pub delete : Handler svc lib
  unfolding check_acl
  delete at ctx req s = with_user permission_delete ctx req s <| λ id.
      answer_empty lib 204 (on_users (delete_user svc.users id) s)

  unfoldable pub assign_user_role : Handler svc lib
  assign_user_role at ctx req s = with_user_and_role req s <| λ id role_id.
      answer lib 200 Payload.user (on_users (assign_role svc.users at.now id role_id) s)

  unfoldable pub remove_user_role : Handler svc lib
  remove_user_role at ctx req s = with_user_and_role req s <| λ id role_id.
      answer lib 200 Payload.user (on_users (remove_role svc.users at.now id role_id) s)
