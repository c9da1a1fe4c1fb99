-- ===== src/Rest/AuthHandlers.antt =====
-- AuthHandler (internal/transport/rest/handler/auth_handler.go).
use go_clean_arch_poc.Base.{none, some, ◌<|◌}
use go_clean_arch_poc.Auth.Sessions
use go_clean_arch_poc.Auth.Sessions.{register}
use go_clean_arch_poc.Service.{Service, on_auth}
use go_clean_arch_poc.Rest.Response.{HttpLib, Payload}
use go_clean_arch_poc.Rest.Guards.{Handler, refuse}
use go_clean_arch_poc.Rest.Replies.{given, answer, answer_empty}

module _ {C D F P : Type 0} (svc : Service C D F P) (lib : HttpLib) where
  unfoldable pub login : Handler svc lib
  login at ctx req s = given (lib.login req.body) "Invalid request body" s <| λ input.
      answer lib 200 Payload.auth
        (on_auth (Sessions.login svc.auth at.now at.first_id at.second_id input) s)

  unfoldable pub register_user : Handler svc lib
  register_user at ctx req s = given (lib.create_user req.body) "Invalid request body" s <| λ input.
      answer lib 201 Payload.auth
        (on_auth (register svc.auth at.now at.first_id at.salt at.second_id at.third_id input) s)

  unfoldable pub refresh : Handler svc lib
  refresh at ctx req s = given (lib.refresh_token req.body) "Invalid request body" s <| λ token.
      answer lib 200 Payload.auth
        (on_auth (Sessions.refresh_token svc.auth at.now at.first_id at.second_id token) s)

  unfoldable pub logout : Handler svc lib
  logout at ctx req s = elim ctx.claims [
    | none ↦ (s, refuse 401 "User not authenticated")
    | some claims ↦
        answer_empty lib 204 (on_auth (Sessions.logout svc.auth at.now claims.user_id ctx.token) s)
  ]

  unfoldable pub change_password : Handler svc lib
  change_password at ctx req s = elim ctx.claims [
    | none ↦ (s, refuse 401 "User not authenticated")
    | some claims ↦ given (lib.change_password req.body) "Invalid request body" s <| λ input.
        answer_empty lib 204
          (on_auth (Sessions.change_password svc.auth at.now at.salt claims.user_id input) s)
  ]
