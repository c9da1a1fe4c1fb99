-- ===== src/Rest/Guards.antt =====
-- What stands before a handler: withAuth of internal/transport/rest/router.go, the middleware of
-- internal/auth/middleware.go, and checkACL of the handlers. The headers of a response are left out.
use go_clean_arch_poc.Base.{
  ℕ, GoString, String, bytes, true, false, not, ◌⊎◌, inl, inr, Option, none, some, List, [], ◌∷◌,
  ◌==◌, str_eq, split, if◌then◌else◌,
}
use go_clean_arch_poc.Domain.Error.{Result, ok, err}
use go_clean_arch_poc.Domain.Task.{Uuid, Time}
use go_clean_arch_poc.Domain.Acl.{AclPermission}
use go_clean_arch_poc.Domain.Role.Resource.{ResourceType}
use go_clean_arch_poc.Domain.Role.Action.{PermissionAction}
use go_clean_arch_poc.Auth.Acl.{can_access}
use go_clean_arch_poc.Auth.Jwt.{TokenClaims}
use go_clean_arch_poc.Auth.Rbac.{
  has_permission_from_claims, has_role_from_claims, has_any_role_from_claims,
}
use go_clean_arch_poc.Auth.Sessions.{validate_access_token}
use go_clean_arch_poc.Service.{Service, State, Context, Moment, auth_state}
use go_clean_arch_poc.Rest.Response.{HttpLib, Request, Response, Message, error_response}

-- strings.SplitN(s, " ", 2), where it gives two parts.
unfoldable pub cut : ℕ → GoString → Option (GoString × GoString)
cut sep [] = none
cut sep (c ∷ s) =
    let rest = cut sep s in
    if c == sep
    then some ([], s)
    else elim rest [ none ↦ none | some (before, after) ↦ some (c ∷ before, after) ]

-- The token after the scheme, of strings.Split(s, " ").
abbrev pub two_parts : List GoString → Option (GoString × GoString)
two_parts (scheme ∷ token ∷ []) = some (scheme, token)
two_parts _ = none

abbrev pub refuse : ℕ → String → Response
refuse n message = error_response n (Message.text message)

abbrev pub no_context : Context
no_context = record { claims = none; token = [] }

module _ {C D F P : Type 0} (svc : Service C D F P) (lib : HttpLib) where
  abbrev pub Handler : Type 0
  Handler = Moment → Context → Request → State C D F P → State C D F P × Response

  abbrev pub bearer_of : Option (GoString × GoString) → Option GoString
  bearer_of none = none
  bearer_of (some (scheme, token)) =
      if not (str_eq (lib.to_lower scheme) (bytes "bearer")) then none else some token

  -- The check of the token, once the header has been read.
  unfoldable pub validated : Time → GoString → State C D F P → Result TokenClaims
  validated now token s = validate_access_token svc.auth now token (auth_state s)

  abbrev pub authenticated : Time → Option GoString → State C D F P → Response ⊎ Context
  unfolding validated
  authenticated now none s = inl (refuse 401 "Invalid authorization header format")
  authenticated now (some token) s = elim (validated now token s) [
    | err _ ↦ inl (refuse 401 "Invalid or expired token")
    | ok claims ↦ inr (record { claims = some claims; token = token })
  ]

  unfoldable pub with_auth : Handler → Handler
  unfolding cut validated
  with_auth next at ctx req s =
      if str_eq req.method (bytes "OPTIONS")
      then (s, Response.empty 200)
      else if str_eq req.authorization []
      then (s, refuse 401 "Missing authorization header")
      else elim (authenticated at.now (bearer_of (cut b' ' req.authorization)) s) [
        | inl r ↦ (s, r)
        | inr ctx' ↦ next at ctx' req s
      ]

  -- Middleware.Authenticate, which splits at every space.
  unfoldable pub authenticate : Handler → Handler
  unfolding validated
  authenticate next at ctx req s =
      if str_eq req.authorization []
      then (s, refuse 401 "Missing authorization header")
      else elim (authenticated at.now (bearer_of (two_parts (split b' ' req.authorization))) s) [
        | inl r ↦ (s, r)
        | inr ctx' ↦ next at ctx' req s
      ]

  -- Middleware.AuthenticateOptional.
  unfoldable pub authenticate_optional : Handler → Handler
  unfolding validated
  authenticate_optional next at ctx req s =
      if str_eq req.authorization []
      then next at ctx req s
      else elim (authenticated at.now (bearer_of (two_parts (split b' ' req.authorization))) s) [
        | inl _ ↦ next at ctx req s
        | inr ctx' ↦ next at ctx' req s
      ]

  unfoldable pub require_permission : ResourceType → PermissionAction → Handler → Handler
  require_permission resource action next at ctx req s = elim ctx.claims [
    | none ↦ (s, refuse 401 "Authentication required")
    | some claims ↦
        if not (
          has_permission_from_claims svc.authorizer claims.roles claims.permissions resource action)
        then (s, refuse 403 "Insufficient permissions")
        else next at ctx req s
  ]

  unfoldable pub require_role : GoString → Handler → Handler
  require_role role_name next at ctx req s = elim ctx.claims [
    | none ↦ (s, refuse 401 "Authentication required")
    | some claims ↦
        if not (has_role_from_claims claims.roles role_name)
        then (s, refuse 403 "Insufficient role")
        else next at ctx req s
  ]

  unfoldable pub require_any_role : List GoString → Handler → Handler
  require_any_role role_names next at ctx req s = elim ctx.claims [
    | none ↦ (s, refuse 401 "Authentication required")
    | some claims ↦
        if not (has_any_role_from_claims claims.roles role_names)
        then (s, refuse 403 "Insufficient role")
        else next at ctx req s
  ]

  unfoldable pub require_resource_permission :
      ResourceType → AclPermission → GoString → Handler → Handler
  require_resource_permission resource_type permission id_param next at ctx req s =
      elim ctx.claims [
        | none ↦ (s, refuse 401 "Authentication required")
        | some claims ↦
            if str_eq (req.path_value id_param) []
            then (s, refuse 400 "Resource ID missing")
            else elim (svc.uuids.parse (req.path_value id_param)) [
              | none ↦ (s, refuse 400 "Invalid resource ID")
              | some id ↦
                  elim (can_access svc.acl_repo claims.user_id claims.role_ids resource_type id
                    permission s.db) [
                      | err _ ↦ (s, refuse 500 "Error checking access")
                      | ok true ↦ next at ctx req s
                      | ok false ↦ (s, refuse 403 "Insufficient permissions for this resource")
                    ]
            ]
      ]

  -- TaskHandler.checkACL and UserHandler.checkACL: none lets the handler go on.
  unfoldable pub check_acl :
      ResourceType → String → Context → Uuid → AclPermission → State C D F P → Option Response
  check_acl resource_type denied ctx resource_id permission s = elim ctx.claims [
    | none ↦ some (refuse 401 "Authentication required")
    | some claims ↦
        elim (can_access svc.acl_repo claims.user_id claims.role_ids resource_type resource_id
          permission s.db) [
            | err _ ↦ some (refuse 500 "Internal server error")
            | ok true ↦ none
            | ok false ↦ some (refuse 403 denied)
          ]
  ]

  unfoldable pub with_any_role : Handler → List GoString → Handler
  unfolding require_any_role with_auth
  with_any_role h role_names = with_auth (require_any_role role_names h)

  unfoldable pub with_permission : ResourceType → PermissionAction → Handler → Handler
  unfolding require_permission with_auth
  with_permission resource action h = with_auth (require_permission resource action h)
