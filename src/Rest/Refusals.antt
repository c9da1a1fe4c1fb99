-- ===== src/Rest/Refusals.antt =====
-- What the guards before a handler let through (internal/transport/rest/router.go,
-- internal/auth/middleware.go).
use go_clean_arch_poc.Base.{
  ℕ, ◌≤◌, ◌∷◌, ◌++◌, ◌==◌, has_byte, GoString, String, bytes, Bool, true, false, ◌≡◌, refl, arith,
  Option, none, some, List, [], ◌⊎◌, inl, inr, str_eq, Bool-cases,
}
use go_clean_arch_poc.Domain.Error.{Error, Result, ok, err}
use go_clean_arch_poc.Domain.Task.{Uuid, Time}
use go_clean_arch_poc.Domain.Acl.{AclPermission}
use go_clean_arch_poc.Domain.Role.Resource.{ResourceType}
use go_clean_arch_poc.Domain.Role.Action.{PermissionAction}
use go_clean_arch_poc.Auth.Acl.{can_access}
use go_clean_arch_poc.Auth.Jwt.{TokenClaims}
use go_clean_arch_poc.Auth.Rbac.{has_permission_from_claims, has_any_role_from_claims}
use go_clean_arch_poc.Auth.Sessions.{validate_access_token}
use go_clean_arch_poc.Service.{Service, State, Context, Moment, auth_state}
use go_clean_arch_poc.Rest.Response.{
  HttpLib, Request, Response, status, error_response, handle_error,
}
use go_clean_arch_poc.Rest.Guards.{
  Handler, authenticated, bearer_of, check_acl, cut, refuse, require_any_role, require_permission,
  validated, with_auth, with_any_role, with_permission,
}

pub handle_error-le : (lib : HttpLib) (e : Error) → 400 ≤ status (handle_error lib e)
unfolding handle_error error_response
handle_error-le lib e = ground arith

-- An error, and nothing has changed.
abbrev pub IsRefused : {S : Type 0} → S → S × Response → Type 0
IsRefused s (s', r) = (s' ≡ s) × (400 ≤ status r)

abbrev pub claims_context : TokenClaims → GoString → Context
claims_context claims token = record { claims = some claims; token = token }

cut-append :
    (sep : ℕ) (s before after : GoString)
    → cut sep s ≡ some (before, after)
    → (s ≡ before ++ sep ∷ after) × (has_byte sep before ≡ false)
unfolding cut
cut-append sep [] before after h = ground arith
cut-append sep (c ∷ s) before after h = by_rest (cut sep s) refl (cut-append sep s)
  where
    by_rest :
        (o : Option (GoString × GoString))
        → cut sep s ≡ o
        → ((x y : GoString)
            → cut sep s ≡ some (x, y)
            → (s ≡ x ++ sep ∷ y) × (has_byte sep x ≡ false))
        → (c ∷ s ≡ before ++ sep ∷ after) × (has_byte sep before ≡ false)
    by_rest none e k = elim (Bool-cases (c == sep)) [
      | inl q ↦ ground (arith, h, e, q)
      | inr q ↦ ground (arith, h, e, q)
    ]
    by_rest (some (b, a)) e k = elim (Bool-cases (c == sep)) [
      | inl q ↦ ground (arith, h, e, q)
      | inr q ↦ ground (arith, h, e, q, k b a e)
    ]

-- The header is the scheme Bearer, in any case, a space, and the token.
abbrev pub IsBearer : HttpLib → GoString → GoString → Type 0
IsBearer lib header token =
    (scheme : GoString) × (header ≡ scheme ++ b' ' ∷ token)
    × (has_byte b' ' scheme ≡ false)
    × (lib.to_lower scheme ≡ bytes "bearer")

module _ {C D F P : Type 0} (svc : Service C D F P) (lib : HttpLib) where
  bearer_of-IsBearer :
      (header token : GoString)
      → bearer_of svc lib (cut b' ' header) ≡ some token
      → IsBearer lib header token
  bearer_of-IsBearer header token h = by_parts (cut b' ' header) refl
    where
      by_parts :
          (o : Option (GoString × GoString)) → cut b' ' header ≡ o → IsBearer lib header token
      by_parts none e = ground (arith, h, e)
      by_parts (some (scheme, rest)) e =
          let (x, n) = cut-append b' ' header scheme rest e in
          let same : rest ≡ token = ground (arith, h, e) in
          (scheme, rw same at x, n, ground (arith, h, e))

  -- The token is valid, with these claims.
  abbrev pub IsToken : Time → State C D F P → GoString → TokenClaims → Type 0
  IsToken now s token claims = validate_access_token svc.auth now token (auth_state s) ≡ ok claims

  authenticated-cases :
      (now : Time) (o : Option GoString) (s : State C D F P)
      → ((r : Response) × (authenticated svc lib now o s ≡ inl r) × (400 ≤ status r))
        ⊎ ((token : GoString) × (claims : TokenClaims) × (o ≡ some token)
            × IsToken now s token claims
            × (authenticated svc lib now o s ≡ inr (claims_context claims token)))
  unfolding validated error_response
  authenticated-cases now none s =
      inl (refuse 401 "Invalid authorization header format", refl, omega arith)
  authenticated-cases now (some token) s =
      by_result (validate_access_token svc.auth now token (auth_state s)) refl
    where
      by_result :
          (v : Result TokenClaims)
          → validate_access_token svc.auth now token (auth_state s) ≡ v
          → ((r : Response) × (authenticated svc lib now (some token) s ≡ inl r) × (400 ≤ status r))
            ⊎ ((t : GoString) × (claims : TokenClaims) × (some token ≡ some t)
                × IsToken now s t claims
                × (authenticated svc lib now (some token) s ≡ inr (claims_context claims t)))
      by_result (ok claims) e = inr (token, claims, refl, e, rw (e, authenticated))
      by_result (err x) e =
          inl (refuse 401 "Invalid or expired token", rw (e, authenticated), omega arith)

  module _ (at : Moment) (req : Request) (s : State C D F P) where
    -- The request carries the token, and it is valid, with these claims.
    abbrev pub IsCaller : GoString → TokenClaims → Type 0
    IsCaller token claims = IsBearer lib req.authorization token × IsToken at.now s token claims

    abbrev pub IsLet : Handler svc lib → State C D F P × Response → Type 0
    IsLet next out =
        (token : GoString) × (claims : TokenClaims) × IsCaller token claims
        × (out ≡ next at (claims_context claims token) req s)

    pub with_auth-cases :
        (next : Handler svc lib) (ctx : Context)
        → str_eq req.method (bytes "OPTIONS") ≡ false
        → IsRefused s (with_auth svc lib next at ctx req s)
          ⊎ IsLet next (with_auth svc lib next at ctx req s)
    unfolding with_auth error_response
    with_auth-cases next ctx m = elim (Bool-cases (str_eq req.authorization [])) [
      | inl e ↦ inl (rw (m, e) (refl, omega arith))
      | inr e ↦
          elim (authenticated-cases at.now (bearer_of svc lib (cut b' ' req.authorization)) s) [
            | inl (r, a, l) ↦ inl (rw (m, e, a) (refl, l))
            | inr (token, claims, o, v, a) ↦
                inr (token, claims, (bearer_of-IsBearer _ token o, v), rw (m, e, a))
          ]
    ]

    pub with_permission-cases :
        (resource : ResourceType) (action : PermissionAction) (next : Handler svc lib)
        (ctx : Context)
        → str_eq req.method (bytes "OPTIONS") ≡ false
        → IsRefused s (with_permission svc lib resource action next at ctx req s)
          ⊎ ((token : GoString) × (claims : TokenClaims) × IsCaller token claims
              × (has_permission_from_claims svc.authorizer claims.roles claims.permissions resource
                    action
                  ≡ true))
    unfolding with_permission require_permission error_response
    with_permission-cases resource action next ctx m =
        elim (with_auth-cases (require_permission svc lib resource action next) ctx m) [
          | inl r ↦ inl r
          | inr (token, claims, v, e) ↦
              elim (Bool-cases (
                has_permission_from_claims svc.authorizer claims.roles claims.permissions resource
                  action)) [
                    | inl p ↦ inr (token, claims, v, p)
                    | inr p ↦ inl (rw (e, p) (refl, omega arith))
                  ]
        ]

    pub with_any_role-cases :
        (names : List GoString) (next : Handler svc lib) (ctx : Context)
        → str_eq req.method (bytes "OPTIONS") ≡ false
        → IsRefused s (with_any_role svc lib next names at ctx req s)
          ⊎ ((token : GoString) × (claims : TokenClaims) × IsCaller token claims
              × (has_any_role_from_claims claims.roles names ≡ true))
    unfolding with_any_role require_any_role error_response
    with_any_role-cases names next ctx m =
        elim (with_auth-cases (require_any_role svc lib names next) ctx m) [
          | inl r ↦ inl r
          | inr (token, claims, v, e) ↦
              elim (Bool-cases (has_any_role_from_claims claims.roles names)) [
                | inl p ↦ inr (token, claims, v, p)
                | inr p ↦ inl (rw (e, p) (refl, omega arith))
              ]
        ]

  pub check_acl-cases :
      (resource_type : ResourceType) (denied : String) (claims : TokenClaims) (token : GoString)
      (id : Uuid) (permission : AclPermission) (s : State C D F P)
      → ((r : Response) × (check_acl svc lib resource_type denied
              (claims_context claims token)
              id
              permission
              s
            ≡ some r)
          × (400 ≤ status r))
        ⊎ (can_access svc.acl_repo claims.user_id claims.role_ids resource_type id permission s.db
            ≡ ok true)
  unfolding check_acl error_response
  check_acl-cases resource_type denied claims token id permission s =
      by_result
        (can_access svc.acl_repo claims.user_id claims.role_ids resource_type id permission s.db)
        refl
    where
      by_result :
          (v : Result Bool)
          → can_access svc.acl_repo claims.user_id claims.role_ids resource_type id permission s.db
            ≡ v
          → ((r : Response) × (check_acl svc lib resource_type denied
                  (claims_context claims token)
                  id
                  permission
                  s
                ≡ some r)
              × (400 ≤ status r))
            ⊎ (can_access svc.acl_repo claims.user_id claims.role_ids resource_type id permission
                  s.db
                ≡ ok true)
      by_result (ok true) e = inr e
      by_result (ok false) e = inl (refuse 403 denied, rw (e, check_acl), omega arith)
      by_result (err x) e = inl (refuse 500 "Internal server error", rw (e, check_acl), omega arith)
