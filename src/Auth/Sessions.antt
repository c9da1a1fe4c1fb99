-- ===== src/Auth/Sessions.antt =====
-- AuthUseCase (internal/application/usecase/auth/auth_usecase.go): registration, login, logout,
-- refresh, change of password, and the check of a token, over the ports it is given. An operation
-- takes the state to a new one and a result, since an error may come after a write. Each reads the
-- clock once here, and takes what `uuid.New()` and bcrypt's salt give as arguments. The logger and
-- the transaction manager, which no operation uses, are left out.
mod Ports
pub mod Attempts
pub mod Entry
pub mod Issued
pub mod Accepted
pub mod Logout
pub mod Revocation
pub use Ports.*
use go_clean_arch_poc.Base.{
  ℕ, ◌-◌, ◌≡◌, GoString, bytes, Bool, true, false, not, ◌&&◌, Option, none, some, List, [], ◌∷◌,
  ◌++◌, map, ◌<|◌, str_eq, str_discrete, if◌then◌else◌, ltb,
}
use go_clean_arch_poc.Base.Int.{Time, Duration, pos}
use go_clean_arch_poc.Domain.Error.{
  Error, Result, ok, err, is_ok, err_email_already_exists, err_role_not_found, err_user_not_found,
  err_invalid_credentials, err_invalid_token,
}
use go_clean_arch_poc.Domain.Task.{Uuid}
use go_clean_arch_poc.Domain.Role.{Role, role_member}
use go_clean_arch_poc.Domain.User.{
  Bcrypt, User, new_user, assign_role, verify_password, update_password,
}
use go_clean_arch_poc.Cache.Keys.{
  CacheKeyBuilder, new_cache_key_builder, token_blacklist, user_session, user_sessions,
}
use go_clean_arch_poc.Cache.Port.{CacheRepository}
use go_clean_arch_poc.Auth.Rbac.{role_names, permission_strings}
use go_clean_arch_poc.Auth.Jwt.{
  UuidLib, JwtLib, TokenService, TokenClaims, TokenPair, generate_token_pair, validate_token,
  extract_token_id, validate_refresh_token,
}

module _ {C D : Type 0} (uc : AuthUseCase C D) where
  abbrev pub publish : UserEvent → AuthState C D → AuthState C D
  publish e s = record s { events = s.events ++ e ∷ [] }

  -- The session of a pair of tokens under both of their ids.
  unfoldable pub put_sessions : Time → GoString → GoString → GoString → GoString → C → C
  put_sessions now owner access_id refresh_id text c =
      let ttl = uc.token_service.refresh_token_ttl in
      if str_eq access_id []
      then c
      else (let c' = uc.cache_repo.set now (user_session keys owner access_id) text ttl c in
          if str_eq refresh_id []
          then c'
          else uc.cache_repo.set now (user_session keys owner refresh_id) text ttl c')

  unfoldable pub store_sessions : Time → User → TokenPair → C → C
  unfolding put_sessions
  store_sessions now u pair c =
      let access_id =
        or_empty (extract_token_id uc.uuids uc.jwt uc.token_service pair.access_token) in
      let refresh_id =
        or_empty (extract_token_id uc.uuids uc.jwt uc.token_service pair.refresh_token) in
      put_sessions now (uc.uuids.string u.id) access_id refresh_id
        (uc.json.marshal (record {
          user_id = uc.uuids.string u.id;
          access_token_id = access_id;
          refresh_token_id = refresh_id;
          created_at = now;
          expires_at = pair.expires_at;
        }))
        c

  unfoldable pub generate_auth_output :
      Time → Uuid → Uuid → User → AuthState C D → AuthState C D × Result AuthOutput
  unfolding store_sessions
  generate_auth_output now access_id refresh_id u s =
      attempt
        (generate_token_pair uc.uuids uc.jwt uc.token_service now access_id refresh_id u.id u.email
          (role_names u.roles) (role_ids u) (permission_strings u.roles))
        s
      <| λ pair. (
        record s {
          cache = elim s.cache [ none ↦ none | some c ↦ some (store_sessions now u pair c) ];
        },
        ok (record { tokens = pair; user = u }),
      )

  unfoldable pub register :
      Time
      → Uuid
      → ℕ
      → Uuid
      → Uuid
      → CreateUserInput
      → AuthState C D
      → AuthState C D × Result AuthOutput
  unfolding generate_auth_output
  register now id salt access_id refresh_id input s =
      attempt (uc.validator.create_user input) s <| λ _.
      attempt (uc.user_repo.exists_by_email input.email s.db) s <| λ exists.
      if exists
      then (s, err err_email_already_exists)
      else (attempt_some (uc.role_repo.find_by_name default_registration_role s.db)
            err_role_not_found s
          <| λ role.
              attempt (new_user uc.bcrypt now id salt input.email input.password input.name) s
              <| λ u0.
                  let u = assign_role now role u0 in
                  attempt (uc.user_repo.save u s.db) s <| λ db.
                  let (s', r) =
                    generate_auth_output now access_id refresh_id u (record s { db = db }) in
                  attempt r s' <| λ out.
                  (publish (UserEvent.user_created u.id u.email u.name) s', ok out))

  unfoldable pub login :
      Time → Uuid → Uuid → LoginInput → AuthState C D → AuthState C D × Result AuthOutput
  unfolding generate_auth_output
  login now access_id refresh_id input s = attempt (uc.validator.login input) s <| λ _.
      attempt_some (uc.user_repo.find_by_email input.email s.db) err_invalid_credentials s <| λ u.
      if not (verify_password uc.bcrypt input.password u)
      then (s, err err_invalid_credentials)
      else (let (s', r) = generate_auth_output now access_id refresh_id u s in
          attempt r s' <| λ out. (publish (UserEvent.user_logged_in u.id) s', ok out))

  -- The access token, if it is valid, is revoked for as long as it has left.
  unfoldable pub revoke_access_token : Time → GoString → GoString → C → C
  revoke_access_token now token_id access_token c =
      elim (validate_token uc.uuids uc.jwt uc.token_service now access_token) [
        | err _ ↦ c
        | ok claims ↦
            if ltb now claims.expires_at
            then uc.cache_repo.set now (token_blacklist keys token_id) revoked_mark
                (pos (claims.expires_at - now)) c
            else c
      ]

  -- The refresh token that the session names is revoked, and its session deleted.
  unfoldable pub revoke_refresh_token : Time → Uuid → GoString → C → C
  revoke_refresh_token now user_id token_id c =
      elim (uc.cache_repo.get now (user_session keys (uc.uuids.string user_id) token_id) c) [
        | none ↦ c
        | some text ↦ elim (uc.json.string_field (bytes "refreshTokenId") text) [
          | none ↦ c
          | some refresh_id ↦
              if str_eq refresh_id []
              then c
              else uc.cache_repo.delete (user_session keys (uc.uuids.string user_id) refresh_id) (
                  uc.cache_repo.set now (token_blacklist keys refresh_id) revoked_mark
                    uc.token_service.refresh_token_ttl c)
        ]
      ]

  -- The calls of the cache in Logout: `token_id` is the id of the access token.
  unfoldable pub revoke_session : Time → Uuid → GoString → GoString → C → C
  unfolding revoke_access_token revoke_refresh_token
  revoke_session now user_id token_id access_token c =
      uc.cache_repo.delete (user_session keys (uc.uuids.string user_id) token_id) (
        revoke_refresh_token now user_id token_id (revoke_access_token now token_id access_token c))

  unfoldable pub logout : Time → Uuid → GoString → AuthState C D → AuthState C D × Result (Unit {0})
  unfolding revoke_session
  logout now user_id access_token s =
      attempt (extract_token_id uc.uuids uc.jwt uc.token_service access_token) s <| λ token_id.
      let s' = record s {
        cache = elim s.cache [
          | none ↦ none
          | some c ↦ some (revoke_session now user_id token_id access_token c)
        ];
      } in
      (publish (UserEvent.user_logged_out user_id) s', ok tt)

  -- Neither revoked nor without a session.
  unfoldable pub session_stands : Time → GoString → GoString → C → Bool
  session_stands now owner token_id c =
      not (uc.cache_repo.exists now (token_blacklist keys token_id) c)
      && uc.cache_repo.exists now (user_session keys owner token_id) c

  -- The check in ValidateToken and RefreshToken: a token without an id, and any token where there is
  -- no cache, passes.
  unfoldable pub not_revoked : Time → Uuid → GoString → AuthState C D → Bool
  unfolding session_stands
  not_revoked now user_id token_id s = elim s.cache [
    | none ↦ true
    | some c ↦
        if str_eq token_id [] then true else session_stands now (uc.uuids.string user_id) token_id c
  ]

  unfoldable pub refresh_token :
      Time → Uuid → Uuid → GoString → AuthState C D → AuthState C D × Result AuthOutput
  unfolding not_revoked generate_auth_output
  refresh_token now access_id refresh_id token s =
      elim (validate_refresh_token uc.uuids uc.jwt uc.token_service now token) [
        | err _ ↦ (s, err err_invalid_token)
        | ok user_id ↦
            if not_revoked now user_id
              (or_empty (extract_token_id uc.uuids uc.jwt uc.token_service token)) s
            then (attempt_some (uc.user_repo.find_by_id user_id s.db) err_user_not_found s <| λ u.
                generate_auth_output now access_id refresh_id u s)
            else (s, err err_invalid_token)
      ]

  unfoldable pub validate_access_token : Time → GoString → AuthState C D → Result TokenClaims
  unfolding not_revoked
  validate_access_token now token s =
      elim (validate_token uc.uuids uc.jwt uc.token_service now token) [
        | err e ↦ err e
        | ok claims ↦
            if not_revoked now claims.user_id claims.token_id s
            then ok claims
            else err err_invalid_token
      ]

  unfoldable pub invalidate_all_user_sessions : Uuid → AuthState C D → AuthState C D
  invalidate_all_user_sessions user_id s = record s {
    cache = elim s.cache [
      | none ↦ none
      | some c ↦
          some (uc.cache_repo.delete_pattern (user_sessions keys (uc.uuids.string user_id)) c)
    ];
  }

  unfoldable pub change_password :
      Time → ℕ → Uuid → ChangePasswordInput → AuthState C D → AuthState C D × Result (Unit {0})
  unfolding invalidate_all_user_sessions
  change_password now salt user_id input s = attempt (uc.validator.change_password input) s <| λ _.
      attempt_some (uc.user_repo.find_by_id user_id s.db) err_user_not_found s <| λ u.
      if not (verify_password uc.bcrypt input.old_password u)
      then (s, err err_invalid_credentials)
      else (attempt (update_password uc.bcrypt now salt input.new_password u) s <| λ u'.
          attempt (uc.user_repo.update u' s.db) s <| λ db. (
            publish (UserEvent.user_password_changed user_id)
                (invalidate_all_user_sessions user_id (record s { db = db })),
            ok tt,
          ))
