-- ===== src/Auth/Sessions/Revocation.antt =====
-- Which tokens the revocation of sessions in AuthUseCase
-- (internal/application/usecase/auth/auth_usecase.go) stops, and which it leaves.
use go_clean_arch_poc.Base.{
  ℕ, GoString, has_prefix, false, not, ◌&&◌, ◌≡◌, ◌≢◌, refl, ap, ◌∙◌, Option, none, some, [],
  is_some, str_eq, if◌then◌else◌, ◌==◌, arith,
}
use go_clean_arch_poc.Base.Int.{Time}
use go_clean_arch_poc.Domain.Error.{ok, err, err_invalid_token}
use go_clean_arch_poc.Domain.Task.{Uuid}
use go_clean_arch_poc.Cache.Keys.{
  token_blacklist, user_session, user_sessions, user_sessions_prefix, user_sessions_star,
  user_sessions-user_session, user_sessions-token_blacklist,
}
use go_clean_arch_poc.Auth.Jwt.{
  UuidLib, TokenClaims, validate_token, extract_token_id, validate_refresh_token,
}
use go_clean_arch_poc.Auth.Sessions.{
  AuthState, ChangePasswordInput, keys, AuthUseCase, session_stands, not_revoked,
  invalidate_all_user_sessions, change_password, refresh_token, validate_access_token,
}

-- Two ids have the same text only if they are the same.
pub string-same :
    (uuids : UuidLib) (u v : Uuid) → str_eq (uuids.string u) (uuids.string v) ≡ (u == v)
string-same uuids u v = ground (arith, uuids.parse-string u, uuids.parse-string v)

module _ {C D : Type 0} (uc : AuthUseCase C D) where
  pub get-delete_sessions :
      (now : Time) (u : Uuid) (key : GoString) (c : C)
      → uc.cache_repo.get now key
          (uc.cache_repo.delete_pattern (user_sessions keys (uc.uuids.string u)) c)
        ≡ (if has_prefix (user_sessions_prefix keys (uc.uuids.string u)) key
            then none
            else uc.cache_repo.get now key c)
  get-delete_sessions now u key c =
      ap (λ p. uc.cache_repo.get now key (uc.cache_repo.delete_pattern p c))
        (user_sessions_star keys _)
      ∙ uc.cache_repo.get-delete_pattern now _ key c

  pub session_stands-get :
      (now : Time) (owner t : GoString) (c : C)
      → session_stands uc now owner t c ≡ (
          not (is_some (uc.cache_repo.get now (token_blacklist keys t) c))
          && is_some (uc.cache_repo.get now (user_session keys owner t) c))
  unfolding session_stands
  session_stands-get now owner t c = ground (
    arith,
    uc.cache_repo.exists-get now (token_blacklist keys t) c,
    uc.cache_repo.exists-get now (user_session keys owner t) c,
  )

  pub delete_sessions-blacklist :
      (now : Time) (u : Uuid) (t : GoString) (c : C)
      → uc.cache_repo.get now
          (token_blacklist keys t)
          (uc.cache_repo.delete_pattern (user_sessions keys (uc.uuids.string u)) c)
        ≡ uc.cache_repo.get now (token_blacklist keys t) c
  delete_sessions-blacklist now u t c =
      get-delete_sessions now u (token_blacklist keys t) c
      ∙ ap (λ b. if b then none else uc.cache_repo.get now (token_blacklist keys t) c)
          (user_sessions-token_blacklist keys (uc.uuids.string u) t)

  pub delete_sessions-session :
      (now : Time) (u v : Uuid) (t : GoString) (c : C)
      → uc.cache_repo.get now
          (user_session keys (uc.uuids.string v) t)
          (uc.cache_repo.delete_pattern (user_sessions keys (uc.uuids.string u)) c)
        ≡ (if u == v
            then none
            else uc.cache_repo.get now (user_session keys (uc.uuids.string v) t) c)
  delete_sessions-session now u v t c =
      get-delete_sessions now u (user_session keys (uc.uuids.string v) t) c
      ∙ ap
          (λ b.
            if b then none else uc.cache_repo.get now (user_session keys (uc.uuids.string v) t) c)
          (user_sessions-user_session keys (uc.uuids.string u) (uc.uuids.string v) t
              (uc.uuids.string-no_colon u) (uc.uuids.string-no_colon v)
            ∙ string-same uc.uuids u v)

  pub session_stands-delete_sessions :
      (now : Time) (u v : Uuid) (t : GoString) (c : C)
      → session_stands uc now
          (uc.uuids.string v)
          t
          (uc.cache_repo.delete_pattern (user_sessions keys (uc.uuids.string u)) c)
        ≡ (not (u == v) && session_stands uc now (uc.uuids.string v) t c)
  session_stands-delete_sessions now u v t c = ground (
    arith,
    session_stands-get now (uc.uuids.string v) t c,
    session_stands-get now (uc.uuids.string v) t
        (uc.cache_repo.delete_pattern (user_sessions keys (uc.uuids.string u)) c),
    delete_sessions-blacklist now u t c,
    delete_sessions-session now u v t c,
  )

  -- After the sessions of a user are invalidated, no token of that user that has an id passes the
  -- check of sessions, where there is a cache; the check of any other token gives what it gave
  -- before.
  pub not_revoked-invalidate_all_user_sessions :
      (now : Time) (u v : Uuid) (t : GoString) (s : AuthState C D)
      → not_revoked uc now v t (invalidate_all_user_sessions uc u s) ≡ (
          if is_some s.cache && (not (str_eq t []) && u == v)
          then false
          else not_revoked uc now v t s)
  unfolding not_revoked invalidate_all_user_sessions
  not_revoked-invalidate_all_user_sessions now u v t s = elim-cache s.cache
    where
      elim-cache :
          (o : Option C)
          → not_revoked uc now v t (invalidate_all_user_sessions uc u (record s { cache = o })) ≡ (
              if is_some o && (not (str_eq t []) && u == v)
              then false
              else not_revoked uc now v t (record s { cache = o }))
      elim-cache none = refl
      elim-cache (some c) = ground (arith, session_stands-delete_sessions now u v t c)

  -- What a ChangePassword that returns no error has done.
  pub change_password-ok :
      (now : Time) (salt : ℕ) (u : Uuid) (input : ChangePasswordInput) (s s' : AuthState C D)
      → change_password uc now salt u input s ≡ (s', ok tt)
      → s'.cache ≡ (invalidate_all_user_sessions uc u s).cache
  unfolding change_password invalidate_all_user_sessions
  change_password-ok now salt u input s s' h = ground arith

  pub not_revoked-cache :
      (now : Time) (v : Uuid) (t : GoString) (s s' : AuthState C D)
      → s.cache ≡ s'.cache
      → not_revoked uc now v t s ≡ not_revoked uc now v t s'
  unfolding not_revoked
  not_revoked-cache now v t s s' h = ap (λ o. not_revoked uc now v t (record s { cache = o })) h

  -- After a ChangePassword that returns no error, where there is a cache, no access token of the
  -- user that has an id is accepted by ValidateToken, and no refresh token of the user that has an
  -- id gives new tokens.
  pub change_password-revokes :
      (now later : Time) (salt : ℕ) (u access_id refresh_id : Uuid) (input : ChangePasswordInput)
      (s s' : AuthState C D) (c : C) (token refresh id : GoString) (claims : TokenClaims)
      → s.cache ≡ some c
      → change_password uc now salt u input s ≡ (s', ok tt)
      → validate_token uc.uuids uc.jwt uc.token_service later token ≡ ok claims
      → claims.user_id ≡ u
      → claims.token_id ≢ []
      → validate_refresh_token uc.uuids uc.jwt uc.token_service later refresh ≡ ok u
      → extract_token_id uc.uuids uc.jwt uc.token_service refresh ≡ ok id
      → id ≢ []
      → (validate_access_token uc later token s' ≡ err err_invalid_token)
        × (refresh_token uc later access_id refresh_id refresh s' ≡ (s', err err_invalid_token))
  unfolding validate_access_token refresh_token
  change_password-revokes now later salt u access_id refresh_id input s s' c token refresh id claims
        hc h hv hu hn hr hx hi =
      (ground (arith, stopped claims.token_id), ground (arith, stopped id))
    where
      stopped :
          (t : GoString)
          → not_revoked uc later u t s'
            ≡ (if not (str_eq t []) then false else not_revoked uc later u t s)
      stopped t = ground (
        arith,
        not_revoked-cache later u t s' (invalidate_all_user_sessions uc u s)
            (change_password-ok now salt u input s s' h),
        not_revoked-invalidate_all_user_sessions later u u t s,
      )
