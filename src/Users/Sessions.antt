-- ===== src/Users/Sessions.antt =====
-- What the changes of users (internal/application/usecase/user/user_usecase.go) do to the sessions
-- (internal/application/usecase/auth/auth_usecase.go) that stand in the same cache.
use go_clean_arch_poc.Base.{
  GoString, true, false, ◌≡◌, ◌≢◌, refl, ap, ◌∙◌, arith, Option, none, some, [], is_some,
  if◌then◌else◌,
}
use go_clean_arch_poc.Base.Int.{Time}
use go_clean_arch_poc.Domain.Error.{Result, ok, err, err_invalid_token}
use go_clean_arch_poc.Domain.Task.{Uuid}
use go_clean_arch_poc.Domain.User as DomainUser
use go_clean_arch_poc.Domain.User.{User}
use go_clean_arch_poc.Cache.Keys.{user_session, token_blacklist}
use go_clean_arch_poc.Auth.Jwt.{TokenClaims, validate_token}
use go_clean_arch_poc.Auth.Sessions.{
  AuthUseCase, AuthState, session_stands, not_revoked, validate_access_token,
  invalidate_all_user_sessions,
}
use go_clean_arch_poc.Auth.Sessions.Attempts.{attempt_some-ok}
use go_clean_arch_poc.Auth.Sessions.Revocation.{
  session_stands-get, not_revoked-invalidate_all_user_sessions, not_revoked-cache,
}
use go_clean_arch_poc.Users.Ports.{UserOutput, UserEvent, UserState, UserUseCase}
use go_clean_arch_poc.Users.Operations.{
  keys, invalidate_user_caches, invalidate_user_sessions, drop_user, save_roles, assign_role,
  remove_role, delete_user,
}
use go_clean_arch_poc.Users.Caches.{
  get-drop_user, is_user_key-user_session, is_user_key-token_blacklist,
}

-- A change of the roles of a user, by the id of the role.
pub data RoleChange : Type 0 where
  assign remove : Uuid → RoleChange

module _ {C D : Type 0} (uc : UserUseCase C D) where
  unfoldable pub change_role :
      Time → Uuid → RoleChange → UserState C D → UserState C D × Result UserOutput
  unfolding assign_role remove_role
  change_role now user_id (RoleChange.assign role_id) s = assign_role uc now user_id role_id s
  change_role now user_id (RoleChange.remove role_id) s = remove_role uc now user_id role_id s

  save_roles-cache :
      (id : Uuid) (u : User) (e : UserEvent) (s s' : UserState C D) (out : UserOutput)
      → save_roles uc id u e s ≡ (s', ok out)
      → s'.cache
        ≡ invalidate_user_sessions uc id (invalidate_user_caches uc id u.email u.email s.cache)
  unfolding save_roles
  save_roles-cache id u e s s' out h = ground arith

  invalidate_user_caches-is_some :
      (id : Uuid) (old_email new_email : GoString) (o : Option C)
      → is_some (invalidate_user_caches uc id old_email new_email o) ≡ is_some o
  unfolding invalidate_user_caches
  invalidate_user_caches-is_some id old_email new_email none = refl
  invalidate_user_caches-is_some id old_email new_email (some c) = refl

  -- The sessions are the last that a change of roles invalidates.
  change_role-cache :
      (now : Time) (id : Uuid) (c : RoleChange) (s s' : UserState C D) (out : UserOutput)
      → change_role now id c s ≡ (s', ok out)
      → (o : Option C) × (s'.cache ≡ invalidate_user_sessions uc id o)
        × (is_some o ≡ is_some s.cache)
  unfolding change_role assign_role remove_role
  change_role-cache now id (RoleChange.assign r) s s' out h =
      let (u, f, h1) = attempt_some-ok (uc.user_repo.find_by_id id s.db) _ s s' _ out h in
      let (role, g, h2) = attempt_some-ok (uc.role_repo.find_by_id r s.db) _ s s' _ out h1 in
      let u' = DomainUser.assign_role now role u in
      (
        invalidate_user_caches uc id u'.email u'.email s.cache,
        save_roles-cache id u' _ s s' out h2,
        invalidate_user_caches-is_some id u'.email u'.email s.cache,
      )
  change_role-cache now id (RoleChange.remove r) s s' out h =
      let (u, f, h1) = attempt_some-ok (uc.user_repo.find_by_id id s.db) _ s s' _ out h in
      let (role, g, h2) = attempt_some-ok (uc.role_repo.find_by_id r s.db) _ s s' _ out h1 in
      let u' = DomainUser.remove_role now r u in
      (
        invalidate_user_caches uc id u'.email u'.email s.cache,
        save_roles-cache id u' _ s s' out h2,
        invalidate_user_caches-is_some id u'.email u'.email s.cache,
      )

  delete_user-cache :
      (id : Uuid) (s s' : UserState C D)
      → delete_user uc id s ≡ (s', ok tt)
      → (email : GoString) × (s'.cache ≡ invalidate_user_caches uc id email [] s.cache)
  unfolding delete_user
  delete_user-cache id s s' h =
      let (u, f, h1) = attempt_some-ok (uc.user_repo.find_by_id id s.db) _ s s' _ tt h in
      (u.email, ground arith)

  module _ {E : Type 0} (base : AuthUseCase C E) where
    -- The authentication over the same cache.
    abbrev pub auth : AuthUseCase C E
    auth = record base { cache_repo = uc.cache_repo; uuids = uc.uuids }

    abbrev pub over : AuthState C E → UserState C D → AuthState C E
    over a s = record a { cache = s.cache }

    invalidated :
        (id : Uuid) (a : AuthState C E) (o : Option C)
        → invalidate_user_sessions uc id o
          ≡ (invalidate_all_user_sessions auth id (record a { cache = o })).cache
    unfolding invalidate_user_sessions invalidate_all_user_sessions
    invalidated id a none = refl
    invalidated id a (some c) = refl

    refused :
        (later : Time) (id : Uuid) (t : GoString) (a : AuthState C E) (o : Option C)
        → is_some o ≡ true
        → t ≢ []
        → not_revoked auth later id t
            (invalidate_all_user_sessions auth id (record a { cache = o }))
          ≡ false
    refused later id t a o h n = ground (
      arith,
      not_revoked-invalidate_all_user_sessions auth later id id t (record a { cache = o }),
    )

    validate_access_token-refused :
        (later : Time) (token : GoString) (claims : TokenClaims) (a : AuthState C E)
        → validate_token uc.uuids base.jwt base.token_service later token ≡ ok claims
        → not_revoked auth later claims.user_id claims.token_id a ≡ false
        → validate_access_token auth later token a ≡ err err_invalid_token
    unfolding validate_access_token
    validate_access_token-refused later token claims a v n = ground arith

    validate_access_token_congr :
        (later : Time) (token : GoString) (a b : AuthState C E)
        → ((v : Uuid) (t : GoString) → not_revoked auth later v t a ≡ not_revoked auth later v t b)
        → validate_access_token auth later token a ≡ validate_access_token auth later token b
    unfolding validate_access_token
    validate_access_token_congr later token a b h =
        elim-claims (validate_token uc.uuids base.jwt base.token_service later token)
      where
        elim-claims :
            (o : Result TokenClaims)
            → elim o [
              | err e ↦ err e
              | ok claims ↦
                  if not_revoked auth later claims.user_id claims.token_id a
                  then ok claims
                  else err err_invalid_token
            ]
              ≡ elim o [
                | err e ↦ err e
                | ok claims ↦
                    if not_revoked auth later claims.user_id claims.token_id b
                    then ok claims
                    else err err_invalid_token
              ]
        elim-claims (err e) = refl
        elim-claims (ok claims) =
            ap (λ x. if x then ok claims else err err_invalid_token)
              (h claims.user_id claims.token_id)

    -- After AssignRole or RemoveRole has returned no error, where there is a cache and the
    -- authentication is over the same cache, no access token of the user that has an id is
    -- accepted any more by ValidateToken.
    pub change_role-revokes :
        (now later : Time) (id : Uuid) (change : RoleChange) (s s' : UserState C D)
        (out : UserOutput) (a : AuthState C E) (c : C) (token : GoString) (claims : TokenClaims)
        → change_role now id change s ≡ (s', ok out)
        → s.cache ≡ some c
        → validate_token uc.uuids base.jwt base.token_service later token ≡ ok claims
        → claims.user_id ≡ id
        → claims.token_id ≢ []
        → validate_access_token auth later token (over a s') ≡ err err_invalid_token
    change_role-revokes now later id change s s' out a c token claims h hc hv hu hn =
        let (o, e, p) = change_role-cache now id change s s' out h in
        let there : is_some o ≡ true = p ∙ ap is_some hc in
        validate_access_token-refused later token claims (over a s') hv (
          ap (λ v. not_revoked auth later v claims.token_id (over a s')) hu
          ∙ not_revoked-cache auth later id claims.token_id (over a s')
              (invalidate_all_user_sessions auth id (record a { cache = o }))
              (e ∙ invalidated id a o)
          ∙ refused later id claims.token_id a o there hn)

    drop_user-session_stands :
        (later : Time) (id : Uuid) (old_email new_email owner t : GoString) (c : C)
        → session_stands auth later owner t (drop_user uc id old_email new_email c)
          ≡ session_stands auth later owner t c
    drop_user-session_stands later id old_email new_email owner t c = ground (
      arith,
      session_stands-get auth later owner t c,
      session_stands-get auth later owner t (drop_user uc id old_email new_email c),
      get-drop_user uc later id old_email new_email (token_blacklist keys t) c,
      get-drop_user uc later id old_email new_email (user_session keys owner t) c,
      is_user_key-token_blacklist (uc.uuids.string id) old_email new_email t,
      is_user_key-user_session (uc.uuids.string id) old_email new_email owner t,
    )

    invalidate_user_caches-not_revoked :
        (later : Time) (id v : Uuid) (old_email new_email t : GoString) (a : AuthState C E)
        (o : Option C)
        → not_revoked auth later v t
            (record a { cache = invalidate_user_caches uc id old_email new_email o })
          ≡ not_revoked auth later v t (record a { cache = o })
    unfolding not_revoked invalidate_user_caches
    invalidate_user_caches-not_revoked later id v old_email new_email t a none = refl
    invalidate_user_caches-not_revoked later id v old_email new_email t a (some c) =
        ground
          (arith, drop_user-session_stands later id old_email new_email (uc.uuids.string v) t c)

    -- DeleteUser ends no session: after it has returned no error ValidateToken over the same cache
    -- answers every token as before it, those of the user that was deleted included.
    pub delete_user-keeps_sessions :
        (later : Time) (id : Uuid) (s s' : UserState C D) (a : AuthState C E) (token : GoString)
        → delete_user uc id s ≡ (s', ok tt)
        → validate_access_token auth later token (over a s')
          ≡ validate_access_token auth later token (over a s)
    delete_user-keeps_sessions later id s s' a token h =
        let (email, e) = delete_user-cache id s s' h in
        validate_access_token_congr later token (over a s') (over a s) (λ v t.
          not_revoked-cache auth later v t (over a s')
            (record a { cache = invalidate_user_caches uc id email [] s.cache }) e
          ∙ invalidate_user_caches-not_revoked later id v email [] t a s.cache)
