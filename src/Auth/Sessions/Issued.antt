-- ===== src/Auth/Sessions/Issued.antt =====
-- What holds of the tokens that AuthUseCase (internal/application/usecase/auth/auth_usecase.go)
-- gives out: which checks they pass, and which after Logout.
use go_clean_arch_poc.Base.{
  GoString, true, false, ◌≡◌, ◌≢◌, ◌⊎◌, inl, inr, str_eq_refl, ap, none, some, [], is_some, str_eq,
  if◌then◌else◌, arith,
}
use go_clean_arch_poc.Base.Int.{Time, pos}
use go_clean_arch_poc.Domain.Error.{ok}
use go_clean_arch_poc.Domain.Task.{Uuid}
use go_clean_arch_poc.Domain.User.{User}
use go_clean_arch_poc.Cache.Keys.{token_blacklist, user_session, token_blacklist-ne-user_session}
use go_clean_arch_poc.Cache.Memory.Laws.{has_lapsed}
use go_clean_arch_poc.Auth.Rbac.{role_names, permission_strings}
use go_clean_arch_poc.Auth.Jwt.{
  TokenPair, Claims, RegisteredClaims, IsTruncated, registered_claims, access_claims,
  generate_token_pair, extract_token_id,
}
use go_clean_arch_poc.Auth.Sessions.{
  AuthUseCase, AuthState, AuthOutput, keys, role_ids, put_sessions, store_sessions,
  generate_auth_output, session_stands, not_revoked,
}
use go_clean_arch_poc.Auth.Sessions.Revocation.{session_stands-get}

module _ {C D : Type 0} (uc : AuthUseCase C D) where
  abbrev pub claims_for : Time → Uuid → User → Claims
  claims_for now access_id u =
      access_claims uc.uuids uc.jwt uc.token_service now access_id u.id u.email (role_names u.roles)
        (role_ids u) (permission_strings u.roles)

  abbrev pub refresh_claims_for : Time → Uuid → User → RegisteredClaims
  refresh_claims_for now refresh_id u =
      registered_claims uc.uuids uc.jwt uc.token_service now uc.token_service.refresh_token_ttl u.id
        refresh_id

  pub generate_auth_output-signed :
      (now : Time) (access_id refresh_id : Uuid) (u : User) (s s' : AuthState C D)
      (out : AuthOutput)
      → generate_auth_output uc now access_id refresh_id u s ≡ (s', ok out)
      → (uc.jwt.sign uc.token_service.secret (claims_for now access_id u)
          ≡ ok out.tokens.access_token)
        × (uc.jwt.sign_registered uc.token_service.secret (refresh_claims_for now refresh_id u)
            ≡ ok out.tokens.refresh_token)
  unfolding generate_auth_output generate_token_pair
  generate_auth_output-signed now access_id refresh_id u s s' out h = (ground arith, ground arith)

  pub generate_auth_output-cache :
      (now : Time) (access_id refresh_id : Uuid) (u : User) (s s' : AuthState C D)
      (out : AuthOutput) (c : C)
      → s.cache ≡ some c
      → generate_auth_output uc now access_id refresh_id u s ≡ (s', ok out)
      → s'.cache ≡ some (store_sessions uc now u out.tokens c)
  unfolding generate_auth_output
  generate_auth_output-cache now access_id refresh_id u s s' out c hc h = ground arith

  pub truncated :
      (now : Time) (user_id token_id : Uuid) (ttl : Time)
      → IsTruncated uc.jwt.numeric_date
          (registered_claims uc.uuids uc.jwt uc.token_service now (pos ttl) user_id token_id)
  truncated now user_id token_id ttl =
      (uc.jwt.numeric_date-idem _, uc.jwt.numeric_date-idem _, uc.jwt.numeric_date-idem _)

  -- The ids of a pair are those of the claims that were signed.
  pub extract_token_id-pair :
      (now : Time) (access_id refresh_id : Uuid) (u : User) (pair : TokenPair)
      → uc.jwt.sign uc.token_service.secret (claims_for now access_id u) ≡ ok pair.access_token
      → uc.jwt.sign_registered uc.token_service.secret (refresh_claims_for now refresh_id u)
        ≡ ok pair.refresh_token
      → (extract_token_id uc.uuids uc.jwt uc.token_service pair.access_token
          ≡ ok (uc.uuids.string access_id))
        × (extract_token_id uc.uuids uc.jwt uc.token_service pair.refresh_token
            ≡ ok (uc.uuids.string refresh_id))
  unfolding extract_token_id
  extract_token_id-pair now access_id refresh_id u pair ha hr = (
    ground (
      arith,
      uc.jwt.parse_unverified-sign _ _ _ ha
          (uc.jwt.numeric_date-idem _, uc.jwt.numeric_date-idem _, uc.jwt.numeric_date-idem _),
    ),
    ground (
      arith,
      uc.jwt.parse_unverified-sign_registered _ _ _ hr
          (uc.jwt.numeric_date-idem _, uc.jwt.numeric_date-idem _, uc.jwt.numeric_date-idem _),
    ),
  )

  -- What is set and has not lapsed is found; what else is found was there.
  pub get-set-found :
      (now later : Time) (key j text : GoString) (c : C)
      → has_lapsed now later uc.token_service.refresh_token_ttl ≡ false
      → is_some (
          uc.cache_repo.get later j
            (uc.cache_repo.set now key text uc.token_service.refresh_token_ttl c))
        ≡ (if str_eq key j then true else is_some (uc.cache_repo.get later j c))
  get-set-found now later key j text c h =
      ground
        (arith, uc.cache_repo.get-set now later key j text uc.token_service.refresh_token_ttl c)

  -- Storing the sessions of a pair leaves the list of revoked tokens.
  pub put_sessions-blacklist :
      (now later : Time) (owner a r text t : GoString) (c : C)
      → uc.cache_repo.get later (token_blacklist keys t) (put_sessions uc now owner a r text c)
        ≡ uc.cache_repo.get later (token_blacklist keys t) c
  unfolding put_sessions
  put_sessions-blacklist now later owner a r text t c = ground (
    arith,
    uc.cache_repo.get-set now later (user_session keys owner a) (token_blacklist keys t) text
        uc.token_service.refresh_token_ttl c,
    uc.cache_repo.get-set now later (user_session keys owner r) (token_blacklist keys t) text
        uc.token_service.refresh_token_ttl
        (uc.cache_repo.set now (user_session keys owner a) text uc.token_service.refresh_token_ttl
          c),
    token_blacklist-ne-user_session keys owner a t,
    token_blacklist-ne-user_session keys owner r t,
  )

  -- It makes sessions for both ids, which last for the life of the refresh token.
  pub put_sessions-session :
      (now later : Time) (owner a r text : GoString) (c : C)
      → a ≢ []
      → r ≢ []
      → has_lapsed now later uc.token_service.refresh_token_ttl ≡ false
      → (is_some (
            uc.cache_repo.get later
              (user_session keys owner a)
              (put_sessions uc now owner a r text c))
          ≡ true)
        × (is_some (
              uc.cache_repo.get later
                (user_session keys owner r)
                (put_sessions uc now owner a r text c))
            ≡ true)
  unfolding put_sessions
  put_sessions-session now later owner a r text c ha hr ht = (
    ground (
      arith,
      str_eq_refl (user_session keys owner a),
      get-set-found now later (user_session keys owner a) (user_session keys owner a) text c ht,
      get-set-found now later (user_session keys owner r) (user_session keys owner a) text
          (uc.cache_repo.set now (user_session keys owner a) text uc.token_service.refresh_token_ttl
            c)
          ht,
    ),
    ground (
      arith,
      str_eq_refl (user_session keys owner r),
      get-set-found now later (user_session keys owner r) (user_session keys owner r) text
          (uc.cache_repo.set now (user_session keys owner a) text uc.token_service.refresh_token_ttl
            c)
          ht,
    ),
  )

  pub put_sessions-text :
      (now later : Time) (owner a r text : GoString) (c : C)
      → a ≢ []
      → has_lapsed now later uc.token_service.refresh_token_ttl ≡ false
      → uc.cache_repo.get later (user_session keys owner a) (put_sessions uc now owner a r text c)
        ≡ some text
  unfolding put_sessions
  put_sessions-text now later owner a r text c ha ht = ground (
    arith,
    str_eq_refl (user_session keys owner a),
    uc.cache_repo.get-set now later (user_session keys owner a) (user_session keys owner a) text
        uc.token_service.refresh_token_ttl c,
    uc.cache_repo.get-set now later (user_session keys owner r) (user_session keys owner a) text
        uc.token_service.refresh_token_ttl
        (uc.cache_repo.set now (user_session keys owner a) text uc.token_service.refresh_token_ttl
          c),
  )

  pub put_sessions-stands :
      (now later : Time) (owner a r id text : GoString) (c : C)
      → a ≢ []
      → r ≢ []
      → (id ≡ a) ⊎ (id ≡ r)
      → has_lapsed now later uc.token_service.refresh_token_ttl ≡ false
      → uc.cache_repo.get later (token_blacklist keys id) c ≡ none
      → session_stands uc later owner id (put_sessions uc now owner a r text c) ≡ true
  put_sessions-stands now later owner a r id text c ha hr hi ht hb = ground (
    arith,
    put_sessions-session now later owner a r text c ha hr ht,
    put_sessions-blacklist now later owner a r text id c,
    session_stands-get uc later owner id (put_sessions uc now owner a r text c),
  )

  -- The text that is stored for a pair with these ids.
  abbrev pub session_text : Time → Uuid → Uuid → User → TokenPair → GoString
  session_text now access_id refresh_id u pair = uc.json.marshal (record {
    user_id = uc.uuids.string u.id;
    access_token_id = uc.uuids.string access_id;
    refresh_token_id = uc.uuids.string refresh_id;
    created_at = now;
    expires_at = pair.expires_at;
  })

  -- Where the cache stood, a generated pair has its sessions in it.
  pub generate_auth_output-put_sessions :
      (now : Time) (access_id refresh_id : Uuid) (u : User) (s s' : AuthState C D)
      (out : AuthOutput) (c : C)
      → s.cache ≡ some c
      → generate_auth_output uc now access_id refresh_id u s ≡ (s', ok out)
      → s'.cache
        ≡ some (
            put_sessions uc now
              (uc.uuids.string u.id)
              (uc.uuids.string access_id)
              (uc.uuids.string refresh_id)
              (session_text now access_id refresh_id u out.tokens)
              c)
  unfolding store_sessions
  generate_auth_output-put_sessions now access_id refresh_id u s s' out c hc h =
      let signed = generate_auth_output-signed now access_id refresh_id u s s' out h in
      let ids = extract_token_id-pair now access_id refresh_id u out.tokens signed.0 signed.1 in
      ground (arith, generate_auth_output-cache now access_id refresh_id u s s' out c hc h, ids)

  -- After tokens are generated, both ids stand, unless they were revoked, for the life of the refresh
  -- token.
  pub generate_auth_output-stands :
      (now later : Time) (access_id refresh_id : Uuid) (u : User) (s s' : AuthState C D)
      (out : AuthOutput) (c : C) (id : Uuid)
      → s.cache ≡ some c
      → generate_auth_output uc now access_id refresh_id u s ≡ (s', ok out)
      → (id ≡ access_id) ⊎ (id ≡ refresh_id)
      → has_lapsed now later uc.token_service.refresh_token_ttl ≡ false
      → uc.cache_repo.get later (token_blacklist keys (uc.uuids.string id)) c ≡ none
      → not_revoked uc later u.id (uc.uuids.string id) s' ≡ true
  unfolding not_revoked
  generate_auth_output-stands now later access_id refresh_id u s s' out c id hc h hi ht hb =
      ground (
        arith,
        generate_auth_output-put_sessions now access_id refresh_id u s s' out c hc h,
        put_sessions-stands now later (uc.uuids.string u.id) (uc.uuids.string access_id)
            (uc.uuids.string refresh_id) (uc.uuids.string id)
            (session_text now access_id refresh_id u out.tokens) c
            (uc.uuids.string-nonempty access_id) (uc.uuids.string-nonempty refresh_id)
            (elim hi [
              | inl e ↦ inl (ap (λ x. uc.uuids.string x) e)
              | inr e ↦ inr (ap (λ x. uc.uuids.string x) e)
            ])
            ht hb,
      )
