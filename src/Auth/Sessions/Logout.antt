-- ===== src/Auth/Sessions/Logout.antt =====
-- Logout of AuthUseCase (internal/application/usecase/auth/auth_usecase.go) on a pair of tokens.
use go_clean_arch_poc.Base.{
  ◌-◌, GoString, bytes, false, ◌≡◌, ◌≢◌, str_eq_refl, refl, sym, ◌∙◌, none, some, [], if◌then◌else◌,
  ltb, arith,
}
use go_clean_arch_poc.Base.Int.{Time, pos}
use go_clean_arch_poc.Domain.Error.{Result, ok, err, err_invalid_token, is_ok}
use go_clean_arch_poc.Domain.Task.{Uuid}
use go_clean_arch_poc.Domain.User.{User}
use go_clean_arch_poc.Cache.Keys.{token_blacklist, user_session, token_blacklist-ne-user_session}
use go_clean_arch_poc.Cache.Memory.Laws.{has_lapsed}
use go_clean_arch_poc.Auth.Jwt.{
  TokenClaims, Claims, RegisteredClaims, Parsed, bare, validate_token, extract_token_id,
  validate_refresh_token,
}
use go_clean_arch_poc.Auth.Sessions.{
  AuthUseCase, AuthState, AuthOutput, keys, revoked_mark, put_sessions, generate_auth_output,
  session_stands, not_revoked, refresh_token, validate_access_token, logout, revoke_session,
  revoke_access_token, revoke_refresh_token,
}
use go_clean_arch_poc.Auth.Sessions.Revocation.{session_stands-get}
use go_clean_arch_poc.Auth.Sessions.Issued.{
  claims_for, refresh_claims_for, generate_auth_output-signed, generate_auth_output-put_sessions,
  session_text, put_sessions-text,
}
use go_clean_arch_poc.Auth.Sessions.Accepted.{generated_ids}

module _ {C D : Type 0} (uc : AuthUseCase C D) where
  pub get-delete_same :
      (now : Time) (key : GoString) (c : C)
      → uc.cache_repo.get now key (uc.cache_repo.delete key c) ≡ none
  get-delete_same now key c =
      ground (arith, str_eq_refl key, uc.cache_repo.get-delete now key key c)

  pub get-delete_none :
      (now : Time) (key j : GoString) (c : C)
      → uc.cache_repo.get now j c ≡ none
      → uc.cache_repo.get now j (uc.cache_repo.delete key c) ≡ none
  get-delete_none now key j c h = ground (arith, uc.cache_repo.get-delete now key j c)

  -- Revoking the access token leaves the sessions.
  pub get-revoke_access_token :
      (now later : Time) (owner t token id : GoString) (c : C)
      → uc.cache_repo.get later (user_session keys owner id) (revoke_access_token uc now t token c)
        ≡ uc.cache_repo.get later (user_session keys owner id) c
  unfolding revoke_access_token
  get-revoke_access_token now later owner t token id c =
      elim-claims (validate_token uc.uuids uc.jwt uc.token_service now token)
    where
      elim-claims :
          (r : Result TokenClaims)
          → uc.cache_repo.get later (user_session keys owner id) (elim r [
            | err _ ↦ c
            | ok claims ↦
                if ltb now claims.expires_at
                then uc.cache_repo.set now
                    (token_blacklist keys t)
                    revoked_mark
                    (pos (claims.expires_at - now))
                    c
                else c
          ])
            ≡ uc.cache_repo.get later (user_session keys owner id) c
      elim-claims (err e) = refl
      elim-claims (ok claims) = ground (
        arith,
        uc.cache_repo.get-set now later (token_blacklist keys t) (user_session keys owner id)
            revoked_mark (pos (claims.expires_at - now)) c,
        token_blacklist-ne-user_session keys owner id t,
      )

  pub get-revoke_refresh_token :
      (now later : Time) (u : Uuid) (t r text : GoString) (c : C)
      → uc.cache_repo.get now (user_session keys (uc.uuids.string u) t) c ≡ some text
      → uc.json.string_field (bytes "refreshTokenId") text ≡ some r
      → r ≢ []
      → uc.cache_repo.get later
          (user_session keys (uc.uuids.string u) r)
          (revoke_refresh_token uc now u t c)
        ≡ none
  unfolding revoke_refresh_token
  get-revoke_refresh_token now later u t r text c hg hf hr = ground (
    arith,
    get-delete_same later (user_session keys (uc.uuids.string u) r) (
        uc.cache_repo.set now (token_blacklist keys r) revoked_mark
          uc.token_service.refresh_token_ttl c),
  )

  -- Logout deletes the sessions of the access token and of the refresh token that its session names.
  pub get-revoke_session :
      (now later : Time) (u : Uuid) (t r token text : GoString) (c : C)
      → uc.cache_repo.get now (user_session keys (uc.uuids.string u) t) c ≡ some text
      → uc.json.string_field (bytes "refreshTokenId") text ≡ some r
      → r ≢ []
      → (uc.cache_repo.get later
            (user_session keys (uc.uuids.string u) t)
            (revoke_session uc now u t token c)
          ≡ none)
        × (uc.cache_repo.get later
              (user_session keys (uc.uuids.string u) r)
              (revoke_session uc now u t token c)
            ≡ none)
  unfolding revoke_session
  get-revoke_session now later u t r token text c hg hf hr = (
    get-delete_same later _ _,
    get-delete_none later _ _ _ (
        get-revoke_refresh_token now later u t r text (revoke_access_token uc now t token c)
          (get-revoke_access_token now now (uc.uuids.string u) t token t c ∙ hg) hf hr),
  )

  -- A token whose session is gone is not accepted.
  pub session_stands-none :
      (now : Time) (owner t : GoString) (c : C)
      → uc.cache_repo.get now (user_session keys owner t) c ≡ none
      → session_stands uc now owner t c ≡ false
  session_stands-none now owner t c h = ground (arith, session_stands-get uc now owner t c)

  pub logout-cache :
      (now : Time) (u : Uuid) (t token : GoString) (s s' : AuthState C D) (c : C)
      → s.cache ≡ some c
      → extract_token_id uc.uuids uc.jwt uc.token_service token ≡ ok t
      → logout uc now u token s ≡ (s', ok tt)
      → s'.cache ≡ some (revoke_session uc now u t token c)
  unfolding logout
  logout-cache now u t token s s' c hc ht h = ground arith

  -- After tokens are generated, with a cache, and Logout is called with the access token by its user
  -- before the sessions lapse, the ids of both tokens are refused at any time.
  pub logout-not_revoked :
      (now at later : Time) (access_id refresh_id : Uuid) (u : User) (s s' s'' : AuthState C D)
      (out : AuthOutput) (c : C)
      → s.cache ≡ some c
      → generate_auth_output uc now access_id refresh_id u s ≡ (s', ok out)
      → has_lapsed now at uc.token_service.refresh_token_ttl ≡ false
      → logout uc at u.id out.tokens.access_token s' ≡ (s'', ok tt)
      → (not_revoked uc later u.id (uc.uuids.string access_id) s'' ≡ false)
        × (not_revoked uc later u.id (uc.uuids.string refresh_id) s'' ≡ false)
  unfolding not_revoked
  logout-not_revoked now at later access_id refresh_id u s s' s'' out c hc h ht hl =
      let c' =
        put_sessions uc now (uc.uuids.string u.id) (uc.uuids.string access_id)
          (uc.uuids.string refresh_id) (session_text uc now access_id refresh_id u out.tokens) c in
      let gone =
        get-revoke_session at later u.id (uc.uuids.string access_id) (uc.uuids.string refresh_id)
          out.tokens.access_token (session_text uc now access_id refresh_id u out.tokens) c'
          (put_sessions-text uc now at (uc.uuids.string u.id) (uc.uuids.string access_id)
            (uc.uuids.string refresh_id) (session_text uc now access_id refresh_id u out.tokens) c
            (uc.uuids.string-nonempty access_id) ht)
          (uc.json.refresh_token_id-marshal _) (uc.uuids.string-nonempty refresh_id) in
      let after =
        logout-cache at u.id (uc.uuids.string access_id) out.tokens.access_token s' s'' c'
          (generate_auth_output-put_sessions uc now access_id refresh_id u s s' out c hc h)
          (generated_ids uc now access_id refresh_id u s s' out h).0 hl in
      (
        ground (
          arith,
          after,
          uc.uuids.string-nonempty access_id,
          session_stands-none later _ _ _ gone.0,
        ),
        ground (
          arith,
          after,
          uc.uuids.string-nonempty refresh_id,
          session_stands-none later _ _ _ gone.1,
        ),
      )

  -- What the tokens hold, read without the signature.
  pub generated_unverified :
      (now : Time) (access_id refresh_id : Uuid) (u : User) (s s' : AuthState C D)
      (out : AuthOutput)
      → generate_auth_output uc now access_id refresh_id u s ≡ (s', ok out)
      → (uc.jwt.parse_unverified out.tokens.access_token ≡ some (claims_for uc now access_id u))
        × (uc.jwt.parse_unverified out.tokens.refresh_token
            ≡ some (bare (refresh_claims_for uc now refresh_id u)))
  generated_unverified now access_id refresh_id u s s' out h =
      let signed = generate_auth_output-signed uc now access_id refresh_id u s s' out h in
      (
        uc.jwt.parse_unverified-sign _ _ _ signed.0
            (uc.jwt.numeric_date-idem _, uc.jwt.numeric_date-idem _, uc.jwt.numeric_date-idem _),
        uc.jwt.parse_unverified-sign_registered _ _ _ signed.1
            (uc.jwt.numeric_date-idem _, uc.jwt.numeric_date-idem _, uc.jwt.numeric_date-idem _),
      )

  pub validate_access_token-refused :
      (now : Time) (token : GoString) (s : AuthState C D) (claims : Claims)
      → uc.jwt.parse_unverified token ≡ some claims
      → not_revoked uc now claims.user_id claims.registered.id s ≡ false
      → is_ok (validate_access_token uc now token s) ≡ false
  unfolding validate_access_token validate_token
  validate_access_token-refused now token s claims hp hr =
      elim-parsed (uc.jwt.parse now uc.token_service.secret token) refl
    where
      elim-parsed :
          (r : Parsed Claims)
          → uc.jwt.parse now uc.token_service.secret token ≡ r
          → is_ok (validate_access_token uc now token s) ≡ false
      elim-parsed (Parsed.valid c) e =
          let same : some c ≡ some claims =
            sym (uc.jwt.parse_unverified-parse now uc.token_service.secret token c e) ∙ hp in
          ground arith
      elim-parsed Parsed.expired e = ground arith
      elim-parsed Parsed.malformed e = ground arith

  pub refresh_token-refused :
      (now : Time) (new_access new_refresh : Uuid) (token : GoString) (s : AuthState C D)
      (claims : Claims) (u : Uuid)
      → uc.jwt.parse_unverified token ≡ some claims
      → claims.registered.subject ≡ uc.uuids.string u
      → not_revoked uc now u claims.registered.id s ≡ false
      → refresh_token uc now new_access new_refresh token s ≡ (s, err err_invalid_token)
  unfolding refresh_token validate_refresh_token extract_token_id
  refresh_token-refused now new_access new_refresh token s claims u hp hs hr =
      elim-parsed (uc.jwt.parse_registered now uc.token_service.secret token) refl
    where
      elim-parsed :
          (r : Parsed RegisteredClaims)
          → uc.jwt.parse_registered now uc.token_service.secret token ≡ r
          → refresh_token uc now new_access new_refresh token s ≡ (s, err err_invalid_token)
      elim-parsed (Parsed.valid r) e = ground (
        arith,
        uc.uuids.parse-string u,
        uc.jwt.parse_unverified-parse_registered now uc.token_service.secret token r claims e hp,
      )
      elim-parsed Parsed.expired e = ground arith
      elim-parsed Parsed.malformed e = ground arith

  -- Of tokens that were generated, with a cache, once Logout has been called with the access token
  -- by its user before the sessions lapse, ValidateToken refuses the access token and RefreshToken
  -- the refresh token, at any time.
  pub logout-refused :
      (now at later : Time) (access_id refresh_id new_access new_refresh : Uuid) (u : User)
      (s s' s'' : AuthState C D) (out : AuthOutput) (c : C)
      → s.cache ≡ some c
      → generate_auth_output uc now access_id refresh_id u s ≡ (s', ok out)
      → has_lapsed now at uc.token_service.refresh_token_ttl ≡ false
      → logout uc at u.id out.tokens.access_token s' ≡ (s'', ok tt)
      → (is_ok (validate_access_token uc later out.tokens.access_token s'') ≡ false)
        × (refresh_token uc later new_access new_refresh out.tokens.refresh_token s''
            ≡ (s'', err err_invalid_token))
  logout-refused now at later access_id refresh_id new_access new_refresh u s s' s'' out c hc h ht
        hl =
      let refused =
        logout-not_revoked now at later access_id refresh_id u s s' s'' out c hc h ht hl in
      let ids = generated_unverified now access_id refresh_id u s s' out h in
      (
        validate_access_token-refused later _ s'' _ ids.0 refused.0,
        refresh_token-refused later new_access new_refresh _ s'' _ u.id ids.1 refl refused.1,
      )
