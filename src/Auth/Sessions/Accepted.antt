-- ===== src/Auth/Sessions/Accepted.antt =====
-- Which checks of AuthUseCase (internal/application/usecase/auth/auth_usecase.go) the tokens pass that
-- Register, Login and RefreshToken give out.
use go_clean_arch_poc.Base.{◌<◌, ◌≤◌, Bool, true, not, ◌&&◌, is_some, ◌≡◌, some, arith}
use go_clean_arch_poc.Base.Int.{Time, add}
use go_clean_arch_poc.Domain.Error.{ok}
use go_clean_arch_poc.Domain.Task.{Uuid}
use go_clean_arch_poc.Domain.User.{User}
use go_clean_arch_poc.Cache.Keys.{token_blacklist, user_session}
use go_clean_arch_poc.Auth.Sessions.Revocation.{session_stands-get}
use go_clean_arch_poc.Auth.Jwt.{Parsed, extract_token_id, validate_refresh_token}
use go_clean_arch_poc.Auth.Sessions.{
  AuthUseCase, AuthState, AuthOutput, keys, generate_auth_output, refresh_token,
}
use go_clean_arch_poc.Auth.Sessions.Issued.{
  claims_for, generate_auth_output-signed, extract_token_id-pair,
}

module _ {C D : Type 0} (uc : AuthUseCase C D) where
  -- A generated access token parses, as the claims that were signed, until it expires.
  pub parse-generated :
      (now later : Time) (access_id refresh_id : Uuid) (u : User) (s s' : AuthState C D)
      (out : AuthOutput)
      → generate_auth_output uc now access_id refresh_id u s ≡ (s', ok out)
      → now ≤ later
      → later < uc.jwt.numeric_date (add now uc.token_service.access_token_ttl)
      → uc.jwt.parse later uc.token_service.secret out.tokens.access_token
        ≡ Parsed.valid (claims_for uc now access_id u)
  parse-generated now later access_id refresh_id u s s' out h hn hl =
      uc.jwt.parse-sign later uc.token_service.secret out.tokens.access_token
        (claims_for uc now access_id u)
        (generate_auth_output-signed uc now access_id refresh_id u s s' out h).0
        (uc.jwt.numeric_date-idem _, uc.jwt.numeric_date-idem _, uc.jwt.numeric_date-idem _)
        (let le = uc.jwt.numeric_date-le now in omega arith) hl

  -- The session of a token of the user is in the cache, and its id is not on the list of revoked ones.
  abbrev pub stands : Time → Uuid → Uuid → C → Bool
  stands later user_id id c =
      not (is_some (uc.cache_repo.get later (token_blacklist keys (uc.uuids.string id)) c))
      && is_some (
          uc.cache_repo.get later (user_session keys (uc.uuids.string user_id) (uc.uuids.string id))
            c)

  pub generated_ids :
      (now : Time) (access_id refresh_id : Uuid) (u : User) (s s' : AuthState C D)
      (out : AuthOutput)
      → generate_auth_output uc now access_id refresh_id u s ≡ (s', ok out)
      → (extract_token_id uc.uuids uc.jwt uc.token_service out.tokens.access_token
          ≡ ok (uc.uuids.string access_id))
        × (extract_token_id uc.uuids uc.jwt uc.token_service out.tokens.refresh_token
            ≡ ok (uc.uuids.string refresh_id))
  generated_ids now access_id refresh_id u s s' out h =
      let signed = generate_auth_output-signed uc now access_id refresh_id u s s' out h in
      extract_token_id-pair uc now access_id refresh_id u out.tokens signed.0 signed.1

  -- RefreshToken takes an access token that was generated as it takes a refresh token: until it
  -- expires, in every state with a cache that holds its session and does not list its id as
  -- revoked, and where its user is found, it writes and answers exactly what the generation of new
  -- tokens for that user does.
  pub refresh_token-access_token :
      (now later : Time) (access_id refresh_id new_access new_refresh : Uuid) (u found : User)
      (s s' t : AuthState C D) (out : AuthOutput) (c2 : C)
      → generate_auth_output uc now access_id refresh_id u s ≡ (s', ok out)
      → now ≤ later
      → later < uc.jwt.numeric_date (add now uc.token_service.access_token_ttl)
      → t.cache ≡ some c2
      → stands later u.id access_id c2 ≡ true
      → uc.user_repo.find_by_id u.id t.db ≡ ok (some found)
      → refresh_token uc later new_access new_refresh out.tokens.access_token t
        ≡ generate_auth_output uc later new_access new_refresh found t
  unfolding refresh_token validate_refresh_token
  refresh_token-access_token now later access_id refresh_id new_access new_refresh u found s s' t
        out c2 h hn hl h2 hs hf =
      ground (
        arith,
        uc.jwt.parse_registered-parse later uc.token_service.secret out.tokens.access_token
            (claims_for uc now access_id u)
            (parse-generated now later access_id refresh_id u s s' out h hn hl),
        uc.uuids.parse-string u.id,
        (generated_ids now access_id refresh_id u s s' out h).0,
        session_stands-get uc later (uc.uuids.string u.id) (uc.uuids.string access_id) c2,
      )
