-- ===== src/Auth/Jwt.antt =====
-- TokenService (internal/infrastructure/auth/jwt/token_service.go). The packages golang-jwt/jwt/v5
-- and google/uuid are parameters, with what they document as the fields that are laws.
use go_clean_arch_poc.Base.{GoString, false, ◌≡◌, ◌≤◌, ◌<◌, Option, none, some, List, [], has_byte}
use go_clean_arch_poc.Base.Int.{Time, Duration, add}
use go_clean_arch_poc.Domain.Error.{Error, Result, ok, err}
use go_clean_arch_poc.Domain.Task.{Uuid}

-- github.com/google/uuid: the text of an id is hexadecimal digits and dashes, and Parse reads it.
pub record UuidLib : Type 0 where
  pub string : Uuid → GoString
  pub parse : GoString → Option Uuid
  pub parse-string : (id : Uuid) → parse (string id) ≡ some id
  pub string-nonempty : (id : Uuid) → ¬ (string id ≡ [])
  pub string-no_colon : (id : Uuid) → has_byte b':' (string id) ≡ false

-- jwt.RegisteredClaims, but for the audience, which no code reads.
pub record RegisteredClaims : Type 0 where
  pub issuer : GoString
  pub subject : GoString
  pub expires_at : Time
  pub issued_at : Time
  pub not_before : Time
  pub id : GoString

pub record Claims : Type 0 where
  pub registered : RegisteredClaims
  pub user_id : Uuid
  pub email : GoString
  pub roles : List GoString
  pub role_ids : List Uuid
  pub permissions : List GoString

-- What the JSON of registered claims decodes to: a field that is missing is its zero value.
abbrev pub bare : RegisteredClaims → Claims
bare r = record {
  registered = r;
  user_id = 0;
  email = [];
  roles = [];
  role_ids = [];
  permissions = [];
}

-- ParseWithClaims: the claims of a valid token, ErrTokenExpired, or another error.
pub data Parsed {ℓ} (A : Type ℓ) : Type ℓ where
  valid : A → Parsed A
  expired : Parsed A
  malformed : Parsed A

-- The dates of claims that NewNumericDate has cut to its precision.
abbrev pub IsTruncated : (Time → Time) → RegisteredClaims → Type 0
IsTruncated numeric_date r =
    (numeric_date r.expires_at ≡ r.expires_at)
    × (numeric_date r.issued_at ≡ r.issued_at)
    × (numeric_date r.not_before ≡ r.not_before)

-- github.com/golang-jwt/jwt/v5 with HS256: signing, parsing under a key at a time, and parsing
-- without the signature. The laws say that what is signed is read back: as the claims that were
-- signed, from `not_before` on and before `expires_at`; and that a valid token under the key
-- parses as registered claims too, and without the signature.
pub record JwtLib : Type 0 where
  pub numeric_date : Time → Time
  pub sign : GoString → Claims → Result GoString
  pub sign_registered : GoString → RegisteredClaims → Result GoString
  pub parse : Time → GoString → GoString → Parsed Claims
  pub parse_registered : Time → GoString → GoString → Parsed RegisteredClaims
  pub parse_unverified : GoString → Option Claims
  pub numeric_date-le : (t : Time) → numeric_date t ≤ t
  pub numeric_date-idem : (t : Time) → numeric_date (numeric_date t) ≡ numeric_date t
  pub parse-sign :
      (now : Time) (key token : GoString) (c : Claims)
      → sign key c ≡ ok token
      → IsTruncated numeric_date c.registered
      → c.registered.not_before ≤ now
      → now < c.registered.expires_at
      → parse now key token ≡ Parsed.valid c
  pub parse_unverified-sign :
      (key token : GoString) (c : Claims)
      → sign key c ≡ ok token
      → IsTruncated numeric_date c.registered
      → parse_unverified token ≡ some c
  pub parse_unverified-sign_registered :
      (key token : GoString) (r : RegisteredClaims)
      → sign_registered key r ≡ ok token
      → IsTruncated numeric_date r
      → parse_unverified token ≡ some (bare r)
  pub parse_registered-sign_registered :
      (now : Time) (key token : GoString) (r : RegisteredClaims)
      → sign_registered key r ≡ ok token
      → IsTruncated numeric_date r
      → r.not_before ≤ now
      → now < r.expires_at
      → parse_registered now key token ≡ Parsed.valid r
  pub parse_registered-parse :
      (now : Time) (key token : GoString) (c : Claims)
      → parse now key token ≡ Parsed.valid c
      → parse_registered now key token ≡ Parsed.valid c.registered
  pub parse_unverified-parse :
      (now : Time) (key token : GoString) (c : Claims)
      → parse now key token ≡ Parsed.valid c
      → parse_unverified token ≡ some c
  pub parse_unverified-parse_registered :
      (now : Time) (key token : GoString) (r : RegisteredClaims) (c : Claims)
      → parse_registered now key token ≡ Parsed.valid r
      → parse_unverified token ≡ some c
      → c.registered ≡ r

pub record TokenService : Type 0 where
  pub secret : GoString
  pub access_token_ttl : Duration
  pub refresh_token_ttl : Duration
  pub issuer : GoString

-- dto.TokenClaims.
pub record TokenClaims : Type 0 where
  pub user_id : Uuid
  pub email : GoString
  pub roles : List GoString
  pub role_ids : List Uuid
  pub permissions : List GoString
  pub token_id : GoString
  pub expires_at : Time

-- dto.AuthOutput, without the user, which the use case adds.
pub record TokenPair : Type 0 where
  pub access_token : GoString
  pub refresh_token : GoString
  pub expires_at : Time

-- `ErrInvalidToken` and `ErrExpiredToken` of package jwt.
abbrev pub err_invalid : Error
err_invalid = Error.external 1

abbrev pub err_expired : Error
err_expired = Error.external 2

abbrev pub read_claims : Claims → TokenClaims
read_claims c = record {
  user_id = c.user_id;
  email = c.email;
  roles = c.roles;
  role_ids = c.role_ids;
  permissions = c.permissions;
  token_id = c.registered.id;
  expires_at = c.registered.expires_at;
}

module _ (uuids : UuidLib) (jwt : JwtLib) (s : TokenService) where
  -- The registered claims of both tokens: `token_id` is what `uuid.New()` gives.
  abbrev pub registered_claims : Time → Duration → Uuid → Uuid → RegisteredClaims
  registered_claims now ttl user_id token_id = record {
    issuer = s.issuer;
    subject = uuids.string user_id;
    expires_at = jwt.numeric_date (add now ttl);
    issued_at = jwt.numeric_date now;
    not_before = jwt.numeric_date now;
    id = uuids.string token_id;
  }

  abbrev pub access_claims :
      Time → Uuid → Uuid → GoString → List GoString → List Uuid → List GoString → Claims
  access_claims now access_id user_id email roles role_ids permissions = record {
    registered = registered_claims now s.access_token_ttl user_id access_id;
    user_id = user_id;
    email = email;
    roles = roles;
    role_ids = role_ids;
    permissions = permissions;
  }

  unfoldable pub generate_token_pair :
      Time
      → Uuid
      → Uuid
      → Uuid
      → GoString
      → List GoString
      → List Uuid
      → List GoString
      → Result TokenPair
  generate_token_pair now access_id refresh_id user_id email roles role_ids permissions =
      elim (jwt.sign s.secret
        (access_claims now access_id user_id email roles role_ids permissions)) [
          | err e ↦ err (Error.errorf "failed to sign access token" e)
          | ok access ↦
              elim (jwt.sign_registered s.secret
                (registered_claims now s.refresh_token_ttl user_id refresh_id)) [
                  | err e ↦ err (Error.errorf "failed to sign refresh token" e)
                  | ok refresh ↦ ok (record {
                    access_token = access;
                    refresh_token = refresh;
                    expires_at = add now s.access_token_ttl;
                  })
                ]
        ]

  unfoldable pub validate_token : Time → GoString → Result TokenClaims
  validate_token now token = elim (jwt.parse now s.secret token) [
    | Parsed.expired ↦ err err_expired
    | Parsed.malformed ↦ err err_invalid
    | Parsed.valid claims ↦ ok (read_claims claims)
  ]

  unfoldable pub extract_token_id : GoString → Result GoString
  extract_token_id token = elim (jwt.parse_unverified token) [
    | none ↦ err err_invalid
    | some claims ↦ ok claims.registered.id
  ]

  unfoldable pub validate_refresh_token : Time → GoString → Result Uuid
  validate_refresh_token now token = elim (jwt.parse_registered now s.secret token) [
    | Parsed.expired ↦ err err_expired
    | Parsed.malformed ↦ err err_invalid
    | Parsed.valid claims ↦ elim (uuids.parse claims.subject) [
      | none ↦ err err_invalid
      | some user_id ↦ ok user_id
    ]
  ]
