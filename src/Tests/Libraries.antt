-- ===== src/Tests/Libraries.antt =====
-- Concrete functions for the libraries that tokens and sessions take as parameters: ids as texts of
-- as many letters, tokens that spell out their claims.
use go_clean_arch_poc.Base.{
  ℕ, zero, suc, ◌≡◌, ◌≤◌, ◌<◌, refl, sym, ap, ◌∙◌, arith, GoString, true, false, ◌&&◌, Option, none,
  some, List, [], ◌∷◌, length, has_byte, ltb, leb, if◌then◌else◌, str_eq, str_eq_refl,
}
use go_clean_arch_poc.Domain.Error.{Result, ok, err}
use go_clean_arch_poc.Domain.User.{Bcrypt}
use go_clean_arch_poc.Auth.Jwt.{UuidLib, JwtLib, Claims, RegisteredClaims, Parsed, bare}
use go_clean_arch_poc.Auth.Sessions.{JsonLib}

-- n letters `a`.
abbrev letters : ℕ → GoString
letters zero = []
letters (suc n) = b'a' ∷ letters n

pub length-letters : (n : ℕ) → length (letters n) ≡ n
length-letters zero = refl
length-letters (suc n) = ap suc (length-letters n)

pub letters-no_colon : (n : ℕ) → has_byte b':' (letters n) ≡ false
letters-no_colon zero = refl
letters-no_colon (suc n) = letters-no_colon n

pub letters-nonempty : (n : ℕ) → ¬ (b'u' ∷ letters n ≡ [])
letters-nonempty n e = cc

abbrev read_letters : GoString → Option ℕ
read_letters [] = none
read_letters (_ ∷ s) = some (length s)

abbrev pub uuids : UuidLib
uuids = record {
  string = λ n. b'u' ∷ letters n;
  parse = read_letters;
  parse-string = λ n. ap some (length-letters n);
  string-nonempty = letters-nonempty;
  string-no_colon = letters-no_colon;
}

-- A list of texts in front of a rest: 1 before each byte, 2 after a text, 0 after the last.
abbrev put_text : GoString → GoString → GoString
put_text [] rest = 2 ∷ rest
put_text (c ∷ s) rest = 1 ∷ c ∷ put_text s rest

abbrev put_texts : List GoString → GoString → GoString
put_texts [] rest = 0 ∷ rest
put_texts (s ∷ ss) rest = put_text s (put_texts ss rest)

abbrev cons_head : ℕ → List GoString → List GoString
cons_head c [] = []
cons_head c (s ∷ ss) = (c ∷ s) ∷ ss

abbrev get_texts : GoString → List GoString × GoString
get_texts [] = ([], [])
get_texts (zero ∷ rest) = ([], rest)
get_texts (suc zero ∷ []) = ([], [])
get_texts (suc zero ∷ c ∷ s) = let r = get_texts s in (cons_head c r.0, r.1)
get_texts (suc (suc _) ∷ s) = let r = get_texts s in ([] ∷ r.0, r.1)

get-put_text :
    (s rest : GoString) (r : List GoString × GoString)
    → get_texts rest ≡ r
    → get_texts (put_text s rest) ≡ (s ∷ r.0, r.1)
get-put_text [] rest r h = ap (λ (x : List GoString × GoString). ([] ∷ x.0, x.1)) h
get-put_text (c ∷ s) rest r h =
    ap (λ (x : List GoString × GoString). (cons_head c x.0, x.1)) (get-put_text s rest r h)

pub get-put_texts :
    (ss : List GoString) (rest : GoString) → get_texts (put_texts ss rest) ≡ (ss, rest)
get-put_texts [] rest = refl
get-put_texts (s ∷ ss) rest = get-put_text s (put_texts ss rest) (ss, rest) (get-put_texts ss rest)

abbrev pub write_claims : Claims → GoString
write_claims c =
    put_texts
      (c.registered.issuer
        ∷ c.registered.subject
        ∷ c.registered.id
        ∷ c.email
        ∷ (c.registered.expires_at ∷ c.registered.issued_at ∷ c.registered.not_before ∷ c.user_id
            ∷ [])
        ∷ c.role_ids
        ∷ [])
      (put_texts c.roles (put_texts c.permissions []))

abbrev read_parts : List GoString → List GoString → List GoString → Option Claims
read_parts (issuer ∷ subject ∷ id ∷ email ∷ (exp ∷ iat ∷ nbf ∷ user_id ∷ []) ∷ role_ids ∷ []) roles
      permissions =
    some (record {
      registered = record {
        issuer = issuer;
        subject = subject;
        expires_at = exp;
        issued_at = iat;
        not_before = nbf;
        id = id;
      };
      user_id = user_id;
      email = email;
      roles = roles;
      role_ids = role_ids;
      permissions = permissions;
    })
read_parts _ _ _ = none

abbrev read_claims : GoString → Option Claims
read_claims s =
    let head = get_texts s in
    let roles = get_texts head.1 in read_parts head.0 roles.0 (get_texts roles.1).0

pub read-write_claims : (c : Claims) → read_claims (write_claims c) ≡ some c
read-write_claims c =
    let head : List GoString =
      c.registered.issuer
      ∷ c.registered.subject
      ∷ c.registered.id
      ∷ c.email
      ∷ (c.registered.expires_at ∷ c.registered.issued_at ∷ c.registered.not_before ∷ c.user_id
          ∷ [])
      ∷ c.role_ids
      ∷ [] in
    ap
      (λ (x : List GoString × GoString).
        read_parts x.0 (get_texts x.1).0 (get_texts (get_texts x.1).1).0)
      (get-put_texts head (put_texts c.roles (put_texts c.permissions [])))
    ∙ ap (λ (x : List GoString × GoString). read_parts head x.0 (get_texts x.1).0)
        (get-put_texts c.roles (put_texts c.permissions []))
    ∙ ap (λ (x : List GoString × GoString). read_parts head c.roles x.0)
        (get-put_texts c.permissions [])

abbrev parse_at : ℕ → Option Claims → Parsed Claims
parse_at now none = Parsed.malformed
parse_at now (some c) =
    if leb c.registered.not_before now && ltb now c.registered.expires_at
    then Parsed.valid c
    else Parsed.expired

abbrev registered_of : Parsed Claims → Parsed RegisteredClaims
registered_of (Parsed.valid c) = Parsed.valid c.registered
registered_of Parsed.expired = Parsed.expired
registered_of Parsed.malformed = Parsed.malformed

pub parse_at-valid :
    (now : ℕ) (o : Option Claims) (c : Claims) → parse_at now o ≡ Parsed.valid c → o ≡ some c
parse_at-valid now none c h = ground arith
parse_at-valid now (some d) c h = ground arith

pub parse_at-registered :
    (now : ℕ) (o : Option Claims) (c : Claims) (r : RegisteredClaims)
    → registered_of (parse_at now o) ≡ Parsed.valid r
    → o ≡ some c
    → c.registered ≡ r
parse_at-registered now none c r h e = ground arith
parse_at-registered now (some d) c r h e = ground arith

pub parse_at-some :
    (now : ℕ) (o : Option Claims) (c : Claims)
    → o ≡ some c
    → c.registered.not_before ≤ now
    → now < c.registered.expires_at
    → parse_at now o ≡ Parsed.valid c
parse_at-some now o c e a b = ground arith

abbrev text_of : Result GoString → GoString
text_of (ok t) = t
text_of (err _) = []

pub signed :
    (token : GoString) (c : Claims) → ok (write_claims c) ≡ ok token → read_claims token ≡ some c
signed token c e = ap read_claims (sym (ap text_of e)) ∙ read-write_claims c

pub compared :
    (password hash : GoString)
    → ok (b'#' ∷ password) ≡ ok hash
    → str_eq hash (b'#' ∷ password) ≡ true
compared password hash e =
    ap (λ h. str_eq h (b'#' ∷ password)) (sym (ap text_of e)) ∙ str_eq_refl (b'#' ∷ password)

abbrev pub jwt : JwtLib
jwt = record {
  numeric_date = λ t. t;
  sign = λ key c. ok (write_claims c);
  sign_registered = λ key r. ok (write_claims (bare r));
  parse = λ now key token. parse_at now (read_claims token);
  parse_registered = λ now key token. registered_of (parse_at now (read_claims token));
  parse_unverified = read_claims;
  numeric_date-le = λ t. omega arith;
  numeric_date-idem = λ t. refl;
  parse-sign =
      λ now key token c e d a b. parse_at-some now (read_claims token) c (signed token c e) a b;
  parse_unverified-sign = λ key token c e d. signed token c e;
  parse_unverified-sign_registered = λ key token r e d. signed token (bare r) e;
  parse_registered-sign_registered = λ now key token r e d a b.
      ap registered_of
        (parse_at-some now (read_claims token) (bare r) (signed token (bare r) e) a b);
  parse_registered-parse = λ now key token c e. ap registered_of e;
  parse_unverified-parse = λ now key token c e. parse_at-valid now (read_claims token) c e;
  parse_unverified-parse_registered =
      λ now key token r c e u. parse_at-registered now (read_claims token) c r e u;
}

abbrev pub json : JsonLib
json = record {
  marshal = λ d. d.refresh_token_id;
  string_field = λ key text. some text;
  refresh_token_id-marshal = λ d. refl;
}

abbrev pub bcrypt : Bcrypt
bcrypt = record {
  generate = λ salt password. ok (b'#' ∷ password);
  compare = λ hash password. str_eq hash (b'#' ∷ password);
  compare-generate = λ salt password hash e. compared password hash e;
}
