-- ===== src/Tests/Sessions.antt =====
-- Sessions at concrete inputs (internal/application/usecase/auth/auth_usecase.go), over the in-memory
-- cache and a database of one user.
use go_clean_arch_poc.Base.{
  ◌≡◌, refl, arith, bytes, false, none, some, [], ◌==◌, str_eq, str_discrete, if◌then◌else◌,
}
use go_clean_arch_poc.Base.Int.{pos}
use go_clean_arch_poc.Base.Dict
use go_clean_arch_poc.Domain.Error.{ok, err, is_ok, err_invalid_token}
use go_clean_arch_poc.Domain.User.{User, verify_password, update_password}
use go_clean_arch_poc.Cache.Keys
use go_clean_arch_poc.Cache.Memory
use go_clean_arch_poc.Cache.Memory.{MemoryCache, new_memory_cache}
use go_clean_arch_poc.Cache.Memory.Laws.{has_lapsed}
use go_clean_arch_poc.Cache.Port.{memory_repository}
use go_clean_arch_poc.Auth.Rbac.{permission_strings}
use go_clean_arch_poc.Auth.Jwt.{
  TokenService, bare, read_claims, generate_token_pair, validate_token, extract_token_id,
  validate_refresh_token,
}
use go_clean_arch_poc.Auth.Sessions
use go_clean_arch_poc.Auth.Sessions.{
  AuthUseCase, AuthState, AuthOutput, UserRepository, RoleRepository, Validator,
  ChangePasswordInput, generate_auth_output, logout, refresh_token, validate_access_token,
  change_password, invalidate_all_user_sessions, not_revoked, store_sessions,
}
use go_clean_arch_poc.Auth.Sessions.{UserEvent, LoginInput, CreateUserInput, login, register}
use go_clean_arch_poc.Domain.Role.{Role}
use go_clean_arch_poc.Base.{true, ◌∷◌}
use go_clean_arch_poc.Auth.Sessions.Entry.{login-password}
use go_clean_arch_poc.Auth.Sessions.Issued.{claims_for, refresh_claims_for}
use go_clean_arch_poc.Auth.Sessions.Accepted.{stands, refresh_token-access_token}
use go_clean_arch_poc.Auth.Sessions.Logout.{logout-refused}
use go_clean_arch_poc.Auth.Sessions.Revocation.{change_password-revokes}
use go_clean_arch_poc.Tests.Libraries.{uuids, jwt, json, bcrypt, write_claims}

abbrev pub ann : User
ann = record {
  id = 5;
  email = bytes "ann@x.org";
  password_hash = bytes "#old";
  name = bytes "Ann";
  roles = [];
  created_at = 0;
  updated_at = 0;
}

abbrev pub one_user : UserRepository User
one_user = record {
  save = λ u d. ok u;
  update = λ u d. ok u;
  find_by_id = λ id d. ok (if d.id == id then some d else none);
  find_by_email = λ email d. ok (if str_eq d.email email then some d else none);
  exists_by_email = λ email d. ok (str_eq d.email email);
}

abbrev pub member : Role
member = record {
  id = 3;
  name = bytes "member";
  description = [];
  permissions = [];
  created_at = 0;
  updated_at = 0;
}

abbrev pub member_only : RoleRepository User
member_only = record { find_by_name = λ name d. ok (some member) }

abbrev pub accept_all : Validator
accept_all = record { create_user = λ i. ok tt; login = λ i. ok tt; change_password = λ i. ok tt }

abbrev pub service : TokenService
service = record {
  secret = bytes "s";
  access_token_ttl = pos 100;
  refresh_token_ttl = pos 1000;
  issuer = bytes "i";
}

abbrev pub auth : AuthUseCase MemoryCache User
auth = record {
  user_repo = one_user;
  role_repo = member_only;
  cache_repo = memory_repository;
  token_service = service;
  validator = accept_all;
  uuids = uuids;
  jwt = jwt;
  json = json;
  bcrypt = bcrypt;
}

abbrev pub start : AuthState MemoryCache User
start = record { cache = some new_memory_cache; db = ann; events = [] }

abbrev pub issued : AuthOutput
issued = record {
  tokens = record {
    access_token = write_claims (claims_for auth 10 1 ann);
    refresh_token = write_claims (bare (refresh_claims_for auth 10 2 ann));
    expires_at = 110;
  };
  user = ann;
}

abbrev pub logged_in : AuthState MemoryCache User
logged_in = (generate_auth_output auth 10 1 2 ann start).0

gives : generate_auth_output auth 10 1 2 ann start ≡ (logged_in, ok issued)
unfolding generate_auth_output generate_token_pair
gives = refl

kept : logged_in.db ≡ ann
unfolding generate_auth_output generate_token_pair
kept = refl

lasts : has_lapsed 10 50 service.refresh_token_ttl ≡ false
unfolding has_lapsed
lasts = refl

-- The state in which the cache has been emptied.
abbrev emptied : AuthState MemoryCache User
emptied = record logged_in { cache = some new_memory_cache }

abbrev session_cache : MemoryCache
session_cache = store_sessions auth 10 ann issued.tokens new_memory_cache

holds_session : logged_in.cache ≡ some session_cache
unfolding generate_auth_output generate_token_pair
holds_session = refl

session_is_there : stands auth 50 5 1 session_cache ≡ true
unfolding store_sessions memory_repository Memory.get new_memory_cache Dict.get str_discrete
    extract_token_id Memory.set Dict.put Keys.user_session Keys.token_blacklist Dict.remove
session_is_there = refl

found : auth.user_repo.find_by_id 5 logged_in.db ≡ ok (some ann)
unfolding generate_auth_output generate_token_pair
found = refl

refresh_token-access_token_example :
    refresh_token auth 50 3 4 issued.tokens.access_token logged_in
    ≡ generate_auth_output auth 50 3 4 ann logged_in
refresh_token-access_token_example =
    refresh_token-access_token auth 10 50 1 2 3 4 ann ann start logged_in logged_in issued
      session_cache gives (omega arith) (omega arith) holds_session session_is_there found

abbrev logged_out : AuthState MemoryCache User
logged_out = (logout auth 50 5 issued.tokens.access_token logged_in).0

leaves : logout auth 50 5 issued.tokens.access_token logged_in ≡ (logged_out, ok tt)
unfolding logout extract_token_id
leaves = refl

logout-refused_example :
    (is_ok (validate_access_token auth 60 issued.tokens.access_token logged_out) ≡ false)
    × (refresh_token auth 60 3 4 issued.tokens.refresh_token logged_out
        ≡ (logged_out, err err_invalid_token))
logout-refused_example =
    logout-refused auth 10 50 60 1 2 3 4 ann start logged_in logged_out issued new_memory_cache refl
      gives lasts leaves

abbrev new_password : ChangePasswordInput
new_password = record { old_password = bytes "old"; new_password = bytes "new" }

abbrev changed : AuthState MemoryCache User
changed = (change_password auth 60 9 5 new_password logged_in).0

changes : change_password auth 60 9 5 new_password logged_in ≡ (changed, ok tt)
unfolding change_password verify_password update_password str_discrete generate_auth_output
    generate_token_pair
changes = refl

pub stored : logged_in.cache ≡ some (store_sessions auth 10 ann issued.tokens new_memory_cache)
unfolding generate_auth_output generate_token_pair
stored = refl

pub reads :
    validate_token auth.uuids auth.jwt auth.token_service 70 issued.tokens.access_token
    ≡ ok (read_claims (claims_for auth 10 1 ann))
unfolding validate_token permission_strings go_clean_arch_poc.Auth.Rbac.role_names
reads = refl

reads_refresh :
    validate_refresh_token auth.uuids auth.jwt auth.token_service 70 issued.tokens.refresh_token
    ≡ ok 5
unfolding validate_refresh_token
reads_refresh = refl

reads_id :
    extract_token_id auth.uuids auth.jwt auth.token_service issued.tokens.refresh_token
    ≡ ok (auth.uuids.string 2)
unfolding extract_token_id
reads_id = refl

change_password-revokes_example :
    (validate_access_token auth 70 issued.tokens.access_token changed ≡ err err_invalid_token)
    × (refresh_token auth 70 3 4 issued.tokens.refresh_token changed
        ≡ (changed, err err_invalid_token))
change_password-revokes_example =
    change_password-revokes auth 60 70 9 5 3 4 new_password logged_in changed
      (store_sessions auth 10 ann issued.tokens new_memory_cache) issued.tokens.access_token
      issued.tokens.refresh_token (auth.uuids.string 2) (read_claims (claims_for auth 10 1 ann))
      stored changes reads refl (auth.uuids.string-nonempty 1) reads_refresh reads_id
      (auth.uuids.string-nonempty 2)

abbrev right_password : LoginInput
right_password = record { email = bytes "ann@x.org"; password = bytes "old" }

abbrev wrong_password : LoginInput
wrong_password = record { email = bytes "ann@x.org"; password = bytes "new" }

abbrev unknown_email : LoginInput
unknown_email = record { email = bytes "bob@x.org"; password = bytes "new" }

abbrev after_login : AuthState MemoryCache User
after_login = (login auth 10 1 2 right_password start).0

logs_in : login auth 10 1 2 right_password start ≡ (after_login, ok issued)
unfolding login verify_password generate_auth_output generate_token_pair str_discrete
logs_in = refl

login-password_example :
    (auth.user_repo.find_by_email (bytes "ann@x.org") start.db ≡ ok (some ann))
    × (verify_password auth.bcrypt (bytes "old") ann ≡ true)
    × (after_login.db ≡ start.db)
    × (after_login.events ≡ UserEvent.user_logged_in 5 ∷ [])
login-password_example = login-password auth 10 1 2 right_password start after_login issued logs_in

no_bob : auth.user_repo.find_by_email (bytes "bob@x.org") start.db ≡ ok none
unfolding str_discrete
no_bob = refl

has_ann : auth.user_repo.find_by_email (bytes "ann@x.org") start.db ≡ ok (some ann)
unfolding str_discrete
has_ann = refl

not_new : verify_password auth.bcrypt (bytes "new") ann ≡ false
unfolding verify_password str_discrete
not_new = refl

abbrev bob_input : CreateUserInput
bob_input = record { email = bytes "bob@x.org"; password = bytes "pw"; name = bytes "Bob" }

abbrev bob : User
bob = record {
  id = 8;
  email = bytes "bob@x.org";
  password_hash = bytes "#pw";
  name = bytes "Bob";
  roles = member ∷ [];
  created_at = 10;
  updated_at = 10;
}

abbrev bob_tokens : AuthOutput
bob_tokens = record {
  tokens = record {
    access_token = write_claims (claims_for auth 10 1 bob);
    refresh_token = write_claims (bare (refresh_claims_for auth 10 2 bob));
    expires_at = 110;
  };
  user = bob;
}

abbrev registered : AuthState MemoryCache User
registered = (register auth 10 8 9 1 2 bob_input start).0
