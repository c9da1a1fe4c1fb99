-- ===== src/Tests/UserService.antt =====
-- The use case of users at concrete inputs (internal/application/usecase/user/user_usecase.go): over the
-- in-memory cache in which a session stands, and a database of one user.
use go_clean_arch_poc.Base.{
  GoString, bytes, ◌≡◌, ◌≢◌, refl, arith, none, some, [], ◌∷◌, ◌==◌, str_eq, str_discrete,
  if◌then◌else◌,
}
use go_clean_arch_poc.Base.Json.{Json}
use go_clean_arch_poc.Base.Int.{pos}
use go_clean_arch_poc.Domain.Error.{ok, err, err_invalid_token}
use go_clean_arch_poc.Domain.User as DomainUser
use go_clean_arch_poc.Domain.User.{User}
use go_clean_arch_poc.Cache.Memory.{MemoryCache, new_memory_cache}
use go_clean_arch_poc.Cache.Port.{memory_repository}
use go_clean_arch_poc.Auth.Jwt.{read_claims}
use go_clean_arch_poc.Auth.Sessions.{store_sessions, validate_access_token}
use go_clean_arch_poc.Auth.Sessions.Issued.{claims_for}
use go_clean_arch_poc.Users.Ports.{
  UserRepository, RoleRepository, Validator, UpdateUserInput, UserOutput, UserListOutput, UserState,
  UserUseCase,
}
use go_clean_arch_poc.Users.Operations.{
  user_from_entity, assign_role, save_roles, change_email, update_user, delete_user,
}
use go_clean_arch_poc.Users.Reading.{get_user, get_user_by_email}
use go_clean_arch_poc.Users.Fresh.{uncached, update_user-fresh}
use go_clean_arch_poc.Users.Sessions.{
  RoleChange, change_role, auth, over, change_role-revokes, delete_user-keeps_sessions,
}
use go_clean_arch_poc.Tests.Libraries.{uuids, bcrypt}
use go_clean_arch_poc.Tests.TaskService.{printing}
use go_clean_arch_poc.Tests.Sessions
use go_clean_arch_poc.Tests.Sessions.{ann, member, issued, logged_in, reads, stored}

abbrev one_user : UserRepository User
one_user = record {
  save = λ u d. ok u;
  update = λ u d. ok u;
  delete = λ id d. ok d;
  find_by_id = λ id d. ok (if d.id == id then some d else none);
  find_by_email = λ email d. ok (if str_eq d.email email then some d else none);
  exists_by_email = λ email d. ok (str_eq d.email email);
  find_all = λ filter p d.
      ok (d ∷ [], record { total = 1; page = pos 1; page_size = pos 20; total_pages = pos 1 });
}

abbrev one_role : RoleRepository User
one_role = record {
  save = λ r d. ok d;
  find_by_id = λ id d. ok (some member);
  find_by_name = λ name d. ok (some member);
  find_all = λ d. ok (member ∷ []);
  delete_by_names = λ names d. ok d;
  remove_all_permissions = λ id d. ok d;
}

abbrev pub accept_all : Validator
accept_all = record {
  create_user = λ i. ok tt;
  update_user = λ i. ok tt;
  filter = λ f. ok tt;
  pagination = λ p. ok tt;
}

pub never {ℓ} : {A : Type ℓ} (x : A) (text : GoString) → none ≡ some text → none ≡ some x
never x text h = ground arith

abbrev pub no_json : (A : Type 0) → Json A
no_json A = record {
  marshal = λ x. none;
  unmarshal = λ text. none;
  as_read = λ x. x;
  unmarshal-marshal = λ x text h. never x text h;
}

abbrev users : UserUseCase MemoryCache User
users = record {
  user_repo = one_user;
  role_repo = one_role;
  cache_repo = memory_repository;
  validator = accept_all;
  uuids = uuids;
  bcrypt = bcrypt;
  user_json = no_json UserOutput;
  list_json = no_json UserListOutput;
  printing = printing;
}

abbrev with_session : MemoryCache
with_session = store_sessions Sessions.auth 10 ann issued.tokens new_memory_cache

abbrev before : UserState MemoryCache User
before = record { cache = some with_session; db = ann; events = [] }

abbrev promoted : UserState MemoryCache User
promoted = (change_role users 60 5 (RoleChange.assign 3) before).0

promotes :
    change_role users 60 5 (RoleChange.assign 3) before
    ≡ (promoted, ok (user_from_entity (DomainUser.assign_role 60 member ann)))
unfolding change_role assign_role save_roles DomainUser.assign_role
promotes = refl

change_role-revokes_example :
    validate_access_token
      (auth users Sessions.auth)
      70
      issued.tokens.access_token
      (over users Sessions.auth logged_in promoted)
    ≡ err err_invalid_token
change_role-revokes_example =
    change_role-revokes users Sessions.auth 60 70 5 (RoleChange.assign 3) before promoted
      (user_from_entity (DomainUser.assign_role 60 member ann)) logged_in with_session
      issued.tokens.access_token (read_claims (claims_for Sessions.auth 10 1 ann)) promotes refl
      reads refl (uuids.string-nonempty 1)

abbrev gone : UserState MemoryCache User
gone = (delete_user users 5 before).0

deletes : delete_user users 5 before ≡ (gone, ok tt)
unfolding delete_user
deletes = refl

delete_user-keeps_sessions_example :
    validate_access_token
      (auth users Sessions.auth)
      70
      issued.tokens.access_token
      (over users Sessions.auth logged_in gone)
    ≡ validate_access_token
        (auth users Sessions.auth)
        70
        issued.tokens.access_token
        (over users Sessions.auth logged_in before)
delete_user-keeps_sessions_example =
    delete_user-keeps_sessions users Sessions.auth 70 5 before gone logged_in
      issued.tokens.access_token deletes

abbrev renaming : UpdateUserInput
renaming = record { email = some (bytes "a@x.org"); name = none }

abbrev renamed : User
renamed = record ann { email = bytes "a@x.org"; updated_at = 60 }

abbrev updated : UserState MemoryCache User
updated = (update_user users 60 5 renaming before).0

updates : update_user users 60 5 renaming before ≡ (updated, ok (user_from_entity renamed))
unfolding update_user change_email str_discrete
updates = refl

has_email : bytes "ann@x.org" ≢ []
has_email h = ground arith

has_new_email : bytes "a@x.org" ≢ []
has_new_email h = ground arith

update_user-fresh_example :
    ((get_user users 70 5 updated).1 ≡ (get_user users 70 5 (uncached users updated)).1)
    × ((get_user_by_email users 70 (bytes "ann@x.org") updated).1
        ≡ (get_user_by_email users 70 (bytes "ann@x.org") (uncached users updated)).1)
    × ((get_user_by_email users 70 (bytes "a@x.org") updated).1
        ≡ (get_user_by_email users 70 (bytes "a@x.org") (uncached users updated)).1)
update_user-fresh_example =
    update_user-fresh users 60 70 5 renaming before updated ann (user_from_entity renamed) updates
      refl has_email has_new_email
