-- ===== src/Tests/Transport.antt =====
-- The routes of REST and the fields of GraphQL at concrete inputs (internal/transport/rest,
-- internal/transport/graphql), over tables of one user with one of two roles, the in-memory cache and
-- a database of tasks that holds one.
use go_clean_arch_poc.Base.{
  length, bytes, ◌≡◌, refl, arith, true, false, none, some, [], ◌∷◌, ◌==◌, if◌then◌else◌, ◌++◌,
  ◌&&◌, ◌||◌, str_discrete, ◌⊎◌,
}
use go_clean_arch_poc.Base.Int.{pos}
use go_clean_arch_poc.Domain.Error.{Result, ok, err, err_unauthorized}
use go_clean_arch_poc.Domain.Task.{Task, Uuid}
use go_clean_arch_poc.Domain.Status
use go_clean_arch_poc.Domain.Role.{Role}
use go_clean_arch_poc.Domain.User as DomainUser
use go_clean_arch_poc.Domain.User.{User, has_role}
use go_clean_arch_poc.Cache.Memory.{MemoryCache, new_memory_cache}
use go_clean_arch_poc.Cache.Port.{memory_repository}
use go_clean_arch_poc.Messaging.EventBus.{EventBus, new_event_bus}
use go_clean_arch_poc.Domain.Event.{TaskEvent}
use go_clean_arch_poc.Workers.Cleanup.{bus_publisher}
use go_clean_arch_poc.Auth.Jwt.{TokenClaims}
use go_clean_arch_poc.Auth.Rbac.{new_authorizer}
use go_clean_arch_poc.Auth.Sessions.{AuthUseCase}
use go_clean_arch_poc.Tasks.Ports as TaskPorts
use go_clean_arch_poc.Tasks.Ports.{TaskUseCase}
use go_clean_arch_poc.Users.Ports.{UserState, UserUseCase, UserOutput, UserListOutput}
use go_clean_arch_poc.Users.Operations as Operations
use go_clean_arch_poc.Users.Operations.{user_from_entity}
use go_clean_arch_poc.Users.Tables.{
  UserDb, find, keep, update_where, assign_role_to_user, remove_role_from_user, drop_pair, get_role,
  get_user_roles, join_roles, update_user, get_user, get_permissions_by_role_ids,
  get_role_permissions, join_permissions,
}
use go_clean_arch_poc.Users.Tables.Assigned.{on_tables, assign_role-find_by_id}
use go_clean_arch_poc.Users.Tables.UserRepository.{
  Postgres, auth_user_repository, user_repository, find_by_id, update, sync_user_roles,
  remove_roles, assign_roles, load_user_roles, sqlc_user_to_entity, permissions_of,
}
use go_clean_arch_poc.Users.Tables.RoleRepository
use go_clean_arch_poc.Users.Tables.RoleRepository.{auth_role_repository}
use go_clean_arch_poc.Users.Tables.Pairs.{IsSound}
use go_clean_arch_poc.Domain.User.{holds_role}
use go_clean_arch_poc.Auth.Acl.{AclRepository}
use go_clean_arch_poc.Service.{Service, State, Moment, Context}
use go_clean_arch_poc.Rest.Response.{HttpLib, Request, Form}
use go_clean_arch_poc.Rest.Router.{Route, TaskRoute, serve}
use go_clean_arch_poc.Rest.Refusals.{IsRefused}
use go_clean_arch_poc.Rest.Access.{IsAllowed, serve-IsAllowed}
use go_clean_arch_poc.Rest.Locked.{serve_none}
use go_clean_arch_poc.Rest.Query.{parse_pagination}
use go_clean_arch_poc.Rest.Pages.{IsInRange, parse_pagination-IsInRange}
use go_clean_arch_poc.Tasks.Ports.{Pagination}
use go_clean_arch_poc.Graphql.Mutations.{assign_role}
use go_clean_arch_poc.Users.Tables.Synced.{find_by_id-update}
use go_clean_arch_poc.Graphql.Schema.{Field, TokenMutation, mutate, resolve}
use go_clean_arch_poc.Graphql.Access.{
  no_claims, claims_of, with_rights, resolve-no_claims, mutate-any_rights,
}
use go_clean_arch_poc.Tests.Libraries.{uuids, jwt, json, bcrypt}
use go_clean_arch_poc.Tests.UserService as UserTests
use go_clean_arch_poc.Tests.Labelling as LabelTests
use go_clean_arch_poc.Tests.TaskService as TaskTests
use go_clean_arch_poc.Tests.Sessions as SessionTests
use go_clean_arch_poc.Tests.Sessions.{ann}

abbrev tables : UserDb
tables = record {
  users =
      record {
        id = 5;
        email = ann.email;
        password_hash = ann.password_hash;
        name = ann.name;
        created_at = 0;
        updated_at = 0;
      }
      ∷ [];
  roles =
      record { id = 3; name = bytes "member"; description = none; created_at = 0; updated_at = 0 }
      ∷ record { id = 1; name = bytes "admin"; description = none; created_at = 0; updated_at = 0 }
      ∷ [];
  permissions = [];
  user_roles = (5, 3) ∷ [];
  role_permissions = [];
}

abbrev postgres : Postgres
postgres = record {
  matches_text = λ text r. true;
  page = λ p rows. ok rows;
  by_name = λ rows. rows;
  by_resource = λ ps. ps;
}

abbrev report : Task
report = record {
  id = 7;
  title = bytes "report";
  description = [];
  status = Status.todo;
  priority = bytes "LOW";
  due_date = none;
  assignee_id = none;
  creator_id = 5;
  labels = [];
  created_at = 1;
  updated_at = 1;
}

abbrev one_page : TaskPorts.PaginatedResult
one_page = record { total = 1; page = pos 1; page_size = pos 20; total_pages = pos 1 }

abbrev one_task : TaskPorts.TaskRepository UserDb
one_task = record {
  save = λ t d. ok d;
  update = λ t d. ok d;
  delete = λ id d. ok d;
  find_by_id = λ id d. ok (if id == 7 then some report else none);
  exists_by_id = λ id d. ok (id == 7);
  find_all = λ f p d. ok (report ∷ [], one_page);
  search = λ text p d. ok (report ∷ [], one_page);
  find_overdue = λ now p d. ok ([], one_page);
}

abbrev tasks : TaskUseCase MemoryCache UserDb TaskTests.Files (EventBus TaskEvent)
tasks = record {
  task_repo = one_task;
  attachment_repo = record {
    save_attachment = λ a d. ok d;
    find_attachment_by_id = λ id d. ok none;
    find_attachments_by_task_id = λ id d. ok [];
    delete_attachment = λ id d. ok d;
  };
  user_repo = record { exists_by_id = λ id d. ok (id == 5) };
  label_repo = record { exists_by_id = λ id d. ok false; find_by_task_id = λ id d. ok [] };
  file_storage = some TaskTests.disk;
  cache_repo = memory_repository;
  event_publisher = some bus_publisher;
  validator = TaskTests.accept_all;
  uuids = uuids;
  task_json = TaskTests.no_json;
  list_json = TaskTests.list_json;
  printing = TaskTests.printing;
}

abbrev auth : AuthUseCase MemoryCache UserDb
auth = record {
  user_repo = auth_user_repository;
  role_repo = auth_role_repository;
  cache_repo = memory_repository;
  token_service = SessionTests.service;
  validator = SessionTests.accept_all;
  uuids = uuids;
  jwt = jwt;
  json = json;
  bcrypt = bcrypt;
}

abbrev users : UserUseCase MemoryCache UserDb
users = record {
  user_repo = user_repository postgres;
  role_repo = RoleRepository.role_repository postgres;
  cache_repo = memory_repository;
  validator = UserTests.accept_all;
  uuids = uuids;
  bcrypt = bcrypt;
  user_json = UserTests.no_json UserOutput;
  list_json = UserTests.no_json UserListOutput;
  printing = TaskTests.printing;
}

-- Nobody has been granted anything but user 5 the reading of task 7.
abbrev acl : AclRepository UserDb
acl = record {
  save = λ e d. ok d;
  delete = λ id d. ok d;
  find_by_resource = λ r id d. ok [];
  find_by_subject = λ t id d. ok [];
  has_permission = λ r id t subject permission d. ok (id == 7 && subject == 5);
  delete_by_resource = λ r id d. ok d;
}

abbrev no_entry : AclRepository UserDb
no_entry = record acl { has_permission = λ r id t subject permission d. ok false }

abbrev service_with :
    AclRepository UserDb → Service MemoryCache UserDb TaskTests.Files (EventBus TaskEvent)
service_with acl_repo = record {
  tasks = tasks;
  users = users;
  auth = auth;
  label_repo = record {
    save = λ l d. ok d;
    update = λ l d. ok d;
    delete = λ id d. ok d;
    find_by_id = λ id d. ok none;
    find_by_name = λ name d. ok none;
    find_all = λ d. ok [];
    exists_by_id = λ id d. ok false;
  };
  label_validator = LabelTests.accept_all;
  acl_repo = acl_repo;
  authorizer = new_authorizer;
  uuids = uuids;
}

abbrev service : Service MemoryCache UserDb TaskTests.Files (EventBus TaskEvent)
service = service_with acl

abbrev state : State MemoryCache UserDb TaskTests.Files (EventBus TaskEvent)
state = record {
  cache = SessionTests.logged_in.cache;
  db = tables;
  files = [];
  published = new_event_bus;
  auth_events = [];
  user_events = [];
}

abbrev lib : HttpLib
lib = record {
  create_task = λ body. none;
  update_task = λ body. none;
  assignee_id = λ body. none;
  status = λ body. some body;
  update_user = λ body. none;
  login = λ body. none;
  create_user = λ body. none;
  refresh_token = λ body. some body;
  change_password = λ body. none;
  create_label = λ body. none;
  update_label = λ body. none;
  parse_multipart_form = λ body. Form.no_file;
  atoi = λ text. none;
  parse_bool = λ text. none;
  to_lower = λ text. text;
  is_of_validator = λ e. false;
}

-- GET of the task 7, with the token of user 5.
abbrev request : Request
request = record {
  method = bytes "GET";
  authorization = bytes "bearer " ++ SessionTests.issued.tokens.access_token;
  path_value = λ name. uuids.string 7;
  query = λ name. [];
  body = [];
}

abbrev at_50 : Moment
at_50 = record { now = 50; first_id = 21; second_id = 22; third_id = 23; salt = 0 }

abbrev nobody : Context
nobody = record { claims = none; token = [] }

serve-IsAllowed_example :
    IsRefused state (serve service lib (Route.of_task TaskRoute.get) at_50 nobody request state)
    ⊎ IsAllowed service lib at_50 request state (Route.of_task TaskRoute.get)
unfolding str_discrete
serve-IsAllowed_example =
    serve-IsAllowed service lib at_50 request state nobody refl (Route.of_task TaskRoute.get)

serve_none_example :
    IsRefused state (
      serve (service_with no_entry) lib (Route.of_task TaskRoute.delete) at_50 nobody request state)
unfolding str_discrete
serve_none_example =
    serve_none (service_with no_entry) lib at_50 request state nobody TaskRoute.delete refl
      (λ id t subject permission. refl)

abbrev member : TokenClaims
member = record {
  user_id = 5;
  email = ann.email;
  roles = bytes "member" ∷ [];
  role_ids = 3 ∷ [];
  permissions = [];
  token_id = bytes "u";
  expires_at = 110;
}

abbrev promote : TokenMutation
promote = TokenMutation.assign_role 5 1

resolve-no_claims_example :
    resolve service (Field.by_token promote) at_50 (no_claims []) state
    ≡ (state, err err_unauthorized)
resolve-no_claims_example = resolve-no_claims service at_50 state [] (Field.by_token promote) refl

mutate-any_rights_example :
    mutate
      (with_rights service at_50 state no_entry new_authorizer)
      promote
      at_50
      (claims_of service at_50 state (record member { roles = [] }) [])
      state
    ≡ mutate service promote at_50 (claims_of service at_50 state member []) state
mutate-any_rights_example =
    mutate-any_rights service at_50 state no_entry new_authorizer promote [] member
      (record member { roles = [] }) refl

tables-IsSound : IsSound tables
tables-IsSound u r h = ground arith

abbrev admin : Role
admin = record {
  id = 1;
  name = bytes "admin";
  description = [];
  permissions = [];
  created_at = 0;
  updated_at = 0;
}

abbrev ann_member : User
ann_member = record ann { roles = SessionTests.member ∷ [] }

abbrev promoted : User
promoted = DomainUser.assign_role 50 admin ann_member

abbrev user_tables : UserState MemoryCache UserDb
user_tables = record { cache = state.cache; db = tables; events = [] }

abbrev on_them : UserUseCase MemoryCache UserDb
on_them = on_tables users postgres

abbrev after : UserState MemoryCache UserDb
after = (Operations.assign_role on_them 50 5 1 user_tables).0

assigns :
    Operations.assign_role on_them 50 5 1 user_tables ≡ (after, ok (user_from_entity promoted))
unfolding Operations.assign_role Operations.save_roles user_repository
    RoleRepository.role_repository find_by_id RoleRepository.find_by_id update sync_user_roles
    remove_roles assign_roles load_user_roles sqlc_user_to_entity RoleRepository.sqlc_role_to_entity
    get_role get_user_roles join_roles update_user get_user permissions_of
    get_permissions_by_role_ids get_role_permissions join_permissions DomainUser.assign_role find
    keep update_where assign_role_to_user remove_role_from_user drop_pair memory_repository
    new_memory_cache str_discrete
assigns = refl

assign_role-find_by_id_example :
    (u found : User) × (role : Role) × (find_by_id 5 tables ≡ ok (some u))
    × (RoleRepository.find_by_id 1 tables ≡ ok (some role))
    × (find_by_id 5 after.db ≡ ok (some found))
    × ((y : Uuid) → holds_role y found.roles ≡ (holds_role y u.roles || 1 == y))
    × (has_role role.name found ≡ true)
assign_role-find_by_id_example =
    assign_role-find_by_id users postgres 50 5 1 user_tables after (user_from_entity promoted)
      tables-IsSound assigns

abbrev db_of : Result UserDb → UserDb
db_of (ok d) = d
db_of (err _) = tables

writes : update promoted tables ≡ ok (db_of (update promoted tables))
unfolding update update_user sync_user_roles remove_roles assign_roles get_user_roles join_roles
    get_role DomainUser.assign_role find update_where assign_role_to_user remove_role_from_user
    drop_pair str_discrete
writes = refl

find_by_id-update_example :
    (found : User) × (find_by_id promoted.id (db_of (update promoted tables)) ≡ ok (some found))
    × (found.id ≡ promoted.id)
    × (found.email ≡ promoted.email)
    × (found.password_hash ≡ promoted.password_hash)
    × (found.name ≡ promoted.name)
    × ((y : Uuid) → holds_role y found.roles ≡ holds_role y promoted.roles)
find_by_id-update_example =
    find_by_id-update promoted tables (db_of (update promoted tables)) tables-IsSound writes

-- The request of a viewer: the claims hold one role, with no permission.
abbrev viewer : TokenClaims
viewer = record member { roles = bytes "viewer" ∷ []; role_ids = [] }

-- A library that reads a number from its length, and a request for page 4 with 4 items.
abbrev counting : HttpLib
counting = record lib { atoi = λ text. some (pos (length text)); parse_bool = λ text. some false }

abbrev page_4 : Request
page_4 = record request { query = λ name. bytes "four" }

abbrev asked : Pagination
asked = record { page = pos 4; page_size = pos 4; sort_by = bytes "four"; sort_desc = false }

parse_pagination-IsInRange_example : IsInRange asked
unfolding parse_pagination str_discrete
parse_pagination-IsInRange_example = parse_pagination-IsInRange counting page_4 asked refl
