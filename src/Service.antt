-- ===== src/Service.antt =====
-- The service that the transports share (internal/infrastructure/factory/factory.go wires it): the use
-- cases over one database `D` and one cache `C`, the files `F` and the publisher `P`, and what a call
-- of a use case does to the state of the whole.
use go_clean_arch_poc.Base.{ℕ, GoString, Option, List}
use go_clean_arch_poc.Base.Int.{Time}
use go_clean_arch_poc.Domain.Error.{Result, ok, err}
use go_clean_arch_poc.Domain.Task.{Uuid}
use go_clean_arch_poc.Auth.Acl.{AclRepository}
use go_clean_arch_poc.Auth.Rbac.{Authorizer}
use go_clean_arch_poc.Auth.Jwt.{UuidLib, TokenClaims}
use go_clean_arch_poc.Auth.Sessions
use go_clean_arch_poc.Auth.Sessions.{AuthState, AuthUseCase}
use go_clean_arch_poc.Labels
use go_clean_arch_poc.Labels.{LabelRepository}
use go_clean_arch_poc.Tasks.Ports.{TaskState, TaskUseCase}
use go_clean_arch_poc.Users.Ports as UserPorts
use go_clean_arch_poc.Users.Ports.{UserState, UserUseCase}

pub record Service (C D F P : Type 0) : Type 0 where
  pub tasks : TaskUseCase C D F P
  pub users : UserUseCase C D
  pub auth : AuthUseCase C D
  pub label_repo : LabelRepository D
  pub label_validator : Labels.Validator
  pub acl_repo : AclRepository D
  pub authorizer : Authorizer
  pub uuids : UuidLib

pub record State (C D F P : Type 0) : Type 0 where
  pub cache : Option C
  pub db : D
  pub files : F
  pub published : P
  pub auth_events : List Sessions.UserEvent
  pub user_events : List UserPorts.UserEvent

-- What `time.Now()`, `uuid.New()` and the salt of bcrypt give while a request is served: an operation
-- that makes several ids takes them in order.
pub record Moment : Type 0 where
  pub now : Time
  pub first_id : Uuid
  pub second_id : Uuid
  pub third_id : Uuid
  pub salt : ℕ

-- The values under ClaimsContextKey and TokenContextKey.
pub record Context : Type 0 where
  pub claims : Option TokenClaims
  pub token : GoString

-- A state with no value beside it.
abbrev pub done : {D : Type 0} → D → D × Unit {0}
done d = (d, tt)

module _ {C D F P : Type 0} where
  abbrev pub task_state : State C D F P → TaskState C D F P
  task_state s = record { cache = s.cache; db = s.db; files = s.files; published = s.published }

  abbrev pub with_task_state : State C D F P → TaskState C D F P → State C D F P
  with_task_state s t = record s {
    cache = t.cache;
    db = t.db;
    files = t.files;
    published = t.published;
  }

  abbrev pub user_state : State C D F P → UserState C D
  user_state s = record { cache = s.cache; db = s.db; events = s.user_events }

  abbrev pub with_user_state : State C D F P → UserState C D → State C D F P
  with_user_state s u = record s { cache = u.cache; db = u.db; user_events = u.events }

  abbrev pub auth_state : State C D F P → AuthState C D
  auth_state s = record { cache = s.cache; db = s.db; events = s.auth_events }

  abbrev pub with_auth_state : State C D F P → AuthState C D → State C D F P
  with_auth_state s a = record s { cache = a.cache; db = a.db; auth_events = a.events }

  -- A call of a use case on its part of the state.
  abbrev pub on_tasks {ℓ} :
      {A : Type ℓ} → (TaskState C D F P → TaskState C D F P × A) → State C D F P → State C D F P × A
  on_tasks call s = let (t, r) = call (task_state s) in (with_task_state s t, r)

  abbrev pub on_users {ℓ} :
      {A : Type ℓ} → (UserState C D → UserState C D × A) → State C D F P → State C D F P × A
  on_users call s = let (u, r) = call (user_state s) in (with_user_state s u, r)

  abbrev pub on_auth {ℓ} :
      {A : Type ℓ} → (AuthState C D → AuthState C D × A) → State C D F P → State C D F P × A
  on_auth call s = let (a, r) = call (auth_state s) in (with_auth_state s a, r)

  -- A write of labels that fails has written nothing.
  abbrev pub on_labels {ℓ} :
      {A : Type ℓ} → (D → Result (D × A)) → State C D F P → State C D F P × Result A
  on_labels call s = elim (call s.db) [
    | ok (d, a) ↦ (record s { db = d }, ok a)
    | err e ↦ (s, err e)
  ]
