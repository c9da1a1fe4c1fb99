-- ===== src/Graphql/Escalation.antt =====
-- The mutation assignRole (internal/transport/graphql/schema.resolvers.go) over the tables of users and
-- roles.
use go_clean_arch_poc.Base.{◌≡◌}
use go_clean_arch_poc.Domain.Error.{Error, Result, ok}
use go_clean_arch_poc.Domain.Role.{Role}
use go_clean_arch_poc.Domain.User as DomainUser
use go_clean_arch_poc.Domain.User.{User}
use go_clean_arch_poc.Users.Operations as Operations
use go_clean_arch_poc.Users.Tables.{UserDb}
use go_clean_arch_poc.Users.Tables.UserRepository.{Postgres}
use go_clean_arch_poc.Users.Tables.RoleRepository
use go_clean_arch_poc.Users.Tables.Assigned.{on_tables}
use go_clean_arch_poc.Service.{Service}

-- A step whose result is there returns what the rest returns.
abbrev Succeeds : {S B : Type 0} → S × Result B → Type 0
Succeeds {S} {B} x = (s' : S) × (b : B) × (x ≡ (s', ok b))

module _ {C F P : Type 0} (svc : Service C UserDb F P) (pg : Postgres) where
  -- The service over the tables of users and roles.
  abbrev pub tabled : Service C UserDb F P
  tabled = record svc { users = on_tables svc.users pg }
