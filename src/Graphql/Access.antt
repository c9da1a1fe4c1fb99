-- ===== src/Graphql/Access.antt =====
-- What the resolvers ask of who calls them (internal/transport/graphql/schema.resolvers.go).
use go_clean_arch_poc.Base.{GoString, Bool, true, false, ◌≡◌, refl, ap, sym, arith, none, some}
use go_clean_arch_poc.Domain.Error.{err, err_unauthorized}
use go_clean_arch_poc.Auth.Acl.{AclRepository}
use go_clean_arch_poc.Auth.Jwt.{TokenClaims}
use go_clean_arch_poc.Auth.Rbac.{Authorizer}
use go_clean_arch_poc.Service.{Service, State, Context, Moment}
use go_clean_arch_poc.Graphql.Resolver.{enrich_and_map_task, find_party}
use go_clean_arch_poc.Tasks.Writing as Writing
use go_clean_arch_poc.Tasks.Editing as Editing
use go_clean_arch_poc.Tasks.Attachments as Attachments
use go_clean_arch_poc.Graphql.Mutations
use go_clean_arch_poc.Graphql.Mutations.{editors}
use go_clean_arch_poc.Graphql.Queries
use go_clean_arch_poc.Graphql.Schema.{
  Field, LabelMutation, QueryField, TokenMutation, ask, mutate, mutate_label, resolve,
}

-- The fields that anyone may ask for.
abbrev pub is_public : Field → Bool
is_public (Field.login _) = true
is_public (Field.register _) = true
is_public (Field.refresh_token _) = true
is_public _ = false

abbrev pub no_claims : GoString → Context
no_claims token = record { claims = none; token = token }

module _ {C D F P : Type 0} (svc : Service C D F P) (at : Moment) (s : State C D F P) where
  mutate-no_claims :
      (token : GoString) (m : TokenMutation)
      → mutate svc m at (no_claims token) s ≡ (s, err err_unauthorized)
  unfolding mutate Mutations.create_task Mutations.update_task Mutations.assign_task
      Mutations.add_label_to_task Mutations.remove_label_from_task Mutations.delete_task
      Mutations.unassign_task Mutations.complete_task Mutations.archive_task
      Mutations.change_task_status Mutations.upload_task_attachment Mutations.delete_task_attachment
      Mutations.update_user Mutations.delete_user Mutations.assign_role Mutations.remove_role
      Mutations.change_password
  mutate-no_claims token (TokenMutation.create_task _) = refl
  mutate-no_claims token m = refl

  mutate_label-no_claims :
      (token : GoString) (m : LabelMutation)
      → mutate_label svc m at (no_claims token) s ≡ (s, err err_unauthorized)
  unfolding mutate_label Mutations.create_label Mutations.update_label Mutations.delete_label
  mutate_label-no_claims token (LabelMutation.create _) = refl
  mutate_label-no_claims token m = refl

  ask-no_claims :
      (token : GoString) (q : QueryField)
      → ask svc q at (no_claims token) s ≡ (s, err err_unauthorized)
  unfolding ask Queries.task Queries.user Queries.role Queries.label Queries.task_attachments
      Queries.tasks Queries.users Queries.overdue_tasks Queries.me Queries.roles Queries.labels
      Queries.download_task_attachment
  ask-no_claims token (QueryField.task _) = refl
  ask-no_claims token q = refl

  -- Without claims every field of GraphQL but login, register and refreshToken answers that the
  -- caller is not authorized, and changes nothing.
  pub resolve-no_claims :
      (token : GoString) (field : Field)
      → is_public field ≡ false
      → resolve svc field at (no_claims token) s ≡ (s, err err_unauthorized)
  unfolding resolve Mutations.logout
  resolve-no_claims token (Field.login _) h = ground arith
  resolve-no_claims token (Field.register _) h = ground arith
  resolve-no_claims token (Field.refresh_token _) h = ground arith
  resolve-no_claims token Field.logout h = refl
  resolve-no_claims token (Field.by_token m) h = mutate-no_claims token m
  resolve-no_claims token (Field.of_label m) h = mutate_label-no_claims token m
  resolve-no_claims token (Field.query q) h = ask-no_claims token q

  -- The service with other rights: an access control list and a policy of its own.
  abbrev pub with_rights : AclRepository D → Authorizer → Service C D F P
  with_rights acl_repo authorizer = record svc { acl_repo = acl_repo; authorizer = authorizer }

  abbrev pub claims_of : TokenClaims → GoString → Context
  claims_of claims token = record { claims = some claims; token = token }

  -- The mutations of tasks, of users and of passwords ask for no right: with other roles,
  -- permissions and the like in the claims of the same user, another access control list and
  -- another policy they do and return the same.
  pub mutate-any_rights :
      (acl_repo : AclRepository D) (authorizer : Authorizer) (m : TokenMutation) (token : GoString)
      (claims claims' : TokenClaims)
      → claims.user_id ≡ claims'.user_id
      → mutate (with_rights acl_repo authorizer) m at (claims_of claims' token) s
        ≡ mutate svc m at (claims_of claims token) s
  unfolding mutate Mutations.create_task Mutations.update_task Mutations.assign_task
      Mutations.add_label_to_task Mutations.remove_label_from_task Mutations.delete_task
      Mutations.unassign_task Mutations.complete_task Mutations.archive_task
      Mutations.change_task_status Mutations.upload_task_attachment Mutations.delete_task_attachment
      Mutations.update_user Mutations.delete_user Mutations.assign_role Mutations.remove_role
      Mutations.change_password Writing.create_task Writing.build_task Writing.update_task
      Writing.delete_task Editing.assign_task Editing.unassign_task Editing.change_task_status
      Editing.complete_task Editing.archive_task Editing.add_label Editing.remove_label
      Attachments.upload_task_attachment Attachments.delete_task_attachment enrich_and_map_task
      find_party
  mutate-any_rights acl_repo authorizer (TokenMutation.create_task input) token c c' e =
      ap
        (λ u.
          mutate svc (TokenMutation.create_task input) at
            (claims_of (record c' { user_id = u }) token) s)
        (sym e)
  mutate-any_rights acl_repo authorizer m token c c' e =
      ap (λ u. mutate svc m at (claims_of (record c' { user_id = u }) token) s) (sym e)
