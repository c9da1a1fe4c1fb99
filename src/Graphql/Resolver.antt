-- ===== src/Graphql/Resolver.antt =====
-- The resolver's helpers (internal/transport/graphql/resolver.go) and withOptionalAuth
-- (internal/transport/graphql/handler.go).
use go_clean_arch_poc.Base.{
  GoString, not, Option, none, some, List, [], ◌∷◌, inl, inr, ◌<|◌, str_eq, if◌then◌else◌,
}
use go_clean_arch_poc.Base.Int.{Time}
use go_clean_arch_poc.Domain.Error.{
  Result, ok, err, ◌>>=◌, err_unauthorized, err_forbidden, is_not_found_error,
}
use go_clean_arch_poc.Domain.Task.{Uuid}
use go_clean_arch_poc.Auth.Jwt.{TokenClaims}
use go_clean_arch_poc.Auth.Rbac.{has_any_role_from_claims}
use go_clean_arch_poc.Auth.Sessions.{attempt}
use go_clean_arch_poc.Tasks.Ports.{TaskOutput}
use go_clean_arch_poc.Users.Ports.{UserOutput}
use go_clean_arch_poc.Users.Reading.{get_user}
use go_clean_arch_poc.Service.{Service, State, Context, on_users}
use go_clean_arch_poc.Rest.Response.{HttpLib}
use go_clean_arch_poc.Rest.Guards.{authenticated, bearer_of, cut, no_context, validated}
use go_clean_arch_poc.Graphql.Mapping.{Answer, TaskNode, task_to_graphql}

abbrev pub require_auth : Context → Result TokenClaims
require_auth ctx = elim ctx.claims [ none ↦ err err_unauthorized | some claims ↦ ok claims ]

-- Whether one of the roles is among the claims; the authorizer reads nothing else.
unfoldable pub require_any_role : List GoString → Context → Result (Unit {0})
require_any_role role_names ctx = require_auth ctx >>= λ claims.
    if not (has_any_role_from_claims claims.roles role_names) then err err_forbidden else ok tt

module _ {C D F P : Type 0} (svc : Service C D F P) where
  abbrev pub Outcome : Type 0
  Outcome = State C D F P × Result Answer

  -- A user that is shown with a task, none if there is no such user.
  unfoldable pub find_party :
      Time → Option Uuid → State C D F P → State C D F P × Result (Option UserOutput)
  find_party now none s = (s, ok none)
  find_party now (some id) s =
      let (s', r) = on_users (get_user svc.users now id) s in
      elim r [
        | ok u ↦ (s', ok (some u))
        | err e ↦ if is_not_found_error e then (s', ok none) else (s', err e)
      ]

  unfoldable pub enrich_and_map_task :
      Time → TaskOutput → State C D F P → State C D F P × Result TaskNode
  unfolding find_party task_to_graphql
  enrich_and_map_task now t s =
      let (s1, r1) = find_party now t.assignee_id s in
      attempt r1 s1 <| λ assignee.
      let (s2, r2) = find_party now (some t.creator_id) s1 in
      attempt r2 s2 <| λ creator. (s2, ok (task_to_graphql t assignee creator))

  -- The loop over a list of tasks.
  unfoldable pub enrich_tasks :
      Time → List TaskOutput → State C D F P → State C D F P × Result (List TaskNode)
  unfolding enrich_and_map_task
  enrich_tasks now [] s = (s, ok [])
  enrich_tasks now (t ∷ ts) s =
      let (s1, r1) = enrich_and_map_task now t s in
      let (s2, r2) = enrich_tasks now ts s1 in
      attempt r1 s1 <| λ node. attempt r2 s2 <| λ nodes. (s2, ok (node ∷ nodes))

  -- `if err != nil { return nil, err }; return mapped, nil`
  abbrev pub answer {ℓ} : {A : Type ℓ} → (A → Answer) → State C D F P × Result A → Outcome
  answer f (s, ok a) = (s, ok (f a))
  answer f (s, err e) = (s, err e)

  abbrev pub answer_task : Time → State C D F P × Result TaskOutput → Outcome
  unfolding enrich_and_map_task
  answer_task now (s, ok t) = answer Answer.task (enrich_and_map_task now t s)
  answer_task now (s, err e) = (s, err e)

  -- The context of the resolvers: a token that is missing or not valid leaves it empty.
  unfoldable pub with_optional_auth : HttpLib → Time → GoString → State C D F P → Context
  unfolding cut validated
  with_optional_auth lib now header s =
      if str_eq header []
      then no_context
      else elim (authenticated svc lib now (bearer_of svc lib (cut b' ' header)) s) [
        | inl _ ↦ no_context
        | inr ctx ↦ ctx
      ]
