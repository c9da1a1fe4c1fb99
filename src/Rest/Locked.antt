-- ===== src/Rest/Locked.antt =====
-- A resource without entries (internal/transport/rest, internal/auth/acl/checker.go).
use go_clean_arch_poc.Base.{false, ◌≡◌, refl, arith, bytes, List, [], ◌∷◌, inl, inr, str_eq}
use go_clean_arch_poc.Domain.Error.{ok}
use go_clean_arch_poc.Domain.Task.{Uuid}
use go_clean_arch_poc.Domain.Acl.{AclPermission, AclSubjectType}
use go_clean_arch_poc.Domain.Role.Resource
use go_clean_arch_poc.Domain.Role.Resource.{ResourceType}
use go_clean_arch_poc.Auth.Acl.{AclRepository, can_access, check_roles, check_subject}
use go_clean_arch_poc.Service.{Service, State, Context, Moment}
use go_clean_arch_poc.Rest.Response.{HttpLib, Request}
use go_clean_arch_poc.Rest.Router.{Route, TaskRoute, serve}
use go_clean_arch_poc.Rest.Refusals.{IsRefused}
use go_clean_arch_poc.Rest.Access.{permission_of, serve-IsAllowed}

-- No entry is about a resource of the type.
abbrev pub HasNoEntry : {D : Type 0} → AclRepository D → ResourceType → D → Type 0
HasNoEntry repo resource_type d =
    (id : Uuid) (subject_type : AclSubjectType) (subject : Uuid) (permission : AclPermission)
    → repo.has_permission resource_type id subject_type subject permission d ≡ ok false

module _ {D : Type 0} (repo : AclRepository D) (resource_type : ResourceType) (d : D)
    (none_is : HasNoEntry repo resource_type d) where
  check_subject_none :
      (id : Uuid) (subject_type : AclSubjectType) (subject : Uuid) (permission : AclPermission)
      → check_subject repo resource_type id subject_type subject permission d ≡ ok false
  unfolding check_subject
  check_subject_none id subject_type subject permission = grind (arith, none_is)

  check_roles_none :
      (role_ids : List Uuid) (id : Uuid) (permission : AclPermission)
      → check_roles repo role_ids resource_type id permission d ≡ ok false
  unfolding check_roles
  check_roles_none [] id permission = refl
  check_roles_none (r ∷ role_ids) id permission =
      grind (arith, check_subject_none, check_roles_none role_ids id permission)

  can_access_none :
      (user_id : Uuid) (role_ids : List Uuid) (id : Uuid) (permission : AclPermission)
      → can_access repo user_id role_ids resource_type id permission d ≡ ok false
  unfolding can_access
  can_access_none user_id role_ids id permission =
      grind (arith, check_subject_none, check_roles_none role_ids id permission)

module _ {C D F P : Type 0} (svc : Service C D F P) (lib : HttpLib) (at : Moment) (req : Request)
    (s : State C D F P) (ctx : Context) where
  -- Where the access control list has no entry for tasks, every route of one task refuses every
  -- request but OPTIONS, whoever asks, and changes nothing.
  pub serve_none :
      (route : TaskRoute)
      → str_eq req.method (bytes "OPTIONS") ≡ false
      → HasNoEntry svc.acl_repo Resource.task s.db
      → IsRefused s (serve svc lib (Route.of_task route) at ctx req s)
  serve_none route m h = elim (serve-IsAllowed svc lib at req s ctx m (Route.of_task route)) [
    | inl r ↦ r
    | inr (token, claims, v, (id, p, granted)) ↦
        let denied =
          can_access_none svc.acl_repo Resource.task s.db h claims.user_id claims.role_ids id
            (permission_of route) in
        ground (arith, denied, granted)
  ]
