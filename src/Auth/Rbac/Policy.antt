-- ===== src/Auth/Rbac/Policy.antt =====
-- What the default policy allows (internal/auth/rbac/authorizer.go).
use go_clean_arch_poc.Base.{
  GoString, Bool, true, false, ◌||◌, ◌&&◌, ◌≡◌, sym, ◌∙◌, arith, List, [], ◌∷◌, any, str_eq,
  str_discrete,
}
use go_clean_arch_poc.Base.Dict
use go_clean_arch_poc.Domain.Role.{role_admin, role_manager, role_member, role_viewer}
use go_clean_arch_poc.Domain.Role.Resource
use go_clean_arch_poc.Domain.Role.Resource.{ResourceType}
use go_clean_arch_poc.Domain.Role.Action
use go_clean_arch_poc.Domain.Role.Action.{PermissionAction}
use go_clean_arch_poc.Auth.Rbac.{new_authorizer, policy_allows}

abbrev pub one_of : GoString → List GoString → Bool
one_of s = any (λ x. str_eq x s)

admin_cases :
    (a b c d e : Bool)
    → ((a && true) || ((b && true) || ((c && true) || ((d && true) || ((e && true) || false)))))
      ≡ (a || (b || (c || (d || (e || false)))))
admin_cases a b c d e = ground arith

manager_cases :
    (t u l c r p d a : Bool)
    → ((t && c)
        || ((t && r)
            || ((t && p) || ((t && d) || ((t && a) || ((u && r) || ((l && true) || false)))))))
      ≡ ((t && (c || (r || (p || (d || (a || false)))))) || ((u && r) || l))
manager_cases t u l c r p d a = ground arith

member_cases :
    (t l c r p : Bool)
    → ((t && c) || ((t && r) || ((t && p) || ((l && r) || false))))
      ≡ ((t && (c || (r || (p || false)))) || (l && r))
member_cases t l c r p = ground arith

viewer_cases :
    (t u l r : Bool)
    → ((t && r) || ((u && r) || ((l && r) || false))) ≡ ((t || (u || (l || false))) && r)
viewer_cases t u l r = ground arith

inclusion :
    (t u r p l c re up de a : Bool)
    → (((t && (c || (re || (up || false)))) || (l && re)) ≡ true
        → ((t && (c || (re || (up || (de || (a || false)))))) || ((u && re) || l)) ≡ true)
      × (((t && (c || (re || (up || (de || (a || false)))))) || ((u && re) || l)) ≡ true
          → (t || (u || (r || (p || (l || false))))) ≡ true)
inclusion t u r p l c re up de a = (λ h. ground arith, λ h. ground arith)

module _ (resource : ResourceType) (action : PermissionAction) where
  abbrev pub allowed : GoString → Bool
  allowed = policy_allows new_authorizer resource action

  -- The default policy, exactly: an admin may do everything with tasks, users, roles, permissions
  -- and labels; a manager may create, read, update, delete and assign tasks, read users, and do
  -- everything with labels; a member may create, read and update tasks and read labels; a viewer
  -- may read tasks, users and labels.
  pub policy_table :
      (allowed role_admin
        ≡ one_of resource (
            Resource.tasks ∷ Resource.users ∷ Resource.roles ∷ Resource.permissions
            ∷ Resource.labels ∷ []))
      × (allowed role_manager ≡ (
          (str_eq Resource.tasks resource
            && one_of action
                (Action.create ∷ Action.read ∷ Action.update ∷ Action.delete ∷ Action.assign ∷ []))
          || ((str_eq Resource.users resource && str_eq Action.read action)
              || str_eq Resource.labels resource)))
      × (allowed role_member ≡ (
          (str_eq Resource.tasks resource
            && one_of action (Action.create ∷ Action.read ∷ Action.update ∷ []))
          || (str_eq Resource.labels resource && str_eq Action.read action)))
      × (allowed role_viewer ≡ (
          one_of resource (Resource.tasks ∷ Resource.users ∷ Resource.labels ∷ [])
          && str_eq Action.read action))
  unfolding policy_allows new_authorizer Dict.get str_discrete
  policy_table =
      let is = λ (r : ResourceType). str_eq r resource in
      let does = λ (a : PermissionAction). str_eq a action in
      (
        admin_cases (is Resource.tasks) (is Resource.users) (is Resource.roles)
            (is Resource.permissions) (is Resource.labels),
        manager_cases (is Resource.tasks) (is Resource.users) (is Resource.labels)
            (does Action.create) (does Action.read) (does Action.update) (does Action.delete)
            (does Action.assign),
        member_cases (is Resource.tasks) (is Resource.labels) (does Action.create)
            (does Action.read) (does Action.update),
        viewer_cases (is Resource.tasks) (is Resource.users) (is Resource.labels)
            (does Action.read),
      )

  member_manager_admin :
      (allowed role_member ≡ true → allowed role_manager ≡ true)
      × (allowed role_manager ≡ true → allowed role_admin ≡ true)
  member_manager_admin =
      let is = λ (r : ResourceType). str_eq r resource in
      let does = λ (a : PermissionAction). str_eq a action in
      let both =
        inclusion (is Resource.tasks) (is Resource.users) (is Resource.roles)
          (is Resource.permissions) (is Resource.labels) (does Action.create) (does Action.read)
          (does Action.update) (does Action.delete) (does Action.assign) in
      let (admin, manager, member, _) = policy_table in
      (λ h. manager ∙ both.0 (sym member ∙ h), λ h. admin ∙ both.1 (sym manager ∙ h))

  -- What the policy allows to a member it allows to a manager.
  pub member_manager : allowed role_member ≡ true → allowed role_manager ≡ true
  member_manager h = member_manager_admin.0 h

  -- What the policy allows to a manager it allows to an admin.
  pub manager_admin : allowed role_manager ≡ true → allowed role_admin ≡ true
  manager_admin h = member_manager_admin.1 h
