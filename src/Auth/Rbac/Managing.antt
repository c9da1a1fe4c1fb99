-- ===== src/Auth/Rbac/Managing.antt =====
-- Who may manage a task or a user, by the methods of the entities (internal/auth/rbac/authorizer.go).
use go_clean_arch_poc.Base.{GoString, ◌||◌, ◌≡◌, arith, some, any-map, ◌==◌, str_eq}
use go_clean_arch_poc.Domain.Task.{Uuid, Task, can_be_modified_by}
use go_clean_arch_poc.Domain.Role.{role_admin, role_manager}
use go_clean_arch_poc.Domain.User
use go_clean_arch_poc.Domain.User.{User}
use go_clean_arch_poc.Auth.Rbac.{has_role, can_manage_task, can_manage_user}

has_role-eq : (u : User) (name : GoString) → has_role (some u) name ≡ User.has_role name u
unfolding has_role User.has_role
has_role-eq u name = any-map (λ r. r.name) (λ r. str_eq r name) u.roles

-- A user may manage a task exactly if the user is an admin, may modify the task as its creator or
-- assignee, or is a manager.
pub can_manage_task_lem :
    (u : User) (t : Task)
    → can_manage_task (some u) (some t)
      ≡ (User.is_admin u || (can_be_modified_by u.id t || User.has_role role_manager u))
unfolding can_manage_task can_be_modified_by User.is_admin
can_manage_task_lem u t = ground (arith, has_role-eq u role_admin, has_role-eq u role_manager)

-- A user may manage the users that an admin may manage, all of them, or the user alone.
pub can_manage_user_lem :
    (u : User) (target : Uuid)
    → can_manage_user (some u) target ≡ (User.is_admin u || u.id == target)
unfolding can_manage_user User.is_admin
can_manage_user_lem u target = ground (arith, has_role-eq u role_admin)
