-- ===== src/Users/Operations.antt =====
-- The methods of UserUseCase (internal/application/usecase/user/user_usecase.go) that change a user.
-- What a method logs is left out.
use go_clean_arch_poc.Base.{
  ℕ, GoString, bytes, not, ◌&&◌, Option, none, some, [], ◌∷◌, ◌++◌, if◌then◌else◌, ◌<|◌, str_eq,
}
use go_clean_arch_poc.Base.Int.{Time}
use go_clean_arch_poc.Domain.Error.{
  Result, ok, err, ◌>>=◌, err_user_not_found, err_role_not_found, err_email_already_exists,
}
use go_clean_arch_poc.Domain.Task.{Uuid}
use go_clean_arch_poc.Domain.User as DomainUser
use go_clean_arch_poc.Domain.User.{User, new_user}
use go_clean_arch_poc.Cache.Keys.{
  CacheKeyBuilder, new_cache_key_builder, user, user_by_email, user_list, user_sessions,
}
use go_clean_arch_poc.Auth.Sessions.{attempt, attempt_some, CreateUserInput}
use go_clean_arch_poc.Users.Ports.{UpdateUserInput, UserOutput, UserEvent, UserState, UserUseCase}

abbrev pub keys : CacheKeyBuilder
keys = new_cache_key_builder (bytes "app")

abbrev pub user_from_entity : User → UserOutput
user_from_entity u = record {
  id = u.id;
  email = u.email;
  name = u.name;
  roles = u.roles;
  created_at = u.created_at;
  updated_at = u.updated_at;
}

module _ {C D : Type 0} (uc : UserUseCase C D) where
  abbrev pub publish : UserEvent → UserState C D → UserState C D
  publish e s = record s { events = s.events ++ e ∷ [] }

  abbrev pub delete_email : GoString → C → C
  delete_email email c = uc.cache_repo.delete (user_by_email keys email) c

  -- The calls of the cache in invalidateUserCaches.
  unfoldable pub drop_user : Uuid → GoString → GoString → C → C
  drop_user user_id old_email new_email c =
      let c1 = uc.cache_repo.delete (user keys (uc.uuids.string user_id)) c in
      let c2 = if str_eq old_email [] then c1 else delete_email old_email c1 in
      let c3 =
        if not (str_eq new_email []) && not (str_eq new_email old_email)
        then delete_email new_email c2
        else c2 in
      uc.cache_repo.delete_pattern (user_list keys [] ++ bytes "*") c3

  unfoldable pub invalidate_user_caches : Uuid → GoString → GoString → Option C → Option C
  unfolding drop_user
  invalidate_user_caches user_id old_email new_email none = none
  invalidate_user_caches user_id old_email new_email (some c) =
      some (drop_user user_id old_email new_email c)

  unfoldable pub invalidate_user_sessions : Uuid → Option C → Option C
  invalidate_user_sessions user_id none = none
  invalidate_user_sessions user_id (some c) =
      some (uc.cache_repo.delete_pattern (user_sessions keys (uc.uuids.string user_id)) c)

  unfoldable pub create_user :
      Time → Uuid → ℕ → CreateUserInput → UserState C D → UserState C D × Result UserOutput
  unfolding invalidate_user_caches
  create_user now id salt input s = attempt (uc.validator.create_user input) s <| λ _.
      attempt (uc.user_repo.exists_by_email input.email s.db) s <| λ exists.
      if exists
      then (s, err err_email_already_exists)
      else (attempt (new_user uc.bcrypt now id salt input.email input.password input.name) s <| λ u.
          attempt (uc.user_repo.save u s.db) s <| λ db. (
            publish (UserEvent.user_created u.id u.email u.name)
                (record s { db = db; cache = invalidate_user_caches u.id [] u.email s.cache }),
            ok (user_from_entity u),
          ))

  -- The new email, if it is another one, is set where no user has it.
  unfoldable pub change_email : Option GoString → D → User → Result User
  change_email none d u = ok u
  change_email (some email) d u =
      if str_eq email u.email
      then ok u
      else (uc.user_repo.exists_by_email email d >>= λ exists.
          if exists then err err_email_already_exists else ok (record u { email = email }))

  abbrev pub change_name : Option GoString → User → User
  change_name none u = u
  change_name (some name) u = record u { name = name }

  unfoldable pub update_user :
      Time → Uuid → UpdateUserInput → UserState C D → UserState C D × Result UserOutput
  unfolding change_email invalidate_user_caches
  update_user now id input s = attempt (uc.validator.update_user input) s <| λ _.
      attempt_some (uc.user_repo.find_by_id id s.db) err_user_not_found s <| λ u.
      attempt (change_email input.email s.db u) s <| λ u1.
      let u2 = record (change_name input.name u1) { updated_at = now } in
      attempt (uc.user_repo.update u2 s.db) s <| λ db. (
        publish (UserEvent.user_updated u2.id)
            (record s { db = db; cache = invalidate_user_caches id u.email u2.email s.cache }),
        ok (user_from_entity u2),
      )

  unfoldable pub delete_user : Uuid → UserState C D → UserState C D × Result (Unit {0})
  unfolding invalidate_user_caches
  delete_user id s = attempt_some (uc.user_repo.find_by_id id s.db) err_user_not_found s <| λ u.
      attempt (uc.user_repo.delete id s.db) s <| λ db. (
        publish (UserEvent.user_deleted id)
            (record s { db = db; cache = invalidate_user_caches id u.email [] s.cache }),
        ok tt,
      )

  -- The end of AssignRole and RemoveRole: the write, the caches, the sessions, the event.
  unfoldable pub save_roles :
      Uuid → User → UserEvent → UserState C D → UserState C D × Result UserOutput
  unfolding invalidate_user_caches invalidate_user_sessions
  save_roles user_id u e s = attempt (uc.user_repo.update u s.db) s <| λ db. (
    publish e (record s {
      db = db;
      cache =
          invalidate_user_sessions user_id (invalidate_user_caches user_id u.email u.email s.cache);
    }),
    ok (user_from_entity u),
  )

  unfoldable pub assign_role :
      Time → Uuid → Uuid → UserState C D → UserState C D × Result UserOutput
  unfolding save_roles
  assign_role now user_id role_id s =
      attempt_some (uc.user_repo.find_by_id user_id s.db) err_user_not_found s <| λ u.
      attempt_some (uc.role_repo.find_by_id role_id s.db) err_role_not_found s <| λ role.
      save_roles user_id (DomainUser.assign_role now role u)
        (UserEvent.user_role_assigned user_id role_id role.name user_id) s

  unfoldable pub remove_role :
      Time → Uuid → Uuid → UserState C D → UserState C D × Result UserOutput
  unfolding save_roles
  remove_role now user_id role_id s =
      attempt_some (uc.user_repo.find_by_id user_id s.db) err_user_not_found s <| λ u.
      attempt_some (uc.role_repo.find_by_id role_id s.db) err_role_not_found s <| λ role.
      save_roles user_id (DomainUser.remove_role now role_id u)
        (UserEvent.user_role_removed user_id role_id role.name user_id) s
