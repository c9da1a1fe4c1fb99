-- ===== src/Users/Caches.antt =====
-- What the cache holds after UserUseCase (internal/application/usecase/user/user_usecase.go) has
-- invalidated its keys.
use go_clean_arch_poc.Base.{
  GoString, Bool, has_prefix, false, not, ◌&&◌, ◌||◌, ◌≡◌, arith, none, [], str_eq, str_discrete,
  if◌then◌else◌,
}
use go_clean_arch_poc.Base.Int.{Time}
use go_clean_arch_poc.Domain.Task.{Uuid}
use go_clean_arch_poc.Cache.Keys.{user, user_by_email, user_list, user_session, token_blacklist}
use go_clean_arch_poc.Users.Ports.{UserUseCase}
use go_clean_arch_poc.Users.Operations.{keys, delete_email, drop_user}

-- A key that invalidateUserCaches removes.
abbrev pub is_user_key : GoString → GoString → GoString → GoString → Bool
is_user_key id old_email new_email j =
    str_eq (user keys id) j
    || ((not (str_eq old_email []) && str_eq (user_by_email keys old_email) j)
        || ((not (str_eq new_email []) && str_eq (user_by_email keys new_email) j)
            || has_prefix (user_list keys []) j))

-- It is no key of a session.
pub is_user_key-user_session :
    (id old_email new_email owner token : GoString)
    → is_user_key id old_email new_email (user_session keys owner token) ≡ false
unfolding user user_by_email user_list user_session str_discrete has_prefix
is_user_key-user_session id old_email new_email owner token = ground arith

pub is_user_key-token_blacklist :
    (id old_email new_email token : GoString)
    → is_user_key id old_email new_email (token_blacklist keys token) ≡ false
unfolding user user_by_email user_list token_blacklist str_discrete has_prefix
is_user_key-token_blacklist id old_email new_email token = ground arith

module _ {C D : Type 0} (uc : UserUseCase C D) where
  -- The cache answers no key of the user, of its emails, or of a list, and every other key as before.
  pub get-drop_user :
      (now : Time) (id : Uuid) (old_email new_email j : GoString) (c : C)
      → uc.cache_repo.get now j (drop_user uc id old_email new_email c) ≡ (
          if is_user_key (uc.uuids.string id) old_email new_email j
          then none
          else uc.cache_repo.get now j c)
  unfolding drop_user
  get-drop_user now id old_email new_email j c =
      let c1 = uc.cache_repo.delete (user keys (uc.uuids.string id)) c in
      let c2 = delete_email uc old_email c1 in
      ground (
        arith,
        uc.cache_repo.get-delete_pattern now (user_list keys []) j c1,
        uc.cache_repo.get-delete_pattern now (user_list keys []) j c2,
        uc.cache_repo.get-delete_pattern now (user_list keys []) j (delete_email uc new_email c1),
        uc.cache_repo.get-delete_pattern now (user_list keys []) j (delete_email uc new_email c2),
        uc.cache_repo.get-delete now (user keys (uc.uuids.string id)) j c,
        uc.cache_repo.get-delete now (user_by_email keys old_email) j c1,
        uc.cache_repo.get-delete now (user_by_email keys new_email) j c1,
        uc.cache_repo.get-delete now (user_by_email keys new_email) j c2,
      )
