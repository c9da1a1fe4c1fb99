-- ===== src/Users/Reading.antt =====
-- The methods of UserUseCase (internal/application/usecase/user/user_usecase.go) that read: each looks
-- in the cache first.
use go_clean_arch_poc.Base.{GoString, Option, none, some, map, ◌*◌, ◌++◌, ◌<|◌, bytes}
use go_clean_arch_poc.Base.Int.{Time, Duration, pos}
use go_clean_arch_poc.Domain.Error.{Result, ok, err_user_not_found}
use go_clean_arch_poc.Domain.Task.{Uuid}
use go_clean_arch_poc.Domain.User.{User}
use go_clean_arch_poc.Cache.Keys.{user, user_by_email, user_list}
use go_clean_arch_poc.Cache.Aside.{lookup, store}
use go_clean_arch_poc.Auth.Sessions.{attempt, attempt_some}
use go_clean_arch_poc.Tasks.Ports.{Pagination}
use go_clean_arch_poc.Tasks.Shared.{part, optional_part, pagination_text}
use go_clean_arch_poc.Users.Ports.{UserFilter, UserOutput, UserListOutput, UserState, UserUseCase}
use go_clean_arch_poc.Users.Operations.{keys, user_from_entity}

abbrev pub entity_cache_ttl : Duration
entity_cache_ttl = pos (5 * 60 * 1000000000)

abbrev pub list_cache_ttl : Duration
list_cache_ttl = pos (2 * 60 * 1000000000)

module _ {C D : Type 0} (uc : UserUseCase C D) where
  abbrev pub optional_id : Option Uuid → Option GoString
  optional_id none = none
  optional_id (some id) = some (uc.uuids.string id)

  unfoldable pub build_user_list_cache_key : UserFilter → Pagination → GoString
  unfolding pagination_text
  build_user_list_cache_key filter p = uc.printing.sha256_hex (
      part (bytes "search") filter.search
      ++ (optional_part (bytes "role") (optional_id filter.role_id)
          ++ pagination_text uc.printing p))

  -- A user from the cache, or else from the database and into the cache.
  unfoldable pub read_user :
      Time
      → GoString
      → (D → Result (Option User))
      → UserState C D
      → UserState C D × Result UserOutput
  read_user now key find s = elim (lookup uc.cache_repo uc.user_json now key s.cache) [
    | some cached ↦ (s, ok cached)
    | none ↦ attempt_some (find s.db) err_user_not_found s <| λ u.
        let out = user_from_entity u in
        (
          record s {
            cache = store uc.cache_repo uc.user_json now key out entity_cache_ttl s.cache;
          },
          ok out,
        )
  ]

  unfoldable pub get_user : Time → Uuid → UserState C D → UserState C D × Result UserOutput
  unfolding read_user
  get_user now id s = read_user now (user keys (uc.uuids.string id)) (uc.user_repo.find_by_id id) s

  unfoldable pub get_user_by_email :
      Time → GoString → UserState C D → UserState C D × Result UserOutput
  unfolding read_user
  get_user_by_email now email s =
      read_user now (user_by_email keys email) (uc.user_repo.find_by_email email) s

  unfoldable pub list_users :
      Time → UserFilter → Pagination → UserState C D → UserState C D × Result UserListOutput
  unfolding build_user_list_cache_key
  list_users now filter pagination s = attempt (uc.validator.filter filter) s <| λ _.
      attempt (uc.validator.pagination pagination) s <| λ _.
      let key = user_list keys (build_user_list_cache_key filter pagination) in
      elim (lookup uc.cache_repo uc.list_json now key s.cache) [
        | some cached ↦ (s, ok cached)
        | none ↦ attempt (uc.user_repo.find_all filter pagination s.db) s <| λ found.
            let result = found.1 in
            let out : UserListOutput = record {
              users = map user_from_entity found.0;
              total = result.total;
              page = result.page;
              page_size = result.page_size;
              total_pages = result.total_pages;
            } in
            (
              record s {
                cache = store uc.cache_repo uc.list_json now key out list_cache_ttl s.cache;
              },
              ok out,
            )
      ]
