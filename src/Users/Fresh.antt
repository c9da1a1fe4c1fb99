-- ===== src/Users/Fresh.antt =====
-- What GetUser and GetUserByEmail (internal/application/usecase/user/user_usecase.go) answer after an
-- update.
use go_clean_arch_poc.Base.{
  GoString, true, false, ◌≡◌, ◌≢◌, ap, ◌∙◌, ◌⊎◌, inl, inr, refl, arith, Option, none, some, [],
  str_eq_refl,
}
use go_clean_arch_poc.Base.Int.{Time}
use go_clean_arch_poc.Domain.Error.{Result, ok}
use go_clean_arch_poc.Domain.Task.{Uuid}
use go_clean_arch_poc.Domain.User.{User}
use go_clean_arch_poc.Cache.Keys.{user, user_by_email}
use go_clean_arch_poc.Cache.Aside.{lookup, get_json}
use go_clean_arch_poc.Auth.Sessions.Attempts.{attempt-ok, attempt_some-ok}
use go_clean_arch_poc.Users.Ports.{UpdateUserInput, UserOutput, UserState, UserUseCase}
use go_clean_arch_poc.Users.Operations.{
  keys, user_from_entity, change_email, change_name, invalidate_user_caches, update_user,
}
use go_clean_arch_poc.Users.Reading.{read_user, get_user, get_user_by_email}
use go_clean_arch_poc.Users.Caches.{is_user_key, get-drop_user}

module _ {C D : Type 0} (uc : UserUseCase C D) where
  abbrev pub uncached : UserState C D → UserState C D
  uncached s = record s { cache = none }

  read_user-miss :
      (now : Time) (key : GoString) (find : D → Result (Option User)) (s : UserState C D)
      → lookup uc.cache_repo uc.user_json now key s.cache ≡ none
      → (read_user uc now key find s).1 ≡ (read_user uc now key find (uncached s)).1
  unfolding read_user lookup
  read_user-miss now key find s h = ground arith

  lookup-invalidate_user_caches :
      (now : Time) (id : Uuid) (old_email new_email key : GoString) (o : Option C)
      → is_user_key (uc.uuids.string id) old_email new_email key ≡ true
      → lookup uc.cache_repo uc.user_json now key
          (invalidate_user_caches uc id old_email new_email o)
        ≡ none
  unfolding lookup get_json invalidate_user_caches
  lookup-invalidate_user_caches now id old_email new_email key none h = refl
  lookup-invalidate_user_caches now id old_email new_email key (some c) h =
      ground (arith, get-drop_user uc now id old_email new_email key c)

  change_email-ok :
      (email : Option GoString) (d : D) (u u' : User)
      → change_email uc email d u ≡ ok u'
      → ((u'.email ≡ u.email) ⊎ (uc.user_repo.exists_by_email u'.email d ≡ ok false))
        × (u'.id ≡ u.id)
        × (u'.roles ≡ u.roles)
        × (u'.password_hash ≡ u.password_hash)
  unfolding change_email
  change_email-ok email d u u' h = ground arith

  change_name-keeps :
      (name : Option GoString) (u : User)
      → ((change_name uc name u).email ≡ u.email)
        × ((change_name uc name u).id ≡ u.id)
        × ((change_name uc name u).roles ≡ u.roles)
        × ((change_name uc name u).password_hash ≡ u.password_hash)
  change_name-keeps none u = (refl, refl, refl, refl)
  change_name-keeps (some name) u = (refl, refl, refl, refl)

  -- What an UpdateUser that returns no error has done: the user had an id, the email was free if it is
  -- another one, and what was written is what was returned.
  pub update_user-ok :
      (now : Time) (id : Uuid) (input : UpdateUserInput) (s s' : UserState C D) (out : UserOutput)
      → update_user uc now id input s ≡ (s', ok out)
      → (u : User) × (u' : User) × (uc.user_repo.find_by_id id s.db ≡ ok (some u))
        × ((u'.email ≡ u.email) ⊎ (uc.user_repo.exists_by_email u'.email s.db ≡ ok false))
        × (u'.id ≡ u.id)
        × (u'.roles ≡ u.roles)
        × (u'.password_hash ≡ u.password_hash)
        × (uc.user_repo.update u' s.db ≡ ok s'.db)
        × (out ≡ user_from_entity u')
        × (s'.cache ≡ invalidate_user_caches uc id u.email u'.email s.cache)
  unfolding update_user
  update_user-ok now id input s s' out h =
      let (u0, v, h1) = attempt-ok (uc.validator.update_user input) s s' _ out h in
      let (u, f, h2) = attempt_some-ok (uc.user_repo.find_by_id id s.db) _ s s' _ out h1 in
      let (u1, e, h3) = attempt-ok (change_email uc input.email s.db u) s s' _ out h2 in
      let u' = record (change_name uc input.name u1) { updated_at = now } in
      let (db, w, h4) = attempt-ok (uc.user_repo.update u' s.db) s s' _ out h3 in
      let (m, i, r, p) = change_email-ok input.email s.db u u1 e in
      let (m', i', r', p') = change_name-keeps input.name u1 in
      (
        u,
        u',
        f,
        free u u1 u' m' m,
        i' ∙ i,
        r' ∙ r,
        p' ∙ p,
        ground arith,
        ground arith,
        ground arith,
      )
    where
      free :
          (u u1 u' : User)
          → u'.email ≡ u1.email
          → (u1.email ≡ u.email) ⊎ (uc.user_repo.exists_by_email u1.email s.db ≡ ok false)
          → (u'.email ≡ u.email) ⊎ (uc.user_repo.exists_by_email u'.email s.db ≡ ok false)
      free u u1 u' q (inl k) = inl (q ∙ k)
      free u u1 u' q (inr k) = inr (ap (λ m. uc.user_repo.exists_by_email m s.db) q ∙ k)

  -- After an UpdateUser that returns no error, of a user whose email was not empty and is not,
  -- GetUser, and GetUserByEmail for the email from before and for the new one, answer at any time
  -- as they would without a cache.
  pub update_user-fresh :
      (now later : Time) (id : Uuid) (input : UpdateUserInput) (s s' : UserState C D) (u : User)
      (out : UserOutput)
      → update_user uc now id input s ≡ (s', ok out)
      → uc.user_repo.find_by_id id s.db ≡ ok (some u)
      → u.email ≢ []
      → out.email ≢ []
      → ((get_user uc later id s').1 ≡ (get_user uc later id (uncached s')).1)
        × ((get_user_by_email uc later u.email s').1
            ≡ (get_user_by_email uc later u.email (uncached s')).1)
        × ((get_user_by_email uc later out.email s').1
            ≡ (get_user_by_email uc later out.email (uncached s')).1)
  unfolding get_user get_user_by_email
  update_user-fresh now later id input s s' u out h f n n' =
      let (u0, u', f0, e, i, r, p, w, o, c) = update_user-ok now id input s s' out h in
      let same : u0.email ≡ u.email = ground arith in
      let given : u'.email ≡ out.email = ground arith in
      let key = user keys (uc.uuids.string id) in
      let miss : (k : GoString)
          → is_user_key (uc.uuids.string id) u0.email u'.email k ≡ true
          → lookup uc.cache_repo uc.user_json later k s'.cache ≡ none =
        λ k t.
          ap (lookup uc.cache_repo uc.user_json later k) c
          ∙ lookup-invalidate_user_caches later id u0.email u'.email k s.cache t in
      (
        read_user-miss later key (uc.user_repo.find_by_id id) s'
            (miss key (ground (arith, str_eq_refl key))),
        read_user-miss later (user_by_email keys u.email) (uc.user_repo.find_by_email u.email) s' (
            miss (user_by_email keys u.email)
              (ground (arith, same, n, str_eq_refl (user_by_email keys u.email)))),
        read_user-miss later (user_by_email keys out.email) (uc.user_repo.find_by_email out.email)
            s'
            (miss (user_by_email keys out.email)
              (ground (arith, given, n', str_eq_refl (user_by_email keys out.email)))),
      )
