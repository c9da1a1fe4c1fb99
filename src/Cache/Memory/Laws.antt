-- ===== src/Cache/Memory/Laws.antt =====
-- What Get returns after each method of MemoryCache (internal/infrastructure/cache/memory/cache.go).
use go_clean_arch_poc.Base.{
  GoString, has_prefix, Bool, ◌&&◌, ◌≡◌, refl, arith, none, some, [], ◌∷◌, ◌++◌, is_some, ltb,
  str_eq, str_discrete, if◌then◌else◌,
}
use go_clean_arch_poc.Base.Int.{Time, Duration, is_positive, add}
use go_clean_arch_poc.Base.Dict.{get-put, get-remove, get-remove_if_key}
use go_clean_arch_poc.Cache.Memory.{
  MemoryCache, get, set, delete, exists, pattern_prefix, delete_pattern, expires_at,
}

-- A positive expiration ends after it; any other never.
unfoldable pub has_lapsed : Time → Time → Duration → Bool
has_lapsed set_at now expiration = is_positive expiration && ltb (add set_at expiration) now

module _ (set_at now : Time) (key j value : GoString) (expiration : Duration)
    (c : MemoryCache) where
  -- After Set, Get of the key returns the value until the expiration has passed, and for ever if
  -- the expiration is not positive; Get of another key returns what it returned before.
  pub get-set : get now j (set set_at key value expiration c) ≡ (
      if str_eq key j
      then (if has_lapsed set_at now expiration then none else some value)
      else get now j c)
  unfolding get set has_lapsed
  get-set = elim-expiration expiration
    where
      elim-expiration :
          (d : Duration)
          → get now j (set set_at key value d c) ≡ (
              if str_eq key j
              then (if has_lapsed set_at now d then none else some value)
              else get now j c)
      elim-expiration d = ground (
        arith,
        get-put str_discrete key j (record { value = value; expiration = expires_at set_at d })
            c.store,
      )

module _ (now : Time) (key j : GoString) (c : MemoryCache) where
  pub get-delete : get now j (delete key c) ≡ (if str_eq key j then none else get now j c)
  unfolding get delete
  get-delete = ground (arith, get-remove str_discrete key j c.store)

  -- Exists says whether Get finds a value.
  pub exists-get : exists now key c ≡ is_some (get now key c)
  unfolding exists get
  exists-get = ground arith

  -- DeletePattern removes the keys that begin with the pattern, less a `*` at its end, and no
  -- other: a pattern without `*` works as one with it.
  pub get-delete_pattern :
      get now key (delete_pattern j c)
      ≡ (if has_prefix (pattern_prefix j) key then none else get now key c)
  unfolding get delete_pattern
  get-delete_pattern =
      ground (arith, get-remove_if_key str_discrete (has_prefix (pattern_prefix j)) key c.store)

-- The prefix of a pattern that ends in `*` is what stands before it.
pub pattern_prefix-star : (p : GoString) → pattern_prefix (p ++ b'*' ∷ []) ≡ p
unfolding pattern_prefix
pattern_prefix-star [] = refl
pattern_prefix-star (b ∷ []) = refl
pattern_prefix-star (b ∷ b' ∷ p) = ground (arith, pattern_prefix-star (b' ∷ p))
