-- ===== src/Cache/Port.antt =====
-- The port CacheRepository (internal/application/port/output/cache_repository.go), with what the
-- sessions rely on, and the in-memory cache as an implementation of it. The calls here do not fail:
-- a caller drops the error of a call that writes, and goes on as on a miss where a read fails; a cache
-- over the network, whose failed call leaves the keys as they were, is not modelled.
use go_clean_arch_poc.Base.{
  GoString, has_prefix, Bool, ◌≡◌, ap, ◌∙◌, Option, none, some, [], ◌∷◌, ◌++◌, is_some, str_eq,
  if◌then◌else◌,
}
use go_clean_arch_poc.Base.Int.{Time, Duration}
use go_clean_arch_poc.Cache.Memory
use go_clean_arch_poc.Cache.Memory.{MemoryCache}
use go_clean_arch_poc.Cache.Memory.Laws
use go_clean_arch_poc.Cache.Memory.Laws.{has_lapsed, pattern_prefix-star}

pub record CacheRepository (C : Type 0) : Type 0 where
  pub get : Time → GoString → C → Option GoString
  pub exists : Time → GoString → C → Bool
  pub set : Time → GoString → GoString → Duration → C → C
  pub delete : GoString → C → C
  pub delete_pattern : GoString → C → C
  pub exists-get :
      (now : Time) (key : GoString) (c : C) → exists now key c ≡ is_some (get now key c)
  pub get-set :
      (set_at now : Time) (key j value : GoString) (expiration : Duration) (c : C)
      → get now j (set set_at key value expiration c) ≡ (
          if str_eq key j
          then (if has_lapsed set_at now expiration then none else some value)
          else get now j c)
  pub get-delete :
      (now : Time) (key j : GoString) (c : C)
      → get now j (delete key c) ≡ (if str_eq key j then none else get now j c)
  pub get-delete_pattern :
      (now : Time) (p j : GoString) (c : C)
      → get now j (delete_pattern (p ++ b'*' ∷ []) c)
        ≡ (if has_prefix p j then none else get now j c)

-- MemoryCache keeps the laws of the port.
unfoldable pub memory_repository : CacheRepository MemoryCache
memory_repository = record {
  get = Memory.get;
  exists = Memory.exists;
  set = Memory.set;
  delete = Memory.delete;
  delete_pattern = Memory.delete_pattern;
  exists-get = λ now key c. Laws.exists-get now key key c;
  get-set = Laws.get-set;
  get-delete = Laws.get-delete;
  get-delete_pattern = λ now p j c.
      Laws.get-delete_pattern now j (p ++ b'*' ∷ []) c
      ∙ ap (λ q. if has_prefix q j then none else Memory.get now j c) (pattern_prefix-star p);
}
