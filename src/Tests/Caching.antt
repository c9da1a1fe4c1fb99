-- ===== src/Tests/Caching.antt =====
-- The cache at concrete inputs (internal/infrastructure/cache/memory/cache.go).
use go_clean_arch_poc.Base.{
  ℕ, ◌≡◌, ◌≢◌, refl, arith, bytes, GoString, true, some, List, [], ◌∷◌, str_discrete,
}
use go_clean_arch_poc.Base.Int.{pos}
use go_clean_arch_poc.Base.Dict
use go_clean_arch_poc.Cache.Memory
use go_clean_arch_poc.Cache.Memory.{
  MemoryCache, CacheItem, new_memory_cache, find, get, exists, increment, get_multiple,
  pattern_prefix, delete_pattern, read_int64, write_int64,
}
use go_clean_arch_poc.Cache.Memory.Ops.{CacheOp, run}
use go_clean_arch_poc.Cache.Memory.Expiry.{get-cleanup}

abbrev a : GoString
a = bytes "a"

abbrev b : GoString
b = bytes "b"

abbrev item : CacheItem
item = record { value = bytes "x"; expiration = 50 }

abbrev cache : MemoryCache
cache = record { store = (a, item) ∷ [] }

abbrev cache_calls : List (ℕ × CacheOp)
cache_calls =
    (10, CacheOp.set a (bytes "x") (pos 5)) ∷ (11, CacheOp.set_nx b (bytes "y") (pos 0)) ∷ []

get-cleanup_example :
    get 21 a (Memory.cleanup 20 (run cache_calls new_memory_cache))
    ≡ get 21 a (run cache_calls new_memory_cache)
get-cleanup_example = get-cleanup cache_calls 20 21 a (omega arith)

taken : (Memory.set_nx 60 b (bytes "lock") (pos 5) cache).1 ≡ true
unfolding Memory.set_nx Dict.get str_discrete
taken = refl

held : find a cache ≡ some item
unfolding Dict.get str_discrete
held = refl

no_key : (i : CacheItem) → find b cache ≡ some i → i.expiration ≢ 50
unfolding Dict.get str_discrete
no_key i h = cc
