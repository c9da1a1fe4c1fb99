-- ===== src/Cache/Memory/Expiry.antt =====
-- The methods of MemoryCache that read the expiration, and the cleanup of expired items
-- (internal/infrastructure/cache/memory/cache.go).
use go_clean_arch_poc.Base.{
  ℕ, ◌+◌, ◌<◌, ◌≤◌, GoString, true, false, ◌≡◌, ◌≢◌, refl, arith, none, some, inl, inr,
  Option-cases, List, [], ◌∷◌, str_eq, str_discrete, if◌then◌else◌, any,
}
use go_clean_arch_poc.Base.Int.{Time, Duration, pos}
use go_clean_arch_poc.Base.Dict
use go_clean_arch_poc.Base.Dict.{get-put, get-remove_if}
use go_clean_arch_poc.Cache.Memory
use go_clean_arch_poc.Cache.Memory.{
  MemoryCache, CacheItem, new_memory_cache, find, get, exists, get_multiple, is_expired, is_live,
}
use go_clean_arch_poc.Cache.Memory.Ops.{IsValid, CacheOp, run, run-IsValid}

get-cleanup_valid :
    (now later : Time) (key : GoString) (c : MemoryCache)
    → IsValid c
    → now ≤ later
    → get later key (Memory.cleanup now c) ≡ get later key c
unfolding get Memory.cleanup
get-cleanup_valid now later key c v h =
    ground (arith, get-remove_if str_discrete (λ _ item. is_expired now item) key c.store v)

-- The cleanup cannot be seen: whatever calls built the cache, Get returns the same with a cleanup
-- that ran at an earlier time as without it.
pub get-cleanup :
    (ops : List (Time × CacheOp)) (now later : Time) (key : GoString)
    → now ≤ later
    → get later key (Memory.cleanup now (run ops new_memory_cache))
      ≡ get later key (run ops new_memory_cache)
unfolding new_memory_cache
get-cleanup ops now later key h =
    get-cleanup_valid now later key _ (run-IsValid ops new_memory_cache tt) h

-- A key that SetNX has taken for a positive time is refused, and nothing changes, to every SetNX
-- before the time is over.
pub set_nx-locked :
    (now later : Time) (key value other : GoString) (n : ℕ) (d : Duration) (c : MemoryCache)
    → 0 < n
    → (Memory.set_nx now key value (pos n) c).1 ≡ true
    → later < now + n
    → Memory.set_nx later key other d (Memory.set_nx now key value (pos n) c).0
      ≡ ((Memory.set_nx now key value (pos n) c).0, false)
unfolding Memory.set_nx Memory.set
set_nx-locked now later key value other n d c h taken before =
    ground
      (arith, get-put str_discrete key key (record { value = value; expiration = now + n }) c.store)

-- Once the time for which SetNX has taken a key is over, the next SetNX takes it.
pub set_nx-released :
    (now later : Time) (key value other : GoString) (n : ℕ) (d : Duration) (c : MemoryCache)
    → 0 < n
    → (Memory.set_nx now key value (pos n) c).1 ≡ true
    → now + n ≤ later
    → (Memory.set_nx later key other d (Memory.set_nx now key value (pos n) c).0).1 ≡ true
unfolding Memory.set_nx Memory.set
set_nx-released now later key value other n d c h taken after =
    ground
      (arith, get-put str_discrete key key (record { value = value; expiration = now + n }) c.store)

-- At the very time of its expiration an item is still there for Get and Exists, and gone for SetNX
-- and GetMultiple.
pub at_expiration :
    (now : Time) (key value : GoString) (d : Duration) (c : MemoryCache) (item : CacheItem)
    → find key c ≡ some item
    → item.expiration ≡ now
    → 0 < now
    → (get now key c ≡ some item.value)
      × (exists now key c ≡ true)
      × ((Memory.set_nx now key value d c).1 ≡ true)
      × (get_multiple now (key ∷ []) c ≡ [])
unfolding get exists Memory.set_nx get_multiple
at_expiration now key value d c item h e p = ground arith

-- Where the item of a key, if there is one, does not expire at this very time, GetMultiple returns
-- for it what Get returns if the key is asked for, and nothing otherwise.
pub get_multiple-get :
    (now : Time) (keys : List GoString) (key : GoString) (c : MemoryCache)
    → ((item : CacheItem) → find key c ≡ some item → item.expiration ≢ now)
    → Dict.get str_discrete key (get_multiple now keys c)
      ≡ (if any (λ k. str_eq k key) keys then get now key c else none)
unfolding get_multiple get Dict.get
get_multiple-get now [] key c h = refl
get_multiple-get now (k ∷ keys) key c h = elim (Option-cases (find k c)) [
  | inl missing ↦ ground (arith, missing, get_multiple-get now keys key c h)
  | inr (item, e) ↦ ground (
    arith,
    e,
    get_multiple-get now keys key c h,
    λ (p : find key c ≡ some item). h item p,
    get-put str_discrete k key item.value (get_multiple now keys c),
  )
]
