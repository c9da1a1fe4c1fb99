-- ===== src/Cache/Memory/Counter.antt =====
-- Increment (internal/infrastructure/cache/memory/cache.go).
use go_clean_arch_poc.Base.{
  ℕ, ◌+◌, ◌<◌, ◌%◌, ◌^◌, GoString, true, ◌≡◌, arith, none, some, str_discrete,
}
use go_clean_arch_poc.Base.Int.{Time}
use go_clean_arch_poc.Base.Dict.{get-put}
use go_clean_arch_poc.Cache.Memory.{
  MemoryCache, CacheItem, find, get, increment, read_int64, write_int64, is_expired, current_count,
}

pub read_int64-write_int64 : (n : ℕ) → n < 2 ^ 64 → read_int64 (write_int64 n) ≡ n
unfolding read_int64 write_int64
read_int64-write_int64 n h = omega arith

-- A second Increment of a key returns what the first returned and its own value added, modulo 2 ^
-- 64, whatever was stored before and whether or not it had expired.
pub increment_twice :
    (key : GoString) (m n : ℕ) (c : MemoryCache)
    → (increment key n (increment key m c).0).1 ≡ ((increment key m c).1 + n) % 2 ^ 64
unfolding increment
increment_twice key m n c =
    let v : ℕ = (current_count key c + m) % 2 ^ 64 in
    ground (
      arith,
      get-put str_discrete key key (record { value = write_int64 v; expiration = 0 }) c.store,
      read_int64-write_int64 v (omega arith),
    )

-- An item that has expired is gone for Get, and still counts for Increment; what Increment stores
-- never expires.
pub increment_expired :
    (now later : Time) (key : GoString) (n : ℕ) (c : MemoryCache) (item : CacheItem)
    → find key c ≡ some item
    → is_expired now item ≡ true
    → (get now key c ≡ none)
      × ((increment key n c).1 ≡ (read_int64 item.value + n) % 2 ^ 64)
      × (get later key (increment key n c).0
          ≡ some (write_int64 ((read_int64 item.value + n) % 2 ^ 64)))
unfolding increment get
increment_expired now later key n c item e x = (
  ground arith,
  ground arith,
  ground (
    arith,
    get-put str_discrete key key
        (record { value = write_int64 ((read_int64 item.value + n) % 2 ^ 64); expiration = 0 })
        c.store,
  ),
)
