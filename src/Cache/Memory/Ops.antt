-- ===== src/Cache/Memory/Ops.antt =====
-- Sequences of calls on a MemoryCache (internal/infrastructure/cache/memory/cache.go).
use go_clean_arch_poc.Base.{ℕ, GoString, arith, inl, inr, Option-cases, List, [], ◌∷◌, str_discrete}
use go_clean_arch_poc.Base.Int.{Time, Duration, add}
use go_clean_arch_poc.Base.Dict.{Dict, IsDict, put-IsDict, remove-IsDict, remove_if-IsDict}
use go_clean_arch_poc.Cache.Memory
use go_clean_arch_poc.Cache.Memory.{MemoryCache, CacheItem, find, expires_at}

-- A Go map holds no key twice.
abbrev pub IsValid : MemoryCache → Type 0
IsValid c = IsDict str_discrete c.store

-- A call of a method that changes the store, with the time of its call.
pub data CacheOp : Type 0 where
  set set_nx : GoString → GoString → Duration → CacheOp
  delete delete_pattern : GoString → CacheOp
  expire : GoString → Duration → CacheOp
  increment : GoString → ℕ → CacheOp
  set_multiple : Dict GoString GoString → Duration → CacheOp
  cleanup close : CacheOp

pub apply : Time → CacheOp → MemoryCache → MemoryCache
apply now (set k v d) c = Memory.set now k v d c
apply now (set_nx k v d) c = (Memory.set_nx now k v d c).0
apply now (delete k) c = Memory.delete k c
apply now (delete_pattern p) c = Memory.delete_pattern p c
apply now (expire k d) c = Memory.expire now k d c
apply now (increment k n) c = (Memory.increment k n c).0
apply now (set_multiple m d) c = Memory.set_multiple now m d c
apply now cleanup c = Memory.cleanup now c
apply now close c = Memory.close c

pub run : List (Time × CacheOp) → MemoryCache → MemoryCache
run [] c = c
run ((now, op) ∷ ops) c = run ops (apply now op c)

set_multiple-IsValid :
    (now : Time) (m : Dict GoString GoString) (d : Duration) (c : MemoryCache)
    → IsValid c
    → IsValid (Memory.set_multiple now m d c)
unfolding Memory.set_multiple
set_multiple-IsValid now [] d c v = v
set_multiple-IsValid now ((k, x) ∷ m) d c v =
    set_multiple-IsValid now m d _
      (put-IsDict str_discrete k (record { value = x; expiration = expires_at now d }) c.store v)

apply-IsValid : (now : Time) (op : CacheOp) (c : MemoryCache) → IsValid c → IsValid (apply now op c)
unfolding apply Memory.set Memory.set_nx Memory.delete Memory.delete_pattern Memory.expire
    Memory.increment Memory.cleanup Memory.close
apply-IsValid now (set k x d) c v = put-IsDict str_discrete k _ c.store v
apply-IsValid now (set_nx k x d) c v = ground (
  arith,
  put-IsDict str_discrete k (record { value = x; expiration = expires_at now d }) c.store v,
)
apply-IsValid now (delete k) c v = remove-IsDict str_discrete k c.store v
apply-IsValid now (delete_pattern p) c v = remove_if-IsDict str_discrete _ c.store v
apply-IsValid now (expire k d) c v = elim (Option-cases (find k c)) [
  | inl missing ↦ rw (missing, Memory.expire) v
  | inr (item, e) ↦
      rw (e, Memory.expire)
        (put-IsDict str_discrete k (record item { expiration = add now d }) c.store v)
]
apply-IsValid now (increment k n) c v = put-IsDict str_discrete k _ c.store v
apply-IsValid now (set_multiple m d) c v = set_multiple-IsValid now m d c v
apply-IsValid now cleanup c v = remove_if-IsDict str_discrete _ c.store v
apply-IsValid now close c v = tt

-- A cache that holds no key twice holds none twice after any calls.
pub run-IsValid : (ops : List (Time × CacheOp)) (c : MemoryCache) → IsValid c → IsValid (run ops c)
unfolding run
run-IsValid [] c v = v
run-IsValid ((now, op) ∷ ops) c v = run-IsValid ops (apply now op c) (apply-IsValid now op c v)
