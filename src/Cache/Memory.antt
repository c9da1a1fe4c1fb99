-- ===== src/Cache/Memory.antt =====
-- MemoryCache (internal/infrastructure/cache/memory/cache.go). A method holds the mutex from its
-- first line to its last, so that each call is one step on the store. A call of `time.Now()` is an
-- argument. A method whose error is always nil returns no error; a stored value is a non-nil slice,
-- and what `Get` returns as nil is `none`.

pub mod Laws
pub mod Ops
pub mod Expiry
pub mod Counter
use go_clean_arch_poc.Base.{
  ℕ, zero, ◌+◌, ◌*◌, ◌/◌, ◌%◌, ◌^◌, GoString, bytes, has_prefix, Bool, true, false, not, ◌||◌, ◌&&◌,
  Option, none, some, List, [], ◌∷◌, length, leb, ltb, ◌==◌, str_discrete, if◌then◌else◌,
}
use go_clean_arch_poc.Base.Int.{Time, Duration, is_positive, add}
use go_clean_arch_poc.Base.Dict
use go_clean_arch_poc.Base.Dict.{Dict}

pub record CacheItem : Type 0 where
  pub value : GoString
  pub expiration : Time

pub record MemoryCache : Type 0 where
  pub store : Dict GoString CacheItem

unfoldable pub new_memory_cache : MemoryCache
new_memory_cache = record { store = [] }

abbrev pub find : GoString → MemoryCache → Option CacheItem
find key c = Dict.get str_discrete key c.store

abbrev pub is_zero : Time → Bool
is_zero t = t == 0

-- `!item.expiration.IsZero() && now.After(item.expiration)`
abbrev pub is_expired : Time → CacheItem → Bool
is_expired now item = not (is_zero item.expiration) && ltb item.expiration now

-- `item.expiration.IsZero() || now.Before(item.expiration)`
abbrev pub is_live : Time → CacheItem → Bool
is_live now item = is_zero item.expiration || ltb now item.expiration

-- The expiration that Set, SetNX and SetMultiple store.
abbrev pub expires_at : Time → Duration → Time
expires_at now expiration = if is_positive expiration then add now expiration else 0

-- One tick of the goroutine that NewMemoryCache starts.
unfoldable pub cleanup : Time → MemoryCache → MemoryCache
cleanup now c = record {
  store = Dict.remove_if str_discrete (λ _ item. is_expired now item) c.store;
}

unfoldable pub get : Time → GoString → MemoryCache → Option GoString
get now key c = elim (find key c) [
  | none ↦ none
  | some item ↦ if is_expired now item then none else some item.value
]

abbrev store_item : GoString → CacheItem → MemoryCache → MemoryCache
store_item key item c = record { store = Dict.put str_discrete key item c.store }

unfoldable pub set : Time → GoString → GoString → Duration → MemoryCache → MemoryCache
set now key value expiration c =
    store_item key (record { value = value; expiration = expires_at now expiration }) c

unfoldable pub delete : GoString → MemoryCache → MemoryCache
delete key c = record { store = Dict.remove str_discrete key c.store }

unfoldable pub exists : Time → GoString → MemoryCache → Bool
exists now key c = elim (find key c) [
  | none ↦ false
  | some item ↦ if is_expired now item then false else true
]

unfoldable pub set_nx : Time → GoString → GoString → Duration → MemoryCache → MemoryCache × Bool
unfolding set
set_nx now key value expiration c = elim (find key c) [
  | none ↦ (set now key value expiration c, true)
  | some item ↦ if is_live now item then (c, false) else (set now key value expiration c, true)
]

unfoldable pub expire : Time → GoString → Duration → MemoryCache → MemoryCache
expire now key expiration c = elim (find key c) [
  | none ↦ c
  | some item ↦ store_item key (record item { expiration = add now expiration }) c
]

-- An int64 as its bit pattern, below 2 ^ 64. The eight bytes of a counter, least significant first:
-- `current |= int64(b) << (i * 8)` joins disjoint bits, so that it is a sum.
unfoldable pub read_int64 : GoString → ℕ
read_int64 (a ∷ b ∷ c ∷ d ∷ e ∷ f ∷ g ∷ h ∷ []) =
    a + b * 2 ^ 8 + c * 2 ^ 16 + d * 2 ^ 24 + e * 2 ^ 32 + f * 2 ^ 40 + g * 2 ^ 48 + h * 2 ^ 56
read_int64 _ = 0

-- `bytes[i] = byte(newValue >> (i * 8))`
unfoldable pub write_int64 : ℕ → GoString
write_int64 n =
    n % 256
    ∷ n / 2 ^ 8 % 256
    ∷ n / 2 ^ 16 % 256
    ∷ n / 2 ^ 24 % 256
    ∷ n / 2 ^ 32 % 256
    ∷ n / 2 ^ 40 % 256
    ∷ n / 2 ^ 48 % 256
    ∷ n / 2 ^ 56 % 256
    ∷ []

abbrev pub current_count : GoString → MemoryCache → ℕ
current_count key c = elim (find key c) [ none ↦ 0 | some item ↦ read_int64 item.value ]

unfoldable pub increment : GoString → ℕ → MemoryCache → MemoryCache × ℕ
increment key value c =
    let new_value = (current_count key c + value) % 2 ^ 64 in
    (store_item key (record { value = write_int64 new_value; expiration = 0 }) c, new_value)

-- The pattern without a `*` at its end.
unfoldable pub pattern_prefix : GoString → GoString
pattern_prefix [] = []
pattern_prefix (b ∷ []) = if b == b'*' then [] else b ∷ []
pattern_prefix (b ∷ b' ∷ bs) = b ∷ pattern_prefix (b' ∷ bs)

unfoldable pub delete_pattern : GoString → MemoryCache → MemoryCache
delete_pattern pattern c = record {
  store = Dict.remove_if str_discrete (λ key _. has_prefix (pattern_prefix pattern) key) c.store;
}

-- The map that GetMultiple returns.
unfoldable pub get_multiple : Time → List GoString → MemoryCache → Dict GoString GoString
get_multiple now [] c = []
get_multiple now (key ∷ keys) c =
    let result = get_multiple now keys c in
    elim (find key c) [
      | none ↦ result
      | some item ↦ if is_live now item then Dict.put str_discrete key item.value result else result
    ]

unfoldable pub set_multiple : Time → Dict GoString GoString → Duration → MemoryCache → MemoryCache
set_multiple now [] expiration c = c
set_multiple now ((key, value) ∷ values) expiration c =
    set_multiple now values expiration
      (store_item key (record { value = value; expiration = expires_at now expiration }) c)

unfoldable pub close : MemoryCache → MemoryCache
close c = record { store = [] }

unfoldable pub size : MemoryCache → ℕ
size c = length c.store
