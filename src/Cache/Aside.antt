-- ===== src/Cache/Aside.antt =====
-- GetJSON and SetJSON (internal/infrastructure/cache/memory/cache.go) over the cache port, whose errors
-- the use cases of tasks and users drop, and a cache that may be nil.
use go_clean_arch_poc.Base.{GoString, Option, none, some}
use go_clean_arch_poc.Base.Json.{Json}
use go_clean_arch_poc.Base.Int.{Time, Duration}
use go_clean_arch_poc.Cache.Port.{CacheRepository}

module _ {C : Type 0} (repo : CacheRepository C) {A : Type 0} (json : Json A) where
  unfoldable pub get_json : Time → GoString → C → Option A
  get_json now key c = elim (repo.get now key c) [ none ↦ none | some text ↦ json.unmarshal text ]

  unfoldable pub set_json : Time → GoString → A → Duration → C → C
  set_json now key x ttl c = elim (json.marshal x) [
    | none ↦ c
    | some text ↦ repo.set now key text ttl c
  ]

  -- `if uc.cache != nil { … GetJSON … }`
  unfoldable pub lookup : Time → GoString → Option C → Option A
  unfolding get_json
  lookup now key none = none
  lookup now key (some c) = get_json now key c

  -- `if uc.cache != nil { _ = SetJSON … }`
  unfoldable pub store : Time → GoString → A → Duration → Option C → Option C
  unfolding set_json
  store now key x ttl none = none
  store now key x ttl (some c) = some (set_json now key x ttl c)
