-- ===== src/Cache/Keys.antt =====
-- CacheKeyBuilder (internal/application/port/output/cache_repository.go), and which keys a pattern
-- of UserSessions covers.
use go_clean_arch_poc.Base.{
  GoString, bytes, true, false, ◌≡◌, sym, ap, ◌∙◌, [], ◌∷◌, ◌++◌, str_eq, str_discrete, has_prefix,
  has_prefix-append, has_byte, has_prefix-append_both, append_assoc, str_eq-append_both,
  has_prefix-colon,
}

pub record CacheKeyBuilder : Type 0 where
  pub prefix : GoString

abbrev pub new_cache_key_builder : GoString → CacheKeyBuilder
new_cache_key_builder prefix = record { prefix = prefix }

unfoldable pub task : CacheKeyBuilder → GoString → GoString
task b id = b.prefix ++ (bytes ":task:" ++ id)

unfoldable pub user : CacheKeyBuilder → GoString → GoString
user b id = b.prefix ++ (bytes ":user:" ++ id)

unfoldable pub user_by_email : CacheKeyBuilder → GoString → GoString
user_by_email b email = b.prefix ++ (bytes ":user:email:" ++ email)

unfoldable pub task_list : CacheKeyBuilder → GoString → GoString
task_list b filter_hash = b.prefix ++ (bytes ":tasks:list:" ++ filter_hash)

unfoldable pub session : CacheKeyBuilder → GoString → GoString
session b session_id = b.prefix ++ (bytes ":session:" ++ session_id)

unfoldable pub token_blacklist : CacheKeyBuilder → GoString → GoString
token_blacklist b token_id = b.prefix ++ (bytes ":token:blacklist:" ++ token_id)

unfoldable pub user_sessions : CacheKeyBuilder → GoString → GoString
user_sessions b user_id = b.prefix ++ (bytes ":session:" ++ (user_id ++ bytes ":*"))

unfoldable pub user_session : CacheKeyBuilder → GoString → GoString → GoString
user_session b user_id token_id =
    b.prefix ++ (bytes ":session:" ++ (user_id ++ (bytes ":" ++ token_id)))

unfoldable pub user_list : CacheKeyBuilder → GoString → GoString
user_list b filter_hash = b.prefix ++ (bytes ":users:list:" ++ filter_hash)

-- The pattern of UserSessions without the `*` at its end.
unfoldable pub user_sessions_prefix : CacheKeyBuilder → GoString → GoString
user_sessions_prefix b user_id = b.prefix ++ (bytes ":session:" ++ (user_id ++ bytes ":"))

pub user_sessions_star :
    (b : CacheKeyBuilder) (u : GoString) → user_sessions b u ≡ user_sessions_prefix b u ++ b'*' ∷ []
unfolding user_sessions user_sessions_prefix
user_sessions_star b u =
    ap (λ r. b.prefix ++ (bytes ":session:" ++ r)) (sym (append_assoc u (bytes ":") (bytes "*")))
    ∙ sym (append_assoc b.prefix (bytes ":session:" ++ (u ++ bytes ":")) (bytes "*"))

-- The pattern of one user covers the sessions of that user and of no other.
pub user_sessions-user_session :
    (b : CacheKeyBuilder) (u v t : GoString)
    → has_byte b':' u ≡ false
    → has_byte b':' v ≡ false
    → has_prefix (user_sessions_prefix b u) (user_session b v t) ≡ str_eq u v
unfolding user_sessions_prefix user_session
user_sessions-user_session b u v t hu hv =
    has_prefix-append_both b.prefix _ _
    ∙ has_prefix-append_both (bytes ":session:") _ _
    ∙ has_prefix-colon u v t hu hv

-- It covers every session of that user, whatever the token.
pub user_sessions-own :
    (b : CacheKeyBuilder) (u t : GoString)
    → has_prefix (user_sessions_prefix b u) (user_session b u t) ≡ true
unfolding user_sessions_prefix user_session
user_sessions-own b u t =
    has_prefix-append_both b.prefix _ _
    ∙ has_prefix-append_both (bytes ":session:") _ _
    ∙ has_prefix-append_both u _ _
    ∙ has_prefix-append (bytes ":") t

-- It covers no entry of the list of revoked tokens.
pub user_sessions-token_blacklist :
    (b : CacheKeyBuilder) (u t : GoString)
    → has_prefix (user_sessions_prefix b u) (token_blacklist b t) ≡ false
unfolding user_sessions_prefix token_blacklist has_prefix
user_sessions-token_blacklist b u t = has_prefix-append_both b.prefix _ _

pub token_blacklist-ne-user_session :
    (b : CacheKeyBuilder) (u t r : GoString)
    → str_eq (user_session b u t) (token_blacklist b r) ≡ false
unfolding user_session token_blacklist str_discrete
token_blacklist-ne-user_session b u t r = str_eq-append_both b.prefix _ _
