-- ===== src/Redis/Connection.antt =====
-- internal/adapter/redis/customer_cache.go: opening the cache, and closing it.
use crm_beginner.Base.{ℕ, none, some, List, [], ◌∷◌, ok, err}
use crm_beginner.Domain.{wrap}
use crm_beginner.Redis.{Client, Handle}
use crm_beginner.Resources.{Action, Outside, Traced, opens_redis, closes_redis}
use crm_beginner.Text.{Bytes, bytes}

-- `NewCustomerCache`.
unfoldable pub new_customer_cache : Outside → Bytes → ℕ → Traced Client
new_customer_cache out url ttl = elim (out.parse_redis_url url) [
  | some e ↦ (err (wrap (bytes "parse redis url") e), [])
  | none ↦ elim out.ping_redis [
    | some e ↦ (err (wrap (bytes "ping redis") e), opens_redis ∷ closes_redis ∷ [])
    | none ↦ (ok (record { ttl = ttl }), opens_redis ∷ [])
  ]
]

-- `Close`. Its error is only logged.
unfoldable pub close : Handle → List Action
close none = []
close (some client) = closes_redis ∷ []
