-- ===== src/App/Orderly.antt =====
-- About `New` of internal/app/app.go: what it opens, and what it leaves open.
use crm_beginner.App.{
  App, close, close_pool, stop_ingester, serve_on, after, with_cache, with_pool, new,
}
use crm_beginner.Base.Int.{pos_part}
use crm_beginner.Base.{
  ◌≡◌, ◌∙◌, refl, inl, inr, Bool, true, false, Option, none, some, List, [], ◌∷◌, ◌++◌,
  if◌then◌else◌, ok, err, arith, Option-cases, Bool-cases,
}
use crm_beginner.Config.{Config, cache_enabled, ingest_config}
use crm_beginner.Postgres.Pool.{new_pool, to_int32, limit}
use crm_beginner.Redis.{Handle}
use crm_beginner.Redis.Connection
use crm_beginner.Redis.Connection.{new_customer_cache}
use crm_beginner.Resources.{
  Action, Outside, Traced, Held, nothing_held, take, take_all, opens_redis, opens_pool,
}

pub take_all-append :
    (xs ys : List Action) (h h' : Held)
    → take_all xs h ≡ some h'
    → take_all (xs ++ ys) h ≡ take_all ys h'
unfolding take_all
take_all-append [] ys h h' e = cc
take_all-append (x ∷ xs) ys h h' e = elim (Option-cases (take x h)) [
  | inl n ↦ absurd (ground arith)
  | inr (h1, t) ↦ rw (take_all, t) (take_all-append xs ys h1 h' (ground arith))
]

abbrev pub has : {A : Type 0} → Option A → Bool
has none = false
has (some a) = true

-- An app that `New` has built holds this.
abbrev pub held_by : App → Held
held_by a = record {
  pool = has a.pool;
  redis = has a.cache;
  ingesting = has a.ingester;
  listening = has a.listener;
  serving = false;
  stopped = false;
}

-- Every part is there, with its settings; the cache if there is a `REDIS_URL`.
pub record IsWhole (cfg : Config) (a : App) : Type 0 where
  pub pool : a.pool ≡ some (record { max_conns = limit (to_int32 cfg.db_max_conns) })
  pub cache :
      a.cache ≡ (if cache_enabled cfg then some (record { ttl = pos_part cfg.cache_ttl }) else none)
  pub ingester : a.ingester ≡ some (ingest_config cfg)
  pub listener : a.listener ≡ some cfg.grpc_addr

abbrev pub Builds : Config → Held → Traced App → Type 0
Builds cfg h (err e, actions) = take_all actions h ≡ some nothing_held
Builds cfg h (ok a, actions) = IsWhole cfg a × (take_all actions h ≡ some (held_by a))

after-Builds :
    (cfg : Config) (actions : List Action) (h h' : Held) (t : Traced App)
    → take_all actions h ≡ some h'
    → Builds cfg h' t
    → Builds cfg h (after actions t)
unfolding after
after-Builds cfg actions h h' (err e, more) k v = take_all-append actions more h h' k ∙ v
after-Builds cfg actions h h' (ok a, more) k v = (v.0, take_all-append actions more h h' k ∙ v.1)

abbrev with_pool_only : Config → App
with_pool_only cfg = record {
  cfg = cfg;
  pool = some (record { max_conns = limit (to_int32 cfg.db_max_conns) });
  cache = none;
  ingester = none;
  listener = none;
}

module _ (out : Outside) (cfg : Config) where
  serve_on-Builds :
      (cache : Handle)
      → cache ≡ (if cache_enabled cfg then some (record { ttl = pos_part cfg.cache_ttl }) else none)
      → let a = record (with_pool_only cfg) { cache = cache } in
        Builds cfg (held_by a) (serve_on out a)
  unfolding serve_on close take_all stop_ingester close_pool Connection.close
  serve_on-Builds none e = elim (Option-cases (out.listen cfg.grpc_addr)) [
    | inl n ↦
        rw (Builds, serve_on, n)
          (record { pool = refl; cache = e; ingester = refl; listener = refl }, refl)
    | inr (x, s) ↦ rw (Builds, serve_on, s) refl
  ]
  serve_on-Builds (some client) e = elim (Option-cases (out.listen cfg.grpc_addr)) [
    | inl n ↦
        rw (Builds, serve_on, n)
          (record { pool = refl; cache = e; ingester = refl; listener = refl }, refl)
    | inr (x, s) ↦ rw (Builds, serve_on, s) refl
  ]

  with_cache-Builds :
      cache_enabled cfg ≡ true
      → Builds cfg (held_by (with_pool_only cfg)) (
          with_cache out
            (with_pool_only cfg)
            (new_customer_cache out cfg.redis_url (pos_part cfg.cache_ttl)))
  unfolding with_cache new_customer_cache close take_all stop_ingester close_pool Connection.close
  with_cache-Builds e = elim (Option-cases (out.parse_redis_url cfg.redis_url)) [
    | inr (x, s) ↦ rw (Builds, with_cache, new_customer_cache, s) refl
    | inl parsed ↦ elim (Option-cases out.ping_redis) [
      | inr (x, s) ↦ rw (Builds, with_cache, new_customer_cache, parsed, s) refl
      | inl pinged ↦
          rw (with_cache, new_customer_cache, parsed, pinged)
            (after-Builds cfg (opens_redis ∷ []) _ _ _ refl
              (serve_on-Builds (some (record { ttl = pos_part cfg.cache_ttl })) (rw e refl)))
    ]
  ]

  behind_pool-Builds : Builds cfg (held_by (with_pool_only cfg)) (
      if cache_enabled cfg
      then with_cache out
          (with_pool_only cfg)
          (new_customer_cache out cfg.redis_url (pos_part cfg.cache_ttl))
      else serve_on out (with_pool_only cfg))
  behind_pool-Builds = elim (Bool-cases (cache_enabled cfg)) [
    | inl e ↦ rw e (with_cache-Builds e)
    | inr e ↦ rw e (serve_on-Builds none (rw e refl))
  ]

  -- `New`, whatever it meets: if it fails, everything that it opened is closed and the ingester that
  -- it started is stopped; if it succeeds, every part of the app is there, with its settings, and
  -- just these are held, the cache if and only if there is a `REDIS_URL`. No call is out of order.
  pub new-Builds : Builds cfg nothing_held (new out cfg)
  unfolding new with_pool new_pool take_all
  new-Builds = elim (Option-cases (out.parse_dsn cfg.database_url)) [
    | inr (x, s) ↦ rw (Builds, new, with_pool, new_pool, s) refl
    | inl parsed ↦ elim (Option-cases out.create_pool) [
      | inr (x, s) ↦ rw (Builds, new, with_pool, new_pool, parsed, s) refl
      | inl created ↦ elim (Option-cases out.ping_pool) [
        | inr (x, s) ↦ rw (Builds, new, with_pool, new_pool, parsed, created, s) refl
        | inl pinged ↦
            rw (new, with_pool, new_pool, parsed, created, pinged)
              (after-Builds cfg (opens_pool (limit (to_int32 cfg.db_max_conns)) ∷ []) _ _ _ refl
                behind_pool-Builds)
      ]
    ]
  ]
