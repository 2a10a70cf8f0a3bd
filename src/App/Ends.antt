-- ===== src/App/Ends.antt =====
-- About cmd/server/main.go and internal/app/app.go: what the server holds when it ends.
use crm_beginner.App.Orderly.{take_all-append, has, held_by, IsWhole, Builds, new-Builds}
use crm_beginner.App.Orders.{every, merge-every}
use crm_beginner.App.{
  App, close, close_pool, stop_ingester, new, stop_gracefully, Serving, not_called, called,
  returned, fails, signals, serve, run, run_and_close, built, main,
}
use crm_beginner.Base.{
  ◌≡◌, ◌∙◌, refl, ap, inl, inr, Bool, true, false, Option, none, some, List, [], ◌∷◌, ◌++◌, not,
  ◌&&◌, if◌then◌else◌, ok, err, Result-cases,
}
use crm_beginner.Config.{Config, Environment, load, cache_enabled, ingest_config}
use crm_beginner.Domain.{Error, wrap}
use crm_beginner.Ingest
use crm_beginner.Postgres.Pool.{Pool, limit, to_int32}
use crm_beginner.Redis.{Handle}
use crm_beginner.Redis.Connection
use crm_beginner.Redis.Connection.{new_customer_cache}
use crm_beginner.Resources.{
  Action, reports_not_serving, stops_ingester, closes_redis, closes_pool, take, Outside, Traced,
  Held, nothing_held, take_all,
}
use crm_beginner.Text.{bytes}

-- What a server holds whose `Serve` has failed.
abbrev pub unserved : Bool → Bool → Bool → Held
unserved pool redis ingesting = record {
  pool = pool;
  redis = redis;
  ingesting = ingesting;
  listening = false;
  serving = false;
  stopped = false;
}

abbrev was_called : Serving → Bool
was_called not_called = false
was_called _ = true

-- No call was out of order, and nothing is held; only the listener may be, if `Serve` was not called.
abbrev pub is_released : Serving → Option Held → Bool
is_released serving none = false
is_released serving (some h) =
    not h.pool
    && not h.redis
    && not h.ingesting
    && not h.serving
    && not (h.listening && was_called serving)

has-some : {A : Type 0} (o : Option A) (a : A) → o ≡ some a → has o ≡ true
has-some o a e = ap has e

-- What `Close` calls.
abbrev closing : Bool → List Action
closing cached = stops_ingester ∷ ((if cached then closes_redis ∷ [] else []) ++ (closes_pool ∷ []))

-- What `Run` and `Close` of a whole app call.
abbrev shutdown : Bool → Bool → List Action
shutdown in_time cached = reports_not_serving ∷ ((stop_gracefully in_time).1 ++ closing cached)

abbrev whole : Bool → Held
whole cached = record {
  pool = true;
  redis = cached;
  ingesting = true;
  listening = true;
  serving = false;
  stopped = false;
}

-- All orders of the calls, by computation.
shutdown-every :
    (serving : Serving) (in_time cached : Bool)
    → every (is_released serving) (serve serving) (shutdown in_time cached) (whole cached) ≡ true
unfolding stop_gracefully serve take take_all
shutdown-every not_called true true = refl
shutdown-every not_called true false = refl
shutdown-every not_called false true = refl
shutdown-every not_called false false = refl
shutdown-every called true true = refl
shutdown-every called true false = refl
shutdown-every called false true = refl
shutdown-every called false false = refl
shutdown-every returned true true = refl
shutdown-every returned true false = refl
shutdown-every returned false true = refl
shutdown-every returned false false = refl

parts-closing :
    (pool : Pool) (cache : Handle) (ingester : Ingest.Config)
    → stop_ingester (some ingester) ++ (Connection.close cache ++ close_pool (some pool))
      ≡ closing (has cache)
unfolding stop_ingester close_pool Connection.close
parts-closing pool none ingester = refl
parts-closing pool (some client) ingester = refl

close-closing : (cfg : Config) (a : App) → IsWhole cfg a → close a ≡ closing (has a.cache)
unfolding close
close-closing cfg a v =
    rw (close, v.ingester, v.pool)
      (parts-closing (record { max_conns = limit (to_int32 cfg.db_max_conns) }) a.cache
        (ingest_config cfg))

held_by-whole : (cfg : Config) (a : App) → IsWhole cfg a → held_by a ≡ whole (has a.cache)
held_by-whole cfg a v = λ i. record {
  pool = has-some a.pool _ v.pool i;
  redis = has a.cache;
  ingesting = has-some a.ingester _ v.ingester i;
  listening = has-some a.listener _ v.listener i;
  serving = false;
  stopped = false;
}

run_and_close-released :
    (serving : Serving) (order : List Bool) (in_time : Bool) (cfg : Config) (a : App)
    → IsWhole cfg a
    → is_released serving (take_all (run_and_close (signals serving order in_time) a).1 (held_by a))
      ≡ true
unfolding run_and_close run
run_and_close-released serving order in_time cfg a v =
    rw (close-closing cfg a v, held_by-whole cfg a v)
      (merge-every (is_released serving) order (serve serving) (shutdown in_time (has a.cache))
        (whole (has a.cache)) (shutdown-every serving in_time (has a.cache)))

built-released :
    (serving : Serving) (order : List Bool) (in_time : Bool) (cfg : Config) (t : Traced App)
    → Builds cfg nothing_held t
    → is_released serving (take_all (built (signals serving order in_time) t).1 nothing_held) ≡ true
unfolding built
built-released serving order in_time cfg (err e, actions) v = rw v refl
built-released serving order in_time cfg (ok a, actions) v =
    ap (is_released serving) (take_all-append actions _ nothing_held (held_by a) v.1)
    ∙ run_and_close-released serving order in_time cfg a v.0

-- The server that a signal ends, or that does not come to run: whatever its environment and its
-- libraries answer, whether the calls of clients end in time or not, and in whatever order the calls
-- of the goroutine of `Run` happen beside those of `Run` and `Close`, no call is out of order, from
-- the first to the last: neither the pool nor the ingester goes while the server serves. At the end
-- nothing is held, but for the listener where the goroutine has not come to call `Serve`.
pub main-is_released :
    (env : Environment) (out : Outside) (serving : Serving) (order : List Bool) (in_time : Bool)
    → is_released serving (take_all (main env out (signals serving order in_time)).1 nothing_held)
      ≡ true
unfolding main take_all
main-is_released env out serving order in_time = elim (Result-cases (load env)) [
  | inr (e, l) ↦ rw (main, take_all, l) refl
  | inl (cfg, l) ↦
      rw (main, l) (built-released serving order in_time cfg (new out cfg) (new-Builds out cfg))
]

serve_fails-unserved :
    (cfg : Config) (e : Error) (a : App)
    → IsWhole cfg a
    → take_all (run_and_close (fails e) a).1 (held_by a)
      ≡ some (unserved (has a.pool) (has a.cache) (has a.ingester))
unfolding run_and_close run serve take_all
serve_fails-unserved cfg e a v =
    let p = has-some a.pool _ v.pool in
    let i = has-some a.ingester _ v.ingester in
    let l = has-some a.listener _ v.listener in rw (p, i, l) refl

has_if : {A : Type 0} (b : Bool) (a : A) → has (if b then some a else none) ≡ b
has_if true a = refl
has_if false a = refl

built-fails :
    (cfg : Config) (e : Error) (a : App) (t : Traced App)
    → Builds cfg nothing_held t
    → t.0 ≡ ok a
    → ((built (fails e) t).0 ≡ some (wrap (bytes "serve") e))
      × (take_all (built (fails e) t).1 nothing_held
          ≡ some (unserved true (cache_enabled cfg) true))
unfolding built run_and_close run
built-fails cfg e a (err x, actions) v h = absurd cc
built-fails cfg e a (ok b, actions) (whole_app, v) h =
    let c = ap has whole_app.cache ∙ has_if (cache_enabled cfg) _ in
    (
      refl,
      take_all-append actions _ nothing_held (held_by b) v
          ∙ serve_fails-unserved cfg e b whole_app
          ∙ (λ i. some (
              unserved (has-some b.pool _ whole_app.pool i) (c i)
                (has-some b.ingester _ whole_app.ingester i))),
    )

-- The server that was built and whose `Serve` fails is left with the pool open, the cache, if there
-- is one, connected, and the ingester running: the process ends without `Close`.
pub main-fails :
    (env : Environment) (out : Outside) (cfg : Config) (e : Error) (a : App)
    → load env ≡ ok cfg
    → (new out cfg).0 ≡ ok a
    → ((main env out (fails e)).0 ≡ some (wrap (bytes "serve") e))
      × (take_all (main env out (fails e)).1 nothing_held
          ≡ some (unserved true (cache_enabled cfg) true))
unfolding main
main-fails env out cfg e a l h =
    rw (main, l) (built-fails cfg e a (new out cfg) (new-Builds out cfg) h)
