-- ===== src/App.antt =====
-- internal/app/app.go and cmd/server/main.go: the assembly of the server, its run and its end.
pub mod Orderly
pub mod Orders
pub mod Ends
pub mod Limits
use crm_beginner.Base.Int.{ℤ, pos_part}
use crm_beginner.Base.{
  ℕ, Bool, true, false, not, Option, none, some, List, [], ◌∷◌, ◌++◌, if◌then◌else◌, Result, ok,
  err,
}
use crm_beginner.Config.{Config, Environment, load, cache_enabled, ingest_config}
use crm_beginner.Domain.{Error, wrap}
use crm_beginner.Ingest
use crm_beginner.Postgres.Pool.{Pool, new_pool, to_int32}
use crm_beginner.Redis.{Client, Handle}
use crm_beginner.Redis.Connection
use crm_beginner.Redis.Connection.{new_customer_cache}
use crm_beginner.Resources.{
  Action, Outside, Traced, closes_pool, starts_ingester, stops_ingester, listens, serves,
  serve_fails, reports_not_serving, drains, cuts_off, serve_ends,
}
use crm_beginner.Text.{Bytes, bytes}

-- The resources of `App`; `none` is a nil field. The ingester is the settings it was given.
pub record App : Type 0 where
  pub cfg : Config
  pub pool : Option Pool
  pub cache : Handle
  pub ingester : Option Ingest.Config
  pub listener : Option Bytes

stop_ingester : Option Ingest.Config → List Action
stop_ingester none = []
stop_ingester (some cfg) = stops_ingester ∷ []

close_pool : Option Pool → List Action
close_pool none = []
close_pool (some pool) = closes_pool ∷ []

-- `Close`.
unfoldable pub close : App → List Action
unfolding stop_ingester close_pool
close a = stop_ingester a.ingester ++ (Connection.close a.cache ++ close_pool a.pool)

-- `New` behind the adapters: the ingester, the server and its listener.
serve_on : Outside → App → Traced App
unfolding close
serve_on out a =
    let a' = record a { ingester = some (ingest_config a.cfg) } in
    let start = starts_ingester (ingest_config a.cfg) in
    elim (out.listen a.cfg.grpc_addr) [
      | some e ↦ (err (wrap (bytes "listen on " ++ a.cfg.grpc_addr) e), start ∷ close a')
      | none ↦ (ok (record a' { listener = some a.cfg.grpc_addr }), start ∷ listens ∷ [])
    ]

after : {A : Type 0} → List Action → Traced A → Traced A
after actions (r, more) = (r, actions ++ more)

-- `New` behind the connection to Redis.
with_cache : Outside → App → Traced Client → Traced App
unfolding serve_on close after
with_cache out a (err e, actions) = (err (wrap (bytes "redis") e), actions ++ close a)
with_cache out a (ok cache, actions) =
    after actions (serve_on out (record a { cache = some cache }))

-- `New` behind the connection to Postgres.
with_pool : Outside → Config → Traced Pool → Traced App
unfolding with_cache serve_on after
with_pool out cfg (err e, actions) = (err (wrap (bytes "postgres") e), actions)
with_pool out cfg (ok pool, actions) =
    let a : App = record {
      cfg = cfg;
      pool = some pool;
      cache = none;
      ingester = none;
      listener = none;
    } in
    after actions (
      if cache_enabled cfg
      then with_cache out a (new_customer_cache out cfg.redis_url (pos_part cfg.cache_ttl))
      else serve_on out a)

-- `New`.
unfoldable pub new : Outside → Config → Traced App
unfolding with_pool
new out cfg = with_pool out cfg (new_pool out cfg.database_url (to_int32 cfg.db_max_conns))

-- `stopGracefully`, where all calls may end within the timeout, or not.
unfoldable pub stop_gracefully : Bool → Bool × List Action
stop_gracefully true = (false, drains ∷ serve_ends ∷ [])
stop_gracefully false = (true, drains ∷ cuts_off ∷ serve_ends ∷ [])

-- How far the goroutine of `Run` comes before the process ends: it has not called `Serve`, has called
-- it, or has seen it return an error.
pub data Serving : Type 0 where
  not_called called returned : Serving

-- What the `select` of `Run` takes: the error of `Serve`, or the end of the context. Then the goroutine
-- goes on beside `Run` and `Close`: `signals` says how far, in which order its calls and theirs happen,
-- `true` for one of the goroutine, and whether all calls of clients end within the timeout.
pub data Ending : Type 0 where
  fails : Error → Ending
  signals : Serving → List Bool → Bool → Ending

-- The calls of the goroutine.
pub serve : Serving → List Action
serve not_called = []
serve called = serves ∷ []
serve returned = serves ∷ serve_fails ∷ []

-- The calls of two goroutines in an order; what the order leaves comes at the end.
pub merge : List Bool → List Action → List Action → List Action
merge [] xs ys = xs ++ ys
merge (true ∷ order) [] ys = ys
merge (true ∷ order) (x ∷ xs) ys = x ∷ merge order xs ys
merge (false ∷ order) xs [] = xs
merge (false ∷ order) xs (y ∷ ys) = y ∷ merge order xs ys

-- `Run` behind its `select`, with the error that it returns.
unfoldable pub run : Ending → Option Error × List Action
unfolding stop_gracefully
run (fails e) = (some (wrap (bytes "serve") e), [])
run (signals serving order in_time) = (none, reports_not_serving ∷ (stop_gracefully in_time).1)

-- `main` behind `New`: `log.Fatalf` leaves the process without the deferred `Close`. The error that the
-- `select` takes is that of the goroutine's `Serve`.
run_and_close : Ending → App → Option Error × List Action
unfolding run close serve merge
run_and_close (fails e) a = ((run (fails e)).0, serve returned ++ (run (fails e)).1)
run_and_close (signals serving order in_time) a =
    let r = run (signals serving order in_time) in
    (r.0, merge order (serve serving) (r.1 ++ close a))

built : Ending → Traced App → Option Error × List Action
unfolding run_and_close
built ending (err e, actions) = (some (wrap (bytes "startup") e), actions)
built ending (ok a, actions) = let r = run_and_close ending a in (r.0, actions ++ r.1)

-- `main` of cmd/server, with the error of its `log.Fatalf`, `none` if it returns.
unfoldable pub main : Environment → Outside → Ending → Option Error × List Action
unfolding built
main env out ending = elim (load env) [
  | err e ↦ (some (wrap (bytes "config") e), [])
  | ok cfg ↦ built ending (new out cfg)
]
