-- ===== src/Resources.antt =====
-- What the server of cmd/server opens, starts and serves with, for internal/app/app.go and the
-- constructors of its adapters: the calls it makes of its libraries, and what they answer.
use crm_beginner.Base.Int.{ℤ}
use crm_beginner.Base.{
  Bool, true, false, not, ◌&&◌, Option, none, some, List, [], ◌∷◌, if◌then◌else◌, Result,
}
use crm_beginner.Domain.{Error}
use crm_beginner.Ingest
use crm_beginner.Text.{Bytes}

-- The calls, in the order in which they take effect: `pgxpool.NewWithConfig` with its limit of
-- connections, and `Close`; `redisclient.NewClient` and `Close`; `Start` and `Stop` of the ingester;
-- `net.Listen`; `Serve`; its return with an error; `Shutdown` of the health server; `GracefulStop`;
-- `Stop` of the server; the return of `GracefulStop`, behind which no handler runs.
pub data Action : Type 0 where
  opens_pool : Option ℤ → Action
  closes_pool opens_redis closes_redis : Action
  starts_ingester : Ingest.Config → Action
  stops_ingester listens serves serve_fails reports_not_serving drains cuts_off serve_ends : Action

-- What the libraries answer: `none` is no error.
pub record Outside : Type 0 where
  pub parse_dsn : Bytes → Option Error
  pub create_pool : Option Error
  pub ping_pool : Option Error
  pub parse_redis_url : Bytes → Option Error
  pub ping_redis : Option Error
  pub listen : Bytes → Option Error

-- A result, with the calls that were made for it.
abbrev pub Traced : Type 0 → Type 0
Traced A = Result Error A × List Action

-- What a process holds.
pub record Held : Type 0 where
  pub pool : Bool
  pub redis : Bool
  pub ingesting : Bool
  pub listening : Bool
  pub serving : Bool
  pub stopped : Bool

abbrev pub nothing_held : Held
nothing_held = record {
  pool = false;
  redis = false;
  ingesting = false;
  listening = false;
  serving = false;
  stopped = false;
}

abbrev allowed : Bool → Held → Option Held
allowed b h = if b then some h else none

-- The rules of the resources; `none` is a call out of order. Nothing is opened twice, and nothing is
-- closed that is not open. The ingester needs the pool from its start to its stop. The server needs
-- its listener, the pool and the ingester, and none of them goes while it serves: a handler would
-- send into the ingester's closed channel. `GracefulStop` closes the listener of a server that serves,
-- and a `Serve` that is called behind it closes its listener and returns an error without serving.
unfoldable pub take : Action → Held → Option Held
take (opens_pool limit) h = allowed (not h.pool) (record h { pool = true })
take closes_pool h =
    allowed (h.pool && not h.ingesting && not h.serving) (record h { pool = false })
take opens_redis h = allowed (not h.redis) (record h { redis = true })
take closes_redis h = allowed (h.redis && not h.serving) (record h { redis = false })
take (starts_ingester cfg) h = allowed (h.pool && not h.ingesting) (record h { ingesting = true })
take stops_ingester h = allowed (h.ingesting && not h.serving) (record h { ingesting = false })
take listens h = allowed (not h.listening) (record h { listening = true })
take serves h =
    if h.stopped
    then allowed h.listening (record h { listening = false })
    else allowed (h.listening && h.pool && h.ingesting && not h.serving)
        (record h { serving = true })
take serve_fails h =
    if h.stopped
    then some h
    else allowed h.serving (record h { serving = false; listening = false })
take reports_not_serving h = some h
take drains h = some (record h { stopped = true; listening = h.listening && not h.serving })
take cuts_off h = allowed h.stopped h
take serve_ends h = allowed h.stopped (record h { serving = false })

unfoldable pub take_all : List Action → Held → Option Held
unfolding take
take_all [] h = some h
take_all (a ∷ actions) h = elim (take a h) [ none ↦ none | some h' ↦ take_all actions h' ]
