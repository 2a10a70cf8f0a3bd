-- ===== src/Ingest.antt =====
-- internal/ingest/ingester.go: the queue, the workers that batch it, and their flushes, as a state
-- machine. Its events are the cases that the `select` statements of the workers can take.
pub mod Counts
pub mod NoLoss
pub mod Moves
pub mod Orderly
pub mod Drain
pub mod Stranding
pub mod Submitter
pub mod Bounds
pub mod Memory
pub mod Finish
pub mod Once
pub mod Order
pub mod Stop
pub mod Closing
use crm_beginner.Base.Int.{ℤ, pos, pos_part, leb_ℤ}
use crm_beginner.Base.{
  ℕ, zero, suc, ◌+◌, ◌*◌, Bool, true, false, not, ◌&&◌, ◌||◌, Option, none, some, List, [], ◌∷◌,
  ◌++◌, ltb, leb, if◌then◌else◌, length, Result, ok, err,
}
use crm_beginner.Domain.{LogEntry, Error, sentinel, buffer_full, canceled}
use crm_beginner.Postgres.Logs.{LogTable, Context, bulk_insert}
use mathlib.Core.Option

-- Times are in nanoseconds.
abbrev pub initial_retry_backoff : ℕ
initial_retry_backoff = 100_000_000

abbrev pub max_retry_backoff : ℕ
max_retry_backoff = 5_000_000_000

pub record Config : Type 0 where
  pub workers : ℤ
  pub batch_size : ℤ
  pub flush_interval : ℤ
  pub buffer_size : ℤ

abbrev or_default : ℤ → ℤ → ℤ
or_default value fallback = if leb_ℤ value (pos 0) then fallback else value

-- The defaults of `New`.
unfoldable pub with_defaults : Config → Config
with_defaults cfg = record {
  workers = or_default cfg.workers (pos 4);
  batch_size = or_default cfg.batch_size (pos 500);
  flush_interval = or_default cfg.flush_interval (pos 2_000_000_000);
  buffer_size = or_default cfg.buffer_size (pos 10000);
}

-- A worker waits for an entry, the ticker or the end; is in `flush`, where it inserts the batch or
-- waits for the backoff to pass; or has returned. The flag says that `flush` is the last.
pub data Worker : Type 0 where
  collecting : List LogEntry → Worker
  inserting waiting : List LogEntry → ℕ → Bool → Worker
  exited : Worker

-- What the workers share: the channel, the context of `Start`, the table of logs, and the entries
-- that a flush has given up on.
pub record Shared : Type 0 where
  pub queue : List LogEntry
  pub closed : Bool
  pub is_cancelled : Bool
  pub table : LogTable
  pub given_up : List LogEntry

pub record Ingester : Type 0 where
  pub cfg : Config
  pub shared : Shared
  pub workers : List Worker

abbrev pub capacity : Config → ℕ
capacity cfg = pos_part cfg.buffer_size

pub repeat : ℕ → Worker → List Worker
repeat zero w = []
repeat (suc n) w = w ∷ repeat n w

-- `New` and `Start`.
unfoldable pub start : Config → LogTable → Ingester
unfolding with_defaults repeat
start given table =
    let cfg = with_defaults given in
    record {
      cfg = cfg;
      shared = record {
        queue = [];
        closed = false;
        is_cancelled = false;
        table = table;
        given_up = [];
      };
      workers = repeat (pos_part cfg.workers) (collecting []);
    }

pub data Reply : Type 0 where
  replied : Result Error (Unit {0}) → Reply
  panics : Reply

-- `Submit`. Where the channel has room and the caller's context is done, the `select` may take
-- either case: `prefers_send` is its choice. A send on the closed channel panics.
unfoldable pub submit : Config → Bool → Bool → LogEntry → Shared → Reply × Shared
submit cfg ctx_done prefers_send e s =
    if (s.closed || ltb (length s.queue) (capacity cfg)) && (prefers_send || not ctx_done)
    then (if s.closed
        then (panics, s)
        else (replied (ok tt), record s { queue = s.queue ++ (e ∷ []) }))
    else if ctx_done
    then (replied (err (sentinel canceled)), s)
    else (replied (err (sentinel buffer_full)), s)

-- Where a worker goes behind a flush.
abbrev resume : Bool → Worker
resume last = if last then exited else collecting []

-- `flush` up to its first insert: an empty batch returns at once.
pub enter_flush : List LogEntry → Bool → Worker
enter_flush [] last = resume last
enter_flush (e ∷ batch) last = inserting (e ∷ batch) initial_retry_backoff last

-- `batch = append(batch, e)` and the flush of a full batch.
pub add_to_batch : Config → List LogEntry → LogEntry → Worker
unfolding enter_flush
add_to_batch cfg batch e =
    let longer = batch ++ (e ∷ []) in
    if leb_ℤ cfg.batch_size (pos (length longer))
    then enter_flush longer false
    else collecting longer

abbrev next_backoff : ℕ → ℕ
next_backoff backoff =
    if ltb max_retry_backoff (backoff * 2) then max_retry_backoff else backoff * 2

-- What one worker may do next.
pub data Act : Type 0 where
  receives sees_close ticks sees_cancel elapses gives_up : Act
  inserts : Context → Act

receive : Config → List LogEntry → List LogEntry → Shared → Option (Worker × Shared)
unfolding add_to_batch
receive cfg batch [] s = none
receive cfg batch (e ∷ rest) s = some (add_to_batch cfg batch e, record s { queue = rest })

-- The closed channel is drained before it reports its end.
see_close : List LogEntry → List LogEntry → Shared → Option (Worker × Shared)
unfolding enter_flush
see_close batch [] s = if s.closed then some (enter_flush batch true, s) else none
see_close batch (e ∷ rest) s = none

after_insert :
    List LogEntry → ℕ → Bool → Shared → Result Error (Unit {0}) × LogTable → Worker × Shared
after_insert batch backoff last s (ok u, t) = (resume last, record s { table = t })
after_insert batch backoff last s (err e, t) = (waiting batch backoff last, record s { table = t })

-- One step of `worker` and of the `flush` in it; `none` where the worker cannot take it.
unfoldable pub work : Config → Act → Worker → Shared → Option (Worker × Shared)
unfolding receive see_close enter_flush after_insert
work cfg receives (collecting batch) s = receive cfg batch s.queue s
work cfg sees_close (collecting batch) s = see_close batch s.queue s
work cfg ticks (collecting batch) s = some (enter_flush batch false, s)
work cfg sees_cancel (collecting batch) s =
    if s.is_cancelled then some (enter_flush batch true, s) else none
work cfg (inserts ctx) (inserting batch backoff last) s =
    some (after_insert batch backoff last s (bulk_insert ctx batch s.table))
work cfg elapses (waiting batch backoff last) s =
    some (inserting batch (next_backoff backoff) last, s)
work cfg gives_up (waiting batch backoff last) s =
    if s.is_cancelled then some (resume last, record s { given_up = s.given_up ++ batch }) else none
work cfg act w s = none

-- The step of the worker at a place.
unfoldable pub work_at : Config → ℕ → Act → List Worker → Shared → Option (List Worker × Shared)
unfolding work
work_at cfg i act [] s = none
work_at cfg zero act (w ∷ ws) s = Option.map (λ r. (r.0 ∷ ws, r.1)) (work cfg act w s)
work_at cfg (suc i) act (w ∷ ws) s = Option.map (λ r. (w ∷ r.0, r.1)) (work_at cfg i act ws s)

-- An event: a call of `Submit` (is the caller's context done, which case is taken, the entry), a
-- step of a worker, the end of the context of `Start`, and the `close` of `Stop`.
pub data Event : Type 0 where
  submits : Bool → Bool → LogEntry → Event
  works : ℕ → Act → Event
  cancels : Event
  stops : Event

after_work : Ingester → Option (List Worker × Shared) → Option Ingester
after_work g none = none
after_work g (some (ws, s)) = some (record g { workers = ws; shared = s })

-- `none` is an event that cannot happen in this state. `stopOnce` lets a second `Stop` do nothing.
unfoldable pub step : Event → Ingester → Option Ingester
unfolding submit after_work
step (submits ctx_done prefers_send e) g =
    some (record g { shared = (submit g.cfg ctx_done prefers_send e g.shared).1 })
step (works i act) g = after_work g (work_at g.cfg i act g.workers g.shared)
step cancels g = some (record g { shared = record (g.shared) { is_cancelled = true } })
step stops g = some (record g { shared = record (g.shared) { closed = true } })

-- A schedule of events, from left to right.
unfoldable pub run : List Event → Ingester → Option Ingester
unfolding step
run [] g = some g
run (e ∷ events) g = elim (step e g) [ none ↦ none | some g' ↦ run events g' ]
