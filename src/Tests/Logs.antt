-- ===== src/Tests/Logs.antt =====
-- The pipeline of logs.
use crm_beginner.Base.Int.{pos, pos_part}
use crm_beginner.Base.{
  Option, ℕ, ◌+◌, ◌*◌, All, length, ◌≤◌, ◌≡◌, refl, Bool, true, false, none, some, List, [], ◌∷◌,
  ◌++◌, map,
}
use crm_beginner.Domain.{Error, other}
use crm_beginner.Domain.{sentinel, eof}
use crm_beginner.Grpc.Interceptors.{HealthMethods, is_health_check, chain, returned, finished}
use crm_beginner.Grpc.Status.{Status, unavailable}
use crm_beginner.Grpc.Logs.Served.{handled, answer, status_in, NotStopped, chain-open}
use crm_beginner.Grpc.Logs.Replies.{replies_to, end_by, ingest_logs-replies_to}
use crm_beginner.Grpc.Logs.{Received, ingest_logs}
use crm_beginner.Ingest.Submitter.{Caller, ingester}
use crm_beginner.LogAgent.Tailer.{WireEntry}
use crm_beginner.Ingest.Counts.{count_rows}
use crm_beginner.Ingest.Drain.{AllExited, drained}
use crm_beginner.Ingest.Memory.{run-in_memory, in_memory, WaitsInBounds}
use crm_beginner.Ingest.Order.Runs.{taken_in, run-pipeline}
use crm_beginner.Ingest.Order.{pipeline, stored}
use crm_beginner.Ingest.Once.{AnswersEvent, drained-once}
use crm_beginner.Ingest.Stop.{stop-drains}
use crm_beginner.Ingest.NoLoss.{total, accepted, run-total}
use crm_beginner.Ingest.Stranding.{Stranded, run-Stranded}
use crm_beginner.Ingest.{
  Config, Ingester, Event, submits, works, cancels, stops, receives, sees_close, sees_cancel,
  inserts, elapses, start, run, work_at, with_defaults,
}
use crm_beginner.Postgres.Logs.{Columns, columns_of, bulk_insert}
use crm_beginner.Remote.{up, lost, refused}
use crm_beginner.Tests.Data.{log_entry}
use crm_beginner.Text.{Bytes, bytes, equal}

abbrev every : Columns → Bool
every c = true

abbrev cfg : Config
cfg = record { workers = pos 1; batch_size = pos 1; flush_interval = pos 1; buffer_size = pos 2 }

-- The first insert's reply is lost, so that the entry is stored twice.
abbrev drain : List Event
drain =
    submits false true log_entry
    ∷ works 0 receives
    ∷ works 0 (inserts (record { now = 8; link = lost (other []) }))
    ∷ works 0 elapses
    ∷ stops
    ∷ works 0 (inserts (record { now = 9; link = up }))
    ∷ works 0 sees_close
    ∷ []

abbrev behind : List Event → Ingester
behind events = elim (run events (start cfg [])) [ none ↦ start cfg [] | some g ↦ g ]

drain_runs : run drain (start cfg []) ≡ some (behind drain)
unfolding run start bulk_insert work_at
drain_runs = refl

run-total_example :
    total every (start cfg []) + accepted every drain (start cfg []) ≤ total every (behind drain)
run-total_example = run-total every drain (start cfg []) (behind drain) drain_runs

drain-AllExited : AllExited (behind drain).workers
unfolding run start bulk_insert work_at
drain-AllExited = (refl, tt)

drain_goes_on : (behind drain).shared.is_cancelled ≡ false
unfolding run start bulk_insert work_at
drain_goes_on = refl

drained_example :
    count_rows every [] + accepted every drain (start cfg [])
    ≤ count_rows every (behind drain).shared.table
drained_example = drained every cfg [] drain (behind drain) drain_runs drain_goes_on drain-AllExited

-- A cancellation, and a call of `Submit` behind it.
abbrev cancelled : List Event
cancelled = cancels ∷ works 0 sees_cancel ∷ []

abbrev late : List Event
late = submits false true log_entry ∷ []

cancelled-AllExited : AllExited (behind cancelled).workers
unfolding run start work_at
cancelled-AllExited = (refl, tt)

late_runs : run late (behind cancelled) ≡ some (behind (cancelled ++ late))
unfolding run start work_at
late_runs = refl

run-Stranded_example :
    Stranded every
      (behind cancelled)
      (behind (cancelled ++ late))
      (accepted every late (behind cancelled))
run-Stranded_example =
    run-Stranded every late (behind cancelled) (behind (cancelled ++ late)) cancelled-AllExited
      late_runs

abbrev message : WireEntry
message = record {
  level = bytes "info";
  message = bytes "hello";
  service = bytes "web";
  timestamp = bytes "yesterday";
}

abbrev caller : List Event → Caller
caller events = record { meanwhile = events; ctx_done = false; prefers_send = true }

-- Four messages to a queue for two, of which a worker takes one before the second.
abbrev received : List (Received Caller)
received =
    (record { ctx = caller []; now = 1; req = message })
    ∷ (record { ctx = caller (works 0 receives ∷ []); now = 2; req = message })
    ∷ (record { ctx = caller []; now = 3; req = message })
    ∷ (record { ctx = caller []; now = 4; req = message })
    ∷ []

abbrev no_time : Bytes → Option ℕ
no_time s = none

ingest_logs-replies_to_example :
    let r = replies_to no_time ingester received (start cfg []) in
    ingest_logs no_time ingester received (sentinel eof) none (start cfg [])
    ≡ (end_by r.0 (sentinel eof) none, r.1)
ingest_logs-replies_to_example =
    ingest_logs-replies_to no_time ingester received (sentinel eof) none (start cfg [])

run-in_memory_example :
    (in_memory (behind drain)
      ≤ pos_part (with_defaults cfg).buffer_size
        + pos_part (with_defaults cfg).workers * pos_part (with_defaults cfg).batch_size)
    × All WaitsInBounds (behind drain).workers
run-in_memory_example = run-in_memory cfg [] drain (behind drain) drain_runs

-- One entry in a worker's batch, which the database has refused once, and one in the channel.
abbrev busy : List Event
busy =
    submits false true log_entry
    ∷ works 0 receives
    ∷ works 0 (inserts (record { now = 8; link = refused (other []) }))
    ∷ submits false true log_entry
    ∷ []

busy_runs : run busy (start cfg []) ≡ some (behind busy)
unfolding run start bulk_insert work_at
busy_runs = refl

busy_goes_on : (behind busy).shared.is_cancelled ≡ false
unfolding run start bulk_insert work_at
busy_goes_on = refl

stop-drains_example :
    (more : List Event) × (g' : Ingester) × (run (busy ++ stops ∷ more) (start cfg []) ≡ some g')
    × AllExited g'.workers
    × (count_rows every [] + accepted every busy (start cfg []) ≤ count_rows every g'.shared.table)
    × (length more ≤ 2 * length (behind busy).shared.queue + 4 * length (behind busy).workers)
stop-drains_example = stop-drains every cfg [] busy (behind busy) busy_runs busy_goes_on

-- Both are stored, the first behind a second attempt.
abbrev completed : List Event
completed =
    busy
    ++ (works 0 elapses
        ∷ works 0 (inserts (record { now = 9; link = up }))
        ∷ works 0 receives
        ∷ works 0 (inserts (record { now = 10; link = up }))
        ∷ stops
        ∷ works 0 sees_close
        ∷ [])

completed_answered : All AnswersEvent completed
completed_answered = (tt, (tt, (tt, (tt, (tt, (tt, (tt, (tt, (tt, (tt, tt))))))))))

completed_runs : run completed (start cfg []) ≡ some (behind completed)
unfolding run start bulk_insert work_at
completed_runs = refl

completed-AllExited : AllExited (behind completed).workers
unfolding run start bulk_insert work_at
completed-AllExited = (refl, tt)

completed_goes_on : (behind completed).shared.is_cancelled ≡ false
unfolding run start bulk_insert work_at
completed_goes_on = refl

drained-once_example :
    count_rows every (behind completed).shared.table
    ≡ count_rows every [] + accepted every completed (start cfg [])
drained-once_example =
    drained-once every cfg [] completed (behind completed) completed_answered completed_runs
      completed_goes_on completed-AllExited

one_worker : pos_part (with_defaults cfg).workers ≡ 1
unfolding with_defaults
one_worker = refl

run-pipeline_example :
    pipeline (behind completed) ≡ stored [] ++ map columns_of (taken_in completed (start cfg []))
run-pipeline_example =
    run-pipeline cfg [] completed (behind completed) one_worker completed_answered completed_runs
      completed_goes_on

abbrev health : HealthMethods
health = record {
  check = bytes "/grpc.health.v1.Health/Check";
  list = bytes "/grpc.health.v1.Health/List";
  watch = bytes "/grpc.health.v1.Health/Watch";
}

abbrev ingest_method : Bytes
ingest_method = bytes "/log.LogService/IngestLogs"

abbrev status_of : Error → Status
status_of e = record { code = unavailable; message = [] }

ingest_method_is_logged : is_health_check health ingest_method ≡ false
unfolding is_health_check equal
ingest_method_is_logged = refl

begins_open : (start cfg []).shared.closed ≡ false
unfolding start
begins_open = refl

received-NotStopped : All NotStopped received
received-NotStopped = (refl, (refl, (refl, (refl, tt))))

chain-open_example :
    chain health ingest_method (
      handled status_of
        (ingest_logs no_time ingester received (sentinel eof) none (start cfg [])).0)
    ≡ (
      returned (answer status_of (sentinel eof) none),
      finished ingest_method (status_in (answer status_of (sentinel eof) none)) ∷ [],
    )
chain-open_example =
    chain-open no_time health status_of ingest_method received (sentinel eof) none (start cfg [])
      ingest_method_is_logged begins_open received-NotStopped

-- The ingester is stopped with an entry in its batch.
abbrev stopped : Ingester
stopped = behind (submits false true log_entry ∷ works 0 receives ∷ stops ∷ [])

abbrev one_more : Received Caller
one_more = record { ctx = caller []; now = 5; req = message }
