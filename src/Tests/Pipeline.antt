-- ===== src/Tests/Pipeline.antt =====
-- The pipeline of logs, from a batch to the table.
use crm_beginner.Base.Int.{pos}
use crm_beginner.Base.{
  ℕ, ◌+◌, ◌≤◌, ◌≡◌, All, refl, Bool, Option, none, some, List, [], ◌∷◌, map, false, true,
}
use crm_beginner.Domain.{sentinel, eof, error_is, other, canceled}
use crm_beginner.Grpc.Logs.{ingest_logs}
use crm_beginner.Ingest.Counts.{count, count_rows}
use crm_beginner.Ingest.Drain.{AllExited}
use crm_beginner.Ingest.Submitter.{Caller, submit_later}
use crm_beginner.Ingest.{
  Config, Ingester, Event, submits, works, stops, receives, sees_close, inserts, start, run,
  work_at,
}
use crm_beginner.LogAgent.Positions.{saves}
use crm_beginner.LogAgent.Shipper.{flush}
use crm_beginner.LogAgent.Tailer.{Entry}
use crm_beginner.Pipeline.Accounting.{IsDated, log_entries, Shipped, outcome-Shipped}
use crm_beginner.Pipeline.EndToEnd.{flush-stored}
use crm_beginner.Pipeline.{Try, cuts, delivers, loses_reply, outcome}
use crm_beginner.Postgres.Logs.{Columns, bulk_insert}
use crm_beginner.Remote.{up}
use crm_beginner.Tests.Agent.{shipper}
use crm_beginner.Tests.Data.{log_entry, positions_codec}
use crm_beginner.Text.{Bytes, bytes, equal}

abbrev cfg : Config
cfg = record { workers = pos 1; batch_size = pos 9; flush_interval = pos 1; buffer_size = pos 8 }

abbrev entry : Bytes → ℕ → Entry
entry level offset = record {
  log = record { level = level; message = bytes "m"; service = bytes "web"; timestamp = bytes "t" };
  file = bytes "f";
  inode = 3;
  offset = offset;
}

abbrev batch : List Entry
batch = entry (bytes "error") 10 ∷ entry (bytes "info") 20 ∷ []

abbrev parse_time : Bytes → Option ℕ
parse_time s = some 5

batch-IsDated : All (IsDated parse_time) (map (λ (x : Entry). x.log) batch)
batch-IsDated = ((5, refl), ((5, refl), tt))

abbrev is_error : Columns → Bool
is_error c = equal c.level (bytes "error")

abbrev meets : ℕ → Caller × ℕ
meets i = (record { meanwhile = []; ctx_done = false; prefers_send = true }, i)

-- The first call breaks behind one message, the reply to the second is lost, and the third is
-- answered.
abbrev tries : List Try
tries =
    (record {
      meets = meets;
      fate = cuts 2 (sentinel eof) none 1 (sentinel canceled);
      saving = saves;
      ctx_done = false;
    })
    ∷ (record { meets = meets; fate = loses_reply (other []); saving = saves; ctx_done = false })
    ∷ (record { meets = meets; fate = delivers (other []); saving = saves; ctx_done = false })
    ∷ []

abbrev before : List Event
before = submits false true log_entry ∷ []

abbrev at_flush : Ingester
at_flush = elim (run before (start cfg [])) [ none ↦ start cfg [] | some g ↦ g ]

before_happens : run before (start cfg []) ≡ some at_flush
unfolding run start
before_happens = refl

abbrev behind : Ingester
behind = (outcome parse_time tries batch at_flush).ingester

outcome-Shipped_example :
    Shipped parse_time is_error batch shipper at_flush
      (outcome parse_time tries batch at_flush).receipt
      behind
      (flush positions_codec (outcome parse_time tries batch at_flush).attempts batch shipper)
outcome-Shipped_example =
    outcome-Shipped parse_time is_error positions_codec tries batch shipper at_flush batch-IsDated

gets_receipt : (outcome parse_time tries batch at_flush).receipt ≡ some 2
unfolding outcome ingest_logs submit_later run start error_is
gets_receipt = refl

-- Of the six entries in the queue the worker makes one batch.
abbrev after : List Event
after =
    works 0 receives
    ∷ works 0 receives
    ∷ works 0 receives
    ∷ works 0 receives
    ∷ works 0 receives
    ∷ works 0 receives
    ∷ stops
    ∷ works 0 sees_close
    ∷ works 0 (inserts (record { now = 9; link = up }))
    ∷ []

abbrev at_end : Ingester
at_end = elim (run after behind) [ none ↦ behind | some g ↦ g ]

after_happens : run after behind ≡ some at_end
unfolding outcome ingest_logs submit_later run start error_is work_at bulk_insert
after_happens = refl

goes_on : at_end.shared.is_cancelled ≡ false
unfolding outcome ingest_logs submit_later run start error_is work_at bulk_insert
goes_on = refl

at_end-AllExited : AllExited at_end.workers
unfolding outcome ingest_logs submit_later run start error_is work_at bulk_insert
at_end-AllExited = (refl, tt)

flush-stored_example :
    count_rows is_error []
      + count is_error (log_entries parse_time (map (λ (x : Entry). x.log) batch))
    ≤ count_rows is_error at_end.shared.table
flush-stored_example =
    flush-stored parse_time is_error positions_codec tries batch shipper cfg [] before after
      at_flush at_end batch-IsDated before_happens gets_receipt after_happens goes_on
      at_end-AllExited
