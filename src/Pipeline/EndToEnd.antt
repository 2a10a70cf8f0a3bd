-- ===== src/Pipeline/EndToEnd.antt =====
-- About the pipeline of logs from the agent's batch to the table.
use crm_beginner.Base.{
  ℕ, ◌+◌, ◌≤◌, ◌≡◌, subst, inl, inr, Bool, false, ◌||◌, Option, none, some, List, [], ◌∷◌, length,
  map, arith, All, Bool-cases,
}
use crm_beginner.Domain.{Error, sentinel, eof}
use crm_beginner.Grpc.Logs.Keeps.{ingest_logs-keeps}
use crm_beginner.Grpc.Logs.{Received, ingest_logs}
use crm_beginner.Ingest.Counts.{count, count_rows}
use crm_beginner.Ingest.Drain.{AllExited, exited-total, total-start}
use crm_beginner.Ingest.NoLoss.{run-total}
use crm_beginner.Ingest.Orderly.{Orderly, run-Orderly, start-Orderly}
use crm_beginner.Ingest.Submitter.{Caller, ingester, submit_later-Orderly}
use crm_beginner.Ingest.{Config, Ingester, Event, run, start}
use crm_beginner.LogAgent.Positions.{Codec}
use crm_beginner.LogAgent.Shipper.{Call, is_receipt, Shipper, flush}
use crm_beginner.LogAgent.Tailer.{Entry, WireEntry}
use crm_beginner.Pipeline.Accounting.{IsDated, log_entries, Shipped, outcome-Shipped}
use crm_beginner.Pipeline.{
  Fate, refuses, cuts, loses_reply, delivers, Try, Outcome, exchange, after_try, outcome,
}
use crm_beginner.Postgres.Logs.{LogTable, Columns}
use crm_beginner.Text.{Bytes}

module _ (parse_time : Bytes → Option ℕ) where
  ingest-Orderly :
      (more : List (Received Caller)) (e : Error) (close_error : Option Error) (g : Ingester)
      → Orderly g
      → Orderly (ingest_logs parse_time ingester more e close_error g).1
  ingest-Orderly = ingest_logs-keeps parse_time ingester Orderly submit_later-Orderly

  exchange-Orderly :
      (meets : ℕ → Caller × ℕ) (fate : Fate) (xs : List WireEntry) (g : Ingester)
      → Orderly g
      → Orderly (exchange parse_time meets fate xs g).1
  unfolding exchange
  exchange-Orderly meets (refuses e) xs g v = v
  exchange-Orderly meets (cuts sent e close_error got recv_error) xs g v =
      ingest-Orderly _ recv_error none g v
  exchange-Orderly meets (loses_reply e) xs g v = ingest-Orderly _ (sentinel eof) none g v
  exchange-Orderly meets (delivers seen) xs g v = ingest-Orderly _ (sentinel eof) none g v

  after_try-Orderly :
      (t : Try) (call : Call) (g : Ingester) (rest : Outcome)
      → Orderly g
      → Orderly rest.ingester
      → Orderly (after_try parse_time t (call, g) rest).ingester
  unfolding after_try
  after_try-Orderly t call g rest v w = elim (Bool-cases (is_receipt call || t.ctx_done)) [
    | inl h ↦ rw (after_try, h) v
    | inr h ↦ rw (after_try, h) w
  ]

  outcome-Orderly :
      (tries : List Try) (batch : List Entry) (g : Ingester)
      → Orderly g
      → Orderly (outcome parse_time tries batch g).ingester
  unfolding outcome
  outcome-Orderly [] batch g v = v
  outcome-Orderly (t ∷ tries) batch g v =
      let r = exchange parse_time t.meets t.fate (map (λ (x : Entry). x.log) batch) g in
      let w = exchange-Orderly t.meets t.fate (map (λ (x : Entry). x.log) batch) g v in
      after_try-Orderly t r.0 r.1 (outcome parse_time tries batch r.1) w
        (outcome-Orderly tries batch r.1 w)

-- From the agent to the database: an ingester that has been started runs for a while; a flush whose
-- calls run `IngestLogs` over it ends with a receipt for the whole batch, however many of its calls
-- fail before and wherever they do; the ingester goes on until every worker has returned, its context
-- not cancelled. Then the table holds, for any kind of entries, all of the batch's entries of the
-- kind beside as many as it held at the start. The server must be able to read the batch's times.
pub flush-stored :
    (parse_time : Bytes → Option ℕ) (p : Columns → Bool) (codec : Codec) (tries : List Try)
    (batch : List Entry) (s : Shipper) (cfg : Config) (table : LogTable) (before after : List Event)
    (g g' : Ingester)
    → All (IsDated parse_time) (map (λ (x : Entry). x.log) batch)
    → run before (start cfg table) ≡ some g
    → (outcome parse_time tries batch g).receipt ≡ some (length batch)
    → run after (outcome parse_time tries batch g).ingester ≡ some g'
    → g'.shared.is_cancelled ≡ false
    → AllExited g'.workers
    → count_rows p table + count p (log_entries parse_time (map (λ (x : Entry). x.log) batch))
      ≤ count_rows p g'.shared.table
flush-stored parse_time p codec tries batch s cfg table before after g g' dated b receipt a goes_on
      exited =
    let o = outcome parse_time tries batch g in
    let shipped =
      subst (λ r. Shipped parse_time p batch s g r o.ingester (flush codec o.attempts batch s))
        receipt (outcome-Shipped parse_time p codec tries batch s g dated) in
    let v = run-Orderly before (start cfg table) g b (start-Orderly cfg table) in
    let w = run-Orderly after o.ingester g' a (outcome-Orderly parse_time tries batch g v) in
    omega (
      arith,
      total-start p cfg table,
      run-total p before (start cfg table) g b,
      shipped.2,
      run-total p after o.ingester g' a,
      exited-total p g' w goes_on exited,
    )
