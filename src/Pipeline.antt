-- ===== src/Pipeline.antt =====
-- The pipeline of logs: a flush of internal/logagent/shipper.go, each of whose calls runs `IngestLogs`
-- of internal/adapter/grpc/log_handler.go over internal/ingest/ingester.go.
pub mod Accounting
pub mod EndToEnd
use crm_beginner.Base.{
  ℕ, zero, suc, Bool, true, false, ◌||◌, Option, none, some, List, [], ◌∷◌, if◌then◌else◌, map,
  take,
}
use crm_beginner.Domain.{Error, sentinel, eof}
use crm_beginner.Grpc.Logs
use crm_beginner.Grpc.Logs.{Received, Ended, ingest_logs}
use crm_beginner.Ingest.Submitter.{Caller, ingester}
use crm_beginner.Ingest.{Ingester}
use crm_beginner.LogAgent.Positions.{Saving}
use crm_beginner.LogAgent.Shipper.{
  Call, not_opened, breaks, unanswered, summary, Attempt, is_receipt,
}
use crm_beginner.LogAgent.Tailer.{Entry, WireEntry}
use crm_beginner.Text.{Bytes}

-- What the connection does to one call: the stream is not opened; it breaks, where the agent has sent
-- some entries and the server received some, each side with its error; it delivers all, and the reply
-- is lost; or it delivers all and the reply. The last error is what the agent sees of a call that the
-- server fails.
pub data Fate : Type 0 where
  refuses : Error → Fate
  cuts : ℕ → Error → Option Error → ℕ → Error → Fate
  loses_reply : Error → Fate
  delivers : Error → Fate

-- One attempt of a flush with both sides of its call: what the server meets at each message, the
-- fate of the connection, and what the attempt meets at the agent.
pub record Try : Type 0 where
  pub meets : ℕ → Caller × ℕ
  pub fate : Fate
  pub saving : Saving
  pub ctx_done : Bool

-- The messages as the server receives them.
received : (ℕ → Caller × ℕ) → ℕ → List WireEntry → List (Received Caller)
received meets i [] = []
received meets i (x ∷ xs) =
    record { ctx = (meets i).0; now = (meets i).1; req = x } ∷ received meets (suc i) xs

-- What the agent sees of a call whose messages and whose reply are delivered.
answer : Error → Ended → Call
answer seen (Logs.summary n none) = summary n
answer seen (Logs.summary n (some e)) = unanswered seen
answer seen (Logs.failed e) = unanswered seen
answer seen Logs.submit_panics = unanswered seen

-- What a flush leaves: its attempts as the shipper sees them, the ingester, and the count of the
-- summary that ends it, if one does.
pub record Outcome : Type 0 where
  pub attempts : List Attempt
  pub ingester : Ingester
  pub receipt : Option ℕ

receipt_of : Call → Option ℕ
receipt_of (summary n) = some n
receipt_of _ = none

module _ (parse_time : Bytes → Option ℕ) where
  -- `send` of the messages, and the run of `IngestLogs` that serves it: the call as the agent sees it,
  -- and what it leaves at the server. The server ends by `io.EOF` if all was delivered, and else by the
  -- error of its `Recv`.
  exchange : (ℕ → Caller × ℕ) → Fate → List WireEntry → Ingester → Call × Ingester
  unfolding received answer
  exchange meets (refuses e) logs g = (not_opened e, g)
  exchange meets (cuts sent e close_error got recv_error) logs g = (
    breaks sent e close_error,
    (ingest_logs parse_time ingester (received meets 0 (take got logs)) recv_error none g).1,
  )
  exchange meets (loses_reply e) logs g = (
    unanswered e,
    (ingest_logs parse_time ingester (received meets 0 logs) (sentinel eof) none g).1,
  )
  exchange meets (delivers seen) logs g =
      let r = ingest_logs parse_time ingester (received meets 0 logs) (sentinel eof) none g in
      (answer seen r.0, r.1)

  after_try : Try → Call × Ingester → Outcome → Outcome
  unfolding receipt_of
  after_try t (call, g) rest =
      let attempt : Attempt = record { call = call; saving = t.saving; ctx_done = t.ctx_done } in
      if is_receipt call || t.ctx_done
      then record { attempts = attempt ∷ []; ingester = g; receipt = receipt_of call }
      else record rest { attempts = attempt ∷ rest.attempts }

  -- The attempts as the loop of `flush` makes them: up to the first that ends it, by its summary or by
  -- the end of the context while it waits.
  unfoldable pub outcome : List Try → List Entry → Ingester → Outcome
  unfolding exchange after_try
  outcome [] batch g = record { attempts = []; ingester = g; receipt = none }
  outcome (t ∷ tries) batch g =
      let r = exchange t.meets t.fate (map (λ (x : Entry). x.log) batch) g in
      let rest = outcome tries batch r.1 in after_try t r rest
