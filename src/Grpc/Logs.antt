-- ===== src/Grpc/Logs.antt =====
-- internal/adapter/grpc/log_handler.go: the handler of LogService.
pub mod Summary
pub mod Replies
pub mod Served
pub mod Kinds
pub mod Keeps
use crm_beginner.Base.{ℕ, suc, Bool, Option, none, some, List, [], ◌∷◌, if◌then◌else◌, ok, err}
use crm_beginner.Domain.{LogEntry, Error, eof, error_is}
use crm_beginner.Ingest.Submitter.{Submitter}
use crm_beginner.Ingest.{replied, panics}
use crm_beginner.LogAgent.Tailer.{WireEntry}
use crm_beginner.Text.{Bytes}

-- A message that `Recv` returns, with the time at which it does and what its `Submit` meets.
pub record Received (C : Type 0) : Type 0 where
  pub ctx : C
  pub now : ℕ
  pub req : WireEntry

-- How the call ends: the summary is given to `SendAndClose`, whose error is returned; the error of
-- `Recv` is returned; or `Submit` panics.
pub data Ended : Type 0 where
  summary : ℕ → Option Error → Ended
  failed : Error → Ended
  submit_panics : Ended

-- `parse_time` is `time.Parse(time.RFC3339, ·)`.
abbrev pub entry_of : (Bytes → Option ℕ) → ℕ → WireEntry → LogEntry
entry_of parse_time now req = record {
  level = req.level;
  message = req.message;
  service = req.service;
  occurred_at = (elim (parse_time req.timestamp) [ none ↦ now | some t ↦ t ]);
  created_at = 0;
}

module _ {C S : Type 0} (parse_time : Bytes → Option ℕ) (ingester : Submitter C S) where
  -- The loop of `IngestLogs`, over the messages and the error that `Recv` returns behind them.
  ingest_from : ℕ → List (Received C) → Error → Option Error → S → Ended × S
  ingest_from accepted [] e close_error s =
      (if error_is e eof then summary accepted close_error else failed e, s)
  ingest_from accepted (r ∷ more) e close_error s =
      let (reply, s') = ingester.submit r.ctx (entry_of parse_time r.now r.req) s in
      elim reply [
        | replied (ok u) ↦ ingest_from (suc accepted) more e close_error s'
        | replied (err f) ↦ ingest_from accepted more e close_error s'
        | panics ↦ (submit_panics, s')
      ]

  -- `IngestLogs`.
  unfoldable pub ingest_logs : List (Received C) → Error → Option Error → S → Ended × S
  unfolding ingest_from
  ingest_logs = ingest_from 0
