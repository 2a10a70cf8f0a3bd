-- ===== src/Grpc/Logs/Keeps.antt =====
-- About `IngestLogs` of internal/adapter/grpc/log_handler.go: an invariant of the submitter.
use crm_beginner.Base.{ℕ, suc, inl, inr, Option, List, [], ◌∷◌}
use crm_beginner.Domain.{Error, LogEntry}
use crm_beginner.Grpc.Logs.Summary.{Reply-cases}
use crm_beginner.Grpc.Logs.{Received, entry_of, ingest_from, ingest_logs}
use crm_beginner.Ingest.Submitter.{Submitter}
use crm_beginner.Text.{Bytes}

module _ {C S : Type 0} (parse_time : Bytes → Option ℕ) (sub : Submitter C S) (P : S → Type 0)
    (submit-P : (c : C) (e : LogEntry) (s : S) → P s → P (sub.submit c e s).1) where
  ingest_from-P :
      (accepted : ℕ) (more : List (Received C)) (e : Error) (close_error : Option Error) (s : S)
      → P s
      → P (ingest_from parse_time sub accepted more e close_error s).1
  unfolding ingest_from
  ingest_from-P accepted [] e close_error s v = v
  ingest_from-P accepted (r ∷ more) e close_error s v =
      let entry = entry_of parse_time r.now r.req in
      let s1 = (sub.submit r.ctx entry s).1 in
      let v1 = submit-P r.ctx entry s v in
      elim (Reply-cases (sub.submit r.ctx entry s).0) [
        | inl (u, h) ↦ rw (ingest_from, h) (ingest_from-P (suc accepted) more e close_error s1 v1)
        | inr (inl (f, h)) ↦ rw (ingest_from, h) (ingest_from-P accepted more e close_error s1 v1)
        | inr (inr h) ↦ rw (ingest_from, h) v1
      ]

  -- What every call of `Submit` keeps, `IngestLogs` keeps.
  pub ingest_logs-keeps :
      (more : List (Received C)) (e : Error) (close_error : Option Error) (s : S)
      → P s
      → P (ingest_logs parse_time sub more e close_error s).1
  unfolding ingest_logs
  ingest_logs-keeps more e close_error s v = ingest_from-P 0 more e close_error s v
