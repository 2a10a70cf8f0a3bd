-- ===== src/Grpc/Logs/Kinds.antt =====
-- About `IngestLogs` of internal/adapter/grpc/log_handler.go, over internal/ingest: what becomes of
-- the messages of every kind.
use crm_beginner.Base.{
  ℕ, suc, ◌+◌, ◌≤◌, inl, inr, Bool, Option, List, [], ◌∷◌, length, arith, Bool-cases,
}
use crm_beginner.Domain.{Error, LogEntry, eof, error_is}
use crm_beginner.Grpc.Logs.{
  Received, Ended, summary, failed, submit_panics, entry_of, ingest_from, ingest_logs,
}
use crm_beginner.Grpc.Logs.Summary.{Reply-cases}
use crm_beginner.Ingest.Counts.{count}
use crm_beginner.Ingest.NoLoss.{total}
use crm_beginner.Ingest.Submitter.{Caller, ingester, submit_later, submit_later-total}
use crm_beginner.Ingest.{Ingester}
use crm_beginner.Postgres.Logs.{Columns}
use crm_beginner.Text.{Bytes}

-- The entries that the messages of a call are converted to.
abbrev pub converted : (Bytes → Option ℕ) → List (Received Caller) → List LogEntry
converted parse_time [] = []
converted parse_time (r ∷ more) = entry_of parse_time r.now r.req ∷ converted parse_time more

module _ (p : Columns → Bool) (parse_time : Bytes → Option ℕ) where
  -- Nothing of a kind is lost, and a summary that counts all but some messages has lost at most so
  -- many of the kind. The summary counts `accepted` messages before those of `more`.
  abbrev pub Accounted : ℕ → ℕ → ℕ → Ingester → Ended × Ingester → Type 0
  Accounted accepted messages n g (summary m close_error, g') =
      (total p g ≤ total p g')
      × (total p g + n + m ≤ total p g' + (accepted + messages))
      × (m ≤ accepted + messages)
  Accounted accepted messages n g (failed e, g') = total p g ≤ total p g'
  Accounted accepted messages n g (submit_panics, g') = total p g ≤ total p g'

  Accounted-mono :
      (a b l k m n : ℕ) (g g1 : Ingester) (r : Ended × Ingester)
      → total p g ≤ total p g1
      → a + l ≤ b + k
      → total p g + n + (a + l) ≤ total p g1 + m + (b + k)
      → Accounted a l m g1 r
      → Accounted b k n g r
  Accounted-mono a b l k m n g g1 (summary i c, g') h j f (x, y, z) =
      (omega arith, omega arith, omega arith)
  Accounted-mono a b l k m n g g1 (failed e, g') h j f x = omega arith
  Accounted-mono a b l k m n g g1 (submit_panics, g') h j f x = omega arith

  ingest_from-Accounted :
      (accepted : ℕ) (more : List (Received Caller)) (e : Error) (close_error : Option Error)
      (g : Ingester)
      → Accounted accepted
          (length more)
          (count p (converted parse_time more))
          g
          (ingest_from parse_time ingester accepted more e close_error g)
  unfolding ingest_from
  ingest_from-Accounted accepted [] e close_error g = elim (Bool-cases (error_is e eof)) [
    | inl h ↦ rw (ingest_from, h) (omega arith, omega arith, omega arith)
    | inr h ↦ rw (ingest_from, h) (omega arith)
  ]
  ingest_from-Accounted accepted (r ∷ more) e close_error g =
      let entry = entry_of parse_time r.now r.req in
      let g1 = (submit_later r.ctx entry g).1 in
      let grown = submit_later-total p r.ctx entry g in
      let n = count p (converted parse_time more) in
      let k = count p (converted parse_time (r ∷ more)) in
      let l = length more in
      elim (Reply-cases (submit_later r.ctx entry g).0) [
        | inl (u, h) ↦
            rw (ingest_from, h)
              (Accounted-mono (suc accepted) accepted l (suc l) n k g g1 _
                (ground (arith, rw h at grown)) (omega arith) (ground (arith, rw h at grown))
                (ingest_from-Accounted (suc accepted) more e close_error g1))
        | inr (inl (f, h)) ↦
            rw (ingest_from, h)
              (Accounted-mono accepted accepted l (suc l) n k g g1 _ (ground (arith, rw h at grown))
                (omega arith) (ground (arith, rw h at grown))
                (ingest_from-Accounted accepted more e close_error g1))
        | inr (inr h) ↦ rw (ingest_from, h) (ground (arith, rw h at grown))
      ]

  pub ingest_logs-Accounted :
      (more : List (Received Caller)) (e : Error) (close_error : Option Error) (g : Ingester)
      → Accounted 0
          (length more)
          (count p (converted parse_time more))
          g
          (ingest_logs parse_time ingester more e close_error g)
  unfolding ingest_logs
  ingest_logs-Accounted more e close_error g = ingest_from-Accounted 0 more e close_error g
