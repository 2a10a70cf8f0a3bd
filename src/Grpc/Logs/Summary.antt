-- ===== src/Grpc/Logs/Summary.antt =====
-- About `IngestLogs` of internal/adapter/grpc/log_handler.go, over internal/ingest.
use crm_beginner.Base.{
  ℕ, suc, ◌+◌, ◌≤◌, ◌≡◌, ◌⊎◌, inl, inr, refl, Bool, true, Option, List, [], ◌∷◌, ok, err, arith,
  Bool-cases,
}
use crm_beginner.Domain.{Error, eof, error_is}
use crm_beginner.Grpc.Logs.{
  Received, Ended, summary, failed, submit_panics, entry_of, ingest_from, ingest_logs,
}
use crm_beginner.Ingest.NoLoss.{total}
use crm_beginner.Ingest.Submitter.{Caller, ingester, submit_later, submit_later-total}
use crm_beginner.Ingest.{Ingester, Reply, replied, panics}
use crm_beginner.Postgres.Logs.{Columns}
use crm_beginner.Text.{Bytes}

pub Reply-cases :
    (r : Reply)
    → ((u : Unit {0}) × (r ≡ replied (ok u))) ⊎ ((e : Error) × (r ≡ replied (err e))) ⊎ (r ≡ panics)
Reply-cases (replied (ok u)) = inl (u, refl)
Reply-cases (replied (err e)) = inr (inl (e, refl))
Reply-cases panics = inr (inr refl)

abbrev pub every : Columns → Bool
every c = true

module _ (parse_time : Bytes → Option ℕ) where
  abbrev Counted : ℕ → Ingester → Ended × Ingester → Type 0
  Counted accepted g (summary n close_error, g') = total every g + n ≤ total every g' + accepted
  Counted accepted g (failed e, g') = Unit
  Counted accepted g (submit_panics, g') = Unit

  Counted-mono :
      (k n : ℕ) (g g1 : Ingester) (r : Ended × Ingester)
      → total every g + k ≤ total every g1 + n
      → Counted k g1 r
      → Counted n g r
  Counted-mono k n g g1 (summary m c, g') h x = omega arith
  Counted-mono k n g g1 (failed e, g') h x = tt
  Counted-mono k n g g1 (submit_panics, g') h x = tt

  ingest_from-Counted :
      (accepted : ℕ) (more : List (Received Caller)) (e : Error) (close_error : Option Error)
      (g : Ingester)
      → Counted accepted g (ingest_from parse_time ingester accepted more e close_error g)
  unfolding ingest_from
  ingest_from-Counted accepted [] e close_error g = elim (Bool-cases (error_is e eof)) [
    | inl h ↦ rw (ingest_from, h) (omega arith)
    | inr h ↦ rw (ingest_from, h) tt
  ]
  ingest_from-Counted accepted (r ∷ more) e close_error g =
      let entry = entry_of parse_time r.now r.req in
      let g1 = (submit_later r.ctx entry g).1 in
      let grown = submit_later-total every r.ctx entry g in
      elim (Reply-cases (submit_later r.ctx entry g).0) [
        | inl (u, h) ↦
            rw (ingest_from, h)
              (Counted-mono (suc accepted) accepted g g1 _ (omega (arith, rw h at grown))
                (ingest_from-Counted (suc accepted) more e close_error g1))
        | inr (inl (f, h)) ↦
            rw (ingest_from, h)
              (Counted-mono accepted accepted g g1 _ (omega (arith, rw h at grown))
                (ingest_from-Counted accepted more e close_error g1))
        | inr (inr h) ↦ rw (ingest_from, h) tt
      ]

  -- When `IngestLogs`, over the ingester, ends with a summary, the queue, the batches of the workers,
  -- the table and the entries given up hold at least as many entries more than before the call as
  -- the summary counts.
  ingest_logs-total :
      (more : List (Received Caller)) (e : Error) (close_error : Option Error) (g g' : Ingester)
      (n : ℕ)
      → ingest_logs parse_time ingester more e close_error g ≡ (summary n close_error, g')
      → total every g + n ≤ total every g'
  unfolding ingest_logs
  ingest_logs-total more e close_error g g' n h =
      let counted = ingest_from-Counted 0 more e close_error g in omega (arith, rw h at counted)
