-- ===== src/Ingest/Memory.antt =====
-- About internal/ingest/ingester.go: its memory, in every run.
use mathlib.Core.Option.{some-injective}
use crm_beginner.Base.Int.{pos_part}
use crm_beginner.Base.{
  ℕ, zero, suc, ◌+◌, ◌*◌, ◌≤◌, ◌<◌, ◌≡◌, refl, sym, subst, Bool, Option, none, some, List, [], ◌∷◌,
  All, arith, length, length-append, Option-cases, inl, inr,
}
use crm_beginner.Domain.{LogEntry}
use crm_beginner.Ingest.{
  Config, Worker, collecting, inserting, waiting, exited, Shared, Ingester, Event, submits, works,
  cancels, stops, work_at, submit, step, run, after_work, start, with_defaults, repeat, capacity,
}
use crm_beginner.Postgres.Logs.{LogTable}
use crm_beginner.Ingest.Orderly.{length-repeat, or_default-pos}
use crm_beginner.Ingest.Bounds.{IsBackoff, WithinBatch, size_of, WithinAll, work_at-WithinAll}

module _ (cfg : Config) where
  -- What every run keeps, for a configuration and a number of workers.
  record Bounded (n : ℕ) (g : Ingester) : Type 0 where
    same_cfg : g.cfg ≡ cfg
    queued : length g.shared.queue ≤ capacity cfg
    batches : All (WithinBatch (size_of cfg)) g.workers
    count_of_workers : length g.workers ≡ n

  after_work-Bounded :
      (n : ℕ) (g g' : Ingester) (o : Option (List Worker × Shared))
      → Bounded n g
      → WithinAll cfg n o
      → after_work g o ≡ some g'
      → Bounded n g'
  unfolding after_work
  after_work-Bounded n g g' none v h e = absurd cc
  after_work-Bounded n g g' (some (ws, s)) v (a, k, m) e =
      subst (Bounded n) (some-injective _ _ e)
        (record { same_cfg = v.same_cfg; queued = k; batches = a; count_of_workers = m })

  submit-queued :
      (ctx_done prefers_send : Bool) (e : LogEntry) (s : Shared)
      → length s.queue ≤ capacity cfg
      → length (submit cfg ctx_done prefers_send e s).1.queue ≤ capacity cfg
  unfolding submit
  submit-queued ctx_done prefers_send e s h = ground (arith, length-append s.queue (e ∷ []))

  step-Bounded :
      (n : ℕ) (e : Event) (g g' : Ingester)
      → 0 < size_of cfg
      → Bounded n g
      → step e g ≡ some g'
      → Bounded n g'
  unfolding step
  step-Bounded n (submits ctx_done prefers_send e) g g' p v h =
      subst (Bounded n) (some-injective _ _ h) (record {
        same_cfg = v.same_cfg;
        queued =
            subst (λ c. length (submit c ctx_done prefers_send e g.shared).1.queue ≤ capacity cfg)
              (sym v.same_cfg) (submit-queued ctx_done prefers_send e g.shared v.queued);
        batches = v.batches;
        count_of_workers = v.count_of_workers;
      })
  step-Bounded n (works i act) g g' p v h =
      after_work-Bounded n g g' (work_at g.cfg i act g.workers g.shared) v
        (subst (λ c. WithinAll cfg n (work_at c i act g.workers g.shared)) (sym v.same_cfg)
          (subst (λ m. WithinAll cfg m (work_at cfg i act g.workers g.shared)) v.count_of_workers
            (work_at-WithinAll cfg i act g.workers g.shared p v.batches v.queued)))
        h
  step-Bounded n cancels g g' p v h = subst (Bounded n) (some-injective _ _ h) (record {
    same_cfg = v.same_cfg;
    queued = v.queued;
    batches = v.batches;
    count_of_workers = v.count_of_workers;
  })
  step-Bounded n stops g g' p v h = subst (Bounded n) (some-injective _ _ h) (record {
    same_cfg = v.same_cfg;
    queued = v.queued;
    batches = v.batches;
    count_of_workers = v.count_of_workers;
  })

  run-Bounded :
      (n : ℕ) (events : List Event) (g g' : Ingester)
      → 0 < size_of cfg
      → Bounded n g
      → run events g ≡ some g'
      → Bounded n g'
  unfolding run
  run-Bounded n [] g g' p v h = subst (Bounded n) (some-injective _ _ h) v
  run-Bounded n (e ∷ events) g g' p v h = elim (Option-cases (step e g)) [
    | inl stuck ↦ absurd (ground arith)
    | inr (g1, s) ↦ run-Bounded n events g1 g' p (step-Bounded n e g g1 p v s) (ground arith)
  ]

-- The entries that a worker holds.
abbrev held_by : Worker → ℕ
held_by (collecting batch) = length batch
held_by (inserting batch backoff last) = length batch
held_by (waiting batch backoff last) = length batch
held_by exited = 0

abbrev held_by_all : List Worker → ℕ
held_by_all [] = 0
held_by_all (w ∷ ws) = held_by w + held_by_all ws

-- The entries in memory: in the channel and in the workers' batches.
abbrev pub in_memory : Ingester → ℕ
in_memory g = length g.shared.queue + held_by_all g.workers

-- A worker that waits does so for an interval between the least and the greatest.
abbrev pub WaitsInBounds : Worker → Type 0
WaitsInBounds (waiting batch backoff last) = IsBackoff backoff
WaitsInBounds _ = Unit

held_by-WithinBatch : (size : ℕ) (w : Worker) → WithinBatch size w → held_by w ≤ size
held_by-WithinBatch size (collecting batch) h = omega arith
held_by-WithinBatch size (inserting batch backoff last) h = h.0
held_by-WithinBatch size (waiting batch backoff last) h = h.0
held_by-WithinBatch size exited h = omega arith

held_by_all-WithinBatch :
    (size : ℕ) (ws : List Worker) → All (WithinBatch size) ws → held_by_all ws ≤ length ws * size
held_by_all-WithinBatch size [] h = omega arith
held_by_all-WithinBatch size (w ∷ ws) (h, a) =
    omega (arith, held_by-WithinBatch size w h, held_by_all-WithinBatch size ws a)

All-WaitsInBounds : (size : ℕ) (ws : List Worker) → All (WithinBatch size) ws → All WaitsInBounds ws
All-WaitsInBounds size [] a = tt
All-WaitsInBounds size (collecting batch ∷ ws) (h, a) = (tt, All-WaitsInBounds size ws a)
All-WaitsInBounds size (inserting batch backoff last ∷ ws) (h, a) =
    (tt, All-WaitsInBounds size ws a)
All-WaitsInBounds size (waiting batch backoff last ∷ ws) (h, a) = (h.1, All-WaitsInBounds size ws a)
All-WaitsInBounds size (exited ∷ ws) (h, a) = (tt, All-WaitsInBounds size ws a)

All-repeat : (size n : ℕ) → 0 < size → All (WithinBatch size) (repeat n (collecting []))
unfolding repeat
All-repeat size zero h = tt
All-repeat size (suc n) h = (h, All-repeat size n h)

size-positive : (cfg : Config) → 0 < size_of (with_defaults cfg)
unfolding with_defaults
size-positive cfg = or_default-pos cfg.batch_size 500 (omega arith)

start-Bounded :
    (cfg : Config) (table : LogTable)
    → Bounded (with_defaults cfg) (pos_part (with_defaults cfg).workers) (start cfg table)
unfolding start
start-Bounded cfg table = record {
  same_cfg = refl;
  queued = omega arith;
  batches =
      All-repeat (size_of (with_defaults cfg)) (pos_part (with_defaults cfg).workers)
        (size-positive cfg);
  count_of_workers = length-repeat (pos_part (with_defaults cfg).workers) (collecting []);
}

-- In every run from `New` and `Start`, with the settings that are in force there: the entries in
-- memory, in the channel and in the workers' batches, are at most the size of the buffer and a batch
-- for each worker; and a worker that waits to insert again waits from 100 milliseconds to 5 seconds.
pub run-in_memory :
    (cfg : Config) (table : LogTable) (events : List Event) (g : Ingester)
    → run events (start cfg table) ≡ some g
    → (in_memory g
        ≤ pos_part (with_defaults cfg).buffer_size
          + pos_part (with_defaults cfg).workers * pos_part (with_defaults cfg).batch_size)
      × All WaitsInBounds g.workers
run-in_memory cfg table events g h =
    let full = with_defaults cfg in
    let v =
      run-Bounded full (pos_part full.workers) events (start cfg table) g (size-positive cfg)
        (start-Bounded cfg table) h in
    let held = held_by_all-WithinBatch (size_of full) g.workers v.batches in
    (
      omega (
        arith,
        v.queued,
        subst (λ n. held_by_all g.workers ≤ n * size_of full) v.count_of_workers held,
      ),
      All-WaitsInBounds (size_of full) g.workers v.batches,
    )
