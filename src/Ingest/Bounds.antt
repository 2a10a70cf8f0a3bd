-- ===== src/Ingest/Bounds.antt =====
-- About internal/ingest/ingester.go: how many entries it holds in memory, and how long it waits.
use mathlib.Core.Option
use mathlib.Core.Option.{some-injective}
use crm_beginner.Base.Int.{pos, pos_part, leb_ℤ}
use crm_beginner.Base.{
  ℕ, zero, suc, ◌≤◌, ◌<◌, ◌≡◌, refl, ap, Bool, true, false, Option, none, some, List, [], ◌∷◌, ◌++◌,
  Result, ok, err, All, arith, length, length-append, Bool-cases, inl, inr,
}
use crm_beginner.Domain.{LogEntry, Error}
use crm_beginner.Ingest.{
  Config, Worker, collecting, inserting, waiting, exited, Shared, Act, receives, sees_close, ticks,
  sees_cancel, elapses, gives_up, inserts, enter_flush, add_to_batch, receive, see_close,
  after_insert, work, work_at, resume, capacity, next_backoff, initial_retry_backoff,
  max_retry_backoff,
}
use crm_beginner.Postgres.Logs.{LogTable, bulk_insert}

-- A wait between two attempts is from 100 milliseconds to 5 seconds long.
abbrev pub IsBackoff : ℕ → Type 0
IsBackoff backoff = (initial_retry_backoff ≤ backoff) × (backoff ≤ max_retry_backoff)

module _ (size : ℕ) where
  -- A batch that grows is shorter than the batch size; one in a flush is at most as long.
  abbrev pub WithinBatch : Worker → Type 0
  WithinBatch (collecting batch) = length batch < size
  WithinBatch (inserting batch backoff last) = (length batch ≤ size) × IsBackoff backoff
  WithinBatch (waiting batch backoff last) = (length batch ≤ size) × IsBackoff backoff
  WithinBatch exited = Unit

  enter_flush-WithinBatch :
      (batch : List LogEntry) (last : Bool)
      → 0 < size
      → length batch ≤ size
      → WithinBatch (enter_flush batch last)
  unfolding enter_flush
  enter_flush-WithinBatch [] true p h = tt
  enter_flush-WithinBatch [] false p h = p
  enter_flush-WithinBatch (e ∷ batch) last p h = (h, (omega arith, omega arith))

  resume-WithinBatch : (last : Bool) → 0 < size → WithinBatch (resume last)
  resume-WithinBatch true p = tt
  resume-WithinBatch false p = p

  next_backoff-IsBackoff : (backoff : ℕ) → IsBackoff backoff → IsBackoff (next_backoff backoff)
  next_backoff-IsBackoff backoff h = ground arith

module _ (cfg : Config) where
  abbrev pub size_of : ℕ
  size_of = pos_part cfg.batch_size

  abbrev Within : Option (Worker × Shared) → Type 0
  Within none = Unit
  Within (some (w, s)) = WithinBatch size_of w × (length s.queue ≤ capacity cfg)

  add_to_batch-WithinBatch :
      (batch : List LogEntry) (e : LogEntry)
      → length batch < size_of
      → WithinBatch size_of (add_to_batch cfg batch e)
  unfolding add_to_batch
  add_to_batch-WithinBatch batch e h =
      let n = length-append batch (e ∷ []) in
      elim (Bool-cases (leb_ℤ cfg.batch_size (pos (length (batch ++ (e ∷ [])))))) [
        | inl full ↦
            rw full (
              enter_flush-WithinBatch size_of (batch ++ (e ∷ [])) false (omega arith) (omega arith))
        | inr room ↦ rw room (ground (arith, n))
      ]

  receive-Within :
      (batch queue : List LogEntry) (s : Shared)
      → s.queue ≡ queue
      → length batch < size_of
      → length s.queue ≤ capacity cfg
      → Within (receive cfg batch queue s)
  unfolding receive
  receive-Within batch [] s q h k = tt
  receive-Within batch (e ∷ rest) s q h k =
      (add_to_batch-WithinBatch batch e h, omega (arith, ap length q))

  see_close-Within :
      (batch queue : List LogEntry) (s : Shared)
      → length batch < size_of
      → length s.queue ≤ capacity cfg
      → Within (see_close batch queue s)
  unfolding see_close
  see_close-Within batch (e ∷ rest) s h k = tt
  see_close-Within batch [] s h k = elim (Bool-cases s.closed) [
    | inl c ↦ rw c (enter_flush-WithinBatch size_of batch true (omega arith) (omega arith), k)
    | inr c ↦ rw c tt
  ]

  after_insert-Within :
      (batch : List LogEntry) (backoff : ℕ) (last : Bool) (s : Shared)
      (r : Result Error (Unit {0}) × LogTable)
      → 0 < size_of
      → WithinBatch size_of (inserting batch backoff last)
      → length s.queue ≤ capacity cfg
      → Within (some (after_insert batch backoff last s r))
  unfolding after_insert
  after_insert-Within batch backoff last s (ok u, t) p h k = (resume-WithinBatch size_of last p, k)
  after_insert-Within batch backoff last s (err e, t) p h k = (h, k)

  work-Within :
      (act : Act) (w : Worker) (s : Shared)
      → 0 < size_of
      → WithinBatch size_of w
      → length s.queue ≤ capacity cfg
      → Within (work cfg act w s)
  unfolding work
  work-Within receives (collecting batch) s p h k = receive-Within batch s.queue s refl h k
  work-Within sees_close (collecting batch) s p h k = see_close-Within batch s.queue s h k
  work-Within ticks (collecting batch) s p h k =
      (enter_flush-WithinBatch size_of batch false p (omega arith), k)
  work-Within sees_cancel (collecting batch) s p h k = elim (Bool-cases s.is_cancelled) [
    | inl e ↦ rw e (enter_flush-WithinBatch size_of batch true p (omega arith), k)
    | inr e ↦ rw e tt
  ]
  work-Within (inserts ctx) (inserting batch backoff last) s p h k =
      after_insert-Within batch backoff last s (bulk_insert ctx batch s.table) p h k
  work-Within elapses (waiting batch backoff last) s p h k =
      ((h.0, next_backoff-IsBackoff size_of backoff h.1), k)
  work-Within gives_up (waiting batch backoff last) s p h k = elim (Bool-cases s.is_cancelled) [
    | inl e ↦ rw e (resume-WithinBatch size_of last p, k)
    | inr e ↦ rw e tt
  ]
  work-Within _ _ s p h k = tt

  abbrev pub WithinAll : ℕ → Option (List Worker × Shared) → Type 0
  WithinAll n none = Unit
  WithinAll n (some (ws, s)) =
      All (WithinBatch size_of) ws × (length s.queue ≤ capacity cfg) × (length ws ≡ n)

  here-WithinAll :
      (ws : List Worker) (o : Option (Worker × Shared))
      → All (WithinBatch size_of) ws
      → Within o
      → WithinAll (suc (length ws)) (Option.map (λ r. (r.0 ∷ ws, r.1)) o)
  here-WithinAll ws none a h = tt
  here-WithinAll ws (some (w, s)) a (h, k) = ((h, a), k, refl)

  there-WithinAll :
      (w : Worker) (n : ℕ) (o : Option (List Worker × Shared))
      → WithinBatch size_of w
      → WithinAll n o
      → WithinAll (suc n) (Option.map (λ r. (w ∷ r.0, r.1)) o)
  there-WithinAll w n none h a = tt
  there-WithinAll w n (some (ws, s)) h (a, k, m) = ((h, a), k, ap suc m)

  pub work_at-WithinAll :
      (i : ℕ) (act : Act) (ws : List Worker) (s : Shared)
      → 0 < size_of
      → All (WithinBatch size_of) ws
      → length s.queue ≤ capacity cfg
      → WithinAll (length ws) (work_at cfg i act ws s)
  unfolding work_at
  work_at-WithinAll i act [] s p a k = tt
  work_at-WithinAll zero act (w ∷ ws) s p (h, a) k =
      here-WithinAll ws (work cfg act w s) a (work-Within act w s p h k)
  work_at-WithinAll (suc i) act (w ∷ ws) s p (h, a) k =
      there-WithinAll w (length ws) (work_at cfg i act ws s) h (work_at-WithinAll i act ws s p a k)
