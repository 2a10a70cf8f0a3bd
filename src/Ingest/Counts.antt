-- ===== src/Ingest/Counts.antt =====
-- How many entries of a kind stand at each place of the pipeline. A kind is a test of the columns,
-- so that counting every kind is counting every entry.
use crm_beginner.Base.{
  ap, ℕ, ◌+◌, ◌≤◌, ◌≡◌, refl, Bool, true, false, Option, none, some, List, [], ◌∷◌, ◌++◌, map,
  if◌then◌else◌, Result, ok, err, arith,
}
use crm_beginner.Domain.{LogEntry, Error}
use crm_beginner.Ingest.{
  Config, Worker, collecting, inserting, waiting, exited, Shared, Act, receives, sees_close, ticks,
  sees_cancel, elapses, gives_up, inserts, enter_flush, add_to_batch, receive, see_close,
  after_insert, work,
}
use crm_beginner.Postgres.Logs.{LogTable, Columns, columns_of, Context, bulk_insert}
use crm_beginner.Remote.{Link, up, refused, lost}

module _ (p : Columns → Bool) where
  abbrev pub count : List LogEntry → ℕ
  count [] = 0
  count (e ∷ es) = (if p (columns_of e) then 1 else 0) + count es

  abbrev pub count_rows : LogTable → ℕ
  count_rows [] = 0
  count_rows (r ∷ t) = (if p r.columns then 1 else 0) + count_rows t

  abbrev pub held : Worker → ℕ
  held (collecting batch) = count batch
  held (inserting batch backoff last) = count batch
  held (waiting batch backoff last) = count batch
  held exited = 0

  abbrev pub held_all : List Worker → ℕ
  held_all [] = 0
  held_all (w ∷ ws) = held w + held_all ws

  abbrev pub in_shared : Shared → ℕ
  in_shared s = count s.queue + count_rows s.table + count s.given_up

  pub count-append : (xs ys : List LogEntry) → count (xs ++ ys) ≡ count xs + count ys
  count-append [] ys = omega arith
  count-append (x ∷ xs) ys = omega (arith, count-append xs ys)

  pub count_rows-append : (t u : LogTable) → count_rows (t ++ u) ≡ count_rows t + count_rows u
  count_rows-append [] u = omega arith
  count_rows-append (r ∷ t) u = omega (arith, count_rows-append t u)

  count_rows-insert :
      (now : ℕ) (es : List LogEntry)
      → count_rows (map (λ c. record { columns = c; created_at = now }) (map columns_of es))
        ≡ count es
  count_rows-insert now [] = refl
  count_rows-insert now (e ∷ es) = omega (arith, count_rows-insert now es)

  abbrev pub OkOrMore : List LogEntry → LogTable → Result Error (Unit {0}) × LogTable → Type 0
  OkOrMore batch t (ok u, t') = count_rows t' ≡ count_rows t + count batch
  OkOrMore batch t (err e, t') = count_rows t ≤ count_rows t'

  -- An insert that succeeds adds the batch, and one that fails takes nothing away.
  pub bulk_insert-count :
      (ctx : Context) (batch : List LogEntry) (t : LogTable)
      → OkOrMore batch t (bulk_insert ctx batch t)
  unfolding bulk_insert
  bulk_insert-count ctx [] t = omega arith
  bulk_insert-count ctx (e ∷ batch) t = by_link ctx.link
    where
      rows : LogTable
      rows = map (λ c. record { columns = c; created_at = ctx.now }) (map columns_of (e ∷ batch))

      grown : count_rows (t ++ rows) ≡ count_rows t + count (e ∷ batch)
      grown = omega (arith, count_rows-append t rows, count_rows-insert ctx.now (e ∷ batch))

      by_link :
          (link : Link)
          → OkOrMore
              (e ∷ batch)
              t
              (bulk_insert (record { now = ctx.now; link = link }) (e ∷ batch) t)
      by_link up = grown
      by_link (refused f) = omega arith
      by_link (lost f) = omega (arith, grown)

  pub enter_flush-count :
      (batch : List LogEntry) (last : Bool) → held (enter_flush batch last) ≡ count batch
  unfolding enter_flush
  enter_flush-count [] true = refl
  enter_flush-count [] false = refl
  enter_flush-count (e ∷ batch) last = refl

  pub add_to_batch-count :
      (cfg : Config) (batch : List LogEntry) (e : LogEntry)
      → held (add_to_batch cfg batch e) ≡ count batch + count (e ∷ [])
  unfolding add_to_batch
  add_to_batch-count cfg batch e =
      ground (arith, enter_flush-count (batch ++ e ∷ []) false, count-append batch (e ∷ []))

  -- Nothing leaves the pipeline.
  abbrev pub Keeps : ℕ → Option (Worker × Shared) → Type 0
  Keeps n none = Unit
  Keeps n (some (w, s)) = n ≤ held w + in_shared s

  receive-Keeps :
      (cfg : Config) (batch queue : List LogEntry) (s : Shared)
      → s.queue ≡ queue
      → Keeps (count batch + in_shared s) (receive cfg batch queue s)
  unfolding receive
  receive-Keeps cfg batch [] s q = tt
  receive-Keeps cfg batch (e ∷ rest) s q =
      ground (arith, add_to_batch-count cfg batch e, ap count q)

  see_close-Keeps :
      (batch queue : List LogEntry) (s : Shared)
      → Keeps (count batch + in_shared s) (see_close batch queue s)
  unfolding see_close
  see_close-Keeps batch [] s = ground (arith, enter_flush-count batch true)
  see_close-Keeps batch (e ∷ rest) s = tt

  after_insert-Keeps :
      (batch : List LogEntry) (backoff : ℕ) (last : Bool) (s : Shared)
      (r : Result Error (Unit {0}) × LogTable)
      → OkOrMore batch s.table r
      → Keeps (count batch + in_shared s) (some (after_insert batch backoff last s r))
  unfolding after_insert
  after_insert-Keeps batch backoff last s (ok u, t) h = ground arith
  after_insert-Keeps batch backoff last s (err e, t) h = omega arith

  pub work-Keeps :
      (cfg : Config) (act : Act) (w : Worker) (s : Shared)
      → Keeps (held w + in_shared s) (work cfg act w s)
  unfolding work
  work-Keeps cfg receives (collecting batch) s = receive-Keeps cfg batch s.queue s refl
  work-Keeps cfg sees_close (collecting batch) s = see_close-Keeps batch s.queue s
  work-Keeps cfg ticks (collecting batch) s = omega (arith, enter_flush-count batch false)
  work-Keeps cfg sees_cancel (collecting batch) s = ground (arith, enter_flush-count batch true)
  work-Keeps cfg (inserts ctx) (inserting batch backoff last) s =
      after_insert-Keeps batch backoff last s _ (bulk_insert-count ctx batch s.table)
  work-Keeps cfg elapses (waiting batch backoff last) s = omega arith
  work-Keeps cfg gives_up (waiting batch backoff last) s =
      ground (arith, count-append s.given_up batch)
  work-Keeps cfg _ _ s = tt
