-- ===== src/Ingest/Order.antt =====
-- About `worker` and `flush` of internal/ingest/ingester.go: the order in which a worker stores the
-- entries.
pub mod Runs
use mathlib.Core.Option.{some-injective}
use mathlib.Core.List.{map-append}
use mathlib.Core.Option
use crm_beginner.Base.Int.{ℤ, pos, pos_part}
use crm_beginner.Base.{
  ap, ℕ, zero, suc, ◌≡◌, ◌∙◌, sym, refl, subst, Bool, true, false, Option, none, some, List, [],
  ◌∷◌, ◌++◌, append-nil, append_assoc, map, Result, ok, err, if◌then◌else◌, arith, All, length,
  Option-cases, Bool-cases, inl, inr,
}
use crm_beginner.Domain.{LogEntry, Error}
use crm_beginner.Ingest.NoLoss.{is_accepted}
use crm_beginner.Ingest.Once.{IsAnswered, AnswersEvent}
use crm_beginner.Ingest.{
  Config, Worker, collecting, inserting, waiting, exited, Shared, Ingester, Event, submits, works,
  cancels, stops, Act, receives, sees_close, ticks, sees_cancel, elapses, gives_up, inserts,
  enter_flush, add_to_batch, receive, see_close, after_insert, submit, work, work_at, step, run,
  after_work, start, with_defaults, repeat,
}
use crm_beginner.Postgres.Logs.{LogTable, LogRow, Columns, columns_of, Context, bulk_insert}
use crm_beginner.Remote.{Link, up, refused, lost, NotLost}

abbrev pub batch_of : Worker → List LogEntry
batch_of (collecting batch) = batch
batch_of (inserting batch backoff last) = batch
batch_of (waiting batch backoff last) = batch
batch_of exited = []

abbrev pub batches : List Worker → List LogEntry
batches [] = []
batches (w ∷ ws) = batch_of w ++ batches ws

abbrev pub stored : LogTable → List Columns
stored t = map (λ (r : LogRow). r.columns) t

-- The table, the batches and the queue, in the order in which their entries are stored.
abbrev pub line : List LogEntry → Shared → List Columns
line held s = stored s.table ++ map columns_of (held ++ s.queue)

abbrev pub pipeline : Ingester → List Columns
pipeline g = line (batches g.workers) g.shared

stored-insert :
    (now : ℕ) (cs : List Columns)
    → stored (map (λ c. record { columns = c; created_at = now }) cs) ≡ cs
stored-insert now [] = refl
stored-insert now (c ∷ cs) = ap (λ z. c ∷ z) (stored-insert now cs)

abbrev Grown : List LogEntry → LogTable → Result Error (Unit {0}) × LogTable → Type 0
Grown batch t (ok u, t') = stored t' ≡ stored t ++ map columns_of batch
Grown batch t (err e, t') = t' ≡ t

bulk_insert-Grown :
    (ctx : Context) (batch : List LogEntry) (t : LogTable)
    → NotLost ctx.link
    → Grown batch t (bulk_insert ctx batch t)
unfolding bulk_insert
bulk_insert-Grown ctx [] t n = sym (append-nil (stored t))
bulk_insert-Grown ctx (e ∷ batch) t n = by_link ctx.link n
  where
    rows : LogTable
    rows = map (λ c. record { columns = c; created_at = ctx.now }) (map columns_of (e ∷ batch))

    by_link :
        (link : Link)
        → NotLost link
        → Grown (e ∷ batch) t (bulk_insert (record { now = ctx.now; link = link }) (e ∷ batch) t)
    by_link up n =
        map-append (λ (r : LogRow). r.columns) t rows
        ∙ ap (λ z. stored t ++ z) (stored-insert ctx.now (map columns_of (e ∷ batch)))
    by_link (refused f) n = refl
    by_link (lost f) n = absurd n

batch_of-enter_flush :
    (batch : List LogEntry) (last : Bool) → batch_of (enter_flush batch last) ≡ batch
unfolding enter_flush
batch_of-enter_flush [] true = refl
batch_of-enter_flush [] false = refl
batch_of-enter_flush (e ∷ batch) last = refl

batch_of-add_to_batch :
    (cfg : Config) (batch : List LogEntry) (e : LogEntry)
    → batch_of (add_to_batch cfg batch e) ≡ batch ++ (e ∷ [])
unfolding add_to_batch
batch_of-add_to_batch cfg batch e = ground (arith, batch_of-enter_flush (batch ++ e ∷ []) false)

-- A step leaves the context as it is, and the line too while the context goes on.
abbrev pub InOrder : Bool → List Columns → Option (Worker × Shared) → Type 0
InOrder was l none = Unit
InOrder was l (some (w, s)) = (s.is_cancelled ≡ was) × (was ≡ false → line (batch_of w) s ≡ l)

receive-InOrder :
    (cfg : Config) (batch queue : List LogEntry) (s : Shared)
    → s.queue ≡ queue
    → InOrder s.is_cancelled (line batch s) (receive cfg batch queue s)
unfolding receive
receive-InOrder cfg batch [] s q = tt
receive-InOrder cfg batch (e ∷ rest) s q = (
  refl,
  λ c.
      ap (λ z. stored s.table ++ map columns_of z)
        (ap (λ z. z ++ rest) (batch_of-add_to_batch cfg batch e)
          ∙ append_assoc batch (e ∷ []) rest
          ∙ ap (λ z. batch ++ z) (sym q)),
)

see_close-InOrder :
    (batch queue : List LogEntry) (s : Shared)
    → InOrder s.is_cancelled (line batch s) (see_close batch queue s)
unfolding see_close
see_close-InOrder batch [] s = elim (Bool-cases s.closed) [
  | inl c ↦ rw (see_close, c) (refl, λ o. ap (λ z. line z s) (batch_of-enter_flush batch true))
  | inr o ↦ rw (see_close, o) tt
]
see_close-InOrder batch (e ∷ rest) s = tt

batch_of-resume : (last : Bool) → batch_of (if last then exited else collecting []) ≡ []
batch_of-resume true = refl
batch_of-resume false = refl

after_insert-InOrder :
    (batch : List LogEntry) (backoff : ℕ) (last : Bool) (s : Shared)
    (r : Result Error (Unit {0}) × LogTable)
    → Grown batch s.table r
    → InOrder s.is_cancelled (line batch s) (some (after_insert batch backoff last s r))
unfolding after_insert
after_insert-InOrder batch backoff last s (ok u, t) h = (
  refl,
  λ c.
      ap (λ z. stored t ++ map columns_of (z ++ s.queue)) (batch_of-resume last)
      ∙ ap (λ z. z ++ map columns_of s.queue) h
      ∙ append_assoc (stored s.table) (map columns_of batch) (map columns_of s.queue)
      ∙ ap (λ z. stored s.table ++ z) (sym (map-append columns_of batch s.queue)),
)
after_insert-InOrder batch backoff last s (err e, t) h =
    (refl, λ c. ap (λ z. stored z ++ map columns_of (batch ++ s.queue)) h)

pub work-InOrder :
    (cfg : Config) (act : Act) (w : Worker) (s : Shared)
    → IsAnswered act
    → InOrder s.is_cancelled (line (batch_of w) s) (work cfg act w s)
unfolding work
work-InOrder cfg receives (collecting batch) s a = receive-InOrder cfg batch s.queue s refl
work-InOrder cfg sees_close (collecting batch) s a = see_close-InOrder batch s.queue s
work-InOrder cfg ticks (collecting batch) s a =
    (refl, λ o. ap (λ z. line z s) (batch_of-enter_flush batch false))
work-InOrder cfg sees_cancel (collecting batch) s a = elim (Bool-cases s.is_cancelled) [
  | inl c ↦ rw (work, c) (refl, λ o. absurd cc)
  | inr o ↦ rw (work, o) tt
]
work-InOrder cfg (inserts ctx) (inserting batch backoff last) s a =
    after_insert-InOrder batch backoff last s _ (bulk_insert-Grown ctx batch s.table a)
work-InOrder cfg elapses (waiting batch backoff last) s a = (refl, λ o. refl)
work-InOrder cfg gives_up (waiting batch backoff last) s a = elim (Bool-cases s.is_cancelled) [
  | inl c ↦ rw (work, c) (refl, λ o. absurd cc)
  | inr o ↦ rw (work, o) tt
]
work-InOrder cfg _ _ s a = tt
