-- ===== src/Ingest/Once.antt =====
-- About internal/ingest/ingester.go where no reply of the database is lost.
use mathlib.Core.Option
use crm_beginner.Base.{
  ap, ℕ, zero, suc, ◌+◌, ◌≤◌, ◌≡◌, refl, subst, Bool, true, false, Option, none, some, List, [],
  ◌∷◌, Result, ok, err, arith, All, Option-cases, inl, inr,
}
use crm_beginner.Domain.{LogEntry, Error}
use crm_beginner.Ingest.Counts.{
  count, count_rows, count-append, held, held_all, in_shared, enter_flush-count, add_to_batch-count,
  bulk_insert-count, OkOrMore,
}
use crm_beginner.Ingest.Drain.{AllExited, drained, total-start}
use crm_beginner.Ingest.NoLoss.{total, accepted, entered, submit-count}
use crm_beginner.Ingest.{
  Config, Worker, collecting, inserting, waiting, Shared, Ingester, Event, submits, works, cancels,
  stops, Act, receives, sees_close, ticks, sees_cancel, elapses, gives_up, inserts, receive,
  see_close, after_insert, work, work_at, step, run, after_work, start,
}
use crm_beginner.Postgres.Logs.{LogTable, Columns, Context, bulk_insert}
use crm_beginner.Remote.{Link, up, refused, lost, NotLost}

-- The reply to an insert is not lost.
abbrev pub IsAnswered : Act → Type 0
IsAnswered (inserts ctx) = NotLost ctx.link
IsAnswered _ = Unit

abbrev pub AnswersEvent : Event → Type 0
AnswersEvent (works i act) = IsAnswered act
AnswersEvent _ = Unit

module _ (p : Columns → Bool) where
  abbrev NoMore : LogTable → Result Error (Unit {0}) × LogTable → Type 0
  NoMore t (ok u, t') = Unit
  NoMore t (err e, t') = t' ≡ t

  bulk_insert-NoMore :
      (ctx : Context) (batch : List LogEntry) (t : LogTable)
      → NotLost ctx.link
      → NoMore t (bulk_insert ctx batch t)
  unfolding bulk_insert
  bulk_insert-NoMore ctx [] t n = tt
  bulk_insert-NoMore ctx (e ∷ batch) t n = by_link ctx.link n
    where
      by_link :
          (link : Link)
          → NotLost link
          → NoMore t (bulk_insert (record { now = ctx.now; link = link }) (e ∷ batch) t)
      by_link up n = tt
      by_link (refused f) n = refl
      by_link (lost f) n = absurd n

  -- Nothing is there twice.
  abbrev AddsNone : ℕ → Option (Worker × Shared) → Type 0
  AddsNone n none = Unit
  AddsNone n (some (w, s)) = held p w + in_shared p s ≤ n

  receive-AddsNone :
      (cfg : Config) (batch queue : List LogEntry) (s : Shared)
      → s.queue ≡ queue
      → AddsNone (count p batch + in_shared p s) (receive cfg batch queue s)
  unfolding receive
  receive-AddsNone cfg batch [] s q = tt
  receive-AddsNone cfg batch (e ∷ rest) s q =
      ground (arith, add_to_batch-count p cfg batch e, ap (count p) q)

  see_close-AddsNone :
      (batch queue : List LogEntry) (s : Shared)
      → AddsNone (count p batch + in_shared p s) (see_close batch queue s)
  unfolding see_close
  see_close-AddsNone batch [] s = ground (arith, enter_flush-count p batch true)
  see_close-AddsNone batch (e ∷ rest) s = tt

  after_insert-AddsNone :
      (batch : List LogEntry) (backoff : ℕ) (last : Bool) (s : Shared)
      (r : Result Error (Unit {0}) × LogTable)
      → OkOrMore p batch s.table r
      → NoMore s.table r
      → AddsNone (count p batch + in_shared p s) (some (after_insert batch backoff last s r))
  unfolding after_insert
  after_insert-AddsNone batch backoff last s (ok u, t) h n = ground arith
  after_insert-AddsNone batch backoff last s (err e, t) h n = omega (arith, ap (count_rows p) n)

  work-AddsNone :
      (cfg : Config) (act : Act) (w : Worker) (s : Shared)
      → IsAnswered act
      → AddsNone (held p w + in_shared p s) (work cfg act w s)
  unfolding work
  work-AddsNone cfg receives (collecting batch) s a = receive-AddsNone cfg batch s.queue s refl
  work-AddsNone cfg sees_close (collecting batch) s a = see_close-AddsNone batch s.queue s
  work-AddsNone cfg ticks (collecting batch) s a = omega (arith, enter_flush-count p batch false)
  work-AddsNone cfg sees_cancel (collecting batch) s a =
      ground (arith, enter_flush-count p batch true)
  work-AddsNone cfg (inserts ctx) (inserting batch backoff last) s a =
      after_insert-AddsNone batch backoff last s _ (bulk_insert-count p ctx batch s.table)
        (bulk_insert-NoMore ctx batch s.table a)
  work-AddsNone cfg elapses (waiting batch backoff last) s a = omega arith
  work-AddsNone cfg gives_up (waiting batch backoff last) s a =
      ground (arith, count-append p s.given_up batch)
  work-AddsNone cfg _ _ s a = tt

  abbrev AddsNoneAll : ℕ → Option (List Worker × Shared) → Type 0
  AddsNoneAll n none = Unit
  AddsNoneAll n (some (ws, s)) = held_all p ws + in_shared p s ≤ n

  here-AddsNoneAll :
      (n : ℕ) (ws : List Worker) (o : Option (Worker × Shared))
      → AddsNone n o
      → AddsNoneAll (n + held_all p ws) (Option.map (λ r. (r.0 ∷ ws, r.1)) o)
  here-AddsNoneAll n ws none h = tt
  here-AddsNoneAll n ws (some (w, s)) h = omega arith

  there-AddsNoneAll :
      (n : ℕ) (w : Worker) (o : Option (List Worker × Shared))
      → AddsNoneAll n o
      → AddsNoneAll (held p w + n) (Option.map (λ r. (w ∷ r.0, r.1)) o)
  there-AddsNoneAll n w none h = tt
  there-AddsNoneAll n w (some (ws, s)) h = omega arith

  work_at-AddsNoneAll :
      (cfg : Config) (i : ℕ) (act : Act) (ws : List Worker) (s : Shared)
      → IsAnswered act
      → AddsNoneAll (held_all p ws + in_shared p s) (work_at cfg i act ws s)
  unfolding work_at
  work_at-AddsNoneAll cfg i act [] s a = tt
  work_at-AddsNoneAll cfg zero act (w ∷ ws) s a =
      subst (λ n. AddsNoneAll n (work_at cfg zero act (w ∷ ws) s)) (omega arith)
        (here-AddsNoneAll (held p w + in_shared p s) ws (work cfg act w s)
          (work-AddsNone cfg act w s a))
  work_at-AddsNoneAll cfg (suc i) act (w ∷ ws) s a =
      subst (λ n. AddsNoneAll n (work_at cfg (suc i) act (w ∷ ws) s)) (omega arith)
        (there-AddsNoneAll (held_all p ws + in_shared p s) w (work_at cfg i act ws s)
          (work_at-AddsNoneAll cfg i act ws s a))

  after_work-most :
      (g g' : Ingester) (n : ℕ) (o : Option (List Worker × Shared))
      → AddsNoneAll n o
      → after_work g o ≡ some g'
      → total p g' ≤ n
  unfolding after_work
  after_work-most g g' n none k h = absurd cc
  after_work-most g g' n (some (ws, s)) k h = ground arith

  step-most :
      (e : Event) (g g' : Ingester)
      → AnswersEvent e
      → step e g ≡ some g'
      → total p g' ≤ total p g + entered p e g
  unfolding step
  step-most (submits ctx_done prefers_send e) g g' a h =
      ground (arith, submit-count p g.cfg ctx_done prefers_send e g.shared)
  step-most (works i act) g g' a h =
      let kept =
        after_work-most g g' (total p g) (work_at g.cfg i act g.workers g.shared)
          (work_at-AddsNoneAll g.cfg i act g.workers g.shared a) h in
      omega arith
  step-most cancels g g' a h = ground arith
  step-most stops g g' a h = ground arith

  run-most :
      (events : List Event) (g g' : Ingester)
      → All AnswersEvent events
      → run events g ≡ some g'
      → total p g' ≤ total p g + accepted p events g
  unfolding run accepted
  run-most [] g g' a h = ground arith
  run-most (e ∷ events) g g' (a, more) h = elim (Option-cases (step e g)) [
    | inl n ↦ absurd (ground arith)
    | inr (g1, s) ↦
        let last = run-most events g1 g' more in ground (arith, step-most e g g1 a s, last)
  ]

-- For any kind of entries and any schedule from `Start` in which the context is not cancelled, no
-- reply to an insert is lost, and at whose end every worker has returned: the table holds exactly as
-- many entries of the kind as it held before and `Submit` accepted. None is lost and none is stored
-- twice, however often inserts are refused and repeated.
pub drained-once :
    (p : Columns → Bool) (cfg : Config) (table : LogTable) (events : List Event) (g : Ingester)
    → All AnswersEvent events
    → run events (start cfg table) ≡ some g
    → g.shared.is_cancelled ≡ false
    → AllExited g.workers
    → count_rows p g.shared.table ≡ count_rows p table + accepted p events (start cfg table)
drained-once p cfg table events g answered h c a = omega (
  arith,
  drained p cfg table events g h c a,
  run-most p events (start cfg table) g answered h,
  total-start p cfg table,
)
