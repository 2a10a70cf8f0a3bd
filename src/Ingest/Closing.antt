-- ===== src/Ingest/Closing.antt =====
-- About internal/ingest/ingester.go: who closes the channel, and when `Submit` panics.
use mathlib.Core.Option
use mathlib.Core.Option.{some-injective}
use crm_beginner.Base.{
  ℕ, zero, suc, ◌≡◌, ◌∙◌, sym, ap, refl, Bool, true, false, ◌||◌, any, Option, none, some, List, [],
  ◌∷◌, Result, ok, err, arith, inl, inr, Option-cases, if◌then◌else◌,
}
use crm_beginner.Domain.{LogEntry, Error}
use crm_beginner.Ingest.{
  Config, Worker, collecting, inserting, waiting, Shared, Ingester, Act, receives, sees_close,
  ticks, sees_cancel, elapses, gives_up, inserts, receive, see_close, after_insert, work, work_at,
  Event, submits, works, cancels, stops, submit, after_work, step, run,
}
use crm_beginner.Ingest.Submitter.{go_on}
use crm_beginner.Postgres.Logs.{LogTable, bulk_insert}

-- A step leaves the channel open or closed as it is.
abbrev LeavesAs : {A : Type 0} → Bool → Option (A × Shared) → Type 0
LeavesAs closed none = Unit
LeavesAs closed (some (a, s)) = s.closed ≡ closed

if_allowed-LeavesAs :
    (b : Bool) (w : Worker) (s s' : Shared)
    → s'.closed ≡ s.closed
    → LeavesAs s.closed (if b then some (w, s') else none)
if_allowed-LeavesAs true w s s' h = h
if_allowed-LeavesAs false w s s' h = tt

receive-LeavesAs :
    (cfg : Config) (batch queue : List LogEntry) (s : Shared)
    → LeavesAs s.closed (receive cfg batch queue s)
unfolding receive
receive-LeavesAs cfg batch [] s = tt
receive-LeavesAs cfg batch (e ∷ rest) s = refl

see_close-LeavesAs :
    (batch queue : List LogEntry) (s : Shared) → LeavesAs s.closed (see_close batch queue s)
unfolding see_close
see_close-LeavesAs batch [] s = if_allowed-LeavesAs s.closed _ s s refl
see_close-LeavesAs batch (e ∷ rest) s = tt

after_insert-LeavesAs :
    (batch : List LogEntry) (backoff : ℕ) (last : Bool) (s : Shared)
    (r : Result Error (Unit {0}) × LogTable)
    → LeavesAs s.closed (some (after_insert batch backoff last s r))
unfolding after_insert
after_insert-LeavesAs batch backoff last s (ok u, t) = refl
after_insert-LeavesAs batch backoff last s (err e, t) = refl

work-LeavesAs :
    (cfg : Config) (act : Act) (w : Worker) (s : Shared) → LeavesAs s.closed (work cfg act w s)
unfolding work
work-LeavesAs cfg receives (collecting batch) s = receive-LeavesAs cfg batch s.queue s
work-LeavesAs cfg sees_close (collecting batch) s = see_close-LeavesAs batch s.queue s
work-LeavesAs cfg ticks (collecting batch) s = refl
work-LeavesAs cfg sees_cancel (collecting batch) s = if_allowed-LeavesAs s.is_cancelled _ s s refl
work-LeavesAs cfg (inserts ctx) (inserting batch backoff last) s =
    after_insert-LeavesAs batch backoff last s (bulk_insert ctx batch s.table)
work-LeavesAs cfg elapses (waiting batch backoff last) s = refl
work-LeavesAs cfg gives_up (waiting batch backoff last) s =
    if_allowed-LeavesAs s.is_cancelled _ s _ refl
work-LeavesAs cfg _ _ s = tt

mapped-LeavesAs :
    {A B : Type 0} (closed : Bool) (f : A → B) (o : Option (A × Shared))
    → LeavesAs closed o
    → LeavesAs closed (Option.map (λ r. (f r.0, r.1)) o)
mapped-LeavesAs closed f none h = tt
mapped-LeavesAs closed f (some (a, s)) h = h

work_at-LeavesAs :
    (cfg : Config) (i : ℕ) (act : Act) (ws : List Worker) (s : Shared)
    → LeavesAs s.closed (work_at cfg i act ws s)
unfolding work_at
work_at-LeavesAs cfg i act [] s = tt
work_at-LeavesAs cfg zero act (w ∷ ws) s =
    mapped-LeavesAs s.closed (λ w'. w' ∷ ws) (work cfg act w s) (work-LeavesAs cfg act w s)
work_at-LeavesAs cfg (suc i) act (w ∷ ws) s =
    mapped-LeavesAs s.closed (λ ws'. w ∷ ws') (work_at cfg i act ws s)
      (work_at-LeavesAs cfg i act ws s)

after_work-closed :
    (g g' : Ingester) (o : Option (List Worker × Shared))
    → LeavesAs g.shared.closed o
    → after_work g o ≡ some g'
    → g'.shared.closed ≡ g.shared.closed
unfolding after_work
after_work-closed g g' none l h = absurd cc
after_work-closed g g' (some (ws, s)) l h =
    sym (ap (λ (x : Ingester). x.shared.closed) (some-injective _ _ h)) ∙ l

-- The `close` of `Stop`.
abbrev pub is_stop : Event → Bool
is_stop stops = true
is_stop _ = false

step-closed :
    (e : Event) (g g' : Ingester)
    → step e g ≡ some g'
    → g'.shared.closed ≡ (is_stop e || g.shared.closed)
unfolding step submit
step-closed (submits ctx_done prefers_send e) g g' h = ground arith
step-closed (works i act) g g' h =
    after_work-closed g g' (work_at g.cfg i act g.workers g.shared)
      (work_at-LeavesAs g.cfg i act g.workers g.shared) h
step-closed cancels g g' h = ground arith
step-closed stops g g' h = ground arith

run-closed :
    (events : List Event) (g g' : Ingester)
    → run events g ≡ some g'
    → g'.shared.closed ≡ (any is_stop events || g.shared.closed)
unfolding run
run-closed [] g g' h = ground arith
run-closed (e ∷ events) g g' h = elim (Option-cases (step e g)) [
  | inl n ↦ absurd (ground arith)
  | inr (g1, s) ↦ ground (arith, step-closed e g g1 s, run-closed events g1 g')
]

-- A channel that is closed stays closed.
pub go_on-closed :
    (events : List Event) (g : Ingester)
    → g.shared.closed ≡ true
    → (go_on events g).shared.closed ≡ true
unfolding go_on
go_on-closed events g c = elim (Option-cases (run events g)) [
  | inl n ↦ rw (n, go_on) c
  | inr (g', h) ↦ rw (h, go_on) (ground (arith, run-closed events g g' h))
]

-- Without a `close`, a channel that is open stays open.
pub go_on-open :
    (events : List Event) (g : Ingester)
    → any is_stop events ≡ false
    → g.shared.closed ≡ false
    → (go_on events g).shared.closed ≡ false
unfolding go_on
go_on-open events g n c = elim (Option-cases (run events g)) [
  | inl none_there ↦ rw (none_there, go_on) c
  | inr (g', h) ↦ rw (h, go_on) (ground (arith, run-closed events g g' h))
]
