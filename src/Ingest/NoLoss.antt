-- ===== src/Ingest/NoLoss.antt =====
-- About internal/ingest/ingester.go: the entries that a schedule takes in, and those in the
-- pipeline.
use crm_beginner.Base.{
  ℕ, zero, suc, ◌+◌, ◌≤◌, ◌≡◌, subst, Bool, true, false, Option, none, some, List, [], ◌∷◌,
  if◌then◌else◌, ok, err, arith, Option-cases, inl, inr,
}
use mathlib.Core.Option
use crm_beginner.Domain.{LogEntry}
use crm_beginner.Ingest.Counts.{count, count-append, held, held_all, in_shared, Keeps, work-Keeps}
use crm_beginner.Ingest.{
  Config, Worker, Shared, Ingester, Event, submits, works, cancels, stops, Act, work, work_at,
  submit, Reply, replied, panics, step, run, after_work,
}
use crm_beginner.Postgres.Logs.{Columns}

-- Whether `Submit` returned nil.
abbrev pub is_accepted : Reply → Bool
is_accepted (replied (ok u)) = true
is_accepted (replied (err e)) = false
is_accepted panics = false

module _ (p : Columns → Bool) where
  -- The entries of a kind in the whole pipeline.
  abbrev pub total : Ingester → ℕ
  total g = held_all p g.workers + in_shared p g.shared

  abbrev pub entered : Event → Ingester → ℕ
  entered (submits ctx_done prefers_send e) g =
      if is_accepted (submit g.cfg ctx_done prefers_send e g.shared).0 then count p (e ∷ []) else 0
  entered _ g = 0

  abbrev KeepsAll : ℕ → Option (List Worker × Shared) → Type 0
  KeepsAll n none = Unit
  KeepsAll n (some (ws, s)) = n ≤ held_all p ws + in_shared p s

  here-KeepsAll :
      (n : ℕ) (ws : List Worker) (o : Option (Worker × Shared))
      → Keeps p n o
      → KeepsAll (n + held_all p ws) (Option.map (λ r. (r.0 ∷ ws, r.1)) o)
  here-KeepsAll n ws none h = tt
  here-KeepsAll n ws (some (w, s)) h = omega arith

  there-KeepsAll :
      (n : ℕ) (w : Worker) (o : Option (List Worker × Shared))
      → KeepsAll n o
      → KeepsAll (held p w + n) (Option.map (λ r. (w ∷ r.0, r.1)) o)
  there-KeepsAll n w none h = tt
  there-KeepsAll n w (some (ws, s)) h = omega arith

  work_at-KeepsAll :
      (cfg : Config) (i : ℕ) (act : Act) (ws : List Worker) (s : Shared)
      → KeepsAll (held_all p ws + in_shared p s) (work_at cfg i act ws s)
  unfolding work_at
  work_at-KeepsAll cfg i act [] s = tt
  work_at-KeepsAll cfg zero act (w ∷ ws) s =
      subst (λ n. KeepsAll n (work_at cfg zero act (w ∷ ws) s)) (omega arith)
        (here-KeepsAll (held p w + in_shared p s) ws (work cfg act w s) (work-Keeps p cfg act w s))
  work_at-KeepsAll cfg (suc i) act (w ∷ ws) s =
      subst (λ n. KeepsAll n (work_at cfg (suc i) act (w ∷ ws) s)) (omega arith)
        (there-KeepsAll (held_all p ws + in_shared p s) w (work_at cfg i act ws s)
          (work_at-KeepsAll cfg i act ws s))

  after_work-total :
      (g g' : Ingester) (n : ℕ) (o : Option (List Worker × Shared))
      → KeepsAll n o
      → after_work g o ≡ some g'
      → n ≤ total g'
  unfolding after_work
  after_work-total g g' n none k h = cc
  after_work-total g g' n (some (ws, s)) k h = ground arith

  pub submit-count :
      (cfg : Config) (ctx_done prefers_send : Bool) (e : LogEntry) (s : Shared)
      → in_shared p (submit cfg ctx_done prefers_send e s).1
        ≡ in_shared p s
          + (if is_accepted (submit cfg ctx_done prefers_send e s).0 then count p (e ∷ []) else 0)
  unfolding submit
  submit-count cfg ctx_done prefers_send e s = ground (arith, count-append p s.queue (e ∷ []))

  -- One event.
  step-total : (e : Event) (g g' : Ingester) → step e g ≡ some g' → total g + entered e g ≤ total g'
  unfolding step
  step-total (submits ctx_done prefers_send e) g g' h =
      ground (arith, submit-count g.cfg ctx_done prefers_send e g.shared)
  step-total (works i act) g g' h =
      let kept =
        after_work-total g g' (total g) (work_at g.cfg i act g.workers g.shared)
          (work_at-KeepsAll g.cfg i act g.workers g.shared) h in
      omega arith
  step-total cancels g g' h = ground arith
  step-total stops g g' h = ground arith

  -- The entries of a kind that `Submit` accepts in a schedule.
  unfoldable pub accepted : List Event → Ingester → ℕ
  accepted [] g = 0
  accepted (e ∷ events) g =
      entered e g + (elim (step e g) [ none ↦ 0 | some g' ↦ accepted events g' ])

  -- For any kind of entries: behind every schedule that can happen, the entries of the kind in the
  -- queue, the workers' batches, the table and among those given up are at least as many as were
  -- there before it and `Submit` accepted in it.
  pub run-total :
      (events : List Event) (g g' : Ingester)
      → run events g ≡ some g'
      → total g + accepted events g ≤ total g'
  unfolding run accepted
  run-total [] g g' h = ground arith
  run-total (e ∷ events) g g' h = elim (Option-cases (step e g)) [
    | inl n ↦ absurd (ground arith)
    | inr (g1, s) ↦ ground (arith, step-total e g g1 s, run-total events g1 g')
  ]
