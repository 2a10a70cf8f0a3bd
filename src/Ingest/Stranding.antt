-- ===== src/Ingest/Stranding.antt =====
-- About internal/ingest/ingester.go once all its workers have returned.
use crm_beginner.Base.{
  ℕ, zero, suc, ◌+◌, ◌≡◌, refl, ap, subst, ◌∙◌, Bool, none, some, List, [], ◌∷◌, arith,
  Option-cases, inl, inr,
}
use mathlib.Core.Option.{some-injective}
use crm_beginner.Domain.{LogEntry}
use crm_beginner.Ingest.Drain.{AllExited}
use crm_beginner.Ingest.Counts.{count_rows, count}
use crm_beginner.Ingest.NoLoss.{accepted, entered, submit-count}
use crm_beginner.Ingest.{
  Config, Worker, exited, Shared, Ingester, Event, submits, works, cancels, stops, Act, receives,
  inserts, work, work_at, submit, step, run,
}
use crm_beginner.Postgres.Logs.{Columns}

work-exited : (cfg : Config) (act : Act) (s : Shared) → work cfg act exited s ≡ none
unfolding work
work-exited cfg receives s = refl
work-exited cfg (inserts ctx) s = refl
work-exited cfg _ s = refl

work_at-AllExited :
    (cfg : Config) (i : ℕ) (act : Act) (ws : List Worker) (s : Shared)
    → AllExited ws
    → work_at cfg i act ws s ≡ none
unfolding work_at
work_at-AllExited cfg i act [] s a = refl
work_at-AllExited cfg zero act (w ∷ ws) s (e, a) = rw (e, work-exited cfg act s)
work_at-AllExited cfg (suc i) act (w ∷ ws) s (e, a) = rw (work_at-AllExited cfg i act ws s a)

submit-table :
    (cfg : Config) (ctx_done prefers_send : Bool) (e : LogEntry) (s : Shared)
    → ((submit cfg ctx_done prefers_send e s).1.table ≡ s.table)
      × ((submit cfg ctx_done prefers_send e s).1.given_up ≡ s.given_up)
unfolding submit
submit-table cfg ctx_done prefers_send e s = ground arith

pub record Stranded (p : Columns → Bool) (g g' : Ingester) (n : ℕ) : Type 0 where
  pub all_exited : AllExited g'.workers
  pub same_table : g'.shared.table ≡ g.shared.table
  pub still_queued : count p g'.shared.queue ≡ count p g.shared.queue + n

step-Stranded :
    (p : Columns → Bool) (e : Event) (g g' : Ingester)
    → AllExited g.workers
    → step e g ≡ some g'
    → Stranded p g g' (entered p e g)
unfolding step
step-Stranded p (submits ctx_done prefers_send e) g g' a h =
    let (t, u) = submit-table g.cfg ctx_done prefers_send e g.shared in
    subst (λ x. Stranded p g x (entered p (submits ctx_done prefers_send e) g))
      (some-injective _ _ h)
      (record {
        all_exited = a;
        same_table = t;
        still_queued = omega (
          arith,
          submit-count p g.cfg ctx_done prefers_send e g.shared,
          ap (count_rows p) t,
          ap (count p) u,
        );
      })
step-Stranded p (works i act) g g' a h =
    absurd (ground (arith, work_at-AllExited g.cfg i act g.workers g.shared a))
step-Stranded p cancels g g' a h =
    subst (λ x. Stranded p g x 0) (some-injective _ _ h)
      (record { all_exited = a; same_table = refl; still_queued = omega arith })
step-Stranded p stops g g' a h =
    subst (λ x. Stranded p g x 0) (some-injective _ _ h)
      (record { all_exited = a; same_table = refl; still_queued = omega arith })

-- From a state in which every worker has returned, every schedule leaves them returned and the table
-- as it was, and what `Submit` still accepts in it is added to the queue and stays there.
pub run-Stranded :
    (p : Columns → Bool) (events : List Event) (g g' : Ingester)
    → AllExited g.workers
    → run events g ≡ some g'
    → Stranded p g g' (accepted p events g)
unfolding run accepted
run-Stranded p [] g g' a h =
    subst (λ x. Stranded p g x 0) (some-injective _ _ h)
      (record { all_exited = a; same_table = refl; still_queued = omega arith })
run-Stranded p (e ∷ events) g g' a h = elim (Option-cases (step e g)) [
  | inl n ↦ absurd (ground arith)
  | inr (g1, s) ↦
      let one = step-Stranded p e g g1 a s in
      let rest = run-Stranded p events g1 g' one.all_exited (ground arith) in
      record {
        all_exited = rest.all_exited;
        same_table = rest.same_table ∙ one.same_table;
        still_queued = ground (arith, one.still_queued, rest.still_queued);
      }
]
