-- ===== src/Ingest/Drain.antt =====
-- About the end of internal/ingest/ingester.go by `Stop`.
use crm_beginner.Base.Int.{pos_part}
use crm_beginner.Base.{
  ℕ, zero, suc, ◌+◌, ◌≤◌, ◌<◌, ◌≡◌, refl, ap, Bool, false, some, List, [], ◌∷◌, arith, length, inl,
  inr, All,
}
use crm_beginner.Ingest.Moves.{is_last, MayLeave, Leaves}
use crm_beginner.Ingest.Orderly.{Orderly, run-Orderly, start-Orderly}
use crm_beginner.Ingest.Counts.{count_rows, count, held, held_all}
use crm_beginner.Ingest.NoLoss.{total, accepted, run-total}
use crm_beginner.Ingest.{
  Config, Worker, collecting, exited, Ingester, Event, run, start, with_defaults, repeat,
}
use crm_beginner.Postgres.Logs.{LogTable, Columns}

held-repeat : (p : Columns → Bool) (n : ℕ) → held_all p (repeat n (collecting [])) ≡ 0
unfolding repeat
held-repeat p zero = refl
held-repeat p (suc n) = omega (arith, held-repeat p n)

pub total-start :
    (p : Columns → Bool) (cfg : Config) (table : LogTable)
    → total p (start cfg table) ≡ count_rows p table
unfolding start
total-start p cfg table = omega (arith, held-repeat p (pos_part (with_defaults cfg).workers))

-- Every worker has returned.
abbrev pub AllExited : List Worker → Type 0
AllExited = All (λ w. w ≡ exited)

AllExited-held : (p : Columns → Bool) (ws : List Worker) → AllExited ws → held_all p ws ≡ 0
AllExited-held p [] a = refl
AllExited-held p (w ∷ ws) (e, a) = omega (arith, ap (held p) e, AllExited-held p ws a)

MayLeave-AllExited : (g : Ingester) → Orderly g → AllExited g.workers → MayLeave g.shared
MayLeave-AllExited g v a = by_workers g.workers v.leaves a v.some_worker
  where
    by_workers :
        (ws : List Worker)
        → All (Leaves g.shared) ws
        → AllExited ws
        → 0 < length ws
        → MayLeave g.shared
    by_workers [] l a n = absurd (omega arith)
    by_workers (w ∷ ws) (h, l) (e, a) n = h (ap is_last e)

-- At the end of all workers, what is in the pipeline is in the table.
pub exited-total :
    (p : Columns → Bool) (g : Ingester)
    → Orderly g
    → g.shared.is_cancelled ≡ false
    → AllExited g.workers
    → total p g ≡ count_rows p g.shared.table
exited-total p g v c a =
    let none_held = AllExited-held p g.workers a in
    let none_given_up : g.shared.given_up ≡ [] = elim v.nothing_given_up [
      | inl x ↦ absurd cc
      | inr e ↦ e
    ] in
    let none_queued : g.shared.queue ≡ [] = elim (MayLeave-AllExited g v a) [
      | inl x ↦ absurd cc
      | inr e ↦ e.1
    ] in
    omega (arith, none_held, ap (count p) none_given_up, ap (count p) none_queued)

-- For any kind of entries and any schedule from `Start` in which the context is not cancelled and at
-- whose end every worker has returned: the table holds at least as many entries of the kind as it
-- held before and `Submit` accepted.
pub drained :
    (p : Columns → Bool) (cfg : Config) (table : LogTable) (events : List Event) (g : Ingester)
    → run events (start cfg table) ≡ some g
    → g.shared.is_cancelled ≡ false
    → AllExited g.workers
    → count_rows p table + accepted p events (start cfg table) ≤ count_rows p g.shared.table
drained p cfg table events g h c a =
    let v = run-Orderly events (start cfg table) g h (start-Orderly cfg table) in
    omega (
      arith,
      run-total p events (start cfg table) g h,
      total-start p cfg table,
      exited-total p g v c a,
    )
