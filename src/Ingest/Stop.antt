-- ===== src/Ingest/Stop.antt =====
-- About `Stop` of internal/ingest/ingester.go, from any state that a run reaches.
use mathlib.Core.Option
use crm_beginner.Base.{
  ℕ, zero, suc, ◌+◌, ◌*◌, ◌≤◌, ◌<◌, ◌≡◌, ◌⊎◌, inl, inr, refl, ap, ◌∙◌, Bool, true, false, some,
  List, [], ◌∷◌, ◌++◌, arith, length, Option-cases,
}
use crm_beginner.Ingest.Counts.{count_rows}
use crm_beginner.Ingest.Drain.{AllExited, drained}
use crm_beginner.Ingest.NoLoss.{accepted}
use crm_beginner.Ingest.{
  Config, Worker, collecting, inserting, waiting, exited, Shared, Ingester, Event, works, stops,
  Act, work_at, step, run, after_work, start,
}
use crm_beginner.Postgres.Logs.{Columns, LogTable}
use crm_beginner.Ingest.Finish.{weights, Nearer, work-Nearer}
use mathlib.Core.Option.{some-injective}

record NearerAll (cfg : Config) (ws : List Worker) (s : Shared) : Type 0 where
  place : ℕ
  act : Act
  ws' : List Worker
  s' : Shared
  happens : work_at cfg place act ws s ≡ some (ws', s')
  nearer : 2 * length s'.queue + weights ws' < 2 * length s.queue + weights ws
  closed : s'.closed ≡ s.closed
  is_cancelled : s'.is_cancelled ≡ s.is_cancelled

here-NearerAll :
    (cfg : Config) (w : Worker) (ws : List Worker) (s : Shared)
    → Nearer cfg w s
    → NearerAll cfg (w ∷ ws) s
unfolding work_at
here-NearerAll cfg w ws s n = record {
  place = 0;
  act = n.act;
  ws' = n.w' ∷ ws;
  s' = n.s';
  happens = ap (Option.map (λ r. (r.0 ∷ ws, r.1))) n.happens;
  nearer = omega (arith, n.nearer);
  closed = n.closed;
  is_cancelled = n.is_cancelled;
}

there-NearerAll :
    (cfg : Config) (w : Worker) (ws : List Worker) (s : Shared)
    → NearerAll cfg ws s
    → NearerAll cfg (w ∷ ws) s
unfolding work_at
there-NearerAll cfg w ws s n = record {
  place = suc n.place;
  act = n.act;
  ws' = w ∷ n.ws';
  s' = n.s';
  happens = ap (Option.map (λ r. (w ∷ r.0, r.1))) n.happens;
  nearer = omega (arith, n.nearer);
  closed = n.closed;
  is_cancelled = n.is_cancelled;
}

work_at-NearerAll :
    (cfg : Config) (ws : List Worker) (s : Shared)
    → s.closed ≡ true
    → AllExited ws ⊎ NearerAll cfg ws s
work_at-NearerAll cfg [] s c = inl tt
work_at-NearerAll cfg (w ∷ ws) s c = elim (work-Nearer cfg w s c) [
  | inr n ↦ inr (here-NearerAll cfg w ws s n)
  | inl e ↦ elim (work_at-NearerAll cfg ws s c) [
    | inr n ↦ inr (there-NearerAll cfg w ws s n)
    | inl all_exited ↦ inl (e, all_exited)
  ]
]

abbrev distance : Ingester → ℕ
distance g = 2 * length g.shared.queue + weights g.workers

-- A schedule that ends with every worker returned.
pub record Finishes (g : Ingester) (most : ℕ) : Type 0 where
  more : List Event
  end : Ingester
  happen : run more g ≡ some end
  all_exited : AllExited end.workers
  is_cancelled : end.shared.is_cancelled ≡ g.shared.is_cancelled
  short : length more ≤ most

finishes : (most : ℕ) (g : Ingester) → distance g ≤ most → g.shared.closed ≡ true → Finishes g most
unfolding run step after_work
finishes zero g d c = elim (work_at-NearerAll g.cfg g.workers g.shared c) [
  | inl all_exited ↦ record {
    more = [];
    end = g;
    happen = refl;
    all_exited = all_exited;
    is_cancelled = refl;
    short = omega arith;
  }
  | inr n ↦ absurd (omega (arith, n.nearer))
]
finishes (suc most) g d c = elim (work_at-NearerAll g.cfg g.workers g.shared c) [
  | inl all_exited ↦ record {
    more = [];
    end = g;
    happen = refl;
    all_exited = all_exited;
    is_cancelled = refl;
    short = omega arith;
  }
  | inr n ↦
      let g1 = record g { workers = n.ws'; shared = n.s' } in
      let rest = finishes most g1 (omega (arith, n.nearer)) (n.closed ∙ c) in
      record {
        more = works n.place n.act ∷ rest.more;
        end = rest.end;
        happen = rw (run, ap (after_work g) n.happens) rest.happen;
        all_exited = rest.all_exited;
        is_cancelled = rest.is_cancelled ∙ n.is_cancelled;
        short = omega (arith, rest.short);
      }
]

run-append :
    (p : Columns → Bool) (events more : List Event) (g g1 g2 : Ingester)
    → run events g ≡ some g1
    → run more g1 ≡ some g2
    → (run (events ++ more) g ≡ some g2) × (accepted p events g ≤ accepted p (events ++ more) g)
unfolding run accepted
run-append p [] more g g1 g2 h k = (ap (run more) (some-injective _ _ h) ∙ k, omega arith)
run-append p (e ∷ events) more g g1 g2 h k = elim (Option-cases (step e g)) [
  | inl n ↦ absurd (ground arith)
  | inr (g', s) ↦
      let rest = run-append p events more g' g1 g2 (ground arith) k in
      (rw (run, s) rest.0, rw (accepted, s) (omega (arith, rest.1)))
]

weights-le : (ws : List Worker) → weights ws ≤ 4 * length ws
weights-le [] = omega arith
weights-le (collecting batch ∷ ws) = omega (arith, weights-le ws)
weights-le (inserting batch backoff true ∷ ws) = omega (arith, weights-le ws)
weights-le (inserting batch backoff false ∷ ws) = omega (arith, weights-le ws)
weights-le (waiting batch backoff true ∷ ws) = omega (arith, weights-le ws)
weights-le (waiting batch backoff false ∷ ws) = omega (arith, weights-le ws)
weights-le (exited ∷ ws) = omega (arith, weights-le ws)

-- Whatever a run from `Start` has done, if the context has not ended: `Stop` can end it. There is a
-- schedule behind the `close`, with at most two steps for each entry of the channel and four for each
-- worker, at whose end every worker has returned and the table holds, for any kind of entries, at
-- least as many as it held before the run and `Submit` accepted in it.
pub stop-drains :
    (p : Columns → Bool) (cfg : Config) (table : LogTable) (events : List Event) (g : Ingester)
    → run events (start cfg table) ≡ some g
    → g.shared.is_cancelled ≡ false
    → (more : List Event) × (g' : Ingester) × (run (events ++ stops ∷ more) (start cfg table)
        ≡ some g')
      × AllExited g'.workers
      × (count_rows p table + accepted p events (start cfg table) ≤ count_rows p g'.shared.table)
      × (length more ≤ 2 * length g.shared.queue + 4 * length g.workers)
stop-drains p cfg table events g h c =
    let stopped = record g { shared = record (g.shared) { closed = true } } in
    let f =
      finishes (2 * length g.shared.queue + 4 * length g.workers) stopped
        (omega (arith, weights-le g.workers)) refl in
    let whole =
      run-append p events (stops ∷ f.more) (start cfg table) g f.end h
        (unfold run step in f.happen) in
    let stored =
      drained p cfg table (events ++ stops ∷ f.more) f.end whole.0 (f.is_cancelled ∙ c)
        f.all_exited in
    (f.more, f.end, whole.0, f.all_exited, omega (arith, whole.1, stored), f.short)
