-- ===== src/Ingest/Orderly.antt =====
-- About internal/ingest/ingester.go: in which states workers may have left their loops.
use crm_beginner.Base.Int.{ℤ, pos, negsuc, pos_part}
use crm_beginner.Base.{
  ℕ, zero, suc, ◌<◌, ◌≡◌, refl, sym, ap, subst, Bool, true, Option, none, some, List, [], ◌∷◌,
  arith, Option-cases, length, inl, inr, All,
}
use mathlib.Core.Option.{some-injective}
use crm_beginner.Domain.{LogEntry}
use crm_beginner.Ingest.Moves.{
  MayLeave, Leaves, NothingGivenUp, MovesAll, All-Leaves, work_at-MovesAll,
}
use crm_beginner.Ingest.{
  Config, Worker, collecting, Shared, Ingester, Event, submits, works, cancels, stops, work_at,
  submit, step, run, after_work, start, with_defaults, or_default, repeat,
}
use crm_beginner.Postgres.Logs.{LogTable}

pub record Orderly (g : Ingester) : Type 0 where
  pub some_worker : 0 < length g.workers
  pub leaves : All (Leaves g.shared) g.workers
  pub nothing_given_up : NothingGivenUp g.shared

after_work-Orderly :
    (g g' : Ingester) (o : Option (List Worker × Shared))
    → MovesAll g.workers g.shared o
    → after_work g o ≡ some g'
    → Orderly g
    → Orderly g'
unfolding after_work
after_work-Orderly g g' none m h v = absurd cc
after_work-Orderly g g' (some (ws, s)) (m, l, k, n) h v =
    subst Orderly (some-injective _ _ h) (record {
      leaves = l v.leaves;
      some_worker = subst (λ k. 0 < k) (sym n) v.some_worker;
      nothing_given_up = k v.nothing_given_up;
    })

submit-MayLeave :
    (cfg : Config) (ctx_done prefers_send : Bool) (e : LogEntry) (s : Shared)
    → (MayLeave s → MayLeave (submit cfg ctx_done prefers_send e s).1)
      × (NothingGivenUp s → NothingGivenUp (submit cfg ctx_done prefers_send e s).1)
unfolding submit
submit-MayLeave cfg ctx_done prefers_send e s = ((λ m. ground arith), λ g. ground arith)

pub step-Orderly : (e : Event) (g g' : Ingester) → step e g ≡ some g' → Orderly g → Orderly g'
unfolding step
step-Orderly (submits ctx_done prefers_send e) g g' h v =
    let (m, k) = submit-MayLeave g.cfg ctx_done prefers_send e g.shared in
    let s' = (submit g.cfg ctx_done prefers_send e g.shared).1 in
    subst Orderly (some-injective _ _ h) (record {
      some_worker = v.some_worker;
      leaves = All-Leaves g.shared s' g.workers m v.leaves;
      nothing_given_up = k v.nothing_given_up;
    })
step-Orderly (works i act) g g' h v =
    after_work-Orderly g g' (work_at g.cfg i act g.workers g.shared)
      (work_at-MovesAll g.cfg i act g.workers g.shared) h v
step-Orderly cancels g g' h v = subst Orderly (some-injective _ _ h) (record {
  some_worker = v.some_worker;
  leaves =
      All-Leaves g.shared (record (g.shared) { is_cancelled = true }) g.workers (λ m. inl refl)
        v.leaves;
  nothing_given_up = inl refl;
})
step-Orderly stops g g' h v = subst Orderly (some-injective _ _ h) (record {
  some_worker = v.some_worker;
  leaves = All-Leaves g.shared (record (g.shared) { closed = true }) g.workers close v.leaves;
  nothing_given_up = v.nothing_given_up;
})
  where
    close : MayLeave g.shared → MayLeave (record (g.shared) { closed = true })
    close (inl c) = inl c
    close (inr (c, q)) = inr (refl, q)

pub run-Orderly :
    (events : List Event) (g g' : Ingester) → run events g ≡ some g' → Orderly g → Orderly g'
unfolding run
run-Orderly [] g g' h v = subst Orderly (some-injective _ _ h) v
run-Orderly (e ∷ events) g g' h v = elim (Option-cases (step e g)) [
  | inl n ↦ absurd (ground arith)
  | inr (g1, s) ↦ run-Orderly events g1 g' (ground arith) (step-Orderly e g g1 s v)
]

repeat-Leaves : (n : ℕ) (s : Shared) → All (Leaves s) (repeat n (collecting []))
unfolding repeat
repeat-Leaves zero s = tt
repeat-Leaves (suc n) s = ((λ h. absurd cc), repeat-Leaves n s)

pub length-repeat : (n : ℕ) (w : Worker) → length (repeat n w) ≡ n
unfolding repeat
length-repeat zero w = refl
length-repeat (suc n) w = ap suc (length-repeat n w)

pub or_default-pos : (v : ℤ) (n : ℕ) → 0 < n → 0 < pos_part (or_default v (pos n))
or_default-pos (pos k) n h = ground arith
or_default-pos (negsuc k) n h = ground arith

workers-pos : (cfg : Config) → 0 < pos_part (with_defaults cfg).workers
unfolding with_defaults
workers-pos cfg = or_default-pos cfg.workers 4 (omega arith)

pub start-Orderly : (cfg : Config) (table : LogTable) → Orderly (start cfg table)
unfolding start
start-Orderly cfg table = record {
  leaves = repeat-Leaves (pos_part (with_defaults cfg).workers) (start cfg table).shared;
  some_worker =
      subst (λ k. 0 < k)
        (sym (length-repeat (pos_part (with_defaults cfg).workers) (collecting [])))
        (workers-pos cfg);
  nothing_given_up = inr refl;
}
