-- ===== src/Ingest/Order/Runs.antt =====
-- About internal/ingest/ingester.go with one worker: the order of the entries.
use mathlib.Core.Option.{some-injective}
use mathlib.Core.List.{map-append}
use mathlib.Core.Option
use crm_beginner.Base.Int.{pos_part}
use crm_beginner.Base.{
  ap, ℕ, zero, suc, ◌≡◌, ◌∙◌, sym, refl, subst, Bool, true, false, Option, none, some, List, [],
  ◌∷◌, ◌++◌, append-nil, append_assoc, map, if◌then◌else◌, arith, All, length, Option-cases,
  Bool-cases, inl, inr,
}
use crm_beginner.Domain.{LogEntry}
use crm_beginner.Ingest.NoLoss.{is_accepted}
use crm_beginner.Ingest.Once.{IsAnswered, AnswersEvent}
use crm_beginner.Ingest.{
  Config, Worker, collecting, Shared, Ingester, Event, submits, works, cancels, stops, Act, submit,
  work, work_at, step, run, after_work, start, with_defaults, repeat,
}
use crm_beginner.Postgres.Logs.{LogTable, columns_of}
use crm_beginner.Ingest.Orderly.{length-repeat}
use crm_beginner.Ingest.Order.{batch_of, batches, stored, line, pipeline, InOrder, work-InOrder}

-- The entries that `Submit` accepts in a schedule, in order.
abbrev entering : Event → Ingester → List LogEntry
entering (submits ctx_done prefers_send e) g =
    if is_accepted (submit g.cfg ctx_done prefers_send e g.shared).0 then e ∷ [] else []
entering _ g = []

unfoldable pub taken_in : List Event → Ingester → List LogEntry
taken_in [] g = []
taken_in (e ∷ events) g =
    entering e g ++ (elim (step e g) [ none ↦ [] | some g' ↦ taken_in events g' ])

-- What an event makes of an ingester with one worker.
record Appends (g g' : Ingester) (more : List LogEntry) : Type 0 where
  one : length g'.workers ≡ 1
  ended : g.shared.is_cancelled ≡ true → g'.shared.is_cancelled ≡ true
  longer : g'.shared.is_cancelled ≡ false → pipeline g' ≡ pipeline g ++ map columns_of more

submit_adds :
    (cfg : Config) (ctx_done prefers_send : Bool) (e : LogEntry) (s : Shared)
    → let r = submit cfg ctx_done prefers_send e s in
      (r.1.table ≡ s.table) × (r.1.queue ≡ s.queue ++ (if is_accepted r.0 then e ∷ [] else []))
unfolding submit
submit_adds cfg ctx_done prefers_send e s = (ground arith, ground (arith, append-nil s.queue))

submit-line :
    (cfg : Config) (ctx_done prefers_send : Bool) (e : LogEntry) (held : List LogEntry) (s : Shared)
    → let r = submit cfg ctx_done prefers_send e s in
      line held r.1 ≡ line held s ++ map columns_of (if is_accepted r.0 then e ∷ [] else [])
submit-line cfg ctx_done prefers_send e held s =
    let (same, more) = submit_adds cfg ctx_done prefers_send e s in
    let new = if is_accepted (submit cfg ctx_done prefers_send e s).0 then e ∷ [] else [] in
    ap (λ t. stored t ++ map columns_of (held ++ (submit cfg ctx_done prefers_send e s).1.queue))
      same
    ∙ ap (λ q. stored s.table ++ map columns_of (held ++ q)) more
    ∙ ap (λ z. stored s.table ++ map columns_of z) (sym (append_assoc held s.queue new))
    ∙ ap (λ z. stored s.table ++ z) (map-append columns_of (held ++ s.queue) new)
    ∙ sym (append_assoc (stored s.table) (map columns_of (held ++ s.queue)) (map columns_of new))

submit-cancelled :
    (cfg : Config) (ctx_done prefers_send : Bool) (e : LogEntry) (s : Shared)
    → (submit cfg ctx_done prefers_send e s).1.is_cancelled ≡ s.is_cancelled
unfolding submit
submit-cancelled cfg ctx_done prefers_send e s = ground arith

work-Appends :
    (w : Worker) (g g' : Ingester) (o : Option (Worker × Shared))
    → g.workers ≡ w ∷ []
    → InOrder g.shared.is_cancelled (line (batch_of w) g.shared) o
    → after_work g (Option.map (λ r. (r.0 ∷ [], r.1)) o) ≡ some g'
    → Appends g g' []
unfolding after_work
work-Appends w g g' none here o h = absurd cc
work-Appends w g g' (some (w', s')) here (same, kept) h =
    subst (λ z. Appends g z []) (some-injective _ _ h)
      (record {
        one = refl;
        ended = λ c. same ∙ c;
        longer = λ c.
            ap (λ z. line z s') (append-nil (batch_of w'))
            ∙ kept (sym same ∙ c)
            ∙ ap (λ z. line z g.shared) (sym (append-nil (batch_of w)))
            ∙ ap (λ z. line (batches z) g.shared) (sym here)
            ∙ sym (append-nil _);
      })

work_at-Appends :
    (i : ℕ) (act : Act) (ws : List Worker) (g g' : Ingester)
    → g.workers ≡ ws
    → length ws ≡ 1
    → IsAnswered act
    → after_work g (work_at g.cfg i act ws g.shared) ≡ some g'
    → Appends g g' []
unfolding after_work work_at
work_at-Appends i act [] g g' here n a h = absurd (omega arith)
work_at-Appends i act (w ∷ w2 ∷ ws) g g' here n a h = absurd (omega arith)
work_at-Appends zero act (w ∷ []) g g' here n a h =
    work-Appends w g g' (work g.cfg act w g.shared) here (work-InOrder g.cfg act w g.shared a) h
work_at-Appends (suc i) act (w ∷ []) g g' here n a h = absurd cc

step-Appends :
    (e : Event) (g g' : Ingester)
    → length g.workers ≡ 1
    → AnswersEvent e
    → step e g ≡ some g'
    → Appends g g' (entering e g)
unfolding step
step-Appends (submits ctx_done prefers_send e) g g' n a h =
    subst (λ z. Appends g z (entering (submits ctx_done prefers_send e) g)) (some-injective _ _ h)
      (record {
        one = n;
        ended = λ c. submit-cancelled g.cfg ctx_done prefers_send e g.shared ∙ c;
        longer = λ c. submit-line g.cfg ctx_done prefers_send e (batches g.workers) g.shared;
      })
step-Appends (works i act) g g' n a h = work_at-Appends i act g.workers g g' refl n a h
step-Appends cancels g g' n a h =
    subst (λ z. Appends g z []) (some-injective _ _ h)
      (record { one = n; ended = λ c. refl; longer = λ c. absurd cc })
step-Appends stops g g' n a h =
    subst (λ z. Appends g z []) (some-injective _ _ h)
      (record { one = n; ended = λ c. c; longer = λ c. sym (append-nil _) })

run-Appends :
    (events : List Event) (g g' : Ingester)
    → length g.workers ≡ 1
    → All AnswersEvent events
    → run events g ≡ some g'
    → Appends g g' (taken_in events g)
unfolding run taken_in
run-Appends [] g g' n a h =
    subst (λ z. Appends g z []) (some-injective _ _ h)
      (record { one = n; ended = λ c. c; longer = λ c. sym (append-nil _) })
run-Appends (e ∷ events) g g' n (a, more) h = elim (Option-cases (step e g)) [
  | inl stuck ↦ absurd (ground arith)
  | inr (g1, s) ↦
      let first = step-Appends e g g1 n a s in
      let later = run-Appends events g1 g' first.one more (ground arith) in
      rw (taken_in, s) (join e g g1 g' (taken_in events g1) first later)
]
  where
    join :
        (e : Event) (g g1 g' : Ingester) (es : List LogEntry)
        → Appends g g1 (entering e g)
        → Appends g1 g' es
        → Appends g g' (entering e g ++ es)
    join e g g1 g' es first later = record {
      one = later.one;
      ended = λ c. later.ended (first.ended c);
      longer = λ c. elim (Bool-cases g1.shared.is_cancelled) [
        | inl t ↦ absurd (cc (later.ended t))
        | inr f ↦
            later.longer c
            ∙ ap (λ z. z ++ map columns_of es) (first.longer f)
            ∙ append_assoc (pipeline g) (map columns_of (entering e g)) (map columns_of es)
            ∙ ap (λ z. pipeline g ++ z) (sym (map-append columns_of (entering e g) es))
      ];
    }

batches-repeat : (n : ℕ) → batches (repeat n (collecting [])) ≡ []
unfolding repeat
batches-repeat zero = refl
batches-repeat (suc n) = batches-repeat n

-- With one worker, in every schedule from `Start` in which no reply to an insert is lost and the
-- context is not cancelled: the table, then the worker's batch, then the queue, are the old table
-- and behind it the entries that `Submit` accepted, in the order in which it did. So the rows stand
-- in the order of the calls, however the worker cuts its batches and repeats its inserts.
pub run-pipeline :
    (cfg : Config) (table : LogTable) (events : List Event) (g : Ingester)
    → pos_part (with_defaults cfg).workers ≡ 1
    → All AnswersEvent events
    → run events (start cfg table) ≡ some g
    → g.shared.is_cancelled ≡ false
    → pipeline g ≡ stored table ++ map columns_of (taken_in events (start cfg table))
unfolding start
run-pipeline cfg table events g one answered h goes_on =
    let n = pos_part (with_defaults cfg).workers in
    let all =
      run-Appends events (start cfg table) g (length-repeat n (collecting []) ∙ one) answered h in
    all.longer goes_on
    ∙ ap
        (λ z.
          (stored table ++ map columns_of (z ++ []))
          ++ map columns_of (taken_in events (start cfg table)))
        (batches-repeat n)
    ∙ ap (λ z. z ++ map columns_of (taken_in events (start cfg table))) (append-nil (stored table))
