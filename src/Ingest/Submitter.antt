-- ===== src/Ingest/Submitter.antt =====
-- The interface `Submitter` of internal/ingest/ingester.go, and the ingester as one.
use crm_beginner.Base.{
  ◌+◌, ◌≤◌, refl, Bool, none, some, List, arith, Option-cases, inl, inr, if◌then◌else◌, [], ◌∷◌,
}
use crm_beginner.Domain.{LogEntry}
use crm_beginner.Ingest.Counts.{count}
use crm_beginner.Ingest.NoLoss.{total, is_accepted, run-total, submit-count}
use crm_beginner.Ingest.Orderly.{Orderly, run-Orderly, step-Orderly}
use crm_beginner.Ingest.{Ingester, Event, submits, Reply, submit, run, step}
use crm_beginner.Postgres.Logs.{Columns}

-- A call takes its context, the entry and the state of the other side.
pub record Submitter (C S : Type 0) : Type 0 where
  pub submit : C → LogEntry → S → Reply × S

-- What a call of `Submit` meets: the events since the last one, whether its context is done, and
-- the choice of its `select`.
pub record Caller : Type 0 where
  pub meanwhile : List Event
  pub ctx_done : Bool
  pub prefers_send : Bool

-- Events that cannot happen leave the ingester as it is.
unfoldable pub go_on : List Event → Ingester → Ingester
go_on events g = elim (run events g) [ none ↦ g | some g' ↦ g' ]

unfoldable pub submit_later : Caller → LogEntry → Ingester → Reply × Ingester
unfolding go_on
submit_later c e g =
    let g' = go_on c.meanwhile g in
    let r = submit g'.cfg c.ctx_done c.prefers_send e g'.shared in (r.0, record g' { shared = r.1 })

abbrev pub ingester : Submitter Caller Ingester
ingester = record { submit = submit_later }

module _ (p : Columns → Bool) where
  go_on-total : (events : List Event) (g : Ingester) → total p g ≤ total p (go_on events g)
  unfolding go_on
  go_on-total events g = elim (Option-cases (run events g)) [
    | inl e ↦ rw (e, go_on) (omega arith)
    | inr (g', e) ↦ rw (e, go_on) (omega (arith, run-total p events g g' e))
  ]

  -- A call adds its entry to the pipeline if it is accepted.
  pub submit_later-total :
      (c : Caller) (e : LogEntry) (g : Ingester)
      → total p g + (if is_accepted (submit_later c e g).0 then count p (e ∷ []) else 0)
        ≤ total p (submit_later c e g).1
  unfolding submit_later
  submit_later-total c e g =
      let g' = go_on c.meanwhile g in
      omega (
        arith,
        go_on-total c.meanwhile g,
        submit-count p g'.cfg c.ctx_done c.prefers_send e g'.shared,
      )

pub go_on-Orderly : (events : List Event) (g : Ingester) → Orderly g → Orderly (go_on events g)
unfolding go_on
go_on-Orderly events g v = elim (Option-cases (run events g)) [
  | inl e ↦ rw (e, go_on) v
  | inr (g', e) ↦ rw (e, go_on) (run-Orderly events g g' e v)
]

pub submit_later-Orderly :
    (c : Caller) (e : LogEntry) (g : Ingester) → Orderly g → Orderly (submit_later c e g).1
unfolding submit_later step
submit_later-Orderly c e g v =
    step-Orderly (submits c.ctx_done c.prefers_send e) (go_on c.meanwhile g) _ refl
      (go_on-Orderly c.meanwhile g v)
