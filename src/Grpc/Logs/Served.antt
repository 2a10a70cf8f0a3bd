-- ===== src/Grpc/Logs/Served.antt =====
-- About `IngestLogs` of internal/adapter/grpc/log_handler.go behind the interceptors, over the
-- ingester.
use crm_beginner.Base.{
  ℕ, ◌≡◌, ◌∙◌, ap, inl, inr, refl, false, not, ◌&&◌, ◌||◌, any, Option, none, some, List, [], ◌∷◌,
  if◌then◌else◌, Result, ok, err, arith, All, Bool-cases,
}
use crm_beginner.Domain.{Error, LogEntry, eof, error_is}
use crm_beginner.Grpc.Interceptors.{
  HealthMethods, Outcome, returned, panicked, finished, is_health_check, chain,
}
use crm_beginner.Grpc.Logs.Replies.{
  is_panic, accepted_in, end_with, replies_to, ingest_logs-replies_to,
}
use crm_beginner.Grpc.Logs.{Received, Ended, summary, failed, submit_panics, entry_of, ingest_logs}
use crm_beginner.Grpc.Status.{Status}
use crm_beginner.Ingest.Closing.{is_stop, go_on-open}
use crm_beginner.Ingest.Submitter.{Caller, go_on, submit_later, ingester}
use crm_beginner.Ingest.{Ingester, submit}
use crm_beginner.Text.{Bytes}

-- What the interceptors see of the handler. `status_of` is the status that the library makes of an
-- error.
abbrev pub handled : (Error → Status) → Ended → Outcome (Unit {0})
handled status_of (summary n none) = returned (ok tt)
handled status_of (summary n (some e)) = returned (err (status_of e))
handled status_of (failed e) = returned (err (status_of e))
handled status_of submit_panics = panicked

-- The answer that the end of the stream calls for, and its status in the log.
abbrev pub answer : (Error → Status) → Error → Option Error → Result Status (Unit {0})
answer status_of e close_error =
    if error_is e eof
    then (elim close_error [ none ↦ ok tt | some f ↦ err (status_of f) ])
    else err (status_of e)

abbrev pub status_in : Result Status (Unit {0}) → Option Status
status_in (ok u) = none
status_in (err s) = some s

-- `Submit` panics if and only if the channel is closed by then and the `select` takes the send.
submit_later-panics :
    (c : Caller) (e : LogEntry) (g : Ingester)
    → is_panic (submit_later c e g).0
      ≡ ((go_on c.meanwhile g).shared.closed && (c.prefers_send || not c.ctx_done))
unfolding submit_later submit
submit_later-panics c e g = ground arith

submit_later-closed :
    (c : Caller) (e : LogEntry) (g : Ingester)
    → (submit_later c e g).1.shared.closed ≡ (go_on c.meanwhile g).shared.closed
unfolding submit_later submit
submit_later-closed c e g = ground arith

-- No call of `Stop` comes before a message.
abbrev pub NotStopped : Received Caller → Type 0
NotStopped r = any is_stop r.ctx.meanwhile ≡ false

module _ (parse_time : Bytes → Option ℕ) where
  replies_to-open :
      (more : List (Received Caller)) (g : Ingester)
      → g.shared.closed ≡ false
      → All NotStopped more
      → any is_panic (replies_to parse_time ingester more g).0 ≡ false
  unfolding replies_to
  replies_to-open [] g o a = refl
  replies_to-open (r ∷ more) g o (h, a) =
      let entry = entry_of parse_time r.now r.req in
      let still_open = go_on-open r.ctx.meanwhile g h o in
      let no_panic : is_panic (submit_later r.ctx entry g).0 ≡ false =
        submit_later-panics r.ctx entry g ∙ rw still_open refl in
      let later =
        replies_to-open more (submit_later r.ctx entry g).1
          (submit_later-closed r.ctx entry g ∙ still_open) a in
      rw (replies_to, no_panic) (rw (no_panic, later) refl)

  module _ (health : HealthMethods) (status_of : Error → Status) where
    handled-answer :
        (method : Bytes) (n : ℕ) (e : Error) (close_error : Option Error)
        → is_health_check health method ≡ false
        → chain health method (handled status_of (end_with false n e close_error)) ≡ (
          returned (answer status_of e close_error),
          finished method (status_in (answer status_of e close_error)) ∷ [],
        )
    unfolding chain
    handled-answer method n e none h = elim (Bool-cases (error_is e eof)) [
      | inl x ↦ rw (x, chain, h) refl
      | inr x ↦ rw (x, chain) refl
    ]
    handled-answer method n e (some f) h = elim (Bool-cases (error_is e eof)) [
      | inl x ↦ rw (x, chain) refl
      | inr x ↦ rw (x, chain) refl
    ]

    -- While the ingester has not been stopped, no call of `IngestLogs` panics, whatever its messages
    -- and whatever happens at the ingester meanwhile: behind the interceptors it is answered as the end
    -- of its stream says, with OK if the client has closed it and the summary could be sent and else
    -- with the status of the error, and the log has one line with that status.
    pub chain-open :
        (method : Bytes) (more : List (Received Caller)) (e : Error) (close_error : Option Error)
        (g : Ingester)
        → is_health_check health method ≡ false
        → g.shared.closed ≡ false
        → All NotStopped more
        → chain health method
            (handled status_of (ingest_logs parse_time ingester more e close_error g).0)
          ≡ (
            returned (answer status_of e close_error),
            finished method (status_in (answer status_of e close_error)) ∷ [],
          )
    chain-open method more e close_error g h o a =
        let r = replies_to parse_time ingester more g in
        ap (λ x. chain health method (handled status_of x.0))
          (ingest_logs-replies_to parse_time ingester more e close_error g)
        ∙ ap
            (λ b.
              chain health method (handled status_of (end_with b (accepted_in r.0) e close_error)))
            (replies_to-open more g o a)
        ∙ handled-answer method (accepted_in r.0) e close_error h
