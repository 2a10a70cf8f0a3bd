-- ===== src/Grpc/Logs/Replies.antt =====
-- About `IngestLogs` of internal/adapter/grpc/log_handler.go: how it ends, by what `Submit` replies.
use crm_beginner.Base.{
  ℕ, suc, ◌+◌, ◌≡◌, ◌∙◌, ap, inl, inr, refl, Bool, true, false, any, Option, List, [], ◌∷◌,
  if◌then◌else◌, arith,
}
use crm_beginner.Domain.{Error, eof, error_is}
use crm_beginner.Grpc.Logs.Summary.{Reply-cases}
use crm_beginner.Grpc.Logs.{
  Received, Ended, summary, failed, submit_panics, entry_of, ingest_from, ingest_logs,
}
use crm_beginner.Ingest.NoLoss.{is_accepted}
use crm_beginner.Ingest.Submitter.{Submitter}
use crm_beginner.Ingest.{Reply, replied, panics}
use crm_beginner.Text.{Bytes}

abbrev pub is_panic : Reply → Bool
is_panic (replied r) = false
is_panic panics = true

-- The replies that are nil.
abbrev pub accepted_in : List Reply → ℕ
accepted_in [] = 0
accepted_in (r ∷ replies) = (if is_accepted r then 1 else 0) + accepted_in replies

-- The end that the replies of `Submit` and the error of `Recv` call for.
abbrev pub end_with : Bool → ℕ → Error → Option Error → Ended
end_with panicked n e close_error =
    if panicked then submit_panics else if error_is e eof then summary n close_error else failed e

abbrev pub end_by : List Reply → Error → Option Error → Ended
end_by replies = end_with (any is_panic replies) (accepted_in replies)

module _ {C S : Type 0} (parse_time : Bytes → Option ℕ) (sub : Submitter C S) where
  -- What `Submit` replies to the messages, one after another, up to a panic, and what it leaves.
  unfoldable pub replies_to : List (Received C) → S → List Reply × S
  replies_to [] s = ([], s)
  replies_to (r ∷ more) s =
      let (reply, s1) = sub.submit r.ctx (entry_of parse_time r.now r.req) s in
      let rest = replies_to more s1 in
      if is_panic reply then (reply ∷ [], s1) else (reply ∷ rest.0, rest.1)

  ingest_from-replies_to :
      (n : ℕ) (more : List (Received C)) (e : Error) (close_error : Option Error) (s : S)
      → let r = replies_to more s in
        ingest_from parse_time sub n more e close_error s
        ≡ (end_with (any is_panic r.0) (n + accepted_in r.0) e close_error, r.1)
  unfolding ingest_from replies_to
  ingest_from-replies_to n [] e close_error s =
      let same : n ≡ n + 0 = omega arith in ap (λ k. (end_with false k e close_error, s)) same
  ingest_from-replies_to n (r ∷ more) e close_error s =
      let entry = entry_of parse_time r.now r.req in
      let s1 = (sub.submit r.ctx entry s).1 in
      let rest = replies_to more s1 in
      let counted : suc n + accepted_in rest.0 ≡ n + (1 + accepted_in rest.0) = omega arith in
      let refused : n + accepted_in rest.0 ≡ n + (0 + accepted_in rest.0) = omega arith in
      elim (Reply-cases (sub.submit r.ctx entry s).0) [
        | inl (u, h) ↦
            rw (ingest_from, replies_to, h)
              (ingest_from-replies_to (suc n) more e close_error s1
                ∙ ap (λ k. (end_with (any is_panic rest.0) k e close_error, rest.1)) counted)
        | inr (inl (f, h)) ↦
            rw (ingest_from, replies_to, h)
              (ingest_from-replies_to n more e close_error s1
                ∙ ap (λ k. (end_with (any is_panic rest.0) k e close_error, rest.1)) refused)
        | inr (inr h) ↦ rw (ingest_from, replies_to, h) refl
      ]

  -- How `IngestLogs` ends, and what it leaves, is determined by what `Submit` replies to its messages,
  -- one after another: it ends by a panic if and only if `Submit` panics; else, behind the end of the
  -- stream, with a summary that counts exactly the messages to which `Submit` replied nil, and behind
  -- any other error of `Recv` with that error. No timestamp and no error of `Submit` ends it.
  pub ingest_logs-replies_to :
      (more : List (Received C)) (e : Error) (close_error : Option Error) (s : S)
      → let r = replies_to more s in
        ingest_logs parse_time sub more e close_error s ≡ (end_by r.0 e close_error, r.1)
  unfolding ingest_logs
  ingest_logs-replies_to more e close_error s =
      let r = replies_to more s in
      let same : 0 + accepted_in r.0 ≡ accepted_in r.0 = omega arith in
      ingest_from-replies_to 0 more e close_error s
      ∙ ap (λ k. (end_with (any is_panic r.0) k e close_error, r.1)) same
