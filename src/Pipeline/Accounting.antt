-- ===== src/Pipeline/Accounting.antt =====
-- About the pipeline of logs: what a flush makes certain on both sides.
use crm_beginner.Base.{
  ℕ, suc, ◌+◌, ◌≤◌, ◌≡◌, ◌∙◌, subst, ap, inl, inr, refl, Bool, false, Option, none, some, List, [],
  ◌∷◌, length, map, take, arith, All, Bool-cases,
}
use crm_beginner.Domain.{Error, LogEntry, sentinel, eof}
use crm_beginner.Grpc.Logs
use crm_beginner.Grpc.Logs.Kinds.{converted, Accounted, ingest_logs-Accounted}
use crm_beginner.Grpc.Logs.{Received, Ended, entry_of, ingest_logs}
use crm_beginner.Ingest.Counts.{count}
use crm_beginner.Ingest.NoLoss.{total}
use crm_beginner.Ingest.Submitter.{Caller, ingester}
use crm_beginner.Ingest.{Ingester}
use crm_beginner.LogAgent.Positions.{Codec}
use crm_beginner.LogAgent.Shipper.Delivery.{send-receipt}
use crm_beginner.LogAgent.Shipper.{
  Call, not_opened, breaks, unanswered, summary, send, is_receipt, Flushed, delivered, Shipper,
  next_backoff, flush_from, flush, initial_retry_backoff,
}
use crm_beginner.LogAgent.Tailer.{Entry, WireEntry}
use crm_beginner.Pipeline.{
  Fate, refuses, cuts, loses_reply, delivers, Try, received, answer, Outcome, receipt_of, exchange,
  after_try, outcome,
}
use crm_beginner.Postgres.Logs.{Columns}
use crm_beginner.Text.{Bytes}

length-map_entries : (batch : List Entry) → length (map (λ (x : Entry). x.log) batch) ≡ length batch
length-map_entries [] = refl
length-map_entries (x ∷ batch) = ap suc (length-map_entries batch)

module _ (parse_time : Bytes → Option ℕ) where
  -- The server can read the time of the message.
  abbrev pub IsDated : WireEntry → Type 0
  IsDated x = (t : ℕ) × (parse_time x.timestamp ≡ some t)

  -- The log entry that the server makes of a message whose time it can read.
  abbrev pub log_entries : List WireEntry → List LogEntry
  log_entries xs = map (entry_of parse_time 0) xs

  converted-received :
      (meets : ℕ → Caller × ℕ) (i : ℕ) (xs : List WireEntry)
      → All IsDated xs
      → converted parse_time (received meets i xs) ≡ log_entries xs
  unfolding received
  converted-received meets i [] a = refl
  converted-received meets i (x ∷ xs) ((t, h), a) =
      ap (λ z. z ∷ converted parse_time (received meets (suc i) xs)) (rw h refl)
      ∙ ap (λ z. entry_of parse_time 0 x ∷ z) (converted-received meets (suc i) xs a)

  length-received :
      (meets : ℕ → Caller × ℕ) (i : ℕ) (xs : List WireEntry)
      → length (received meets i xs) ≡ length xs
  unfolding received
  length-received meets i [] = refl
  length-received meets i (x ∷ xs) = ap suc (length-received meets (suc i) xs)

  module _ (p : Columns → Bool) where
    -- What a call makes certain, as the agent sees it.
    abbrev CallAccounted : ℕ → ℕ → Ingester → Call × Ingester → Type 0
    CallAccounted messages n g (summary m, g') =
        (total p g ≤ total p g') × (total p g + n + m ≤ total p g' + messages) × (m ≤ messages)
    CallAccounted messages n g (_, g') = total p g ≤ total p g'

    keeps-total :
        (messages n : ℕ) (g : Ingester) (r : Ended × Ingester)
        → Accounted p parse_time 0 messages n g r
        → total p g ≤ total p r.1
    keeps-total messages n g (Logs.summary m c, g') a = a.0
    keeps-total messages n g (Logs.failed e, g') a = a
    keeps-total messages n g (Logs.submit_panics, g') a = a

    answer-CallAccounted :
        (messages n : ℕ) (seen : Error) (g : Ingester) (r : Ended × Ingester)
        → Accounted p parse_time 0 messages n g r
        → CallAccounted messages n g (answer seen r.0, r.1)
    unfolding answer
    answer-CallAccounted messages n seen g (Logs.summary m none, g') (x, y, z) =
        (x, omega arith, omega arith)
    answer-CallAccounted messages n seen g (Logs.summary m (some e), g') (x, y, z) = x
    answer-CallAccounted messages n seen g (Logs.failed e, g') a = a
    answer-CallAccounted messages n seen g (Logs.submit_panics, g') a = a

    exchange-CallAccounted :
        (meets : ℕ → Caller × ℕ) (fate : Fate) (xs : List WireEntry) (g : Ingester)
        → All IsDated xs
        → CallAccounted
            (length xs)
            (count p (log_entries xs))
            g
            (exchange parse_time meets fate xs g)
    unfolding exchange
    exchange-CallAccounted meets (refuses e) xs g a = omega arith
    exchange-CallAccounted meets (cuts sent e close_error got recv_error) xs g a =
        keeps-total _ _ g _
          (ingest_logs-Accounted p parse_time (received meets 0 (take got xs)) recv_error none g)
    exchange-CallAccounted meets (loses_reply e) xs g a =
        keeps-total _ _ g _
          (ingest_logs-Accounted p parse_time (received meets 0 xs) (sentinel eof) none g)
    exchange-CallAccounted meets (delivers seen) xs g a =
        let r = ingest_logs parse_time ingester (received meets 0 xs) (sentinel eof) none g in
        answer-CallAccounted (length xs) (count p (log_entries xs)) seen g r (
          subst (λ l. Accounted p parse_time 0 l (count p (log_entries xs)) g r)
            (length-received meets 0 xs)
            (subst (λ es. Accounted p parse_time 0 (length (received meets 0 xs)) (count p es) g r)
              (converted-received meets 0 xs a)
              (ingest_logs-Accounted p parse_time (received meets 0 xs) (sentinel eof) none g)))

    -- What a flush makes certain: without a receipt, that the shipper is as before; with one, that the
    -- flush ends, and that all but the messages which it does not count are in the pipeline.
    abbrev pub Shipped :
        List Entry → Shipper → Ingester → Option ℕ → Ingester → Flushed × Shipper → Type 0
    Shipped batch s g none g' r = (r.1 ≡ s) × (total p g ≤ total p g')
    Shipped batch s g (some n) g' r =
        (r.0 ≡ delivered)
        × (n ≤ length batch)
        × (total p g + count p (log_entries (map (λ (x : Entry). x.log) batch)) + n
            ≤ total p g' + length batch)

    Shipped-before :
        (batch : List Entry) (s : Shipper) (g g1 : Ingester) (receipt : Option ℕ) (g' : Ingester)
        (r : Flushed × Shipper)
        → total p g ≤ total p g1
        → Shipped batch s g1 receipt g' r
        → Shipped batch s g receipt g' r
    Shipped-before batch s g g1 none g' r h (x, y) = (x, omega arith)
    Shipped-before batch s g g1 (some n) g' r h (x, y, z) = (x, y, omega arith)

    -- A flush over the attempts of an outcome.
    abbrev Flushes : Codec → ℕ → List Entry → Shipper → Ingester → Outcome → Type 0
    Flushes codec backoff batch s g o =
        Shipped batch s g o.receipt o.ingester (flush_from codec backoff o.attempts batch s)

    no_receipt-Flushes :
        (codec : Codec) (backoff : ℕ) (t : Try) (call : Call) (batch : List Entry) (s : Shipper)
        (g g1 : Ingester) (rest : Outcome)
        → is_receipt call ≡ false
        → receipt_of call ≡ none
        → total p g ≤ total p g1
        → Flushes codec (next_backoff backoff) batch s g1 rest
        → Flushes codec backoff batch s g (after_try parse_time t (call, g1) rest)
    unfolding after_try flush_from
    no_receipt-Flushes codec backoff t call batch s g g1 rest unmet none_there grown later =
        elim (send-receipt call batch) [
          | inl (met, n, h) ↦ absurd (cc)
          | inr (unmet', e, h) ↦ elim (Bool-cases t.ctx_done) [
            | inl d ↦ rw (after_try, unmet, d, none_there, flush_from, h) (refl, grown)
            | inr d ↦
                rw (after_try, unmet, d, flush_from, h)
                  (Shipped-before batch s g g1 rest.receipt rest.ingester _ grown later)
          ]
        ]

    after_try-Flushes :
        (codec : Codec) (backoff : ℕ) (t : Try) (call : Call) (batch : List Entry) (s : Shipper)
        (g g1 : Ingester) (rest : Outcome)
        → CallAccounted
            (length (map (λ (x : Entry). x.log) batch))
            (count p (log_entries (map (λ (x : Entry). x.log) batch)))
            g
            (call, g1)
        → Flushes codec (next_backoff backoff) batch s g1 rest
        → Flushes codec backoff batch s g (after_try parse_time t (call, g1) rest)
    unfolding after_try receipt_of flush_from send
    after_try-Flushes codec backoff t (summary n) batch s g g1 rest (x, y, z) later =
        let same = length-map_entries batch in (refl, omega arith, omega arith)
    after_try-Flushes codec backoff t (not_opened e) batch s g g1 rest a later =
        no_receipt-Flushes codec backoff t (not_opened e) batch s g g1 rest refl refl a later
    after_try-Flushes codec backoff t (breaks n e c) batch s g g1 rest a later =
        no_receipt-Flushes codec backoff t (breaks n e c) batch s g g1 rest refl refl a later
    after_try-Flushes codec backoff t (unanswered e) batch s g g1 rest a later =
        no_receipt-Flushes codec backoff t (unanswered e) batch s g g1 rest refl refl a later

    outcome-Flushes :
        (codec : Codec) (backoff : ℕ) (tries : List Try) (batch : List Entry) (s : Shipper)
        (g : Ingester)
        → All IsDated (map (λ (x : Entry). x.log) batch)
        → Flushes codec backoff batch s g (outcome parse_time tries batch g)
    unfolding outcome flush_from
    outcome-Flushes codec backoff [] batch s g a = (refl, omega arith)
    outcome-Flushes codec backoff (t ∷ tries) batch s g a =
        let logs = map (λ (x : Entry). x.log) batch in
        let r = exchange parse_time t.meets t.fate logs g in
        after_try-Flushes codec backoff t r.0 batch s g r.1 (outcome parse_time tries batch r.1)
          (exchange-CallAccounted t.meets t.fate logs g a)
          (outcome-Flushes codec (next_backoff backoff) tries batch s r.1 a)

-- A flush whose calls run `IngestLogs` over the ingester, whatever the connection does to each of
-- them and whatever happens at the server meanwhile, if the server can read the times of the batch:
-- without a receipt, the shipper's positions and counts are as before. With a receipt of `n`, the
-- flush ends delivered, `n` is at most the length of the batch, and for any kind of entries the
-- server's pipeline holds all of the batch's entries of the kind more than before the flush, less at
-- most as many as the receipt does not count.
pub outcome-Shipped :
    (parse_time : Bytes → Option ℕ) (p : Columns → Bool) (codec : Codec) (tries : List Try)
    (batch : List Entry) (s : Shipper) (g : Ingester)
    → All (IsDated parse_time) (map (λ (x : Entry). x.log) batch)
    → let o = outcome parse_time tries batch g in
      Shipped parse_time p batch s g o.receipt o.ingester (flush codec o.attempts batch s)
unfolding flush
outcome-Shipped parse_time p codec tries batch s g a =
    outcome-Flushes parse_time p codec initial_retry_backoff tries batch s g a
