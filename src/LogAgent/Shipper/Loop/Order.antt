-- ===== src/LogAgent/Shipper/Loop/Order.antt =====
-- About `Run` of internal/logagent/shipper.go: the order of what it ships, and the positions.
use crm_beginner.Base.Int.{ℤ, pos, leb_ℤ, pos_part}
use crm_beginner.Base.{
  ◌≡◌, inl, inr, refl, sym, ap, ◌∙◌, subst, Bool, true, false, not, ◌&&◌, Option, none, some, List,
  [], ◌∷◌, ◌++◌, if◌then◌else◌, length, arith, Bool-cases, Option-cases, append_assoc, All, ltb,
}
use mathlib.Core.Option.{some-injective}
use crm_beginner.LogAgent.Positions.{Position, Saved, get, Codec, Saving}
use crm_beginner.LogAgent.Shipper.Delivery.{last_position, or_old}
use crm_beginner.LogAgent.Shipper.Loop.{
  Loop, start, Event, arrives, retains, closes, cancels, reports, receives, ticks, sees_close,
  after_flush, flush_batch, receive, tick, finish, go_on, arrive, step, run,
}
use crm_beginner.LogAgent.Shipper.Loop.Flushes.{
  Ends, flush_from-Ends, final-Recorded, last_position-append, or_old_assoc, get-retain,
}
use crm_beginner.LogAgent.Shipper.{
  Shipper, Call, Attempt, Flushed, delivered, abandoned, retrying, is_receipt, flush, final,
  initial_retry_backoff,
}
use crm_beginner.LogAgent.Tailer.{Entry}
use crm_beginner.Text.{Bytes}

-- The tailer does not forget `file`.
abbrev pub KeepsFile : Bytes → Event → Type 0
KeepsFile file (retains keep) = keep file ≡ true
KeepsFile file _ = Unit

-- Unless a batch has been abandoned, what arrived is what was shipped, then the batch, then the
-- channel; and the position of `file` is that of its last entry that was shipped.
pub record Accounts (file : Bytes) (old : Option Position) (l : Loop) : Type 0 where
  pub in_order : l.arrived ≡ l.shipped_entries ++ (l.batch ++ l.queue)
  pub recorded : get file l.shipper.positions ≡ or_old (last_position file l.shipped_entries) old

abbrev pub InOrder : Bytes → Option Position → Loop → Type 0
InOrder file old l = l.dropped ≡ [] → Accounts file old l

abbrev pub Leads : (Loop → Type 0) → Option Loop → Type 0
Leads P none = Unit
Leads P (some l) = P l

pub Leads-if :
    (P : Loop → Type 0) (b : Bool) (x y : Option Loop)
    → Leads P x
    → Leads P y
    → Leads P (if b then x else y)
Leads-if P true x y h k = h
Leads-if P false x y h k = k

append-nil_left : (xs ys : List Entry) → xs ++ ys ≡ [] → xs ≡ []
append-nil_left [] ys h = refl
append-nil_left (x ∷ xs) ys h = absurd cc

append-nil_right : (xs ys : List Entry) → xs ++ ys ≡ [] → ys ≡ []
append-nil_right [] ys h = h
append-nil_right (x ∷ xs) ys h = absurd cc

module _ (codec : Codec) (batch_size : ℤ) (file : Bytes) (old : Option Position) where
  -- Shipping the batch.
  ships :
      (l : Loop) (positions : Saved)
      → get file positions ≡ or_old (last_position file l.batch) (get file l.shipper.positions)
      → Accounts file old l
      → (l.arrived ≡ (l.shipped_entries ++ l.batch) ++ l.queue)
        × (get file positions ≡ or_old (last_position file (l.shipped_entries ++ l.batch)) old)
  ships l positions h v = (
    v.in_order ∙ sym (append_assoc l.shipped_entries l.batch l.queue),
    h
        ∙ ap (or_old (last_position file l.batch)) v.recorded
        ∙ or_old_assoc (last_position file l.batch) (last_position file l.shipped_entries) old
        ∙ ap (λ p. or_old p old) (sym (last_position-append file l.shipped_entries l.batch)),
  )

  after_flush-InOrder :
      (l : Loop) (r : Flushed × Shipper)
      → Ends file l.batch l.shipper r
      → InOrder file old l
      → Leads (InOrder file old) (after_flush codec batch_size l r)
  unfolding after_flush
  after_flush-InOrder l (delivered, s) h v =
      λ d. let w = ships l s.positions h (v d) in record { in_order = w.0; recorded = w.1 }
  after_flush-InOrder l (abandoned, s) h v = λ d.
      let w = v (append-nil_left l.dropped l.batch d) in
      record {
        in_order =
            w.in_order
            ∙ ap (λ b. l.shipped_entries ++ (b ++ l.queue)) (append-nil_right l.dropped l.batch d);
        recorded = ap (λ (x : Shipper). get file x.positions) h ∙ w.recorded;
      }
  after_flush-InOrder l (retrying backoff, s) h v = tt

  flush_batch-InOrder :
      (attempts : List Attempt) (l : Loop)
      → InOrder file old l
      → Leads (InOrder file old) (flush_batch codec batch_size attempts l)
  unfolding flush_batch flush
  flush_batch-InOrder attempts l v =
      after_flush-InOrder l (flush codec attempts l.batch l.shipper)
        (flush_from-Ends codec initial_retry_backoff attempts file l.batch l.shipper) v

  receive-InOrder :
      (attempts : List Attempt) (queue : List Entry) (l : Loop)
      → l.queue ≡ queue
      → InOrder file old l
      → Leads (InOrder file old) (receive codec batch_size attempts queue l)
  unfolding receive
  receive-InOrder attempts [] l q v = tt
  receive-InOrder attempts (e ∷ rest) l q v =
      let l' = record l { batch = l.batch ++ (e ∷ []); queue = rest } in
      let v' : InOrder file old l' = λ d. record {
        in_order =
            (v d).in_order
            ∙ ap (λ x. l.shipped_entries ++ (l.batch ++ x)) q
            ∙ ap (λ x. l.shipped_entries ++ x) (sym (append_assoc l.batch (e ∷ []) rest));
        recorded = (v d).recorded;
      } in
      elim (Bool-cases (leb_ℤ batch_size (pos (length l'.batch)) && not l'.is_cancelled)) [
        | inl full ↦ rw full (flush_batch-InOrder attempts l' v')
        | inr room ↦ rw room v'
      ]

  tick-InOrder :
      (attempts : List Attempt) (batch : List Entry) (l : Loop)
      → InOrder file old l
      → Leads (InOrder file old) (tick codec batch_size attempts batch l)
  unfolding tick
  tick-InOrder attempts [] l v = v
  tick-InOrder attempts (e ∷ batch) l v =
      Leads-if (InOrder file old) (not l.is_cancelled) (flush_batch codec batch_size attempts l)
        (some l) (flush_batch-InOrder attempts l v) v

  finish-InOrder :
      (call : Call) (saving : Saving) (queue : List Entry) (l : Loop)
      → InOrder file old l
      → Leads (InOrder file old) (finish codec batch_size call saving queue l)
  unfolding finish
  finish-InOrder call saving (e ∷ queue) l v = tt
  finish-InOrder call saving [] l v =
      Leads-if (InOrder file old) l.closed _ none
        (λ d.
          by_receipt (v d) (is_receipt call)
            (final-Recorded codec call saving file l.batch l.shipper))
        tt
    where
      by_receipt :
          Accounts file old l
          → (b : Bool)
          → get file (final codec call saving l.batch l.shipper).positions ≡ (
              if b
              then or_old (last_position file l.batch) (get file l.shipper.positions)
              else get file l.shipper.positions)
          → Accounts file old (record l {
            has_returned = true;
            shipper = final codec call saving l.batch l.shipper;
            batch = if b then [] else l.batch;
            shipped_entries = if b then l.shipped_entries ++ l.batch else l.shipped_entries;
          })
      by_receipt w true h =
          let x = ships l (final codec call saving l.batch l.shipper).positions h w in
          record { in_order = x.0; recorded = x.1 }
      by_receipt w false h = record { in_order = w.in_order; recorded = h ∙ w.recorded }

  go_on-InOrder :
      (e : Event) (l : Loop)
      → InOrder file old l
      → Leads (InOrder file old) (go_on codec batch_size e l)
  unfolding go_on
  go_on-InOrder (receives attempts) l v = receive-InOrder attempts l.queue l refl v
  go_on-InOrder (ticks attempts) l v = tick-InOrder attempts l.batch l v
  go_on-InOrder reports l v = λ d. record { in_order = (v d).in_order; recorded = (v d).recorded }
  go_on-InOrder (sees_close call saving) l v = finish-InOrder call saving l.queue l v
  go_on-InOrder _ l v = tt

  pub step-InOrder :
      (e : Event) (l : Loop)
      → KeepsFile file e
      → InOrder file old l
      → Leads (InOrder file old) (step codec batch_size e l)
  unfolding step arrive
  step-InOrder (arrives e) l k v =
      Leads-if (InOrder file old) (not l.closed && ltb (length l.queue) (pos_part batch_size)) _
        none
        (λ d. record {
          in_order =
              ap (λ x. x ++ (e ∷ [])) (v d).in_order
              ∙ append_assoc l.shipped_entries (l.batch ++ l.queue) (e ∷ [])
              ∙ ap (λ x. l.shipped_entries ++ x) (append_assoc l.batch l.queue (e ∷ []));
          recorded = (v d).recorded;
        })
        tt
  step-InOrder (retains keep) l k v = λ d. record {
    in_order = (v d).in_order;
    recorded = get-retain keep file l.shipper.positions k ∙ (v d).recorded;
  }
  step-InOrder closes l k v = λ d. record { in_order = (v d).in_order; recorded = (v d).recorded }
  step-InOrder cancels l k v = λ d. record { in_order = (v d).in_order; recorded = (v d).recorded }
  step-InOrder (receives attempts) l k v =
      Leads-if (InOrder file old) l.has_returned none _ tt (go_on-InOrder (receives attempts) l v)
  step-InOrder (ticks attempts) l k v =
      Leads-if (InOrder file old) l.has_returned none _ tt (go_on-InOrder (ticks attempts) l v)
  step-InOrder reports l k v =
      Leads-if (InOrder file old) l.has_returned none _ tt (go_on-InOrder reports l v)
  step-InOrder (sees_close call saving) l k v =
      Leads-if (InOrder file old) l.has_returned none _ tt
        (go_on-InOrder (sees_close call saving) l v)

  run-InOrder :
      (events : List Event) (l l' : Loop)
      → All (KeepsFile file) events
      → InOrder file old l
      → run codec batch_size events l ≡ some l'
      → InOrder file old l'
  unfolding run
  run-InOrder [] l l' k v h = subst (InOrder file old) (some-injective _ _ h) v
  run-InOrder (e ∷ events) l l' (k, ks) v h = elim (Option-cases (step codec batch_size e l)) [
    | inl n ↦ absurd (ground arith)
    | inr (l1, s) ↦
        run-InOrder events l1 l' ks (subst (Leads (InOrder file old)) s (step-InOrder e l k v))
          (ground arith)
  ]

-- From the start of `Run`, in every sequence of events in which no flush is abandoned and the tailer
-- does not forget `file`: the entries that were sent into the channel are, in order, those that were
-- shipped with a receipt, then those of the batch, then those of the channel; and the recorded
-- position of `file` is that of its last entry that was shipped, or the old one if none was.
pub run-Accounts :
    (codec : Codec) (batch_size : ℤ) (file : Bytes) (events : List Event) (s : Shipper) (l : Loop)
    → All (KeepsFile file) events
    → run codec batch_size events (start s) ≡ some l
    → l.dropped ≡ []
    → Accounts file (get file s.positions) l
unfolding start
run-Accounts codec batch_size file events s l k h =
    run-InOrder codec batch_size file (get file s.positions) events (start s) l k
      (λ d. record { in_order = refl; recorded = refl }) h
