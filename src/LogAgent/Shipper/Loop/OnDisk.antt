-- ===== src/LogAgent/Shipper/Loop/OnDisk.antt =====
-- About `Run` of internal/logagent/shipper.go: what the positions file holds meanwhile.
use crm_beginner.Base.Int.{ℤ, pos, pos_part, leb_ℤ}
use crm_beginner.Base.{
  ℕ, ◌≡◌, ◌⊎◌, ◌∙◌, inl, inr, refl, sym, ap, subst, not, ◌&&◌, Option, none, some, List, [], ◌∷◌,
  ◌++◌, if◌then◌else◌, length, ltb, ok, arith, All, Bool-cases, Option-cases, append-nil,
  append_assoc,
}
use mathlib.Core.Option.{some-injective}
use crm_beginner.LogAgent.Positions.Laws.{load-save}
use crm_beginner.LogAgent.Positions.{
  Position, Saved, get, Codec, Saving, no_directory, partly_written, not_renamed, saves, load,
}
use crm_beginner.LogAgent.Shipper.Delivery.{last_position, or_old, send-receipt}
use crm_beginner.LogAgent.Shipper.Loop.{
  Loop, start, Event, arrives, retains, closes, cancels, reports, receives, ticks, sees_close,
  after_flush, flush_batch, receive, tick, finish, go_on, arrive, step, run,
}
use crm_beginner.LogAgent.Shipper.Loop.Order.{InOrder, KeepsFile, Leads, Leads-if, step-InOrder}
use crm_beginner.LogAgent.Shipper.{
  Shipper, Call, Attempt, Flushed, delivered, abandoned, retrying, is_receipt, commit, flush_from,
  flush, final, next_backoff, initial_retry_backoff,
}
use crm_beginner.LogAgent.Tailer.{Entry}
use crm_beginner.Text.{Bytes}

module _ (codec : Codec) where
  -- The file holds the shipper's positions, or what it held before.
  abbrev Saves : Shipper → Shipper → Type 0
  Saves s s' =
      (load codec none s'.disk ≡ ok s'.positions)
      ⊎ (load codec none s'.disk ≡ load codec none s.disk)

  commit-Saves :
      (saving : Saving) (batch : List Entry) (s : Shipper) → Saves s (commit codec saving batch s)
  unfolding commit
  commit-Saves (no_directory e) batch s = inr (load-save codec (no_directory e) _ s.disk)
  commit-Saves (partly_written part e) batch s =
      inr (load-save codec (partly_written part e) _ s.disk)
  commit-Saves (not_renamed e) batch s = inr (load-save codec (not_renamed e) _ s.disk)
  commit-Saves saves batch s = inl (load-save codec saves _ s.disk)

  abbrev Flushes : Shipper → Flushed × Shipper → Type 0
  Flushes s (delivered, s') = Saves s s'
  Flushes s (abandoned, s') = s' ≡ s
  Flushes s (retrying backoff, s') = Unit

  flush_from-Flushes :
      (backoff : ℕ) (attempts : List Attempt) (batch : List Entry) (s : Shipper)
      → Flushes s (flush_from codec backoff attempts batch s)
  unfolding flush_from
  flush_from-Flushes backoff [] batch s = tt
  flush_from-Flushes backoff (a ∷ attempts) batch s = elim (send-receipt a.call batch) [
    | inl (r, n, h) ↦ rw (flush_from, h) (commit-Saves a.saving batch s)
    | inr (r, e, h) ↦ elim (Bool-cases a.ctx_done) [
      | inl d ↦ rw (flush_from, h, d) refl
      | inr d ↦ rw (flush_from, h, d) (flush_from-Flushes (next_backoff backoff) attempts batch s)
    ]
  ]

  final-Saves :
      (call : Call) (saving : Saving) (batch : List Entry) (s : Shipper)
      → Saves s (final codec call saving batch s)
  unfolding final
  final-Saves call saving [] s = inr refl
  final-Saves call saving (e ∷ batch) s = elim (send-receipt call (e ∷ batch)) [
    | inl (r, n, h) ↦ rw (final, h) (commit-Saves saving (e ∷ batch) s)
    | inr (r, f, h) ↦ rw (final, h) (inr refl)
  ]

  -- What an event makes of the file and of the records.
  record PersistsFrom (s : Shipper) (shipped_entries dropped : List Entry) (l' : Loop)
      : Type 0 where
    disk : Saves s l'.shipper
    more : List Entry
    shipped : l'.shipped_entries ≡ shipped_entries ++ more
    lost : List Entry
    dropped_more : l'.dropped ≡ dropped ++ lost

  abbrev Persists : Loop → Loop → Type 0
  Persists l = PersistsFrom l.shipper l.shipped_entries l.dropped

  -- An event that leaves the file and the records as they are.
  same-Persists :
      (l l' : Loop)
      → l'.shipper.disk ≡ l.shipper.disk
      → l'.shipped_entries ≡ l.shipped_entries
      → l'.dropped ≡ l.dropped
      → Persists l l'
  same-Persists l l' h k d = record {
    disk = inr (ap (load codec none) h);
    more = [];
    shipped = k ∙ sym (append-nil l.shipped_entries);
    lost = [];
    dropped_more = d ∙ sym (append-nil l.dropped);
  }

  module _ (batch_size : ℤ) where
    after_flush-Persists :
        (l : Loop) (r : Flushed × Shipper)
        → Flushes l.shipper r
        → Leads (Persists l) (after_flush codec batch_size l r)
    unfolding after_flush
    after_flush-Persists l (delivered, s) h = record {
      disk = h;
      more = l.batch;
      shipped = refl;
      lost = [];
      dropped_more = sym (append-nil l.dropped);
    }
    after_flush-Persists l (abandoned, s) h = record {
      disk = inr (ap (λ (x : Shipper). load codec none x.disk) h);
      more = [];
      shipped = sym (append-nil l.shipped_entries);
      lost = l.batch;
      dropped_more = refl;
    }
    after_flush-Persists l (retrying backoff, s) h = tt

    flush_batch-Persists :
        (attempts : List Attempt) (l : Loop)
        → Leads (Persists l) (flush_batch codec batch_size attempts l)
    unfolding flush_batch flush
    flush_batch-Persists attempts l =
        after_flush-Persists l (flush codec attempts l.batch l.shipper)
          (flush_from-Flushes initial_retry_backoff attempts l.batch l.shipper)

    receive-Persists :
        (attempts : List Attempt) (queue : List Entry) (l : Loop)
        → Leads (Persists l) (receive codec batch_size attempts queue l)
    unfolding receive
    receive-Persists attempts [] l = tt
    receive-Persists attempts (e ∷ rest) l =
        let l' : Loop = record l { batch = l.batch ++ (e ∷ []); queue = rest } in
        Leads-if (Persists l) (leb_ℤ batch_size (pos (length l'.batch)) && not l'.is_cancelled) _ _
          (flush_batch-Persists attempts l') (same-Persists l l' refl refl refl)

    tick-Persists :
        (attempts : List Attempt) (batch : List Entry) (l : Loop)
        → Leads (Persists l) (tick codec batch_size attempts batch l)
    unfolding tick
    tick-Persists attempts [] l = same-Persists l l refl refl refl
    tick-Persists attempts (e ∷ batch) l =
        Leads-if (Persists l) (not l.is_cancelled) _ (some l) (flush_batch-Persists attempts l)
          (same-Persists l l refl refl refl)

    finish-Persists :
        (call : Call) (saving : Saving) (queue : List Entry) (l : Loop)
        → Leads (Persists l) (finish codec batch_size call saving queue l)
    unfolding finish
    finish-Persists call saving (e ∷ queue) l = tt
    finish-Persists call saving [] l =
        Leads-if (Persists l) l.closed _ none
          (record {
            disk = final-Saves call saving l.batch l.shipper;
            more = if is_receipt call then l.batch else [];
            shipped = ground (arith, append-nil l.shipped_entries);
            lost = [];
            dropped_more = sym (append-nil l.dropped);
          })
          tt

    go_on-Persists : (e : Event) (l : Loop) → Leads (Persists l) (go_on codec batch_size e l)
    unfolding go_on
    go_on-Persists (receives attempts) l = receive-Persists attempts l.queue l
    go_on-Persists (ticks attempts) l = tick-Persists attempts l.batch l
    go_on-Persists reports l = same-Persists l _ refl refl refl
    go_on-Persists (sees_close call saving) l = finish-Persists call saving l.queue l
    go_on-Persists _ l = tt

    step-Persists : (e : Event) (l : Loop) → Leads (Persists l) (step codec batch_size e l)
    unfolding step arrive
    step-Persists (arrives e) l =
        Leads-if (Persists l) (not l.closed && ltb (length l.queue) (pos_part batch_size)) _ none
          (same-Persists l _ refl refl refl) tt
    step-Persists (retains keep) l = same-Persists l _ refl refl refl
    step-Persists closes l = same-Persists l _ refl refl refl
    step-Persists cancels l = same-Persists l _ refl refl refl
    step-Persists (receives attempts) l =
        Leads-if (Persists l) l.has_returned none _ tt (go_on-Persists (receives attempts) l)
    step-Persists (ticks attempts) l =
        Leads-if (Persists l) l.has_returned none _ tt (go_on-Persists (ticks attempts) l)
    step-Persists reports l =
        Leads-if (Persists l) l.has_returned none _ tt (go_on-Persists reports l)
    step-Persists (sees_close call saving) l =
        Leads-if (Persists l) l.has_returned none _ tt (go_on-Persists (sees_close call saving) l)

-- The file holds the position that `file` had when only the older of the entries shipped so far were.
pub record OnDisk (codec : Codec) (file : Bytes) (old : Option Position) (l : Loop) : Type 0 where
  pub older : List Entry
  pub newer : List Entry
  pub split : l.shipped_entries ≡ older ++ newer
  pub saved : Saved
  pub loads : load codec none l.shipper.disk ≡ ok saved
  pub position : get file saved ≡ or_old (last_position file older) old

append-nil_left : (xs ys zs : List Entry) → xs ≡ ys ++ zs → xs ≡ [] → ys ≡ []
append-nil_left xs [] zs h e = refl
append-nil_left xs (y ∷ ys) zs h e = absurd cc

module _ (codec : Codec) (batch_size : ℤ) (file : Bytes) (old : Option Position) where
  abbrev StaysOnDisk : Loop → Type 0
  StaysOnDisk l = l.dropped ≡ [] → OnDisk codec file old l

  step-OnDisk :
      (l l' : Loop) → Persists codec l l' → InOrder file old l' → StaysOnDisk l → StaysOnDisk l'
  step-OnDisk l l' p ordered v d = elim p.disk [
    | inl written ↦ record {
      older = l'.shipped_entries;
      newer = [];
      split = sym (append-nil l'.shipped_entries);
      saved = l'.shipper.positions;
      loads = written;
      position = (ordered d).recorded;
    }
    | inr kept ↦
        let w = v (append-nil_left l'.dropped l.dropped p.lost p.dropped_more d) in
        record {
          older = w.older;
          newer = w.newer ++ p.more;
          split = p.shipped ∙ ap (λ x. x ++ p.more) w.split ∙ append_assoc w.older w.newer p.more;
          saved = w.saved;
          loads = kept ∙ w.loads;
          position = w.position;
        }
  ]

  run-OnDisk :
      (events : List Event) (l l' : Loop)
      → All (KeepsFile file) events
      → InOrder file old l
      → StaysOnDisk l
      → run codec batch_size events l ≡ some l'
      → StaysOnDisk l'
  unfolding run
  run-OnDisk [] l l' k ordered v h = subst StaysOnDisk (some-injective _ _ h) v
  run-OnDisk (e ∷ events) l l' (k, ks) ordered v h =
      elim (Option-cases (step codec batch_size e l)) [
        | inl n ↦ absurd (ground arith)
        | inr (l1, s) ↦
            let ordered' =
              subst (Leads (InOrder file old)) s
                (step-InOrder codec batch_size file old e l k ordered) in
            let p = subst (Leads (Persists codec l)) s (step-Persists codec batch_size e l) in
            run-OnDisk events l1 l' ks ordered' (step-OnDisk l l1 p ordered' v) (ground arith)
      ]

pub start-OnDisk :
    (codec : Codec) (batch_size : ℤ) (file : Bytes) (events : List Event) (s : Shipper) (l : Loop)
    → load codec none s.disk ≡ ok s.positions
    → All (KeepsFile file) events
    → run codec batch_size events (start s) ≡ some l
    → l.dropped ≡ []
    → OnDisk codec file (get file s.positions) l
unfolding start
start-OnDisk codec batch_size file events s l loaded k h =
    run-OnDisk codec batch_size file (get file s.positions) events (start s) l k
      (λ d. record { in_order = refl; recorded = refl })
      (λ d. record {
        older = [];
        newer = [];
        split = refl;
        saved = s.positions;
        loads = loaded;
        position = refl;
      })
      h
