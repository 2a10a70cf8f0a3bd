-- ===== src/LogAgent/Shipper/Loop/Arrivals.antt =====
-- About internal/logagent/shipper.go: which events send into the channel.
use crm_beginner.Base.Int.{ℤ, pos, leb_ℤ, pos_part}
use crm_beginner.Base.{
  ◌≡◌, refl, not, ◌&&◌, Option, none, List, [], ◌∷◌, ◌++◌, if◌then◌else◌, length, ltb, sym, subst,
  append-nil,
}
use crm_beginner.LogAgent.Positions.{Codec, Saving}
use crm_beginner.LogAgent.Shipper.Loop.Order.{Leads, Leads-if}
use crm_beginner.LogAgent.Shipper.Loop.{
  Loop, Event, arrives, retains, closes, cancels, reports, receives, ticks, sees_close, after_flush,
  flush_batch, receive, tick, finish, go_on, arrive, step,
}
use crm_beginner.LogAgent.Shipper.{
  Shipper, Call, Attempt, Flushed, delivered, abandoned, retrying, flush,
}
use crm_beginner.LogAgent.Tailer.{Entry}

-- What an event adds to the entries that have been sent into the channel.
abbrev pub sent_by : Event → List Entry
sent_by (arrives e) = e ∷ []
sent_by _ = []

abbrev pub HasArrived : List Entry → Loop → Type 0
HasArrived es l = l.arrived ≡ es

module _ (codec : Codec) (batch_size : ℤ) where
  after_flush-HasArrived :
      (l : Loop) (r : Flushed × Shipper)
      → Leads (HasArrived l.arrived) (after_flush codec batch_size l r)
  unfolding after_flush
  after_flush-HasArrived l (delivered, s) = refl
  after_flush-HasArrived l (abandoned, s) = refl
  after_flush-HasArrived l (retrying backoff, s) = tt

  receive-HasArrived :
      (attempts : List Attempt) (queue : List Entry) (l : Loop)
      → Leads (HasArrived l.arrived) (receive codec batch_size attempts queue l)
  unfolding receive flush_batch
  receive-HasArrived attempts [] l = tt
  receive-HasArrived attempts (e ∷ rest) l =
      let l' = record l { batch = l.batch ++ (e ∷ []); queue = rest } in
      Leads-if (HasArrived l.arrived)
        (leb_ℤ batch_size (pos (length l'.batch)) && not l'.is_cancelled) _ _
        (after_flush-HasArrived l' (flush codec attempts l'.batch l'.shipper)) refl

  tick-HasArrived :
      (attempts : List Attempt) (batch : List Entry) (l : Loop)
      → Leads (HasArrived l.arrived) (tick codec batch_size attempts batch l)
  unfolding tick flush_batch
  tick-HasArrived attempts [] l = refl
  tick-HasArrived attempts (e ∷ batch) l =
      Leads-if (HasArrived l.arrived) (not l.is_cancelled) _ _
        (after_flush-HasArrived l (flush codec attempts l.batch l.shipper)) refl

  finish-HasArrived :
      (call : Call) (saving : Saving) (queue : List Entry) (l : Loop)
      → Leads (HasArrived l.arrived) (finish codec batch_size call saving queue l)
  unfolding finish
  finish-HasArrived call saving (e ∷ queue) l = tt
  finish-HasArrived call saving [] l = Leads-if (HasArrived l.arrived) l.closed _ none refl tt

  go_on-HasArrived :
      (e : Event) (l : Loop) → Leads (HasArrived l.arrived) (go_on codec batch_size e l)
  unfolding go_on
  go_on-HasArrived (receives attempts) l = receive-HasArrived attempts l.queue l
  go_on-HasArrived (ticks attempts) l = tick-HasArrived attempts l.batch l
  go_on-HasArrived reports l = refl
  go_on-HasArrived (sees_close call saving) l = finish-HasArrived call saving l.queue l
  go_on-HasArrived _ l = tt

  still :
      (l : Loop) (o : Option Loop)
      → Leads (HasArrived l.arrived) o
      → Leads (HasArrived (l.arrived ++ [])) o
  still l o h = subst (λ x. Leads (HasArrived x) o) (sym (append-nil l.arrived)) h

  going :
      (e : Event) (l : Loop)
      → Leads
          (HasArrived (l.arrived ++ []))
          (if l.has_returned then none else go_on codec batch_size e l)
  going e l =
      still l _ (Leads-if (HasArrived l.arrived) l.has_returned none _ tt (go_on-HasArrived e l))

  -- Only `arrives` sends into the channel.
  pub step-HasArrived :
      (e : Event) (l : Loop)
      → Leads (HasArrived (l.arrived ++ sent_by e)) (step codec batch_size e l)
  unfolding step arrive
  step-HasArrived (arrives e) l =
      Leads-if (HasArrived (l.arrived ++ (e ∷ [])))
        (not l.closed && ltb (length l.queue) (pos_part batch_size)) _ none refl tt
  step-HasArrived (retains keep) l = sym (append-nil l.arrived)
  step-HasArrived closes l = sym (append-nil l.arrived)
  step-HasArrived cancels l = sym (append-nil l.arrived)
  step-HasArrived reports l = going reports l
  step-HasArrived (receives attempts) l = going (receives attempts) l
  step-HasArrived (ticks attempts) l = going (ticks attempts) l
  step-HasArrived (sees_close call saving) l = going (sees_close call saving) l
