-- ===== src/LogAgent/Shipper/Loop.antt =====
-- `Run` of internal/logagent/shipper.go, as a state machine, with the channel that it reads. Its
-- events are the cases of its `select`, and what others do to the channel, the context and the
-- positions.
pub mod Flushes
pub mod Order
pub mod Arrivals
pub mod Abandoned
pub mod Closing
pub mod OnDisk
use crm_beginner.Base.Int.{ℤ, pos, pos_part, leb_ℤ}
use crm_beginner.Base.{
  ℕ, Bool, true, false, not, ◌&&◌, Option, none, some, List, [], ◌∷◌, ◌++◌, ltb, if◌then◌else◌,
  length,
}
use crm_beginner.LogAgent.Positions.{Codec, Saved, Saving, retain}
use crm_beginner.LogAgent.Shipper.{
  Attempt, Call, Flushed, delivered, abandoned, retrying, Shipper, is_receipt, flush, final,
}
use crm_beginner.LogAgent.Tailer.{Entry}
use crm_beginner.Text.{Bytes}

-- What `Run` and its surroundings are made of. The last three fields only record: the entries that
-- have been sent into the channel, those of the batches whose receipt has arrived, and those of the
-- batches that a flush has abandoned.
pub record Loop : Type 0 where
  pub batch : List Entry
  pub queue : List Entry
  pub closed : Bool
  pub is_cancelled : Bool
  pub has_returned : Bool
  pub shipper : Shipper
  pub arrived : List Entry
  pub shipped_entries : List Entry
  pub dropped : List Entry

unfoldable pub start : Shipper → Loop
start s = record {
  batch = [];
  queue = [];
  closed = false;
  is_cancelled = false;
  has_returned = false;
  shipper = s;
  arrived = [];
  shipped_entries = [];
  dropped = [];
}

-- The tailer sends an entry, or forgets files; the channel is closed; the context ends; `Run`
-- receives an entry, with the attempts of the flush that may follow; a tick of the two tickers; the
-- end of the channel, with the call and the save of the last send.
pub data Event : Type 0 where
  arrives : Entry → Event
  retains : (Bytes → Bool) → Event
  closes cancels reports : Event
  receives ticks : List Attempt → Event
  sees_close : Call → Saving → Event

module _ (codec : Codec) (batch_size : ℤ) where
  after_flush : Loop → Flushed × Shipper → Option Loop
  after_flush l (delivered, s) =
      some (record l { batch = []; shipper = s; shipped_entries = l.shipped_entries ++ l.batch })
  after_flush l (abandoned, s) =
      some
        (record l { batch = []; shipper = s; is_cancelled = true; dropped = l.dropped ++ l.batch })
  after_flush l (retrying backoff, s) = none

  -- `s.flush(ctx, batch); batch = batch[:0]`. Attempts that do not end the flush are no step.
  flush_batch : List Attempt → Loop → Option Loop
  unfolding after_flush
  flush_batch attempts l = after_flush l (flush codec attempts l.batch l.shipper)

  receive : List Attempt → List Entry → Loop → Option Loop
  unfolding flush_batch
  receive attempts [] l = none
  receive attempts (e ∷ rest) l =
      let l' = record l { batch = l.batch ++ (e ∷ []); queue = rest } in
      if leb_ℤ batch_size (pos (length l'.batch)) && not l'.is_cancelled
      then flush_batch attempts l'
      else some l'

  tick : List Attempt → List Entry → Loop → Option Loop
  unfolding flush_batch
  tick attempts [] l = some l
  tick attempts (e ∷ batch) l = if not l.is_cancelled then flush_batch attempts l else some l

  -- `s.final(batch); return`. The batch counts as shipped if there was a receipt for it.
  finish : Call → Saving → List Entry → Loop → Option Loop
  finish call saving [] l =
      if l.closed
      then some (record l {
        has_returned = true;
        shipper = final codec call saving l.batch l.shipper;
        batch = if is_receipt call then [] else l.batch;
        shipped_entries =
            if is_receipt call then l.shipped_entries ++ l.batch else l.shipped_entries;
      })
      else none
  finish call saving (e ∷ queue) l = none

  -- A step of `Run` that has not returned.
  go_on : Event → Loop → Option Loop
  unfolding receive tick finish
  go_on (receives attempts) l = receive attempts l.queue l
  go_on (ticks attempts) l = tick attempts l.batch l
  go_on reports l = some (record l { shipper = record (l.shipper) { shipped = 0 } })
  go_on (sees_close call saving) l = finish call saving l.queue l
  go_on e l = none

  -- The channel has room for `batch_size` entries. Nothing is sent into it once it is closed.
  arrive : Entry → Loop → Option Loop
  arrive e l =
      if not l.closed && ltb (length l.queue) (pos_part batch_size)
      then some (record l { queue = l.queue ++ (e ∷ []); arrived = l.arrived ++ (e ∷ []) })
      else none

  -- `none` is an event that cannot happen in this state.
  unfoldable pub step : Event → Loop → Option Loop
  unfolding arrive go_on
  step (arrives e) l = arrive e l
  step (retains keep) l =
      some
        (record l { shipper = record (l.shipper) { positions = retain keep l.shipper.positions } })
  step closes l = some (record l { closed = true })
  step cancels l = some (record l { is_cancelled = true })
  step e l = if l.has_returned then none else go_on e l

  unfoldable pub run : List Event → Loop → Option Loop
  unfolding step
  run [] l = some l
  run (e ∷ events) l = elim (step e l) [ none ↦ none | some l' ↦ run events l' ]
