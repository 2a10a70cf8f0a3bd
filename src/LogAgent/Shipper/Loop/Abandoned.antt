-- ===== src/LogAgent/Shipper/Loop/Abandoned.antt =====
-- About `Run` of internal/logagent/shipper.go behind a flush that it abandons.
use crm_beginner.Base.Int.{ℤ, pos, leb_ℤ}
use crm_beginner.Base.{
  ℕ, ◌≡◌, inl, inr, refl, true, false, some, List, [], ◌∷◌, ◌++◌, length, Bool-cases,
}
use crm_beginner.LogAgent.Positions.{get, Codec, saves}
use crm_beginner.LogAgent.Shipper.Delivery.{last_position, or_old}
use crm_beginner.LogAgent.Shipper.Loop.{
  Loop, Event, closes, receives, ticks, sees_close, receive, go_on, step,
}
use crm_beginner.LogAgent.Shipper.{summary, Shipper, Attempt}
use crm_beginner.LogAgent.Tailer.{Entry}
use crm_beginner.Text.{Bytes}

-- `Run` receives what is in the channel, with no flush.
abbrev pub receives_all : List Entry → List Event
receives_all [] = []
receives_all (e ∷ queue) = receives [] ∷ receives_all queue

-- The tick whose flush is abandoned, the rest of the channel, and the last send, with its receipt.
abbrev pub shutdown : List Attempt → List Entry → ℕ → List Event
shutdown attempts queue accepted =
    ticks attempts ∷ (receives_all queue ++ (closes ∷ sees_close (summary accepted) saves ∷ []))

-- `Run` once its context has ended.
abbrev pub ended : List Entry → List Entry → Loop → Shipper → List Entry → Loop
ended batch queue l s dropped = record l {
  batch = batch;
  queue = queue;
  is_cancelled = true;
  has_returned = false;
  shipper = s;
  dropped = dropped;
}

module _ (codec : Codec) (batch_size : ℤ) where
  pub receive-ended :
      (batch : List Entry) (e : Entry) (queue : List Entry) (l : Loop) (s : Shipper)
      (dropped : List Entry)
      → step codec batch_size (receives []) (ended batch (e ∷ queue) l s dropped)
        ≡ some (ended (batch ++ (e ∷ [])) queue l s dropped)
  unfolding step go_on receive
  receive-ended batch e queue l s dropped =
      elim (Bool-cases (leb_ℤ batch_size (pos (length (batch ++ (e ∷ [])))))) [
        | inl h ↦ rw h refl
        | inr h ↦ rw h refl
      ]

-- What `Run` has left of the batch that it abandoned, once it has returned.
pub record Skips (file : Bytes) (l l' : Loop) : Type 0 where
  pub returned : l'.has_returned ≡ true
  pub not_shipped : l'.dropped ≡ l.dropped ++ l.batch
  pub then_shipped : l'.shipped_entries ≡ l.shipped_entries ++ l.queue
  pub position :
      get file l'.shipper.positions
      ≡ or_old (last_position file l.queue) (get file l.shipper.positions)
