-- ===== src/LogAgent/Shipper/Loop/Closing.antt =====
-- About `Run` of internal/logagent/shipper.go once its context has ended: its last events.
use crm_beginner.Base.Int.{ℤ, pos_part}
use crm_beginner.Base.{◌<◌, ◌≡◌, true, false, some, List, [], ◌∷◌, ◌++◌, if◌then◌else◌, arith}
use crm_beginner.LogAgent.Positions.{Codec, Saving}
use crm_beginner.LogAgent.Shipper.Loop.Abandoned.{ended}
use crm_beginner.LogAgent.Shipper.Loop.{Loop, arrives, arrive, step}
use crm_beginner.LogAgent.Shipper.{Call, is_receipt, final}
use crm_beginner.LogAgent.Tailer.{Entry}

-- `Run` behind its last send.
abbrev pub returned : Call → Saving → Codec → List Entry → Loop → Loop
returned call saving codec batch l = record l {
  batch = if is_receipt call then [] else batch;
  queue = [];
  closed = true;
  is_cancelled = true;
  has_returned = true;
  shipper = final codec call saving batch l.shipper;
  shipped_entries = if is_receipt call then l.shipped_entries ++ batch else l.shipped_entries;
}

module _ (codec : Codec) (batch_size : ℤ) where
  pub arrives-ended :
      (batch : List Entry) (e : Entry) (l : Loop)
      → 0 < pos_part batch_size
      → l.closed ≡ false
      → step codec batch_size (arrives e) (ended batch [] l l.shipper l.dropped)
        ≡ some (
            ended batch (e ∷ []) (record l { arrived = l.arrived ++ (e ∷ []) }) l.shipper l.dropped)
  unfolding step arrive
  arrives-ended batch e l p c = ground arith
