-- ===== src/LogAgent/Tailer/Running.antt =====
-- `Run` of internal/logagent/tailer.go: polls until the context ends.
use crm_beginner.Base.{
  ℕ, Bool, true, false, Option, none, some, List, [], ◌∷◌, ◌++◌, Result, ok, err,
}
use crm_beginner.Domain.{Error, sentinel, canceled}
use crm_beginner.LogAgent.Positions.{Saved}
use crm_beginner.LogAgent.Tailer.Polling.{Listing, Tailer, poll}
use crm_beginner.LogAgent.Tailer.{Entry, Settings}
use crm_beginner.Text.{Bytes}

-- What one turn of the loop meets: the positions, which the shipper changes meanwhile, the files or
-- the error of `filepath.Glob`, how the context ends within the poll, and whether its end is what
-- the `select` behind the poll takes.
pub record Turn : Type 0 where
  pub positions : Saved
  pub globbed : Result Error Listing
  pub has_ended : Bytes → Bool
  pub budget : Option ℕ
  pub is_done : Bool

-- The entries sent, the tailer, and the error that `Run` returns, `none` while it runs.
pub record Tailed : Type 0 where
  pub sent : List Entry
  pub tailer : Tailer
  pub ended : Option Error

prepend : List Entry → Tailed → Tailed
prepend sent r = record r { sent = sent ++ r.sent }

-- `Run`, over the turns of its loop.
unfoldable pub run : Settings → List Turn → Tailer → Tailed
unfolding prepend
run cfg [] t = record { sent = []; tailer = t; ended = none }
run cfg (turn ∷ turns) t = elim turn.globbed [
  | err e ↦ record { sent = []; tailer = t; ended = some e }
  | ok listing ↦
      let p =
        poll cfg turn.has_ended listing (record t { positions = turn.positions }) turn.budget in
      elim p.cancelled [
        | true ↦ record { sent = p.sent; tailer = p.tailer; ended = some (sentinel canceled) }
        | false ↦ elim turn.is_done [
          | true ↦ record { sent = p.sent; tailer = p.tailer; ended = some (sentinel canceled) }
          | false ↦ prepend p.sent (run cfg turns p.tailer)
        ]
      ]
]
