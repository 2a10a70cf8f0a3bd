-- ===== src/LogAgent/Shipper.antt =====
-- internal/logagent/shipper.go: the sender of batches, and its record of what was delivered.
pub mod Delivery
pub mod Loop
use crm_beginner.Base.{
  ℕ, zero, suc, ◌+◌, ◌*◌, Bool, true, false, not, ◌&&◌, Option, none, some, List, [], ◌∷◌, ◌++◌,
  ltb, leb, if◌then◌else◌, length, map, take, Result, ok, err,
}
use crm_beginner.Domain.{Error, other, eof, error_is}
use crm_beginner.LogAgent.Positions.{Position, Saved, set, Disk, Codec, Saving, save}
use crm_beginner.LogAgent.Tailer.{Entry, WireEntry}
use crm_beginner.Text.{bytes}

-- Times are in nanoseconds.
abbrev pub initial_retry_backoff : ℕ
initial_retry_backoff = 100_000_000

abbrev pub max_retry_backoff : ℕ
max_retry_backoff = 5_000_000_000

-- What the client stream of one `send` does: it cannot be opened; `Send` fails behind some entries
-- and then `CloseAndRecv`, if it is called, fails or not; or all is sent and `CloseAndRecv` fails
-- or returns the summary's count.
pub data Call : Type 0 where
  not_opened : Error → Call
  breaks : ℕ → Error → Option Error → Call
  unanswered : Error → Call
  summary : ℕ → Call

-- Whether a call ends with the server's summary.
abbrev pub is_receipt : Call → Bool
is_receipt (summary accepted) = true
is_receipt _ = false

-- What a `Send` that fails makes of the call.
send_failure : Error → Option Error → Error
send_failure e close_error =
    if error_is e eof
    then (elim close_error [
      | some rerr ↦ rerr
      | none ↦ other (bytes "stream closed before the whole batch was sent")
    ])
    else e

-- `send`: the entries that were put on the stream, and the count accepted or the error. A stream
-- that would break behind the last entry is not seen to break.
unfoldable pub send : Call → List Entry → List WireEntry × Result Error ℕ
unfolding send_failure
send (not_opened e) batch = ([], err e)
send (breaks n e close_error) batch =
    (take n (map (λ (x : Entry). x.log) batch), err (send_failure e close_error))
send (unanswered e) batch = (map (λ (x : Entry). x.log) batch, err e)
send (summary accepted) batch = (map (λ (x : Entry). x.log) batch, ok accepted)

pub record Shipper : Type 0 where
  pub positions : Saved
  pub disk : Disk
  pub shipped : ℕ

record_all : List Entry → Saved → Saved
record_all [] m = m
record_all (e ∷ batch) m =
    record_all batch (set e.file (record { inode = e.inode; offset = e.offset }) m)

-- `commit`; a save that fails is only logged.
unfoldable pub commit : Codec → Saving → List Entry → Shipper → Shipper
unfolding record_all
commit codec saving batch s =
    let m = record_all batch s.positions in
    record {
      positions = m;
      disk = (save codec saving m s.disk).1;
      shipped = s.shipped + length batch;
    }

-- One attempt of `flush`: the call, what becomes of the save if it succeeds, and whether the
-- context ends while it waits if it fails.
pub record Attempt : Type 0 where
  pub call : Call
  pub saving : Saving
  pub ctx_done : Bool

-- How a flush ends: delivered, abandoned, or not yet, with the backoff it waits for.
pub data Flushed : Type 0 where
  delivered abandoned : Flushed
  retrying : ℕ → Flushed

pub next_backoff : ℕ → ℕ
next_backoff backoff =
    if ltb max_retry_backoff (backoff * 2) then max_retry_backoff else backoff * 2

-- The loop of `flush` over the attempts that are made.
unfoldable pub flush_from : Codec → ℕ → List Attempt → List Entry → Shipper → Flushed × Shipper
unfolding next_backoff
flush_from codec backoff [] batch s = (retrying backoff, s)
flush_from codec backoff (a ∷ attempts) batch s =
    let rest = flush_from codec (next_backoff backoff) attempts batch s in
    elim (send a.call batch).1 [
      | ok accepted ↦ (delivered, commit codec a.saving batch s)
      | err e ↦ if a.ctx_done then (abandoned, s) else rest
    ]

-- `flush`.
unfoldable pub flush : Codec → List Attempt → List Entry → Shipper → Flushed × Shipper
unfolding flush_from
flush codec = flush_from codec initial_retry_backoff

-- `final`: one attempt.
unfoldable pub final : Codec → Call → Saving → List Entry → Shipper → Shipper
final codec call saving [] s = s
final codec call saving (e ∷ batch) s = elim (send call (e ∷ batch)).1 [
  | err f ↦ s
  | ok accepted ↦ commit codec saving (e ∷ batch) s
]
