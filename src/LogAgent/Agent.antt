-- ===== src/LogAgent/Agent.antt =====
-- internal/logagent/agent.go: the tailer and the shipper, with the channel between them.
pub mod Loops
pub mod Exactly
pub mod Crash
pub mod Ends
use crm_beginner.Base.Int.{ℤ}
use crm_beginner.Base.{
  Bool, true, false, Option, none, some, List, [], ◌∷◌, if◌then◌else◌, Result, ok, err,
}
use mathlib.Core.Option
use crm_beginner.Domain.{Error, canceled, error_is}
use crm_beginner.LogAgent.Positions.{Codec, Disk, Saved, load}
use crm_beginner.LogAgent.Shipper.Loop
use crm_beginner.LogAgent.Shipper.Loop.{Loop, Event, arrives, closes, start}
use crm_beginner.LogAgent.Tailer.Running
use crm_beginner.LogAgent.Tailer.Running.{Turn}
use crm_beginner.LogAgent.Tailer.{Entry, Settings}

-- The agent: what the tailer has still to send, what its `Run` returns behind that (`none`: it does
-- not return), and the shipper's side.
pub record Agent : Type 0 where
  pub to_send : List Entry
  pub tailer_error : Option Error
  pub loop : Loop

-- The tailer sends its next entry; the channel is closed behind it; any other event of the loop.
pub data Act : Type 0 where
  sends closes_channel : Act
  loops : Event → Act

-- Only the tailer sends into the channel, and only `Run` closes it.
is_its_own : Event → Bool
is_its_own (arrives e) = false
is_its_own closes = false
is_its_own _ = true

-- The start of `Run`; the tailer begins with no file and the positions that were loaded.
unfoldable pub begin : Codec → Settings → Option Error → Disk → List Turn → Result Error Agent
begin codec cfg failure disk turns = elim (load codec failure disk) [
  | err e ↦ err e
  | ok m ↦
      let tailed = Running.run cfg turns (record { files = []; positions = m }) in
      ok (record {
        to_send = tailed.sent;
        tailer_error = tailed.ended;
        loop = start (record { positions = m; disk = disk; shipped = 0 });
      })
]

module _ (codec : Codec) (batch_size : ℤ) where
  send_next : List Entry → Agent → Option Agent
  send_next [] a = none
  send_next (e ∷ rest) a =
      Option.map (λ l. record a { to_send = rest; loop = l })
        (Loop.step codec batch_size (arrives e) a.loop)

  close_channel : List Entry → Option Error → Agent → Option Agent
  close_channel [] (some e) a =
      Option.map (λ l. record a { loop = l }) (Loop.step codec batch_size closes a.loop)
  close_channel _ _ a = none

  -- `none` is an act that cannot happen in this state.
  unfoldable pub step : Act → Agent → Option Agent
  unfolding send_next close_channel is_its_own
  step sends a = send_next a.to_send a
  step closes_channel a = close_channel a.to_send a.tailer_error a
  step (loops e) a =
      if is_its_own e
      then Option.map (λ l. record a { loop = l }) (Loop.step codec batch_size e a.loop)
      else none

  unfoldable pub run : List Act → Agent → Option Agent
  unfolding step
  run [] a = some a
  run (act ∷ acts) a = elim (step act a) [ none ↦ none | some a' ↦ run acts a' ]

-- What `Run` returns once both have returned: `none` while it waits, `some none` for nil.
unfoldable pub result : Agent → Option (Option Error)
unfolding error_is
result a =
    if a.loop.has_returned
    then Option.map (λ e. if error_is e canceled then none else some e) a.tailer_error
    else none
