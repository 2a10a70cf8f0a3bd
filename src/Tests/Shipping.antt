-- ===== src/Tests/Shipping.antt =====
-- The loops of the agent.
use crm_beginner.Base.Int.{pos}
use crm_beginner.Base.{
  inr, ok, false, length, ◌+◌, ◌*◌, if◌then◌else◌, ◌≡◌, refl, All, arith, true, none, some, List,
  [], ◌∷◌, ◌++◌,
}
use crm_beginner.Domain.{other, sentinel, canceled, error_is}
use crm_beginner.LogAgent.Agent
use crm_beginner.LogAgent.Agent.{Act, Agent, sends, loops, result}
use crm_beginner.LogAgent.Agent.Crash.{run-killed}
use crm_beginner.LogAgent.Agent.Ends.{last_acts, IsStopping, run-last_acts}
use crm_beginner.LogAgent.Agent.Exactly.{run-unshipped}
use crm_beginner.LogAgent.Agent.Loops.{KeepsAct}
use crm_beginner.LogAgent.Cri.{parse_line}
use crm_beginner.LogAgent.Positions.{Saved, get, load, saves, not_renamed}
use crm_beginner.LogAgent.Shipper.Loop
use crm_beginner.LogAgent.Shipper.Loop.Order.{run-Accounts, Accounts, KeepsFile}
use crm_beginner.LogAgent.Shipper.Loop.{Loop, Event, arrives, receives, ticks, start}
use crm_beginner.LogAgent.Shipper.{unanswered, summary, Attempt, flush, final}
use crm_beginner.LogAgent.Tailer.Growing.{read_file-append}
use crm_beginner.LogAgent.Tailer.Restart.{whole_file}
use crm_beginner.LogAgent.Tailer.{Entry, FileState, read_file, scan, on_line}
use crm_beginner.Tests.Agent.{
  settings, source, content, whole, first, second, third, shipper, attempts,
}
use crm_beginner.Tests.Data.{positions_codec}
use crm_beginner.Text.Dict.{lookup}
use crm_beginner.Text.{bytes, equal}

-- Two entries come, and are shipped as one batch; then the third comes.
abbrev acts : List Act
acts = sends ∷ loops (receives []) ∷ sends ∷ loops (receives attempts) ∷ sends ∷ []

abbrev agent : Agent
agent = record {
  to_send = whole.sent;
  tailer_error = some (sentinel canceled);
  loop = start shipper;
}

abbrev behind : List Act → Agent
behind acts = elim (Agent.run positions_codec (pos 2) acts agent) [ none ↦ agent | some a ↦ a ]

acts_happen : Agent.run positions_codec (pos 2) acts agent ≡ some (behind acts)
unfolding Agent.run scan on_line parse_line equal Loop.step start flush
    crm_beginner.LogAgent.Shipper.send
acts_happen = refl

acts_keep : All (KeepsAct (bytes "f")) acts
acts_keep = (tt, (tt, (tt, (tt, (tt, tt)))))

run-unshipped_example :
    (read_file settings
      (bytes "f")
      source
      (whole_file 3 content)
      none
      (get (bytes "f") (behind acts).loop.shipper.positions)
      none).sent
    ≡ (behind acts).loop.batch ++ ((behind acts).loop.queue ++ (behind acts).to_send)
unfolding get lookup Agent.run scan on_line parse_line equal Loop.step start flush
    crm_beginner.LogAgent.Shipper.send
run-unshipped_example =
    run-unshipped positions_codec (pos 2) settings (bytes "f") source 3 content acts shipper agent
      (behind acts) refl refl refl acts_keep acts_happen refl

abbrev events : List Event
events =
    arrives first
    ∷ receives []
    ∷ arrives second
    ∷ receives attempts
    ∷ arrives third
    ∷ receives []
    ∷ []

abbrev shipped : Loop
shipped = elim (Loop.run positions_codec (pos 2) events (start shipper)) [
  | none ↦ start shipper
  | some l ↦ l
]

events_happen : Loop.run positions_codec (pos 2) events (start shipper) ≡ some shipped
unfolding Loop.run start flush crm_beginner.LogAgent.Shipper.send
events_happen = refl

events_keep : All (KeepsFile (bytes "f")) events
events_keep = (tt, (tt, (tt, (tt, (tt, (tt, tt))))))

run-Accounts_example : Accounts (bytes "f") none shipped
unfolding get lookup Loop.run start flush crm_beginner.LogAgent.Shipper.send
run-Accounts_example =
    run-Accounts positions_codec (pos 2) (bytes "f") events shipper shipped events_keep
      events_happen refl

-- The context ends while the batch cannot be sent.
abbrev fails : List Attempt
fails = record { call = unanswered (other []); saving = saves; ctx_done = true } ∷ []

abbrev waits : Loop
waits = record (start shipper) { batch = first ∷ second ∷ []; queue = third ∷ [] }

-- Between the parts of the second line.
abbrev reads_on : FileState
reads_on = record { inode = 3; offset = 15; pending = [] }

read_file-append_example :
    let first =
      read_file settings (bytes "f") source (whole_file 3 content) (some reads_on) none none in
    let grown = whole_file 3 (content ++ content) in
    let second = read_file settings (bytes "f") source grown (some first.state) none none in
    let once = read_file settings (bytes "f") source grown (some reads_on) none none in
    (first.sent ++ second.sent ≡ once.sent) × (second.state ≡ once.state)
read_file-append_example =
    read_file-append settings (bytes "f") source 3 content content reads_on none (inr (omega arith))

-- The context has ended while one entry is in the batch, one in the channel and one to be sent.
abbrev stopped : Agent
stopped = record {
  to_send = third ∷ [];
  tailer_error = some (sentinel canceled);
  loop = record (start shipper) { batch = first ∷ []; queue = second ∷ []; is_cancelled = true };
}

stopped-IsStopping : IsStopping stopped
unfolding start
stopped-IsStopping = (refl, refl, refl)

run-last_acts_example :
    (a' : Agent) × (Agent.run positions_codec (pos 2) (last_acts stopped (summary 3) saves) stopped
      ≡ some a')
    × (length (last_acts stopped (summary 3) saves)
        ≡ length stopped.loop.queue + (2 * length stopped.to_send + 2))
    × (result a'
        ≡ some (if error_is (sentinel canceled) canceled then none else some (sentinel canceled)))
    × (a'.loop.shipper
        ≡ final positions_codec
            (summary 3)
            saves
            ((stopped.loop.batch ++ stopped.loop.queue) ++ stopped.to_send)
            stopped.loop.shipper)
run-last_acts_example =
    run-last_acts positions_codec (pos 2) (summary 3) saves stopped (sentinel canceled)
      (omega arith) stopped-IsStopping refl

-- The first entry is shipped and its position saved; behind the second the save breaks off.
abbrev one_by_one : List Act
one_by_one =
    sends
    ∷ loops (receives ((record { call = summary 1; saving = saves; ctx_done = false }) ∷ []))
    ∷ sends
    ∷ loops (
        receives
          ((record { call = summary 1; saving = not_renamed (other []); ctx_done = false }) ∷ []))
    ∷ []

abbrev killed : Agent
killed = elim (Agent.run positions_codec (pos 1) one_by_one agent) [ none ↦ agent | some a ↦ a ]

one_by_one_happens : Agent.run positions_codec (pos 1) one_by_one agent ≡ some killed
unfolding Agent.run scan on_line parse_line equal Loop.step start flush
    crm_beginner.LogAgent.Shipper.send
one_by_one_happens = refl

one_by_one_keeps : All (KeepsAct (bytes "f")) one_by_one
one_by_one_keeps = (tt, (tt, (tt, (tt, tt))))

no_file_loads : load positions_codec none shipper.disk ≡ ok shipper.positions
unfolding load
no_file_loads = refl

nothing_dropped : killed.loop.dropped ≡ []
unfolding Agent.run scan on_line parse_line equal Loop.step start flush
    crm_beginner.LogAgent.Shipper.send
nothing_dropped = refl

no_position : get (bytes "f") shipper.positions ≡ none
unfolding get lookup
no_position = refl

run-killed_example :
    (m : Saved) × (older : List Entry) × (again : List Entry) × (load positions_codec none
        killed.loop.shipper.disk
      ≡ ok m)
    × (killed.loop.shipped_entries ≡ older ++ again)
    × ((read_file settings
          (bytes "f")
          source
          (whole_file 3 content)
          none
          (get (bytes "f") m)
          none).sent
        ≡ again ++ (killed.loop.batch ++ (killed.loop.queue ++ killed.to_send)))
run-killed_example =
    run-killed positions_codec (pos 1) settings (bytes "f") source 3 content one_by_one shipper
      agent killed no_file_loads refl refl no_position one_by_one_keeps one_by_one_happens
      nothing_dropped
