-- ===== src/LogAgent/Agent/Crash.antt =====
-- About internal/logagent/agent.go: an agent that is killed, and the one that is started next.
use crm_beginner.Base.Int.{ℤ}
use crm_beginner.Base.{ℕ, ◌≡◌, sym, ap, ◌∙◌, none, some, List, [], ◌++◌, All, append_assoc, ok}
use crm_beginner.LogAgent.Agent.{Agent, Act, run}
use crm_beginner.LogAgent.Agent.Exactly.{read_file-others}
use crm_beginner.LogAgent.Agent.Loops.{KeepsAct, run-Runs}
use crm_beginner.LogAgent.Cri.{Source}
use crm_beginner.LogAgent.Positions.{Saved, Codec, get, load}
use crm_beginner.LogAgent.Shipper.Delivery.{last_position, or_old}
use crm_beginner.LogAgent.Shipper.Loop
use crm_beginner.LogAgent.Shipper.Loop.OnDisk.{start-OnDisk}
use crm_beginner.LogAgent.Shipper.Loop.Order.{run-Accounts}
use crm_beginner.LogAgent.Shipper.Loop.{Loop, start}
use crm_beginner.LogAgent.Shipper.{Shipper}
use crm_beginner.LogAgent.Tailer.Restart.{whole_file}
use crm_beginner.LogAgent.Tailer.{Entry, Settings, scan, read_file}
use crm_beginner.Text.{Bytes}

-- An agent that starts with the positions of its file, none of them of `path`, and whose tailer sends
-- what one pass over that log file gives, is killed in any state, also in the midst of a save. If no
-- flush was abandoned and the tailer did not forget the file, the positions file can be read, and
-- the next agent, which begins from it, sends for the log file all entries of which no receipt had
-- arrived, in their order, behind at most some of the last ones that were shipped: nothing is lost, and
-- nothing but these is sent twice.
pub run-killed :
    (codec : Codec) (batch_size : ℤ) (cfg : Settings) (path : Bytes) (src : Source) (inode : ℕ)
    (content : Bytes) (acts : List Act) (s : Shipper) (a a' : Agent)
    → load codec none s.disk ≡ ok s.positions
    → a.loop ≡ start s
    → a.to_send ≡ (scan cfg path src inode none none [] 0 [] content).sent
    → get path s.positions ≡ none
    → All (KeepsAct path) acts
    → run codec batch_size acts a ≡ some a'
    → a'.loop.dropped ≡ []
    → (m : Saved) × (older : List Entry) × (again : List Entry) × (load codec none
          a'.loop.shipper.disk
        ≡ ok m)
      × (a'.loop.shipped_entries ≡ older ++ again)
      × ((read_file cfg path src (whole_file inode content) none (get path m) none).sent
          ≡ again ++ (a'.loop.batch ++ (a'.loop.queue ++ a'.to_send)))
unfolding start
run-killed codec batch_size cfg path src inode content acts s a a' loaded started sent none_old
      keeps h d =
    let r = run-Runs codec batch_size path acts a a' keeps h in
    let happen = ap (Loop.run codec batch_size r.events) (sym started) ∙ r.happen in
    let v = run-Accounts codec batch_size path r.events s a'.loop r.keep happen d in
    let w = start-OnDisk codec batch_size path r.events s a'.loop loaded r.keep happen d in
    let position : get path w.saved ≡ or_old (last_position path w.older) none =
      w.position ∙ ap (or_old (last_position path w.older)) none_old in
    (
      w.saved,
      w.older,
      w.newer,
      w.loads,
      w.split,
      rw position (
          read_file-others cfg path src inode content w.older
            (w.newer ++ (a'.loop.batch ++ (a'.loop.queue ++ a'.to_send)))
            (sym sent
              ∙ ap (λ (l : Loop). l.arrived ++ a.to_send) (sym started)
              ∙ sym r.passed_on
              ∙ ap (λ x. x ++ a'.to_send) v.in_order
              ∙ ap (λ x. (x ++ (a'.loop.batch ++ a'.loop.queue)) ++ a'.to_send) w.split
              ∙ simp append_assoc)),
    )
