-- ===== src/LogAgent/Agent/Exactly.antt =====
-- About internal/logagent/agent.go: what an agent has not shipped, and what the next one reads.
use crm_beginner.Base.Int.{ℤ}
use crm_beginner.Base.{
  ℕ, ◌≡◌, ◌⊎◌, refl, sym, ap, ◌∙◌, subst, inl, inr, none, some, List, [], ◌∷◌, ◌++◌, All, arith,
  append_assoc,
}
use crm_beginner.LogAgent.Agent.{Agent, Act, run}
use crm_beginner.LogAgent.Agent.Loops.{KeepsAct, run-Runs}
use crm_beginner.LogAgent.Cri.{Source}
use crm_beginner.LogAgent.Positions.{Codec, get}
use crm_beginner.LogAgent.Shipper.Delivery.{last_position, or_old}
use crm_beginner.LogAgent.Shipper.Loop
use crm_beginner.LogAgent.Shipper.Loop.Order.{run-Accounts}
use crm_beginner.LogAgent.Shipper.Loop.{
  Loop, Event, arrives, retains, closes, cancels, reports, receives, ticks, sees_close, start,
}
use crm_beginner.LogAgent.Shipper.Loop.Flushes.{last_position-append}
use crm_beginner.LogAgent.Shipper.{Shipper}
use crm_beginner.LogAgent.Tailer.Restart.{whole_file, IsFrom, scan-IsFrom, read_file-saved}
use crm_beginner.LogAgent.Tailer.Resume.{scan-resume, scan-offset}
use crm_beginner.LogAgent.Tailer.{Entry, Pass, Settings, scan, read_file}
use crm_beginner.Text.Search.{equal_iff}
use crm_beginner.Text.{Bytes}

-- A list ends in a last element, or is empty.
last-cases : (xs : List Entry) → (xs ≡ []) ⊎ ((ys : List Entry) × (e : Entry) × (xs ≡ ys ++ e ∷ []))
last-cases [] = inl refl
last-cases (x ∷ xs) = elim (last-cases xs) [
  | inl n ↦ inr ([], x, ap (◌∷◌ x) n)
  | inr (ys, e, h) ↦ inr (x ∷ ys, e, ap (◌∷◌ x) h)
]

All-middle :
    (P : Entry → Type 0) (xs : List Entry) (e : Entry) (ys : List Entry)
    → All P (xs ++ e ∷ ys)
    → P e
All-middle P [] e ys (h, hs) = h
All-middle P (x ∷ xs) e ys (h, hs) = All-middle P xs e ys hs

last_position-last :
    (path : Bytes) (ys : List Entry) (e : Entry)
    → e.file ≡ path
    → or_old (last_position path (ys ++ e ∷ [])) none
      ≡ some (record { inode = e.inode; offset = e.offset })
last_position-last path ys e h =
    ground (arith, last_position-append path ys (e ∷ []), equal_iff e.file path)

module _ (cfg : Settings) (path : Bytes) (src : Source) (inode : ℕ) where
  others_behind :
      (content : Bytes) (ys : List Entry) (e : Entry) (others : List Entry)
      → (scan cfg path src inode none none [] 0 [] content).sent ≡ ys ++ e ∷ others
      → (read_file cfg path src
          (whole_file inode content)
          none
          (or_old (last_position path (ys ++ e ∷ [])) none)
          none).sent
        ≡ others
  others_behind content ys e others h =
      let from = All-middle (IsFrom cfg path src inode) ys e others (
        subst (All (IsFrom cfg path src inode)) h
          (scan-IsFrom cfg path src inode none [] 0 [] content)) in
      rw (last_position-last path ys e from.0) (
        read_file-saved cfg path src inode content
          (some (record { inode = e.inode; offset = e.offset })) from.1
          (scan-offset cfg path src inode none content ys e others h)
        ∙ ap (λ (p : Pass). p.sent) (scan-resume cfg path src inode none content ys e others h))

  -- Reading a file at the position of the last of the first entries gives the others.
  pub read_file-others :
      (content : Bytes) (shipped others : List Entry)
      → (scan cfg path src inode none none [] 0 [] content).sent ≡ shipped ++ others
      → (read_file cfg path src
          (whole_file inode content)
          none
          (or_old (last_position path shipped) none)
          none).sent
        ≡ others
  read_file-others content shipped others h = elim (last-cases shipped) [
    | inl n ↦ rw n (
        read_file-saved cfg path src inode content none tt (omega arith)
        ∙ h
        ∙ ap (λ x. x ++ others) n)
    | inr (ys, e, last) ↦ rw last (
        others_behind content ys e others
          (h ∙ ap (λ x. x ++ others) last ∙ append_assoc ys (e ∷ []) others))
  ]

-- An agent that starts with no position of a file and whose tailer sends what one pass over that file
-- gives, stopped in any state, if no flush was abandoned and the tailer did not forget the file: the
-- agent that reads the same file next, from the recorded position, sends exactly those entries of
-- which no receipt has arrived, in their order, each of them once.
pub run-unshipped :
    (codec : Codec) (batch_size : ℤ) (cfg : Settings) (path : Bytes) (src : Source) (inode : ℕ)
    (content : Bytes) (acts : List Act) (s : Shipper) (a a' : Agent)
    → a.loop ≡ start s
    → a.to_send ≡ (scan cfg path src inode none none [] 0 [] content).sent
    → get path s.positions ≡ none
    → All (KeepsAct path) acts
    → run codec batch_size acts a ≡ some a'
    → a'.loop.dropped ≡ []
    → (read_file cfg path src
        (whole_file inode content)
        none
        (get path a'.loop.shipper.positions)
        none).sent
      ≡ a'.loop.batch ++ (a'.loop.queue ++ a'.to_send)
unfolding start
run-unshipped codec batch_size cfg path src inode content acts s a a' started sent none_old keeps h
      d =
    let r = run-Runs codec batch_size path acts a a' keeps h in
    let v =
      run-Accounts codec batch_size path r.events s a'.loop r.keep
        (ap (Loop.run codec batch_size r.events) (sym started) ∙ r.happen) d in
    let position : get path a'.loop.shipper.positions
        ≡ or_old (last_position path a'.loop.shipped_entries) none =
      v.recorded ∙ ap (or_old (last_position path a'.loop.shipped_entries)) none_old in
    rw position (
      read_file-others cfg path src inode content a'.loop.shipped_entries
        (a'.loop.batch ++ (a'.loop.queue ++ a'.to_send))
        (sym sent
          ∙ ap (λ (l : Loop). l.arrived ++ a.to_send) (sym started)
          ∙ sym r.passed_on
          ∙ ap (λ x. x ++ a'.to_send) v.in_order
          ∙ simp append_assoc))
