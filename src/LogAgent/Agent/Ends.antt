-- ===== src/LogAgent/Agent/Ends.antt =====
-- About the end of `Run` of internal/logagent/agent.go behind the end of its context.
use crm_beginner.Base.Int.{ℤ, pos_part}
use crm_beginner.Base.{
  ◌+◌, ◌*◌, ◌<◌, ◌≡◌, ◌∙◌, refl, sym, ap, true, false, Option, none, some, List, [], ◌∷◌, ◌++◌,
  append_assoc, append-nil, if◌then◌else◌, length, arith,
}
use mathlib.Core.Option
use crm_beginner.Domain.{Error, canceled, error_is}
use crm_beginner.LogAgent.Agent.{
  Agent, Act, sends, closes_channel, loops, is_its_own, send_next, close_channel, step, run, result,
}
use crm_beginner.LogAgent.Positions.{Codec, Saving}
use crm_beginner.LogAgent.Shipper.Loop
use crm_beginner.LogAgent.Shipper.Loop.Abandoned.{ended, receive-ended}
use crm_beginner.LogAgent.Shipper.Loop.Closing.{returned, arrives-ended}
use crm_beginner.LogAgent.Shipper.Loop.{Loop, Event, arrives, receives, closes, sees_close}
use crm_beginner.LogAgent.Shipper.{Call, final}
use crm_beginner.LogAgent.Tailer.{Entry}

-- The shipper receives what is in the channel; then the tailer sends each of its entries and the
-- shipper receives it; then the channel is closed, and the last send is made.
abbrev receive_all : List Entry → List Act → List Act
receive_all [] acts = acts
receive_all (e ∷ queue) acts = loops (receives []) ∷ receive_all queue acts

abbrev pass_all : List Entry → List Act → List Act
pass_all [] acts = acts
pass_all (e ∷ to_send) acts = sends ∷ loops (receives []) ∷ pass_all to_send acts

abbrev pub last_acts : Agent → Call → Saving → List Act
last_acts a call saving =
    receive_all a.loop.queue
      (pass_all a.to_send (closes_channel ∷ loops (sees_close call saving) ∷ []))

length-receive_all :
    (queue : List Entry) (acts : List Act)
    → length (receive_all queue acts) ≡ length queue + length acts
length-receive_all [] acts = omega arith
length-receive_all (e ∷ queue) acts = omega (arith, length-receive_all queue acts)

length-pass_all :
    (to_send : List Entry) (acts : List Act)
    → length (pass_all to_send acts) ≡ 2 * length to_send + length acts
length-pass_all [] acts = omega arith
length-pass_all (e ∷ to_send) acts = omega (arith, length-pass_all to_send acts)

-- An agent whose context has ended.
abbrev stopping : List Entry → List Entry → List Entry → Option Error → Loop → Agent
stopping batch queue to_send tailer_error l = record {
  to_send = to_send;
  tailer_error = tailer_error;
  loop = ended batch queue l l.shipper l.dropped;
}

module _ (codec : Codec) (batch_size : ℤ) (tailer_error : Option Error) where
  receives-stopping :
      (batch : List Entry) (e : Entry) (queue to_send : List Entry) (l : Loop)
      → step codec batch_size
          (loops (receives []))
          (stopping batch (e ∷ queue) to_send tailer_error l)
        ≡ some (stopping (batch ++ (e ∷ [])) queue to_send tailer_error l)
  unfolding step is_its_own
  receives-stopping batch e queue to_send l =
      ap (Option.map (λ m. record { to_send = to_send; tailer_error = tailer_error; loop = m }))
        (receive-ended codec batch_size batch e queue l l.shipper l.dropped)

  sends-stopping :
      (batch : List Entry) (e : Entry) (to_send : List Entry) (l : Loop)
      → 0 < pos_part batch_size
      → l.closed ≡ false
      → step codec batch_size sends (stopping batch [] (e ∷ to_send) tailer_error l)
        ≡ some (
            stopping batch
              (e ∷ [])
              to_send
              tailer_error
              (record l { arrived = l.arrived ++ (e ∷ []) }))
  unfolding step send_next
  sends-stopping batch e to_send l p c =
      ap (Option.map (λ m. record { to_send = to_send; tailer_error = tailer_error; loop = m }))
        (arrives-ended codec batch_size batch e l p c)

  receive_all-stopping :
      (queue batch to_send : List Entry) (l : Loop) (acts : List Act)
      → run codec batch_size (receive_all queue acts) (stopping batch queue to_send tailer_error l)
        ≡ run codec batch_size acts (stopping (batch ++ queue) [] to_send tailer_error l)
  unfolding run
  receive_all-stopping [] batch to_send l acts =
      ap (λ b. run codec batch_size acts (stopping b [] to_send tailer_error l))
        (sym (append-nil batch))
  receive_all-stopping (e ∷ queue) batch to_send l acts =
      rw (run, receives-stopping batch e queue to_send l)
        (receive_all-stopping queue (batch ++ (e ∷ [])) to_send l acts
          ∙ ap (λ b. run codec batch_size acts (stopping b [] to_send tailer_error l))
              (append_assoc batch (e ∷ []) queue))

  -- The tailer's last entries go through the channel; `arrived` records them.
  pass_all-stopping :
      (to_send batch : List Entry) (l : Loop) (acts : List Act)
      → 0 < pos_part batch_size
      → l.closed ≡ false
      → run codec batch_size (pass_all to_send acts) (stopping batch [] to_send tailer_error l)
        ≡ run codec batch_size acts (
            stopping
              (batch ++ to_send)
              []
              []
              tailer_error
              (record l { arrived = l.arrived ++ to_send }))
  unfolding run
  pass_all-stopping [] batch l acts p c =
      ap (λ b. run codec batch_size acts (stopping b [] [] tailer_error l)) (sym (append-nil batch))
      ∙ ap
          (λ x.
            run codec batch_size acts
              (stopping (batch ++ []) [] [] tailer_error (record l { arrived = x })))
          (sym (append-nil l.arrived))
  pass_all-stopping (e ∷ to_send) batch l acts p c =
      let l' : Loop = record l { arrived = l.arrived ++ (e ∷ []) } in
      rw (run, sends-stopping batch e to_send l p c, run, receives-stopping batch e [] to_send l')
        (pass_all-stopping to_send (batch ++ (e ∷ [])) l' acts p c
          ∙ ap
              (λ b. run codec batch_size acts (
                stopping b [] [] tailer_error
                  (record l { arrived = (l.arrived ++ (e ∷ [])) ++ to_send })))
              (append_assoc batch (e ∷ []) to_send)
          ∙ ap
              (λ x.
                run codec batch_size acts
                  (stopping (batch ++ (e ∷ to_send)) [] [] tailer_error (record l { arrived = x })))
              (append_assoc l.arrived (e ∷ []) to_send))

  closes-stopping :
      (call : Call) (saving : Saving) (batch : List Entry) (e : Error) (l : Loop)
      → tailer_error ≡ some e
      → run codec batch_size
          (closes_channel ∷ loops (sees_close call saving) ∷ [])
          (stopping batch [] [] tailer_error l)
        ≡ some (record {
          to_send = [];
          tailer_error = tailer_error;
          loop = returned call saving codec batch l;
        })
  unfolding run step close_channel is_its_own Loop.step
  closes-stopping call saving batch e l t = rw (t, run, step, close_channel) refl

-- The context has ended, and neither loop has.
abbrev pub IsStopping : Agent → Type 0
IsStopping a =
    (a.loop.closed ≡ false) × (a.loop.is_cancelled ≡ true) × (a.loop.has_returned ≡ false)

stopping-same :
    (a : Agent)
    → IsStopping a
    → a ≡ stopping a.loop.batch a.loop.queue a.to_send a.tailer_error a.loop
stopping-same a (o, c, n) =
    λ i. record a { loop = record (a.loop) { is_cancelled = c i; has_returned = n i } }

-- When the context of the agent has ended, whatever the agent still holds and whatever the server
-- answers to the last call: `Run` can return. It takes one act for each entry of the channel, two for
-- each that the tailer has still to send, and two more; `Run` returns nil if the tailer ended by the
-- context and else the tailer's error; and the shipper is left as one send of all of these entries,
-- behind those of the batch, leaves it. The batch size must be positive.
pub run-last_acts :
    (codec : Codec) (batch_size : ℤ) (call : Call) (saving : Saving) (a : Agent) (e : Error)
    → 0 < pos_part batch_size
    → IsStopping a
    → a.tailer_error ≡ some e
    → (a' : Agent) × (run codec batch_size (last_acts a call saving) a ≡ some a')
      × (length (last_acts a call saving) ≡ length a.loop.queue + (2 * length a.to_send + 2))
      × (result a' ≡ some (if error_is e canceled then none else some e))
      × (a'.loop.shipper
          ≡ final codec call saving ((a.loop.batch ++ a.loop.queue) ++ a.to_send) a.loop.shipper)
unfolding result
run-last_acts codec batch_size call saving a e p v t =
    let l : Loop = record (a.loop) { arrived = a.loop.arrived ++ a.to_send } in
    let held = (a.loop.batch ++ a.loop.queue) ++ a.to_send in
    let last : List Act = closes_channel ∷ loops (sees_close call saving) ∷ [] in
    (
      record {
        to_send = [];
        tailer_error = a.tailer_error;
        loop = returned call saving codec held l;
      },
      ap (run codec batch_size (last_acts a call saving)) (stopping-same a v)
          ∙ receive_all-stopping codec batch_size a.tailer_error a.loop.queue a.loop.batch a.to_send
              a.loop (pass_all a.to_send last)
          ∙ pass_all-stopping codec batch_size a.tailer_error a.to_send
              (a.loop.batch ++ a.loop.queue) a.loop last p v.0
          ∙ closes-stopping codec batch_size a.tailer_error call saving held e l t,
      length-receive_all a.loop.queue (pass_all a.to_send last)
          ∙ ap (λ n. length a.loop.queue + n) (length-pass_all a.to_send last),
      rw t refl,
      refl,
    )
