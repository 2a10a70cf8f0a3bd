-- ===== src/LogAgent/Agent/Loops.antt =====
-- About internal/logagent/agent.go: a run of the agent as a run of the shipper's loop.
use crm_beginner.Base.Int.{ℤ}
use crm_beginner.Base.{
  ◌≡◌, refl, sym, ap, ◌∙◌, subst, inl, inr, true, Option, none, some, List, [], ◌∷◌, ◌++◌, All,
  arith, append_assoc, Option-cases, Bool-cases,
}
use mathlib.Core.Option
use mathlib.Core.Option.{some-injective}
use crm_beginner.Domain.{Error}
use crm_beginner.LogAgent.Agent.{
  Agent, Act, sends, closes_channel, loops, is_its_own, send_next, close_channel, step, run,
}
use crm_beginner.LogAgent.Positions.{Codec}
use crm_beginner.LogAgent.Shipper.Loop
use crm_beginner.LogAgent.Shipper.Loop.Arrivals.{sent_by, HasArrived, step-HasArrived}
use crm_beginner.LogAgent.Shipper.Loop.Order.{KeepsFile, Leads}
use crm_beginner.LogAgent.Shipper.Loop.{
  Loop, Event, arrives, retains, closes, cancels, reports, receives, ticks, sees_close, start,
}
use crm_beginner.LogAgent.Tailer.{Entry}
use crm_beginner.Text.{Bytes}

-- The tailer does not forget `file`.
abbrev pub KeepsAct : Bytes → Act → Type 0
KeepsAct file (loops e) = KeepsFile file e
KeepsAct file _ = Unit

module _ (codec : Codec) (batch_size : ℤ) (file : Bytes) where
  -- What an act of the agent is for its loop.
  record Acts (a a' : Agent) : Type 0 where
    event : Event
    happens : Loop.step codec batch_size event a.loop ≡ some a'.loop
    keeps : KeepsFile file event
    passed_on : a'.loop.arrived ++ a'.to_send ≡ a.loop.arrived ++ a.to_send

  abbrev ActsTo : Agent → Option Agent → Type 0
  ActsTo a none = Unit
  ActsTo a (some a') = Acts a a'

  by_event :
      (e : Event) (to_send : List Entry) (a : Agent) (o : Option Loop)
      → Loop.step codec batch_size e a.loop ≡ o
      → KeepsFile file e
      → a.to_send ≡ sent_by e ++ to_send
      → Leads (HasArrived (a.loop.arrived ++ sent_by e)) o
      → ActsTo a (Option.map (λ l. record a { to_send = to_send; loop = l }) o)
  by_event e to_send a none h k t v = tt
  by_event e to_send a (some l) h k t v = record {
    event = e;
    happens = h;
    keeps = k;
    passed_on =
        ap (λ x. x ++ to_send) v
        ∙ append_assoc a.loop.arrived (sent_by e) to_send
        ∙ ap (λ x. a.loop.arrived ++ x) (sym t);
  }

  send_next-Acts :
      (to_send : List Entry) (a : Agent)
      → a.to_send ≡ to_send
      → ActsTo a (send_next codec batch_size to_send a)
  unfolding send_next
  send_next-Acts [] a t = tt
  send_next-Acts (e ∷ rest) a t =
      by_event (arrives e) rest a (Loop.step codec batch_size (arrives e) a.loop) refl tt t
        (step-HasArrived codec batch_size (arrives e) a.loop)

  close_channel-Acts :
      (to_send : List Entry) (o : Option Error) (a : Agent)
      → ActsTo a (close_channel codec batch_size to_send o a)
  unfolding close_channel
  close_channel-Acts [] (some e) a =
      by_event closes a.to_send a (Loop.step codec batch_size closes a.loop) refl tt refl
        (step-HasArrived codec batch_size closes a.loop)
  close_channel-Acts [] none a = tt
  close_channel-Acts (e ∷ to_send) o a = tt

  own-sent_by : (e : Event) → is_its_own e ≡ true → sent_by e ≡ []
  unfolding is_its_own
  own-sent_by (arrives e) h = absurd cc
  own-sent_by (retains keep) h = refl
  own-sent_by closes h = refl
  own-sent_by cancels h = refl
  own-sent_by reports h = refl
  own-sent_by (receives attempts) h = refl
  own-sent_by (ticks attempts) h = refl
  own-sent_by (sees_close call saving) h = refl

  step-Acts : (act : Act) (a : Agent) → KeepsAct file act → ActsTo a (step codec batch_size act a)
  unfolding step
  step-Acts sends a k = send_next-Acts a.to_send a refl
  step-Acts closes_channel a k = close_channel-Acts a.to_send a.tailer_error a
  step-Acts (loops e) a k = elim (Bool-cases (is_its_own e)) [
    | inr other ↦ rw other tt
    | inl own ↦ rw own (
        by_event e a.to_send a (Loop.step codec batch_size e a.loop) refl k
          (ap (λ x. x ++ a.to_send) (sym (own-sent_by e own)))
          (step-HasArrived codec batch_size e a.loop))
  ]

  -- What a run of the agent is for its loop.
  pub record Runs (a a' : Agent) : Type 0 where
    pub events : List Event
    pub happen : Loop.run codec batch_size events a.loop ≡ some a'.loop
    pub keep : All (KeepsFile file) events
    pub passed_on : a'.loop.arrived ++ a'.to_send ≡ a.loop.arrived ++ a.to_send

  pub run-Runs :
      (acts : List Act) (a a' : Agent)
      → All (KeepsAct file) acts
      → run codec batch_size acts a ≡ some a'
      → Runs a a'
  unfolding run Loop.run
  run-Runs [] a a' k h =
      subst (Runs a) (some-injective _ _ h)
        (record { events = []; happen = refl; keep = tt; passed_on = refl })
  run-Runs (act ∷ acts) a a' (k, ks) h = elim (Option-cases (step codec batch_size act a)) [
    | inl n ↦ absurd (ground arith)
    | inr (a1, s) ↦
        let one = subst (ActsTo a) s (step-Acts act a k) in
        let rest = run-Runs acts a1 a' ks (ground arith) in
        record {
          events = one.event ∷ rest.events;
          happen = rw (Loop.run, one.happens) rest.happen;
          keep = (one.keeps, rest.keep);
          passed_on = rest.passed_on ∙ one.passed_on;
        }
  ]
