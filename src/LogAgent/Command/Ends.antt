-- ===== src/LogAgent/Command/Ends.antt =====
-- About cmd/log-agent/main.go: how the command ends.
use crm_beginner.Base.Int.{ℤ, pos, negsuc, pos_part}
use crm_beginner.Base.{
  ◌<◌, ◌≡◌, refl, ap, inl, inr, none, some, List, [], ◌∷◌, ◌++◌, ok, arith, Option-cases,
  Bool-cases, if◌then◌else◌,
}
use mathlib.Core.Option.{some-injective}
use crm_beginner.Config.Valid.{Positive}
use crm_beginner.Domain.{Error, canceled, error_is, wrap}
use crm_beginner.LogAgent.Agent
use crm_beginner.LogAgent.Agent.{Agent, Act, begin, result}
use crm_beginner.LogAgent.Agent.Ends.{last_acts, IsStopping, run-last_acts}
use crm_beginner.LogAgent.Command.{
  dials, hangs_up, Surroundings, after_run, settings, run_agent, connected, main,
}
use crm_beginner.LogAgent.Config.Valid.{load_config-Valid}
use crm_beginner.LogAgent.Config.{Config, load_config, tailer_settings}
use crm_beginner.Text.{bytes}
use crm_beginner.LogAgent.Positions.{Codec, Saving}
use crm_beginner.LogAgent.Shipper.{Call}

run-behind :
    (codec : Codec) (batch_size : ℤ) (xs ys : List Act) (a b : Agent)
    → Agent.run codec batch_size xs a ≡ some b
    → Agent.run codec batch_size (xs ++ ys) a ≡ Agent.run codec batch_size ys b
unfolding Agent.run
run-behind codec batch_size [] ys a b h = ap (Agent.run codec batch_size ys) (some-injective _ _ h)
run-behind codec batch_size (x ∷ xs) ys a b h =
    elim (Option-cases (Agent.step codec batch_size x a)) [
      | inl n ↦ absurd (ground arith)
      | inr (a1, e) ↦ rw (Agent.run, e) (run-behind codec batch_size xs ys a1 b (ground arith))
    ]

has_room : (n : ℤ) → Positive n → 0 < pos_part n
has_room (pos n) p = ground arith
has_room (negsuc n) p = absurd (ground arith)

after_run-result :
    (cfg : Config) (e : Error)
    → after_run cfg (if error_is e canceled then none else some e) ≡ (
        if error_is e canceled
        then record { fatal = none; actions = dials cfg.ingest_addr ∷ hangs_up ∷ [] }
        else record {
          fatal = some (wrap (bytes "log-agent") e);
          actions = dials cfg.ingest_addr ∷ [];
        })
unfolding after_run
after_run-result cfg e = elim (Bool-cases (error_is e canceled)) [
  | inl h ↦ rw h refl
  | inr h ↦ rw h refl
]

-- A command whose configuration is accepted, whose connection is made and whose positions load, and
-- whose agent has come, by whatever acts, to a state in which its context has ended: it can end,
-- whatever the answer to its last call. If the tailer ended by the context, `main` returns behind
-- closing the connection that it opened to `INGEST_ADDR`; if by another error, the process ends with
-- that error and the connection is left open.
pub main-last_acts :
    (s : Surroundings) (cfg : Config) (acts : List Act) (a0 a : Agent) (e : Error) (call : Call)
    (saving : Saving)
    → load_config s.env s.out ≡ ok cfg
    → s.new_client cfg.ingest_addr ≡ none
    → begin s.codec (tailer_settings s.is_time s.map_lower cfg) s.read_failure s.disk s.turns
      ≡ ok a0
    → Agent.run s.codec cfg.batch_size acts a0 ≡ some a
    → IsStopping a
    → a.tailer_error ≡ some e
    → main s (acts ++ last_acts a call saving)
      ≡ some (
          if error_is e canceled
          then record { fatal = none; actions = dials cfg.ingest_addr ∷ hangs_up ∷ [] }
          else record {
            fatal = some (wrap (bytes "log-agent") e);
            actions = dials cfg.ingest_addr ∷ [];
          })
unfolding main connected run_agent settings
main-last_acts s cfg acts a0 a e call saving loaded made begun happens stopping failed =
    let valid = load_config-Valid s.env s.out cfg loaded in
    let (a', last, n, r, same) =
      run-last_acts s.codec cfg.batch_size call saving a e
        (has_room cfg.batch_size valid.batch_size) stopping failed in
    rw
      (
        loaded,
        main,
        made,
        connected,
        begun,
        run_agent,
        run-behind s.codec cfg.batch_size acts (last_acts a call saving) a0 a happens,
        last,
        r,
      )
      (ap some (after_run-result cfg e))
