-- ===== src/LogAgent/Command.antt =====
-- cmd/log-agent/main.go: the command that runs the agent.
pub mod Ends
use crm_beginner.Base.{Bool, Option, none, some, List, [], ◌∷◌, Result, ok, err}
use mathlib.Core.Option
use crm_beginner.Config.{Environment}
use crm_beginner.Domain.{Error, wrap}
use crm_beginner.LogAgent.Agent
use crm_beginner.LogAgent.Agent.{Agent, Act, begin, result}
use crm_beginner.LogAgent.Config.{Config, Outside, load_config, tailer_settings}
use crm_beginner.LogAgent.Positions.{Codec, Disk}
use crm_beginner.LogAgent.Tailer.Running.{Turn}
use crm_beginner.LogAgent.Tailer.{Settings}
use crm_beginner.Text.{Bytes, bytes}

-- What the command does to its connection: `grpc.NewClient` with the address, and the deferred
-- `Close`.
pub data Action : Type 0 where
  dials : Bytes → Action
  hangs_up : Action

-- The end of the process: the error of its `log.Fatalf`, `none` if `main` returns, and what it did.
pub record Exit : Type 0 where
  pub fatal : Option Error
  pub actions : List Action

-- What the command runs in: the environment of its configuration, what `grpc.NewClient` answers to an
-- address, JSON and the file of the positions, the parsing of times and the lower case of the tailer,
-- and the turns of the tailer's loop.
pub record Surroundings : Type 0 where
  pub env : Environment
  pub out : Outside
  pub new_client : Bytes → Option Error
  pub codec : Codec
  pub read_failure : Option Error
  pub disk : Disk
  pub is_time : Bytes → Bool
  pub map_lower : Bytes → Bytes
  pub turns : List Turn

-- `main` behind `Run`: `log.Fatalf` leaves the process without the deferred `Close`.
after_run : Config → Option Error → Exit
after_run cfg (some e) = record {
  fatal = some (wrap (bytes "log-agent") e);
  actions = dials cfg.ingest_addr ∷ [];
}
after_run cfg none = record { fatal = none; actions = dials cfg.ingest_addr ∷ hangs_up ∷ [] }

module _ (s : Surroundings) where
  settings : Config → Settings
  settings cfg = tailer_settings s.is_time s.map_lower cfg

  -- `Run` over a sequence of acts, `none` while it has not returned.
  run_agent : Config → List Act → Result Error Agent → Option Exit
  unfolding after_run
  run_agent cfg acts (err e) = some (after_run cfg (some e))
  run_agent cfg acts (ok a) = elim (Agent.run s.codec cfg.batch_size acts a) [
    | none ↦ none
    | some a' ↦ Option.map (after_run cfg) (result a')
  ]

  connected : Config → List Act → Option Error → Option Exit
  unfolding run_agent settings
  connected cfg acts (some e) =
      some (record { fatal = some (wrap (bytes "log-agent: grpc client") e); actions = [] })
  connected cfg acts none =
      run_agent cfg acts (begin s.codec (settings cfg) s.read_failure s.disk s.turns)

  -- `main`, where the agent's `Run` is a sequence of acts; `none` while it has not returned.
  unfoldable pub main : List Act → Option Exit
  unfolding connected
  main acts = elim (load_config s.env s.out) [
    | err e ↦ some (record { fatal = some (wrap (bytes "log-agent: config") e); actions = [] })
    | ok cfg ↦ connected cfg acts (s.new_client cfg.ingest_addr)
  ]
