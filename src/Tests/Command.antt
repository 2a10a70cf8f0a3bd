-- ===== src/Tests/Command.antt =====
-- The command of the agent.
use crm_beginner.Base.{
  ◌≡◌, refl, true, false, if◌then◌else◌, none, some, List, [], ◌∷◌, ◌++◌, ok, err, Result,
}
use crm_beginner.Domain.{Error, sentinel, canceled, error_is, wrap}
use crm_beginner.LogAgent.Agent
use crm_beginner.LogAgent.Agent.Ends.{IsStopping, last_acts}
use crm_beginner.LogAgent.Agent.{Act, Agent, begin, sends, loops}
use crm_beginner.LogAgent.Command.Ends.{main-last_acts}
use crm_beginner.LogAgent.Command.{Surroundings, dials, hangs_up, main}
use crm_beginner.LogAgent.Config.{tailer_settings}
use crm_beginner.LogAgent.Cri.{parse_file_name, parse_line}
use crm_beginner.LogAgent.Positions.{saves, load, get}
use crm_beginner.LogAgent.Shipper.Loop
use crm_beginner.LogAgent.Shipper.Loop.{cancels, start}
use crm_beginner.LogAgent.Shipper.{summary}
use crm_beginner.LogAgent.Tailer.Polling.{poll, wanted}
use crm_beginner.LogAgent.Tailer.Running
use crm_beginner.LogAgent.Tailer.Running.{Turn}
use crm_beginner.LogAgent.Tailer.{on_line, scan, read_file}
use crm_beginner.Tests.Data.{positions_codec}
use crm_beginner.Tests.Lifecycle.{agent_outside, agent_config, agent_loads}
use crm_beginner.Tests.Settings.{env}
use crm_beginner.Text.Dict.{lookup}
use crm_beginner.Text.{Bytes, bytes, equal}

abbrev path : Bytes
path = bytes "/v/p_crm_c-aaaaaaaaaaaaaaaabbbbbbbbbbbbbbbbccccccccccccccccdddddddddddddddd.log"

-- One poll, which finds one line; then the context has ended.
abbrev turns : List Turn
turns =
    (record {
      positions = [];
      globbed = ok (
          (
            path,
            ok (record {
              inode = 3;
              size = 17;
              content = bytes "t stdout F hello\n";
              read_error = none;
            }),
          )
          ∷ []);
      has_ended = λ p. false;
      budget = none;
      is_done = true;
    })
    ∷ []

abbrev surroundings : Surroundings
surroundings = record {
  env = env;
  out = agent_outside;
  new_client = λ addr. none;
  codec = positions_codec;
  read_failure = none;
  disk = record { file = none; tmp = none };
  is_time = λ s. true;
  map_lower = λ s. s;
  turns = turns;
}

abbrev begun : Result Error Agent
begun =
    begin positions_codec (tailer_settings (λ s. true) (λ s. s) agent_config) none surroundings.disk
      turns

abbrev nobody : Agent
nobody = record {
  to_send = [];
  tailer_error = none;
  loop = start (record { positions = []; disk = surroundings.disk; shipped = 0 });
}

abbrev agent : Agent
agent = elim begun [ err e ↦ nobody | ok a ↦ a ]

begun_well : begun ≡ ok agent
unfolding begin load Running.run poll wanted parse_file_name
begun_well = refl

-- The tailer sends its entry, and the context ends.
abbrev acts : List Act
acts = sends ∷ loops cancels ∷ []

abbrev ended : Agent
ended = elim (Agent.run positions_codec agent_config.batch_size acts agent) [
  | none ↦ agent
  | some a ↦ a
]

acts_happen : Agent.run positions_codec agent_config.batch_size acts agent ≡ some ended
unfolding begin load Running.run poll wanted parse_file_name Agent.run Loop.step start equal
    read_file scan on_line parse_line get lookup
acts_happen = refl

ended-IsStopping : IsStopping ended
unfolding begin load Running.run poll wanted parse_file_name Agent.run Loop.step start equal
    read_file scan on_line parse_line get lookup
ended-IsStopping = (refl, refl, refl)

ended_by_context : ended.tailer_error ≡ some (sentinel canceled)
unfolding begin load Running.run poll wanted parse_file_name Agent.run Loop.step start equal
    read_file scan on_line parse_line get lookup
ended_by_context = refl

main-last_acts_example :
    main surroundings (acts ++ last_acts ended (summary 1) saves)
    ≡ some (
        if error_is (sentinel canceled) canceled
        then record { fatal = none; actions = dials agent_config.ingest_addr ∷ hangs_up ∷ [] }
        else record {
          fatal = some (wrap (bytes "log-agent") (sentinel canceled));
          actions = dials agent_config.ingest_addr ∷ [];
        })
main-last_acts_example =
    main-last_acts surroundings agent_config acts agent ended (sentinel canceled) (summary 1) saves
      agent_loads refl begun_well acts_happen ended-IsStopping ended_by_context
