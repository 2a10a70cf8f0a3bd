-- ===== src/LogAgent/Config.antt =====
-- internal/logagent/config.go: the configuration of the agent, from its environment.
pub mod Valid
use crm_beginner.Base.Int.{ℤ, pos, leb_ℤ}
use crm_beginner.Base.{Bool, false, Option, none, some, ◌++◌, if◌then◌else◌, Result, ok, err}
use crm_beginner.Config.{Environment, and_then, get_env, get_env_duration, get_env_int}
use crm_beginner.Domain.{Error, other, wrap}
use crm_beginner.LogAgent.Tailer.{Settings}
use crm_beginner.Text.Decimal.{decimal_int}
use crm_beginner.Text.{Bytes, bytes, is_empty, trim_space}

-- Durations are in nanoseconds. `exclude` is the `MatchString` of the expression, `none` for nil.
pub record Config : Type 0 where
  pub ingest_addr : Bytes
  pub log_dir : Bytes
  pub namespace : Bytes
  pub self_container : Bytes
  pub positions_file : Bytes
  pub batch_size : ℤ
  pub flush_interval : ℤ
  pub poll_interval : ℤ
  pub exclude : Option (Bytes → Bool)

-- What `os` has besides, `none` for a variable that is not set, and `regexp.Compile`.
pub record Outside : Type 0 where
  pub lookup_env : Bytes → Option Bytes
  pub compile : Bytes → Result Error (Bytes → Bool)

abbrev default_exclude : Bytes
default_exclude =
    bytes
      "/log\\.LogService/IngestLogs |ingester worker \\d+: flushed |IngestLogs: dropping one entry"

module _ (env : Environment) (out : Outside) where
  -- `envString`, `envInt` and `envDuration` are the helpers of internal/config over again.
  abbrev env_string : Bytes → Bytes → Bytes
  env_string = get_env env

  abbrev env_int : Bytes → ℤ → Result Error ℤ
  env_int = get_env_int env

  abbrev env_duration : Bytes → ℤ → Result Error ℤ
  env_duration = get_env_duration env

  -- The namespace, where a blank one is a choice.
  read_namespace : Bytes
  read_namespace = elim (out.lookup_env (bytes "LOG_NAMESPACE")) [
    | none ↦ bytes "crm"
    | some v ↦ trim_space v
  ]

  compiled : Result Error (Bytes → Bool) → Result Error (Option (Bytes → Bool))
  compiled (ok matches) = ok (some matches)
  compiled (err e) = err (wrap (bytes "LOG_EXCLUDE") e)

  -- The expression of what is excluded, where an empty one excludes nothing.
  read_exclude : Result Error (Option (Bytes → Bool))
  unfolding compiled
  read_exclude =
      let text : Bytes = elim (out.lookup_env (bytes "LOG_EXCLUDE")) [
        | none ↦ default_exclude
        | some v ↦ v
      ] in
      if is_empty text then ok none else compiled (out.compile text)

  not_positive : Bytes → Bytes → Result Error Config
  not_positive key got = err (other (key ++ (bytes " must be positive, got " ++ got)))

  -- The `switch` at the end.
  validated : Config → Result Error Config
  unfolding not_positive
  validated c =
      if leb_ℤ c.batch_size (pos 0)
      then not_positive (bytes "BATCH_SIZE") (decimal_int c.batch_size)
      else if leb_ℤ c.flush_interval (pos 0)
      then not_positive (bytes "FLUSH_INTERVAL") (env.duration_text c.flush_interval)
      else if leb_ℤ c.poll_interval (pos 0)
      then not_positive (bytes "POLL_INTERVAL") (env.duration_text c.poll_interval)
      else ok c

  -- What is read, behind the four that may fail.
  abbrev read_config : ℤ → ℤ → ℤ → Option (Bytes → Bool) → Config
  read_config batch_size flush_interval poll_interval matches = record {
    ingest_addr = env_string (bytes "INGEST_ADDR") (bytes "crm-server:50051");
    log_dir = env_string (bytes "LOG_DIR") (bytes "/var/log/containers");
    namespace = read_namespace;
    self_container = env_string (bytes "SELF_CONTAINER") (bytes "log-agent");
    positions_file =
        env_string (bytes "POSITIONS_FILE") (bytes "/var/lib/crm-log-agent/positions.json");
    batch_size = batch_size;
    flush_interval = flush_interval;
    poll_interval = poll_interval;
    exclude = matches;
  }

  -- `LoadConfig`.
  unfoldable pub load_config : Result Error Config
  unfolding read_namespace read_exclude validated
  load_config = and_then (env_int (bytes "BATCH_SIZE") (pos 500)) λ batch_size.
      and_then (env_duration (bytes "FLUSH_INTERVAL") (pos 1_000_000_000)) λ flush_interval.
        and_then (env_duration (bytes "POLL_INTERVAL") (pos 1_000_000_000)) λ poll_interval.
          and_then read_exclude
            λ matches. validated (read_config batch_size flush_interval poll_interval matches)

-- What the tailer takes of it: `t.cfg.Exclude != nil && t.cfg.Exclude.MatchString(message)`.
abbrev pub tailer_settings : (Bytes → Bool) → (Bytes → Bytes) → Config → Settings
tailer_settings is_time map_lower c = record {
  is_time = is_time;
  map_lower = map_lower;
  excluded = λ message. elim c.exclude [ none ↦ false | some matches ↦ matches message ];
  namespace = c.namespace;
  self_container = c.self_container;
}
