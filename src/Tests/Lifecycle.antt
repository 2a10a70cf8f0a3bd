-- ===== src/Tests/Lifecycle.antt =====
-- The server from its start to its end, and the configuration of the agent.
use crm_beginner.App.Ends.{is_released, main-is_released, main-fails, unserved}
use crm_beginner.App.Orderly.{Builds, new-Builds}
use crm_beginner.App.{App, new, main, fails, signals, called}
use crm_beginner.Base.Int.{pos}
use crm_beginner.Base.{
  Bool, true, List, [], ◌∷◌, ◌≡◌, refl, true, false, Option, none, some, [], ok, err, if◌then◌else◌,
}
use crm_beginner.Config.{
  and_then, cache_enabled, get_env, get_env_int, get_env_duration, ingest_config,
}
use crm_beginner.Domain.{Error, other, wrap}
use crm_beginner.LogAgent.Config
use crm_beginner.LogAgent.Config.{load_config, tailer_settings}
use crm_beginner.Postgres.Pool.{new_pool, to_int32}
use crm_beginner.Redis.Connection.{new_customer_cache}
use crm_beginner.Resources.{Outside, take_all, nothing_held}
use crm_beginner.Tests.Settings.{env, settings, loaded}
use crm_beginner.Text.{bytes, equal, trim_space}

-- Everything answers, but Redis does not if `no_redis`, and the address is taken if `taken`.
abbrev outside : Option Error → Option Error → Outside
outside no_redis taken = record {
  parse_dsn = λ dsn. none;
  create_pool = none;
  ping_pool = none;
  parse_redis_url = λ url. none;
  ping_redis = no_redis;
  listen = λ addr. taken;
}

abbrev app : App
app = record {
  cfg = settings;
  pool = some (record { max_conns = some (pos 80) });
  cache = some (record { ttl = 300_000_000_000 });
  ingester = some (ingest_config settings);
  listener = some (bytes ":50051");
}

-- All that was opened is closed when the address is taken.
new-Builds_example :
    Builds settings nothing_held
      (new (outside none (some (other (bytes "address already in use")))) settings)
new-Builds_example =
    new-Builds (outside none (some (other (bytes "address already in use")))) settings

-- `Serve` is called behind the report that the server stops, and not before.
abbrev late : List Bool
late = false ∷ true ∷ []

main-is_released_example :
    is_released called
      (take_all (main env (outside none none) (signals called late false)).1 nothing_held)
    ≡ true
main-is_released_example = main-is_released env (outside none none) called late false

app_starts : (new (outside none none) settings).0 ≡ ok app
unfolding new new_pool cache_enabled new_customer_cache to_int32
app_starts = refl

main-fails_example :
    ((main env (outside none none) (fails (other []))).0 ≡ some (wrap (bytes "serve") (other [])))
    × (take_all (main env (outside none none) (fails (other []))).1 nothing_held
        ≡ some (unserved true (cache_enabled settings) true))
main-fails_example = main-fails env (outside none none) settings (other []) app loaded app_starts

-- `LOG_NAMESPACE` is blank, and `LOG_EXCLUDE` is empty.
abbrev pub agent_outside : Config.Outside
agent_outside = record {
  lookup_env = λ key.
      if equal key (bytes "LOG_NAMESPACE")
      then some (bytes " ")
      else if equal key (bytes "LOG_EXCLUDE")
      then some []
      else none;
  compile = λ text. err (other (bytes "no expressions here"));
}

abbrev pub agent_config : Config.Config
agent_config = record {
  ingest_addr = bytes "crm-server:50051";
  log_dir = bytes "/var/log/containers";
  namespace = [];
  self_container = bytes "log-agent";
  positions_file = bytes "/var/lib/crm-log-agent/positions.json";
  batch_size = pos 500;
  flush_interval = pos 1_000_000_000;
  poll_interval = pos 1_000_000_000;
  exclude = none;
}

pub agent_loads : load_config env agent_outside ≡ ok agent_config
unfolding load_config and_then equal trim_space get_env_int get_env_duration get_env
agent_loads = refl
