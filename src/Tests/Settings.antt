-- ===== src/Tests/Settings.antt =====
-- The configuration.
use crm_beginner.Base.Int.{pos}
use crm_beginner.Base.{◌≡◌, refl, if◌then◌else◌, ok, err, []}
use crm_beginner.Config.{Config, Environment, load, validate, and_then, ingest_config}
use crm_beginner.Config.Valid.{Valid, load-with_defaults}
use crm_beginner.Domain.{other}
use crm_beginner.Ingest.{with_defaults}
use crm_beginner.Text.Decimal.{decimal_int}
use crm_beginner.Text.{bytes, equal, trim_space}

-- Two workers, and a Redis; all else is left to the defaults.
abbrev pub env : Environment
env = record {
  getenv = λ key.
      if equal key (bytes "LOG_WORKERS")
      then bytes " 2 "
      else if equal key (bytes "REDIS_URL")
      then bytes "redis://r"
      else [];
  atoi = λ s. if equal s (bytes "2") then ok (pos 2) else err (other (bytes "invalid syntax"));
  parse_duration = λ s. err (other (bytes "invalid duration"));
  quote = λ s. s;
  duration_text = decimal_int;
}

abbrev pub settings : Config
settings = record {
  database_url = bytes "postgres://localhost:5432/crm?sslmode=disable";
  db_max_conns = pos 80;
  redis_url = bytes "redis://r";
  grpc_addr = bytes ":50051";
  startup_timeout = pos 10_000_000_000;
  cache_ttl = pos 300_000_000_000;
  log_workers = pos 2;
  log_batch_size = pos 500;
  log_flush_interval = pos 2_000_000_000;
  log_buffer_size = pos 10000;
}

pub loaded : load env ≡ ok settings
unfolding load and_then validate equal trim_space
loaded = refl

load-with_defaults_example :
    Valid settings × (with_defaults (ingest_config settings) ≡ ingest_config settings)
load-with_defaults_example = load-with_defaults env settings loaded
