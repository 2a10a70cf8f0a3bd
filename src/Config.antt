-- ===== src/Config.antt =====
-- internal/config/config.go: the configuration of the server, from its environment.
pub mod Valid
use crm_beginner.Base.Int.{ℤ, pos, leb_ℤ}
use crm_beginner.Base.{Bool, not, Option, none, some, ◌++◌, if◌then◌else◌, Result, ok, err}
use crm_beginner.Domain.{Error, other, wrap}
use crm_beginner.Ingest
use crm_beginner.Text.Decimal.{decimal_int}
use crm_beginner.Text.{Bytes, bytes, is_empty, trim_space}

-- Durations are in nanoseconds.
pub record Config : Type 0 where
  pub database_url : Bytes
  pub db_max_conns : ℤ
  pub redis_url : Bytes
  pub grpc_addr : Bytes
  pub startup_timeout : ℤ
  pub cache_ttl : ℤ
  pub log_workers : ℤ
  pub log_batch_size : ℤ
  pub log_flush_interval : ℤ
  pub log_buffer_size : ℤ

-- `CacheEnabled`.
unfoldable pub cache_enabled : Config → Bool
cache_enabled c = not (is_empty c.redis_url)

-- `os.Getenv`, "" for a variable that is not set; `strconv.Atoi`, `time.ParseDuration`, and the
-- verbs %q and, for durations, %s of `fmt`.
pub record Environment : Type 0 where
  pub getenv : Bytes → Bytes
  pub atoi : Bytes → Result Error ℤ
  pub parse_duration : Bytes → Result Error ℤ
  pub quote : Bytes → Bytes
  pub duration_text : ℤ → Bytes

-- `if v, err = …; err != nil { return Config{}, err }`.
unfoldable pub and_then : {A B : Type 0} → Result Error A → (A → Result Error B) → Result Error B
and_then (ok a) f = f a
and_then (err e) f = err e

module _ (env : Environment) where
  -- `getEnv`.
  unfoldable pub get_env : Bytes → Bytes → Bytes
  get_env key fallback =
      let v = trim_space (env.getenv key) in if not (is_empty v) then v else fallback

  invalid : Bytes → Bytes → Bytes → Result Error ℤ → Result Error ℤ
  invalid key kind raw (ok n) = ok n
  invalid key kind raw (err e) =
      err (wrap (key ++ (bytes ": invalid " ++ (kind ++ (bytes " " ++ env.quote raw)))) e)

  -- `getEnvDuration`.
  unfoldable pub get_env_duration : Bytes → ℤ → Result Error ℤ
  unfolding invalid
  get_env_duration key fallback =
      let raw = trim_space (env.getenv key) in
      if is_empty raw
      then ok fallback
      else invalid key (bytes "duration") raw (env.parse_duration raw)

  -- `getEnvInt`.
  unfoldable pub get_env_int : Bytes → ℤ → Result Error ℤ
  unfolding invalid
  get_env_int key fallback =
      let raw = trim_space (env.getenv key) in
      if is_empty raw then ok fallback else invalid key (bytes "integer") raw (env.atoi raw)

  not_positive : Bytes → Bytes → Option Error
  not_positive key got = some (other (key ++ (bytes " must be positive, got " ++ got)))

  -- `validate`.
  unfoldable pub validate : Config → Option Error
  unfolding not_positive
  validate c =
      if is_empty (trim_space c.database_url)
      then some (other (bytes "DATABASE_URL must not be empty"))
      else if leb_ℤ c.db_max_conns (pos 0)
      then not_positive (bytes "DB_MAX_CONNS") (decimal_int c.db_max_conns)
      else if is_empty (trim_space c.grpc_addr)
      then some (other (bytes "GRPC_ADDR must not be empty"))
      else if leb_ℤ c.startup_timeout (pos 0)
      then not_positive (bytes "STARTUP_TIMEOUT") (env.duration_text c.startup_timeout)
      else if leb_ℤ c.cache_ttl (pos 0)
      then not_positive (bytes "CACHE_TTL") (env.duration_text c.cache_ttl)
      else if leb_ℤ c.log_workers (pos 0)
      then not_positive (bytes "LOG_WORKERS") (decimal_int c.log_workers)
      else if leb_ℤ c.log_batch_size (pos 0)
      then not_positive (bytes "LOG_BATCH_SIZE") (decimal_int c.log_batch_size)
      else if leb_ℤ c.log_flush_interval (pos 0)
      then not_positive (bytes "LOG_FLUSH_INTERVAL") (env.duration_text c.log_flush_interval)
      else if leb_ℤ c.log_buffer_size (pos 0)
      then not_positive (bytes "LOG_BUFFER_SIZE") (decimal_int c.log_buffer_size)
      else none

  validated : Config → Result Error Config
  validated c = elim (validate c) [ none ↦ ok c | some e ↦ err e ]

  -- `Load`.
  unfoldable pub load : Result Error Config
  unfolding get_env get_env_duration get_env_int validated
  load = and_then (get_env_int (bytes "DB_MAX_CONNS") (pos 80)) λ db_max_conns.
      and_then (get_env_duration (bytes "STARTUP_TIMEOUT") (pos 10_000_000_000)) λ startup_timeout.
        and_then (get_env_duration (bytes "CACHE_TTL") (pos 300_000_000_000)) λ cache_ttl.
          and_then (get_env_int (bytes "LOG_WORKERS") (pos 4)) λ log_workers.
            and_then (get_env_int (bytes "LOG_BATCH_SIZE") (pos 500)) λ log_batch_size.
              and_then (get_env_duration (bytes "LOG_FLUSH_INTERVAL") (pos 2_000_000_000))
                λ log_flush_interval.
                  and_then (get_env_int (bytes "LOG_BUFFER_SIZE") (pos 10000)) λ log_buffer_size.
                    validated (record {
                      database_url =
                          get_env (bytes "DATABASE_URL")
                            (bytes "postgres://localhost:5432/crm?sslmode=disable");
                      db_max_conns = db_max_conns;
                      redis_url = trim_space (env.getenv (bytes "REDIS_URL"));
                      grpc_addr = get_env (bytes "GRPC_ADDR") (bytes ":50051");
                      startup_timeout = startup_timeout;
                      cache_ttl = cache_ttl;
                      log_workers = log_workers;
                      log_batch_size = log_batch_size;
                      log_flush_interval = log_flush_interval;
                      log_buffer_size = log_buffer_size;
                    })

-- What internal/app/app.go gives to the ingester.
abbrev pub ingest_config : Config → Ingest.Config
ingest_config c = record {
  workers = c.log_workers;
  batch_size = c.log_batch_size;
  flush_interval = c.log_flush_interval;
  buffer_size = c.log_buffer_size;
}
