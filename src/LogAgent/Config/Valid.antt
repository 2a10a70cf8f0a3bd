-- ===== src/LogAgent/Config/Valid.antt =====
-- About `LoadConfig` of internal/logagent/config.go: the settings it lets through.
use crm_beginner.Base.Int.{pos, leb_ℤ}
use crm_beginner.Base.{
  ◌≡◌, refl, ap, ◌∙◌, subst, inl, inr, Bool, true, false, not, Option, none, some, [], ok, arith,
  Bool-cases,
}
use crm_beginner.Config.Valid.{Positive, and_then_ok}
use crm_beginner.Config.{Environment, get_env}
use crm_beginner.LogAgent.Config.{
  Config, Outside, read_namespace, read_exclude, validated, not_positive, load_config,
  tailer_settings, read_config,
}
use crm_beginner.LogAgent.Cri.{Source}
use crm_beginner.LogAgent.Tailer.Polling.{wanted}
use crm_beginner.Text.{Bytes, bytes, is_empty, trim_space, equal}

-- None of its settings would stop the agent: the tickers refuse an interval that is not positive.
pub record Valid (c : Config) : Type 0 where
  pub ingest_addr : is_empty c.ingest_addr ≡ false
  pub log_dir : is_empty c.log_dir ≡ false
  pub self_container : is_empty c.self_container ≡ false
  pub positions_file : is_empty c.positions_file ≡ false
  pub batch_size : Positive c.batch_size
  pub flush_interval : Positive c.flush_interval
  pub poll_interval : Positive c.poll_interval

module _ (env : Environment) (out : Outside) where
  -- What `LoadConfig` returns.
  record Loads (c : Config) : Type 0 where
    valid : Valid c
    namespace : c.namespace ≡ read_namespace env out
    exclude : read_exclude env out ≡ ok c.exclude

  get_env_filled :
      (key fallback : Bytes)
      → is_empty fallback ≡ false
      → is_empty (get_env env key fallback) ≡ false
  unfolding get_env
  get_env_filled key fallback h = elim (Bool-cases (is_empty (trim_space (env.getenv key)))) [
    | inl e ↦ rw e h
    | inr e ↦ rw e e
  ]

  -- The numbers of what the `switch` lets through.
  record Passes (c d : Config) : Type 0 where
    same : c ≡ d
    batch_size : Positive c.batch_size
    flush_interval : Positive c.flush_interval
    poll_interval : Positive c.poll_interval

  validated-Passes : (c d : Config) → validated env out c ≡ ok d → Passes c d
  unfolding validated not_positive
  validated-Passes c d h = elim (Bool-cases (leb_ℤ c.batch_size (pos 0))) [
    | inl e ↦ absurd (cc (rw (validated, e) at h))
    | inr b ↦ elim (Bool-cases (leb_ℤ c.flush_interval (pos 0))) [
      | inl e ↦ absurd (cc (rw (validated, b, e) at h))
      | inr f ↦ elim (Bool-cases (leb_ℤ c.poll_interval (pos 0))) [
        | inl e ↦ absurd (cc (rw (validated, b, f, e) at h))
        | inr p ↦ record {
          same = cc (rw (validated, b, f, p) at h);
          batch_size = b;
          flush_interval = f;
          poll_interval = p;
        }
      ]
    ]
  ]

  passed :
      (c d : Config)
      → read_exclude env out ≡ ok c.exclude
      → c.namespace ≡ read_namespace env out
      → is_empty c.ingest_addr ≡ false
      → is_empty c.log_dir ≡ false
      → is_empty c.self_container ≡ false
      → is_empty c.positions_file ≡ false
      → validated env out c ≡ ok d
      → Loads d
  passed c d x n i l s f h =
      let v = validated-Passes c d h in
      subst Loads v.same (record {
        valid = record {
          ingest_addr = i;
          log_dir = l;
          self_container = s;
          positions_file = f;
          batch_size = v.batch_size;
          flush_interval = v.flush_interval;
          poll_interval = v.poll_interval;
        };
        namespace = n;
        exclude = x;
      })

  load_config-Loads : (c : Config) → load_config env out ≡ ok c → Loads c
  unfolding load_config
  load_config-Loads c h =
      and_then_ok Loads _ _ c
        (λ a1 r1 h1.
          and_then_ok Loads _ _ c
            (λ a2 r2 h2.
              and_then_ok Loads _ _ c
                (λ a3 r3 h3.
                  and_then_ok Loads _ _ c
                    (λ a4 r4 h4.
                      passed (read_config env out a1 a2 a3 a4) c r4 refl
                        (get_env_filled (bytes "INGEST_ADDR") (bytes "crm-server:50051") refl)
                        (get_env_filled (bytes "LOG_DIR") (bytes "/var/log/containers") refl)
                        (get_env_filled (bytes "SELF_CONTAINER") (bytes "log-agent") refl)
                        (get_env_filled (bytes "POSITIONS_FILE")
                          (bytes "/var/lib/crm-log-agent/positions.json") refl)
                        h4)
                    h3)
                h2)
            h1)
        h

  -- A configuration that `LoadConfig` returns, whatever the environment, has addresses, paths and a
  -- container that are not empty, a batch of at least one entry and positive intervals.
  pub load_config-Valid : (c : Config) → load_config env out ≡ ok c → Valid c
  load_config-Valid c h = (load_config-Loads c h).valid

  exclude_nothing :
      (o : Option (Bytes → Bool))
      → out.lookup_env (bytes "LOG_EXCLUDE") ≡ some []
      → read_exclude env out ≡ ok o
      → o ≡ none
  unfolding read_exclude
  exclude_nothing o e h = cc (rw (read_exclude, e) at h)

  namespace_of :
      (v : Bytes)
      → out.lookup_env (bytes "LOG_NAMESPACE") ≡ some v
      → read_namespace env out ≡ trim_space v
  unfolding read_namespace
  namespace_of v n = rw (read_namespace, n) refl

  -- If `LOG_NAMESPACE` is set to white space or nothing, and `LOG_EXCLUDE` to nothing, the agent
  -- collects everything: a container of any namespace, unless it is the agent's own, and any message.
  load_config-wanted :
      (c : Config) (v : Bytes) (is_time : Bytes → Bool) (map_lower : Bytes → Bytes)
      → load_config env out ≡ ok c
      → out.lookup_env (bytes "LOG_NAMESPACE") ≡ some v
      → is_empty (trim_space v) ≡ true
      → out.lookup_env (bytes "LOG_EXCLUDE") ≡ some []
      → let cfg = tailer_settings is_time map_lower c in
        ((src : Source) → wanted cfg src ≡ not (equal src.container c.self_container))
        × ((message : Bytes) → cfg.excluded message ≡ false)
  unfolding wanted read_namespace
  load_config-wanted c v is_time map_lower h n blank x =
      let loads = load_config-Loads c h in
      let every : is_empty c.namespace ≡ true =
        ap is_empty (loads.namespace ∙ namespace_of v n) ∙ blank in
      let none_excluded : c.exclude ≡ none = exclude_nothing c.exclude x loads.exclude in
      (
        λ src.
            rw (wanted, every) (ground (arith, Bool-cases (equal src.container c.self_container))),
        λ message. rw none_excluded refl,
      )
