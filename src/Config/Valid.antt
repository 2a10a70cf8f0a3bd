-- ===== src/Config/Valid.antt =====
-- About `Load` of internal/config/config.go: the settings it lets through, and internal/ingest's
-- use of them.
use crm_beginner.Base.Int.{ℤ, pos, leb_ℤ}
use crm_beginner.Base.{
  ◌≡◌, refl, subst, inl, inr, Bool, true, false, Option, none, some, Result, ok, err, if◌then◌else◌,
  Option-cases,
}
use crm_beginner.Config.{Config, Environment, and_then, validate, validated, load, ingest_config}
use crm_beginner.Domain.{Error}
use crm_beginner.Ingest.{with_defaults}
use crm_beginner.Text.{is_empty, trim_space}

abbrev pub Positive : ℤ → Type 0
Positive n = leb_ℤ n (pos 0) ≡ false

pub record Valid (c : Config) : Type 0 where
  pub database_url : is_empty (trim_space c.database_url) ≡ false
  pub db_max_conns : Positive c.db_max_conns
  pub grpc_addr : is_empty (trim_space c.grpc_addr) ≡ false
  pub startup_timeout : Positive c.startup_timeout
  pub cache_ttl : Positive c.cache_ttl
  pub log_workers : Positive c.log_workers
  pub log_batch_size : Positive c.log_batch_size
  pub log_flush_interval : Positive c.log_flush_interval
  pub log_buffer_size : Positive c.log_buffer_size

pub if_none :
    {A : Type 0} (b : Bool) (a : A) (o : Option A)
    → (if b then some a else o) ≡ none
    → (b ≡ false) × (o ≡ none)
if_none true a o h = absurd cc
if_none false a o h = (refl, h)

pub and_then_ok :
    {A B : Type 0} (P : B → Type 0) (r : Result Error A) (f : A → Result Error B) (b : B)
    → ((a : A) → r ≡ ok a → f a ≡ ok b → P b)
    → and_then r f ≡ ok b
    → P b
unfolding and_then
and_then_ok P (ok a) f b k h = k a refl h
and_then_ok P (err e) f b k h = absurd cc

module _ (env : Environment) where
  validate-Valid : (c : Config) → validate env c ≡ none → Valid c
  unfolding validate
  validate-Valid c h0 =
      let (p1, h1) = if_none _ _ _ h0 in
      let (p2, h2) = if_none _ _ _ h1 in
      let (p3, h3) = if_none _ _ _ h2 in
      let (p4, h4) = if_none _ _ _ h3 in
      let (p5, h5) = if_none _ _ _ h4 in
      let (p6, h6) = if_none _ _ _ h5 in
      let (p7, h7) = if_none _ _ _ h6 in
      let (p8, h8) = if_none _ _ _ h7 in
      let (p9, h9) = if_none _ _ _ h8 in
      record {
        database_url = p1;
        db_max_conns = p2;
        grpc_addr = p3;
        startup_timeout = p4;
        cache_ttl = p5;
        log_workers = p6;
        log_batch_size = p7;
        log_flush_interval = p8;
        log_buffer_size = p9;
      }

  validated-Valid : (c d : Config) → validated env c ≡ ok d → Valid d
  unfolding validated
  validated-Valid c d h = elim (Option-cases (validate env c)) [
    | inl e ↦ subst Valid (cc (rw (validated, e) at h)) (validate-Valid c e)
    | inr (f, e) ↦ absurd (cc (rw (validated, e) at h))
  ]

  pub load-Valid : (c : Config) → load env ≡ ok c → Valid c
  unfolding load
  load-Valid c h =
      and_then_ok Valid _ _ c
        (λ a1 r1 h1.
          and_then_ok Valid _ _ c
            (λ a2 r2 h2.
              and_then_ok Valid _ _ c
                (λ a3 r3 h3.
                  and_then_ok Valid _ _ c
                    (λ a4 r4 h4.
                      and_then_ok Valid _ _ c
                        (λ a5 r5 h5.
                          and_then_ok Valid _ _ c
                            (λ a6 r6 h6.
                              and_then_ok Valid _ _ c (λ a7 r7 h7. validated-Valid _ c h7) h6)
                            h5)
                        h4)
                    h3)
                h2)
            h1)
        h

or_default_same : (n m : ℤ) → Positive n → (if leb_ℤ n (pos 0) then m else n) ≡ n
or_default_same n m h = rw h refl

module _ (env : Environment) where
  -- A configuration that `Load` returns, whatever the environment, has a database and an address that
  -- are not blank and positive numbers and durations; and the ingester takes its four settings as
  -- they are, with none of its own defaults.
  pub load-with_defaults :
      (c : Config) → load env ≡ ok c → Valid c × (with_defaults (ingest_config c) ≡ ingest_config c)
  unfolding with_defaults
  load-with_defaults c h =
      let v = load-Valid env c h in
      (
        v,
        λ i. record {
          workers = or_default_same c.log_workers (pos 4) v.log_workers i;
          batch_size = or_default_same c.log_batch_size (pos 500) v.log_batch_size i;
          flush_interval =
              or_default_same c.log_flush_interval (pos 2_000_000_000) v.log_flush_interval i;
          buffer_size = or_default_same c.log_buffer_size (pos 10000) v.log_buffer_size i;
        },
      )
