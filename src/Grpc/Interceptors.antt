-- ===== src/Grpc/Interceptors.antt =====
-- internal/adapter/grpc/interceptor.go: logging and recovery, and their chain in
-- internal/app/app.go. A handler returns or panics.
use crm_beginner.Base.{
  Bool, true, false, Option, none, some, List, [], ◌∷◌, if◌then◌else◌, Result, ok, err,
}
use crm_beginner.Grpc.Status.{Status, internal}
use crm_beginner.Text.{Bytes, bytes, equal}

pub data Outcome {ℓ} (A : Type ℓ) : Type ℓ where
  returned : Result Status A → Outcome A
  panicked : Outcome A

-- A line of the log: a finished call with its status, `none` for OK, or a panic.
pub data Line : Type 0 where
  finished : Bytes → Option Status → Line
  panic_in : Bytes → Line

-- `Health_Check_FullMethodName` and the two others, constants of the library.
pub record HealthMethods : Type 0 where
  pub check : Bytes
  pub list : Bytes
  pub watch : Bytes

-- `isHealthCheck`.
unfoldable pub is_health_check : HealthMethods → Bytes → Bool
is_health_check health method =
    if equal method health.check
    then true
    else if equal method health.list
    then true
    else if equal method health.watch
    then true
    else false

module _ (health : HealthMethods) {A : Type 0} where
  -- `LoggingUnaryInterceptor` and `LoggingStreamInterceptor`: a panic passes through.
  unfoldable pub logging : Bytes → Outcome A → Outcome A × List Line
  unfolding is_health_check
  logging method panicked = (panicked, [])
  logging method (returned (err e)) = (returned (err e), finished method (some e) ∷ [])
  logging method (returned (ok a)) =
      (returned (ok a), if is_health_check health method then [] else finished method none ∷ [])

  -- `RecoveryUnaryInterceptor` and `RecoveryStreamInterceptor`.
  unfoldable pub recovery : Bytes → Outcome A × List Line → Outcome A × List Line
  recovery method (returned r, lines) = (returned r, lines)
  recovery method (panicked, lines) = (
    returned (err (record { code = internal; message = bytes "internal error" })),
    panic_in method ∷ lines,
  )

  -- `ChainUnaryInterceptor(Recovery, Logging)`: the first is the outermost.
  unfoldable pub chain : Bytes → Outcome A → Outcome A × List Line
  unfolding logging recovery
  chain method handler = recovery method (logging method handler)
