-- ===== src/Exec.antt =====
-- Retry and fallback: the values of `RetryPolicy` and `FallbackSafetyState` of
-- packages/gateway-core/src/governed_llm_gateway_core/domain/resilience.py, the evidence and the
-- exceptions of application/resilience.py, and application/execution_deadline.py. Seconds are
-- ticks of a clock, as in Health.
pub mod Service
pub mod Calls
pub mod Released
pub mod Delays
pub mod Evidence
pub mod Served
mod Tests
use governed_llm_gateway.Base.{
  ℕ, ◌+◌, ◌-◌, ◌*◌, ◌/◌, ◌^◌, Bool, true, false, not, ◌||◌, Option, none, some, List, ltb, leb,
  ◌==◌, if◌then◌else◌, Text, Result, ok, raise_if, ◌>>=◌, ◌>>◌,
}
use governed_llm_gateway.Health.{ProviderError, ProviderErrorCode}

-- `RetryPolicy`; `jitter_ratio` is a fraction.
pub record RetryPolicy : Type 0 where
  pub max_attempts_per_deployment : ℕ
  pub max_fallbacks : ℕ
  pub base_delay_seconds : ℕ
  pub max_delay_seconds : ℕ
  pub jitter_numerator : ℕ
  pub jitter_denominator : ℕ

-- `ExecutionAttemptOutcome`.
pub data ExecutionAttemptOutcome : Type 0 where
  succeeded transient_failure permanent_failure circuit_open : ExecutionAttemptOutcome

-- `ExecutionAttempt`.
pub record ExecutionAttempt : Type 0 where
  pub deployment_id : Text
  pub attempt_number : ℕ
  pub outcome : ExecutionAttemptOutcome
  pub latency_ms : ℕ
  pub error_code : Option ProviderErrorCode
  pub status_code : Option ℕ
  pub retry_delay_seconds : Option ℕ

-- What an execution can raise: an error of a provider, the local deadline, a cancellation, the
-- exceptions of the service itself, and any other exception of a port.
pub data Exception : Type 0 where
  provider_error : ProviderError → Exception
  execution_deadline_exceeded cancelled : Exception
  resilience_execution_error : List ExecutionAttempt → Option ProviderErrorCode → Exception
  value_error ranking_invariant_violation : Exception
  other_exception : ℕ → Exception

-- `RetryPolicy.__post_init__`. What is refused for being negative is so by type.
unfoldable pub check_retry_policy : RetryPolicy → Result Exception RetryPolicy
check_retry_policy p = do
  raise_if (p.max_attempts_per_deployment == 0) value_error
  raise_if (ltb p.max_delay_seconds p.base_delay_seconds) value_error
  raise_if (ltb p.jitter_denominator p.jitter_numerator) value_error
  ok p

-- `FallbackSafetyState`.
pub record FallbackSafetyState : Type 0 where
  pub provider_output_observed : Bool
  pub external_side_effect_executed : Bool
  pub opaque_reasoning_state_established : Bool

-- `FallbackSafetyState.automatic_replay_allowed`.
unfoldable pub automatic_replay_allowed : FallbackSafetyState → Bool
automatic_replay_allowed s = not (
    s.provider_output_observed || s.external_side_effect_executed
    || s.opaque_reasoning_state_established)

-- The larger and the smaller of two delays, as the conditionals of `_retry_delay_seconds` take
-- them.
abbrev pub at_most : ℕ → ℕ → ℕ
at_most limit value = if ltb limit value then limit else value

abbrev pub at_least : ℕ → ℕ → ℕ
at_least requested value = if leb requested value then value else requested

-- The parts of a tick in which delays are counted, so that the jitter is exact.
abbrev pub parts : RetryPolicy → ℕ
parts p = p.jitter_denominator * 2 ^ 64

abbrev pub or_zero : Option ℕ → ℕ
or_zero none = 0
or_zero (some s) = s

-- `_retry_delay_seconds`, in parts of a tick; `unit` is the number of the eight bytes of the hash.
unfoldable pub retry_delay_seconds : RetryPolicy → ℕ → ℕ → Option ℕ → ℕ
retry_delay_seconds p unit attempt_number retry_after =
    let exponential =
      at_most p.max_delay_seconds (p.base_delay_seconds * 2 ^ (attempt_number - 1)) in
    let jittered = exponential * parts p + exponential * (p.jitter_numerator * unit) in
    at_most (p.max_delay_seconds * parts p) (at_least (or_zero retry_after * parts p) jittered)

-- `_latency_ms`: a clock that ran backwards gives zero.
unfoldable pub latency_ms_of : ℕ → ℕ → ℕ → ℕ
latency_ms_of ticks_per_second started finished = (finished - started) * 1000 / ticks_per_second

-- `ExecutionDeadline`: disabled, or the instants at which it starts and expires.
pub data ExecutionDeadline : Type 0 where
  disabled : ExecutionDeadline
  expires : ℕ → ℕ → ExecutionDeadline

-- `remaining_seconds` at an instant: expiry is exact, and a clock that regressed fails closed.
unfoldable pub is_expired : ℕ → ℕ → ℕ → Bool
is_expired started_at expires_at now = ltb now started_at || leb expires_at now
