-- ===== src/Health.antt =====
-- Per-deployment runtime health: the values of
-- packages/gateway-core/src/governed_llm_gateway_core/domain/resilience.py, with the checks that
-- their constructors make, and the provider error of application/provider.py that is recorded.
-- Seconds are ticks of the monotonic clock, as natural numbers: the source only adds a duration to
-- an instant and compares, so a finite clock of any resolution is a scaling of this one.
pub mod Circuit
pub mod Sound
pub mod InMemory
pub mod History
pub mod Latency
pub mod Calls
pub mod Fencing
pub mod Probing
pub mod Recovery
mod Tests
use governed_llm_gateway.Base.{
  ℤ, is_negative, ℕ, ◌≤◌, ◌≡◌, Bool, true, false, ◌&&◌, ◌||◌, not, Option, none, some, ltb, leb,
  ◌==◌, Text, same, is_normalized, Result, ok, raised, raise_if, ◌>>=◌, ◌>>◌, length, is_none,
}

pub data CircuitState : Type 0 where
  closed open_circuit half_open : CircuitState

unfoldable pub CircuitState-discrete : Discrete CircuitState
CircuitState-discrete = hlevel

pub data HealthStatus : Type 0 where
  healthy degraded unhealthy : HealthStatus

unfoldable pub HealthStatus-discrete : Discrete HealthStatus
HealthStatus-discrete = hlevel

-- The exceptions of the tracker: `ValueError` and `RuntimeError`.
pub data Error : Type 0 where
  value_error runtime_error : Error

pub record DeploymentHealthSnapshot : Type 0 where
  pub deployment_id : Text
  pub status : HealthStatus
  pub circuit_state : CircuitState
  pub request_count : ℕ
  pub success_count : ℕ
  pub transient_failure_count : ℕ
  pub timeout_count : ℕ
  pub rate_limit_count : ℕ
  pub server_error_count : ℕ
  pub consecutive_transient_failures : ℕ
  pub last_latency_ms : Option ℤ

-- `last_latency_ms is not None and last_latency_ms < 0`.
abbrev pub has_negative : Option ℤ → Bool
has_negative none = false
has_negative (some latency) = is_negative latency

-- `DeploymentHealthSnapshot.__post_init__`. The checks for negative counters hold by type.
unfoldable pub check_snapshot : DeploymentHealthSnapshot → Result Error DeploymentHealthSnapshot
check_snapshot s = do
  raise_if (not (is_normalized s.deployment_id)) value_error
  raise_if (ltb s.request_count s.success_count) value_error
  raise_if (ltb s.request_count s.transient_failure_count) value_error
  raise_if (has_negative s.last_latency_ms) value_error
  raise_if
      (same CircuitState-discrete s.circuit_state open_circuit
        && not (same HealthStatus-discrete s.status unhealthy))
      value_error
  ok s

pub record CircuitBreakerPolicy : Type 0 where
  pub failure_threshold : ℕ
  pub cooldown_seconds : ℕ
  pub probe_lease_seconds : ℕ

-- `CircuitBreakerPolicy.__post_init__`: a positive threshold, cooldown and lease.
unfoldable pub check_policy : CircuitBreakerPolicy → Result Error CircuitBreakerPolicy
check_policy p = do
  raise_if (p.failure_threshold == 0) value_error
  raise_if (p.cooldown_seconds == 0) value_error
  raise_if (p.probe_lease_seconds == 0) value_error
  ok p

-- `HealthAdmission`: the handle of one attempt.
pub record HealthAdmission : Type 0 where
  pub deployment_id : Text
  pub attempt_id : Text
  pub generation : Text
  pub probe_timeout_seconds : Option ℕ

-- `HealthAdmission.is_probe`.
abbrev pub is_probe : HealthAdmission → Bool
is_probe a = not (is_none a.probe_timeout_seconds)

abbrev is_positive_or_none : Option ℕ → Bool
is_positive_or_none none = true
is_positive_or_none (some t) = ltb 0 t

-- `HealthAdmission.__post_init__`. A timeout that Python computes below zero is `some 0` here,
-- since `-` stops at zero; both are refused.
unfoldable pub check_admission : HealthAdmission → Result Error HealthAdmission
check_admission a = do
  raise_if (not (is_normalized a.deployment_id)) value_error
  raise_if (not (is_normalized a.attempt_id)) value_error
  raise_if (not (is_normalized a.generation)) value_error
  raise_if (ltb 128 (length a.attempt_id) || ltb 128 (length a.generation)) value_error
  raise_if (not (is_positive_or_none a.probe_timeout_seconds)) value_error
  ok a

-- What `health_attempt_id` of application/health.py asks of an explicit owner.
unfoldable pub is_handle : Text → Bool
is_handle t = is_normalized t && leb (length t) 128

-- `ProviderErrorCode` of application/provider.py.
pub data ProviderErrorCode : Type 0 where
  authentication rate_limit timeout invalid_request unavailable transport : ProviderErrorCode
  invalid_response invalid_structured_output invalid_tool_call unknown : ProviderErrorCode

unfoldable pub ProviderErrorCode-discrete : Discrete ProviderErrorCode
ProviderErrorCode-discrete = hlevel

-- The fields of `ProviderError` that retry and health read.
pub record ProviderError : Type 0 where
  pub code : ProviderErrorCode
  pub retryable : Bool
  pub status_code : Option ℕ
  pub retry_after_seconds : Option ℕ

abbrev transient_code : ProviderErrorCode → Bool
transient_code rate_limit = true
transient_code timeout = true
transient_code unavailable = true
transient_code transport = true
transient_code _ = false

-- `is_transient_provider_error`.
unfoldable pub is_transient_provider_error : ProviderError → Bool
is_transient_provider_error e = e.retryable && transient_code e.code
