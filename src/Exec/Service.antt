-- ===== src/Exec/Service.antt =====
-- `ResilientExecutionService._execute` of
-- packages/gateway-core/src/governed_llm_gateway_core/application/resilience.py. The health port, the
-- resolver, the provider, the clock and the sleeper are parameters; spans and operational evidence
-- are left out.
mod Steps
pub use Steps.*
unfoldable pub use Steps.{check_deadline, health_admission_scope}
use governed_llm_gateway.Base.{
  ℕ, zero, suc, ◌+◌, Bool, true, false, not, ◌&&◌, Option, none, some, List, [], ◌∷◌, ◌++◌, ltb,
  ◌==◌, if◌then◌else◌, Text, text_eq, same, Result, ok, raised, take,
}
use governed_llm_gateway.Health.{
  CircuitState, CircuitState-discrete, open_circuit, HealthAdmission, ProviderError,
  ProviderErrorCode, is_transient_provider_error,
}
use governed_llm_gateway.Exec.{
  RetryPolicy, ExecutionAttempt, succeeded, transient_failure, permanent_failure, circuit_open,
  Exception, provider_error, execution_deadline_exceeded, cancelled, resilience_execution_error,
  value_error, ranking_invariant_violation, FallbackSafetyState, automatic_replay_allowed,
  retry_delay_seconds, latency_ms_of, ExecutionDeadline, disabled, expires, is_expired,
}
use governed_llm_gateway.Routing.{GatewayRequest, ModelDeployment}
use governed_llm_gateway.Routing.Ranking.{RankedCandidate, RankingDecision, RoutingProvenance}

-- What one execution is given.
pub record Execution (S R : Type 0) : Type 0 where
  pub ports : Ports S R
  pub retry_policy : RetryPolicy
  pub deadline : ExecutionDeadline
  pub request : GatewayRequest
  pub decision : RankingDecision
  pub max_output_tokens : ℕ
  pub provider_timeout_seconds : ℕ

module _ {S R : Type 0} (x : Execution S R) where
  -- The provider's call, which is noted.
  unfoldable pub generate : HealthAdmission → ModelDeployment → Run S R
  generate a d s =
      call
        (x.ports.generate a d (record {
          model = d.model_id;
          content = x.request;
          max_output_tokens = x.max_output_tokens;
          timeout_seconds = x.provider_timeout_seconds;
        }))
        (record s { calls = s.calls ++ d ∷ [] })

  abbrev pub accepted : R → Bool → Run S R
  accepted response true = return response
  accepted response false = raise probe_expired_error

  -- The body of `try`: the response counts if the health port still accepts the admission.
  unfoldable pub call_provider : HealthAdmission → ModelDeployment → ℕ → Run S R
  call_provider a d started = do
    check_deadline x.ports x.deadline
    response ← generate a d
    check_deadline x.ports x.deadline
    latency_ms ← latency_since x.ports started
    recorded ← call (x.ports.record_success d.deployment_id latency_ms a)
    accepted response recorded

  -- `can_retry`: the circuit is read only for a transient error with an attempt left.
  unfoldable pub can_retry : ModelDeployment → ℕ → ProviderError → Run S Bool
  can_retry d attempt_number e =
      if is_transient_provider_error e
        && ltb attempt_number x.retry_policy.max_attempts_per_deployment
      then (do
        state ← call (x.ports.circuit_state d.deployment_id)
        return (not (same CircuitState-discrete state open_circuit)))
      else return false

  -- `_retry_delay_seconds` if there is a retry.
  abbrev pub delay_if : Bool → ModelDeployment → ℕ → ProviderError → Option ℕ
  delay_if false d attempt_number e = none
  delay_if true d attempt_number e = some (
      retry_delay_seconds x.retry_policy
        (x.ports.jitter_unit x.request.request_id d.deployment_id attempt_number) attempt_number
        e.retry_after_seconds)

  abbrev pub failure : ModelDeployment → ℕ → ℕ → ProviderError → Option ℕ → ExecutionAttempt
  failure d attempt_number latency_ms e delay = record {
    deployment_id = d.deployment_id;
    attempt_number = attempt_number;
    outcome = if is_transient_provider_error e then transient_failure else permanent_failure;
    latency_ms = latency_ms;
    error_code = some e.code;
    status_code = e.status_code;
    retry_delay_seconds = delay;
  }

  abbrev next_of : Option ℕ → Next R
  next_of none = falls_back
  next_of (some delay) = retries delay

  abbrev raise_permanent : ProviderError → Run S (Next R)
  raise_permanent e s = (raised (resilience_execution_error s.attempts (some e.code)), s)

  -- The attempt is noted; a permanent failure stops the execution.
  unfoldable pub note_failure : ModelDeployment → ℕ → ℕ → ProviderError → Option ℕ → Run S (Next R)
  note_failure d attempt_number latency_ms e delay = do
    append_attempt (failure d attempt_number latency_ms e delay)
    modify (λ s. record s { last_error_code = some e.code })
    if is_transient_provider_error e then return (next_of delay) else raise_permanent e

  -- `except ProviderError`.
  unfoldable pub handle_failure :
      HealthAdmission → ModelDeployment → ℕ → ℕ → ProviderError → Run S (Next R)
  handle_failure a d attempt_number started e = do
    check_deadline x.ports x.deadline
    latency_ms ← latency_since x.ports started
    call (x.ports.record_failure d.deployment_id e latency_ms a)
    retry ← can_retry d attempt_number e
    note_failure d attempt_number latency_ms e (delay_if retry d attempt_number e)

  abbrev pub success : ModelDeployment → ℕ → ℕ → ExecutionAttempt
  success d attempt_number latency_ms = record {
    deployment_id = d.deployment_id;
    attempt_number = attempt_number;
    outcome = succeeded;
    latency_ms = latency_ms;
    error_code = none;
    status_code = none;
    retry_delay_seconds = none;
  }

  abbrev result_of : ModelDeployment → R → Progress S → ResilientExecutionResult R
  result_of d response s = record {
    deployment = d;
    response = response;
    routing = record x.decision.routing {
      provider = some d.provider;
      model = some d.model_id;
      deployment = some d.deployment_id;
      fallback_sequence = s.fallback_sequence;
    };
    attempts = s.attempts;
  }

  abbrev pub finish : ModelDeployment → R → Run S (Next R)
  finish d response s = (ok (finished (result_of d response s)), s)

  -- `else`, after a response.
  unfoldable pub handle_success : ModelDeployment → ℕ → ℕ → R → Run S (Next R)
  handle_success d attempt_number started response = do
    latency_ms ← latency_since x.ports started
    append_attempt (success d attempt_number latency_ms)
    finish d response

  -- `fallback_sequence.append(...)` on the first attempt, and the reading of the clock.
  abbrev pub begun : HealthAdmission → ModelDeployment → ℕ → Progress S → Progress S
  begun a d attempt_number s = record s {
    ports = (x.ports.clock s.ports).1;
    fallback_sequence =
        if attempt_number == 1
        then s.fallback_sequence ++ d.deployment_id ∷ []
        else s.fallback_sequence;
    admitted = s.admitted ++ a ∷ [];
  }

  -- The attempt with an admission.
  unfoldable pub admitted_attempt : HealthAdmission → ModelDeployment → ℕ → Run S (Next R)
  admitted_attempt a d attempt_number s =
      let started = (x.ports.clock s.ports).0 in
      health_admission_scope x.ports a
        (try_provider (call_provider a d started) (handle_failure a d attempt_number started)
          (handle_success d attempt_number started))
        (begun a d attempt_number s)

  abbrev pub skip : ModelDeployment → ℕ → ExecutionAttempt
  skip d attempt_number = record {
    deployment_id = d.deployment_id;
    attempt_number = if attempt_number == 1 then 0 else attempt_number;
    outcome = circuit_open;
    latency_ms = 0;
    error_code = none;
    status_code = none;
    retry_delay_seconds = none;
  }

  abbrev pub admit : ModelDeployment → ℕ → Option HealthAdmission → Run S (Next R)
  admit d attempt_number none = append_attempt (skip d attempt_number) >> return falls_back
  admit d attempt_number (some a) = admitted_attempt a d attempt_number

  -- One round of the inner loop, up to the sleep.
  unfoldable pub attempt : ModelDeployment → ℕ → Run S (Next R)
  attempt d attempt_number = do
    check_deadline x.ports x.deadline
    call (x.ports.resolve d)
    admission ← call (x.ports.allow_request d.deployment_id)
    admit d attempt_number admission

  abbrev pub continue_with :
      Run S (Option (ResilientExecutionResult R))
      → Next R
      → Run S (Option (ResilientExecutionResult R))
  continue_with more (finished r) = return (some r)
  continue_with more falls_back = return none
  continue_with more (retries delay) = do
    check_deadline x.ports x.deadline
    call (x.ports.sleep delay)
    more

  -- The inner loop, with `left` attempts to make from `attempt_number` on.
  unfoldable pub try_deployment :
      (left : ℕ) → ModelDeployment → ℕ → Run S (Option (ResilientExecutionResult R))
  try_deployment zero d attempt_number = return none
  try_deployment (suc left) d attempt_number = do
    next ← attempt d attempt_number
    continue_with (try_deployment left d (suc attempt_number)) next

  abbrev pub or_else :
      Run S (ResilientExecutionResult R)
      → Option (ResilientExecutionResult R)
      → Run S (ResilientExecutionResult R)
  or_else more (some r) = return r
  or_else more none = more

  abbrev pub exhausted : Run S (ResilientExecutionResult R)
  exhausted s = (raised (resilience_execution_error s.attempts s.last_error_code), s)

  -- The outer loop.
  unfoldable pub try_candidates : List RankedCandidate → Run S (ResilientExecutionResult R)
  try_candidates [] = exhausted
  try_candidates (c ∷ cs) = do
    result ← try_deployment x.retry_policy.max_attempts_per_deployment c.deployment 1
    or_else (try_candidates cs) result

  -- `_validate_candidate` of each.
  unfoldable pub all_validated : List RankedCandidate → Bool
  all_validated [] = true
  all_validated (c ∷ cs) =
      text_eq c.deployment.model_group x.decision.routing.authorized_model_group && all_validated cs

  -- `candidates[: max_fallbacks + 1]`.
  abbrev pub bounded_candidates : RankedCandidate → List RankedCandidate
  bounded_candidates c = take (x.retry_policy.max_fallbacks + 1) (c ∷ x.decision.alternatives)

  abbrev pub execute_selected :
      FallbackSafetyState → Option RankedCandidate → Run S (ResilientExecutionResult R)
  execute_selected safety none = raise (resilience_execution_error [] none)
  execute_selected safety (some c) =
      if x.max_output_tokens == 0
      then raise value_error
      else if x.provider_timeout_seconds == 0
      then raise value_error
      else if not (automatic_replay_allowed safety)
      then raise (resilience_execution_error [] none)
      else if not (all_validated (bounded_candidates c))
      then raise ranking_invariant_violation
      else try_candidates (bounded_candidates c)

  abbrev pub started_from : S → Progress S
  started_from s = record {
    ports = s;
    attempts = [];
    fallback_sequence = [];
    last_error_code = none;
    admitted = [];
    released = [];
    calls = [];
  }

  -- `_execute`: what it returns or raises, and what it did.
  unfoldable pub execute :
      FallbackSafetyState → S → Result Exception (ResilientExecutionResult R) × Progress S
  execute safety s = execute_selected safety x.decision.selected (started_from s)
