-- ===== src/Exec/Tests.antt =====
-- A sample execution, and the theorems at it.
use governed_llm_gateway.Base.{
  Option, ℕ, zero, suc, ◌+◌, ◌*◌, ◌-◌, ◌^◌, ◌≤◌, ◌≡◌, refl, true, false, none, some, [], ◌∷◌,
  Result, ok, raised, All, length, Text-discrete, ℕ_discrete,
}
use governed_llm_gateway.Health.{
  closed, ProviderError, ProviderErrorCode, is_transient_provider_error, CircuitState-discrete,
}
use governed_llm_gateway.Exec.{
  latency_ms_of, RetryPolicy, Exception, provider_error, FallbackSafetyState,
  automatic_replay_allowed, disabled, parts, at_most, retry_delay_seconds,
}
use governed_llm_gateway.Exec.Service.{
  ResilientExecutionResult, failure, success, delay_if, Ports, Execution, execute,
  bounded_candidates, try_candidates, try_deployment, attempt, admitted_attempt, call_provider,
  generate, handle_failure, handle_success, can_retry, note_failure, check_deadline,
  health_admission_scope, all_validated,
}
use governed_llm_gateway.Exec.Evidence.{IsServed}
use governed_llm_gateway.Exec.Served.{execute-IsServed}
use governed_llm_gateway.Exec.Calls.{
  IsCandidate, calls_bounded, calls_authorized, calls-IsReplayable, IsReplayable,
}
use governed_llm_gateway.Exec.Released.{admissions_released}
use governed_llm_gateway.Exec.Delays.{retry_delay-le_max, retry_delay-ge}
use governed_llm_gateway.Routing.Ranking.{decision_of}
use governed_llm_gateway.Routing.Tests.{request, decision, candidate}

abbrev retry_policy : RetryPolicy
retry_policy = record {
  max_attempts_per_deployment = 2;
  max_fallbacks = 2;
  base_delay_seconds = 1;
  max_delay_seconds = 8;
  jitter_numerator = 1;
  jitter_denominator = 5;
}

abbrev timed_out : ProviderError
timed_out = record {
  code = ProviderErrorCode.timeout;
  retryable = true;
  status_code = none;
  retry_after_seconds = some 3;
}

-- The provider times out on the first call, and then answers with the number of the call.
abbrev answer : ℕ → Result Exception ℕ
answer zero = raised (provider_error timed_out)
answer (suc n) = ok (suc n)

-- Ports whose state is the number of provider calls so far.
abbrev ports : Ports ℕ ℕ
ports = record {
  allow_request = λ d s. (
    ok (
        some (record {
          deployment_id = d;
          attempt_id = 111 ∷ [];
          generation = 103 ∷ [];
          probe_timeout_seconds = none;
        })),
    s,
  );
  release_request = λ a s. (ok tt, s);
  record_success = λ d latency a s. (ok true, s);
  record_failure = λ d e latency a s. (ok tt, s);
  circuit_state = λ d s. (ok closed, s);
  resolve = λ d s. (ok tt, s);
  generate = λ a d r s. (answer s, suc s);
  clock = λ s. (s, s);
  sleep = λ t s. (ok tt, s);
  ticks_per_second = 1000;
  jitter_unit = λ r d n. 0;
}

abbrev execution : Execution ℕ ℕ
execution = record {
  ports = ports;
  retry_policy = retry_policy;
  deadline = disabled;
  request = request;
  decision = decision;
  max_output_tokens = 50;
  provider_timeout_seconds = 30;
}

abbrev safe : FallbackSafetyState
safe = record {
  provider_output_observed = false;
  external_side_effect_executed = false;
  opaque_reasoning_state_established = false;
}

-- The first call is retried on the same deployment after a timeout, and the second one succeeds.
retries_once : (execute execution safe 0).1.calls ≡ candidate.deployment ∷ candidate.deployment ∷ []
unfolding execute automatic_replay_allowed all_validated try_candidates try_deployment attempt
    admitted_attempt health_admission_scope call_provider generate handle_failure handle_success
    can_retry note_failure check_deadline is_transient_provider_error decision_of Text-discrete
    ℕ_discrete CircuitState-discrete
retries_once = refl

abbrev served : ResilientExecutionResult ℕ
served = record {
  deployment = candidate.deployment;
  response = 1;
  routing = record decision.routing {
    provider = some candidate.deployment.provider;
    model = some candidate.deployment.model_id;
    deployment = some candidate.deployment.deployment_id;
    fallback_sequence = candidate.deployment.deployment_id ∷ [];
  };
  attempts =
      failure execution candidate.deployment 1 1 timed_out
        (delay_if execution true candidate.deployment 1 timed_out)
      ∷ success execution candidate.deployment 2 1
      ∷ [];
}

execute-served : (execute execution safe 0).0 ≡ ok served
unfolding execute automatic_replay_allowed all_validated try_candidates try_deployment attempt
    admitted_attempt health_admission_scope call_provider generate handle_failure handle_success
    can_retry note_failure check_deadline is_transient_provider_error decision_of Text-discrete
    ℕ_discrete CircuitState-discrete latency_ms_of
execute-served = refl

execute-IsServed_example : IsServed execution served (execute execution safe 0).1
execute-IsServed_example = execute-IsServed execution safe 0 served execute-served

calls_bounded_example : length (execute execution safe 0).1.calls ≤ (2 + 1) * 2
calls_bounded_example = calls_bounded execution safe 0

calls_authorized_example :
    All
      (IsCandidate execution (bounded_candidates execution candidate))
      (execute execution safe 0).1.calls
unfolding decision_of
calls_authorized_example = calls_authorized execution safe 0 candidate refl

calls-IsReplayable_example : All (λ d. IsReplayable safe) (execute execution safe 0).1.calls
calls-IsReplayable_example = calls-IsReplayable execution safe 0

admissions_released_example :
    (execute execution safe 0).1.released ≡ (execute execution safe 0).1.admitted
admissions_released_example = admissions_released execution safe 0

retry_delay-le_max_example :
    retry_delay_seconds retry_policy 7 9 (some 100) ≤ 8 * parts retry_policy
retry_delay-le_max_example = retry_delay-le_max retry_policy 7 9 (some 100)

retry_delay-ge_example :
    let delay = retry_delay_seconds retry_policy 7 2 (some 3) in
    (at_most 8 (1 * 2 ^ (2 - 1)) * parts retry_policy ≤ delay)
    × ((seconds : ℕ)
        → ◌≡◌ {A = Option ℕ} (some 3) (some seconds)
        → at_most 8 seconds * parts retry_policy ≤ delay)
retry_delay-ge_example = retry_delay-ge retry_policy 7 2 (some 3)
