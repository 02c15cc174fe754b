-- ===== src/Exec/Service/Steps.antt =====
-- What the service of packages/gateway-core/src/governed_llm_gateway_core/application/resilience.py
-- runs on: its ports and its progress, runs in sequence, `health_admission_scope` of
-- application/health.py, `probe_expired_error` of application/health_probe.py, and the checks of
-- the local deadline.
use governed_llm_gateway.Base.{
  ℕ, Bool, true, false, not, ◌&&◌, Option, none, List, [], ◌∷◌, ◌++◌, if◌then◌else◌, Text, Result,
  ok, raised,
}
use governed_llm_gateway.Health.{CircuitState, HealthAdmission, ProviderError, ProviderErrorCode}
use governed_llm_gateway.Exec.{
  ExecutionAttempt, Exception, provider_error, execution_deadline_exceeded, cancelled,
  latency_ms_of, ExecutionDeadline, disabled, expires, is_expired,
}
use governed_llm_gateway.Routing.{GatewayRequest, ModelDeployment}
use governed_llm_gateway.Routing.Ranking.{RoutingProvenance}

-- `ProviderRequest`; the messages, the tools and the schema are those of the request.
pub record ProviderRequest : Type 0 where
  pub model : Text
  pub content : GatewayRequest
  pub max_output_tokens : ℕ
  pub timeout_seconds : ℕ

-- What the service is bound to, on a state of its own: any of it may raise. `generate` is the
-- provider's call within `bounded_probe_call`.
pub record Ports (S R : Type 0) : Type 0 where
  pub allow_request : Text → S → Result Exception (Option HealthAdmission) × S
  pub release_request : HealthAdmission → S → Result Exception (Unit {0}) × S
  pub record_success : Text → ℕ → HealthAdmission → S → Result Exception Bool × S
  pub record_failure :
      Text → ProviderError → ℕ → HealthAdmission → S → Result Exception (Unit {0}) × S
  pub circuit_state : Text → S → Result Exception CircuitState × S
  pub resolve : ModelDeployment → S → Result Exception (Unit {0}) × S
  pub generate : HealthAdmission → ModelDeployment → ProviderRequest → S → Result Exception R × S
  pub clock : S → ℕ × S
  pub sleep : ℕ → S → Result Exception (Unit {0}) × S
  pub ticks_per_second : ℕ
  pub jitter_unit : ℕ → Text → ℕ → ℕ

-- The state of the ports, the local variables `attempts`, `fallback_sequence` and the code of
-- `last_error`, and a record of the calls: the admissions taken and released, and the deployments
-- that a provider was called for.
pub record Progress (S : Type 0) : Type 0 where
  pub ports : S
  pub attempts : List ExecutionAttempt
  pub fallback_sequence : List Text
  pub last_error_code : Option ProviderErrorCode
  pub admitted : List HealthAdmission
  pub released : List HealthAdmission
  pub calls : List ModelDeployment

-- `ResilientExecutionResult`.
pub record ResilientExecutionResult (R : Type 0) : Type 0 where
  pub deployment : ModelDeployment
  pub response : R
  pub routing : RoutingProvenance
  pub attempts : List ExecutionAttempt

-- How an attempt ends: with a result, with a delay before the next one, or with the next candidate.
pub data Next (R : Type 0) : Type 0 where
  finished : ResilientExecutionResult R → Next R
  retries : ℕ → Next R
  falls_back : Next R

abbrev pub Run {ℓ} : Type 0 → Type ℓ → Type ℓ
Run S A = Progress S → Result Exception A × Progress S

abbrev pub after {ℓ κ} :
    {S : Type 0} {A : Type ℓ} {B : Type κ}
    → (A → Run S B)
    → Result Exception A × Progress S
    → Result Exception B × Progress S
after f (ok a, s) = f a s
after f (raised e, s) = (raised e, s)

abbrev pub return {ℓ} : {S : Type 0} {A : Type ℓ} → A → Run S A
return a s = (ok a, s)

abbrev pub raise {ℓ} : {S : Type 0} {A : Type ℓ} → Exception → Run S A
raise e s = (raised e, s)

-- In sequence: what follows is skipped after an exception, and the progress is kept.
infixl 5 ◌>>=◌
abbrev pub ◌>>=◌ {ℓ κ} : {S : Type 0} {A : Type ℓ} {B : Type κ} → Run S A → (A → Run S B) → Run S B
(first >>= rest) s = after rest (first s)

infixl 5 ◌>>◌
abbrev pub ◌>>◌ {ℓ} : {S : Type 0} {B : Type ℓ} → Run S (Unit {0}) → Run S B → Run S B
first >> rest = first >>= λ done. rest

-- A call of a port.
abbrev pub call {ℓ} : {S : Type 0} {A : Type ℓ} → (S → Result Exception A × S) → Run S A
call f s = let (r, t) = f s.ports in (r, record s { ports = t })

abbrev pub modify : {S : Type 0} → (Progress S → Progress S) → Run S (Unit {0})
modify f s = (ok tt, f s)

-- `attempts.append(...)`.
abbrev pub append_attempt : {S : Type 0} → ExecutionAttempt → Run S (Unit {0})
append_attempt a = modify λ s. record s { attempts = s.attempts ++ a ∷ [] }

-- `deadline.check()`: a disabled budget reads no clock.
unfoldable pub check_deadline : {S R : Type 0} → Ports S R → ExecutionDeadline → Run S (Unit {0})
check_deadline p disabled s = (ok tt, s)
check_deadline p (expires started_at expires_at) s =
    let (now, t) = p.clock s.ports in
    if is_expired started_at expires_at now
    then (raised execution_deadline_exceeded, record s { ports = t })
    else (ok tt, record s { ports = t })

-- `_latency_ms(started, self._clock())`.
abbrev pub latency_since : {S R : Type 0} → Ports S R → ℕ → Run S ℕ
latency_since p started s =
    let (now, t) = p.clock s.ports in
    (ok (latency_ms_of p.ticks_per_second started now), record s { ports = t })

-- `probe_expired_error`.
abbrev pub probe_expired_error : Exception
probe_expired_error = provider_error (record {
  code = ProviderErrorCode.timeout;
  retryable = true;
  status_code = none;
  retry_after_seconds = none;
})

-- The exceptions that a failing release does not replace.
abbrev suppresses : Exception → Bool
suppresses cancelled = true
suppresses execution_deadline_exceeded = true
suppresses e = false

-- `suppress(Exception)` lets a cancellation through.
abbrev is_cancelled : Exception → Bool
is_cancelled cancelled = true
is_cancelled e = false

abbrev pub release_after {ℓ} :
    {A : Type ℓ} → Result Exception A → Result Exception (Unit {0}) → Result Exception A
release_after (ok a) (ok u) = ok a
release_after (ok a) (raised e) = raised e
release_after (raised x) (ok u) = raised x
release_after (raised x) (raised e) = raised (if suppresses x && not (is_cancelled e) then x else e)

-- `health_admission_scope` around a body.
unfoldable pub health_admission_scope {ℓ} :
    {S R : Type 0} {A : Type ℓ} → Ports S R → HealthAdmission → Run S A → Run S A
health_admission_scope p admission body s =
    let (r, t) = body s in
    let (u, ports) = p.release_request admission t.ports in
    (release_after r u, record t { ports = ports; released = t.released ++ admission ∷ [] })

abbrev pub dispatch {ℓ κ} :
    {S : Type 0} {A : Type ℓ} {B : Type κ}
    → (ProviderError → Run S B)
    → (A → Run S B)
    → Result Exception A × Progress S
    → Result Exception B × Progress S
dispatch handler f (ok a, t) = f a t
dispatch handler f (raised (provider_error e), t) = handler e t
dispatch handler f (raised e, t) = (raised e, t)

-- `try: m`, `except ProviderError as e: handler e`, `else: f`.
abbrev pub try_provider {ℓ κ} :
    {S : Type 0} {A : Type ℓ} {B : Type κ}
    → Run S A
    → (ProviderError → Run S B)
    → (A → Run S B)
    → Run S B
try_provider m handler f s = dispatch handler f (m s)
