-- ===== src/Health/Circuit.antt =====
-- `InMemoryHealthTracker` of
-- packages/gateway-core/src/governed_llm_gateway_core/application/resilience.py: the state that is
-- kept for each deployment, and each method on it. The monotonic clock and `uuid4` are a `World`
-- that is read in the order in which the code reads it.
use governed_llm_gateway.Base.{
  ℤ, ℕ, suc, ◌+◌, ◌-◌, Bool, true, false, ◌&&◌, ◌||◌, not, Option, none, some, leb, ◌==◌,
  if◌then◌else◌, Text, text_eq, same, Result, ok, raised, raise_if, ◌>>◌, is_none,
}
use governed_llm_gateway.Health.{
  CircuitState, closed, open_circuit, half_open, CircuitState-discrete, HealthStatus, healthy,
  degraded, unhealthy, Error, value_error, runtime_error, DeploymentHealthSnapshot, check_snapshot,
  CircuitBreakerPolicy, HealthAdmission, is_probe, check_admission, ProviderErrorCode,
  ProviderErrorCode-discrete, ProviderError, is_transient_provider_error,
}

-- Readings of the monotonic clock and results of `uuid4().hex`, and how many were taken.
pub record World : Type 0 where
  pub times : ℕ → ℕ
  pub ids : ℕ → Text
  pub ticks : ℕ
  pub drawn : ℕ

abbrev pub clock : World → ℕ
clock w = w.times w.ticks

abbrev pub tick : World → World
tick w = record w { ticks = suc w.ticks }

abbrev pub uuid4_hex : World → Text
uuid4_hex w = w.ids w.drawn

abbrev pub draw : World → World
draw w = record w { drawn = suc w.drawn }

-- `_MutableDeploymentHealth`.
pub record MutableHealth : Type 0 where
  pub request_count : ℕ
  pub success_count : ℕ
  pub transient_failure_count : ℕ
  pub timeout_count : ℕ
  pub rate_limit_count : ℕ
  pub server_error_count : ℕ
  pub consecutive_transient_failures : ℕ
  pub last_latency_ms : Option ℤ
  pub circuit_state : CircuitState
  pub opened_at : Option ℕ
  pub generation : Text
  pub probe_owner : Option Text
  pub probe_expires_at : Option ℕ

-- The defaults of the fields, with a fresh generation.
unfoldable pub new_health : Text → MutableHealth
new_health generation = record {
  request_count = 0;
  success_count = 0;
  transient_failure_count = 0;
  timeout_count = 0;
  rate_limit_count = 0;
  server_error_count = 0;
  consecutive_transient_failures = 0;
  last_latency_ms = none;
  circuit_state = closed;
  opened_at = none;
  generation = generation;
  probe_owner = none;
  probe_expires_at = none;
}

-- The state of one deployment, with the world that its methods read.
pub record Cell : Type 0 where
  pub health : MutableHealth
  pub world : World

-- `_retire_probe`.
unfoldable pub retire_probe : Cell → Cell
retire_probe c = record {
  health = record c.health {
    generation = uuid4_hex c.world;
    probe_owner = none;
    probe_expires_at = none;
  };
  world = draw c.world;
}

-- `opened_at is not None and now - opened_at >= cooldown_seconds`. On natural numbers the
-- difference is moved to the other side.
abbrev pub is_cooled : Option ℕ → ℕ → ℕ → Bool
is_cooled none cooldown now = false
is_cooled (some opened) cooldown now = leb (opened + cooldown) now

-- `probe_expires_at is not None and now >= probe_expires_at`.
abbrev pub is_lapsed : Option ℕ → ℕ → Bool
is_lapsed none now = false
is_lapsed (some expires) now = leb expires now

abbrev pub is_state : CircuitState → MutableHealth → Bool
is_state s h = same CircuitState-discrete h.circuit_state s

-- The first half of `_refresh_circuit`, at the instant that was read.
unfoldable pub half_open_if_cooled : CircuitBreakerPolicy → ℕ → MutableHealth → MutableHealth
half_open_if_cooled p now h =
    if is_state open_circuit h && is_cooled h.opened_at p.cooldown_seconds now
    then record h { circuit_state = half_open }
    else h

-- `_refresh_circuit`.
unfoldable pub refresh_circuit : CircuitBreakerPolicy → Cell → Cell
unfolding half_open_if_cooled retire_probe
refresh_circuit p c =
    let now = clock c.world in
    let c' : Cell = record { health = half_open_if_cooled p now c.health; world = tick c.world } in
    if is_lapsed c'.health.probe_expires_at now then retire_probe c' else c'

abbrev pub is_owner : Option Text → Text → Bool
is_owner none owner = false
is_owner (some o) owner = text_eq o owner

-- `_matches`.
unfoldable pub matches : MutableHealth → HealthAdmission → Bool
matches h a =
    text_eq h.generation a.generation
    && ((is_state closed h && not (is_probe a))
        || (is_state half_open h && is_probe a && is_owner h.probe_owner a.attempt_id))

-- `_controls_circuit`.
unfoldable pub controls_circuit : Text → MutableHealth → Option HealthAdmission → Result Error Bool
unfolding matches
controls_circuit deployment_id h none = ok (is_state closed h)
controls_circuit deployment_id h (some a) = do
  raise_if (not (text_eq a.deployment_id deployment_id)) value_error
  ok (matches h a)

-- `_snapshot`: the status is derived from the circuit and the run of failures.
unfoldable pub status_of : MutableHealth → HealthStatus
status_of h =
    if is_state open_circuit h
    then unhealthy
    else if is_state half_open h || not (h.consecutive_transient_failures == 0)
    then degraded
    else healthy

unfoldable pub snapshot_values : Text → MutableHealth → DeploymentHealthSnapshot
unfolding status_of
snapshot_values deployment_id h = record {
  deployment_id = deployment_id;
  status = status_of h;
  circuit_state = h.circuit_state;
  request_count = h.request_count;
  success_count = h.success_count;
  transient_failure_count = h.transient_failure_count;
  timeout_count = h.timeout_count;
  rate_limit_count = h.rate_limit_count;
  server_error_count = h.server_error_count;
  consecutive_transient_failures = h.consecutive_transient_failures;
  last_latency_ms = h.last_latency_ms;
}

-- What a method returns: its result, and the state of the deployment after it, also when it
-- raised.
abbrev pub Method {ℓ} : Type ℓ → Type ℓ
Method A = Cell → Result Error A × Cell

-- `snapshot`, after `_state`.
unfoldable pub snapshot : CircuitBreakerPolicy → Text → Method DeploymentHealthSnapshot
snapshot p deployment_id c =
    let c' = refresh_circuit p c in (check_snapshot (snapshot_values deployment_id c'.health), c')

abbrev pub granted : Result Error HealthAdmission → Result Error (Option HealthAdmission)
granted (ok a) = ok (some a)
granted (raised e) = raised e

-- The branch of `allow_request` that claims a free probe. The clock is read again.
unfoldable pub claim_probe : CircuitBreakerPolicy → Text → Cell → Cell
claim_probe p owner c = record {
  health = record c.health {
    generation = uuid4_hex c.world;
    probe_owner = some owner;
    probe_expires_at = some (clock c.world + p.probe_lease_seconds);
  };
  world = tick (draw c.world);
}

-- The end of `allow_request`: the handle of the probe. The clock is read once more.
abbrev pub probe_admission : Text → Text → Option ℕ → Method (Option HealthAdmission)
probe_admission deployment_id owner none c = (raised runtime_error, c)
probe_admission deployment_id owner (some expires) c = (
  granted (
      check_admission (record {
        deployment_id = deployment_id;
        attempt_id = owner;
        generation = c.health.generation;
        probe_timeout_seconds = some (expires - clock c.world);
      })),
  record c { world = tick c.world },
)

abbrev pub is_other : Option Text → Text → Bool
is_other none owner = false
is_other (some o) owner = not (text_eq o owner)

-- `allow_request` of a half-open circuit.
unfoldable pub admit_probe : CircuitBreakerPolicy → Text → Text → Method (Option HealthAdmission)
admit_probe p deployment_id owner c =
    if is_other c.health.probe_owner owner
    then (ok none, c)
    else (let c' = if is_none c.health.probe_owner then claim_probe p owner c else c in
        probe_admission deployment_id owner c'.health.probe_expires_at c')

-- `allow_request`, after the owner and `_state`.
unfoldable pub allow_request : CircuitBreakerPolicy → Text → Text → Method (Option HealthAdmission)
allow_request p deployment_id owner c =
    let c' = refresh_circuit p c in
    if is_state open_circuit c'.health
    then (ok none, c')
    else if is_state closed c'.health
    then (
      granted (
          check_admission (record {
            deployment_id = deployment_id;
            attempt_id = owner;
            generation = c'.health.generation;
            probe_timeout_seconds = none;
          })),
      c',
    )
    else admit_probe p deployment_id owner c'

-- `release_request`, after `_state`.
unfoldable pub release_request : CircuitBreakerPolicy → HealthAdmission → Cell → Cell
release_request p a c =
    let c' = refresh_circuit p c in
    if is_probe a && matches c'.health a then retire_probe c' else c'

-- `is_admitted`, after `_state`.
unfoldable pub is_admitted : CircuitBreakerPolicy → HealthAdmission → Cell → Bool × Cell
is_admitted p a c = let c' = refresh_circuit p c in (matches c'.health a, c')

-- `admission is not None and admission.is_probe`.
abbrev pub is_probe_handle : Option HealthAdmission → Bool
is_probe_handle none = false
is_probe_handle (some a) = is_probe a

-- The body of `record_success` from the counters on.
unfoldable pub succeed : ℤ → Bool → Bool → Cell → Cell
unfolding retire_probe
succeed latency_ms controls probe c =
    let h : MutableHealth = record c.health {
      request_count = suc c.health.request_count;
      success_count = suc c.health.success_count;
      last_latency_ms = some latency_ms;
    } in
    let recovered : Cell = record c {
      health = record h {
        consecutive_transient_failures = 0;
        circuit_state = closed;
        opened_at = none;
      };
    } in
    if controls
    then if probe then retire_probe recovered else recovered
    else record c { health = h }

-- `record_success`, after `_state`.
unfoldable pub record_success :
    CircuitBreakerPolicy → Text → ℤ → Option HealthAdmission → Method Bool
record_success p deployment_id latency_ms admission c =
    let c' = refresh_circuit p c in
    elim (controls_circuit deployment_id c'.health admission) [
      | raised e ↦ (raised e, c')
      | ok controls ↦
          if is_probe_handle admission && not controls
          then (ok false, c')
          else (ok true, succeed latency_ms controls (is_probe_handle admission) c')
    ]

abbrev count_if : Bool → ℕ → ℕ
count_if b n = if b then suc n else n

-- `error.status_code is None or error.status_code >= 500`.
abbrev is_server_status : Option ℕ → Bool
is_server_status none = true
is_server_status (some code) = leb 500 code

abbrev is_code : ProviderErrorCode → ProviderError → Bool
is_code code e = same ProviderErrorCode-discrete e.code code

-- `state.request_count += 1` and `state.last_latency_ms = latency_ms`.
unfoldable pub count_request : ℤ → MutableHealth → MutableHealth
count_request latency_ms h = record h {
  request_count = suc h.request_count;
  last_latency_ms = some latency_ms;
}

-- The counters of a transient failure.
unfoldable pub count_transient : ProviderError → Bool → MutableHealth → MutableHealth
count_transient e controls h = record h {
  transient_failure_count = suc h.transient_failure_count;
  consecutive_transient_failures = count_if controls h.consecutive_transient_failures;
  timeout_count = count_if (is_code ProviderErrorCode.timeout e) h.timeout_count;
  rate_limit_count = count_if (is_code ProviderErrorCode.rate_limit e) h.rate_limit_count;
  server_error_count =
      count_if (is_code ProviderErrorCode.unavailable e && is_server_status e.status_code)
        h.server_error_count;
}

-- Opening the circuit reads the clock, and retires the probe.
unfoldable pub open_now : Cell → Cell
unfolding retire_probe
open_now c = retire_probe (record {
  health = record c.health { circuit_state = open_circuit; opened_at = some (clock c.world) };
  world = tick c.world;
})

-- The body of `record_failure` from the counters on, for a transient error.
unfoldable pub fail_transient : CircuitBreakerPolicy → ProviderError → Bool → Cell → Cell
fail_transient p e controls c =
    let c' : Cell = record c { health = count_transient e controls c.health } in
    if controls
      && (is_state half_open c'.health
          || leb p.failure_threshold c'.health.consecutive_transient_failures)
    then open_now c'
    else c'

-- The same for any other error.
unfoldable pub fail_permanent : Bool → Bool → Cell → Cell
unfolding retire_probe
fail_permanent controls probe c =
    let reset : Cell = record c {
      health = record c.health { consecutive_transient_failures = 0 };
    } in
    if controls then if probe then retire_probe reset else reset else c

-- `record_failure`, after `_state`.
unfoldable pub record_failure :
    CircuitBreakerPolicy → Text → ProviderError → ℤ → Option HealthAdmission → Method (Unit {0})
record_failure p deployment_id error latency_ms admission c =
    let c' = refresh_circuit p c in
    elim (controls_circuit deployment_id c'.health admission) [
      | raised e ↦ (raised e, c')
      | ok controls ↦
          if is_probe_handle admission && not controls
          then (ok tt, c')
          else (let counted : Cell = record c' { health = count_request latency_ms c'.health } in
              if is_transient_provider_error error
              then (ok tt, fail_transient p error controls counted)
              else (ok tt, fail_permanent controls (is_probe_handle admission) counted))
    ]
