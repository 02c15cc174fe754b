-- ===== src/Health/Calls.antt =====
-- The calls that reach one deployment's state, and the transitions of its circuit. The methods are
-- those of packages/gateway-core/src/governed_llm_gateway_core/application/resilience.py.
use governed_llm_gateway.Base.{
  ℤ, ◌≡◌, ◌≢◌, true, false, Option, none, some, ok, arith, Text, is_none,
}
use governed_llm_gateway.Health.{
  closed, open_circuit, half_open, CircuitState-discrete, CircuitBreakerPolicy, HealthAdmission,
  is_probe, ProviderError,
}
use governed_llm_gateway.Health.Circuit.{
  Cell, MutableHealth, matches, controls_circuit, is_probe_handle, refresh_circuit, snapshot,
  allow_request, admit_probe, claim_probe, release_request, is_admitted, record_success,
  record_failure, succeed, fail_transient, fail_permanent, count_request, open_now, retire_probe,
  half_open_if_cooled,
}
use governed_llm_gateway.Health.Sound.{IsSound, count_transient-IsCounted}

pub data Call : Type 0 where
  reads : Call
  allows : Text → Call
  releases checks : HealthAdmission → Call
  succeeds : ℤ → Option HealthAdmission → Call
  fails : ProviderError → ℤ → Option HealthAdmission → Call

-- The state of the deployment after a call.
unfoldable pub after : CircuitBreakerPolicy → Text → Call → Cell → Cell
after p d reads c = (snapshot p d c).1
after p d (allows owner) c = (allow_request p d owner c).1
after p d (releases a) c = release_request p a c
after p d (checks a) c = (is_admitted p a c).1
after p d (succeeds latency a) c = (record_success p d latency a c).1
after p d (fails e latency a) c = (record_failure p d e latency a c).1

-- A success that is reported with the handle of the probe that holds the circuit.
abbrev pub IsProbeSuccess : CircuitBreakerPolicy → Call → Cell → Type 0
IsProbeSuccess p (succeeds latency (some a)) c =
    (is_probe a ≡ true) × (matches (refresh_circuit p c).health a ≡ true)
IsProbeSuccess p _ c = ⊥

-- The transitions that a call may make.
pub record ObeysCycle (p : CircuitBreakerPolicy) (call : Call) (c : Cell) (h : MutableHealth)
    : Type 0 where
  pub from_closed : c.health.circuit_state ≡ closed → h.circuit_state ≢ half_open
  pub from_open : c.health.circuit_state ≡ open_circuit → h.circuit_state ≢ closed
  pub from_half_open :
      c.health.circuit_state ≡ half_open → h.circuit_state ≡ closed → IsProbeSuccess p call c

module _ (p : CircuitBreakerPolicy) where
  -- A refresh opens no circuit and closes none, and keeps the owner only where it keeps the rest.
  record IsRefreshed (h h' : MutableHealth) : Type 0 where
    keeps_closed : h.circuit_state ≡ closed → h'.circuit_state ≡ closed
    keeps_half_open : h.circuit_state ≡ half_open → h'.circuit_state ≡ half_open
    leaves_open : h.circuit_state ≡ open_circuit → h'.circuit_state ≢ closed
    no_owner : is_none h.probe_owner ≡ true → is_none h'.probe_owner ≡ true

  refresh_circuit-IsRefreshed : (c : Cell) → IsRefreshed c.health (refresh_circuit p c).health
  unfolding refresh_circuit half_open_if_cooled retire_probe CircuitState-discrete
  refresh_circuit-IsRefreshed c = ground arith

  -- Only the owner of a probe matches a half-open circuit, and only with the probe's handle.
  half_open_control :
      (d : Text) (a : Option HealthAdmission) (h : MutableHealth)
      → h.circuit_state ≢ closed
      → controls_circuit d h a ≡ ok true
      → (is_none h.probe_owner ≡ false) × (is_probe_handle a ≡ true)
  unfolding controls_circuit matches CircuitState-discrete
  half_open_control d none h e q = ground arith
  half_open_control d (some a) h e q = ground arith

  controls_circuit-matches :
      (d : Text) (a : HealthAdmission) (h : MutableHealth)
      → controls_circuit d h (some a) ≡ ok true
      → matches h a ≡ true
  unfolding controls_circuit
  controls_circuit-matches d a h e = ground arith

  allows-ObeysCycle :
      (d owner : Text) (c : Cell)
      → ObeysCycle p (allows owner) c (allow_request p d owner c).1.health
  unfolding allow_request admit_probe claim_probe
  allows-ObeysCycle d owner c = ground (arith, refresh_circuit-IsRefreshed c)

  releases-ObeysCycle :
      (a : HealthAdmission) (c : Cell) → ObeysCycle p (releases a) c (release_request p a c).health
  unfolding release_request retire_probe
  releases-ObeysCycle a c = ground (arith, refresh_circuit-IsRefreshed c)

  succeeds-ObeysCycle :
      (d : Text) (latency : ℤ) (a : Option HealthAdmission) (c : Cell)
      → IsSound p c.health
      → ObeysCycle p (succeeds latency a) c (record_success p d latency a c).1.health
  unfolding record_success succeed retire_probe
  succeeds-ObeysCycle d latency none c s =
      ground (
        arith,
        refresh_circuit-IsRefreshed c,
        half_open_control d none (refresh_circuit p c).health,
      )
  succeeds-ObeysCycle d latency (some a) c s = ground (
    arith,
    refresh_circuit-IsRefreshed c,
    half_open_control d (some a) (refresh_circuit p c).health,
    controls_circuit-matches d a (refresh_circuit p c).health,
  )

  fails-ObeysCycle :
      (d : Text) (e : ProviderError) (latency : ℤ) (a : Option HealthAdmission) (c : Cell)
      → ObeysCycle p (fails e latency a) c (record_failure p d e latency a c).1.health
  unfolding record_failure fail_permanent fail_transient count_request open_now retire_probe
  fails-ObeysCycle d e latency a c = ground (
    arith,
    refresh_circuit-IsRefreshed c,
    count_transient-IsCounted e true (count_request latency (refresh_circuit p c).health),
    count_transient-IsCounted e false (count_request latency (refresh_circuit p c).health),
  )

  reads-ObeysCycle : (call : Call) (c : Cell) → ObeysCycle p call c (refresh_circuit p c).health
  reads-ObeysCycle call c = ground (arith, refresh_circuit-IsRefreshed c)

  -- A call moves the circuit only along its cycle: a closed circuit stays or opens, an open one
  -- stays or becomes half-open and is closed by no call, and a half-open one is closed by nothing
  -- but a success that is reported with the handle of the probe which holds it. The state is sound.
  pub after-ObeysCycle :
      (d : Text) (call : Call) (c : Cell)
      → IsSound p c.health
      → ObeysCycle p call c (after p d call c).health
  unfolding after snapshot is_admitted
  after-ObeysCycle d reads c s = reads-ObeysCycle reads c
  after-ObeysCycle d (allows owner) c s = allows-ObeysCycle d owner c
  after-ObeysCycle d (releases a) c s = releases-ObeysCycle a c
  after-ObeysCycle d (checks a) c s = reads-ObeysCycle (checks a) c
  after-ObeysCycle d (succeeds latency a) c s = succeeds-ObeysCycle d latency a c s
  after-ObeysCycle d (fails e latency a) c s = fails-ObeysCycle d e latency a c
