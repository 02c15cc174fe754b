-- ===== src/Health/Sound.antt =====
-- What every method keeps of one deployment's state.
use governed_llm_gateway.Base.{
  ℤ, suc, ◌+◌, ◌≤◌, ◌<◌, ◌≡◌, Bool, true, false, Option, none, some, ok, arith, Text, is_none,
  if◌then◌else◌,
}
use governed_llm_gateway.Health.{
  closed, half_open, CircuitBreakerPolicy, HealthAdmission, ProviderError,
}
use governed_llm_gateway.Health.Circuit.{
  MutableHealth, Cell, new_health, retire_probe, refresh_circuit, allow_request, release_request,
  record_success, record_failure, succeed, fail_transient, fail_permanent, admit_probe, claim_probe,
  controls_circuit, is_probe_handle, open_now, count_request, count_transient,
}

-- The counters add up, an open or half-open circuit knows when it opened, and only a half-open
-- circuit has a probe, which has an owner exactly when it has a deadline.
pub record IsSound (p : CircuitBreakerPolicy) (h : MutableHealth) : Type 0 where
  pub counted : h.success_count + h.transient_failure_count ≤ h.request_count
  pub classified :
      h.timeout_count + h.rate_limit_count + h.server_error_count ≤ h.transient_failure_count
  pub run_bounded : h.consecutive_transient_failures ≤ h.transient_failure_count
  pub below_threshold :
      h.circuit_state ≡ closed → h.consecutive_transient_failures < p.failure_threshold
  pub opened : is_none h.opened_at ≡ true → h.circuit_state ≡ closed
  pub probe_paired : is_none h.probe_owner ≡ is_none h.probe_expires_at
  pub probe_half_open : is_none h.probe_owner ≡ false → h.circuit_state ≡ half_open

module _ (p : CircuitBreakerPolicy) where
  pub new_health-IsSound : (g : Text) → 0 < p.failure_threshold → IsSound p (new_health g)
  unfolding new_health
  new_health-IsSound g h = ground arith

  retire_probe-IsSound : (c : Cell) → IsSound p c.health → IsSound p (retire_probe c).health
  unfolding retire_probe
  retire_probe-IsSound c s = ground arith

  pub refresh_circuit-IsSound :
      (c : Cell) → IsSound p c.health → IsSound p (refresh_circuit p c).health
  unfolding refresh_circuit
  refresh_circuit-IsSound c s = ground arith

  admit_probe-IsSound :
      (d owner : Text) (c : Cell)
      → c.health.circuit_state ≡ half_open
      → IsSound p c.health
      → IsSound p (admit_probe p d owner c).1.health
  unfolding admit_probe claim_probe
  admit_probe-IsSound d owner c e s = ground arith

  pub allow_request-IsSound :
      (d owner : Text) (c : Cell)
      → IsSound p c.health
      → IsSound p (allow_request p d owner c).1.health
  unfolding allow_request
  allow_request-IsSound d owner c s =
      ground (arith, refresh_circuit-IsSound c s, admit_probe-IsSound d owner (refresh_circuit p c))

  pub release_request-IsSound :
      (a : HealthAdmission) (c : Cell)
      → IsSound p c.health
      → IsSound p (release_request p a c).health
  unfolding release_request
  release_request-IsSound a c s =
      ground (arith, refresh_circuit-IsSound c s, retire_probe-IsSound (refresh_circuit p c))

  succeed-IsSound :
      (latency : ℤ) (controls probe : Bool) (c : Cell)
      → 0 < p.failure_threshold
      → (controls ≡ true → probe ≡ false → is_none c.health.probe_owner ≡ true)
      → IsSound p c.health
      → IsSound p (succeed latency controls probe c).health
  unfolding succeed
  succeed-IsSound latency controls probe c pos free s = ground arith

  -- A report without a probe's handle controls a circuit without a probe only.
  controls-free :
      (d : Text) (a : Option HealthAdmission) (h : MutableHealth)
      → IsSound p h
      → controls_circuit d h a ≡ ok true
      → is_probe_handle a ≡ false
      → is_none h.probe_owner ≡ true
  unfolding controls_circuit
  controls-free d none h s e q = ground arith
  controls-free d (some a) h s e q = ground arith

  pub record_success-IsSound :
      (d : Text) (latency : ℤ) (a : Option HealthAdmission) (c : Cell)
      → 0 < p.failure_threshold
      → IsSound p c.health
      → IsSound p (record_success p d latency a c).1.health
  unfolding record_success
  record_success-IsSound d latency a c pos s = ground (
    arith,
    refresh_circuit-IsSound c s,
    controls-free d a (refresh_circuit p c).health,
    succeed-IsSound latency true (is_probe_handle a) (refresh_circuit p c),
    succeed-IsSound latency false (is_probe_handle a) (refresh_circuit p c),
  )

-- What counting a transient failure leaves, and what it adds.
pub record IsCounted (controls : Bool) (h h' : MutableHealth) : Type 0 where
  pub requests : h'.request_count ≡ h.request_count
  pub successes : h'.success_count ≡ h.success_count
  pub transients : h'.transient_failure_count ≡ suc h.transient_failure_count
  pub classes :
      h'.timeout_count + h'.rate_limit_count + h'.server_error_count
      ≤ suc (h.timeout_count + h.rate_limit_count + h.server_error_count)
  pub run : h'.consecutive_transient_failures ≡ (
      if controls then suc h.consecutive_transient_failures else h.consecutive_transient_failures)
  pub circuit : h'.circuit_state ≡ h.circuit_state
  pub since : h'.opened_at ≡ h.opened_at
  pub owner : h'.probe_owner ≡ h.probe_owner
  pub deadline : h'.probe_expires_at ≡ h.probe_expires_at

pub count_transient-IsCounted :
    (e : ProviderError) (controls : Bool) (h : MutableHealth)
    → IsCounted controls h (count_transient e controls h)
unfolding count_transient
count_transient-IsCounted e controls h = ground arith

module _ (p : CircuitBreakerPolicy) where
  fail_transient-IsSound :
      (e : ProviderError) (controls : Bool) (latency : ℤ) (c : Cell)
      → IsSound p c.health
      → IsSound p
          (fail_transient p e controls
            (record c { health = count_request latency c.health })).health
  unfolding fail_transient count_request open_now
  fail_transient-IsSound e controls latency c s =
      ground (arith, count_transient-IsCounted e controls (count_request latency c.health))

  fail_permanent-IsSound :
      (controls probe : Bool) (latency : ℤ) (c : Cell)
      → 0 < p.failure_threshold
      → IsSound p c.health
      → IsSound p
          (fail_permanent controls probe
            (record c { health = count_request latency c.health })).health
  unfolding fail_permanent count_request
  fail_permanent-IsSound controls probe latency c pos s = ground arith

  pub record_failure-IsSound :
      (d : Text) (e : ProviderError) (latency : ℤ) (a : Option HealthAdmission) (c : Cell)
      → 0 < p.failure_threshold
      → IsSound p c.health
      → IsSound p (record_failure p d e latency a c).1.health
  unfolding record_failure
  record_failure-IsSound d e latency a c pos s = ground (
    arith,
    refresh_circuit-IsSound p c s,
    fail_transient-IsSound e true latency (refresh_circuit p c),
    fail_transient-IsSound e false latency (refresh_circuit p c),
    fail_permanent-IsSound true (is_probe_handle a) latency (refresh_circuit p c),
    fail_permanent-IsSound false (is_probe_handle a) latency (refresh_circuit p c),
  )
