-- ===== src/Health/Recovery.antt =====
-- How a circuit opens, and how a probe of
-- packages/gateway-core/src/governed_llm_gateway_core/application/resilience.py closes it again.
use governed_llm_gateway.Base.{
  List, [], ◌∷◌, All, ℤ, ℕ, zero, suc, ◌+◌, ◌-◌, ◌≤◌, ◌<◌, ◌≡◌, refl, true, none, some, ok, raised,
  arith, Text, is_normalized, length, ltb, if◌then◌else◌,
}
use governed_llm_gateway.Health.{
  closed, open_circuit, half_open, CircuitState-discrete, CircuitBreakerPolicy, HealthAdmission,
  ProviderError, is_transient_provider_error, check_admission, value_error,
}
use governed_llm_gateway.Health.Circuit.{
  Cell, matches, controls_circuit, refresh_circuit, allow_request, admit_probe, claim_probe,
  record_success, record_failure, succeed, fail_transient, count_request, open_now, retire_probe,
  half_open_if_cooled,
}
use governed_llm_gateway.Health.Sound.{IsSound, record_failure-IsSound, count_transient-IsCounted}

-- A failure that is reported: the error, and the latency.
abbrev pub Failure : Type 0
Failure = ProviderError × ℤ

-- The error is a transient one.
abbrev pub IsTransient : Failure → Type 0
IsTransient (e, latency) = is_transient_provider_error e ≡ true

module _ (p : CircuitBreakerPolicy) (d : Text) where
  -- The failures, reported one after the other with no handle.
  pub fail_each : List Failure → Cell → Cell
  fail_each [] c = c
  fail_each ((e, latency) ∷ fs) c = fail_each fs (record_failure p d e latency none c).1

  -- One transient failure of a closed circuit counts one more, and opens it at the threshold.
  record_failure-closed :
      (e : ProviderError) (latency : ℤ) (c : Cell)
      → is_transient_provider_error e ≡ true
      → IsSound p c.health
      → c.health.circuit_state ≡ closed
      → let c' = (record_failure p d e latency none c).1 in
        (c'.health.consecutive_transient_failures ≡ suc c.health.consecutive_transient_failures)
        × (c'.health.circuit_state ≡ (
            if ltb (suc c.health.consecutive_transient_failures) p.failure_threshold
            then closed
            else open_circuit))
  unfolding record_failure controls_circuit fail_transient open_now retire_probe refresh_circuit
      half_open_if_cooled count_request CircuitState-discrete
  record_failure-closed e latency c t s e' =
      ground (arith, count_transient-IsCounted e true (count_request latency c.health))

  -- Transient failures that are reported one after the other with no handle, to a closed circuit,
  -- and that do not go beyond the threshold, are each counted in the run of failures, and the
  -- circuit is open exactly if the run has reached the threshold. The failures may differ. The
  -- threshold is positive and the state sound.
  pub fail_each_opens :
      (fs : List Failure) (c : Cell)
      → 0 < p.failure_threshold
      → All IsTransient fs
      → IsSound p c.health
      → c.health.circuit_state ≡ closed
      → c.health.consecutive_transient_failures + length fs ≤ p.failure_threshold
      → let c' = fail_each fs c in
        (c'.health.consecutive_transient_failures
          ≡ c.health.consecutive_transient_failures + length fs)
        × (c'.health.circuit_state ≡ (
            if ltb (c.health.consecutive_transient_failures + length fs) p.failure_threshold
            then closed
            else open_circuit))
  unfolding fail_each
  fail_each_opens [] c pos ts s shut le = ground (arith, s.below_threshold shut)
  fail_each_opens ((e, latency) ∷ []) c pos (t, ts) s shut le =
      ground (arith, record_failure-closed e latency c t s shut)
  fail_each_opens ((e, latency) ∷ f ∷ fs) c pos (t, ts) s shut le =
      let c' = (record_failure p d e latency none c).1 in
      let first = record_failure-closed e latency c t s shut in
      let shut' : c'.health.circuit_state ≡ closed = ground (arith, first) in
      ground (
        arith,
        first,
        fail_each_opens (f ∷ fs) c' pos ts (record_failure-IsSound p d e latency none c pos s)
            shut',
      )

abbrev later : ℕ → ℕ → ℕ
later zero t = t
later (suc n) t = suc (later n t)

-- The reading of the clock after the next `n` ones.
abbrev pub reading : Cell → ℕ → ℕ
reading c n = c.world.times (later n c.world.ticks)

module _ (p : CircuitBreakerPolicy) (d owner : Text) (c : Cell) where
  -- The handle that `allow_request` grants when the circuit has cooled down.
  abbrev pub recovery_handle : HealthAdmission
  recovery_handle = record {
    deployment_id = d;
    attempt_id = owner;
    generation = c.world.ids c.world.drawn;
    probe_timeout_seconds = some (reading c 1 + p.probe_lease_seconds - reading c 2);
  }

  -- What the texts of a handle are asked for.
  pub record IsNamed : Type 0 where
    pub deployment : is_normalized d ≡ true
    pub attempt : is_normalized owner ≡ true
    pub fresh : is_normalized (c.world.ids c.world.drawn) ≡ true
    pub short_attempt : length owner ≤ 128
    pub short_fresh : length (c.world.ids c.world.drawn) ≤ 128

  recovery_handle-ok :
      IsNamed
      → reading c 2 < reading c 1 + p.probe_lease_seconds
      → check_admission recovery_handle ≡ ok recovery_handle
  unfolding check_admission
  recovery_handle-ok n lt = ground arith

  -- An open circuit that has cooled down is half-open for the caller, with its probe claimed.
  pub allow_request-recovers :
      {opened : ℕ}
      → IsSound p c.health
      → c.health.circuit_state ≡ open_circuit
      → c.health.opened_at ≡ some opened
      → opened + p.cooldown_seconds ≤ reading c 0
      → IsNamed
      → reading c 2 < reading c 1 + p.probe_lease_seconds
      → allow_request p d owner c ≡ (
        ok (some recovery_handle),
        record {
          health = record c.health {
            circuit_state = half_open;
            generation = c.world.ids c.world.drawn;
            probe_owner = some owner;
            probe_expires_at = some (reading c 1 + p.probe_lease_seconds);
          };
          world = record c.world { ticks = later 3 c.world.ticks; drawn = suc c.world.drawn };
        },
      )
  unfolding allow_request refresh_circuit half_open_if_cooled admit_probe claim_probe
      CircuitState-discrete
  allow_request-recovers s e o cool n lt =
      ground (arith, recovery_handle-ok n lt, s.probe_half_open, s.probe_paired)

  -- The state that `allow_request` leaves with the probe claimed.
  abbrev pub probing : Cell
  probing = record {
    health = record c.health {
      circuit_state = half_open;
      generation = c.world.ids c.world.drawn;
      probe_owner = some owner;
      probe_expires_at = some (reading c 1 + p.probe_lease_seconds);
    };
    world = record c.world { ticks = later 3 c.world.ticks; drawn = suc c.world.drawn };
  }

  probing-success :
      (latency : ℤ)
      → reading c 3 < reading c 1 + p.probe_lease_seconds
      → reading c 2 < reading c 1 + p.probe_lease_seconds
      → let (r, c') = record_success p d latency (some recovery_handle) probing in
        (r ≡ ok true)
        × (c'.health.circuit_state ≡ closed)
        × (c'.health.consecutive_transient_failures ≡ 0)
        × (c'.health.success_count ≡ suc c.health.success_count)
        × (c'.health.probe_owner ≡ none)
  unfolding record_success controls_circuit matches succeed retire_probe refresh_circuit
      half_open_if_cooled CircuitState-discrete
  probing-success latency lt lt' = ground arith

  -- Recovery: a call after the cooldown is granted the probe of an open circuit, and a success that
  -- is reported with its handle before the lease is over closes the circuit and clears the run of
  -- failures. The state is sound, the texts are well formed, and the clock does not jump over the
  -- whole lease between the two readings of the grant.
  pub probe-recovers :
      {opened : ℕ} (latency : ℤ)
      → IsSound p c.health
      → c.health.circuit_state ≡ open_circuit
      → c.health.opened_at ≡ some opened
      → opened + p.cooldown_seconds ≤ reading c 0
      → IsNamed
      → reading c 2 < reading c 1 + p.probe_lease_seconds
      → reading c 3 < reading c 1 + p.probe_lease_seconds
      → let (granted, c1) = allow_request p d owner c in
        let (r, c2) = record_success p d latency (some recovery_handle) c1 in
        (granted ≡ ok (some recovery_handle))
        × (r ≡ ok true)
        × (c2.health.circuit_state ≡ closed)
        × (c2.health.consecutive_transient_failures ≡ 0)
        × (c2.health.success_count ≡ suc c.health.success_count)
        × (c2.health.probe_owner ≡ none)
  probe-recovers latency s e o cool n lt lt' =
      let granted = allow_request-recovers s e o cool n lt in
      let (a, b, z, u, v) = probing-success latency lt' lt in rw granted (refl, a, b, z, u, v)

  -- A half-open circuit whose probe is held, with the deadline ahead of the next reading.
  pub record IsHeld (holder : Text) (expires : ℕ) : Type 0 where
    pub half : c.health.circuit_state ≡ half_open
    pub holds : c.health.probe_owner ≡ some holder
    pub until : c.health.probe_expires_at ≡ some expires
    pub ahead : reading c 0 < expires

  -- A recheck that the clock carries past the deadline between the refresh and the handle does not
  -- end in a refusal: the constructor of the handle raises `ValueError`.
  pub recheck_at_expiry-raises :
      {expires : ℕ}
      → IsHeld owner expires
      → expires ≤ reading c 1
      → (allow_request p d owner c).0 ≡ raised value_error
  unfolding allow_request admit_probe check_admission refresh_circuit half_open_if_cooled
      CircuitState-discrete
  recheck_at_expiry-raises h late = ground arith
