-- ===== src/Health/Tests.antt =====
-- Samples of the runtime health, and the theorems at them.
use governed_llm_gateway.Base.{
  All, inr, pos, ◌+◌, ◌≡◌, refl, true, none, some, List, [], ◌∷◌, arith, Text, ok, raised,
  is_normalized,
}
use governed_llm_gateway.Health.{
  closed, open_circuit, half_open, CircuitBreakerPolicy, HealthAdmission, ProviderError,
  ProviderErrorCode, value_error, is_transient_provider_error,
}
use governed_llm_gateway.Health.Circuit.{
  World, Cell, new_health, retire_probe, record_success, allow_request,
}
use governed_llm_gateway.Health.Sound.{IsSound, new_health-IsSound}
use governed_llm_gateway.Health.InMemory.{start}
use governed_llm_gateway.Health.History.{Event, fails, run, AllSound, run-IsSound}
use governed_llm_gateway.Health.Latency.{current}
use governed_llm_gateway.Health.Calls
use governed_llm_gateway.Health.Calls.{Call, ObeysCycle, after, after-ObeysCycle}
use governed_llm_gateway.Health.Fencing.{IsIssued, IsFenced, after_all, retired-IsFenced}
use governed_llm_gateway.Health.Recovery.{
  Failure, fail_each, fail_each_opens, recovery_handle, IsNamed, probe-recovers, IsHeld,
  recheck_at_expiry-raises,
}
use governed_llm_gateway.Health.Probing
use governed_llm_gateway.Health.Probing.{
  IsProbed, IsForeign, IsAhead, probe-exclusive, recheck-keeps_lease,
}

abbrev policy : CircuitBreakerPolicy
policy = record { failure_threshold = 2; cooldown_seconds = 10; probe_lease_seconds = 5 }

-- A clock that moves by one each time it is read, and identifiers that differ.
abbrev world : World
world = record { times = λ n. n; ids = λ n. (97 + n) ∷ []; ticks = 0; drawn = 0 }

abbrev east : Text
east = 101 ∷ []

abbrev first_owner : Text
first_owner = 49 ∷ []

abbrev second_owner : Text
second_owner = 50 ∷ []

abbrev timed_out : ProviderError
timed_out = record {
  code = ProviderErrorCode.timeout;
  retryable = true;
  status_code = none;
  retry_after_seconds = none;
}

abbrev two_failures : List Event
two_failures = fails east timed_out (pos 20) none ∷ fails east timed_out (pos 30) none ∷ []

run-IsSound_example : AllSound policy (omega arith) (run two_failures (start policy world))
run-IsSound_example = run-IsSound policy (omega arith) two_failures world

abbrev open_cell : Cell
open_cell = record {
  health = record (new_health (97 ∷ [])) {
    request_count = 2;
    transient_failure_count = 2;
    timeout_count = 2;
    consecutive_transient_failures = 2;
    circuit_state = open_circuit;
    opened_at = some 4;
  };
  world = record world { ticks = 20; drawn = 1 };
}

-- Half-open, with the probe held by the first owner until 22.
abbrev held_cell : Cell
held_cell = record open_cell {
  health = record open_cell.health {
    circuit_state = half_open;
    probe_owner = some first_owner;
    probe_expires_at = some 22;
  };
}

abbrev held_handle : HealthAdmission
held_handle = record {
  deployment_id = east;
  attempt_id = first_owner;
  generation = 97 ∷ [];
  probe_timeout_seconds = some 2;
}

open_cell-IsSound : IsSound policy open_cell.health
unfolding new_health
open_cell-IsSound = ground arith

held_cell-IsSound : IsSound policy held_cell.health
unfolding new_health
held_cell-IsSound = ground arith

abbrev closed_cell : Cell
closed_cell = record { health = new_health (97 ∷ []); world = record world { drawn = 1 } }

after-ObeysCycle_example :
    let call = Calls.succeeds (pos 20) (some held_handle) in
    ObeysCycle policy call held_cell (after policy east call held_cell).health
after-ObeysCycle_example =
    after-ObeysCycle policy east (Calls.succeeds (pos 20) (some held_handle)) held_cell
      held_cell-IsSound

held_cell-IsIssued : IsIssued policy held_cell
unfolding new_health
held_cell-IsIssued = record {
  index = 0;
  drawn_before = omega arith;
  is_id = refl;
  no_repeat = λ n le e. ground arith;
}

retired-IsFenced_example :
    let calls = Calls.reads ∷ Calls.allows second_owner ∷ [] in
    IsFenced policy east held_handle (after_all policy east calls (retire_probe held_cell))
unfolding new_health
retired-IsFenced_example =
    retired-IsFenced policy east held_handle held_cell
      (Calls.reads ∷ Calls.allows second_owner ∷ []) held_cell-IsIssued refl refl refl

abbrev refused_connection : ProviderError
refused_connection = record timed_out { code = ProviderErrorCode.unavailable }

abbrev failures : List Failure
failures = (timed_out, pos 20) ∷ (refused_connection, pos 5) ∷ []

fail_each_opens_example :
    let c' = fail_each policy east failures closed_cell in
    (c'.health.consecutive_transient_failures ≡ 2) × (c'.health.circuit_state ≡ open_circuit)
unfolding new_health is_transient_provider_error
fail_each_opens_example =
    fail_each_opens policy east failures closed_cell (omega arith) (refl, (refl, tt))
      (new_health-IsSound policy (97 ∷ []) (omega arith)) refl (omega arith)

-- Half-open, with the probe held by the first owner until 30.
abbrev leased_cell : Cell
leased_cell = record held_cell { health = record held_cell.health { probe_expires_at = some 30 } }

-- Others read, ask, report a failure with no handle, and release a handle of another generation.
abbrev others : List Call
others =
    Calls.reads
    ∷ Calls.allows second_owner
    ∷ Calls.fails timed_out (pos 7) none
    ∷ Calls.releases (record held_handle { generation = 98 ∷ [] })
    ∷ []

leased_cell-IsProbed : IsProbed policy east first_owner (97 ∷ []) 30 leased_cell.health
unfolding new_health
leased_cell-IsProbed = record { half = refl; current = refl; holds = refl; until = refl }

others-IsForeign : All (IsForeign policy east first_owner (97 ∷ []) 30) others
others-IsForeign = (tt, ((λ e. ground arith), (tt, (inr (λ e. ground arith), tt))))

probe-exclusive_example :
    let c' = after_all policy east others leased_cell in
    IsProbed policy east first_owner (97 ∷ []) 30 c'.health
    × ((allow_request policy east second_owner c').0 ≡ ok none)
probe-exclusive_example =
    probe-exclusive policy east first_owner (97 ∷ []) 30 others second_owner leased_cell
      leased_cell-IsProbed others-IsForeign (λ e. ground arith) (λ n low high. omega (arith, high))

leased_cell-IsNamed : Probing.IsNamed policy east first_owner (97 ∷ []) 30
unfolding is_normalized
leased_cell-IsNamed = record {
  deployment = refl;
  attempt = refl;
  normalized = refl;
  short_attempt = omega arith;
  short_generation = omega arith;
}

recheck-keeps_lease_example :
    (allow_request policy east first_owner (after_all policy east others leased_cell)).0
    ≡ ok (some (record held_handle { probe_timeout_seconds = some 5 }))
recheck-keeps_lease_example =
    recheck-keeps_lease policy east first_owner (97 ∷ []) 30 others leased_cell leased_cell-IsProbed
      others-IsForeign leased_cell-IsNamed (λ n low high. omega (arith, high))

open_cell-IsNamed : IsNamed policy east second_owner open_cell
unfolding is_normalized
open_cell-IsNamed = record {
  deployment = refl;
  attempt = refl;
  fresh = refl;
  short_attempt = omega arith;
  short_fresh = omega arith;
}

probe-recovers_example :
    let (granted, c1) = allow_request policy east second_owner open_cell in
    let handle = recovery_handle policy east second_owner open_cell in
    let (r, c2) = record_success policy east (pos 20) (some handle) c1 in
    (granted ≡ ok (some handle))
    × (r ≡ ok true)
    × (c2.health.circuit_state ≡ closed)
    × (c2.health.consecutive_transient_failures ≡ 0)
    × (c2.health.success_count ≡ 1)
    × (c2.health.probe_owner ≡ none)
unfolding new_health
probe-recovers_example =
    probe-recovers policy east second_owner open_cell (pos 20) open_cell-IsSound refl refl
      (omega arith) open_cell-IsNamed (omega arith) (omega arith)

-- The deadline is at the second reading.
abbrev expiring_cell : Cell
expiring_cell = record held_cell { health = record held_cell.health { probe_expires_at = some 21 } }

expiring_cell-IsHeld : IsHeld policy east first_owner expiring_cell first_owner 21
unfolding new_health
expiring_cell-IsHeld = record { half = refl; holds = refl; until = refl; ahead = omega arith }

recheck_at_expiry-raises_example :
    (allow_request policy east first_owner expiring_cell).0 ≡ raised value_error
recheck_at_expiry-raises_example =
    recheck_at_expiry-raises policy east first_owner expiring_cell expiring_cell-IsHeld
      (omega arith)
