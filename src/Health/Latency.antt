-- ===== src/Health/Latency.antt =====
-- Reading the health of
-- packages/gateway-core/src/governed_llm_gateway_core/application/resilience.py: what
-- `DeploymentHealthSnapshot` of domain/resilience.py asks for, after any history.
use governed_llm_gateway.Base.{is_negative, ◌<◌, ◌≡◌, false, Text, Text-discrete, lookup}
use governed_llm_gateway.Health.{CircuitBreakerPolicy, has_negative}
use governed_llm_gateway.Health.Circuit
use governed_llm_gateway.Health.Circuit.{MutableHealth, uuid4_hex, draw, refresh_circuit}
use governed_llm_gateway.Health.InMemory.{Tracker, state_or}
use governed_llm_gateway.Health.History.{Event, succeeds, fails}

-- The last latency that was noted is not negative.
abbrev IsTimed : MutableHealth → Type 0
IsTimed h = has_negative h.last_latency_ms ≡ false

-- A report whose latency is not negative.
abbrev pub IsProper : Event → Type 0
IsProper (succeeds d latency a) = is_negative latency ≡ false
IsProper (fails d e latency a) = is_negative latency ≡ false
IsProper _ = Unit

module _ (p : CircuitBreakerPolicy) (pos : 0 < p.failure_threshold) where
  -- The state that the tracker reports on: the kept one, or that of a new deployment.
  abbrev pub current : Text → Tracker → MutableHealth
  current d t =
      (refresh_circuit p (record {
        health = state_or (lookup Text-discrete d t.states) (uuid4_hex t.world);
        world = draw t.world;
      })).health
