-- ===== src/Health/History.antt =====
-- Histories of calls of the tracker of
-- packages/gateway-core/src/governed_llm_gateway_core/application/resilience.py, in any order, and
-- what holds after each.
use governed_llm_gateway.Base.{
  ℤ, ◌<◌, ◌≡◌, refl, ◌∙◌, Option, none, some, List, [], ◌∷◌, arith, Text, lookup, Bool-cases, inl,
  inr,
}
use governed_llm_gateway.Health.{CircuitBreakerPolicy, HealthAdmission, ProviderError, is_handle}
use governed_llm_gateway.Health.Circuit
use governed_llm_gateway.Health.Circuit.{
  World, MutableHealth, Cell, uuid4_hex, draw, refresh_circuit, snapshot_values,
}
use governed_llm_gateway.Health.Sound.{
  IsSound, new_health-IsSound, refresh_circuit-IsSound, allow_request-IsSound,
  release_request-IsSound, record_success-IsSound, record_failure-IsSound,
}
use governed_llm_gateway.Health.InMemory.{
  Tracker, start, Holds, with_state, with_state-Holds, snapshot, allow_request, release_request,
  is_admitted, record_success, record_failure,
}

-- The public methods, with their arguments.
pub data Event : Type 0 where
  snapshots : Text → Event
  allows : Text → Option Text → Event
  releases checks : HealthAdmission → Event
  succeeds : Text → ℤ → Option HealthAdmission → Event
  fails : Text → ProviderError → ℤ → Option HealthAdmission → Event

unfoldable pub step : Event → Tracker → Tracker
step (snapshots d) t = (snapshot d t).1
step (allows d attempt) t = (allow_request d attempt t).1
step (releases a) t = (release_request a t).1
step (checks a) t = (is_admitted a t).1
step (succeeds d latency a) t = (record_success d latency a t).1
step (fails d e latency a) t = (record_failure d e latency a t).1

unfoldable pub run : List Event → Tracker → Tracker
run [] t = t
run (e ∷ es) t = run es (step e t)

module _ (p : CircuitBreakerPolicy) (pos : 0 < p.failure_threshold) where
  -- The tracker runs under this policy, and every state in it is sound.
  abbrev pub AllSound : Tracker → Type 0
  AllSound t = (t.policy ≡ p) × Holds (IsSound p) t

  abbrev Keeps : (Tracker → Tracker) → Type 0
  Keeps f = (t : Tracker) → AllSound t → AllSound (f t)

  with_state-policy {ℓ} :
      {A : Type ℓ} (d : Text) (m : Circuit.Method A) (t : Tracker)
      → (with_state d m t).1.policy ≡ t.policy
  unfolding with_state
  with_state-policy d m t = ground arith

  sound {ℓ} :
      {A : Type ℓ} (d : Text) (m : Circuit.Method A) (t : Tracker)
      → ((c : Cell) → IsSound p c.health → IsSound p (m c).1.health)
      → AllSound t
      → AllSound (with_state d m t).1
  sound d m t keeps (e, all) = (
    with_state-policy d m t ∙ e,
    with_state-Holds (IsSound p) (λ g. new_health-IsSound p g pos) d m t keeps all,
  )

  allow_request-AllSound :
      (d : Text) (attempt : Option Text) → Keeps (λ t. (allow_request d attempt t).1)
  unfolding allow_request
  allow_request-AllSound d none t (e, all) =
      sound d _ _ (λ c s. rw e (allow_request-IsSound p d (uuid4_hex t.world) c s)) (e, all)
  allow_request-AllSound d (some attempt) t (e, all) = elim (Bool-cases (is_handle attempt)) [
    | inl valid ↦
        rw valid (sound d _ t (λ c s. rw e (allow_request-IsSound p d attempt c s)) (e, all))
    | inr refused ↦ rw refused (e, all)
  ]

  step-AllSound : (v : Event) → Keeps (step v)
  unfolding step snapshot release_request is_admitted record_success record_failure Circuit.snapshot
      Circuit.is_admitted
  step-AllSound (snapshots d) t (e, all) =
      sound d _ t (λ c s. rw e (refresh_circuit-IsSound p c s)) (e, all)
  step-AllSound (allows d attempt) t a = allow_request-AllSound d attempt t a
  step-AllSound (releases a) t (e, all) =
      sound _ _ t (λ c s. rw e (release_request-IsSound p a c s)) (e, all)
  step-AllSound (checks a) t (e, all) =
      sound _ _ t (λ c s. rw e (refresh_circuit-IsSound p c s)) (e, all)
  step-AllSound (succeeds d latency a) t (e, all) =
      sound d _ t (λ c s. rw e (record_success-IsSound p d latency a c pos s)) (e, all)
  step-AllSound (fails d error latency a) t (e, all) =
      sound d _ t (λ c s. rw e (record_failure-IsSound p d error latency a c pos s)) (e, all)

  run-AllSound : (es : List Event) → Keeps (run es)
  unfolding run
  run-AllSound [] t a = a
  run-AllSound (v ∷ es) t a = run-AllSound es (step v t) (step-AllSound v t a)

  -- After any history of calls every deployment's state is sound: its counters add up, the run of
  -- failures of a closed circuit is below the threshold, and only a half-open circuit has a probe,
  -- with an owner exactly if it has a deadline. The policy has a positive threshold.
  pub run-IsSound : (es : List Event) (w : World) → AllSound (run es (start p w))
  unfolding start lookup
  run-IsSound es w = run-AllSound es (start p w) (refl, λ d h e. cc)
