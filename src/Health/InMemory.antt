-- ===== src/Health/InMemory.antt =====
-- `InMemoryHealthTracker` of
-- packages/gateway-core/src/governed_llm_gateway_core/application/resilience.py: the dictionary of
-- the deployments' states, and the public methods, each with its look-up by `_state`.
use governed_llm_gateway.Base.{
  ℤ, ◌≡◌, refl, ◌≢◌, Bool, Option, none, some, List, [], ◌∷◌, if◌then◌else◌, Text, Text-discrete,
  is_normalized, Result, ok, raised, Dict, lookup, insert, lookup-insert_ne, lookup-insert_cases,
  Bool-cases, inl, inr,
}
use governed_llm_gateway.Health.{
  Error, value_error, DeploymentHealthSnapshot, CircuitBreakerPolicy, HealthAdmission,
  ProviderError, is_handle,
}
use governed_llm_gateway.Health.Circuit
use governed_llm_gateway.Health.Circuit.{
  World, MutableHealth, Cell, Method, new_health, draw, uuid4_hex,
}

-- The fields of the tracker; `_clock` and `uuid4` are the world.
pub record Tracker : Type 0 where
  pub policy : CircuitBreakerPolicy
  pub states : Dict Text MutableHealth
  pub world : World

-- `__init__`.
unfoldable pub start : CircuitBreakerPolicy → World → Tracker
start p w = record { policy = p; states = []; world = w }

-- What `setdefault` returns: the state that is kept, or the new one.
abbrev pub state_or : Option MutableHealth → Text → MutableHealth
state_or none fresh = new_health fresh
state_or (some h) fresh = h

abbrev pub Call {ℓ} : Type ℓ → Type ℓ
Call A = Tracker → Result Error A × Tracker

-- A method on the state that `_state` finds. The argument of `setdefault` is built on each call, so
-- an identifier is drawn also when it is not used. What the method leaves is written back, since
-- the state is a shared object.
unfoldable pub with_state {ℓ} : {A : Type ℓ} → Text → Method A → Call A
unfolding Circuit.new_health
with_state d method t =
    if is_normalized d
    then (let h = state_or (lookup Text-discrete d t.states) (uuid4_hex t.world) in
        let (r, c) = method (record { health = h; world = draw t.world }) in
        (r, record t { states = insert Text-discrete d c.health t.states; world = c.world }))
    else (raised value_error, t)

unfoldable pub snapshot : Text → Call DeploymentHealthSnapshot
snapshot d t = with_state d (Circuit.snapshot t.policy d) t

abbrev with_head :
    Text
    → DeploymentHealthSnapshot
    → Result Error (Dict Text DeploymentHealthSnapshot) × Tracker
    → Result Error (Dict Text DeploymentHealthSnapshot) × Tracker
with_head d h (ok rest, t) = (ok ((d, h) ∷ rest), t)
with_head d h (raised e, t) = (raised e, t)

-- `snapshots`: one after the other, until one raises.
unfoldable pub snapshots : List Text → Call (Dict Text DeploymentHealthSnapshot)
snapshots [] t = (ok [], t)
snapshots (d ∷ ds) t =
    let rest = snapshots ds (snapshot d t).1 in
    elim (snapshot d t).0 [ ok h ↦ with_head d h rest | raised e ↦ (raised e, (snapshot d t).1) ]

-- `health_attempt_id`, then the method.
unfoldable pub allow_request : Text → Option Text → Call (Option HealthAdmission)
allow_request d none t =
    with_state d (Circuit.allow_request t.policy d (uuid4_hex t.world))
      (record t { world = draw t.world })
allow_request d (some attempt) t =
    if is_handle attempt
    then with_state d (Circuit.allow_request t.policy d attempt) t
    else (raised value_error, t)

unfoldable pub release_request : HealthAdmission → Call (Unit {0})
release_request a t =
    with_state a.deployment_id (λ c. (ok tt, Circuit.release_request t.policy a c)) t

unfoldable pub is_admitted : HealthAdmission → Call Bool
is_admitted a t =
    with_state a.deployment_id (λ c. let (b, c') = Circuit.is_admitted t.policy a c in (ok b, c')) t

unfoldable pub record_success : Text → ℤ → Option HealthAdmission → Call Bool
record_success d latency a t = with_state d (Circuit.record_success t.policy d latency a) t

unfoldable pub record_failure : Text → ProviderError → ℤ → Option HealthAdmission → Call (Unit {0})
record_failure d e latency a t = with_state d (Circuit.record_failure t.policy d e latency a) t

-- Every entry of the dictionary has a property.
abbrev pub Holds : (MutableHealth → Type 0) → Tracker → Type 0
Holds P t = (d : Text) (h : MutableHealth) → lookup Text-discrete d t.states ≡ some h → P h

module _ (P : MutableHealth → Type 0) (fresh : (g : Text) → P (new_health g)) where
  pub state_or-Holds :
      (o : Option MutableHealth) (g : Text)
      → ((h : MutableHealth) → o ≡ some h → P h)
      → P (state_or o g)
  state_or-Holds none g all = fresh g
  state_or-Holds (some h) g all = all h refl

  -- A method that keeps a property of one state, new ones included, keeps it of all.
  pub with_state-Holds {ℓ} :
      {A : Type ℓ} (d : Text) (method : Method A) (t : Tracker)
      → ((c : Cell) → P c.health → P (method c).1.health)
      → Holds P t
      → Holds P (with_state d method t).1
  unfolding with_state
  with_state-Holds d method t keeps all = elim (Bool-cases (is_normalized d)) [
    | inl known ↦ rw known λ j h e. elim (lookup-insert_cases Text-discrete d j _ h t.states e) [
      | inl new ↦ rw new (keeps _ (state_or-Holds _ _ (all d)))
      | inr old ↦ all j h old
    ]
    | inr refused ↦ rw refused all
  ]

-- A method on one deployment leaves the state of every other as it was.
pub with_state_others {ℓ} :
    {A : Type ℓ} (d j : Text) (method : Method A) (t : Tracker)
    → d ≢ j
    → lookup Text-discrete j (with_state d method t).1.states ≡ lookup Text-discrete j t.states
unfolding with_state
with_state_others d j method t ne = elim (Bool-cases (is_normalized d)) [
  | inl known ↦ rw known (lookup-insert_ne Text-discrete d j _ t.states ne)
  | inr refused ↦ rw refused
]
