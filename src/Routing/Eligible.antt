-- ===== src/Routing/Eligible.antt =====
-- What `_eligibility_rejection` of
-- packages/gateway-core/src/governed_llm_gateway_core/application/ranking.py lets through.
use governed_llm_gateway.Base.{
  ℕ, ◌+◌, ◌≤◌, ◌≡◌, refl, ◌≢◌, true, false, ◌↔◌, Option, none, some, List, [], ◌∷◌, Text-discrete,
  Decimal, dec_ltb, ok, contains, lookup, arith, inl, inr, Option-cases,
}
use governed_llm_gateway.Health.{
  DeploymentHealthSnapshot, open_circuit, CircuitState-discrete, unhealthy, HealthStatus-discrete,
}
use governed_llm_gateway.Routing.{
  classification_order, Capability, Capability-discrete, GatewayRequest, EffectivePolicyContext,
  ModelDeployment, StaticDeploymentScore,
}
use governed_llm_gateway.Routing.Policy.{PolicyRequestMetadata, is_in}
use governed_llm_gateway.Routing.Eligibility.{
  CandidateRejection, Health, cost_of, required_capabilities, not_among, missing_capabilities,
  snapshot_rejection, runtime_health_rejection, required_context, limit_rejection, offer_rejection,
  eligibility_rejection,
}

-- No health evidence is asked for, or the deployment's own snapshot is neither open nor unhealthy.
abbrev pub IsHealthy : ModelDeployment → Health → Type 0
IsHealthy d none = Unit
IsHealthy d (some snapshots) =
    (h : DeploymentHealthSnapshot) × (lookup Text-discrete d.deployment_id snapshots ≡ some h)
    × (h.deployment_id ≡ d.deployment_id)
    × (h.circuit_state ≢ open_circuit)
    × (h.status ≢ unhealthy)

-- Every requirement of the caller, the context and the policy, one field each.
pub record IsEligible (request : GatewayRequest) (context : EffectivePolicyContext)
    (m : PolicyRequestMetadata) (d : ModelDeployment) (static_score : Option StaticDeploymentScore)
    (health : Health) : Type 0 where
  pub is_enabled : d.enabled ≡ true
  pub is_healthy : IsHealthy d health
  pub environment_allowed : is_in context.environment d.allowed_environments ≡ true
  pub classification_allowed :
      classification_order context.data_classification
      ≤ classification_order d.max_data_classification
  pub capable :
      (c : Capability)
      → contains Capability-discrete c (required_capabilities request.requirements) ≡ true
      → contains Capability-discrete c d.capabilities ≡ true
  pub requested_context_fits : request.requirements.min_context_tokens ≤ d.context_tokens
  pub estimated_context_fits :
      m.context_tokens_estimated + m.max_output_tokens_estimated ≤ d.context_tokens
  pub scored : StaticDeploymentScore
  pub is_score : static_score ≡ some scored
  pub priced : Decimal
  pub is_price : cost_of m d ≡ some priced
  pub cost_within : dec_ltb m.max_cost_usd priced ≡ false
  pub latency_within : scored.expected_latency_ms ≤ m.max_latency_ms

Covered : List Capability → List Capability → Type 0
Covered offered cs =
    (c : Capability)
    → contains Capability-discrete c cs ≡ true
    → contains Capability-discrete c offered ≡ true

not_among-nil : (offered cs : List Capability) → not_among offered cs ≡ [] → Covered offered cs
unfolding not_among Covered
not_among-nil offered [] e c h = cc
not_among-nil offered (x ∷ xs) e c h =
    ground (arith, λ (e' : not_among offered xs ≡ []). not_among-nil offered xs e' c)

not_among-cover : (offered cs : List Capability) → Covered offered cs → not_among offered cs ≡ []
unfolding not_among Covered
not_among-cover offered [] k = refl
not_among-cover offered (x ∷ xs) k =
    ground (arith, k x (ground arith), not_among-cover offered xs (λ c h. k c (ground arith)))

snapshot_rejection-none :
    (d : ModelDeployment) (o : Option DeploymentHealthSnapshot)
    → snapshot_rejection d o ≡ ok none
    → (h : DeploymentHealthSnapshot) × (o ≡ some h)
      × (h.deployment_id ≡ d.deployment_id)
      × (h.circuit_state ≢ open_circuit)
      × (h.status ≢ unhealthy)
unfolding snapshot_rejection CircuitState-discrete HealthStatus-discrete
snapshot_rejection-none d none e = cc
snapshot_rejection-none d (some h) e =
    (h, refl, ground arith, (λ q. ground arith), (λ q. ground arith))

snapshot_rejection-passes :
    (d : ModelDeployment) (h : DeploymentHealthSnapshot)
    → h.deployment_id ≡ d.deployment_id
    → h.circuit_state ≢ open_circuit
    → h.status ≢ unhealthy
    → snapshot_rejection d (some h) ≡ ok none
unfolding snapshot_rejection CircuitState-discrete HealthStatus-discrete
snapshot_rejection-passes d h own c u = ground arith

runtime_health_rejection_iff :
    (d : ModelDeployment) (health : Health)
    → (runtime_health_rejection d health ≡ ok none) ↔ IsHealthy d health
unfolding runtime_health_rejection
runtime_health_rejection_iff d none = ((λ e. tt), (λ u. refl))
runtime_health_rejection_iff d (some snapshots) = (
  snapshot_rejection-none d (lookup Text-discrete d.deployment_id snapshots),
  λ (h, e, own, c, u). rw e (snapshot_rejection-passes d h own c u),
)

-- A deployment passes exactly if it is enabled, its health passes and its offer passes.
eligibility_rejection_parts :
    (request : GatewayRequest) (context : EffectivePolicyContext) (m : PolicyRequestMetadata)
    (d : ModelDeployment) (s : Option StaticDeploymentScore) (health : Health)
    → (eligibility_rejection request context m d s health ≡ ok none) ↔ (
        (d.enabled ≡ true)
        × (runtime_health_rejection d health ≡ ok none)
        × (offer_rejection request context m d s ≡ ok none))
unfolding eligibility_rejection
eligibility_rejection_parts request context m d s health =
    ((λ e. ground arith), (λ e. ground arith))

-- The price and the latency, of a deployment with a score.
record IsAffordable (m : PolicyRequestMetadata) (d : ModelDeployment) (s : StaticDeploymentScore)
    : Type 0 where
  price : Decimal
  is_price : cost_of m d ≡ some price
  cost_within : dec_ltb m.max_cost_usd price ≡ false
  latency_within : s.expected_latency_ms ≤ m.max_latency_ms

limit_rejection-none :
    (m : PolicyRequestMetadata) (d : ModelDeployment) (s : StaticDeploymentScore)
    → limit_rejection m d s (cost_of m d) ≡ ok none
    → IsAffordable m d s
unfolding limit_rejection
limit_rejection-none m d s e = elim (Option-cases (cost_of m d)) [
  | inl free ↦ absurd (ground arith)
  | inr (price, paid) ↦ record {
    price = price;
    is_price = paid;
    cost_within = ground arith;
    latency_within = ground arith;
  }
]

-- The checks on the offer, one by one.
offer_rejection_parts :
    (request : GatewayRequest) (context : EffectivePolicyContext) (m : PolicyRequestMetadata)
    (d : ModelDeployment) (s : StaticDeploymentScore)
    → (offer_rejection request context m d (some s) ≡ ok none) ↔ (
        (is_in context.environment d.allowed_environments ≡ true)
        × (classification_order context.data_classification
            ≤ classification_order d.max_data_classification)
        × (missing_capabilities request.requirements d ≡ [])
        × (required_context request m ≤ d.context_tokens)
        × (limit_rejection m d s (cost_of m d) ≡ ok none))
unfolding offer_rejection
offer_rejection_parts request context m d s = ((λ e. ground arith), (λ e. ground arith))

offer_rejection-unscored :
    (request : GatewayRequest) (context : EffectivePolicyContext) (m : PolicyRequestMetadata)
    (d : ModelDeployment)
    → offer_rejection request context m d none ≢ ok none
unfolding offer_rejection
offer_rejection-unscored request context m d e = ground arith

required_context_fits :
    (request : GatewayRequest) (m : PolicyRequestMetadata) (n : ℕ)
    → (required_context request m ≤ n) ↔ (
        (request.requirements.min_context_tokens ≤ n)
        × (m.context_tokens_estimated + m.max_output_tokens_estimated ≤ n))
unfolding required_context
required_context_fits request m n = ((λ h. ground arith), (λ h. ground arith))

runtime_health_rejection-names :
    (d : ModelDeployment) (health : Health) (r : CandidateRejection)
    → runtime_health_rejection d health ≡ ok (some r)
    → r.deployment ≡ d.deployment_id
unfolding runtime_health_rejection snapshot_rejection
runtime_health_rejection-names d health r e = ground arith

offer_rejection-names :
    (request : GatewayRequest) (context : EffectivePolicyContext) (m : PolicyRequestMetadata)
    (d : ModelDeployment) (o : Option StaticDeploymentScore) (r : CandidateRejection)
    → offer_rejection request context m d o ≡ ok (some r)
    → r.deployment ≡ d.deployment_id
unfolding offer_rejection limit_rejection
offer_rejection-names request context m d none r e = ground arith
offer_rejection-names request context m d (some s) r e = ground arith

module _ (request : GatewayRequest) (context : EffectivePolicyContext) (m : PolicyRequestMetadata)
    (d : ModelDeployment) where
  scored-IsEligible :
      (s : StaticDeploymentScore) (health : Health)
      → eligibility_rejection request context m d (some s) health ≡ ok none
      → IsEligible request context m d (some s) health
  unfolding missing_capabilities Covered
  scored-IsEligible s health e =
      let (on, well, offered) =
        (eligibility_rejection_parts request context m d (some s) health).0 e in
      let (env, class, caps, fits, limits) =
        (offer_rejection_parts request context m d s).0 offered in
      let afford = limit_rejection-none m d s limits in
      record {
        is_enabled = on;
        is_healthy = (runtime_health_rejection_iff d health).0 well;
        environment_allowed = env;
        classification_allowed = class;
        capable = not_among-nil d.capabilities (required_capabilities request.requirements) caps;
        requested_context_fits = ((required_context_fits request m d.context_tokens).0 fits).0;
        estimated_context_fits = ((required_context_fits request m d.context_tokens).0 fits).1;
        scored = s;
        is_score = refl;
        priced = afford.price;
        is_price = afford.is_price;
        cost_within = afford.cost_within;
        latency_within = afford.latency_within;
      }

  rejection_sound :
      (o : Option StaticDeploymentScore) (health : Health)
      → eligibility_rejection request context m d o health ≡ ok none
      → IsEligible request context m d o health
  rejection_sound none health e = absurd (
      offer_rejection-unscored request context m d
        ((eligibility_rejection_parts request context m d none health).0 e).2)
  rejection_sound (some s) health e = scored-IsEligible s health e

  rejection_complete :
      (o : Option StaticDeploymentScore) (health : Health)
      → IsEligible request context m d o health
      → eligibility_rejection request context m d o health ≡ ok none
  unfolding missing_capabilities Covered
  rejection_complete o health p =
      let limits : limit_rejection m d p.scored (cost_of m d) ≡ ok none =
        unfold limit_rejection in rw p.is_price (ground arith) in
      let caps =
        not_among-cover d.capabilities (required_capabilities request.requirements) p.capable in
      let fits =
        (required_context_fits request m d.context_tokens).1
          (p.requested_context_fits, p.estimated_context_fits) in
      let offered =
        (offer_rejection_parts request context m d p.scored).1
          (p.environment_allowed, p.classification_allowed, caps, fits, limits) in
      (eligibility_rejection_parts request context m d o health).1 (
        p.is_enabled,
        (runtime_health_rejection_iff d health).1 p.is_healthy,
        rw p.is_score offered,
      )

  -- A deployment is not rejected exactly if it meets every requirement: it is enabled and healthy,
  -- it may serve the environment and the classification, it offers the required capabilities and
  -- context, and it has a score and a price within the limits of cost and latency.
  pub eligibility_rejection_iff :
      (o : Option StaticDeploymentScore) (health : Health)
      → (eligibility_rejection request context m d o health ≡ ok none)
        ↔ IsEligible request context m d o health
  eligibility_rejection_iff o health = (rejection_sound o health, rejection_complete o health)

  -- A rejection names the deployment that it rejects.
  pub eligibility_rejection-names :
      (o : Option StaticDeploymentScore) (health : Health) (r : CandidateRejection)
      → eligibility_rejection request context m d o health ≡ ok (some r)
      → r.deployment ≡ d.deployment_id
  unfolding eligibility_rejection
  eligibility_rejection-names o health r e = ground (
    arith,
    runtime_health_rejection-names d health r,
    offer_rejection-names request context m d o r,
  )
