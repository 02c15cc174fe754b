-- ===== src/Routing/Eligibility.antt =====
-- `_eligibility_rejection`, `_score` and `estimated_cost_usd`: what one authorized deployment is
-- asked, in packages/gateway-core/src/governed_llm_gateway_core/application/ranking.py and
-- domain/model_registry.py. The text of a rejection's detail is kept as the values it is printed
-- from.
use governed_llm_gateway.Base.{
  ℕ, ◌+◌, Bool, not, Option, none, some, List, [], ◌∷◌, ltb, Text, Text-discrete, text_eq, Decimal,
  of_ℕ, mul, add, per_million, dec_ltb, Result, ok, raised, same, contains, lookup, Dict,
  if◌then◌else◌,
}
use governed_llm_gateway.Health.{
  DeploymentHealthSnapshot, open_circuit, CircuitState-discrete, unhealthy, HealthStatus-discrete,
}
use governed_llm_gateway.Routing.{
  classification_order, Capability, Capability-discrete, RejectionReason, Error,
  ranking_invariant_violation, WorkloadRequirements, GatewayRequest, EffectivePolicyContext,
  PricingMetadata, ModelDeployment, RankingWeights, StaticDeploymentScore,
}
use governed_llm_gateway.Routing.Policy.{PolicyRequestMetadata, is_in}

-- `detail` of a rejection.
pub data RejectionDetail : Type 0 where
  no_detail environment_not_allowed : RejectionDetail
  data_classification_exceeds_deployment_max runtime_health_unavailable : RejectionDetail
  missing : List Capability → RejectionDetail
  context_shortfall : ℕ → ℕ → RejectionDetail
  cost_excess : Decimal → Decimal → RejectionDetail
  latency_excess : ℕ → ℕ → RejectionDetail

-- `CandidateRejection`.
pub record CandidateRejection : Type 0 where
  pub deployment : Text
  pub reason : RejectionReason
  pub detail : RejectionDetail

-- `ScoreBreakdown`.
pub record ScoreBreakdown : Type 0 where
  pub quality : Decimal
  pub reliability : Decimal
  pub latency : Decimal
  pub cost : Decimal
  pub availability : Decimal
  pub total : Decimal

-- `_score`.
unfoldable pub score : RankingWeights → StaticDeploymentScore → ScoreBreakdown
score w s =
    let quality = mul w.quality s.quality in
    let reliability = mul w.reliability s.reliability in
    let latency = mul w.latency s.latency in
    let cost = mul w.cost s.cost in
    let availability = mul w.availability s.availability in
    record {
      quality = quality;
      reliability = reliability;
      latency = latency;
      cost = cost;
      availability = availability;
      total = add (add (add (add quality reliability) latency) cost) availability;
    }

-- `estimated_cost_usd`.
unfoldable pub estimated_cost_usd : Option PricingMetadata → ℕ → ℕ → Option Decimal
estimated_cost_usd none input_tokens output_tokens = none
estimated_cost_usd (some p) input_tokens output_tokens = some (
    add (per_million (mul p.input_usd_per_million_tokens (of_ℕ input_tokens)))
      (per_million (mul p.output_usd_per_million_tokens (of_ℕ output_tokens))))

abbrev require_if : Bool → Capability → List Capability → List Capability
require_if b capability rest = if b then capability ∷ rest else rest

-- The list that `_missing_capabilities` builds.
unfoldable pub required_capabilities : WorkloadRequirements → List Capability
required_capabilities r =
    Capability.text
    ∷ require_if r.vision Capability.vision (
        require_if r.tool_calling Capability.tool_calling (
          require_if r.structured_output Capability.structured_output (
            require_if r.streaming Capability.streaming (
              require_if r.audio Capability.audio (
                require_if r.document Capability.document
                  (require_if r.parallel_tool_calling Capability.parallel_tool_calling []))))))

unfoldable pub not_among : List Capability → List Capability → List Capability
not_among offered [] = []
not_among offered (c ∷ cs) =
    if contains Capability-discrete c offered
    then not_among offered cs
    else c ∷ not_among offered cs

-- `_missing_capabilities`.
unfoldable pub missing_capabilities : WorkloadRequirements → ModelDeployment → List Capability
missing_capabilities r d = not_among d.capabilities (required_capabilities r)

abbrev pub reject :
    Text → RejectionReason → RejectionDetail → Result Error (Option CandidateRejection)
reject deployment_id reason detail =
    ok (some (record { deployment = deployment_id; reason = reason; detail = detail }))

-- `_runtime_health_rejection` of one snapshot.
unfoldable pub snapshot_rejection :
    ModelDeployment → Option DeploymentHealthSnapshot → Result Error (Option CandidateRejection)
snapshot_rejection d none =
    reject d.deployment_id RejectionReason.deployment_unhealthy
      RejectionDetail.runtime_health_unavailable
snapshot_rejection d (some h) =
    if not (text_eq h.deployment_id d.deployment_id)
    then raised ranking_invariant_violation
    else if same CircuitState-discrete h.circuit_state open_circuit
    then reject d.deployment_id RejectionReason.circuit_breaker_open RejectionDetail.no_detail
    else if same HealthStatus-discrete h.status unhealthy
    then reject d.deployment_id RejectionReason.deployment_unhealthy RejectionDetail.no_detail
    else ok none

abbrev pub Health : Type 0
Health = Option (Dict Text DeploymentHealthSnapshot)

-- `_runtime_health_rejection`.
unfoldable pub runtime_health_rejection :
    ModelDeployment → Health → Result Error (Option CandidateRejection)
runtime_health_rejection d none = ok none
runtime_health_rejection d (some snapshots) =
    snapshot_rejection d (lookup Text-discrete d.deployment_id snapshots)

-- `max(a, b)`: the first unless the second is larger.
abbrev pub larger : ℕ → ℕ → ℕ
larger a b = if ltb a b then b else a

-- `required_context`.
unfoldable pub required_context : GatewayRequest → PolicyRequestMetadata → ℕ
required_context request m =
    larger request.requirements.min_context_tokens
      (m.context_tokens_estimated + m.max_output_tokens_estimated)

-- The last checks of `_eligibility_rejection`: the price and the latency.
unfoldable pub limit_rejection :
    PolicyRequestMetadata
    → ModelDeployment
    → StaticDeploymentScore
    → Option Decimal
    → Result Error (Option CandidateRejection)
limit_rejection m d s none =
    reject d.deployment_id RejectionReason.pricing_unavailable RejectionDetail.no_detail
limit_rejection m d s (some cost) =
    if dec_ltb m.max_cost_usd cost
    then reject d.deployment_id RejectionReason.cost_limit_exceeded
        (RejectionDetail.cost_excess cost m.max_cost_usd)
    else if ltb m.max_latency_ms s.expected_latency_ms
    then reject d.deployment_id RejectionReason.latency_limit_exceeded
        (RejectionDetail.latency_excess s.expected_latency_ms m.max_latency_ms)
    else ok none

abbrev pub cost_of : PolicyRequestMetadata → ModelDeployment → Option Decimal
cost_of m d = estimated_cost_usd d.pricing m.context_tokens_estimated m.max_output_tokens_estimated

abbrev static_rejection :
    PolicyRequestMetadata
    → ModelDeployment
    → Option StaticDeploymentScore
    → Result Error (Option CandidateRejection)
static_rejection m d none =
    reject d.deployment_id RejectionReason.ranking_score_unavailable RejectionDetail.no_detail
static_rejection m d (some s) = limit_rejection m d s (cost_of m d)

-- The checks of `_eligibility_rejection` on what the deployment offers.
unfoldable pub offer_rejection :
    GatewayRequest
    → EffectivePolicyContext
    → PolicyRequestMetadata
    → ModelDeployment
    → Option StaticDeploymentScore
    → Result Error (Option CandidateRejection)
offer_rejection request context m d static_score =
    if not (is_in context.environment d.allowed_environments)
    then reject d.deployment_id RejectionReason.provider_not_authorized
        RejectionDetail.environment_not_allowed
    else if ltb (classification_order d.max_data_classification)
        (classification_order context.data_classification)
    then reject d.deployment_id RejectionReason.provider_not_authorized
        RejectionDetail.data_classification_exceeds_deployment_max
    else elim (missing_capabilities request.requirements d) [
      | c ∷ cs ↦
          reject d.deployment_id RejectionReason.missing_capability
            (RejectionDetail.missing (c ∷ cs))
      | [] ↦
          if ltb d.context_tokens (required_context request m)
          then reject d.deployment_id RejectionReason.context_too_small
              (RejectionDetail.context_shortfall (required_context request m) d.context_tokens)
          else static_rejection m d static_score
    ]

-- `_eligibility_rejection`.
unfoldable pub eligibility_rejection :
    GatewayRequest
    → EffectivePolicyContext
    → PolicyRequestMetadata
    → ModelDeployment
    → Option StaticDeploymentScore
    → Health
    → Result Error (Option CandidateRejection)
eligibility_rejection request context m d static_score health =
    if not d.enabled
    then reject d.deployment_id RejectionReason.deployment_disabled RejectionDetail.no_detail
    else elim (runtime_health_rejection d health) [
      | raised e ↦ raised e
      | ok (some r) ↦ ok (some r)
      | ok none ↦ offer_rejection request context m d static_score
    ]
