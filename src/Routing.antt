-- ===== src/Routing.antt =====
-- The values that authorization and ranking work on: the vocabularies of
-- packages/gateway-contracts/src/governed_llm_gateway_contracts/enums.py, the fields of the request
-- contract that they read (contracts.py), and, under
-- packages/gateway-core/src/governed_llm_gateway_core/, the registry (domain/model_registry.py),
-- the trusted context (domain/trust.py), the ranking policy (domain/ranking.py) and the values of
-- application/policy.py and application/ranking.py. A UUID is its 128-bit number. Amounts, token
-- counts and scores that a constructor or a parser keeps from being negative are naturals.
pub mod Policy
pub mod Eligibility
pub mod Ranking
pub mod Eligible
pub mod Selection
pub mod Boundary
pub mod Tests
use governed_llm_gateway.Base.{
  ℕ, ℕ_discrete, Bool, true, false, not, ◌&&◌, ◌||◌, Option, none, some, List, [], ◌∷◌, ◌==◌, ltb,
  Text, Text-discrete, Decimal-discrete, text_eq, is_normalized, Decimal, of_ℕ, mul, add, dec_ltb,
  dec_eqb, Result, ok, raised, raise_if, ◌>>=◌, ◌>>◌, same, is_none, if◌then◌else◌,
}

pub data DataClassification : Type 0 where
  public internal confidential restricted : DataClassification

unfoldable pub DataClassification-discrete : Discrete DataClassification
DataClassification-discrete = hlevel

-- `_CLASSIFICATION_ORDER` of application/ranking.py.
abbrev pub classification_order : DataClassification → ℕ
classification_order public = 0
classification_order internal = 1
classification_order confidential = 2
classification_order restricted = 3

pub data RiskLevel : Type 0 where
  low medium high critical : RiskLevel

unfoldable pub RiskLevel-discrete : Discrete RiskLevel
RiskLevel-discrete = hlevel

pub data Capability : Type 0 where
  text vision tool_calling structured_output : Capability
  streaming audio document parallel_tool_calling : Capability

unfoldable pub Capability-discrete : Discrete Capability
Capability-discrete = hlevel

-- `Modality`.
pub data Modality : Type 0 where
  text image audio document : Modality

pub data RejectionReason : Type 0 where
  wrong_model_group deployment_disabled missing_capability context_too_small : RejectionReason
  provider_not_authorized pricing_unavailable ranking_score_unavailable : RejectionReason
  deployment_unhealthy circuit_breaker_open cost_limit_exceeded : RejectionReason
  latency_limit_exceeded : RejectionReason

-- The exceptions of this part of the program.
pub data Error : Type 0 where
  value_error key_error projection_error boundary_violation : Error
  ranking_policy_error ranking_invariant_violation policy_decision_error : Error

-- `WorkloadRequirements`.
pub record WorkloadRequirements : Type 0 where
  pub tool_calling : Bool
  pub structured_output : Bool
  pub vision : Bool
  pub streaming : Bool
  pub audio : Bool
  pub document : Bool
  pub parallel_tool_calling : Bool
  pub min_context_tokens : ℕ

-- `RequestLimits`.
pub record RequestLimits : Type 0 where
  pub max_latency_ms : Option ℕ
  pub max_cost_usd : Option Decimal

-- The fields of `GatewayRequest` that routing reads.
pub record GatewayRequest : Type 0 where
  pub request_id : ℕ
  pub workload : Text
  pub requirements : WorkloadRequirements
  pub limits : RequestLimits

-- `EffectivePolicyContext`.
pub record EffectivePolicyContext : Type 0 where
  pub client_id : Text
  pub environment : Text
  pub workload : Text
  pub risk_level : RiskLevel
  pub data_classification : DataClassification

-- `PricingMetadata`; the source date and the snapshot version are texts that nothing here reads.
pub record PricingMetadata : Type 0 where
  pub input_usd_per_million_tokens : Decimal
  pub output_usd_per_million_tokens : Decimal
  pub source_date : Text
  pub snapshot_version : Text

-- `ModelDeployment`; a frozenset is a list that is only asked for membership.
pub record ModelDeployment : Type 0 where
  pub deployment_id : Text
  pub provider : Text
  pub model_id : Text
  pub model_group : Text
  pub api_family : Text
  pub capabilities : List Capability
  pub context_tokens : ℕ
  pub modalities : List Modality
  pub pricing : Option PricingMetadata
  pub max_data_classification : DataClassification
  pub allowed_environments : List Text
  pub enabled : Bool
  pub source_date : Text
  pub catalog_version : Text

unfoldable pub ModelDeployment-discrete : Discrete ModelDeployment
ModelDeployment-discrete = hlevel (ℕ_discrete, Text-discrete, Decimal-discrete)

-- `ModelRegistry`.
pub record ModelRegistry : Type 0 where
  pub schema_version : Text
  pub catalog_version : Text
  pub source_date : Text
  pub deployments : List ModelDeployment

find_deployment : Text → List ModelDeployment → Result Error ModelDeployment
find_deployment deployment_id [] = raised key_error
find_deployment deployment_id (d ∷ ds) =
    if text_eq d.deployment_id deployment_id then ok d else find_deployment deployment_id ds

-- `ModelRegistry.by_id`.
unfoldable pub by_id : ModelRegistry → Text → Result Error ModelDeployment
unfolding find_deployment
by_id registry deployment_id = find_deployment deployment_id registry.deployments

-- `RankingWeights`.
pub record RankingWeights : Type 0 where
  pub quality : Decimal
  pub reliability : Decimal
  pub latency : Decimal
  pub cost : Decimal
  pub availability : Decimal

-- `value > 1` of the checks below.
exceeds_one : Decimal → Bool
exceeds_one d = dec_ltb (of_ℕ 1) d

-- `RankingWeights.__post_init__`: weights of at most one, that sum to one.
unfoldable pub check_weights : RankingWeights → Result Error RankingWeights
unfolding exceeds_one
check_weights w = do
  raise_if
      (exceeds_one w.quality
        || exceeds_one w.reliability
        || exceeds_one w.latency
        || exceeds_one w.cost
        || exceeds_one w.availability)
      ranking_policy_error
  raise_if
      (not (
        dec_eqb
          (add (add (add (add (add (of_ℕ 0) w.quality) w.reliability) w.latency) w.cost)
            w.availability)
          (of_ℕ 1)))
      ranking_policy_error
  ok w

-- `StaticDeploymentScore`.
pub record StaticDeploymentScore : Type 0 where
  pub deployment_id : Text
  pub quality : Decimal
  pub reliability : Decimal
  pub latency : Decimal
  pub cost : Decimal
  pub availability : Decimal
  pub expected_latency_ms : ℕ

-- `StaticDeploymentScore.__post_init__`.
unfoldable pub check_score : StaticDeploymentScore → Result Error StaticDeploymentScore
unfolding exceeds_one
check_score s = do
  raise_if
      (exceeds_one s.quality
        || exceeds_one s.reliability
        || exceeds_one s.latency
        || exceeds_one s.cost
        || exceeds_one s.availability)
      ranking_policy_error
  raise_if (s.expected_latency_ms == 0) ranking_policy_error
  ok s

-- `WorkloadRankingPolicy`.
pub record WorkloadRankingPolicy : Type 0 where
  pub workload : Text
  pub weights : RankingWeights
  pub deployments : List StaticDeploymentScore

find_score : Text → List StaticDeploymentScore → Option StaticDeploymentScore
find_score deployment_id [] = none
find_score deployment_id (s ∷ ss) =
    if text_eq s.deployment_id deployment_id then some s else find_score deployment_id ss

-- `WorkloadRankingPolicy.score_for`.
unfoldable pub score_for : WorkloadRankingPolicy → Text → Option StaticDeploymentScore
unfolding find_score
score_for p deployment_id = find_score deployment_id p.deployments

-- `RankingPolicy`, with the provenance of its evidence-driven subclass, if it is one.
pub record RankingPolicy : Type 0 where
  pub schema_version : Text
  pub policy_version : Text
  pub score_snapshot_id : Text
  pub source_date : Text
  pub workloads : List WorkloadRankingPolicy
  pub benchmark_snapshot_id : Option Text
  pub score_provenance_mode : Option Text
  pub manual_override_id : Option Text

find_workload : Text → List WorkloadRankingPolicy → Result Error WorkloadRankingPolicy
find_workload workload [] = raised ranking_policy_error
find_workload workload (p ∷ ps) =
    if text_eq p.workload workload then ok p else find_workload workload ps

-- `RankingPolicy.for_workload`.
unfoldable pub for_workload : RankingPolicy → Text → Result Error WorkloadRankingPolicy
unfolding find_workload
for_workload p workload = find_workload workload p.workloads
