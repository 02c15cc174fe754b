-- ===== src/Routing/Tests.antt =====
-- Samples of a registry, a request and a ranking policy, and the theorems at them.
use mathlib.Core.List.{Perm, Pairwise, Mem, Sublist, mem-cons, not-mem-nil}
use mathlib.Core.Logic.Or
use mathlib.Core.List.Perm
use governed_llm_gateway.Base.{
  ℕ, ℕ_discrete, Decimal-discrete, ◌+◌, ◌≡◌, refl, true, false, Bool, none, some, List, [], ◌∷◌,
  ◌++◌, Text, Text-discrete, Decimal, Result, ok, raised, All, Apart, ◌↔◌, sorted, insert_sorted,
  text_lt, dec_ltb, is_normalized, of_ℕ, mul, add, per_million, in_context,
}
use governed_llm_gateway.Routing.{
  internal, low, Capability, Modality, RejectionReason, Error, GatewayRequest,
  EffectivePolicyContext, ModelDeployment, ModelRegistry, StaticDeploymentScore,
  WorkloadRankingPolicy, RankingPolicy, for_workload, score_for, Capability-discrete,
  ModelDeployment-discrete, by_id,
}
use governed_llm_gateway.Routing.Policy.{
  PolicyProjectionDefaults, PolicyRequestMetadata, PolicyAuthorizationDecision,
  AuthorizedCandidateSet, Environment, project_policy_request, metadata_of, check_metadata,
  authorize_candidates, authorized_registry_candidates, in_groups, enforce_allowed_subset,
  enforce_selected_group, all_in, groups_of, select_authorized, execute_selected,
}
use governed_llm_gateway.Routing.Eligibility.{
  CandidateRejection, RejectionDetail, eligibility_rejection, score, estimated_cost_usd,
  required_capabilities, not_among, missing_capabilities, runtime_health_rejection,
  required_context, limit_rejection, offer_rejection,
}
use governed_llm_gateway.Routing.Ranking.{
  RankedCandidate, RankingDecision, Hashes, decision_of, rank, explain, assess, assess_all,
  validate_boundary, id_lt, rank_lt, rejection_lt,
}
use governed_llm_gateway.Routing.Eligible.{IsEligible, eligibility_rejection_iff}
use governed_llm_gateway.Routing.Selection.{
  all_ranked, ranked_ids, rejected_ids, candidate_ids, IsAdmissible, id_lt-IsOrder, rank-complete,
  rank-admissible, Precedes, rank-IsFalling, rank_any_order,
}
use governed_llm_gateway.Routing.Boundary.{
  IsNarrowed, IsWithin, IsAuthorizedBy, IsChosen, project_policy_request-IsNarrowed,
  authorized_registry_candidates_lem, execute_selected-IsChosen, explain-IsWithin,
}

abbrev dec : ℕ → ℕ → Decimal
dec c s = record { coefficient = c; scale = s }

abbrev standard : Text
standard = 115 ∷ []

abbrev deployment : ℕ → Text → Bool → ModelDeployment
deployment n group enabled = record {
  deployment_id = n ∷ [];
  provider = 112 ∷ [];
  model_id = (100 + n) ∷ [];
  model_group = group;
  api_family = 97 ∷ [];
  capabilities = Capability.text ∷ [];
  context_tokens = 1000;
  modalities = Modality.text ∷ [];
  pricing = some (record {
    input_usd_per_million_tokens = dec 1 0;
    output_usd_per_million_tokens = dec 2 0;
    source_date = [];
    snapshot_version = [];
  });
  max_data_classification = internal;
  allowed_environments = standard ∷ [];
  enabled = enabled;
  source_date = [];
  catalog_version = [];
}

-- Two deployments of the authorized group, one of which is disabled, and one of another group.
abbrev registry : ModelRegistry
registry = record {
  schema_version = [];
  catalog_version = [];
  source_date = [];
  deployments =
      deployment 2 standard true ∷ deployment 1 standard false ∷ deployment 3 (116 ∷ []) true ∷ [];
}

abbrev pub request : GatewayRequest
request = record {
  request_id = 7;
  workload = 119 ∷ [];
  requirements = record {
    tool_calling = false;
    structured_output = false;
    vision = false;
    streaming = false;
    audio = false;
    document = false;
    parallel_tool_calling = false;
    min_context_tokens = 10;
  };
  limits = record { max_latency_ms = some 500; max_cost_usd = none };
}

abbrev context : EffectivePolicyContext
context = record {
  client_id = 99 ∷ [];
  environment = standard;
  workload = 119 ∷ [];
  risk_level = low;
  data_classification = internal;
}

abbrev defaults : PolicyProjectionDefaults
defaults = record { max_latency_ms = 900; max_cost_usd = dec 1 0 }

abbrev static_score : ℕ → StaticDeploymentScore
static_score n = record {
  deployment_id = n ∷ [];
  quality = dec 1 0;
  reliability = dec 1 0;
  latency = dec 5 1;
  cost = dec 5 1;
  availability = dec 1 0;
  expected_latency_ms = 400;
}

abbrev workload_policy : WorkloadRankingPolicy
workload_policy = record {
  workload = 119 ∷ [];
  weights = record {
    quality = dec 2 1;
    reliability = dec 2 1;
    latency = dec 2 1;
    cost = dec 2 1;
    availability = dec 2 1;
  };
  deployments = static_score 1 ∷ static_score 2 ∷ [];
}

abbrev ranking_policy : RankingPolicy
ranking_policy = record {
  schema_version = [];
  policy_version = [];
  score_snapshot_id = [];
  source_date = [];
  workloads = workload_policy ∷ [];
  benchmark_snapshot_id = none;
  score_provenance_mode = none;
  manual_override_id = none;
}

abbrev hashes : Hashes
hashes = record { policy_digest = λ p. []; decision_id = λ p. [] }

abbrev answer : PolicyAuthorizationDecision
answer = record {
  authorization = record { decision_id = []; authorized_model_groups = standard ∷ [] };
  provenance = record { decision_id = []; policy_id = []; policy_version = []; policy_digest = [] };
  environment = standard;
}

abbrev environment : Environment
environment = record { authorize = λ m. ok answer; registry_digest = λ r. 100 ∷ [] }

abbrev metadata : PolicyRequestMetadata
metadata = record {
  request_id = 7;
  client_id = 99 ∷ [];
  environment = standard;
  workload = 119 ∷ [];
  risk_level = low;
  data_classification = internal;
  context_tokens_estimated = 100;
  max_output_tokens_estimated = 50;
  structured_output_required = false;
  max_latency_ms = 500;
  max_cost_usd = dec 1 0;
  runtime_authorization = none;
}

abbrev authorized : AuthorizedCandidateSet
authorized = record {
  policy = answer;
  registry_digest = 100 ∷ [];
  candidates = deployment 2 standard true ∷ deployment 1 standard false ∷ [];
}

project_policy_request-metadata :
    project_policy_request request context 100 50 defaults none ≡ ok metadata
unfolding project_policy_request metadata_of check_metadata is_normalized dec_ltb
project_policy_request-metadata = refl

project_policy_request-IsNarrowed_example : IsNarrowed request context defaults metadata
project_policy_request-IsNarrowed_example =
    project_policy_request-IsNarrowed request context 100 50 defaults none metadata
      project_policy_request-metadata

authorized_registry_candidates_lem_example :
    (kept : List ModelDeployment) × (authorized_registry_candidates registry answer.authorization
      ≡ ok kept)
    × Sublist kept registry.deployments
    × ((d : ModelDeployment)
        → Mem d kept ↔ (Mem d registry.deployments × Mem d.model_group (standard ∷ [])))
authorized_registry_candidates_lem_example =
    authorized_registry_candidates_lem registry answer.authorization

abbrev pub candidate : RankedCandidate
candidate = record {
  deployment = deployment 2 standard true;
  score = score workload_policy.weights (static_score 2);
  estimated_cost_usd =
      add (per_million (mul (dec 1 0) (of_ℕ 100))) (per_million (mul (dec 2 0) (of_ℕ 50)));
}

abbrev rejection : CandidateRejection
rejection = record {
  deployment = 1 ∷ [];
  reason = RejectionReason.deployment_disabled;
  detail = RejectionDetail.no_detail;
}

abbrev pub decision : RankingDecision
decision =
    decision_of hashes request authorized metadata ranking_policy (candidate ∷ []) (rejection ∷ [])

rank-decision :
    rank hashes (100 ∷ []) request context authorized metadata ranking_policy none ≡ ok decision
unfolding rank validate_boundary for_workload assess_all assess eligibility_rejection
    runtime_health_rejection offer_rejection missing_capabilities not_among required_capabilities
    required_context limit_rejection score_for estimated_cost_usd sorted insert_sorted id_lt rank_lt
    rejection_lt text_lt dec_ltb mul add per_million in_context Capability-discrete Text-discrete
    ℕ_discrete
rank-decision = refl

rank-complete_example :
    Perm
      (ranked_ids (all_ranked decision) ++ rejected_ids decision.rejected_candidates)
      (candidate_ids authorized.candidates)
rank-complete_example =
    rank-complete hashes (100 ∷ []) request context authorized metadata ranking_policy none decision
      rank-decision

rank-admissible_example :
    (w : WorkloadRankingPolicy) × (for_workload ranking_policy request.workload ≡ ok w)
    × All
        (IsAdmissible hashes (100 ∷ []) request context authorized metadata ranking_policy none w)
        (all_ranked decision)
rank-admissible_example =
    rank-admissible hashes (100 ∷ []) request context authorized metadata ranking_policy none
      decision rank-decision

rank-IsFalling_example : Pairwise Precedes (all_ranked decision)
rank-IsFalling_example =
    rank-IsFalling hashes (100 ∷ []) request context authorized metadata ranking_policy none
      decision rank-decision

abbrev reversed : List ModelDeployment
reversed = deployment 1 standard false ∷ deployment 2 standard true ∷ []

authorized-Apart : Pairwise (Apart id_lt id_lt-IsOrder) authorized.candidates
unfolding id_lt text_lt
authorized-Apart =
    Pairwise.cons
      (λ a m. Or.«elim» (hlevel) (mem-cons.0 m) (λ e. rw e refl) (λ n. absurd (not-mem-nil n)))
      (Pairwise.cons (λ a m. absurd (not-mem-nil m)) Pairwise.nil)

rank_any_order_example :
    rank hashes
      (100 ∷ [])
      request
      context
      (record authorized { candidates = reversed })
      metadata
      ranking_policy
      none
    ≡ rank hashes (100 ∷ []) request context authorized metadata ranking_policy none
rank_any_order_example =
    rank_any_order hashes (100 ∷ []) request context authorized metadata ranking_policy none
      reversed (Perm.swap _ _ []) authorized-Apart

candidate-eligible :
    eligibility_rejection request context metadata
      (deployment 2 standard true)
      (some (static_score 2))
      none
    ≡ ok none
unfolding eligibility_rejection runtime_health_rejection offer_rejection missing_capabilities
    not_among required_capabilities required_context limit_rejection estimated_cost_usd dec_ltb mul
    add per_million in_context Capability-discrete Text-discrete ℕ_discrete
candidate-eligible = refl

eligibility_rejection_iff_example :
    IsEligible request context metadata (deployment 2 standard true) (some (static_score 2)) none
eligibility_rejection_iff_example =
    (eligibility_rejection_iff request context metadata (deployment 2 standard true)
        (some (static_score 2)) none).0
      candidate-eligible

explain-decision :
    explain hashes environment request context registry ranking_policy 100 50 defaults none none
    ≡ ok decision
unfolding explain authorize_candidates authorized_registry_candidates in_groups groups_of all_in
    enforce_allowed_subset project_policy_request metadata_of check_metadata is_normalized rank
    validate_boundary for_workload assess_all assess eligibility_rejection runtime_health_rejection
    offer_rejection missing_capabilities not_among required_capabilities required_context
    limit_rejection score_for estimated_cost_usd sorted insert_sorted id_lt rank_lt rejection_lt
    text_lt dec_ltb mul add per_million in_context Capability-discrete Text-discrete ℕ_discrete
explain-decision = refl

explain-IsWithin_example :
    (a : PolicyAuthorizationDecision) × IsAuthorizedBy environment request context registry 100 50
      defaults none a
    × All
        (λ c. IsWithin a.authorization.authorized_model_groups registry.deployments c.deployment)
        (all_ranked decision)
explain-IsWithin_example =
    explain-IsWithin environment request context registry 100 50 defaults none hashes ranking_policy
      none decision explain-decision

-- A provider that answers with the number of tokens it may write.
abbrev generate : Text → ℕ → Result Error ℕ
generate model tokens = ok tokens

execute_selected-calls :
    (execute_selected environment generate request context registry (2 ∷ []) 100 50 defaults none).1
    ≡ (102 ∷ []) ∷ []
unfolding execute_selected select_authorized authorize_candidates authorized_registry_candidates
    in_groups groups_of all_in enforce_allowed_subset enforce_selected_group by_id
    project_policy_request metadata_of check_metadata is_normalized dec_ltb Text-discrete
    ModelDeployment-discrete Decimal-discrete
execute_selected-calls = refl

-- A deployment of the registry outside the authorized group is refused before any call.
execute_selected-refused :
    execute_selected environment generate request context registry (3 ∷ []) 100 50 defaults none
    ≡ (raised Error.boundary_violation, [])
unfolding execute_selected select_authorized authorize_candidates authorized_registry_candidates
    in_groups groups_of all_in enforce_allowed_subset enforce_selected_group by_id
    project_policy_request metadata_of check_metadata is_normalized dec_ltb Text-discrete
    ModelDeployment-discrete Decimal-discrete
execute_selected-refused = refl

execute_selected-IsChosen_example :
    (◌≡◌ {A = List Text} [] [])
    × (d : ModelDeployment) × (d.model_id ≡ 102 ∷ [])
    × IsChosen environment request context registry 100 50 defaults none (2 ∷ []) d
execute_selected-IsChosen_example =
    execute_selected-IsChosen environment request context registry 100 50 defaults none generate
      (2 ∷ []) (102 ∷ []) [] execute_selected-calls
