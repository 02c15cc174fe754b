-- ===== src/Routing/Ranking.antt =====
-- `OperationalRankingService` and `RouteExplainService` of
-- packages/gateway-core/src/governed_llm_gateway_core/application/ranking.py.
use governed_llm_gateway.Base.{
  ℕ, Bool, not, ◌&&◌, ◌||◌, Option, none, some, List, [], ◌∷◌, ◌==◌, Text, text_eq, text_lt,
  Decimal, dec_ltb, Result, ok, raised, raise_if, ◌>>=◌, ◌>>◌, length, sorted,
}
use governed_llm_gateway.Routing.{
  Error, ranking_invariant_violation, GatewayRequest, EffectivePolicyContext, ModelDeployment,
  ModelRegistry, StaticDeploymentScore, WorkloadRankingPolicy, RankingPolicy, for_workload,
  score_for,
}
use governed_llm_gateway.Routing.Policy.{
  PolicyRequestMetadata, PolicyProjectionDefaults, SignedBinding, PolicyProvenance,
  AuthorizedCandidateSet, is_in, Environment, project_policy_request, authorize_candidates,
}
use governed_llm_gateway.Routing.Eligibility.{
  CandidateRejection, ScoreBreakdown, score, Health, cost_of, eligibility_rejection,
}

-- `RankedCandidate`.
pub record RankedCandidate : Type 0 where
  pub deployment : ModelDeployment
  pub score : ScoreBreakdown
  pub estimated_cost_usd : Decimal

-- `RoutingProvenance`.
pub record RoutingProvenance : Type 0 where
  pub routing_decision_id : Text
  pub policy : PolicyProvenance
  pub authorized_model_group : Text
  pub model_registry_digest : Text
  pub ranking_policy_version : Text
  pub ranking_policy_digest : Text
  pub score_snapshot_id : Text
  pub benchmark_snapshot_id : Option Text
  pub score_provenance_mode : Option Text
  pub manual_override_id : Option Text
  pub provider : Option Text
  pub model : Option Text
  pub deployment : Option Text
  pub rejected_candidates : List CandidateRejection
  pub fallback_sequence : List Text

-- `RankingDecision`.
pub record RankingDecision : Type 0 where
  pub routing : RoutingProvenance
  pub ranking_policy_digest : Text
  pub score_snapshot_id : Text
  pub selected : Option RankedCandidate
  pub alternatives : List RankedCandidate
  pub rejected_candidates : List CandidateRejection

-- What `_decision_id` hashes.
pub record DecisionPayload : Type 0 where
  pub request_id : ℕ
  pub provenance : PolicyProvenance
  pub authorized_model_groups : List Text
  pub registry_digest : Text
  pub policy : RankingPolicy
  pub metadata : PolicyRequestMetadata
  pub ranked : List RankedCandidate
  pub rejected : List CandidateRejection

-- The hashes of a ranking policy and of a decision.
pub record Hashes : Type 0 where
  pub policy_digest : RankingPolicy → Text
  pub decision_id : DecisionPayload → Text

-- The order of `candidate.deployment_id`.
unfoldable pub id_lt : ModelDeployment → ModelDeployment → Bool
id_lt a b = text_lt a.deployment_id b.deployment_id

-- The order of the key `(-score.total, deployment_id)`.
unfoldable pub rank_lt : RankedCandidate → RankedCandidate → Bool
rank_lt a b =
    dec_ltb b.score.total a.score.total
    || (not (dec_ltb a.score.total b.score.total)
        && text_lt a.deployment.deployment_id b.deployment.deployment_id)

-- The order of `item.deployment`.
unfoldable pub rejection_lt : CandidateRejection → CandidateRejection → Bool
rejection_lt a b = text_lt a.deployment b.deployment

-- `_validate_boundary`.
unfoldable pub validate_boundary :
    Text
    → GatewayRequest
    → EffectivePolicyContext
    → AuthorizedCandidateSet
    → PolicyRequestMetadata
    → Result Error (Unit {0})
validate_boundary registry_digest request context authorized m = do
  raise_if (not (text_eq registry_digest authorized.registry_digest)) ranking_invariant_violation
  raise_if (not (text_eq request.workload context.workload)) ranking_invariant_violation
  raise_if (not (text_eq m.workload context.workload)) ranking_invariant_violation
  raise_if (not (text_eq m.environment context.environment)) ranking_invariant_violation
  raise_if (not (text_eq authorized.policy.environment context.environment))
      ranking_invariant_violation
  raise_if (not (length authorized.policy.authorization.authorized_model_groups == 1))
      ranking_invariant_violation

-- What the loop of `rank` makes of one deployment: a rejection, or a ranked candidate.
pub data Verdict : Type 0 where
  rejects : CandidateRejection → Verdict
  ranks : RankedCandidate → Verdict

abbrev pub ranked_with :
    WorkloadRankingPolicy
    → ModelDeployment
    → Option StaticDeploymentScore
    → Option Decimal
    → Result Error Verdict
ranked_with policy d none cost = raised ranking_invariant_violation
ranked_with policy d (some s) none = raised ranking_invariant_violation
ranked_with policy d (some s) (some cost) =
    ok
      (ranks (record { deployment = d; score = score policy.weights s; estimated_cost_usd = cost }))

abbrev pub verdict_of :
    WorkloadRankingPolicy
    → ModelDeployment
    → Option StaticDeploymentScore
    → Option Decimal
    → Option CandidateRejection
    → Result Error Verdict
verdict_of policy d static_score cost (some r) = ok (rejects r)
verdict_of policy d static_score cost none = ranked_with policy d static_score cost

-- One round of the loop of `rank`.
unfoldable pub assess :
    GatewayRequest
    → EffectivePolicyContext
    → PolicyRequestMetadata
    → WorkloadRankingPolicy
    → Health
    → List Text
    → ModelDeployment
    → Result Error Verdict
assess request context m policy health groups d = do
  raise_if (not (is_in d.model_group groups)) ranking_invariant_violation
  let static_score = score_for policy d.deployment_id
  rejection ← eligibility_rejection request context m d static_score health
  verdict_of policy d static_score (cost_of m d) rejection

-- The two lists that the loop fills.
pub record Sorted : Type 0 where
  pub ranked : List RankedCandidate
  pub rejected : List CandidateRejection

abbrev pub add_verdict : Verdict → Sorted → Sorted
add_verdict (rejects r) s = record s { rejected = r ∷ s.rejected }
add_verdict (ranks c) s = record s { ranked = c ∷ s.ranked }

module _ (verdict : ModelDeployment → Result Error Verdict) where
  -- The loop of `rank`, over the sorted candidates. The lists are in the order of the loop.
  unfoldable pub assess_all : List ModelDeployment → Result Error Sorted
  assess_all [] = ok (record { ranked = []; rejected = [] })
  assess_all (d ∷ ds) = do v ← verdict d; rest ← assess_all ds; ok (add_verdict v rest)

abbrev head_of {ℓ} : {A : Type ℓ} → List A → Option A
head_of [] = none
head_of (x ∷ xs) = some x

abbrev tail_of {ℓ} : {A : Type ℓ} → List A → List A
tail_of [] = []
tail_of (x ∷ xs) = xs

abbrev head_text : List Text → Text
head_text [] = []
head_text (t ∷ ts) = t

abbrev of_selected : (ModelDeployment → Text) → Option RankedCandidate → Option Text
of_selected f none = none
of_selected f (some c) = some (f c.deployment)

-- The decision that `rank` returns, from the two sorted lists.
unfoldable pub decision_of :
    Hashes
    → GatewayRequest
    → AuthorizedCandidateSet
    → PolicyRequestMetadata
    → RankingPolicy
    → List RankedCandidate
    → List CandidateRejection
    → RankingDecision
decision_of h request authorized m policy ranked rejected = record {
  routing = record {
    routing_decision_id = h.decision_id (record {
      request_id = request.request_id;
      provenance = authorized.policy.provenance;
      authorized_model_groups =
          sorted text_lt authorized.policy.authorization.authorized_model_groups;
      registry_digest = authorized.registry_digest;
      policy = policy;
      metadata = m;
      ranked = ranked;
      rejected = rejected;
    });
    policy = authorized.policy.provenance;
    authorized_model_group = head_text authorized.policy.authorization.authorized_model_groups;
    model_registry_digest = authorized.registry_digest;
    ranking_policy_version = policy.policy_version;
    ranking_policy_digest = h.policy_digest policy;
    score_snapshot_id = policy.score_snapshot_id;
    benchmark_snapshot_id = policy.benchmark_snapshot_id;
    score_provenance_mode = policy.score_provenance_mode;
    manual_override_id = policy.manual_override_id;
    provider = of_selected (λ d. d.provider) (head_of ranked);
    model = of_selected (λ d. d.model_id) (head_of ranked);
    deployment = of_selected (λ d. d.deployment_id) (head_of ranked);
    rejected_candidates = rejected;
    fallback_sequence = [];
  };
  ranking_policy_digest = h.policy_digest policy;
  score_snapshot_id = policy.score_snapshot_id;
  selected = head_of ranked;
  alternatives = tail_of ranked;
  rejected_candidates = rejected;
}

module _ (h : Hashes) where
  -- `rank`.
  unfoldable pub rank :
      Text
      → GatewayRequest
      → EffectivePolicyContext
      → AuthorizedCandidateSet
      → PolicyRequestMetadata
      → RankingPolicy
      → Health
      → Result Error RankingDecision
  rank registry_digest request context authorized m policy health = do
    validate_boundary registry_digest request context authorized m
    workload_policy ← for_workload policy request.workload
    found ←
        assess_all
          (assess request context m workload_policy health
            authorized.policy.authorization.authorized_model_groups)
          (sorted id_lt authorized.candidates)
    ok (
        decision_of h request authorized m policy (sorted rank_lt found.ranked)
          (sorted rejection_lt found.rejected))

  -- `RouteExplainService.explain`.
  unfoldable pub explain :
      Environment
      → GatewayRequest
      → EffectivePolicyContext
      → ModelRegistry
      → RankingPolicy
      → ℕ
      → ℕ
      → PolicyProjectionDefaults
      → Health
      → Option SignedBinding
      → Result Error RankingDecision
  explain env request context registry policy context_tokens output_tokens defaults health signed =
      do
        m ← project_policy_request request context context_tokens output_tokens defaults signed
        authorized ←
            authorize_candidates env request context registry context_tokens output_tokens defaults
              signed
        rank (env.registry_digest registry) request context authorized m policy health
