-- ===== src/Routing/Boundary.antt =====
-- The gateway's allowed set is within the set that the Policy Model Router authorized: what
-- application/policy.py, domain/authorization.py and `RouteExplainService` of
-- packages/gateway-core/src/governed_llm_gateway_core keep.
use mathlib.Core.List.Sublist
use mathlib.Core.List.{Mem, Sublist, mem-cons, mem-cons_self, mem-cons_of_mem, not-mem-nil}
use mathlib.Core.Logic.Or
use governed_llm_gateway.Base.{
  ℕ, ◌≤◌, ◌≡◌, ◌↔◌, ◌≢◌, refl, sym, subst, true, false, not, Option, none, some, List, [], ◌∷◌,
  Text, dec_ltb, dec_ltb_asym, Decimal, Result, ok, >>=-eq-ok, ok_injective, raise_if, raise_if_ok,
  Result-cases, All, All-map, contains, text_eq, Text-discrete, same-true, contains-Mem,
  Mem-contains, ◌==◌, arith, Bool-cases, inl, inr, if◌then◌else◌, ◌∙◌,
}
use governed_llm_gateway.Routing.{
  Error, GatewayRequest, EffectivePolicyContext, ModelDeployment, ModelDeployment-discrete,
  ModelRegistry, RankingPolicy, by_id, boundary_violation,
}
use governed_llm_gateway.Routing.Policy.{
  PolicyProjectionDefaults, SignedBinding, PolicyRequestMetadata, PolicyAuthorization,
  PolicyAuthorizationDecision, AuthorizedCandidateSet, is_in, in_groups, groups_of, all_in,
  enforce_allowed_subset, enforce_selected_group, authorized_registry_candidates, Environment,
  project_policy_request, metadata_of, check_metadata, stricter_cost, authorize_candidates,
  select_authorized, execute_selected, or_violation,
}
use governed_llm_gateway.Routing.Eligibility.{Health}
use governed_llm_gateway.Routing.Ranking.{RankingDecision, Hashes, explain}
use governed_llm_gateway.Routing.Selection.{all_ranked, rank-known}

-- The metadata that is sent narrows the limits and comes from the trusted context.
pub record IsNarrowed (request : GatewayRequest) (context : EffectivePolicyContext)
    (defaults : PolicyProjectionDefaults) (m : PolicyRequestMetadata) : Type 0 where
  pub client : m.client_id ≡ context.client_id
  pub environment : m.environment ≡ context.environment
  pub workload : m.workload ≡ request.workload
  pub risk : m.risk_level ≡ context.risk_level
  pub classification : m.data_classification ≡ context.data_classification
  pub latency_default : m.max_latency_ms ≤ defaults.max_latency_ms
  pub latency_caller : (n : ℕ) → request.limits.max_latency_ms ≡ some n → m.max_latency_ms ≤ n
  pub cost_default : dec_ltb defaults.max_cost_usd m.max_cost_usd ≡ false
  pub cost_caller :
      (c : Decimal) → request.limits.max_cost_usd ≡ some c → dec_ltb c m.max_cost_usd ≡ false
  pub output_positive : m.max_output_tokens_estimated ≢ 0

not_below_self : (c : Decimal) → dec_ltb c c ≡ false
not_below_self c = elim (Bool-cases (dec_ltb c c)) [ inl e ↦ dec_ltb_asym c c e | inr e ↦ e ]

check_metadata-ok : (m m' : PolicyRequestMetadata) → check_metadata m ≡ ok m' → m ≡ m'
unfolding check_metadata
check_metadata-ok m m' e = ground arith

stricter_cost-narrowed :
    (caller : Option Decimal) (d : Decimal) → dec_ltb d (stricter_cost caller d) ≡ false
stricter_cost-narrowed none d = not_below_self d
stricter_cost-narrowed (some c) d = ground (arith, not_below_self d)

metadata_of-IsNarrowed :
    (request : GatewayRequest) (context : EffectivePolicyContext) (i o : ℕ)
    (defaults : PolicyProjectionDefaults) (signed : Option SignedBinding)
    → context.workload ≡ request.workload
    → o ≢ 0
    → IsNarrowed request context defaults (metadata_of request context i o defaults signed)
unfolding metadata_of
metadata_of-IsNarrowed request context i o defaults signed w pos = record {
  client = refl;
  environment = refl;
  workload = w;
  risk = refl;
  classification = refl;
  latency_default = ground arith;
  latency_caller = λ n e. ground arith;
  cost_default = stricter_cost-narrowed request.limits.max_cost_usd defaults.max_cost_usd;
  cost_caller = λ c e. ground (arith, not_below_self c, dec_ltb_asym defaults.max_cost_usd c);
  output_positive = pos;
}

-- What the checks of the projection leave when all of them pass.
projected :
    (request : GatewayRequest) (context : EffectivePolicyContext) (i o : ℕ)
    (defaults : PolicyProjectionDefaults) (signed : Option SignedBinding)
    (m : PolicyRequestMetadata)
    → project_policy_request request context i o defaults signed ≡ ok m
    → (text_eq context.workload request.workload ≡ true)
      × (o == 0 ≡ false)
      × (check_metadata (metadata_of request context i o defaults signed) ≡ ok m)
unfolding project_policy_request
projected request context i o defaults signed m e = ground arith

-- What is sent to the Policy Model Router carries the trusted identity and classification, and
-- limits that neither the caller's limits nor the configured defaults exceed.
pub project_policy_request-IsNarrowed :
    (request : GatewayRequest) (context : EffectivePolicyContext) (i o : ℕ)
    (defaults : PolicyProjectionDefaults) (signed : Option SignedBinding)
    (m : PolicyRequestMetadata)
    → project_policy_request request context i o defaults signed ≡ ok m
    → IsNarrowed request context defaults m
project_policy_request-IsNarrowed request context i o defaults signed m e =
    let (w, n, c) = projected request context i o defaults signed m e in
    subst (IsNarrowed request context defaults) (check_metadata-ok _ _ c) (
      metadata_of-IsNarrowed request context i o defaults signed (same-true Text-discrete _ _ w)
        (ground arith))

-- The groups of the candidates are authorized, so `authorized_registry_candidates` always returns.
in_groups-all_in :
    (groups : List Text) (ds : List ModelDeployment)
    → all_in (groups_of (in_groups groups ds)) groups ≡ true
unfolding in_groups groups_of all_in
in_groups-all_in groups [] = refl
in_groups-all_in groups (d ∷ ds) = elim (Bool-cases (is_in d.model_group groups)) [
  | inl e ↦ ground (arith, in_groups-all_in groups ds)
  | inr e ↦ ground (arith, in_groups-all_in groups ds)
]

registry_candidates_eq :
    (registry : ModelRegistry) (a : PolicyAuthorization)
    → authorized_registry_candidates registry a
      ≡ ok (in_groups a.authorized_model_groups registry.deployments)
unfolding authorized_registry_candidates enforce_allowed_subset
registry_candidates_eq registry a =
    rw (in_groups-all_in a.authorized_model_groups registry.deployments) refl

in_groups-Sublist :
    (groups : List Text) (ds : List ModelDeployment) → Sublist (in_groups groups ds) ds
unfolding in_groups
in_groups-Sublist groups [] = Sublist.refl []
in_groups-Sublist groups (d ∷ ds) = elim (Bool-cases (is_in d.model_group groups)) [
  | inl e ↦ rw e (Sublist.cons-cons d (in_groups-Sublist groups ds))
  | inr e ↦ rw e (Sublist.cons d (in_groups-Sublist groups ds))
]

in_groups-complete :
    (groups : List Text) (ds : List ModelDeployment) (d : ModelDeployment)
    → Mem d ds
    → is_in d.model_group groups ≡ true
    → Mem d (in_groups groups ds)
unfolding in_groups
in_groups-complete groups [] d m g = absurd (not-mem-nil m)
in_groups-complete groups (x ∷ xs) d m g = elim (Bool-cases (is_in x.model_group groups)) [
  | inl e ↦ rw e (
      Or.«elim» (hlevel) (mem-cons.0 m) (λ same_one. rw same_one mem-cons_self)
        (λ k. mem-cons_of_mem x (in_groups-complete groups xs d k g)))
  | inr e ↦ rw e (
      Or.«elim» (hlevel) (mem-cons.0 m)
        (λ same_one.
          let kept : is_in x.model_group groups ≡ true =
            subst (λ y. is_in y.model_group groups ≡ true) same_one g in
          cc)
        (λ k. in_groups-complete groups xs d k g))
]

-- The deployment stands in the registry, in one of the groups.
abbrev pub IsWithin : List Text → List ModelDeployment → ModelDeployment → Type 0
IsWithin groups ds d = Mem d ds × (is_in d.model_group groups ≡ true)

in_groups-IsWithin :
    (groups : List Text) (ds : List ModelDeployment) (d : ModelDeployment)
    → Mem d (in_groups groups ds)
    → IsWithin groups ds d
unfolding in_groups
in_groups-IsWithin groups [] d m = absurd (not-mem-nil m)
in_groups-IsWithin groups (x ∷ xs) d m =
    let rest : Mem d (in_groups groups xs) → IsWithin groups (x ∷ xs) d =
      λ k. let (a, b) = in_groups-IsWithin groups xs d k in (mem-cons_of_mem x a, b) in
    elim (Bool-cases (is_in x.model_group groups)) [
      | inl e ↦
          Or.«elim» (hlevel)
            (mem-cons.0
              (subst (λ b. Mem d (if b then x ∷ in_groups groups xs else in_groups groups xs)) e m))
            (λ same_one. rw same_one (mem-cons_self, e)) rest
      | inr e ↦
          rest (subst (λ b. Mem d (if b then x ∷ in_groups groups xs else in_groups groups xs)) e m)
    ]

-- The gateway never raises here, and keeps the deployments of the registry, in their order, whose
-- group is authorized: all of them and no others.
pub authorized_registry_candidates_lem :
    (registry : ModelRegistry) (a : PolicyAuthorization)
    → (kept : List ModelDeployment) × (authorized_registry_candidates registry a ≡ ok kept)
      × Sublist kept registry.deployments
      × ((d : ModelDeployment)
          → Mem d kept ↔ (Mem d registry.deployments × Mem d.model_group a.authorized_model_groups))
authorized_registry_candidates_lem registry a =
    let groups = a.authorized_model_groups in
    let ds = registry.deployments in
    (
      in_groups groups ds,
      registry_candidates_eq registry a,
      in_groups-Sublist groups ds,
      λ d. (
        λ m.
            let (k, e) = in_groups-IsWithin groups ds d m in
            (k, contains-Mem Text-discrete d.model_group groups e),
        λ (m, g).
            in_groups-complete groups ds d m (Mem-contains Text-discrete d.model_group groups g),
      ),
    )

module _ (env : Environment) (request : GatewayRequest) (context : EffectivePolicyContext)
    (registry : ModelRegistry) (i o : ℕ) (defaults : PolicyProjectionDefaults)
    (signed : Option SignedBinding) where
  -- The decision point was asked with the projected metadata, and `a` is what it answered.
  pub record IsAuthorizedBy (a : PolicyAuthorizationDecision) : Type 0 where
    pub metadata : PolicyRequestMetadata
    pub projected : project_policy_request request context i o defaults signed ≡ ok metadata
    pub answer : env.authorize metadata ≡ ok a

  -- The candidates come from the answer of the decision point, and are the deployments of the
  -- registry in the groups that it names.
  pub record IsAuthorized (s : AuthorizedCandidateSet) : Type 0 where
    pub by : IsAuthorizedBy s.policy
    pub candidates :
        s.candidates ≡ in_groups s.policy.authorization.authorized_model_groups registry.deployments

  authorize_candidates-IsAuthorized :
      (s : AuthorizedCandidateSet)
      → authorize_candidates env request context registry i o defaults signed ≡ ok s
      → IsAuthorized s
  unfolding authorize_candidates
  authorize_candidates-IsAuthorized s e =
      let (m, em, e1) =
        >>=-eq-ok (project_policy_request request context i o defaults signed) _ e in
      let (a, ea, e2) = >>=-eq-ok (env.authorize m) _ e1 in
      let (c, ec, e3) = >>=-eq-ok (authorized_registry_candidates registry a.authorization) _ e2 in
      subst IsAuthorized (ok_injective e3) (record {
        by = record { metadata = m; projected = em; answer = ea };
        candidates =
            sym (ok_injective (sym (registry_candidates_eq registry a.authorization) ∙ ec));
      })

  -- What `execute_selected` is let through with.
  pub record IsChosen (selected : Text) (d : ModelDeployment) : Type 0 where
    pub decision : PolicyAuthorizationDecision
    pub by : IsAuthorizedBy decision
    pub named : or_violation (by_id registry selected) ≡ ok d
    pub within : IsWithin decision.authorization.authorized_model_groups registry.deployments d

  select_authorized-IsChosen :
      (selected : Text) (d : ModelDeployment)
      → select_authorized env request context registry selected i o defaults signed ≡ ok d
      → IsChosen selected d
  unfolding select_authorized
  select_authorized-IsChosen selected d e =
      let (s, es, e1) =
        >>=-eq-ok (authorize_candidates env request context registry i o defaults signed) _ e in
      let (x, ex, e2) = >>=-eq-ok (or_violation (by_id registry selected)) _ e1 in
      let (u, eu, e3) =
        >>=-eq-ok (enforce_selected_group x.model_group s.policy.authorization) _ e2 in
      let (v, ev, e4) =
        >>=-eq-ok
          (raise_if (not (contains ModelDeployment-discrete x s.candidates)) boundary_violation) _
          e3 in
      let a = authorize_candidates-IsAuthorized s es in
      let among : Mem x s.candidates =
        contains-Mem ModelDeployment-discrete x s.candidates (ground (arith, raise_if_ok _ _ ev)) in
      subst (IsChosen selected) (ok_injective e4) (record {
        decision = s.policy;
        by = a.by;
        named = ex;
        within =
            in_groups-IsWithin s.policy.authorization.authorized_model_groups registry.deployments x
              (subst (Mem x) a.candidates among);
      })

  -- The provider is called at most once, and only for the model of the selected deployment of the
  -- registry, which stands in a group that the decision point authorized.
  pub execute_selected-IsChosen :
      {R : Type 0} (generate : Text → ℕ → Result Error R) (selected model : Text)
      (models : List Text)
      → (execute_selected env generate request context registry selected i o defaults signed).1
        ≡ model ∷ models
      → (models ≡ []) × (d : ModelDeployment) × (d.model_id ≡ model) × IsChosen selected d
  unfolding execute_selected
  execute_selected-IsChosen generate selected model models e =
      elim (Result-cases
        (select_authorized env request context registry selected i o defaults signed)) [
          | inl (d, chosen) ↦
              (let called = rw chosen at e in
                (cc, d, cc, select_authorized-IsChosen selected d chosen))
          | inr (x, refused) ↦ (let called = rw refused at e in cc)
        ]

  -- Every candidate of a routing decision is a deployment of the registry in a group that the
  -- decision point authorized for the projected request.
  pub explain-IsWithin :
      (h : Hashes) (policy : RankingPolicy) (health : Health) (decision : RankingDecision)
      → explain h env request context registry policy i o defaults health signed ≡ ok decision
      → (a : PolicyAuthorizationDecision) × IsAuthorizedBy a
        × All
            (λ c.
              IsWithin a.authorization.authorized_model_groups registry.deployments c.deployment)
            (all_ranked decision)
  unfolding explain
  explain-IsWithin h policy health decision e =
      let (m, em, e1) =
        >>=-eq-ok (project_policy_request request context i o defaults signed) _ e in
      let (s, es, e2) =
        >>=-eq-ok (authorize_candidates env request context registry i o defaults signed) _ e1 in
      let a = authorize_candidates-IsAuthorized s es in
      (
        s.policy,
        a.by,
        All-map _ _
            (λ c k.
              in_groups-IsWithin s.policy.authorization.authorized_model_groups registry.deployments
                c.deployment (subst (Mem c.deployment) a.candidates k))
            (all_ranked decision)
            (rank-known h (env.registry_digest registry) request context s m policy health decision
              e2),
      )
