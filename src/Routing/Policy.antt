-- ===== src/Routing/Policy.antt =====
-- Authorization before selection: application/policy.py and domain/authorization.py of
-- packages/gateway-core/src/governed_llm_gateway_core. The Policy Model Router is a parameter, and
-- so are the registry digest, which is a hash, and the provider. Telemetry spans are left out.
use governed_llm_gateway.Base.{
  ℕ, Bool, true, false, not, ◌&&◌, Option, none, some, List, [], ◌∷◌, ◌==◌, ltb, Text,
  Text-discrete, text_eq, is_normalized, Decimal, of_ℕ, mul, dec_ltb, dec_eqb, Result, ok, raised,
  raise_if, ◌>>=◌, ◌>>◌, same, contains, if◌then◌else◌,
}
use governed_llm_gateway.Routing.{
  DataClassification, DataClassification-discrete, RiskLevel, RiskLevel-discrete, Error,
  value_error, projection_error, boundary_violation, GatewayRequest, EffectivePolicyContext,
  ModelDeployment, ModelRegistry, by_id, ModelDeployment-discrete,
}

-- `PolicyProjectionDefaults`.
pub record PolicyProjectionDefaults : Type 0 where
  pub max_latency_ms : ℕ
  pub max_cost_usd : Decimal

-- What a forwardable authorization signs about a request.
pub record SignedBinding : Type 0 where
  pub workload : Text
  pub risk_level : RiskLevel
  pub data_classification : DataClassification
  pub context_tokens_estimated : ℕ
  pub max_output_tokens_estimated : ℕ
  pub structured_output_required : Bool
  pub max_latency_ms : ℕ
  pub max_cost_usd_micros : ℕ

-- `PolicyRequestMetadata`.
pub record PolicyRequestMetadata : Type 0 where
  pub request_id : ℕ
  pub client_id : Text
  pub environment : Text
  pub workload : Text
  pub risk_level : RiskLevel
  pub data_classification : DataClassification
  pub context_tokens_estimated : ℕ
  pub max_output_tokens_estimated : ℕ
  pub structured_output_required : Bool
  pub max_latency_ms : ℕ
  pub max_cost_usd : Decimal
  pub runtime_authorization : Option SignedBinding

abbrev same_flag : Bool → Bool → Bool
same_flag true b = b
same_flag false b = not b

-- `_require_signed_binding_agreement`: every signed value is the requested one.
unfoldable pub agrees : PolicyRequestMetadata → SignedBinding → Bool
agrees m s =
    text_eq s.workload m.workload
    && same RiskLevel-discrete s.risk_level m.risk_level
    && same DataClassification-discrete s.data_classification m.data_classification
    && s.context_tokens_estimated == m.context_tokens_estimated
    && s.max_output_tokens_estimated == m.max_output_tokens_estimated
    && same_flag s.structured_output_required m.structured_output_required
    && s.max_latency_ms == m.max_latency_ms
    && dec_eqb (mul m.max_cost_usd (of_ℕ 1000000)) (of_ℕ s.max_cost_usd_micros)

abbrev binding_agrees : PolicyRequestMetadata → Option SignedBinding → Bool
binding_agrees m none = true
binding_agrees m (some s) = agrees m s

abbrev is_zero : Decimal → Bool
is_zero d = d.coefficient == 0

-- `PolicyRequestMetadata.__post_init__`.
unfoldable pub check_metadata : PolicyRequestMetadata → Result Error PolicyRequestMetadata
check_metadata m = do
  raise_if (not (is_normalized m.client_id)) value_error
  raise_if (not (is_normalized m.environment)) value_error
  raise_if (not (is_normalized m.workload)) value_error
  raise_if (m.max_output_tokens_estimated == 0) value_error
  raise_if (m.max_latency_ms == 0) value_error
  raise_if (is_zero m.max_cost_usd) value_error
  raise_if (not (binding_agrees m m.runtime_authorization)) value_error
  ok m

-- `min(caller, default)`: the caller's value unless the default is smaller.
abbrev pub stricter : Option ℕ → ℕ → ℕ
stricter none default = default
stricter (some caller) default = if ltb default caller then default else caller

abbrev pub stricter_cost : Option Decimal → Decimal → Decimal
stricter_cost none default = default
stricter_cost (some caller) default = if dec_ltb default caller then default else caller

abbrev is_zero_cost : Option Decimal → Bool
is_zero_cost none = false
is_zero_cost (some caller) = is_zero caller

-- The last lines of `project_policy_request`.
unfoldable pub metadata_of :
    GatewayRequest
    → EffectivePolicyContext
    → ℕ
    → ℕ
    → PolicyProjectionDefaults
    → Option SignedBinding
    → PolicyRequestMetadata
metadata_of request context context_tokens output_tokens defaults signed = record {
  request_id = request.request_id;
  client_id = context.client_id;
  environment = context.environment;
  workload = context.workload;
  risk_level = context.risk_level;
  data_classification = context.data_classification;
  context_tokens_estimated = context_tokens;
  max_output_tokens_estimated = output_tokens;
  structured_output_required = request.requirements.structured_output;
  max_latency_ms = stricter request.limits.max_latency_ms defaults.max_latency_ms;
  max_cost_usd = stricter_cost request.limits.max_cost_usd defaults.max_cost_usd;
  runtime_authorization = signed;
}

-- `project_policy_request`.
unfoldable pub project_policy_request :
    GatewayRequest
    → EffectivePolicyContext
    → ℕ
    → ℕ
    → PolicyProjectionDefaults
    → Option SignedBinding
    → Result Error PolicyRequestMetadata
unfolding metadata_of check_metadata
project_policy_request request context context_tokens output_tokens defaults signed = do
  raise_if (request.request_id == 0) projection_error
  raise_if (not (text_eq context.workload request.workload)) projection_error
  raise_if (not (is_normalized context.client_id)) projection_error
  raise_if (not (is_normalized context.environment)) projection_error
  raise_if (output_tokens == 0) projection_error
  raise_if (is_zero_cost request.limits.max_cost_usd) projection_error
  check_metadata (metadata_of request context context_tokens output_tokens defaults signed)

-- `PolicyAuthorization`.
pub record PolicyAuthorization : Type 0 where
  pub decision_id : Text
  pub authorized_model_groups : List Text

-- `PolicyProvenance`.
pub record PolicyProvenance : Type 0 where
  pub decision_id : Text
  pub policy_id : Text
  pub policy_version : Text
  pub policy_digest : Text

-- The fields of `PolicyAuthorizationDecision` that the gateway reads afterwards.
pub record PolicyAuthorizationDecision : Type 0 where
  pub authorization : PolicyAuthorization
  pub provenance : PolicyProvenance
  pub environment : Text

-- `AuthorizedCandidateSet`.
pub record AuthorizedCandidateSet : Type 0 where
  pub policy : PolicyAuthorizationDecision
  pub registry_digest : Text
  pub candidates : List ModelDeployment

-- `x in groups`.
abbrev pub is_in : Text → List Text → Bool
is_in = contains Text-discrete

unfoldable pub all_in : List Text → List Text → Bool
all_in [] groups = true
all_in (g ∷ gs) groups = is_in g groups && all_in gs groups

-- `enforce_allowed_subset`.
unfoldable pub enforce_allowed_subset : List Text → List Text → Result Error (Unit {0})
unfolding all_in
enforce_allowed_subset gateway_allowed authorized =
    raise_if (not (all_in gateway_allowed authorized)) boundary_violation

-- `enforce_selected_group`.
unfoldable pub enforce_selected_group : Text → PolicyAuthorization → Result Error (Unit {0})
enforce_selected_group selected authorization =
    raise_if (not (is_in selected authorization.authorized_model_groups)) boundary_violation

unfoldable pub in_groups : List Text → List ModelDeployment → List ModelDeployment
in_groups groups [] = []
in_groups groups (d ∷ ds) =
    if is_in d.model_group groups then d ∷ in_groups groups ds else in_groups groups ds

unfoldable pub groups_of : List ModelDeployment → List Text
groups_of [] = []
groups_of (d ∷ ds) = d.model_group ∷ groups_of ds

-- `authorized_registry_candidates`.
unfoldable pub authorized_registry_candidates :
    ModelRegistry → PolicyAuthorization → Result Error (List ModelDeployment)
unfolding in_groups groups_of enforce_allowed_subset
authorized_registry_candidates registry authorization = do
  let candidates = in_groups authorization.authorized_model_groups registry.deployments
  enforce_allowed_subset (groups_of candidates) authorization.authorized_model_groups
  ok candidates

-- `except KeyError` turns an unknown identifier into a boundary violation.
abbrev pub or_violation : Result Error ModelDeployment → Result Error ModelDeployment
or_violation (ok d) = ok d
or_violation (raised e) = raised boundary_violation

-- The provider call, with the models that it was made for.
abbrev pub call_provider :
    {R : Type 0} (generate : Text → ℕ → Result Error R)
    → ℕ
    → Result Error ModelDeployment
    → Result Error (ModelDeployment × R) × List Text
call_provider generate output_tokens (raised e) = (raised e, [])
call_provider generate output_tokens (ok d) =
    (generate d.model_id output_tokens >>= (λ r. ok (d, r)), d.model_id ∷ [])

-- What the gateway is connected to: the decision point, and the hash of a registry.
pub record Environment : Type 0 where
  pub authorize : PolicyRequestMetadata → Result Error PolicyAuthorizationDecision
  pub registry_digest : ModelRegistry → Text

module _ (env : Environment) where
  -- `authorize_candidates`.
  unfoldable pub authorize_candidates :
      GatewayRequest
      → EffectivePolicyContext
      → ModelRegistry
      → ℕ
      → ℕ
      → PolicyProjectionDefaults
      → Option SignedBinding
      → Result Error AuthorizedCandidateSet
  authorize_candidates request context registry context_tokens output_tokens defaults signed = do
    metadata ← project_policy_request request context context_tokens output_tokens defaults signed
    decision ← env.authorize metadata
    candidates ← authorized_registry_candidates registry decision.authorization
    ok (record {
      policy = decision;
      registry_digest = env.registry_digest registry;
      candidates = candidates;
    })

  -- The choice that `execute_selected` makes before it calls the provider.
  unfoldable pub select_authorized :
      GatewayRequest
      → EffectivePolicyContext
      → ModelRegistry
      → Text
      → ℕ
      → ℕ
      → PolicyProjectionDefaults
      → Option SignedBinding
      → Result Error ModelDeployment
  select_authorized request context registry selected context_tokens output_tokens defaults signed =
      do
        authorized ←
            authorize_candidates request context registry context_tokens output_tokens defaults
              signed
        deployment ← or_violation (by_id registry selected)
        enforce_selected_group deployment.model_group authorized.policy.authorization
        raise_if (not (contains ModelDeployment-discrete deployment authorized.candidates))
            boundary_violation
        ok deployment

  -- `execute_selected`: the response and the deployment that served it, and the models that the
  -- provider was called for.
  unfoldable pub execute_selected :
      {R : Type 0} (generate : Text → ℕ → Result Error R)
      → GatewayRequest
      → EffectivePolicyContext
      → ModelRegistry
      → Text
      → ℕ
      → ℕ
      → PolicyProjectionDefaults
      → Option SignedBinding
      → Result Error (ModelDeployment × R) × List Text
  execute_selected generate request context registry selected context_tokens output_tokens defaults
        signed =
      call_provider generate output_tokens (
        select_authorized request context registry selected context_tokens output_tokens defaults
          signed)
