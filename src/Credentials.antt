-- ===== src/Credentials.antt =====
-- Values of credential availability:
-- packages/gateway-core/src/governed_llm_gateway_core/domain/credential_availability.py. A UUID's
-- text, a generation and a publication are taken as constructed. Time is in ticks.
pub mod Memory
pub mod History
mod Sound
mod Admitting
mod Completing
mod Publishing
mod Readable
mod Denied
mod Tests
use governed_llm_gateway.Base.{
  ℕ, ℕ_discrete, Bool, true, false, ◌&&◌, ◌||◌, not, Option, none, some, Text, Text-discrete,
  Result, ok, raised, same, is_none,
}

-- `CredentialAvailabilityState`.
pub data CredentialAvailabilityState : Type 0 where
  unknown pending_validation validating available quarantined : CredentialAvailabilityState

unfoldable pub CredentialAvailabilityState-discrete : Discrete CredentialAvailabilityState
CredentialAvailabilityState-discrete = hlevel

-- `CredentialGeneration`.
pub record CredentialGeneration : Type 0 where
  pub binding_id : Text
  pub epoch : ℕ
  pub material_id : Text
  pub secret_version_id : Text
  pub runtime_digest : Text
  pub auth_scope_digest : Text

unfoldable pub CredentialGeneration-discrete : Discrete CredentialGeneration
CredentialGeneration-discrete = hlevel (ℕ_discrete, Text-discrete)

-- `CredentialGenerationPublication`.
pub record CredentialGenerationPublication : Type 0 where
  pub generation : CredentialGeneration
  pub expected_generation : Option CredentialGeneration

unfoldable pub CredentialGenerationPublication-discrete : Discrete CredentialGenerationPublication
CredentialGenerationPublication-discrete = hlevel (CredentialGeneration-discrete)

-- `CredentialAvailabilitySnapshot`.
pub record CredentialAvailabilitySnapshot : Type 0 where
  pub binding_id : Text
  pub state : CredentialAvailabilityState
  pub generation : Option CredentialGeneration

unfoldable pub OptionGeneration-discrete : Discrete (Option CredentialGeneration)
OptionGeneration-discrete = hlevel (CredentialGeneration-discrete)

abbrev pub is_state : CredentialAvailabilityState → CredentialAvailabilityState → Bool
is_state wanted state = same CredentialAvailabilityState-discrete state wanted

-- `is_candidate_eligible`.
unfoldable pub is_candidate_eligible : CredentialAvailabilitySnapshot → CredentialGeneration → Bool
is_candidate_eligible snapshot generation =
    same OptionGeneration-discrete snapshot.generation (some generation)
    && (is_state pending_validation snapshot.state || is_state available snapshot.state)

-- `CredentialAdmission`.
pub record CredentialAdmission : Type 0 where
  pub generation : CredentialGeneration
  pub attempt_id : Text
  pub validation_fence : Option Text
  pub validation_timeout_seconds : Option ℕ

-- `is_validation`.
abbrev pub is_validation : CredentialAdmission → Bool
is_validation admission = not (is_none admission.validation_fence)

-- `CredentialCompletionReceipt`.
pub record CredentialCompletionReceipt : Type 0 where
  pub generation : CredentialGeneration
  pub attempt_id : Text
  pub validation_fence : Text
  pub completion_fence : Text

unfoldable pub CredentialCompletionReceipt-discrete : Discrete CredentialCompletionReceipt
CredentialCompletionReceipt-discrete = hlevel (Text-discrete, CredentialGeneration-discrete)

unfoldable pub OptionText-discrete : Discrete (Option Text)
OptionText-discrete = hlevel (Text-discrete)

-- `matches_admission`.
unfoldable pub matches_admission : CredentialCompletionReceipt → CredentialAdmission → Bool
matches_admission receipt admission =
    is_validation admission
    && same CredentialGeneration-discrete receipt.generation admission.generation
    && same Text-discrete receipt.attempt_id admission.attempt_id
    && same OptionText-discrete (some receipt.validation_fence) admission.validation_fence

-- `CredentialRejectionEvidence`.
pub data CredentialRejectionEvidence : Type 0 where
  authentication_boundary_rejected explicit_invalid_credential : CredentialRejectionEvidence

-- `CredentialBindingRejection`, of which the store reads the generation only.
pub record CredentialBindingRejection : Type 0 where
  pub generation : CredentialGeneration
  pub evidence : CredentialRejectionEvidence
  pub classifier_id : Text
