-- ===== src/Credentials/Completing.antt =====
-- `release` and `complete_validation` on a sound store:
-- packages/gateway-core/src/governed_llm_gateway_core/adapters/credential_availability_memory.py.
use governed_llm_gateway.Base.{
  ℕ, ◌≡◌, refl, subst, ◌≢◌, true, Option, none, some, Text, Text-discrete, same, lookup, arith,
  same-true,
}
use governed_llm_gateway.Credentials.{
  CredentialAvailabilityState, pending_validation, validating, available, CredentialGeneration,
  CredentialAdmission, CredentialCompletionReceipt, CredentialGeneration-discrete,
  CredentialAvailabilityState-discrete,
}
use governed_llm_gateway.Credentials.Memory.{
  Answer, ValidationOwner, BindingRecord, Store, is_minted, is_valid_owner, is_valid_receipt,
  is_valid_record, put, release_found, matches, matches_owner, complete_owned, complete_new,
  matched_receipt, complete_found, is_used, completed, owns,
}
use governed_llm_gateway.Credentials.Sound.{IsSound, valid_grows, write-IsSound}
use governed_llm_gateway.Credentials.Admitting.{
  if_keeps, if_keeps_store, retarget-valid, no_receipt, owned_facts, with_used, used_more, used_new,
  valid_used, mint-keeps, no_receipt-valid,
}

-- A write of a valid record, and nothing else.
pub put-IsSound :
    (s : Store) (b : Text) (r : BindingRecord)
    → IsSound s
    → is_valid_record s b r ≡ true
    → IsSound (put b r s)
put-IsSound s b r sound valid =
    write-IsSound s (put b r s) b r sound refl (λ j h e. e)
      (λ j q h v. valid_grows s (put b r s) j q (λ g p. p) refl (λ f p. p) v)
      (valid_grows s (put b r s) b r (λ g p. p) refl (λ f p. p) valid)

pub matches-owner :
    (owner : Option ValidationOwner) (g : CredentialGeneration) (admission : CredentialAdmission)
    → matches owner g admission ≡ true
    → (o : ValidationOwner) × (owner ≡ some o)
      × (o.admission.validation_fence ≡ admission.validation_fence)
unfolding matches
matches-owner none g admission h = cc
matches-owner (some o) g admission h = (o, refl, ground arith)

-- The owner of a valid record takes it out of validation, under a fence that the store minted.
pub matches-facts :
    (s : Store) (b : Text) (r : BindingRecord) (admission : CredentialAdmission)
    → is_valid_record s b r ≡ true
    → matches_owner r admission ≡ true
    → (r.state ≡ validating) × (is_minted s admission.validation_fence ≡ true)
matches-facts s b r admission valid h =
    let (o, e, same_fence) = matches-owner r.owner r.generation admission h in
    let facts = owned_facts s b r o valid e in
    (facts.0, subst (λ f. is_minted s f ≡ true) same_fence facts.1)

pub no_owner-valid :
    (s : Store) (g : CredentialGeneration) (state : CredentialAvailabilityState)
    → state ≢ validating
    → is_valid_owner s g state none ≡ true
unfolding is_valid_owner
no_owner-valid s g state h = ground arith

pub release_found-keeps :
    (admission : CredentialAdmission) (found : Option BindingRecord) (s : Store)
    → IsSound s
    → lookup Text-discrete admission.generation.binding_id s.records ≡ found
    → IsSound (release_found admission found s).1
unfolding release_found
release_found-keeps admission none s sound e = sound
release_found-keeps admission (some r) s sound e =
    if_keeps_store (matches_owner r admission) _ _
      (λ h.
        let valid = sound.valid admission.generation.binding_id r e in
        let facts = matches-facts s admission.generation.binding_id r admission valid h in
        put-IsSound s admission.generation.binding_id _ sound (
          retarget-valid s admission.generation.binding_id r pending_validation none r.receipt valid
            (λ p. ground (arith, facts.0)) (λ p. cc) (λ p. cc)
            (no_owner-valid s r.generation pending_validation (λ p. cc))
            (no_receipt-valid s r.generation pending_validation r.receipt
              (no_receipt s admission.generation.binding_id r valid (λ p. ground (arith, facts.0)))
              (λ p. cc))))
      (λ h. sound)

pub new_receipt-valid :
    (s : Store) (h : CredentialGeneration) (admission : CredentialAdmission) (fence hex : Text)
    → h ≡ admission.generation
    → is_used s fence ≡ true
    → is_valid_receipt (with_used hex s) h available (some (completed admission fence hex)) ≡ true
unfolding is_valid_receipt CredentialAvailabilityState-discrete
new_receipt-valid s h admission fence hex e used =
    ground (arith, used_new s hex, used_more s hex fence used)

pub complete_owned-keeps :
    (uuid : Answer Text) (admission : CredentialAdmission) (fence : Option Text) (r : BindingRecord)
    (s : Store)
    → IsSound s
    → is_valid_record s admission.generation.binding_id r ≡ true
    → r.generation ≡ admission.generation
    → r.state ≡ validating
    → is_minted s fence ≡ true
    → IsSound (complete_owned uuid admission fence r s).1
unfolding complete_owned is_minted
complete_owned-keeps uuid admission none r s sound valid e h used = sound
complete_owned-keeps uuid admission (some fence) r s sound valid e h used =
    mint-keeps uuid admission.generation.binding_id _ _ s sound (λ hex.
      retarget-valid (with_used hex s) admission.generation.binding_id r available none
        (some (completed admission fence hex))
        (valid_used s hex admission.generation.binding_id r valid) (λ p. ground (arith, h))
        (λ p. cc) (λ p. cc) (no_owner-valid (with_used hex s) r.generation available (λ p. cc))
        (new_receipt-valid s r.generation admission fence hex e used))

pub complete_new-keeps :
    (uuid : Answer Text) (admission : CredentialAdmission) (now : ℕ) (r : BindingRecord)
    (receipt : Option CredentialCompletionReceipt) (s : Store)
    → IsSound s
    → is_valid_record s admission.generation.binding_id r ≡ true
    → r.generation ≡ admission.generation
    → IsSound (complete_new uuid admission now r receipt s).1
unfolding complete_new
complete_new-keeps uuid admission now r (some receipt) s sound valid e = sound
complete_new-keeps uuid admission now r none s sound valid e =
    if_keeps (owns r admission now) _ _
      (λ h.
        let b = admission.generation.binding_id in
        let facts = matches-facts s b r admission valid (ground arith) in
        complete_owned-keeps uuid admission admission.validation_fence r s sound valid e facts.0
          facts.1)
      (λ h. sound)

pub complete_found-keeps :
    (uuid : Answer Text) (admission : CredentialAdmission) (now : ℕ) (found : Option BindingRecord)
    (s : Store)
    → IsSound s
    → lookup Text-discrete admission.generation.binding_id s.records ≡ found
    → IsSound (complete_found uuid admission now found s).1
unfolding complete_found
complete_found-keeps uuid admission now none s sound e = sound
complete_found-keeps uuid admission now (some r) s sound e =
    if_keeps (same CredentialGeneration-discrete r.generation admission.generation) _ _
      (λ h.
        complete_new-keeps uuid admission now r (matched_receipt admission r.receipt) s sound
          (sound.valid admission.generation.binding_id r e)
          (same-true CredentialGeneration-discrete r.generation admission.generation h))
      (λ h. sound)
