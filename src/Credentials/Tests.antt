-- ===== src/Credentials/Tests.antt =====
-- Samples of credential availability, and the theorems at them.
use governed_llm_gateway.Base.{
  ℕ_discrete, ◌≢◌, ◌≡◌, refl, none, some, List, [], ◌∷◌, Text, Text-discrete, codes, ok, lookup,
  insert,
}
use governed_llm_gateway.Spend.{is_opaque_id}
use governed_llm_gateway.Credentials.{
  CredentialGeneration, CredentialGenerationPublication, CredentialAdmission,
  CredentialBindingRejection, explicit_invalid_credential, available, quarantined,
  CredentialAvailabilityState-discrete, CredentialGeneration-discrete,
  CredentialGenerationPublication-discrete, OptionGeneration-discrete, OptionText-discrete,
  is_candidate_eligible, matches_admission,
}
use governed_llm_gateway.Credentials.Memory.{
  gives, fresh, Material-discrete, then_with, ◌>>=◌, accept_now, now_of, new_fence, is_minted,
  is_valid_owner, is_valid_receipt, is_valid_record, checked_record, record_of, live_of, matches,
  require_opaque_id, projected, snapshot, validation, claim, recheck, admit_found, admit,
  release_found, release, matched_receipt, complete_owned, complete_new, complete_found,
  complete_validation, reject_found, record_rejection, is_published, current_generation,
  publish_found, publish,
}
use governed_llm_gateway.Credentials.History.{
  Operation, publishes, admits, completes, rejects, perform, run,
}
use governed_llm_gateway.Credentials.Sound.{IsSound}
use governed_llm_gateway.Credentials.Denied.{rejected-denied}
use governed_llm_gateway.Credentials.Readable.{fresh-IsSound, history-IsSound}

abbrev binding : Text
binding = codes "binding-a"

abbrev generation : CredentialGeneration
generation = record {
  binding_id = binding;
  epoch = 1;
  material_id = codes "material-a";
  secret_version_id = codes "version-a";
  runtime_digest = codes "sha256:a";
  auth_scope_digest = codes "sha256:b";
}

abbrev publication : CredentialGenerationPublication
publication = record { generation = generation; expected_generation = none }

abbrev attempt : Text
attempt = codes "attempt-1"

abbrev rejection : CredentialBindingRejection
rejection = record {
  generation = generation;
  evidence = explicit_invalid_credential;
  classifier_id = codes "classifier-1";
}

abbrev admission : CredentialAdmission
admission = validation generation attempt (codes "f1") 5

-- Published, claimed for validation, completed.
abbrev validated : List Operation
validated =
    publishes publication
    ∷ admits (gives 3) (gives (codes "f1")) generation attempt
    ∷ completes (gives 4) (gives (codes "f2")) admission
    ∷ []

-- Published, and claimed for validation until 8.
abbrev claimed_by_one : List Operation
claimed_by_one =
    publishes publication ∷ admits (gives 3) (gives (codes "f1")) generation attempt ∷ []

-- Rejected during the validation.
abbrev condemned : List Operation
condemned =
    publishes publication
    ∷ admits (gives 3) (gives (codes "f1")) generation attempt
    ∷ rejects rejection
    ∷ completes (gives 4) (gives (codes "f2")) admission
    ∷ []

test_validated :
    (snapshot (gives 9) binding (run validated (fresh 5))).0
    ≡ ok (record { binding_id = binding; state = available; generation = some generation })
unfolding is_opaque_id CredentialAvailabilityState-discrete CredentialGeneration-discrete
    CredentialGenerationPublication-discrete OptionGeneration-discrete OptionText-discrete
    is_candidate_eligible matches_admission Material-discrete then_with ◌>>=◌ accept_now now_of
    new_fence is_minted is_valid_owner is_valid_receipt is_valid_record checked_record record_of
    live_of matches require_opaque_id projected snapshot claim recheck admit_found admit
    release_found release matched_receipt complete_owned complete_new complete_found
    complete_validation reject_found record_rejection is_published current_generation publish_found
    publish perform run ℕ_discrete Text-discrete lookup insert
test_validated = refl

-- A rejection during the validation ends it: the completion comes too late.
test_condemned :
    (snapshot (gives 9) binding (run condemned (fresh 5))).0
    ≡ ok (record { binding_id = binding; state = quarantined; generation = some generation })
unfolding is_opaque_id CredentialAvailabilityState-discrete CredentialGeneration-discrete
    CredentialGenerationPublication-discrete OptionGeneration-discrete OptionText-discrete
    is_candidate_eligible matches_admission Material-discrete then_with ◌>>=◌ accept_now now_of
    new_fence is_minted is_valid_owner is_valid_receipt is_valid_record checked_record record_of
    live_of matches require_opaque_id projected snapshot claim recheck admit_found admit
    release_found release matched_receipt complete_owned complete_new complete_found
    complete_validation reject_found record_rejection is_published current_generation publish_found
    publish perform run ℕ_discrete Text-discrete lookup insert
test_condemned = refl

-- While an attempt validates, another one is not admitted, until the lease has ended.
test_second_attempt :
    (admit
      (gives 7)
      (gives (codes "f2"))
      generation
      (codes "attempt-2")
      (run claimed_by_one (fresh 5))).0
    ≡ ok none
unfolding is_opaque_id CredentialAvailabilityState-discrete CredentialGeneration-discrete
    CredentialGenerationPublication-discrete OptionGeneration-discrete OptionText-discrete
    is_candidate_eligible matches_admission Material-discrete then_with ◌>>=◌ accept_now now_of
    new_fence is_minted is_valid_owner is_valid_receipt is_valid_record checked_record record_of
    live_of matches require_opaque_id projected snapshot claim recheck admit_found admit
    release_found release matched_receipt complete_owned complete_new complete_found
    complete_validation reject_found record_rejection is_published current_generation publish_found
    publish perform run ℕ_discrete Text-discrete lookup insert
test_second_attempt = refl

test_expired :
    (admit
      (gives 8)
      (gives (codes "f2"))
      generation
      (codes "attempt-2")
      (run claimed_by_one (fresh 5))).0
    ≡ ok (some (validation generation (codes "attempt-2") (codes "f2") 5))
unfolding is_opaque_id CredentialAvailabilityState-discrete CredentialGeneration-discrete
    CredentialGenerationPublication-discrete OptionGeneration-discrete OptionText-discrete
    is_candidate_eligible matches_admission Material-discrete then_with ◌>>=◌ accept_now now_of
    new_fence is_minted is_valid_owner is_valid_receipt is_valid_record checked_record record_of
    live_of matches require_opaque_id projected snapshot claim recheck admit_found admit
    release_found release matched_receipt complete_owned complete_new complete_found
    complete_validation reject_found record_rejection is_published current_generation publish_found
    publish perform run ℕ_discrete Text-discrete lookup insert
test_expired = refl

history-IsSound_example : IsSound (run condemned (fresh 5))
history-IsSound_example = history-IsSound condemned (fresh 5) (fresh-IsSound 5)

-- A later version of the secret, with the same material.
abbrev next_generation : CredentialGeneration
next_generation = record generation { epoch = 2; secret_version_id = codes "version-b" }

abbrev next_publication : CredentialGenerationPublication
next_publication = record { generation = next_generation; expected_generation = some generation }

rejected-denied_example :
    (admit (gives 9) (gives (codes "f3")) next_generation attempt (
      run
        (publishes next_publication ∷ [])
        (record_rejection rejection (run validated (fresh 5))).1)).0
    ≢ ok (some admission)
unfolding is_opaque_id CredentialAvailabilityState-discrete CredentialGeneration-discrete
    CredentialGenerationPublication-discrete OptionGeneration-discrete OptionText-discrete
    is_candidate_eligible matches_admission Material-discrete then_with ◌>>=◌ accept_now now_of
    new_fence is_minted is_valid_owner is_valid_receipt is_valid_record checked_record record_of
    live_of matches require_opaque_id projected snapshot claim recheck admit_found admit
    release_found release matched_receipt complete_owned complete_new complete_found
    complete_validation reject_found record_rejection is_published current_generation publish_found
    publish perform run ℕ_discrete Text-discrete lookup insert
rejected-denied_example =
    rejected-denied rejection (run validated (fresh 5)) (publishes next_publication ∷ []) (gives 9)
      (gives (codes "f3")) next_generation attempt admission refl refl refl
