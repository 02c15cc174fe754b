-- ===== src/Credentials/Memory.antt =====
-- `InMemoryCredentialAvailabilityState` with its reader, worker and publisher:
-- packages/gateway-core/src/governed_llm_gateway_core/adapters/credential_availability_memory.py.
-- The lock makes each method one step. What the clock and `uuid4` answer in a method, which calls
-- either of them once at most, is an argument of it.
use governed_llm_gateway.Base.{
  ℕ, ◌+◌, ◌-◌, Bool, true, false, ◌&&◌, not, Option, none, some, List, [], ◌∷◌, ltb, leb, ◌==◌,
  Text, Text-discrete, Result, ok, raised, same, contains, if◌then◌else◌, is_none, Dict, lookup,
  insert,
}
use governed_llm_gateway.Spend.{is_opaque_id}
use governed_llm_gateway.Credentials.{
  CredentialAvailabilityState, unknown, pending_validation, validating, available, quarantined,
  CredentialGeneration, CredentialGenerationPublication, CredentialAvailabilitySnapshot,
  CredentialAdmission, CredentialCompletionReceipt, CredentialBindingRejection,
  CredentialGeneration-discrete, CredentialGenerationPublication-discrete,
  CredentialCompletionReceipt-discrete, OptionGeneration-discrete, OptionText-discrete, is_state,
  is_validation, matches_admission,
}

-- `CredentialContractError`, or a code of `CredentialAvailabilityError`.
pub data Failure : Type 0 where
  contract_error unavailable invalid_state : Failure

-- What a call of the clock or of `uuid4` ends in: an exception, a value that is refused by itself,
-- or a proper one.
pub data Answer (T : Type 0) : Type 0 where
  fails improper : Answer T
  gives : T → Answer T

-- `_ValidationOwner`.
pub record ValidationOwner : Type 0 where
  pub admission : CredentialAdmission
  pub expires_at : ℕ

-- `_BindingRecord`.
pub record BindingRecord : Type 0 where
  pub generation : CredentialGeneration
  pub publication : CredentialGenerationPublication
  pub state : CredentialAvailabilityState
  pub owner : Option ValidationOwner
  pub receipt : Option CredentialCompletionReceipt

-- The fields of `InMemoryCredentialAvailabilityState`. The sets are lists.
pub record Store : Type 0 where
  pub lease_seconds : ℕ
  pub last_now : Option ℕ
  pub records : Dict Text BindingRecord
  pub seen_bindings : List Text
  pub published : List CredentialGeneration
  pub rejected : List (Text × Text)
  pub used_fences : List Text

-- A state as constructed.
abbrev pub fresh : ℕ → Store
fresh lease = record {
  lease_seconds = lease;
  last_now = none;
  records = [];
  seen_bindings = [];
  published = [];
  rejected = [];
  used_fences = [];
}

-- `__init__`.
unfoldable pub init : ℕ → Result Failure Store
init lease = if lease == 0 then raised contract_error else ok (fresh lease)

unfoldable pub Material-discrete : Discrete (Text × Text)
Material-discrete = hlevel (Text-discrete)

abbrev pub Call : Type 0 → Type 0
Call A = Store → Result Failure A × Store

unfoldable pub then_with :
    {A B : Type 0} → (A → Call B) → Result Failure A × Store → Result Failure B × Store
then_with rest (ok a, s) = rest a s
then_with rest (raised e, s) = (raised e, s)

infixl 5 ◌>>=◌
unfoldable pub ◌>>=◌ : {A B : Type 0} → Call A → (A → Call B) → Call B
unfolding then_with
(first >>= rest) s = then_with rest (first s)

unfoldable pub accept_now : ℕ → Option ℕ → Store → Result Failure ℕ × Store
accept_now value none s = (ok value, record s { last_now = some value })
accept_now value (some last) s =
    if ltb value last
    then (raised invalid_state, s)
    else (ok value, record s { last_now = some value })

-- `_now`.
unfoldable pub now_of : Answer ℕ → Call ℕ
unfolding accept_now
now_of fails s = (raised unavailable, s)
now_of improper s = (raised invalid_state, s)
now_of (gives value) s = accept_now value s.last_now s

-- `_new_fence`.
unfoldable pub new_fence : Answer Text → Call Text
new_fence fails s = (raised unavailable, s)
new_fence improper s = (raised invalid_state, s)
new_fence (gives hex) s =
    if contains Text-discrete hex s.used_fences
    then (raised invalid_state, s)
    else (ok hex, record s { used_fences = hex ∷ s.used_fences })

abbrev pub is_rejected : Store → Text → Text → Bool
is_rejected s binding material = contains Material-discrete (binding, material) s.rejected

abbrev pub is_used : Store → Text → Bool
is_used s fence = contains Text-discrete fence s.used_fences

-- The fence of a validation is one that the store minted.
unfoldable pub is_minted : Store → Option Text → Bool
is_minted s none = false
is_minted s (some fence) = is_used s fence

-- `_record` on the owner: one while validating, and none otherwise.
unfoldable pub is_valid_owner :
    Store → CredentialGeneration → CredentialAvailabilityState → Option ValidationOwner → Bool
unfolding is_minted
is_valid_owner s g state none = not (is_state validating state)
is_valid_owner s g state (some owner) =
    is_state validating state
    && same CredentialGeneration-discrete owner.admission.generation g
    && is_minted s owner.admission.validation_fence
    && ltb 0 owner.expires_at

-- `_record` on the receipt: one while available, and none otherwise.
unfoldable pub is_valid_receipt :
    Store
    → CredentialGeneration
    → CredentialAvailabilityState
    → Option CredentialCompletionReceipt
    → Bool
is_valid_receipt s g state none = not (is_state available state)
is_valid_receipt s g state (some receipt) =
    is_state available state
    && same CredentialGeneration-discrete receipt.generation g
    && is_used s receipt.validation_fence
    && is_used s receipt.completion_fence

-- The tests of `_record` on a record that is present.
unfoldable pub is_valid_record : Store → Text → BindingRecord → Bool
is_valid_record s binding r =
    same Text-discrete r.generation.binding_id binding
    && contains CredentialGeneration-discrete r.generation s.published
    && same CredentialGeneration-discrete r.publication.generation r.generation
    && not (is_state unknown r.state)
    && (if is_rejected s binding r.generation.material_id
        then is_state quarantined r.state
        else not (is_state quarantined r.state))
    && is_valid_owner s r.generation r.state r.owner
    && is_valid_receipt s r.generation r.state r.receipt

unfoldable pub checked_record :
    Store → Text → Option BindingRecord → Result Failure (Option BindingRecord)
checked_record s binding none =
    if contains Text-discrete binding s.seen_bindings then raised invalid_state else ok none
checked_record s binding (some r) =
    if is_valid_record s binding r then ok (some r) else raised invalid_state

-- `_record`.
unfoldable pub record_of : Text → Call (Option BindingRecord)
unfolding checked_record
record_of binding s = (checked_record s binding (lookup Text-discrete binding s.records), s)

-- `self._state._records[binding_id] = record`.
abbrev pub put : Text → BindingRecord → Store → Store
put binding r s = record s { records = insert Text-discrete binding r s.records }

unfoldable pub live_of : Option ValidationOwner → ℕ → Option ValidationOwner
live_of none now = none
live_of (some owner) now = if ltb now owner.expires_at then some owner else none

-- `_live_owner`.
abbrev pub live_owner : BindingRecord → ℕ → Option ValidationOwner
live_owner r now = live_of r.owner now

unfoldable pub matches : Option ValidationOwner → CredentialGeneration → CredentialAdmission → Bool
matches none generation admission = false
matches (some owner) generation admission =
    is_validation admission
    && same CredentialGeneration-discrete generation admission.generation
    && same Text-discrete owner.admission.attempt_id admission.attempt_id
    && same OptionText-discrete owner.admission.validation_fence admission.validation_fence

-- `_matches_owner`.
abbrev pub matches_owner : BindingRecord → CredentialAdmission → Bool
matches_owner r admission = matches r.owner r.generation admission

-- `_owns`.
abbrev pub owns : BindingRecord → CredentialAdmission → ℕ → Bool
owns r admission now = not (is_none (live_owner r now)) && matches_owner r admission

-- The constructor's test of an identifier.
unfoldable pub require_opaque_id : Text → Call (Unit {0})
unfolding is_opaque_id
require_opaque_id value s = if is_opaque_id value then (ok tt, s) else (raised contract_error, s)

unfoldable pub projected : Text → ℕ → Option BindingRecord → CredentialAvailabilitySnapshot
projected binding now none = record { binding_id = binding; state = unknown; generation = none }
projected binding now (some r) = record {
  binding_id = binding;
  state =
      if is_state validating r.state && is_none (live_owner r now)
      then pending_validation
      else r.state;
  generation = some r.generation;
}

-- `snapshot`.
unfoldable pub snapshot : Answer ℕ → Text → Call CredentialAvailabilitySnapshot
snapshot reading binding = require_opaque_id binding >>= λ done.
    now_of reading >>= λ now. record_of binding >>= λ found s. (ok (projected binding now found), s)

abbrev pub ordinary : CredentialGeneration → Text → CredentialAdmission
ordinary generation attempt_id = record {
  generation = generation;
  attempt_id = attempt_id;
  validation_fence = none;
  validation_timeout_seconds = none;
}

-- The admission of a new validation.
abbrev pub validation : CredentialGeneration → Text → Text → ℕ → CredentialAdmission
validation generation attempt_id fence lifetime = record {
  generation = generation;
  attempt_id = attempt_id;
  validation_fence = some fence;
  validation_timeout_seconds = some lifetime;
}

unfoldable pub claim :
    Answer Text
    → CredentialGeneration
    → Text
    → ℕ
    → BindingRecord
    → Call (Option CredentialAdmission)
claim uuid generation attempt_id now r s =
    let deadline = now + s.lease_seconds in
    if leb deadline now
    then (raised invalid_state, s)
    else (new_fence uuid >>= λ fence t.
          let admission = validation generation attempt_id fence (deadline - now) in
          (
            ok (some admission),
            put generation.binding_id
                (record r {
                  state = validating;
                  owner = some (record { admission = admission; expires_at = deadline });
                })
                t,
          ))
        s

unfoldable pub recheck :
    Answer Text
    → CredentialGeneration
    → Text
    → ℕ
    → BindingRecord
    → Option ValidationOwner
    → Call (Option CredentialAdmission)
recheck uuid generation attempt_id now r none s = claim uuid generation attempt_id now r s
recheck uuid generation attempt_id now r (some owner) s =
    if same Text-discrete owner.admission.attempt_id attempt_id
    then (
      ok (
          some (record owner.admission {
            validation_timeout_seconds = some (owner.expires_at - now);
          })),
      s,
    )
    else (ok none, s)

unfoldable pub admit_found :
    Answer Text
    → CredentialGeneration
    → Text
    → ℕ
    → Option BindingRecord
    → Call (Option CredentialAdmission)
admit_found uuid generation attempt_id now none s = (ok none, s)
admit_found uuid generation attempt_id now (some r) s =
    if not (same CredentialGeneration-discrete r.generation generation)
    then (ok none, s)
    else if is_state available r.state
    then (ok (some (ordinary generation attempt_id)), s)
    else if is_state quarantined r.state
    then (ok none, s)
    else recheck uuid generation attempt_id now r (live_owner r now) s

-- `admit`.
unfoldable pub admit :
    Answer ℕ → Answer Text → CredentialGeneration → Text → Call (Option CredentialAdmission)
admit reading uuid generation attempt_id = require_opaque_id attempt_id >>= λ done.
    now_of reading >>= λ now.
    record_of generation.binding_id >>= admit_found uuid generation attempt_id now

unfoldable pub still_admitted : CredentialAdmission → ℕ → Option BindingRecord → Bool
still_admitted admission now none = false
still_admitted admission now (some r) =
    same CredentialGeneration-discrete r.generation admission.generation
    && (if is_validation admission then owns r admission now else is_state available r.state)

-- `is_admitted`.
unfoldable pub is_admitted : Answer ℕ → CredentialAdmission → Call Bool
is_admitted reading admission = now_of reading >>= λ now.
    record_of admission.generation.binding_id >>= λ found s.
    (ok (still_admitted admission now found), s)

unfoldable pub release_found : CredentialAdmission → Option BindingRecord → Call (Unit {0})
release_found admission none s = (ok tt, s)
release_found admission (some r) s = (
  ok tt,
  if matches_owner r admission
      then put admission.generation.binding_id
          (record r { state = pending_validation; owner = none }) s
      else s,
)

-- `release`.
unfoldable pub release : CredentialAdmission → Call (Unit {0})
release admission = record_of admission.generation.binding_id >>= release_found admission

unfoldable pub matched_receipt :
    CredentialAdmission → Option CredentialCompletionReceipt → Option CredentialCompletionReceipt
matched_receipt admission none = none
matched_receipt admission (some receipt) =
    if matches_admission receipt admission then some receipt else none

-- The receipt of a completed validation.
abbrev pub completed : CredentialAdmission → Text → Text → CredentialCompletionReceipt
completed admission fence completion = record {
  generation = admission.generation;
  attempt_id = admission.attempt_id;
  validation_fence = fence;
  completion_fence = completion;
}

unfoldable pub complete_owned :
    Answer Text
    → CredentialAdmission
    → Option Text
    → BindingRecord
    → Call (Option CredentialCompletionReceipt)
complete_owned uuid admission none r s = (ok none, s)
complete_owned uuid admission (some fence) r s =
    (new_fence uuid >>= λ completion t.
    let receipt = completed admission fence completion in
    (
      ok (some receipt),
      put admission.generation.binding_id
          (record r { state = available; owner = none; receipt = some receipt }) t,
    ))
      s

unfoldable pub complete_new :
    Answer Text
    → CredentialAdmission
    → ℕ
    → BindingRecord
    → Option CredentialCompletionReceipt
    → Call (Option CredentialCompletionReceipt)
complete_new uuid admission now r (some receipt) s = (ok (some receipt), s)
complete_new uuid admission now r none s =
    if owns r admission now
    then complete_owned uuid admission admission.validation_fence r s
    else (ok none, s)

unfoldable pub complete_found :
    Answer Text
    → CredentialAdmission
    → ℕ
    → Option BindingRecord
    → Call (Option CredentialCompletionReceipt)
complete_found uuid admission now none s = (ok none, s)
complete_found uuid admission now (some r) s =
    if same CredentialGeneration-discrete r.generation admission.generation
    then complete_new uuid admission now r (matched_receipt admission r.receipt) s
    else (ok none, s)

-- `complete_validation`.
unfoldable pub complete_validation :
    Answer ℕ → Answer Text → CredentialAdmission → Call (Option CredentialCompletionReceipt)
complete_validation reading uuid admission = now_of reading >>= λ now.
    record_of admission.generation.binding_id >>= complete_found uuid admission now

unfoldable pub OptionReceipt-discrete : Discrete (Option CredentialCompletionReceipt)
OptionReceipt-discrete = hlevel (CredentialCompletionReceipt-discrete)

unfoldable pub current_found : CredentialCompletionReceipt → Option BindingRecord → Bool
current_found receipt none = false
current_found receipt (some r) =
    is_state available r.state && same OptionReceipt-discrete r.receipt (some receipt)

-- `is_completion_current`.
unfoldable pub is_completion_current : CredentialCompletionReceipt → Call Bool
is_completion_current receipt =
    record_of receipt.generation.binding_id >>= λ found s. (ok (current_found receipt found), s)

-- `self._state._rejected.add(...)`.
abbrev pub with_rejection : CredentialGeneration → Store → Store
with_rejection g s = record s { rejected = (g.binding_id, g.material_id) ∷ s.rejected }

unfoldable pub reject_found : CredentialGeneration → Option BindingRecord → Call (Unit {0})
reject_found generation none s = (raised invalid_state, s)
reject_found generation (some r) s =
    if contains CredentialGeneration-discrete generation s.published
    then (
      ok tt,
      if same Text-discrete r.generation.material_id generation.material_id
          then put generation.binding_id
              (record r { state = quarantined; owner = none; receipt = none })
              (with_rejection generation s)
          else with_rejection generation s,
    )
    else (raised invalid_state, s)

-- `record_rejection`.
unfoldable pub record_rejection : CredentialBindingRejection → Call (Unit {0})
record_rejection rejection =
    record_of rejection.generation.binding_id >>= reject_found rejection.generation

unfoldable pub is_published : CredentialGenerationPublication → Option BindingRecord → Bool
is_published publication none = false
is_published publication (some r) =
    same CredentialGenerationPublication-discrete r.publication publication

unfoldable pub current_generation : Option BindingRecord → Option CredentialGeneration
current_generation none = none
current_generation (some r) = some r.generation

-- The record of a publication.
abbrev pub published_record : Store → CredentialGenerationPublication → BindingRecord
published_record s publication = record {
  generation = publication.generation;
  publication = publication;
  state =
      if is_rejected s publication.generation.binding_id publication.generation.material_id
      then quarantined
      else pending_validation;
  owner = none;
  receipt = none;
}

unfoldable pub publish_found : CredentialGenerationPublication → Option BindingRecord → Call Bool
publish_found publication found s =
    if is_published publication found
    then (ok true, s)
    else if same OptionGeneration-discrete (current_generation found)
        publication.expected_generation
    then (
      ok true,
      record s {
        records =
            insert Text-discrete publication.generation.binding_id (published_record s publication)
              s.records;
        seen_bindings = publication.generation.binding_id ∷ s.seen_bindings;
        published = publication.generation ∷ s.published;
      },
    )
    else (ok false, s)

-- `publish`.
unfoldable pub publish : CredentialGenerationPublication → Call Bool
publish publication = record_of publication.generation.binding_id >>= publish_found publication
