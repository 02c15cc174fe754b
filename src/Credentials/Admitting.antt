-- ===== src/Credentials/Admitting.antt =====
-- Reading the clock, minting a fence, and `admit`, on a sound store:
-- packages/gateway-core/src/governed_llm_gateway_core/adapters/credential_availability_memory.py.
use governed_llm_gateway.Base.{
  ℕ, ◌+◌, ◌-◌, ◌≡◌, refl, ◌≢◌, inl, inr, Bool, true, false, not, Option, none, some, ◌∷◌, Text,
  Text-discrete, Result, ok, raised, same, lookup, ltb, leb, arith, Option-cases, Bool-cases,
  if◌then◌else◌,
}
use governed_llm_gateway.Credentials.{
  CredentialAvailabilityState, unknown, validating, available, quarantined, CredentialGeneration,
  CredentialCompletionReceipt, CredentialGeneration-discrete, CredentialAvailabilityState-discrete,
  is_state,
}
use governed_llm_gateway.Spend.{is_opaque_id}
use governed_llm_gateway.Credentials.Memory.{
  Failure, invalid_state, Answer, fails, improper, gives, ValidationOwner, BindingRecord, Store,
  then_with, ◌>>=◌, accept_now, now_of, new_fence, is_minted, is_valid_owner, is_valid_receipt,
  is_valid_record, put, require_opaque_id, claim, recheck, live_owner, admit_found, admit, is_used,
  contract_error, validation,
}
use governed_llm_gateway.Credentials.Sound.{
  IsSound, Keeps, >>=-Keeps, record_then-Keeps, valid_grows, write-IsSound, same_records-IsSound,
}

pub with_now-IsSound :
    (s : Store) (now : Option ℕ) → IsSound s → IsSound (record s { last_now = now })
with_now-IsSound s now sound =
    same_records-IsSound s (record s { last_now = now }) sound refl refl
      (λ j q e. valid_grows s (record s { last_now = now }) j q (λ g p. p) refl (λ f p. p))

-- Both branches of a conditional call.
pub if_keeps :
    {B : Type 0} (b : Bool) (x y : Result Failure B × Store)
    → (b ≡ true → IsSound x.1)
    → (b ≡ false → IsSound y.1)
    → IsSound (if b then x else y).1
if_keeps true x y yes_branch no_branch = yes_branch refl
if_keeps false x y yes_branch no_branch = no_branch refl

pub if_keeps_store :
    (b : Bool) (x y : Store)
    → (b ≡ true → IsSound x)
    → (b ≡ false → IsSound y)
    → IsSound (if b then x else y)
if_keeps_store true x y yes_branch no_branch = yes_branch refl
if_keeps_store false x y yes_branch no_branch = no_branch refl

pub accept_now-keeps :
    (value : ℕ) (last : Option ℕ) (s : Store) → IsSound s → IsSound (accept_now value last s).1
unfolding accept_now
accept_now-keeps value none s sound = with_now-IsSound s (some value) sound
accept_now-keeps value (some last) s sound =
    if_keeps (ltb value last) (raised invalid_state, s)
      (ok value, record s { last_now = some value }) (λ e. sound)
      (λ e. with_now-IsSound s (some value) sound)

pub now_of-Keeps : (reading : Answer ℕ) → Keeps (now_of reading)
unfolding now_of
now_of-Keeps fails s sound = sound
now_of-Keeps improper s sound = sound
now_of-Keeps (gives value) s sound = accept_now-keeps value s.last_now s sound

pub require-Keeps : (value : Text) → Keeps (require_opaque_id value)
unfolding require_opaque_id
require-Keeps value s sound =
    if_keeps (is_opaque_id value) (ok tt, s) (raised contract_error, s) (λ e. sound) (λ e. sound)

-- A record with another state, owner and receipt is valid where these are, as long as it is
-- neither put into quarantine nor taken out of it.
pub retarget-valid :
    (s : Store) (b : Text) (r : BindingRecord) (state : CredentialAvailabilityState)
    (owner : Option ValidationOwner) (receipt : Option CredentialCompletionReceipt)
    → is_valid_record s b r ≡ true
    → r.state ≢ quarantined
    → state ≢ quarantined
    → state ≢ unknown
    → is_valid_owner s r.generation state owner ≡ true
    → is_valid_receipt s r.generation state receipt ≡ true
    → is_valid_record s b (record r { state = state; owner = owner; receipt = receipt }) ≡ true
unfolding is_valid_record
retarget-valid s b r state owner receipt valid h i j o c = ground arith

-- A record that is not available has no receipt.
pub no_receipt :
    (s : Store) (b : Text) (r : BindingRecord)
    → is_valid_record s b r ≡ true
    → r.state ≢ available
    → r.receipt ≡ none
unfolding is_valid_record is_valid_receipt
no_receipt s b r valid h = elim (Option-cases r.receipt) [
  | inl e ↦ e
  | inr (receipt, e) ↦ ground (arith, valid, e)
]

-- A record with an owner is being validated, under a fence that the store minted.
pub owned_facts :
    (s : Store) (b : Text) (r : BindingRecord) (owner : ValidationOwner)
    → is_valid_record s b r ≡ true
    → r.owner ≡ some owner
    → (r.state ≡ validating) × (is_minted s owner.admission.validation_fence ≡ true)
unfolding is_valid_record is_valid_owner
owned_facts s b r owner valid e = ground (arith, valid, e)

abbrev pub with_used : Text → Store → Store
with_used hex s = record s { used_fences = hex ∷ s.used_fences }

pub used_more :
    (s : Store) (hex fence : Text) → is_used s fence ≡ true → is_used (with_used hex s) fence ≡ true
used_more s hex fence used = ground arith

pub used_new : (s : Store) (hex : Text) → is_used (with_used hex s) hex ≡ true
used_new s hex = ground arith

pub valid_used :
    (s : Store) (hex b : Text) (r : BindingRecord)
    → is_valid_record s b r ≡ true
    → is_valid_record (with_used hex s) b r ≡ true
valid_used s hex b r valid =
    valid_grows s (with_used hex s) b r (λ g p. p) refl (used_more s hex) valid

-- A valid record is written after a fence was minted.
pub minted-IsSound :
    (s : Store) (hex b : Text) (r : BindingRecord)
    → IsSound s
    → is_valid_record (with_used hex s) b r ≡ true
    → IsSound (put b r (with_used hex s))
minted-IsSound s hex b r sound valid =
    write-IsSound s (put b r (with_used hex s)) b r sound refl (λ j h e. e)
      (λ j q h v. valid_grows s (put b r (with_used hex s)) j q (λ g p. p) refl (used_more s hex) v)
      (valid_grows (with_used hex s) (put b r (with_used hex s)) b r (λ g p. p) refl (λ f p. p)
        valid)

-- A call that mints a fence and then writes a record that is valid with it.
pub mint-keeps :
    {B : Type 0} (uuid : Answer Text) (b : Text) (answer : Text → B) (r : Text → BindingRecord)
    (s : Store)
    → IsSound s
    → ((hex : Text) → is_valid_record (with_used hex s) b (r hex) ≡ true)
    → IsSound ((new_fence uuid >>= λ fence t. (ok (answer fence), put b (r fence) t)) s).1
unfolding ◌>>=◌ then_with new_fence
mint-keeps fails b answer r s sound valid = sound
mint-keeps improper b answer r s sound valid = sound
mint-keeps (gives hex) b answer r s sound valid = elim (Bool-cases (is_used s hex)) [
  | inl e ↦ rw e sound
  | inr e ↦ rw e (minted-IsSound s hex b (r hex) sound (valid hex))
]

pub new_owner-valid :
    (s : Store) (hex : Text) (h g : CredentialGeneration) (attempt_id : Text)
    (lifetime deadline : ℕ)
    → h ≡ g
    → ltb 0 deadline ≡ true
    → is_valid_owner
        (with_used hex s)
        h
        validating
        (some (record { admission = validation g attempt_id hex lifetime; expires_at = deadline }))
      ≡ true
unfolding is_valid_owner is_minted CredentialAvailabilityState-discrete
new_owner-valid s hex h g a lifetime deadline e later = ground (arith, used_new s hex)

pub no_receipt-valid :
    (s : Store) (g : CredentialGeneration) (state : CredentialAvailabilityState)
    (receipt : Option CredentialCompletionReceipt)
    → receipt ≡ none
    → state ≢ available
    → is_valid_receipt s g state receipt ≡ true
unfolding is_valid_receipt
no_receipt-valid s g state receipt e h = ground (arith, e)

pub claim-keeps :
    (uuid : Answer Text) (g : CredentialGeneration) (attempt_id : Text) (now : ℕ)
    (r : BindingRecord) (s : Store)
    → IsSound s
    → lookup Text-discrete g.binding_id s.records ≡ some r
    → r.generation ≡ g
    → r.state ≢ quarantined
    → r.state ≢ available
    → IsSound (claim uuid g attempt_id now r s).1
unfolding claim is_valid_owner is_valid_receipt is_minted
claim-keeps uuid g a now r s sound e same_generation h i =
    if_keeps (leb (now + s.lease_seconds) now) (raised invalid_state, s) _ (λ e. sound)
      (λ late. mint-keeps uuid g.binding_id _ _ s sound (λ hex.
        retarget-valid (with_used hex s) g.binding_id r validating
          (some (record {
            admission = validation g a hex (now + s.lease_seconds - now);
            expires_at = now + s.lease_seconds;
          }))
          r.receipt (valid_used s hex g.binding_id r (sound.valid g.binding_id r e)) h (λ p. cc)
          (λ p. cc)
          (new_owner-valid s hex r.generation g a (now + s.lease_seconds - now)
            (now + s.lease_seconds) same_generation (ground arith))
          (no_receipt-valid (with_used hex s) r.generation validating r.receipt
            (no_receipt s g.binding_id r (sound.valid g.binding_id r e) i) (λ p. cc))))

pub recheck-keeps :
    (uuid : Answer Text) (g : CredentialGeneration) (attempt_id : Text) (now : ℕ)
    (r : BindingRecord) (owner : Option ValidationOwner) (s : Store)
    → IsSound s
    → IsSound (claim uuid g attempt_id now r s).1
    → IsSound (recheck uuid g attempt_id now r owner s).1
unfolding recheck
recheck-keeps uuid g a now r none s sound claimed = claimed
recheck-keeps uuid g a now r (some owner) s sound claimed =
    if_keeps (same Text-discrete owner.admission.attempt_id a) _ _ (λ e. sound) (λ e. sound)

pub admit_found-keeps :
    (uuid : Answer Text) (g : CredentialGeneration) (attempt_id : Text) (now : ℕ)
    (found : Option BindingRecord) (s : Store)
    → IsSound s
    → lookup Text-discrete g.binding_id s.records ≡ found
    → IsSound (admit_found uuid g attempt_id now found s).1
unfolding admit_found
admit_found-keeps uuid g a now none s sound e = sound
admit_found-keeps uuid g a now (some r) s sound e =
    if_keeps (not (same CredentialGeneration-discrete r.generation g)) _ _ (λ h. sound)
      (λ current.
        if_keeps (is_state available r.state) _ _ (λ h. sound)
          (λ h.
            if_keeps (is_state quarantined r.state) _ _ (λ i. sound)
              (λ i. recheck-keeps uuid g a now r (live_owner r now) s sound (
                claim-keeps uuid g a now r s sound e (ground arith) (λ p. ground arith)
                  (λ p. ground arith)))))

pub admit-Keeps :
    (reading : Answer ℕ) (uuid : Answer Text) (g : CredentialGeneration) (attempt_id : Text)
    → Keeps (admit reading uuid g attempt_id)
unfolding admit
admit-Keeps reading uuid g a = >>=-Keeps (require_opaque_id a) _ (require-Keeps a) (λ done.
    >>=-Keeps (now_of reading) _ (now_of-Keeps reading)
      (λ now. record_then-Keeps g.binding_id _ (admit_found-keeps uuid g a now)))
