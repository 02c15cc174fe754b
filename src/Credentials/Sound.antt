-- ===== src/Credentials/Sound.antt =====
-- The invariant of the store, and writes that keep it:
-- packages/gateway-core/src/governed_llm_gateway_core/adapters/credential_availability_memory.py.
use governed_llm_gateway.Base.{
  ◌≡◌, sym, subst, ◌≢◌, inl, inr, true, false, Option, none, some, Text, Text-discrete, Result, ok,
  raised, contains, lookup, insert, lookup-insert_self, lookup-insert_ne, arith, Option-cases,
}
use governed_llm_gateway.Credentials.{
  CredentialAvailabilityState, CredentialGeneration, CredentialCompletionReceipt,
  CredentialGeneration-discrete,
}
use governed_llm_gateway.Credentials.Memory.{
  Failure, ValidationOwner, BindingRecord, Store, Call, then_with, ◌>>=◌, is_minted, is_valid_owner,
  is_valid_receipt, is_valid_record, checked_record, record_of, is_rejected, is_used,
}

-- Every record passes the tests of `_record`, and a binding that was seen has one.
pub record IsSound (s : Store) : Type 0 where
  pub valid :
      (b : Text) (r : BindingRecord)
      → lookup Text-discrete b s.records ≡ some r
      → is_valid_record s b r ≡ true
  pub known :
      (b : Text)
      → lookup Text-discrete b s.records ≡ none
      → contains Text-discrete b s.seen_bindings ≡ false

-- A call after which the store is sound if it was so before.
abbrev pub Keeps : {A : Type 0} → Call A → Type 0
Keeps m = (s : Store) → IsSound s → IsSound (m s).1

pub then_with-Keeps :
    {A B : Type 0} (rest : A → Call B)
    → ((a : A) → Keeps (rest a))
    → (e : Result Failure A × Store) → IsSound e.1
    → IsSound (then_with rest e).1
unfolding then_with
then_with-Keeps rest k (ok a, s) sound = k a s sound
then_with-Keeps rest k (raised e, s) sound = sound

pub >>=-Keeps :
    {A B : Type 0} (m : Call A) (rest : A → Call B)
    → Keeps m
    → ((a : A) → Keeps (rest a))
    → Keeps (m >>= rest)
unfolding ◌>>=◌
>>=-Keeps m rest k ks s sound = then_with-Keeps rest ks (m s) (k s sound)

-- What follows a read of a record is run with what is stored.
pub record_then-Keeps :
    {B : Type 0} (b : Text) (rest : Option BindingRecord → Call B)
    → ((found : Option BindingRecord) (s : Store)
        → IsSound s
        → lookup Text-discrete b s.records ≡ found
        → IsSound (rest found s).1)
    → Keeps (record_of b >>= rest)
unfolding ◌>>=◌ then_with record_of checked_record
record_then-Keeps b rest k s sound = elim (Option-cases (lookup Text-discrete b s.records)) [
  | inr (r, e) ↦ rw (e, sound.valid b r e) (k (some r) s sound e)
  | inl e ↦ rw (e, sound.known b e) (k none s sound e)
]

pub owner_grows :
    (s t : Store) (g : CredentialGeneration) (state : CredentialAvailabilityState)
    (owner : Option ValidationOwner)
    → ((fence : Text) → is_used s fence ≡ true → is_used t fence ≡ true)
    → is_valid_owner s g state owner ≡ true
    → is_valid_owner t g state owner ≡ true
unfolding is_valid_owner is_minted
owner_grows s t g state none used valid = valid
owner_grows s t g state (some owner) used valid =
    elim (Option-cases owner.admission.validation_fence) [
      | inl e ↦ ground (arith, valid)
      | inr (fence, e) ↦ ground (arith, used fence)
    ]

pub receipt_grows :
    (s t : Store) (g : CredentialGeneration) (state : CredentialAvailabilityState)
    (receipt : Option CredentialCompletionReceipt)
    → ((fence : Text) → is_used s fence ≡ true → is_used t fence ≡ true)
    → is_valid_receipt s g state receipt ≡ true
    → is_valid_receipt t g state receipt ≡ true
unfolding is_valid_receipt
receipt_grows s t g state none used valid = valid
receipt_grows s t g state (some receipt) used valid =
    ground (arith, used receipt.validation_fence, used receipt.completion_fence)

-- A record stays valid where the sets grow and its material is rejected as before.
pub valid_grows :
    (s t : Store) (b : Text) (r : BindingRecord)
    → ((g : CredentialGeneration)
        → contains CredentialGeneration-discrete g s.published ≡ true
        → contains CredentialGeneration-discrete g t.published ≡ true)
    → is_rejected t b r.generation.material_id ≡ is_rejected s b r.generation.material_id
    → ((fence : Text) → is_used s fence ≡ true → is_used t fence ≡ true)
    → is_valid_record s b r ≡ true
    → is_valid_record t b r ≡ true
unfolding is_valid_record
valid_grows s t b r published rejected used valid = ground (
  arith,
  published r.generation,
  owner_grows s t r.generation r.state r.owner used,
  receipt_grows s t r.generation r.state r.receipt used,
)

-- A write of a valid record, where the other records stay valid.
pub write-IsSound :
    (s t : Store) (b : Text) (r : BindingRecord)
    → IsSound s
    → t.records ≡ insert Text-discrete b r s.records
    → ((j : Text)
        → b ≢ j
        → contains Text-discrete j s.seen_bindings ≡ false
        → contains Text-discrete j t.seen_bindings ≡ false)
    → ((j : Text) (q : BindingRecord)
        → b ≢ j
        → is_valid_record s j q ≡ true
        → is_valid_record t j q ≡ true)
    → is_valid_record t b r ≡ true
    → IsSound t
write-IsSound s t b r sound written seen others valid = record {
  valid = λ j q e.
      let at_t = subst (λ d. lookup Text-discrete j d ≡ some q) written e in
      elim (Text-discrete b j) [
        | yes same_key ↦
            subst (λ i. is_valid_record t i q ≡ true) same_key
              (ground (arith, at_t, lookup-insert_self Text-discrete b r s.records))
        | no other ↦
            others j q other (
              sound.valid j q
                (ground (arith, lookup-insert_ne Text-discrete b j r s.records other)))
      ];
  known = λ j e.
      let at_t = subst (λ d. lookup Text-discrete j d ≡ none) written e in
      elim (Text-discrete b j) [
        | yes same_key ↦ ground (arith, lookup-insert_self Text-discrete b r s.records)
        | no other ↦
            seen j other
              (sound.known j (ground (arith, lookup-insert_ne Text-discrete b j r s.records other)))
      ];
}

pub same_records-IsSound :
    (s t : Store)
    → IsSound s
    → t.records ≡ s.records
    → t.seen_bindings ≡ s.seen_bindings
    → ((j : Text) (q : BindingRecord)
        → lookup Text-discrete j s.records ≡ some q
        → is_valid_record s j q ≡ true
        → is_valid_record t j q ≡ true)
    → IsSound t
same_records-IsSound s t sound r v others = record {
  valid = λ j q e.
      let at_s = subst (λ d. lookup Text-discrete j d ≡ some q) r e in
      others j q at_s (sound.valid j q at_s);
  known = λ j e.
      subst (λ l. contains Text-discrete j l ≡ false) (sym v)
        (sound.known j (subst (λ d. lookup Text-discrete j d ≡ none) r e));
}

-- The other fields are not looked at.
