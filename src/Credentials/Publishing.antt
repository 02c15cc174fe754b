-- ===== src/Credentials/Publishing.antt =====
-- `record_rejection` and `publish` on a sound store:
-- packages/gateway-core/src/governed_llm_gateway_core/adapters/credential_availability_memory.py.
use governed_llm_gateway.Base.{
  ◌≡◌, refl, sym, ap, ◌∙◌, ◌≢◌, ◌⊎◌, inl, inr, true, Option, none, some, ◌∷◌, Text, Text-discrete,
  same, contains, lookup, insert, arith, same-true,
}
use governed_llm_gateway.Credentials.{
  quarantined, CredentialGeneration, CredentialGenerationPublication, CredentialGeneration-discrete,
  CredentialAvailabilityState-discrete, OptionGeneration-discrete,
}
use governed_llm_gateway.Credentials.Memory.{
  BindingRecord, Store, Material-discrete, is_valid_owner, is_valid_receipt, is_valid_record, put,
  reject_found, publish_found, is_rejected, with_rejection, published_record, current_generation,
  is_published,
}
use governed_llm_gateway.Credentials.Sound.{
  IsSound, valid_grows, write-IsSound, same_records-IsSound,
}
use governed_llm_gateway.Credentials.Admitting.{if_keeps, if_keeps_store}

pub pair_apart : (b m c n : Text) → ◌≡◌ {A = Text × Text} (b, m) (c, n) → (c ≢ b) ⊎ (n ≢ m) → ⊥
pair_apart b m c n e (inl h) = h (ap (λ p. p.0) (sym e))
pair_apart b m c n e (inr h) = h (ap (λ p. p.1) (sym e))

pub rejected_other :
    (s : Store) (g : CredentialGeneration) (b m : Text)
    → (g.binding_id ≢ b) ⊎ (g.material_id ≢ m)
    → is_rejected (with_rejection g s) b m ≡ is_rejected s b m
rejected_other s g b m h = elim (Material-discrete (b, m) (g.binding_id, g.material_id)) [
  | yes e ↦ absurd (pair_apart b m g.binding_id g.material_id e h)
  | no h ↦ ground arith
]

pub quarantined-valid :
    (s : Store) (g : CredentialGeneration) (r : BindingRecord)
    → is_valid_record s g.binding_id r ≡ true
    → r.generation.material_id ≡ g.material_id
    → is_valid_record
        (with_rejection g s)
        g.binding_id
        (record r { state = quarantined; owner = none; receipt = none })
      ≡ true
unfolding is_valid_record is_valid_owner is_valid_receipt CredentialAvailabilityState-discrete
quarantined-valid s g r valid e = ground arith

pub quarantined-IsSound :
    (s : Store) (g : CredentialGeneration) (r : BindingRecord)
    → IsSound s
    → is_valid_record s g.binding_id r ≡ true
    → r.generation.material_id ≡ g.material_id
    → IsSound (
        put g.binding_id
          (record r { state = quarantined; owner = none; receipt = none })
          (with_rejection g s))
quarantined-IsSound s g r sound valid e =
    let t =
      put g.binding_id (record r { state = quarantined; owner = none; receipt = none })
        (with_rejection g s) in
    write-IsSound s t g.binding_id (record r { state = quarantined; owner = none; receipt = none })
      sound refl (λ j h k. k)
      (λ j q h v.
        valid_grows s t j q (λ i p. p) (rejected_other s g j q.generation.material_id (inl h))
          (λ f p. p) v)
      (valid_grows (with_rejection g s) t g.binding_id
        (record r { state = quarantined; owner = none; receipt = none }) (λ i p. p) refl (λ f p. p)
        (quarantined-valid s g r valid e))

pub same_record :
    (s : Store) (b j : Text) (r q : BindingRecord)
    → lookup Text-discrete b s.records ≡ some r
    → b ≡ j
    → lookup Text-discrete j s.records ≡ some q
    → r ≡ q
same_record s b j r q e k f = cc

-- The material that is rejected is not the one of the binding's record.
pub retired-IsSound :
    (s : Store) (g : CredentialGeneration) (r : BindingRecord)
    → IsSound s
    → lookup Text-discrete g.binding_id s.records ≡ some r
    → r.generation.material_id ≢ g.material_id
    → IsSound (with_rejection g s)
retired-IsSound s g r sound found other =
    same_records-IsSound s (with_rejection g s) sound refl refl (λ j q e v.
      valid_grows s (with_rejection g s) j q (λ i p. p)
        (rejected_other s g j q.generation.material_id (elim (Text-discrete g.binding_id j) [
          | yes k ↦ inr (λ p. other (
              ap (λ o. o.generation.material_id) (same_record s g.binding_id j r q found k e)
              ∙ sym p))
          | no k ↦ inl k
        ]))
        (λ f p. p) v)

pub reject_found-keeps :
    (g : CredentialGeneration) (found : Option BindingRecord) (s : Store)
    → IsSound s
    → lookup Text-discrete g.binding_id s.records ≡ found
    → IsSound (reject_found g found s).1
unfolding reject_found
reject_found-keeps g none s sound e = sound
reject_found-keeps g (some r) s sound e =
    if_keeps (contains CredentialGeneration-discrete g s.published) _ _
      (λ h.
        if_keeps_store (same Text-discrete r.generation.material_id g.material_id) _ _
          (λ i.
            quarantined-IsSound s g r sound (sound.valid g.binding_id r e)
              (same-true Text-discrete r.generation.material_id g.material_id i))
          (λ i. retired-IsSound s g r sound e (λ p. ground arith)))
      (λ h. sound)

abbrev pub with_publication : CredentialGenerationPublication → Store → Store
with_publication p s = record s {
  records = insert Text-discrete p.generation.binding_id (published_record s p) s.records;
  seen_bindings = p.generation.binding_id ∷ s.seen_bindings;
  published = p.generation ∷ s.published;
}

pub published_record-valid :
    (s : Store) (p : CredentialGenerationPublication)
    → is_valid_record (with_publication p s) p.generation.binding_id (published_record s p) ≡ true
unfolding is_valid_record is_valid_owner is_valid_receipt CredentialAvailabilityState-discrete
published_record-valid s p = ground arith

pub with_publication-IsSound :
    (s : Store) (p : CredentialGenerationPublication) → IsSound s → IsSound (with_publication p s)
with_publication-IsSound s p sound =
    write-IsSound s (with_publication p s) p.generation.binding_id (published_record s p) sound refl
      (λ j h e. ground arith)
      (λ j q h v. valid_grows s (with_publication p s) j q (λ g e. ground arith) refl (λ f e. e) v)
      (published_record-valid s p)

pub publish_found-keeps :
    (p : CredentialGenerationPublication) (found : Option BindingRecord) (s : Store)
    → IsSound s
    → lookup Text-discrete p.generation.binding_id s.records ≡ found
    → IsSound (publish_found p found s).1
unfolding publish_found
publish_found-keeps p found s sound e =
    if_keeps (is_published p found) _ _ (λ h. sound)
      (λ h.
        if_keeps (same OptionGeneration-discrete (current_generation found) p.expected_generation) _
          _ (λ i. with_publication-IsSound s p sound) (λ i. sound))
