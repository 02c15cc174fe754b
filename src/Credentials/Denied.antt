-- ===== src/Credentials/Denied.antt =====
-- Rejected material, through calls of the methods of
-- packages/gateway-core/src/governed_llm_gateway_core/adapters/credential_availability_memory.py.
use governed_llm_gateway.Base.{
  ℕ, ◌≡◌, ◌≢◌, refl, Bool, true, false, Option, none, some, List, [], ◌∷◌, Text, Text-discrete,
  Result, ok, raised, contains, arith, if◌then◌else◌, lookup, Bool-cases, inl, inr, subst, sym,
}
use governed_llm_gateway.Credentials.{
  CredentialGeneration, CredentialGenerationPublication, CredentialAdmission,
  CredentialCompletionReceipt, quarantined, CredentialAvailabilityState-discrete,
  CredentialBindingRejection, CredentialGeneration-discrete,
}
use governed_llm_gateway.Credentials.Memory.{
  Failure, Answer, fails, improper, gives, BindingRecord, ValidationOwner, matched_receipt, Store,
  Call, then_with, ◌>>=◌, accept_now, now_of, new_fence, is_valid_record, checked_record, record_of,
  require_opaque_id, snapshot, claim, recheck, live_owner, admit_found, admit, is_admitted,
  release_found, release, complete_owned, complete_new, complete_found, complete_validation,
  is_completion_current, reject_found, record_rejection, publish_found, publish, is_rejected,
}
use governed_llm_gateway.Credentials.History.{
  Operation, reads, admits, asks_admitted, releases, completes, asks_current, rejects, publishes,
  perform, run,
}

module _ (b m : Text) where
  -- A call after which the material is rejected if it was so before.
  abbrev Lasts : {A : Type 0} → Call A → Type 0
  Lasts call = (s : Store) → is_rejected s b m ≡ true → is_rejected (call s).1 b m ≡ true

  then_with-Lasts :
      {A B : Type 0} (rest : A → Call B)
      → ((a : A) → Lasts (rest a))
      → (e : Result Failure A × Store) → is_rejected e.1 b m ≡ true
      → is_rejected (then_with rest e).1 b m ≡ true
  unfolding then_with
  then_with-Lasts rest k (ok a, s) h = k a s h
  then_with-Lasts rest k (raised e, s) h = h

  >>=-Lasts :
      {A B : Type 0} (call : Call A) (rest : A → Call B)
      → Lasts call
      → ((a : A) → Lasts (rest a))
      → Lasts (call >>= rest)
  unfolding ◌>>=◌
  >>=-Lasts call rest k ks s h = then_with-Lasts rest ks (call s) (k s h)

  accept_now-lasts :
      (value : ℕ) (last : Option ℕ) (s : Store)
      → is_rejected s b m ≡ true
      → is_rejected (accept_now value last s).1 b m ≡ true
  unfolding accept_now
  accept_now-lasts value none s h = h
  accept_now-lasts value (some last) s h = ground arith

  now_of-Lasts : (reading : Answer ℕ) → Lasts (now_of reading)
  unfolding now_of
  now_of-Lasts fails s h = h
  now_of-Lasts improper s h = h
  now_of-Lasts (gives value) s h = accept_now-lasts value s.last_now s h

  new_fence-Lasts : (uuid : Answer Text) → Lasts (new_fence uuid)
  unfolding new_fence
  new_fence-Lasts fails s h = h
  new_fence-Lasts improper s h = h
  new_fence-Lasts (gives hex) s h = ground arith

  require-Lasts : (value : Text) → Lasts (require_opaque_id value)
  unfolding require_opaque_id
  require-Lasts value s h = ground arith

  record_of-Lasts : (binding : Text) → Lasts (record_of binding)
  unfolding record_of
  record_of-Lasts binding s h = h

  if-lasts :
      {B : Type 0} (test : Bool) (x y : Result Failure B × Store)
      → is_rejected x.1 b m ≡ true
      → is_rejected y.1 b m ≡ true
      → is_rejected (if test then x else y).1 b m ≡ true
  if-lasts true x y h i = h
  if-lasts false x y h i = i

  claim-Lasts :
      (uuid : Answer Text) (g : CredentialGeneration) (attempt_id : Text) (now : ℕ)
      (r : BindingRecord)
      → Lasts (claim uuid g attempt_id now r)
  unfolding claim
  claim-Lasts uuid g a now r s h =
      if-lasts _ _ _ h (>>=-Lasts (new_fence uuid) _ (new_fence-Lasts uuid) (λ fence t i. i) s h)

  recheck-Lasts :
      (uuid : Answer Text) (g : CredentialGeneration) (attempt_id : Text) (now : ℕ)
      (r : BindingRecord) (owner : Option ValidationOwner)
      → Lasts (recheck uuid g attempt_id now r owner)
  unfolding recheck
  recheck-Lasts uuid g a now r none s h = claim-Lasts uuid g a now r s h
  recheck-Lasts uuid g a now r (some o) s h = if-lasts _ _ _ h h

  admit_found-Lasts :
      (uuid : Answer Text) (g : CredentialGeneration) (attempt_id : Text) (now : ℕ)
      (found : Option BindingRecord)
      → Lasts (admit_found uuid g attempt_id now found)
  unfolding admit_found
  admit_found-Lasts uuid g a now none s h = h
  admit_found-Lasts uuid g a now (some r) s h =
      ground (arith, recheck-Lasts uuid g a now r (live_owner r now) s h)

  admit-Lasts :
      (reading : Answer ℕ) (uuid : Answer Text) (g : CredentialGeneration) (attempt_id : Text)
      → Lasts (admit reading uuid g attempt_id)
  unfolding admit
  admit-Lasts reading uuid g a = >>=-Lasts _ _ (require-Lasts a) (λ done.
      >>=-Lasts _ _ (now_of-Lasts reading)
        (λ now. >>=-Lasts _ _ (record_of-Lasts g.binding_id) (admit_found-Lasts uuid g a now)))

  release_found-Lasts :
      (admission : CredentialAdmission) (found : Option BindingRecord)
      → Lasts (release_found admission found)
  unfolding release_found
  release_found-Lasts admission none s h = h
  release_found-Lasts admission (some r) s h = ground arith

  complete_owned-Lasts :
      (uuid : Answer Text) (admission : CredentialAdmission) (fence : Option Text)
      (r : BindingRecord)
      → Lasts (complete_owned uuid admission fence r)
  unfolding complete_owned
  complete_owned-Lasts uuid admission none r s h = h
  complete_owned-Lasts uuid admission (some fence) r s h =
      >>=-Lasts (new_fence uuid) _ (new_fence-Lasts uuid) (λ completion t i. i) s h

  complete_new-Lasts :
      (uuid : Answer Text) (admission : CredentialAdmission) (now : ℕ) (r : BindingRecord)
      (receipt : Option CredentialCompletionReceipt)
      → Lasts (complete_new uuid admission now r receipt)
  unfolding complete_new
  complete_new-Lasts uuid admission now r (some receipt) s h = h
  complete_new-Lasts uuid admission now r none s h =
      if-lasts _ _ _ (complete_owned-Lasts uuid admission admission.validation_fence r s h) h

  complete_found-Lasts :
      (uuid : Answer Text) (admission : CredentialAdmission) (now : ℕ)
      (found : Option BindingRecord)
      → Lasts (complete_found uuid admission now found)
  unfolding complete_found
  complete_found-Lasts uuid admission now none s h = h
  complete_found-Lasts uuid admission now (some r) s h =
      if-lasts _ _ _
        (complete_new-Lasts uuid admission now r (matched_receipt admission r.receipt) s h) h

  reject_found-Lasts :
      (g : CredentialGeneration) (found : Option BindingRecord) → Lasts (reject_found g found)
  unfolding reject_found
  reject_found-Lasts g none s h = h
  reject_found-Lasts g (some r) s h = ground arith

  publish_found-Lasts :
      (p : CredentialGenerationPublication) (found : Option BindingRecord)
      → Lasts (publish_found p found)
  unfolding publish_found
  publish_found-Lasts p found s h = ground arith

  perform-lasts :
      (op : Operation) (s : Store)
      → is_rejected s b m ≡ true
      → is_rejected (perform op s) b m ≡ true
  unfolding perform snapshot is_admitted release complete_validation is_completion_current
      record_rejection publish
  perform-lasts (reads reading binding) = >>=-Lasts _ _ (require-Lasts binding) (λ done.
      >>=-Lasts _ _ (now_of-Lasts reading)
        (λ now. >>=-Lasts _ _ (record_of-Lasts binding) (λ found s h. h)))
  perform-lasts (admits reading uuid g a) = admit-Lasts reading uuid g a
  perform-lasts (asks_admitted reading admission) =
      >>=-Lasts _ _ (now_of-Lasts reading)
        (λ now. >>=-Lasts _ _ (record_of-Lasts admission.generation.binding_id) (λ found s h. h))
  perform-lasts (releases admission) =
      >>=-Lasts _ _ (record_of-Lasts admission.generation.binding_id)
        (release_found-Lasts admission)
  perform-lasts (completes reading uuid admission) = >>=-Lasts _ _ (now_of-Lasts reading) (λ now.
      >>=-Lasts _ _ (record_of-Lasts admission.generation.binding_id)
        (complete_found-Lasts uuid admission now))
  perform-lasts (asks_current receipt) =
      >>=-Lasts _ _ (record_of-Lasts receipt.generation.binding_id) (λ found s h. h)
  perform-lasts (rejects rejection) =
      >>=-Lasts _ _ (record_of-Lasts rejection.generation.binding_id)
        (reject_found-Lasts rejection.generation)
  perform-lasts (publishes p) =
      >>=-Lasts _ _ (record_of-Lasts p.generation.binding_id) (publish_found-Lasts p)

  run-lasts :
      (ops : List Operation) (s : Store)
      → is_rejected s b m ≡ true
      → is_rejected (run ops s) b m ≡ true
  unfolding run
  run-lasts [] s h = h
  run-lasts (op ∷ ops) s h = run-lasts ops (perform op s) (perform-lasts op s h)

quarantined_facts :
    (s : Store) (b : Text) (r : BindingRecord)
    → is_valid_record s b r ≡ true
    → is_rejected s b r.generation.material_id ≡ true
    → r.state ≡ quarantined
unfolding is_valid_record
quarantined_facts s b r valid h = ground arith

-- What is found for a rejected generation is another one, or in quarantine.
found-denied :
    (s : Store) (g : CredentialGeneration) (uuid : Answer Text) (attempt_id : Text) (now : ℕ)
    (r : BindingRecord)
    → is_rejected s g.binding_id g.material_id ≡ true
    → is_valid_record s g.binding_id r ≡ true
    → (admit_found uuid g attempt_id now (some r) s).0 ≡ ok none
unfolding admit_found CredentialAvailabilityState-discrete
found-denied s g uuid a now r h valid = elim (CredentialGeneration-discrete r.generation g) [
  | yes e ↦
      rw
        (quarantined_facts s g.binding_id r valid
          (subst (λ i. is_rejected s g.binding_id i.material_id ≡ true) (sym e) h))
        ground arith
  | no e ↦ ground arith
]

none-none :
    (uuid : Answer Text) (g : CredentialGeneration) (attempt_id : Text) (now : ℕ) (s : Store)
    → (admit_found uuid g attempt_id now none s).0 ≡ ok none
unfolding admit_found
none-none uuid g a now s = refl

module _ (g : CredentialGeneration) (a : CredentialAdmission) where
  -- A call that does not return the admission while the material is rejected.
  abbrev Denies : Call (Option CredentialAdmission) → Type 0
  Denies call =
      (s : Store) → is_rejected s g.binding_id g.material_id ≡ true → (call s).0 ≢ ok (some a)

  then_with-Denies :
      {A : Type 0} (rest : A → Call (Option CredentialAdmission))
      → ((x : A) → Denies (rest x))
      → (e : Result Failure A × Store) → is_rejected e.1 g.binding_id g.material_id ≡ true
      → (then_with rest e).0 ≢ ok (some a)
  unfolding then_with
  then_with-Denies rest k (ok x, s) h = k x s h
  then_with-Denies rest k (raised e, s) h = λ p. cc

  >>=-Denies :
      {A : Type 0} (call : Call A) (rest : A → Call (Option CredentialAdmission))
      → Lasts g.binding_id g.material_id call
      → ((x : A) → Denies (rest x))
      → Denies (call >>= rest)
  unfolding ◌>>=◌
  >>=-Denies call rest k ks s h = then_with-Denies rest ks (call s) (k s h)

  checked-denies :
      (uuid : Answer Text) (attempt_id : Text) (now : ℕ) (found : Option BindingRecord) (s : Store)
      → is_rejected s g.binding_id g.material_id ≡ true
      → (then_with (admit_found uuid g attempt_id now) (checked_record s g.binding_id found, s)).0
        ≢ ok (some a)
  unfolding then_with checked_record
  checked-denies uuid t now none s h =
      elim (Bool-cases (contains Text-discrete g.binding_id s.seen_bindings)) [
        | inl e ↦ rw e (λ p. cc)
        | inr e ↦ rw e (λ p. ground (arith, p, none-none uuid g t now s))
      ]
  checked-denies uuid t now (some r) s h = elim (Bool-cases (is_valid_record s g.binding_id r)) [
    | inl e ↦ rw e (λ p. ground (arith, p, found-denied s g uuid t now r h e))
    | inr e ↦ rw e (λ p. cc)
  ]

  record_then-Denies :
      (uuid : Answer Text) (attempt_id : Text) (now : ℕ)
      → Denies (record_of g.binding_id >>= admit_found uuid g attempt_id now)
  unfolding ◌>>=◌ record_of
  record_then-Denies uuid t now s h =
      checked-denies uuid t now (lookup Text-discrete g.binding_id s.records) s h

  admit-Denies :
      (reading : Answer ℕ) (uuid : Answer Text) (attempt_id : Text)
      → Denies (admit reading uuid g attempt_id)
  unfolding admit
  admit-Denies reading uuid t = >>=-Denies _ _ (require-Lasts g.binding_id g.material_id t) (λ done.
      >>=-Denies _ _ (now_of-Lasts g.binding_id g.material_id reading) (record_then-Denies uuid t))

recorded_then :
    (g : CredentialGeneration) (s : Store) (checked : Result Failure (Option BindingRecord))
    → (then_with (reject_found g) (checked, s)).0 ≡ ok tt
    → is_rejected (then_with (reject_found g) (checked, s)).1 g.binding_id g.material_id ≡ true
unfolding then_with reject_found
recorded_then g s (raised e) returned = cc
recorded_then g s (ok none) returned = cc
recorded_then g s (ok (some r)) returned = ground arith

-- A rejection that is recorded is in the store.
recorded-rejected :
    (rejection : CredentialBindingRejection) (s : Store)
    → (record_rejection rejection s).0 ≡ ok tt
    → is_rejected
        (record_rejection rejection s).1
        rejection.generation.binding_id
        rejection.generation.material_id
      ≡ true
unfolding record_rejection ◌>>=◌ record_of
recorded-rejected rejection s returned =
    recorded_then rejection.generation s
      (checked_record s rejection.generation.binding_id
        (lookup Text-discrete rejection.generation.binding_id s.records))
      returned

-- Once `record_rejection` has returned for a generation, no later `admit` returns an admission for
-- a generation of the same binding and the same material: not after any history of calls in
-- between, publications of further generations included, and whatever the clock and `uuid4` answer.
pub rejected-denied :
    (rejection : CredentialBindingRejection) (s : Store) (ops : List Operation) (reading : Answer ℕ)
    (uuid : Answer Text) (g : CredentialGeneration) (attempt_id : Text)
    (admission : CredentialAdmission)
    → (record_rejection rejection s).0 ≡ ok tt
    → rejection.generation.binding_id ≡ g.binding_id
    → rejection.generation.material_id ≡ g.material_id
    → (admit reading uuid g attempt_id (run ops (record_rejection rejection s).1)).0
      ≢ ok (some admission)
rejected-denied rejection s ops reading uuid g attempt_id a returned e f =
    let after = (record_rejection rejection s).1 in
    admit-Denies g a reading uuid attempt_id (run ops after) (
      run-lasts g.binding_id g.material_id ops after (
        subst (λ m. is_rejected after g.binding_id m ≡ true) f
          (subst (λ b. is_rejected after b rejection.generation.material_id ≡ true) e
            (recorded-rejected rejection s returned))))
