-- ===== src/Spend/Owned.antt =====
-- An execution with an open journal, in a valid image of
-- packages/gateway-core/src/governed_llm_gateway_core/adapters/spend_admission_memory.py: what the
-- checks of the image say of it, and of what a method makes of it.
use governed_llm_gateway.Base.{
  ℕ, ◌≡◌, refl, sym, ap, subst, Bool, true, false, none, some, List, [], ◌∷◌, ◌++◌, map, arith,
  Text, Text-discrete, contains, same, Option-cases, inl, inr, lookup,
}
use governed_llm_gateway.Spend.{
  SpendAttemptAllocation, SpendAttemptAllocation-discrete, all_of, all_different,
}
use governed_llm_gateway.Spend.Receipts.{
  SpendReservation, SpendDispatchReceipt, SpendDispatchReceipt-discrete, SpendSettlementReceipt,
  SpendJournalSnapshot,
}
use governed_llm_gateway.Spend.Memory.{Execution, Image, Frozen}
use governed_llm_gateway.Spend.Audit.{
  one_if, dispatch_at, settlement_at, is_sound_owned, is_sound_execution, is_sound_settlement,
  is_valid_image, is_approved,
}
use governed_llm_gateway.Spend.Requests.{sum_of}
use governed_llm_gateway.Spend.Worker.{existing_execution, settlement_of}
use governed_llm_gateway.Spend.Counting.{
  count, sum_of-append, count_of_missing, count_of_different, different_of_count,
}
use governed_llm_gateway.Spend.Located.{id_of, existing-id, existing-all}
use governed_llm_gateway.Spend.Slots.{dispatch_at-kept}
use governed_llm_gateway.Spend.Effects.{Owning}

-- What is known of an execution with an open journal.
pub record IsOwned (f : Frozen) (image : Image) (e : Execution) (r : SpendReservation)
    (j : SpendJournalSnapshot) : Type 0 where
  pub admitted : ℕ
  pub expires : ℕ
  pub admitted_at : e.admitted_at ≡ some admitted
  pub expires_at : e.expires_at ≡ some expires
  pub sound : is_sound_owned f e r admitted expires j ≡ true
  pub approved :
      is_approved (lookup Text-discrete e.request.execution_id f.approved) e.request ≡ true
  pub found : existing_execution (id_of e) image.executions ≡ some e

timed :
    (f : Frozen) (e : Execution) (r : SpendReservation) (j : SpendJournalSnapshot)
    → e.reservation ≡ some r
    → e.journal ≡ some j
    → is_sound_execution f e ≡ true
    → (admitted : ℕ) × (expires : ℕ) × (e.admitted_at ≡ some admitted)
      × (e.expires_at ≡ some expires)
      × (is_sound_owned f e r admitted expires j ≡ true)
unfolding is_sound_execution
timed f e r j held journal h = elim (Option-cases e.admitted_at) [
  | inl a ↦ ground arith
  | inr (admitted, a) ↦ elim (Option-cases e.expires_at) [
    | inl x ↦ ground arith
    | inr (expires, x) ↦ (admitted, expires, a, x, ground arith)
  ]
]

pub owned_lem :
    (f : Frozen) (image : Image) (failed : Bool) (revision : ℕ) (seen : List Text) (e : Execution)
    (r : SpendReservation) (j : SpendJournalSnapshot)
    → is_valid_image f failed revision seen image ≡ true
    → Owning image e r j
    → IsOwned f image e r j
unfolding is_valid_image
owned_lem f image failed revision seen e r j v own =
    let sound : is_sound_execution f e ≡ true =
      existing-all (is_sound_execution f) r.request.execution_id image.executions e own.found
        (ground arith) in
    let times = timed f e r j own.held own.journal sound in
    record {
      admitted = times.0;
      expires = times.1;
      admitted_at = times.2;
      expires_at = times.3;
      sound = times.4;
      approved = unfold is_sound_execution in ground arith;
      found =
          subst (λ i. existing_execution i image.executions ≡ some e)
            (sym (existing-id r.request.execution_id image.executions e own.found)) own.found;
    }

-- The execution that a method makes of it is sound if its own part is.
pub sound_of_owned :
    (f : Frozen) (e : Execution) (r : SpendReservation) (j : SpendJournalSnapshot)
    (admitted expires : ℕ)
    → e.reservation ≡ some r
    → e.journal ≡ some j
    → e.admitted_at ≡ some admitted
    → e.expires_at ≡ some expires
    → is_approved (lookup Text-discrete e.request.execution_id f.approved) e.request ≡ true
    → is_sound_owned f e r admitted expires j ≡ true
    → is_sound_execution f e ≡ true
unfolding is_sound_execution
sound_of_owned f e r j admitted expires held journal a x approved h = ground arith

-- One more item that was missing.
pub different-snoc {ℓ} :
    {A : Type ℓ} (d : Discrete A) (xs : List A) (x : A)
    → all_different d xs ≡ true
    → contains d x xs ≡ false
    → all_different d (xs ++ x ∷ []) ≡ true
unfolding count sum_of
different-snoc d xs x h k = different_of_count d (xs ++ x ∷ []) λ y. ground (
  arith,
  sum_of-append (λ z. one_if (same d y z)) xs (x ∷ []),
  count_of_different d xs h y,
  count_of_missing d x xs k,
)

pub map-append {ℓ κ} :
    {A : Type ℓ} {B : Type κ} (g : A → B) (xs ys : List A) → map g (xs ++ ys) ≡ map g xs ++ map g ys
map-append g [] ys = refl
map-append g (x ∷ xs) ys = ap (λ zs. g x ∷ zs) (map-append g xs ys)

-- No claim, and no outcome, of an allocation.
pub unclaimed-missing :
    (a : SpendAttemptAllocation) (ds : List SpendDispatchReceipt)
    → dispatch_at a ds ≡ none
    → contains SpendAttemptAllocation-discrete a (map (λ d. d.allocation) ds) ≡ false
unfolding dispatch_at
unclaimed-missing a [] h = refl
unclaimed-missing a (d ∷ ds) h = ground (arith, unclaimed-missing a ds)

pub unsettled-missing :
    (a : SpendAttemptAllocation) (ss : List SpendSettlementReceipt)
    → settlement_at a ss ≡ none
    → contains SpendAttemptAllocation-discrete a (map (λ s. s.settlement.dispatch.allocation) ss)
      ≡ false
unfolding settlement_at
unsettled-missing a [] h = refl
unsettled-missing a (s ∷ ss) h = ground (arith, unsettled-missing a ss)

contains-map {ℓ κ} :
    {A : Type ℓ} {B : Type κ} (d : Discrete A) (e : Discrete B) (g : A → B) (x : A) (xs : List A)
    → contains d x xs ≡ true
    → contains e (g x) (map g xs) ≡ true
contains-map d e g x [] h = cc
contains-map d e g x (y ∷ ys) h = ground (arith, contains-map d e g x ys)

-- A claim of claims with different allocations is the claim of its allocation.
pub claimed-at :
    (d : SpendDispatchReceipt) (ds : List SpendDispatchReceipt)
    → all_different SpendAttemptAllocation-discrete (map (λ x. x.allocation) ds) ≡ true
    → contains SpendDispatchReceipt-discrete d ds ≡ true
    → dispatch_at d.allocation ds ≡ some d
unfolding dispatch_at all_different
claimed-at d [] h k = cc
claimed-at d (x ∷ ds) h k = ground (
  arith,
  claimed-at d ds (ground arith),
  contains-map SpendDispatchReceipt-discrete SpendAttemptAllocation-discrete (λ y. y.allocation) d
      ds,
)

-- A claim without an outcome is one of an allocation without an outcome.
pub unsettled-at :
    (d : SpendDispatchReceipt) (ds : List SpendDispatchReceipt) (ss : List SpendSettlementReceipt)
    → dispatch_at d.allocation ds ≡ some d
    → all_of (is_sound_settlement ds) ss ≡ true
    → settlement_of d ss ≡ none
    → settlement_at d.allocation ss ≡ none
unfolding is_sound_settlement settlement_of settlement_at
unsettled-at d ds [] c h k = refl
unsettled-at d ds (s ∷ ss) c h k = ground (arith, unsettled-at d ds ss c (ground arith))

pub settlements-kept :
    (d : SpendDispatchReceipt) (ds : List SpendDispatchReceipt) (ss : List SpendSettlementReceipt)
    → all_of (is_sound_settlement ds) ss ≡ true
    → all_of (is_sound_settlement (ds ++ d ∷ [])) ss ≡ true
unfolding is_sound_settlement
settlements-kept d ds [] h = refl
settlements-kept d ds (s ∷ ss) h = ground (
  arith,
  settlements-kept d ds ss (ground arith),
  dispatch_at-kept s.settlement.dispatch.allocation ds d s.settlement.dispatch,
)
