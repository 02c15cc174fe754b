-- ===== src/Spend/Slots.antt =====
-- The slots of a journal of
-- packages/gateway-core/src/governed_llm_gateway_core/adapters/spend_admission_memory.py under a
-- claim, a settlement and closure: each stays sound, and what it counts for.
use governed_llm_gateway.Base.{
  ℕ, ◌+◌, ◌≤◌, ◌≡◌, ◌≢◌, ◌⊎◌, inl, inr, refl, true, false, none, some, List, [], ◌∷◌, ◌++◌, map,
  arith, Text, contains, same, if◌then◌else◌, ok, Option-cases,
}
use governed_llm_gateway.Spend.{
  SpendAttemptAllocation, SpendAttemptAllocation-discrete, all_of, all_different,
}
use governed_llm_gateway.Spend.Requests.{sum_of}
use governed_llm_gateway.Spend.Receipts.{
  SpendReservation, SpendDispatchReceipt, SpendSettlement, SpendSettlementReceipt, reserved,
  may_have_executed, closed_unused, SpendAttemptState-discrete, SpendAttemptSnapshot, check_attempt,
  check_fence, SpendJournalSnapshot,
}
use governed_llm_gateway.Spend.Memory.{passes}
use governed_llm_gateway.Spend.Audit.{
  dispatch_at, settlement_at, claim_agrees, outcome_agrees, is_sound_slot, in_flight, slot_held,
  slot_settled,
}
use governed_llm_gateway.Spend.Worker.{
  claim_slot, claim_receipt, claimed_journal, check_attempts, settle_slot, settlement_receipt,
  settled_journal, close_slot, closed_journal, unused_micros, is_in_flight,
}
use governed_llm_gateway.Spend.Counting.{count}

pub dispatch_at-append :
    (x : SpendAttemptAllocation) (ds : List SpendDispatchReceipt) (d : SpendDispatchReceipt)
    → same SpendAttemptAllocation-discrete d.allocation x ≡ false
    → dispatch_at x (ds ++ d ∷ []) ≡ dispatch_at x ds
unfolding dispatch_at
dispatch_at-append x [] d h = ground arith
dispatch_at-append x (c ∷ ds) d h = ground (arith, dispatch_at-append x ds d h)

pub dispatch_at-last :
    (x : SpendAttemptAllocation) (ds : List SpendDispatchReceipt) (d : SpendDispatchReceipt)
    → dispatch_at x ds ≡ none
    → d.allocation ≡ x
    → dispatch_at x (ds ++ d ∷ []) ≡ some d
unfolding dispatch_at
dispatch_at-last x [] d h e = ground arith
dispatch_at-last x (c ∷ ds) d h e = ground (arith, dispatch_at-last x ds d)

pub dispatch_at-kept :
    (x : SpendAttemptAllocation) (ds : List SpendDispatchReceipt) (d y : SpendDispatchReceipt)
    → dispatch_at x ds ≡ some y
    → dispatch_at x (ds ++ d ∷ []) ≡ some y
unfolding dispatch_at
dispatch_at-kept x [] d y h = cc
dispatch_at-kept x (c ∷ ds) d y h = ground (arith, dispatch_at-kept x ds d y)

pub settlement_at-append :
    (x : SpendAttemptAllocation) (ss : List SpendSettlementReceipt) (s : SpendSettlementReceipt)
    → same SpendAttemptAllocation-discrete s.settlement.dispatch.allocation x ≡ false
    → settlement_at x (ss ++ s ∷ []) ≡ settlement_at x ss
unfolding settlement_at
settlement_at-append x [] s h = ground arith
settlement_at-append x (c ∷ ss) s h = ground (arith, settlement_at-append x ss s h)

pub settlement_at-last :
    (x : SpendAttemptAllocation) (ss : List SpendSettlementReceipt) (s : SpendSettlementReceipt)
    → settlement_at x ss ≡ none
    → s.settlement.dispatch.allocation ≡ x
    → settlement_at x (ss ++ s ∷ []) ≡ some s
unfolding settlement_at
settlement_at-last x [] s h e = ground arith
settlement_at-last x (c ∷ ss) s h e = ground (arith, settlement_at-last x ss s)

-- A slot that shows no dispatch fence is unused, and one that shows one is not.
unfenced-unused :
    (slot : SpendAttemptSnapshot)
    → passes (check_attempt slot) ≡ true
    → slot.dispatch_fence ≡ none
    → (slot.state ≡ reserved) ⊎ (slot.state ≡ closed_unused)
unfolding check_attempt check_fence
unfenced-unused slot h e = ground arith

fenced-used :
    (slot : SpendAttemptSnapshot) (fence : Text)
    → passes (check_attempt slot) ≡ true
    → slot.dispatch_fence ≡ some fence
    → (slot.state ≢ reserved) × (slot.state ≢ closed_unused)
unfolding check_attempt check_fence
fenced-used slot fence h e = ground arith

module _ (ds : List SpendDispatchReceipt) (ss : List SpendSettlementReceipt)
    (j : SpendJournalSnapshot) (slot : SpendAttemptSnapshot)
    (sound : is_sound_slot ds ss j slot ≡ true) (is_open : j.closed ≡ false) where
  -- The slot of an allocation that nobody claimed, in an open journal.
  unclaimed-reserved :
      dispatch_at slot.allocation ds ≡ none
      → (slot.state ≡ reserved) × (settlement_at slot.allocation ss ≡ none)
  unfolding is_sound_slot claim_agrees outcome_agrees SpendAttemptState-discrete
  unclaimed-reserved h = ground (arith, unfenced-unused slot)

  -- The slot of a claim that has no outcome yet.
  unsettled-in_flight :
      (d : SpendDispatchReceipt)
      → dispatch_at slot.allocation ds ≡ some d
      → settlement_at slot.allocation ss ≡ none
      → slot.state ≡ may_have_executed
  unfolding is_sound_slot claim_agrees outcome_agrees SpendAttemptState-discrete
  unsettled-in_flight d h k = elim (Option-cases slot.dispatch_fence) [
    | inl e ↦ ground arith
    | inr (fence, e) ↦ ground (arith, fenced-used slot fence (ground arith) e)
  ]

module _ (ds : List SpendDispatchReceipt) (ss : List SpendSettlementReceipt)
    (j : SpendJournalSnapshot) (is_open : j.closed ≡ false) (r : SpendReservation)
    (a : SpendAttemptAllocation) (fence : Text) (unclaimed : dispatch_at a ds ≡ none) where
  claim_sound :
      (slot : SpendAttemptSnapshot)
      → is_sound_slot ds ss j slot ≡ true
      → check_attempt (claim_slot a fence slot) ≡ ok tt
      → is_sound_slot
          (ds ++ claim_receipt r a fence ∷ [])
          ss
          (claimed_journal a fence j)
          (claim_slot a fence slot)
        ≡ true
  unfolding is_sound_slot claim_agrees outcome_agrees claim_slot SpendAttemptState-discrete
  claim_sound slot sound checked = ground (
    arith,
    unclaimed-reserved ds ss j slot sound is_open,
    dispatch_at-last a ds (claim_receipt r a fence) unclaimed refl,
    dispatch_at-append slot.allocation ds (claim_receipt r a fence),
  )

  pub claims_sound :
      (slots : List SpendAttemptSnapshot)
      → all_of (is_sound_slot ds ss j) slots ≡ true
      → check_attempts (map (claim_slot a fence) slots) ≡ ok tt
      → all_of
          (is_sound_slot (ds ++ claim_receipt r a fence ∷ []) ss (claimed_journal a fence j))
          (map (claim_slot a fence) slots)
        ≡ true
  unfolding check_attempts
  claims_sound [] h c = refl
  claims_sound (slot ∷ slots) h c =
      ground (arith, claim_sound slot (ground arith), claims_sound slots (ground arith))

  claim-held :
      (slot : SpendAttemptSnapshot)
      → is_sound_slot ds ss j slot ≡ true
      → (slot_held (claim_slot a fence slot) ≡ slot_held slot)
        × (slot_settled (claim_slot a fence slot) ≡ slot_settled slot)
  unfolding slot_held slot_settled claim_slot SpendAttemptState-discrete
  claim-held slot sound = ground (arith, unclaimed-reserved ds ss j slot sound is_open)

  pub claims-held :
      (slots : List SpendAttemptSnapshot)
      → all_of (is_sound_slot ds ss j) slots ≡ true
      → (sum_of slot_held (map (claim_slot a fence) slots) ≡ sum_of slot_held slots)
        × (sum_of slot_settled (map (claim_slot a fence) slots) ≡ sum_of slot_settled slots)
  unfolding sum_of
  claims-held [] h = (refl, refl)
  claims-held (slot ∷ slots) h =
      ground (arith, claim-held slot (ground arith), claims-held slots (ground arith))

-- A claim puts as many slots in flight as have its allocation.
pub claims-in_flight :
    (a : SpendAttemptAllocation) (fence : Text) (slots : List SpendAttemptSnapshot)
    → in_flight (map (claim_slot a fence) slots)
      ≤ in_flight slots
        + count SpendAttemptAllocation-discrete a (map (λ slot. slot.allocation) slots)
unfolding in_flight sum_of count claim_slot SpendAttemptState-discrete
claims-in_flight a fence [] = ground arith
claims-in_flight a fence (slot ∷ slots) = ground (arith, claims-in_flight a fence slots)

pub idle-in_flight :
    (slots : List SpendAttemptSnapshot) → is_in_flight slots ≡ false → in_flight slots ≡ 0
unfolding in_flight sum_of is_in_flight
idle-in_flight [] h = refl
idle-in_flight (slot ∷ slots) h = ground (arith, idle-in_flight slots)

module _ (ds : List SpendDispatchReceipt) (ss : List SpendSettlementReceipt)
    (j : SpendJournalSnapshot) (is_open : j.closed ≡ false) (settlement : SpendSettlement)
    (fence : Text)
    (claimed : dispatch_at settlement.dispatch.allocation ds ≡ some settlement.dispatch)
    (unsettled : settlement_at settlement.dispatch.allocation ss ≡ none) where
  settle_sound :
      (slot : SpendAttemptSnapshot)
      → is_sound_slot ds ss j slot ≡ true
      → check_attempt (settle_slot settlement slot) ≡ ok tt
      → is_sound_slot ds
          (ss ++ settlement_receipt settlement fence ∷ [])
          (settled_journal settlement j)
          (settle_slot settlement slot)
        ≡ true
  unfolding is_sound_slot outcome_agrees settle_slot SpendAttemptState-discrete
  settle_sound slot sound checked = ground (
    arith,
    settlement_at-last settlement.dispatch.allocation ss (settlement_receipt settlement fence)
        unsettled refl,
    settlement_at-append slot.allocation ss (settlement_receipt settlement fence),
  )

  pub settles_sound :
      (slots : List SpendAttemptSnapshot)
      → all_of (is_sound_slot ds ss j) slots ≡ true
      → check_attempts (map (settle_slot settlement) slots) ≡ ok tt
      → all_of
          (is_sound_slot ds
            (ss ++ settlement_receipt settlement fence ∷ [])
            (settled_journal settlement j))
          (map (settle_slot settlement) slots)
        ≡ true
  unfolding check_attempts
  settles_sound [] h c = refl
  settles_sound (slot ∷ slots) h c =
      ground (arith, settle_sound slot (ground arith), settles_sound slots (ground arith))

  -- What a slot counts for, if it is the slot of the settlement.
  abbrev pub picked : ℕ → SpendAttemptSnapshot → ℕ
  picked n slot =
      if same SpendAttemptAllocation-discrete slot.allocation settlement.dispatch.allocation
      then n
      else 0

  known-held :
      (amount : ℕ) (slot : SpendAttemptSnapshot)
      → settlement.estimated_micros ≡ some amount
      → is_sound_slot ds ss j slot ≡ true
      → (slot_held (settle_slot settlement slot)
            + picked settlement.dispatch.allocation.bound_micros slot
          ≡ slot_held slot)
        × (slot_settled (settle_slot settlement slot) ≡ slot_settled slot + picked amount slot)
  unfolding slot_held slot_settled settle_slot SpendAttemptState-discrete
  known-held amount slot known sound =
      ground (arith, unsettled-in_flight ds ss j slot sound is_open settlement.dispatch)

  unknown-held :
      (slot : SpendAttemptSnapshot)
      → settlement.estimated_micros ≡ none
      → is_sound_slot ds ss j slot ≡ true
      → (slot_held (settle_slot settlement slot) ≡ slot_held slot)
        × (slot_settled (settle_slot settlement slot) ≡ slot_settled slot)
  unfolding slot_held slot_settled settle_slot SpendAttemptState-discrete
  unknown-held slot unknown_cost sound =
      ground (arith, unsettled-in_flight ds ss j slot sound is_open settlement.dispatch)

  pub knowns-held :
      (amount : ℕ) (slots : List SpendAttemptSnapshot)
      → settlement.estimated_micros ≡ some amount
      → all_of (is_sound_slot ds ss j) slots ≡ true
      → (sum_of slot_held (map (settle_slot settlement) slots)
            + sum_of (picked settlement.dispatch.allocation.bound_micros) slots
          ≡ sum_of slot_held slots)
        × (sum_of slot_settled (map (settle_slot settlement) slots)
            ≡ sum_of slot_settled slots + sum_of (picked amount) slots)
  unfolding sum_of
  knowns-held amount [] known h = ground arith
  knowns-held amount (slot ∷ slots) known h = ground (
    arith,
    known-held amount slot known (ground arith),
    knowns-held amount slots known (ground arith),
  )

  pub unknowns-held :
      (slots : List SpendAttemptSnapshot)
      → settlement.estimated_micros ≡ none
      → all_of (is_sound_slot ds ss j) slots ≡ true
      → (sum_of slot_held (map (settle_slot settlement) slots) ≡ sum_of slot_held slots)
        × (sum_of slot_settled (map (settle_slot settlement) slots) ≡ sum_of slot_settled slots)
  unfolding sum_of
  unknowns-held [] unknown_cost h = (refl, refl)
  unknowns-held (slot ∷ slots) unknown_cost h = ground (
    arith,
    unknown-held slot unknown_cost (ground arith),
    unknowns-held slots unknown_cost (ground arith),
  )

-- A settlement leaves no more in flight.
pub settles-in_flight :
    (settlement : SpendSettlement) (slots : List SpendAttemptSnapshot)
    → in_flight (map (settle_slot settlement) slots) ≤ in_flight slots
unfolding in_flight sum_of settle_slot SpendAttemptState-discrete
settles-in_flight settlement [] = ground arith
settles-in_flight settlement (slot ∷ slots) = ground (arith, settles-in_flight settlement slots)

missing-picked :
    (a : SpendAttemptAllocation) (n : ℕ) (slots : List SpendAttemptSnapshot)
    → contains SpendAttemptAllocation-discrete a (map (λ slot. slot.allocation) slots) ≡ false
    → sum_of (λ slot. if same SpendAttemptAllocation-discrete slot.allocation a then n else 0) slots
      ≡ 0
unfolding sum_of
missing-picked a n [] h = refl
missing-picked a n (slot ∷ slots) h = ground (arith, missing-picked a n slots)

-- Of slots with different allocations, one has that of the settlement.
pub one-picked :
    (a : SpendAttemptAllocation) (n : ℕ) (slots : List SpendAttemptSnapshot)
    → all_different SpendAttemptAllocation-discrete (map (λ slot. slot.allocation) slots) ≡ true
    → contains SpendAttemptAllocation-discrete a (map (λ slot. slot.allocation) slots) ≡ true
    → sum_of (λ slot. if same SpendAttemptAllocation-discrete slot.allocation a then n else 0) slots
      ≡ n
unfolding sum_of all_different
one-picked a n [] h k = cc
one-picked a n (slot ∷ slots) h k =
    ground (arith, one-picked a n slots (ground arith), missing-picked a n slots)

module _ (ds : List SpendDispatchReceipt) (ss : List SpendSettlementReceipt)
    (j : SpendJournalSnapshot) (is_open : j.closed ≡ false) (fence : Text) where
  close_sound :
      (slot : SpendAttemptSnapshot)
      → is_sound_slot ds ss j slot ≡ true
      → check_attempt (close_slot slot) ≡ ok tt
      → is_sound_slot ds ss (closed_journal fence j) (close_slot slot) ≡ true
  unfolding is_sound_slot outcome_agrees close_slot SpendAttemptState-discrete
  close_sound slot sound checked = ground arith

  pub closes_sound :
      (slots : List SpendAttemptSnapshot)
      → all_of (is_sound_slot ds ss j) slots ≡ true
      → check_attempts (map close_slot slots) ≡ ok tt
      → all_of (is_sound_slot ds ss (closed_journal fence j)) (map close_slot slots) ≡ true
  unfolding check_attempts
  closes_sound [] h c = refl
  closes_sound (slot ∷ slots) h c =
      ground (arith, close_sound slot (ground arith), closes_sound slots (ground arith))

pub closes-held :
    (slots : List SpendAttemptSnapshot)
    → (sum_of slot_held (map close_slot slots) + unused_micros slots ≡ sum_of slot_held slots)
      × (sum_of slot_settled (map close_slot slots) ≡ sum_of slot_settled slots)
unfolding sum_of unused_micros slot_held slot_settled close_slot SpendAttemptState-discrete
closes-held [] = ground arith
closes-held (slot ∷ slots) = ground (arith, closes-held slots)

pub closes-in_flight : (slots : List SpendAttemptSnapshot) → in_flight (map close_slot slots) ≡ 0
unfolding in_flight sum_of close_slot SpendAttemptState-discrete
closes-in_flight [] = refl
closes-in_flight (slot ∷ slots) = ground (arith, closes-in_flight slots)
