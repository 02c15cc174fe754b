-- ===== src/Spend/Audited.antt =====
-- What the five publications of
-- packages/gateway-core/src/governed_llm_gateway_core/adapters/spend_admission_memory.py account
-- for in a valid image.
use governed_llm_gateway.Base.{
  ℕ, ◌+◌, ◌≡◌, refl, subst, true, Option, none, some, List, [], ◌∷◌, ◌++◌, map, arith, Text,
  Text-discrete, contains, same, Option-cases, inl, inr, lookup, not, if◌then◌else◌,
}
use governed_llm_gateway.Spend.{
  SpendAttemptAllocation, SpendAttemptAllocation-discrete, SpendReservationRequest, check_budget,
  all_of, all_different, SpendBudgetScope-discrete,
}
use governed_llm_gateway.Spend.Requests.{sum_of, scopes_of}
use governed_llm_gateway.Spend.Receipts.{
  SpendReservation, SpendDispatchReceipt, SpendDispatchReceipt-discrete, SpendSettlement,
  SpendSettlementReceipt, SpendJournalSnapshot, check_dispatch, check_journal, bound_exceeded,
  SpendAttemptSnapshot,
}
use governed_llm_gateway.Spend.Memory.{Execution, Image, Frozen, passes}
use governed_llm_gateway.Spend.Audit.{
  dispatch_at, settlement_at, fences_of, issued_fences, suspended_by, attempts_of, is_sound_owned,
  is_sound_dispatch, is_sound_settlement, is_approved, slot_held, slot_settled, one_if,
  closure_fences,
}
use governed_llm_gateway.Spend.Worker.{
  existing_execution, claim_receipt, claimed, claimed_journal, claim_slot, no_change, with_outcome,
  outcome_change, settled_journal, settlement_receipt, closed_journal, unused_micros,
}
use governed_llm_gateway.Spend.Counting.{
  count, sum_of-append, sum_of-map, all_of-append, all_of-contains, count_of_different,
}
use governed_llm_gateway.Spend.Located.{id_of, before}
use governed_llm_gateway.Spend.Accounted.{Accounts, listed, slots_sum}
use governed_llm_gateway.Spend.Slots.{
  claims_sound, claims-held, claims-in_flight, idle-in_flight, settles_sound, settles-in_flight,
  knowns-held, unknowns-held, one-picked, closes_sound, closes-held, closes-in_flight,
}
use governed_llm_gateway.Spend.Owned.{
  IsOwned, sound_of_owned, different-snoc, map-append, unclaimed-missing, unsettled-missing,
  claimed-at, unsettled-at, settlements-kept,
}
use governed_llm_gateway.Spend.Effects.{IsFresh, Owning, Claiming, Settling, Closing}

-- What construction guarantees of every approved request.
pub record IsFrozen (f : Frozen) : Type 0 where
  pub different :
      (r : SpendReservationRequest)
      → is_approved (lookup Text-discrete r.execution_id f.approved) r ≡ true
      → all_different SpendAttemptAllocation-discrete r.allocations ≡ true
  pub known :
      (r : SpendReservationRequest)
      → is_approved (lookup Text-discrete r.execution_id f.approved) r ≡ true
      → all_of
          (λ scope. contains SpendBudgetScope-discrete scope (map (λ b. b.limit.scope) f.opening))
          (scopes_of r)
        ≡ true
  pub checked : all_of (λ b. passes (check_budget b)) f.opening ≡ true

-- What an execution that was found counted for.
before_found :
    (i : Text) (executions : List Execution) (e : Execution) (g : Execution → ℕ)
    → existing_execution i executions ≡ some e
    → before (existing_execution i executions) g ≡ g e
before_found i executions e g found = rw found refl

pub fresh_listed :
    (image : Image) (fence : Text)
    → IsFresh image fence
    → all_of (λ t. not (contains Text-discrete t image.fences)) (listed (some fence)) ≡ true
fresh_listed image fence h = ground arith

found_request :
    (i : Text) (executions : List Execution) (e old : Execution)
    → existing_execution i executions ≡ some e
    → existing_execution i executions ≡ some old
    → old.request ≡ e.request
found_request i executions e old found h = ground arith

-- The fences that each list of receipts adds to the count.
module _ (x : Text) where
  abbrev claim_count : List SpendDispatchReceipt → ℕ
  claim_count = sum_of (λ d. one_if (same Text-discrete x d.dispatch_fence))

  abbrev outcome_count : List SpendSettlementReceipt → ℕ
  outcome_count = sum_of (λ s. one_if (same Text-discrete x s.settlement_fence))

  fences-count :
      (r : SpendReservation) (ds : List SpendDispatchReceipt) (ss : List SpendSettlementReceipt)
      (j : SpendJournalSnapshot)
      → count Text-discrete x (issued_fences (some r) ds ss (some j))
        ≡ one_if (same Text-discrete x r.owner_fence)
          + claim_count ds
          + outcome_count ss
          + count Text-discrete x (closure_fences j.closed j.closure_fence)
  unfolding issued_fences count sum_of
  fences-count r ds ss j =
      let of_text = λ (y : Text). one_if (same Text-discrete x y) in
      omega (
        arith,
        sum_of-append of_text (map (λ d. d.dispatch_fence) ds)
            (map (λ s. s.settlement_fence) ss ++ closure_fences j.closed j.closure_fence),
        sum_of-append of_text (map (λ s. s.settlement_fence) ss)
            (closure_fences j.closed j.closure_fence),
        sum_of-map of_text (λ (d : SpendDispatchReceipt). d.dispatch_fence) ds,
        sum_of-map of_text (λ (s : SpendSettlementReceipt). s.settlement_fence) ss,
      )

suspended-snoc :
    (x : Text) (ss : List SpendSettlementReceipt) (s : SpendSettlementReceipt)
    → count Text-discrete x (suspended_by (ss ++ s ∷ []))
      ≡ count Text-discrete x (suspended_by ss)
        + count Text-discrete x (
            listed (
              if bound_exceeded s
              then some s.settlement.dispatch.allocation.deployment_id
              else none))
unfolding count sum_of
suspended-snoc x [] s = ground arith
suspended-snoc x (c ∷ ss) s = ground (arith, suspended-snoc x ss s)

module _ (f : Frozen) (frozen : IsFrozen f) (image : Image) (e : Execution) (r : SpendReservation)
    (j : SpendJournalSnapshot) (own : Owning image e r j) (known : IsOwned f image e r j) where
  -- The plan that the journal covers.
  planned : map (λ slot. slot.allocation) j.attempts ≡ r.request.allocations
  unfolding is_sound_owned check_journal
  planned = ground (arith, known.sound)

  plan-different :
      all_different SpendAttemptAllocation-discrete (map (λ slot. slot.allocation) j.attempts)
      ≡ true
  unfolding is_sound_owned
  plan-different =
      let same_request : e.request ≡ r.request = ground (arith, known.sound) in
      rw planned (
        subst (λ q. all_different SpendAttemptAllocation-discrete q.allocations ≡ true) same_request
          (frozen.different e.request known.approved))

  claim-owned :
      (a : SpendAttemptAllocation) (fence : Text)
      → Claiming image e r a j fence
      → is_sound_owned f
          (claimed e r a fence j)
          r
          known.admitted
          known.expires
          (claimed_journal a fence j)
        ≡ true
  unfolding is_sound_owned is_sound_dispatch
  claim-owned a fence h = ground (
    arith,
    known.sound,
    map-append (λ (d : SpendDispatchReceipt). d.allocation) e.dispatches
        (claim_receipt r a fence ∷ []),
    different-snoc SpendAttemptAllocation-discrete (map (λ d. d.allocation) e.dispatches) a
        (ground (arith, known.sound)) (unclaimed-missing a e.dispatches h.unclaimed),
    claims-in_flight a fence j.attempts,
    idle-in_flight j.attempts h.idle,
    count_of_different SpendAttemptAllocation-discrete (map (λ slot. slot.allocation) j.attempts)
        plan-different a,
    all_of-append (is_sound_dispatch r) e.dispatches (claim_receipt r a fence ∷ [])
        (ground (arith, known.sound)) (ground (arith, h.receipt_ok)),
    settlements-kept (claim_receipt r a fence) e.dispatches e.settlements
        (ground (arith, known.sound)),
    claims_sound e.dispatches e.settlements j own.is_open r a fence h.unclaimed j.attempts
        (ground (arith, known.sound)) h.attempts_ok,
  )

  before_e : (g : Execution → ℕ) → before (existing_execution (id_of e) image.executions) g ≡ g e
  before_e g = before_found (id_of e) image.executions e g known.found

  slots_sum-e : (amount : SpendAttemptSnapshot → ℕ) → slots_sum amount e ≡ sum_of amount j.attempts
  unfolding attempts_of
  slots_sum-e amount = ground (arith, own.journal)

  fences_with :
      (x : Text) (ds : List SpendDispatchReceipt) (ss : List SpendSettlementReceipt)
      (o : Option SpendJournalSnapshot) (k : SpendJournalSnapshot)
      → o ≡ some k
      → count Text-discrete x (issued_fences e.reservation ds ss o)
        ≡ one_if (same Text-discrete x r.owner_fence)
          + claim_count x ds
          + outcome_count x ss
          + count Text-discrete x (closure_fences k.closed k.closure_fence)
  fences_with x ds ss o k is = ground (arith, fences-count x r ds ss k, own.held)

  -- The fences of the execution, and what it counted for.
  fences_before :
      (x : Text)
      → before
          (existing_execution (id_of e) image.executions)
          (λ old. count Text-discrete x (fences_of old))
        ≡ one_if (same Text-discrete x r.owner_fence)
          + claim_count x e.dispatches
          + outcome_count x e.settlements
  unfolding count sum_of
  fences_before x = ground (
    arith,
    before_e (λ old. count Text-discrete x (fences_of old)),
    fences_with x e.dispatches e.settlements e.journal j own.journal,
    own.is_open,
  )

  suspended_before :
      (x : Text)
      → count Text-discrete x (suspended_by e.settlements)
        ≡ before
            (existing_execution (id_of e) image.executions)
            (λ old. count Text-discrete x (suspended_by old.settlements))
          + count Text-discrete x []
  unfolding count sum_of
  suspended_before x =
      omega (arith, before_e (λ old. count Text-discrete x (suspended_by old.settlements)))

  claim-fences :
      (a : SpendAttemptAllocation) (fence x : Text)
      → count Text-discrete x (fences_of (claimed e r a fence j))
        ≡ before
            (existing_execution (id_of e) image.executions)
            (λ old. count Text-discrete x (fences_of old))
          + count Text-discrete x (listed (some fence))
  unfolding count sum_of
  claim-fences a fence x = ground (
    arith,
    fences_before x,
    fences_with x (e.dispatches ++ claim_receipt r a fence ∷ []) e.settlements
        (some (claimed_journal a fence j)) (claimed_journal a fence j) refl,
    sum_of-append (λ (d : SpendDispatchReceipt). one_if (same Text-discrete x d.dispatch_fence))
        e.dispatches (claim_receipt r a fence ∷ []),
    own.is_open,
  )

  claim-sums :
      (a : SpendAttemptAllocation) (fence : Text)
      → Claiming image e r a j fence
      → (sum_of slot_held (map (claim_slot a fence) j.attempts) ≡ sum_of slot_held j.attempts)
        × (sum_of slot_settled (map (claim_slot a fence) j.attempts)
            ≡ sum_of slot_settled j.attempts)
  unfolding is_sound_owned
  claim-sums a fence h =
      claims-held e.dispatches e.settlements j own.is_open r a fence h.unclaimed j.attempts
        (ground (arith, known.sound))

  pub claim-Accounts :
      (a : SpendAttemptAllocation) (fence : Text)
      → Claiming image e r a j fence
      → Accounts f image (claimed e r a fence j) (record no_change { fence = some fence })
  unfolding attempts_of
  claim-Accounts a fence h = record {
    sound =
        sound_of_owned f (claimed e r a fence j) r (claimed_journal a fence j) known.admitted
          known.expires own.held refl known.admitted_at known.expires_at known.approved
          (claim-owned a fence h);
    request = λ old old_found. found_request (id_of e) image.executions e old known.found old_found;
    fences = λ x. claim-fences a fence x;
    fresh = fresh_listed image fence h.new_fence;
    suspends = suspended_before;
    held =
        ground (arith, before_e (slots_sum slot_held), slots_sum-e slot_held, claim-sums a fence h);
    settled =
        ground (
          arith,
          before_e (slots_sum slot_settled),
          slots_sum-e slot_settled,
          claim-sums a fence h,
        );
  }

  module _ (settlement : SpendSettlement) (fence : Text)
      (same_owner : settlement.dispatch.reservation ≡ r)
      (h : Settling image e settlement j fence) where
    claimed_once :
        dispatch_at settlement.dispatch.allocation e.dispatches ≡ some settlement.dispatch
    unfolding is_sound_owned
    claimed_once =
        claimed-at settlement.dispatch e.dispatches (ground (arith, known.sound)) h.dispatched

    no_outcome : settlement_at settlement.dispatch.allocation e.settlements ≡ none
    unfolding is_sound_owned
    no_outcome =
        unsettled-at settlement.dispatch e.dispatches e.settlements claimed_once
          (ground (arith, known.sound)) h.unsettled

    settle-owned :
        is_sound_owned f
          (with_outcome e settlement fence j)
          r
          known.admitted
          known.expires
          (settled_journal settlement j)
        ≡ true
    unfolding is_sound_owned is_sound_settlement
    settle-owned = ground (
      arith,
      known.sound,
      map-append (λ (s : SpendSettlementReceipt). s.settlement.dispatch.allocation) e.settlements
          (settlement_receipt settlement fence ∷ []),
      different-snoc SpendAttemptAllocation-discrete
          (map (λ s. s.settlement.dispatch.allocation) e.settlements) settlement.dispatch.allocation
          (ground (arith, known.sound))
          (unsettled-missing settlement.dispatch.allocation e.settlements no_outcome),
      settles-in_flight settlement j.attempts,
      all_of-append (is_sound_settlement e.dispatches) e.settlements
          (settlement_receipt settlement fence ∷ []) (ground (arith, known.sound))
          (ground (arith, h.receipt_ok, claimed_once)),
      settles_sound e.dispatches e.settlements j own.is_open settlement fence claimed_once
          no_outcome j.attempts (ground (arith, known.sound)) h.attempts_ok,
    )

    settle-fences :
        (x : Text)
        → count Text-discrete x (fences_of (with_outcome e settlement fence j))
          ≡ before
              (existing_execution (id_of e) image.executions)
              (λ old. count Text-discrete x (fences_of old))
            + count Text-discrete x (listed (some fence))
    unfolding count sum_of
    settle-fences x = ground (
      arith,
      fences_before x,
      fences_with x e.dispatches (e.settlements ++ settlement_receipt settlement fence ∷ [])
          (some (settled_journal settlement j)) (settled_journal settlement j) refl,
      sum_of-append
          (λ (s : SpendSettlementReceipt). one_if (same Text-discrete x s.settlement_fence))
          e.settlements (settlement_receipt settlement fence ∷ []),
      own.is_open,
    )

    settle-suspends :
        (x : Text)
        → count Text-discrete x (suspended_by (with_outcome e settlement fence j).settlements)
          ≡ before
              (existing_execution (id_of e) image.executions)
              (λ old. count Text-discrete x (suspended_by old.settlements))
            + count Text-discrete x (listed (outcome_change settlement fence).suspended_model)
    unfolding count sum_of
    settle-suspends x = ground (
      arith,
      before_e (λ old. count Text-discrete x (suspended_by old.settlements)),
      suspended-snoc x e.settlements (settlement_receipt settlement fence),
    )

    -- The allocation is one of the plan.
    allocated :
        contains SpendAttemptAllocation-discrete settlement.dispatch.allocation
          (map (λ slot. slot.allocation) j.attempts)
        ≡ true
    unfolding is_sound_owned is_sound_dispatch check_dispatch
    allocated = rw planned (
        ground (
          arith,
          known.sound,
          all_of-contains SpendDispatchReceipt-discrete (is_sound_dispatch r) settlement.dispatch
              e.dispatches (ground (arith, known.sound)) h.dispatched,
          same_owner,
        ))

    settle-sums :
        (slots_sum slot_held (with_outcome e settlement fence j)
            + (outcome_change settlement fence).held_minus
          ≡ sum_of slot_held j.attempts + (outcome_change settlement fence).held_plus)
        × (slots_sum slot_settled (with_outcome e settlement fence j)
            ≡ sum_of slot_settled j.attempts + (outcome_change settlement fence).settled_delta)
    unfolding is_sound_owned attempts_of
    settle-sums = elim (Option-cases settlement.estimated_micros) [
      | inl unknown_cost ↦ ground (
        arith,
        unknowns-held e.dispatches e.settlements j own.is_open settlement fence claimed_once
            no_outcome j.attempts unknown_cost (ground (arith, known.sound)),
      )
      | inr (amount, known_cost) ↦ ground (
        arith,
        knowns-held e.dispatches e.settlements j own.is_open settlement fence claimed_once
            no_outcome amount j.attempts known_cost (ground (arith, known.sound)),
        one-picked settlement.dispatch.allocation settlement.dispatch.allocation.bound_micros
            j.attempts plan-different allocated,
        one-picked settlement.dispatch.allocation amount j.attempts plan-different allocated,
      )
    ]

    pub settle-Accounts :
        Accounts f image (with_outcome e settlement fence j) (outcome_change settlement fence)
    settle-Accounts = record {
      sound =
          sound_of_owned f (with_outcome e settlement fence j) r (settled_journal settlement j)
            known.admitted known.expires own.held refl known.admitted_at known.expires_at
            known.approved settle-owned;
      request =
          λ old old_found. found_request (id_of e) image.executions e old known.found old_found;
      fences = settle-fences;
      fresh = fresh_listed image fence h.new_fence;
      suspends = settle-suspends;
      held = ground (arith, before_e (slots_sum slot_held), slots_sum-e slot_held, settle-sums);
      settled =
          ground (arith, before_e (slots_sum slot_settled), slots_sum-e slot_settled, settle-sums);
    }

  close-owned :
      (fence : Text)
      → Closing image e r j fence
      → is_sound_owned f
          (record e { journal = some (closed_journal fence j) })
          r
          known.admitted
          known.expires
          (closed_journal fence j)
        ≡ true
  unfolding is_sound_owned
  close-owned fence h = ground (
    arith,
    known.sound,
    closes-in_flight j.attempts,
    closes_sound e.dispatches e.settlements j own.is_open fence j.attempts
        (ground (arith, known.sound)) h.attempts_ok,
  )

  close-fences :
      (fence x : Text)
      → count Text-discrete x (fences_of (record e { journal = some (closed_journal fence j) }))
        ≡ before
            (existing_execution (id_of e) image.executions)
            (λ old. count Text-discrete x (fences_of old))
          + count Text-discrete x (listed (some fence))
  unfolding count sum_of
  close-fences fence x = ground (
    arith,
    fences_before x,
    fences_with x e.dispatches e.settlements (some (closed_journal fence j))
        (closed_journal fence j) refl,
  )

  pub close-Accounts :
      (fence : Text)
      → Closing image e r j fence
      → Accounts f image
          (record e { journal = some (closed_journal fence j) })
          (record no_change { held_minus = unused_micros j.attempts; fence = some fence })
  unfolding attempts_of
  close-Accounts fence h = record {
    sound =
        sound_of_owned f (record e { journal = some (closed_journal fence j) }) r
          (closed_journal fence j) known.admitted known.expires own.held refl known.admitted_at
          known.expires_at known.approved (close-owned fence h);
    request = λ old old_found. found_request (id_of e) image.executions e old known.found old_found;
    fences = close-fences fence;
    fresh = fresh_listed image fence h.new_fence;
    suspends = suspended_before;
    held =
        ground
          (arith, before_e (slots_sum slot_held), slots_sum-e slot_held, closes-held j.attempts);
    settled = ground (
      arith,
      before_e (slots_sum slot_settled),
      slots_sum-e slot_settled,
      closes-held j.attempts,
    );
  }
