-- ===== src/Spend/Admitted.antt =====
-- What a new execution of
-- packages/gateway-core/src/governed_llm_gateway_core/adapters/spend_admission_memory.py accounts
-- for: a denial, or a reservation with a fresh journal.
use governed_llm_gateway.Base.{
  ℕ, ◌+◌, ◌≡◌, refl, true, none, some, List, [], ◌∷◌, map, arith, Text, Text-discrete, ok,
}
use governed_llm_gateway.Spend.{
  SpendAttemptAllocation, SpendReservationRequest, all_of, all_different,
}
use governed_llm_gateway.Spend.Requests.{sum_of, reserved_micros}
use governed_llm_gateway.Spend.Receipts.{SpendJournalSnapshot, SpendAttemptState-discrete}
use governed_llm_gateway.Spend.Memory.{Execution, Image, Frozen}
use governed_llm_gateway.Spend.Audit.{
  dispatch_at, settlement_at, fences_of, issued_fences, suspended_by, attempts_of, claim_agrees,
  outcome_agrees, is_sound_owned, is_sound_execution, is_sound_slot, in_flight, slot_held,
  slot_settled,
}
use governed_llm_gateway.Spend.Worker.{
  existing_execution, no_change, denied, issued, fresh_journal, fresh_reservation, fresh_attempt,
  check_attempts,
}
use governed_llm_gateway.Spend.Counting.{count}
use governed_llm_gateway.Spend.Located.{before}
use governed_llm_gateway.Spend.Accounted.{Accounts, slots_sum}
use governed_llm_gateway.Spend.Audited.{IsFrozen, fresh_listed}
use governed_llm_gateway.Spend.Effects.{Denying, Issuing}

before_missing :
    (i : Text) (executions : List Execution) (g : Execution → ℕ)
    → existing_execution i executions ≡ none
    → before (existing_execution i executions) g ≡ 0
before_missing i executions g h = rw h refl

module _ (f : Frozen) (image : Image) (request : SpendReservationRequest) where
  pub deny-Accounts : Denying f image request → Accounts f image (denied request) no_change
  unfolding is_sound_execution issued_fences count sum_of attempts_of
  deny-Accounts h = record {
    sound = ground (arith, h.approved);
    request = λ old found. ground (arith, h.fresh);
    fences = λ x. ground (
      arith,
      before_missing request.execution_id image.executions
          (λ old. count Text-discrete x (fences_of old)) h.fresh,
    );
    fresh = refl;
    suspends = λ x. ground (
      arith,
      before_missing request.execution_id image.executions
          (λ old. count Text-discrete x (suspended_by old.settlements)) h.fresh,
    );
    held =
        ground (
          arith,
          before_missing request.execution_id image.executions (slots_sum slot_held) h.fresh,
        );
    settled = ground (
      arith,
      before_missing request.execution_id image.executions (slots_sum slot_settled) h.fresh,
    );
  }

fresh_sound :
    (j : SpendJournalSnapshot) (allocations : List SpendAttemptAllocation)
    → check_attempts (map fresh_attempt allocations) ≡ ok tt
    → all_of (is_sound_slot [] [] j) (map fresh_attempt allocations) ≡ true
unfolding check_attempts is_sound_slot dispatch_at settlement_at claim_agrees outcome_agrees
    SpendAttemptState-discrete
fresh_sound j [] h = refl
fresh_sound j (a ∷ allocations) h = ground (arith, fresh_sound j allocations)

fresh-sums :
    (allocations : List SpendAttemptAllocation)
    → (sum_of slot_held (map fresh_attempt allocations) ≡ sum_of (λ a. a.bound_micros) allocations)
      × (sum_of slot_settled (map fresh_attempt allocations) ≡ 0)
      × (in_flight (map fresh_attempt allocations) ≡ 0)
unfolding sum_of slot_held slot_settled in_flight SpendAttemptState-discrete
fresh-sums [] = (refl, refl, refl)
fresh-sums (a ∷ allocations) = ground (arith, fresh-sums allocations)

module _ (f : Frozen) (frozen : IsFrozen f) (image : Image) (request : SpendReservationRequest)
    (now : ℕ) (fence : Text) (h : Issuing f image request now fence) where
  issued-owned :
      is_sound_owned f
        (issued f request now fence)
        (fresh_reservation f request fence)
        now
        (now + f.lease)
        (fresh_journal (fresh_reservation f request fence))
      ≡ true
  unfolding is_sound_owned all_different
  issued-owned = ground (
    arith,
    h.later,
    h.reservation_ok,
    h.journal_ok,
    fresh_sound (fresh_journal (fresh_reservation f request fence)) request.allocations
        h.attempts_ok,
    fresh-sums request.allocations,
    frozen.known request h.approved,
  )

  pub issue-Accounts :
      Accounts f image
        (issued f request now fence)
        (record no_change { held_plus = reserved_micros request; fence = some fence })
  unfolding is_sound_execution issued_fences count sum_of attempts_of reserved_micros
  issue-Accounts = record {
    sound = ground (arith, h.approved, issued-owned);
    request = λ old found. ground (arith, h.fresh);
    fences = λ x. ground (
      arith,
      before_missing request.execution_id image.executions
          (λ old. count Text-discrete x (fences_of old)) h.fresh,
    );
    fresh = fresh_listed image fence h.new_fence;
    suspends = λ x. ground (
      arith,
      before_missing request.execution_id image.executions
          (λ old. count Text-discrete x (suspended_by old.settlements)) h.fresh,
    );
    held = ground (
      arith,
      before_missing request.execution_id image.executions (slots_sum slot_held) h.fresh,
      fresh-sums request.allocations,
    );
    settled = ground (
      arith,
      before_missing request.execution_id image.executions (slots_sum slot_settled) h.fresh,
      fresh-sums request.allocations,
    );
  }
