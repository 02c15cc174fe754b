-- ===== src/Spend/Receipts.antt =====
-- What the store of spend admission issues and projects:
-- packages/gateway-core/src/governed_llm_gateway_core/domain/spend_admission.py, the receipts, the
-- slots of a journal and the journal. Time is in ticks.
use governed_llm_gateway.Base.{
  ℕ, ℕ_discrete, Bool, true, false, not, ◌||◌, Option, none, some, List, [], ◌∷◌, map, ltb, ◌==◌,
  Text, Text-discrete, raised, raise_if, ◌>>◌, same, contains, is_none,
}
use governed_llm_gateway.Spend.{
  Checked, contract_error, SpendAttemptAllocation, SpendAttemptAllocation-discrete,
  SpendReservationRequest, SpendReservationRequest-discrete, any_of, is_opaque_id, require_id,
  require_some_id, require_integer,
}

-- `SpendReservation`.
pub record SpendReservation : Type 0 where
  pub request : SpendReservationRequest
  pub owner_fence : Text
  pub owner_timeout_seconds : ℕ

unfoldable pub SpendReservation-discrete : Discrete SpendReservation
SpendReservation-discrete = hlevel (ℕ_discrete, Text-discrete, SpendReservationRequest-discrete)

-- `SpendReservation.__post_init__`.
unfoldable pub check_reservation : SpendReservation → Checked
unfolding is_opaque_id
check_reservation r = do
  require_id r.owner_fence
  raise_if (r.owner_timeout_seconds == 0) contract_error

-- `SpendDispatchReceipt`.
pub record SpendDispatchReceipt : Type 0 where
  pub reservation : SpendReservation
  pub allocation : SpendAttemptAllocation
  pub dispatch_fence : Text

unfoldable pub SpendDispatchReceipt-discrete : Discrete SpendDispatchReceipt
SpendDispatchReceipt-discrete =
    hlevel (Text-discrete, SpendReservation-discrete, SpendAttemptAllocation-discrete)

-- `SpendDispatchReceipt.__post_init__`.
unfoldable pub check_dispatch : SpendDispatchReceipt → Checked
unfolding is_opaque_id SpendAttemptAllocation-discrete
check_dispatch d = do
  require_id d.dispatch_fence
  raise_if
      (not
        (contains SpendAttemptAllocation-discrete d.allocation d.reservation.request.allocations))
      contract_error

-- `SpendSettlement`.
pub record SpendSettlement : Type 0 where
  pub dispatch : SpendDispatchReceipt
  pub estimated_micros : Option ℕ
  pub usage_evidence_id : Option Text

unfoldable pub SpendSettlement-discrete : Discrete SpendSettlement
SpendSettlement-discrete = hlevel (ℕ_discrete, Text-discrete, SpendDispatchReceipt-discrete)

-- `_require_cost_evidence`.
unfoldable pub require_cost_evidence : Option ℕ → Option Text → Checked
unfolding is_opaque_id require_integer
require_cost_evidence none evidence = raise_if (not (is_none evidence)) contract_error
require_cost_evidence (some amount) evidence = do require_integer 0 amount; require_some_id evidence

-- `SpendSettlement.__post_init__`.
unfoldable pub check_settlement : SpendSettlement → Checked
unfolding require_cost_evidence
check_settlement s = require_cost_evidence s.estimated_micros s.usage_evidence_id

-- `SpendSettlementReceipt`.
pub record SpendSettlementReceipt : Type 0 where
  pub settlement : SpendSettlement
  pub settlement_fence : Text

-- `SpendSettlementReceipt.__post_init__`.
unfoldable pub check_settlement_receipt : SpendSettlementReceipt → Checked
unfolding is_opaque_id
check_settlement_receipt r = require_id r.settlement_fence

abbrev exceeds : Option ℕ → ℕ → Bool
exceeds none bound = false
exceeds (some amount) bound = ltb bound amount

-- `SpendSettlementReceipt.bound_exceeded`.
abbrev pub bound_exceeded : SpendSettlementReceipt → Bool
bound_exceeded r =
    exceeds r.settlement.estimated_micros r.settlement.dispatch.allocation.bound_micros

-- `SpendAttemptState`.
pub data SpendAttemptState : Type 0 where
  reserved may_have_executed settled unknown closed_unused : SpendAttemptState

unfoldable pub SpendAttemptState-discrete : Discrete SpendAttemptState
SpendAttemptState-discrete = hlevel

-- `SpendAttemptSnapshot`.
pub record SpendAttemptSnapshot : Type 0 where
  pub allocation : SpendAttemptAllocation
  pub state : SpendAttemptState
  pub dispatch_fence : Option Text
  pub estimated_micros : Option ℕ
  pub usage_evidence_id : Option Text

-- The first check of `SpendAttemptSnapshot.__post_init__`: who may carry a dispatch fence.
unfoldable pub check_fence : SpendAttemptState → Option Text → Checked
unfolding is_opaque_id
check_fence reserved fence = raise_if (not (is_none fence)) contract_error
check_fence closed_unused fence = raise_if (not (is_none fence)) contract_error
check_fence may_have_executed fence = require_some_id fence
check_fence settled fence = require_some_id fence
check_fence unknown fence = require_some_id fence

-- The second: only a settled slot has a cost.
unfoldable pub check_cost : SpendAttemptState → Option ℕ → Option Text → Checked
unfolding require_cost_evidence
check_cost settled none evidence = raised contract_error
check_cost settled (some amount) evidence = require_cost_evidence (some amount) evidence
check_cost reserved amount evidence =
    raise_if (not (is_none amount) || not (is_none evidence)) contract_error
check_cost may_have_executed amount evidence =
    raise_if (not (is_none amount) || not (is_none evidence)) contract_error
check_cost unknown amount evidence =
    raise_if (not (is_none amount) || not (is_none evidence)) contract_error
check_cost closed_unused amount evidence =
    raise_if (not (is_none amount) || not (is_none evidence)) contract_error

-- `SpendAttemptSnapshot.__post_init__`.
unfoldable pub check_attempt : SpendAttemptSnapshot → Checked
unfolding check_fence check_cost
check_attempt s = do
  check_fence s.state s.dispatch_fence
  check_cost s.state s.estimated_micros s.usage_evidence_id

-- `SpendJournalSnapshot`.
pub record SpendJournalSnapshot : Type 0 where
  pub reservation : SpendReservation
  pub attempts : List SpendAttemptSnapshot
  pub closed : Bool
  pub closure_fence : Option Text

unfoldable pub Allocations-discrete : Discrete (List SpendAttemptAllocation)
Allocations-discrete = hlevel SpendAttemptAllocation-discrete

abbrev pub is_dispatchable : SpendAttemptState → Bool
is_dispatchable reserved = true
is_dispatchable may_have_executed = true
is_dispatchable settled = false
is_dispatchable unknown = false
is_dispatchable closed_unused = false

-- The checks on closure of `SpendJournalSnapshot.__post_init__`.
unfoldable pub check_closure : Bool → Option Text → List SpendAttemptSnapshot → Checked
unfolding is_opaque_id
check_closure false fence attempts = raise_if (not (is_none fence)) contract_error
check_closure true fence attempts = do
  require_some_id fence
  raise_if (any_of (λ slot. is_dispatchable slot.state) attempts) contract_error

abbrev has_items {ℓ} : {A : Type ℓ} → List A → Bool
has_items [] = false
has_items (x ∷ xs) = true

-- `SpendJournalSnapshot.__post_init__`.
unfoldable pub check_journal : SpendJournalSnapshot → Checked
unfolding check_closure Allocations-discrete
check_journal j = do
  raise_if (not (has_items j.attempts)) contract_error
  raise_if
      (not (
        same Allocations-discrete (map (λ slot. slot.allocation) j.attempts)
          j.reservation.request.allocations))
      contract_error
  check_closure j.closed j.closure_fence j.attempts
