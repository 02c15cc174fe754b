-- ===== src/Spend/Refined.antt =====
-- What each method of
-- packages/gateway-core/src/governed_llm_gateway_core/adapters/spend_admission_memory.py may publish.
use governed_llm_gateway.Base.{ℕ, Text, some}
use governed_llm_gateway.Spend.{SpendAttemptAllocation, SpendReservationRequest}
use governed_llm_gateway.Spend.Requests.{reserved_micros}
use governed_llm_gateway.Spend.Receipts.{SpendReservation, SpendSettlement, SpendJournalSnapshot}
use governed_llm_gateway.Spend.Memory.{Frozen, Image, Execution, Change}
use governed_llm_gateway.Spend.Worker.{
  denied, no_change, issued, claimed, with_outcome, outcome_change, closed_journal, unused_micros,
}
use governed_llm_gateway.Spend.History.{Operation, reserves, dispatches, settles, closes}
use governed_llm_gateway.Spend.Effects.{Denying, Issuing, Claiming, Settling, Closing}

-- The transitions of the ledger: the execution and the change that an operation may publish, and
-- what it asks for.
pub data Transition (f : Frozen) (image : Image) : Operation → Execution → Change → Type 0 where
  denying :
      (request : SpendReservationRequest)
      → Denying f image request
      → Transition f image (reserves request) (denied request) no_change
  issuing :
      (request : SpendReservationRequest) (now : ℕ) (fence : Text)
      → Issuing f image request now fence
      → Transition f image
          (reserves request)
          (issued f request now fence)
          (record no_change { held_plus = reserved_micros request; fence = some fence })
  claiming :
      (e : Execution) (r : SpendReservation) (a : SpendAttemptAllocation) (j : SpendJournalSnapshot)
      (fence : Text)
      → Claiming image e r a j fence
      → Transition f image
          (dispatches r a)
          (claimed e r a fence j)
          (record no_change { fence = some fence })
  settling :
      (e : Execution) (settlement : SpendSettlement) (j : SpendJournalSnapshot) (fence : Text)
      → Settling image e settlement j fence
      → Transition f image
          (settles settlement)
          (with_outcome e settlement fence j)
          (outcome_change settlement fence)
  closing :
      (e : Execution) (r : SpendReservation) (j : SpendJournalSnapshot) (fence : Text)
      → Closing image e r j fence
      → Transition f image
          (closes r)
          (record e { journal = some (closed_journal fence j) })
          (record no_change { held_minus = unused_micros j.attempts; fence = some fence })
