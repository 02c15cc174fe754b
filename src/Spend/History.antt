-- ===== src/Spend/History.antt =====
-- Calls of the methods of
-- packages/gateway-core/src/governed_llm_gateway_core/adapters/spend_admission_memory.py, one after
-- the other, in any order, by any holder of a receipt.
use governed_llm_gateway.Base.{ℕ, List, [], ◌∷◌}
use governed_llm_gateway.Spend.{SpendBudgetScope, SpendAttemptAllocation, SpendReservationRequest}
use governed_llm_gateway.Spend.Receipts.{SpendReservation, SpendSettlement}
use governed_llm_gateway.Spend.Memory.{Outside, Frozen, Store, Call, ◌>>=◌, return}
use governed_llm_gateway.Spend.Worker.{
  budget, journal_of, reserve, is_current, dispatch, settle, close,
}

pub data Operation : Type 0 where
  reads_budget : SpendBudgetScope → ℕ → Operation
  reads_journal : SpendReservation → Operation
  reserves : SpendReservationRequest → Operation
  asks_current : SpendReservation → Operation
  dispatches : SpendReservation → SpendAttemptAllocation → Operation
  settles : SpendSettlement → Operation
  closes : SpendReservation → Operation

-- A call without its value.
abbrev pub drop_value : {S A : Type 0} → Call S A → Call S (Unit {0})
drop_value m = m >>= λ value. return tt

unfoldable pub perform : {S : Type 0} → Frozen → Outside S → Operation → Call S (Unit {0})
unfolding budget journal_of reserve is_current dispatch settle close
perform f o (reads_budget scope epoch) = drop_value (budget f scope epoch)
perform f o (reads_journal r) = drop_value (journal_of f r)
perform f o (reserves request) = drop_value (reserve f o request)
perform f o (asks_current r) = drop_value (is_current f o r)
perform f o (dispatches r a) = drop_value (dispatch f o r a)
perform f o (settles s) = drop_value (settle f o s)
perform f o (closes r) = drop_value (close f o r)

-- The store after a history of calls, whether they raise or not.
unfoldable pub run : {S : Type 0} → Frozen → Outside S → List Operation → Store S → Store S
unfolding perform
run f o [] s = s
run f o (op ∷ ops) s = run f o ops (perform f o op s).1
