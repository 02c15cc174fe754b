-- ===== src/Spend/Worker.antt =====
-- The methods of `InMemorySpendAdmissionReader` and `InMemorySpendAdmissionWorker` of
-- packages/gateway-core/src/governed_llm_gateway_core/adapters/spend_admission_memory.py. The
-- amount that `permits_allocation` is asked for is in bounds, since an approved request is checked.
use governed_llm_gateway.Base.{
  ℕ, ◌+◌, ◌==◌, ℕ_discrete, Bool, true, false, not, ◌&&◌, ◌||◌, Option, none, some, List, [], ◌∷◌,
  ◌++◌, map, leb, Text, Text-discrete, ok, raised, same, contains, is_none, if◌then◌else◌, lookup,
}
use governed_llm_gateway.Spend.{
  Checked, SpendBudgetScope, SpendBudgetScope-discrete, SpendBudgetSnapshot, SpendAttemptAllocation,
  SpendAttemptAllocation-discrete, SpendReservationRequest, SpendReservationRequest-discrete,
  permits_allocation, any_of,
}
use governed_llm_gateway.Spend.Requests.{scopes_of, reserved_micros, sum_of}
use governed_llm_gateway.Spend.Receipts.{
  SpendReservation, SpendReservation-discrete, check_reservation, SpendDispatchReceipt,
  SpendDispatchReceipt-discrete, check_dispatch, SpendSettlement, SpendSettlement-discrete,
  SpendSettlementReceipt, check_settlement_receipt, bound_exceeded, reserved, may_have_executed,
  unknown, closed_unused, SpendAttemptState-discrete, SpendAttemptSnapshot, check_attempt,
  SpendJournalSnapshot, check_journal,
}
use governed_llm_gateway.Spend.Memory.{
  unavailable, invalid_state, conflict, expired, Execution, Image, Verdict, verdict_fails, refused,
  accepted, Outside, Frozen, Call, ◌>>=◌, ◌>>◌, return, refuse, refuse_if, constructed, known_or,
  now_of, check_admission_date, fence_of, Change, update,
}
use governed_llm_gateway.Spend.Audit.{
  validated_image, is_state, state_after, dispatch_at, is_approved,
}

unfoldable pub budget_at :
    {S : Type 0} → SpendBudgetScope → List SpendBudgetSnapshot → Call S SpendBudgetSnapshot
unfolding SpendBudgetScope-discrete
budget_at scope [] = refuse invalid_state
budget_at scope (b ∷ budgets) =
    if same SpendBudgetScope-discrete b.limit.scope scope then return b else budget_at scope budgets

-- `budget`.
unfoldable pub budget : {S : Type 0} → Frozen → SpendBudgetScope → ℕ → Call S SpendBudgetSnapshot
unfolding validated_image budget_at
budget f scope policy_epoch = do
  image ← validated_image f
  refuse_if (not (policy_epoch == f.epoch)) conflict
  budget_at scope image.budgets

abbrev pub holds : Option SpendReservation → SpendReservation → Bool
holds none r = false
holds (some held) r = same SpendReservation-discrete held r

-- `_execution`: the execution of a reservation that was issued.
unfoldable pub find_execution : {S : Type 0} → SpendReservation → List Execution → Call S Execution
unfolding Text-discrete ℕ_discrete SpendReservation-discrete
find_execution r [] = refuse invalid_state
find_execution r (e ∷ executions) =
    if same Text-discrete e.request.execution_id r.request.execution_id
    then (if holds e.reservation r then return e else refuse conflict)
    else find_execution r executions

-- What needs a journal.
unfoldable pub with_journal {ℓ} :
    {S : Type 0} {A : Type ℓ}
    → (SpendJournalSnapshot → Call S A)
    → Option SpendJournalSnapshot
    → Call S A
with_journal rest none = refuse invalid_state
with_journal rest (some j) = rest j

-- `journal`.
unfoldable pub journal_of : {S : Type 0} → Frozen → SpendReservation → Call S SpendJournalSnapshot
unfolding validated_image find_execution with_journal
journal_of f r = do
  image ← validated_image f
  e ← find_execution r image.executions
  with_journal return e.journal

abbrev pub has_expired : ℕ → Option ℕ → Bool
has_expired now none = true
has_expired now (some expires_at) = leb expires_at now

abbrev pub is_closed : Option SpendJournalSnapshot → Bool
is_closed none = true
is_closed (some j) = j.closed

-- `_live`: the execution is owned, and its journal is open.
unfoldable pub live : {S : Type 0} → Outside S → Execution → Call S (Unit {0})
unfolding now_of
live o e = do
  now ← now_of o
  refuse_if (has_expired now e.expires_at) expired
  refuse_if (is_closed e.journal) conflict

-- The constructors of a list of slots.
unfoldable pub check_attempts : List SpendAttemptSnapshot → Checked
unfolding check_attempt
check_attempts [] = ok tt
check_attempts (slot ∷ attempts) = elim (check_attempt slot) [
  | raised e ↦ raised e
  | ok done ↦ check_attempts attempts
]

abbrev pub fresh_attempt : SpendAttemptAllocation → SpendAttemptSnapshot
fresh_attempt a = record {
  allocation = a;
  state = reserved;
  dispatch_fence = none;
  estimated_micros = none;
  usage_evidence_id = none;
}

abbrev pub denied : SpendReservationRequest → Execution
denied request = record {
  request = request;
  reservation = none;
  expires_at = none;
  journal = none;
  dispatches = [];
  settlements = [];
  admitted_at = none;
}

abbrev pub no_change : Change
no_change = record {
  held_plus = 0;
  held_minus = 0;
  settled_delta = 0;
  fence = none;
  suspended_model = none;
}

abbrev pub fresh_reservation : Frozen → SpendReservationRequest → Text → SpendReservation
fresh_reservation f request fence = record {
  request = request;
  owner_fence = fence;
  owner_timeout_seconds = f.lease;
}

abbrev pub fresh_journal : SpendReservation → SpendJournalSnapshot
fresh_journal r = record {
  reservation = r;
  attempts = map fresh_attempt r.request.allocations;
  closed = false;
  closure_fence = none;
}

-- Every affected budget permits the whole reservation.
unfoldable pub permits_all : SpendReservationRequest → List SpendBudgetSnapshot → Bool
unfolding permits_allocation reserved_micros SpendBudgetScope-discrete
permits_all request [] = true
permits_all request (b ∷ budgets) =
    (not (contains SpendBudgetScope-discrete b.limit.scope (scopes_of request))
      || permits_allocation b (reserved_micros request))
    && permits_all request budgets

-- The execution that `reserve` publishes.
abbrev pub issued : Frozen → SpendReservationRequest → ℕ → Text → Execution
issued f request now fence = record {
  request = request;
  reservation = some (fresh_reservation f request fence);
  expires_at = some (now + f.lease);
  journal = some (fresh_journal (fresh_reservation f request fence));
  dispatches = [];
  settlements = [];
  admitted_at = some now;
}

-- The end of `reserve`: the reservation and the journal, published together.
unfoldable pub issue :
    {S : Type 0}
    → Frozen
    → Outside S
    → Image
    → SpendReservationRequest
    → ℕ
    → Call S (Option SpendReservation)
unfolding fence_of check_reservation check_attempts check_journal reserved_micros update
issue f o image request now = do
  refuse_if (leb (now + f.lease) now) invalid_state
  fence ← fence_of o image
  constructed (check_reservation (fresh_reservation f request fence))
  constructed (check_attempts (map fresh_attempt request.allocations))
  constructed (check_journal (fresh_journal (fresh_reservation f request fence)))
  update o image (issued f request now fence)
      (record no_change { held_plus = reserved_micros request; fence = some fence })
  return (some (fresh_reservation f request fence))

-- A new intent: what `reserve` does when no execution has its identifier.
unfoldable pub admit :
    {S : Type 0}
    → Frozen
    → Outside S
    → Image
    → SpendReservationRequest
    → Call S (Option SpendReservation)
unfolding now_of check_admission_date permits_all update issue Text-discrete ℕ_discrete
admit f o image request = do
  now ← now_of o
  check_admission_date o request
  refuse_if
      (any_of (λ a. contains Text-discrete a.deployment_id image.suspended) request.allocations)
      invalid_state
  (if permits_all request image.budgets
      then issue f o image request now
      else (update o image (denied request) no_change >> return none))

-- The execution of an identifier.
unfoldable pub existing_execution : Text → List Execution → Option Execution
unfolding Text-discrete ℕ_discrete
existing_execution i [] = none
existing_execution i (e ∷ executions) =
    if same Text-discrete e.request.execution_id i then some e else existing_execution i executions

-- `reserve`.
unfoldable pub reserve :
    {S : Type 0} → Frozen → Outside S → SpendReservationRequest → Call S (Option SpendReservation)
unfolding validated_image existing_execution admit lookup SpendReservationRequest-discrete
    Text-discrete ℕ_discrete
reserve f o request = do
  image ← validated_image f
  refuse_if (not (is_approved (lookup Text-discrete request.execution_id f.approved) request))
      conflict
  known_or (existing_execution request.execution_id image.executions)
      (λ existing. return existing.reservation) (admit f o image request)

-- `is_current`.
unfoldable pub is_current : {S : Type 0} → Frozen → Outside S → SpendReservation → Call S Bool
unfolding validated_image find_execution now_of
is_current f o r = do
  image ← validated_image f
  e ← find_execution r image.executions
  now ← now_of o
  return (not (has_expired now e.expires_at) && not (is_closed e.journal))

-- Some slot may have executed.
unfoldable pub is_in_flight : List SpendAttemptSnapshot → Bool
unfolding SpendAttemptState-discrete
is_in_flight = any_of (λ slot. is_state may_have_executed slot.state)

-- A slot after a claim of an allocation.
unfoldable pub claim_slot :
    SpendAttemptAllocation → Text → SpendAttemptSnapshot → SpendAttemptSnapshot
unfolding SpendAttemptAllocation-discrete
claim_slot a fence slot =
    if same SpendAttemptAllocation-discrete slot.allocation a
    then record slot { state = may_have_executed; dispatch_fence = some fence }
    else slot

-- The journal, the receipt and the execution that `dispatch` publishes.
abbrev pub claimed_journal :
    SpendAttemptAllocation → Text → SpendJournalSnapshot → SpendJournalSnapshot
claimed_journal a fence j = record j { attempts = map (claim_slot a fence) j.attempts }

abbrev pub claim_receipt : SpendReservation → SpendAttemptAllocation → Text → SpendDispatchReceipt
claim_receipt r a fence = record { reservation = r; allocation = a; dispatch_fence = fence }

abbrev pub claimed :
    Execution → SpendReservation → SpendAttemptAllocation → Text → SpendJournalSnapshot → Execution
claimed e r a fence j = record e {
  journal = some (claimed_journal a fence j);
  dispatches = e.dispatches ++ claim_receipt r a fence ∷ [];
}

-- The end of `dispatch`: a new claim.
unfoldable pub claim :
    {S : Type 0}
    → Outside S
    → Image
    → Execution
    → SpendReservation
    → SpendAttemptAllocation
    → SpendJournalSnapshot
    → Call S SpendDispatchReceipt
unfolding is_in_flight claim_slot fence_of check_dispatch check_attempts check_journal update
    Text-discrete ℕ_discrete
claim o image e r a j = do
  refuse_if (contains Text-discrete a.deployment_id image.suspended) invalid_state
  refuse_if (is_in_flight j.attempts) conflict
  fence ← fence_of o image
  constructed (check_dispatch (claim_receipt r a fence))
  constructed (check_attempts (claimed_journal a fence j).attempts)
  constructed (check_journal (claimed_journal a fence j))
  update o image (claimed e r a fence j) (record no_change { fence = some fence })
  return (claim_receipt r a fence)

-- `dispatch`.
unfoldable pub dispatch :
    {S : Type 0}
    → Frozen
    → Outside S
    → SpendReservation
    → SpendAttemptAllocation
    → Call S SpendDispatchReceipt
unfolding validated_image find_execution dispatch_at live claim with_journal
    SpendAttemptAllocation-discrete
dispatch f o r a = do
  image ← validated_image f
  e ← find_execution r image.executions
  refuse_if (not (contains SpendAttemptAllocation-discrete a r.request.allocations)) conflict
  known_or (dispatch_at a e.dispatches) return
      (live o e >> with_journal (claim o image e r a) e.journal)

-- The settlement of a dispatch among those of an execution.
unfoldable pub settlement_of :
    SpendDispatchReceipt → List SpendSettlementReceipt → Option SpendSettlementReceipt
unfolding SpendDispatchReceipt-discrete
settlement_of d [] = none
settlement_of d (s ∷ settlements) =
    if same SpendDispatchReceipt-discrete s.settlement.dispatch d
    then some s
    else settlement_of d settlements

unfoldable pub accept_usage : {S : Type 0} → Verdict → Call S (Unit {0})
accept_usage verdict_fails = refuse unavailable
accept_usage refused = refuse invalid_state
accept_usage accepted = return tt

-- The validator is asked about a known amount only.
unfoldable pub check_usage : {S : Type 0} → Outside S → SpendSettlement → Call S (Unit {0})
unfolding accept_usage
check_usage o settlement s =
    if is_none settlement.estimated_micros
    then (ok tt, s)
    else (let (verdict, outside) = o.usage_validator settlement s.outside in
        accept_usage verdict (record s { outside = outside }))

-- A slot after a settlement.
unfoldable pub settle_slot : SpendSettlement → SpendAttemptSnapshot → SpendAttemptSnapshot
unfolding SpendAttemptAllocation-discrete
settle_slot settlement slot =
    if same SpendAttemptAllocation-discrete slot.allocation settlement.dispatch.allocation
    then record slot {
      state = state_after settlement.estimated_micros;
      estimated_micros = settlement.estimated_micros;
      usage_evidence_id = settlement.usage_evidence_id;
    }
    else slot

-- What a settlement changes in each budget: a known amount replaces the bound, an unknown one
-- leaves it held.
abbrev pub settled_change : SpendSettlement → Option ℕ → Change
settled_change settlement none = no_change
settled_change settlement (some amount) = record no_change {
  held_minus = settlement.dispatch.allocation.bound_micros;
  settled_delta = amount;
}

-- The journal, the receipt, the execution and the change that `settle` publishes.
abbrev pub settled_journal : SpendSettlement → SpendJournalSnapshot → SpendJournalSnapshot
settled_journal settlement j = record j { attempts = map (settle_slot settlement) j.attempts }

abbrev pub settlement_receipt : SpendSettlement → Text → SpendSettlementReceipt
settlement_receipt settlement fence = record { settlement = settlement; settlement_fence = fence }

abbrev pub with_outcome : Execution → SpendSettlement → Text → SpendJournalSnapshot → Execution
with_outcome e settlement fence j = record e {
  journal = some (settled_journal settlement j);
  settlements = e.settlements ++ settlement_receipt settlement fence ∷ [];
}

abbrev pub outcome_change : SpendSettlement → Text → Change
outcome_change settlement fence = record (settled_change settlement settlement.estimated_micros) {
  fence = some fence;
  suspended_model =
      if bound_exceeded (settlement_receipt settlement fence)
      then some settlement.dispatch.allocation.deployment_id
      else none;
}

-- The end of `settle`: a new outcome.
unfoldable pub record_outcome :
    {S : Type 0}
    → Outside S
    → Image
    → Execution
    → SpendSettlement
    → SpendJournalSnapshot
    → Call S SpendSettlementReceipt
unfolding settle_slot fence_of check_settlement_receipt check_attempts check_journal update
record_outcome o image e settlement j = do
  fence ← fence_of o image
  constructed (check_settlement_receipt (settlement_receipt settlement fence))
  constructed (check_attempts (settled_journal settlement j).attempts)
  constructed (check_journal (settled_journal settlement j))
  update o image (with_outcome e settlement fence j) (outcome_change settlement fence)
  return (settlement_receipt settlement fence)

-- A second settlement of a dispatch must be the first.
unfoldable pub repeat_outcome :
    {S : Type 0} → SpendSettlement → SpendSettlementReceipt → Call S SpendSettlementReceipt
unfolding SpendSettlement-discrete
repeat_outcome settlement existing =
    if same SpendSettlement-discrete existing.settlement settlement
    then return existing
    else refuse conflict

-- `settle`.
unfoldable pub settle :
    {S : Type 0} → Frozen → Outside S → SpendSettlement → Call S SpendSettlementReceipt
unfolding validated_image find_execution settlement_of live check_usage record_outcome with_journal
    repeat_outcome SpendDispatchReceipt-discrete
settle f o settlement = do
  image ← validated_image f
  e ← find_execution settlement.dispatch.reservation image.executions
  refuse_if (not (contains SpendDispatchReceipt-discrete settlement.dispatch e.dispatches)) conflict
  known_or (settlement_of settlement.dispatch e.settlements) (repeat_outcome settlement) (do
    live o e
    check_usage o settlement
    with_journal (record_outcome o image e settlement) e.journal)

-- What a slot that nobody claimed holds.
unfoldable pub unused_micros : List SpendAttemptSnapshot → ℕ
unfolding sum_of SpendAttemptState-discrete
unused_micros =
    sum_of (λ slot. if is_state reserved slot.state then slot.allocation.bound_micros else 0)

-- A slot after closure.
unfoldable pub close_slot : SpendAttemptSnapshot → SpendAttemptSnapshot
unfolding SpendAttemptState-discrete
close_slot slot =
    if is_state reserved slot.state
    then record slot { state = closed_unused }
    else if is_state may_have_executed slot.state
    then record slot { state = unknown }
    else slot

-- The journal that `close` publishes.
abbrev pub closed_journal : Text → SpendJournalSnapshot → SpendJournalSnapshot
closed_journal fence j = record j {
  attempts = map close_slot j.attempts;
  closed = true;
  closure_fence = some fence;
}

-- The end of `close`: the journal is closed.
unfoldable pub close_journal :
    {S : Type 0}
    → Outside S
    → Image
    → Execution
    → SpendJournalSnapshot
    → Call S SpendJournalSnapshot
unfolding live close_slot unused_micros fence_of check_attempts check_journal update
close_journal o image e j = do
  live o e
  constructed (check_attempts (map close_slot j.attempts))
  fence ← fence_of o image
  constructed (check_journal (closed_journal fence j))
  update o image (record e { journal = some (closed_journal fence j) })
      (record no_change { held_minus = unused_micros j.attempts; fence = some fence })
  return (closed_journal fence j)

-- `close`.
unfoldable pub close :
    {S : Type 0} → Frozen → Outside S → SpendReservation → Call S SpendJournalSnapshot
unfolding validated_image find_execution close_journal with_journal
close f o r = do
  image ← validated_image f
  e ← find_execution r image.executions
  with_journal (λ j. if j.closed then return j else close_journal o image e j) e.journal
