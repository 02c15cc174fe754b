-- ===== src/Spend/Audit.antt =====
-- `_validated_image` of
-- packages/gateway-core/src/governed_llm_gateway_core/adapters/spend_admission_memory.py: every
-- check that a method makes before it reads the image. The source collects the fences, the
-- suspended deployments and the expected amounts in one pass; here each has a function of its own.
-- A set whose size is that of a list with its items has them all different.
use governed_llm_gateway.Base.{
  ℕ, ◌+◌, ℕ_discrete, Bool, true, false, not, ◌&&◌, ◌||◌, Option, none, some, List, [], ◌∷◌, ◌++◌,
  map, ltb, leb, ◌==◌, Text, Text-discrete, same, contains, is_none, if◌then◌else◌, lookup,
}
use governed_llm_gateway.Spend.{
  SpendBudgetScope, SpendBudgetScope-discrete, SpendBudgetLimit-discrete, SpendBudgetSnapshot,
  SpendAttemptAllocation, SpendAttemptAllocation-discrete, SpendReservationRequest,
  SpendReservationRequest-discrete, check_budget, all_of, all_different,
}
use governed_llm_gateway.Spend.Requests.{scopes_of, sum_of}
use governed_llm_gateway.Spend.Receipts.{
  SpendReservation, SpendReservation-discrete, check_reservation, SpendDispatchReceipt,
  SpendDispatchReceipt-discrete, check_dispatch, SpendSettlementReceipt, check_settlement_receipt,
  bound_exceeded, SpendAttemptState, may_have_executed, settled, unknown, closed_unused,
  SpendAttemptState-discrete, SpendAttemptSnapshot, check_attempt, SpendJournalSnapshot,
  check_journal,
}
use governed_llm_gateway.Spend.Memory.{
  invalid_state, Execution, Image, Frozen, Store, Call, return, refuse, same_items, passes,
}

-- `dispatches.get(allocation)`.
unfoldable pub dispatch_at :
    SpendAttemptAllocation → List SpendDispatchReceipt → Option SpendDispatchReceipt
dispatch_at a [] = none
dispatch_at a (d ∷ dispatches) =
    if same SpendAttemptAllocation-discrete d.allocation a then some d else dispatch_at a dispatches

-- `settlements.get(allocation)`.
unfoldable pub settlement_at :
    SpendAttemptAllocation → List SpendSettlementReceipt → Option SpendSettlementReceipt
settlement_at a [] = none
settlement_at a (s ∷ settlements) =
    if same SpendAttemptAllocation-discrete s.settlement.dispatch.allocation a
    then some s
    else settlement_at a settlements

unfoldable pub Amount-discrete : Discrete (Option ℕ)
Amount-discrete = hlevel ℕ_discrete

unfoldable pub OptionText-discrete : Discrete (Option Text)
OptionText-discrete = hlevel Text-discrete

-- The claim of a slot and its dispatch fence.
unfoldable pub claim_agrees : Option SpendDispatchReceipt → Option Text → Bool
claim_agrees none none = true
claim_agrees none (some fence) = false
claim_agrees (some d) none = false
claim_agrees (some d) (some fence) = same Text-discrete d.dispatch_fence fence

abbrev pub state_after : Option ℕ → SpendAttemptState
state_after none = unknown
state_after (some amount) = settled

abbrev pub is_state : SpendAttemptState → SpendAttemptState → Bool
is_state expected s = same SpendAttemptState-discrete s expected

-- The outcome of a slot and its state.
unfoldable pub outcome_agrees :
    Option SpendSettlementReceipt → SpendJournalSnapshot → SpendAttemptSnapshot → Bool
outcome_agrees (some s) j slot =
    same Amount-discrete slot.estimated_micros s.settlement.estimated_micros
    && same OptionText-discrete slot.usage_evidence_id s.settlement.usage_evidence_id
    && is_state (state_after s.settlement.estimated_micros) slot.state
outcome_agrees none j slot =
    not (is_state settled slot.state) && (not (is_state unknown slot.state) || j.closed)

-- The checks of one slot.
unfoldable pub is_sound_slot :
    List SpendDispatchReceipt
    → List SpendSettlementReceipt
    → SpendJournalSnapshot
    → SpendAttemptSnapshot
    → Bool
is_sound_slot dispatches settlements j slot =
    passes (check_attempt slot)
    && claim_agrees (dispatch_at slot.allocation dispatches) slot.dispatch_fence
    && outcome_agrees (settlement_at slot.allocation settlements) j slot
    && (not (is_state closed_unused slot.state) || j.closed)

abbrev is_claim_of : Option SpendDispatchReceipt → SpendDispatchReceipt → Bool
is_claim_of none d = false
is_claim_of (some claimed) d = same SpendDispatchReceipt-discrete claimed d

-- The checks of one settlement.
unfoldable pub is_sound_settlement : List SpendDispatchReceipt → SpendSettlementReceipt → Bool
is_sound_settlement dispatches s =
    passes (check_settlement_receipt s)
    && is_claim_of (dispatch_at s.settlement.dispatch.allocation dispatches) s.settlement.dispatch

unfoldable pub is_sound_dispatch : SpendReservation → SpendDispatchReceipt → Bool
is_sound_dispatch r d = same SpendReservation-discrete d.reservation r && passes (check_dispatch d)

abbrev pub one_if : Bool → ℕ
one_if true = 1
one_if false = 0

-- How many slots may have executed.
unfoldable pub in_flight : List SpendAttemptSnapshot → ℕ
in_flight = sum_of (λ slot. one_if (is_state may_have_executed slot.state))

-- The checks of an execution that holds a reservation.
unfoldable pub is_sound_owned :
    Frozen → Execution → SpendReservation → ℕ → ℕ → SpendJournalSnapshot → Bool
is_sound_owned f e r admitted_at expires_at j =
    same SpendReservationRequest-discrete r.request e.request
    && passes (check_reservation r)
    && expires_at == admitted_at + f.lease
    && ltb admitted_at expires_at
    && r.owner_timeout_seconds == f.lease
    && same SpendReservation-discrete j.reservation r
    && passes (check_journal j)
    && all_different SpendAttemptAllocation-discrete (map (λ d. d.allocation) e.dispatches)
    && all_different SpendAttemptAllocation-discrete
        (map (λ s. s.settlement.dispatch.allocation) e.settlements)
    && leb (in_flight j.attempts) 1
    && all_of (is_sound_dispatch r) e.dispatches
    && all_of (is_sound_settlement e.dispatches) e.settlements
    && all_of (is_sound_slot e.dispatches e.settlements j) j.attempts
    && all_of
        (λ scope. contains SpendBudgetScope-discrete scope (map (λ b. b.limit.scope) f.opening))
        (scopes_of e.request)

abbrev is_empty {ℓ} : {A : Type ℓ} → List A → Bool
is_empty [] = true
is_empty (x ∷ xs) = false

abbrev is_sound_holder :
    Frozen
    → Execution
    → Option SpendReservation
    → Option ℕ
    → Option ℕ
    → Option SpendJournalSnapshot
    → Bool
is_sound_holder f e none admitted_at expires_at journal =
    is_none journal
    && is_none expires_at
    && is_none admitted_at
    && is_empty e.dispatches
    && is_empty e.settlements
is_sound_holder f e (some r) (some admitted_at) (some expires_at) (some j) =
    is_sound_owned f e r admitted_at expires_at j
is_sound_holder f e (some r) none expires_at journal = false
is_sound_holder f e (some r) (some admitted_at) none journal = false
is_sound_holder f e (some r) (some admitted_at) (some expires_at) none = false

abbrev pub is_approved : Option SpendReservationRequest → SpendReservationRequest → Bool
is_approved none r = false
is_approved (some approved) r = same SpendReservationRequest-discrete r approved

-- The checks of one execution.
unfoldable pub is_sound_execution : Frozen → Execution → Bool
is_sound_execution f e =
    is_approved (lookup Text-discrete e.request.execution_id f.approved) e.request
    && is_sound_holder f e e.reservation e.admitted_at e.expires_at e.journal

abbrev pub closure_fences : Bool → Option Text → List Text
closure_fences false fence = []
closure_fences true none = []
closure_fences true (some fence) = fence ∷ []

abbrev journal_fences : Option SpendJournalSnapshot → List Text
journal_fences none = []
journal_fences (some j) = closure_fences j.closed j.closure_fence

unfoldable pub issued_fences :
    Option SpendReservation
    → List SpendDispatchReceipt
    → List SpendSettlementReceipt
    → Option SpendJournalSnapshot
    → List Text
issued_fences none ds ss j = []
issued_fences (some r) ds ss j =
    r.owner_fence
    ∷ (map (λ d. d.dispatch_fence) ds ++ (map (λ s. s.settlement_fence) ss ++ journal_fences j))

-- The fences that an execution was issued.
abbrev pub fences_of : Execution → List Text
fences_of e = issued_fences e.reservation e.dispatches e.settlements e.journal

abbrev pub suspended_by : List SpendSettlementReceipt → List Text
suspended_by [] = []
suspended_by (s ∷ settlements) =
    if bound_exceeded s
    then s.settlement.dispatch.allocation.deployment_id ∷ suspended_by settlements
    else suspended_by settlements

-- All items of the lists of all executions.
unfoldable pub all_of_executions : (Execution → List Text) → List Execution → List Text
all_of_executions items [] = []
all_of_executions items (e ∷ executions) = items e ++ all_of_executions items executions

abbrev amount_or_zero : Option ℕ → ℕ
amount_or_zero none = 0
amount_or_zero (some amount) = amount

-- What a slot adds to the settled amount of each scope of its request.
unfoldable pub slot_settled : SpendAttemptSnapshot → ℕ
slot_settled slot = if is_state settled slot.state then amount_or_zero slot.estimated_micros else 0

-- What a slot adds to the held amount of each scope of its request.
unfoldable pub slot_held : SpendAttemptSnapshot → ℕ
slot_held slot =
    if is_state settled slot.state || is_state closed_unused slot.state
    then 0
    else slot.allocation.bound_micros

unfoldable pub attempts_of : Execution → List SpendAttemptSnapshot
attempts_of e = elim e.journal [ none ↦ [] | some j ↦ j.attempts ]

-- What an execution adds to the amount of a scope.
unfoldable pub execution_amount : (SpendAttemptSnapshot → ℕ) → SpendBudgetScope → Execution → ℕ
execution_amount amount scope e =
    if contains SpendBudgetScope-discrete scope (scopes_of e.request)
    then sum_of amount (attempts_of e)
    else 0

-- `expected_s` and `expected_h`: the amount of a scope that the executions account for.
unfoldable pub expected_amount :
    (SpendAttemptSnapshot → ℕ) → ℕ → SpendBudgetScope → List Execution → ℕ
expected_amount amount opening scope executions =
    opening + sum_of (execution_amount amount scope) executions

-- The checks of a budget against its opening.
unfoldable pub is_sound_budget : SpendBudgetSnapshot → SpendBudgetSnapshot → List Execution → Bool
is_sound_budget o b executions =
    same SpendBudgetLimit-discrete b.limit o.limit
    && passes (check_budget b)
    && b.settled_micros == expected_amount slot_settled o.settled_micros b.limit.scope executions
    && b.held_micros == expected_amount slot_held o.held_micros b.limit.scope executions

-- The budgets, one by one.
unfoldable pub are_sound_budgets :
    List SpendBudgetSnapshot → List SpendBudgetSnapshot → List Execution → Bool
are_sound_budgets [] [] executions = true
are_sound_budgets [] (b ∷ budgets) executions = false
are_sound_budgets (o ∷ opening) [] executions = false
are_sound_budgets (o ∷ opening) (b ∷ budgets) executions =
    is_sound_budget o b executions && are_sound_budgets opening budgets executions

-- All the checks of an image, with the fields of the state that they compare it to.
unfoldable pub is_valid_image : Frozen → Bool → ℕ → List Text → Image → Bool
is_valid_image f failed revision seen image =
    let executions = image.executions in
    let fences = all_of_executions fences_of executions in
    not failed
    && image.revision == revision
    && same_items Text-discrete (map (λ e. e.request.execution_id) executions) seen
    && all_different Text-discrete (map (λ e. e.request.execution_id) executions)
    && all_of (is_sound_execution f) executions
    && same_items Text-discrete fences image.fences
    && all_different Text-discrete fences
    && same_items Text-discrete (all_of_executions (λ e. suspended_by e.settlements) executions)
        image.suspended
    && are_sound_budgets f.opening image.budgets executions

abbrev pub is_valid_store : {S : Type 0} → Frozen → Store S → Bool
is_valid_store f s = is_valid_image f s.failed s.revision s.seen s.image

-- `_validated_image`.
unfoldable pub validated_image : {S : Type 0} → Frozen → Call S Image
validated_image f s = if is_valid_store f s then return s.image s else refuse invalid_state s
