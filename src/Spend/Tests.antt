-- ===== src/Spend/Tests.antt =====
-- Samples of spend admission, and the theorems at them.
use governed_llm_gateway.Base.{
  ℕ, ◌+◌, ◌≡◌, ◌≢◌, ◌⊎◌, refl, ℕ_discrete, true, none, some, List, [], ◌∷◌, Text, Text-discrete,
  codes, ok, raised, sorted, insert_sorted, lookup, arith, Decimal, ◌*◌, ◌^◌, ◌≤◌, ◌<◌,
}
use governed_llm_gateway.Spend.Rounding.{to_reservation_micros-ceil}
use governed_llm_gateway.Spend.{
  max_spend_micros, daily, Date, SpendBudgetScope, SpendBudgetLimit, SpendBudgetSnapshot,
  SpendAttemptAllocation, SpendReservationRequest, SpendWindow-discrete, Date-discrete,
  SpendBudgetScope-discrete, SpendBudgetLimit-discrete, SpendAttemptAllocation-discrete,
  SpendReservationRequest-discrete, all_different, is_opaque_id, split_dots, is_segment,
  require_workload, require_digest, require_integer, check_scope, check_limit, check_budget,
  permits_allocation, check_allocation,
}
use governed_llm_gateway.Spend.Requests.{
  append_to_group, grouped, range, Keys-discrete, Numbers-discrete, same_candidate, check_group,
  check_groups, require_allocation_sequence, sum_of, reserved_micros, check_request,
  to_reservation_micros,
}
use governed_llm_gateway.Spend.Receipts.{
  SpendReservation, SpendDispatchReceipt, SpendSettlement, SpendSettlementReceipt,
  SpendReservation-discrete, check_reservation, SpendDispatchReceipt-discrete, check_dispatch,
  SpendSettlement-discrete, require_cost_evidence, check_settlement, check_settlement_receipt,
  SpendAttemptState-discrete, check_fence, check_cost, check_attempt, Allocations-discrete,
  check_closure, check_journal,
}
use governed_llm_gateway.Spend.Memory.{
  Execution, control, conflict, reads, Outside, Frozen, Store, accepted, then_with, ◌>>=◌, return,
  refuse, refuse_if, constructed, known_or, limits_for, by_execution_id, are_fixtures, freeze,
  start, accept_now, now_of, accept_date, check_admission_date, hex, accept_fence, fence_of,
  changed_budget, changed_budgets, others, commit, commits, persisted, persist, next_image, publish,
  update,
}
use governed_llm_gateway.Spend.Audit.{
  is_valid_store, dispatch_at, settlement_at, Amount-discrete, OptionText-discrete, claim_agrees,
  outcome_agrees, is_sound_slot, is_sound_settlement, is_sound_dispatch, in_flight, is_sound_owned,
  is_sound_execution, issued_fences, all_of_executions, slot_settled, slot_held, attempts_of,
  execution_amount, expected_amount, is_sound_budget, are_sound_budgets, is_valid_image,
  validated_image,
}
use governed_llm_gateway.Spend.Worker.{
  issued, claimed, fresh_journal, with_outcome, claimed_journal, fresh_reservation, claim_receipt,
  settlement_receipt, budget_at, budget, find_execution, with_journal, journal_of, live,
  check_attempts, permits_all, issue, admit, existing_execution, reserve, is_current, is_in_flight,
  claim_slot, claim, dispatch, settlement_of, accept_usage, check_usage, settle_slot,
  record_outcome, repeat_outcome, settle, unused_micros, close_slot, close_journal, close,
}
use governed_llm_gateway.Spend.History.{
  Operation, reserves, dispatches, settles, closes, perform, run,
}
use governed_llm_gateway.Spend.Capped.{IsCapped, run-IsCapped}
use governed_llm_gateway.Spend.Conserved.{history-accounted}
use governed_llm_gateway.Spend.Sequence.{sequence-different}
use governed_llm_gateway.Spend.Receipted.{
  IsRecorded, IsClaimed, IsAnswered, IsSettled, dispatch-once, reserve-once, settle-once,
}

abbrev today : Date
today = record { year = 2026; month = 3; day = 2 }

-- A clock that moves by one each time it is read, and identifiers that differ.
abbrev outside : Outside ℕ
outside = record {
  clock = λ n. (reads n, n + 1);
  utc_clock = λ n. (reads (record { date = today; microsecond = n }), n + 1);
  uuid4 = λ n. (reads n, n + 1);
  usage_validator = λ s n. (accepted, n);
  commit_end = λ n. (commits, n);
}

abbrev scope : SpendBudgetScope
scope = record { client_id = codes "acme"; window = daily; window_start = today; workload = none }

abbrev limit : SpendBudgetLimit
limit = record { scope = scope; ceiling_micros = 100 }

abbrev opening : SpendBudgetSnapshot
opening = record { limit = limit; settled_micros = 10; held_micros = 0 }

abbrev digest : Text
digest = codes "sha256:0123456789abcdef0123456789abcdef0123456789abcdef0123456789abcdef"

abbrev slot : ℕ → SpendAttemptAllocation
slot n = record {
  deployment_id = codes "east-1";
  fallback_index = 0;
  attempt_number = n;
  bound_micros = 30;
  pricing_digest = digest;
  bound_evidence_id = codes "e1";
}

abbrev request : SpendReservationRequest
request = record {
  execution_id = codes "x1";
  owner_id = codes "o1";
  client_id = codes "acme";
  workload = codes "chat.main";
  admitted_on = today;
  policy_epoch = 1;
  policy_digest = digest;
  plan_digest = digest;
  registry_digest = digest;
  retry_policy_digest = digest;
  limits = limit ∷ [];
  allocations = slot 1 ∷ slot 2 ∷ [];
}

abbrev policy : Frozen
policy = record {
  opening = opening ∷ [];
  approved = (codes "x1", request) ∷ [];
  epoch = 1;
  digest = digest;
  lease = 10;
}

abbrev east_reservation : SpendReservation
unfolding hex
east_reservation = fresh_reservation policy request (hex 2)

abbrev first_claim : SpendDispatchReceipt
unfolding hex
first_claim = claim_receipt east_reservation (slot 1) (hex 4)

abbrev outcome : SpendSettlement
outcome = record {
  dispatch = first_claim;
  estimated_micros = some 40;
  usage_evidence_id = some (codes "u1");
}

abbrev usual : List Operation
usual =
    reserves request
    ∷ dispatches east_reservation (slot 1)
    ∷ settles outcome
    ∷ closes east_reservation
    ∷ []

run-IsCapped_example : IsCapped (run policy outside usual (start policy 0)).image
run-IsCapped_example = run-IsCapped policy outside usual 0 (omega arith, tt)

is_frozen : freeze (opening ∷ []) (request ∷ []) 10 ≡ ok policy
unfolding SpendWindow-discrete Date-discrete SpendBudgetScope-discrete SpendBudgetLimit-discrete
    SpendAttemptAllocation-discrete SpendReservationRequest-discrete all_different is_opaque_id
    split_dots is_segment require_workload require_digest require_integer check_scope check_limit
    check_budget permits_allocation check_allocation append_to_group grouped range Keys-discrete
    Numbers-discrete same_candidate check_group check_groups require_allocation_sequence sum_of
    reserved_micros check_request to_reservation_micros SpendReservation-discrete check_reservation
    SpendDispatchReceipt-discrete check_dispatch SpendSettlement-discrete require_cost_evidence
    check_settlement check_settlement_receipt SpendAttemptState-discrete check_fence check_cost
    check_attempt Allocations-discrete check_closure check_journal then_with ◌>>=◌ return refuse
    refuse_if constructed known_or limits_for by_execution_id are_fixtures freeze start accept_now
    now_of accept_date check_admission_date hex accept_fence fence_of changed_budget changed_budgets
    others commit persisted persist next_image publish update dispatch_at settlement_at
    Amount-discrete OptionText-discrete claim_agrees outcome_agrees is_sound_slot
    is_sound_settlement is_sound_dispatch in_flight is_sound_owned is_sound_execution issued_fences
    all_of_executions slot_settled slot_held attempts_of execution_amount expected_amount
    is_sound_budget are_sound_budgets is_valid_image validated_image budget_at budget find_execution
    with_journal journal_of live check_attempts permits_all issue admit existing_execution reserve
    is_current is_in_flight claim_slot claim dispatch settlement_of accept_usage check_usage
    settle_slot record_outcome repeat_outcome settle unused_micros close_slot close_journal close
    perform run ℕ_discrete Text-discrete sorted insert_sorted lookup
is_frozen = refl

history-accounted_example :
    (is_valid_store policy (run policy outside usual (start policy 0)) ≡ true)
    ⊎ ((run policy outside usual (start policy 0)).failed ≡ true)
history-accounted_example =
    history-accounted outside (opening ∷ []) (request ∷ []) 10 policy usual 0 is_frozen

sequence-different_example :
    all_different SpendAttemptAllocation-discrete (slot 1 ∷ slot 2 ∷ []) ≡ true
unfolding SpendWindow-discrete Date-discrete SpendBudgetScope-discrete SpendBudgetLimit-discrete
    SpendAttemptAllocation-discrete SpendReservationRequest-discrete all_different is_opaque_id
    split_dots is_segment require_workload require_digest require_integer check_scope check_limit
    check_budget permits_allocation check_allocation append_to_group grouped range Keys-discrete
    Numbers-discrete same_candidate check_group check_groups require_allocation_sequence sum_of
    reserved_micros check_request to_reservation_micros SpendReservation-discrete check_reservation
    SpendDispatchReceipt-discrete check_dispatch SpendSettlement-discrete require_cost_evidence
    check_settlement check_settlement_receipt SpendAttemptState-discrete check_fence check_cost
    check_attempt Allocations-discrete check_closure check_journal then_with ◌>>=◌ return refuse
    refuse_if constructed known_or limits_for by_execution_id are_fixtures freeze start accept_now
    now_of accept_date check_admission_date hex accept_fence fence_of changed_budget changed_budgets
    others commit persisted persist next_image publish update dispatch_at settlement_at
    Amount-discrete OptionText-discrete claim_agrees outcome_agrees is_sound_slot
    is_sound_settlement is_sound_dispatch in_flight is_sound_owned is_sound_execution issued_fences
    all_of_executions slot_settled slot_held attempts_of execution_amount expected_amount
    is_sound_budget are_sound_budgets is_valid_image validated_image budget_at budget find_execution
    with_journal journal_of live check_attempts permits_all issue admit existing_execution reserve
    is_current is_in_flight claim_slot claim dispatch settlement_of accept_usage check_usage
    settle_slot record_outcome repeat_outcome settle unused_micros close_slot close_journal close
    perform run ℕ_discrete Text-discrete sorted insert_sorted lookup
sequence-different_example = sequence-different (slot 1 ∷ slot 2 ∷ []) refl

abbrev reserved_store : Store ℕ
reserved_store = run policy outside (reserves request ∷ []) (start policy 0)

abbrev claimed_store : Store ℕ
claimed_store =
    run policy outside (reserves request ∷ dispatches east_reservation (slot 1) ∷ [])
      (start policy 0)

abbrev settled_store : Store ℕ
settled_store =
    run policy outside
      (reserves request ∷ dispatches east_reservation (slot 1) ∷ settles outcome ∷ [])
      (start policy 0)

abbrev issued_execution : Execution
unfolding hex
issued_execution = issued policy request 0 (hex 2)

abbrev claimed_execution : Execution
unfolding hex
claimed_execution =
    claimed issued_execution east_reservation (slot 1) (hex 4) (fresh_journal east_reservation)

abbrev settled_execution : Execution
unfolding hex
settled_execution =
    with_outcome claimed_execution outcome (hex 6)
      (claimed_journal (slot 1) (hex 4) (fresh_journal east_reservation))

abbrev outcome_receipt : SpendSettlementReceipt
unfolding hex
outcome_receipt = settlement_receipt outcome (hex 6)

answer-IsRecorded :
    IsRecorded (codes "x1") (IsAnswered (some east_reservation)) reserved_store.image
unfolding SpendWindow-discrete Date-discrete SpendBudgetScope-discrete SpendBudgetLimit-discrete
    SpendAttemptAllocation-discrete SpendReservationRequest-discrete all_different is_opaque_id
    split_dots is_segment require_workload require_digest require_integer check_scope check_limit
    check_budget permits_allocation check_allocation append_to_group grouped range Keys-discrete
    Numbers-discrete same_candidate check_group check_groups require_allocation_sequence sum_of
    reserved_micros check_request to_reservation_micros SpendReservation-discrete check_reservation
    SpendDispatchReceipt-discrete check_dispatch SpendSettlement-discrete require_cost_evidence
    check_settlement check_settlement_receipt SpendAttemptState-discrete check_fence check_cost
    check_attempt Allocations-discrete check_closure check_journal then_with ◌>>=◌ return refuse
    refuse_if constructed known_or limits_for by_execution_id are_fixtures freeze start accept_now
    now_of accept_date check_admission_date hex accept_fence fence_of changed_budget changed_budgets
    others commit persisted persist next_image publish update dispatch_at settlement_at
    Amount-discrete OptionText-discrete claim_agrees outcome_agrees is_sound_slot
    is_sound_settlement is_sound_dispatch in_flight is_sound_owned is_sound_execution issued_fences
    all_of_executions slot_settled slot_held attempts_of execution_amount expected_amount
    is_sound_budget are_sound_budgets is_valid_image validated_image budget_at budget find_execution
    with_journal journal_of live check_attempts permits_all issue admit existing_execution reserve
    is_current is_in_flight claim_slot claim dispatch settlement_of accept_usage check_usage
    settle_slot record_outcome repeat_outcome settle unused_micros close_slot close_journal close
    perform run ℕ_discrete Text-discrete sorted insert_sorted lookup
answer-IsRecorded = record { execution = issued_execution; found = refl; fact = refl }

claim-IsRecorded :
    IsRecorded (codes "x1") (IsClaimed east_reservation (slot 1) first_claim) claimed_store.image
unfolding SpendWindow-discrete Date-discrete SpendBudgetScope-discrete SpendBudgetLimit-discrete
    SpendAttemptAllocation-discrete SpendReservationRequest-discrete all_different is_opaque_id
    split_dots is_segment require_workload require_digest require_integer check_scope check_limit
    check_budget permits_allocation check_allocation append_to_group grouped range Keys-discrete
    Numbers-discrete same_candidate check_group check_groups require_allocation_sequence sum_of
    reserved_micros check_request to_reservation_micros SpendReservation-discrete check_reservation
    SpendDispatchReceipt-discrete check_dispatch SpendSettlement-discrete require_cost_evidence
    check_settlement check_settlement_receipt SpendAttemptState-discrete check_fence check_cost
    check_attempt Allocations-discrete check_closure check_journal then_with ◌>>=◌ return refuse
    refuse_if constructed known_or limits_for by_execution_id are_fixtures freeze start accept_now
    now_of accept_date check_admission_date hex accept_fence fence_of changed_budget changed_budgets
    others commit persisted persist next_image publish update dispatch_at settlement_at
    Amount-discrete OptionText-discrete claim_agrees outcome_agrees is_sound_slot
    is_sound_settlement is_sound_dispatch in_flight is_sound_owned is_sound_execution issued_fences
    all_of_executions slot_settled slot_held attempts_of execution_amount expected_amount
    is_sound_budget are_sound_budgets is_valid_image validated_image budget_at budget find_execution
    with_journal journal_of live check_attempts permits_all issue admit existing_execution reserve
    is_current is_in_flight claim_slot claim dispatch settlement_of accept_usage check_usage
    settle_slot record_outcome repeat_outcome settle unused_micros close_slot close_journal close
    perform run ℕ_discrete Text-discrete sorted insert_sorted lookup
claim-IsRecorded = record { execution = claimed_execution; found = refl; fact = (refl, refl) }

outcome-IsRecorded : IsRecorded (codes "x1") (IsSettled outcome outcome_receipt) settled_store.image
unfolding SpendWindow-discrete Date-discrete SpendBudgetScope-discrete SpendBudgetLimit-discrete
    SpendAttemptAllocation-discrete SpendReservationRequest-discrete all_different is_opaque_id
    split_dots is_segment require_workload require_digest require_integer check_scope check_limit
    check_budget permits_allocation check_allocation append_to_group grouped range Keys-discrete
    Numbers-discrete same_candidate check_group check_groups require_allocation_sequence sum_of
    reserved_micros check_request to_reservation_micros SpendReservation-discrete check_reservation
    SpendDispatchReceipt-discrete check_dispatch SpendSettlement-discrete require_cost_evidence
    check_settlement check_settlement_receipt SpendAttemptState-discrete check_fence check_cost
    check_attempt Allocations-discrete check_closure check_journal then_with ◌>>=◌ return refuse
    refuse_if constructed known_or limits_for by_execution_id are_fixtures freeze start accept_now
    now_of accept_date check_admission_date hex accept_fence fence_of changed_budget changed_budgets
    others commit persisted persist next_image publish update dispatch_at settlement_at
    Amount-discrete OptionText-discrete claim_agrees outcome_agrees is_sound_slot
    is_sound_settlement is_sound_dispatch in_flight is_sound_owned is_sound_execution issued_fences
    all_of_executions slot_settled slot_held attempts_of execution_amount expected_amount
    is_sound_budget are_sound_budgets is_valid_image validated_image budget_at budget find_execution
    with_journal journal_of live check_attempts permits_all issue admit existing_execution reserve
    is_current is_in_flight claim_slot claim dispatch settlement_of accept_usage check_usage
    settle_slot record_outcome repeat_outcome settle unused_micros close_slot close_journal close
    perform run ℕ_discrete Text-discrete sorted insert_sorted lookup
outcome-IsRecorded = record {
  execution = settled_execution;
  found = refl;
  fact = (refl, refl, refl);
}

reserve-once_example :
    reserve policy outside request
      (run policy outside (closes east_reservation ∷ []) reserved_store)
    ≡ (ok (some east_reservation), run policy outside (closes east_reservation ∷ []) reserved_store)
unfolding SpendWindow-discrete Date-discrete SpendBudgetScope-discrete SpendBudgetLimit-discrete
    SpendAttemptAllocation-discrete SpendReservationRequest-discrete all_different is_opaque_id
    split_dots is_segment require_workload require_digest require_integer check_scope check_limit
    check_budget permits_allocation check_allocation append_to_group grouped range Keys-discrete
    Numbers-discrete same_candidate check_group check_groups require_allocation_sequence sum_of
    reserved_micros check_request to_reservation_micros SpendReservation-discrete check_reservation
    SpendDispatchReceipt-discrete check_dispatch SpendSettlement-discrete require_cost_evidence
    check_settlement check_settlement_receipt SpendAttemptState-discrete check_fence check_cost
    check_attempt Allocations-discrete check_closure check_journal then_with ◌>>=◌ return refuse
    refuse_if constructed known_or limits_for by_execution_id are_fixtures freeze start accept_now
    now_of accept_date check_admission_date hex accept_fence fence_of changed_budget changed_budgets
    others commit persisted persist next_image publish update dispatch_at settlement_at
    Amount-discrete OptionText-discrete claim_agrees outcome_agrees is_sound_slot
    is_sound_settlement is_sound_dispatch in_flight is_sound_owned is_sound_execution issued_fences
    all_of_executions slot_settled slot_held attempts_of execution_amount expected_amount
    is_sound_budget are_sound_budgets is_valid_image validated_image budget_at budget find_execution
    with_journal journal_of live check_attempts permits_all issue admit existing_execution reserve
    is_current is_in_flight claim_slot claim dispatch settlement_of accept_usage check_usage
    settle_slot record_outcome repeat_outcome settle unused_micros close_slot close_journal close
    perform run ℕ_discrete Text-discrete sorted insert_sorted lookup
reserve-once_example =
    reserve-once policy outside (closes east_reservation ∷ []) reserved_store request
      (some east_reservation) answer-IsRecorded refl refl

dispatch-once_example :
    dispatch policy outside east_reservation
      (slot 1)
      (run policy outside (closes east_reservation ∷ []) claimed_store)
    ≡ (ok first_claim, run policy outside (closes east_reservation ∷ []) claimed_store)
unfolding SpendWindow-discrete Date-discrete SpendBudgetScope-discrete SpendBudgetLimit-discrete
    SpendAttemptAllocation-discrete SpendReservationRequest-discrete all_different is_opaque_id
    split_dots is_segment require_workload require_digest require_integer check_scope check_limit
    check_budget permits_allocation check_allocation append_to_group grouped range Keys-discrete
    Numbers-discrete same_candidate check_group check_groups require_allocation_sequence sum_of
    reserved_micros check_request to_reservation_micros SpendReservation-discrete check_reservation
    SpendDispatchReceipt-discrete check_dispatch SpendSettlement-discrete require_cost_evidence
    check_settlement check_settlement_receipt SpendAttemptState-discrete check_fence check_cost
    check_attempt Allocations-discrete check_closure check_journal then_with ◌>>=◌ return refuse
    refuse_if constructed known_or limits_for by_execution_id are_fixtures freeze start accept_now
    now_of accept_date check_admission_date hex accept_fence fence_of changed_budget changed_budgets
    others commit persisted persist next_image publish update dispatch_at settlement_at
    Amount-discrete OptionText-discrete claim_agrees outcome_agrees is_sound_slot
    is_sound_settlement is_sound_dispatch in_flight is_sound_owned is_sound_execution issued_fences
    all_of_executions slot_settled slot_held attempts_of execution_amount expected_amount
    is_sound_budget are_sound_budgets is_valid_image validated_image budget_at budget find_execution
    with_journal journal_of live check_attempts permits_all issue admit existing_execution reserve
    is_current is_in_flight claim_slot claim dispatch settlement_of accept_usage check_usage
    settle_slot record_outcome repeat_outcome settle unused_micros close_slot close_journal close
    perform run ℕ_discrete Text-discrete sorted insert_sorted lookup
dispatch-once_example =
    dispatch-once policy outside (closes east_reservation ∷ []) claimed_store east_reservation
      (slot 1) first_claim claim-IsRecorded refl refl

settle-once_example :
    (outcome_receipt.settlement ≡ outcome
      → settle policy outside outcome
          (run policy outside (closes east_reservation ∷ []) settled_store)
        ≡ (ok outcome_receipt, run policy outside (closes east_reservation ∷ []) settled_store))
    × (outcome_receipt.settlement ≢ outcome
        → settle policy outside outcome
            (run policy outside (closes east_reservation ∷ []) settled_store)
          ≡ (
            raised (control conflict),
            run policy outside (closes east_reservation ∷ []) settled_store,
          ))
unfolding SpendWindow-discrete Date-discrete SpendBudgetScope-discrete SpendBudgetLimit-discrete
    SpendAttemptAllocation-discrete SpendReservationRequest-discrete all_different is_opaque_id
    split_dots is_segment require_workload require_digest require_integer check_scope check_limit
    check_budget permits_allocation check_allocation append_to_group grouped range Keys-discrete
    Numbers-discrete same_candidate check_group check_groups require_allocation_sequence sum_of
    reserved_micros check_request to_reservation_micros SpendReservation-discrete check_reservation
    SpendDispatchReceipt-discrete check_dispatch SpendSettlement-discrete require_cost_evidence
    check_settlement check_settlement_receipt SpendAttemptState-discrete check_fence check_cost
    check_attempt Allocations-discrete check_closure check_journal then_with ◌>>=◌ return refuse
    refuse_if constructed known_or limits_for by_execution_id are_fixtures freeze start accept_now
    now_of accept_date check_admission_date hex accept_fence fence_of changed_budget changed_budgets
    others commit persisted persist next_image publish update dispatch_at settlement_at
    Amount-discrete OptionText-discrete claim_agrees outcome_agrees is_sound_slot
    is_sound_settlement is_sound_dispatch in_flight is_sound_owned is_sound_execution issued_fences
    all_of_executions slot_settled slot_held attempts_of execution_amount expected_amount
    is_sound_budget are_sound_budgets is_valid_image validated_image budget_at budget find_execution
    with_journal journal_of live check_attempts permits_all issue admit existing_execution reserve
    is_current is_in_flight claim_slot claim dispatch settlement_of accept_usage check_usage
    settle_slot record_outcome repeat_outcome settle unused_micros close_slot close_journal close
    perform run ℕ_discrete Text-discrete sorted insert_sorted lookup
settle-once_example =
    settle-once policy outside (closes east_reservation ∷ []) settled_store outcome outcome_receipt
      outcome-IsRecorded refl

abbrev estimate : Decimal
estimate = record { coefficient = 15; scale = 7 }

to_reservation_micros-ceil_example :
    (15 * 1000000 ≤ 2 * 10 ^ 7) × (2 * 10 ^ 7 < 15 * 1000000 + 10 ^ 7) × (2 ≤ max_spend_micros)
unfolding to_reservation_micros
to_reservation_micros-ceil_example = to_reservation_micros-ceil estimate 2 refl
