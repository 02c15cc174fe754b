-- ===== src/Spend/Requests.antt =====
-- The complete admission intent of
-- packages/gateway-core/src/governed_llm_gateway_core/domain/spend_admission.py: the order of its
-- allocations, its scopes, and its total; and the rounding of an estimate to micros.
use governed_llm_gateway.Base.{
  ℕ, zero, suc, ◌+◌, ◌-◌, ◌*◌, ◌^◌, ◌/◌, ℕ_discrete, Bool, true, false, not, ◌&&◌, ◌||◌, Option,
  none, some, List, [], ◌∷◌, ◌++◌, map, ◌==◌, ltb, Text, Text-discrete, Result, ok, raised,
  raise_if, ◌>>◌, same, contains, length, if◌then◌else◌, sorted, Dict, Decimal,
}
use governed_llm_gateway.Spend.{
  Checked, ContractError, contract_error, max_spend_micros, SpendWindow, daily, monthly, Date,
  Date-discrete, SpendBudgetScope, SpendBudgetScope-discrete, SpendAttemptAllocation,
  SpendReservationRequest, all_of, any_of, all_different, require_id, require_workload,
  require_digest, require_integer,
}

-- `groups.setdefault(fallback_index, []).append(allocation)`.
unfoldable pub append_to_group :
    SpendAttemptAllocation
    → Dict ℕ (List SpendAttemptAllocation)
    → Dict ℕ (List SpendAttemptAllocation)
append_to_group a [] = (a.fallback_index, a ∷ []) ∷ []
append_to_group a ((i, group) ∷ rest) =
    if a.fallback_index == i
    then (i, group ++ a ∷ []) ∷ rest
    else (i, group) ∷ append_to_group a rest

-- The groups that the loop over the allocations leaves, from those that it starts with.
unfoldable pub grouped :
    List SpendAttemptAllocation
    → Dict ℕ (List SpendAttemptAllocation)
    → Dict ℕ (List SpendAttemptAllocation)
grouped [] groups = groups
grouped (a ∷ rest) groups = grouped rest (append_to_group a groups)

-- Pairs in Python's order.
abbrev pub key_lt : ℕ × ℕ → ℕ × ℕ → Bool
key_lt (i, n) (j, m) = ltb i j || (i == j && ltb n m)

abbrev pub slot_key : SpendAttemptAllocation → ℕ × ℕ
slot_key a = (a.fallback_index, a.attempt_number)

-- `list(range(start, start + count))`.
unfoldable pub range : ℕ → ℕ → List ℕ
range start zero = []
range start (suc count) = start ∷ range (suc start) count

unfoldable pub Keys-discrete : Discrete (List (ℕ × ℕ))
Keys-discrete = hlevel ℕ_discrete

unfoldable pub Numbers-discrete : Discrete (List ℕ)
Numbers-discrete = hlevel ℕ_discrete

unfoldable pub same_candidate : SpendAttemptAllocation → SpendAttemptAllocation → Bool
same_candidate a b =
    same Text-discrete a.deployment_id b.deployment_id
    && a.bound_micros == b.bound_micros
    && same Text-discrete a.pricing_digest b.pricing_digest
    && same Text-discrete a.bound_evidence_id b.bound_evidence_id

-- The checks of one group, after the deployments of the groups before it.
unfoldable pub check_group : List Text → List SpendAttemptAllocation → Checked
check_group deployments [] = raised contract_error
check_group deployments (first ∷ rest) = do
  raise_if
      (not (
        same Numbers-discrete (map (λ a. a.attempt_number) (first ∷ rest))
          (range 1 (length (first ∷ rest)))))
      contract_error
  raise_if
      (contains Text-discrete first.deployment_id deployments
        || any_of (λ slot. not (same_candidate slot first)) (first ∷ rest))
      contract_error

abbrev pub deployments_with : List Text → List SpendAttemptAllocation → List Text
deployments_with deployments [] = deployments
deployments_with deployments (first ∷ rest) = first.deployment_id ∷ deployments

unfoldable pub check_groups : List Text → Dict ℕ (List SpendAttemptAllocation) → Checked
check_groups deployments [] = ok tt
check_groups deployments ((i, group) ∷ rest) = do
  check_group deployments group
  check_groups (deployments_with deployments group) rest

-- `_require_allocation_sequence`.
unfoldable pub require_allocation_sequence : List SpendAttemptAllocation → Checked
require_allocation_sequence allocations =
    let groups = grouped allocations [] in
    let keys = map slot_key allocations in
    raise_if
      (not (same Keys-discrete keys (sorted key_lt keys))
        || not (
            same Numbers-discrete
              (sorted ltb (map (λ (group : ℕ × List SpendAttemptAllocation). group.0) groups))
              (range 0 (length groups))))
      contract_error
    >> check_groups [] groups

-- The sum of a count over the items of a list.
unfoldable pub sum_of {ℓ} : {A : Type ℓ} → (A → ℕ) → List A → ℕ
sum_of f [] = 0
sum_of f (x ∷ xs) = f x + sum_of f xs

-- `SpendReservationRequest.reserved_micros`.
unfoldable pub reserved_micros : SpendReservationRequest → ℕ
unfolding sum_of
reserved_micros r = sum_of (λ a. a.bound_micros) r.allocations

-- `admitted_on if scope.window is SpendWindow.DAILY else admitted_on.replace(day=1)`.
abbrev pub window_start_of : SpendWindow → Date → Date
window_start_of daily d = d
window_start_of monthly d = record d { day = 1 }

-- `workload in (None, request.workload)`.
abbrev pub covers_workload : Option Text → Text → Bool
covers_workload none w = true
covers_workload (some v) w = same Text-discrete v w

abbrev pub matches_attribution : SpendReservationRequest → SpendBudgetScope → Bool
matches_attribution r s =
    same Text-discrete s.client_id r.client_id
    && covers_workload s.workload r.workload
    && same Date-discrete s.window_start (window_start_of s.window r.admitted_on)

abbrev pub is_empty {ℓ} : {A : Type ℓ} → List A → Bool
is_empty [] = true
is_empty (x ∷ xs) = false

abbrev pub scopes_of : SpendReservationRequest → List SpendBudgetScope
scopes_of r = map (λ l. l.scope) r.limits

-- `SpendReservationRequest.__post_init__`.
unfoldable pub check_request : SpendReservationRequest → Checked
check_request r = do
  require_id r.execution_id
  require_id r.owner_id
  require_id r.client_id
  require_workload r.workload
  require_integer 1 r.policy_epoch
  require_digest r.policy_digest
  require_digest r.plan_digest
  require_digest r.registry_digest
  require_digest r.retry_policy_digest
  raise_if (is_empty r.limits) contract_error
  raise_if (is_empty r.allocations) contract_error
  raise_if (not (all_different SpendBudgetScope-discrete (scopes_of r))) contract_error
  raise_if (not (all_of (matches_attribution r) (scopes_of r))) contract_error
  require_allocation_sequence r.allocations
  require_integer 0 (reserved_micros r)

-- `to_reservation_micros` of a finite estimate that is not negative: rounded up. The context has 20
-- digits, more than a bounded product needs, so only the rounding to an integer is inexact.
unfoldable pub to_reservation_micros : Decimal → Result ContractError ℕ
to_reservation_micros amount =
    let scaled = amount.coefficient * 1000000 in
    let unit = 10 ^ amount.scale in
    if ltb (max_spend_micros * unit) scaled
    then raised contract_error
    else if amount.coefficient == 0
    then ok 0
    else if ltb scaled unit
    then ok 1
    else ok ((scaled + (unit - 1)) / unit)
