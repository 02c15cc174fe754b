-- ===== src/Spend.antt =====
-- Values of spend admission:
-- packages/gateway-core/src/governed_llm_gateway_core/domain/spend_admission.py, with the window of
-- domain/spend.py: identifiers, scopes, limits, budgets, allocations and the reservation request.
-- A value that `__post_init__` accepts is one that its check returns. Types need no check.
pub mod Requests
pub mod Receipts
pub mod Memory
pub mod Audit
pub mod Worker
pub mod History
mod Effects
mod Endings
mod Changes
mod Counting
mod Located
mod Accounted
mod Slots
mod Owned
mod Audited
mod Admitted
mod Sequence
mod Conserved
mod Receipted
mod Rounding
mod Capped
mod Refined
mod Tests
use governed_llm_gateway.Base.{
  ℕ, zero, suc, ◌+◌, ◌-◌, ◌*◌, ◌^◌, ◌/◌, ◌%◌, ℕ_discrete, Bool, true, false, not, ◌&&◌, ◌||◌,
  Option, none, some, List, [], ◌∷◌, ◌++◌, map, ◌==◌, ltb, leb, Text, Text-discrete, text_eq, codes,
  Result, ok, raised, raise_if, ◌>>◌, same, contains, length, if◌then◌else◌, sorted, Dict, lookup,
  insert, Decimal,
}

-- `SpendAdmissionContractError`.
pub data ContractError : Type 0 where
  contract_error : ContractError

abbrev pub Checked : Type 0
Checked = Result ContractError (Unit {0})

-- `MAX_SPEND_MICROS`.
abbrev pub max_spend_micros : ℕ
max_spend_micros = 2 ^ 63 - 1

-- `SpendWindow`.
pub data SpendWindow : Type 0 where
  daily monthly : SpendWindow

unfoldable pub SpendWindow-discrete : Discrete SpendWindow
SpendWindow-discrete = hlevel

-- Python's `date`.
pub record Date : Type 0 where
  pub year : ℕ
  pub month : ℕ
  pub day : ℕ

unfoldable pub Date-discrete : Discrete Date
Date-discrete = hlevel ℕ_discrete

-- `SpendBudgetScope`.
pub record SpendBudgetScope : Type 0 where
  pub client_id : Text
  pub window : SpendWindow
  pub window_start : Date
  pub workload : Option Text

unfoldable pub SpendBudgetScope-discrete : Discrete SpendBudgetScope
SpendBudgetScope-discrete = hlevel (Text-discrete, SpendWindow-discrete, Date-discrete)

-- `SpendBudgetLimit`.
pub record SpendBudgetLimit : Type 0 where
  pub scope : SpendBudgetScope
  pub ceiling_micros : ℕ

unfoldable pub SpendBudgetLimit-discrete : Discrete SpendBudgetLimit
SpendBudgetLimit-discrete = hlevel (ℕ_discrete, SpendBudgetScope-discrete)

-- `SpendBudgetSnapshot`.
pub record SpendBudgetSnapshot : Type 0 where
  pub limit : SpendBudgetLimit
  pub settled_micros : ℕ
  pub held_micros : ℕ

-- `SpendAttemptAllocation`.
pub record SpendAttemptAllocation : Type 0 where
  pub deployment_id : Text
  pub fallback_index : ℕ
  pub attempt_number : ℕ
  pub bound_micros : ℕ
  pub pricing_digest : Text
  pub bound_evidence_id : Text

unfoldable pub SpendAttemptAllocation-discrete : Discrete SpendAttemptAllocation
SpendAttemptAllocation-discrete = hlevel (ℕ_discrete, Text-discrete)

-- `SpendReservationRequest`.
pub record SpendReservationRequest : Type 0 where
  pub execution_id : Text
  pub owner_id : Text
  pub client_id : Text
  pub workload : Text
  pub admitted_on : Date
  pub policy_epoch : ℕ
  pub policy_digest : Text
  pub plan_digest : Text
  pub registry_digest : Text
  pub retry_policy_digest : Text
  pub limits : List SpendBudgetLimit
  pub allocations : List SpendAttemptAllocation

unfoldable pub SpendReservationRequest-discrete : Discrete SpendReservationRequest
SpendReservationRequest-discrete = hlevel (
  ℕ_discrete, Text-discrete, Date-discrete, SpendBudgetLimit-discrete,
  SpendAttemptAllocation-discrete,
)

-- Every item of a list passes a test.
abbrev pub all_of {ℓ} : {A : Type ℓ} → (A → Bool) → List A → Bool
all_of p [] = true
all_of p (x ∷ xs) = p x && all_of p xs

-- Some item of a list passes a test.
abbrev pub any_of {ℓ} : {A : Type ℓ} → (A → Bool) → List A → Bool
any_of p [] = false
any_of p (x ∷ xs) = p x || any_of p xs

-- No item of a list occurs in it again: `len(set(xs)) == len(xs)`.
unfoldable pub all_different {ℓ} : {A : Type ℓ} → Discrete A → List A → Bool
all_different d [] = true
all_different d (x ∷ xs) = not (contains d x xs) && all_different d xs

is_digit : ℕ → Bool
is_digit c = leb 48 c && leb c 57

is_ascii_alnum : ℕ → Bool
unfolding is_digit
is_ascii_alnum c = is_digit c || (leb 65 c && leb c 90) || (leb 97 c && leb c 122)

is_id_char : ℕ → Bool
unfolding is_ascii_alnum
is_id_char c = is_ascii_alnum c || c == 46 || c == 95 || c == 45

-- `_OPAQUE_ID.fullmatch`: one letter or digit, then at most 127 of these, `.`, `_` or `-`.
unfoldable pub is_opaque_id : Text → Bool
unfolding is_ascii_alnum is_id_char
is_opaque_id [] = false
is_opaque_id (c ∷ cs) = is_ascii_alnum c && all_of is_id_char cs && leb (length cs) 127

-- `_require_id`.
abbrev pub require_id : Text → Checked
require_id value = raise_if (not (is_opaque_id value)) contract_error

-- `_require_id` of a value that may be `None`.
abbrev pub require_some_id : Option Text → Checked
require_some_id none = raised contract_error
require_some_id (some value) = require_id value

abbrev extend_first : ℕ → List Text → List Text
extend_first c [] = (c ∷ []) ∷ []
extend_first c (segment ∷ rest) = (c ∷ segment) ∷ rest

-- `value.split(".")`.
unfoldable pub split_dots : Text → List Text
split_dots [] = [] ∷ []
split_dots (c ∷ cs) = if c == 46 then [] ∷ split_dots cs else extend_first c (split_dots cs)

-- `segment.replace("-", "").isalnum()` of an opaque identifier: some letter or digit, and nothing
-- but these and dashes.
unfoldable pub is_segment : Text → Bool
unfolding is_ascii_alnum
is_segment t = any_of is_ascii_alnum t && all_of (λ c. is_ascii_alnum c || c == 45) t

-- `_require_workload`.
unfoldable pub require_workload : Text → Checked
unfolding is_opaque_id split_dots is_segment
require_workload value = do
  require_id value
  raise_if (ltb (length (split_dots value)) 2 || not (all_of is_segment (split_dots value)))
      contract_error

is_hex_digit : ℕ → Bool
unfolding is_digit
is_hex_digit c = is_digit c || (leb 97 c && leb c 102)

starts_with : Text → Text → Option Text
starts_with [] t = some t
starts_with (p ∷ ps) [] = none
starts_with (p ∷ ps) (c ∷ cs) = if p == c then starts_with ps cs else none

is_hex_tail : Option Text → Bool
unfolding is_hex_digit
is_hex_tail none = false
is_hex_tail (some t) = all_of is_hex_digit t && length t == 64

-- `_require_digest`.
unfoldable pub require_digest : Text → Checked
unfolding starts_with is_hex_tail
require_digest value =
    raise_if (not (is_hex_tail (starts_with (codes "sha256:") value))) contract_error

-- `_require_integer`.
unfoldable pub require_integer : ℕ → ℕ → Checked
require_integer minimum value =
    raise_if (not (leb minimum value && leb value max_spend_micros)) contract_error

-- `SpendBudgetScope.__post_init__`.
unfoldable pub check_scope : SpendBudgetScope → Checked
unfolding is_opaque_id require_workload SpendWindow-discrete
check_scope s = do
  require_id s.client_id
  elim s.workload [ none ↦ ok tt | some w ↦ require_workload w ]
  raise_if (same SpendWindow-discrete s.window monthly && not (s.window_start.day == 1))
      contract_error

-- `SpendBudgetLimit.__post_init__`.
unfoldable pub check_limit : SpendBudgetLimit → Checked
unfolding require_integer
check_limit l = require_integer 1 l.ceiling_micros

-- `SpendBudgetSnapshot.exposure_micros`.
abbrev pub exposure_micros : SpendBudgetSnapshot → ℕ
exposure_micros b = b.settled_micros + b.held_micros

-- `SpendBudgetSnapshot.__post_init__`.
unfoldable pub check_budget : SpendBudgetSnapshot → Checked
unfolding require_integer
check_budget b = do
  require_integer 0 b.settled_micros
  require_integer 0 b.held_micros
  require_integer 0 (exposure_micros b)

-- `SpendBudgetSnapshot.permits_allocation`, of an amount that is in bounds.
unfoldable pub permits_allocation : SpendBudgetSnapshot → ℕ → Bool
permits_allocation b amount =
    ltb (exposure_micros b) b.limit.ceiling_micros
    && leb (exposure_micros b + amount) b.limit.ceiling_micros

-- `SpendAttemptAllocation.__post_init__`.
unfoldable pub check_allocation : SpendAttemptAllocation → Checked
unfolding is_opaque_id require_digest require_integer
check_allocation a = do
  require_id a.deployment_id
  require_id a.bound_evidence_id
  require_digest a.pricing_digest
  require_integer 0 a.fallback_index
  require_integer 1 a.attempt_number
  require_integer 0 a.bound_micros
