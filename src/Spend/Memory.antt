-- ===== src/Spend/Memory.antt =====
-- The state of packages/gateway-core/src/governed_llm_gateway_core/adapters/spend_admission_memory.py:
-- `InMemorySpendAdmissionState`, with its construction, its clocks, its fences, and the one place
-- that publishes a new image. The lock makes each method one step. The clocks, `uuid4`, the
-- validator of usage and the end of a commit are parameters. Time is in ticks, so that a sum of times is exact.
use governed_llm_gateway.Base.{
  ℕ, zero, suc, ◌+◌, ◌-◌, ◌/◌, ◌%◌, ℕ_discrete, Bool, true, false, not, ◌&&◌, ◌||◌, Option, none,
  some, List, [], ◌∷◌, ◌++◌, map, ltb, ◌==◌, Text, Text-discrete, Result, ok, raised, raise_if,
  same, contains, if◌then◌else◌, Dict,
}
use governed_llm_gateway.Spend.{
  Checked, ContractError, contract_error, Date, Date-discrete, SpendBudgetScope,
  SpendBudgetScope-discrete, SpendBudgetLimit, SpendBudgetLimit-discrete, SpendBudgetSnapshot,
  SpendReservationRequest, check_budget, all_of, all_different,
}
use governed_llm_gateway.Spend.Requests.{check_request, matches_attribution, scopes_of, is_empty}
use governed_llm_gateway.Spend.Receipts.{
  SpendReservation, SpendDispatchReceipt, SpendSettlement, SpendSettlementReceipt,
  SpendJournalSnapshot,
}

-- `SpendControlErrorCode`.
pub data SpendControlErrorCode : Type 0 where
  unavailable invalid_state conflict expired : SpendControlErrorCode

-- What a method raises: `SpendControlError`, or what a constructor raises.
pub data Failure : Type 0 where
  control : SpendControlErrorCode → Failure
  contract_failure : Failure

-- `_Execution`.
pub record Execution : Type 0 where
  pub request : SpendReservationRequest
  pub reservation : Option SpendReservation
  pub expires_at : Option ℕ
  pub journal : Option SpendJournalSnapshot
  pub dispatches : List SpendDispatchReceipt
  pub settlements : List SpendSettlementReceipt
  pub admitted_at : Option ℕ

-- `_Image`. The two frozen sets are lists.
pub record Image : Type 0 where
  pub revision : ℕ
  pub budgets : List SpendBudgetSnapshot
  pub executions : List Execution
  pub suspended : List Text
  pub fences : List Text

-- What a call of a clock ends in: an exception, a value that `_now` or `_check_admission_date`
-- refuses by itself (no finite number, a negative one, no UTC time), or a time.
pub data Reading (T : Type 0) : Type 0 where
  fails : Reading T
  improper : Reading T
  reads : T → Reading T

-- A UTC time: its date, and the microsecond of the day.
pub record UtcTime : Type 0 where
  pub date : Date
  pub microsecond : ℕ

-- What a call of the validator ends in.
pub data Verdict : Type 0 where
  verdict_fails refused accepted : Verdict

-- What a call of `_commit` ends in. `_persist` expects that it may raise, before the image is
-- published or, with the acknowledgement lost, after it.
pub data CommitEnd : Type 0 where
  commits faults_before faults_after : CommitEnd

-- What the state is bound to, on a state of its own. A UUID is a number below 2 ^ 128.
pub record Outside (S : Type 0) : Type 0 where
  pub clock : S → Reading ℕ × S
  pub utc_clock : S → Reading UtcTime × S
  pub uuid4 : S → Reading ℕ × S
  pub usage_validator : SpendSettlement → S → Verdict × S
  pub commit_end : S → CommitEnd × S

-- The fields that construction sets for good.
pub record Frozen : Type 0 where
  pub opening : List SpendBudgetSnapshot
  pub approved : Dict Text SpendReservationRequest
  pub epoch : ℕ
  pub digest : Text
  pub lease : ℕ

-- The fields that methods assign, and the state of what is outside.
pub record Store (S : Type 0) : Type 0 where
  pub last_now : Option ℕ
  pub last_utc : Option UtcTime
  pub revision : ℕ
  pub seen : List Text
  pub failed : Bool
  pub image : Image
  pub outside : S

abbrev pub Call {ℓ} : Type 0 → Type ℓ → Type ℓ
Call S A = Store S → Result Failure A × Store S

unfoldable pub then_with {ℓ κ} :
    {S : Type 0} {A : Type ℓ} {B : Type κ}
    → (A → Call S B)
    → Result Failure A × Store S
    → Result Failure B × Store S
then_with rest (ok a, s) = rest a s
then_with rest (raised e, s) = (raised e, s)

-- In sequence: what follows is skipped after an exception, and the store is kept.
infixl 5 ◌>>=◌
unfoldable pub ◌>>=◌ {ℓ κ} :
    {S : Type 0} {A : Type ℓ} {B : Type κ} → Call S A → (A → Call S B) → Call S B
unfolding then_with
(first >>= rest) s = then_with rest (first s)

infixl 5 ◌>>◌
abbrev pub ◌>>◌ {ℓ} : {S : Type 0} {B : Type ℓ} → Call S (Unit {0}) → Call S B → Call S B
first >> rest = first >>= λ done. rest

unfoldable pub return {ℓ} : {S : Type 0} {A : Type ℓ} → A → Call S A
return a s = (ok a, s)

-- `raise SpendControlError(code)`.
unfoldable pub refuse {ℓ} : {S : Type 0} {A : Type ℓ} → SpendControlErrorCode → Call S A
refuse e s = (raised (control e), s)

-- `if condition: raise SpendControlError(code)`.
unfoldable pub refuse_if : {S : Type 0} → Bool → SpendControlErrorCode → Call S (Unit {0})
refuse_if condition e s = (raise_if condition (control e), s)

-- A constructor: it raises where its check does.
unfoldable pub constructed : {S : Type 0} → Checked → Call S (Unit {0})
constructed (ok done) s = (ok tt, s)
constructed (raised e) s = (raised contract_failure, s)

-- A look-up: what follows with the value that is found, or without one.
unfoldable pub known_or {ℓ} :
    {S : Type 0} {A : Type ℓ} {B : Type 0} → Option A → (A → Call S B) → Call S B → Call S B
known_or none found missing = missing
known_or (some a) found missing = found a

-- `_limits_for`.
unfoldable pub limits_for :
    List SpendBudgetSnapshot → SpendReservationRequest → List SpendBudgetLimit
unfolding Date-discrete
limits_for [] r = []
limits_for (b ∷ opening) r =
    if matches_attribution r b.limit.scope
    then b.limit ∷ limits_for opening r
    else limits_for opening r

-- `set(xs) == set(ys)`.
abbrev pub same_items {ℓ} : {A : Type ℓ} → Discrete A → List A → List A → Bool
same_items d xs ys = all_of (λ x. contains d x ys) xs && all_of (λ y. contains d y xs) ys

-- `{r.execution_id: r for r in approved_requests}`, of requests with distinct identifiers.
unfoldable pub by_execution_id : List SpendReservationRequest → Dict Text SpendReservationRequest
by_execution_id [] = []
by_execution_id (r ∷ requests) = (r.execution_id, r) ∷ by_execution_id requests

abbrev pub passes : Checked → Bool
passes (ok done) = true
passes (raised e) = false

-- The policy of a request is the first one's, and its limits are all that apply to it.
abbrev pub policy_agrees :
    List SpendBudgetSnapshot → SpendReservationRequest → SpendReservationRequest → Bool
policy_agrees budgets first r =
    r.policy_epoch == first.policy_epoch
    && same Text-discrete r.policy_digest first.policy_digest
    && same_items SpendBudgetLimit-discrete r.limits (limits_for budgets r)

-- What `__init__` requires of its fixtures.
unfoldable pub are_fixtures : List SpendBudgetSnapshot → List SpendReservationRequest → ℕ → Bool
are_fixtures budgets [] lease = false
are_fixtures budgets (first ∷ rest) lease =
    not (is_empty budgets)
    && not (lease == 0)
    && all_of (λ b. passes (check_budget b)) budgets
    && all_of (λ r. passes (check_request r)) (first ∷ rest)
    && all_different Text-discrete (map (λ r. r.execution_id) (first ∷ rest))
    && all_different SpendBudgetScope-discrete (map (λ b. b.limit.scope) budgets)
    && all_of (policy_agrees budgets first) (first ∷ rest)

abbrev pub frozen_by : List SpendBudgetSnapshot → List SpendReservationRequest → ℕ → Frozen
frozen_by budgets [] lease = record {
  opening = budgets;
  approved = [];
  epoch = 0;
  digest = [];
  lease = lease;
}
frozen_by budgets (first ∷ rest) lease = record {
  opening = budgets;
  approved = by_execution_id (first ∷ rest);
  epoch = first.policy_epoch;
  digest = first.policy_digest;
  lease = lease;
}

-- `__init__`: what it freezes.
unfoldable pub freeze :
    List SpendBudgetSnapshot → List SpendReservationRequest → ℕ → Result ContractError Frozen
freeze budgets requests lease =
    if are_fixtures budgets requests lease
    then ok (frozen_by budgets requests lease)
    else raised contract_error

-- `__init__`: the state that it starts in.
unfoldable pub start : {S : Type 0} → Frozen → S → Store S
start f outside = record {
  last_now = none;
  last_utc = none;
  revision = 0;
  seen = [];
  failed = false;
  image = record {
    revision = 0;
    budgets = f.opening;
    executions = [];
    suspended = [];
    fences = [];
  };
  outside = outside;
}

abbrev is_earlier : ℕ → Option ℕ → Bool
is_earlier value none = false
is_earlier value (some last) = ltb value last

unfoldable pub accept_now : {S : Type 0} → Reading ℕ → Call S ℕ
accept_now fails s = (raised (control unavailable), s)
accept_now improper s = (raised (control invalid_state), s)
accept_now (reads value) s =
    if is_earlier value s.last_now
    then (raised (control invalid_state), s)
    else (ok value, record s { last_now = some value })

-- `_now`: the clock never goes back.
unfoldable pub now_of : {S : Type 0} → Outside S → Call S ℕ
unfolding accept_now
now_of o s = let (r, outside) = o.clock s.outside in accept_now r (record s { outside = outside })

abbrev date_lt : Date → Date → Bool
date_lt a b =
    ltb a.year b.year
    || (a.year == b.year && (ltb a.month b.month || (a.month == b.month && ltb a.day b.day)))

abbrev utc_lt : UtcTime → UtcTime → Bool
utc_lt a b =
    date_lt a.date b.date || (same Date-discrete a.date b.date && ltb a.microsecond b.microsecond)

abbrev is_earlier_utc : UtcTime → Option UtcTime → Bool
is_earlier_utc value none = false
is_earlier_utc value (some last) = utc_lt value last

unfoldable pub accept_date :
    {S : Type 0} → SpendReservationRequest → Reading UtcTime → Call S (Unit {0})
unfolding Date-discrete ℕ_discrete
accept_date request fails s = (raised (control unavailable), s)
accept_date request improper s = (raised (control invalid_state), s)
accept_date request (reads value) s =
    if is_earlier_utc value s.last_utc then (raised (control invalid_state), s) else (
      raise_if (not (same Date-discrete value.date request.admitted_on)) (control conflict),
      record s { last_utc = some value },
    )

-- `_check_admission_date`.
unfoldable pub check_admission_date :
    {S : Type 0} → Outside S → SpendReservationRequest → Call S (Unit {0})
unfolding accept_date
check_admission_date o request s =
    let (r, outside) = o.utc_clock s.outside in
    accept_date request r (record s { outside = outside })

-- A digit of `UUID.hex`.
abbrev hex_digit : ℕ → ℕ
hex_digit d = if ltb d 10 then 48 + d else 87 + d

hex_digits : ℕ → ℕ → Text → Text
hex_digits zero n rest = rest
hex_digits (suc count) n rest = hex_digits count (n / 16) (hex_digit (n % 16) ∷ rest)

-- `value.hex` of a UUID: its 32 digits.
unfoldable pub hex : ℕ → Text
unfolding hex_digits
hex n = hex_digits 32 n []

unfoldable pub accept_fence : {S : Type 0} → Image → Reading ℕ → Call S Text
unfolding hex Text-discrete ℕ_discrete
accept_fence image fails s = (raised (control unavailable), s)
accept_fence image improper s = (raised (control invalid_state), s)
accept_fence image (reads value) s =
    if contains Text-discrete (hex value) image.fences
    then (raised (control invalid_state), s)
    else (ok (hex value), s)

-- `_fence`: a new identifier.
unfoldable pub fence_of : {S : Type 0} → Outside S → Image → Call S Text
unfolding accept_fence
fence_of o image s =
    let (r, outside) = o.uuid4 s.outside in accept_fence image r (record s { outside = outside })

-- What `_update` adds to each affected budget and to the image. `held_minus` is taken away from the
-- held amount; an amount below 0 is refused.
pub record Change : Type 0 where
  pub held_plus : ℕ
  pub held_minus : ℕ
  pub settled_delta : ℕ
  pub fence : Option Text
  pub suspended_model : Option Text

-- `replace(b, held_micros=..., settled_micros=...)`, with the checks of the new budget.
unfoldable pub changed_budget :
    Change → SpendBudgetSnapshot → Result ContractError SpendBudgetSnapshot
unfolding check_budget
changed_budget c b =
    if ltb (b.held_micros + c.held_plus) c.held_minus
    then raised contract_error
    else (let b' = record b {
      held_micros = b.held_micros + c.held_plus - c.held_minus;
      settled_micros = b.settled_micros + c.settled_delta;
    } in
        if passes (check_budget b') then ok b' else raised contract_error)

abbrev pub with_budget :
    Result ContractError SpendBudgetSnapshot
    → Result ContractError (List SpendBudgetSnapshot)
    → Result ContractError (List SpendBudgetSnapshot)
with_budget (raised e) rest = raised e
with_budget (ok b) (raised e) = raised e
with_budget (ok b) (ok rest) = ok (b ∷ rest)

-- The budgets after a change of those in some scopes.
unfoldable pub changed_budgets :
    List SpendBudgetScope
    → Change
    → List SpendBudgetSnapshot
    → Result ContractError (List SpendBudgetSnapshot)
unfolding changed_budget SpendBudgetScope-discrete
changed_budgets scopes c [] = ok []
changed_budgets scopes c (b ∷ budgets) =
    let b' =
      if contains SpendBudgetScope-discrete b.limit.scope scopes
      then changed_budget c b
      else ok b in
    with_budget b' (changed_budgets scopes c budgets)

-- The executions of other identifiers.
unfoldable pub others : Text → List Execution → List Execution
unfolding Text-discrete ℕ_discrete
others i [] = []
others i (e ∷ executions) =
    if same Text-discrete e.request.execution_id i
    then others i executions
    else e ∷ others i executions

abbrev pub with_new : Option Text → List Text → List Text
with_new none set = set
with_new (some t) set = if contains Text-discrete t set then set else t ∷ set

-- `_commit`: the assignments of one image.
unfoldable pub commit : {S : Type 0} → Image → Store S → Store S
commit image s = record s {
  seen = map (λ e. e.request.execution_id) image.executions;
  revision = image.revision;
  image = image;
}

-- The image that `_update` builds.
unfoldable pub next_image : Image → Execution → Change → List SpendBudgetSnapshot → Image
unfolding others Text-discrete ℕ_discrete
next_image image execution c budgets = record {
  revision = image.revision + 1;
  budgets = budgets;
  executions = others execution.request.execution_id image.executions ++ execution ∷ [];
  suspended = with_new c.suspended_model image.suspended;
  fences = with_new c.fence image.fences;
}

unfoldable pub persisted : {S : Type 0} → CommitEnd → Image → Call S (Unit {0})
unfolding commit
persisted commits image s = (ok tt, commit image s)
persisted faults_before image s = (raised (control unavailable), s)
persisted faults_after image s = (raised (control unavailable), commit image s)

-- `_persist`.
unfoldable pub persist : {S : Type 0} → Outside S → Image → Call S (Unit {0})
unfolding persisted
persist o image s =
    let (end, outside) = o.commit_end s.outside in
    persisted end image (record s { outside = outside })

-- The end of `_update`: an amount that does not fit marks the state as failed, and nothing is
-- published.
unfoldable pub publish :
    {S : Type 0}
    → Outside S
    → Image
    → Execution
    → Change
    → Result ContractError (List SpendBudgetSnapshot)
    → Call S (Unit {0})
unfolding persist next_image
publish o image execution c (ok budgets) s = persist o (next_image image execution c budgets) s
publish o image execution c (raised e) s =
    (raised (control invalid_state), record s { failed = true })

-- `_update`.
unfoldable pub update : {S : Type 0} → Outside S → Image → Execution → Change → Call S (Unit {0})
unfolding publish changed_budgets SpendBudgetScope-discrete
update o image execution c =
    publish o image execution c (changed_budgets (scopes_of execution.request) c image.budgets)
