-- ===== src/Spend/Conserved.antt =====
-- Construction of the state of
-- packages/gateway-core/src/governed_llm_gateway_core/adapters/spend_admission_memory.py, and the
-- checks of its image after any history.
use governed_llm_gateway.Base.{
  ℕ, ◌≡◌, ◌⊎◌, refl, subst, ◌∙◌, Bool, true, List, [], ◌∷◌, map, arith, Text-discrete, contains,
  Result, ok, raised, inl, inr, lookup,
}
use governed_llm_gateway.Spend.{
  SpendReservationRequest, SpendBudgetSnapshot, SpendBudgetLimit, SpendBudgetLimit-discrete, all_of,
  all_different, SpendBudgetScope-discrete, check_budget, Checked, SpendAttemptAllocation-discrete,
}
use governed_llm_gateway.Spend.Requests.{sum_of, check_request}
use governed_llm_gateway.Spend.Memory.{
  Outside, Store, Execution, Frozen, Change, Failure, passes, freeze, frozen_by, are_fixtures,
  by_execution_id, limits_for, policy_agrees, start,
}
use governed_llm_gateway.Spend.Audit.{
  is_approved, is_valid_image, is_valid_store, are_sound_budgets, is_sound_budget, expected_amount,
  all_of_executions,
}
use governed_llm_gateway.Spend.History.{Operation, perform, run}
use governed_llm_gateway.Spend.Effects.{
  IsSame, IsSame-refl, IsKept, Published, EndsAs, Covers, covers_each,
}
use governed_llm_gateway.Spend.Endings.{perform-Ends}
use governed_llm_gateway.Spend.Accounted.{Accounts, next-valid}
use governed_llm_gateway.Spend.Owned.{owned_lem}
use governed_llm_gateway.Spend.Audited.{IsFrozen, claim-Accounts, settle-Accounts, close-Accounts}
use governed_llm_gateway.Spend.Admitted.{deny-Accounts, issue-Accounts}
use governed_llm_gateway.Spend.Sequence.{sequence-different}

-- What holds of all requests holds of one that is looked up.
approved-all :
    (p : SpendReservationRequest → Bool) (requests : List SpendReservationRequest)
    (r : SpendReservationRequest)
    → all_of p requests ≡ true
    → is_approved (lookup Text-discrete r.execution_id (by_execution_id requests)) r ≡ true
    → p r ≡ true
unfolding by_execution_id lookup
approved-all p [] r h k = cc
approved-all p (q ∷ requests) r h k = ground (arith, approved-all p requests r)

request-different :
    (r : SpendReservationRequest)
    → check_request r ≡ ok tt
    → all_different SpendAttemptAllocation-discrete r.allocations ≡ true
unfolding check_request
request-different r h = sequence-different r.allocations (ground arith)

limit-known :
    (budgets : List SpendBudgetSnapshot) (r : SpendReservationRequest) (l : SpendBudgetLimit)
    → contains SpendBudgetLimit-discrete l (limits_for budgets r) ≡ true
    → contains SpendBudgetScope-discrete l.scope (map (λ b. b.limit.scope) budgets) ≡ true
unfolding limits_for
limit-known [] r l h = cc
limit-known (b ∷ budgets) r l h = ground (arith, limit-known budgets r l)

limits-known :
    (budgets : List SpendBudgetSnapshot) (r : SpendReservationRequest)
    (limits : List SpendBudgetLimit)
    → all_of (λ l. contains SpendBudgetLimit-discrete l (limits_for budgets r)) limits ≡ true
    → all_of
        (λ scope. contains SpendBudgetScope-discrete scope (map (λ b. b.limit.scope) budgets))
        (map (λ l. l.scope) limits)
      ≡ true
limits-known budgets r [] h = refl
limits-known budgets r (l ∷ limits) h =
    ground (arith, limit-known budgets r l, limits-known budgets r limits)

froze :
    (budgets : List SpendBudgetSnapshot) (first : SpendReservationRequest)
    (rest : List SpendReservationRequest) (lease : ℕ) (f : Frozen)
    → freeze budgets (first ∷ rest) lease ≡ ok f
    → frozen_by budgets (first ∷ rest) lease ≡ f
unfolding freeze
froze budgets first rest lease f h = ground arith

fixtures :
    (budgets : List SpendBudgetSnapshot) (first : SpendReservationRequest)
    (rest : List SpendReservationRequest) (lease : ℕ) (f : Frozen)
    → freeze budgets (first ∷ rest) lease ≡ ok f
    → are_fixtures budgets (first ∷ rest) lease ≡ true
unfolding freeze
fixtures budgets first rest lease f h = ground arith

passed : (c : Checked) → passes c ≡ true → c ≡ ok tt
passed (ok tt) h = refl
passed (raised e) h = cc

covered :
    (budgets : List SpendBudgetSnapshot) (first r : SpendReservationRequest)
    → policy_agrees budgets first r ≡ true
    → all_of (λ l. contains SpendBudgetLimit-discrete l (limits_for budgets r)) r.limits ≡ true
covered budgets first r h = ground arith

fixed :
    (budgets : List SpendBudgetSnapshot) (first : SpendReservationRequest)
    (rest : List SpendReservationRequest) (lease : ℕ)
    → are_fixtures budgets (first ∷ rest) lease ≡ true
    → IsFrozen (frozen_by budgets (first ∷ rest) lease)
unfolding are_fixtures
fixed budgets first rest lease good = record {
  different = λ r approved. request-different r (
      passed (check_request r)
        (approved-all (λ q. passes (check_request q)) (first ∷ rest) r (ground arith) approved));
  known = λ r approved. limits-known budgets r r.limits (
      covered budgets first r
        (approved-all (policy_agrees budgets first) (first ∷ rest) r (ground arith) approved));
  checked = ground arith;
}

-- What construction accepts is frozen well.
pub freeze-IsFrozen :
    (budgets : List SpendBudgetSnapshot) (requests : List SpendReservationRequest) (lease : ℕ)
    (f : Frozen)
    → freeze budgets requests lease ≡ ok f
    → IsFrozen f
unfolding freeze are_fixtures
freeze-IsFrozen budgets [] lease f h = cc
freeze-IsFrozen budgets (first ∷ rest) lease f h =
    subst IsFrozen (froze budgets first rest lease f h)
      (fixed budgets first rest lease (fixtures budgets first rest lease f h))

start-budgets :
    (opening : List SpendBudgetSnapshot)
    → all_of (λ b. passes (check_budget b)) opening ≡ true
    → are_sound_budgets opening opening [] ≡ true
unfolding are_sound_budgets is_sound_budget expected_amount sum_of
start-budgets [] h = refl
start-budgets (b ∷ opening) h = ground (arith, start-budgets opening)

start-valid :
    {S : Type 0} (f : Frozen)
    → IsFrozen f
    → (outside : S) → is_valid_store f (start f outside) ≡ true
unfolding is_valid_image start all_of_executions all_different
start-valid f frozen outside = ground (arith, start-budgets f.opening frozen.checked)

-- The store passes all checks, or an amount that did not fit has marked it as failed.
abbrev pub IsAccounted : {S : Type 0} → Frozen → Store S → Type 0
IsAccounted f t = (is_valid_store f t ≡ true) ⊎ (t.failed ≡ true)

module _ {S : Type 0} (f : Frozen) (frozen : IsFrozen f) (o : Outside S) (s : Store S) where
  abbrev HasAccounts : Execution → Change → Type 0
  HasAccounts e c = is_valid_store f s ≡ true → Accounts f s.image e c

  accounts-cover : Covers f s.image HasAccounts
  accounts-cover = record {
    denying = λ request h v. deny-Accounts f s.image request h;
    issuing = λ request now fence h v. issue-Accounts f frozen s.image request now fence h;
    claiming = λ e r a j fence h v.
        claim-Accounts f frozen s.image e r j h.owning
          (owned_lem f s.image s.failed s.revision s.seen e r j v h.owning) a fence h;
    settling = λ e settlement j fence h v.
        settle-Accounts f frozen s.image e settlement.dispatch.reservation j h.owning
          (owned_lem f s.image s.failed s.revision s.seen e settlement.dispatch.reservation j v
            h.owning)
          settlement fence refl h;
    closing = λ e r j fence h v.
        close-Accounts f frozen s.image e r j h.owning
          (owned_lem f s.image s.failed s.revision s.seen e r j v h.owning) fence h;
  }

  same-valid : (t : Store S) → IsSame s t → is_valid_store f s ≡ true → is_valid_store f t ≡ true
  same-valid t h v = rw (h.image, h.revision, h.seen, h.failed) v

  Published-valid :
      (t : Store S)
      → Published HasAccounts s t
      → is_valid_store f s ≡ true
      → is_valid_store f t ≡ true
  Published-valid t h v =
      rw (h.image, h.revision, h.seen, h.failed)
        (next-valid f s.image h.execution h.change h.budgets s.failed s.revision s.seen v
          (h.legitimate v) h.fits)

  kept-IsAccounted :
      (t : Store S)
      → (t.failed ≡ s.failed) ⊎ (t.failed ≡ true)
      → IsKept s t
      → IsAccounted f s
      → IsAccounted f t
  kept-IsAccounted t (inr x) h v = inr x
  kept-IsAccounted t (inl e) h (inr x) = inr (e ∙ x)
  kept-IsAccounted t (inl e) h (inl v) = inl (rw (h.image, h.revision, h.seen, e) v)

  ended-IsAccounted :
      (q : Result Failure (Unit {0}) × Store S)
      → EndsAs HasAccounts s q
      → IsAccounted f s
      → IsAccounted f q.1
  ended-IsAccounted (raised e, t) (inl h) v = kept-IsAccounted t h.failed h v
  ended-IsAccounted (raised e, t) (inr h) (inl v) = inl (Published-valid t h v)
  ended-IsAccounted (raised e, t) (inr h) (inr x) = inr (h.failed ∙ x)
  ended-IsAccounted (ok a, t) (inl h) (inl v) = inl (same-valid t h v)
  ended-IsAccounted (ok a, t) (inl h) (inr x) = inr (h.failed ∙ x)
  ended-IsAccounted (ok a, t) (inr h) (inl v) = inl (Published-valid t h v)
  ended-IsAccounted (ok a, t) (inr h) (inr x) = inr (h.failed ∙ x)

  perform-IsAccounted : (op : Operation) → IsAccounted f s → IsAccounted f (perform f o op s).1
  perform-IsAccounted op v =
      ended-IsAccounted (perform f o op s)
        ((perform-Ends HasAccounts s f o op
            (covers_each f s.image HasAccounts op accounts-cover)).ends
          s (IsSame-refl s))
        v

pub run-IsAccounted :
    {S : Type 0} (f : Frozen) (frozen : IsFrozen f) (o : Outside S) (ops : List Operation)
    (s : Store S)
    → IsAccounted f s
    → IsAccounted f (run f o ops s)
unfolding run
run-IsAccounted f frozen o [] s v = v
run-IsAccounted f frozen o (op ∷ ops) s v =
    run-IsAccounted f frozen o ops (perform f o op s).1 (perform-IsAccounted f frozen o s op v)

-- From fixtures that construction accepts, after any history of calls, whether they return or
-- raise, the image passes every check of `_validated_image`, unless an amount that did not fit in a
-- budget has marked the state as failed: in particular each budget holds its opening amount and the
-- bounds of all slots that are neither settled nor closed unused, and has settled its opening
-- amount and the costs of all settled slots; no reservation has two slots that may have executed;
-- all fences differ; and the suspended deployments are those that exceeded a bound.
pub history-accounted :
    {S : Type 0} (o : Outside S) (budgets : List SpendBudgetSnapshot)
    (requests : List SpendReservationRequest) (lease : ℕ) (f : Frozen) (ops : List Operation)
    (outside : S)
    → freeze budgets requests lease ≡ ok f
    → (is_valid_store f (run f o ops (start f outside)) ≡ true)
      ⊎ ((run f o ops (start f outside)).failed ≡ true)
history-accounted o budgets requests lease f ops outside h =
    let frozen = freeze-IsFrozen budgets requests lease f h in
    run-IsAccounted f frozen o ops (start f outside) (inl (start-valid f frozen outside))
