-- ===== src/Spend/Located.antt =====
-- The executions of an image: one is found by its identifier, and `_update` of
-- packages/gateway-core/src/governed_llm_gateway_core/adapters/spend_admission_memory.py puts
-- another in its place.
use governed_llm_gateway.Base.{
  ℕ, ◌+◌, ◌≤◌, ◌≡◌, refl, Bool, true, false, Option, none, some, List, [], ◌∷◌, ◌++◌, map, arith,
  Text, Text-discrete, contains, same,
}
use governed_llm_gateway.Spend.{all_of, all_different}
use governed_llm_gateway.Spend.Requests.{sum_of}
use governed_llm_gateway.Spend.Memory.{Execution, others}
use governed_llm_gateway.Spend.Audit.{all_of_executions, one_if}
use governed_llm_gateway.Spend.Worker.{existing_execution}
use governed_llm_gateway.Spend.Counting.{
  count, sum_of-append, sum_of-map, count_of_missing, count_of_different,
}

abbrev pub id_of : Execution → Text
id_of e = e.request.execution_id

-- What an execution counted for, if there was one.
abbrev pub before : Option Execution → (Execution → ℕ) → ℕ
before none g = 0
before (some e) g = g e

-- The identifier of an execution that is found.
pub existing-id :
    (i : Text) (executions : List Execution) (e : Execution)
    → existing_execution i executions ≡ some e
    → id_of e ≡ i
unfolding existing_execution
existing-id i [] e h = cc
existing-id i (x ∷ executions) e h = ground (arith, existing-id i executions e)

-- What holds of all executions holds of one that is found.
pub existing-all :
    (p : Execution → Bool) (i : Text) (executions : List Execution) (e : Execution)
    → existing_execution i executions ≡ some e
    → all_of p executions ≡ true
    → p e ≡ true
unfolding existing_execution
existing-all p i [] e h a = cc
existing-all p i (x ∷ executions) e h a = ground (arith, existing-all p i executions e)

pub others-all :
    (p : Execution → Bool) (i : Text) (executions : List Execution)
    → all_of p executions ≡ true
    → all_of p (others i executions) ≡ true
unfolding others
others-all p i [] a = refl
others-all p i (x ∷ executions) a = ground (arith, others-all p i executions)

missing-others :
    (i : Text) (executions : List Execution)
    → contains Text-discrete i (map (λ e. e.request.execution_id) executions) ≡ false
    → others i executions ≡ executions
unfolding others
missing-others i [] h = refl
missing-others i (x ∷ executions) h = ground (arith, missing-others i executions)

missing-existing :
    (i : Text) (executions : List Execution)
    → contains Text-discrete i (map (λ e. e.request.execution_id) executions) ≡ false
    → existing_execution i executions ≡ none
unfolding existing_execution
missing-existing i [] h = refl
missing-existing i (x ∷ executions) h = ground (arith, missing-existing i executions)

-- The sum over the other executions, and what the one that is replaced counted for.
sum-others :
    (g : Execution → ℕ) (i : Text) (executions : List Execution)
    → all_different Text-discrete (map (λ e. e.request.execution_id) executions) ≡ true
    → sum_of g (others i executions) + before (existing_execution i executions) g
      ≡ sum_of g executions
unfolding sum_of others existing_execution all_different
sum-others g i [] h = refl
sum-others g i (x ∷ executions) h =
    ground
      (arith, sum-others g i executions, missing-others i executions, missing-existing i executions)

pub sum-replaced :
    (g : Execution → ℕ) (i : Text) (executions : List Execution) (e : Execution)
    → all_different Text-discrete (map (λ e. e.request.execution_id) executions) ≡ true
    → sum_of g (others i executions ++ e ∷ []) + before (existing_execution i executions) g
      ≡ sum_of g executions + g e
unfolding sum_of
sum-replaced g i executions e h =
    ground (arith, sum-others g i executions h, sum_of-append g (others i executions) (e ∷ []))

-- The count over the lists of all executions is a sum of counts.
pub count-all_of_executions :
    (x : Text) (items : Execution → List Text) (executions : List Execution)
    → count Text-discrete x (all_of_executions items executions)
      ≡ sum_of (λ e. count Text-discrete x (items e)) executions
unfolding all_of_executions sum_of count
count-all_of_executions x items [] = refl
count-all_of_executions x items (e ∷ executions) = ground (
  arith,
  count-all_of_executions x items executions,
  sum_of-append (λ y. one_if (same Text-discrete x y)) (items e)
      (all_of_executions items executions),
)

existing-none :
    (i : Text) (executions : List Execution)
    → existing_execution i executions ≡ none
    → contains Text-discrete i (map (λ e. e.request.execution_id) executions) ≡ false
unfolding existing_execution
existing-none i [] h = refl
existing-none i (x ∷ executions) h = ground (arith, existing-none i executions)

abbrev is_named : Text → Execution → ℕ
is_named x e = one_if (same Text-discrete x (id_of e))

counted-before :
    (x : Text) (executions : List Execution) (e : Execution) (old : Option Execution)
    → existing_execution (id_of e) executions ≡ old
    → count Text-discrete x (map (λ y. y.request.execution_id) executions) ≤ 1
    → count Text-discrete x (map (λ y. y.request.execution_id) executions) + is_named x e
      ≤ 1 + before old (is_named x)
counted-before x executions e none h k = ground (
  arith,
  count_of_missing Text-discrete x (map (λ y. y.request.execution_id) executions),
  existing-none (id_of e) executions h,
)
counted-before x executions e (some old) h k =
    ground (arith, existing-id (id_of e) executions old h)

-- Each identifier still occurs once.
pub count-ids :
    (x : Text) (executions : List Execution) (e : Execution)
    → all_different Text-discrete (map (λ y. y.request.execution_id) executions) ≡ true
    → count Text-discrete x
        (map (λ y. y.request.execution_id) (others (id_of e) executions ++ e ∷ []))
      ≤ 1
unfolding count
count-ids x executions e h = omega (
  arith,
  sum-replaced (is_named x) (id_of e) executions e h,
  sum_of-map (λ y. one_if (same Text-discrete x y)) id_of executions,
  sum_of-map (λ y. one_if (same Text-discrete x y)) id_of (others (id_of e) executions ++ e ∷ []),
  counted-before x executions e _ refl
      (count_of_different Text-discrete (map (λ y. y.request.execution_id) executions) h x),
)
