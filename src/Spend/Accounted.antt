-- ===== src/Spend/Accounted.antt =====
-- `_validated_image` of
-- packages/gateway-core/src/governed_llm_gateway_core/adapters/spend_admission_memory.py after
-- `_update` has published an image: what the new execution has to account for.
use governed_llm_gateway.Base.{
  ℕ, ◌+◌, ◌≤◌, ◌≡◌, ◌↔◌, refl, sym, subst, Bool, true, false, Option, none, some, List, [], ◌∷◌,
  ◌++◌, map, arith, Text, Text-discrete, contains, ok, inl, inr, not,
}
use governed_llm_gateway.Spend.{
  all_of, all_different, SpendBudgetScope, SpendBudgetScope-discrete, SpendBudgetSnapshot,
}
use governed_llm_gateway.Spend.Requests.{sum_of, scopes_of}
use governed_llm_gateway.Spend.Receipts.{SpendAttemptSnapshot}
use governed_llm_gateway.Spend.Memory.{
  Execution, Image, Change, Frozen, others, with_new, same_items, next_image, changed_budget,
  changed_budgets,
}
use governed_llm_gateway.Spend.Audit.{
  all_of_executions, fences_of, suspended_by, slot_held, slot_settled, attempts_of,
  execution_amount, expected_amount, is_sound_budget, are_sound_budgets, is_sound_execution,
  is_valid_image,
}
use governed_llm_gateway.Spend.Worker.{existing_execution}
use governed_llm_gateway.Spend.Changes.{IsChanged, Each, none_left, one_more, changed_budgets-Each}
use governed_llm_gateway.Spend.Counting.{
  count, count_of_contains, contains_of_count, count_of_different, different_of_count,
  all_contained, contained_of_all, all_contained_self, all_of-append,
}
use governed_llm_gateway.Spend.Located.{
  id_of, before, others-all, count-ids, sum-replaced, count-all_of_executions,
}

abbrev pub listed : Option Text → List Text
listed none = []
listed (some t) = t ∷ []

abbrev pub slots_sum : (SpendAttemptSnapshot → ℕ) → Execution → ℕ
slots_sum amount e = sum_of amount (attempts_of e)

-- What a new execution has that takes the place of one with its identifier, or of none.
pub record Accounts (f : Frozen) (image : Image) (e : Execution) (c : Change) : Type 0 where
  pub sound : is_sound_execution f e ≡ true
  pub request :
      (old : Execution)
      → existing_execution (id_of e) image.executions ≡ some old
      → old.request ≡ e.request
  pub fences :
      (x : Text)
      → count Text-discrete x (fences_of e)
        ≡ before
            (existing_execution (id_of e) image.executions)
            (λ old. count Text-discrete x (fences_of old))
          + count Text-discrete x (listed c.fence)
  pub fresh : all_of (λ t. not (contains Text-discrete t image.fences)) (listed c.fence) ≡ true
  pub suspends :
      (x : Text)
      → count Text-discrete x (suspended_by e.settlements)
        ≡ before
            (existing_execution (id_of e) image.executions)
            (λ old. count Text-discrete x (suspended_by old.settlements))
          + count Text-discrete x (listed c.suspended_model)
  pub held :
      slots_sum slot_held e + c.held_minus
      ≡ before (existing_execution (id_of e) image.executions) (slots_sum slot_held) + c.held_plus
  pub settled :
      slots_sum slot_settled e
      ≡ before (existing_execution (id_of e) image.executions) (slots_sum slot_settled)
        + c.settled_delta

-- The amount that a changed scope's slots count for, and that of another.
covered-amount :
    (amount : SpendAttemptSnapshot → ℕ) (scope : SpendBudgetScope) (e : Execution)
    → contains SpendBudgetScope-discrete scope (scopes_of e.request) ≡ true
    → execution_amount amount scope e ≡ slots_sum amount e
unfolding execution_amount
covered-amount amount scope e h = ground arith

uncovered-amount :
    (amount : SpendAttemptSnapshot → ℕ) (scope : SpendBudgetScope) (e : Execution)
    → contains SpendBudgetScope-discrete scope (scopes_of e.request) ≡ false
    → execution_amount amount scope e ≡ 0
unfolding execution_amount
uncovered-amount amount scope e h = ground arith

module _ (amount : SpendAttemptSnapshot → ℕ) (scope : SpendBudgetScope) (e : Execution) where
  covered-before :
      (old : Option Execution)
      → ((x : Execution) → old ≡ some x → x.request ≡ e.request)
      → contains SpendBudgetScope-discrete scope (scopes_of e.request) ≡ true
      → before old (execution_amount amount scope) ≡ before old (slots_sum amount)
  covered-before none h k = refl
  covered-before (some x) h k = covered-amount amount scope x (
      subst (λ r. contains SpendBudgetScope-discrete scope (scopes_of r) ≡ true) (sym (h x refl)) k)

  uncovered-before :
      (old : Option Execution)
      → ((x : Execution) → old ≡ some x → x.request ≡ e.request)
      → contains SpendBudgetScope-discrete scope (scopes_of e.request) ≡ false
      → before old (execution_amount amount scope) ≡ 0
  uncovered-before none h k = refl
  uncovered-before (some x) h k = uncovered-amount amount scope x (
      subst (λ r. contains SpendBudgetScope-discrete scope (scopes_of r) ≡ false) (sym (h x refl))
        k)

module _ (f : Frozen) (image : Image) (e : Execution) (c : Change) (a : Accounts f image e c)
    (ids : all_different Text-discrete (map (λ x. x.request.execution_id) image.executions)
      ≡ true) where
  abbrev replaced : List Execution
  replaced = others (id_of e) image.executions ++ e ∷ []

  moved-amount :
      (amount : SpendAttemptSnapshot → ℕ) (opening minus plus : ℕ) (scope : SpendBudgetScope)
      → slots_sum amount e + minus
        ≡ before (existing_execution (id_of e) image.executions) (slots_sum amount) + plus
      → contains SpendBudgetScope-discrete scope (scopes_of e.request) ≡ true
      → expected_amount amount opening scope replaced + minus
        ≡ expected_amount amount opening scope image.executions + plus
  unfolding expected_amount
  moved-amount amount opening minus plus scope moved covered = omega (
    arith,
    moved,
    sum-replaced (execution_amount amount scope) (id_of e) image.executions e ids,
    covered-amount amount scope e covered,
    covered-before amount scope e (existing_execution (id_of e) image.executions) a.request covered,
  )

  kept-amount :
      (amount : SpendAttemptSnapshot → ℕ) (opening : ℕ) (scope : SpendBudgetScope)
      → contains SpendBudgetScope-discrete scope (scopes_of e.request) ≡ false
      → expected_amount amount opening scope replaced
        ≡ expected_amount amount opening scope image.executions
  unfolding expected_amount
  kept-amount amount opening scope uncovered = omega (
    arith,
    sum-replaced (execution_amount amount scope) (id_of e) image.executions e ids,
    uncovered-amount amount scope e uncovered,
    uncovered-before amount scope e (existing_execution (id_of e) image.executions) a.request
        uncovered,
  )

  changed_sound :
      (o b b' : SpendBudgetSnapshot)
      → contains SpendBudgetScope-discrete b.limit.scope (scopes_of e.request) ≡ true
      → changed_budget c b ≡ ok b'
      → is_sound_budget o b image.executions ≡ true
      → is_sound_budget o b' replaced ≡ true
  unfolding is_sound_budget changed_budget
  changed_sound o b b' covered changed h = ground (
    arith,
    moved-amount slot_settled o.settled_micros 0 c.settled_delta b.limit.scope
        (omega (arith, a.settled)) covered,
    moved-amount slot_held o.held_micros c.held_minus c.held_plus b.limit.scope a.held covered,
  )

  unchanged_sound :
      (o b b' : SpendBudgetSnapshot)
      → contains SpendBudgetScope-discrete b.limit.scope (scopes_of e.request) ≡ false
      → b' ≡ b
      → is_sound_budget o b image.executions ≡ true
      → is_sound_budget o b' replaced ≡ true
  unfolding is_sound_budget
  unchanged_sound o b b' uncovered same_budget h = ground (
    arith,
    kept-amount slot_settled o.settled_micros b.limit.scope uncovered,
    kept-amount slot_held o.held_micros b.limit.scope uncovered,
  )

  budgets_sound :
      (opening : List SpendBudgetSnapshot) {bs bs' : List SpendBudgetSnapshot}
      → Each (IsChanged (scopes_of e.request) c) bs bs'
      → are_sound_budgets opening bs image.executions ≡ true
      → are_sound_budgets opening bs' replaced ≡ true
  unfolding are_sound_budgets
  budgets_sound [] none_left h = refl
  budgets_sound (o ∷ opening) none_left h = h
  budgets_sound [] (one_more x rest) h = h
  budgets_sound (o ∷ opening) (one_more (inl x) rest) h =
      ground (
        arith,
        changed_sound o _ _ x.0 x.1 (ground arith),
        budgets_sound opening rest (ground arith),
      )
  budgets_sound (o ∷ opening) (one_more (inr x) rest) h = ground (
    arith,
    unchanged_sound o _ _ x.0 x.1 (ground arith),
    budgets_sound opening rest (ground arith),
  )

  fences-moved :
      (x : Text)
      → count Text-discrete x (all_of_executions fences_of replaced)
        ≡ count Text-discrete x (all_of_executions fences_of image.executions)
          + count Text-discrete x (listed c.fence)
  fences-moved x = omega (
    arith,
    a.fences x,
    count-all_of_executions x fences_of replaced,
    count-all_of_executions x fences_of image.executions,
    sum-replaced (λ y. count Text-discrete x (fences_of y)) (id_of e) image.executions e ids,
  )

  suspended-moved :
      (x : Text)
      → count Text-discrete x (all_of_executions (λ y. suspended_by y.settlements) replaced)
        ≡ count Text-discrete x
            (all_of_executions (λ y. suspended_by y.settlements) image.executions)
          + count Text-discrete x (listed c.suspended_model)
  suspended-moved x = omega (
    arith,
    a.suspends x,
    count-all_of_executions x (λ y. suspended_by y.settlements) replaced,
    count-all_of_executions x (λ y. suspended_by y.settlements) image.executions,
    sum-replaced (λ y. count Text-discrete x (suspended_by y.settlements)) (id_of e)
        image.executions e ids,
  )

-- A set with a new item has that item and those it had.
with_new-count :
    (new : Option Text) (set : List Text) (x : Text)
    → (1 ≤ count Text-discrete x (with_new new set))
      ↔ (1 ≤ count Text-discrete x set + count Text-discrete x (listed new))
unfolding count sum_of
with_new-count none set x = ground arith
with_new-count (some t) set x = ground (arith, count_of_contains Text-discrete t set)

-- The list of what the executions were issued grows with the set of the image.
module _ (before_list after_list set : List Text) (new : Option Text)
    (moved : (x : Text)
      → count Text-discrete x after_list
        ≡ count Text-discrete x before_list + count Text-discrete x (listed new))
    (same_before : same_items Text-discrete before_list set ≡ true) where
  forth : all_of (λ x. contains Text-discrete x set) before_list ≡ true
  forth = ground arith

  back : all_of (λ x. contains Text-discrete x before_list) set ≡ true
  back = ground arith

  grown-same : same_items Text-discrete after_list (with_new new set) ≡ true
  grown-same = ground (
    arith,
    all_contained Text-discrete after_list (with_new new set) (λ x h.
        (with_new-count new set x).1
          (ground (arith, moved x, contained_of_all Text-discrete before_list set forth x))),
    all_contained Text-discrete (with_new new set) after_list (λ x h. ground (
      arith,
      moved x,
      (with_new-count new set x).0 h,
      contained_of_all Text-discrete set before_list back x,
    )),
  )

  once :
      (x : Text) (added : Option Text)
      → all_of (λ t. not (contains Text-discrete t set)) (listed added) ≡ true
      → count Text-discrete x before_list ≤ 1
      → count Text-discrete x before_list + count Text-discrete x (listed added) ≤ 1
  unfolding count sum_of
  once x none fresh le = omega (arith, le)
  once x (some t) fresh le = ground (
    arith,
    contained_of_all Text-discrete before_list set forth t,
    contains_of_count Text-discrete t set,
  )

  grown-different :
      all_of (λ t. not (contains Text-discrete t set)) (listed new) ≡ true
      → all_different Text-discrete before_list ≡ true
      → all_different Text-discrete after_list ≡ true
  grown-different fresh different = different_of_count Text-discrete after_list λ x.
      omega (
        arith,
        moved x,
        once x new fresh (count_of_different Text-discrete before_list different x),
      )

-- What accounts for itself in a valid image makes the next image valid.
module _ (f : Frozen) (image : Image) (e : Execution) (c : Change)
    (budgets : List SpendBudgetSnapshot) (failed : Bool) (revision : ℕ) (seen : List Text)
    (v : is_valid_image f failed revision seen image ≡ true) (a : Accounts f image e c)
    (fits : changed_budgets (scopes_of e.request) c image.budgets ≡ ok budgets) where
  ids-different :
      all_different Text-discrete (map (λ x. x.request.execution_id) image.executions) ≡ true
  unfolding is_valid_image
  ids-different = ground arith

  ids-valid :
      all_different Text-discrete
        (map (λ x. x.request.execution_id) (others (id_of e) image.executions ++ e ∷ []))
      ≡ true
  ids-valid = different_of_count Text-discrete _ λ x. count-ids x image.executions e ids-different

  executions_sound :
      all_of (is_sound_execution f) (others (id_of e) image.executions ++ e ∷ []) ≡ true
  unfolding is_valid_image
  executions_sound =
      all_of-append (is_sound_execution f) (others (id_of e) image.executions) (e ∷ [])
        (others-all (is_sound_execution f) (id_of e) image.executions (ground arith))
        (ground (arith, a.sound))

  fences-same :
      same_items Text-discrete
        (all_of_executions fences_of (others (id_of e) image.executions ++ e ∷ []))
        (with_new c.fence image.fences)
      ≡ true
  unfolding is_valid_image
  fences-same =
      grown-same (all_of_executions fences_of image.executions) _ image.fences c.fence
        (fences-moved f image e c a ids-different) (ground arith)

  fences-different :
      all_different Text-discrete
        (all_of_executions fences_of (others (id_of e) image.executions ++ e ∷ []))
      ≡ true
  unfolding is_valid_image
  fences-different =
      grown-different (all_of_executions fences_of image.executions) _ image.fences c.fence
        (fences-moved f image e c a ids-different) (ground arith) a.fresh (ground arith)

  suspended-same :
      same_items Text-discrete
        (all_of_executions
          (λ y. suspended_by y.settlements)
          (others (id_of e) image.executions ++ e ∷ []))
        (with_new c.suspended_model image.suspended)
      ≡ true
  unfolding is_valid_image
  suspended-same =
      grown-same (all_of_executions (λ y. suspended_by y.settlements) image.executions) _
        image.suspended c.suspended_model (suspended-moved f image e c a ids-different)
        (ground arith)

  budgets-valid :
      are_sound_budgets f.opening budgets (others (id_of e) image.executions ++ e ∷ []) ≡ true
  unfolding is_valid_image
  budgets-valid =
      budgets_sound f image e c a ids-different f.opening
        (changed_budgets-Each (scopes_of e.request) c image.budgets budgets fits) (ground arith)

  pub next-valid :
      is_valid_image f failed
        (next_image image e c budgets).revision
        (map (λ x. x.request.execution_id) (next_image image e c budgets).executions)
        (next_image image e c budgets)
      ≡ true
  unfolding is_valid_image next_image
  next-valid = ground (
    arith,
    all_contained_self Text-discrete
        (map (λ x. x.request.execution_id) (others (id_of e) image.executions ++ e ∷ [])),
    ids-valid,
    executions_sound,
    fences-same,
    fences-different,
    suspended-same,
    budgets-valid,
  )
