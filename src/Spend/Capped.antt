-- ===== src/Spend/Capped.antt =====
-- Ceilings of
-- packages/gateway-core/src/governed_llm_gateway_core/adapters/spend_admission_memory.py: how far a
-- budget is exposed.
use governed_llm_gateway.Base.{
  ℕ, ◌+◌, ◌≤◌, ◌≡◌, inl, inr, true, Option, List, [], arith, All, Text, ok,
}
use governed_llm_gateway.Spend.{
  SpendBudgetScope, SpendBudgetSnapshot, exposure_micros, SpendReservationRequest,
  permits_allocation, check_budget,
}
use governed_llm_gateway.Spend.Requests.{scopes_of, reserved_micros}
use governed_llm_gateway.Spend.Receipts.{SpendSettlement}
use governed_llm_gateway.Spend.Memory.{
  Outside, Frozen, Image, Execution, Change, changed_budget, changed_budgets, next_image, start,
  with_new,
}
use governed_llm_gateway.Spend.Worker.{permits_all, no_change, outcome_change}
use governed_llm_gateway.Spend.Changes.{IsChanged, Each, none_left, one_more, changed_budgets-Each}
use governed_llm_gateway.Spend.History.{Operation, run}
use governed_llm_gateway.Spend.Effects.{Covers}
use governed_llm_gateway.Spend.Endings.{run-keeps}

-- A budget is not exposed beyond its ceiling.
abbrev pub IsWithin : SpendBudgetSnapshot → Type 0
IsWithin b = exposure_micros b ≤ b.limit.ceiling_micros

-- As long as no deployment is suspended, all budgets are within their ceilings.
pub record IsCapped (image : Image) : Type 0 where
  pub within : image.suspended ≡ [] → All IsWithin image.budgets

-- A change that adds no more than it takes away.
changed-IsWithin :
    (c : Change) (b b' : SpendBudgetSnapshot)
    → changed_budget c b ≡ ok b'
    → c.held_plus + c.settled_delta ≤ c.held_minus
    → IsWithin b
    → IsWithin b'
unfolding changed_budget check_budget
changed-IsWithin c b b' e le w = ground arith

shrinks-IsWithin :
    (scopes : List SpendBudgetScope) (c : Change) {bs bs' : List SpendBudgetSnapshot}
    → Each (IsChanged scopes c) bs bs'
    → c.held_plus + c.settled_delta ≤ c.held_minus
    → All IsWithin bs
    → All IsWithin bs'
shrinks-IsWithin scopes c none_left le w = tt
shrinks-IsWithin scopes c (one_more (inl h) rest) le w =
    (changed-IsWithin c _ _ h.1 le w.0, shrinks-IsWithin scopes c rest le w.1)
shrinks-IsWithin scopes c (one_more (inr h) rest) le w =
    (rw h.1 w.0, shrinks-IsWithin scopes c rest le w.1)

permitted-IsWithin :
    (amount : ℕ) (fence : Option Text) (b b' : SpendBudgetSnapshot)
    → changed_budget (record no_change { held_plus = amount; fence = fence }) b ≡ ok b'
    → permits_allocation b amount ≡ true
    → IsWithin b'
unfolding changed_budget check_budget permits_allocation
permitted-IsWithin amount fence b b' e p = ground arith

-- A reservation that every budget permits.
grows-IsWithin :
    (request : SpendReservationRequest) (fence : Option Text) {bs bs' : List SpendBudgetSnapshot}
    → Each
        (IsChanged
          (scopes_of request)
          (record no_change { held_plus = reserved_micros request; fence = fence }))
        bs
        bs'
    → permits_all request bs ≡ true
    → All IsWithin bs
    → All IsWithin bs'
unfolding permits_all
grows-IsWithin request fence none_left p w = tt
grows-IsWithin request fence (one_more (inl h) rest) p w = (
  permitted-IsWithin (reserved_micros request) fence _ _ h.1 (ground arith),
  grows-IsWithin request fence rest (ground arith) w.1,
)
grows-IsWithin request fence (one_more (inr h) rest) p w =
    (rw h.1 w.0, grows-IsWithin request fence rest (ground arith) w.1)

module _ (image : Image) (capped : IsCapped image) where
  shrinks-IsCapped :
      (e : Execution) (c : Change) (budgets : List SpendBudgetSnapshot)
      → (with_new c.suspended_model image.suspended ≡ []
          → (c.held_plus + c.settled_delta ≤ c.held_minus) × (image.suspended ≡ []))
      → changed_budgets (scopes_of e.request) c image.budgets ≡ ok budgets
      → IsCapped (next_image image e c budgets)
  unfolding next_image
  shrinks-IsCapped e c budgets small fits = record {
    within = λ none_suspended.
        shrinks-IsWithin _ c (changed_budgets-Each _ c _ _ fits) (small none_suspended).0
          (capped.within (small none_suspended).1);
  }

  settles_within :
      (settlement : SpendSettlement) (fence : Text)
      → with_new (outcome_change settlement fence).suspended_model image.suspended ≡ []
      → ((outcome_change settlement fence).held_plus
            + (outcome_change settlement fence).settled_delta
          ≤ (outcome_change settlement fence).held_minus)
        × (image.suspended ≡ [])
  settles_within settlement fence h = ground arith

  publishes-IsCapped :
      (f : Frozen)
      → Covers f image λ e c.
        (budgets : List SpendBudgetSnapshot)
        → changed_budgets (scopes_of e.request) c image.budgets ≡ ok budgets
        → IsCapped (next_image image e c budgets)
  unfolding next_image
  publishes-IsCapped f = record {
    denying = λ request h budgets. shrinks-IsCapped _ _ budgets (λ z. (omega arith, z));
    issuing = λ request now fence h budgets fits. record {
      within = λ none_suspended.
          grows-IsWithin request _ (changed_budgets-Each _ _ _ _ fits) h.permitted
            (capped.within none_suspended);
    };
    claiming = λ e r a j fence h budgets. shrinks-IsCapped _ _ budgets (λ z. (omega arith, z));
    settling = λ e settlement j fence h budgets.
        shrinks-IsCapped _ _ budgets (settles_within settlement fence);
    closing = λ e r j fence h budgets. shrinks-IsCapped _ _ budgets (λ z. (omega arith, z));
  }

-- If the opening exposes no budget beyond its ceiling, then after any history of calls no budget is
-- exposed beyond its ceiling, as long as no settlement above its bound has suspended a deployment.
pub run-IsCapped :
    {S : Type 0} (f : Frozen) (o : Outside S) (ops : List Operation) (outside : S)
    → All IsWithin f.opening
    → IsCapped (run f o ops (start f outside)).image
unfolding start
run-IsCapped f o ops outside w =
    run-keeps f o IsCapped (λ image capped. publishes-IsCapped image capped f) ops (start f outside)
      (record { within = λ _. w })
