-- ===== src/Spend/Changes.antt =====
-- `_update` of
-- packages/gateway-core/src/governed_llm_gateway_core/adapters/spend_admission_memory.py, budget by
-- budget.
use governed_llm_gateway.Base.{
  ◌≡◌, ◌⊎◌, true, false, List, [], ◌∷◌, arith, Result, ok, raised, contains,
}
use governed_llm_gateway.Spend.{
  SpendBudgetScope, SpendBudgetScope-discrete, SpendBudgetSnapshot, ContractError,
}
use governed_llm_gateway.Spend.Memory.{Change, changed_budget, changed_budgets, with_budget}

-- A budget and what a change of the budgets of some scopes makes of it.
abbrev pub IsChanged :
    List SpendBudgetScope → Change → SpendBudgetSnapshot → SpendBudgetSnapshot → Type 0
IsChanged scopes c b b' =
    ((contains SpendBudgetScope-discrete b.limit.scope scopes ≡ true)
      × (changed_budget c b ≡ ok b'))
    ⊎ ((contains SpendBudgetScope-discrete b.limit.scope scopes ≡ false) × (b' ≡ b))

-- Two lists of one length, related item by item.
pub data Each (R : SpendBudgetSnapshot → SpendBudgetSnapshot → Type 0)
    : List SpendBudgetSnapshot → List SpendBudgetSnapshot → Type 0 where
  none_left : Each R [] []
  one_more :
      {b b' : SpendBudgetSnapshot} {bs bs' : List SpendBudgetSnapshot}
      → R b b'
      → Each R bs bs'
      → Each R (b ∷ bs) (b' ∷ bs')

module _ (scopes : List SpendBudgetScope) (c : Change) where
  with_budget-Each :
      (b : SpendBudgetSnapshot) (bs bs' : List SpendBudgetSnapshot)
      (q : Result ContractError SpendBudgetSnapshot)
      (rest : Result ContractError (List SpendBudgetSnapshot))
      → ((b' : SpendBudgetSnapshot) → q ≡ ok b' → IsChanged scopes c b b')
      → ((ds : List SpendBudgetSnapshot) → rest ≡ ok ds → Each (IsChanged scopes c) bs ds)
      → with_budget q rest ≡ ok bs'
      → Each (IsChanged scopes c) (b ∷ bs) bs'
  with_budget-Each b bs bs' (raised f) rest h k e = cc
  with_budget-Each b bs bs' (ok b') (raised f) h k e = cc
  with_budget-Each b bs [] (ok b') (ok ds) h k e = cc
  with_budget-Each b bs (d ∷ ds') (ok b') (ok ds) h k e = one_more (h d (cc)) (k ds' (cc))

  pub changed_budgets-Each :
      (bs bs' : List SpendBudgetSnapshot)
      → changed_budgets scopes c bs ≡ ok bs'
      → Each (IsChanged scopes c) bs bs'
  unfolding changed_budgets
  changed_budgets-Each [] [] e = none_left
  changed_budgets-Each [] (b ∷ bs') e = cc
  changed_budgets-Each (b ∷ bs) bs' e =
      with_budget-Each b bs bs' _ _ (λ b' q. ground arith) (λ ds r. changed_budgets-Each bs ds r) e
