-- ===== src/Spend/Sequence.antt =====
-- `_require_allocation_sequence` of
-- packages/gateway-core/src/governed_llm_gateway_core/domain/spend_admission.py: a plan that it
-- accepts has no allocation twice.
use governed_llm_gateway.Base.{
  ℕ, zero, suc, ℕ_discrete, ◌+◌, ◌≤◌, ◌≡◌, refl, sym, subst, Text, Bool, true, false, ◌&&◌, List,
  [], ◌∷◌, ◌++◌, map, arith, ok, Dict, contains, same, ◌==◌, length, if◌then◌else◌, Bool-cases, inl,
  inr,
}
use governed_llm_gateway.Spend.{
  SpendAttemptAllocation, SpendAttemptAllocation-discrete, all_of, all_different,
}
use governed_llm_gateway.Spend.Requests.{
  sum_of, append_to_group, grouped, range, check_group, check_groups, require_allocation_sequence,
  deployments_with,
}
use governed_llm_gateway.Spend.Audit.{one_if}
use governed_llm_gateway.Spend.Counting.{
  count, sum_of-append, count_of_different, different_of_count, all_of-append,
}
use governed_llm_gateway.Spend.Owned.{different-snoc}

abbrev Groups : Type 0
Groups = Dict ℕ (List SpendAttemptAllocation)

abbrev keys : Groups → List ℕ
keys = map (λ (group : ℕ × List SpendAttemptAllocation). group.0)

abbrev has_index : ℕ → SpendAttemptAllocation → Bool
has_index i a = a.fallback_index == i

-- Each group holds allocations of its own index.
indexed : Groups → Bool
indexed [] = true
indexed ((i, group) ∷ groups) = all_of (has_index i) group && indexed groups

total : SpendAttemptAllocation → Groups → ℕ
total x [] = 0
total x ((i, group) ∷ groups) = count SpendAttemptAllocation-discrete x group + total x groups

append-keys :
    (a : SpendAttemptAllocation) (groups : Groups)
    → keys (append_to_group a groups) ≡ (
        if contains ℕ_discrete a.fallback_index (keys groups)
        then keys groups
        else keys groups ++ a.fallback_index ∷ [])
unfolding append_to_group
append-keys a [] = refl
append-keys a ((i, group) ∷ groups) = ground (arith, append-keys a groups)

append-different :
    (a : SpendAttemptAllocation) (groups : Groups)
    → all_different ℕ_discrete (keys groups) ≡ true
    → all_different ℕ_discrete (keys (append_to_group a groups)) ≡ true
append-different a groups h =
    elim (Bool-cases (contains ℕ_discrete a.fallback_index (keys groups))) [
      | inl e ↦ ground (arith, append-keys a groups)
      | inr e ↦ ground (
        arith,
        append-keys a groups,
        different-snoc ℕ_discrete (keys groups) a.fallback_index h e,
      )
    ]

append-indexed :
    (a : SpendAttemptAllocation) (groups : Groups)
    → indexed groups ≡ true
    → indexed (append_to_group a groups) ≡ true
unfolding append_to_group indexed
append-indexed a [] h = ground arith
append-indexed a ((i, group) ∷ groups) h =
    ground
      (arith, append-indexed a groups (ground arith), all_of-append (has_index i) group (a ∷ []))

append-total :
    (x a : SpendAttemptAllocation) (groups : Groups)
    → total x (append_to_group a groups)
      ≡ total x groups + one_if (same SpendAttemptAllocation-discrete x a)
unfolding append_to_group total count sum_of
append-total x a [] = ground arith
append-total x a ((i, group) ∷ groups) = ground (
  arith,
  append-total x a groups,
  sum_of-append (λ y. one_if (same SpendAttemptAllocation-discrete x y)) group (a ∷ []),
)

grouped-different :
    (plan : List SpendAttemptAllocation) (groups : Groups)
    → all_different ℕ_discrete (keys groups) ≡ true
    → all_different ℕ_discrete (keys (grouped plan groups)) ≡ true
unfolding grouped
grouped-different [] groups h = h
grouped-different (a ∷ plan) groups h =
    grouped-different plan (append_to_group a groups) (append-different a groups h)

grouped-indexed :
    (plan : List SpendAttemptAllocation) (groups : Groups)
    → indexed groups ≡ true
    → indexed (grouped plan groups) ≡ true
unfolding grouped
grouped-indexed [] groups h = h
grouped-indexed (a ∷ plan) groups h =
    grouped-indexed plan (append_to_group a groups) (append-indexed a groups h)

grouped-total :
    (x : SpendAttemptAllocation) (plan : List SpendAttemptAllocation) (groups : Groups)
    → total x (grouped plan groups) ≡ total x groups + count SpendAttemptAllocation-discrete x plan
unfolding grouped count sum_of
grouped-total x [] groups = ground arith
grouped-total x (a ∷ plan) groups =
    omega (arith, grouped-total x plan (append_to_group a groups), append-total x a groups)

range-ge : (y start n : ℕ) → contains ℕ_discrete y (range start n) ≡ true → start ≤ y
unfolding range
range-ge y start zero h = cc
range-ge y start (suc n) h = ground (arith, range-ge y (suc start) n)

range-different : (start n : ℕ) → all_different ℕ_discrete (range start n) ≡ true
unfolding range all_different
range-different start zero = refl
range-different start (suc n) =
    ground (arith, range-different (suc start) n, range-ge start (suc start) n)

-- An allocation occurs no more often than its attempt number.
numbers-count :
    (x : SpendAttemptAllocation) (group : List SpendAttemptAllocation)
    → count SpendAttemptAllocation-discrete x group
      ≤ count ℕ_discrete x.attempt_number (map (λ a. a.attempt_number) group)
unfolding count sum_of
numbers-count x [] = ground arith
numbers-count x (a ∷ group) = ground (arith, numbers-count x group)

group-once :
    (x first : SpendAttemptAllocation) (rest : List SpendAttemptAllocation)
    → map (λ a. a.attempt_number) (first ∷ rest) ≡ range 1 (length (first ∷ rest))
    → count SpendAttemptAllocation-discrete x (first ∷ rest) ≤ 1
group-once x first rest h = omega (
  arith,
  numbers-count x (first ∷ rest),
  count_of_different ℕ_discrete (map (λ a. a.attempt_number) (first ∷ rest))
      (subst (λ l. all_different ℕ_discrete l ≡ true) (sym h) (range-different 1 _))
      x.attempt_number,
)

checked-once :
    (x : SpendAttemptAllocation) (deployments : List Text) (group : List SpendAttemptAllocation)
    → check_group deployments group ≡ ok tt
    → count SpendAttemptAllocation-discrete x group ≤ 1
unfolding check_group
checked-once x deployments [] h = cc
checked-once x deployments (first ∷ rest) h = group-once x first rest (ground arith)

other-index :
    (x : SpendAttemptAllocation) (i : ℕ) (group : List SpendAttemptAllocation)
    → all_of (has_index i) group ≡ true
    → x.fallback_index == i ≡ false
    → count SpendAttemptAllocation-discrete x group ≡ 0
unfolding count sum_of
other-index x i [] h k = refl
other-index x i (a ∷ group) h k = ground (arith, other-index x i group)

missing-total :
    (x : SpendAttemptAllocation) (groups : Groups)
    → indexed groups ≡ true
    → contains ℕ_discrete x.fallback_index (keys groups) ≡ false
    → total x groups ≡ 0
unfolding indexed total
missing-total x [] h k = refl
missing-total x ((i, group) ∷ groups) h k =
    ground (arith, missing-total x groups, other-index x i group)

total-once :
    (x : SpendAttemptAllocation) (deployments : List Text) (groups : Groups)
    → all_different ℕ_discrete (keys groups) ≡ true
    → indexed groups ≡ true
    → check_groups deployments groups ≡ ok tt
    → total x groups ≤ 1
unfolding indexed total check_groups all_different
total-once x deployments [] d h c = ground arith
total-once x deployments ((i, group) ∷ groups) d h c = ground (
  arith,
  checked-once x deployments group (ground arith),
  total-once x (deployments_with deployments group) groups (ground arith) (ground arith)
      (ground arith),
  missing-total x groups (ground arith),
  other-index x i group (ground arith),
)

-- A plan that is accepted has no allocation twice.
pub sequence-different :
    (plan : List SpendAttemptAllocation)
    → require_allocation_sequence plan ≡ ok tt
    → all_different SpendAttemptAllocation-discrete plan ≡ true
unfolding require_allocation_sequence all_different indexed total
sequence-different plan h = different_of_count SpendAttemptAllocation-discrete plan λ x. ground (
  arith,
  grouped-total x plan [],
  total-once x [] (grouped plan []) (grouped-different plan [] refl) (grouped-indexed plan [] refl)
      (ground arith),
)
