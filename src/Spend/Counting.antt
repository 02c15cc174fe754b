-- ===== src/Spend/Counting.antt =====
-- Sums over lists, and the tests of membership and difference as counts.
use governed_llm_gateway.Base.{
  ℕ, ◌+◌, ◌≤◌, ◌≡◌, refl, Bool, true, false, List, [], ◌∷◌, ◌++◌, map, arith, same, contains,
}
use governed_llm_gateway.Spend.{all_of, all_different}
use governed_llm_gateway.Spend.Requests.{sum_of}
use governed_llm_gateway.Spend.Audit.{one_if}

pub sum_of-append {ℓ} :
    {A : Type ℓ} (f : A → ℕ) (xs ys : List A) → sum_of f (xs ++ ys) ≡ sum_of f xs + sum_of f ys
unfolding sum_of
sum_of-append f [] ys = ground arith
sum_of-append f (x ∷ xs) ys = ground (arith, sum_of-append f xs ys)

pub sum_of-map {ℓ κ} :
    {A : Type ℓ} {B : Type κ} (f : B → ℕ) (g : A → B) (xs : List A)
    → sum_of f (map g xs) ≡ sum_of (λ x. f (g x)) xs
unfolding sum_of
sum_of-map f g [] = refl
sum_of-map f g (x ∷ xs) = ground (arith, sum_of-map f g xs)

module _ {ℓ} {A : Type ℓ} (p : A → Bool) where
  pub all_of-append :
      (xs ys : List A) → all_of p xs ≡ true → all_of p ys ≡ true → all_of p (xs ++ ys) ≡ true
  all_of-append [] ys h k = k
  all_of-append (x ∷ xs) ys h k = ground (arith, all_of-append xs ys)

module _ {ℓ} {A : Type ℓ} (d : Discrete A) where
  -- How often an item occurs.
  unfoldable pub count : A → List A → ℕ
  unfolding sum_of
  count x = sum_of (λ y. one_if (same d x y))

  pub count_of_contains : (x : A) (xs : List A) → contains d x xs ≡ true → 1 ≤ count x xs
  unfolding count sum_of
  count_of_contains x [] h = cc
  count_of_contains x (y ∷ ys) h = ground (arith, count_of_contains x ys)

  pub contains_of_count : (x : A) (xs : List A) → 1 ≤ count x xs → contains d x xs ≡ true
  unfolding count sum_of
  contains_of_count x [] h = ground arith
  contains_of_count x (y ∷ ys) h = ground (arith, contains_of_count x ys)

  pub all_of-contains :
      (p : A → Bool) (x : A) (xs : List A)
      → all_of p xs ≡ true
      → contains d x xs ≡ true
      → p x ≡ true
  all_of-contains p x [] h k = cc
  all_of-contains p x (y ∷ ys) h k = ground (arith, all_of-contains p x ys)

  pub count_of_missing : (x : A) (xs : List A) → contains d x xs ≡ false → count x xs ≡ 0
  unfolding count sum_of
  count_of_missing x [] h = refl
  count_of_missing x (y ∷ ys) h = ground (arith, count_of_missing x ys)

  pub count_of_different : (xs : List A) → all_different d xs ≡ true → (x : A) → count x xs ≤ 1
  unfolding count sum_of all_different
  count_of_different [] h x = omega arith
  count_of_different (y ∷ ys) h x =
      ground (arith, count_of_different ys (ground arith) x, count_of_missing y ys)

  pub different_of_count : (xs : List A) → ((x : A) → count x xs ≤ 1) → all_different d xs ≡ true
  unfolding count sum_of all_different
  different_of_count [] h = refl
  different_of_count (y ∷ ys) h =
      ground (arith, different_of_count ys (λ x. ground (arith, h x)), h y, count_of_contains y ys)

  pub all_contained :
      (xs ys : List A)
      → ((x : A) → 1 ≤ count x xs → 1 ≤ count x ys)
      → all_of (λ x. contains d x ys) xs ≡ true
  unfolding count sum_of
  all_contained [] ys h = refl
  all_contained (x ∷ xs) ys h = ground (
    arith,
    all_contained xs ys (λ y k. h y (ground (arith, k))),
    contains_of_count x ys (h x (ground arith)),
  )

  pub contained_of_all :
      (xs ys : List A)
      → all_of (λ x. contains d x ys) xs ≡ true
      → (x : A) → 1 ≤ count x xs
      → 1 ≤ count x ys
  unfolding count sum_of
  contained_of_all [] ys h x k = ground arith
  contained_of_all (y ∷ xs) ys h x k =
      ground (arith, contained_of_all xs ys (ground arith) x, count_of_contains y ys)

  pub all_contained_self : (xs : List A) → all_of (λ x. contains d x xs) xs ≡ true
  all_contained_self xs = all_contained xs xs (λ x k. k)
