-- ===== src/Base/Sorting.antt =====
-- Python's `sorted`: a stable sort by a strict weak order. The order of equal keys is kept, and
-- where no two keys are equal the result depends on the set of the items alone.
use mathlib.Core.Path.{◌≡◌, refl, ap₂, ◌∙◌}
use mathlib.Core.Logic.{inl, inr}
use mathlib.Core.Bool.{Bool, true, false, ◌||◌}
use mathlib.Core.List.{
  List, [], ◌∷◌, Perm, Permᴰ, Pairwise, rel_of_Pairwise-cons, mem-cons_self, is_set,
}
use mathlib.Core.List.Permᴰ
use mathlib.Core.List.Perm
use mathlib.Core.List.Pairwise
use mathlib.Core.Logic.{∥∥₁_elim}
use native.Mathlib.Omega.{arith}
use governed_llm_gateway.Base.Lists.{All}
use governed_llm_gateway.Base.Tests.{if◌then◌else◌, Bool-cases}

module _ {ℓ} {A : Type ℓ} (lt : A → A → Bool) where
  unfoldable pub insert_sorted : A → List A → List A
  insert_sorted x [] = x ∷ []
  insert_sorted x (y ∷ ys) = if lt y x then y ∷ insert_sorted x ys else x ∷ y ∷ ys

  unfoldable pub sorted : List A → List A
  unfolding insert_sorted
  sorted [] = []
  sorted (x ∷ xs) = insert_sorted x (sorted xs)

  insert_sorted-perm : (x : A) (ys : List A) → Perm (insert_sorted x ys) (x ∷ ys)
  unfolding insert_sorted
  insert_sorted-perm x [] = Perm.refl (x ∷ [])
  insert_sorted-perm x (y ∷ ys) = elim (Bool-cases (lt y x)) [
    | inl e ↦ rw e (Perm.trans (Perm.cons y (insert_sorted-perm x ys)) (Perm.swap x y ys))
    | inr e ↦ rw e (Perm.refl (x ∷ y ∷ ys))
  ]

  pub sorted-perm : (xs : List A) → Perm (sorted xs) xs
  unfolding sorted
  sorted-perm [] = Perm.refl []
  sorted-perm (x ∷ xs) =
      Perm.trans (insert_sorted-perm x (sorted xs)) (Perm.cons x (sorted-perm xs))

  -- No later item is below an earlier one.
  abbrev pub NotBelow : A → List A → Type 0
  NotBelow x [] = Unit
  NotBelow x (y ∷ ys) = (lt y x ≡ false) × NotBelow x ys

  abbrev pub IsSorted : List A → Type 0
  IsSorted [] = Unit
  IsSorted (x ∷ xs) = NotBelow x xs × IsSorted xs

-- A strict weak order: what sorting keys give.
pub record IsOrder {ℓ} {A : Type ℓ} (lt : A → A → Bool) : Type ℓ where
  pub asym : (a b : A) → lt a b ≡ true → lt b a ≡ false
  pub not_lt_trans : (a b c : A) → lt a b ≡ false → lt b c ≡ false → lt a c ≡ false

module _ {ℓ} {A : Type ℓ} (lt : A → A → Bool) (o : IsOrder lt) where
  NotBelow-mono : (x y : A) (zs : List A) → lt y x ≡ false → NotBelow lt y zs → NotBelow lt x zs
  NotBelow-mono x y [] h n = tt
  NotBelow-mono x y (z ∷ zs) h n = (o.not_lt_trans z y x n.0 h, NotBelow-mono x y zs h n.1)

  NotBelow-insert :
      (x y : A) (zs : List A)
      → lt x y ≡ false
      → NotBelow lt y zs
      → NotBelow lt y (insert_sorted lt x zs)
  unfolding insert_sorted
  NotBelow-insert x y [] h n = (h, tt)
  NotBelow-insert x y (z ∷ zs) h n = ground (arith, NotBelow-insert x y zs h n.1)

  insert_sorted-IsSorted :
      (x : A) (ys : List A) → IsSorted lt ys → IsSorted lt (insert_sorted lt x ys)
  unfolding insert_sorted
  insert_sorted-IsSorted x [] s = (tt, tt)
  insert_sorted-IsSorted x (y ∷ ys) s = elim (Bool-cases (lt y x)) [
    | inl e ↦ rw e (NotBelow-insert x y ys (o.asym y x e) s.0, insert_sorted-IsSorted x ys s.1)
    | inr e ↦ rw e ((e, NotBelow-mono x y ys e s.0), s)
  ]

  pub sorted-IsSorted : (xs : List A) → IsSorted lt (sorted lt xs)
  unfolding sorted
  sorted-IsSorted [] = tt
  sorted-IsSorted (x ∷ xs) = insert_sorted-IsSorted x (sorted lt xs) (sorted-IsSorted xs)

  -- Two items with different keys.
  abbrev pub Apart : A → A → Type 0
  Apart a b = (lt a b || lt b a) ≡ true

  insert_sorted_comm :
      (x y : A) (zs : List A)
      → Apart x y
      → insert_sorted lt x (insert_sorted lt y zs) ≡ insert_sorted lt y (insert_sorted lt x zs)
  unfolding insert_sorted
  insert_sorted_comm x y [] a = ground (arith, o.asym x y, o.asym y x)
  insert_sorted_comm x y (z ∷ zs) a = ground (
    arith,
    insert_sorted_comm x y zs a,
    o.asym x y,
    o.asym y x,
    o.asym z x,
    o.asym z y,
    o.not_lt_trans z x y,
    o.not_lt_trans z y x,
    o.not_lt_trans x z y,
    o.not_lt_trans y z x,
    o.not_lt_trans x y z,
    o.not_lt_trans y x z,
  )

  Apart-prop : (a b : A) → IsProp (Apart a b)
  Apart-prop a b = hlevel

  Apart-symm : (a b : A) → Apart a b → Apart b a
  Apart-symm a b h = ground arith

  sorted_permᴰ : {xs ys : List A} → Permᴰ xs ys → Pairwise Apart xs → sorted lt xs ≡ sorted lt ys
  unfolding sorted
  sorted_permᴰ Permᴰ.nil d = refl
  sorted_permᴰ (Permᴰ.cons e p) d = ap₂ (insert_sorted lt) e (sorted_permᴰ p (Pairwise.of_cons d))
  sorted_permᴰ (Permᴰ.swap {a = a} {b = b} {l = l} e f) d =
      insert_sorted_comm a b (sorted lt l) (rel_of_Pairwise-cons d mem-cons_self)
      ∙ ap₂ (λ x y. insert_sorted lt x (insert_sorted lt y (sorted lt l))) f e
  sorted_permᴰ (Permᴰ.trans p q) d =
      sorted_permᴰ p d ∙ sorted_permᴰ q (Permᴰ.pairwise Apart-prop Apart-symm p d)

  -- Items with different keys are sorted into one list, whatever order they come in.
  pub sorted-eq_of_perm :
      IsSet A → {xs ys : List A} → Perm xs ys → Pairwise Apart xs → sorted lt xs ≡ sorted lt ys
  sorted-eq_of_perm set p d = ∥∥₁_elim p (is_set set _ _) (λ q. sorted_permᴰ q d)

module _ {ℓ κ} {A : Type ℓ} (lt : A → A → Bool) (P : A → Type κ) where
  All-insert : (x : A) (ys : List A) → P x → All P ys → All P (insert_sorted lt x ys)
  unfolding insert_sorted
  All-insert x [] p a = (p, tt)
  All-insert x (y ∷ ys) p a = elim (Bool-cases (lt y x)) [
    | inl e ↦ rw e (a.0, All-insert x ys p a.1)
    | inr e ↦ rw e (p, a)
  ]

  pub All-sorted : (xs : List A) → All P xs → All P (sorted lt xs)
  unfolding sorted
  All-sorted [] a = tt
  All-sorted (x ∷ xs) a = All-insert x (sorted lt xs) a.0 (All-sorted xs a.1)
