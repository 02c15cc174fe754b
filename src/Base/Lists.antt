-- ===== src/Base/Lists.antt =====
-- Predicates on the items of a list, and slices by native numbers.
use Prim.Native.Nat.{ℕ, zero, suc, ◌≤◌}
use mathlib.Core.Path.{◌≡◌}
use mathlib.Core.List.{
  List, [], ◌∷◌, ◌++◌, Mem, mem-cons, not-mem-nil, mem-cons_self, mem-cons_of_mem,
}
use mathlib.Core.Logic.Or
use mathlib.Core.Logic.{inl, inr}
use mathlib.Core.Bool.{true}
use native.Mathlib.Omega.{arith}
use governed_llm_gateway.Base.Tests.{length, contains, same, same-true, Bool-cases}

-- Each item has the property.
abbrev pub All {ℓ κ} : {A : Type ℓ} → (A → Type κ) → List A → Type κ
All P [] = Unit
All P (x ∷ xs) = P x × All P xs

module _ {ℓ κ} {A : Type ℓ} (P : A → Type κ) where
  pub All-append : (xs ys : List A) → All P xs → All P ys → All P (xs ++ ys)
  All-append [] ys a b = b
  All-append (x ∷ xs) ys a b = (a.0, All-append xs ys a.1 b)

  pub All-map {ν} : (Q : A → Type ν) → ((x : A) → P x → Q x) → (xs : List A) → All P xs → All Q xs
  All-map Q f [] a = tt
  All-map Q f (x ∷ xs) a = (f x a.0, All-map Q f xs a.1)

module _ {ℓ} {A : Type ℓ} where
  -- `xs[:n]`
  abbrev pub take : ℕ → List A → List A
  take zero xs = []
  take (suc n) [] = []
  take (suc n) (x ∷ xs) = x ∷ take n xs

  pub length-take-le : (n : ℕ) (xs : List A) → length (take n xs) ≤ n
  length-take-le zero xs = omega arith
  length-take-le (suc n) [] = omega arith
  length-take-le (suc n) (x ∷ xs) = omega (arith, length-take-le n xs)

  pub All-take {κ} : (P : A → Type κ) (n : ℕ) (xs : List A) → All P xs → All P (take n xs)
  All-take P zero xs a = tt
  All-take P (suc n) [] a = tt
  All-take P (suc n) (x ∷ xs) a = (a.0, All-take P n xs a.1)

pub contains-Mem {ℓ} :
    {A : Type ℓ} (d : Discrete A) (a : A) (xs : List A) → contains d a xs ≡ true → Mem a xs
contains-Mem d a [] h = cc
contains-Mem d a (x ∷ xs) h = elim (Bool-cases (same d a x)) [
  | inl e ↦ rw (same-true d a x e) mem-cons_self
  | inr e ↦ mem-cons_of_mem x (contains-Mem d a xs (ground arith))
]

pub Mem-contains {ℓ} :
    {A : Type ℓ} (d : Discrete A) (a : A) (xs : List A) → Mem a xs → contains d a xs ≡ true
Mem-contains d a [] m = absurd (not-mem-nil m)
Mem-contains d a (x ∷ xs) m =
    Or.«elim» (hlevel) (mem-cons.0 m) (λ e. ground (arith, e))
      (λ k. ground (arith, Mem-contains d a xs k))
