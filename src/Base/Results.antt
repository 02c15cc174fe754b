-- ===== src/Base/Results.antt =====
-- What a Python call ends in: a value, or an exception.
use mathlib.Core.Path.{◌≡◌, refl}
use mathlib.Core.Bool.{Bool, true, false}
use mathlib.Core.Logic.{◌⊎◌, inl, inr}

pub data Result {ℓ κ} (E : Type ℓ) (A : Type κ) : Type (ℓ ⊔ κ) where
  ok : A → Result E A
  raised : E → Result E A

-- `if condition: raise e`.
abbrev pub raise_if {ℓ} : {E : Type ℓ} → Bool → E → Result E (Unit {0})
raise_if condition e = elim condition [ true ↦ raised e | false ↦ ok tt ]

pub raise_if_ok {ℓ} :
    {E : Type ℓ} (condition : Bool) (e : E) → raise_if condition e ≡ ok tt → condition ≡ false
raise_if_ok false e passed = refl
raise_if_ok true e passed = cc

-- What follows a call is skipped if it raised.
infixl 5 ◌>>=◌
abbrev pub ◌>>=◌ {ℓ κ ν} :
    {E : Type ℓ} {A : Type κ} {B : Type ν} → Result E A → (A → Result E B) → Result E B
raised e >>= rest = raised e
ok value >>= rest = rest value

infixl 5 ◌>>◌
abbrev pub ◌>>◌ {ℓ κ} : {E : Type ℓ} {B : Type κ} → Result E (Unit {0}) → Result E B → Result E B
check >> rest = check >>= λ passed. rest

pub >>=-eq-ok {ℓ κ ν} :
    {E : Type ℓ} {A : Type κ} {B : Type ν} (call : Result E A) (rest : A → Result E B) {end : B}
    → (call >>= rest) ≡ ok end
    → (value : A) × (call ≡ ok value) × (rest value ≡ ok end)
>>=-eq-ok (raised e) rest returned = cc
>>=-eq-ok (ok value) rest returned = (value, refl, returned)

pub ok_injective {ℓ κ} :
    {E : Type ℓ} {A : Type κ} {a b : A} → ◌≡◌ {A = Result E A} (ok a) (ok b) → a ≡ b
ok_injective e = cc

pub Result-cases {ℓ κ} :
    {E : Type ℓ} {A : Type κ} (r : Result E A) → ((a : A) × (r ≡ ok a)) ⊎ ((e : E) × (r ≡ raised e))
Result-cases (ok a) = inl (a, refl)
Result-cases (raised e) = inr (e, refl)
