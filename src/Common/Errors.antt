-- ===== src/Common/Errors.antt =====
-- Go's (value, error) pairs: a value, or the reason of the failure.
use mathlib.Core.Path.{◌≡◌, refl}
use mathlib.Core.Bool.{Bool, true, false}
use mathlib.Core.Logic.{◌⊎◌, inl, inr}

pub data Result {ℓ} (E : Type 0) (A : Type ℓ) : Type ℓ where
  ok : A → Result E A
  err : E → Result E A

infixl 5 ◌>>=◌ ◌>>◌
abbrev pub ◌>>=◌ {ℓ κ} :
    {E : Type 0} {A : Type ℓ} {B : Type κ} → Result E A → (A → Result E B) → Result E B
ok v >>= next = next v
err reason >>= next = err reason

abbrev pub ◌>>◌ {ℓ} : {E : Type 0} {B : Type ℓ} → Result E (Unit {0}) → Result E B → Result E B
first >> rest = first >>= λ _. rest

-- `if fails { return err }`: passes when the condition of the error is false.
abbrev pub refuse_if : {E : Type 0} → Bool → E → Result E (Unit {0})
refuse_if true e = err e
refuse_if false e = ok tt

pub >>=-eq-ok {ℓ κ} :
    {E : Type 0} {A : Type ℓ} {B : Type κ} (r : Result E A) (next : A → Result E B) {b : B}
    → (r >>= next) ≡ ok b
    → (v : A) × (r ≡ ok v) × (next v ≡ ok b)
>>=-eq-ok (ok v) next h = (v, refl, h)
>>=-eq-ok (err reason) next h = cc

pub refuse_if-eq-ok {ℓ} :
    {E : Type 0} {B : Type ℓ} (c : Bool) (e : E) (k : Result E B) {b : B}
    → (refuse_if c e >> k) ≡ ok b
    → (c ≡ false) × (k ≡ ok b)
refuse_if-eq-ok true e k h = cc
refuse_if-eq-ok false e k h = (refl, h)

pub Result-cases {ℓ} :
    {E : Type 0} {A : Type ℓ} (r : Result E A) → ((a : A) × (r ≡ ok a)) ⊎ ((e : E) × (r ≡ err e))
Result-cases (ok a) = inl (a, refl)
Result-cases (err e) = inr (e, refl)

-- What a command that prints JSON gives: it fails, prints something else, or prints a value.
pub data Answer (A : Type 0) : Type 0 where
  failed garbled : Answer A
  decoded : A → Answer A
