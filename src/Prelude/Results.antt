-- ===== src/Prelude/Results.antt =====
-- A Go result pair `(value, err)` as a sum, over a type of errors.
use mathlib.Core.Path.{◌≡◌, refl}
use mathlib.Core.Logic.{◌⊎◌, inl, inr}
use mathlib.Core.Bool.{Bool, true, false}
use socialpublish.Prelude.Tests.{if◌then◌else◌}

pub data Result {ℓ κ} (E : Type ℓ) (A : Type κ) : Type (ℓ ⊔ κ) where
  ok : A → Result E A
  err : E → Result E A

module _ {ℓ κ} {E : Type ℓ} {A : Type κ} where
  pub Result-cases : (r : Result E A) → ((a : A) × (r ≡ ok a)) ⊎ ((e : E) × (r ≡ err e))
  Result-cases (ok a) = inl (a, refl)
  Result-cases (err e) = inr (e, refl)

infixl 5 ◌>>=◌
abbrev pub ◌>>=◌ {ℓ κ μ} :
    {E : Type ℓ} {A : Type κ} {B : Type μ} → Result E A → (A → Result E B) → Result E B
ok a >>= f = f a
err e >>= f = err e

pub >>=-eq-ok {ℓ κ μ} :
    {E : Type ℓ} {A : Type κ} {B : Type μ} (r : Result E A) (f : A → Result E B) {b : B}
    → (r >>= f) ≡ ok b
    → (a : A) × (r ≡ ok a) × (f a ≡ ok b)
>>=-eq-ok (ok a) f h = (a, refl, h)
>>=-eq-ok (err e) f h = cc

module _ {ℓ κ} {E : Type ℓ} {A : Type κ} where
  -- A guard that returned early did not return a value.
  pub guard-eq-ok :
      (b : Bool) (e : E) (r : Result E A) {a : A}
      → (if b then err e else r) ≡ ok a
      → (b ≡ false) × (r ≡ ok a)
  guard-eq-ok true e r h = absurd (cc)
  guard-eq-ok false e r h = (refl, h)

  pub check-eq-ok :
      (b : Bool) (e : E) (r : Result E A) {a : A}
      → (if b then r else err e) ≡ ok a
      → (b ≡ true) × (r ≡ ok a)
  check-eq-ok true e r h = (refl, h)
  check-eq-ok false e r h = absurd (cc)
