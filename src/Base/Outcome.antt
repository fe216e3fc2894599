-- ===== src/Base/Outcome.antt =====
-- Go's `(value, error)` results. An error keeps which `return` made it, not its text.
use mathlib.Core.Path.{◌≡◌, refl}
use mathlib.Core.Bool.{Bool, true, false}
use mathlib.Core.Logic.{◌⊎◌, inl, inr}

pub data Result {ℓ} (E A : Type ℓ) : Type ℓ where
  ok : A → Result E A
  err : E → Result E A

module _ {ℓ} {E X Y : Type ℓ} where
  infixl 5 ◌>>=◌
  abbrev pub ◌>>=◌ : Result E X → (X → Result E Y) → Result E Y
  ok x >>= next = next x
  err e >>= next = err e

  -- Both calls of a chain that returned without an error did so.
  pub >>=-eq-ok :
      {y : Y} (first : Result E X) (next : X → Result E Y)
      → (first >>= next) ≡ ok y
      → (x : X) × (first ≡ ok x) × (next x ≡ ok y)
  >>=-eq-ok (err e) next returned = cc
  >>=-eq-ok (ok x) next returned = (x, refl, returned)

module _ {ℓ} {E B : Type ℓ} where
  infixl 5 ◌>>◌
  abbrev pub ◌>>◌ : Result E (Unit {ℓ}) → Result E B → Result E B
  m >> k = m >>= λ _. k

-- `if test { return err }`.
abbrev pub fail_if {ℓ} : {E : Type ℓ} → Bool → E → Result E (Unit {ℓ})
fail_if true e = err e
fail_if false e = ok tt

-- A test that did not end a chain.
pub fail_if-eq-ok {ℓ} :
    {E A : Type ℓ} (test : Bool) (e : E) (next : Result E A) (a : A)
    → (fail_if test e >> next) ≡ ok a
    → (test ≡ false) × (next ≡ ok a)
fail_if-eq-ok true e next a h = cc
fail_if-eq-ok false e next a h = (refl, h)

-- To split on a computed result and keep the equation.
pub Result-cases {ℓ} :
    {E A : Type ℓ} (r : Result E A) → ((a : A) × (r ≡ ok a)) ⊎ ((e : E) × (r ≡ err e))
Result-cases (ok a) = inl (a, refl)
Result-cases (err e) = inr (e, refl)
