-- ===== src/Prelude/Results.antt =====
-- The result of Go code that may return an error or panic, and its monad.
use mathlib.Core.Path.{◌≡◌, refl}
use mathlib.Core.Logic.{◌⊎◌, inl, inr}

-- A Go call ends in a run-time panic, with an error, or with a value.
pub data Outcome {ℓ κ} (E : Type κ) (A : Type ℓ) : Type (ℓ ⊔ κ) where
  panic : Outcome E A
  err : (failure : E) → Outcome E A
  ok : (value : A) → Outcome E A

module _ {ℓ κ μ} {E : Type κ} {A : Type ℓ} {B : Type μ} where
  infixl 5 ◌>>=◌
  abbrev pub ◌>>=◌ : Outcome E A → (A → Outcome E B) → Outcome E B
  panic >>= next = panic
  err failure >>= next = err failure
  ok value >>= next = next value

  -- A chain that ends with a value had one at its first link.
  pub value_of_chain :
      (first : Outcome E A) (next : A → Outcome E B) {last : B}
      → (first >>= next) ≡ ok last
      → (value : A) × (first ≡ ok value) × (next value ≡ ok last)
  value_of_chain panic next e = cc
  value_of_chain (err failure) next e = cc
  value_of_chain (ok value) next e = (value, refl, e)

module _ {ℓ κ} {E : Type κ} {A : Type ℓ} where
  pub Outcome-cases :
      (r : Outcome E A)
      → ((value : A) × (r ≡ ok value)) ⊎ ((failure : E) × (r ≡ err failure)) ⊎ (r ≡ panic)
  Outcome-cases panic = inr (inr refl)
  Outcome-cases (err failure) = inr (inl (failure, refl))
  Outcome-cases (ok value) = inl (value, refl)
