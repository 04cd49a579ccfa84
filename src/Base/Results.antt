-- ===== src/Base/Results.antt =====
-- Values or errors: what JavaScript code throws or returns as an error object.
use mathlib.Core.Path.{◌≡◌, refl}
use mathlib.Core.Logic.{◌⊎◌, inl, inr}

pub data Result {ℓ κ} (E : Type ℓ) (A : Type κ) : Type (ℓ ⊔ κ) where
  ok : A → Result E A
  err : E → Result E A

infixl 5 ◌>>=◌ ◌>>◌
abbrev pub ◌>>=◌ {ℓ κ μ} :
    {E : Type ℓ} {A : Type κ} {B : Type μ} → Result E A → (A → Result E B) → Result E B
err code >>= next = err code
ok value >>= next = next value

abbrev pub ◌>>◌ {ℓ κ} : {E : Type ℓ} {B : Type κ} → Result E (Unit {0}) → Result E B → Result E B
first >> next = first >>= λ _. next

module _ {ℓ κ} {E : Type ℓ} {A : Type κ} where
  pub ok-injective : {a b : A} → ◌≡◌ {A = Result E A} (ok a) (ok b) → a ≡ b
  ok-injective same = cc

  pub Result-cases : (r : Result E A) → ((c : E) × (r ≡ err c)) ⊎ ((a : A) × (r ≡ ok a))
  Result-cases (err c) = inl (c, refl)
  Result-cases (ok a) = inr (a, refl)

  -- If a chain returns, so did its first part.
  pub ok_chain {μ} :
      {B : Type μ} {b : B} (next : A → Result E B) (first : Result E A)
      → (first >>= next) ≡ ok b
      → (value : A) × (first ≡ ok value) × (next value ≡ ok b)
  ok_chain next (err code) returns = cc
  ok_chain next (ok value) returns = (value, refl, returns)
