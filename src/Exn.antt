-- ===== src/Exn.antt =====
-- Calls that may throw an exception which their function does not catch.
use iot_dashboard_flutter.Common.{◌≡◌, refl, ◌⊎◌, inl, inr}

pub data Exn {ℓ} (A : Type ℓ) : Type ℓ where
  returns : A → Exn A
  throws : Exn A

pub Exn-cases {ℓ} : {A : Type ℓ} (m : Exn A) → (m ≡ throws) ⊎ ((a : A) × (m ≡ returns a))
Exn-cases throws = inl refl
Exn-cases (returns a) = inr (a, refl)

infixl 5 ◌>>=◌
abbrev pub ◌>>=◌ {ℓ κ} : {A : Type ℓ} {B : Type κ} → Exn A → (A → Exn B) → Exn B
returns a >>= f = f a
throws >>= f = throws

-- Inversion of a sequence of calls that returned.
pub >>=-eq-returns {ℓ κ} :
    {A : Type ℓ} {B : Type κ} (m : Exn A) (f : A → Exn B) {b : B}
    → (m >>= f) ≡ returns b
    → (a : A) × (m ≡ returns a) × (f a ≡ returns b)
>>=-eq-returns (returns a) f h = (a, refl, h)
>>=-eq-returns throws f h = cc
