-- ===== src/Common/Text.antt =====
-- A `std::string` is its list of bytes; a literal is written `str "..."` and stays shut.
use Prim.Native.Nat.{ℕ}
use Prim.Native.Char.{code}
use Prim.Native.String.{String}
use mathlib.Core.Path.{◌≡◌, refl}
use mathlib.Core.Bool.{Bool, true, false, ◌&&◌}
use mathlib.Core.Logic.{◌≢◌, ◌↔◌}
use mathlib.Core.List.{List, [], ◌∷◌}
use native.Mathlib.Omega.{arith}
use iot_dashboard_flutter.Common.Tests.{nat_beq, nat_beq_iff}

abbrev pub Str : Type 0
Str = List ℕ

unfoldable pub str : String → Str
str String.[] = []
str (String.◌∷◌ c s) = code c ∷ str s

unfoldable pub str_beq : Str → Str → Bool
str_beq [] [] = true
str_beq (a ∷ s) (b ∷ t) = nat_beq a b && str_beq s t
str_beq _ _ = false

str_beq_sound : (s t : Str) → str_beq s t ≡ true → s ≡ t
unfolding str_beq
str_beq_sound [] [] h = refl
str_beq_sound [] (b ∷ t) h = cc
str_beq_sound (a ∷ s) [] h = cc
str_beq_sound (a ∷ s) (b ∷ t) h = ground (arith, str_beq_sound s t)

pub str_beq_refl : (s : Str) → str_beq s s ≡ true
unfolding str_beq
str_beq_refl [] = refl
str_beq_refl (a ∷ s) = ground (arith, str_beq_refl s)

str_beq_complete : (s t : Str) → s ≡ t → str_beq s t ≡ true
str_beq_complete s t e = rw e (str_beq_refl t)

pub str_beq_iff : (s t : Str) → (str_beq s t ≡ true) ↔ (s ≡ t)
str_beq_iff s t = (str_beq_sound s t, str_beq_complete s t)

pub nat_beq_refl : (n : ℕ) → nat_beq n n ≡ true
nat_beq_refl n = (nat_beq_iff n n).1 refl

-- What a map wants of its keys: a test that holds of a key and itself, and of equal keys alone.
pub record Eq {ℓ} (K : Type ℓ) : Type ℓ where
  pub beq : K → K → Bool
  pub beq_refl : (key : K) → beq key key ≡ true
  pub beq_iff : (key other : K) → (beq key other ≡ true) ↔ (key ≡ other)

instance abbrev pub str_instance : Eq Str
str_instance = record { beq = str_beq; beq_refl = str_beq_refl; beq_iff = str_beq_iff }

instance abbrev pub nat_eq : Eq ℕ
nat_eq = record { beq_iff = nat_beq_iff; beq_refl = nat_beq_refl; beq = nat_beq }

infix 50 ◌==◌
abbrev pub ◌==◌ {ℓ} : {K : Type ℓ} ⦃keys : Eq K⦄ → K → K → Bool
◌==◌ ⦃keys⦄ key other = keys.beq key other

module _ {ℓ} {A : Type ℓ} ⦃e : Eq A⦄ where
  pub eq_self : (a : A) → (a == a) ≡ true
  eq_self a = e.beq_refl a

  pub eq_other : (a b : A) → a ≢ b → (a == b) ≡ false
  eq_other a b h = ground (arith, e.beq_iff a b)
