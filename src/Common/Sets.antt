-- ===== src/Common/Sets.antt =====
-- `std::unordered_set` as a list without repetitions.
use mathlib.Core.Path.{◌≡◌}
use mathlib.Core.Bool.{Bool, false, ◌||◌, not, ◌&&◌}
use mathlib.Core.List.{List, [], ◌∷◌}
use native.Mathlib.Omega.{arith}
use iot_dashboard_flutter.Common.Tests.{if◌then◌else◌}
use iot_dashboard_flutter.Common.Text.{Eq, ◌==◌}

module _ {ℓ} {A : Type ℓ} ⦃e : Eq A⦄ where
  unfoldable pub has : A → List A → Bool
  has a [] = false
  has a (x ∷ xs) = x == a || has a xs

  unfoldable pub add : A → List A → List A
  unfolding has
  add a xs = if has a xs then xs else a ∷ xs

  unfoldable pub remove : A → List A → List A
  remove a [] = []
  remove a (x ∷ xs) = let rest = remove a xs in if x == a then rest else x ∷ rest

  pub has-add : (a b : A) (xs : List A) → has b (add a xs) ≡ (a == b || has b xs)
  unfolding add
  has-add a b xs = ground (arith, e.beq_iff a b, e.beq_iff a a)

  pub has-remove : (a b : A) (xs : List A) → has b (remove a xs) ≡ (not (a == b) && has b xs)
  unfolding has remove
  has-remove a b [] = ground arith
  has-remove a b (x ∷ xs) =
      ground (arith, e.beq_iff a b, e.beq_iff x a, e.beq_iff x b, has-remove a b xs)
