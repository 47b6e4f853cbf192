-- ===== src/Common/Unique.antt =====
-- Maps that hold no key twice, as the program's hash maps do.
use iot_dashboard_flutter.Common.Tests.{Bool-cases}
use iot_dashboard_flutter.Common.Text.{Eq, ◌==◌, eq_self}
use iot_dashboard_flutter.Common.Map.{lookup, insert, erase, contains, contains-lookup}
use mathlib.Core.Path.{◌≡◌, refl, subst, ap}
use mathlib.Core.Logic.{inl, inr, ◌↔◌}
use mathlib.Core.Bool.{false, ◌||◌}
use mathlib.Core.Option.{some}
use mathlib.Core.List.{List, [], ◌∷◌}
use native.Mathlib.Omega.{arith}
use iot_dashboard_flutter.Common.Any.{Any}

module _ {ℓ} {K : Type ℓ} {V : Type 0} ⦃e : Eq K⦄ where
  -- No key stands twice in the map.
  unfoldable pub IsUnique : List (K × V) → Type 0
  IsUnique [] = Unit
  IsUnique ((k, v) ∷ m) = contains k m ≡ false × IsUnique m

  pub contains-insert :
      (k j : K) (v : V) (m : List (K × V)) → contains j (insert k v m) ≡ (k == j || contains j m)
  unfolding contains insert
  contains-insert k j v [] = refl
  contains-insert k j v ((i, w) ∷ m) =
      ground (arith, contains-insert k j v m, e.beq_iff i k, e.beq_iff i j, e.beq_iff k j)

  pub contains-erase :
      (k j : K) (m : List (K × V)) → contains j m ≡ false → contains j (erase k m) ≡ false
  unfolding contains erase
  contains-erase k j [] h = refl
  contains-erase k j ((i, w) ∷ m) h = ground (arith, contains-erase k j m, h)

  pub insert-IsUnique : (k : K) (v : V) (m : List (K × V)) → IsUnique m → IsUnique (insert k v m)
  unfolding IsUnique insert contains
  insert-IsUnique k v [] u = (refl, tt)
  insert-IsUnique k v ((i, w) ∷ m) u = elim (Bool-cases (i == k)) [
    | inl same ↦ rw (same) (ground (arith, u, same, e.beq_iff i k), u.1)
    | inr other ↦ rw (other) (
      ground (arith, u, other, contains-insert k i v m, e.beq_iff i k, e.beq_iff k i),
      insert-IsUnique k v m u.1,
    )
  ]

  pub erase-IsUnique : (k : K) (m : List (K × V)) → IsUnique m → IsUnique (erase k m)
  unfolding IsUnique erase
  erase-IsUnique k [] u = tt
  erase-IsUnique k ((i, w) ∷ m) u = elim (Bool-cases (i == k)) [
    | inl same ↦ rw (same) (erase-IsUnique k m u.1)
    | inr other ↦ rw (other) (contains-erase k i m u.0, erase-IsUnique k m u.1)
  ]

  Any-found :
      (P : K × V → Type 0) (m : List (K × V))
      → IsUnique m
      → Any P m
      → (k : K) × (v : V) × (lookup k m ≡ some v) × P (k, v)
  unfolding Any IsUnique lookup
  Any-found P [] u h = absurd h
  Any-found P ((i, w) ∷ m) u (inl p) = (i, w, rw (eq_self i), p)
  Any-found P ((i, w) ∷ m) u (inr h) =
      let (k, v, found, p) = Any-found P m u.1 h in
      elim (Bool-cases (i == k)) [
        | inl same ↦ absurd (
            ground (
              arith,
              u.0,
              contains-lookup i m,
              ap (λ x. lookup x m) ((e.beq_iff i k).0 same),
              found,
            ))
        | inr other ↦ (k, v, rw (other) found, p)
      ]

  found-Any :
      (P : K × V → Type 0) (m : List (K × V)) (k : K) (v : V)
      → lookup k m ≡ some v
      → P (k, v)
      → Any P m
  unfolding Any lookup
  found-Any P [] k v found p = absurd (ground (arith, found))
  found-Any P ((i, w) ∷ m) k v found p = elim (Bool-cases (i == k)) [
    | inl same ↦
        let here : some w ≡ some v = rw (same) at found in
        let keys : i ≡ k = (e.beq_iff i k).0 same in
        let pairs : (k, v) ≡ (i, w) = cc (keys, here) in inl (subst P pairs p)
    | inr other ↦ inr (found-Any P m k v (rw (other) at found) p)
  ]

  -- The entries are what the keys are looked up as.
  pub Any-lookup :
      (P : K × V → Type 0) (m : List (K × V))
      → IsUnique m
      → Any P m ↔ ((k : K) × (v : V) × (lookup k m ≡ some v) × P (k, v))
  Any-lookup P m u = (Any-found P m u, λ (k, v, found, p). found-Any P m k v found p)
