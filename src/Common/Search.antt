-- ===== src/Common/Search.antt =====
-- The operations of `std::string_view` that the program uses: `find`, `substr`, `starts_with`.
use iot_dashboard_flutter.Common.Tests.{if◌then◌else◌}
use iot_dashboard_flutter.Common.Lists.{length, drop, All}
use iot_dashboard_flutter.Common.Text.{Str, ◌==◌, nat_eq, eq_other, eq_self}
use Prim.Native.Nat.{ℕ, suc, ◌+◌}
use mathlib.Core.Path.{◌≡◌, refl}
use mathlib.Core.Logic.{◌≢◌}
use mathlib.Core.Bool.{Bool, true, false, ◌&&◌}
use mathlib.Core.Option
use mathlib.Core.Option.{Option, none, some}
use mathlib.Core.List.{[], ◌∷◌, ◌++◌}
use native.Mathlib.Omega.{arith}

-- `s.find( c )`; `none` is `npos`.
unfoldable pub find_byte : ℕ → Str → Option ℕ
find_byte c [] = none
find_byte c (a ∷ s) = if a == c then some 0 else Option.map suc (find_byte c s)

-- `s.find( c, from )`
unfoldable pub find_byte_from : ℕ → Str → ℕ → Option ℕ
find_byte_from c s from = Option.map (λ i. from + i) (find_byte c (drop from s))

-- The position of the last one, `s.rfind( c )`.
unfoldable pub rfind_byte : ℕ → Str → Option ℕ
rfind_byte c [] = none
rfind_byte c (a ∷ s) = elim (rfind_byte c s) [
  | none ↦ if a == c then some 0 else none
  | some i ↦ some (suc i)
]

unfoldable pub starts_with : Str → Str → Bool
starts_with [] s = true
starts_with (p ∷ prefix) [] = false
starts_with (p ∷ prefix) (a ∷ s) = p == a && starts_with prefix s

pub find_byte-append :
    (c : ℕ) (s rest : Str) → All (λ a. a ≢ c) s → find_byte c (s ++ c ∷ rest) ≡ some (length s)
unfolding find_byte
find_byte-append c [] rest h = rw (eq_self c)
find_byte-append c (a ∷ s) rest h = rw (eq_other a c h.0, find_byte-append c s rest h.1)

pub find_byte-none : (c : ℕ) (s : Str) → All (λ a. a ≢ c) s → find_byte c s ≡ none
unfolding find_byte
find_byte-none c [] h = refl
find_byte-none c (a ∷ s) h = rw (eq_other a c h.0, find_byte-none c s h.1)

pub starts_with-append : (prefix s : Str) → starts_with prefix (prefix ++ s) ≡ true
unfolding starts_with
starts_with-append [] s = refl
starts_with-append (p ∷ prefix) s = rw (eq_self p, starts_with-append prefix s)

-- What stands behind the separator.
pub drop-append-cons : (s : Str) (c : ℕ) (rest : Str) → drop (length s + 1) (s ++ c ∷ rest) ≡ rest
drop-append-cons [] c rest = refl
drop-append-cons (a ∷ s) c rest =
    let step : length (a ∷ s) + 1 ≡ suc (length s + 1) = omega arith in
    rw step (drop-append-cons s c rest)
