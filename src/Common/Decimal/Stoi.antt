-- ===== src/Common/Decimal/Stoi.antt =====
-- `std::stoi`.
use iot_dashboard_flutter.Common.Decimal.{
  to_string, is_digit, read_digits, skip_spaces, IsDigit, to_string-All, is_digit_of_IsDigit,
  read_digits-digits, to_string-ne-nil, plain_is_space,
}
use iot_dashboard_flutter.Common.Tests.{if◌then◌else◌, ltb, lt→ltb}
use iot_dashboard_flutter.Common.Lists.{All}
use iot_dashboard_flutter.Common.Text.{Str, ◌==◌, nat_eq, eq_other}
use Prim.Native.Nat.{ℕ, ◌+◌, ◌^◌, ◌<◌}
use mathlib.Core.Path.{◌≡◌, refl}
use mathlib.Core.Logic.{◌≢◌}
use mathlib.Core.Bool.{Bool, true, false, ◌&&◌}
use mathlib.Core.Option.{Option, none, some}
use mathlib.Core.List.{[], ◌∷◌}
use native.Mathlib.Omega.{arith}

-- A signed number, as whether it is negative and how large it is.
abbrev pub Signed : Type 0
Signed = Bool × ℕ

-- Digits after the sign: `none` is the exception, for no digit or a number that is not below `bound`.
read_within : Bool → ℕ → Str → Option Signed
read_within negative bound [] = none
read_within negative bound (c ∷ s) =
    if is_digit c && ltb (read_digits 0 (c ∷ s)) bound
    then some (negative, read_digits 0 (c ∷ s))
    else none

read_int : Str → Option Signed
read_int [] = none
read_int (c ∷ s) =
    if c == b'-'
    then read_within true (2 ^ 31 + 1) s
    else if c == b'+'
    then read_within false (2 ^ 31) s
    else read_within false (2 ^ 31) (c ∷ s)

unfoldable pub stoi : Str → Option Signed
unfolding read_int read_within skip_spaces
stoi s = read_int (skip_spaces s)

stoi_of_digits :
    (s : Str)
    → All IsDigit s
    → s ≢ []
    → read_digits 0 s < 2 ^ 31
    → stoi s ≡ some (false, read_digits 0 s)
unfolding read_int read_within skip_spaces stoi
stoi_of_digits [] h ne lt = absurd (ne refl)
stoi_of_digits (c ∷ s) h ne lt = rw (
  plain_is_space c h.0,
  eq_other c b'-' (λ e. omega arith),
  eq_other c b'+' (λ e. omega arith),
  is_digit_of_IsDigit c h.0,
  lt→ltb _ _ lt,
)

-- `stoi` reads back what `to_string` wrote, for every number that an `int` can hold.
pub stoi-to_string : (n : ℕ) → n < 2 ^ 31 → stoi (to_string n) ≡ some (false, n)
stoi-to_string n h =
    let same : read_digits 0 (to_string n) ≡ n =
      unfold to_string read_digits in read_digits-digits 10 n [] (omega arith) in
    rw (stoi_of_digits (to_string n) (to_string-All n) (to_string-ne-nil n) (omega arith), same)
