-- ===== src/Common/Decimal.antt =====
-- `std::to_string` of an unsigned number, and `std::stoul`.
pub mod Stoi
use iot_dashboard_flutter.Common.Tests.{if◌then◌else◌, leb, ltb, lt→ltb, Bool-cases}
use iot_dashboard_flutter.Common.Lists.{All}
use iot_dashboard_flutter.Common.Text.{Str, ◌==◌, nat_eq, eq_other}
use Prim.Native.Nat.{ℕ, zero, suc, ◌+◌, ◌-◌, ◌*◌, ◌/◌, ◌%◌, ◌^◌, ◌<◌, ◌≤◌}
use native.Mathlib.Nat.{pow-suc}
use mathlib.Core.Path.{◌≡◌, refl, ap}
use mathlib.Core.Logic.{inl, inr, ◌≢◌}
use mathlib.Core.Bool.{Bool, true, false, ◌&&◌, ◌||◌}
use mathlib.Core.Option.{Option, none, some}
use mathlib.Core.List.{[], ◌∷◌}
use native.Mathlib.Omega.{arith}

-- The digits of `n` in front of `out`, ten rounds at most: enough below `10 ^ 10`.
digits : ℕ → ℕ → Str → Str
digits zero n out = out
digits (suc rounds) n out =
    let more = digits rounds (n / 10) ((b'0' + n % 10) ∷ out) in
    if ltb n 10 then (b'0' + n) ∷ out else more

unfoldable pub to_string : ℕ → Str
unfolding digits
to_string n = digits 10 n []

unfoldable pub is_digit : ℕ → Bool
is_digit c = leb b'0' c && leb c b'9'

-- The value of the digits in front, from `value` on.
unfoldable pub read_digits : ℕ → Str → ℕ
read_digits value [] = value
read_digits value (c ∷ s) =
    let more = read_digits (value * 10 + (c - b'0')) s in if is_digit c then more else value

unfoldable pub is_space : ℕ → Bool
is_space c = c == 32 || (leb 9 c && leb c 13)

skip_spaces : Str → Str
skip_spaces [] = []
skip_spaces (c ∷ s) = let rest = skip_spaces s in if is_space c then rest else c ∷ s

-- Digits after the sign: `none` is the exception, for no digit or a number above `ULONG_MAX`.
read_unsigned : Bool → Str → Option ℕ
read_unsigned negative [] = none
read_unsigned negative (c ∷ s) =
    let value = read_digits 0 (c ∷ s) in
    if is_digit c && ltb value (2 ^ 64)
    then some (if negative then (2 ^ 64 - value) % 2 ^ 64 else value)
    else none

read_signed : Str → Option ℕ
read_signed [] = none
read_signed (c ∷ s) =
    if c == b'-'
    then read_unsigned true s
    else if c == b'+'
    then read_unsigned false s
    else read_unsigned false (c ∷ s)

unfoldable pub stoul : Str → Option ℕ
unfolding read_signed read_unsigned skip_spaces
stoul s = read_signed (skip_spaces s)

abbrev pub IsDigit : ℕ → Type 0
IsDigit c = (b'0' ≤ c) × (c ≤ b'9')

digits-All : (rounds n : ℕ) (out : Str) → All IsDigit out → All IsDigit (digits rounds n out)
unfolding digits
digits-All zero n out h = h
digits-All (suc rounds) n out h = elim (Bool-cases (ltb n 10)) [
  | inl e ↦ rw e ((omega arith, ground arith), h)
  | inr e ↦ rw e (digits-All rounds (n / 10) _ ((omega arith, omega arith), h))
]

pub to_string-All : (n : ℕ) → All IsDigit (to_string n)
unfolding to_string
to_string-All n = digits-All 10 n [] tt

is_digit_of_IsDigit : (c : ℕ) → IsDigit c → is_digit c ≡ true
unfolding is_digit
is_digit_of_IsDigit c h = ground arith

read_digits_step :
    (value d : ℕ) (out : Str)
    → d < 10
    → read_digits value ((b'0' + d) ∷ out) ≡ read_digits (value * 10 + d) out
unfolding read_digits
read_digits_step value d out h =
    rw (is_digit_of_IsDigit (b'0' + d) (omega arith)) (ap (λ v. read_digits v out) (omega arith))

read_digits-digits :
    (rounds n : ℕ) (out : Str)
    → n < 10 ^ rounds
    → read_digits 0 (digits rounds n out) ≡ read_digits n out
unfolding digits
read_digits-digits zero n out h = ap (λ v. read_digits v out) (omega arith)
read_digits-digits (suc rounds) n out h = elim (Bool-cases (ltb n 10)) [
  | inl e ↦
      rw (e, read_digits_step 0 n out (ground arith)) (ap (λ v. read_digits v out) (omega arith))
  | inr e ↦
      let less : n < 10 ^ rounds * 10 = rw pow-suc at h in
      rw
        (
          e,
          read_digits-digits rounds (n / 10) _ (omega arith),
          read_digits_step (n / 10) (n % 10) out (omega arith),
        )
        (ap (λ v. read_digits v out) (omega arith))
]

digits-ne-nil : (rounds n : ℕ) (out : Str) → out ≢ [] → digits rounds n out ≢ []
unfolding digits
digits-ne-nil zero n out h = h
digits-ne-nil (suc rounds) n out h = elim (Bool-cases (ltb n 10)) [
  | inl e ↦ rw e (λ p. cc)
  | inr e ↦ rw e (digits-ne-nil rounds (n / 10) _ (λ p. cc))
]

to_string-ne-nil : (n : ℕ) → to_string n ≢ []
unfolding to_string
to_string-ne-nil n = elim (Bool-cases (ltb n 10)) [
  | inl e ↦ rw e (λ p. cc)
  | inr e ↦ rw e (digits-ne-nil 9 (n / 10) _ (λ p. cc))
]

plain_is_space : (c : ℕ) → IsDigit c → is_space c ≡ false
unfolding is_space
plain_is_space c h = ground arith

stoul_of_digits :
    (s : Str) → All IsDigit s → s ≢ [] → read_digits 0 s < 2 ^ 64 → stoul s ≡ some (read_digits 0 s)
unfolding read_signed read_unsigned skip_spaces stoul
stoul_of_digits [] h ne lt = absurd (ne refl)
stoul_of_digits (c ∷ s) h ne lt = rw (
  plain_is_space c h.0,
  eq_other c b'-' (λ e. omega arith),
  eq_other c b'+' (λ e. omega arith),
  is_digit_of_IsDigit c h.0,
  lt→ltb _ _ lt,
)

-- `stoul` reads back what `to_string` wrote, for every number that fits 32 bits.
pub stoul-to_string : (n : ℕ) → n < 2 ^ 32 → stoul (to_string n) ≡ some n
stoul-to_string n h =
    let same : read_digits 0 (to_string n) ≡ n =
      unfold to_string read_digits in read_digits-digits 10 n [] (omega arith) in
    rw (stoul_of_digits (to_string n) (to_string-All n) (to_string-ne-nil n) (omega arith), same)
