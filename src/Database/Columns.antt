-- ===== src/Database/Columns.antt =====
-- What src/database/device_repository.cpp and sensor_repository.cpp share: times as columns, and texts as
-- `SqliteStatement::GetText` of sqlite_statement.cpp reads them.
use iot_dashboard_flutter.Common.{
  ℕ, arith, zero, suc, ◌*◌, ◌/◌, ◌≢◌, ◌≡◌, refl, ap, All, [], ◌∷◌, ◌==◌, nat_eq, eq_other,
  if◌then◌else◌, Str,
}

-- A `Timestamp` counts nanoseconds.
unfoldable pub to_unix_ms : ℕ → ℕ
to_unix_ms timestamp = timestamp / 1000000

unfoldable pub from_unix_ms : ℕ → ℕ
from_unix_ms ms = ms * 1000000

-- The text of a column is a C string: it ends before the first byte 0.
unfoldable pub get_text : Str → Str
get_text [] = []
get_text (c ∷ s) = let rest = get_text s in if c == 0 then [] else c ∷ rest

-- A text with no byte 0.
abbrev pub IsPlain : Str → Type 0
IsPlain s = All (λ c. c ≢ 0) s

pub get_text-plain : (s : Str) → IsPlain s → get_text s ≡ s
unfolding get_text
get_text-plain [] h = refl
get_text-plain (c ∷ s) h = rw (eq_other c 0 h.0) (ap (λ t. c ∷ t) (get_text-plain s h.1))

-- The bytes of a text before its first byte 0.
unfoldable pub up_to_zero : Str → Str
up_to_zero [] = []
up_to_zero (zero ∷ s) = []
up_to_zero (suc c ∷ s) = suc c ∷ up_to_zero s

pub get_text-up_to_zero : (s : Str) → get_text s ≡ up_to_zero s
unfolding get_text up_to_zero
get_text-up_to_zero [] = refl
get_text-up_to_zero (zero ∷ s) = refl
get_text-up_to_zero (suc c ∷ s) = ground (arith, get_text-up_to_zero s)
