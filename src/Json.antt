-- ===== src/Json.antt =====
-- What the program takes from nlohmann::json: values, `dump`, `parse` and typed access. `parse` gives
-- `none` where it throws `parse_error`, an access gives `throws` where it throws `type_error`.
use iot_dashboard_flutter.Common.{ℕ, ◌≡◌, Bool, List, All, Option, none, some, Str}
use iot_dashboard_flutter.Common.Map.{lookup}
use iot_dashboard_flutter.Common.{str_instance}
use iot_dashboard_flutter.Exn.{Exn, returns, throws, ◌>>=◌}
use iot_dashboard_flutter.Security.Base64.Roundtrip.{IsByte}

-- `int64_t`; `negsuc n` is -(n + 1).
pub data ℤ : Type 0 where
  pos : ℕ → ℤ
  negsuc : ℕ → ℤ

pub record Json : Type 1 where
  pub Value : Type 0
  pub text : Str → Value
  pub integer : ℤ → Value
  pub boolean : Bool → Value
  pub array : List Value → Value
  pub object : List (Str × Value) → Value
  pub dump : Value → Str
  pub parse : Str → Option Value
  -- The entry of an object, none if it is missing; `throws` if the value is no object.
  pub find : Value → Str → Exn (Option Value)
  -- `get< std::string >()`, `get< int64_t >()`, `get< bool >()`
  pub get_text : Value → Exn Str
  pub get_integer : Value → Exn ℤ
  pub get_boolean : Value → Exn Bool
  -- What a range-based `for` visits.
  pub items : Value → List Value
  pub find-object :
      (fields : List (Str × Value)) (key : Str)
      → find (object fields) key ≡ returns (lookup key fields)
  pub get_text-text : (s : Str) → get_text (text s) ≡ returns s
  pub get_integer-integer : (n : ℤ) → get_integer (integer n) ≡ returns n
  pub get_boolean-boolean : (b : Bool) → get_boolean (boolean b) ≡ returns b
  pub items-array : (vs : List Value) → items (array vs) ≡ vs
  -- A value whose texts are valid UTF-8, which `dump` requires.
  pub IsWritable : Value → Type 0
  pub parse-dump : (v : Value) → IsWritable v → parse (dump v) ≡ some v
  pub dump_bytes : (v : Value) → All IsByte (dump v)

module _ (json : Json) where
  open json use {Value, find, get_text, get_integer, get_boolean}

  value_or {ℓ} : {A : Type ℓ} → (Value → Exn A) → A → Option Value → Exn A
  value_or get fallback none = returns fallback
  value_or get fallback (some v) = get v

  -- `j.value( key, fallback )` at each type
  unfoldable pub value_text : Value → Str → Str → Exn Str
  unfolding value_or
  value_text j key fallback = find j key >>= value_or get_text fallback

  unfoldable pub value_integer : Value → Str → ℤ → Exn ℤ
  unfolding value_or
  value_integer j key fallback = find j key >>= value_or get_integer fallback

  unfoldable pub value_boolean : Value → Str → Bool → Exn Bool
  unfolding value_or
  value_boolean j key fallback = find j key >>= value_or get_boolean fallback

  unfoldable pub value_json : Value → Str → Value → Exn Value
  unfolding value_or
  value_json j key fallback = find j key >>= value_or returns fallback

  or_throw : Option Value → Exn Value
  or_throw none = throws
  or_throw (some v) = returns v

  -- `j.at( key )`
  unfoldable pub at : Value → Str → Exn Value
  unfolding or_throw
  at j key = find j key >>= or_throw

-- Accesses to an object that has the entry.
module _ (json : Json) where
  open json use {Value, object, text, boolean, find}

  pub at-object :
      (fields : List (Str × Value)) (key : Str) (v : Value)
      → lookup key fields ≡ some v
      → at json (object fields) key ≡ returns v
  unfolding at or_throw
  at-object fields key v there = rw (json.find-object fields key, there)

  pub value_text-object :
      (fields : List (Str × Value)) (key s fallback : Str)
      → lookup key fields ≡ some (text s)
      → value_text json (object fields) key fallback ≡ returns s
  unfolding value_text value_or
  value_text-object fields key s fallback there =
      rw (json.find-object fields key, there, json.get_text-text s)

  pub value_boolean-object :
      (fields : List (Str × Value)) (key : Str) (b fallback : Bool)
      → lookup key fields ≡ some (boolean b)
      → value_boolean json (object fields) key fallback ≡ returns b
  unfolding value_boolean value_or
  value_boolean-object fields key b fallback there =
      rw (json.find-object fields key, there, json.get_boolean-boolean b)

  pub value_json-object :
      (fields : List (Str × Value)) (key : Str) (v fallback : Value)
      → lookup key fields ≡ some v
      → value_json json (object fields) key fallback ≡ returns v
  unfolding value_json value_or
  value_json-object fields key v fallback there = rw (json.find-object fields key, there)
