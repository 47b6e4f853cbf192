-- ===== src/Examples.antt =====
-- Small concrete systems on which the theorems are applied: stand-ins for the libraries, and accounts.
mod Tokens
mod Routes
mod Events
mod Sockets
mod Manager
mod Schema
mod Storage
mod Running
mod Posting
use iot_dashboard_flutter.Common.{
  ℕ, zero, suc, ◌%◌, ◌<◌, ◌≡◌, refl, sym, ap, subst, ◌∙◌, Bool, List, [], ◌∷◌, length, replicate,
  All, Option, none, some, Str, str, str_instance, ◌==◌, if◌then◌else◌, arith,
}
use iot_dashboard_flutter.Common.Map.{lookup}
use iot_dashboard_flutter.Exn.{Exn, returns, throws}
use iot_dashboard_flutter.Json.{Json, ℤ, pos}
use iot_dashboard_flutter.Security.Base64.Roundtrip.{IsByte}
use iot_dashboard_flutter.Security.Crypto.{Crypto}

length-replicate : (n a : ℕ) → length (replicate n a) ≡ n
length-replicate zero a = refl
length-replicate (suc n) a = ap suc (length-replicate n a)

replicate-IsByte : (n a : ℕ) → a < 256 → All IsByte (replicate n a)
replicate-IsByte zero a h = tt
replicate-IsByte (suc n) a h = (h, replicate-IsByte n a h)

list_or : List ℕ → Option (List ℕ) → List ℕ
list_or default none = default
list_or default (some xs) = xs

remainder-lt : (n : ℕ) → n % 256 < 256
remainder-lt n = omega arith

-- A derivation and a hash that depend on the length of their text only.
abbrev toy_derive : Str → List ℕ → ℕ → ℕ → Option (List ℕ)
toy_derive password salt iterations size = some (replicate size (length password % 256))

toy_size :
    (password : Str) (salt : List ℕ) (iterations size : ℕ) (out : List ℕ)
    → toy_derive password salt iterations size ≡ some out
    → length out ≡ size
unfolding list_or
toy_size password salt iterations size out e =
    subst (λ xs. length xs ≡ size) (ap (list_or []) e)
      (length-replicate size (length password % 256))

toy_bytes :
    (password : Str) (salt : List ℕ) (iterations size : ℕ) (out : List ℕ)
    → toy_derive password salt iterations size ≡ some out
    → All IsByte out
unfolding list_or
toy_bytes password salt iterations size out e =
    subst (All IsByte) (ap (list_or []) e)
      (replicate-IsByte size (length password % 256) (remainder-lt (length password)))

abbrev toy_crypto : Crypto
toy_crypto = record {
  pbkdf2 = toy_derive;
  pbkdf2_size = toy_size;
  pbkdf2_bytes = toy_bytes;
  hmac = λ secret text. length text % 256 ∷ [];
  hmac_bytes = λ secret text. replicate-IsByte 1 (length text % 256) (remainder-lt (length text));
}

mutual
  data Value : Type 0 where
    text : Str → Value
    integer : ℤ → Value
    boolean : Bool → Value
    array object : Fields → Value

  data Fields : Type 0 where
    end : Fields
    field : Str → Value → Fields → Fields

unfoldable from_pairs : List (Str × Value) → Fields
from_pairs [] = end
from_pairs ((key, v) ∷ fields) = field key v (from_pairs fields)

unfoldable from_items : List Value → Fields
from_items [] = end
from_items (v ∷ vs) = field [] v (from_items vs)

to_items : Fields → List Value
to_items end = []
to_items (field key v fields) = v ∷ to_items fields

find_field : Str → Fields → Option Value
find_field key end = none
find_field key (field name v fields) = if name == key then some v else find_field key fields

toy_find : Value → Str → Exn (Option Value)
toy_find (object fields) key = returns (find_field key fields)
toy_find _ key = throws

find_field-from_pairs :
    (fields : List (Str × Value)) (key : Str)
    → find_field key (from_pairs fields) ≡ lookup key fields
unfolding find_field from_pairs lookup
find_field-from_pairs [] key = refl
find_field-from_pairs ((name, v) ∷ fields) key = rw (find_field-from_pairs fields key)

toy_text : Value → Exn Str
toy_text (text s) = returns s
toy_text _ = throws

toy_integer : Value → Exn ℤ
toy_integer (integer n) = returns n
toy_integer _ = throws

toy_boolean : Value → Exn Bool
toy_boolean (boolean b) = returns b
toy_boolean _ = throws

items_of : Value → List Value
unfolding to_items
items_of (array fields) = to_items fields
items_of (object fields) = to_items fields
items_of _ = []

to_items-from_items : (vs : List Value) → to_items (from_items vs) ≡ vs
unfolding to_items from_items
to_items-from_items [] = refl
to_items-from_items (v ∷ vs) = ap (λ rest. v ∷ rest) (to_items-from_items vs)

-- A JSON library for which the value `known` alone is writable.
unfoldable toy_json : Value → Json
unfolding from_pairs from_items toy_find toy_text toy_integer toy_boolean items_of
toy_json known = record {
  Value = Value;
  text = text;
  integer = integer;
  boolean = boolean;
  array = λ vs. array (from_items vs);
  object = λ fields. object (from_pairs fields);
  dump = λ v. 0 ∷ [];
  parse = λ s. some known;
  find = toy_find;
  get_text = toy_text;
  get_integer = toy_integer;
  get_boolean = toy_boolean;
  items = items_of;
  find-object = λ fields key. ap returns (find_field-from_pairs fields key);
  get_text-text = λ s. refl;
  get_integer-integer = λ n. refl;
  get_boolean-boolean = λ b. refl;
  items-array = to_items-from_items;
  IsWritable = λ v. known ≡ v;
  parse-dump = λ v e. ap some e;
  dump_bytes = λ v. replicate-IsByte 1 0 (omega arith);
}
