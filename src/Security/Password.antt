-- ===== src/Security/Password.antt =====
-- src/security/password_hasher.cpp and .hpp: PBKDF2 hashes as text.
pub mod Laws
use iot_dashboard_flutter.Common.{
  ℕ, suc, ◌+◌, ◌%◌, ◌^◌, Bool, true, false, ◌==◌, str_instance, if◌then◌else◌, is_empty, ◌||◌, List,
  ◌∷◌, ◌++◌, length, take, drop, Option, none, some, Str, str,
}
use iot_dashboard_flutter.Common.Search.{find_byte, starts_with}
use iot_dashboard_flutter.Common.Decimal.{to_string, stoul}
use iot_dashboard_flutter.Errors.{Result, ok, err, internal_error}
use iot_dashboard_flutter.Security.Crypto.{Crypto}
use iot_dashboard_flutter.Security.Base64.{b64_encode, b64_decode}

pub record PasswordHasher : Type 0 where
  pub iterations : ℕ

abbrev pub k_salt_bytes : ℕ
k_salt_bytes = 16

abbrev pub k_hash_bytes : ℕ
k_hash_bytes = 32

-- The text that `Hash` returns.
unfoldable pub stored_hash : ℕ → List ℕ → List ℕ → Str
stored_hash iterations salt hash =
    str "$pbkdf2-sha256$"
    ++ (to_string iterations ++ b'$' ∷ (b64_encode salt ++ b'$' ∷ b64_encode hash))

module _ (crypto : Crypto) where
  open crypto use {pbkdf2}

  -- `salt` is what `RAND_bytes` wrote, or `none` where it failed.
  unfoldable pub hash : PasswordHasher → Option (List ℕ) → Str → Result Str
  hash hasher none password = err internal_error
  hash hasher (some salt) password = elim (pbkdf2 password salt hasher.iterations k_hash_bytes) [
    | none ↦ err internal_error
    | some key ↦ ok (stored_hash hasher.iterations salt key)
  ]

  -- `CRYPTO_memcmp( computed, expected, computed.size() ) == 0`
  unfoldable pub matches : Str → List ℕ → ℕ → List ℕ → Bool
  matches password salt iterations expected =
      if is_empty salt || is_empty expected
      then false
      else elim (pbkdf2 password salt iterations (length expected)) [
        | none ↦ false
        | some computed ↦ computed == expected
      ]

  -- `rest` is what stands behind the number of iterations.
  unfoldable pub verify_rest : Str → ℕ → Str → Bool
  verify_rest password iterations rest = elim (find_byte b'$' rest) [
    | none ↦ false
    | some d2 ↦
        matches password (b64_decode (take d2 rest)) iterations (b64_decode (drop (d2 + 1) rest))
  ]

  unfoldable pub verify_fields : Str → Str → Bool
  verify_fields password rest = elim (find_byte b'$' rest) [
    | none ↦ false
    | some d1 ↦ elim (stoul (take d1 rest)) [
      | none ↦ false
      | some iterations ↦ verify_rest password (iterations % 2 ^ 32) (drop (d1 + 1) rest)
    ]
  ]

  unfoldable pub verify : Str → Str → Bool
  verify password stored =
      if starts_with (str "$pbkdf2-sha256$") stored
      then verify_fields password (drop 15 stored)
      else false
