-- ===== src/Security/Crypto.antt =====
-- What the program takes from OpenSSL: a key derivation and a keyed hash, with the sizes that their
-- documentation gives. Random bytes come in as arguments of the calls that draw them.
use iot_dashboard_flutter.Common.{ℕ, ◌≡◌, List, length, All, Option, some, Str}
use iot_dashboard_flutter.Security.Base64.Roundtrip.{IsByte}

pub record Crypto : Type 0 where
  -- `PKCS5_PBKDF2_HMAC` with SHA-256: password, salt, iterations and size of the output; `none` is
  -- a return value other than 1.
  pub pbkdf2 : Str → List ℕ → ℕ → ℕ → Option (List ℕ)
  pub pbkdf2_size :
      (password : Str) (salt : List ℕ) (iterations size : ℕ) (out : List ℕ)
      → pbkdf2 password salt iterations size ≡ some out
      → length out ≡ size
  pub pbkdf2_bytes :
      (password : Str) (salt : List ℕ) (iterations size : ℕ) (out : List ℕ)
      → pbkdf2 password salt iterations size ≡ some out
      → All IsByte out
  -- `HMAC` with SHA-256: secret and text.
  pub hmac : Str → Str → List ℕ
  pub hmac_bytes : (secret text : Str) → All IsByte (hmac secret text)
