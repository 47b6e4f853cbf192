-- ===== src/Security/Password/Laws.antt =====
-- A hash checks the password that it was made from, and no other but for a collision.
use iot_dashboard_flutter.Common.{
  ℕ, suc, ◌%◌, ◌^◌, ◌<◌, ◌≡◌, ◌≢◌, refl, ◌↔◌, Bool, true, false, ◌==◌, str_instance, arith,
  is_empty, List, [], ◌∷◌, ◌++◌, length, drop, take-append, All, Option, none, some, Str, str,
  str_beq_iff, inl, inr, Option-cases,
}
use iot_dashboard_flutter.Common.Search.{find_byte-append, starts_with-append, drop-append-cons}
use iot_dashboard_flutter.Common.Decimal.{to_string, IsDigit, to_string-All, stoul-to_string}
use iot_dashboard_flutter.Errors.{ok, err, internal_error}
use iot_dashboard_flutter.Security.Crypto.{Crypto}
use iot_dashboard_flutter.Security.Base64.{b64_encode}
use iot_dashboard_flutter.Security.Base64.Alphabet.{symbol-IsSymbol}
use iot_dashboard_flutter.Security.Base64.Shape.{b64_encode-All}
use iot_dashboard_flutter.Security.Base64.Roundtrip.{IsByte, b64_decode-encode}
use iot_dashboard_flutter.Security.Password.{
  PasswordHasher, k_salt_bytes, k_hash_bytes, stored_hash, hash, matches, verify_rest,
  verify_fields, verify,
}

not_dollar : (xs : List ℕ) → All (λ c. c ≢ b'$') (b64_encode xs)
not_dollar xs =
    b64_encode-All (λ c. c ≢ b'$') (λ i h. (symbol-IsSymbol i h).not_dollar) (λ e. omega arith) xs

digits_not_dollar : (s : Str) → All IsDigit s → All (λ c. c ≢ b'$') s
digits_not_dollar [] h = tt
digits_not_dollar (c ∷ s) h = ((λ e. omega arith), digits_not_dollar s h.1)

drop_tag : (s : Str) → drop 15 (str "$pbkdf2-sha256$" ++ s) ≡ s
unfolding str
drop_tag s = refl

module _ (crypto : Crypto) where
  open crypto use {pbkdf2}

  verify_rest_lem :
      (password : Str) (iterations : ℕ) (salt key : List ℕ)
      → All IsByte salt
      → All IsByte key
      → verify_rest crypto password iterations (b64_encode salt ++ b'$' ∷ b64_encode key)
        ≡ matches crypto password salt iterations key
  unfolding verify_rest
  verify_rest_lem password iterations salt key hs hk = rw (
    find_byte-append b'$' (b64_encode salt) (b64_encode key) (not_dollar salt),
    take-append (b64_encode salt) (b'$' ∷ b64_encode key),
    drop-append-cons (b64_encode salt) b'$' (b64_encode key),
    b64_decode-encode salt hs,
    b64_decode-encode key hk,
    verify_rest,
  )

  verify_fields_lem :
      (password : Str) (iterations : ℕ) (rest : Str)
      → iterations < 2 ^ 32
      → verify_fields crypto password (to_string iterations ++ b'$' ∷ rest)
        ≡ verify_rest crypto password iterations rest
  verify_fields_lem password iterations rest h =
      let iters : Str = to_string iterations in
      let same : iterations % 2 ^ 32 ≡ iterations = omega arith in
      unfold verify_fields in
      rw (
        find_byte-append b'$' iters rest (digits_not_dollar iters (to_string-All iterations)),
        take-append iters (b'$' ∷ rest),
        stoul-to_string iterations h,
        same,
        drop-append-cons iters b'$' rest,
        verify_fields,
      )

  verify-stored_hash :
      (password : Str) (iterations : ℕ) (salt key : List ℕ)
      → iterations < 2 ^ 32
      → All IsByte salt
      → All IsByte key
      → verify crypto password (stored_hash iterations salt key)
        ≡ matches crypto password salt iterations key
  unfolding verify stored_hash
  verify-stored_hash password iterations salt key hi hs hk =
      let salted : Str = b64_encode salt ++ b'$' ∷ b64_encode key in
      rw (
        starts_with-append (str "$pbkdf2-sha256$") (to_string iterations ++ b'$' ∷ salted),
        drop_tag (to_string iterations ++ b'$' ∷ salted),
        verify_fields_lem password iterations salted hi,
        verify_rest_lem password iterations salt key hs hk,
      )

  is_empty_of_size : (xs : List ℕ) (n : ℕ) → length xs ≡ suc n → is_empty xs ≡ false
  is_empty_of_size [] n e = absurd (omega arith)
  is_empty_of_size (x ∷ xs) n e = refl

  matches_iff :
      (candidate : Str) (salt : List ℕ) (iterations : ℕ) (key : List ℕ)
      → length salt ≡ k_salt_bytes
      → length key ≡ k_hash_bytes
      → (matches crypto candidate salt iterations key ≡ true)
        ↔ (pbkdf2 candidate salt iterations k_hash_bytes ≡ some key)
  matches_iff candidate salt iterations key hs hk =
      rw (opened, hk) (answer (pbkdf2 candidate salt iterations k_hash_bytes))
    where
      answer :
          (o : Option (List ℕ))
          → (elim o as (λ _. Bool) [ none ↦ false | some computed ↦ computed == key ] ≡ true)
            ↔ (o ≡ some key)
      answer none = ((λ e. cc), (λ e. cc))
      answer (some computed) =
          let (to, from) = str_beq_iff computed key in ((λ e. cc (to e)), (λ e. from (cc)))

      opened :
          matches crypto candidate salt iterations key
          ≡ elim (pbkdf2 candidate salt iterations (length key)) as (λ _. Bool) [
            | none ↦ false
            | some computed ↦ computed == key
          ]
      opened = unfold matches in rw (is_empty_of_size salt 15 hs, is_empty_of_size key 31 hk)

  hash-eq-ok :
      (hasher : PasswordHasher) (salt : List ℕ) (password stored : Str)
      → hash crypto hasher (some salt) password ≡ ok stored
      → (key : List ℕ) × (pbkdf2 password salt hasher.iterations k_hash_bytes ≡ some key)
        × (stored ≡ stored_hash hasher.iterations salt key)
  unfolding hash
  hash-eq-ok hasher salt password stored e =
      elim (Option-cases (pbkdf2 password salt hasher.iterations k_hash_bytes)) [
        | inl failed ↦ let bad : err internal_error ≡ ok stored = rw (failed, hash) at e in cc
        | inr (key, derived) ↦
            let good : ok (stored_hash hasher.iterations salt key) ≡ ok stored =
              rw (derived, hash) at e in
            (key, derived, cc)
      ]

  -- A stored hash accepts a candidate exactly when the candidate derives the same key as the password
  -- that was hashed, with the stored salt and number of iterations; so it accepts that password. The
  -- salt is 16 bytes, and the number of iterations fits 32 bits.
  pub verify-hash :
      (hasher : PasswordHasher) (salt : List ℕ) (password candidate stored : Str)
      → hasher.iterations < 2 ^ 32
      → All IsByte salt
      → length salt ≡ k_salt_bytes
      → hash crypto hasher (some salt) password ≡ ok stored
      → (verify crypto password stored ≡ true)
        × ((verify crypto candidate stored ≡ true) ↔ (
            pbkdf2 candidate salt hasher.iterations k_hash_bytes
            ≡ pbkdf2 password salt hasher.iterations k_hash_bytes))
  verify-hash hasher salt password candidate stored hi hs size e =
      let (key, derived, same) = hash-eq-ok hasher salt password stored e in
      let key_bytes = crypto.pbkdf2_bytes password salt hasher.iterations 32 key derived in
      let key_size = crypto.pbkdf2_size password salt hasher.iterations 32 key derived in
      let checked = λ (p : Str). verify-stored_hash p hasher.iterations salt key hi hs key_bytes in
      let accepts = λ (p : Str). matches_iff p salt hasher.iterations key size key_size in
      rw (same, checked password, checked candidate, derived)
        ((accepts password).1 derived, accepts candidate)
