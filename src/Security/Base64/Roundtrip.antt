-- ===== src/Security/Base64/Roundtrip.antt =====
-- Decoding gives back what was encoded, for both pairs of routines.
use iot_dashboard_flutter.Common.{
  ℕ, ◌+◌, ◌*◌, ◌/◌, ◌%◌, ◌^◌, ◌<◌, ◌≡◌, refl, ap, nat_eq, arith, List, ◌∷◌, [], All, map, Str, true,
  eq_other, ap₂,
}
use iot_dashboard_flutter.Security.Base64.{
  symbol, dec, sextet, b64_encode, b64_decode, base64_url_encode, base64_url_decode,
  byte_unless_pad, to_url,
}
use iot_dashboard_flutter.Security.Base64.Alphabet.{symbol-IsSymbol, url_safe}
use iot_dashboard_flutter.Security.Base64.Shape.{
  unpadded, unpadded-All, base64_url_encode-unpadded, from_url-to_url, pad_rounds-unpadded,
}

abbrev pub IsByte : ℕ → Type 0
IsByte n = n < 256

dec-symbol : (n : ℕ) → dec (symbol (n % 64)) ≡ n % 64
dec-symbol n = (symbol-IsSymbol (n % 64) (omega arith)).reads_back

dec_pad : dec b'=' ≡ 0
unfolding dec
dec_pad = refl

byte_unless_pad-symbol :
    (n byte : ℕ) (out : List ℕ) → byte_unless_pad (symbol (n % 64)) byte out ≡ byte ∷ out
byte_unless_pad-symbol n byte out =
    rw (eq_other (symbol (n % 64)) b'=' (symbol-IsSymbol (n % 64) (omega arith)).not_pad)

-- The four sextets of a 24-bit group make it up again.
regroup :
    (val : ℕ)
    → val < 2 ^ 24
    → sextet val 18 * 2 ^ 18 + sextet val 12 * 2 ^ 12 + sextet val 6 * 2 ^ 6 + val % 64 ≡ val
regroup val h = omega arith

group_bytes :
    (a b c : ℕ)
    → IsByte a
    → IsByte b
    → IsByte c
    → let val : ℕ = a * 2 ^ 16 + b * 2 ^ 8 + c in
      (val / 2 ^ 16 % 256 ≡ a) × (val / 2 ^ 8 % 256 ≡ b) × (val % 256 ≡ c)
group_bytes a b c ha hb hc = (omega arith, omega arith, omega arith)

-- Decoding an encoding gives back the bytes that were encoded.
pub b64_decode-encode : (xs : List ℕ) → All IsByte xs → b64_decode (b64_encode xs) ≡ xs
unfolding b64_decode b64_encode
b64_decode-encode [] h = refl
b64_decode-encode (a ∷ []) h = simp (dec-symbol, dec_pad) (ap (λ n. n ∷ []) (omega arith))
b64_decode-encode (a ∷ b ∷ []) h =
    simp (dec-symbol, dec_pad, byte_unless_pad-symbol)
      (ap₂ (λ m n. m ∷ n ∷ []) (omega arith) (omega arith))
b64_decode-encode (a ∷ b ∷ c ∷ rest) h =
    let val : ℕ = a * 2 ^ 16 + b * 2 ^ 8 + c in
    let bytes = group_bytes a b c h.0 h.1.0 h.1.1.0 in
    simp (dec-symbol, byte_unless_pad-symbol, regroup val (omega arith))
      (cc (bytes.0, bytes.1, bytes.2, b64_decode-encode rest h.1.1.1))

unpadded-url_safe : (xs : List ℕ) → All (λ c. url_safe c ≡ true) (map to_url (unpadded xs))
unpadded-url_safe xs =
    over_map (unpadded xs) (unpadded-All _ (λ i h. (symbol-IsSymbol i h).is_url_safe) xs)
  where
    over_map :
        (s : Str)
        → All (λ c. url_safe (to_url c) ≡ true) s
        → All (λ c. url_safe c ≡ true) (map to_url s)
    over_map [] h = tt
    over_map (c ∷ s) h = (h.0, over_map s h.1)

-- Encoding bytes for a URL writes only letters, digits, `-` and `_`, so no padding, and decoding
-- gives the bytes back.
pub base64_url_decode-encode :
    (xs : List ℕ)
    → All IsByte xs
    → (base64_url_decode (base64_url_encode xs) ≡ xs)
      × All (λ c. url_safe c ≡ true) (base64_url_encode xs)
unfolding base64_url_decode
base64_url_decode-encode xs h = (
  rw (base64_url_encode-unpadded xs, from_url-to_url xs, pad_rounds-unpadded xs)
      (b64_decode-encode xs h),
  rw (base64_url_encode-unpadded xs) (unpadded-url_safe xs),
)
