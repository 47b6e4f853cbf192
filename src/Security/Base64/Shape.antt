-- ===== src/Security/Base64/Shape.antt =====
-- The characters of an encoding, and the encoding with its padding taken off.
use iot_dashboard_flutter.Common.{
  ℕ, zero, suc, ◌+◌, ◌*◌, ◌%◌, ◌^◌, ◌<◌, ◌≡◌, refl, Bool, true, false, nat_eq, arith, Str, List,
  ◌∷◌, [], ◌++◌, map, All, ◌&&◌, eq_other,
}
use iot_dashboard_flutter.Security.Base64.{
  symbol, sextet, b64_encode, to_url, from_url, strip_padding, base64_url_encode, pad_rounds,
}
use iot_dashboard_flutter.Security.Base64.Alphabet.{symbol-IsSymbol}

-- An encoding without its padding.
pub unpadded : List ℕ → Str
unpadded [] = []
unpadded (a ∷ []) = let val = a * 2 ^ 16 in symbol (sextet val 18) ∷ symbol (sextet val 12) ∷ []
unpadded (a ∷ b ∷ []) =
    let val = a * 2 ^ 16 + b * 2 ^ 8 in
    symbol (sextet val 18) ∷ symbol (sextet val 12) ∷ symbol (sextet val 6) ∷ []
unpadded (a ∷ b ∷ c ∷ rest) =
    let val = a * 2 ^ 16 + b * 2 ^ 8 + c in
    symbol (sextet val 18)
    ∷ symbol (sextet val 12)
    ∷ symbol (sextet val 6)
    ∷ symbol (val % 64)
    ∷ unpadded rest

-- What holds of every symbol and of `=` holds of every character of an encoding.
module _ (P : ℕ → Type 0) (symbols : (i : ℕ) → i < 64 → P (symbol i)) where
  pub b64_encode-All : P b'=' → (xs : List ℕ) → All P (b64_encode xs)
  unfolding b64_encode
  b64_encode-All pad [] = tt
  b64_encode-All pad (a ∷ []) =
      (symbols _ (omega arith), (symbols _ (omega arith), (pad, (pad, tt))))
  b64_encode-All pad (a ∷ b ∷ []) =
      (symbols _ (omega arith), (symbols _ (omega arith), (symbols _ (omega arith), (pad, tt))))
  b64_encode-All pad (a ∷ b ∷ c ∷ rest) = (
    symbols _ (omega arith),
    (
      symbols _ (omega arith),
      (symbols _ (omega arith), (symbols _ (omega arith), b64_encode-All pad rest)),
    ),
  )

  pub unpadded-All : (xs : List ℕ) → All P (unpadded xs)
  unfolding unpadded
  unpadded-All [] = tt
  unpadded-All (a ∷ []) = (symbols _ (omega arith), (symbols _ (omega arith), tt))
  unpadded-All (a ∷ b ∷ []) =
      (symbols _ (omega arith), (symbols _ (omega arith), (symbols _ (omega arith), tt)))
  unpadded-All (a ∷ b ∷ c ∷ rest) = (
    symbols _ (omega arith),
    (
      symbols _ (omega arith),
      (symbols _ (omega arith), (symbols _ (omega arith), unpadded-All rest)),
    ),
  )

and_false : (b : Bool) → (b && false) ≡ false
and_false true = refl
and_false false = refl

strip_padding_url :
    (n : ℕ) (s : Str)
    → strip_padding (to_url (symbol (n % 64)) ∷ s) ≡ to_url (symbol (n % 64)) ∷ strip_padding s
unfolding strip_padding
strip_padding_url n s =
    let good = symbol-IsSymbol (n % 64) (omega arith) in
    rw (eq_other (to_url (symbol (n % 64))) b'=' good.not_url_pad, and_false)

strip_padding_rest :
    (strip_padding (to_url b'=' ∷ []) ≡ []) × (strip_padding (to_url b'=' ∷ to_url b'=' ∷ []) ≡ [])
unfolding strip_padding to_url
strip_padding_rest = (refl, refl)

-- Stripping takes off the padding and nothing else.
pub base64_url_encode-unpadded : (xs : List ℕ) → base64_url_encode xs ≡ map to_url (unpadded xs)
unfolding base64_url_encode b64_encode unpadded
base64_url_encode-unpadded [] = unfold strip_padding in refl
base64_url_encode-unpadded (a ∷ []) = simp (strip_padding_url, strip_padding_rest.1)
base64_url_encode-unpadded (a ∷ b ∷ []) = simp (strip_padding_url, strip_padding_rest.0)
base64_url_encode-unpadded (a ∷ b ∷ c ∷ rest) =
    simp (strip_padding_url, base64_url_encode-unpadded rest)

pub from_url-to_url : (xs : List ℕ) → map from_url (map to_url (unpadded xs)) ≡ unpadded xs
from_url-to_url xs = back (unpadded xs) (unpadded-All _ (λ i h. (symbol-IsSymbol i h).url_back) xs)
  where
    back : (s : Str) → All (λ c. from_url (to_url c) ≡ c) s → map from_url (map to_url s) ≡ s
    back [] h = refl
    back (c ∷ s) h = cc (h.0, back s h.1)

pad_rounds_group :
    (rounds c0 c1 c2 c3 : ℕ) (s : Str)
    → pad_rounds rounds (c0 ∷ c1 ∷ c2 ∷ c3 ∷ s) ≡ c0 ∷ c1 ∷ c2 ∷ c3 ∷ pad_rounds rounds s
unfolding pad_rounds
pad_rounds_group zero c0 c1 c2 c3 s = refl
pad_rounds_group (suc rounds) c0 c1 c2 c3 s =
    ground (arith, pad_rounds_group rounds c0 c1 c2 c3 (s ++ b'=' ∷ []))

-- Padding puts back what stripping took off.
pub pad_rounds-unpadded : (xs : List ℕ) → pad_rounds 3 (unpadded xs) ≡ b64_encode xs
unfolding unpadded b64_encode
pad_rounds-unpadded [] = unfold pad_rounds in refl
pad_rounds-unpadded (a ∷ []) = unfold pad_rounds in refl
pad_rounds-unpadded (a ∷ b ∷ []) = unfold pad_rounds in refl
pad_rounds-unpadded (a ∷ b ∷ c ∷ rest) =
    rw (pad_rounds_group 3 _ _ _ _ (unpadded rest), pad_rounds-unpadded rest)
