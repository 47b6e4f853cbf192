-- ===== src/Security/Base64/Alphabet.antt =====
-- The alphabet: each sextet has a symbol, which `dec` reads back, and which is not padding.
use iot_dashboard_flutter.Common.{
  ℕ, zero, suc, ◌<◌, ◌≡◌, ◌≢◌, refl, Bool, true, not, ◌&&◌, ◌||◌, ◌==◌, nat_eq, leb, arith,
}
use iot_dashboard_flutter.Security.Base64.{symbol, dec, to_url, from_url}

-- The test holds of every sextet under the bound.
passes_until : (ℕ → Bool) → ℕ → Bool
passes_until test zero = true
passes_until test (suc bound) = passes_until test bound && test bound

passes_until-lt :
    (test : ℕ → Bool) (bound i : ℕ) → passes_until test bound ≡ true → i < bound → test i ≡ true
unfolding passes_until
passes_until-lt test zero i passed under = absurd (omega arith)
passes_until-lt test (suc bound) i passed under = ground (arith, passes_until-lt test bound i)

-- A letter, a digit, `-` or `_`.
unfoldable pub url_safe : ℕ → Bool
url_safe c =
    leb b'A' c && leb c b'Z'
    || leb b'a' c && leb c b'z'
    || leb b'0' c && leb c b'9'
    || c == b'-'
    || c == b'_'

-- What a symbol is checked for, as one test over all sextets.
good_symbol : ℕ → Bool
good_symbol i =
    let c = symbol i in
    dec c == i
    && from_url (to_url c) == c
    && not (c == b'=')
    && not (to_url c == b'=')
    && not (c == b'$')
    && not (to_url c == b'.')
    && url_safe (to_url c)

good_symbols : passes_until good_symbol 64 ≡ true
unfolding passes_until good_symbol url_safe symbol dec to_url from_url
good_symbols = refl

pub record IsSymbol (i c : ℕ) : Type 0 where
  pub reads_back : dec c ≡ i
  pub url_back : from_url (to_url c) ≡ c
  pub not_pad : c ≢ b'='
  pub not_url_pad : to_url c ≢ b'='
  pub not_dollar : c ≢ b'$'
  pub not_dot : to_url c ≢ b'.'
  pub is_url_safe : url_safe (to_url c) ≡ true

good_symbol_sound : (i : ℕ) → good_symbol i ≡ true → IsSymbol i (symbol i)
unfolding good_symbol
good_symbol_sound i h = record {
  reads_back = ground arith;
  url_back = ground arith;
  not_pad = ground arith;
  not_url_pad = ground arith;
  not_dollar = ground arith;
  not_dot = ground arith;
  is_url_safe = ground arith;
}

pub symbol-IsSymbol : (i : ℕ) → i < 64 → IsSymbol i (symbol i)
symbol-IsSymbol i h = good_symbol_sound i (passes_until-lt good_symbol 64 i good_symbols h)
