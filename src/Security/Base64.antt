-- ===== src/Security/Base64.antt =====
-- The base64 routines of src/security/password_hasher.cpp and src/security/jwt_handler.cpp. The
-- alternatives `|` join disjoint bit fields and are written as sums; `>> k` is `/ 2 ^ k`, `& 0x3F` is
-- `% 64`. The encoders walk the input in groups of three, the decoders in groups of four.
pub mod Alphabet
pub mod Roundtrip
pub mod Shape
use iot_dashboard_flutter.Common.{
  ℕ, zero, suc, ◌+◌, ◌*◌, ◌/◌, ◌%◌, ◌^◌, ◌-◌, ◌<◌, List, [], ◌∷◌, ◌++◌, map, Str, str, Bool, ◌&&◌,
  ◌==◌, nat_eq, get_or, leb, length, is_empty, if◌then◌else◌,
}

abbrev pub k_table : Str
unfolding str
k_table = str "ABCDEFGHIJKLMNOPQRSTUVWXYZabcdefghijklmnopqrstuvwxyz0123456789+/"

-- `kTable[i]`
unfoldable pub symbol : ℕ → ℕ
unfolding str
symbol i = get_or k_table i 0

-- The lambda `dec`, the same in both decoders.
unfoldable pub dec : ℕ → ℕ
dec c =
    if leb b'A' c && leb c b'Z'
    then c - b'A'
    else if leb b'a' c && leb c b'z'
    then c - b'a' + 26
    else if leb b'0' c && leb c b'9'
    then c - b'0' + 52
    else if c == b'+'
    then 62
    else if c == b'/'
    then 63
    else 0

-- The three sextets of a group before the last one, and the last one.
abbrev pub sextet : ℕ → ℕ → ℕ
sextet val k = val / 2 ^ k % 64

unfoldable pub b64_encode : List ℕ → Str
b64_encode [] = []
b64_encode (a ∷ []) =
    let val = a * 2 ^ 16 in symbol (sextet val 18) ∷ symbol (sextet val 12) ∷ b'=' ∷ b'=' ∷ []
b64_encode (a ∷ b ∷ []) =
    let val = a * 2 ^ 16 + b * 2 ^ 8 in
    symbol (sextet val 18) ∷ symbol (sextet val 12) ∷ symbol (sextet val 6) ∷ b'=' ∷ []
b64_encode (a ∷ b ∷ c ∷ rest) =
    let val = a * 2 ^ 16 + b * 2 ^ 8 + c in
    symbol (sextet val 18)
    ∷ symbol (sextet val 12)
    ∷ symbol (sextet val 6)
    ∷ symbol (val % 64)
    ∷ b64_encode rest

-- A byte that is not written for a padding character.
abbrev pub byte_unless_pad : ℕ → ℕ → List ℕ → List ℕ
byte_unless_pad c byte out = if c == b'=' then out else byte ∷ out

unfoldable pub b64_decode : Str → List ℕ
b64_decode (c0 ∷ c1 ∷ c2 ∷ c3 ∷ rest) =
    let out = b64_decode rest in
    let val = dec c0 * 2 ^ 18 + dec c1 * 2 ^ 12 + dec c2 * 2 ^ 6 + dec c3 in
    val / 2 ^ 16 % 256 ∷ byte_unless_pad c2 (val / 2 ^ 8 % 256) (byte_unless_pad c3 (val % 256) out)
b64_decode _ = []

-- `+` becomes `-` and `/` becomes `_`.
unfoldable pub to_url : ℕ → ℕ
to_url c = if c == b'+' then b'-' else if c == b'/' then b'_' else c

unfoldable pub from_url : ℕ → ℕ
from_url c = if c == b'-' then b'+' else if c == b'_' then b'/' else c

-- `while ( !out.empty() && out.back() == '=' ) out.pop_back();`, from the front: a character goes
-- when it is `=` and nothing behind it stays.
unfoldable pub strip_padding : Str → Str
strip_padding [] = []
strip_padding (c ∷ out) =
    let rest = strip_padding out in if is_empty rest && c == b'=' then [] else c ∷ rest

unfoldable pub base64_url_encode : List ℕ → Str
base64_url_encode input = strip_padding (map to_url (b64_encode input))

-- `while ( padded.size() % 4 != 0 ) padded += '=';` on the rounds that may be left: three suffice.
unfoldable pub pad_rounds : ℕ → Str → Str
pad_rounds zero padded = padded
pad_rounds (suc rounds) padded =
    let more = pad_rounds rounds (padded ++ b'=' ∷ []) in
    if length padded % 4 == 0 then padded else more

unfoldable pub base64_url_decode : Str → List ℕ
base64_url_decode s = b64_decode (pad_rounds 3 (map from_url s))
