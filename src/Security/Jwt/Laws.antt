-- ===== src/Security/Jwt/Laws.antt =====
-- Tokens that were generated are read back, and only signed, unexpired tokens are accepted.
use iot_dashboard_flutter.Common.{
  ℕ, ◌+◌, ◌-◌, false, nat_eq, str_instance, ltb, if◌then◌else◌, [], ◌∷◌, ◌++◌, take, drop, some,
  Str, str, str_beq, arith, ◌≡◌, ◌≢◌, refl, sym, subst, All, Bool-cases, inl, inr, Option-cases,
}
use iot_dashboard_flutter.Common.Map.{lookup}
use iot_dashboard_flutter.Common.Search.{find_byte, find_byte_from}
use iot_dashboard_flutter.Errors.{ok, err, token_expired}
use iot_dashboard_flutter.Exn.{returns, >>=-eq-returns}
use iot_dashboard_flutter.Json.{Json, ℤ, pos, value_text, value_integer}
use iot_dashboard_flutter.Security.Crypto.{Crypto}
use iot_dashboard_flutter.Security.Access.{Role, admin, operator, viewer, UserClaims}
use iot_dashboard_flutter.Security.Base64.{base64_url_encode, base64_url_decode}
use iot_dashboard_flutter.Security.Base64.Roundtrip.{base64_url_decode-encode}
use iot_dashboard_flutter.Security.Jwt.{
  role_to_string, role_from_string, has_expired, signatures_differ, sign, header, payload, signed,
  generate, read_claims, check_payload, check_signature, verify,
}
use iot_dashboard_flutter.Security.Jwt.Split.{
  signatures_differ_self, signatures_differ_sound, no_dot, token-IsSplit, IsCut, token-IsCut,
}

role_from_string-to_string : (role : Role) → role_from_string (role_to_string role) ≡ role
unfolding role_from_string role_to_string str str_beq
role_from_string-to_string admin = refl
role_from_string-to_string operator = refl
role_from_string-to_string viewer = refl

module _ (crypto : Crypto) (json : Json) where
  open json use {Value, IsWritable, parse, dump, object, text, integer}

  -- Each entry of a payload, read back.
  payload_text :
      (claims : UserClaims) (iat exp : ℕ)
      → (value_text json (payload crypto json claims iat exp) (str "sub") []
          ≡ returns claims.user_id)
        × (value_text json (payload crypto json claims iat exp) (str "username") []
            ≡ returns claims.username)
        × (value_text json (payload crypto json claims iat exp) (str "role") (str "Viewer")
            ≡ returns (role_to_string claims.role))
        × (value_integer json (payload crypto json claims iat exp) (str "exp") (pos 0)
            ≡ returns (pos exp))
  unfolding payload value_text value_integer lookup str str_beq
  payload_text claims iat exp = (
    rw (json.find-object, json.get_text-text),
    rw (json.find-object, json.get_text-text),
    rw (json.find-object, json.get_text-text),
    rw (json.find-object, json.get_integer-integer),
  )

  read_claims-payload :
      (claims : UserClaims) (iat exp : ℕ)
      → read_claims crypto json (payload crypto json claims iat exp) ≡ returns (ok claims)
  unfolding read_claims
  read_claims-payload claims iat exp =
      let (sub, name, role, _) = payload_text claims iat exp in
      rw (sub, name, role, role_from_string-to_string claims.role)

  check_payload-dump :
      (claims : UserClaims) (iat exp now : ℕ)
      → IsWritable (payload crypto json claims iat exp)
      → check_payload crypto json now (dump (payload crypto json claims iat exp))
        ≡ returns (if ltb exp now then err token_expired else ok claims)
  unfolding check_payload has_expired
  check_payload-dump claims iat exp now w =
      let (_, _, _, stamp) = payload_text claims iat exp in
      elim (Bool-cases (ltb exp now)) [
        | inl e ↦ rw (json.parse-dump _ w, check_payload) (rw (stamp, e))
        | inr e ↦
            rw (json.parse-dump _ w, check_payload)
              (rw (stamp, e) (read_claims-payload claims iat exp))
      ]

  -- A generated token is verified with the same secret as long as the clock has not passed its
  -- expiry, and gives the claims that it was made for; from then on it is reported as expired. The
  -- payload's texts are valid UTF-8.
  pub verify-generate :
      (secret : Str) (now later expiry : ℕ) (claims : UserClaims) (token : Str)
      → IsWritable (payload crypto json claims now (now + expiry))
      → generate crypto json secret now claims expiry ≡ ok token
      → verify crypto json secret later token
        ≡ returns (if ltb (now + expiry) later then err token_expired else ok claims)
  unfolding verify generate signed
  verify-generate secret now later expiry claims token w made =
      let body = payload crypto json claims now (now + expiry) in
      let h : Str = base64_url_encode (dump (header crypto json)) in
      let p : Str = base64_url_encode (dump body) in
      let s : Str = base64_url_encode (sign crypto json secret (h ++ b'.' ∷ p)) in
      let same : (h ++ b'.' ∷ p) ++ b'.' ∷ s ≡ token = cc in
      let parts = token-IsSplit h p s (no_dot _) (no_dot _) in
      subst
        (λ t.
          verify crypto json secret later t
          ≡ returns (if ltb (now + expiry) later then err token_expired else ok claims))
        same
        (rw (parts.first_dot, verify)
          (rw (parts.second_dot) (
            unfold check_signature in
            rw
              (
                parts.input,
                parts.signature,
                signatures_differ_self s,
                parts.middle,
                (base64_url_decode-encode (dump body) (json.dump_bytes body)).0,
              )
              (check_payload-dump claims now (now + expiry) later w))))

  -- What it takes for a token to be accepted: three parts between its first two dots, the last of them
  -- the signature of the first two, and the second an encoding of the content.
  pub record IsAuthentic (secret : Str) (now : ℕ) (token : Str) (claims : UserClaims) : Type 0 where
    pub head : Str
    pub encoded : Str
    pub head_ends : All (λ c. c ≢ b'.') head
    pub encoded_ends : All (λ c. c ≢ b'.') encoded
    pub is_signed :
        token
        ≡ (head ++ b'.' ∷ encoded)
          ++ b'.' ∷ base64_url_encode (crypto.hmac secret (head ++ b'.' ∷ encoded))
    pub content : Value
    pub parsed : parse (base64_url_decode encoded) ≡ some content
    pub exp : ℤ
    pub stamped : value_integer json content (str "exp") (pos 0) ≡ returns exp
    pub fresh : has_expired now exp ≡ false
    pub claimed : read_claims crypto json content ≡ returns (ok claims)

  check_payload-ok :
      (now : ℕ) (body : Str) (claims : UserClaims)
      → check_payload crypto json now body ≡ returns (ok claims)
      → (content : Value) × (exp : ℤ) × (parse body ≡ some content)
        × (value_integer json content (str "exp") (pos 0) ≡ returns exp)
        × (has_expired now exp ≡ false)
        × (read_claims crypto json content ≡ returns (ok claims))
  unfolding check_payload
  check_payload-ok now body claims h = elim (Option-cases (parse body)) [
    | inl bad ↦ absurd (ground arith)
    | inr (content, parsed) ↦
        let (exp, stamped, rest) =
          >>=-eq-returns (value_integer json content (str "exp") (pos 0))
            (λ exp.
              if has_expired now exp
              then returns (err token_expired)
              else read_claims crypto json content)
            (rw (parsed, check_payload) at h) in
        (content, exp, parsed, stamped, ground arith, ground arith)
  ]

  check_signature-ok :
      (secret : Str) (now : ℕ) (token : Str) (d1 d2 : ℕ) (claims : UserClaims)
      → check_signature crypto json secret now token d1 d2 ≡ returns (ok claims)
      → IsCut d1 d2 token
      → IsAuthentic secret now token claims
  unfolding check_signature sign
  check_signature-ok secret now token d1 d2 claims h cut =
      let expected : Str = base64_url_encode (crypto.hmac secret (take d2 token)) in
      elim (Bool-cases (signatures_differ expected (drop (d2 + 1) token))) [
        | inl e ↦ absurd (ground arith)
        | inr e ↦
            let same = signatures_differ_sound expected (drop (d2 + 1) token) e in
            let whole : token ≡ take d2 token ++ b'.' ∷ expected = cc (same, cut.whole) in
            let (content, exp, parsed, stamped, fresh, claimed) =
              check_payload-ok now _ claims (ground arith) in
            record {
              head = take d1 token;
              head_ends = cut.first_ends;
              encoded_ends = cut.second_ends;
              is_signed =
                  subst
                    (λ input. token ≡ input ++ b'.' ∷ base64_url_encode (crypto.hmac secret input))
                    (sym cut.input) whole;
              encoded = take (d2 - d1 - 1) (drop (d1 + 1) token);
              content = content;
              parsed = parsed;
              exp = exp;
              stamped = stamped;
              fresh = fresh;
              claimed = claimed;
            }
      ]

  -- Only authentic tokens are accepted: the token is a header, a payload and a signature between two
  -- dots, the signature is that of the header and the payload under the secret, and the payload
  -- decodes to a content that has not expired and that holds the claims returned.
  pub verify-IsAuthentic :
      (secret : Str) (now : ℕ) (token : Str) (claims : UserClaims)
      → verify crypto json secret now token ≡ returns (ok claims)
      → IsAuthentic secret now token claims
  unfolding verify
  verify-IsAuthentic secret now token claims h = elim (Option-cases (find_byte b'.' token)) [
    | inl missing ↦ absurd (ground arith)
    | inr (d1, first) ↦ elim (Option-cases (find_byte_from b'.' token (d1 + 1))) [
      | inl missing ↦ absurd (ground arith)
      | inr (d2, second) ↦
          check_signature-ok secret now token d1 d2 claims (ground arith)
            (token-IsCut token d1 d2 first second)
    ]
  ]
