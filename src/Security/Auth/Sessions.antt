-- ===== src/Security/Auth/Sessions.antt =====
-- Tokens over the life of the service: those issued are valid until they expire or are revoked.
use iot_dashboard_flutter.Common.{
  ℕ, ◌+◌, ◌≡◌, ◌≢◌, refl, true, false, str_instance, ltb, if◌then◌else◌, List, [], ◌∷◌, Option,
  some, Str, arith, inl, inr, ◌⊎◌, Option-cases, str_beq_iff, ◌↔◌,
}
use iot_dashboard_flutter.Common.Map.{lookup}
use iot_dashboard_flutter.Common.Sets.{has, add, has-add}
use iot_dashboard_flutter.Errors.{Result-cases, Result, ok, err, Error, token_expired}
use iot_dashboard_flutter.Exn.{Exn, returns, throws}
use iot_dashboard_flutter.Json.{Json}
use iot_dashboard_flutter.Security.Crypto.{Crypto}
use iot_dashboard_flutter.Security.Password
use iot_dashboard_flutter.Security.Password.{hash}
use iot_dashboard_flutter.Security.Access.{Role, UserClaims, TokenPair}
use iot_dashboard_flutter.Security.Jwt.{generate, payload}
use iot_dashboard_flutter.Security.Jwt
use iot_dashboard_flutter.Security.Jwt.Laws.{verify-generate}
use iot_dashboard_flutter.Security.Auth.{
  AuthenticationService, UserRecord, hasher_of, claims_of, register_user, login_as, login,
  refresh_as, refresh_token, logout, validate_token,
}

reply_cases {ℓ} :
    {A : Type ℓ} (r : Exn (Result A))
    → (r ≡ throws) ⊎ ((e : Error) × (r ≡ returns (err e))) ⊎ ((a : A) × (r ≡ returns (ok a)))
reply_cases throws = inl refl
reply_cases (returns (err e)) = inr (inl (e, refl))
reply_cases (returns (ok a)) = inr (inr (a, refl))

module _ (crypto : Crypto) (json : Json) where
  login-eq-ok :
      (s : AuthenticationService) (now now' : ℕ) (username password : Str) (pair : TokenPair)
      → login crypto json s now now' username password ≡ ok pair
      → (user : UserRecord) × (lookup username s.users ≡ some user)
        × (Password.verify crypto password user.password_hash ≡ true)
        × (generate crypto json s.jwt_secret now (claims_of user) s.access_token_expiry
            ≡ ok pair.access_token)
        × (generate crypto json s.jwt_secret now' (claims_of user) s.refresh_token_expiry
            ≡ ok pair.refresh_token)
  unfolding login login_as generate
  login-eq-ok s now now' username password pair h = elim (Option-cases (lookup username s.users)) [
    | inl missing ↦ absurd (ground arith)
    | inr (user, found) ↦ (user, found, ground arith, ground arith, ground arith)
  ]

  -- What a login returns: the account exists and accepts the password, and its access token, unless
  -- revoked, gives the account's claims until the clock passes the expiry. The texts of the account are
  -- valid UTF-8.
  pub validate_token-login :
      (s : AuthenticationService) (now now' later : ℕ) (username password : Str) (pair : TokenPair)
      → ((user : UserRecord)
          → lookup username s.users ≡ some user
          → json.IsWritable
              (payload crypto json (claims_of user) now (now + s.access_token_expiry)))
      → login crypto json s now now' username password ≡ ok pair
      → has pair.access_token s.revoked_tokens ≡ false
      → (user : UserRecord) × (lookup username s.users ≡ some user)
        × (Password.verify crypto password user.password_hash ≡ true)
        × (validate_token crypto json s later pair.access_token
            ≡ returns (
                if ltb (now + s.access_token_expiry) later
                then err token_expired
                else ok (claims_of user)))
  unfolding validate_token
  validate_token-login s now now' later username password pair w h fresh =
      let (user, found, accepted, access, _) = login-eq-ok s now now' username password pair h in
      (
        user,
        found,
        accepted,
        rw (fresh) (
            verify-generate crypto json s.jwt_secret now later s.access_token_expiry
              (claims_of user) pair.access_token (w user found) access),
      )

  -- The calls that change the service.
  pub data Call : Type 0 where
    registers : Option (List ℕ) → Str → Str → Str → Role → Call
    logs_out : Str → Call

  pub after : AuthenticationService → Call → AuthenticationService
  after s (registers salt user_id username password role) =
      (register_user crypto json s salt user_id username password role).0
  after s (logs_out token) = (logout crypto json s token).0

  pub run : AuthenticationService → List Call → AuthenticationService
  unfolding after
  run s [] = s
  run s (c ∷ cs) = run (after s c) cs

  IsRevoked : Str → AuthenticationService → Type 0
  IsRevoked token s = has token s.revoked_tokens ≡ true

  after-IsRevoked :
      (s : AuthenticationService) (c : Call) (token : Str)
      → IsRevoked token s
      → IsRevoked token (after s c)
  unfolding after register_user logout IsRevoked
  after-IsRevoked s (registers salt user_id username password role) token h =
      elim (Result-cases (hash crypto (hasher_of s) salt password)) [
        | inl (e, failed) ↦ ground arith
        | inr (stored, made) ↦ ground arith
      ]
  after-IsRevoked s (logs_out other) token h =
      ground (arith, has-add other token s.revoked_tokens, str_beq_iff other token)

  run-IsRevoked :
      (s : AuthenticationService) (cs : List Call) (token : Str)
      → IsRevoked token s
      → IsRevoked token (run s cs)
  unfolding run
  run-IsRevoked s [] token h = h
  run-IsRevoked s (c ∷ cs) token h =
      run-IsRevoked (after s c) cs token (after-IsRevoked s c token h)

  logs_out-IsRevoked :
      (s : AuthenticationService) (token : Str) → IsRevoked token (after s (logs_out token))
  unfolding after logout IsRevoked
  logs_out-IsRevoked s token =
      ground (arith, has-add token token s.revoked_tokens, str_beq_iff token token)

  -- A token that was logged out is refused for ever: whatever calls follow and whatever the clock
  -- says, validation reports it as expired and no refresh succeeds with it.
  pub logout_for_ever :
      (s : AuthenticationService) (token : Str) (cs : List Call) (now now' : ℕ) (pair : TokenPair)
      → let t = run (after s (logs_out token)) cs in
        (validate_token crypto json t now token ≡ returns (err token_expired))
        × (refresh_token crypto json t now now' token ≢ returns (ok pair))
  unfolding validate_token refresh_token
  logout_for_ever s token cs now now' pair =
      let t = run (after s (logs_out token)) cs in
      let revoked : has token t.revoked_tokens ≡ true =
        unfold IsRevoked in
        run-IsRevoked (after s (logs_out token)) cs token (logs_out-IsRevoked s token) in
      (
        ground arith,
        λ issued. elim (reply_cases (Jwt.verify crypto json t.jwt_secret now token)) [
          | inl thrown ↦ ground arith
          | inr (inl (e, failed)) ↦ ground arith
          | inr (inr (claims, accepted)) ↦ ground arith
        ],
      )

  -- Logging one token out leaves every other token as it was, the refresh token of the same login
  -- included.
  pub logout_other :
      (s : AuthenticationService) (token other : Str) (now now' : ℕ)
      → token ≢ other
      → (validate_token crypto json (logout crypto json s token).0 now other
          ≡ validate_token crypto json s now other)
        × (refresh_token crypto json (logout crypto json s token).0 now now' other
            ≡ refresh_token crypto json s now now' other)
  unfolding validate_token refresh_token logout refresh_as
  logout_other s token other now now' h =
      let same : has other (add token s.revoked_tokens) ≡ has other s.revoked_tokens =
        ground (arith, has-add token other s.revoked_tokens, str_beq_iff token other) in
      (
        rw same,
        elim (reply_cases (Jwt.verify crypto json s.jwt_secret now other)) [
          | inl thrown ↦ ground arith
          | inr (inl (e, failed)) ↦ ground arith
          | inr (inr (claims, accepted)) ↦ ground arith
        ],
      )

  refresh_as-ok :
      (s : AuthenticationService) (now : ℕ) (claims : UserClaims)
      → (pair : TokenPair) × (refresh_as crypto json s now claims ≡ ok pair)
  unfolding refresh_as generate
  refresh_as-ok s now claims = (_, refl)

  -- A refresh succeeds with exactly the tokens that validate: the service does not tell access
  -- tokens from refresh tokens.
  pub refresh_token_iff :
      (s : AuthenticationService) (now now' : ℕ) (token : Str)
      → ((pair : TokenPair) × (refresh_token crypto json s now now' token ≡ returns (ok pair)))
        ↔ ((claims : UserClaims) × (validate_token crypto json s now token ≡ returns (ok claims)))
  unfolding refresh_token validate_token
  refresh_token_iff s now now' token =
      elim (reply_cases (Jwt.verify crypto json s.jwt_secret now token)) [
        | inl thrown ↦
            ((λ (pair, issued). absurd (ground arith)), (λ (claims, valid). absurd (ground arith)))
        | inr (inl (e, failed)) ↦
            ((λ (pair, issued). absurd (ground arith)), (λ (claims, valid). absurd (ground arith)))
        | inr (inr (claims, accepted)) ↦
            let (made, ready) = refresh_as-ok s now' claims in
            ((λ (pair, issued). (claims, ground arith)), (λ (_, valid). (made, ground arith)))
      ]
