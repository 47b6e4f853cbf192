-- ===== src/Security/Auth/Users.antt =====
-- Registration and login: who gets in, with which claims.
use iot_dashboard_flutter.Common.{
  ℕ, ◌^◌, ◌<◌, ◌≡◌, ◌≢◌, refl, true, ◌==◌, str_instance, if◌then◌else◌, List, Option, some, Str,
  arith, Bool-cases, inl, inr, length, All,
}
use iot_dashboard_flutter.Common.Map.{lookup, insert, contains, lookup-insert, lookup-insert_self}
use iot_dashboard_flutter.Errors.{Result-cases, ok, err, authentication_failed}
use iot_dashboard_flutter.Json.{Json}
use iot_dashboard_flutter.Security.Crypto.{Crypto}
use iot_dashboard_flutter.Security.Base64.Roundtrip.{IsByte}
use iot_dashboard_flutter.Security.Password.{hash, verify, k_salt_bytes, k_hash_bytes}
use iot_dashboard_flutter.Security.Password.Laws.{verify-hash}
use iot_dashboard_flutter.Security.Access.{Role, TokenPair}
use iot_dashboard_flutter.Security.Jwt.{generate}
use iot_dashboard_flutter.Security.Auth.{
  AuthenticationService, UserRecord, hasher_of, register_user, login_as, login,
}

module _ (crypto : Crypto) (json : Json) where
  abbrev new_user : Str → Str → Str → Role → UserRecord
  new_user user_id username stored role = record {
    user_id = user_id;
    username = username;
    password_hash = stored;
    role = role;
  }

  register_user-eq-ok :
      (s : AuthenticationService) (salt : Option (List ℕ)) (user_id username password : Str)
      (role : Role)
      → (register_user crypto json s salt user_id username password role).1 ≡ ok tt
      → (stored : Str) × (hash crypto (hasher_of s) salt password ≡ ok stored)
        × ((register_user crypto json s salt user_id username password role).0
            ≡ record s { users = insert username (new_user user_id username stored role) s.users })
  unfolding register_user
  register_user-eq-ok s salt user_id username password role h =
      elim (Result-cases (hash crypto (hasher_of s) salt password)) [
        | inl (e, failed) ↦ absurd (ground arith)
        | inr (stored, made) ↦ (stored, made, ground arith)
      ]

  login_as-ok :
      (s : AuthenticationService) (now now' : ℕ) (user : UserRecord)
      → (pair : TokenPair) × (login_as crypto json s now now' user ≡ ok pair)
  unfolding login_as generate
  login_as-ok s now now' user = (_, refl)

  -- After a registration the user can log in with the password that was registered, and every other
  -- name is looked up as before. The salt is 16 random bytes and the iterations fit 32 bits.
  pub login-register_user :
      (s : AuthenticationService) (salt : List ℕ) (user_id username password other : Str)
      (role : Role) (now now' : ℕ)
      → s.pbkdf2_iterations < 2 ^ 32
      → All IsByte salt
      → length salt ≡ k_salt_bytes
      → (register_user crypto json s (some salt) user_id username password role).1 ≡ ok tt
      → let t = (register_user crypto json s (some salt) user_id username password role).0 in
        ((pair : TokenPair) × (login crypto json t now now' username password ≡ ok pair))
        × (lookup other t.users
            ≡ (if username == other then lookup username t.users else lookup other s.users))
  unfolding login
  login-register_user s salt user_id username password other role now now' hi hs size h =
      let (stored, made, after) =
        register_user-eq-ok s (some salt) user_id username password role h in
      let user = new_user user_id username stored role in
      let users = insert username user s.users in
      let found : lookup username users ≡ some user = lookup-insert_self username user s.users in
      let (accepts, _) =
        verify-hash crypto (hasher_of s) salt password password stored hi hs size made in
      let (pair, issued) = login_as-ok (record s { users = users }) now now' user in
      rw after
        ((pair, ground arith), ground (arith, lookup-insert username other user s.users, found))

  -- A candidate that derives another key than the registered password is refused with
  -- `AuthenticationFailed`.
  pub login-register_user_other :
      (s : AuthenticationService) (salt : List ℕ) (user_id username password candidate : Str)
      (role : Role) (now now' : ℕ)
      → s.pbkdf2_iterations < 2 ^ 32
      → All IsByte salt
      → length salt ≡ k_salt_bytes
      → (register_user crypto json s (some salt) user_id username password role).1 ≡ ok tt
      → crypto.pbkdf2 candidate salt s.pbkdf2_iterations k_hash_bytes
        ≢ crypto.pbkdf2 password salt s.pbkdf2_iterations k_hash_bytes
      → login crypto json
          (register_user crypto json s (some salt) user_id username password role).0
          now
          now'
          username
          candidate
        ≡ err authentication_failed
  unfolding login
  login-register_user_other s salt user_id username password candidate role now now' hi hs size h
        ne =
      let (stored, made, after) =
        register_user-eq-ok s (some salt) user_id username password role h in
      let user = new_user user_id username stored role in
      let users = insert username user s.users in
      let found : lookup username users ≡ some user = lookup-insert_self username user s.users in
      let (_, accepts) =
        verify-hash crypto (hasher_of s) salt password candidate stored hi hs size made in
      rw after (elim (Bool-cases (verify crypto candidate stored)) [
        | inl yes_it_does ↦ absurd (ne (accepts.0 yes_it_does))
        | inr refused ↦ ground arith
      ])

  -- A registration under a name that is taken fails and changes nothing.
  pub register_user_taken :
      (s : AuthenticationService) (salt : Option (List ℕ)) (user_id username password : Str)
      (role : Role)
      → contains username s.users ≡ true
      → (register_user crypto json s salt user_id username password role).0 ≡ s
  unfolding register_user
  register_user_taken s salt user_id username password role h =
      elim (Result-cases (hash crypto (hasher_of s) salt password)) [
        | inl (e, failed) ↦ ground arith
        | inr (stored, made) ↦ ground arith
      ]
