-- ===== src/Security/Jwt/Split.antt =====
-- Signatures compared and tokens split: what `Verify` reads from a text with two dots.
use iot_dashboard_flutter.Common.{
  ℕ, zero, suc, ◌+◌, ◌-◌, false, ◌==◌, nat_eq, str_instance, List, [], ◌∷◌, ◌++◌, length, take,
  drop, none, some, Str, arith, ◌≡◌, ◌≢◌, refl, ap, sym, ◌∙◌, eq_self, nat_beq_iff, str_beq_iff,
  length-append, take-append, All, map, Bool-cases, inl, inr, Option-cases,
}
use Prim.Native.Nat.{min}
use mathlib.Core.List.{append_assoc}
use iot_dashboard_flutter.Common.Search.{
  find_byte, find_byte_from, find_byte-append, drop-append-cons,
}
use iot_dashboard_flutter.Security.Base64.{base64_url_encode, to_url}
use iot_dashboard_flutter.Security.Base64.Alphabet.{symbol-IsSymbol}
use iot_dashboard_flutter.Security.Base64.Shape.{unpadded, unpadded-All, base64_url_encode-unpadded}
use iot_dashboard_flutter.Security.Jwt.{signatures_differ}

take-length : (s : Str) → take (length s) s ≡ s
take-length [] = refl
take-length (c ∷ s) = ap (◌∷◌ c) (take-length s)

pub signatures_differ_self : (s : Str) → signatures_differ s s ≡ false
unfolding signatures_differ
signatures_differ_self s = rw (eq_self (take (min (length s) (length s)) s), eq_self (length s))

pub signatures_differ_sound :
    (expected given : Str) → signatures_differ expected given ≡ false → expected ≡ given
unfolding signatures_differ
signatures_differ_sound expected given h =
    let size : ℕ = min (length expected) (length given) in
    let same_size : length expected ≡ length given =
      ground (arith, nat_beq_iff (length expected) (length given)) in
    let same_front : take size expected ≡ take size given =
      ground (arith, str_beq_iff (take size expected) (take size given)) in
    let size_left : size ≡ length expected = omega arith in
    let size_right : size ≡ length given = omega arith in
    let left : take size expected ≡ expected = rw size_left (take-length expected) in
    let right : take size given ≡ given = rw size_right (take-length given) in
    cc (same_front, left, right)

-- No dot in an encoding.
pub no_dot : (xs : List ℕ) → All (λ c. c ≢ b'.') (base64_url_encode xs)
no_dot xs =
    rw (base64_url_encode-unpadded xs)
      (over_map (unpadded xs) (unpadded-All _ (λ i h. (symbol-IsSymbol i h).not_dot) xs))
  where
    over_map : (s : Str) → All (λ c. to_url c ≢ b'.') s → All (λ c. c ≢ b'.') (map to_url s)
    over_map [] h = tt
    over_map (c ∷ s) h = (h.0, over_map s h.1)

find_byte_split_suc :
    (c : ℕ) (s : Str) (i : ℕ) → find_byte c s ≡ some i → take i s ++ c ∷ drop (suc i) s ≡ s
unfolding find_byte
find_byte_split_suc c [] i h = cc
find_byte_split_suc c (a ∷ s) i h = elim (Bool-cases (a == c)) [
  | inl e ↦
      let at_front : some 0 ≡ some i = rw (e, find_byte) at h in
      let index : i ≡ 0 = cc in rw (index, (nat_beq_iff a c).0 e)
  | inr e ↦ elim (Option-cases (find_byte c s)) [
    | inl missing ↦ let bad : none ≡ some i = rw (e, missing, find_byte) at h in cc
    | inr (j, found) ↦
        let behind : some (suc j) ≡ some i = rw (e, found, find_byte) at h in
        let index : i ≡ suc j = cc in rw index (ap (◌∷◌ a) (find_byte_split_suc c s j found))
  ]
]

-- A text is what stands before the byte that was found, the byte, and what stands behind it.
find_byte_split :
    (c : ℕ) (s : Str) (i : ℕ) → find_byte c s ≡ some i → take i s ++ c ∷ drop (i + 1) s ≡ s
find_byte_split c s i h =
    let next : i + 1 ≡ suc i = omega arith in rw next (find_byte_split_suc c s i h)

take_nil : (n : ℕ) → take {A = ℕ} n [] ≡ []
take_nil zero = refl
take_nil (suc n) = refl

drop_nil : (n : ℕ) → drop {A = ℕ} n [] ≡ []
drop_nil zero = refl
drop_nil (suc n) = refl

take-append-drop : (n : ℕ) (s : Str) → take n s ++ drop n s ≡ s
take-append-drop zero s = refl
take-append-drop (suc n) [] = refl
take-append-drop (suc n) (a ∷ s) = ap (◌∷◌ a) (take-append-drop n s)

take_past : (n i : ℕ) (s : Str) → take (n + i) s ≡ take n s ++ take i (drop n s)
take_past zero i s = ap (λ k. take k s) (omega arith)
take_past (suc n) i [] = rw (take_nil (suc n + i), take_nil i)
take_past (suc n) i (a ∷ s) =
    let next : suc n + i ≡ suc (n + i) = omega arith in rw next (ap (◌∷◌ a) (take_past n i s))

drop_past : (n i : ℕ) (s : Str) → drop (n + i) s ≡ drop i (drop n s)
drop_past zero i s = ap (λ k. drop k s) (omega arith)
drop_past (suc n) i [] = rw (drop_nil (suc n + i), drop_nil i)
drop_past (suc n) i (a ∷ s) =
    let next : suc n + i ≡ suc (n + i) = omega arith in rw next (drop_past n i s)

-- The same for a search that starts further on.
find_byte_from_split :
    (c : ℕ) (s : Str) (from i : ℕ)
    → find_byte_from c s from ≡ some i
    → take i s ++ c ∷ drop (i + 1) s ≡ s
unfolding find_byte_from
find_byte_from_split c s from i h = elim (Option-cases (find_byte c (drop from s))) [
  | inl missing ↦ let bad : none ≡ some i = rw (missing, find_byte_from) at h in cc
  | inr (j, found) ↦
      let at : some (from + j) ≡ some i = rw (found, find_byte_from) at h in
      let index : i ≡ from + j = cc in
      let next : from + j + 1 ≡ from + (j + 1) = omega arith in
      rw
        (
          index,
          next,
          take_past from j s,
          drop_past from (j + 1) s,
          append_assoc,
          find_byte_split c (drop from s) j found,
        )
        (take-append-drop from s)
]

-- What the positions of the two dots mean for a token of three parts.
pub record IsSplit (h p s token : Str) : Type 0 where
  pub first_dot : find_byte b'.' token ≡ some (length h)
  pub second_dot : find_byte_from b'.' token (length h + 1) ≡ some (length (h ++ b'.' ∷ p))
  pub input : take (length (h ++ b'.' ∷ p)) token ≡ h ++ b'.' ∷ p
  pub signature : drop (length (h ++ b'.' ∷ p) + 1) token ≡ s
  pub middle : take (length (h ++ b'.' ∷ p) - length h - 1) (drop (length h + 1) token) ≡ p

pub token-IsSplit :
    (h p s : Str)
    → All (λ c. c ≢ b'.') h
    → All (λ c. c ≢ b'.') p
    → IsSplit h p s ((h ++ b'.' ∷ p) ++ b'.' ∷ s)
token-IsSplit h p s dots_h dots_p =
    let regrouped : (h ++ b'.' ∷ p) ++ b'.' ∷ s ≡ h ++ b'.' ∷ (p ++ b'.' ∷ s) =
      append_assoc h (b'.' ∷ p) (b'.' ∷ s) in
    let behind : drop (length h + 1) ((h ++ b'.' ∷ p) ++ b'.' ∷ s) ≡ p ++ b'.' ∷ s =
      rw regrouped (drop-append-cons h b'.' (p ++ b'.' ∷ s)) in
    let size : length (h ++ b'.' ∷ p) ≡ length h + 1 + length p =
      omega (arith, length-append h (b'.' ∷ p)) in
    let rest_size : length (h ++ b'.' ∷ p) - length h - 1 ≡ length p = omega arith in
    record {
      first_dot = rw regrouped (find_byte-append b'.' h (p ++ b'.' ∷ s) dots_h);
      second_dot = unfold find_byte_from in rw (behind, find_byte-append b'.' p s dots_p, size);
      input = take-append (h ++ b'.' ∷ p) (b'.' ∷ s);
      signature = drop-append-cons (h ++ b'.' ∷ p) b'.' s;
      middle = rw (behind, rest_size) (take-append p (b'.' ∷ s));
    }

find_byte_front : (c : ℕ) (s : Str) (i : ℕ) → find_byte c s ≡ some i → All (λ a. a ≢ c) (take i s)
unfolding find_byte
find_byte_front c [] i h = cc
find_byte_front c (a ∷ s) i h = elim (Bool-cases (a == c)) [
  | inl e ↦
      let at_front : some 0 ≡ some i = rw (e, find_byte) at h in
      let index : i ≡ 0 = cc in rw index tt
  | inr e ↦ elim (Option-cases (find_byte c s)) [
    | inl missing ↦ let bad : none ≡ some i = rw (e, missing, find_byte) at h in cc
    | inr (j, found) ↦
        let behind : some (suc j) ≡ some i = rw (e, found, find_byte) at h in
        let index : i ≡ suc j = cc in
        rw index (λ same. ground (arith, nat_beq_iff a c), find_byte_front c s j found)
  ]
]

-- What the positions of the first two dots of a token mean.
pub record IsCut (d1 d2 : ℕ) (token : Str) : Type 0 where
  pub first_ends : All (λ c. c ≢ b'.') (take d1 token)
  pub second_ends : All (λ c. c ≢ b'.') (take (d2 - d1 - 1) (drop (d1 + 1) token))
  pub input : take d1 token ++ b'.' ∷ take (d2 - d1 - 1) (drop (d1 + 1) token) ≡ take d2 token
  pub whole : take d2 token ++ b'.' ∷ drop (d2 + 1) token ≡ token

find_byte_from-some :
    (c : ℕ) (s : Str) (from i : ℕ)
    → find_byte_from c s from ≡ some i
    → (j : ℕ) × (find_byte c (drop from s) ≡ some j) × (i ≡ from + j)
unfolding find_byte_from
find_byte_from-some c s from i h = elim (Option-cases (find_byte c (drop from s))) [
  | inl missing ↦ let bad : none ≡ some i = rw (missing, find_byte_from) at h in cc
  | inr (j, found) ↦
      let at : some (from + j) ≡ some i = rw (found, find_byte_from) at h in (j, found, cc)
]

find_byte-take :
    (c : ℕ) (s : Str) (i : ℕ) → find_byte c s ≡ some i → take (i + 1) s ≡ take i s ++ c ∷ []
unfolding find_byte
find_byte-take c [] i h = cc
find_byte-take c (a ∷ s) i h = elim (Bool-cases (a == c)) [
  | inl e ↦
      let at_front : some 0 ≡ some i = rw (e, find_byte) at h in
      let index : i ≡ 0 = cc in rw (index, (nat_beq_iff a c).0 e)
  | inr e ↦ elim (Option-cases (find_byte c s)) [
    | inl missing ↦ let bad : none ≡ some i = rw (e, missing, find_byte) at h in cc
    | inr (j, found) ↦
        let behind : some (suc j) ≡ some i = rw (e, found, find_byte) at h in
        let index : i ≡ suc j = cc in
        let next : suc j + 1 ≡ suc (j + 1) = omega arith in
        rw (index, next) (ap (◌∷◌ a) (find_byte-take c s j found))
  ]
]

pub token-IsCut :
    (token : Str) (d1 d2 : ℕ)
    → find_byte b'.' token ≡ some d1
    → find_byte_from b'.' token (d1 + 1) ≡ some d2
    → IsCut d1 d2 token
token-IsCut token d1 d2 first second =
    let (j, found, at) = find_byte_from-some b'.' token (d1 + 1) d2 second in
    let size : d2 - d1 - 1 ≡ j = omega arith in
    let behind : Str = drop (d1 + 1) token in
    record {
      first_ends = find_byte_front b'.' token d1 first;
      second_ends = rw size (find_byte_front b'.' (drop (d1 + 1) token) j found);
      input =
          ap (λ n. take d1 token ++ b'.' ∷ take n behind) size
          ∙ sym (append_assoc (take d1 token) (b'.' ∷ []) (take j behind))
          ∙ ap (λ front. front ++ take j behind) (sym (find_byte-take b'.' token d1 first))
          ∙ sym (take_past (d1 + 1) j token)
          ∙ ap (λ n. take n token) (sym at);
      whole = find_byte_from_split b'.' token (d1 + 1) d2 second;
    }
