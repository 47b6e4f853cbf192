-- ===== src/Http/Query.antt =====
-- The query of a target, written as `name=value` pairs between `&`.
use iot_dashboard_flutter.Common.{
  false, ◌==◌, str_instance, nat_eq, List, [], ◌∷◌, ◌++◌, is_empty, All, Str, ◌≡◌, ◌≢◌, refl, ◌∙◌,
  eq_other, Bool-cases, inl, inr, take-append, arith,
}
use iot_dashboard_flutter.Common.Map.{lookup}
use iot_dashboard_flutter.Common.Search.{find_byte-append, drop-append-cons}
use iot_dashboard_flutter.Http.Session.{BeastRequest, beast_to_app}
use iot_dashboard_flutter.Http.Session.Keep.{beast_to_app-target}
use iot_dashboard_flutter.Http.{
  HttpRequest, or_empty, push_front, tokens, find_param, get_query_param,
}

-- A parameter that the query can carry as it is.
pub record IsPlain (parameter : Str × Str) : Type 0 where
  pub name_ends : All (λ c. c ≢ b'=') parameter.0
  pub name_whole : All (λ c. c ≢ b'&') parameter.0
  pub value_whole : All (λ c. c ≢ b'&') parameter.1

pub write_parameter : Str × Str → Str
write_parameter (name, value) = name ++ b'=' ∷ value

-- The parameters in order, the first one given apart.
unfoldable pub write_query : Str × Str → List (Str × Str) → Str
unfolding write_parameter
write_query first [] = write_parameter first
write_query first (next ∷ rest) = write_parameter first ++ b'&' ∷ write_query next rest

unfoldable write_all : List (Str × Str) → List Str
unfolding write_parameter
write_all [] = []
write_all (p ∷ rest) = write_parameter p ∷ write_all rest

tokens_whole : (s : Str) → All (λ c. c ≢ b'&') s → tokens s ≡ s ∷ []
unfolding tokens push_front
tokens_whole [] h = refl
tokens_whole (c ∷ s) h = rw (eq_other c b'&' h.0, tokens_whole s h.1)

tokens-append : (s rest : Str) → All (λ c. c ≢ b'&') s → tokens (s ++ b'&' ∷ rest) ≡ s ∷ tokens rest
unfolding tokens push_front
tokens-append [] rest h = refl
tokens-append (c ∷ s) rest h = rw (eq_other c b'&' h.0, tokens-append s rest h.1)

write_parameter_whole : (p : Str × Str) → IsPlain p → All (λ c. c ≢ b'&') (write_parameter p)
unfolding write_parameter
write_parameter_whole (name, value) plain = go name plain.name_whole
  where
    go : (s : Str) → All (λ c. c ≢ b'&') s → All (λ c. c ≢ b'&') (s ++ b'=' ∷ value)
    go [] h = (λ e. omega arith, plain.value_whole)
    go (c ∷ s) h = (h.0, go s h.1)

tokens-write_query :
    (first : Str × Str) (rest : List (Str × Str))
    → All IsPlain (first ∷ rest)
    → tokens (write_query first rest) ≡ write_all (first ∷ rest)
unfolding write_query write_all
tokens-write_query first [] h =
    tokens_whole (write_parameter first) (write_parameter_whole first h.0)
tokens-write_query first (next ∷ rest) h =
    tokens-append (write_parameter first) (write_query next rest) (write_parameter_whole first h.0)
    ∙ rw (tokens-write_query next rest h.1)

find_param-write_all :
    (name : Str) (ps : List (Str × Str))
    → All IsPlain ps
    → find_param name (write_all ps) ≡ or_empty (lookup name ps)
unfolding find_param write_all write_parameter lookup
find_param-write_all name [] h = refl
find_param-write_all name ((key, value) ∷ ps) h =
    rw
      (
        find_byte-append b'=' key value h.0.name_ends,
        take-append key (b'=' ∷ value),
        drop-append-cons key b'=' value,
        find_param-write_all name ps h.1,
        find_param,
      )
      (elim (Bool-cases (key == name)) [ inl same ↦ rw (same) | inr other ↦ rw (other) ])

is_empty-write_query :
    (first : Str × Str) (rest : List (Str × Str)) → is_empty (write_query first rest) ≡ false
unfolding write_query write_parameter
is_empty-write_query ([], value) [] = refl
is_empty-write_query (c ∷ name, value) [] = refl
is_empty-write_query ([], value) (next ∷ rest) = refl
is_empty-write_query (c ∷ name, value) (next ∷ rest) = refl

get_query_param-write_query :
    (req : HttpRequest) (name : Str) (first : Str × Str) (rest : List (Str × Str))
    → All IsPlain (first ∷ rest)
    → req.query ≡ write_query first rest
    → get_query_param req name ≡ or_empty (lookup name (first ∷ rest))
unfolding get_query_param
get_query_param-write_query req name first rest plain written =
    rw (written, is_empty-write_query first rest, tokens-write_query first rest plain)
      (find_param-write_all name (first ∷ rest) plain)

-- A request whose target is a path, a `?` and parameters written as `name=value` between `&` gives
-- a handler, for every name, the value of the first parameter of that name, and the empty text
-- where there is none. The path holds no `?`, names hold neither `=` nor `&`, values hold no `&`;
-- nothing is decoded.
pub get_query_param-beast_to_app :
    (b_req : BeastRequest) (path name : Str) (first : Str × Str) (rest : List (Str × Str))
    → All (λ c. c ≢ b'?') path
    → All IsPlain (first ∷ rest)
    → b_req.target ≡ path ++ b'?' ∷ write_query first rest
    → ((beast_to_app b_req).path ≡ path)
      × (get_query_param (beast_to_app b_req) name ≡ or_empty (lookup name (first ∷ rest)))
get_query_param-beast_to_app b_req path name first rest whole plain written =
    let split = beast_to_app-target b_req path (write_query first rest) whole written in
    (split.0, get_query_param-write_query (beast_to_app b_req) name first rest plain split.1)
