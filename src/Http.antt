-- ===== src/Http.antt =====
-- src/network/http/http_types.hpp and http_types.cpp: requests and responses.
pub mod Router
pub mod Query
pub mod Session
pub mod Server
use iot_dashboard_flutter.Common.{
  ℕ, zero, suc, ◌+◌, ◌%◌, Bool, true, false, ◌&&◌, ◌==◌, nat_eq, str_instance, leb, if◌then◌else◌,
  List, [], ◌∷◌, ◌++◌, map, take, drop, is_empty, Option, none, some, Str, str,
}
use iot_dashboard_flutter.Common.Map.{lookup, insert}
use iot_dashboard_flutter.Common.Search.{find_byte}

pub data HttpMethod : Type 0 where
  get post put delete patch options head unknown : HttpMethod

unfoldable pub method_from_string : Str → HttpMethod
method_from_string s =
    if s == str "GET"
    then get
    else if s == str "POST"
    then post
    else if s == str "PUT"
    then put
    else if s == str "DELETE"
    then delete
    else if s == str "PATCH"
    then patch
    else if s == str "OPTIONS"
    then options
    else if s == str "HEAD"
    then head
    else unknown

pub record HttpRequest : Type 0 where
  pub method : HttpMethod
  pub target : Str
  pub path : Str
  pub query : Str
  pub headers : List (Str × Str)
  pub body : Str
  pub http_version : ℕ

pub record HttpResponse : Type 0 where
  pub status : ℕ
  pub headers : List (Str × Str)
  pub body : Str

-- `HttpResponse{}`
unfoldable pub new_response : HttpResponse
new_response = record { status = 200; headers = []; body = [] }

-- `::tolower` in the C locale.
unfoldable pub tolower : ℕ → ℕ
tolower c = if leb b'A' c && leb c b'Z' then c + 32 else c

-- A missing header is the empty text.
abbrev pub or_empty : Option Str → Str
or_empty none = []
or_empty (some value) = value

unfoldable pub get_header : HttpRequest → Str → Str
get_header req key = or_empty (lookup (map tolower key) req.headers)

-- The tokens that `std::getline( ss, token, '&' )` reads. An empty token at the end, which `getline`
-- does not give, holds no `=` and is skipped.
push_front : ℕ → List Str → List Str
push_front c [] = (c ∷ []) ∷ []
push_front c (token ∷ tokens) = (c ∷ token) ∷ tokens

unfoldable pub tokens : Str → List Str
unfolding push_front
tokens [] = [] ∷ []
tokens (c ∷ s) = let rest = tokens s in if c == b'&' then [] ∷ rest else push_front c rest

-- The loop over the tokens.
unfoldable pub find_param : Str → List Str → Str
find_param name [] = []
find_param name (token ∷ rest) =
    let later = find_param name rest in
    elim (find_byte b'=' token) [
      | none ↦ later
      | some eq ↦ if take eq token == name then drop (eq + 1) token else later
    ]

unfoldable pub get_query_param : HttpRequest → Str → Str
get_query_param req name = if is_empty req.query then [] else find_param name (tokens req.query)

unfoldable pub json_response : HttpResponse → ℕ → Str → HttpResponse
json_response res status body = record {
  status = status;
  headers = insert (str "content-type") (str "application/json") res.headers;
  body = body;
}

unfoldable pub text_response : HttpResponse → ℕ → Str → HttpResponse
text_response res status body = record {
  status = status;
  headers = insert (str "content-type") (str "text/plain") res.headers;
  body = body;
}

unfoldable pub no_content : HttpResponse → HttpResponse
no_content res = record res { status = 204; body = [] }

-- `{"error":"<code>","message":"<message>"}`, with nothing escaped
unfoldable pub error_body : Str → Str → Str
error_body code message =
    b'{'
    ∷ b'"'
    ∷ (str "error"
        ++ (b'"'
            ∷ b':'
            ∷ b'"'
            ∷ (code
                ++ (b'"'
                    ∷ b','
                    ∷ b'"'
                    ∷ (str "message" ++ (b'"' ∷ b':' ∷ b'"' ∷ (message ++ b'"' ∷ b'}' ∷ [])))))))

unfoldable pub error_response : HttpResponse → ℕ → Str → Str → HttpResponse
unfolding json_response
error_response res status code message = json_response res status (error_body code message)
