-- ===== src/Http/Session.antt =====
-- src/network/http/http_session.cpp: one request of a connection. What Boost.Beast read is a
-- `BeastRequest`, what it is given to write a `BeastResponse`.
pub mod Keep
use iot_dashboard_flutter.Common.{
  ℕ, ◌+◌, ◌==◌, nat_eq, str_instance, Bool, true, false, not, ◌&&◌, ◌||◌, leb, length, ◌≤◌,
  if◌then◌else◌, List, [], ◌∷◌, map, take, drop, Option, none, some, Str, str, is_empty, ◌≡◌, ◌⊎◌,
  inl, inr,
}
use iot_dashboard_flutter.Common.Map.{insert}
use iot_dashboard_flutter.Common.Search.{find_byte}
use iot_dashboard_flutter.Exn.{Exn, returns, throws, ◌>>=◌}
use iot_dashboard_flutter.Http.{
  HttpMethod, get, post, put, delete, patch, options, head, unknown, HttpRequest, HttpResponse,
  new_response, tolower, error_response,
}
use iot_dashboard_flutter.Http.Router.{same_method, HttpRouter, dispatch}

-- The verbs that the program tells apart.
pub data Verb : Type 0 where
  get_verb post_verb put_verb delete_verb patch_verb options_verb head_verb other_verb : Verb

pub record BeastRequest : Type 0 where
  pub verb : Verb
  pub target : Str
  pub version : ℕ
  pub fields : List (Str × Str)
  pub body : Str
  pub keep_alive : Bool

pub record BeastResponse : Type 0 where
  pub status : ℕ
  pub version : ℕ
  pub fields : List (Str × Str)
  pub body : Str
  pub keep_alive : Bool

-- What `async_read` completes with.
pub data Read : Type 0 where
  end_of_stream read_error : Read
  message : BeastRequest → Read

-- What the session does next.
pub data Next : Type 0 where
  shut_down stop_reading read_again : Next

unfoldable pub method_of : Verb → HttpMethod
method_of get_verb = get
method_of post_verb = post
method_of put_verb = put
method_of delete_verb = delete
method_of patch_verb = patch
method_of options_verb = options
method_of head_verb = head
method_of other_verb = unknown

-- The loop over the fields: names in lower case, a later field replaces an earlier one.
unfoldable pub headers_of : List (Str × Str) → List (Str × Str) → List (Str × Str)
headers_of [] headers = headers
headers_of ((name, value) ∷ fields) headers =
    headers_of fields (insert (map tolower name) value headers)

unfoldable pub path_of : Str → Str
path_of target = elim (find_byte b'?' target) [ none ↦ target | some q_pos ↦ take q_pos target ]

unfoldable pub query_of : Str → Str
query_of target = elim (find_byte b'?' target) [ none ↦ [] | some q_pos ↦ drop (q_pos + 1) target ]

unfoldable pub beast_to_app : BeastRequest → HttpRequest
beast_to_app b_req = record {
  method = method_of b_req.verb;
  target = b_req.target;
  path = path_of b_req.target;
  query = query_of b_req.target;
  headers = headers_of b_req.fields [];
  body = b_req.body;
  http_version = b_req.version;
}

-- The statuses of which Boost.Beast lets no response have a body: 1xx, 204 and 304.
unfoldable pub is_bodyless : ℕ → Bool
is_bodyless status = leb 100 status && leb status 199 || status == 204 || status == 304

-- What Boost.Beast does with a response: a status above 999 throws, `set` of a field throws where the name
-- or the value is longer than it allows, and `prepare_payload`, which adds the length, throws where a
-- response that must have no body has one.
pub record Beast : Type 0 where
  pub result : ℕ → Exn ℕ
  pub result-returns : (status : ℕ) → leb status 999 ≡ true → result status ≡ returns status
  pub result-throws : (status : ℕ) → leb status 999 ≡ false → result status ≡ throws
  pub can_set : Str → Str → Bool
  pub can_set_short :
      (key value : Str) → length key ≤ 256 → length value ≤ 256 → can_set key value ≡ true
  pub set : Str → Str → List (Str × Str) → Exn (List (Str × Str))
  pub set-returns :
      (key value : Str) (fields : List (Str × Str))
      → can_set key value ≡ true
      → (more : List (Str × Str)) × (set key value fields ≡ returns more)
  pub set-throws :
      (key value : Str) (fields : List (Str × Str))
      → can_set key value ≡ false
      → set key value fields ≡ throws
  pub prepare_payload : BeastResponse → Exn BeastResponse
  pub prepare-returns :
      (res : BeastResponse)
      → (is_bodyless res.status && not (is_empty res.body)) ≡ false
      → (fields : List (Str × Str)) × (prepare_payload res
          ≡ returns (record res { fields = fields }))
  pub prepare-throws :
      (res : BeastResponse)
      → (is_bodyless res.status && not (is_empty res.body)) ≡ true
      → prepare_payload res ≡ throws

-- 204, with the headers that browsers ask for.
unfoldable pub preflight : HttpResponse
preflight = record {
  status = 204;
  headers = insert (str "access-control-allow-headers") (str "Authorization,Content-Type") (
      insert (str "access-control-allow-methods") (str "GET,POST,PUT,DELETE,PATCH,OPTIONS")
        (insert (str "access-control-allow-origin") (str "*") []));
  body = [];
}

unfoldable pub allow_origin : Bool → HttpResponse → HttpResponse
allow_origin enable_cors app_res =
    if enable_cors
    then record app_res {
      headers = insert (str "access-control-allow-origin") (str "*") app_res.headers;
    }
    else app_res

unfoldable pub internal_error : HttpResponse
internal_error = error_response new_response 500 (str "InternalError") (str "Internal server error")

module _ {S : Type 0} where
  -- The state, and the response that the body of the `try` gives to SendResponse, where the router does
  -- not throw.
  unfoldable pub handle : Bool → HttpRouter S → S → HttpRequest → S × Exn HttpResponse
  unfolding allow_origin preflight
  handle enable_cors router s app_req =
      if enable_cors && same_method app_req.method options then (s, returns preflight) else (
        (dispatch router s app_req new_response).0,
        (dispatch router s app_req new_response).1 >>= λ app_res.
            returns (allow_origin enable_cors app_res),
      )

module _ (beast : Beast) where
  -- The loop over the headers, without those with an empty name.
  unfoldable pub set_fields : List (Str × Str) → List (Str × Str) → Exn (List (Str × Str))
  set_fields [] fields = returns fields
  set_fields ((key, value) ∷ headers) fields =
      let skipped = set_fields headers fields in
      if not (is_empty key)
      then (beast.set key value fields >>= λ more. set_fields headers more)
      else skipped

  unfoldable pub app_to_beast : HttpResponse → ℕ → Bool → Exn BeastResponse
  unfolding set_fields
  app_to_beast app_res http_version keep_alive = beast.result app_res.status >>= λ status.
      set_fields app_res.headers [] >>= λ fields. beast.prepare_payload (record {
        status = status;
        version =
            (if not (http_version == 10) && not (http_version == 11) then 11 else http_version);
        fields = fields;
        body = app_res.body;
        keep_alive = keep_alive;
      })

  -- SendResponse: what is written.
  unfoldable pub send_response : HttpResponse → BeastRequest → Exn BeastResponse
  unfolding app_to_beast
  send_response app_res b_req = app_to_beast app_res b_req.version b_req.keep_alive

  -- The `catch` around the router and around SendResponse.
  unfoldable pub catch_all : Exn BeastResponse → BeastRequest → Exn BeastResponse
  unfolding send_response internal_error
  catch_all (returns b_res) b_req = returns b_res
  catch_all throws b_req = send_response internal_error b_req

  module _ {S : Type 0} where
    -- The state, and what is written, or what the session does where nothing is; `throws` is an exception
    -- that leaves OnRead.
    unfoldable pub on_read : Bool → HttpRouter S → S → Read → S × Exn (BeastResponse ⊎ Next)
    unfolding send_response catch_all handle
    on_read enable_cors router s end_of_stream = (s, returns (inr shut_down))
    on_read enable_cors router s read_error = (s, returns (inr stop_reading))
    on_read enable_cors router s (message b_req) =
        let handled = handle enable_cors router s (beast_to_app b_req) in
        (
          handled.0,
          catch_all (handled.1 >>= λ app_res. send_response app_res b_req) b_req >>= λ b_res.
              returns (inl b_res),
        )

-- The completion of the write.
unfoldable pub on_write : Bool → Bool → Next
on_write close failed = if failed then stop_reading else if close then shut_down else read_again
