-- ===== src/Http/Session/Keep.antt =====
-- What a session answers, and what a request's target becomes.
use iot_dashboard_flutter.Common.{
  ℕ, nat_eq, leb, not, Bool, ◌&&◌, ◌||◌, if◌then◌else◌, all_of, is_empty, ◌∷◌, ◌++◌, All, Str, ◌≡◌,
  ◌≢◌, ◌⊎◌, take-append,
}
use iot_dashboard_flutter.Common.Search.{find_byte-append, drop-append-cons}
use iot_dashboard_flutter.Exn.{Exn, returns, throws}
use iot_dashboard_flutter.Http.{HttpResponse}
use iot_dashboard_flutter.Http.Session.{
  BeastRequest, BeastResponse, Beast, path_of, query_of, beast_to_app, is_bodyless, allow_origin,
}

-- A target is cut at its first question mark into the path and the query.
pub beast_to_app-target :
    (b_req : BeastRequest) (path query : Str)
    → All (λ c. c ≢ b'?') path
    → b_req.target ≡ path ++ b'?' ∷ query
    → (beast_to_app b_req).path ≡ path × (beast_to_app b_req).query ≡ query
unfolding beast_to_app path_of query_of
beast_to_app-target b_req path query h e =
    rw (e, find_byte-append b'?' path query h, path_of, query_of)
      (rw (e) (take-append path (b'?' ∷ query), drop-append-cons path b'?' query))

module _ (beast : Beast) where
  -- A header is left out, or short enough.
  unfoldable pub settable : Str × Str → Bool
  settable (key, value) = is_empty key || beast.can_set key value

  -- Boost.Beast takes the response: its status has three digits at most, it has no body where it must not
  -- have one, and its headers can be set.
  unfoldable pub sendable : HttpResponse → Bool
  unfolding settable is_bodyless
  sendable res =
      leb res.status 999
      && all_of settable res.headers
      && not (is_bodyless res.status && not (is_empty res.body))

  -- The status of the answer to what the router gave.
  unfoldable pub status_of : Bool → Exn HttpResponse → ℕ
  unfolding sendable
  status_of enable_cors throws = 500
  status_of enable_cors (returns res) =
      if sendable (allow_origin enable_cors res) then res.status else 500

  -- An answer with this status, in a version of HTTP 1, that keeps the connection or does not.
  pub record Answers (status : ℕ) (keep_alive : Bool) (b_res : BeastResponse) : Type 0 where
    pub same_status : b_res.status ≡ status
    pub http_1 : (b_res.version ≡ 10) ⊎ (b_res.version ≡ 11)
    pub same_keep_alive : b_res.keep_alive ≡ keep_alive
