-- ===== src/Http/Server.antt =====
-- src/network/http/http_server.cpp and .hpp: starting, stopping and accepting. Threads are counted. A
-- thread runs the `io_context`, which is stopped and never restarted: from then on `run` returns at once,
-- and no handler runs, that of an accepted connection included.
use iot_dashboard_flutter.Common.{ℕ, ◌+◌, Bool, true, false, not, ◌&&◌, if◌then◌else◌, Str}
use iot_dashboard_flutter.Errors.{Result, ok, err}
use iot_dashboard_flutter.Http.Router.{HttpRouter}
use iot_dashboard_flutter.Network.Acceptor.{Acceptor, listen}

pub record HttpServerConfig : Type 0 where
  pub host : Str
  pub port : ℕ
  pub thread_count : ℕ
  pub enable_cors : Bool

pub record HttpServer (S : Type 0) : Type 0 where
  pub config : HttpServerConfig
  pub router : HttpRouter S
  pub threads : ℕ
  pub running : Bool
  pub ioc_stopped : Bool

-- What the accept handler does: whether it runs a session, and whether it accepts again.
pub data Accepted : Type 0 where
  ends goes_on runs_session : Accepted

module _ {S : Type 0} where
  unfoldable pub start : Acceptor → HttpServer S → HttpServer S × Result (Unit {0})
  start acceptor server = elim (listen acceptor) [
    | err e ↦ (server, err e)
    | ok u ↦ (
      record server { running = true; threads = server.threads + server.config.thread_count },
      ok tt,
    )
  ]

  unfoldable pub stop : HttpServer S → HttpServer S
  stop server =
      if not server.running
      then server
      else record server { running = false; threads = 0; ioc_stopped = true }

  -- Whether connections are served: the server runs, and so do the handlers.
  unfoldable pub serves : HttpServer S → Bool
  serves server = server.running && not server.ioc_stopped

  unfoldable pub on_accept : Bool → HttpServer S → Accepted
  on_accept error server =
      if not server.running then ends else if error then goes_on else runs_session
