-- ===== src/Network/Acceptor.antt =====
-- The calls of a Boost.Asio acceptor that src/network/http/http_server.cpp and
-- src/network/websocket/ws_server.cpp make alike when they start.
use iot_dashboard_flutter.Common.{Bool, if◌then◌else◌}
use iot_dashboard_flutter.Errors.{Result, ok, err, network_error}

-- Whether each call reports an error.
pub record Acceptor : Type 0 where
  pub open_error : Bool
  pub bind_error : Bool
  pub listen_error : Bool

unfoldable pub listen : Acceptor → Result (Unit {0})
listen acceptor =
    if acceptor.open_error
    then err network_error
    else if acceptor.bind_error
    then err network_error
    else if acceptor.listen_error
    then err network_error
    else ok tt
