-- ===== src/Network/PubSub/Running.antt =====
-- Start and Stop of src/network/websocket/ws_server.cpp. The threads run the `io_context`, which is stopped
-- and never restarted: from then on `run` returns at once and no handler runs.
use iot_dashboard_flutter.Common.{Bool, true, false, not, ◌&&◌, if◌then◌else◌, map, List, []}
use iot_dashboard_flutter.Errors.{Result, ok, err}
use iot_dashboard_flutter.Network.Acceptor.{Acceptor, listen}
use iot_dashboard_flutter.Network.PubSub.{WsServer}

module _ {Session : Type 0} where
  unfoldable pub start : Acceptor → WsServer Session → WsServer Session × Result (Unit {0})
  start acceptor server = elim (listen acceptor) [
    | err e ↦ (server, err e)
    | ok u ↦ (record server { running = true }, ok tt)
  ]

  -- The sessions that are closed are a result; they stay in the map.
  unfoldable pub stop : WsServer Session → WsServer Session × List Session
  stop server = if not server.running then (server, []) else (
    record server { running = false; ioc_stopped = true },
    map (λ entry. entry.1) server.sessions,
  )

  -- Whether connections are served: the server runs, and so do the handlers.
  unfoldable pub serves : WsServer Session → Bool
  serves server = server.running && not server.ioc_stopped
