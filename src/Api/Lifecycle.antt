-- ===== src/Api/Lifecycle.antt =====
-- src/api/application.cpp: Start, Stop and IsRunning, over the parts that they start and stop.
pub mod Steps
use iot_dashboard_flutter.Common.{Bool, true, false, not, if◌then◌else◌, List, []}
use iot_dashboard_flutter.Errors.{Result, ok, err}
use iot_dashboard_flutter.Devices.Heartbeat
use iot_dashboard_flutter.Devices.Heartbeat.{HeartbeatMonitor}
use iot_dashboard_flutter.Devices.Manager.{DeviceRepository, Mqtt, DeviceManager, subscribe_all}
use iot_dashboard_flutter.Http.Server
use iot_dashboard_flutter.Http.Server.{HttpServer}
use iot_dashboard_flutter.Network.Acceptor.{Acceptor}
use iot_dashboard_flutter.Network.PubSub.{WsServer}
use iot_dashboard_flutter.Network.PubSub.Running

-- Connect and Disconnect of the MQTT client.
pub record Link (M : Type 0) : Type 0 where
  pub connect : M → M × Result (Unit {0})
  pub disconnect : M → M × Result (Unit {0})

pub record Application (R M C D H S Session : Type 0) : Type 0 where
  pub manager : DeviceManager R M C D
  pub monitor : HeartbeatMonitor H
  pub ws_server : WsServer Session
  pub http_server : HttpServer S
  pub running : Bool

module _ {R M C D : Type 0} (store : DeviceRepository R) (client : Mqtt M) (link : Link M) where
  -- The connection is made where it can be; the devices are subscribed to where it was.
  unfoldable pub join : DeviceManager R M C D → DeviceManager R M C D
  join manager =
      let connected = link.connect manager.mqtt in
      let joined : DeviceManager R M C D = record manager { mqtt = connected.0 } in
      elim connected.1 [ err e ↦ joined | ok u ↦ (subscribe_all store client joined).0 ]

unfoldable pub start_http :
    {R M C D H S Session : Type 0}
    → Acceptor
    → Application R M C D H S Session
    → Application R M C D H S Session × Result (Unit {0})
start_http acceptor app =
    let http = Server.start acceptor app.http_server in
    elim http.1 [
      | err e ↦ (record app { http_server = http.0 }, err e)
      | ok u ↦ (record app { http_server = http.0; running = true }, ok tt)
    ]

module _ {R M C D H S Session : Type 0} (store : DeviceRepository R) (client : Mqtt M)
    (link : Link M) where
  unfoldable pub start :
      Acceptor
      → Acceptor
      → Application R M C D H S Session
      → Application R M C D H S Session × Result (Unit {0})
  unfolding join start_http
  start ws_acceptor http_acceptor app =
      let begun : Application R M C D H S Session = record app {
        manager = join store client link app.manager;
        monitor = Heartbeat.start app.monitor;
      } in
      let ws = Running.start ws_acceptor app.ws_server in
      elim ws.1 [
        | err e ↦ (record begun { ws_server = ws.0 }, err e)
        | ok u ↦ start_http http_acceptor (record begun { ws_server = ws.0 })
      ]

-- The application, and the sessions that are closed.
unfoldable pub stop :
    {R M C D H S Session : Type 0}
    → Link M
    → Application R M C D H S Session
    → Application R M C D H S Session × List Session
stop link app = if not app.running then (app, []) else (
  record app {
    running = false;
    monitor = Heartbeat.stop app.monitor;
    http_server = Server.stop app.http_server;
    ws_server = (Running.stop app.ws_server).0;
    manager = record app.manager { mqtt = (link.disconnect app.manager.mqtt).0 };
  },
  (Running.stop app.ws_server).1,
)
