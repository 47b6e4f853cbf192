-- ===== src/Api/Controllers/Status.antt =====
-- src/api/controllers/metrics_controller.cpp and health_controller.cpp. Times are those of a steady
-- clock, in nanoseconds.
use iot_dashboard_flutter.Common.{ℕ, ◌+◌, ◌-◌, ◌/◌, ◌%◌, ◌^◌, [], ◌∷◌, Str, str}
use iot_dashboard_flutter.Json.{Json, pos}
use iot_dashboard_flutter.Http.{HttpResponse, json_response}
use iot_dashboard_flutter.Network.PubSub.{WsServer, connection_count}

pub record MetricsController : Type 0 where
  pub http_requests : ℕ
  pub mqtt_messages : ℕ
  pub start_time : ℕ

unfoldable pub new_metrics : ℕ → MetricsController
new_metrics now = record { http_requests = 0; mqtt_messages = 0; start_time = now }

unfoldable pub increment_http_requests : MetricsController → MetricsController
increment_http_requests m = record m { http_requests = (m.http_requests + 1) % 2 ^ 64 }

unfoldable pub increment_mqtt_messages : MetricsController → MetricsController
increment_mqtt_messages m = record m { mqtt_messages = (m.mqtt_messages + 1) % 2 ^ 64 }

module _ (json : Json) where
  open json use {text, integer, object, dump}

  unfoldable pub metrics_handler :
      {Session : Type 0} → MetricsController → WsServer Session → ℕ → HttpResponse → HttpResponse
  metrics_handler m server now res = json_response res 200 (
      dump (
        object (
          (str "uptime_seconds", integer (pos ((now - m.start_time) / 1000000000)))
          ∷ (str "active_websocket_clients", integer (pos (connection_count server)))
          ∷ (str "http_requests_total", integer (pos m.http_requests))
          ∷ (str "mqtt_messages_total", integer (pos m.mqtt_messages))
          ∷ [])))

  unfoldable pub health_handler : Str → ℕ → ℕ → HttpResponse → HttpResponse
  health_handler version start_time now res = json_response res 200 (
      dump (
        object (
          (str "status", text (str "healthy"))
          ∷ (str "version", text version)
          ∷ (str "uptime_seconds", integer (pos ((now - start_time) / 1000000000)))
          ∷ [])))
