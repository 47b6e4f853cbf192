-- ===== src/Api/Controllers/Sensors.antt =====
-- src/api/controllers/sensor_controller.cpp: the handler of readings.
use iot_dashboard_flutter.Common.{
  ℕ, ◌/◌, is_empty, if◌then◌else◌, map, length, List, [], ◌∷◌, ◌++◌, Option, none, some, Str, str,
}
use iot_dashboard_flutter.Common.Decimal.{stoul}
use iot_dashboard_flutter.Errors.{Result, ok, err}
use iot_dashboard_flutter.Json.{Json, pos}
use iot_dashboard_flutter.Http.{
  HttpRequest, HttpResponse, get_query_param, json_response, error_response,
}
use iot_dashboard_flutter.Automation.{SensorReading}
use iot_dashboard_flutter.Automation.Json.{JsonNumbers}
use iot_dashboard_flutter.Database.Sensors.{SensorQueryOptions, SensorTable, query}

-- The limit stays at its default where the text is empty or is no number.
unfoldable pub limit_of : Str → ℕ
limit_of text =
    if is_empty text then 1000 else elim (stoul text) [ none ↦ 1000 | some limit ↦ limit ]

unfoldable pub query_options : HttpRequest → SensorQueryOptions
unfolding limit_of
query_options req = record {
  device_id = get_query_param req (str "device_id");
  sensor_type = get_query_param req (str "sensor_type");
  from = 0;
  to = 0;
  limit = limit_of (get_query_param req (str "limit"));
}

module _ (json : Json) {N : Type 0} (numbers : JsonNumbers json N) where
  open json use {Value, text, integer, object, array, dump}
  open numbers use {number}

  unfoldable pub quality_fields : Option Str → List (Str × Value)
  quality_fields none = []
  quality_fields (some quality) = (str "quality", text quality) ∷ []

  -- The timestamp in seconds.
  unfoldable pub reading_to_json : SensorReading N → Value
  unfolding quality_fields
  reading_to_json r = object (
      ((str "device_id", text r.device_id)
        ∷ (str "sensor_type", text r.sensor)
        ∷ (str "value", number r.value)
        ∷ (str "unit", text r.unit)
        ∷ (str "timestamp", integer (pos (r.timestamp / 1000000000)))
        ∷ [])
      ++ quality_fields r.quality)

  unfoldable pub readings_reply : HttpResponse → Result (List (SensorReading N)) → HttpResponse
  unfolding reading_to_json
  readings_reply res (err e) =
      error_response res 500 (str "InternalError") (str "Failed to query sensors")
  readings_reply res (ok readings) = json_response res 200 (
      dump (
        object (
          (str "readings", array (map reading_to_json readings))
          ∷ (str "total", integer (pos (length readings)))
          ∷ [])))

  unfoldable pub list_readings_handler :
      {T : Type 0} → SensorTable N T → T → HttpRequest → HttpResponse → HttpResponse
  unfolding query_options readings_reply
  list_readings_handler table t req res =
      if is_empty (query_options req).device_id
      then error_response res 400 (str "BadRequest") (str "device_id is required")
      else readings_reply res (query table (query_options req) t)
