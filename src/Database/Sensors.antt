-- ===== src/Database/Sensors.antt =====
-- src/database/sensor_repository.cpp. SQLite is an interface: the texts of Execute, the insertion, the
-- deletion, and a SELECT with its text and what is bound to its parameters.
pub mod Query
use iot_dashboard_flutter.Common.{
  ℕ, ◌+◌, ◌-◌, ◌*◌, ◌/◌, ◌%◌, ◌^◌, ltb, leb, not, Bool, is_empty, if◌then◌else◌, map, List, [], ◌∷◌,
  ◌++◌, Option, none, some, Str, str,
}
use iot_dashboard_flutter.Errors.{Result, ok, err}
use iot_dashboard_flutter.Json.{ℤ, pos, negsuc}
use iot_dashboard_flutter.Automation.{SensorReading}
use iot_dashboard_flutter.Database.Columns.{to_unix_ms, from_unix_ms, get_text}
use iot_dashboard_flutter.Database.Migrations.{Statement, begin_transaction, commit, rollback}

pub record SensorQueryOptions : Type 0 where
  pub device_id : Str
  pub sensor_type : Str
  pub from : ℕ
  pub to : ℕ
  pub limit : ℕ

-- The columns of a reading.
pub record ReadingRow (N : Type 0) : Type 0 where
  pub device_id : Str
  pub sensor_type : Str
  pub value : N
  pub unit : Str
  pub timestamp_ms : ℕ
  pub quality : Option Str

-- BindText and BindInt.
pub data Param : Type 0 where
  text_param : Str → Param
  int_param : ℤ → Param

-- `delete_older` is DELETE WHERE timestamp_ms < ?, with the number of `sqlite3_changes`.
pub record SensorTable (N T : Type 0) : Type 0 where
  pub execute : Statement → T → T × Result (Unit {0})
  pub insert_row : ReadingRow N → T → T
  pub select : Str → List (ℕ × Param) → T → List (ReadingRow N)
  pub delete_older : ℤ → T → T × ℕ

-- `static_cast< int64_t >` of a `size_t`
unfoldable pub to_int64 : ℕ → ℤ
to_int64 n = if ltb n (2 ^ 63) then pos n else negsuc (2 ^ 64 - 1 - n)

unfoldable pub select_text : Str
select_text =
    str
      "SELECT device_id, sensor_type, value, unit, timestamp_ms, quality FROM sensor_readings WHERE device_id = ?"

unfoldable pub type_text : Str
type_text = str " AND sensor_type = ?"

unfoldable pub from_text : Str
from_text = str " AND timestamp_ms >= ?"

unfoldable pub to_text : Str
to_text = str " AND timestamp_ms <= ?"

unfoldable pub limit_text : Str
limit_text = str " ORDER BY timestamp_ms DESC LIMIT ?;"

unfoldable pub append_when : Bool → Str → Str → Str
append_when test text sql = if test then sql ++ text else sql

-- `paramIdx`, and what is bound so far.
unfoldable pub bind_when : Bool → Param → ℕ × List (ℕ × Param) → ℕ × List (ℕ × Param)
bind_when test param (index, bound) =
    if test then (index + 1, bound ++ (index, param) ∷ []) else (index, bound)

unfoldable pub query_sql : SensorQueryOptions → Str
unfolding to_unix_ms append_when
query_sql opts =
    append_when (ltb 0 (to_unix_ms opts.to)) to_text (
      append_when (ltb 0 (to_unix_ms opts.from)) from_text
        (append_when (not (is_empty opts.sensor_type)) type_text select_text))
    ++ limit_text

unfoldable pub query_params : SensorQueryOptions → List (ℕ × Param)
unfolding to_unix_ms to_int64 bind_when
query_params opts =
    let bound = bind_when (ltb 0 (to_unix_ms opts.to)) (int_param (pos (to_unix_ms opts.to))) (
      bind_when (ltb 0 (to_unix_ms opts.from)) (int_param (pos (to_unix_ms opts.from))) (
        bind_when (not (is_empty opts.sensor_type)) (text_param opts.sensor_type)
          (2, (1, text_param opts.device_id) ∷ []))) in
    bound.1 ++ (bound.0, int_param (to_int64 opts.limit)) ∷ []

-- The time before which readings are purged; the product of 32 bits wraps around, the rest is exact below
-- 2 ^ 63 nanoseconds. A duration is cut towards zero.
unfoldable pub cutoff_ms : ℕ → ℕ → ℤ
cutoff_ms now retention_days =
    let span = (24 * retention_days) % 2 ^ 32 * 3600000000000 in
    let before = (span - now) / 1000000 in
    if leb span now
    then pos ((now - span) / 1000000)
    else if leb before 0
    then pos 0
    else negsuc (before - 1)

unfoldable pub read_quality : Option Str → Option Str
unfolding get_text
read_quality none = none
read_quality (some quality) = some (get_text quality)

module _ {N : Type 0} where
  unfoldable pub reading_to_row : SensorReading N → ReadingRow N
  unfolding to_unix_ms
  reading_to_row r = record {
    device_id = r.device_id;
    sensor_type = r.sensor;
    value = r.value;
    unit = r.unit;
    timestamp_ms = to_unix_ms r.timestamp;
    quality = r.quality;
  }

  unfoldable pub row_to_reading : ReadingRow N → SensorReading N
  unfolding get_text from_unix_ms read_quality
  row_to_reading row = record {
    device_id = get_text row.device_id;
    sensor = get_text row.sensor_type;
    value = row.value;
    unit = get_text row.unit;
    timestamp = from_unix_ms row.timestamp_ms;
    quality = read_quality row.quality;
  }

  module _ {T : Type 0} (table : SensorTable N T) where
    unfoldable pub add : SensorReading N → T → T × Result (Unit {0})
    unfolding reading_to_row
    add reading t = (table.insert_row (reading_to_row reading) t, ok tt)

    unfoldable pub insert_all : List (SensorReading N) → T → T
    unfolding reading_to_row
    insert_all [] t = t
    insert_all (reading ∷ readings) t =
        insert_all readings (table.insert_row (reading_to_row reading) t)

    unfoldable pub finish_batch : T × Result (Unit {0}) → T × Result (Unit {0})
    finish_batch (t, err e) = ((table.execute rollback t).0, err e)
    finish_batch (t, ok u) = (t, ok tt)

    unfoldable pub add_batch : List (SensorReading N) → T → T × Result (Unit {0})
    unfolding insert_all finish_batch
    add_batch readings t =
        if is_empty readings
        then (t, ok tt)
        else let begun = table.execute begin_transaction t in
          elim begun.1 [
            | err e ↦ (begun.0, err e)
            | ok u ↦ finish_batch (table.execute commit (insert_all readings begun.0))
          ]

    unfoldable pub query : SensorQueryOptions → T → Result (List (SensorReading N))
    unfolding row_to_reading query_sql query_params
    query opts t = ok (map row_to_reading (table.select (query_sql opts) (query_params opts) t))

    unfoldable pub purge : ℕ → ℕ → T → T × Result ℕ
    unfolding cutoff_ms
    purge now retention_days t =
        let deleted = table.delete_older (cutoff_ms now retention_days) t in
        (deleted.0, ok (deleted.1 % 2 ^ 32))
