-- ===== src/Database/Sensors/Query.antt =====
-- Which readings a query gives.
use iot_dashboard_flutter.Common.{
  ℕ, ◌+◌, ◌*◌, ◌/◌, ◌^◌, Option, none, some, Bool-cases, inl, inr, ltb, leb, take, keep_if, all_of,
  not, Bool, true, false, ◌&&◌, ◌||◌, ◌==◌, str_instance, is_empty, if◌then◌else◌, map, List, [],
  ◌∷◌, ◌++◌, Str, str, All, ◌≤◌, ◌≡◌, refl, ap, ap₂, subst, ◌∙◌, arith,
}
use mathlib.Core.List.{append_assoc, Perm}
use mathlib.Core.Option
use iot_dashboard_flutter.Errors.{ok}
use iot_dashboard_flutter.Json.{ℤ, pos, negsuc}
use iot_dashboard_flutter.Automation.{SensorReading}
use iot_dashboard_flutter.Database.Columns.{
  to_unix_ms, from_unix_ms, up_to_zero, get_text-up_to_zero,
}
use iot_dashboard_flutter.Database.Sensors.{
  SensorQueryOptions, ReadingRow, Param, text_param, int_param, SensorTable, to_int64, select_text,
  type_text, from_text, to_text, limit_text, append_when, bind_when, query_sql, query_params,
  read_quality, row_to_reading, query,
}

-- The tests that a SELECT on readings may have beside the device.
pub data Test : Type 0 where
  type_is : Str → Test
  from_ms to_ms : ℕ → Test

unfoldable pub test_text : Test → Str
test_text (type_is t) = str " AND sensor_type = ?"
test_text (from_ms ms) = str " AND timestamp_ms >= ?"
test_text (to_ms ms) = str " AND timestamp_ms <= ?"

unfoldable pub test_param : Test → Param
test_param (type_is t) = text_param t
test_param (from_ms ms) = int_param (pos ms)
test_param (to_ms ms) = int_param (pos ms)

-- The SELECT with these tests, the newest readings first, as SQL is written.
unfoldable pub texts : List Test → Str
unfolding test_text
texts [] = str " ORDER BY timestamp_ms DESC LIMIT ?;"
texts (t ∷ ts) = test_text t ++ texts ts

unfoldable pub statement : List Test → Str
unfolding texts
statement tests =
    str
      "SELECT device_id, sensor_type, value, unit, timestamp_ms, quality FROM sensor_readings WHERE device_id = ?"
    ++ texts tests

-- Parameters in the order of their places, from `index` on.
unfoldable pub numbered : ℕ → List Param → List (ℕ × Param)
numbered index [] = []
numbered index (p ∷ ps) = (index, p) ∷ numbered (index + 1) ps

-- A negative limit is none.
unfoldable pub take_limit : {A : Type 0} → ℤ → List A → List A
take_limit (pos n) xs = take n xs
take_limit (negsuc n) xs = xs

module _ {N : Type 0} where
  unfoldable pub holds : Test → ReadingRow N → Bool
  holds (type_is t) row = row.sensor_type == t
  holds (from_ms ms) row = leb ms row.timestamp_ms
  holds (to_ms ms) row = leb row.timestamp_ms ms

  -- No reading is newer than one before it.
  abbrev pub IsNewestFirst : List (ReadingRow N) → Type 0
  IsNewestFirst [] = Unit {0}
  IsNewestFirst (row ∷ rows) =
      All (λ later. later.timestamp_ms ≤ row.timestamp_ms) rows × IsNewestFirst rows

  -- SQL on the readings, of which `rows` are those of the table: the SELECT finds the rows that pass the
  -- tests, each once, orders them, and gives as many of the first as the limit says.
  pub record IsReadings {T : Type 0} (table : SensorTable N T) (rows : T → List (ReadingRow N))
      : Type 0 where
    pub select_rows :
        (device_id : Str) (tests : List Test) (limit : ℤ) (t : T)
        → (found : List (ReadingRow N)) × (table.select
              (statement tests)
              (numbered 1 (text_param device_id ∷ (map test_param tests ++ int_param limit ∷ [])))
              t
            ≡ take_limit limit found)
          × IsNewestFirst found
          × Perm found (
              keep_if
                (λ row. row.device_id == device_id && all_of (λ test. holds test row) tests)
                (rows t))

-- The tests of a query, given which of them it has.
unfoldable pub chosen : Bool → Bool → Bool → SensorQueryOptions → List Test
chosen typed started ended opts =
    let last : List Test = if ended then to_ms (to_unix_ms opts.to) ∷ [] else [] in
    let middle : List Test = if started then from_ms (to_unix_ms opts.from) ∷ last else last in
    if typed then type_is opts.sensor_type ∷ middle else middle

chosen-sql :
    (typed started ended : Bool) (opts : SensorQueryOptions)
    → append_when ended to_text
          (append_when started from_text (append_when typed type_text select_text))
        ++ limit_text
      ≡ statement (chosen typed started ended opts)
unfolding chosen append_when statement texts test_text select_text type_text from_text to_text
    limit_text
chosen-sql true true true opts = simp append_assoc
chosen-sql true true false opts = simp append_assoc
chosen-sql true false true opts = simp append_assoc
chosen-sql true false false opts = simp append_assoc
chosen-sql false true true opts = simp append_assoc
chosen-sql false true false opts = simp append_assoc
chosen-sql false false true opts = simp append_assoc
chosen-sql false false false opts = refl

chosen-params :
    (typed started ended : Bool) (opts : SensorQueryOptions) (last : Param)
    → let bound = bind_when ended (int_param (pos (to_unix_ms opts.to))) (
        bind_when started (int_param (pos (to_unix_ms opts.from))) (
          bind_when typed
            (text_param opts.sensor_type)
            (2, (1, text_param opts.device_id) ∷ []))) in
      bound.1 ++ (bound.0, last) ∷ []
      ≡ numbered 1 (
          text_param opts.device_id
          ∷ (map test_param (chosen typed started ended opts) ++ last ∷ []))
unfolding chosen bind_when numbered test_param
chosen-params true true true opts last = refl
chosen-params true true false opts last = refl
chosen-params true false true opts last = refl
chosen-params true false false opts last = refl
chosen-params false true true opts last = refl
chosen-params false true false opts last = refl
chosen-params false false true opts last = refl
chosen-params false false false opts last = refl

-- The rows that the options ask for, whose times are nanoseconds.
unfoldable pub wanted : {N : Type 0} → SensorQueryOptions → ReadingRow N → Bool
wanted opts row =
    row.device_id == opts.device_id
    && ((is_empty opts.sensor_type || row.sensor_type == opts.sensor_type)
        && (not (ltb 0 (opts.from / 1000000)) || leb (opts.from / 1000000) row.timestamp_ms)
        && (not (ltb 0 (opts.to / 1000000)) || leb row.timestamp_ms (opts.to / 1000000)))

chosen-holds :
    {N : Type 0} (typed started ended : Bool) (opts : SensorQueryOptions) (row : ReadingRow N)
    → all_of (λ test. holds test row) (chosen typed started ended opts) ≡ (
        (not typed || row.sensor_type == opts.sensor_type)
        && (not started || leb (to_unix_ms opts.from) row.timestamp_ms)
        && (not ended || leb row.timestamp_ms (to_unix_ms opts.to)))
unfolding chosen holds
chosen-holds true true true opts row = ground arith
chosen-holds true true false opts row = ground arith
chosen-holds true false true opts row = ground arith
chosen-holds true false false opts row = ground arith
chosen-holds false true true opts row = ground arith
chosen-holds false true false opts row = ground arith
chosen-holds false false true opts row = ground arith
chosen-holds false false false opts row = ground arith

not-not : (b : Bool) → not (not b) ≡ b
not-not true = refl
not-not false = refl

chosen-wanted :
    {N : Type 0} (opts : SensorQueryOptions) (row : ReadingRow N)
    → (row.device_id == opts.device_id
        && all_of
            (λ test. holds test row)
            (chosen
              (not (is_empty opts.sensor_type))
              (ltb 0 (to_unix_ms opts.from))
              (ltb 0 (to_unix_ms opts.to))
              opts))
      ≡ wanted opts row
unfolding wanted to_unix_ms
chosen-wanted opts row = rw (
  chosen-holds (not (is_empty opts.sensor_type)) (ltb 0 (to_unix_ms opts.from))
      (ltb 0 (to_unix_ms opts.to)) opts row,
  not-not (is_empty opts.sensor_type),
)

-- The reading of a row: texts end before their first byte 0, and the time is in nanoseconds.
unfoldable pub reading_of : {N : Type 0} → ReadingRow N → SensorReading N
reading_of row = record {
  device_id = up_to_zero row.device_id;
  sensor = up_to_zero row.sensor_type;
  value = row.value;
  unit = up_to_zero row.unit;
  timestamp = row.timestamp_ms * 1000000;
  quality = Option.map up_to_zero row.quality;
}

read_quality-map : (quality : Option Str) → read_quality quality ≡ Option.map up_to_zero quality
unfolding read_quality
read_quality-map none = refl
read_quality-map (some quality) = ap some (get_text-up_to_zero quality)

row_to_reading-reading_of : {N : Type 0} (row : ReadingRow N) → row_to_reading row ≡ reading_of row
unfolding row_to_reading reading_of from_unix_ms
row_to_reading-reading_of row = λ i. record {
  device_id = get_text-up_to_zero row.device_id i;
  sensor = get_text-up_to_zero row.sensor_type i;
  value = row.value;
  unit = get_text-up_to_zero row.unit i;
  timestamp = row.timestamp_ms * 1000000;
  quality = read_quality-map row.quality i;
}

-- As many of the first as the limit says; 2 ^ 63 and more are none.
unfoldable pub up_to_limit : {A : Type 0} → ℕ → List A → List A
up_to_limit limit found = if ltb limit (2 ^ 63) then take limit found else found

take_limit-to_int64 :
    {A : Type 0} (limit : ℕ) (found : List A)
    → take_limit (to_int64 limit) found ≡ up_to_limit limit found
unfolding take_limit to_int64 up_to_limit
take_limit-to_int64 limit found = elim (Bool-cases (ltb limit (2 ^ 63))) [
  | inl e ↦ rw e
  | inr e ↦ rw e
]

module _ {N T : Type 0} (table : SensorTable N T) (rows : T → List (ReadingRow N))
    (sql : IsReadings table rows) where
  -- A query gives the first of the readings that are asked for, newest first, as many as the limit says:
  -- those of the device that have the type asked for and lie between the times asked for, where there are
  -- such, each once and in whole milliseconds. A reading is given with its columns, but for its texts,
  -- which end before their first byte 0. A limit of 2 ^ 63 or more is none. The table is one of SQL.
  pub query-wanted :
      (opts : SensorQueryOptions) (t : T)
      → (found : List (ReadingRow N)) × (query table opts t
          ≡ ok (map reading_of (up_to_limit opts.limit found)))
        × IsNewestFirst found
        × Perm found (keep_if (wanted opts) (rows t))
  unfolding query query_sql query_params wanted
  query-wanted opts t =
      let typed = not (is_empty opts.sensor_type) in
      let started = ltb 0 (to_unix_ms opts.from) in
      let ended = ltb 0 (to_unix_ms opts.to) in
      let tests = chosen typed started ended opts in
      let (found, selected, sorted, all) =
        sql.select_rows opts.device_id tests (to_int64 opts.limit) t in
      (
        found,
        ap (λ selection. ok (map row_to_reading selection))
              (ap₂ (λ text params. table.select text params t) (chosen-sql typed started ended opts)
                  (chosen-params typed started ended opts (int_param (to_int64 opts.limit)))
                ∙ selected)
            ∙ ap₂ (λ read rows. ok (map read rows)) (λ i row. row_to_reading-reading_of row i)
                (take_limit-to_int64 opts.limit found),
        sorted,
        subst (λ test. Perm found (keep_if test (rows t))) (λ i row. (chosen-wanted opts row) i)
            all,
      )
