-- ===== src/Examples/Storage.antt =====
-- A table of devices as a function, and an empty table of readings.
use iot_dashboard_flutter.Common.{
  ℕ, ◌≤◌, leb, All, arith, Bool, true, false, not, ◌&&◌, ◌==◌, str_instance, if◌then◌else◌, keep_if,
  all_of, map, drop, get_or, length, ◌++◌, ◌+◌, drop-append, ap, ◌∙◌, nat_eq, List, [], ◌∷◌, Option,
  none, some, Str, str, ◌≡◌, refl, inl, inr, Bool-cases,
}
use mathlib.Core.List.{Perm}
use mathlib.Core.List.Perm
use iot_dashboard_flutter.Errors.{ok}
use iot_dashboard_flutter.Json.{ℤ, pos, negsuc}
use iot_dashboard_flutter.Devices.Manager.{DeviceInfo}
use iot_dashboard_flutter.Devices.Manager.Commands.{IsStore}
use iot_dashboard_flutter.Database.Columns.{IsPlain}
use iot_dashboard_flutter.Database.Devices.{DeviceRow, DeviceTable, sqlite_device_repository}
use iot_dashboard_flutter.Database.Devices.Store.{
  IsTable, is_some, Call, adds, updates, removes, gets, view, run, replay, run-replay,
}
use iot_dashboard_flutter.Database.Devices.Contract.{sqlite_device_repository-IsStore}
use iot_dashboard_flutter.Database.Sensors.{
  SensorQueryOptions, ReadingRow, Param, text_param, int_param, SensorTable, query,
}
use iot_dashboard_flutter.Database.Sensors.Query.{
  IsReadings, Test, type_is, from_ms, to_ms, test_text, test_param, texts, statement, IsNewestFirst,
  numbered, holds, take_limit, reading_of, up_to_limit, wanted, query-wanted,
}

Rows : Type 0
Rows = Str → Option DeviceRow

own : Str → Option DeviceRow → Option DeviceRow
own key none = none
own key (some row) = if row.id == key then some row else none

select : Str → Rows → Option DeviceRow
unfolding Rows
select key rows = own key (rows key)

put : Bool → DeviceRow → Rows → Rows
unfolding Rows
put test row rows key = if test && row.id == key then some row else rows key

drop_row : Str → Rows → Rows
unfolding Rows
drop_row id rows key = if id == key then none else rows key

abbrev table : DeviceTable Rows
table = record {
  select_by_id = select;
  select_all = λ rows. [];
  insert_row = λ row rows. put (not (is_some (select row.id rows))) row rows;
  update_row = λ row rows.
      (put (is_some (select row.id rows)) row rows, if is_some (select row.id rows) then 1 else 0);
  delete_by_id = λ id rows. (drop_row id rows, if is_some (select id rows) then 1 else 0);
}

own-key : (key : Str) (row : DeviceRow) (o : Option DeviceRow) → own key o ≡ some row → row.id ≡ key
unfolding own
own-key key row none h = cc
own-key key row (some r) h = elim (Bool-cases (r.id == key)) [
  | inl e ↦ let same = rw e at h in let eq = (str_instance.beq_iff r.id key).0 e in cc
  | inr e ↦ let none_is = rw e at h in cc
]

select-put :
    (test : Bool) (key : Str) (row : DeviceRow) (rows : Rows)
    → select key (put test row rows) ≡ (if test && row.id == key then some row else select key rows)
unfolding select put own
select-put false key row rows = refl
select-put true key row rows = elim (Bool-cases (row.id == key)) [
  | inl e ↦ rw (e, own) (rw e)
  | inr e ↦ rw e
]

select-drop_row :
    (id key : Str) (rows : Rows)
    → select key (drop_row id rows) ≡ (if id == key then none else select key rows)
unfolding select drop_row own
select-drop_row id key rows = elim (Bool-cases (id == key)) [ inl e ↦ rw e | inr e ↦ rw e ]

select-key : (key : Str) (row : DeviceRow) (rows : Rows) → select key rows ≡ some row → row.id ≡ key
unfolding select
select-key key row rows h = own-key key row (rows key) h

table-IsTable : IsTable table
table-IsTable = record {
  select-key = select-key;
  select-insert = λ key row rows. select-put (not (is_some (select row.id rows))) key row rows;
  select-update = λ key row rows. select-put (is_some (select row.id rows)) key row rows;
  changes-update = λ row rows. refl;
  select-delete = select-drop_row;
  changes-delete = λ id rows. refl;
}

abbrev lamp : DeviceInfo
lamp = record {
  id = str "lamp";
  name = str "Lamp";
  type = str "actuator";
  protocol = str "mqtt";
  address = [];
  is_connected = true;
  last_seen = 1500000;
}

no_rows : Rows
unfolding Rows
no_rows key = none

abbrev calls : List Call
calls = updates lamp ∷ adds lamp ∷ gets (str "lamp") ∷ removes (str "lamp") ∷ gets (str "lamp") ∷ []

run-replay_example :
    (view table (run table calls no_rows).0 ≡ (replay calls (view table no_rows)).0)
    × ((run table calls no_rows).1 ≡ (replay calls (view table no_rows)).1)
run-replay_example = run-replay table table-IsTable calls no_rows

sqlite_device_repository-IsStore_example : IsStore IsPlain (sqlite_device_repository table)
sqlite_device_repository-IsStore_example = sqlite_device_repository-IsStore table table-IsTable

-- A table of readings, whose SELECT reads the tests of the text back from their nineteenth bytes, and
-- sorts what it finds.
read_tests : Str → List (ℕ × Param) → List Test × ℤ
read_tests text [] = ([], pos 0)
read_tests text ((i, text_param s) ∷ rest) =
    let more = read_tests (drop 20 text) rest in (type_is s ∷ more.0, more.1)
read_tests text ((i, int_param n) ∷ []) = ([], n)
read_tests text ((i, int_param (pos n)) ∷ p ∷ rest) =
    let more = read_tests (drop 22 text) (p ∷ rest) in
    ((if get_or text 18 0 == b'>' then from_ms n else to_ms n) ∷ more.0, more.1)
read_tests text ((i, int_param (negsuc n)) ∷ p ∷ rest) = ([], pos 0)

read_tests-texts :
    (tests : List Test) (limit : ℤ) (index : ℕ)
    → read_tests (texts tests) (numbered index (map test_param tests ++ int_param limit ∷ []))
      ≡ (tests, limit)
unfolding read_tests texts numbered test_text test_param str
read_tests-texts [] limit index = refl
read_tests-texts (type_is s ∷ ts) limit index = rw (read_tests-texts ts limit (index + 1))
read_tests-texts (from_ms n ∷ []) limit index = refl
read_tests-texts (from_ms n ∷ t ∷ ts) limit index =
    ap (λ r. (from_ms n ∷ r.0, r.1)) (read_tests-texts (t ∷ ts) limit (index + 1))
read_tests-texts (to_ms n ∷ []) limit index = refl
read_tests-texts (to_ms n ∷ t ∷ ts) limit index =
    ap (λ r. (to_ms n ∷ r.0, r.1)) (read_tests-texts (t ∷ ts) limit (index + 1))

Readings : Type 0
Readings = List (ReadingRow ℕ)

place : ReadingRow ℕ → List (ReadingRow ℕ) → List (ReadingRow ℕ)
place row [] = row ∷ []
place row (first ∷ rest) =
    let later = place row rest in
    if leb first.timestamp_ms row.timestamp_ms then row ∷ first ∷ rest else first ∷ later

newest_first : List (ReadingRow ℕ) → List (ReadingRow ℕ)
unfolding place
newest_first [] = []
newest_first (row ∷ rest) = place row (newest_first rest)

All-le :
    (a b : ℕ) (rows : List (ReadingRow ℕ))
    → a ≤ b
    → All (λ row. row.timestamp_ms ≤ a) rows
    → All (λ row. row.timestamp_ms ≤ b) rows
All-le a b [] h all = tt
All-le a b (row ∷ rows) h all = (omega arith, All-le a b rows h all.1)

place-All :
    (bound : ℕ) (row : ReadingRow ℕ) (rows : List (ReadingRow ℕ))
    → row.timestamp_ms ≤ bound
    → All (λ r. r.timestamp_ms ≤ bound) rows
    → All (λ r. r.timestamp_ms ≤ bound) (place row rows)
unfolding place
place-All bound row [] h all = (h, tt)
place-All bound row (first ∷ rest) h all =
    elim (Bool-cases (leb first.timestamp_ms row.timestamp_ms)) [
      | inl e ↦ rw e (h, all)
      | inr e ↦ rw e (all.0, place-All bound row rest h all.1)
    ]

place-IsNewestFirst :
    (row : ReadingRow ℕ) (rows : List (ReadingRow ℕ))
    → IsNewestFirst rows
    → IsNewestFirst (place row rows)
unfolding place
place-IsNewestFirst row [] h = (tt, tt)
place-IsNewestFirst row (first ∷ rest) h =
    elim (Bool-cases (leb first.timestamp_ms row.timestamp_ms)) [
      | inl e ↦
          let le : first.timestamp_ms ≤ row.timestamp_ms = ground arith in
          rw e ((le, All-le first.timestamp_ms row.timestamp_ms rest le h.0), h)
      | inr e ↦
          let le : row.timestamp_ms ≤ first.timestamp_ms = ground arith in
          rw e (place-All first.timestamp_ms row rest le h.0, place-IsNewestFirst row rest h.1)
    ]

place-perm : (row : ReadingRow ℕ) (rows : List (ReadingRow ℕ)) → Perm (place row rows) (row ∷ rows)
unfolding place
place-perm row [] = Perm.refl (row ∷ [])
place-perm row (first ∷ rest) = elim (Bool-cases (leb first.timestamp_ms row.timestamp_ms)) [
  | inl e ↦ rw e (Perm.refl (row ∷ first ∷ rest))
  | inr e ↦ rw e (Perm.trans (Perm.cons first (place-perm row rest)) (Perm.swap row first rest))
]

newest_first-IsNewestFirst : (rows : List (ReadingRow ℕ)) → IsNewestFirst (newest_first rows)
unfolding newest_first
newest_first-IsNewestFirst [] = tt
newest_first-IsNewestFirst (row ∷ rest) =
    place-IsNewestFirst row (newest_first rest) (newest_first-IsNewestFirst rest)

newest_first-perm : (rows : List (ReadingRow ℕ)) → Perm (newest_first rows) rows
unfolding newest_first
newest_first-perm [] = Perm.refl []
newest_first-perm (row ∷ rest) =
    Perm.trans (place-perm row (newest_first rest)) (Perm.cons row (newest_first-perm rest))

-- The part of the text before the tests.
abbrev statement_head : Str
statement_head =
    str
      "SELECT device_id, sensor_type, value, unit, timestamp_ms, quality FROM sensor_readings WHERE device_id = ?"

all_found : Str → List Test → Readings → List (ReadingRow ℕ)
unfolding Readings newest_first
all_found device_id tests rows =
    newest_first
      (keep_if (λ row. row.device_id == device_id && all_of (λ test. holds test row) tests) rows)

rows_of : Str → List Test × ℤ → Readings → List (ReadingRow ℕ)
unfolding all_found
rows_of device_id (tests, limit) rows = take_limit limit (all_found device_id tests rows)

select_readings : Str → List (ℕ × Param) → Readings → List (ReadingRow ℕ)
unfolding rows_of Readings
select_readings text ((i, text_param device_id) ∷ params) rows =
    rows_of device_id (read_tests (drop (length statement_head) text) params) rows
select_readings text _ rows = rows

readings : SensorTable ℕ Readings
unfolding Readings
readings = record {
  execute = λ s t. (t, ok tt);
  insert_row = λ row t. row ∷ t;
  select = select_readings;
  delete_older = λ ms t. (t, 0);
}

contents : Readings → List (ReadingRow ℕ)
unfolding Readings
contents rows = rows

readings-IsReadings : IsReadings readings contents
unfolding readings select_readings rows_of all_found contents Readings numbered statement
readings-IsReadings = record {
  select_rows = λ device_id tests limit t. (
    all_found device_id tests t,
    ap (λ r. rows_of device_id r t)
        (ap (λ text. read_tests text (numbered 2 (map test_param tests ++ int_param limit ∷ [])))
            (drop-append statement_head (texts tests))
          ∙ read_tests-texts tests limit 2),
    newest_first-IsNewestFirst
        (keep_if (λ row. row.device_id == device_id && all_of (λ test. holds test row) tests) t),
    newest_first-perm
        (keep_if (λ row. row.device_id == device_id && all_of (λ test. holds test row) tests) t),
  );
}

warm : ReadingRow ℕ
warm = record {
  device_id = str "d1";
  sensor_type = str "temperature";
  value = 31;
  unit = str "C";
  timestamp_ms = 5000;
  quality = none;
}

measured : Readings
unfolding Readings
measured = record warm { timestamp_ms = 4000 } ∷ warm ∷ []

abbrev options : SensorQueryOptions
options = record {
  device_id = str "d1";
  sensor_type = str "temperature";
  from = 4500000000;
  to = 0;
  limit = 10;
}

query-wanted_example :
    (found : List (ReadingRow ℕ)) × (query readings options measured
      ≡ ok (map reading_of (up_to_limit 10 found)))
    × IsNewestFirst found
    × Perm found (keep_if (wanted options) (contents measured))
query-wanted_example = query-wanted readings contents readings-IsReadings options measured
