-- ===== src/Database/Devices.antt =====
-- src/database/device_repository.cpp. SQLite is an interface, an operation for each statement that the
-- repository prepares; the mutex makes each call a single step.
pub mod Store
pub mod Contract
use iot_dashboard_flutter.Common.{
  ℕ, ◌==◌, nat_eq, not, Bool, if◌then◌else◌, map, List, Option, none, some, Str,
}
use iot_dashboard_flutter.Errors.{Result, ok, err, device_not_found}
use iot_dashboard_flutter.Devices.Manager.{DeviceInfo, DeviceRepository}
use iot_dashboard_flutter.Database.Columns.{to_unix_ms, from_unix_ms, get_text}

-- The columns of a device.
pub record DeviceRow : Type 0 where
  pub id : Str
  pub name : Str
  pub type : Str
  pub protocol : Str
  pub address : Str
  pub is_connected : ℕ
  pub last_seen_ms : ℕ

-- SELECT by id and its first row, SELECT of all, INSERT, and UPDATE and DELETE by id with the number of
-- `sqlite3_changes`.
pub record DeviceTable (T : Type 0) : Type 0 where
  pub select_by_id : Str → T → Option DeviceRow
  pub select_all : T → List DeviceRow
  pub insert_row : DeviceRow → T → T
  pub update_row : DeviceRow → T → T × ℕ
  pub delete_by_id : Str → T → T × ℕ

-- What is bound to the statements.
unfoldable pub device_to_row : DeviceInfo → DeviceRow
unfolding to_unix_ms
device_to_row d = record {
  id = d.id;
  name = d.name;
  type = d.type;
  protocol = d.protocol;
  address = d.address;
  is_connected = if d.is_connected then 1 else 0;
  last_seen_ms = to_unix_ms d.last_seen;
}

unfoldable pub row_to_device : DeviceRow → DeviceInfo
unfolding get_text from_unix_ms
row_to_device row = record {
  id = get_text row.id;
  name = get_text row.name;
  type = get_text row.type;
  protocol = get_text row.protocol;
  address = get_text row.address;
  is_connected = not (row.is_connected == 0);
  last_seen = from_unix_ms row.last_seen_ms;
}

-- The test of `sqlite3_changes`.
unfoldable pub changed : {T : Type 0} → T × ℕ → T × Result (Unit {0})
changed (t, changes) = if changes == 0 then (t, err device_not_found) else (t, ok tt)

module _ {T : Type 0} (table : DeviceTable T) where
  unfoldable pub get_by_id : Str → T → Result DeviceInfo
  unfolding row_to_device
  get_by_id device_id t = elim (table.select_by_id device_id t) [
    | none ↦ err device_not_found
    | some row ↦ ok (row_to_device row)
  ]

  unfoldable pub get_all : T → Result (List DeviceInfo)
  unfolding row_to_device
  get_all t = ok (map row_to_device (table.select_all t))

  -- What `Step` gives is not looked at.
  unfoldable pub add : DeviceInfo → T → T × Result (Unit {0})
  unfolding device_to_row
  add device t = (table.insert_row (device_to_row device) t, ok tt)

  unfoldable pub update : DeviceInfo → T → T × Result (Unit {0})
  unfolding device_to_row changed
  update device t = changed (table.update_row (device_to_row device) t)

  unfoldable pub remove : Str → T → T × Result (Unit {0})
  unfolding changed
  remove device_id t = changed (table.delete_by_id device_id t)

  -- `SqliteDeviceRepository` as the device manager sees it.
  abbrev pub sqlite_device_repository : DeviceRepository T
  sqlite_device_repository = record {
    get_by_id = get_by_id;
    get_all = get_all;
    add = add;
    update = update;
    remove = remove;
  }
