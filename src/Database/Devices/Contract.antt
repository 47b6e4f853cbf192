-- ===== src/Database/Devices/Contract.antt =====
-- The device repository as the store that the device manager relies on.
use iot_dashboard_flutter.Common.{
  Bool, true, false, not, str_instance, nat_beq, if◌then◌else◌, some, Str, ◌≡◌, refl, ap, ◌∙◌,
  eq_self, Option-cases, inl, inr,
}
use iot_dashboard_flutter.Errors.{ok}
use iot_dashboard_flutter.Devices.Manager.{DeviceInfo}
use iot_dashboard_flutter.Devices.Manager.Commands.{IsStore}
use iot_dashboard_flutter.Database.Columns.{get_text, get_text-plain, IsPlain}
use iot_dashboard_flutter.Database.Devices.{
  DeviceRow, DeviceTable, device_to_row, row_to_device, get_by_id, update, sqlite_device_repository,
}
use iot_dashboard_flutter.Database.Devices.Store.{IsTable, is_some, changed-table}

connection : (b : Bool) → not (nat_beq (if b then 1 else 0) 0) ≡ b
connection true = refl
connection false = refl

-- A device as it is read back.
stored : DeviceInfo → DeviceInfo
stored d = row_to_device (device_to_row d)

stored-is_connected : (d : DeviceInfo) → (stored d).is_connected ≡ d.is_connected
unfolding stored row_to_device device_to_row
stored-is_connected d = connection d.is_connected

row-id : (row : DeviceRow) → (row_to_device row).id ≡ get_text row.id
unfolding row_to_device
row-id row = refl

module _ {T : Type 0} (table : DeviceTable T) where
  get_by_id-eq :
      (device_id : Str) (t : T) (row : DeviceRow)
      → table.select_by_id device_id t ≡ some row
      → get_by_id table device_id t ≡ ok (row_to_device row)
  unfolding get_by_id
  get_by_id-eq device_id t row there = rw (there, get_by_id)

  -- A device that is given stands in the table.
  get_by_id-row :
      (device_id : Str) (t : T) (d : DeviceInfo)
      → get_by_id table device_id t ≡ ok d
      → (row : DeviceRow) × (table.select_by_id device_id t ≡ some row) × (d ≡ row_to_device row)
  unfolding get_by_id
  get_by_id-row device_id t d given = elim (Option-cases (table.select_by_id device_id t)) [
    | inl absent ↦ let e = rw (absent, get_by_id) at given in cc
    | inr (row, there) ↦ (row, there, (let e = get_by_id-eq device_id t row there in cc))
  ]

  module _ (sql : IsTable table) where
    get_by_id-update :
        (t : T) (changed : DeviceInfo) (row : DeviceRow)
        → table.select_by_id changed.id t ≡ some row
        → get_by_id table changed.id (update table changed t).0 ≡ ok (stored changed)
    unfolding update device_to_row is_some stored
    get_by_id-update t changed row there =
        ap (get_by_id table changed.id) (changed-table (table.update_row (device_to_row changed) t))
        ∙ get_by_id-eq changed.id (table.update_row (device_to_row changed) t).0
            (device_to_row changed)
            (sql.select-update changed.id (device_to_row changed) t
              ∙ rw (there, eq_self changed.id))

    -- The repository keeps its contract with the device manager, for ids with no byte 0.
    pub sqlite_device_repository-IsStore : IsStore IsPlain (sqlite_device_repository table)
    sqlite_device_repository-IsStore = record {
      same_id = λ t device_id d plain given.
          let (row, there, same) = get_by_id-row device_id t d given in
          ap (λ e. e.id) same
          ∙ row-id row
          ∙ ap get_text (sql.select-key device_id row t there)
          ∙ get_text-plain device_id plain;
      keeps_connection = λ t d changed given.
          let (row, there, same) = get_by_id-row changed.id t d given in
          (stored changed, get_by_id-update t changed row there, stored-is_connected changed);
    }
