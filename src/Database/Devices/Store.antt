-- ===== src/Database/Devices/Store.antt =====
-- What clients of the device repository observe over any sequence of calls.
use iot_dashboard_flutter.Common.{
  ℕ, ◌-◌, ◌%◌, arith, Bool, true, false, not, ◌&&◌, ◌==◌, str_instance, nat_eq, if◌then◌else◌, List,
  [], ◌∷◌, Option, none, some, Str, ◌≡◌, refl, sym, ap, ap₂, ◌∙◌, Option-cases, inl, inr,
  Bool-cases,
}
use iot_dashboard_flutter.Errors.{Result, ok, err, device_not_found}
use iot_dashboard_flutter.Devices.Manager.{DeviceInfo}
use iot_dashboard_flutter.Database.Columns.{
  to_unix_ms, from_unix_ms, up_to_zero, get_text-up_to_zero,
}
use iot_dashboard_flutter.Database.Devices.{
  DeviceRow, DeviceTable, device_to_row, row_to_device, changed, get_by_id, add, update, remove,
}

unfoldable pub is_some : {A : Type 0} → Option A → Bool
is_some none = false
is_some (some a) = true

-- SQL on a table whose primary key is the id.
pub record IsTable {T : Type 0} (table : DeviceTable T) : Type 0 where
  pub select-key :
      (key : Str) (row : DeviceRow) (t : T) → table.select_by_id key t ≡ some row → row.id ≡ key
  pub select-insert :
      (key : Str) (row : DeviceRow) (t : T)
      → table.select_by_id key (table.insert_row row t) ≡ (
          if not (is_some (table.select_by_id row.id t)) && row.id == key
          then some row
          else table.select_by_id key t)
  pub select-update :
      (key : Str) (row : DeviceRow) (t : T)
      → table.select_by_id key (table.update_row row t).0 ≡ (
          if is_some (table.select_by_id row.id t) && row.id == key
          then some row
          else table.select_by_id key t)
  pub changes-update :
      (row : DeviceRow) (t : T)
      → (table.update_row row t).1 ≡ (if is_some (table.select_by_id row.id t) then 1 else 0)
  pub select-delete :
      (id key : Str) (t : T)
      → table.select_by_id key (table.delete_by_id id t).0
        ≡ (if id == key then none else table.select_by_id key t)
  pub changes-delete :
      (id : Str) (t : T)
      → (table.delete_by_id id t).1 ≡ (if is_some (table.select_by_id id t) then 1 else 0)

-- The calls, and what they answer.
pub data Call : Type 0 where
  adds updates : DeviceInfo → Call
  removes gets : Str → Call

pub data Reply : Type 0 where
  done : Result (Unit {0}) → Reply
  gives : Result DeviceInfo → Reply

-- A device as it is kept: each text up to its first byte 0, and whole milliseconds of the time.
unfoldable pub kept : DeviceInfo → DeviceInfo
unfolding up_to_zero
kept d = record {
  id = up_to_zero d.id;
  name = up_to_zero d.name;
  type = up_to_zero d.type;
  protocol = up_to_zero d.protocol;
  address = up_to_zero d.address;
  is_connected = d.is_connected;
  last_seen = d.last_seen - d.last_seen % 1000000;
}

whole_ms : (timestamp : ℕ) → from_unix_ms (to_unix_ms timestamp) ≡ timestamp - timestamp % 1000000
unfolding from_unix_ms to_unix_ms
whole_ms timestamp = omega arith

as_flag : (b : Bool) → not (◌==◌ {K = ℕ} (if b then 1 else 0) 0) ≡ b
as_flag true = refl
as_flag false = refl

row_to_device-device_to_row : (d : DeviceInfo) → row_to_device (device_to_row d) ≡ kept d
unfolding row_to_device device_to_row kept
row_to_device-device_to_row d = λ i. record {
  id = get_text-up_to_zero d.id i;
  name = get_text-up_to_zero d.name i;
  type = get_text-up_to_zero d.type i;
  protocol = get_text-up_to_zero d.protocol i;
  address = get_text-up_to_zero d.address i;
  is_connected = as_flag d.is_connected i;
  last_seen = whole_ms d.last_seen i;
}

unfoldable pub found : Option DeviceInfo → Result DeviceInfo
found none = err device_not_found
found (some d) = ok d

unfoldable pub when_known : Bool → Result (Unit {0})
when_known known = if known then ok tt else err device_not_found

-- The same calls on a map from ids to devices.
unfoldable pub abstract_call : Call → (Str → Option DeviceInfo) → (Str → Option DeviceInfo) × Reply
unfolding is_some kept found when_known
abstract_call (adds d) m =
    (λ key. if not (is_some (m d.id)) && d.id == key then some (kept d) else m key, done (ok tt))
abstract_call (updates d) m = (
  λ key. if is_some (m d.id) && d.id == key then some (kept d) else m key,
  done (when_known (is_some (m d.id))),
)
abstract_call (removes id) m =
    (λ key. if id == key then none else m key, done (when_known (is_some (m id))))
abstract_call (gets id) m = (m, gives (found (m id)))

unfoldable pub replay :
    List Call → (Str → Option DeviceInfo) → (Str → Option DeviceInfo) × List Reply
unfolding abstract_call
replay [] m = (m, [])
replay (c ∷ cs) m =
    let one = abstract_call c m in let rest = replay cs one.0 in (rest.0, one.1 ∷ rest.1)

unfoldable pub shown : Option DeviceRow → Option DeviceInfo
shown none = none
shown (some row) = some (row_to_device row)

shown-if :
    (b : Bool) (row : DeviceRow) (other : Option DeviceRow)
    → shown (if b then some row else other) ≡ (if b then some (row_to_device row) else shown other)
unfolding shown
shown-if true row other = refl
shown-if false row other = refl

shown-if_none :
    (b : Bool) (other : Option DeviceRow)
    → shown (if b then none else other) ≡ (if b then none else shown other)
unfolding shown
shown-if_none true other = refl
shown-if_none false other = refl

is_some-shown : (o : Option DeviceRow) → is_some (shown o) ≡ is_some o
unfolding is_some shown
is_some-shown none = refl
is_some-shown (some row) = refl

pub changed-table : {T : Type 0} (r : T × ℕ) → (changed r).0 ≡ r.0
unfolding changed
changed-table (t, changes) = elim (Bool-cases (changes == 0)) [ inl e ↦ rw e | inr e ↦ rw e ]

changed-reply :
    {T : Type 0} (r : T × ℕ) (known : Bool)
    → r.1 ≡ (if known then 1 else 0)
    → (changed r).1 ≡ when_known known
unfolding changed when_known
changed-reply (t, changes) true e = rw e
changed-reply (t, changes) false e = rw e

module _ {T : Type 0} (table : DeviceTable T) where
  -- What the table holds, as a map.
  unfoldable pub view : T → Str → Option DeviceInfo
  unfolding shown
  view t key = shown (table.select_by_id key t)

  unfoldable pub call : Call → T → T × Reply
  unfolding add update remove get_by_id
  call (adds d) t = ((add table d t).0, done (add table d t).1)
  call (updates d) t = ((update table d t).0, done (update table d t).1)
  call (removes id) t = ((remove table id t).0, done (remove table id t).1)
  call (gets id) t = (t, gives (get_by_id table id t))

  unfoldable pub run : List Call → T → T × List Reply
  unfolding call
  run [] t = (t, [])
  run (c ∷ cs) t = let one = call c t in let rest = run cs one.0 in (rest.0, one.1 ∷ rest.1)

  module _ (sql : IsTable table) where
    call-adds :
        (d : DeviceInfo) (t : T)
        → (view (call (adds d) t).0 ≡ (abstract_call (adds d) (view t)).0)
          × ((call (adds d) t).1 ≡ (abstract_call (adds d) (view t)).1)
    unfolding call view add abstract_call
    call-adds d t = (
      λ i key.
          (ap shown (sql.select-insert key (device_to_row d) t)
              ∙ shown-if (not (is_some (table.select_by_id d.id t)) && d.id == key)
                  (device_to_row d) (table.select_by_id key t)
              ∙ ap
                  (λ b.
                    if not b && d.id == key
                    then some (row_to_device (device_to_row d))
                    else shown (table.select_by_id key t))
                  (sym (is_some-shown (table.select_by_id d.id t)))
              ∙ ap (λ e. if not (is_some (view t d.id)) && d.id == key then some e else view t key)
                  (row_to_device-device_to_row d))
            i,
      refl,
    )

    call-updates :
        (d : DeviceInfo) (t : T)
        → (view (call (updates d) t).0 ≡ (abstract_call (updates d) (view t)).0)
          × ((call (updates d) t).1 ≡ (abstract_call (updates d) (view t)).1)
    unfolding call view update abstract_call
    call-updates d t = (
      λ i key.
          (ap (λ u. view u key) (changed-table (table.update_row (device_to_row d) t))
              ∙ ap shown (sql.select-update key (device_to_row d) t)
              ∙ shown-if (is_some (table.select_by_id d.id t) && d.id == key) (device_to_row d)
                  (table.select_by_id key t)
              ∙ ap
                  (λ b.
                    if b && d.id == key
                    then some (row_to_device (device_to_row d))
                    else shown (table.select_by_id key t))
                  (sym (is_some-shown (table.select_by_id d.id t)))
              ∙ ap (λ e. if is_some (view t d.id) && d.id == key then some e else view t key)
                  (row_to_device-device_to_row d))
            i,
      ap done (
          changed-reply (table.update_row (device_to_row d) t) (is_some (table.select_by_id d.id t))
            (sql.changes-update (device_to_row d) t)
          ∙ ap when_known (sym (is_some-shown (table.select_by_id d.id t)))),
    )

    call-removes :
        (id : Str) (t : T)
        → (view (call (removes id) t).0 ≡ (abstract_call (removes id) (view t)).0)
          × ((call (removes id) t).1 ≡ (abstract_call (removes id) (view t)).1)
    unfolding call view remove abstract_call
    call-removes id t = (
      λ i key.
          (ap (λ u. view u key) (changed-table (table.delete_by_id id t))
              ∙ ap shown (sql.select-delete id key t)
              ∙ shown-if_none (id == key) (table.select_by_id key t))
            i,
      ap done (
          changed-reply (table.delete_by_id id t) (is_some (table.select_by_id id t))
            (sql.changes-delete id t)
          ∙ ap when_known (sym (is_some-shown (table.select_by_id id t)))),
    )

    found-shown : (id : Str) (t : T) → get_by_id table id t ≡ found (view t id)
    unfolding get_by_id view found shown
    found-shown id t = elim (Option-cases (table.select_by_id id t)) [
      | inl absent ↦ rw (absent, get_by_id, shown)
      | inr (row, there) ↦ rw (there, get_by_id, shown)
    ]

    call-abstract_call :
        (c : Call) (t : T)
        → (view (call c t).0 ≡ (abstract_call c (view t)).0)
          × ((call c t).1 ≡ (abstract_call c (view t)).1)
    unfolding call abstract_call
    call-abstract_call (adds d) t = call-adds d t
    call-abstract_call (updates d) t = call-updates d t
    call-abstract_call (removes id) t = call-removes id t
    call-abstract_call (gets id) t = (refl, ap gives (found-shown id t))

    -- Over any sequence of calls the repository answers as a map from ids to devices does, and holds what
    -- the map then holds: adding is always answered with success and keeps a device whose id is known,
    -- updating and removing give device_not_found for an id that is not. Devices are held as they were
    -- given, but for the time, which is cut to whole milliseconds, and each text, which ends before its
    -- first byte 0. The statements do what SQL says on a table with the id as its key.
    pub run-replay :
        (calls : List Call) (t : T)
        → (view (run calls t).0 ≡ (replay calls (view t)).0)
          × ((run calls t).1 ≡ (replay calls (view t)).1)
    unfolding run replay
    run-replay [] t = (refl, refl)
    run-replay (c ∷ cs) t =
        let one = call-abstract_call c t in
        let rest = run-replay cs (call c t).0 in
        (
          rest.0 ∙ ap (λ m. (replay cs m).0) one.0,
          ap₂ (λ r rs. r ∷ rs) one.1 (rest.1 ∙ ap (λ m. (replay cs m).1) one.0),
        )
