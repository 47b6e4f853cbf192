-- ===== src/Devices/Heartbeat.antt =====
-- src/devices/heartbeat_monitor.cpp and .hpp. Times are ticks of the system clock (nanoseconds since the
-- epoch); timeouts are whole seconds, not negative. A callback is a value of `C`; what a round of the
-- poll loop calls is its result. The thread, its sleeping and its joining are not modelled.
pub mod Once
use iot_dashboard_flutter.Common.{
  ℕ, zero, suc, ◌+◌, ◌-◌, ◌/◌, Bool, true, false, not, ◌&&◌, leb, nat_beq, if◌then◌else◌, List, [],
  ◌∷◌, map, Option, none, some, Str, str_instance,
}
use iot_dashboard_flutter.Common.Map.{lookup, insert, erase}
use iot_dashboard_flutter.Json.{ℤ, pos, negsuc}

pub record DeviceRecord : Type 0 where
  pub timeout : ℕ
  pub last_seen : ℕ
  pub timed_out : Bool

pub record HeartbeatMonitor (C : Type 0) : Type 0 where
  pub poll_interval : ℕ
  pub devices : List (Str × DeviceRecord)
  pub timeout_callback : Option C
  pub running : Bool

abbrev ticks_per_second : ℕ
ticks_per_second = 1000000000

minus : ℕ → ℤ
minus zero = pos 0
minus (suc n) = negsuc n

-- `duration_cast< seconds >( now - since )`, rounded towards zero
unfoldable pub seconds_between : ℕ → ℕ → ℤ
unfolding minus
seconds_between now since =
    if leb since now
    then pos ((now - since) / ticks_per_second)
    else minus ((since - now) / ticks_per_second)

unfoldable pub at_least : ℤ → ℕ → Bool
at_least (pos n) bound = leb bound n
at_least (negsuc n) bound = false

-- Whether a round of the poll loop at `now` reports the device.
unfoldable pub is_due : ℕ → DeviceRecord → Bool
is_due now record_ =
    at_least (seconds_between now record_.last_seen) record_.timeout && not record_.timed_out

-- The loop of a round over the devices: their new records, and those that timed out.
unfoldable pub scan : ℕ → List (Str × DeviceRecord) → List (Str × DeviceRecord) × List Str
scan now [] = ([], [])
scan now ((id, r) ∷ devices) =
    let rest = scan now devices in
    if is_due now r
    then ((id, record r { timed_out = true }) ∷ rest.0, id ∷ rest.1)
    else ((id, r) ∷ rest.0, rest.1)

module _ {C : Type 0} where
  unfoldable pub new_monitor : ℕ → HeartbeatMonitor C
  new_monitor poll_interval = record {
    poll_interval = poll_interval;
    devices = [];
    timeout_callback = none;
    running = false;
  }

  unfoldable pub register : ℕ → Str → ℕ → HeartbeatMonitor C → HeartbeatMonitor C
  register now device_id timeout monitor = record monitor {
    devices =
        insert device_id (record { timeout = timeout; last_seen = now; timed_out = false })
          monitor.devices;
  }

  unfoldable pub unregister : Str → HeartbeatMonitor C → HeartbeatMonitor C
  unregister device_id monitor = record monitor { devices = erase device_id monitor.devices }

  unfoldable pub record_heartbeat : ℕ → Str → HeartbeatMonitor C → HeartbeatMonitor C
  record_heartbeat now device_id monitor = elim (lookup device_id monitor.devices) [
    | none ↦ monitor
    | some r ↦ record monitor {
      devices = insert device_id (record r { last_seen = now; timed_out = false }) monitor.devices;
    }
  ]

  unfoldable pub set_timeout_callback : C → HeartbeatMonitor C → HeartbeatMonitor C
  set_timeout_callback cb monitor = record monitor { timeout_callback = some cb }

  -- `m_running` is set, and the thread starts where it was not.
  unfoldable pub start : HeartbeatMonitor C → HeartbeatMonitor C
  start monitor = record monitor { running = true }

  unfoldable pub stop : HeartbeatMonitor C → HeartbeatMonitor C
  stop monitor = record monitor { running = false }

  unfoldable pub time_since_last_seen : ℕ → Str → HeartbeatMonitor C → Option ℤ
  time_since_last_seen now device_id monitor = elim (lookup device_id monitor.devices) [
    | none ↦ none
    | some r ↦ some (seconds_between now r.last_seen)
  ]

  call_all : Option C → List Str → List (C × Str)
  call_all none ids = []
  call_all (some cb) ids = map (λ id. (cb, id)) ids

  -- A round of the poll loop at `now`, after its sleep, and the calls it makes.
  unfoldable pub poll : ℕ → HeartbeatMonitor C → HeartbeatMonitor C × List (C × Str)
  unfolding call_all
  poll now monitor =
      if monitor.running
      then (
        record monitor { devices = (scan now monitor.devices).0 },
        call_all monitor.timeout_callback (scan now monitor.devices).1,
      )
      else (monitor, [])

-- What can happen to a monitor, the mutex making each a single step.
pub data Event (C : Type 0) : Type 0 where
  registered : Str → ℕ → Event C
  unregistered : Str → Event C
  heartbeat : Str → Event C
  callback_set : C → Event C
  started stopped polled : Event C

module _ {C : Type 0} where
  unfoldable pub step : ℕ → Event C → HeartbeatMonitor C → HeartbeatMonitor C × List (C × Str)
  step now (registered device_id timeout) m = (register now device_id timeout m, [])
  step now (unregistered device_id) m = (unregister device_id m, [])
  step now (heartbeat device_id) m = (record_heartbeat now device_id m, [])
  step now (callback_set cb) m = (set_timeout_callback cb m, [])
  step now started m = (start m, [])
  step now stopped m = (stop m, [])
  step now polled m = poll now m
