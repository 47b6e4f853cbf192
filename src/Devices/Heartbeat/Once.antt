-- ===== src/Devices/Heartbeat/Once.antt =====
-- A device that stays silent is reported once.
use iot_dashboard_flutter.Common.{
  ℕ, suc, ◌+◌, ◌≤◌, Bool, true, false, not, ◌&&◌, ◌==◌, str_instance, if◌then◌else◌, List, [], ◌∷◌,
  ◌++◌, Option, none, some, Str, ◌≡◌, refl, subst, ap, ◌∙◌, arith, inl, inr, Bool-cases,
  Option-cases,
}
use iot_dashboard_flutter.Common.Map.{lookup, insert, erase, contains, lookup-erase, lookup-insert}
use iot_dashboard_flutter.Common.Unique.{IsUnique, insert-IsUnique, erase-IsUnique}
use iot_dashboard_flutter.Devices.Heartbeat.{
  DeviceRecord, HeartbeatMonitor, is_due, scan, poll, register, unregister, record_heartbeat,
  set_timeout_callback, start, stop, call_all, Event, registered, unregistered, heartbeat,
  callback_set, started, stopped, polled, step,
}

contains-scan :
    (now : ℕ) (j : Str) (m : List (Str × DeviceRecord)) → contains j (scan now m).0 ≡ contains j m
unfolding contains scan
contains-scan now j [] = refl
contains-scan now j ((i, r) ∷ m) = elim (Bool-cases (is_due now r)) [
  | inl due ↦ rw (due, contains-scan now j m)
  | inr not_due ↦ rw (not_due, contains-scan now j m)
]

scan-IsUnique : (now : ℕ) (m : List (Str × DeviceRecord)) → IsUnique m → IsUnique (scan now m).0
unfolding IsUnique scan
scan-IsUnique now [] u = tt
scan-IsUnique now ((i, r) ∷ m) u = elim (Bool-cases (is_due now r)) [
  | inl due ↦ rw (due, contains-scan now i m) (u.0, scan-IsUnique now m u.1)
  | inr not_due ↦ rw (not_due, contains-scan now i m) (u.0, scan-IsUnique now m u.1)
]

-- How often a list of devices names one.
count : Str → List Str → ℕ
count id [] = 0
count id (i ∷ ids) = let rest = count id ids in if i == id then suc rest else rest

armed_record : Option DeviceRecord → ℕ
armed_record none = 0
armed_record (some r) = if r.timed_out then 0 else 1

-- 1 where the device may still be reported.
unfoldable pub armed : Str → List (Str × DeviceRecord) → ℕ
unfolding armed_record
armed id devices = armed_record (lookup id devices)

armed-le_one : (id : Str) (m : List (Str × DeviceRecord)) → armed id m ≤ 1
unfolding armed armed_record
armed-le_one id m = ground arith

armed-absent : (id : Str) (m : List (Str × DeviceRecord)) → contains id m ≡ false → armed id m ≡ 0
unfolding armed contains lookup armed_record
armed-absent id [] h = refl
armed-absent id ((i, r) ∷ m) h = ground (arith, h, armed-absent id m)

count-scan_absent :
    (now : ℕ) (id : Str) (m : List (Str × DeviceRecord))
    → contains id m ≡ false
    → count id (scan now m).1 ≡ 0
unfolding contains scan count
count-scan_absent now id [] h = refl
count-scan_absent now id ((i, r) ∷ m) h = elim (Bool-cases (is_due now r)) [
  | inl due ↦ rw (due) (ground (arith, h, count-scan_absent now id m))
  | inr not_due ↦ rw (not_due) (ground (arith, h, count-scan_absent now id m))
]

is_due-fresh : (now : ℕ) (r : DeviceRecord) → is_due now r ≡ true → r.timed_out ≡ false
unfolding is_due
is_due-fresh now r h = ground (arith, h)

-- A report uses up what is armed.
count-scan :
    (now : ℕ) (id : Str) (m : List (Str × DeviceRecord))
    → IsUnique m
    → count id (scan now m).1 + armed id (scan now m).0 ≡ armed id m
unfolding IsUnique scan count armed lookup armed_record
count-scan now id [] u = refl
count-scan now id ((i, r) ∷ m) u = elim (Bool-cases (i == id)) [
  | inl same ↦
      let absent = subst (λ x. contains x m ≡ false) ((str_instance.beq_iff i id).0 same) u.0 in
      elim (Bool-cases (is_due now r)) [
        | inl due ↦ rw (due, same, count-scan_absent now id m absent, is_due-fresh now r due)
        | inr not_due ↦ rw (not_due, same, count-scan_absent now id m absent) (omega arith)
      ]
  | inr other ↦ elim (Bool-cases (is_due now r)) [
    | inl due ↦ rw (due, other) (count-scan now id m u.1)
    | inr not_due ↦ rw (not_due, other) (count-scan now id m u.1)
  ]
]

armed-insert :
    (i id : Str) (v : DeviceRecord) (m : List (Str × DeviceRecord))
    → (i == id) ≡ false
    → armed id (insert i v m) ≡ armed id m
unfolding armed
armed-insert i id v m h = rw (lookup-insert i id v m, h)

armed-erase : (i id : Str) (m : List (Str × DeviceRecord)) → armed id (erase i m) ≤ armed id m
unfolding armed armed_record
armed-erase i id m = ground (arith, lookup-erase i id m)

record_or : DeviceRecord → Option DeviceRecord → DeviceRecord
record_or default none = default
record_or default (some r) = r

armed-due :
    (now : ℕ) (id : Str) (r : DeviceRecord) (m : List (Str × DeviceRecord))
    → lookup id m ≡ some r
    → is_due now r ≡ true
    → armed id m ≡ 1
unfolding armed armed_record
armed-due now id r m found due = rw (found, is_due-fresh now r due)

lookup-scan_due :
    (now : ℕ) (id : Str) (r : DeviceRecord) (m : List (Str × DeviceRecord))
    → lookup id m ≡ some r
    → is_due now r ≡ true
    → armed id (scan now m).0 ≡ 0
unfolding lookup scan armed armed_record record_or
lookup-scan_due now id r [] found due = absurd (ground (arith, found))
lookup-scan_due now id r ((i, w) ∷ m) found due = elim (Bool-cases (i == id)) [
  | inl same ↦
      let found_here : some w ≡ some r = rw (same) at found in
      let reported : is_due now w ≡ true = ap (λ o. is_due now (record_or w o)) found_here ∙ due in
      rw (reported, same)
  | inr other ↦ elim (Bool-cases (is_due now w)) [
    | inl reported ↦ rw (reported, other) (lookup-scan_due now id r m (rw (other) at found) due)
    | inr quiet ↦ rw (quiet, other) (lookup-scan_due now id r m (rw (other) at found) due)
  ]
]

module _ {C : Type 0} where
  -- How often the calls of a callback name a device.
  unfoldable pub reports : Str → List (C × Str) → ℕ
  reports id [] = 0
  reports id ((cb, i) ∷ calls) = let rest = reports id calls in if i == id then suc rest else rest

  -- The event is news of the device: a heartbeat, or that it is registered again.
  unfoldable pub is_news : Str → Event C → Bool
  is_news id (registered i timeout) = i == id
  is_news id (heartbeat i) = i == id
  is_news id _ = false

  reports-append :
      (id : Str) (xs ys : List (C × Str)) → reports id (xs ++ ys) ≡ reports id xs + reports id ys
  unfolding reports
  reports-append id [] ys = omega arith
  reports-append id ((cb, i) ∷ xs) ys = ground (arith, reports-append id xs ys)

  reports-call_all :
      (id : Str) (cb : Option C) (ids : List Str) → reports id (call_all cb ids) ≤ count id ids
  unfolding reports count call_all
  reports-call_all id none ids = omega arith
  reports-call_all id (some cb) [] = omega arith
  reports-call_all id (some cb) (i ∷ ids) = ground (arith, reports-call_all id (some cb) ids)

  reports-call_all-some :
      (id : Str) (cb : C) (ids : List Str) → reports id (call_all (some cb) ids) ≡ count id ids
  unfolding reports count call_all
  reports-call_all-some id cb [] = refl
  reports-call_all-some id cb (i ∷ ids) = ground (arith, reports-call_all-some id cb ids)

  step-IsUnique :
      (now : ℕ) (e : Event C) (m : HeartbeatMonitor C)
      → IsUnique m.devices
      → IsUnique (step now e m).0.devices
  unfolding step register unregister set_timeout_callback start stop record_heartbeat IsUnique poll
      scan
  step-IsUnique now (registered i timeout) m u = insert-IsUnique i _ m.devices u
  step-IsUnique now (unregistered i) m u = erase-IsUnique i m.devices u
  step-IsUnique now (heartbeat i) m u = elim (Option-cases (lookup i m.devices)) [
    | inl missing ↦ rw (missing, record_heartbeat) u
    | inr (r, found) ↦ rw (found, record_heartbeat) (insert-IsUnique i _ m.devices u)
  ]
  step-IsUnique now (callback_set cb) m u = u
  step-IsUnique now started m u = u
  step-IsUnique now stopped m u = u
  step-IsUnique now polled m u = elim (Bool-cases m.running) [
    | inl running ↦ rw (running, poll) (scan-IsUnique now m.devices u)
    | inr halted ↦ rw (halted, poll) u
  ]

  step-armed :
      (now : ℕ) (id : Str) (e : Event C) (m : HeartbeatMonitor C)
      → IsUnique m.devices
      → is_news id e ≡ false
      → reports id (step now e m).1 + armed id (step now e m).0.devices ≤ armed id m.devices
  unfolding step register unregister set_timeout_callback start stop is_news reports
      record_heartbeat poll
  step-armed now id (registered i timeout) m u h = omega (arith, armed-insert i id _ m.devices h)
  step-armed now id (unregistered i) m u h = omega (arith, armed-erase i id m.devices)
  step-armed now id (heartbeat i) m u h = elim (Option-cases (lookup i m.devices)) [
    | inl missing ↦ rw (missing, record_heartbeat) (omega arith)
    | inr (r, found) ↦ rw (found, record_heartbeat) (omega (arith, armed-insert i id _ m.devices h))
  ]
  step-armed now id (callback_set cb) m u h = omega arith
  step-armed now id started m u h = omega arith
  step-armed now id stopped m u h = omega arith
  step-armed now id polled m u h = elim (Bool-cases m.running) [
    | inl running ↦
        rw (running, poll)
          (omega (
            arith,
            count-scan now id m.devices u,
            reports-call_all id m.timeout_callback (scan now m.devices).1,
          ))
    | inr halted ↦ rw (halted, poll) (omega arith)
  ]

  -- The events in order, and the calls they make.
  unfoldable pub run : List (ℕ × Event C) → HeartbeatMonitor C → HeartbeatMonitor C × List (C × Str)
  run [] m = (m, [])
  run ((now, e) ∷ events) m =
      let rest = run events (step now e m).0 in (rest.0, (step now e m).1 ++ rest.1)

  unfoldable pub is_silent : Str → List (ℕ × Event C) → Bool
  is_silent id [] = true
  is_silent id ((now, e) ∷ events) = not (is_news id e) && is_silent id events

  run-reports :
      (id : Str) (events : List (ℕ × Event C)) (m : HeartbeatMonitor C)
      → IsUnique m.devices
      → is_silent id events ≡ true
      → reports id (run events m).1 ≤ armed id m.devices
  unfolding run is_silent reports
  run-reports id [] m u h = omega arith
  run-reports id ((now, e) ∷ events) m u h =
      rw (reports-append id (step now e m).1 (run events (step now e m).0).1) (
        omega (
          arith,
          step-armed now id e m u (ground (arith, h)),
          run-reports id events (step now e m).0 (step-IsUnique now e m u) (ground (arith, h)),
        ))

  poll-due :
      (now : ℕ) (id : Str) (m : HeartbeatMonitor C) (r : DeviceRecord) (cb : C)
      → IsUnique m.devices
      → lookup id m.devices ≡ some r
      → is_due now r ≡ true
      → m.running ≡ true
      → m.timeout_callback ≡ some cb
      → reports id (poll now m).1 ≡ 1
  unfolding poll
  poll-due now id m r cb u found due running called =
      rw (running, called, poll)
        (omega (
          arith,
          reports-call_all-some id cb (scan now m.devices).1,
          count-scan now id m.devices u,
          lookup-scan_due now id r m.devices found due,
          armed-due now id r m.devices found due,
        ))

  -- Over any course of events, with rounds, other devices and restarts in any order, in which a device
  -- sends no heartbeat and is not registered again, it is reported at most once.
  reports-run_at_most_once :
      (id : Str) (events : List (ℕ × Event C)) (m : HeartbeatMonitor C)
      → IsUnique m.devices
      → is_silent id events ≡ true
      → reports id (run events m).1 ≤ 1
  reports-run_at_most_once id events m u h =
      omega (arith, run-reports id events m u h, armed-le_one id m.devices)

  -- Where a round finds that a registered device has been silent for its timeout, the monitor runs
  -- and has a callback, the device is reported exactly once by that round and whatever follows it,
  -- until the next heartbeat or registration.
  pub reports-run_once :
      (now : ℕ) (id : Str) (events : List (ℕ × Event C)) (m : HeartbeatMonitor C) (r : DeviceRecord)
      (cb : C)
      → IsUnique m.devices
      → lookup id m.devices ≡ some r
      → is_due now r ≡ true
      → m.running ≡ true
      → m.timeout_callback ≡ some cb
      → is_silent id events ≡ true
      → reports id (run ((now, polled) ∷ events) m).1 ≡ 1
  unfolding run step is_silent is_news
  reports-run_once now id events m r cb u found due running called h =
      let later = reports-run_at_most_once id ((now, polled) ∷ events) m u h in
      rw (reports-append id (poll now m).1 (run events (poll now m).0).1) (
        omega (
          arith,
          later,
          reports-append id (poll now m).1 (run events (poll now m).0).1,
          poll-due now id m r cb u found due running called,
        ))
