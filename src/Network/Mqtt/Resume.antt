-- ===== src/Network/Mqtt/Resume.antt =====
-- Subscriptions survive a lost connection.
use iot_dashboard_flutter.Common.{
  Bool, true, false, ◌&&◌, ◌==◌, str_instance, if◌then◌else◌, List, [], ◌∷◌, Option, none, some,
  Str, ◌≡◌, ◌↔◌, refl, sym, ap, ap₂, subst, ◌∙◌, arith, inl, inr, Bool-cases,
}
use iot_dashboard_flutter.Common.Any.{Any}
use iot_dashboard_flutter.Common.Unique.{IsUnique, insert-IsUnique, erase-IsUnique, Any-lookup}
use iot_dashboard_flutter.Common.Map.{lookup, insert, lookup-insert, lookup-erase}
use iot_dashboard_flutter.Network.Mqtt.{
  Qos, PahoCall, subscribe_call, MqttClient, new_client, begin_connect, disconnect, subscribe,
  unsubscribe, set_message_callback, resubscribe_all, on_connected, on_connection_lost,
  on_connect_success, on_connect_failure,
}

-- What happens to a client: calls of it, and what Paho reports. Publish and the arrival of a message
-- leave it as it is.
pub data Event (C : Type 0) : Type 0 where
  connects disconnects connected lost succeeded failed : Event C
  subscribes : Str → Qos → Bool → Event C
  unsubscribes : Str → Event C
  callback_set : C → Event C

resubscribe_all-Any :
    (call : PahoCall) (subs : List (Str × Qos))
    → Any (λ c. c ≡ call) (resubscribe_all subs)
      ↔ Any (λ entry. subscribe_call entry.0 entry.1 ≡ call) subs
unfolding resubscribe_all Any
resubscribe_all-Any call [] = (λ h. h, λ h. h)
resubscribe_all-Any call ((topic, qos) ∷ rest) =
    let ih = resubscribe_all-Any call rest in
    (
      λ h. elim h [ inl this ↦ inl this | inr later ↦ inr (ih.0 later) ],
      λ h. elim h [ inl this ↦ inl this | inr later ↦ inr (ih.1 later) ],
    )

topic_of : Str → PahoCall → Str
topic_of default (subscribe_call topic qos) = topic
topic_of default _ = default

qos_of : Qos → PahoCall → Qos
qos_of default (subscribe_call topic qos) = qos
qos_of default _ = default

module _ {C : Type 0} where
  unfoldable pub step : Event C → MqttClient C → MqttClient C
  step connects m = (begin_connect m).0
  step disconnects m = (disconnect m).0
  step connected m = (on_connected m).0
  step lost m = on_connection_lost m
  step succeeded m = on_connect_success m
  step failed m = on_connect_failure m
  step (subscribes topic qos accepted) m = (subscribe topic qos accepted m).0
  step (unsubscribes topic) m = (unsubscribe topic m).0
  step (callback_set callback) m = set_message_callback callback m

  unfoldable pub run : List (Event C) → MqttClient C → MqttClient C
  run [] m = m
  run (e ∷ events) m = run events (step e m)

  -- Whether the client is connected after an event, and the quality of service it owes to a topic: that
  -- of the last subscription that succeeded, until it is taken back.
  pub is_up : Event C → Bool → Bool
  is_up connected up = true
  is_up lost up = false
  is_up disconnects up = false
  is_up _ up = up

  pub owed_after : Str → Event C → Bool → Option Qos → Option Qos
  owed_after t (subscribes topic qos accepted) up owed =
      if up && (accepted && topic == t) then some qos else owed
  owed_after t (unsubscribes topic) up owed = if topic == t then none else owed
  owed_after t _ up owed = owed

  unfoldable pub owed : Str → List (Event C) → Bool → Option Qos → Option Qos
  unfolding is_up owed_after
  owed t [] up before = before
  owed t (e ∷ events) up before = owed t events (is_up e up) (owed_after t e up before)

  step-connected : (e : Event C) (m : MqttClient C) → (step e m).connected ≡ is_up e m.connected
  unfolding step is_up begin_connect disconnect on_connected on_connection_lost on_connect_success
      on_connect_failure subscribe unsubscribe set_message_callback
  step-connected connects m = refl
  step-connected disconnects m = ground arith
  step-connected connected m = refl
  step-connected lost m = refl
  step-connected succeeded m = refl
  step-connected failed m = refl
  step-connected (subscribes topic qos accepted) m = ground arith
  step-connected (unsubscribes topic) m = refl
  step-connected (callback_set callback) m = refl

  step-owed :
      (t : Str) (e : Event C) (m : MqttClient C)
      → lookup t (step e m).subscriptions ≡ owed_after t e m.connected (lookup t m.subscriptions)
  unfolding step owed_after begin_connect disconnect on_connected on_connection_lost
      on_connect_success on_connect_failure subscribe unsubscribe set_message_callback
  step-owed t connects m = refl
  step-owed t disconnects m = ground arith
  step-owed t connected m = refl
  step-owed t lost m = refl
  step-owed t succeeded m = refl
  step-owed t failed m = refl
  step-owed t (subscribes topic qos accepted) m =
      ground (arith, lookup-insert topic t qos m.subscriptions)
  step-owed t (unsubscribes topic) m = lookup-erase topic t m.subscriptions
  step-owed t (callback_set callback) m = refl

  subscribe-subscriptions :
      (topic : Str) (qos : Qos) (accepted : Bool) (m : MqttClient C)
      → (subscribe topic qos accepted m).0.subscriptions
        ≡ (if m.connected && accepted then insert topic qos m.subscriptions else m.subscriptions)
  unfolding subscribe
  subscribe-subscriptions topic qos accepted m = ground arith

  step-IsUnique :
      (e : Event C) (m : MqttClient C)
      → IsUnique m.subscriptions
      → IsUnique (step e m).subscriptions
  unfolding step begin_connect disconnect on_connected on_connection_lost on_connect_success
      on_connect_failure subscribe unsubscribe set_message_callback
  step-IsUnique connects m u = u
  step-IsUnique disconnects m u = elim (Bool-cases m.connected) [
    | inl up ↦ rw (up, disconnect) u
    | inr down ↦ rw (down, disconnect) u
  ]
  step-IsUnique connected m u = u
  step-IsUnique lost m u = u
  step-IsUnique succeeded m u = u
  step-IsUnique failed m u = u
  step-IsUnique (subscribes topic qos accepted) m u =
      subst (λ subs. IsUnique subs) (sym (subscribe-subscriptions topic qos accepted m))
        (elim (Bool-cases (m.connected && accepted)) [
          | inl succeeds ↦ rw (succeeds) (insert-IsUnique topic qos m.subscriptions u)
          | inr fails ↦ rw (fails) u
        ])
  step-IsUnique (unsubscribes topic) m u = erase-IsUnique topic m.subscriptions u
  step-IsUnique (callback_set callback) m u = u

  run-owed :
      (t : Str) (events : List (Event C)) (m : MqttClient C)
      → lookup t (run events m).subscriptions ≡ owed t events m.connected (lookup t m.subscriptions)
  unfolding run owed
  run-owed t [] m = refl
  run-owed t (e ∷ events) m =
      run-owed t events (step e m) ∙ ap₂ (owed t events) (step-connected e m) (step-owed t e m)

  run-IsUnique :
      (events : List (Event C)) (m : MqttClient C)
      → IsUnique m.subscriptions
      → IsUnique (run events m).subscriptions
  unfolding run
  run-IsUnique [] m u = u
  run-IsUnique (e ∷ events) m u = run-IsUnique events (step e m) (step-IsUnique e m u)

  -- After any history of a new client, reconnecting asks Paho for exactly the subscriptions that are
  -- owed: those of the topics whose last accepted subscription has not been taken back, each at its
  -- last quality of service.
  pub on_connected-resubscribes :
      (events : List (Event C)) (t : Str) (qos : Qos)
      → Any (λ call. call ≡ subscribe_call t qos) (on_connected (run events new_client)).1
        ↔ (owed t events false none ≡ some qos)
  unfolding on_connected IsUnique new_client lookup topic_of qos_of
  on_connected-resubscribes events t qos =
      let subs = (run events (new_client {C = C})).subscriptions in
      let u : IsUnique subs = run-IsUnique events new_client tt in
      let owes : lookup t subs ≡ owed t events false none = run-owed t events new_client in
      let calls = resubscribe_all-Any (subscribe_call t qos) subs in
      let entries =
        Any-lookup (λ entry. subscribe_call entry.0 entry.1 ≡ subscribe_call t qos) subs u in
      (
        λ h.
            let (k, v, found, same) = entries.0 (calls.0 h) in
            let topics : k ≡ t = ap (topic_of t) same in
            let levels : v ≡ qos = ap (qos_of qos) same in cc (found, topics, levels, owes),
        λ h. calls.1 (entries.1 (t, qos, owes ∙ h, refl)),
      )
