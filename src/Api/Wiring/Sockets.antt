-- ===== src/Api/Wiring/Sockets.antt =====
-- What a reading of a device leads to.
use iot_dashboard_flutter.Common.{
  true, nat_eq, map, List, [], ◌∷◌, ◌++◌, some, Str, str, ◌≡◌, ◌↔◌, refl, ap, ◌⊎◌, inl, inr,
}
use iot_dashboard_flutter.Common.Any.{Any, Any-left, Any-right, Any-split}
use iot_dashboard_flutter.Common.Map.{lookup}
use iot_dashboard_flutter.Json.{Json}
use iot_dashboard_flutter.Automation.{Double, Action, SensorReading, RuleRepository}
use iot_dashboard_flutter.Automation.Repository.{get_enabled}
use iot_dashboard_flutter.Automation.Engine.{fire, evaluate_rules}
use iot_dashboard_flutter.Automation.Engine.Firing.{Fires, evaluate_rules-Fires}
use iot_dashboard_flutter.Network.PubSub.{ConnectionId, WsServer}
use iot_dashboard_flutter.Network.PubSub.Delivery.{is_subscribed}
use iot_dashboard_flutter.Network.PubSub.Broadcast.{broadcast_to_topic-reaches}
use iot_dashboard_flutter.Api.Wiring.{
  Command, command_of, commands_of, reading_message, forward_reading,
}

-- A connection of the session that is subscribed to the readings, all or those of the device.
unfoldable pub Watches : {Session : Type 0} → Str → Session → WsServer Session → Type 0
Watches device_id session server =
    (id : ConnectionId) × (lookup id server.sessions ≡ some session)
    × ((is_subscribed id (str "sensors") server ≡ true)
        ⊎ (is_subscribed id (str "sensors" ++ b'/' ∷ device_id) server ≡ true))

module _ (json : Json) where
  -- The action is for the command's device, with its command and its parameters, as text.
  unfoldable pub Asks : Command → Action json.Value → Type 0
  Asks c a =
      (a.device_id ≡ c.device_id) × (a.command ≡ c.command) × (json.dump a.parameters ≡ c.params)

module _ (json : Json) (double : Double) (number : double.Number → json.Value) where
  command_of-Asks :
      (c : Command) (a : Action json.Value) → (command_of json double number a ≡ c) ↔ Asks json c a
  unfolding command_of Asks
  command_of-Asks c a = (
    λ e. (ap (λ d. d.device_id) e, ap (λ d. d.command) e, ap (λ d. d.params) e),
    λ h i. record { device_id = h.0 i; command = h.1 i; params = h.2 i },
  )

  map-Any :
      (c : Command) (actions : List (Action json.Value))
      → Any (λ d. d ≡ c) (map (command_of json double number) actions) ↔ Any (Asks json c) actions
  unfolding Any
  map-Any c [] = (λ h. h, λ h. h)
  map-Any c (a ∷ rest) =
      let ih = map-Any c rest in
      let one = command_of-Asks c a in
      (
        λ h. elim h [ inl this ↦ inl (one.0 this) | inr later ↦ inr (ih.0 later) ],
        λ h. elim h [ inl this ↦ inl (one.1 this) | inr later ↦ inr (ih.1 later) ],
      )

  -- The message of a reading, with its device, type, value and unit.
  unfoldable pub described : SensorReading double.Number → Str
  described reading = json.dump (
      json.object (
        (str "type", json.text (str "sensor_data"))
        ∷ (
          str "data",
          json.object (
              (str "device_id", json.text reading.device_id)
              ∷ (str "sensor_type", json.text reading.sensor)
              ∷ (str "value", number reading.value)
              ∷ (str "unit", json.text reading.unit)
              ∷ []),
        )
        ∷ []))

  forward_reading-Watches :
      {Session : Type 0} (reading : SensorReading double.Number)
      (rules : RuleRepository double.Number json.Value) (server : WsServer Session)
      (session : Session)
      → Any
          (λ sent. sent ≡ (session, described reading))
          (forward_reading json double number reading rules server).0
        ↔ Watches reading.device_id session server
  unfolding forward_reading Watches described reading_message
  forward_reading-Watches reading rules server session =
      let message : Str = described reading in
      let one : Str = str "sensors" ++ b'/' ∷ reading.device_id in
      let all = broadcast_to_topic-reaches (str "sensors") message server session in
      let own = broadcast_to_topic-reaches one message server session in
      (
        λ h. elim (Any-split (λ sent. sent ≡ (session, message)) _ _ h) [
          | inl first ↦ let (id, joined, there) = all.0 first in (id, there, inl joined)
          | inr second ↦ let (id, joined, there) = own.0 second in (id, there, inr joined)
        ],
        λ (id, there, joined). elim joined [
          | inl j ↦ Any-left (λ sent. sent ≡ (session, message)) _ _ (all.1 (id, j, there))
          | inr j ↦ Any-right (λ sent. sent ≡ (session, message)) _ _ (own.1 (id, j, there))
        ],
      )

  -- A reading is sent, with its device, type, value and unit, to exactly the sessions with a connection
  -- that is subscribed to all readings or to those of the device; and it leads to a command exactly where an enabled rule whose conditions hold
  -- for the reading has an action for that device with that command and those parameters, as text.
  pub forward_reading-Fires :
      {Session : Type 0} (reading : SensorReading double.Number)
      (rules : RuleRepository double.Number json.Value) (server : WsServer Session)
      (session : Session) (c : Command)
      → (Any
            (λ sent. sent ≡ (session, described reading))
            (forward_reading json double number reading rules server).0
          ↔ Watches reading.device_id session server)
        × (Any (λ d. d ≡ c) (forward_reading json double number reading rules server).1
            ↔ Any (Fires double (Asks json c) reading) rules)
  unfolding forward_reading evaluate_rules commands_of
  forward_reading-Fires reading rules server session c =
      let actions = fire double (get_enabled rules) reading in
      let fired = evaluate_rules-Fires double (Asks json c) rules reading actions refl in
      let sent = map-Any c actions in
      (
        forward_reading-Watches reading rules server session,
        (λ h. fired.0 (sent.0 h), λ h. sent.1 (fired.1 h)),
      )
