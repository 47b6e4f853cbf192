-- ===== src/Api/Wiring/Subscriptions.antt =====
-- A client's subscription, through whatever clients and connections do afterwards.
use iot_dashboard_flutter.Common.{
  true, false, ◌&&◌, ◌==◌, nat_eq, is_empty, List, [], ◌∷◌, All, some, Str, str, str_instance,
  eq_self, eq_other, ◌≡◌, ◌≢◌, ap, sym, ◌∙◌, subst, inl, inr, arith, Bool-cases, Option-cases,
}
use iot_dashboard_flutter.Common.Any.{Any}
use iot_dashboard_flutter.Common.Map.{lookup, lookup-insert_ne, lookup-erase}
use iot_dashboard_flutter.Common.Sets.{remove}
use iot_dashboard_flutter.Exn.{returns, Exn-cases}
use iot_dashboard_flutter.Json.{Json, value_text}
use iot_dashboard_flutter.Network.PubSub.{
  ConnectionId, WsServer, broadcast_to_topic, subscribe, unsubscribe, on_session_connected,
  on_session_disconnected,
}
use iot_dashboard_flutter.Network.PubSub.Delivery.{
  is_subscribed, is_subscribed-subscribe, is_subscribed-unsubscribe,
  is_subscribed-on_session_disconnected,
}
use iot_dashboard_flutter.Network.PubSub.Broadcast.{broadcast_to_topic-reaches}
use iot_dashboard_flutter.Api.Wiring.{act, on_ws_message}

-- What happens to the WebSocket server: a client sends a message, a connection opens or ends.
pub data Event (Session : Type 0) : Type 0 where
  says : ConnectionId → Str → Event Session
  opens : ConnectionId → Session → Event Session
  closes : ConnectionId → Event Session

module _ {Session : Type 0} where
  unsubscribe-sessions :
      (id : ConnectionId) (topic : Str) (server : WsServer Session)
      → (unsubscribe id topic server).sessions ≡ server.sessions
  unfolding unsubscribe
  unsubscribe-sessions id topic server = elim (Option-cases (lookup topic server.topics)) [
    | inl missing ↦ rw (missing, unsubscribe)
    | inr (ids, found) ↦
        rw (found, unsubscribe)
          (elim (Bool-cases (is_empty (remove id ids))) [ inl e ↦ rw e | inr e ↦ rw e ])
  ]

module _ (json : Json) where
  -- A message that asks to leave the topic.
  unfoldable pub IsUnsubscribe : Str → Str → Type 0
  IsUnsubscribe topic payload =
      (j : json.Value) × (json.parse payload ≡ some j)
      × (value_text json j (str "type") [] ≡ returns (str "unsubscribe"))
      × (value_text json j (str "topic") [] ≡ returns topic)

module _ (json : Json) {Session : Type 0} where
  open json use {Value, parse}

  unfoldable pub on_event : Event Session → WsServer Session → WsServer Session
  on_event (says id payload) server = (on_ws_message json id payload server).0
  on_event (opens id session) server = on_session_connected id session server
  on_event (closes id) server = on_session_disconnected id server

  unfoldable pub run : List (Event Session) → WsServer Session → WsServer Session
  unfolding on_event
  run [] server = server
  run (e ∷ es) server = run es (on_event e server)

  -- The connection does not end and is not opened again, and does not ask to leave the topic.
  unfoldable pub Spares : ConnectionId → Str → Event Session → Type 0
  unfolding IsUnsubscribe
  Spares id topic (says j payload) = j ≡ id → ¬ IsUnsubscribe json topic payload
  Spares id topic (opens j session) = j ≢ id
  Spares id topic (closes j) = j ≢ id

  -- The connection is there and subscribed.
  record Receives (id : ConnectionId) (topic : Str) (session : Session) (server : WsServer Session)
      : Type 0 where
    joined : is_subscribed id topic server ≡ true
    connected : lookup id server.sessions ≡ some session

  -- What a message does: nothing, a subscription, or that which it asks to be taken back.
  data Effect (id : ConnectionId) (payload : Str) (server : WsServer Session)
      : WsServer Session → Type 0 where
    nothing : {next : WsServer Session} → next ≡ server → Effect id payload server next
    joins :
        {next : WsServer Session} (t : Str)
        → next ≡ subscribe id t server
        → Effect id payload server next
    leaves :
        {next : WsServer Session} (t : Str)
        → IsUnsubscribe json t payload
        → next ≡ unsubscribe id t server
        → Effect id payload server next

  act-joins :
      (id : ConnectionId) (payload : Str) (j : Value) (server : WsServer Session)
      → Effect id payload server (act json id (str "subscribe") j server).0
  unfolding act
  act-joins id payload j server = elim (Exn-cases (value_text json j (str "topic") [])) [
    | inl bad ↦ nothing (rw (eq_self (str "subscribe"), bad, act))
    | inr (t, named) ↦ elim (Bool-cases (is_empty t)) [
      | inl e ↦ nothing (rw (eq_self (str "subscribe"), named, act) (rw e))
      | inr e ↦ joins t (rw (eq_self (str "subscribe"), named, act) (rw e))
    ]
  ]

  act-leaves :
      (id : ConnectionId) (payload : Str) (j : Value) (server : WsServer Session)
      → parse payload ≡ some j
      → value_text json j (str "type") [] ≡ returns (str "unsubscribe")
      → (str "unsubscribe" == str "subscribe") ≡ false
      → Effect id payload server (act json id (str "unsubscribe") j server).0
  unfolding act IsUnsubscribe
  act-leaves id payload j server parsed typed other =
      elim (Exn-cases (value_text json j (str "topic") [])) [
        | inl bad ↦ nothing (rw (other, eq_self (str "unsubscribe"), bad, act))
        | inr (t, named) ↦ elim (Bool-cases (is_empty t)) [
          | inl e ↦ nothing (rw (other, eq_self (str "unsubscribe"), named, act) (rw e))
          | inr e ↦
              leaves t (j, parsed, typed, named)
                (rw (other, eq_self (str "unsubscribe"), named, act) (rw e))
        ]
      ]

  act-other :
      (id : ConnectionId) (type : Str) (j : Value) (server : WsServer Session)
      → (type == str "subscribe") ≡ false
      → (type == str "unsubscribe") ≡ false
      → (act json id type j server).0 ≡ server
  unfolding act
  act-other id type j server e f = elim (Bool-cases (type == str "ping")) [
    | inl p ↦ rw (e, f, p)
    | inr p ↦ rw (e, f, p)
  ]

  act-Effect :
      (id : ConnectionId) (payload type : Str) (j : Value) (server : WsServer Session)
      → parse payload ≡ some j
      → value_text json j (str "type") [] ≡ returns type
      → Effect id payload server (act json id type j server).0
  act-Effect id payload type j server parsed typed = elim (Bool-cases (type == str "subscribe")) [
    | inl e ↦
        subst (λ t. Effect id payload server (act json id t j server).0)
          (sym ((str_instance.beq_iff type (str "subscribe")).0 e)) (act-joins id payload j server)
    | inr e ↦ elim (Bool-cases (type == str "unsubscribe")) [
      | inl f ↦
          let same = (str_instance.beq_iff type (str "unsubscribe")).0 f in
          subst (λ t. Effect id payload server (act json id t j server).0) (sym same)
            (act-leaves id payload j server parsed (typed ∙ ap returns same)
              (subst (λ t. (t == str "subscribe") ≡ false) same e))
      | inr f ↦ nothing (act-other id type j server e f)
    ]
  ]

  on_ws_message-Effect :
      (id : ConnectionId) (payload : Str) (server : WsServer Session)
      → Effect id payload server (on_ws_message json id payload server).0
  unfolding on_ws_message
  on_ws_message-Effect id payload server = elim (Option-cases (parse payload)) [
    | inl bad ↦ nothing (rw (bad, on_ws_message))
    | inr (j, parsed) ↦ elim (Exn-cases (value_text json j (str "type") [])) [
      | inl bad ↦ nothing (rw (parsed, on_ws_message) (rw (bad)))
      | inr (type, typed) ↦
          subst (Effect id payload server) (sym (rw (parsed, on_ws_message) (rw (typed))))
            (act-Effect id payload type j server parsed typed)
    ]
  ]

  module _ (id : ConnectionId) (topic : Str) (session : Session) where
    subscribe-Receives :
        (j : ConnectionId) (t : Str) (server : WsServer Session)
        → Receives id topic session server
        → Receives id topic session (subscribe j t server)
    subscribe-Receives j t server r = record {
      joined = is_subscribed-subscribe j id t topic server ∙ ground (arith, r.joined);
      connected = unfold subscribe in r.connected;
    }

    unsubscribe-Receives :
        (j : ConnectionId) (t : Str) (server : WsServer Session)
        → (t == topic && j == id) ≡ false
        → Receives id topic session server
        → Receives id topic session (unsubscribe j t server)
    unsubscribe-Receives j t server other r = record {
      joined = is_subscribed-unsubscribe j id t topic server ∙ ground (arith, r.joined, other);
      connected = ap (lookup id) (unsubscribe-sessions j t server) ∙ r.connected;
    }

    Effect-Receives :
        (j : ConnectionId) (payload : Str) (server : WsServer Session) {next : WsServer Session}
        → Effect j payload server next
        → (j ≡ id → ¬ IsUnsubscribe json topic payload)
        → Receives id topic session server
        → Receives id topic session next
    Effect-Receives j payload server (nothing e) spared r =
        subst (Receives id topic session) (sym e) r
    Effect-Receives j payload server (joins t e) spared r =
        subst (Receives id topic session) (sym e) (subscribe-Receives j t server r)
    Effect-Receives j payload server (leaves t asked e) spared r =
        subst (Receives id topic session) (sym e) (elim (Bool-cases (t == topic && j == id)) [
          | inl both ↦
              let named : t ≡ topic = ground (arith, str_instance.beq_iff t topic) in
              let own : j ≡ id = ground (arith, nat_eq.beq_iff j id) in
              absurd (spared own (subst (λ x. IsUnsubscribe json x payload) named asked))
          | inr other ↦ unsubscribe-Receives j t server other r
        ])

    on_event-Receives :
        (e : Event Session) (server : WsServer Session)
        → Spares id topic e
        → Receives id topic session server
        → Receives id topic session (on_event e server)
    unfolding on_event Spares on_session_connected on_session_disconnected is_subscribed
    on_event-Receives (says j payload) server spared r =
        Effect-Receives j payload server (on_ws_message-Effect j payload server) spared r
    on_event-Receives (opens j other) server spared r = record {
      joined = r.joined;
      connected = lookup-insert_ne j id other server.sessions spared ∙ r.connected;
    }
    on_event-Receives (closes j) server spared r =
        let apart = eq_other j id spared in
        record {
          joined =
              is_subscribed-on_session_disconnected j id topic server
              ∙ ground (arith, r.joined, apart);
          connected = lookup-erase j id server.sessions ∙ ground (arith, apart, r.connected);
        }

    run-Receives :
        (events : List (Event Session)) (server : WsServer Session)
        → All (Spares id topic) events
        → Receives id topic session server
        → Receives id topic session (run events server)
    unfolding run
    run-Receives [] server spared r = r
    run-Receives (e ∷ es) server spared r =
        run-Receives es (on_event e server) spared.1 (on_event-Receives e server spared.0 r)

  on_ws_message-subscribe :
      (id : ConnectionId) (payload topic : Str) (j : Value) (server : WsServer Session)
      → parse payload ≡ some j
      → value_text json j (str "type") [] ≡ returns (str "subscribe")
      → value_text json j (str "topic") [] ≡ returns topic
      → is_empty topic ≡ false
      → (on_ws_message json id payload server).0 ≡ subscribe id topic server
  unfolding on_ws_message act
  on_ws_message-subscribe id payload topic j server parsed typed named some_topic =
      rw (parsed, on_ws_message)
        (rw (typed, act) (rw (eq_self (str "subscribe"), named, act) (rw (some_topic))))

  -- A connected client that asks for a topic, by a well-formed message, whatever else the message holds,
  -- is given every later message to the topic, whatever clients say and connections do in between, as
  -- long as its own connection neither ends nor is opened again and it does not itself ask to leave the
  -- topic.
  pub broadcast_to_topic-run :
      (id : ConnectionId) (payload topic message : Str) (j : Value) (server : WsServer Session)
      (session : Session) (events : List (Event Session))
      → parse payload ≡ some j
      → value_text json j (str "type") [] ≡ returns (str "subscribe")
      → value_text json j (str "topic") [] ≡ returns topic
      → is_empty topic ≡ false
      → lookup id server.sessions ≡ some session
      → All (Spares id topic) events
      → Any
          (λ sent. sent ≡ (session, message))
          (broadcast_to_topic topic message (run events (on_ws_message json id payload server).0))
  broadcast_to_topic-run id payload topic message j server session events parsed typed named
        some_topic there spared =
      let asked = on_ws_message-subscribe id payload topic j server parsed typed named some_topic in
      let subscribed : Receives id topic session (subscribe id topic server) = record {
        joined = is_subscribed-subscribe id id topic topic server ∙ rw (eq_self topic, eq_self id);
        connected = unfold subscribe in there;
      } in
      let kept =
        run-Receives id topic session events (on_ws_message json id payload server).0 spared
          (subst (Receives id topic session) (sym asked) subscribed) in
      (broadcast_to_topic-reaches topic message
          (run events (on_ws_message json id payload server).0) session).1
        (id, kept.joined, kept.connected)
