-- ===== src/Network/PubSub/Broadcast.antt =====
-- Whom a message on a topic reaches.
use iot_dashboard_flutter.Common.{
  true, ◌==◌, str_instance, nat_eq, List, [], ◌∷◌, Option, none, some, Str, ◌≡◌, ◌↔◌, refl, ap, sym,
  ◌∙◌, subst, inl, inr, arith, Bool-cases, Option-cases, eq_self,
}
use iot_dashboard_flutter.Common.Any.{Any}
use iot_dashboard_flutter.Common.Map.{lookup}
use iot_dashboard_flutter.Common.Sets.{has}
use iot_dashboard_flutter.Network.PubSub.{
  ConnectionId, WsServer, give, sessions_of, broadcast_to_topic, subscribers,
}
use iot_dashboard_flutter.Network.PubSub.Delivery.{is_subscribed}

module _ {Session : Type 0} where
  session_or : Session → Option Session → Session
  session_or default none = default
  session_or default (some session) = session

  give-Any :
      (message : Str) (session : Session) (sessions : List Session)
      → Any (λ sent. sent ≡ (session, message)) (give message sessions)
        ↔ Any (λ s. s ≡ session) sessions
  unfolding give Any
  give-Any message session [] = (λ h. h, λ h. h)
  give-Any message session (s ∷ rest) =
      let ih = give-Any message session rest in
      (
        λ h. elim h [ inl this ↦ inl (ap (λ p. p.0) this) | inr later ↦ inr (ih.0 later) ],
        λ h. elim h [ inl this ↦ inl (ap (λ x. (x, message)) this) | inr later ↦ inr (ih.1 later) ],
      )

  sessions_of-missing :
      (id : ConnectionId) (ids : List ConnectionId) (sessions : List (ConnectionId × Session))
      → lookup id sessions ≡ none
      → sessions_of (id ∷ ids) sessions ≡ sessions_of ids sessions
  unfolding sessions_of
  sessions_of-missing id ids sessions h = rw (h, sessions_of)

  sessions_of-found :
      (id : ConnectionId) (ids : List ConnectionId) (sessions : List (ConnectionId × Session))
      (s : Session)
      → lookup id sessions ≡ some s
      → sessions_of (id ∷ ids) sessions ≡ s ∷ sessions_of ids sessions
  unfolding sessions_of
  sessions_of-found id ids sessions s h = rw (h, sessions_of)

  -- A session of one of the connections.
  Reaches : Session → List ConnectionId → List (ConnectionId × Session) → Type 0
  Reaches session ids sessions =
      (id : ConnectionId) × (has id ids ≡ true) × (lookup id sessions ≡ some session)

  sessions_of-Reaches :
      (session : Session) (ids : List ConnectionId) (sessions : List (ConnectionId × Session))
      → Any (λ s. s ≡ session) (sessions_of ids sessions)
      → Reaches session ids sessions
  unfolding sessions_of Any has Reaches
  sessions_of-Reaches session [] sessions h = absurd h
  sessions_of-Reaches session (id ∷ ids) sessions h = elim (Option-cases (lookup id sessions)) [
    | inl missing ↦
        let (j, among, found) =
          sessions_of-Reaches session ids sessions
            (subst (Any (λ s. s ≡ session)) (sessions_of-missing id ids sessions missing) h) in
        (j, ground (arith, among), found)
    | inr (s, found) ↦
        elim (subst (Any (λ s. s ≡ session)) (sessions_of-found id ids sessions s found) h) [
          | inl same ↦ (id, rw (eq_self id), found ∙ ap some same)
          | inr later ↦
              let (j, among, there) = sessions_of-Reaches session ids sessions later in
              (j, ground (arith, among), there)
        ]
  ]

  Reaches-sessions_of :
      (session : Session) (ids : List ConnectionId) (sessions : List (ConnectionId × Session))
      → Reaches session ids sessions
      → Any (λ s. s ≡ session) (sessions_of ids sessions)
  unfolding sessions_of Any has Reaches session_or
  Reaches-sessions_of session [] sessions (j, among, found) = absurd (ground (arith, among))
  Reaches-sessions_of session (id ∷ ids) sessions (j, among, found) = elim (Bool-cases (id == j)) [
    | inl same ↦
        let here : lookup id sessions ≡ some session =
          ap (λ i. lookup i sessions) ((nat_eq.beq_iff id j).0 same) ∙ found in
        subst (Any (λ s. s ≡ session)) (sym (sessions_of-found id ids sessions session here))
          (inl refl)
    | inr other ↦
        let later = Reaches-sessions_of session ids sessions (j, (rw (other) at among), found) in
        elim (Option-cases (lookup id sessions)) [
          | inl missing ↦
              subst (Any (λ s. s ≡ session)) (sym (sessions_of-missing id ids sessions missing))
                later
          | inr (s, there) ↦
              subst (Any (λ s. s ≡ session)) (sym (sessions_of-found id ids sessions s there))
                (inr later)
        ]
  ]

  broadcast_to_topic-eq :
      (topic message : Str) (server : WsServer Session)
      → broadcast_to_topic topic message server
        ≡ give message (sessions_of (subscribers topic server) server.sessions)
  unfolding broadcast_to_topic subscribers give sessions_of
  broadcast_to_topic-eq topic message server = elim (Option-cases (lookup topic server.topics)) [
    | inl missing ↦ rw (missing, broadcast_to_topic)
    | inr (ids, found) ↦ rw (found, broadcast_to_topic)
  ]

  -- A message on a topic is given to exactly the sessions of the connections that are subscribed to the
  -- topic when it is sent.
  pub broadcast_to_topic-reaches :
      (topic message : Str) (server : WsServer Session) (session : Session)
      → Any (λ sent. sent ≡ (session, message)) (broadcast_to_topic topic message server) ↔ (
          (id : ConnectionId) × (is_subscribed id topic server ≡ true)
          × (lookup id server.sessions ≡ some session))
  unfolding is_subscribed Reaches
  broadcast_to_topic-reaches topic message server session =
      let ids = subscribers topic server in
      let sent = give-Any message session (sessions_of ids server.sessions) in
      subst
        (λ given. Any (λ sent. sent ≡ (session, message)) given ↔ (
          (id : ConnectionId) × (has id ids ≡ true) × (lookup id server.sessions ≡ some session)))
        (sym (broadcast_to_topic-eq topic message server))
        (
          λ h. sessions_of-Reaches session ids server.sessions (sent.0 h),
          λ h. sent.1 (Reaches-sessions_of session ids server.sessions h),
        )
