-- ===== src/Network/PubSub.antt =====
-- src/network/websocket/ws_server.cpp and .hpp: sessions, topics and messages. A session is a value of
-- `Session`; a message given to a session's Send is one of the results, in order. What
-- the callbacks of the application do is in Api/Wiring. The sockets and threads are not modelled.
pub mod Delivery
pub mod Broadcast
pub mod Running
use iot_dashboard_flutter.Common.{
  ℕ, ◌+◌, Bool, true, false, is_empty, length, if◌then◌else◌, List, [], ◌∷◌, ◌++◌, map, Option,
  none, some, Str, str_instance, nat_eq,
}
use iot_dashboard_flutter.Common.Map.{lookup, insert, erase}
use iot_dashboard_flutter.Common.Sets.{add, remove}

abbrev pub ConnectionId : Type 0
ConnectionId = ℕ

pub record WsServer (Session : Type 0) : Type 0 where
  pub running : Bool
  pub next_id : ConnectionId
  pub sessions : List (ConnectionId × Session)
  pub topics : List (Str × List ConnectionId)
  pub ioc_stopped : Bool

abbrev or_none : Option (List ConnectionId) → List ConnectionId
or_none none = []
or_none (some ids) = ids

-- The loop over the topics.
remove_everywhere : ConnectionId → List (Str × List ConnectionId) → List (Str × List ConnectionId)
remove_everywhere id [] = []
remove_everywhere id ((topic, ids) ∷ topics) = (topic, remove id ids) ∷ remove_everywhere id topics

module _ {Session : Type 0} where
  unfoldable pub new_server : WsServer Session
  new_server = record {
    running = false;
    next_id = 1;
    sessions = [];
    topics = [];
    ioc_stopped = false;
  }

  -- The message for each session of a list.
  unfoldable pub give : Str → List Session → List (Session × Str)
  give message [] = []
  give message (session ∷ rest) = (session, message) ∷ give message rest

  unfoldable pub send : ConnectionId → Str → WsServer Session → List (Session × Str)
  send id message server = elim (lookup id server.sessions) [
    | none ↦ []
    | some session ↦ (session, message) ∷ []
  ]

  unfoldable pub broadcast : Str → WsServer Session → List (Session × Str)
  unfolding give
  broadcast message server = give message (map (λ entry. entry.1) server.sessions)

  -- The sessions of the connections that have one.
  unfoldable pub sessions_of : List ConnectionId → List (ConnectionId × Session) → List Session
  sessions_of [] sessions = []
  sessions_of (id ∷ ids) sessions = elim (lookup id sessions) [
    | none ↦ sessions_of ids sessions
    | some session ↦ session ∷ sessions_of ids sessions
  ]

  unfoldable pub broadcast_to_topic : Str → Str → WsServer Session → List (Session × Str)
  unfolding give sessions_of
  broadcast_to_topic topic message server = elim (lookup topic server.topics) [
    | none ↦ []
    | some ids ↦ give message (sessions_of ids server.sessions)
  ]

  unfoldable pub subscribe : ConnectionId → Str → WsServer Session → WsServer Session
  subscribe id topic server = record server {
    topics = insert topic (add id (or_none (lookup topic server.topics))) server.topics;
  }

  unfoldable pub unsubscribe : ConnectionId → Str → WsServer Session → WsServer Session
  unsubscribe id topic server = elim (lookup topic server.topics) [
    | none ↦ server
    | some ids ↦
        if is_empty (remove id ids)
        then record server { topics = erase topic server.topics }
        else record server { topics = insert topic (remove id ids) server.topics }
  ]

  unfoldable pub connection_count : WsServer Session → ℕ
  connection_count server = length server.sessions

  unfoldable pub on_session_connected : ConnectionId → Session → WsServer Session → WsServer Session
  on_session_connected id session server = record server {
    sessions = insert id session server.sessions;
  }

  unfoldable pub on_session_disconnected : ConnectionId → WsServer Session → WsServer Session
  unfolding remove_everywhere
  on_session_disconnected id server = record server {
    sessions = erase id server.sessions;
    topics = remove_everywhere id server.topics;
  }

  -- The accept handler: the server's new state and the id of the session that it runs, where the
  -- server runs and the socket was accepted.
  unfoldable pub on_accept : Bool → WsServer Session → WsServer Session × Option ConnectionId
  on_accept accepted server =
      if server.running
      then if accepted
        then (record server { next_id = (server.next_id + 1) }, some server.next_id)
        else (server, none)
      else (server, none)

  -- Whether a connection is subscribed to a topic.
  unfoldable pub subscribers : Str → WsServer Session → List ConnectionId
  subscribers topic server = or_none (lookup topic server.topics)
