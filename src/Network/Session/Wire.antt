-- ===== src/Network/Session/Wire.antt =====
-- A connection as a step relation: senders, Boost.Asio and the network take turns.
use iot_dashboard_flutter.Common.{
  ℕ, ◌+◌, ◌-◌, ◌<◌, Bool, true, false, List, [], ◌∷◌, ◌++◌, take, length, Option, none, some, Str,
  ◌≡◌,
}
use iot_dashboard_flutter.Network.PubSub.{ConnectionId}
use iot_dashboard_flutter.Network.Session.{
  WsSession, Buffer, new_session, send, do_write, AfterWrite, writes_on, on_write,
}

-- A connection with what Boost.Asio holds for it: how many calls of DoWrite wait to run, and the buffer
-- being written. `accepted` are the messages given to Send, `handed` those that DoWrite has taken off the
-- queue, and `written` the bytes of the writes that were completed, oldest first.
pub record Connection : Type 0 where
  pub session : WsSession
  pub pending : ℕ
  pub in_flight : Option Buffer
  pub failed : Bool
  pub accepted : List Str
  pub handed : List Str
  pub written : List Str

unfoldable pub fresh : ConnectionId → Connection
fresh id = record {
  session = new_session id;
  pending = 0;
  in_flight = none;
  failed = false;
  accepted = [];
  handed = [];
  written = [];
}

abbrev pub posted : Bool → ℕ
posted true = 1
posted false = 0

-- Send, from any thread.
unfoldable pub sends : Str → Connection → Connection
sends message c = record c {
  session = (send message c.session).0;
  pending = c.pending + posted (send message c.session).1;
  accepted = c.accepted ++ message ∷ [];
}

-- A waiting call of DoWrite runs.
unfoldable pub starts : Connection → Connection
starts c = record c {
  session = (do_write c.session).0;
  pending = c.pending - 1;
  in_flight = (do_write c.session).1;
  handed = c.handed ++ take 1 c.session.write_queue;
}

abbrev pub calls : AfterWrite → ℕ
calls writes_on = 1
calls _ = 0

-- The write in flight completes, and these bytes were sent; its handler goes on to DoWrite after it has
-- released the queue.
unfoldable pub completes : Str → Connection → Connection
completes bytes c = record c {
  session = (on_write false c.session).0;
  pending = c.pending + calls (on_write false c.session).1;
  in_flight = none;
  written = c.written ++ bytes ∷ [];
}

-- The write in flight fails.
unfoldable pub fails : Connection → Connection
fails c = record c {
  session = (on_write true c.session).0;
  pending = c.pending + calls (on_write true c.session).1;
  in_flight = none;
  failed = true;
}

pub data Step : Connection → Connection → Type 0 where
  send_step : (message : Str) (c : Connection) → Step c (sends message c)
  start_step : (c : Connection) → 0 < c.pending → Step c (starts c)
  -- The memory was freed: any bytes may be sent, as many as the buffer has.
  complete_step :
      (buffer : Buffer) (bytes : Str) (c : Connection)
      → c.in_flight ≡ some buffer
      → length bytes ≡ buffer.size
      → Step c (completes bytes c)
  fail_step : (buffer : Buffer) (c : Connection) → c.in_flight ≡ some buffer → Step c (fails c)

pub data Reach (c : Connection) : Connection → Type 0 where
  here : Reach c c
  next : {d e : Connection} → Reach c d → Step d e → Reach c e

-- The size of the write in flight.
abbrev pub in_sizes : Option Buffer → List ℕ
in_sizes none = []
in_sizes (some buffer) = buffer.size ∷ []

abbrev pub in_count : Option Buffer → ℕ
in_count none = 0
in_count (some buffer) = 1
