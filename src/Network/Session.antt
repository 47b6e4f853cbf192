-- ===== src/Network/Session.antt =====
-- src/network/websocket/ws_session.cpp and .hpp: the write queue of a connection, and what a read does.
-- The mutex makes each access of the queue a single step. What the session hands to Boost.Asio and to
-- the server is the result of an operation.
pub mod Wire
pub mod Order
pub mod Delivery
use iot_dashboard_flutter.Common.{
  ℕ, Bool, true, false, is_empty, length, if◌then◌else◌, List, [], ◌∷◌, ◌++◌, Option, none, some,
  Str,
}
use iot_dashboard_flutter.Network.PubSub.{ConnectionId}

pub record WsSession : Type 0 where
  pub id : ConnectionId
  pub write_queue : List Str
  pub writing : Bool

unfoldable pub new_session : ConnectionId → WsSession
new_session id = record { id = id; write_queue = []; writing = false }

-- What `async_read` completes with.
pub data Read : Type 0 where
  closed read_error binary : Read
  text : Str → Read

-- What the session does with it: a call of the server, and whether it reads on.
pub data Outcome : Type 0 where
  session_disconnected : ConnectionId → Outcome
  session_message : ConnectionId → Str → Outcome
  discarded : Outcome

unfoldable pub on_read : Read → WsSession → Outcome
on_read closed session = session_disconnected session.id
on_read read_error session = session_disconnected session.id
on_read (text payload) session = session_message session.id payload
on_read binary session = discarded

-- The session after a message is queued, and whether DoWrite is posted.
unfoldable pub send : Str → WsSession → WsSession × Bool
send message session =
    let queued : List Str = session.write_queue ++ message ∷ [] in
    if session.writing
    then (record session { write_queue = queued }, false)
    else (record session { write_queue = queued; writing = true }, true)

-- What async_write is given. The memory of the buffer is the local `msg`, which is destroyed when
-- DoWrite returns and before the write is done: of the message, only the size is sure to stay.
pub record Buffer : Type 0 where
  pub size : ℕ

-- The buffer whose write starts, if there is one.
unfoldable pub do_write : WsSession → WsSession × Option Buffer
do_write session = elim session.write_queue [
  | [] ↦ (record session { writing = false }, none)
  | msg ∷ rest ↦ (record session { write_queue = rest }, some (record { size = length msg }))
]

-- What follows the completion of a write: the server is told of an error, nothing, or DoWrite.
pub data AfterWrite : Type 0 where
  disconnects finishes writes_on : AfterWrite

unfoldable pub on_write : Bool → WsSession → WsSession × AfterWrite
on_write error session =
    if error
    then (session, disconnects)
    else if is_empty session.write_queue
    then (record session { writing = false }, finishes)
    else (session, writes_on)
