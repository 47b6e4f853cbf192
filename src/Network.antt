-- ===== src/Network.antt =====
-- src/network/websocket and src/network/mqtt: the server, its connections and the MQTT client.
pub mod Acceptor
pub mod Mqtt
pub mod PubSub
pub mod Session
