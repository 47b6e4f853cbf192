-- ===== src/Lib.antt =====
-- The server of the IoT dashboard: what it does with passwords, tokens, requests, heartbeats, rules
-- and subscriptions.
--
-- The program is a C++ server. HTTP requests reach a session (src/network/http/http_session.cpp),
-- which converts them and hands them to the router (http_router.cpp). The router runs the
-- middleware that the controllers registered (src/api/middleware/auth_middleware.cpp), which asks
-- the authentication service (src/security/authentication_service.cpp) about the token and the
-- access table (src/security/access_control.cpp) about the role, and then the first matching route,
-- a handler of a controller (src/api/controllers). Devices speak MQTT
-- (src/network/mqtt/mqtt_client.cpp): the device manager (src/devices/device_manager.cpp) keeps
-- what is known of them, routes their messages and sends them commands. The application
-- (src/api/application.cpp) joins the parts: a reading goes to the WebSocket clients that
-- subscribed (src/network/websocket) and to the rule engine (src/automation), whose actions become
-- commands. Beside it, the heartbeat monitor (src/devices/heartbeat_monitor.cpp) reports silent
-- devices.
--
-- Common holds the shared helpers: tests on numbers, texts as lists of bytes, maps and sets as
-- lists, searching, decimal numbers, and lemmas on membership (Common/Any) and on maps with unique
-- keys (Common/Unique). Errors is src/common/error.hpp and error.cpp; Exn is a result or a C++
-- exception. Json and Security/Crypto are the interfaces of nlohmann::json and OpenSSL, with the
-- laws of them that are relied on. Security/Base64, Password, Jwt, Access and Auth are the files of
-- src/security (B64Encode is b64_encode, Verify is verify, CanAccess is can_access, ValidateToken
-- is validate_token, and so on). Http is http_types, Http/Router the router, Http/Session the
-- session with Boost.Beast as an interface, Http/Query the parameters of a target. Api/Middleware
-- is the middleware, Api/Application the registration of the routes for any handlers
-- (Api/Application/Guards is about who gets through), and Api/Server fills it in: the state that
-- the controllers share, their handlers on it, and requests to the whole application
-- (Api/Server/Logins, Revoked and Posting). Api/Config has the configurations and Api/Initialize
-- constructs the parts, from the opening of the database on. Api/Controllers/Auth, Devices,
-- Automation, Sensors and Status are the handlers of the controllers, Api/Lifecycle is Start and
-- Stop of application.cpp over the parts that they start and stop, and Api/Wiring the callbacks and
-- the first user of application.cpp, in which a call of SendCommand is a value
-- (Api/Wiring/Subscriptions is about the messages of clients). Devices/Heartbeat
-- is the monitor: each operation a function, and the mutex makes each a single step, so that a
-- history is a list of events. Devices/Manager is the device manager (Register is register, and so
-- on) and Devices/Manager/Messages its messages and commands, over a repository and an MQTT client
-- as interfaces. Automation has rule_types.hpp and the conditions, Automation/Json the JSON forms,
-- Automation/Repository the store and Automation/Engine the engine, over an interface of double.
-- Database/Migrations is the runner of migrations, Database/Schema the text of the migrations,
-- Database/Devices and Database/Sensors are the repositories of devices and of readings, and
-- Database/Columns has what their columns share, over interfaces of SQLite whose laws are those of
-- SQL. Network/PubSub is the WebSocket server's sessions and topics, Network/Session the write
-- queue of a connection and Network/Session/Wire its steps as a relation, in which messages are
-- sent at any time and writes complete or fail, and a write may send any bytes of its message's
-- size, since the memory of its buffer is freed before. Network/Mqtt is the MQTT client, in which the calls
-- of Paho are values. Http/Server, Network/PubSub/Running and Network/Acceptor are how the two
-- servers start and stop. Args is ParseArgs of src/main.cpp and Args/Run the rest of it. Examples
-- applies the results to small systems.
--
-- State is passed explicitly: an operation takes the object's state and gives the new one. The
-- clock, random salts and the content of sockets are arguments. An unordered map is a list of
-- pairs, whose order is the order of iteration. Numbers are unbounded where the program's are far
-- from their bounds, and the wrap-around to 32 bits is written out in expires_in. Loops are
-- recursion on their lists, and the padding loop of base64url has fuel that its lemmas show to be
-- enough.
--
-- Not modelled: sockets, threads and logging, the statements of SQL (an interface), how the options
-- of an MQTT connection reach Paho, the Flutter client. In Api/Server the devices and the readings
-- are two states, so a removed device keeps its readings there, which SQLite removes with it. That
-- dumping invalid UTF-8 throws is not modelled, nor that preparing a statement may fail. Times are
-- not negative, and a purge is modelled below 2 ^ 63 nanoseconds.
pub mod Common
pub mod Errors
pub mod Exn
pub mod Args
pub mod Json
pub mod Security
pub mod Http
pub mod Api
pub mod Database
pub mod Devices
pub mod Automation
pub mod Network
pub mod Examples
