-- ===== src/Chat.antt =====
-- web/src/composables/useChat.js: the connection to the server, and the routing of its messages.
pub mod State
pub mod Connection
pub mod Routing
pub mod Events
pub mod Link
pub mod Calls
pub mod Timers
pub mod Heartbeat
pub mod Ending
pub mod Rejoin
pub mod Messages
pub mod Signals
