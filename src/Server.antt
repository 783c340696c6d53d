-- ===== src/Server.antt =====
-- The application layer of the server: rooms, commands and transfers (src/app, src/chatroom).
pub mod Parser
pub mod Numbers
pub mod State
pub mod Files
pub mod Rooms
pub mod Router
pub mod Transfers
pub mod Cancel
pub mod Commands
pub mod Events
