-- ===== src/WebRtc.antt =====
-- web/src/composables/useWebRTC.js: peer connections, media, and the signals between peers.
pub mod State
pub mod Peers
pub mod Media
pub mod Signals
pub mod Events
pub mod Branches
pub mod Pairs
pub mod Hangup
pub mod Session
pub mod Leaver
pub mod Handshake
pub mod Answer
pub mod Connect
pub mod Granted
pub mod Switches
