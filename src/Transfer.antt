-- ===== src/Transfer.antt =====
-- web/src/composables/useFileTransfer.js: its state, its operations, and what they promise.
pub mod Frame
pub mod State
pub mod Upload
pub mod Download
pub mod Receive
pub mod Keys
pub mod Exchange
pub mod Order
pub mod Assembly
pub mod Complete
pub mod Checkpoint
pub mod EmptyChunk
pub mod Leave
pub mod Offers
pub mod Cancel
