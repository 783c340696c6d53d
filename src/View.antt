-- ===== src/View.antt =====
-- The components of the page (web/src/components): what they compute from the state of the chat.
pub mod FileCard
pub mod CardMoves
pub mod CardClicks
pub mod VideoGrid
pub mod MessageList
pub mod ChatView
pub mod LoginPanel
