-- ===== src/Tests.antt =====
-- Runs of the client's code on small inputs, and the theorems at such inputs.
mod Transfer
mod Chat
mod Client
mod WebRtc
mod View
mod Server
