-- ===== src/Server/Transfers/Header.antt =====
-- The header of a binary frame as the client builds it (web/src/composables/useFileTransfer.js) and
-- as the server reads it (src/chatroom/TransferManager.cpp).
use chat_serve.Base.{ℕ, ◌^◌, ◌<◌, ◌≡◌, ◌∙◌, arith, length, nat}
use chat_serve.Transfer.Frame.{
  Bytes, build_binary_frame, frame_session, frame_offset, frame_session-build, frame_offset-build,
}
use chat_serve.Server.Transfers.{read_word}

read_word-session : (bytes : Bytes) → read_word 8 0 bytes ≡ frame_session bytes
unfolding read_word frame_session
read_word-session bytes = omega arith

read_word-offset : (bytes : Bytes) → read_word 8 8 bytes ≡ frame_offset bytes
unfolding read_word frame_offset
read_word-offset bytes = omega arith

module _ (s o : ℕ) (buffer : Bytes) where
  pub read_word-build_session :
      s < 2 ^ 64 → read_word 8 0 (build_binary_frame (nat s) (nat o) buffer) ≡ s
  read_word-build_session h = read_word-session _ ∙ frame_session-build s o buffer h

  pub read_word-build_offset :
      o < 2 ^ 64 → read_word 8 8 (build_binary_frame (nat s) (nat o) buffer) ≡ o
  read_word-build_offset h = read_word-offset _ ∙ frame_offset-build s o buffer h

  pub read_word-build_size :
      length buffer < 2 ^ 32
      → read_word 4 16 (build_binary_frame (nat s) (nat o) buffer) ≡ length buffer
  unfolding read_word build_binary_frame
  read_word-build_size h = omega arith
