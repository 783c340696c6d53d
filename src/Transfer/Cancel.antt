-- ===== src/Transfer/Cancel.antt =====
-- `cancelDownloadFile`, and frames that are still on their way.
use chat_serve.Base.{◌≡◌, false, List, [], ◌∷◌, none, All, lookup, list_eq, nat_eq, ◌===◌}
use chat_serve.Text.{Text}
use chat_serve.Transfer.Frame.{Bytes}
use chat_serve.Transfer.State.{Transfer}
use chat_serve.Transfer.Receive.{handle_binary}

-- The state after some frames.
abbrev pub frames_after : Transfer → List Bytes → Transfer
frames_after t [] = t
frames_after t (frame ∷ frames) = frames_after (handle_binary t frame).0 frames

-- The file has no session, and no chunk of it is expected.
pub IsCancelled : Text → Transfer → Type 0
IsCancelled f t =
    (lookup f t.download_sessions ≡ none) × All (λ c. (c.1.file_id === f) ≡ false) t.pending_chunks
