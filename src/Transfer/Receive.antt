-- ===== src/Transfer/Receive.antt =====
-- The receiver's side of `useFileTransfer`: what it does on the server's messages and frames.
use chat_serve.Base.{
  ℕ, ◌+◌, Bool, false, List, [], ◌∷◌, ◌++◌, none, some, if◌then◌else◌, ltb, ◌===◌, list_eq, nat_eq,
  lookup, insert, erase, keys, Num, length, drop,
}
use chat_serve.Text.{Text, lit}
use chat_serve.Text.Number.{show, show_num}
use chat_serve.Notice.{transfer_failed}
use chat_serve.Transfer.Frame.{Bytes, frame_session, frame_offset}
use chat_serve.Transfer.State.{
  DownloadSession, PendingChunk, Transfer, file_notify, send_command, add_system_message,
  add_file_message, Step, Clock, current_time,
}
use chat_serve.Transfer.Download.{finish_download}

unfoldable pub expire_file_card : Transfer → Text → Transfer
expire_file_card t file_id = record t {
  download_sessions = erase file_id t.download_sessions;
  file_senders = erase file_id t.file_senders;
}

-- `fileSenders[fid] === leaverId`
unfoldable pub is_sender : Transfer → Text → Text → Bool
is_sender t leaver_id fid = elim (lookup fid t.file_senders) [
  | none ↦ false
  | some sender ↦ sender === leaver_id
]

-- The loop of `handleLeave`, over the keys that it takes at its start
unfoldable pub expire_all : Transfer → Text → List Text → Transfer
unfolding expire_file_card is_sender
expire_all t leaver_id [] = t
expire_all t leaver_id (fid ∷ fids) =
    expire_all (if is_sender t leaver_id fid then expire_file_card t fid else t) leaver_id fids

unfoldable pub handle_leave : Transfer → Text → Transfer
unfolding expire_all
handle_leave t leaver_id = expire_all t leaver_id (keys t.file_senders)

unfoldable pub handle_file : Clock → Transfer → Text → Text → Text → Num → Text → Step
handle_file now t sender file_id filename filesize uploader_id = (
  record t { file_senders = insert file_id uploader_id t.file_senders },
  add_file_message (file_notify sender file_id filename filesize uploader_id (current_time now))
      ∷ [],
)

unfoldable pub handle_dwstart : Transfer → Text → Text → Num → Transfer
handle_dwstart t file_id filename filesize = elim (lookup file_id t.download_sessions) [
  | some session ↦ t
  | none ↦ record t {
    download_sessions =
        insert file_id
          (record {
            chunks = [];
            received = 0;
            total = filesize;
            filename = filename;
            paused = false;
          })
          t.download_sessions;
  }
]

-- `sessionId + ':' + offset`
abbrev pub chunk_key : Text → Text → Text
chunk_key session_id offset = session_id ++ b':' ∷ offset

unfoldable pub handle_dwdata : Transfer → Text → Text → Num → Transfer
handle_dwdata t session_id file_id offset = record t {
  pending_chunks =
      insert (chunk_key session_id (show_num offset))
        (record { file_id = file_id; session_id = session_id; offset = offset }) t.pending_chunks;
}

unfoldable pub handle_dwndone : Transfer → Text → Step
unfolding finish_download
handle_dwndone t file_id = finish_download t file_id

unfoldable pub handle_dwerr : Transfer → Text → Text → Step
unfolding expire_file_card
handle_dwerr t file_id reason = elim (lookup file_id t.download_sessions) [
  | none ↦ (expire_file_card t file_id, [])
  | some session ↦ (
    expire_file_card (record t { download_sessions = erase file_id t.download_sessions }) file_id,
    add_system_message (transfer_failed session.filename reason) ∷ [],
  )
]

-- `session.chunks[offset] = chunkData; session.received += chunkData.byteLength`
abbrev pub add_chunk : DownloadSession → ℕ → Bytes → DownloadSession
add_chunk session offset chunk = record session {
  chunks = insert offset chunk session.chunks;
  received = session.received + length chunk;
}

-- `handleBinary` on a frame that was announced by `meta`, which is deleted already
unfoldable pub accept_chunk : Transfer → PendingChunk → ℕ → Bytes → Step
accept_chunk t meta offset data' = elim (lookup meta.file_id t.download_sessions) [
  | none ↦ (t, [])
  | some session ↦ (
    record t {
      download_sessions =
          insert meta.file_id (add_chunk session offset (drop 20 data')) t.download_sessions;
    },
    send_command (lit "DWACK|" ++ (meta.session_id ++ (lit "|" ++ show offset))) ∷ [],
  )
]

-- `handleBinary` behind its check of the length
unfoldable pub accept_frame : Transfer → ℕ → ℕ → Bytes → Step
unfolding accept_chunk
accept_frame t sid offset data' =
    let key = chunk_key (show sid) (show offset) in
    elim (lookup key t.pending_chunks) [
      | none ↦ (t, [])
      | some meta ↦
          accept_chunk (record t { pending_chunks = erase key t.pending_chunks }) meta offset data'
    ]

unfoldable pub handle_binary : Transfer → Bytes → Step
unfolding accept_frame
handle_binary t data' =
    if ltb (length data') 20
    then (t, [])
    else accept_frame t (frame_session data') (frame_offset data') data'
