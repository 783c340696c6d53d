-- ===== src/Transfer/Upload.antt =====
-- The sender's side of `useFileTransfer`.
use chat_serve.Base.{
  ℕ, ◌+◌, ◌-◌, true, false, List, [], ◌∷◌, ◌++◌, Option, none, some, if◌then◌else◌, min, list_eq,
  nat_eq, lookup, insert, erase, Num, nan, int, pos, negsuc, add_num, length, take, drop,
}
use chat_serve.Text.{Text, lit}
use chat_serve.Text.Number.{show, parse_int}
use chat_serve.Notice.{read_failed}
use chat_serve.Transfer.Frame.{Bytes, build_binary_frame}
use chat_serve.Transfer.State.{
  File, UploadSession, Transfer, file_upload, Reading, Effect, send_command, send_binary,
  add_system_message, add_file_message, read_as_array_buffer, Step, Clock, current_time,
}

unfoldable pub select_file : Transfer → Option File → Transfer
select_file t none = t
select_file t (some file) = record t { pending_file = some file; cancel_upload = false }

unfoldable pub reset_upload : Transfer → Transfer
reset_upload t = record t { pending_file = none; cancel_upload = false }

unfoldable pub send_upload : Transfer → Step
send_upload t = elim t.pending_file [
  | none ↦ (t, [])
  | some file ↦
      (t, send_command (lit "UPLOAD|" ++ (file.name ++ (lit "|" ++ show (length file.bytes)))) ∷ [])
]

unfoldable pub cancel_upload_file : Transfer → Text → Step
cancel_upload_file t file_id = (
  record t { cancel_upload = true; upload_sessions = erase file_id t.upload_sessions },
  send_command (lit "UPCANCEL|" ++ file_id) ∷ [],
)

-- An argument of `Blob.slice` as a position: NaN is 0, and a negative one counts from the end.
slice_position : ℕ → Num → ℕ
slice_position size nan = 0
slice_position size (int (pos n)) = min n size
slice_position size (int (negsuc n)) = size - (n + 1)

-- `blob.slice(from, to)`
unfoldable pub blob_slice : Bytes → Num → Num → Bytes
unfolding slice_position
blob_slice bytes from to =
    let start = slice_position (length bytes) from in
    take (slice_position (length bytes) to - start) (drop start bytes)

-- `handleDWREQ` behind its second guard: no reader for an empty chunk
unfoldable pub start_reader : UploadSession → Text → Num → Bytes → List Effect
start_reader session session_id offset [] = []
start_reader session session_id offset (b ∷ chunk) =
    read_as_array_buffer
      (record { session_id = session_id; offset = offset; name = session.name; chunk = b ∷ chunk })
    ∷ []

unfoldable pub handle_dwreq : Transfer → Text → Text → Num → Num → Step
unfolding start_reader
handle_dwreq t session_id file_id offset size = elim (lookup file_id t.upload_sessions) [
  | none ↦ (t, [])
  | some session ↦ (
    t,
    if t.cancel_upload
        then []
        else start_reader session session_id offset
            (blob_slice session.file.bytes offset (add_num offset size)),
  )
]

-- The reader's `onload`, with the chunk as the result
unfoldable pub reader_onload : Transfer → Reading → Step
reader_onload t r = (
  t,
  if t.cancel_upload
      then []
      else send_binary (build_binary_frame (parse_int r.session_id) r.offset r.chunk) ∷ [],
)

-- The reader's `onerror`
unfoldable pub reader_onerror : Transfer → Reading → Step
reader_onerror t r = (t, add_system_message (read_failed r.name) ∷ [])

unfoldable pub handle_upok : Clock → Transfer → Text → Step
handle_upok now t file_id = elim t.pending_file [
  | none ↦ (t, [])
  | some file ↦
      let size = length file.bytes in
      (
        record t {
          upload_sessions =
              insert file_id (record { file = file; name = file.name; size = size })
                t.upload_sessions;
          pending_file = none;
        },
        add_file_message (file_upload file_id file.name size (current_time now)) ∷ [],
      )
]
