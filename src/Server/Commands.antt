-- ===== src/Server/Commands.antt =====
-- The commands of the file transfer (src/app/AppTransferCommands.cpp).
use chat_serve.Base.{
  ℕ, Bool, false, not, List, [], ◌∷◌, ◌++◌, map, Option, none, some, if◌then◌else◌, ltb, nat_eq,
  list_eq, insert, length,
}
use chat_serve.Text.{Text, lit}
use chat_serve.Text.Number.{show}
use chat_serve.Server.Parser.{AppMessage, build_frame}
use chat_serve.Server.Numbers.{stoul, stoull}
use chat_serve.Server.State.{
  Session, ◌is◌, Memory, Room, Server, Down, binary, send, FileRegistration, TransferManager,
}
use chat_serve.Server.Rooms.{find_room}
use chat_serve.Server.Router.{param, uploader_gone, broadcast_to_room, build_dwerr_frame, Reply}
use chat_serve.Server.Files.{Draw, register_file, find_registration}
use chat_serve.Server.Transfers.{NextRequest, ChunkResult, start_transfer, handle_chunk_data}
use chat_serve.Server.Cancel.{AckResult, cancel_file, cancel_session, handle_ack}

unfoldable pub build_dwreq_frame : NextRequest → Down
build_dwreq_frame r =
    send r.uploader
      (build_frame (lit "DWREQ") (show r.session_id ∷ r.file_id ∷ show r.offset ∷ show r.size ∷ []))

-- The room of a session, where it is found
unfoldable pub own_room : Server → Session → Option Room
unfolding find_room
own_room sv sess = find_room (sv.memory.room sess.address) sv.rooms

-- The room that the session is in, with its transfers changed
abbrev pub set_transfers : Server → Session → Room → TransferManager → Server
set_transfers sv sess r tm = record sv {
  rooms = insert (sv.memory.room sess.address) (record r { transfer_mgr = tm }) sv.rooms;
}

abbrev dwdata_frame : ChunkResult → Text
dwdata_frame r =
    build_frame (lit "DWDATA") (show r.session_id ∷ r.file_id ∷ show r.offset ∷ show r.size ∷ [])

-- A request to its uploader, if that one is still there
unfoldable pub request_if_alive : Memory → Option NextRequest → List Down
unfolding build_dwreq_frame
request_if_alive m none = []
request_if_alive m (some r) = if m.alive r.uploader.address then build_dwreq_frame r ∷ [] else []

unfoldable pub chunk_frames : Memory → List ℕ → Option ChunkResult → List Down
unfolding request_if_alive
chunk_frames m bytes none = []
chunk_frames m bytes (some r) =
    send r.downloader (dwdata_frame r)
    ∷ record { sess = r.downloader; payload = binary bytes }
    ∷ request_if_alive m r.next

-- A chunk in a binary frame
unfoldable pub handle_chunk : Server → Session → List ℕ → Reply
unfolding chunk_frames own_room
handle_chunk sv sess bytes = elim (own_room sv sess) [
  | none ↦ (sv, [])
  | some r ↦
      let (tm, result) = handle_chunk_data sess bytes r.transfer_mgr in
      (set_transfers sv sess r tm, chunk_frames sv.memory bytes result)
]

-- A file is announced where it was given a handle.
unfoldable pub upload_frames : Server → Session → Room → Text → ℕ → Text → List Down
unfolding broadcast_to_room
upload_frames sv sess r filename filesize [] = []
upload_frames sv sess r filename filesize (c ∷ s) =
    send sess (build_frame (lit "UPOK") ((c ∷ s) ∷ []))
    ∷ broadcast_to_room sv.memory (some r) sess
        (build_frame (lit "FILE") ((c ∷ s) ∷ filename ∷ show filesize ∷ show sess.fd ∷ []))

unfoldable pub on_upload : (ℕ → Draw) → Server → Session → AppMessage → Reply
unfolding upload_frames own_room
on_upload draws sv sess msg =
    if ltb (length msg.params) 2 then (sv, []) else elim (stoul (param msg 1)) [
      | none ↦ (sv, [])
      | some filesize ↦ elim (own_room sv sess) [
        | none ↦ (sv, [])
        | some r ↦
            let (tm, file_id) = register_file draws (param msg 0) filesize sess r.transfer_mgr in
            (set_transfers sv sess r tm, upload_frames sv sess r (param msg 0) filesize file_id)
      ]
    ]

abbrev is_own : Session → Option FileRegistration → Bool
is_own sess none = false
is_own sess (some reg) = reg.uploader is sess

unfoldable pub on_upcancel : Server → Session → AppMessage → Reply
unfolding broadcast_to_room build_dwerr_frame find_registration own_room
on_upcancel sv sess msg =
    if ltb (length msg.params) 1
    then (sv, [])
    else let file_id = param msg 0 in
      elim (own_room sv sess) [
        | none ↦ (sv, [])
        | some r ↦
            if is_own sess (find_registration file_id r.transfer_mgr)
            then (
              set_transfers sv sess r (cancel_file file_id r.transfer_mgr).0,
              broadcast_to_room sv.memory (some r) sess (build_dwerr_frame file_id (lit "上传已取消"))
                  ++ send sess (build_frame (lit "DONE") (lit "cancelled" ∷ [])) ∷ [],
            )
            else (sv, [])
      ]

-- The offset to start from: 0 where there is no second parameter, `none` where it is no number
abbrev pub start_offset : AppMessage → Option ℕ
start_offset msg = if ltb (length msg.params) 2 then some 0 else stoull (param msg 1)

abbrev pub dwstart_frame : FileRegistration → Text
dwstart_frame reg =
    build_frame (lit "DWSTART") (reg.file_id ∷ reg.filename ∷ show reg.filesize ∷ [])

-- A download of a file that was found. The uploader is not seen to go while the command runs.
unfoldable pub begin_download : Server → Session → Room → Text → FileRegistration → ℕ → Reply
unfolding build_dwreq_frame
begin_download sv sess r file_id reg offset =
    let (tm, start) = start_transfer sv.memory file_id sess offset r.transfer_mgr in
    (
      set_transfers sv sess r tm,
      elim start [
        | none ↦ send sess (build_frame (lit "SYS") (lit "ERR|无法启动传输 上传方可能已离线" ∷ [])) ∷ []
        | some (sid, requests) ↦ send sess (dwstart_frame reg) ∷ map build_dwreq_frame requests
      ],
    )

unfoldable pub on_download : Server → Session → AppMessage → Reply
unfolding begin_download find_registration build_dwerr_frame own_room
on_download sv sess msg =
    if ltb (length msg.params) 1
    then (sv, [])
    else let file_id = param msg 0 in
      elim (own_room sv sess) [
        | none ↦ (sv, [])
        | some r ↦ elim (find_registration file_id r.transfer_mgr) [
          | none ↦ (sv, send sess (build_frame (lit "SYS") (lit "ERR|文件不存在" ∷ [])) ∷ [])
          | some reg ↦
              if not (sv.memory.alive reg.uploader.address)
              then (sv, send sess (build_dwerr_frame reg.file_id uploader_gone) ∷ [])
              else elim (start_offset msg) [
                | none ↦ (sv, [])
                | some offset ↦ begin_download sv sess r file_id reg offset
              ]
        ]
      ]

-- The next request goes to the uploader, or the downloader is told that there is none.
unfoldable pub request_or_error : Memory → Session → Session → Option NextRequest → List Down
unfolding build_dwreq_frame build_dwerr_frame
request_or_error m sess uploader none = []
request_or_error m sess uploader (some r) =
    if m.alive uploader.address
    then build_dwreq_frame r ∷ []
    else send sess (build_dwerr_frame r.file_id uploader_gone) ∷ []

unfoldable pub ack_frames : Memory → Session → Option AckResult → List Down
unfolding request_or_error
ack_frames m sess none = []
ack_frames m sess (some r) =
    (if r.downloader_done
      then send sess (build_frame (lit "DWNDONE") (r.file_id ∷ [])) ∷ []
      else [])
    ++ request_or_error m sess r.uploader r.next

unfoldable pub ack_in_room : Server → Session → ℕ → ℕ → Reply
unfolding ack_frames own_room
ack_in_room sv sess sid offset = elim (own_room sv sess) [
  | none ↦ (sv, [])
  | some r ↦
      let (tm, result) = handle_ack sess sid offset r.transfer_mgr in
      (set_transfers sv sess r tm, ack_frames sv.memory sess result)
]

unfoldable pub on_dwack : Server → Session → AppMessage → Reply
unfolding ack_in_room
on_dwack sv sess msg = if ltb (length msg.params) 2 then (sv, []) else elim (stoull (param msg 0)) [
  | none ↦ (sv, [])
  | some sid ↦ elim (stoul (param msg 1)) [
    | none ↦ (sv, [])
    | some offset ↦ ack_in_room sv sess sid offset
  ]
]

-- `DWNPAUSE` and `DWNCANCEL`
unfoldable pub on_stop : Server → Session → AppMessage → Reply
unfolding own_room
on_stop sv sess msg = if ltb (length msg.params) 1 then (sv, []) else elim (own_room sv sess) [
  | none ↦ (sv, [])
  | some r ↦
      let (tm, _) = cancel_session sess (param msg 0) r.transfer_mgr in
      (set_transfers sv sess r tm, [])
]
