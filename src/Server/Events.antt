-- ===== src/Server/Events.antt =====
-- The dispatch of the server's commands and what a closed connection leaves behind
-- (src/app/AppRouter.cpp, AppHandler.cpp), with the events that the business pool works on.
use chat_serve.Base.{
  ℕ, not, ◌||◌, List, [], ◌∷◌, ◌++◌, map, none, some, if◌then◌else◌, ◌===◌, nat_eq, list_eq,
}
use chat_serve.Text.{Text, lit}
use chat_serve.Text.Number.{show}
use chat_serve.Server.Parser.{AppMessage, parse, build_frame}
use chat_serve.Server.State.{Session, Entry, Server, Down, send, set_room}
use chat_serve.Server.Rooms.{leave_room}
use chat_serve.Server.Router.{
  Reply, uploader_gone, build_members_frame, build_dwerr_frame, on_join, on_msg, relay_signal,
  on_ping,
}
use chat_serve.Server.Files.{Draw}
use chat_serve.Server.Cancel.{SessionCancel, cancel_by_session}
use chat_serve.Server.Commands.{
  own_room, set_transfers, handle_chunk, on_upload, on_upcancel, on_download, on_dwack, on_stop,
}

-- The table of handlers without that of JOIN; a command that is not in it is dropped.
unfoldable pub handle_other : (ℕ → Draw) → Server → Session → AppMessage → Reply
handle_other draws sv sess msg =
    if msg.command === lit "MSG"
    then on_msg sv sess msg
    else if msg.command === lit "OFFER"
    then relay_signal sv sess msg (lit "OFFER") 1
    else if msg.command === lit "ANSWER"
    then relay_signal sv sess msg (lit "ANSWER") 1
    else if msg.command === lit "ICE"
    then relay_signal sv sess msg (lit "ICE") 1
    else if msg.command === lit "MEDIA"
    then relay_signal sv sess msg (lit "MEDIA") 2
    else if msg.command === lit "UPLOAD"
    then on_upload draws sv sess msg
    else if msg.command === lit "UPCANCEL"
    then on_upcancel sv sess msg
    else if msg.command === lit "DOWNLOAD"
    then on_download sv sess msg
    else if msg.command === lit "DWACK"
    then on_dwack sv sess msg
    else if msg.command === lit "DWNPAUSE" || msg.command === lit "DWNCANCEL"
    then on_stop sv sess msg
    else if msg.command === lit "PING"
    then on_ping sv sess
    else (sv, [])

unfoldable pub handle : (ℕ → Draw) → Server → Session → AppMessage → Reply
unfolding handle_other
handle draws sv sess msg =
    if msg.command === lit "JOIN" then on_join sv sess msg else handle_other draws sv sess msg

abbrev orphan_frame : SessionCancel → Down
orphan_frame sc = send sc.orphaned_downloader (build_dwerr_frame sc.file_id uploader_gone)

-- The transfers of a session that goes, and the frames for the downloaders that it leaves
unfoldable pub cancel_transfers : Server → Session → Reply
unfolding own_room
cancel_transfers sv sess = elim (own_room sv sess) [
  | none ↦ (sv, [])
  | some r ↦
      let (tm, cancelled) = cancel_by_session sess r.transfer_mgr in
      (set_transfers sv sess r tm, map orphan_frame cancelled)
]

unfoldable pub leave_frames : Text → Text → List Entry → List Down
leave_frames leave_text members_text [] = []
leave_frames leave_text members_text (e ∷ es) =
    send e.sess leave_text ∷ send e.sess members_text ∷ leave_frames leave_text members_text es

unfoldable pub cleanup : Server → Session → Reply
unfolding cancel_transfers leave_frames
cleanup sv sess =
    let (sv1, orphans) = cancel_transfers sv sess in
    let room_id = sv.memory.room sess.address in
    let (rooms, remaining) = leave_room sv.memory room_id sess sv1.rooms in
    (
      record { rooms = rooms; memory = set_room sess.address [] sv.memory },
      orphans
          ++ leave_frames (build_frame (lit "LEAVE") (show sess.fd ∷ []))
              (build_members_frame remaining) remaining,
    )

-- `CtrlUp`, less its session
pub data Up : Type 0 where
  ws_text : Text → Up
  ws_binary : List ℕ → Up
  closed : Up

-- `handle_up`, with `route` and `route_chunk`: a closed session's messages are dropped.
unfoldable pub handle_up : (ℕ → Draw) → Server → Session → Up → Reply
unfolding handle cleanup
handle_up draws sv sess (ws_text s) =
    if not (sv.memory.alive sess.address) then (sv, []) else handle draws sv sess (parse s)
handle_up draws sv sess (ws_binary bytes) =
    if not (sv.memory.alive sess.address) then (sv, []) else handle_chunk sv sess bytes
handle_up draws sv sess closed = cleanup sv sess
