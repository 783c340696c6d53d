-- ===== src/Server/Router.antt =====
-- What the commands of the server share (src/app/AppRouter.cpp), and the commands of the chat, of
-- the signals and of the heartbeat (AppChatCommands.cpp, AppSignalCommands.cpp,
-- AppHeartbeatCommands.cpp in src/app).
pub mod Relay
pub mod Lines
pub mod Arrival
pub mod Departure
pub mod Delivery
pub mod Roster
use chat_serve.Base.{
  ℕ, suc, ◌+◌, Bool, true, false, not, ◌||◌, List, [], ◌∷◌, ◌++◌, map, Option, none, some,
  if◌then◌else◌, ltb, ◌===◌, nat_eq, list_eq, lookup, filter, find, length, get_or, take, drop, ℤ,
  pos, negsuc,
}
use chat_serve.Text.{Text, lit, join}
use chat_serve.Text.Number.{show}
use chat_serve.Server.Parser.{AppMessage, build_frame}
use chat_serve.Server.Numbers.{stoi}
use chat_serve.Server.State.{
  Session, ◌is◌, Memory, Entry, Room, Rooms, Server, Down, send, set_room,
}
use chat_serve.Server.Rooms.{max_members, get_connections, join_room, find_room}

abbrev pub uploader_gone : Text
uploader_gone = lit "上传方已离开，下载失败"

abbrev pub param : AppMessage → ℕ → Text
param msg i = get_or msg.params i []

abbrev pub is_blank : Text → Bool
is_blank [] = true
is_blank (c ∷ s) = false

-- The frame for each of these members but `except`
unfoldable pub broadcast_except : List Entry → Session → Text → List Down
broadcast_except live except text =
    map (λ e. send e.sess text) (filter (λ e. not (e.sess is except)) live)

-- The frame for each of these members
unfoldable pub broadcast_all : List Entry → Text → List Down
broadcast_all live text = map (λ e. send e.sess text) live

unfoldable pub broadcast_to_room : Memory → Option Room → Session → Text → List Down
unfolding broadcast_except get_connections
broadcast_to_room m none except text = []
broadcast_to_room m (some r) except text = broadcast_except (get_connections m r) except text

abbrev has_fd : ℤ → Entry → Bool
has_fd (pos n) e = e.sess.fd === n
has_fd (negsuc n) e = false

unfoldable pub find_peer : Memory → Option Room → ℤ → Option Session
unfolding get_connections
find_peer m none target_fd = none
find_peer m (some r) target_fd = elim (find (has_fd target_fd) (get_connections m r)) [
  | none ↦ none
  | some e ↦ some e.sess
]

unfoldable pub member_text : Entry → Text
member_text e = show e.sess.fd ++ b':' ∷ e.nick

unfoldable pub build_members_frame : List Entry → Text
unfolding member_text
build_members_frame live = build_frame (lit "MEMBERS") (join (lit ",") (map member_text live) ∷ [])

unfoldable pub build_dwerr_frame : Text → Text → Text
build_dwerr_frame file_id reason = build_frame (lit "DWERR") (file_id ∷ reason ∷ [])

abbrev pub Reply : Type 0
Reply = Server × List Down

full_frame : Text
full_frame = build_frame (lit "SYS") ((lit "ERR|房间已满（上限 " ++ (show max_members ++ lit " 人）")) ∷ [])

-- What follows a valid `join_room`
unfoldable pub joined_frames : Session → Text → List Entry → List Down
unfolding broadcast_except broadcast_all build_members_frame
joined_frames sess room members =
    send sess (build_frame (lit "OK") (room ∷ show sess.fd ∷ []))
    ∷ (broadcast_all members (build_members_frame members)
        ++ broadcast_except members sess (build_frame (lit "JOIN") (show sess.fd ∷ [])))

-- What follows `join_room`
unfoldable pub after_join : Server → Session → Text → Rooms × Option (List Entry) → Reply
unfolding joined_frames full_frame
after_join sv sess room (rooms, none) = (record sv { rooms = rooms }, send sess full_frame ∷ [])
after_join sv sess room (rooms, some members) = (
  record { rooms = rooms; memory = set_room sess.address room sv.memory },
  joined_frames sess room members,
)

unfoldable pub on_join : Server → Session → AppMessage → Reply
unfolding after_join
on_join sv sess msg =
    let room = param msg 0 in
    if ltb (length msg.params) 2 || is_blank room || is_blank (param msg 1)
    then (sv, send sess (build_frame (lit "SYS") (lit "ERR|JOIN 参数错误" ∷ [])) ∷ [])
    else if not (is_blank (sv.memory.room sess.address))
    then (sv, [])
    else after_join sv sess room (join_room sv.memory room sess (param msg 1) sv.rooms)

unfoldable pub on_msg : Server → Session → AppMessage → Reply
unfolding broadcast_to_room find_room
on_msg sv sess msg = (
  sv,
  broadcast_to_room sv.memory (find_room (sv.memory.room sess.address) sv.rooms) sess
      (build_frame (lit "MSG") (show sess.fd ∷ msg.rest ∷ [])),
)

-- `msg.param(1 + i)` for `i` below the count, which the test before has shown to be there
abbrev payloads : ℕ → AppMessage → List Text
payloads count msg = take count (drop 1 msg.params)

unfoldable pub relay_signal : Server → Session → AppMessage → Text → ℕ → Reply
unfolding find_peer find_room
relay_signal sv sess msg command payload_count =
    if ltb (length msg.params) (1 + payload_count) then (sv, []) else elim (stoi (param msg 0)) [
      | none ↦ (sv, [])
      | some target_fd ↦
          elim (find_peer sv.memory (find_room (sv.memory.room sess.address) sv.rooms) target_fd) [
            | none ↦ (sv, [])
            | some target ↦ (
              sv,
              send target (build_frame command (show sess.fd ∷ payloads payload_count msg)) ∷ [],
            )
          ]
    ]

unfoldable pub on_ping : Server → Session → Reply
on_ping sv sess = (sv, send sess (build_frame (lit "PONG") ([] ∷ [])) ∷ [])
