-- ===== src/Tests/Server.antt =====
-- A server with a room of two, with the theorems on it at its states.
use chat_serve.Base.{
  ℕ, ◌≡◌, ◌*◌, ◌+◌, refl, true, false, not, ◌&&◌, List, [], ◌∷◌, ◌++◌, if◌then◌else◌, map, arith,
  list_eq, nat_eq, lookup, nat, none, insert,
}
use chat_serve.Text.{lit}
use chat_serve.Text.Number.{show}
use chat_serve.Transfer.State.{initial}
use chat_serve.Transfer.Receive.{handle_dwstart}
use chat_serve.Chat.State.{Chat, add_chat, nick_of, other}
use chat_serve.Chat.Routing.{handle_text_message, on_leave, with_rtc}
use chat_serve.Tests.Chat.{no_rtc, at, in_room}
use chat_serve.Server.Parser.{parse, build_frame, body, parse-build_frame}
use chat_serve.Server.State.{
  Session, ◌is◌, Entry, TransferSession, FileRegistration, TransferManager, Room, Server, text,
  send, new_manager,
}
use chat_serve.Server.Rooms.{find_room, get_connections}
use chat_serve.Server.Router.{build_members_frame, find_peer}
use chat_serve.Server.Files.{Draw, find_registration}
use chat_serve.Server.Transfers.{
  chunk_bytes, window_size, initial_requests, new_transfer, start_transfer, try_send_next_request,
}
use chat_serve.Server.Commands.{own_room, dwstart_frame}
use chat_serve.Server.Events.{ws_text, closed, handle_up, cleanup, cancel_transfers}
use chat_serve.Server.Router.Delivery.{received_by, has_member}
use chat_serve.Server.Rooms.Seats.{seating}
use chat_serve.Server.Rooms.Seating.{seated, seat_step}
use chat_serve.Server.Rooms.Refine.{handle_up-seats}
use chat_serve.Server.Rooms.Invariant.{IsConsistent}
use chat_serve.Server.Rooms.Leaving.{left_behind}
use chat_serve.Server.Rooms.Runs.{Event, session, shuts, expires, run, started, run-IsConsistent}
use chat_serve.Server.Router.Relay.{Meets, signals_relayed}
use chat_serve.Server.Router.Lines.{line_from, line_delivered}
use chat_serve.Server.Router.Arrival.{ok_text, join_delivered}
use chat_serve.Server.Router.Roster.{as_member}
use chat_serve.Server.Router.Departure.{left_text, departure_delivered}
use chat_serve.Server.Transfers.Transmit.{Serves, done_text}
use chat_serve.Server.Transfers.Acknowledge.{Ends}
use chat_serve.Server.Transfers.Serve.{exchange, told}
use chat_serve.Server.Transfers.Delivered.{consume, file_delivered}
use chat_serve.Server.Cancel.{cancel_by_session}
use chat_serve.Server.Cancel.Indexed.{Indexes, IsIndexed}
use chat_serve.Server.Cancel.Ended.{left_of, cancel_by_session_lem}
use chat_serve.Server.Cancel.Kept.{start_transfer-IsIndexed}
use chat_serve.Server.Cancel.Handlers.{AreIndexed}
use chat_serve.Server.Cancel.Agree.{run-AreIndexed}
use chat_serve.Server.Transfers.Begin.{download_begins}
use chat_serve.Server.Transfers.Overrun.{after_rounds, window_overrun}

abbrev ann : Session
ann = record { address = 1; fd = 7; io = 0 }

abbrev bob : Session
bob = record { address = 2; fd = 8; io = 0 }

abbrev draws : ℕ → Draw
draws i = record { seconds = 5; nanoseconds = i; random = 42 }

-- A file of three bytes that `ann` offers, and its download by `bob`
abbrev photo : FileRegistration
photo = record { file_id = lit "f"; filename = lit "a.png"; filesize = 3; uploader = ann }

abbrev download : TransferSession
download = record (new_transfer 1 (lit "f") photo bob 0) { next_req_offset = 3 }

abbrev offering : TransferManager
offering = record new_manager { registrations = (lit "f", photo) ∷ [] }

abbrev room_with : TransferManager → Room
room_with tm = record {
  connections =
      record { sess = ann; nick = lit "ann" } ∷ record { sess = bob; nick = lit "bob" } ∷ [];
  transfer_mgr = tm;
}

abbrev server_with : TransferManager → Server
server_with tm = record {
  rooms = (lit "r", room_with tm) ∷ [];
  memory = record { alive = λ a. true; room = λ a. lit "r"; expired = λ a. false };
}

parse-build_frame_example : parse (build_frame (lit "MSG") (lit "7" ∷ lit "hi" ∷ [])) ≡ record {
  command = lit "MSG";
  params = lit "7" ∷ lit "hi" ∷ [];
  rest = body (lit "7") (lit "hi" ∷ []);
}
parse-build_frame_example =
    parse-build_frame (lit "MSG") (lit "7") (lit "hi" ∷ []) (refl, (refl, (refl, tt))) (refl, tt)
      ((refl, (refl, tt)), tt)

meets : Meets (server_with new_manager) ann bob
unfolding find_peer own_room find_room lookup get_connections
meets = record { is_alive = refl; is_found = refl; is_int = omega arith }

signals_relayed_example :
    let sv = server_with new_manager in
    let offer = lit "OFFER|" ++ (show 7 ++ lit "|c2Rw") in
    let answer = lit "ANSWER|" ++ (show 7 ++ lit "|c2Rw") in
    let candidate = lit "ICE|" ++ (show 7 ++ lit "|c2Rw") in
    let c = in_room in
    (handle_up draws sv ann (ws_text (lit "OFFER|" ++ (show 8 ++ lit "|c2Rw")))
      ≡ (sv, send bob offer ∷ []))
    × (handle_text_message no_rtc c (at 2) offer
        ≡ with_rtc c
            (no_rtc.handle_offer c.rtc (show 7) (nick_of c.member_list (show 7)) (lit "c2Rw")))
    × (handle_up draws sv ann (ws_text (lit "ANSWER|" ++ (show 8 ++ lit "|c2Rw")))
        ≡ (sv, send bob answer ∷ []))
    × (handle_text_message no_rtc c (at 2) answer
        ≡ with_rtc c (no_rtc.handle_answer c.rtc (show 7) (lit "c2Rw")))
    × (handle_up draws sv ann (ws_text (lit "ICE|" ++ (show 8 ++ lit "|c2Rw")))
        ≡ (sv, send bob candidate ∷ []))
    × (handle_text_message no_rtc c (at 2) candidate
        ≡ with_rtc c (no_rtc.handle_ice c.rtc (show 7) (lit "c2Rw")))
signals_relayed_example =
    signals_relayed draws (server_with new_manager) ann bob meets no_rtc in_room (at 2) (lit "c2Rw")
      (omega arith, (refl, (refl, (refl, (refl, tt)))))

line_delivered_example :
    let sv = server_with new_manager in
    let reply = handle_up draws sv ann (ws_text (lit "MSG|" ++ lit "a|b")) in
    (reply.0 ≡ sv)
    × (received_by bob reply.1 ≡ text (line_from ann (lit "a|b")) ∷ [])
    × (handle_text_message no_rtc in_room (at 2) (line_from ann (lit "a|b"))
        ≡ add_chat in_room (at 2) (nick_of in_room.member_list (show 7)) (lit "a|b") other)
unfolding own_room find_room lookup show
line_delivered_example =
    line_delivered no_rtc in_room (at 2) draws (server_with new_manager) ann bob
      (room_with new_manager) (lit "a|b") refl refl (refl, (refl, tt)) refl

abbrev joins : List Event
joins =
    session draws ann (ws_text (lit "JOIN|r|ann"))
    ∷ session draws bob (ws_text (lit "JOIN|r|bob"))
    ∷ []

-- `ann` and `bob` join, and `bob` leaves and is gone.
abbrev server_events : List Event
server_events = joins ++ shuts 2 ∷ session draws bob closed ∷ expires 2 ∷ []

run-IsConsistent_example : IsConsistent (seating (run started server_events))
run-IsConsistent_example = run-IsConsistent server_events

handle_up-seats_example :
    seating (handle_up draws started ann (ws_text (lit "JOIN|r|ann"))).0
    ≡ seat_step (seating started) ann (ws_text (lit "JOIN|r|ann"))
handle_up-seats_example = handle_up-seats started ann draws (ws_text (lit "JOIN|r|ann"))

join_delivered_example :
    let ms : List Entry = record { sess = ann; nick = lit "ann" } ∷ [] in
    let reply =
      handle_up draws started ann (ws_text (lit "JOIN|" ++ (lit "r" ++ (lit "|" ++ lit "ann")))) in
    (received_by ann reply.1 ≡ text (ok_text (lit "r") 7) ∷ text (build_members_frame ms) ∷ [])
    × (handle_text_message no_rtc in_room (at 2) (build_members_frame ms)
        ≡ record in_room { member_list = map as_member ms })
unfolding lookup run
join_delivered_example =
    join_delivered no_rtc in_room (at 2) draws started ann ann (lit "r") (lit "ann")
      (run-IsConsistent []) refl refl refl refl refl (refl, tt) (refl, (refl, (refl, tt))) refl tt
      (refl, (refl, (refl, tt)))

departure_delivered_example :
    let sv = run started joins in
    let members = seated ((seating sv).seats (sv.memory.room 1)) in
    (received_by bob (cleanup sv ann).1
      ≡ received_by bob (cancel_transfers sv ann).1
        ++ (if has_member bob members && not (sv.memory.expired 2) && not (bob is ann)
            then text (left_text 7) ∷ text (build_members_frame (left_behind (seating sv) ann)) ∷ []
            else []))
    × (handle_text_message no_rtc in_room (at 2) (left_text 7) ≡ on_leave no_rtc in_room (show 7))
departure_delivered_example =
    departure_delivered no_rtc in_room (at 2) (run started joins) ann bob (run-IsConsistent joins)

window_overrun_example :
    let reg = record photo { filesize = 262144 * 14 } in
    let first = (initial_requests window_size (new_transfer 1 (lit "f") reg bob 0)).0 in
    let ts = after_rounds ann bob 1 3 0 first in
    (ts.total_received ≡ chunk_bytes * 3)
    × (ts.next_req_offset ≡ chunk_bytes * (window_size + 2 * 3))
    × (ts.pending_acks ≡ [])
window_overrun_example =
    window_overrun (record photo { filesize = 262144 * 14 }) bob 1 3 (lit "f") (omega arith)
      (omega arith)

download_begins_example :
    let sv = server_with offering in
    let reply = handle_up draws sv bob (ws_text (lit "DOWNLOAD|" ++ lit "f")) in
    Serves ann bob 1 (lit "f") 3 reply.0 [] 0
    × (received_by bob reply.1 ≡ text (dwstart_frame photo) ∷ [])
    × (handle_text_message no_rtc in_room (at 2) (dwstart_frame photo)
        ≡ record in_room { ft = handle_dwstart in_room.ft (lit "f") (lit "a.png") (nat 3) })
unfolding own_room find_room lookup find_registration
download_begins_example =
    download_begins no_rtc in_room (at 2) draws (server_with offering) bob (room_with offering)
      photo refl refl refl refl refl refl (omega arith) refl (refl, tt)
      (refl, (refl, (refl, (refl, (refl, tt)))))

serves :
    Serves ann bob 1
      (lit "f")
      3
      (server_with (record offering { sessions = (1, download) ∷ [] }))
      []
      0
unfolding lookup
serves = record {
  same_room = refl;
  up_alive = refl;
  down_alive = refl;
  room = room_with (record offering { sessions = (1, download) ∷ [] });
  room_found = refl;
  session = download;
  found = refl;
  state = record {
    uploader_is = refl;
    downloader_is = refl;
    file_is = refl;
    filesize_is = refl;
    received_is = refl;
    pending_is = refl;
  };
}

abbrev downloading : Chat ℕ
downloading = record in_room { ft = handle_dwstart initial (lit "f") (lit "a.png") (nat 3) }

file_delivered_example :
    let sv = server_with (record offering { sessions = (1, download) ∷ [] }) in
    let served = exchange draws ann bob 1 sv 0 ((7 ∷ 8 ∷ 9 ∷ []) ∷ []) in
    let frames = received_by bob served.1 in
    (frames ≡ told 1 (lit "f") 0 ((7 ∷ 8 ∷ 9 ∷ []) ∷ []) ++ text (done_text (lit "f")) ∷ [])
    × Ends ann bob 1 (lit "f") 3 served.0
    × ((consume no_rtc (at 2) downloading frames).page.saved
        ≡ downloading.page.saved ++ (lit "a.png", 7 ∷ 8 ∷ 9 ∷ []) ∷ [])
unfolding lookup
file_delivered_example =
    file_delivered no_rtc (at 2) downloading initial draws
      (server_with (record offering { sessions = (1, download) ∷ [] })) ann bob 1 (lit "f")
      (lit "a.png") (7 ∷ 8 ∷ 9 ∷ []) [] serves refl (omega arith) (omega arith) (refl, tt)
      (omega arith) refl refl

run-AreIndexed_example : AreIndexed (run started server_events).rooms
run-AreIndexed_example = run-AreIndexed server_events

-- `bob` has begun to load the file.
abbrev loading : TransferManager
loading = (start_transfer (server_with offering).memory (lit "f") bob 0 offering).0

offering-IsIndexed : IsIndexed offering
unfolding Indexes lookup
offering-IsIndexed = record { up = λ j a. refl; down = λ j a. refl; fresh = λ j l. refl }

loading-IsIndexed : IsIndexed loading
loading-IsIndexed =
    start_transfer-IsIndexed (server_with offering).memory (lit "f") bob 0 offering
      offering-IsIndexed

cancel_by_session_example :
    lookup 1 (cancel_by_session bob loading).0.sessions ≡ left_of bob (lookup 1 loading.sessions)
cancel_by_session_example = cancel_by_session_lem bob loading loading-IsIndexed 1

-- The transfer was there, and is gone.
loading_ends :
    (map (λ e. e.0) loading.sessions ≡ 1 ∷ []) × (left_of bob (lookup 1 loading.sessions) ≡ none)
unfolding start_transfer initial_requests try_send_next_request lookup insert
loading_ends = (refl, refl)
