-- ===== src/Server/Transfers/Acknowledge.antt =====
-- The acknowledgement of a chunk at the server (src/app/AppTransferCommands.cpp,
-- src/chatroom/TransferManager.cpp).
use chat_serve.Base.{
  ℕ, ◌≡◌, ◌<◌, refl, ◌∙◌, true, false, [], ◌∷◌, Option, none, some, if◌then◌else◌, leb, nat_eq,
  list_eq, eq_refl, lookup, insert, lookup-insert_self, lookup-erase_self, append-nil, length,
  Bool-cases, inl, inr, arith,
}
use chat_serve.Text.{Text, lit}
use chat_serve.Text.Number.{show, show-head, show-Lacks}
use chat_serve.Transfer.Exchange.{ack}
use chat_serve.Server.Parser.{build_frame, add_params}
use chat_serve.Server.Numbers.{word_limit, stoull-show}
use chat_serve.Server.State.{
  Session, ◌is◌, Memory, TransferSession, TransferManager, Room, Server, text,
}
use chat_serve.Server.Rooms.{find_room}
use chat_serve.Server.Files.{Draw}
use chat_serve.Server.Transfers.{NextRequest}
use chat_serve.Server.Cancel.{AckResult, handle_ack, cleanup_session, take_ack}
use chat_serve.Server.Commands.{
  own_room, set_transfers, request_or_error, ack_frames, ack_in_room, on_dwack, build_dwreq_frame,
}
use chat_serve.Server.Events.{handle, handle_other, handle_up, ws_text}
use chat_serve.Server.Router.Delivery.{received_by}
use chat_serve.Server.Router.Relay.{parse-signal}
use chat_serve.Server.Transfers.Window.{IsTo, take_ack-Is}
use chat_serve.Server.Transfers.Transmit.{Serves, goes_on-Serves, done_text}

show_full : (n : ℕ) → 0 < length (show n)
show_full n = let (c, s, e, h, k) = show-head n in rw e (omega arith)

on_dwack_lem :
    (sv : Server) (down : Session) (sid o : ℕ) (rest : Text)
    → sid < word_limit
    → o < word_limit
    → on_dwack sv down
        (record { command = lit "DWACK"; params = show sid ∷ show o ∷ []; rest = rest })
      ≡ ack_in_room sv down sid o
unfolding on_dwack
on_dwack_lem sv down sid o rest k l = rw (stoull-show sid k, on_dwack, stoull-show o l) refl

handle_up-ack :
    (draws : ℕ → Draw) (sv : Server) (down : Session) (sid o : ℕ)
    → sv.memory.alive down.address ≡ true
    → sid < word_limit
    → o < word_limit
    → handle_up draws sv down (ws_text (ack sid o)) ≡ ack_in_room sv down sid o
unfolding handle_up handle handle_other
handle_up-ack draws sv down sid o h k l =
    rw
      (
        h,
        handle_up,
        parse-signal (lit "DWACK") (show o) sid (refl, (refl, (refl, (refl, (refl, tt)))))
            (show_full o, show-Lacks b'|' o refl),
      )
      (on_dwack_lem sv down sid o _ k l)

ack_in_room-found :
    (sv : Server) (down : Session) (sid o : ℕ) (r : Room)
    → own_room sv down ≡ some r
    → ack_in_room sv down sid o ≡ (
      set_transfers sv down r (handle_ack down sid o r.transfer_mgr).0,
      ack_frames sv.memory down (handle_ack down sid o r.transfer_mgr).1,
    )
unfolding ack_in_room find_room own_room
ack_in_room-found sv down sid o r e = rw (e, ack_in_room) refl

abbrev put_session : ℕ → TransferSession → TransferManager → TransferManager
put_session sid ts tm = record tm { sessions = insert sid ts tm.sessions }

handle_ack-take :
    (tm : TransferManager) (down : Session) (sid o : ℕ) (ts ts' : TransferSession)
    (result : AckResult)
    → lookup sid tm.sessions ≡ some ts
    → take_ack down o ts ≡ some (ts', result)
    → handle_ack down sid o tm ≡ (
      if result.downloader_done
          then cleanup_session sid (put_session sid ts' tm)
          else put_session sid ts' tm,
      some result,
    )
unfolding handle_ack
handle_ack-take tm down sid o ts ts' result e f = rw (e, handle_ack, f) refl

cleanup_session-gone :
    (sid : ℕ) (ts : TransferSession) (tm : TransferManager)
    → lookup sid (cleanup_session sid (put_session sid ts tm)).sessions ≡ none
unfolding cleanup_session
cleanup_session-gone sid ts tm =
    rw (lookup-insert_self sid ts tm.sessions, cleanup_session)
      (lookup-erase_self sid (insert sid ts tm.sessions))

module _ (up down : Session) (sid : ℕ) (file_id : Text) (filesize : ℕ) where
  request-received :
      (m : Memory) (next : Option NextRequest)
      → (up is down) ≡ false
      → m.alive up.address ≡ true
      → IsTo up next
      → received_by down (request_or_error m down up next) ≡ []
  unfolding build_dwreq_frame request_or_error
  request-received m none u a h = refl
  request-received m (some r) u a h = rw (a, h, u) refl

  ack_frames-received :
      (m : Memory) (r : AckResult)
      → (up is down) ≡ false
      → m.alive up.address ≡ true
      → r.file_id ≡ file_id
      → r.uploader ≡ up
      → IsTo up r.next
      → received_by down (ack_frames m down (some r))
        ≡ (if r.downloader_done then text (done_text file_id) ∷ [] else [])
  unfolding ack_frames build_frame add_params
  ack_frames-received m r u a b c t =
      let rest : received_by down (request_or_error m down r.uploader r.next) ≡ [] =
        rw c (request-received m r.next u a t) in
      elim (Bool-cases r.downloader_done) [
        | inl done ↦ rw (done, eq_refl down.address, rest, b, append-nil file_id) refl
        | inr more ↦ rw (more, rest) refl
      ]

  -- The session is gone from the room.
  pub record Ends (sv : Server) : Type 0 where
    pub room : Room
    pub room_found : lookup (sv.memory.room up.address) sv.rooms ≡ some room
    pub gone : lookup sid room.transfer_mgr.sessions ≡ none

  module _ (draws : ℕ → Draw) (sv : Server) (o received : ℕ)
      (h : Serves up down sid file_id filesize sv (o ∷ []) received) (u : (up is down) ≡ false)
      (hs : sid < word_limit) (ho : o < word_limit) where
    -- What the server says on an acknowledgement while there is more to come
    pub ack-more :
        leb filesize received ≡ false
        → let reply = handle_up draws sv down (ws_text (ack sid o)) in
          Serves up down sid file_id filesize reply.0 [] received × (received_by down reply.1 ≡ [])
    unfolding find_room own_room
    ack-more more =
        let (ts', result, take, state, done, b, c, t) =
          take_ack-Is up down file_id filesize h.session o received h.state in
        let found : own_room sv down ≡ some h.room = rw h.same_room h.room_found in
        let acked =
          handle_ack-take h.room.transfer_mgr down sid o h.session ts' result h.found take in
        let no = done ∙ more in
        rw
          (
            handle_up-ack draws sv down sid o h.down_alive hs ho,
            ack_in_room-found sv down sid o h.room found,
            acked,
            no,
            h.same_room,
          )
          (
            goes_on-Serves up down sid file_id filesize sv h ts' state,
            rw no at (ack_frames-received sv.memory result u h.up_alive b c t),
          )

    pub ack-last :
        leb filesize received ≡ true
        → let reply = handle_up draws sv down (ws_text (ack sid o)) in
          Ends reply.0 × (received_by down reply.1 ≡ text (done_text file_id) ∷ [])
    unfolding find_room own_room
    ack-last last =
        let (ts', result, take, state, done, b, c, t) =
          take_ack-Is up down file_id filesize h.session o received h.state in
        let found : own_room sv down ≡ some h.room = rw h.same_room h.room_found in
        let acked =
          handle_ack-take h.room.transfer_mgr down sid o h.session ts' result h.found take in
        let end = done ∙ last in
        rw
          (
            handle_up-ack draws sv down sid o h.down_alive hs ho,
            ack_in_room-found sv down sid o h.room found,
            acked,
            end,
            h.same_room,
          )
          (
            record {
              room = _;
              room_found = lookup-insert_self (sv.memory.room up.address) _ sv.rooms;
              gone = cleanup_session-gone sid ts' h.room.transfer_mgr;
            },
            rw end at (ack_frames-received sv.memory result u h.up_alive b c t),
          )
