-- ===== src/Server/Transfers/Begin.antt =====
-- A download begins: the session that the server makes, its first requests, and the client's state
-- (src/app/AppTransferCommands.cpp, src/chatroom/TransferManager.cpp;
-- web/src/composables/useFileTransfer.js).
use chat_serve.Base.{
  ℕ, zero, suc, ◌+◌, ◌-◌, ◌/◌, ◌%◌, ◌<◌, min, ◌≡◌, refl, true, false, List, [], ◌∷◌, ◌++◌, map,
  Option, none, some, leb, nat_eq, list_eq, eq_refl, insert, lookup-insert_self, append-nil, All,
  arith, nat,
}
use chat_serve.Text.{Text, lit, join, Lacks, starts_with}
use chat_serve.Text.Laws.{split-join}
use chat_serve.Text.Number.{show, show-Lacks, parse_int-show}
use chat_serve.Transfer.Receive.{handle_dwstart}
use chat_serve.Chat.State.{Chat, Moment, Rtc}
use chat_serve.Chat.Routing.{handle_text_message, handle_signal, handle_file_message}
use chat_serve.Server.Parser.{build_frame, add_params, parse-build_frame}
use chat_serve.Server.Numbers.{word_limit}
use chat_serve.Server.State.{
  Session, ◌is◌, Memory, FileRegistration, TransferSession, TransferManager, Room, Server, text,
  send,
}
use chat_serve.Server.Router.{is_blank}
use chat_serve.Server.Files.{Draw, find_registration, push_ref}
use chat_serve.Server.Transfers.{
  NextRequest, initial_requests, gather, new_transfer, start_transfer, try_send_next_request,
  chunk_bytes, window_size,
}
use chat_serve.Server.Commands.{
  own_room, set_transfers, begin_download, on_download, build_dwreq_frame, dwstart_frame,
}
use chat_serve.Server.Events.{handle, handle_other, handle_up, ws_text}
use chat_serve.Server.Router.Delivery.{received_by}
use chat_serve.Server.Transfers.Window.{Is, IsTo, try_send-Is}
use chat_serve.Server.Transfers.Transmit.{Serves}

module _ (up down : Session) (file_id : Text) (filesize : ℕ) where
  -- Every first request goes to the uploader.
  abbrev AreTo : List NextRequest → Type 0
  AreTo = All λ r. r.uploader ≡ up

  gather-Is :
      (next : TransferSession → TransferSession × List NextRequest)
      (p : TransferSession × Option NextRequest) {pending : List ℕ} {received : ℕ}
      → ((ts : TransferSession)
          → Is up down file_id filesize ts pending received
          → Is up down file_id filesize (next ts).0 pending received × AreTo (next ts).1)
      → Is up down file_id filesize p.0 pending received × IsTo up p.1
      → Is up down file_id filesize (gather next p).0 pending received × AreTo (gather next p).1
  gather-Is next (ts, none) k h = (h.0, tt)
  gather-Is next (ts, some r) k h = let (i, l) = k ts h.0 in (i, (h.1, l))

  initial_requests-Is :
      (j : ℕ) (ts : TransferSession) {pending : List ℕ} {received : ℕ}
      → Is up down file_id filesize ts pending received
      → Is up down file_id filesize (initial_requests j ts).0 pending received
        × AreTo (initial_requests j ts).1
  unfolding initial_requests
  initial_requests-Is zero ts h = (h, tt)
  initial_requests-Is (suc j) ts h =
      gather-Is (initial_requests j) (try_send_next_request ts)
        (λ ts' i. initial_requests-Is j ts' i) (try_send-Is up down file_id filesize ts h)

requests-received :
    (up down : Session) (rs : List NextRequest)
    → (up is down) ≡ false
    → All (λ r. r.uploader ≡ up) rs
    → received_by down (map build_dwreq_frame rs) ≡ []
unfolding build_dwreq_frame
requests-received up down [] u h = refl
requests-received up down (r ∷ rs) u h = rw (h.0, u) (requests-received up down rs u h.1)

download-frame :
    (file_id : Text) → lit "DOWNLOAD|" ++ file_id ≡ build_frame (lit "DOWNLOAD") (file_id ∷ [])
unfolding build_frame add_params
download-frame file_id = rw (append-nil file_id) refl

on_download_lem :
    (sv : Server) (down : Session) (r : Room) (reg : FileRegistration) (file_id rest : Text)
    → own_room sv down ≡ some r
    → find_registration file_id r.transfer_mgr ≡ some reg
    → sv.memory.alive reg.uploader.address ≡ true
    → on_download sv down (record { command = lit "DOWNLOAD"; params = file_id ∷ []; rest = rest })
      ≡ begin_download sv down r file_id reg 0
unfolding on_download
on_download_lem sv down r reg file_id rest k l m = rw (k, on_download, l, m) refl

handle_up-download :
    (draws : ℕ → Draw) (sv : Server) (down : Session) (r : Room) (reg : FileRegistration)
    (file_id : Text)
    → sv.memory.alive down.address ≡ true
    → own_room sv down ≡ some r
    → find_registration file_id r.transfer_mgr ≡ some reg
    → sv.memory.alive reg.uploader.address ≡ true
    → Lacks b'|' file_id
    → is_blank file_id ≡ false
    → handle_up draws sv down (ws_text (lit "DOWNLOAD|" ++ file_id))
      ≡ begin_download sv down r file_id reg 0
unfolding handle_up handle handle_other
handle_up-download draws sv down r reg [] h k l m n o = absurd (let b : true ≡ false = o in cc)
handle_up-download draws sv down r reg (c ∷ s) h k l m n o =
    rw
      (
        h,
        handle_up,
        download-frame (c ∷ s),
        parse-build_frame (lit "DOWNLOAD") (c ∷ s) []
            (refl, (refl, (refl, (refl, (refl, (refl, (refl, (refl, tt)))))))) n tt,
      )
      (on_download_lem sv down r reg (c ∷ s) _ k l m)

-- The first session and requests of a download from the start
abbrev first_of : TransferManager → Session → FileRegistration → TransferSession × List NextRequest
first_of tm down reg =
    initial_requests
      (min window_size (((reg.filesize + chunk_bytes - 1) % word_limit) / chunk_bytes))
      (new_transfer tm.next_session_id reg.file_id reg down 0)

abbrev begun_transfers : TransferManager → Session → FileRegistration → TransferManager
begun_transfers tm down reg =
    let sid = tm.next_session_id in
    record tm {
      sessions = insert sid (first_of tm down reg).0 tm.sessions;
      uploader_sessions = push_ref reg.uploader.address sid tm.uploader_sessions;
      downloader_sessions = push_ref down.address sid tm.downloader_sessions;
      next_session_id = sid + 1;
    }

start_transfer_lem :
    (m : Memory) (tm : TransferManager) (down : Session) (reg : FileRegistration)
    → find_registration reg.file_id tm ≡ some reg
    → m.alive reg.uploader.address ≡ true
    → 0 < reg.filesize
    → start_transfer m reg.file_id down 0 tm
      ≡ (begun_transfers tm down reg, some (tm.next_session_id, (first_of tm down reg).1))
unfolding start_transfer find_registration
start_transfer_lem m tm down reg f h k =
    let full : leb reg.filesize 0 ≡ false = ground arith in rw (f, start_transfer, h, full) refl

begin_download_lem :
    (sv : Server) (down : Session) (r : Room) (reg : FileRegistration)
    → find_registration reg.file_id r.transfer_mgr ≡ some reg
    → sv.memory.alive reg.uploader.address ≡ true
    → 0 < reg.filesize
    → begin_download sv down r reg.file_id reg 0 ≡ (
      set_transfers sv down r (begun_transfers r.transfer_mgr down reg),
      send down (dwstart_frame reg) ∷ map build_dwreq_frame (first_of r.transfer_mgr down reg).1,
    )
unfolding begin_download
begin_download_lem sv down r reg f h k =
    rw (start_transfer_lem sv.memory r.transfer_mgr down reg f h k) refl

-- The client takes the announcement of the download.
dwstart_lem {ℓ} :
    {R : Type ℓ} (rtc : Rtc R) (c : Chat R) (at : Moment) (reg : FileRegistration)
    → Lacks b'|' reg.file_id
    → Lacks b'|' reg.filename
    → handle_text_message rtc c at (dwstart_frame reg)
      ≡ record c { ft = handle_dwstart c.ft reg.file_id reg.filename (nat reg.filesize) }
unfolding handle_text_message handle_signal handle_file_message starts_with build_frame add_params
    join
dwstart_lem rtc c at reg h k =
    rw
      (
        append-nil (show reg.filesize),
        split-join b'|' (lit "DWSTART") (reg.file_id ∷ reg.filename ∷ show reg.filesize ∷ [])
            (refl, (refl, (refl, (refl, (refl, (refl, (refl, tt)))))))
            (h, (k, (show-Lacks b'|' reg.filesize refl, tt))),
        parse_int-show reg.filesize,
      )
      refl

-- A client asks for a file that is registered in its room by another, connected member: the server
-- makes a session for it under a fresh id, which waits for the first chunk, and sends the client
-- just the announcement of the file; and the client begins its download of that name and size. The
-- client is connected, the file is not empty and is registered under its own id, which is not the
-- empty text, and neither id nor name has a bar.
pub download_begins {ℓ} :
    {R : Type ℓ} (rtc : Rtc R) (c : Chat R) (at : Moment) (draws : ℕ → Draw) (sv : Server)
    (down : Session) (r : Room) (reg : FileRegistration)
    → sv.memory.alive down.address ≡ true
    → sv.memory.alive reg.uploader.address ≡ true
    → sv.memory.room down.address ≡ sv.memory.room reg.uploader.address
    → (reg.uploader is down) ≡ false
    → own_room sv down ≡ some r
    → find_registration reg.file_id r.transfer_mgr ≡ some reg
    → 0 < reg.filesize
    → is_blank reg.file_id ≡ false
    → Lacks b'|' reg.file_id
    → Lacks b'|' reg.filename
    → let reply = handle_up draws sv down (ws_text (lit "DOWNLOAD|" ++ reg.file_id)) in
      Serves reg.uploader down r.transfer_mgr.next_session_id reg.file_id reg.filesize reply.0 [] 0
      × (received_by down reply.1 ≡ text (dwstart_frame reg) ∷ [])
      × (handle_text_message rtc c at (dwstart_frame reg)
          ≡ record c { ft = handle_dwstart c.ft reg.file_id reg.filename (nat reg.filesize) })
download_begins rtc c at draws sv down r reg h k l u o f n b p q =
    let new = new_transfer r.transfer_mgr.next_session_id reg.file_id reg down 0 in
    let begun : Is reg.uploader down reg.file_id reg.filesize new [] 0 = record {
      uploader_is = refl;
      downloader_is = refl;
      file_is = refl;
      filesize_is = refl;
      received_is = refl;
      pending_is = refl;
    } in
    let (i, to) = initial_requests-Is reg.uploader down reg.file_id reg.filesize _ new begun in
    rw
      (
        handle_up-download draws sv down r reg reg.file_id h o f k p b,
        begin_download_lem sv down r reg f k n,
      )
      (
        record {
          same_room = l;
          up_alive = k;
          down_alive = h;
          room = record r { transfer_mgr = begun_transfers r.transfer_mgr down reg };
          room_found = rw l (lookup-insert_self (sv.memory.room reg.uploader.address) _ sv.rooms);
          session = (first_of r.transfer_mgr down reg).0;
          found = lookup-insert_self r.transfer_mgr.next_session_id _ r.transfer_mgr.sessions;
          state = i;
        },
        rw (eq_refl down.address, requests-received reg.uploader down _ u to) refl,
        dwstart_lem rtc c at reg p q,
      )
