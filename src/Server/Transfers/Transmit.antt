-- ===== src/Server/Transfers/Transmit.antt =====
-- A chunk on its way over the server, and its acknowledgement on the way back
-- (src/app/AppTransferCommands.cpp, src/chatroom/TransferManager.cpp).
use chat_serve.Base.{
  ℕ, ◌+◌, ◌-◌, ◌^◌, ◌<◌, min, ◌≡◌, refl, true, false, List, [], ◌∷◌, ◌++◌, Option, none, some, ltb,
  ◌===◌, nat_eq, list_eq, eq_refl, lookup, insert, lookup-insert_self, append-nil, length,
  Bool-cases, inl, inr, arith, nat,
}
use chat_serve.Text.{Text, lit, join}
use chat_serve.Text.Number.{show}
use chat_serve.Transfer.Frame.{Bytes, build_binary_frame, length-build}
use chat_serve.Server.Parser.{build_frame, add_params}
use chat_serve.Server.Numbers.{word_limit}
use chat_serve.Server.State.{
  Session, ◌is◌, Memory, TransferSession, TransferManager, Room, Server, text, binary,
}
use chat_serve.Server.Rooms.{find_room}
use chat_serve.Server.Files.{Draw}
use chat_serve.Server.Transfers.{
  NextRequest, ChunkResult, chunk_bytes, put_chunk, handle_chunk_data, take_chunk,
}
use chat_serve.Server.Commands.{
  own_room, set_transfers, request_if_alive, chunk_frames, handle_chunk, build_dwreq_frame,
}
use chat_serve.Server.Events.{handle_up, ws_binary}
use chat_serve.Server.Router.Delivery.{received_by}
use chat_serve.Server.Transfers.Header.{
  read_word-build_session, read_word-build_offset, read_word-build_size,
}
use chat_serve.Server.Transfers.Window.{Is, IsTo, take_chunk-Is}

-- The announcement of a chunk as the server builds it
abbrev pub dwdata_text : ℕ → Text → ℕ → ℕ → Text
dwdata_text sid file_id o size =
    join (lit "|") (lit "DWDATA" ∷ show sid ∷ file_id ∷ show o ∷ show size ∷ [])

abbrev pub done_text : Text → Text
done_text file_id = lit "DWNDONE|" ++ file_id

module _ (up down : Session) (sid : ℕ) (file_id : Text) (filesize : ℕ) where
  -- Both are connected and in one room, which has the session.
  pub record Serves (sv : Server) (pending : List ℕ) (received : ℕ) : Type 0 where
    pub same_room : sv.memory.room down.address ≡ sv.memory.room up.address
    pub up_alive : sv.memory.alive up.address ≡ true
    pub down_alive : sv.memory.alive down.address ≡ true
    pub room : Room
    pub room_found : lookup (sv.memory.room up.address) sv.rooms ≡ some room
    pub session : TransferSession
    pub found : lookup sid room.transfer_mgr.sessions ≡ some session
    pub state : Is up down file_id filesize session pending received

  -- The room goes on with this state of the session.
  abbrev goes_on : Server → Room → TransferSession → Server
  goes_on sv r ts = record sv {
    rooms =
        insert (sv.memory.room up.address)
          (record r {
            transfer_mgr = record (r.transfer_mgr) {
              sessions = insert sid ts r.transfer_mgr.sessions;
            };
          })
          sv.rooms;
  }

  pub goes_on-Serves :
      (sv : Server) {p q : List ℕ} {n m : ℕ} (h : Serves sv p n) (ts : TransferSession)
      → Is up down file_id filesize ts q m
      → Serves (goes_on sv h.room ts) q m
  goes_on-Serves sv h ts i = record {
    same_room = h.same_room;
    up_alive = h.up_alive;
    down_alive = h.down_alive;
    room = _;
    room_found = lookup-insert_self (sv.memory.room up.address) _ sv.rooms;
    session = ts;
    found = lookup-insert_self sid ts h.room.transfer_mgr.sessions;
    state = i;
  }

  handle_chunk_data-take :
      (tm : TransferManager) (o : ℕ) (d : Bytes) (ts ts' : TransferSession) (result : ChunkResult)
      → sid < 2 ^ 64
      → o < 2 ^ 64
      → length d < 2 ^ 32
      → lookup sid tm.sessions ≡ some ts
      → take_chunk up sid o (length d) ts ≡ some (ts', result)
      → handle_chunk_data up (build_binary_frame (nat sid) (nat o) d) tm
        ≡ (record tm { sessions = insert sid ts' tm.sessions }, some result)
  unfolding handle_chunk_data put_chunk
  handle_chunk_data-take tm o d ts ts' result hs ho hd e f =
      let n : ltb (length (build_binary_frame (nat sid) (nat o) d)) 20 ≡ false =
        ground (arith, length-build sid o d) in
      let l : (length (build_binary_frame (nat sid) (nat o) d) === 20 + length d) ≡ true =
        ground (arith, length-build sid o d) in
      rw (n, handle_chunk_data)
        (rw
          (
            read_word-build_session sid o d hs,
            read_word-build_offset sid o d ho,
            read_word-build_size sid o d hd,
            l,
          )
          (rw (e, put_chunk, f) refl))

  handle_chunk-found :
      (sv : Server) (r : Room) (bytes : Bytes)
      → own_room sv up ≡ some r
      → handle_chunk sv up bytes ≡ (
        set_transfers sv up r (handle_chunk_data up bytes r.transfer_mgr).0,
        chunk_frames sv.memory bytes (handle_chunk_data up bytes r.transfer_mgr).1,
      )
  unfolding handle_chunk find_room own_room
  handle_chunk-found sv r bytes e = rw (e, handle_chunk) refl

  request-received :
      (m : Memory) (next : Option NextRequest)
      → (up is down) ≡ false
      → IsTo up next
      → received_by down (request_if_alive m next) ≡ []
  unfolding build_dwreq_frame request_if_alive
  request-received m none u h = refl
  request-received m (some r) u h = elim (Bool-cases (m.alive r.uploader.address)) [
    | inl alive ↦ rw (alive, h, u) refl
    | inr gone ↦ rw gone refl
  ]

  dwdata-frame :
      (r : ChunkResult) (o size : ℕ)
      → r.session_id ≡ sid
      → r.file_id ≡ file_id
      → r.offset ≡ o
      → r.size ≡ size
      → build_frame
          (lit "DWDATA")
          (show r.session_id ∷ r.file_id ∷ show r.offset ∷ show r.size ∷ [])
        ≡ dwdata_text sid file_id o size
  unfolding build_frame add_params join
  dwdata-frame r o size a b c d = rw (a, b, c, d, append-nil (show size)) refl

  chunk_frames-received :
      (m : Memory) (bytes : Bytes) (r : ChunkResult) (o size : ℕ)
      → (up is down) ≡ false
      → r.session_id ≡ sid
      → r.file_id ≡ file_id
      → r.offset ≡ o
      → r.size ≡ size
      → r.downloader ≡ down
      → IsTo up r.next
      → received_by down (chunk_frames m bytes (some r))
        ≡ text (dwdata_text sid file_id o size) ∷ binary bytes ∷ []
  unfolding chunk_frames
  chunk_frames-received m bytes r o size u a b c d e t =
      rw (e, eq_refl down.address, request-received m r.next u t, dwdata-frame r o size a b c d)
        refl

  -- A chunk of a served session, in a frame as the uploader's client builds it.
  pub chunk-Serves :
      (draws : ℕ → Draw) (sv : Server) (o : ℕ) (d : Bytes)
      → Serves sv [] o
      → (up is down) ≡ false
      → sid < word_limit
      → filesize < word_limit
      → o < filesize
      → length d ≡ min chunk_bytes (filesize - o)
      → let frame = build_binary_frame (nat sid) (nat o) d in
        let reply = handle_up draws sv up (ws_binary frame) in
        Serves reply.0 (o ∷ []) (o + length d)
        × (received_by down reply.1
            ≡ text (dwdata_text sid file_id o (length d)) ∷ binary frame ∷ [])
  unfolding handle_up find_room own_room
  chunk-Serves draws sv o d h u hs hf k e =
      let frame = build_binary_frame (nat sid) (nat o) d in
      let (ts', result, take, state, a, b, c, s, w, t) =
        take_chunk-Is up down file_id filesize h.session sid o (length d) h.state k e hf in
      let put =
        handle_chunk_data-take h.room.transfer_mgr o d h.session ts' result (omega arith)
          (omega arith) (omega arith) h.found take in
      rw (h.up_alive, handle_up, handle_chunk-found sv h.room frame h.room_found, put)
        (
          goes_on-Serves sv h ts' state,
          chunk_frames-received sv.memory frame result o (length d) u a b c s w t,
        )
