-- ===== src/Server/Rooms/Seats.antt =====
-- Who sits in which room, a view of the server that forgets the transfers, and the commands that
-- leave it alone.
use mathlib.Core.Path.{fun_ext}
use chat_serve.Base.{
  ℕ, ◌+◌, ◌≡◌, refl, ap, Bool, true, false, not, List, [], Option, none, some, if◌then◌else◌,
  nat_eq, list_eq, length, ltb, lookup, insert, lookup-insert, list_beq_iff, arith,
}
use chat_serve.Text.{Text}
use chat_serve.Server.Parser.{AppMessage}
use chat_serve.Server.Numbers.{stoull, stoul, stoi}
use chat_serve.Server.State.{Session, Memory, Entry, Room, Rooms, Server, Down, TransferManager}
use chat_serve.Server.Rooms.{find_room}
use chat_serve.Server.Router.{Reply, param, relay_signal, find_peer}
use chat_serve.Server.Files.{Draw, find_registration}
use chat_serve.Server.Commands.{
  own_room, set_transfers, handle_chunk, on_upload, on_upcancel, begin_download, on_download,
  on_dwack, ack_in_room, on_stop, start_offset,
}

abbrev pub sitting : Option Room → Option (List Entry)
sitting none = none
sitting (some r) = some r.connections

pub record Seating : Type 0 where
  pub seats : Text → Option (List Entry)
  pub memory : Memory

abbrev pub seating : Server → Seating
seating sv = record { seats = λ id. sitting (lookup id sv.rooms); memory = sv.memory }

-- The reply leaves everyone's seat alone.
unfoldable pub Stays : Server → Reply → Type 0
Stays sv reply = seating reply.0 ≡ seating sv

sitting-insert :
    (id j : Text) (r : Room) (tm : TransferManager) (rooms : Rooms)
    → lookup id rooms ≡ some r
    → sitting (lookup j (insert id (record r { transfer_mgr = tm }) rooms))
      ≡ sitting (lookup j rooms)
sitting-insert id j r tm rooms h =
    ground (arith, lookup-insert id j (record r { transfer_mgr = tm }) rooms, list_beq_iff id j)

module _ (sv : Server) (sess : Session) where
  pub same-Stays : (ds : List Down) → Stays sv (sv, ds)
  unfolding Stays
  same-Stays ds = refl

  pub set_transfers-Stays :
      (r : Room) (tm : TransferManager) (ds : List Down)
      → own_room sv sess ≡ some r
      → Stays sv (set_transfers sv sess r tm, ds)
  unfolding Stays find_room own_room
  set_transfers-Stays r tm ds h =
      ap (λ f. record { seats = f; memory = sv.memory })
        (fun_ext λ j. sitting-insert (sv.memory.room sess.address) j r tm sv.rooms h)

  pub if-Stays : (b : Bool) (x y : Reply) → Stays sv x → Stays sv y → Stays sv (if b then x else y)
  if-Stays true x y h k = h
  if-Stays false x y h k = k

  option-Stays {ℓ} :
      {A : Type ℓ} (o : Option A) (x : Reply) (f : A → Reply)
      → Stays sv x
      → ((a : A) → Stays sv (f a))
      → Stays sv (elim o as (λ _. Reply) [ none ↦ x | some a ↦ f a ])
  option-Stays none x f h k = h
  option-Stays (some a) x f h k = k a

  pub room-Stays :
      (o : Option Room) (f : Room → Reply)
      → own_room sv sess ≡ o
      → ((r : Room) → own_room sv sess ≡ some r → Stays sv (f r))
      → Stays sv (elim o as (λ _. Reply) [ none ↦ (sv, []) | some r ↦ f r ])
  room-Stays none f h k = same-Stays []
  room-Stays (some r) f h k = k r h

  pub handle_chunk-Stays : (bytes : List ℕ) → Stays sv (handle_chunk sv sess bytes)
  unfolding handle_chunk
  handle_chunk-Stays bytes = room-Stays (own_room sv sess) _ refl λ r e. set_transfers-Stays r _ _ e

  module _ (msg : AppMessage) where
    pub on_upload-Stays : (draws : ℕ → Draw) → Stays sv (on_upload draws sv sess msg)
    unfolding on_upload
    on_upload-Stays draws =
        if-Stays _ (sv, []) _ (same-Stays [])
          (option-Stays _ (sv, []) _ (same-Stays [])
            λ size. room-Stays (own_room sv sess) _ refl λ r e. set_transfers-Stays r _ _ e)

    pub on_upcancel-Stays : Stays sv (on_upcancel sv sess msg)
    unfolding on_upcancel
    on_upcancel-Stays =
        if-Stays _ (sv, []) _ (same-Stays [])
          (room-Stays (own_room sv sess) _ refl
            λ r e. if-Stays _ _ (sv, []) (set_transfers-Stays r _ _ e) (same-Stays []))

    pub on_download-Stays : Stays sv (on_download sv sess msg)
    unfolding on_download begin_download
    on_download-Stays =
        if-Stays _ (sv, []) _ (same-Stays [])
          (room-Stays (own_room sv sess) _ refl λ r e.
            option-Stays (find_registration (param msg 0) r.transfer_mgr) _ _ (same-Stays _) λ reg.
              if-Stays (not (sv.memory.alive reg.uploader.address)) _ _ (same-Stays _) (
                option-Stays (start_offset msg) (sv, []) _ (same-Stays [])
                  λ offset. set_transfers-Stays r _ _ e))

    pub on_dwack-Stays : Stays sv (on_dwack sv sess msg)
    unfolding on_dwack ack_in_room
    on_dwack-Stays =
        if-Stays (ltb (length msg.params) 2) (sv, []) _ (same-Stays [])
          (option-Stays (stoull (param msg 0)) (sv, []) _ (same-Stays [])
            λ sid.
              option-Stays (stoul (param msg 1)) (sv, []) _ (same-Stays [])
                λ offset. room-Stays (own_room sv sess) _ refl λ r e. set_transfers-Stays r _ _ e)

    pub on_stop-Stays : Stays sv (on_stop sv sess msg)
    unfolding on_stop
    on_stop-Stays =
        if-Stays _ (sv, []) _ (same-Stays [])
          (room-Stays (own_room sv sess) _ refl λ r e. set_transfers-Stays r _ _ e)

    pub relay_signal-Stays :
        (command : Text) (count : ℕ) → Stays sv (relay_signal sv sess msg command count)
    unfolding relay_signal
    relay_signal-Stays command count =
        if-Stays (ltb (length msg.params) (1 + count)) (sv, []) _ (same-Stays [])
          (option-Stays (stoi (param msg 0)) (sv, []) _ (same-Stays [])
            λ fd.
              option-Stays
                (find_peer sv.memory (find_room (sv.memory.room sess.address) sv.rooms) fd) (sv, [])
                _ (same-Stays []) λ target. same-Stays _)
