-- ===== src/Server/Cancel/Handlers.antt =====
-- The handlers of the server keep the tables of the transfers of every room in agreement
-- (src/app/AppTransferCommands.cpp, AppChatCommands.cpp, AppRouter.cpp).
use chat_serve.Base.{
  ℕ, ◌+◌, ◌≡◌, refl, ap, subst, Bool, true, false, not, List, [], Option, none, some, if◌then◌else◌,
  ◌===◌, nat_eq, list_eq, lookup, insert, erase, lookup-insert, lookup-erase, arith, Bool-cases,
  inl, inr, length, ltb,
}
use chat_serve.Text.{Text}
use chat_serve.Server.Parser.{AppMessage}
use chat_serve.Server.Numbers.{stoull, stoul, stoi}
use chat_serve.Server.State.{Session, Room, Rooms, Server, TransferManager}
use chat_serve.Server.Rooms.{find_room}
use chat_serve.Server.Router.{Reply, param, relay_signal, find_peer}
use chat_serve.Server.Files.{Draw, find_registration}
use chat_serve.Server.Commands.{
  own_room, set_transfers, handle_chunk, on_upload, on_upcancel, begin_download, on_download,
  on_dwack, ack_in_room, on_stop, start_offset,
}
use chat_serve.Server.Events.{cancel_transfers}
use chat_serve.Server.Cancel.Indexed.{IsIndexed}
use chat_serve.Server.Cancel.Ended.{cancel_by_session-IsIndexed}
use chat_serve.Server.Cancel.Kept.{
  register_file-IsIndexed, start_transfer-IsIndexed, handle_chunk_data-IsIndexed,
  handle_ack-IsIndexed, cancel_session-IsIndexed, cancel_file-IsIndexed,
}

-- The tables of every room's transfers agree.
pub record AreIndexed (rooms : Rooms) : Type 0 where
  pub all : (id : Text) (r : Room) → lookup id rooms ≡ some r → IsIndexed r.transfer_mgr

abbrev pub Holds : Reply → Type 0
Holds reply = AreIndexed reply.0.rooms

some-injective : {r s : Room} → some r ≡ some s → r ≡ s
some-injective {r = r} = ap λ o. elim o as (λ _. Room) [ none ↦ r | some x ↦ x ]

pub insert-AreIndexed :
    (id : Text) (r : Room) (rooms : Rooms)
    → IsIndexed r.transfer_mgr
    → AreIndexed rooms
    → AreIndexed (insert id r rooms)
insert-AreIndexed id r rooms k h = record {
  all = λ j s e. elim (Bool-cases (id === j)) [
    | inl same ↦
        let found : some r ≡ some s = ground (arith, same, e, lookup-insert id j r rooms) in
        subst (λ x. IsIndexed x.transfer_mgr) (some-injective found) k
    | inr other ↦ h.all j s (ground (arith, other, e, lookup-insert id j r rooms))
  ];
}

pub erase-AreIndexed : (id : Text) (rooms : Rooms) → AreIndexed rooms → AreIndexed (erase id rooms)
erase-AreIndexed id rooms h = record {
  all = λ j s e. h.all j s (ground (arith, e, lookup-erase id j rooms));
}

pub if-Holds : (b : Bool) (x y : Reply) → Holds x → Holds y → Holds (if b then x else y)
if-Holds true x y h k = h
if-Holds false x y h k = k

option-Holds {ℓ} :
    {A : Type ℓ} (o : Option A) (x : Reply) (f : A → Reply)
    → Holds x
    → ((a : A) → Holds (f a))
    → Holds (elim o as (λ _. Reply) [ none ↦ x | some a ↦ f a ])
option-Holds none x f h k = h
option-Holds (some a) x f h k = k a

module _ (sv : Server) (sess : Session) (h : AreIndexed sv.rooms) where
  set_transfers-Holds :
      (r : Room) (tm : TransferManager)
      → IsIndexed tm
      → AreIndexed (set_transfers sv sess r tm).rooms
  set_transfers-Holds r tm k =
      insert-AreIndexed (sv.memory.room sess.address) (record r { transfer_mgr = tm }) sv.rooms k h

  room-Holds :
      (o : Option Room) (f : Room → Reply)
      → own_room sv sess ≡ o
      → ((r : Room) → IsIndexed r.transfer_mgr → Holds (f r))
      → Holds (elim o as (λ _. Reply) [ none ↦ (sv, []) | some r ↦ f r ])
  unfolding own_room find_room
  room-Holds none f e k = h
  room-Holds (some r) f e k = k r (h.all (sv.memory.room sess.address) r e)

  pub handle_chunk-Holds : (bytes : List ℕ) → Holds (handle_chunk sv sess bytes)
  unfolding handle_chunk
  handle_chunk-Holds bytes =
      room-Holds (own_room sv sess) _ refl
        λ r k. set_transfers-Holds r _ (handle_chunk_data-IsIndexed sess bytes r.transfer_mgr k)

  pub cancel_transfers-Holds : Holds (cancel_transfers sv sess)
  unfolding cancel_transfers
  cancel_transfers-Holds =
      room-Holds (own_room sv sess) _ refl
        λ r k. set_transfers-Holds r _ (cancel_by_session-IsIndexed sess r.transfer_mgr k)

  module _ (msg : AppMessage) where
    pub on_upload-Holds : (draws : ℕ → Draw) → Holds (on_upload draws sv sess msg)
    unfolding on_upload
    on_upload-Holds draws =
        if-Holds _ (sv, []) _ h
          (option-Holds _ (sv, []) _ h
            λ size. room-Holds (own_room sv sess) _ refl λ r k.
              set_transfers-Holds r _
                (register_file-IsIndexed draws (param msg 0) size sess r.transfer_mgr k))

    pub on_upcancel-Holds : Holds (on_upcancel sv sess msg)
    unfolding on_upcancel
    on_upcancel-Holds =
        if-Holds _ (sv, []) _ h
          (room-Holds (own_room sv sess) _ refl λ r k.
            if-Holds _ _ (sv, [])
              (set_transfers-Holds r _ (cancel_file-IsIndexed (param msg 0) r.transfer_mgr k)) h)

    pub on_download-Holds : Holds (on_download sv sess msg)
    unfolding on_download begin_download
    on_download-Holds =
        if-Holds _ (sv, []) _ h
          (room-Holds (own_room sv sess) _ refl λ r k.
            option-Holds (find_registration (param msg 0) r.transfer_mgr) _ _ h λ reg.
              if-Holds (not (sv.memory.alive reg.uploader.address)) _ _ h (
                option-Holds (start_offset msg) (sv, []) _ h
                  λ offset. set_transfers-Holds r _ (
                    start_transfer-IsIndexed sv.memory (param msg 0) sess offset r.transfer_mgr k)))

    pub on_dwack-Holds : Holds (on_dwack sv sess msg)
    unfolding on_dwack ack_in_room
    on_dwack-Holds =
        if-Holds (ltb (length msg.params) 2) (sv, []) _ h
          (option-Holds (stoull (param msg 0)) (sv, []) _ h
            λ sid.
              option-Holds (stoul (param msg 1)) (sv, []) _ h
                λ offset. room-Holds (own_room sv sess) _ refl λ r k.
                  set_transfers-Holds r _ (handle_ack-IsIndexed sess sid offset r.transfer_mgr k))

    pub on_stop-Holds : Holds (on_stop sv sess msg)
    unfolding on_stop
    on_stop-Holds =
        if-Holds _ (sv, []) _ h
          (room-Holds (own_room sv sess) _ refl λ r k.
            set_transfers-Holds r _ (cancel_session-IsIndexed sess (param msg 0) r.transfer_mgr k))

    pub relay_signal-Holds :
        (command : Text) (count : ℕ) → Holds (relay_signal sv sess msg command count)
    unfolding relay_signal
    relay_signal-Holds command count =
        if-Holds (ltb (length msg.params) (1 + count)) (sv, []) _ h
          (option-Holds (stoi (param msg 0)) (sv, []) _ h
            λ fd.
              option-Holds
                (find_peer sv.memory (find_room (sv.memory.room sess.address) sv.rooms) fd) (sv, [])
                _ h λ target. h)
