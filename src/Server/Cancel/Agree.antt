-- ===== src/Server/Cancel/Agree.antt =====
-- The tables of the transfers of every room in every run of the server (src/app/AppHandler.cpp,
-- AppRouter.cpp, AppChatCommands.cpp, src/chatroom/Room.cpp).
use chat_serve.Base.{
  ℕ, ◌≡◌, ap, refl, subst, sym, Bool, true, false, ◌||◌, not, List, [], ◌∷◌, Option, none, some,
  ◌===◌, nat_eq, list_eq, lookup, Option-cases, Bool-cases, inl, inr, length, ltb, filter,
}
use chat_serve.Text.{Text, lit}
use chat_serve.Server.Parser.{AppMessage, parse}
use chat_serve.Server.State.{Session, Memory, Entry, Room, Rooms, Server, new_manager}
use chat_serve.Server.Rooms.{
  is_held, max_members, found_room, add_num, join_room, leave_room, after_del, del_num,
}
use chat_serve.Server.Router.{param, is_blank, on_join, after_join, on_msg, on_ping}
use chat_serve.Server.Files.{Draw}
use chat_serve.Server.Events.{
  Up, ws_text, ws_binary, closed, handle, handle_other, handle_up, cancel_transfers, cleanup,
}
use chat_serve.Server.Rooms.Runs.{Event, session, shuts, expires, step, run, started}
use chat_serve.Server.Cancel.Indexed.{Indexes, IsIndexed}
use chat_serve.Server.Cancel.Handlers.{
  AreIndexed, Holds, if-Holds, insert-AreIndexed, erase-AreIndexed, handle_chunk-Holds,
  cancel_transfers-Holds, on_upload-Holds, on_upcancel-Holds, on_download-Holds, on_dwack-Holds,
  on_stop-Holds, relay_signal-Holds,
}

new_manager-IsIndexed : IsIndexed new_manager
unfolding Indexes lookup
new_manager-IsIndexed = record { up = λ j a. refl; down = λ j a. refl; fresh = λ j l. refl }

found_room-IsIndexed :
    (id : Text) (rooms : Rooms)
    → AreIndexed rooms
    → IsIndexed (found_room (lookup id rooms)).transfer_mgr
found_room-IsIndexed id rooms h = elim (Option-cases (lookup id rooms)) [
  | inl e ↦ rw e new_manager-IsIndexed
  | inr (r, e) ↦ rw e (h.all id r e)
]

add_num-transfer_mgr :
    (m : Memory) (sess : Session) (nick : Text) (r : Room)
    → (add_num m sess nick r).0.transfer_mgr ≡ r.transfer_mgr
unfolding add_num
add_num-transfer_mgr m sess nick r =
    elim (Bool-cases (ltb (length (filter (is_held m) r.connections)) max_members)) [
      | inl c ↦ rw (c, add_num) refl
      | inr c ↦ rw (c, add_num) refl
    ]

join_room-AreIndexed :
    (m : Memory) (id : Text) (sess : Session) (nick : Text) (rooms : Rooms)
    → AreIndexed rooms
    → AreIndexed (join_room m id sess nick rooms).0
unfolding join_room
join_room-AreIndexed m id sess nick rooms h =
    insert-AreIndexed id _ rooms
      (subst IsIndexed (sym (add_num-transfer_mgr m sess nick (found_room (lookup id rooms))))
        (found_room-IsIndexed id rooms h))
      h

after_join-Holds :
    (sv : Server) (sess : Session) (id : Text) (joined : Rooms × Option (List Entry))
    → AreIndexed joined.0
    → Holds (after_join sv sess id joined)
unfolding after_join
after_join-Holds sv sess id (rooms, none) h = h
after_join-Holds sv sess id (rooms, some ms) h = h

after_del-AreIndexed :
    (id : Text) (r : Room) (rooms : Rooms) (es : List Entry)
    → IsIndexed r.transfer_mgr
    → AreIndexed rooms
    → AreIndexed (after_del id r rooms es).0
unfolding after_del
after_del-AreIndexed id r rooms [] k h = erase-AreIndexed id rooms h
after_del-AreIndexed id r rooms (e ∷ es) k h = insert-AreIndexed id r rooms k h

leave_room-AreIndexed :
    (m : Memory) (id : Text) (sess : Session) (rooms : Rooms)
    → AreIndexed rooms
    → AreIndexed (leave_room m id sess rooms).0
unfolding leave_room del_num
leave_room-AreIndexed m id sess rooms h = elim (Option-cases (lookup id rooms)) [
  | inl e ↦ rw (e, leave_room) h
  | inr (r, e) ↦
      rw (e, leave_room) (after_del-AreIndexed id (del_num m sess r) rooms _ (h.all id r e) h)
]

module _ (draws : ℕ → Draw) (sv : Server) (sess : Session) (h : AreIndexed sv.rooms) where
  handle_other-Holds : (msg : AppMessage) → Holds (handle_other draws sv sess msg)
  unfolding handle_other on_msg on_ping
  handle_other-Holds msg = if-Holds (msg.command === lit "MSG") _ _ h (
      if-Holds (msg.command === lit "OFFER") _ _ (relay_signal-Holds sv sess h msg (lit "OFFER") 1)
        (if-Holds (msg.command === lit "ANSWER") _ _
          (relay_signal-Holds sv sess h msg (lit "ANSWER") 1)
          (if-Holds (msg.command === lit "ICE") _ _ (relay_signal-Holds sv sess h msg (lit "ICE") 1)
            (if-Holds (msg.command === lit "MEDIA") _ _
              (relay_signal-Holds sv sess h msg (lit "MEDIA") 2)
              (if-Holds (msg.command === lit "UPLOAD") _ _ (on_upload-Holds sv sess h msg draws) (
                if-Holds (msg.command === lit "UPCANCEL") _ _ (on_upcancel-Holds sv sess h msg) (
                  if-Holds (msg.command === lit "DOWNLOAD") _ _ (on_download-Holds sv sess h msg) (
                    if-Holds (msg.command === lit "DWACK") _ _ (on_dwack-Holds sv sess h msg) (
                      if-Holds (msg.command === lit "DWNPAUSE" || msg.command === lit "DWNCANCEL") _
                        _ (on_stop-Holds sv sess h msg)
                        (if-Holds (msg.command === lit "PING") _ _ h h))))))))))

  on_join-Holds : (msg : AppMessage) → Holds (on_join sv sess msg)
  unfolding on_join
  on_join-Holds msg =
      let id = param msg 0 in
      if-Holds (ltb (length msg.params) 2 || is_blank id || is_blank (param msg 1)) _ _ h (
        if-Holds (not (is_blank (sv.memory.room sess.address))) _ _ h (
          after_join-Holds sv sess id (join_room sv.memory id sess (param msg 1) sv.rooms)
            (join_room-AreIndexed sv.memory id sess (param msg 1) sv.rooms h)))

  cleanup-Holds : Holds (cleanup sv sess)
  unfolding cleanup
  cleanup-Holds =
      leave_room-AreIndexed sv.memory (sv.memory.room sess.address) sess
        (cancel_transfers sv sess).0.rooms (cancel_transfers-Holds sv sess h)

  handle_up-Holds : (up : Up) → Holds (handle_up draws sv sess up)
  unfolding handle_up handle
  handle_up-Holds (ws_text s) = if-Holds (not (sv.memory.alive sess.address)) _ _ h (
      if-Holds ((parse s).command === lit "JOIN") _ _ (on_join-Holds (parse s))
        (handle_other-Holds (parse s)))
  handle_up-Holds (ws_binary bytes) =
      if-Holds (not (sv.memory.alive sess.address)) _ _ h (handle_chunk-Holds sv sess h bytes)
  handle_up-Holds closed = cleanup-Holds

step-AreIndexed : (sv : Server) (e : Event) → AreIndexed sv.rooms → AreIndexed (step sv e).rooms
unfolding step
step-AreIndexed sv (session draws sess up) h = handle_up-Holds draws sv sess h up
step-AreIndexed sv (shuts a) h = h
step-AreIndexed sv (expires a) h = h

run_from-AreIndexed :
    (sv : Server) (es : List Event) → AreIndexed sv.rooms → AreIndexed (run sv es).rooms
unfolding run
run_from-AreIndexed sv [] h = h
run_from-AreIndexed sv (e ∷ es) h = run_from-AreIndexed (step sv e) es (step-AreIndexed sv e h)

-- From the start of the server on, whatever messages, chunks and ends of sessions come in any order:
-- in every room, the ids that are listed for a session as an uploader are just those of the transfers
-- that it is the uploader of, those listed for it as a downloader are just those of its downloads, and
-- the next id is that of no transfer.
pub run-AreIndexed : (es : List Event) → AreIndexed (run started es).rooms
unfolding lookup
run-AreIndexed es = run_from-AreIndexed started es (record {
  all = λ id r e. absurd (
      let b : true ≡ false = ap (λ o. elim o as (λ _. Bool) [ none ↦ true | some _ ↦ false ]) e in
      cc);
})
