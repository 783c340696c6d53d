-- ===== src/Server/Rooms/Refine.antt =====
-- Each event of a session on the server changes who sits where just as the specification says
-- (src/app/AppHandler.cpp, AppRouter.cpp).
use chat_serve.Base.{
  ℕ, ◌≡◌, refl, ap, ◌∙◌, ◌||◌, [], if◌then◌else◌, ◌===◌, nat_eq, list_eq, filter, Bool-cases, inl,
  inr,
}
use chat_serve.Text.{lit}
use chat_serve.Server.Parser.{AppMessage, parse}
use chat_serve.Server.State.{Session, Server, set_room}
use chat_serve.Server.Router.{param, on_msg, on_ping}
use chat_serve.Server.Files.{Draw}
use chat_serve.Server.Commands.{own_room}
use chat_serve.Server.Events.{
  Up, ws_text, ws_binary, closed, handle, handle_other, handle_up, cleanup, cancel_transfers,
}
use chat_serve.Server.Rooms.Seats.{
  seating, Stays, same-Stays, set_transfers-Stays, if-Stays, room-Stays, handle_chunk-Stays,
  on_upload-Stays, on_upcancel-Stays, on_download-Stays, on_dwack-Stays, on_stop-Stays,
  relay_signal-Stays,
}
use chat_serve.Server.Rooms.Seating.{
  seated, set_seats, stays_behind, or_none, is_join, join_seats, leave_seats, seat_step,
}
use chat_serve.Server.Rooms.Members.{seats_of, on_join-seats, leave_room-seats}

module _ (sv : Server) (sess : Session) where
  pub cancel_transfers-Stays : Stays sv (cancel_transfers sv sess)
  unfolding cancel_transfers
  cancel_transfers-Stays =
      room-Stays sv sess (own_room sv sess) _ refl λ r e. set_transfers-Stays sv sess r _ _ e

  cleanup-seats : seating (cleanup sv sess).0 ≡ leave_seats (seating sv) sess
  unfolding cleanup Stays
  cleanup-seats =
      let m = sv.memory in
      let id = m.room sess.address in
      let sv1 = (cancel_transfers sv sess).0 in
      let e : seats_of sv1.rooms ≡ seats_of sv.rooms = ap (λ v. v.seats) cancel_transfers-Stays in
      ap (λ f. record { seats = f; memory = set_room sess.address [] m })
        (leave_room-seats m id sess sv1.rooms
          ∙ ap (λ f. set_seats id (or_none (filter (stays_behind m sess) (seated (f id)))) f) e)

  module _ (draws : ℕ → Draw) where
    on_msg-Stays : (msg : AppMessage) → Stays sv (on_msg sv sess msg)
    unfolding on_msg
    on_msg-Stays msg = same-Stays sv sess _

    on_ping-Stays : Stays sv (on_ping sv sess)
    unfolding on_ping
    on_ping-Stays = same-Stays sv sess _

    handle_other-Stays : (msg : AppMessage) → Stays sv (handle_other draws sv sess msg)
    unfolding handle_other
    handle_other-Stays msg = if-Stays sv sess (msg.command === lit "MSG") _ _ (on_msg-Stays msg) (
        if-Stays sv sess (msg.command === lit "OFFER") _ _
          (relay_signal-Stays sv sess msg (lit "OFFER") 1)
          (if-Stays sv sess (msg.command === lit "ANSWER") _ _
            (relay_signal-Stays sv sess msg (lit "ANSWER") 1)
            (if-Stays sv sess (msg.command === lit "ICE") _ _
              (relay_signal-Stays sv sess msg (lit "ICE") 1)
              (if-Stays sv sess (msg.command === lit "MEDIA") _ _
                (relay_signal-Stays sv sess msg (lit "MEDIA") 2)
                (if-Stays sv sess (msg.command === lit "UPLOAD") _ _
                  (on_upload-Stays sv sess msg draws)
                  (if-Stays sv sess (msg.command === lit "UPCANCEL") _ _
                    (on_upcancel-Stays sv sess msg)
                    (if-Stays sv sess (msg.command === lit "DOWNLOAD") _ _
                      (on_download-Stays sv sess msg)
                      (if-Stays sv sess (msg.command === lit "DWACK") _ _
                        (on_dwack-Stays sv sess msg)
                        (if-Stays sv sess
                          (msg.command === lit "DWNPAUSE" || msg.command === lit "DWNCANCEL") _ _
                          (on_stop-Stays sv sess msg)
                          (if-Stays sv sess (msg.command === lit "PING") _ _ on_ping-Stays
                            (same-Stays sv sess [])))))))))))

    handle-seats :
        (msg : AppMessage)
        → seating (handle draws sv sess msg).0 ≡ (
            if is_join (seating sv) sess msg
            then join_seats (seating sv) sess (param msg 0) (param msg 1)
            else seating sv)
    unfolding handle Stays
    handle-seats msg = elim (Bool-cases (msg.command === lit "JOIN")) [
      | inl join ↦ rw join (on_join-seats sv sess msg)
      | inr miss ↦ rw miss (handle_other-Stays msg)
    ]

    -- Every event of a session changes who sits in which room, and which room a session is in,
    -- just as the specification says: a well-formed JOIN of a connected session that is in no room
    -- seats it, up to nine at a time, the end of a session takes its seat and closes the room
    -- behind the last member, and nothing else changes a seat.
    pub handle_up-seats :
        (up : Up) → seating (handle_up draws sv sess up).0 ≡ seat_step (seating sv) sess up
    unfolding handle_up Stays
    handle_up-seats (ws_text s) = elim (Bool-cases (sv.memory.alive sess.address)) [
      | inl alive ↦ rw alive (handle-seats (parse s))
      | inr gone ↦ rw gone refl
    ]
    handle_up-seats (ws_binary bytes) = elim (Bool-cases (sv.memory.alive sess.address)) [
      | inl alive ↦ rw alive (handle_chunk-Stays sv sess bytes)
      | inr gone ↦ rw gone refl
    ]
    handle_up-seats closed = cleanup-seats
