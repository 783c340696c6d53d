-- ===== src/Server/Router/Departure.antt =====
-- A connection ends: what the server sends to those who stay, and how their clients take it
-- (src/app/AppRouter.cpp; web/src/composables/useChat.js).
use chat_serve.Base.{
  ℕ, ◌≡◌, refl, ap, ◌∙◌, not, ◌&&◌, List, [], ◌∷◌, ◌++◌, if◌then◌else◌, nat_eq, filter, arith,
  append-nil,
}
use chat_serve.Text.{Text, lit, join, starts_with}
use chat_serve.Text.Laws.{split-join}
use chat_serve.Text.Number.{show, show-Lacks}
use chat_serve.Chat.State.{Chat, Moment, Rtc}
use chat_serve.Chat.Routing.{handle_text_message, on_leave}
use chat_serve.Server.Parser.{build_frame, add_params}
use chat_serve.Server.State.{Session, ◌is◌, Entry, Server, text}
use chat_serve.Server.Rooms.{leave_room}
use chat_serve.Server.Router.{build_members_frame}
use chat_serve.Server.Events.{cleanup, cancel_transfers, leave_frames}
use chat_serve.Server.Router.Delivery.{
  received_by, has_member, Distinct, received_by-append, filter-Distinct, has_member-same,
}
use chat_serve.Server.Rooms.Seats.{seating, Stays}
use chat_serve.Server.Rooms.Seating.{seated, stays_behind}
use chat_serve.Server.Rooms.Members.{seats_of, leave_room-members}
use chat_serve.Server.Rooms.Refine.{cancel_transfers-Stays}
use chat_serve.Server.Rooms.Invariant.{IsConsistent}
use chat_serve.Server.Rooms.Kept.{seated-good}
use chat_serve.Server.Rooms.Leaving.{left_behind, has_member-behind}

pub left_text : ℕ → Text
left_text fd = build_frame (lit "LEAVE") (show fd ∷ [])

leave_frames-received :
    (s : Session) (l m : Text) (es : List Entry)
    → Distinct es
    → received_by s (leave_frames l m es) ≡ (if has_member s es then text l ∷ text m ∷ [] else [])
unfolding leave_frames
leave_frames-received s l m [] h = refl
leave_frames-received s l m (e ∷ es) h =
    ground (arith, leave_frames-received s l m es h.1, has_member-same e.sess s es)

-- The client takes the message as the leaving of that number.
left_text-on_leave {ℓ} :
    {R : Type ℓ} (rtc : Rtc R) (c : Chat R) (at : Moment) (fd : ℕ)
    → handle_text_message rtc c at (left_text fd) ≡ on_leave rtc c (show fd)
unfolding handle_text_message starts_with left_text build_frame add_params join
left_text-on_leave rtc c at fd =
    rw
      (
        append-nil (show fd),
        split-join b'|' (lit "LEAVE") (show fd ∷ []) (refl, (refl, (refl, (refl, (refl, tt)))))
            (show-Lacks b'|' fd refl, tt),
      )
      refl

-- When a session ends, each other live member of its room gets, behind what it gets as an orphaned
-- downloader, the leaver's number and then the list of those who stay, once each; the leaver and
-- everyone else get neither. A client takes the first as the leaving of just that number. Rooms and
-- sessions agree.
pub departure_delivered {ℓ} :
    {R : Type ℓ} (rtc : Rtc R) (c : Chat R) (at : Moment) (sv : Server) (a s : Session)
    → IsConsistent (seating sv)
    → let m = sv.memory in
      let members = seated ((seating sv).seats (m.room a.address)) in
      (received_by s (cleanup sv a).1
        ≡ received_by s (cancel_transfers sv a).1
          ++ (if has_member s members && not (m.expired s.address) && not (s is a)
              then text (left_text a.fd)
                ∷ text (build_members_frame (left_behind (seating sv) a))
                ∷ []
              else []))
      × (handle_text_message rtc c at (left_text a.fd) ≡ on_leave rtc c (show a.fd))
unfolding cleanup Stays left_text
departure_delivered rtc c at sv a s h =
    let m = sv.memory in
    let id = m.room a.address in
    let sv1 = (cancel_transfers sv a).0 in
    let members = seated ((seating sv).seats id) in
    let same : seats_of sv1.rooms ≡ seats_of sv.rooms =
      ap (λ v. v.seats) (cancel_transfers-Stays sv a) in
    let left =
      leave_room-members m id a sv1.rooms
      ∙ ap (λ f. filter (stays_behind m a) (seated (f id))) same in
    let good = seated-good m id ((seating sv).seats id) (h.rooms id) in
    let fewer = filter-Distinct (stays_behind m a) members good.1 in
    let frames = λ (es : List Entry). leave_frames (left_text a.fd) (build_members_frame es) es in
    (
      received_by-append s (cancel_transfers sv a).1 (frames (leave_room m id a sv1.rooms).1)
          ∙ ap (λ x. received_by s (cancel_transfers sv a).1 ++ x)
              (ap (λ es. received_by s (frames es)) left
                ∙ (leave_frames-received s (left_text a.fd)
                      (build_members_frame (left_behind (seating sv) a))
                      (left_behind (seating sv) a) fewer
                    ∙ ap
                        (λ b.
                          if b
                          then text (left_text a.fd)
                            ∷ text (build_members_frame (left_behind (seating sv) a))
                            ∷ []
                          else [])
                        (has_member-behind m a s members))),
      left_text-on_leave rtc c at a.fd,
    )
