-- ===== src/Server/Router/Arrival.antt =====
-- A client joins a room: what the server sends, and the list of members that the clients get of it
-- (src/app/AppChatCommands.cpp, AppRouter.cpp; web/src/composables/useChat.js).
use chat_serve.Base.{
  ℕ, ◌≡◌, refl, ap, ◌∙◌, true, false, List, [], ◌∷◌, ◌++◌, map, append-nil, if◌then◌else◌, ltb,
  nat_eq, list_eq, nat_beq_iff, lookup, length, filter, arith, Bool-cases, inl, inr,
}
use chat_serve.Text.{Text, lit, Lacks}
use chat_serve.Text.Number.{show}
use chat_serve.Chat.State.{Chat, Moment, Rtc}
use chat_serve.Chat.Routing.{handle_text_message}
use chat_serve.Server.Parser.{build_frame, add_params, parse-build_frame}
use chat_serve.Server.State.{Session, ◌is◌, Memory, Entry, Server, text}
use chat_serve.Server.Rooms.{max_members, is_held, get_connections, join_room, found_room}
use chat_serve.Server.Router.{
  is_blank, build_members_frame, joined_frames, broadcast_all, broadcast_except, after_join,
  on_join,
}
use chat_serve.Server.Files.{Draw}
use chat_serve.Server.Events.{handle, handle_up, ws_text}
use chat_serve.Server.Router.Delivery.{
  received_by, has_member, Distinct, received_by-append, received_by-all, received_by-except,
  has_member-same, has_member-append, filter-Distinct, append-Distinct,
}
use chat_serve.Server.Rooms.Seats.{seating}
use chat_serve.Server.Rooms.Seating.{seated}
use chat_serve.Server.Rooms.Members.{join_free, joined_room, has_seat, found-seated}
use chat_serve.Server.Rooms.Invariant.{IsConsistent, elsewhere, AreIn-filter}
use chat_serve.Server.Rooms.Kept.{live_in, seated-good, is_blank-ne}
use chat_serve.Server.Router.Roster.{as_member, ArePlain, members_frame_last}

join-frame :
    (room nick : Text)
    → lit "JOIN|" ++ (room ++ (lit "|" ++ nick)) ≡ build_frame (lit "JOIN") (room ∷ nick ∷ [])
unfolding build_frame add_params
join-frame room nick = rw (append-nil nick) refl

handle_up-join :
    (draws : ℕ → Draw) (sv : Server) (a : Session) (room nick : Text)
    → sv.memory.alive a.address ≡ true
    → Lacks b'|' room
    → Lacks b'|' nick
    → is_blank room ≡ false
    → is_blank nick ≡ false
    → is_blank (sv.memory.room a.address) ≡ true
    → handle_up draws sv a (ws_text (lit "JOIN|" ++ (room ++ (lit "|" ++ nick))))
      ≡ after_join sv a room (join_room sv.memory room a nick sv.rooms)
unfolding handle_up handle on_join
handle_up-join draws sv a room [] h k l m n o = absurd (let b : true ≡ false = n in cc)
handle_up-join draws sv a room (x ∷ nick) h k l m n o =
    rw
      (
        h,
        handle_up,
        join-frame room (x ∷ nick),
        parse-build_frame (lit "JOIN") room ((x ∷ nick) ∷ []) (refl, (refl, (refl, (refl, tt)))) k
            (l, tt),
        m,
        o,
      )
      refl

-- Who joined last is in the snapshot with the others.
snapshot :
    (m : Memory) (x : Entry) (es : List Entry)
    → is_held m x ≡ true
    → filter (is_held m) (filter (is_held m) es ++ x ∷ []) ≡ filter (is_held m) es ++ x ∷ []
snapshot m x [] h = rw h refl
snapshot m x (e ∷ es) h = ground (arith, snapshot m x es h)

pub ok_text : Text → ℕ → Text
ok_text room fd = build_frame (lit "OK") (room ∷ show fd ∷ [])

pub came_text : ℕ → Text
came_text fd = build_frame (lit "JOIN") (show fd ∷ [])

joined_frames-received :
    (a s : Session) (room : Text) (ms : List Entry)
    → Distinct ms
    → has_member a ms ≡ true
    → received_by s (joined_frames a room ms) ≡ (
        if s is a
        then text (ok_text room a.fd) ∷ text (build_members_frame ms) ∷ []
        else if has_member s ms
        then text (build_members_frame ms) ∷ text (came_text a.fd) ∷ []
        else [])
unfolding joined_frames ok_text came_text
joined_frames-received a s room ms d h =
    let list = build_members_frame ms in
    let came = build_frame (lit "JOIN") (show a.fd ∷ []) in
    let both =
      received_by-append s (broadcast_all ms list) (broadcast_except ms a came)
      ∙ (ap (λ x. x ++ received_by s (broadcast_except ms a came)) (received_by-all s ms list d)
          ∙ ap (λ x. (if has_member s ms then text list ∷ [] else []) ++ x)
              (received_by-except s a ms came d)) in
    elim (Bool-cases (s is a)) [
      | inl self ↦
          let flip : (a is s) ≡ true =
            ground (arith, nat_beq_iff s.address a.address, nat_beq_iff a.address s.address) in
          let here : has_member s ms ≡ true = has_member-same s a ms self ∙ h in
          rw (flip, self) (ap (text (ok_text room a.fd) ∷◌) (both ∙ rw (here, self) refl))
      | inr other ↦
          let flip : (a is s) ≡ false =
            ground (arith, nat_beq_iff s.address a.address, nat_beq_iff a.address s.address) in
          rw (flip, other)
            (both ∙ elim (Bool-cases (has_member s ms)) [
              | inl here ↦ rw (here, other) refl
              | inr away ↦ rw away refl
            ])
    ]

-- A connected client that is in no room joins one where a seat is free, with a nickname that is not
-- empty, neither text having a bar: it gets the confirmation with its number, and the list of the
-- members, itself the last; every other live member gets the list and the arrival's number; and no
-- one else gets anything. A client that reads the list has just those members, where no nickname
-- has a comma. Rooms and sessions agree, and the session that joins has not expired.
pub join_delivered {ℓ} :
    {R : Type ℓ} (rtc : Rtc R) (c : Chat R) (at : Moment) (draws : ℕ → Draw) (sv : Server)
    (a s : Session) (room nick : Text)
    → IsConsistent (seating sv)
    → sv.memory.alive a.address ≡ true
    → sv.memory.expired a.address ≡ false
    → is_blank (sv.memory.room a.address) ≡ true
    → is_blank room ≡ false
    → is_blank nick ≡ false
    → Lacks b'|' room
    → Lacks b'|' nick
    → ltb (length (live_in (seating sv) room)) max_members ≡ true
    → ArePlain (live_in (seating sv) room)
    → Lacks b',' nick
    → let ms = live_in (seating sv) room ++ record { sess = a; nick = nick } ∷ [] in
      let reply = handle_up draws sv a (ws_text (lit "JOIN|" ++ (room ++ (lit "|" ++ nick)))) in
      (received_by s reply.1 ≡ (
        if s is a
        then text (ok_text room a.fd) ∷ text (build_members_frame ms) ∷ []
        else if has_member s ms
        then text (build_members_frame ms) ∷ text (came_text a.fd) ∷ []
        else []))
      × (handle_text_message rtc c at (build_members_frame ms)
          ≡ record c { member_list = map as_member ms })
unfolding after_join get_connections
join_delivered rtc c at draws sv a s room nick h alive held away named called k l free p q =
    let m = sv.memory in
    let x : Entry = record { sess = a; nick = nick } in
    let es = seated ((seating sv).seats room) in
    let ms = live_in (seating sv) room ++ x ∷ [] in
    let good = seated-good m room ((seating sv).seats room) (h.rooms room) in
    let here = AreIn-filter m room (is_held m) es good.2 in
    let absent =
      elsewhere m room a (live_in (seating sv) room) here
        (is_blank-ne (m.room a.address) room away named) in
    let distinct =
      append-Distinct (live_in (seating sv) room) x (filter-Distinct (is_held m) es good.1)
        absent in
    let e = found-seated (lookup room sv.rooms) in
    let seat : has_seat m a nick (found_room (lookup room sv.rooms)) ≡ true = rw e free in
    let ready : is_held m x ≡ true = rw held refl in
    let mine : has_member a ms ≡ true = ground (
      arith,
      has_member-append a (live_in (seating sv) room) (x ∷ []),
      nat_beq_iff a.address a.address,
    ) in
    let r = found_room (lookup room sv.rooms) in
    let last : get_connections m (joined_room m a nick r) ≡ ms = rw e (snapshot m x es ready) in
    (
      ap (λ p. received_by s p.1) (handle_up-join draws sv a room nick alive k l named called away)
          ∙ (ap (λ p. received_by s (after_join sv a room p).1)
                (join_free m a nick room sv.rooms seat)
              ∙ (ap (λ ys. received_by s (joined_frames a room ys)) last
                  ∙ joined_frames-received a s room ms distinct mine)),
      members_frame_last rtc c at (live_in (seating sv) room) x p q,
    )
