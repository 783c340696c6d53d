-- ===== src/Server/Rooms/Members.antt =====
-- `Room` and `RoomManager` meet the specification of who sits where (src/chatroom/Room.cpp), and so
-- does the command that joins (src/app/AppChatCommands.cpp).
use mathlib.Core.Path.{fun_ext}
use chat_serve.Base.{
  ◌≡◌, refl, ap, ◌∙◌, Bool, true, false, not, ◌&&◌, ◌||◌, List, [], ◌∷◌, ◌++◌, Option, none, some,
  if◌then◌else◌, nat_eq, list_eq, lookup, insert, erase, lookup-insert, lookup-erase, list_beq_iff,
  length, ltb, filter, Bool-cases, inl, inr, Option-cases, arith,
}
use chat_serve.Text.{Text}
use chat_serve.Server.Parser.{AppMessage}
use chat_serve.Server.State.{Session, Memory, Entry, Room, Rooms, Server, set_room}
use chat_serve.Server.Rooms.{
  max_members, is_held, get_connections, add_num, del_num, found_room, join_room, after_del,
  leave_room,
}
use chat_serve.Server.Router.{param, is_blank, after_join, on_join}
use chat_serve.Server.Rooms.Seats.{seating, sitting}
use chat_serve.Server.Rooms.Seating.{seated, set_seats, stays_behind, or_none, join_seats}

abbrev pub seats_of : Rooms → Text → Option (List Entry)
seats_of rooms id = sitting (lookup id rooms)

seats-insert :
    (id : Text) (r : Room) (rooms : Rooms)
    → seats_of (insert id r rooms) ≡ set_seats id (some r.connections) (seats_of rooms)
seats-insert id r rooms = fun_ext λ j. ground (arith, lookup-insert id j r rooms)

seats-erase :
    (id : Text) (rooms : Rooms) → seats_of (erase id rooms) ≡ set_seats id none (seats_of rooms)
seats-erase id rooms = fun_ext λ j. ground (arith, lookup-erase id j rooms)

pub found-seated : (o : Option Room) → (found_room o).connections ≡ seated (sitting o)
found-seated none = refl
found-seated (some r) = refl

module _ (m : Memory) (sess : Session) (nick : Text) where
  -- The room with its live members, and with the one that joins
  abbrev cleared : Room → Room
  cleared r = record r { connections = filter (is_held m) r.connections }

  abbrev pub joined_room : Room → Room
  joined_room r = record r {
    connections = filter (is_held m) r.connections ++ record { sess = sess; nick = nick } ∷ [];
  }

  abbrev pub has_seat : Room → Bool
  has_seat r = ltb (length (filter (is_held m) r.connections)) max_members

  pub join_free :
      (room : Text) (rooms : Rooms)
      → has_seat (found_room (lookup room rooms)) ≡ true
      → join_room m room sess nick rooms ≡ (
        insert room (joined_room (found_room (lookup room rooms))) rooms,
        some (get_connections m (joined_room (found_room (lookup room rooms)))),
      )
  unfolding join_room add_num
  join_free room rooms h = rw h refl

  join_full :
      (room : Text) (rooms : Rooms)
      → has_seat (found_room (lookup room rooms)) ≡ false
      → join_room m room sess nick rooms
        ≡ (insert room (cleared (found_room (lookup room rooms))) rooms, none)
  unfolding join_room add_num
  join_full room rooms h = rw h refl

module _ (sv : Server) (sess : Session) where
  after_join-seats :
      (room nick : Text)
      → seating (after_join sv sess room (join_room sv.memory room sess nick sv.rooms)).0
        ≡ join_seats (seating sv) sess room nick
  unfolding after_join
  after_join-seats room nick =
      let r = found_room (lookup room sv.rooms) in
      let e = found-seated (lookup room sv.rooms) in
      elim (Bool-cases (has_seat sv.memory sess nick r)) [
        | inl free ↦
            ap (λ p. seating (after_join sv sess room p).0)
              (join_free sv.memory sess nick room sv.rooms free)
            ∙ rw (← e, free)
                (ap (λ f. record { seats = f; memory = set_room sess.address room sv.memory })
                  (seats-insert room (joined_room sv.memory sess nick r) sv.rooms))
        | inr full ↦
            ap (λ p. seating (after_join sv sess room p).0)
              (join_full sv.memory sess nick room sv.rooms full)
            ∙ rw (← e, full)
                (ap (λ f. record { seats = f; memory = sv.memory })
                  (seats-insert room (cleared sv.memory sess nick r) sv.rooms))
      ]

  -- `on_join` on the seats
  pub on_join-seats :
      (msg : AppMessage)
      → seating (on_join sv sess msg).0 ≡ (
          if not (ltb (length msg.params) 2 || is_blank (param msg 0) || is_blank (param msg 1))
            && is_blank (sv.memory.room sess.address)
          then join_seats (seating sv) sess (param msg 0) (param msg 1)
          else seating sv)
  unfolding on_join
  on_join-seats msg =
      elim (Bool-cases
        (ltb (length msg.params) 2 || is_blank (param msg 0) || is_blank (param msg 1))) [
          | inl bad ↦ rw bad refl
          | inr fine ↦ elim (Bool-cases (is_blank (sv.memory.room sess.address))) [
            | inl away ↦ rw (fine, away) (after_join-seats (param msg 0) (param msg 1))
            | inr here ↦ rw (fine, here) refl
          ]
        ]

held_behind :
    (m : Memory) (sess : Session) (es : List Entry)
    → filter (is_held m) (filter (stays_behind m sess) es) ≡ filter (stays_behind m sess) es
held_behind m sess [] = refl
held_behind m sess (e ∷ es) = ground (arith, held_behind m sess es)

after_del-seats :
    (id : Text) (r : Room) (rooms : Rooms) (es : List Entry)
    → r.connections ≡ es
    → seats_of (after_del id r rooms es).0 ≡ set_seats id (or_none es) (seats_of rooms)
unfolding after_del
after_del-seats id r rooms [] h = seats-erase id rooms
after_del-seats id r rooms (e ∷ es) h =
    seats-insert id r rooms ∙ ap (λ fs. set_seats id (some fs) (seats_of rooms)) h

absent-seats :
    (id : Text) (rooms : Rooms)
    → seats_of rooms id ≡ none
    → seats_of rooms ≡ set_seats id none (seats_of rooms)
absent-seats id rooms h = fun_ext λ j. ground (arith, h, list_beq_iff id j)

pub leave_room-seats :
    (m : Memory) (id : Text) (sess : Session) (rooms : Rooms)
    → seats_of (leave_room m id sess rooms).0
      ≡ set_seats id
          (or_none (filter (stays_behind m sess) (seated (seats_of rooms id))))
          (seats_of rooms)
unfolding leave_room get_connections del_num
leave_room-seats m id sess rooms = elim (Option-cases (lookup id rooms)) [
  | inl e ↦ rw (e, leave_room) (absent-seats id rooms (ap sitting e))
  | inr (r, e) ↦
      rw (e, leave_room, held_behind m sess r.connections)
        (after_del-seats id (del_num m sess r) rooms (filter (stays_behind m sess) r.connections)
          refl)
]

after_del-members :
    (id : Text) (r : Room) (rooms : Rooms) (es : List Entry) → (after_del id r rooms es).1 ≡ es
unfolding after_del
after_del-members id r rooms [] = refl
after_del-members id r rooms (e ∷ es) = refl

-- Who is left of the members
pub leave_room-members :
    (m : Memory) (id : Text) (sess : Session) (rooms : Rooms)
    → (leave_room m id sess rooms).1 ≡ filter (stays_behind m sess) (seated (seats_of rooms id))
unfolding leave_room get_connections del_num
leave_room-members m id sess rooms = elim (Option-cases (lookup id rooms)) [
  | inl e ↦ rw (e, leave_room) refl
  | inr (r, e) ↦
      rw (e, leave_room, held_behind m sess r.connections)
        (after_del-members id (del_num m sess r) rooms (filter (stays_behind m sess) r.connections))
]
