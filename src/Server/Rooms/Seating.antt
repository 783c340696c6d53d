-- ===== src/Server/Rooms/Seating.antt =====
-- Who sits where, as a specification: joining and leaving on the members of the rooms alone
-- (src/chatroom/Room.cpp, src/app/AppChatCommands.cpp, src/app/AppRouter.cpp).
use chat_serve.Base.{
  Bool, not, ◌&&◌, ◌||◌, List, [], ◌∷◌, ◌++◌, Option, none, some, if◌then◌else◌, ◌===◌, nat_eq,
  list_eq, length, ltb, filter,
}
use chat_serve.Text.{Text, lit}
use chat_serve.Server.Parser.{AppMessage, parse}
use chat_serve.Server.State.{Session, ◌is◌, Memory, Entry, set_room}
use chat_serve.Server.Rooms.{max_members, is_held}
use chat_serve.Server.Router.{param, is_blank}
use chat_serve.Server.Events.{Up, ws_text, ws_binary, closed}
use chat_serve.Server.Rooms.Seats.{Seating}

abbrev pub seated : Option (List Entry) → List Entry
seated none = []
seated (some es) = es

abbrev pub set_seats :
    Text → Option (List Entry) → (Text → Option (List Entry)) → Text → Option (List Entry)
set_seats id es seats j = if id === j then es else seats j

-- The members of the room whose session is still there, and behind them, where there is room, the
-- one that joins.
abbrev pub join_seats : Seating → Session → (room nick : Text) → Seating
join_seats v sess room nick =
    let live = filter (is_held v.memory) (seated (v.seats room)) in
    if ltb (length live) max_members
    then record {
      seats = set_seats room (some (live ++ record { sess = sess; nick = nick } ∷ [])) v.seats;
      memory = set_room sess.address room v.memory;
    }
    else record v { seats = set_seats room (some live) v.seats }

abbrev pub stays_behind : Memory → Session → Entry → Bool
stays_behind m sess e = is_held m e && not (e.sess is sess)

abbrev pub or_none : List Entry → Option (List Entry)
or_none [] = none
or_none (e ∷ es) = some (e ∷ es)

-- The room without the one that leaves, if any member is left
abbrev pub leave_seats : Seating → Session → Seating
leave_seats v sess =
    let room = v.memory.room sess.address in
    record {
      seats =
          set_seats room (or_none (filter (stays_behind v.memory sess) (seated (v.seats room))))
            v.seats;
      memory = set_room sess.address [] v.memory;
    }

abbrev pub is_join : Seating → Session → AppMessage → Bool
is_join v sess msg =
    msg.command === lit "JOIN"
    && not (ltb (length msg.params) 2 || is_blank (param msg 0) || is_blank (param msg 1))
    && is_blank (v.memory.room sess.address)

-- Only a connected session that is in no room and names a room and a nickname joins, and only the
-- end of a session leaves.
abbrev pub seat_step : Seating → Session → Up → Seating
seat_step v sess (ws_text s) =
    if v.memory.alive sess.address && is_join v sess (parse s)
    then join_seats v sess (param (parse s) 0) (param (parse s) 1)
    else v
seat_step v sess (ws_binary bytes) = v
seat_step v sess closed = leave_seats v sess
