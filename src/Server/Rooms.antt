-- ===== src/Server/Rooms.antt =====
-- `Room` and `RoomManager` of the server (src/chatroom/Room.cpp).
pub mod Seats
pub mod Seating
pub mod Members
pub mod Refine
pub mod Invariant
pub mod Kept
pub mod Leaving
pub mod Runs
use chat_serve.Base.{
  ℕ, Bool, true, false, not, ◌&&◌, ◌||◌, List, [], ◌∷◌, ◌++◌, Option, none, some, if◌then◌else◌,
  ltb, ◌===◌, nat_eq, list_eq, Dict, lookup, insert, erase, filter, length,
}
use chat_serve.Text.{Text}
use chat_serve.Server.State.{Session, ◌is◌, Memory, Entry, Room, Rooms, new_manager}

abbrev pub max_members : ℕ
max_members = 9

-- Whether a weak pointer still finds its session
abbrev pub is_held : Memory → Entry → Bool
is_held m e = not (m.expired e.sess.address)

-- The snapshot has the entries whose session is still there.
unfoldable pub get_connections : Memory → Room → List Entry
get_connections m r = filter (is_held m) r.connections

-- `none` where the room is full; what had expired is gone from the room then, too.
unfoldable pub add_num : Memory → Session → Text → Room → Room × Bool
add_num m sess nick r =
    let live = filter (is_held m) r.connections in
    if ltb (length live) max_members
    then (record r { connections = live ++ record { sess = sess; nick = nick } ∷ [] }, true)
    else (record r { connections = live }, false)

unfoldable pub del_num : Memory → Session → Room → Room
del_num m sess r = record r {
  connections = filter (λ e. is_held m e && not (e.sess is sess)) r.connections;
}

abbrev pub new_room : Room
new_room = record { connections = []; transfer_mgr = new_manager }

abbrev pub found_room : Option Room → Room
found_room none = new_room
found_room (some r) = r

-- The members after joining; `none` is an invalid result.
unfoldable pub join_room : Memory → Text → Session → Text → Rooms → Rooms × Option (List Entry)
unfolding add_num get_connections
join_room m room_id sess nick rooms =
    let (r, valid) = add_num m sess nick (found_room (lookup room_id rooms)) in
    (insert room_id r rooms, if valid then some (get_connections m r) else none)

unfoldable pub find_room : Text → Rooms → Option Room
find_room room_id rooms = lookup room_id rooms

-- The room goes with its last member.
unfoldable pub after_del : Text → Room → Rooms → List Entry → Rooms × List Entry
after_del room_id r rooms [] = (erase room_id rooms, [])
after_del room_id r rooms (e ∷ es) = (insert room_id r rooms, e ∷ es)

unfoldable pub leave_room : Memory → Text → Session → Rooms → Rooms × List Entry
unfolding del_num get_connections after_del
leave_room m room_id sess rooms = elim (lookup room_id rooms) [
  | none ↦ (rooms, [])
  | some r ↦ let r' = del_num m sess r in after_del room_id r' rooms (get_connections m r')
]
