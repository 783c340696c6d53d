-- ===== src/Server/Router/Lines.antt =====
-- A line of the chat on its way over the server to the members of a room
-- (src/app/AppChatCommands.cpp).
use chat_serve.Base.{
  ℕ, ◌≡◌, refl, true, false, not, ◌&&◌, [], ◌∷◌, ◌++◌, some, if◌then◌else◌, ◌===◌, nat_eq, list_eq,
  append-nil, filter,
}
use chat_serve.Text.{Text, lit, index_of}
use chat_serve.Text.Number.{show, show-Lacks}
use chat_serve.Chat.State.{Chat, Moment, Rtc, nick_of, add_chat, other}
use chat_serve.Chat.Routing.{handle_text_message}
use chat_serve.Chat.Messages.{said_lem}
use chat_serve.Server.Parser.{parse, build_frame, add_params}
use chat_serve.Server.State.{Session, ◌is◌, Server, Room, text}
use chat_serve.Server.Rooms.{get_connections, find_room, is_held}
use chat_serve.Server.Router.{on_msg, broadcast_to_room}
use chat_serve.Server.Files.{Draw}
use chat_serve.Server.Commands.{own_room}
use chat_serve.Server.Events.{handle, handle_other, handle_up, ws_text}
use chat_serve.Server.Router.Delivery.{
  received_by, has_member, Distinct, received_by-except, has_member-held, filter-Distinct,
}

-- A line as it goes from the server
abbrev pub line_from : Session → Text → Text
line_from a line = lit "MSG|" ++ (show a.fd ++ b'|' ∷ line)

handle_up-msg :
    (draws : ℕ → Draw) (sv : Server) (a : Session) (r : Room) (line : Text)
    → sv.memory.alive a.address ≡ true
    → own_room sv a ≡ some r
    → handle_up draws sv a (ws_text (lit "MSG|" ++ line))
      ≡ (sv, broadcast_to_room sv.memory (some r) a (line_from a line))
unfolding handle_up handle handle_other parse on_msg index_of find_room own_room build_frame
    add_params
handle_up-msg draws sv a r line h k = rw (h, handle_up, k, append-nil line) refl

-- A line that a connected session sends from its room goes to every other member, once and with
-- the line whole, bars included, and to no one else; the server's state stays. A member's client
-- shows the line so, under the nickname that it has for the sender's number. No session is twice
-- in the room, and the receiver's own number is another one.
pub line_delivered {ℓ} :
    {R : Type ℓ} (rtc : Rtc R) (c : Chat R) (at : Moment) (draws : ℕ → Draw) (sv : Server)
    (a s : Session) (r : Room) (line : Text)
    → sv.memory.alive a.address ≡ true
    → own_room sv a ≡ some r
    → Distinct r.connections
    → (show a.fd === c.my_id) ≡ false
    → let reply = handle_up draws sv a (ws_text (lit "MSG|" ++ line)) in
      (reply.0 ≡ sv)
      × (received_by s reply.1 ≡ (
          if has_member s r.connections && not (sv.memory.expired s.address) && not (s is a)
          then text (line_from a line) ∷ []
          else []))
      × (handle_text_message rtc c at (line_from a line)
          ≡ add_chat c at (nick_of c.member_list (show a.fd)) line other)
unfolding broadcast_to_room get_connections
line_delivered rtc c at draws sv a s r line h k d e = rw (handle_up-msg draws sv a r line h k) (
  refl,
  rw
      (
        received_by-except s a (filter (is_held sv.memory) r.connections) (line_from a line)
            (filter-Distinct (is_held sv.memory) r.connections d),
        has_member-held sv.memory s r.connections,
      )
      refl,
  rw (said_lem rtc c at (show a.fd) line (show-Lacks b'|' a.fd refl), e) refl,
)
