-- ===== src/Server/Router/Relay.antt =====
-- A message on its way from one client over the server to another: signals
-- (src/app/AppSignalCommands.cpp) and lines of the chat (src/app/AppChatCommands.cpp).
use chat_serve.Base.{
  ℕ, ◌<◌, ◌≡◌, refl, ◌∙◌, true, [], ◌∷◌, ◌++◌, some, nat_eq, list_eq, length, arith, append-nil,
  pos,
}
use chat_serve.Text.{Text, lit, Lacks}
use chat_serve.Text.Number.{show, show-Lacks}
use chat_serve.Chat.State.{Chat, Moment, Rtc, nick_of}
use chat_serve.Chat.Routing.{handle_text_message, with_rtc}
use chat_serve.Chat.Signals.{offer_lem, answer_lem, ice_lem}
use chat_serve.Server.Parser.{AppMessage, parse, build_frame, add_params, parse-build_frame}
use chat_serve.Server.Numbers.{stoi-show, int_limit}
use chat_serve.Server.State.{Session, Server, send}
use chat_serve.Server.Rooms.{find_room}
use chat_serve.Server.Router.{find_peer, relay_signal}
use chat_serve.Server.Files.{Draw}
use chat_serve.Server.Commands.{own_room}
use chat_serve.Server.Events.{handle, handle_other, handle_up, ws_text}

-- A command with a number of a session and a text behind it
abbrev pub signal : Text → ℕ → Text → Text
signal command fd payload = command ++ b'|' ∷ (show fd ++ b'|' ∷ payload)

frame-signal :
    (command payload : Text) (fd : ℕ)
    → build_frame command (show fd ∷ payload ∷ []) ≡ signal command fd payload
unfolding build_frame add_params
frame-signal command payload fd = rw (append-nil payload) refl

abbrev pub IsPayload : Text → Type 0
IsPayload payload = (0 < length payload) × Lacks b'|' payload

pub parse-signal :
    (command payload : Text) (fd : ℕ)
    → Lacks b'|' command
    → IsPayload payload
    → parse (signal command fd payload) ≡ record {
      command = command;
      params = show fd ∷ payload ∷ [];
      rest = show fd ++ b'|' ∷ payload;
    }
unfolding add_params
parse-signal command [] fd h k = absurd (omega (arith, k.0))
parse-signal command (c ∷ payload) fd h k = rw (← frame-signal command (c ∷ payload) fd) (
    rw
      (
        parse-build_frame command (show fd) ((c ∷ payload) ∷ []) h (show-Lacks b'|' fd refl)
            (k.1, tt),
        append-nil payload,
      )
      refl)

-- The sender is connected and in a room, and its message is for the member of it with that number.
pub record Meets (sv : Server) (a b : Session) : Type 0 where
  pub is_alive : sv.memory.alive a.address ≡ true
  pub is_found : find_peer sv.memory (own_room sv a) (pos b.fd) ≡ some b
  pub is_int : b.fd < int_limit

module _ (draws : ℕ → Draw) (sv : Server) (a b : Session) (m : Meets sv a b) where
  abbrev message : Text → Text → AppMessage
  message command payload = record {
    command = command;
    params = show b.fd ∷ payload ∷ [];
    rest = show b.fd ++ b'|' ∷ payload;
  }

  relay_signal_lem :
      (command payload : Text)
      → relay_signal sv a (message command payload) command 1
        ≡ (sv, send b (signal command a.fd payload) ∷ [])
  unfolding relay_signal find_room own_room
  relay_signal_lem command payload =
      rw (stoi-show b.fd m.is_int, relay_signal, m.is_found, frame-signal command payload a.fd) refl

  relayed :
      (command payload : Text)
      → Lacks b'|' command
      → IsPayload payload
      → handle draws sv a (message command payload)
        ≡ relay_signal sv a (message command payload) command 1
      → handle_up draws sv a (ws_text (signal command b.fd payload))
        ≡ (sv, send b (signal command a.fd payload) ∷ [])
  unfolding handle_up
  relayed command payload h k route =
      rw (m.is_alive, handle_up, parse-signal command payload b.fd h k)
        (route ∙ relay_signal_lem command payload)

  -- An offer, an answer or a candidate that a client sends to a member of its room, by that
  -- member's number and with a text behind it that is not empty and has no bar, is sent by the
  -- server to just that member, and the server's state stays; the member's client hands exactly
  -- that text to `useWebRTC`, as coming from the sender's number. The sender is connected, and the
  -- number is that of the first member with it, and below 2 ^ 31.
  pub signals_relayed {ℓ} :
      {R : Type ℓ} (rtc : Rtc R) (c : Chat R) (at : Moment) (payload : Text)
      → IsPayload payload
      → (handle_up draws sv a (ws_text (lit "OFFER|" ++ (show b.fd ++ b'|' ∷ payload)))
          ≡ (sv, send b (lit "OFFER|" ++ (show a.fd ++ b'|' ∷ payload)) ∷ []))
        × (handle_text_message rtc c at (lit "OFFER|" ++ (show a.fd ++ b'|' ∷ payload))
            ≡ with_rtc c
                (rtc.handle_offer c.rtc (show a.fd) (nick_of c.member_list (show a.fd)) payload))
        × (handle_up draws sv a (ws_text (lit "ANSWER|" ++ (show b.fd ++ b'|' ∷ payload)))
            ≡ (sv, send b (lit "ANSWER|" ++ (show a.fd ++ b'|' ∷ payload)) ∷ []))
        × (handle_text_message rtc c at (lit "ANSWER|" ++ (show a.fd ++ b'|' ∷ payload))
            ≡ with_rtc c (rtc.handle_answer c.rtc (show a.fd) payload))
        × (handle_up draws sv a (ws_text (lit "ICE|" ++ (show b.fd ++ b'|' ∷ payload)))
            ≡ (sv, send b (lit "ICE|" ++ (show a.fd ++ b'|' ∷ payload)) ∷ []))
        × (handle_text_message rtc c at (lit "ICE|" ++ (show a.fd ++ b'|' ∷ payload))
            ≡ with_rtc c (rtc.handle_ice c.rtc (show a.fd) payload))
  unfolding handle handle_other
  signals_relayed rtc c at payload k =
      let l = show-Lacks b'|' a.fd refl in
      (
        relayed (lit "OFFER") payload (refl, (refl, (refl, (refl, (refl, tt))))) k refl,
        offer_lem rtc c at (show a.fd) payload l,
        relayed (lit "ANSWER") payload (refl, (refl, (refl, (refl, (refl, (refl, tt)))))) k refl,
        answer_lem rtc c at (show a.fd) payload l,
        relayed (lit "ICE") payload (refl, (refl, (refl, tt))) k refl,
        ice_lem rtc c at (show a.fd) payload l,
      )
