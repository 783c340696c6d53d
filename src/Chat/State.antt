-- ===== src/Chat/State.antt =====
-- The state of `useChat`, and of the part of the page that it acts on: sockets, timers, readers.
use chat_serve.Base.{
  ℕ, ◌*◌, Bool, true, false, List, [], ◌∷◌, ◌++◌, Option, none, some, if◌then◌else◌, ◌===◌, nat_eq,
  list_eq, Dict, lookup, insert, filter, find, nat_beq, not,
}
use chat_serve.Text.{Text, lit}
use chat_serve.Notice.{Notice}
use chat_serve.Transfer.Frame.{Bytes}
use chat_serve.Transfer.State.{
  Transfer, FileMessage, Reading, Clock, Effect, send_command, send_binary, add_system_message,
  add_file_message, read_as_array_buffer, save_blob,
}

-- What an instant gives to the code: `performance.now()` in microseconds, the time of day, and
-- `toLocaleTimeString('zh-CN', …)`.
pub record Moment : Type 0 where
  pub now : ℕ
  pub clock : Clock
  pub locale_time : Text

-- The constants of the heartbeat, in the same unit.
abbrev pub heartbeat_interval : ℕ
heartbeat_interval = 30 * 1000 * 1000

abbrev pub silence_limit : ℕ
silence_limit = 90 * 1000 * 1000

abbrev pub probe_grace : ℕ
probe_grace = 30 * 1000 * 1000

abbrev pub ping_frame : Text
ping_frame = lit "PING|"

pub data Status : Type 0 where
  connected reconnecting disconnected : Status

pub record Member : Type 0 where
  pub id : Text
  pub nick : Text

pub data Kind : Type 0 where
  self other : Kind

-- An entry of `messages`.
pub data Message : Type 0 where
  sys : Notice → Message
  said : Kind → (name text time : Text) → Message
  file : FileMessage → Message

pub data ReadyState : Type 0 where
  connecting is_open closing closed : ReadyState

-- A WebSocket with what its handlers close over, and which of them are still attached.
pub record Socket : Type 0 where
  pub ready_state : ReadyState
  pub room : Text
  pub nick : Text
  pub onmessage : Bool
  pub onclose : Bool

pub data Frame : Type 0 where
  text : Text → Frame
  binary : Bytes → Frame

-- The browser's side: its sockets by number, the timers that are set and not yet fired or cleared,
-- what was sent on which socket, the readers at work, and the files saved. Numbers are fresh.
pub record Page : Type 0 where
  pub sockets : Dict ℕ Socket
  pub next_socket : ℕ
  pub timeouts : List ℕ
  pub intervals : List ℕ
  pub next_timer : ℕ
  pub sent : List (ℕ × Frame)
  pub readings : List Reading
  pub saved : List (Text × Bytes)

-- `R` is the state of `useWebRTC`.
pub record Chat {ℓ} (R : Type ℓ) : Type ℓ where
  pub joined : Bool
  pub conn_status : Status
  pub room_name : Text
  pub my_nick : Text
  pub my_id : Text
  pub member_list : List Member
  pub messages : List Message
  pub ws : Option ℕ
  pub reconnect_timer : Option ℕ
  pub heartbeat_timer : Option ℕ
  pub last_recv_at : ℕ
  pub probed_at : ℕ
  pub is_leaving : Bool
  pub is_reconnect : Bool
  pub my_room : Text
  pub rtc : R
  pub ft : Transfer
  pub page : Page

-- `socket.readyState === WebSocket.OPEN`
unfoldable pub is_open_socket : Page → ℕ → Bool
is_open_socket page i = elim (lookup i page.sockets) [
  | none ↦ false
  | some socket ↦ elim socket.ready_state [ is_open ↦ true | _ ↦ false ]
]

-- `socket.send(frame)` on a socket that is open
abbrev pub send_on : Page → ℕ → Frame → Page
send_on page i frame = record page { sent = page.sent ++ (i, frame) ∷ [] }

-- A change of the object that the number stands for.
abbrev pub change_socket : Page → ℕ → (Socket → Socket) → Page
change_socket page i change = elim (lookup i page.sockets) [
  | none ↦ page
  | some socket ↦ record page { sockets = insert i (change socket) page.sockets }
]

-- `socket.close()`: the handshake begins, and `closed` comes later.
unfoldable pub start_close : Socket → Socket
start_close socket = record socket {
  ready_state = elim socket.ready_state [ closed ↦ closed | _ ↦ closing ];
}

abbrev pub without : ℕ → List ℕ → List ℕ
without i = filter λ j. not (nat_beq j i)

module _ {ℓ} {R : Type ℓ} where
  -- `if (ws && ws.readyState === WebSocket.OPEN) ws.send(frame)`
  unfoldable pub send_if_open : Chat R → Frame → Chat R
  unfolding is_open_socket
  send_if_open c frame = elim c.ws [
    | none ↦ c
    | some i ↦ if is_open_socket c.page i then record c { page = send_on c.page i frame } else c
  ]

  unfoldable pub add_system : Chat R → Notice → Chat R
  add_system c notice = record c { messages = c.messages ++ sys notice ∷ [] }

  unfoldable pub add_chat : Chat R → Moment → Text → Text → Kind → Chat R
  add_chat c at nick line kind = record c {
    messages = c.messages ++ said kind nick line at.locale_time ∷ [];
  }

  unfoldable pub add_file : Chat R → FileMessage → Chat R
  add_file c msg = record c { messages = c.messages ++ file msg ∷ [] }

  -- The calls that a component makes through the functions that `useChat` hands to it, and those
  -- that it makes on the page.
  unfoldable pub perform : Chat R → Effect → Chat R
  unfolding send_if_open add_system add_file
  perform c (send_command s) = send_if_open c (text s)
  perform c (send_binary b) = send_if_open c (binary b)
  perform c (add_system_message n) = add_system c n
  perform c (add_file_message m) = add_file c m
  perform c (read_as_array_buffer r) = record c {
    page = record (c.page) { readings = c.page.readings ++ r ∷ [] };
  }
  perform c (save_blob name b) = record c {
    page = record (c.page) { saved = c.page.saved ++ (name, b) ∷ [] };
  }

  unfoldable pub perform_all : Chat R → List Effect → Chat R
  perform_all c [] = c
  perform_all c (e ∷ es) = perform_all (perform c e) es

  -- A step of the file transfer, with its effects.
  unfoldable pub with_ft : Chat R → Transfer × List Effect → Chat R
  with_ft c (ft, es) = perform_all (record c { ft = ft }) es

  -- `clearTimeout(reconnectTimer)` and `clearInterval(heartbeatTimer)`, each under its guard
  unfoldable pub clear_reconnect : Chat R → Chat R
  clear_reconnect c = elim c.reconnect_timer [
    | none ↦ c
    | some i ↦ record c { page = record (c.page) { timeouts = without i c.page.timeouts } }
  ]

  unfoldable pub clear_heartbeat : Chat R → Chat R
  clear_heartbeat c = elim c.heartbeat_timer [
    | none ↦ c
    | some i ↦ record c { page = record (c.page) { intervals = without i c.page.intervals } }
  ]

  -- The same, with the variable set to null.
  unfoldable pub drop_reconnect : Chat R → Chat R
  drop_reconnect c = record (clear_reconnect c) { reconnect_timer = none }

  unfoldable pub drop_heartbeat : Chat R → Chat R
  drop_heartbeat c = record (clear_heartbeat c) { heartbeat_timer = none }

-- `nickOf`: the nickname of a member, or the id itself
unfoldable pub nick_of : List Member → Text → Text
nick_of members i = elim (find (λ m. m.id === i) members) [ none ↦ i | some m ↦ m.nick ]

-- What `useChat` calls of `useWebRTC`. `connect_to` and the handlers return what they send and say
-- before their first `await`.
pub record Rtc {ℓ} (R : Type ℓ) : Type ℓ where
  pub close_peer : R → (peer_id : Text) → R
  pub hangup_all : R → R
  pub connect_to : (my_id : Text) → List Member → R → (peer_id : Text) → R × List Effect
  pub handle_offer : R → (from_id from_nick sdp : Text) → R × List Effect
  pub handle_answer : R → (from_id sdp : Text) → R × List Effect
  pub handle_ice : R → (from_id candidate : Text) → R × List Effect
  pub handle_media : R → (from_id kind state : Text) → R
