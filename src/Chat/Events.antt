-- ===== src/Chat/Events.antt =====
-- The events that run the code of `useChat`: what the user does, and what the browser calls back.
-- An event that the browser cannot raise in a state, such as a message on a socket that is not open
-- or a tick of a timer that was cleared, changes nothing.
use chat_serve.Base.{
  ℕ, Bool, true, false, List, [], ◌∷◌, Option, none, some, if◌then◌else◌, nat_beq, nat_eq, lookup,
}
use chat_serve.Text.{Text}
use chat_serve.Notice.{lost}
use chat_serve.Transfer.State.{Transfer, Effect, initial}
use chat_serve.Chat.State.{
  Moment, disconnected, ReadyState, connecting, is_open, closed, Socket, Frame, text, binary, Page,
  Chat, change_socket, without, with_ft, Rtc,
}
use chat_serve.Chat.Connection.{
  connect, onopen, send_message, reconnect, handle_disconnect, heartbeat_tick, leave, on_unmounted,
}
use chat_serve.Chat.Routing.{handle_text_message, handle_binary_message, with_rtc}

pub data Event {ℓ} (R : Type ℓ) : Type ℓ where
  -- the user; what it does with files, and what the readers call back, are steps of the file
  -- transfer, and what the peer connections call back are steps of `useWebRTC`
  joins : (room nick : Text) → Event R
  sends : Moment → Text → Event R
  leaves : Event R
  transfers : (Transfer → Transfer × List Effect) → Event R
  signals : (R → R × List Effect) → Event R
  -- sockets
  opened : ℕ → Moment → Event R
  received : ℕ → Moment → Frame → Event R
  shut : ℕ → Event R
  -- timers
  timeout : ℕ → Event R
  interval : ℕ → Moment → (hidden : Bool) → Event R
  -- the component goes
  unmounted : Event R

abbrev pub member : ℕ → List ℕ → Bool
member i [] = false
member i (j ∷ js) = if nat_beq j i then true else member i js

abbrev pub empty_page : Page
empty_page = record {
  sockets = [];
  next_socket = 0;
  timeouts = [];
  intervals = [];
  next_timer = 0;
  sent = [];
  readings = [];
  saved = [];
}

module _ {ℓ} {R : Type ℓ} where
  -- The state that `useChat` begins with
  unfoldable pub new : R → Chat R
  new rtc = record {
    joined = false;
    conn_status = disconnected;
    room_name = [];
    my_nick = [];
    my_id = [];
    member_list = [];
    messages = [];
    ws = none;
    reconnect_timer = none;
    heartbeat_timer = none;
    last_recv_at = 0;
    probed_at = 0;
    is_leaving = false;
    is_reconnect = false;
    my_room = [];
    rtc = rtc;
    ft = initial;
    page = empty_page;
  }

  abbrev pub set_ready_state : Chat R → ℕ → ReadyState → Chat R
  set_ready_state c i s = record c {
    page = change_socket c.page i (λ socket. record socket { ready_state = s });
  }

  unfoldable pub on_opened : Chat R → ℕ → Moment → Option Socket → Chat R
  on_opened c i at none = c
  on_opened c i at (some socket) = elim socket.ready_state [
    | connecting ↦ onopen (set_ready_state c i is_open) at socket.room socket.nick
    | _ ↦ c
  ]

module _ {ℓ} {R : Type ℓ} (r : Rtc R) where
  -- `ws.onmessage`: the clock first, then the message
  unfoldable pub onmessage : Chat R → Moment → Frame → Chat R
  onmessage c at (text line) = handle_text_message r (record c { last_recv_at = at.now }) at line
  onmessage c at (binary bytes) = handle_binary_message (record c { last_recv_at = at.now }) bytes

  unfoldable pub on_received : Chat R → Moment → Frame → Option Socket → Chat R
  on_received c at frame none = c
  on_received c at frame (some socket) = elim socket.ready_state [
    | is_open ↦ if socket.onmessage then onmessage c at frame else c
    | _ ↦ c
  ]

  unfoldable pub on_shut : Chat R → ℕ → Option Socket → Chat R
  on_shut c i none = c
  on_shut c i (some socket) =
      let d = set_ready_state c i closed in
      elim socket.ready_state [
        | closed ↦ c
        | _ ↦ if socket.onclose then handle_disconnect r d lost else d
      ]

  unfoldable pub step : Chat R → Event R → Chat R
  step c (joins room nick) = connect c room nick
  step c (sends at line) = send_message c at line
  step c leaves = leave r c
  step c (transfers f) = with_ft c (f c.ft)
  step c (signals f) = with_rtc c (f c.rtc)
  step c (opened i at) = on_opened c i at (lookup i c.page.sockets)
  step c (received i at frame) = on_received c at frame (lookup i c.page.sockets)
  step c (shut i) = on_shut c i (lookup i c.page.sockets)
  step c (timeout i) =
      if member i c.page.timeouts
      then reconnect (record c { page = record (c.page) { timeouts = without i c.page.timeouts } })
      else c
  step c (interval i at hidden) =
      if member i c.page.intervals then heartbeat_tick r c at hidden else c
  step c unmounted = on_unmounted c

  unfoldable pub run : Chat R → List (Event R) → Chat R
  unfolding step
  run c [] = c
  run c (e ∷ es) = run (step c e) es
