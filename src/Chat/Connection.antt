-- ===== src/Chat/Connection.antt =====
-- `useChat`: connecting, losing the connection, the heartbeat, leaving.
use chat_serve.Base.{
  ℕ, suc, ◌-◌, Bool, true, false, ◌&&◌, not, [], ◌∷◌, ◌++◌, none, some, if◌then◌else◌, leb, nat_beq,
  nat_eq, insert, lookup,
}
use chat_serve.Text.{Text, lit}
use chat_serve.Notice.{Notice, silent}
use chat_serve.Transfer.Upload.{reset_upload}
use chat_serve.Chat.State.{
  Moment, silence_limit, probe_grace, ping_frame, connected, reconnecting, disconnected, self,
  connecting, is_open, Socket, text, Page, Chat, is_open_socket, send_on, change_socket,
  start_close, send_if_open, add_system, add_chat, clear_reconnect, clear_heartbeat, drop_reconnect,
  drop_heartbeat, Rtc,
}

-- `new WebSocket(…)` with its handlers
unfoldable pub open_socket : Page → Text → Text → Page
open_socket page room nick = record page {
  sockets =
      insert page.next_socket
        (record {
          ready_state = connecting;
          room = room;
          nick = nick;
          onmessage = true;
          onclose = true;
        })
        page.sockets;
  next_socket = suc page.next_socket;
}

-- The socket that is given up has no handlers any more, and is closed.
unfoldable pub abandon : Socket → Socket
abandon socket = start_close (record socket { onclose = false; onmessage = false })

module _ {ℓ} {R : Type ℓ} where
  unfoldable pub connect : Chat R → Text → Text → Chat R
  connect c room nick =
      let d = drop_heartbeat (drop_reconnect c) in
      record d {
        my_room = room;
        my_nick = nick;
        my_id = [];
        ws = some d.page.next_socket;
        page = open_socket d.page room nick;
      }

  -- `heartbeatTimer = setInterval(heartbeatTick, kHeartbeatInterval)`
  unfoldable pub set_heartbeat : Chat R → Chat R
  set_heartbeat c = record c {
    heartbeat_timer = some c.page.next_timer;
    page = record (c.page) {
      intervals = c.page.next_timer ∷ c.page.intervals;
      next_timer = suc c.page.next_timer;
    };
  }

  -- `reconnectTimer = setTimeout(…, 3000)`
  unfoldable pub set_reconnect : Chat R → Chat R
  set_reconnect c = record c {
    reconnect_timer = some c.page.next_timer;
    page = record (c.page) {
      timeouts = c.page.next_timer ∷ c.page.timeouts;
      next_timer = suc c.page.next_timer;
    };
  }

  -- `ws.onopen` behind its `ws.send`
  unfoldable pub start_heartbeat : Chat R → Moment → Chat R
  start_heartbeat c at =
      set_heartbeat (record (clear_heartbeat c) { last_recv_at = at.now; probed_at = 0 })

  -- `ws.onopen` of a socket that was made for `room` and `nick`. It sends on the socket that `ws`
  -- names now. Where that is none, or is connecting, `send` throws and the rest is not run; where it
  -- is closing or closed, `send` drops the frame and the rest is run.
  unfoldable pub onopen : Chat R → Moment → Text → Text → Chat R
  onopen c at room nick =
      let d = record c { is_leaving = false; conn_status = connected } in
      elim c.ws [
        | none ↦ d
        | some i ↦ elim (lookup i c.page.sockets) [
          | none ↦ d
          | some socket ↦ elim socket.ready_state [
            | connecting ↦ d
            | is_open ↦
                start_heartbeat
                  (record d {
                    page = send_on c.page i (text (lit "JOIN|" ++ (room ++ (lit "|" ++ nick))));
                  })
                  at
            | _ ↦ start_heartbeat d at
          ]
        ]
      ]

  -- `sendMessage`
  unfoldable pub send_message : Chat R → Moment → Text → Chat R
  send_message c at line = elim c.ws [
    | none ↦ c
    | some i ↦
        if is_open_socket c.page i
        then (let d = add_chat c at c.my_nick line self in
            record d { page = send_on d.page i (text (lit "MSG|" ++ line)) })
        else c
  ]

  -- The timer that `handleDisconnect` sets, when it fires
  unfoldable pub reconnect : Chat R → Chat R
  reconnect c = elim c.my_room [
    | [] ↦ c
    | _ ∷ _ ↦ elim c.my_nick [ [] ↦ c | _ ∷ _ ↦ connect c c.my_room c.my_nick ]
  ]

  -- `if (ws) { ws.onclose = null; ws.close(); ws = null }`
  unfoldable pub drop_socket : Chat R → Chat R
  drop_socket c = elim c.ws [
    | none ↦ c
    | some i ↦ record c {
      ws = none;
      page = change_socket c.page i (λ s. start_close (record s { onclose = false }));
    }
  ]

  -- `if (ws) ws.close()`
  unfoldable pub close_ws : Chat R → Chat R
  close_ws c = elim c.ws [
    | none ↦ c
    | some i ↦ record c { page = change_socket c.page i start_close }
  ]

  -- The hook of `onUnmounted`
  unfoldable pub on_unmounted : Chat R → Chat R
  on_unmounted c = close_ws (clear_heartbeat (clear_reconnect c))

module _ {ℓ} {R : Type ℓ} (r : Rtc R) where
  -- `handleDisconnect` between its guard and its timers
  unfoldable pub clean_up : Chat R → Notice → Chat R
  clean_up c notice =
      record (add_system (record c { is_reconnect = true; conn_status = reconnecting }) notice) {
        member_list = [];
        rtc = r.hangup_all c.rtc;
        ft = reset_upload c.ft;
      }

  unfoldable pub handle_disconnect : Chat R → Notice → Chat R
  handle_disconnect c notice =
      if c.is_leaving
      then c
      else set_reconnect (clear_reconnect (drop_heartbeat (clean_up c notice)))

  -- `heartbeatTick` on a socket that is given up
  unfoldable pub declare_dead : Chat R → ℕ → Chat R
  declare_dead c i =
      handle_disconnect (record c { ws = none; page = change_socket c.page i abandon }) silent

  -- `heartbeatTick` on an open socket, which is number `i`
  unfoldable pub beat : Chat R → Moment → (hidden : Bool) → ℕ → Chat R
  beat c at hidden i =
      if not hidden && leb silence_limit (at.now - c.last_recv_at)
      then (if nat_beq c.probed_at 0
          then send_if_open (record c { probed_at = at.now }) (text ping_frame)
          else if leb probe_grace (at.now - c.probed_at)
          then declare_dead c i
          else send_if_open c (text ping_frame))
      else send_if_open (record c { probed_at = 0 }) (text ping_frame)

  unfoldable pub heartbeat_tick : Chat R → Moment → (hidden : Bool) → Chat R
  heartbeat_tick c at hidden = elim c.ws [
    | none ↦ c
    | some i ↦ if is_open_socket c.page i then beat c at hidden i else c
  ]

  unfoldable pub leave : Chat R → Chat R
  leave c =
      let d = drop_socket (drop_heartbeat (drop_reconnect (record c { is_leaving = true }))) in
      record d {
        rtc = r.hangup_all d.rtc;
        ft = reset_upload d.ft;
        joined = false;
        member_list = [];
        messages = [];
        conn_status = disconnected;
      }
