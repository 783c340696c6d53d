-- ===== src/Chat/Heartbeat.antt =====
-- `heartbeatTick` of `useChat` on a connection that is silent.
pub mod Alive
use chat_serve.Base.{
  ℕ, suc, ◌+◌, ◌-◌, ◌≤◌, ◌<◌, ◌≡◌, refl, sym, subst, ◌∙◌, ap, ◌⊎◌, inl, inr, Bool, true, false, not,
  ◌&&◌, List, [], ◌∷◌, ◌++◌, map, Option, none, some, if◌then◌else◌, arith, leb, nat_beq,
  nat_beq_iff, nat_eq, lookup, lookup-insert_self, All, Dict, Option-cases, Bool-cases,
}
use chat_serve.Text.{Text}
use chat_serve.Notice.{Notice, silent}
use chat_serve.Chat.State.{
  Chat, Page, Status, reconnecting, Frame, text, binary, Moment, Rtc, Socket, is_open,
  is_open_socket, send_if_open, add_system, silence_limit, probe_grace, ping_frame, change_socket,
  clear_heartbeat, drop_heartbeat, clear_reconnect,
}
use chat_serve.Chat.Connection.{
  heartbeat_tick, beat, declare_dead, abandon, send_message, handle_disconnect, clean_up,
  set_reconnect,
}
use chat_serve.Chat.Link.{
  Link, link, SameLink, link_eq, with_ft-same, with_rtc-same, handle_text_message-same,
  handle_binary_message-same,
}
use chat_serve.Chat.Events.{
  Event, joins, sends, leaves, transfers, signals, opened, received, shut, timeout, interval,
  unmounted, step, run, member, onmessage, on_received,
}

-- The timer that the variable names is set, and has not fired.
abbrev pub IsPending : Option ℕ → List ℕ → Type 0
IsPending none timers = ⊥
IsPending (some i) timers = member i timers ≡ true

-- The connection that is watched: an open socket, with its message handler, and its timer.
pub record IsWatched (l : Link) (i t : ℕ) (s : Socket) : Type 0 where
  pub ws : l.ws ≡ some i
  pub socket : lookup i l.sockets ≡ some s
  pub ready_state : s.ready_state ≡ is_open
  pub onmessage : s.onmessage ≡ true
  pub timer : member t l.intervals ≡ true

-- The visible ticks of a timer.
abbrev pub ticks {ℓ} : {R : Type ℓ} → ℕ → List Moment → List (Event R)
ticks t = map λ at. interval t at false

-- What is left when the connection that socket `i` carried is given up: a closed socket without
-- handlers, no heartbeat, and a timer to connect again.
abbrev pub IsGivenUp : Link → ℕ → Socket → Type 0
IsGivenUp l i s =
    (l.ws ≡ none)
    × (l.conn_status ≡ reconnecting)
    × (lookup i l.sockets ≡ some (abandon s))
    × (l.heartbeat_timer ≡ none)
    × IsPending l.reconnect_timer l.timeouts

pub lookup-change_socket :
    (page : Page) (i : ℕ) (f : Socket → Socket) (s : Socket)
    → lookup i page.sockets ≡ some s
    → lookup i (change_socket page i f).sockets ≡ some (f s)
lookup-change_socket page i f s h = rw (h, change_socket) (lookup-insert_self i (f s) page.sockets)

module _ {ℓ} {R : Type ℓ} (r : Rtc R) where
  -- A tick that sees a hidden page, or a message within the limit, changes no socket.
  beat_alive :
      (c : Chat R) (at : Moment) (hidden : Bool) (i : ℕ)
      → (hidden ≡ true) ⊎ (at.now - c.last_recv_at < silence_limit)
      → link (beat r c at hidden i) ≡ record (link c) { probed_at = 0 }
  unfolding beat send_if_open
  beat_alive c at hidden i h = ground arith

  -- The first tick beyond the limit notes its time.
  beat_probe :
      (c : Chat R) (at : Moment) (i : ℕ)
      → silence_limit ≤ at.now - c.last_recv_at
      → c.probed_at ≡ 0
      → link (beat r c at false i) ≡ record (link c) { probed_at = at.now }
  unfolding beat send_if_open
  beat_probe c at i h k = ground arith

  -- Within the grace, the probe is left to be answered.
  beat_wait :
      (c : Chat R) (at : Moment) (i : ℕ)
      → silence_limit ≤ at.now - c.last_recv_at
      → at.now - c.probed_at < probe_grace
      → 0 < c.probed_at
      → link (beat r c at false i) ≡ link c
  unfolding beat send_if_open
  beat_wait c at i h k l = ground arith

  -- Beyond it, the connection is given up.
  beat_dead :
      (c : Chat R) (at : Moment) (i : ℕ)
      → silence_limit ≤ at.now - c.last_recv_at
      → probe_grace ≤ at.now - c.probed_at
      → 0 < c.probed_at
      → beat r c at false i ≡ declare_dead r c i
  unfolding beat
  beat_dead c at i h k l = ground arith

  is_open_of :
      (c : Chat R) (i t : ℕ) (s : Socket)
      → IsWatched (link c) i t s
      → is_open_socket c.page i ≡ true
  unfolding is_open_socket
  is_open_of c i t s w = rw (w.socket, is_open_socket, w.ready_state) refl

  -- A tick of the connection that is watched is a beat.
  tick_beat :
      (c : Chat R) (i t : ℕ) (s : Socket) (at : Moment) (hidden : Bool)
      → IsWatched (link c) i t s
      → step r c (interval t at hidden) ≡ beat r c at hidden i
  unfolding step heartbeat_tick
  tick_beat c i t s at hidden w = rw (w.timer, w.ws, is_open_of c i t s w) refl

  probed-IsWatched :
      (c d : Chat R) (n i t : ℕ) (s : Socket)
      → link d ≡ record (link c) { probed_at = n }
      → IsWatched (link c) i t s
      → IsWatched (link d) i t s
  probed-IsWatched c d n i t s e w = record {
    ws = ap (λ (l : Link). l.ws) e ∙ w.ws;
    socket = ap (λ (l : Link). lookup i l.sockets) e ∙ w.socket;
    ready_state = w.ready_state;
    onmessage = w.onmessage;
    timer = ap (λ (l : Link). member t l.intervals) e ∙ w.timer;
  }

  -- Ticks within the grace leave the probe to be answered.
  wait-All :
      (c : Chat R) (i t first : ℕ) (s : Socket) (ats : List Moment)
      → IsWatched (link c) i t s
      → c.probed_at ≡ first
      → 0 < first
      → silence_limit ≤ first - c.last_recv_at
      → All (λ at. (first ≤ at.now) × (at.now - first < probe_grace)) ats
      → link (run r c (ticks t ats)) ≡ link c
  unfolding run
  wait-All c i t first s [] w p z q h = refl
  wait-All c i t first s (at ∷ ats) w p z q h =
      let e =
        ap link (tick_beat c i t s at false w)
        ∙ beat_wait c at i (omega arith) (omega arith) (omega arith) in
      let d = step r c (interval t at false) in
      wait-All d i t first s ats (probed-IsWatched c d c.probed_at i t s e w)
        (ap (λ (l : Link). l.probed_at) e ∙ p) z
        (subst (λ (l : Link). silence_limit ≤ first - l.last_recv_at) (sym e) q) h.1
      ∙ e

  disconnect_lem :
      (c : Chat R) (notice : Notice) (i : ℕ) (s : Socket)
      → c.is_leaving ≡ false
      → c.ws ≡ none
      → lookup i c.page.sockets ≡ some (abandon s)
      → IsGivenUp (link (handle_disconnect r c notice)) i s
  unfolding handle_disconnect clean_up set_reconnect clear_reconnect drop_heartbeat clear_heartbeat
      add_system
  disconnect_lem c notice i s h w l = ground arith

  dead_lem :
      (c : Chat R) (i t : ℕ) (s : Socket)
      → IsWatched (link c) i t s
      → c.is_leaving ≡ false
      → IsGivenUp (link (declare_dead r c i)) i s
  unfolding declare_dead
  dead_lem c i t s w h =
      disconnect_lem (record c { ws = none; page = change_socket c.page i abandon }) silent i s h
        refl (lookup-change_socket c.page i abandon s w.socket)

  -- An open connection of a client that is not leaving, on which nothing arrives, is given up by the
  -- visible ticks of its heartbeat: where the first of them finds `kSilenceLimit` gone by since the
  -- last message, and no probe pending, those after it come within `kProbeGrace` of it, and the last
  -- one does not, the client then has no connection, shows that it is connecting again, has closed
  -- the dead socket and taken its handlers off, has no heartbeat, and has a reconnection pending.
  pub silent_link-IsGivenUp :
      (c : Chat R) (i t : ℕ) (s : Socket) (first last : Moment) (ats : List Moment)
      → IsWatched (link c) i t s
      → c.is_leaving ≡ false
      → c.probed_at ≡ 0
      → 0 < first.now
      → silence_limit ≤ first.now - c.last_recv_at
      → All (λ at. (first.now ≤ at.now) × (at.now - first.now < probe_grace)) ats
      → probe_grace ≤ last.now - first.now
      → IsGivenUp
          (link (
            step r
              (run r (step r c (interval t first false)) (ticks t ats))
              (interval t last false)))
          i
          s
  silent_link-IsGivenUp c i t s first last ats w leaving p z q h k =
      let d = step r c (interval t first false) in
      let ed = ap link (tick_beat c i t s first false w) ∙ beat_probe c first i q p in
      let wd = probed-IsWatched c d first.now i t s ed w in
      let e = run r d (ticks t ats) in
      let qd = subst (λ (l : Link). silence_limit ≤ first.now - l.last_recv_at) (sym ed) q in
      let ee = wait-All d i t first.now s ats wd (ap (λ (l : Link). l.probed_at) ed) z qd h ∙ ed in
      let we = probed-IsWatched c e first.now i t s ee w in
      let pe = ap (λ (l : Link). l.probed_at) ee in
      let re = ap (λ (l : Link). l.last_recv_at) ee in
      subst (λ x. IsGivenUp (link x) i s)
        (sym (
          tick_beat e i t s last false we
          ∙ beat_dead e last i (omega (arith, re)) (omega (arith, pe)) (omega (arith, pe))))
        (dead_lem e i t s we (ap (λ (l : Link). l.is_leaving) ee ∙ leaving))
