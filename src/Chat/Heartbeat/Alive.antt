-- ===== src/Chat/Heartbeat/Alive.antt =====
-- `heartbeatTick` of `useChat` on a connection in use.
use chat_serve.Base.{
  ℕ, ◌-◌, ◌<◌, ◌≡◌, refl, sym, subst, ◌∙◌, ap, ◌⊎◌, true, List, [], ◌∷◌, arith, nat_eq, lookup,
}
use chat_serve.Text.{Text}
use chat_serve.Chat.State.{Chat, Frame, text, binary, Moment, Rtc, Socket, add_chat, silence_limit}
use chat_serve.Chat.Connection.{send_message}
use chat_serve.Chat.Link.{
  Link, link, link_eq, with_ft-same, with_rtc-same, handle_text_message-same,
  handle_binary_message-same,
}
use chat_serve.Chat.Heartbeat.{IsWatched, beat_alive, tick_beat}
use chat_serve.Chat.Events.{
  member, Event, joins, sends, leaves, transfers, signals, opened, received, shut, timeout,
  interval, unmounted, step, run, onmessage, on_received,
}

-- Events of a connection in use: what the user says and what the components do, messages on socket
-- `i`, and ticks of timer `t`, each of which finds the page hidden or a message, at `last` or since,
-- within the limit.
abbrev pub IsAttended {ℓ} : {R : Type ℓ} → ℕ → ℕ → ℕ → List (Event R) → Type 0
IsAttended i t last [] = Unit
IsAttended i t last (sends at line ∷ es) = IsAttended i t last es
IsAttended i t last (transfers f ∷ es) = IsAttended i t last es
IsAttended i t last (signals f ∷ es) = IsAttended i t last es
IsAttended i t last (received j at frame ∷ es) = (j ≡ i) × IsAttended i t at.now es
IsAttended i t last (interval u at hidden ∷ es) =
    (u ≡ t) × ((hidden ≡ true) ⊎ (at.now - last < silence_limit)) × IsAttended i t last es
IsAttended i t last (_ ∷ es) = ⊥

-- The connection without the clock of its heartbeat.
abbrev pub at_rest : Link → Link
at_rest l = record l { probed_at = 0; last_recv_at = 0 }

module _ {ℓ} {R : Type ℓ} (r : Rtc R) where
  send_message-link :
      (c : Chat R) (at : Moment) (line : Text) → link (send_message c at line) ≡ link c
  unfolding send_message add_chat
  send_message-link c at line = ground arith

  pub onmessage_lem :
      (c : Chat R) (at : Moment) (f : Frame)
      → link (onmessage r c at f) ≡ record (link c) { last_recv_at = at.now }
  unfolding onmessage
  onmessage_lem c at (text line) =
      link_eq _ _ (handle_text_message-same r (record c { last_recv_at = at.now }) at line)
  onmessage_lem c at (binary bytes) =
      link_eq _ _ (handle_binary_message-same (record c { last_recv_at = at.now }) bytes)

  -- A message on the connection that is watched is handled.
  received_lem :
      (c : Chat R) (i t : ℕ) (s : Socket) (at : Moment) (f : Frame)
      → IsWatched (link c) i t s
      → step r c (received i at f) ≡ onmessage r c at f
  unfolding step on_received
  received_lem c i t s at f w = rw (w.socket, on_received, w.ready_state, w.onmessage) refl

  same-IsWatched :
      (l m : Link) (i t : ℕ) (s : Socket)
      → at_rest l ≡ at_rest m
      → IsWatched m i t s
      → IsWatched l i t s
  same-IsWatched l m i t s e w = record {
    ws = ap (λ (l : Link). l.ws) e ∙ w.ws;
    socket = ap (λ (l : Link). lookup i l.sockets) e ∙ w.socket;
    ready_state = w.ready_state;
    onmessage = w.onmessage;
    timer = ap (λ (l : Link). member t l.intervals) e ∙ w.timer;
  }

  -- The events after one that keeps the connection, and sets its clock.
  kept_after :
      (es : List (Event R)) (d c : Chat R) (i t n m : ℕ) (s : Socket)
      → IsWatched (link c) i t s
      → link d ≡ record (link c) { last_recv_at = n; probed_at = m }
      → IsAttended i t n es
      → (IsWatched (link d) i t s
          → IsAttended i t d.last_recv_at es
          → at_rest (link (run r d es)) ≡ at_rest (link d))
      → at_rest (link (run r d es)) ≡ at_rest (link c)
  kept_after es d c i t n m s w e h k =
      let q = ap at_rest e in
      k (same-IsWatched (link d) (link c) i t s q w)
        (subst (λ l. IsAttended i t l es) (sym (ap (λ (l : Link). l.last_recv_at) e)) h)
      ∙ q

  -- An open connection is left as it is by what the user says, by what the components do, by
  -- messages on its socket and by ticks of its heartbeat that each find the page hidden or the
  -- last message less than `kSilenceLimit` old: `ws`, every socket, the status and the timers are
  -- the same; only the two times of the heartbeat may move.
  pub live_link_kept :
      (es : List (Event R)) (c : Chat R) (i t : ℕ) (s : Socket)
      → IsWatched (link c) i t s
      → IsAttended i t c.last_recv_at es
      → at_rest (link (run r c es)) ≡ at_rest (link c)
  unfolding run step
  live_link_kept [] c i t s w h = refl
  live_link_kept (sends at line ∷ es) c i t s w h =
      kept_after es _ c i t _ _ s w (send_message-link c at line) h (live_link_kept es _ i t s)
  live_link_kept (transfers f ∷ es) c i t s w h =
      kept_after es _ c i t _ _ s w (link_eq _ _ (with_ft-same c (f c.ft))) h
        (live_link_kept es _ i t s)
  live_link_kept (signals f ∷ es) c i t s w h =
      kept_after es _ c i t _ _ s w (link_eq _ _ (with_rtc-same c (f c.rtc))) h
        (live_link_kept es _ i t s)
  live_link_kept (received j at frame ∷ es) c i t s w h =
      kept_after es (step r c (received j at frame)) c i t at.now c.probed_at s w
        (ap link (ap (λ j. step r c (received j at frame)) h.0 ∙ received_lem c i t s at frame w)
          ∙ onmessage_lem c at frame)
        h.1 (live_link_kept es _ i t s)
  live_link_kept (interval u at hidden ∷ es) c i t s w h =
      kept_after es (step r c (interval u at hidden)) c i t c.last_recv_at 0 s w
        (ap link (ap (λ u. step r c (interval u at hidden)) h.0 ∙ tick_beat r c i t s at hidden w)
          ∙ beat_alive r c at hidden i h.1)
        h.2 (live_link_kept es _ i t s)
  live_link_kept (joins room nick ∷ es) c i t s w h = absurd h
  live_link_kept (leaves ∷ es) c i t s w h = absurd h
  live_link_kept (opened j at ∷ es) c i t s w h = absurd h
  live_link_kept (shut j ∷ es) c i t s w h = absurd h
  live_link_kept (timeout j ∷ es) c i t s w h = absurd h
  live_link_kept (unmounted ∷ es) c i t s w h = absurd h
