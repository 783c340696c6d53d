-- ===== src/Chat/Timers/Run.antt =====
-- The timers of `useChat` in a run of events.
use chat_serve.Base.{ℕ, sym, subst, List, [], ◌∷◌, Option, none, some}
use chat_serve.Notice.{lost}
use chat_serve.Chat.State.{
  Chat, Frame, text, binary, Moment, Rtc, without, Socket, ReadyState, is_open, closed,
}
use chat_serve.Chat.Link.{
  SameLink, link, link_eq, with_ft-same, with_rtc-same, handle_text_message-same,
  handle_binary_message-same,
}
use chat_serve.Chat.Timers.{
  Tidy, IsTidy, Tidy-if, Tidy-ready, change-IsTidy, connect-IsTidy, onopen-IsTidy, reconnect-IsTidy,
  send_message-IsTidy, handle_disconnect-IsTidy, heartbeat_tick-IsTidy, leave-IsTidy,
  on_unmounted-IsTidy, without-IsSingle,
}
use chat_serve.Chat.Events.{
  Event, joins, sends, leaves, transfers, signals, opened, received, shut, timeout, interval,
  unmounted, step, run, new, on_opened, on_received, on_shut, onmessage, set_ready_state,
}

module _ {ℓ} {R : Type ℓ} (r : Rtc R) where
  same-IsTidy : (d c : Chat R) → SameLink d c → Tidy c → Tidy d
  unfolding Tidy
  same-IsTidy d c s h = subst IsTidy (sym (link_eq d c s)) h

  set_ready_state-IsTidy :
      (c : Chat R) (i : ℕ) (s : ReadyState) → Tidy c → Tidy (set_ready_state c i s)
  set_ready_state-IsTidy c i s h =
      change-IsTidy r c i (λ socket. record socket { ready_state = s }) c.ws h

  on_opened-IsTidy :
      (c : Chat R) (i : ℕ) (at : Moment) (s : Option Socket) → Tidy c → Tidy (on_opened c i at s)
  unfolding on_opened
  on_opened-IsTidy c i at none h = h
  on_opened-IsTidy c i at (some s) h =
      Tidy-ready s.ready_state _ _ _ _
        (onopen-IsTidy _ at s.room s.nick (set_ready_state-IsTidy c i is_open h)) h h h

  clock-IsTidy : (c : Chat R) (n : ℕ) → Tidy c → Tidy (record c { last_recv_at = n })
  unfolding Tidy
  clock-IsTidy c n h = h

  onmessage-IsTidy : (c : Chat R) (at : Moment) (f : Frame) → Tidy c → Tidy (onmessage r c at f)
  unfolding onmessage
  onmessage-IsTidy c at (text line) h =
      same-IsTidy _ _ (handle_text_message-same r (record c { last_recv_at = at.now }) at line)
        (clock-IsTidy c at.now h)
  onmessage-IsTidy c at (binary bytes) h =
      same-IsTidy _ _ (handle_binary_message-same (record c { last_recv_at = at.now }) bytes)
        (clock-IsTidy c at.now h)

  on_received-IsTidy :
      (c : Chat R) (at : Moment) (f : Frame) (s : Option Socket)
      → Tidy c
      → Tidy (on_received r c at f s)
  unfolding on_received
  on_received-IsTidy c at f none h = h
  on_received-IsTidy c at f (some s) h =
      Tidy-ready s.ready_state _ _ _ _ h (Tidy-if s.onmessage _ _ (onmessage-IsTidy c at f h) h) h h

  on_shut-IsTidy : (c : Chat R) (i : ℕ) (s : Option Socket) → Tidy c → Tidy (on_shut r c i s)
  unfolding on_shut
  on_shut-IsTidy c i none h = h
  on_shut-IsTidy c i (some s) h =
      let k = set_ready_state-IsTidy c i closed h in
      let l = Tidy-if s.onclose _ _ (handle_disconnect-IsTidy r _ lost k) k in
      Tidy-ready s.ready_state _ _ _ _ l l l h

  fire-IsTidy :
      (c : Chat R) (i : ℕ)
      → Tidy c
      → Tidy (record c { page = record (c.page) { timeouts = without i c.page.timeouts } })
  unfolding Tidy
  fire-IsTidy c i h = (without-IsSingle c.reconnect_timer i c.page.timeouts h.0, h.1)

  step-IsTidy : (c : Chat R) (e : Event R) → Tidy c → Tidy (step r c e)
  unfolding step
  step-IsTidy c (joins room nick) h = connect-IsTidy c room nick h
  step-IsTidy c (sends at line) h = send_message-IsTidy c at line h
  step-IsTidy c leaves h = leave-IsTidy r c h
  step-IsTidy c (transfers f) h = same-IsTidy _ c (with_ft-same c (f c.ft)) h
  step-IsTidy c (signals f) h = same-IsTidy _ c (with_rtc-same c (f c.rtc)) h
  step-IsTidy c (opened i at) h = on_opened-IsTidy c i at _ h
  step-IsTidy c (received i at frame) h = on_received-IsTidy c at frame _ h
  step-IsTidy c (shut i) h = on_shut-IsTidy c i _ h
  step-IsTidy c (timeout i) h = Tidy-if _ _ _ (reconnect-IsTidy _ (fire-IsTidy c i h)) h
  step-IsTidy c (interval i at hidden) h = Tidy-if _ _ _ (heartbeat_tick-IsTidy r c at hidden h) h
  step-IsTidy c unmounted h = on_unmounted-IsTidy c h

  run-IsTidy : (es : List (Event R)) (c : Chat R) → Tidy c → Tidy (run r c es)
  unfolding run
  run-IsTidy [] c h = h
  run-IsTidy (e ∷ es) c h = run-IsTidy es (step r c e) (step-IsTidy c e h)

  -- From the state that the page starts with, whatever events follow and in whatever order, at most
  -- one reconnection and at most one heartbeat are pending, and a pending one is the one that
  -- `reconnectTimer` or `heartbeatTimer` names, so that clearing it leaves none.
  pub run_timers : (rtc : R) (es : List (Event R)) → IsTidy (link (run r (new rtc) es))
  unfolding Tidy new
  run_timers rtc es = run-IsTidy es (new rtc) (tt, tt)
