-- ===== src/Chat/Timers.antt =====
-- The timers of `useChat`: `reconnectTimer` and `heartbeatTimer`, and those that are pending.
pub mod Run
use chat_serve.Base.{
  ℕ, suc, ◌+◌, ◌≡◌, refl, sym, subst, ◌∙◌, ap, Bool, true, false, not, List, [], ◌∷◌, ◌++◌, Option,
  none, some, if◌then◌else◌, arith, nat_beq, nat_beq_iff, nat_eq, lookup, Option-cases, Bool-cases,
  inl, inr,
}
use chat_serve.Text.{Text}
use chat_serve.Notice.{Notice}
use chat_serve.Transfer.State.{Effect, Transfer}
use chat_serve.Chat.State.{
  Chat, Page, Frame, Moment, Rtc, perform, perform_all, with_ft, send_if_open, add_system, add_chat,
  add_file, clear_reconnect, clear_heartbeat, drop_reconnect, drop_heartbeat, without,
  change_socket, Socket, is_open_socket, ReadyState, connecting, is_open, closing, closed,
}
use chat_serve.Chat.Connection.{
  connect, onopen, start_heartbeat, set_heartbeat, set_reconnect, open_socket, close_ws, clean_up,
  abandon, send_message, reconnect, handle_disconnect, heartbeat_tick, beat, declare_dead, leave,
  drop_socket, on_unmounted,
}
use chat_serve.Chat.Link.{
  Link, link, SameLink, link_eq, with_ft-same, with_rtc-same, handle_text_message-same,
  handle_binary_message-same,
}
use chat_serve.Chat.Events.{
  Event, joins, sends, leaves, transfers, signals, opened, received, shut, timeout, interval,
  unmounted, step, run, new, on_opened, on_received, on_shut, onmessage, set_ready_state,
}

-- The pending timers are none, or just the one that the variable names.
abbrev pub IsSingle : Option ℕ → List ℕ → Type 0
IsSingle timer [] = Unit
IsSingle none (_ ∷ _) = ⊥
IsSingle (some i) (j ∷ []) = j ≡ i
IsSingle (some i) (_ ∷ _ ∷ _) = ⊥

abbrev pub IsTidy : Link → Type 0
IsTidy l = IsSingle l.reconnect_timer l.timeouts × IsSingle l.heartbeat_timer l.intervals

-- Clearing the timer that the variable names leaves none.
without_single : (i : ℕ) (js : List ℕ) → IsSingle (some i) js → without i js ≡ []
without_single i [] h = refl
without_single i (j ∷ []) h = ground arith
without_single i (_ ∷ _ ∷ _) h = absurd h

-- A timer that fires is not pending any more.
without-IsSingle : (t : Option ℕ) (i : ℕ) (js : List ℕ) → IsSingle t js → IsSingle t (without i js)
without-IsSingle t i [] h = tt
without-IsSingle none i (j ∷ js) h = absurd h
without-IsSingle (some k) i (j ∷ []) h = ground arith
without-IsSingle (some k) i (_ ∷ _ ∷ _) h = absurd h

none_single : (js : List ℕ) → IsSingle none js → js ≡ []
none_single [] h = refl
none_single (_ ∷ _) h = absurd h

module _ {ℓ} {R : Type ℓ} where
  link-clear_reconnect :
      (c : Chat R) → IsTidy (link c) → link (clear_reconnect c) ≡ record (link c) { timeouts = [] }
  unfolding clear_reconnect
  link-clear_reconnect c h =
      ground (arith, none_single c.page.timeouts, λ (i : ℕ). without_single i c.page.timeouts)

  link-clear_heartbeat :
      (c : Chat R) → IsTidy (link c) → link (clear_heartbeat c) ≡ record (link c) { intervals = [] }
  unfolding clear_heartbeat
  link-clear_heartbeat c h =
      ground (arith, none_single c.page.intervals, λ (i : ℕ). without_single i c.page.intervals)

  link-drop_reconnect :
      (c : Chat R)
      → IsTidy (link c)
      → link (drop_reconnect c) ≡ record (link c) { reconnect_timer = none; timeouts = [] }
  unfolding drop_reconnect
  link-drop_reconnect c h =
      ap (λ (l : Link). record l { reconnect_timer = none }) (link-clear_reconnect c h)

  link-drop_heartbeat :
      (c : Chat R)
      → IsTidy (link c)
      → link (drop_heartbeat c) ≡ record (link c) { heartbeat_timer = none; intervals = [] }
  unfolding drop_heartbeat
  link-drop_heartbeat c h =
      ap (λ (l : Link). record l { heartbeat_timer = none }) (link-clear_heartbeat c h)

  -- Both timers are gone.
  pub link-drop_timers :
      (c : Chat R)
      → IsTidy (link c)
      → link (drop_heartbeat (drop_reconnect c)) ≡ record (link c) {
        reconnect_timer = none;
        heartbeat_timer = none;
        timeouts = [];
        intervals = [];
      }
  link-drop_timers c h =
      let e = link-drop_reconnect c h in
      link-drop_heartbeat (drop_reconnect c) (subst IsTidy (sym e) (tt, h.1))
      ∙ ap (λ (l : Link). record l { heartbeat_timer = none; intervals = [] }) e

  -- The invariant of the timers.
  pub Tidy : Chat R → Type 0
  Tidy c = IsTidy (link c)

  Tidy-if : (b : Bool) (x y : Chat R) → Tidy x → Tidy y → Tidy (if b then x else y)
  Tidy-if true x y h k = h
  Tidy-if false x y h k = k

  -- What holds in each state of a socket holds of the choice.
  pub Tidy-ready :
      (s : ReadyState) (x y z w : Chat R)
      → Tidy x
      → Tidy y
      → Tidy z
      → Tidy w
      → Tidy (elim s [ connecting ↦ x | is_open ↦ y | closing ↦ z | closed ↦ w ])
  Tidy-ready connecting x y z w a b c d = a
  Tidy-ready is_open x y z w a b c d = b
  Tidy-ready closing x y z w a b c d = c
  Tidy-ready closed x y z w a b c d = d

  connect-IsTidy : (c : Chat R) (room nick : Text) → Tidy c → Tidy (connect c room nick)
  unfolding Tidy connect open_socket
  connect-IsTidy c room nick h = subst IsTidy (sym (link-drop_timers c h)) (tt, tt)

  set_heartbeat-IsTidy : (c : Chat R) → Tidy c → c.page.intervals ≡ [] → Tidy (set_heartbeat c)
  unfolding Tidy set_heartbeat
  set_heartbeat-IsTidy c h e = (h.0, rw e refl)

  set_reconnect-IsTidy : (c : Chat R) → Tidy c → c.page.timeouts ≡ [] → Tidy (set_reconnect c)
  unfolding Tidy set_reconnect
  set_reconnect-IsTidy c h e = (rw e refl, h.1)

  start_heartbeat-IsTidy : (c : Chat R) (at : Moment) → Tidy c → Tidy (start_heartbeat c at)
  unfolding Tidy start_heartbeat
  start_heartbeat-IsTidy c at h =
      let e = link-clear_heartbeat c h in
      set_heartbeat-IsTidy (record (clear_heartbeat c) { last_recv_at = at.now; probed_at = 0 })
        (subst IsTidy (sym e) (h.0, tt)) (ap (λ (l : Link). l.intervals) e)

  onopen-IsTidy :
      (c : Chat R) (at : Moment) (room nick : Text) → Tidy c → Tidy (onopen c at room nick)
  unfolding onopen Tidy
  onopen-IsTidy c at room nick h = elim (Option-cases c.ws) [
    | inl e ↦ rw (e, onopen) h
    | inr (i, e) ↦ elim (Option-cases (lookup i c.page.sockets)) [
      | inl f ↦ rw (e, onopen, f) h
      | inr (socket, f) ↦
          rw (e, onopen, f)
            (Tidy-ready socket.ready_state _ _ _ _ h (start_heartbeat-IsTidy _ at h)
              (start_heartbeat-IsTidy _ at h) (start_heartbeat-IsTidy _ at h))
    ]
  ]

  reconnect-IsTidy : (c : Chat R) → Tidy c → Tidy (reconnect c)
  unfolding Tidy reconnect
  reconnect-IsTidy c h = ground (arith, connect-IsTidy c c.my_room c.my_nick h)

  send_message-IsTidy :
      (c : Chat R) (at : Moment) (line : Text) → Tidy c → Tidy (send_message c at line)
  unfolding Tidy send_message add_chat
  send_message-IsTidy c at line h = ground arith

  send_if_open-IsTidy : (c : Chat R) (f : Frame) → Tidy c → Tidy (send_if_open c f)
  unfolding Tidy send_if_open
  send_if_open-IsTidy c f h = ground arith

  drop_socket-IsTidy : (c : Chat R) → Tidy c → Tidy (drop_socket c)
  unfolding Tidy drop_socket
  drop_socket-IsTidy c h = ground arith

  close_ws-IsTidy : (c : Chat R) → Tidy c → Tidy (close_ws c)
  unfolding Tidy close_ws
  close_ws-IsTidy c h = ground arith

  on_unmounted-IsTidy : (c : Chat R) → Tidy c → Tidy (on_unmounted c)
  unfolding Tidy on_unmounted
  on_unmounted-IsTidy c h =
      let k = subst IsTidy (sym (link-clear_reconnect c h)) (tt, h.1) in
      close_ws-IsTidy _ (subst IsTidy (sym (link-clear_heartbeat (clear_reconnect c) k)) (k.0, tt))

module _ {ℓ} {R : Type ℓ} (r : Rtc R) where
  clean_up-IsTidy : (c : Chat R) (n : Notice) → Tidy c → Tidy (clean_up r c n)
  unfolding Tidy clean_up add_system
  clean_up-IsTidy c n h = h

  restart-IsTidy : (c : Chat R) → Tidy c → Tidy (set_reconnect (clear_reconnect (drop_heartbeat c)))
  unfolding Tidy
  restart-IsTidy c h =
      let k = subst IsTidy (sym (link-drop_heartbeat c h)) (h.0, tt) in
      let e = link-clear_reconnect (drop_heartbeat c) k in
      set_reconnect-IsTidy _ (subst IsTidy (sym e) (tt, k.1)) (ap (λ (l : Link). l.timeouts) e)

  handle_disconnect-IsTidy : (c : Chat R) (n : Notice) → Tidy c → Tidy (handle_disconnect r c n)
  unfolding Tidy handle_disconnect
  handle_disconnect-IsTidy c n h =
      Tidy-if c.is_leaving c _ h (restart-IsTidy (clean_up r c n) (clean_up-IsTidy c n h))

  change-IsTidy :
      (c : Chat R) (i : ℕ) (f : Socket → Socket) (w : Option ℕ)
      → Tidy c
      → Tidy (record c { ws = w; page = change_socket c.page i f })
  unfolding Tidy
  change-IsTidy c i f w h = ground arith

  declare_dead-IsTidy : (c : Chat R) (i : ℕ) → Tidy c → Tidy (declare_dead r c i)
  unfolding Tidy declare_dead
  declare_dead-IsTidy c i h = handle_disconnect-IsTidy _ _ (change-IsTidy c i abandon none h)

  probed-IsTidy : (c : Chat R) (n : ℕ) → Tidy c → Tidy (record c { probed_at = n })
  unfolding Tidy
  probed-IsTidy c n h = h

  beat-IsTidy :
      (c : Chat R) (at : Moment) (hidden : Bool) (i : ℕ) → Tidy c → Tidy (beat r c at hidden i)
  unfolding beat
  beat-IsTidy c at hidden i h =
      search (Tidy-if, probed-IsTidy, send_if_open-IsTidy, declare_dead-IsTidy) depth 10

  heartbeat_tick-IsTidy :
      (c : Chat R) (at : Moment) (hidden : Bool) → Tidy c → Tidy (heartbeat_tick r c at hidden)
  unfolding heartbeat_tick
  heartbeat_tick-IsTidy c at hidden h = elim (Option-cases c.ws) [
    | inl e ↦ rw (e, heartbeat_tick) h
    | inr (i, e) ↦
        rw (e, heartbeat_tick)
          (Tidy-if (is_open_socket c.page i) _ _ (beat-IsTidy c at hidden i h) h)
  ]

  leave-IsTidy : (c : Chat R) → Tidy c → Tidy (leave r c)
  unfolding Tidy leave
  leave-IsTidy c h =
      drop_socket-IsTidy _
        (subst IsTidy (sym (link-drop_timers (record c { is_leaving = true }) h)) (tt, tt))
