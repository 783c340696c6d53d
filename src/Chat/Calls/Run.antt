-- ===== src/Chat/Calls/Run.antt =====
-- The runs of `useChat` and the state of `useWebRTC`.
use chat_serve.Base.{
  ℕ, ◌≡◌, refl, sym, ap, subst, ◌∙◌, Bool, true, List, [], ◌∷◌, Option, none, some, if◌then◌else◌,
  arith, All, Option-cases, inl, inr, list_eq, nat_eq, lookup,
}
use chat_serve.Notice.{Notice, lost, silent}
use chat_serve.Chat.State.{
  Chat, Socket, ReadyState, connecting, is_open, closing, closed, Frame, text, binary, Moment,
  ping_frame, without, Rtc, send_if_open, clear_reconnect, drop_heartbeat,
}
use chat_serve.Chat.Connection.{
  set_reconnect, clean_up, reconnect, handle_disconnect, heartbeat_tick, beat, declare_dead, leave,
}
use chat_serve.Chat.Routing.{handle_binary_message}
use chat_serve.Chat.Events.{
  Event, joins, sends, leaves, transfers, signals, opened, received, shut, timeout, interval,
  unmounted, step, run, on_received, on_shut, onmessage, set_ready_state, member,
}
use chat_serve.Chat.Calls.{
  IsKept, Keeps, Keeps-of, Keeps-refl, Keeps-trans, Keeps-if, with_ft-Keeps, with_rtc-Keeps,
  connect-rtc, send_message-rtc, on_opened-rtc, reconnect-rtc, on_unmounted-rtc, drop_socket-rtc,
  drop_reconnect-rtc, clear_reconnect-rtc, drop_heartbeat-rtc, send_if_open-rtc,
}
use chat_serve.Chat.Calls.Messages.{handle_text_message-Keeps}

-- A step of `useWebRTC` that the browser or the user starts keeps `P`.
abbrev pub IsKeeping : {R : Type 0} → (R → Type 0) → Event R → Type 0
IsKeeping {R = R} P (signals f) = (x : R) → P x → P (f x).0
IsKeeping P _ = Unit

module _ {R : Type 0} {P : R → Type 0} where
  send_if_open-Keeps : (c : Chat R) (f : Frame) → Keeps P (send_if_open c f) c
  send_if_open-Keeps c f = Keeps-of _ c (send_if_open-rtc c f)

  probe-Keeps :
      (c : Chat R) (now : ℕ) (f : Frame) → Keeps P (send_if_open (record c { probed_at = now }) f) c
  probe-Keeps c now f = Keeps-of _ c (send_if_open-rtc (record c { probed_at = now }) f)

  set_ready_state-Keeps : (c : Chat R) (i : ℕ) (s : ReadyState) → Keeps P (set_ready_state c i s) c
  set_ready_state-Keeps c i s = Keeps-of _ c (ground arith)

  at_state :
      (s : ReadyState) (x y z w c : Chat R)
      → Keeps P x c
      → Keeps P y c
      → Keeps P z c
      → Keeps P w c
      → Keeps P
          (elim s as (λ _. Chat R) [ connecting ↦ x | is_open ↦ y | closing ↦ z | closed ↦ w ])
          c
  at_state connecting x y z w c h k l m = h
  at_state is_open x y z w c h k l m = k
  at_state closing x y z w c h k l m = l
  at_state closed x y z w c h k l m = m

-- Leaving hangs up.
pub leave-rtc : {R : Type 0} (r : Rtc R) (c : Chat R) → (leave r c).rtc ≡ r.hangup_all c.rtc
unfolding leave
leave-rtc r c =
    ap r.hangup_all (
      drop_socket-rtc _
      ∙ drop_heartbeat-rtc _
      ∙ drop_reconnect-rtc (record c { is_leaving = true }))

module _ {R : Type 0} (r : Rtc R) {P : R → Type 0} (k : IsKept r P) where
  clean_up-Keeps : (c : Chat R) (n : Notice) → Keeps P (clean_up r c n) c
  unfolding clean_up
  clean_up-Keeps c n = record { kept = k.hangup_all c.rtc }

  handle_disconnect-Keeps : (c : Chat R) (n : Notice) → Keeps P (handle_disconnect r c n) c
  unfolding handle_disconnect set_reconnect
  handle_disconnect-Keeps c n =
      Keeps-if c c.is_leaving c _ (Keeps-refl c)
        (Keeps-trans _ (clean_up r c n) c (Keeps-of _ _ cleared) (clean_up-Keeps c n))
    where
      cleared :
          (set_reconnect (clear_reconnect (drop_heartbeat (clean_up r c n)))).rtc
          ≡ (clean_up r c n).rtc
      cleared = clear_reconnect-rtc _ ∙ drop_heartbeat-rtc _

  leave-Keeps : (c : Chat R) → Keeps P (leave r c) c
  leave-Keeps c = record { kept = λ h. subst P (sym (leave-rtc r c)) (k.hangup_all c.rtc h) }

  declare_dead-Keeps : (c : Chat R) (i : ℕ) → Keeps P (declare_dead r c i) c
  unfolding declare_dead
  declare_dead-Keeps c i = Keeps-trans _ _ c (handle_disconnect-Keeps _ silent) (Keeps-of _ c refl)

  beat-Keeps : (c : Chat R) (at : Moment) (hidden : Bool) (i : ℕ) → Keeps P (beat r c at hidden i) c
  unfolding beat
  beat-Keeps c at hidden i =
      Keeps-if c _ _ _
        (Keeps-if c _ _ _ (probe-Keeps c at.now (text ping_frame))
          (Keeps-if c _ _ _ (declare_dead-Keeps c i) (send_if_open-Keeps c (text ping_frame))))
        (probe-Keeps c 0 (text ping_frame))

  heartbeat_tick-Keeps :
      (c : Chat R) (at : Moment) (hidden : Bool) → Keeps P (heartbeat_tick r c at hidden) c
  unfolding heartbeat_tick
  heartbeat_tick-Keeps c at hidden = elim (Option-cases c.ws) [
    | inl e ↦ simp (e, heartbeat_tick) (Keeps-refl c)
    | inr (i, e) ↦
        simp (e, heartbeat_tick) (Keeps-if c _ _ _ (beat-Keeps c at hidden i) (Keeps-refl c))
  ]

  onmessage-Keeps : (c : Chat R) (at : Moment) (f : Frame) → Keeps P (onmessage r c at f) c
  unfolding onmessage handle_binary_message
  onmessage-Keeps c at (text line) =
      Keeps-trans _ _ c (handle_text_message-Keeps r k (record c { last_recv_at = at.now }) at line)
        (Keeps-of _ c refl)
  onmessage-Keeps c at (binary bytes) =
      Keeps-trans _ _ c (with_ft-Keeps (record c { last_recv_at = at.now }) _) (Keeps-of _ c refl)

  on_received-Keeps :
      (c : Chat R) (at : Moment) (f : Frame) (o : Option Socket)
      → Keeps P (on_received r c at f o) c
  unfolding on_received
  on_received-Keeps c at f none = Keeps-refl c
  on_received-Keeps c at f (some socket) =
      at_state socket.ready_state c _ c c c (Keeps-refl c)
        (Keeps-if c socket.onmessage _ _ (onmessage-Keeps c at f) (Keeps-refl c)) (Keeps-refl c)
        (Keeps-refl c)

  on_shut-Keeps : (c : Chat R) (i : ℕ) (o : Option Socket) → Keeps P (on_shut r c i o) c
  unfolding on_shut
  on_shut-Keeps c i none = Keeps-refl c
  on_shut-Keeps c i (some socket) =
      at_state socket.ready_state _ _ _ c c gone gone gone (Keeps-refl c)
    where
      d : Chat R
      d = set_ready_state c i closed

      gone : Keeps P (if socket.onclose then handle_disconnect r d lost else d) c
      gone =
          Keeps-if c socket.onclose _ _
            (Keeps-trans _ d c (handle_disconnect-Keeps d lost) (set_ready_state-Keeps c i closed))
            (set_ready_state-Keeps c i closed)

  step-Keeps : (c : Chat R) (e : Event R) → IsKeeping P e → Keeps P (step r c e) c
  unfolding step
  step-Keeps c (joins room nick) h = Keeps-of _ c (connect-rtc c room nick)
  step-Keeps c (sends at line) h = Keeps-of _ c (send_message-rtc c at line)
  step-Keeps c leaves h = leave-Keeps c
  step-Keeps c (transfers f) h = with_ft-Keeps c (f c.ft)
  step-Keeps c (signals f) h = with_rtc-Keeps c (f c.rtc) (h c.rtc)
  step-Keeps c (opened i at) h = Keeps-of _ c (on_opened-rtc c i at (lookup i c.page.sockets))
  step-Keeps c (received i at frame) h = on_received-Keeps c at frame (lookup i c.page.sockets)
  step-Keeps c (shut i) h = on_shut-Keeps c i (lookup i c.page.sockets)
  step-Keeps c (timeout i) h =
      let d = record c { page = record (c.page) { timeouts = without i c.page.timeouts } } in
      Keeps-if c (member i c.page.timeouts) (reconnect d) c
        (Keeps-of (reconnect d) c (reconnect-rtc d)) (Keeps-refl c)
  step-Keeps c (interval i at hidden) h =
      Keeps-if c _ _ c (heartbeat_tick-Keeps c at hidden) (Keeps-refl c)
  step-Keeps c unmounted h = Keeps-of _ c (on_unmounted-rtc c)

  run-Keeps : (es : List (Event R)) (c : Chat R) → All (IsKeeping P) es → Keeps P (run r c es) c
  unfolding run
  run-Keeps [] c h = Keeps-refl c
  run-Keeps (e ∷ es) c h =
      Keeps-trans _ (step r c e) c (run-Keeps es (step r c e) h.1) (step-Keeps c e h.0)

  -- What each call of `useChat` keeps, and each step of the peer connections by themselves, holds at
  -- the end of every run that it holds at the start of.
  pub run_kept :
      (es : List (Event R)) (c : Chat R) → All (IsKeeping P) es → P c.rtc → P (run r c es).rtc
  run_kept es c h = (run-Keeps es c h).kept
