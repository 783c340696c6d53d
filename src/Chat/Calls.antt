-- ===== src/Chat/Calls.antt =====
-- `useChat` and the state of `useWebRTC`: what the steps do to it.
pub mod Messages
pub mod Run
use chat_serve.Base.{
  ℕ, ◌≡◌, refl, sym, subst, ◌∙◌, Bool, true, false, List, [], ◌∷◌, Option, none, some,
  if◌then◌else◌, arith, Option-cases, inl, inr, list_eq, nat_eq, lookup,
}
use chat_serve.Text.{Text, index_of_from}
use chat_serve.Notice.{Notice, left, came, lost}
use chat_serve.Transfer.Frame.{Bytes}
use chat_serve.Transfer.State.{Effect, Transfer}
use chat_serve.Chat.State.{
  Chat, Socket, ReadyState, connecting, is_open, closing, closed, Frame, text, binary, Member,
  Moment, nick_of, Rtc, perform, perform_all, with_ft, send_if_open, add_system, add_chat,
  clear_reconnect, clear_heartbeat, drop_reconnect, drop_heartbeat,
}
use chat_serve.Chat.Connection.{
  connect, onopen, start_heartbeat, set_heartbeat, set_reconnect, close_ws, clean_up, send_message,
  reconnect, handle_disconnect, heartbeat_tick, beat, declare_dead, leave, drop_socket,
  on_unmounted,
}
use chat_serve.Chat.Routing.{
  on_ok, on_msg, on_sys, on_leave, on_join, on_signal, say_member, with_rtc, handle_file_message,
  handle_signal, handle_text_message, handle_binary_message,
}
use chat_serve.Chat.Events.{
  Event, joins, sends, leaves, transfers, signals, opened, received, shut, timeout, interval,
  unmounted, step, run, on_opened, on_received, on_shut, onmessage, set_ready_state,
}

-- What each operation that `useChat` calls keeps.
pub record IsKept {ℓ} {R : Type ℓ} (r : Rtc R) (P : R → Type 0) : Type ℓ where
  pub close_peer : (x : R) (peer_id : Text) → P x → P (r.close_peer x peer_id)
  pub hangup_all : (x : R) → P x → P (r.hangup_all x)
  pub connect_to :
      (my_id : Text) (ms : List Member) (x : R) (peer_id : Text)
      → P x
      → P (r.connect_to my_id ms x peer_id).0
  pub handle_offer : (x : R) (from nick sdp : Text) → P x → P (r.handle_offer x from nick sdp).0
  pub handle_answer : (x : R) (from sdp : Text) → P x → P (r.handle_answer x from sdp).0
  pub handle_ice : (x : R) (from candidate : Text) → P x → P (r.handle_ice x from candidate).0
  pub handle_media : (x : R) (from kind state : Text) → P x → P (r.handle_media x from kind state)

module _ {ℓ} {R : Type ℓ} where
  perform-rtc : (c : Chat R) (e : Effect) → (perform c e).rtc ≡ c.rtc
  unfolding perform
  perform-rtc c e = ground arith

  perform_all-rtc : (es : List Effect) (c : Chat R) → (perform_all c es).rtc ≡ c.rtc
  unfolding perform_all
  perform_all-rtc [] c = refl
  perform_all-rtc (e ∷ es) c = perform_all-rtc es (perform c e) ∙ perform-rtc c e

  with_ft-rtc : (c : Chat R) (s : Transfer × List Effect) → (with_ft c s).rtc ≡ c.rtc
  unfolding with_ft
  with_ft-rtc c (ft, es) = perform_all-rtc es (record c { ft = ft })

  pub with_rtc-rtc : (c : Chat R) (s : R × List Effect) → (with_rtc c s).rtc ≡ s.0
  unfolding with_rtc
  with_rtc-rtc c (rtc, es) = perform_all-rtc es (record c { rtc = rtc })

  pub clear_reconnect-rtc : (c : Chat R) → (clear_reconnect c).rtc ≡ c.rtc
  unfolding clear_reconnect
  clear_reconnect-rtc c = ground arith

  pub drop_reconnect-rtc : (c : Chat R) → (drop_reconnect c).rtc ≡ c.rtc
  unfolding drop_reconnect
  drop_reconnect-rtc c = clear_reconnect-rtc c

  clear_heartbeat-rtc : (c : Chat R) → (clear_heartbeat c).rtc ≡ c.rtc
  unfolding clear_heartbeat
  clear_heartbeat-rtc c = ground arith

  pub drop_heartbeat-rtc : (c : Chat R) → (drop_heartbeat c).rtc ≡ c.rtc
  unfolding drop_heartbeat
  drop_heartbeat-rtc c = clear_heartbeat-rtc c

  pub connect-rtc : (c : Chat R) (room nick : Text) → (connect c room nick).rtc ≡ c.rtc
  unfolding connect
  connect-rtc c room nick = drop_heartbeat-rtc (drop_reconnect c) ∙ drop_reconnect-rtc c

  pub send_message-rtc :
      (c : Chat R) (at : Moment) (line : Text) → (send_message c at line).rtc ≡ c.rtc
  unfolding send_message add_chat
  send_message-rtc c at line = ground arith

  onopen-rtc : (c : Chat R) (at : Moment) (room nick : Text) → (onopen c at room nick).rtc ≡ c.rtc
  unfolding onopen start_heartbeat set_heartbeat clear_heartbeat
  onopen-rtc c at room nick = ground arith

  pub on_opened-rtc :
      (c : Chat R) (i : ℕ) (at : Moment) (o : Option Socket) → (on_opened c i at o).rtc ≡ c.rtc
  unfolding on_opened onopen start_heartbeat set_heartbeat clear_heartbeat
  on_opened-rtc c i at none = refl
  on_opened-rtc c i at (some socket) = ground arith

  pub reconnect-rtc : (c : Chat R) → (reconnect c).rtc ≡ c.rtc
  unfolding reconnect
  reconnect-rtc c = ground (arith, connect-rtc c c.my_room c.my_nick)

  pub drop_socket-rtc : (c : Chat R) → (drop_socket c).rtc ≡ c.rtc
  unfolding drop_socket
  drop_socket-rtc c = ground arith

  pub on_unmounted-rtc : (c : Chat R) → (on_unmounted c).rtc ≡ c.rtc
  unfolding on_unmounted close_ws clear_heartbeat clear_reconnect
  on_unmounted-rtc c = ground arith

  pub send_if_open-rtc : (c : Chat R) (f : Frame) → (send_if_open c f).rtc ≡ c.rtc
  unfolding send_if_open
  send_if_open-rtc c f = ground arith

  on_ok-rtc : (c : Chat R) (parts : List Text) → (on_ok c parts).rtc ≡ c.rtc
  unfolding on_ok
  on_ok-rtc c parts = ground arith

  on_msg-rtc : (c : Chat R) (at : Moment) (rest : Text) → (on_msg c at rest).rtc ≡ c.rtc
  unfolding on_msg
  on_msg-rtc c at rest = ground arith

  on_sys-rtc : (c : Chat R) (line : Text) → (on_sys c line).rtc ≡ c.rtc
  unfolding on_sys add_system
  on_sys-rtc c line = ground arith

  pub say_member-rtc : (c : Chat R) (i : Text) (n : Text → Notice) → (say_member c i n).rtc ≡ c.rtc
  unfolding say_member
  say_member-rtc c i n = ground arith

-- A step that keeps what `P` says of the state of `useWebRTC`.
pub record Keeps {ℓ} {R : Type ℓ} (P : R → Type 0) (d c : Chat R) : Type 0 where
  pub kept : P c.rtc → P d.rtc

module _ {ℓ} {R : Type ℓ} {P : R → Type 0} where
  pub Keeps-of : (d c : Chat R) → d.rtc ≡ c.rtc → Keeps P d c
  Keeps-of d c e = record { kept = subst P (sym e) }

  pub Keeps-refl : (c : Chat R) → Keeps P c c
  Keeps-refl c = record { kept = λ h. h }

  pub Keeps-trans : (e d c : Chat R) → Keeps P e d → Keeps P d c → Keeps P e c
  Keeps-trans e d c h k = record { kept = λ q. h.kept (k.kept q) }

  pub Keeps-if :
      (c : Chat R) (b : Bool) (x y : Chat R)
      → Keeps P x c
      → Keeps P y c
      → Keeps P (if b then x else y) c
  Keeps-if c true x y h k = h
  Keeps-if c false x y h k = k

  pub with_ft-Keeps : (c : Chat R) (s : Transfer × List Effect) → Keeps P (with_ft c s) c
  with_ft-Keeps c s = Keeps-of _ c (with_ft-rtc c s)

  pub with_rtc-Keeps :
      (c : Chat R) (s : R × List Effect) → (P c.rtc → P s.0) → Keeps P (with_rtc c s) c
  with_rtc-Keeps c s h = record { kept = λ q. subst P (sym (with_rtc-rtc c s)) (h q) }

  pub set_ft-Keeps : (c : Chat R) (ft : Transfer) → Keeps P (record c { ft = ft }) c
  set_ft-Keeps c ft = Keeps-of _ c refl

  pub set_rtc-Keeps : (c : Chat R) (x : R) → (P c.rtc → P x) → Keeps P (record c { rtc = x }) c
  set_rtc-Keeps c x h = record { kept = h }

  pub set_members-Keeps :
      (c : Chat R) (ms : List Member) → Keeps P (record c { member_list = ms }) c
  set_members-Keeps c ms = Keeps-of _ c refl

  pub on_ok-Keeps : (c : Chat R) (parts : List Text) → Keeps P (on_ok c parts) c
  on_ok-Keeps c parts = Keeps-of _ c (on_ok-rtc c parts)

  pub on_msg-Keeps : (c : Chat R) (at : Moment) (rest : Text) → Keeps P (on_msg c at rest) c
  on_msg-Keeps c at rest = Keeps-of _ c (on_msg-rtc c at rest)

  pub on_sys-Keeps : (c : Chat R) (line : Text) → Keeps P (on_sys c line) c
  on_sys-Keeps c line = Keeps-of _ c (on_sys-rtc c line)

  pub on_signal-Keeps :
      (data' : Text) (from : ℕ) (use' : Text → Text → Chat R) (c : Chat R)
      → ((x y : Text) → Keeps P (use' x y) c)
      → Keeps P (on_signal data' from use' c) c
  unfolding on_signal
  on_signal-Keeps data' from use' c h = elim (Option-cases (index_of_from b'|' data' from)) [
    | inl e ↦ rw (e, on_signal) (Keeps-refl c)
    | inr (i, e) ↦ rw (e, on_signal) (search (Keeps-if, Keeps-refl, h))
  ]
