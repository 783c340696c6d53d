-- ===== src/Chat/Link.antt =====
-- The part of the state of `useChat` that holds the connection: socket, timers and status.
use chat_serve.Base.{
  ℕ, ◌≡◌, refl, ◌∙◌, Bool, true, false, List, [], ◌∷◌, Option, if◌then◌else◌, arith, Dict,
  Option-cases, inl, inr, list_eq, nat_eq,
}
use chat_serve.Text.{Text, index_of_from}
use chat_serve.Notice.{Notice, left, came}
use chat_serve.Transfer.Frame.{Bytes}
use chat_serve.Transfer.State.{Effect, Transfer}
use chat_serve.Chat.State.{
  Chat, Status, Socket, Member, Moment, Rtc, perform, perform_all, with_ft, add_system,
}
use chat_serve.Chat.Routing.{
  on_ok, on_msg, on_sys, on_leave, on_join, on_signal, say_member, with_rtc, handle_file_message,
  handle_signal, handle_text_message, handle_binary_message,
}

pub record Link : Type 0 where
  pub reconnect_timer : Option ℕ
  pub heartbeat_timer : Option ℕ
  pub timeouts : List ℕ
  pub intervals : List ℕ
  pub ws : Option ℕ
  pub sockets : Dict ℕ Socket
  pub next_socket : ℕ
  pub is_leaving : Bool
  pub conn_status : Status
  pub my_room : Text
  pub my_nick : Text
  pub last_recv_at : ℕ
  pub probed_at : ℕ

abbrev pub link {ℓ} : {R : Type ℓ} → Chat R → Link
link c = record {
  reconnect_timer = c.reconnect_timer;
  heartbeat_timer = c.heartbeat_timer;
  timeouts = c.page.timeouts;
  intervals = c.page.intervals;
  ws = c.ws;
  sockets = c.page.sockets;
  next_socket = c.page.next_socket;
  is_leaving = c.is_leaving;
  conn_status = c.conn_status;
  my_room = c.my_room;
  my_nick = c.my_nick;
  last_recv_at = c.last_recv_at;
  probed_at = c.probed_at;
}

-- Two states with one connection.
pub SameLink {ℓ} : {R : Type ℓ} → Chat R → Chat R → Type 0
SameLink d c = link d ≡ link c

module _ {ℓ} {R : Type ℓ} where
  pub link_eq : (d c : Chat R) → SameLink d c → link d ≡ link c
  unfolding SameLink
  link_eq d c h = h

  same : (d c : Chat R) → link d ≡ link c → SameLink d c
  unfolding SameLink
  same d c h = h

  same_refl : (c : Chat R) → SameLink c c
  unfolding SameLink
  same_refl c = refl

  same_trans : (e d c : Chat R) → SameLink e d → SameLink d c → SameLink e c
  unfolding SameLink
  same_trans e d c h k = h ∙ k

  -- What holds in both branches holds of the whole.
  same_if :
      (c : Chat R) (b : Bool) (x y : Chat R)
      → SameLink x c
      → SameLink y c
      → SameLink (if b then x else y) c
  same_if c true x y h k = h
  same_if c false x y h k = k

  perform-same : (c : Chat R) (e : Effect) → SameLink (perform c e) c
  unfolding perform SameLink
  perform-same c e = ground arith

  perform_all-same : (es : List Effect) (c : Chat R) → SameLink (perform_all c es) c
  unfolding perform_all
  perform_all-same [] c = same_refl c
  perform_all-same (e ∷ es) c =
      same_trans _ (perform c e) c (perform_all-same es (perform c e)) (perform-same c e)

  pub with_ft-same : (c : Chat R) (s : Transfer × List Effect) → SameLink (with_ft c s) c
  unfolding with_ft SameLink
  with_ft-same c (ft, es) = perform_all-same es (record c { ft = ft })

  pub with_rtc-same : (c : Chat R) (s : R × List Effect) → SameLink (with_rtc c s) c
  unfolding with_rtc SameLink
  with_rtc-same c (rtc, es) = perform_all-same es (record c { rtc = rtc })

  on_ok-same : (c : Chat R) (parts : List Text) → SameLink (on_ok c parts) c
  unfolding on_ok SameLink
  on_ok-same c parts = ground arith

  on_msg-same : (c : Chat R) (at : Moment) (rest : Text) → SameLink (on_msg c at rest) c
  unfolding on_msg SameLink
  on_msg-same c at rest = ground arith

  add_system-same : (c : Chat R) (n : Notice) → SameLink (add_system c n) c
  unfolding add_system SameLink
  add_system-same c n = refl

  on_sys-same : (c : Chat R) (line : Text) → SameLink (on_sys c line) c
  unfolding on_sys
  on_sys-same c line = search (same_if, add_system-same)

  say_member-same : (c : Chat R) (i : Text) (n : Text → Notice) → SameLink (say_member c i n) c
  unfolding say_member SameLink
  say_member-same c i n = ground arith

  on_signal-same :
      (data' : Text) (from : ℕ) (use' : Text → Text → Chat R) (c : Chat R)
      → ((x y : Text) → SameLink (use' x y) c)
      → SameLink (on_signal data' from use' c) c
  unfolding on_signal
  on_signal-same data' from use' c h = elim (Option-cases (index_of_from b'|' data' from)) [
    | inl e ↦ rw (e, on_signal) (same_refl c)
    | inr (i, e) ↦ rw (e, on_signal) (search (same_if, same_refl, h))
  ]

  set_ft-same : (c : Chat R) (ft : Transfer) → SameLink (record c { ft = ft }) c
  unfolding SameLink
  set_ft-same c ft = refl

  set_rtc-same : (c : Chat R) (rtc : R) → SameLink (record c { rtc = rtc }) c
  unfolding SameLink
  set_rtc-same c rtc = refl

  set_members-same : (c : Chat R) (ms : List Member) → SameLink (record c { member_list = ms }) c
  unfolding SameLink
  set_members-same c ms = refl

ruleset message_rules = (
  same_if, same_refl, with_ft-same, with_rtc-same, set_ft-same, set_rtc-same, set_members-same,
  on_signal-same, on_ok-same, on_msg-same, on_sys-same,
)

module _ {ℓ} {R : Type ℓ} where
  handle_file_message-same :
      (c : Chat R) (at : Moment) (data' : Text) → SameLink (handle_file_message c at data') c
  unfolding handle_file_message
  handle_file_message-same c at data' = search message_rules depth 20

  pub handle_binary_message-same : (c : Chat R) (b : Bytes) → SameLink (handle_binary_message c b) c
  unfolding handle_binary_message
  handle_binary_message-same c b = with_ft-same c _

module _ {ℓ} {R : Type ℓ} (r : Rtc R) where
  handle_signal-same :
      (c : Chat R) (at : Moment) (data' : Text) → SameLink (handle_signal r c at data') c
  unfolding handle_signal
  handle_signal-same c at data' = search (message_rules, handle_file_message-same) depth 20

  on_leave-same : (c : Chat R) (i : Text) → SameLink (on_leave r c i) c
  unfolding on_leave SameLink
  on_leave-same c i = say_member-same c i left

  on_join-same : (c : Chat R) (i : Text) → SameLink (on_join r c i) c
  unfolding on_join
  on_join-same c i =
      same_trans _ (say_member c i came) c (with_rtc-same (say_member c i came) _)
        (say_member-same c i came)

  -- Whatever text the server sends, the sockets, `ws`, the timers, the status, the room and the
  -- nickname, and the two times of the heartbeat stay as they are.
  pub handle_text_message-same :
      (c : Chat R) (at : Moment) (data' : Text) → SameLink (handle_text_message r c at data') c
  unfolding handle_text_message
  handle_text_message-same c at data' =
      search (message_rules, handle_signal-same, on_leave-same, on_join-same) depth 20
