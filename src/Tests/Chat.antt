-- ===== src/Tests/Chat.antt =====
-- A client in a room, with the theorems on the chat at its states.
use chat_serve.Base.{
  ℕ, ◌≡◌, ◌*◌, refl, inl, inr, false, true, List, [], ◌∷◌, some, arith, list_eq, nat_eq, lookup,
  insert,
}
use chat_serve.Text.{lit}
use chat_serve.Chat.State.{
  disconnected, Chat, Moment, Rtc, Socket, Member, is_open, reconnecting, connected, text,
  start_close, clear_heartbeat, clear_reconnect, drop_heartbeat, drop_reconnect, add_system,
}
use chat_serve.Chat.Connection.{
  leave, drop_socket, onopen, start_heartbeat, set_heartbeat, connect, open_socket,
  handle_disconnect, set_reconnect, clean_up, reconnect,
}
use chat_serve.Chat.Events.{
  leaves, Event, joins, sends, opened, received, shut, timeout, interval, unmounted, run, step, new,
  empty_page, on_opened, on_shut,
}
use chat_serve.Chat.Link.{link}
use chat_serve.Chat.Timers.{IsTidy}
use chat_serve.Chat.Timers.Run.{run_timers}
use chat_serve.Chat.Heartbeat.{IsWatched, IsGivenUp, IsPending, ticks, silent_link-IsGivenUp}
use chat_serve.Chat.Heartbeat.Alive.{at_rest, live_link_kept}
use chat_serve.Chat.Ending.{IsAway, leave_final, unmounted_reconnects}
use chat_serve.Chat.Rejoin.{rejoin_not_retried}

-- Peer connections that do nothing.
abbrev pub no_rtc : Rtc ℕ
no_rtc = record {
  close_peer = λ r p. r;
  hangup_all = λ r. r;
  connect_to = λ i ms r p. (r, []);
  handle_offer = λ r f n sdp. (r, []);
  handle_answer = λ r f sdp. (r, []);
  handle_ice = λ r f c. (r, []);
  handle_media = λ r f k s. r;
}

abbrev pub at : ℕ → Moment
at seconds = record {
  now = seconds * 1000000;
  clock = record { hours = 12; minutes = 0 };
  locale_time = lit "12:00";
}

abbrev socket : Socket
socket = record {
  ready_state = is_open;
  room = lit "r";
  nick = lit "ann";
  onmessage = true;
  onclose = true;
}

-- What `ann` has after her socket 0 opened.
abbrev pub in_room : Chat ℕ
in_room = record (new 0) {
  conn_status = connected;
  my_room = lit "r";
  my_nick = lit "ann";
  my_id = lit "4";
  ws = some 0;
  heartbeat_timer = some 0;
  last_recv_at = 1000000;
  member_list = record { id = lit "5"; nick = lit "bob" } ∷ [];
  page = record empty_page {
    sockets = (0, socket) ∷ [];
    next_socket = 1;
    intervals = 0 ∷ [];
    next_timer = 1;
  };
}

abbrev session_events : List (Event ℕ)
session_events =
    joins (lit "r") (lit "ann") ∷ opened 0 (at 1) ∷ shut 0 ∷ timeout 1 ∷ opened 1 (at 9) ∷ []

run_timers_example : IsTidy (link (run no_rtc (new 0) session_events))
run_timers_example = run_timers no_rtc 0 session_events

-- The socket that was closed opens no more, and its close comes.
abbrev late_events : List (Event ℕ)
late_events = opened 1 (at 10) ∷ shut 1 ∷ timeout 1 ∷ interval 2 (at 30) false ∷ []

leave_final_example :
    let c = run no_rtc (new 0) session_events in
    IsAway c.page.next_socket (link (run no_rtc (leave no_rtc c) late_events))
unfolding run step leave drop_socket start_close on_opened onopen start_heartbeat set_heartbeat
    clear_heartbeat clear_reconnect drop_heartbeat drop_reconnect connect open_socket on_shut
    handle_disconnect set_reconnect clean_up add_system new lookup insert reconnect
leave_final_example = leave_final no_rtc 0 session_events late_events (refl, (tt, (tt, (tt, tt))))

-- Two joins, of which the first opens only when the user has left: its close sets a reconnection.
late_socket :
    let c = run no_rtc (new 0) (
      joins (lit "r") (lit "ann")
      ∷ joins (lit "r") (lit "ann")
      ∷ opened 1 (at 1)
      ∷ leaves
      ∷ opened 0 (at 2)
      ∷ shut 0
      ∷ []) in
    (c.conn_status ≡ reconnecting) × (c.page.timeouts ≡ 1 ∷ [])
unfolding run step leave drop_socket start_close on_opened onopen start_heartbeat set_heartbeat
    clear_heartbeat clear_reconnect drop_heartbeat drop_reconnect connect open_socket on_shut
    handle_disconnect set_reconnect clean_up add_system new lookup insert
late_socket = (refl, refl)

-- Two joins, of which the second closes and then the first opens: `send` on the closed socket drops the
-- frame, and the heartbeat is set.
dropped_join :
    let c =
      run no_rtc (new 0) (
        joins (lit "r") (lit "ann")
        ∷ joins (lit "r") (lit "ann")
        ∷ shut 1
        ∷ opened 0 (at 2)
        ∷ []) in
    (c.heartbeat_timer ≡ some 1) × (c.page.intervals ≡ 1 ∷ []) × (c.page.sent ≡ [])
unfolding run step on_opened onopen start_heartbeat set_heartbeat clear_heartbeat clear_reconnect
    drop_heartbeat drop_reconnect connect open_socket on_shut handle_disconnect set_reconnect
    clean_up add_system new lookup insert
dropped_join = (refl, refl, refl)

watched : IsWatched (link in_room) 0 0 socket
unfolding lookup new
watched = record { ws = refl; socket = refl; ready_state = refl; onmessage = refl; timer = refl }

silent_link-IsGivenUp_example :
    IsGivenUp
      (link (
        step no_rtc
          (run no_rtc (step no_rtc in_room (interval 0 (at 121) false)) (ticks 0 []))
          (interval 0 (at 151) false)))
      0
      socket
unfolding new
silent_link-IsGivenUp_example =
    silent_link-IsGivenUp no_rtc in_room 0 0 socket (at 121) (at 151) [] watched refl refl
      (omega arith) (omega arith) tt (omega arith)

abbrev busy_events : List (Event ℕ)
busy_events =
    interval 0 (at 31) false
    ∷ received 0 (at 60) (text (lit "MSG|5|hi"))
    ∷ sends (at 62) (lit "hello")
    ∷ interval 0 (at 121) false
    ∷ interval 0 (at 999) true
    ∷ []

live_link_kept_example : at_rest (link (run no_rtc in_room busy_events)) ≡ at_rest (link in_room)
unfolding new
live_link_kept_example =
    live_link_kept no_rtc busy_events in_room 0 0 socket watched
      (refl, inr (omega arith), (refl, (refl, inr (omega arith), (refl, inl refl, tt))))

unmounted_reconnects_example :
    let d = step no_rtc (step no_rtc in_room unmounted) (shut 0) in
    (d.conn_status ≡ reconnecting) × IsPending d.reconnect_timer d.page.timeouts
unfolding lookup new
unmounted_reconnects_example = unmounted_reconnects no_rtc in_room 0 socket refl refl refl refl refl

abbrev ann : Member
ann = record { id = lit "4"; nick = lit "ann:x" }

abbrev bob : Member
bob = record { id = lit "5"; nick = lit "bob" }

rejoin_not_retried_example :
    let d =
      step no_rtc
        (step no_rtc (step no_rtc in_room leaves) (joins (lit "r") (lit "ann")))
        (shut 1) in
    (d.conn_status ≡ disconnected) × (d.page.timeouts ≡ []) × (d.is_leaving ≡ true)
unfolding new
rejoin_not_retried_example = rejoin_not_retried no_rtc in_room (lit "r") (lit "ann") (tt, refl)
