-- ===== src/Chat/Ending.antt =====
-- `leave`, and the hook of `onUnmounted`, in `useChat`.
use chat_serve.Base.{
  ℕ, ◌≡◌, refl, Bool, Dict, false, Option-cases, inl, inr, lookup-insert, sym, subst, ◌∙◌, ap, true,
  false, List, [], ◌∷◌, Option, none, some, arith, nat_eq, lookup, All,
}
use chat_serve.Text.{Text}
use chat_serve.Notice.{lost}
use chat_serve.Chat.State.{
  Chat, disconnected, reconnecting, Frame, Moment, Rtc, Socket, connecting, is_open, closing,
  closed, start_close, with_ft, add_system, clear_reconnect, clear_heartbeat, drop_heartbeat,
  drop_reconnect,
}
use chat_serve.Chat.Connection.{
  leave, drop_socket, send_message, on_unmounted, close_ws, handle_disconnect, clean_up,
  set_reconnect,
}
use chat_serve.Chat.Routing.{with_rtc}
use chat_serve.Chat.Link.{Link, link, link_eq, with_ft-same, with_rtc-same}
use chat_serve.Chat.Timers.{IsTidy, link-drop_timers}
use chat_serve.Chat.Timers.Run.{run_timers}
use chat_serve.Chat.Heartbeat.{IsPending, lookup-change_socket}
use chat_serve.Chat.Heartbeat.Alive.{onmessage_lem}
use chat_serve.Chat.Events.{
  Event, joins, sends, leaves, transfers, signals, opened, received, shut, timeout, interval,
  unmounted, member, step, run, new, on_opened, on_received, on_shut, set_ready_state,
}

-- Nothing is connected, and nothing is pending that could connect.
abbrev pub IsAway : ℕ → Link → Type 0
IsAway n l =
    (l.is_leaving ≡ true)
    × (l.ws ≡ none)
    × (l.timeouts ≡ [])
    × (l.intervals ≡ [])
    × (l.conn_status ≡ disconnected)
    × (l.next_socket ≡ n)

-- Whether a socket is still being opened.
abbrev pub is_opening : Option Socket → Bool
is_opening none = false
is_opening (some s) = elim s.ready_state [ connecting ↦ true | _ ↦ false ]

abbrev pub is_opening_in {ℓ} : {R : Type ℓ} → Chat R → ℕ → Bool
is_opening_in c i = is_opening (lookup i c.page.sockets)

-- An event that is neither a join nor the opening of one of these sockets.
abbrev pub IsIdle {ℓ} : {R : Type ℓ} → (ℕ → Bool) → Event R → Type 0
IsIdle late (joins room nick) = ⊥
IsIdle late (opened i at) = late i ≡ false
IsIdle late _ = Unit

-- The sockets that are still being opened are among these.
unfoldable OpensJust : (ℕ → Bool) → Dict ℕ Socket → Type 0
OpensJust late sockets = (i : ℕ) → is_opening (lookup i sockets) ≡ true → late i ≡ true

module _ {ℓ} {R : Type ℓ} (r : Rtc R) where
  drop_socket-link :
      (d : Chat R)
      → link (drop_socket d) ≡ record (link d) { ws = none; sockets = (drop_socket d).page.sockets }
  unfolding drop_socket
  drop_socket-link d = ground arith

  pub leave-link : (c : Chat R) → IsTidy (link c) → IsAway c.page.next_socket (link (leave r c))
  unfolding leave
  leave-link c h =
      let d = drop_heartbeat (drop_reconnect (record c { is_leaving = true })) in
      let e = link-drop_timers (record c { is_leaving = true }) h in
      let f = drop_socket-link d in
      (
        ap (λ (l : Link). l.is_leaving) f ∙ ap (λ (l : Link). l.is_leaving) e,
        ap (λ (l : Link). l.ws) f,
        ap (λ (l : Link). l.timeouts) f ∙ ap (λ (l : Link). l.timeouts) e,
        ap (λ (l : Link). l.intervals) f ∙ ap (λ (l : Link). l.intervals) e,
        refl,
        ap (λ (l : Link). l.next_socket) f ∙ ap (λ (l : Link). l.next_socket) e,
      )

  send_away : (c : Chat R) (at : Moment) (line : Text) → c.ws ≡ none → send_message c at line ≡ c
  unfolding send_message
  send_away c at line h = rw h refl

  received-IsAway :
      (n i : ℕ) (c : Chat R) (at : Moment) (f : Frame) (s : Option Socket)
      → IsAway n (link c)
      → IsAway n (link (on_received r c at f s))
  unfolding on_received
  received-IsAway n i c at f none h = h
  received-IsAway n i c at f (some s) h = ground (arith, onmessage_lem r c at f)

  shut-IsAway :
      (n i : ℕ) (c : Chat R) (s : Option Socket)
      → IsAway n (link c)
      → IsAway n (link (on_shut r c i s))
  unfolding on_shut handle_disconnect
  shut-IsAway n i c none h = h
  shut-IsAway n i c (some s) h = ground arith

  unmounted-IsAway : (n : ℕ) (c : Chat R) → IsAway n (link c) → IsAway n (link (on_unmounted c))
  unfolding on_unmounted close_ws clear_reconnect clear_heartbeat
  unmounted-IsAway n c h = ground arith

  same-IsAway : (n : ℕ) (d c : Chat R) → link d ≡ link c → IsAway n (link c) → IsAway n (link d)
  same-IsAway n d c e h = subst (IsAway n) (sym e) h

  not_opening :
      (c : Chat R) (i : ℕ) (at : Moment) (s : Option Socket)
      → ¬ (is_opening s ≡ true)
      → on_opened c i at s ≡ c
  unfolding on_opened
  not_opening c i at none h = refl
  not_opening c i at (some s) h = ground arith

  -- A socket that is not being opened does not open.
  opened_idle :
      (late : ℕ → Bool) (c : Chat R) (i : ℕ) (at : Moment)
      → late i ≡ false
      → OpensJust late c.page.sockets
      → on_opened c i at (lookup i c.page.sockets) ≡ c
  unfolding OpensJust
  opened_idle late c i at k o =
      not_opening c i at (lookup i c.page.sockets) λ e. ground (arith, k, o i e)

  step-IsAway :
      (late : ℕ → Bool) (n : ℕ) (c : Chat R) (e : Event R)
      → IsIdle late e
      → OpensJust late c.page.sockets
      → IsAway n (link c)
      → IsAway n (link (step r c e))
  unfolding step OpensJust
  step-IsAway late n c (joins room nick) k o h = absurd k
  step-IsAway late n c (sends at line) k o h =
      same-IsAway n (send_message c at line) c (ap link (send_away c at line h.1)) h
  step-IsAway late n c leaves k o h =
      subst (λ n. IsAway n (link (leave r c))) h.5 (leave-link c (rw h.2 tt, rw h.3 tt))
  step-IsAway late n c (transfers f) k o h =
      same-IsAway n (with_ft c (f c.ft)) c (link_eq _ _ (with_ft-same c (f c.ft))) h
  step-IsAway late n c (signals f) k o h =
      same-IsAway n (with_rtc c (f c.rtc)) c (link_eq _ _ (with_rtc-same c (f c.rtc))) h
  step-IsAway late n c (opened i at) k o h =
      subst (λ d. IsAway n (link d)) (sym (opened_idle late c i at k o)) h
  step-IsAway late n c (received i at frame) k o h = received-IsAway n i c at frame _ h
  step-IsAway late n c (shut i) k o h = shut-IsAway n i c _ h
  step-IsAway late n c (timeout i) k o h = rw (ap (member i) h.2) h
  step-IsAway late n c (interval i at hidden) k o h = rw (ap (member i) h.3) h
  step-IsAway late n c unmounted k o h = unmounted-IsAway n c h

  leave_sockets : (c : Chat R) → c.ws ≡ none → (leave r c).page.sockets ≡ c.page.sockets
  unfolding leave drop_socket drop_heartbeat drop_reconnect clear_heartbeat clear_reconnect
  leave_sockets c h = ground arith

  unmounted_sockets : (c : Chat R) → c.ws ≡ none → (on_unmounted c).page.sockets ≡ c.page.sockets
  unfolding on_unmounted close_ws clear_heartbeat clear_reconnect
  unmounted_sockets c h = ground arith

  received_sockets :
      (c : Chat R) (at : Moment) (f : Frame) (s : Option Socket)
      → (on_received r c at f s).page.sockets ≡ c.page.sockets
  unfolding on_received
  received_sockets c at f none = refl
  received_sockets c at f (some s) =
      let e = ap (λ (l : Link). l.sockets) (onmessage_lem r c at f) in ground arith

  closed-OpensJust :
      (late : ℕ → Bool) (c : Chat R) (i : ℕ)
      → OpensJust late c.page.sockets
      → OpensJust late (set_ready_state c i closed).page.sockets
  unfolding OpensJust
  closed-OpensJust late c i o j e = elim (Option-cases (lookup i c.page.sockets)) [
    | inl f ↦ ground (arith, e, f, o j)
    | inr (s, f) ↦
        ground
          (arith, e, f, o j, lookup-insert i j (record s { ready_state = closed }) c.page.sockets)
  ]

  shut-OpensJust :
      (late : ℕ → Bool) (c : Chat R) (i : ℕ) (s : Option Socket)
      → c.is_leaving ≡ true
      → OpensJust late c.page.sockets
      → OpensJust late (on_shut r c i s).page.sockets
  unfolding on_shut handle_disconnect
  shut-OpensJust late c i none h o = o
  shut-OpensJust late c i (some s) h o = let k = closed-OpensJust late c i o in ground arith

  step-OpensJust :
      (late : ℕ → Bool) (n : ℕ) (c : Chat R) (e : Event R)
      → IsIdle late e
      → OpensJust late c.page.sockets
      → IsAway n (link c)
      → OpensJust late (step r c e).page.sockets
  unfolding step
  step-OpensJust late n c (joins room nick) k o h = absurd k
  step-OpensJust late n c (sends at line) k o h = rw (send_away c at line h.1) o
  step-OpensJust late n c leaves k o h = rw (leave_sockets c h.1) o
  step-OpensJust late n c (transfers f) k o h =
      subst (λ (l : Link). OpensJust late l.sockets) (sym (link_eq _ _ (with_ft-same c (f c.ft)))) o
  step-OpensJust late n c (signals f) k o h =
      subst (λ (l : Link). OpensJust late l.sockets) (sym (link_eq _ _ (with_rtc-same c (f c.rtc))))
        o
  step-OpensJust late n c (opened i at) k o h = rw (opened_idle late c i at k o) o
  step-OpensJust late n c (received i at frame) k o h =
      rw (received_sockets c at frame (lookup i c.page.sockets)) o
  step-OpensJust late n c (shut i) k o h = shut-OpensJust late c i _ h.0 o
  step-OpensJust late n c (timeout i) k o h = rw (ap (member i) h.2) o
  step-OpensJust late n c (interval i at hidden) k o h = rw (ap (member i) h.3) o
  step-OpensJust late n c unmounted k o h = rw (unmounted_sockets c h.1) o

  run-IsAway :
      (late : ℕ → Bool) (n : ℕ) (es : List (Event R)) (c : Chat R)
      → All (IsIdle late) es
      → OpensJust late c.page.sockets
      → IsAway n (link c)
      → IsAway n (link (run r c es))
  unfolding run
  run-IsAway late n [] c k o h = h
  run-IsAway late n (e ∷ es) c k o h =
      run-IsAway late n es (step r c e) k.1 (step-OpensJust late n c e k.0 o h)
        (step-IsAway late n c e k.0 o h)

  -- Whatever has happened since the page started, and whatever follows once the user has left, except
  -- that the user joins again or that a socket opens which is still being opened when the leaving is
  -- done: `ws` stays null, no timer is pending, the user counts as leaving, the status stays
  -- disconnected, and no socket is made.
  pub leave_final :
      (rtc : R) (es fs : List (Event R))
      → All (IsIdle (is_opening_in (leave r (run r (new rtc) es)))) fs
      → let c = run r (new rtc) es in IsAway c.page.next_socket (link (run r (leave r c) fs))
  unfolding OpensJust
  leave_final rtc es fs h =
      let c = run r (new rtc) es in
      run-IsAway _ c.page.next_socket fs (leave r c) h (λ i e. e)
        (leave-link c (run_timers r rtc es))

  disconnect-IsPending :
      (c : Chat R)
      → c.is_leaving ≡ false
      → let d = handle_disconnect r c lost in
        (d.conn_status ≡ reconnecting) × IsPending d.reconnect_timer d.page.timeouts
  unfolding handle_disconnect clean_up set_reconnect clear_reconnect drop_heartbeat clear_heartbeat
      add_system
  disconnect-IsPending c h = ground arith

  clear_timers_lem :
      (c : Chat R)
      → let d = clear_heartbeat (clear_reconnect c) in
        (d.ws ≡ c.ws) × (d.page.sockets ≡ c.page.sockets) × (d.is_leaving ≡ c.is_leaving)
  unfolding clear_heartbeat clear_reconnect
  clear_timers_lem c = ground arith

  close_ws_lem :
      (c : Chat R) (i : ℕ) (s : Socket)
      → c.ws ≡ some i
      → lookup i c.page.sockets ≡ some s
      → (lookup i (close_ws c).page.sockets ≡ some (start_close s))
        × ((close_ws c).is_leaving ≡ c.is_leaving)
  unfolding close_ws
  close_ws_lem c i s w e =
      (rw (w, close_ws) (lookup-change_socket c.page i start_close s e), rw (w, close_ws) refl)

  shut_lem :
      (c : Chat R) (i : ℕ) (s : Socket)
      → s.ready_state ≡ closing
      → s.onclose ≡ true
      → on_shut r c i (some s) ≡ handle_disconnect r (set_ready_state c i closed) lost
  unfolding on_shut
  shut_lem c i s e o = rw (e, on_shut, o) refl

  -- The component goes while its socket is open and it is not leaving: as the hook closes the socket
  -- with its handler still on, the close that follows announces a lost connection and sets a
  -- reconnection, in a component that is gone.
  pub unmounted_reconnects :
      (c : Chat R) (i : ℕ) (s : Socket)
      → c.ws ≡ some i
      → lookup i c.page.sockets ≡ some s
      → s.ready_state ≡ is_open
      → s.onclose ≡ true
      → c.is_leaving ≡ false
      → let d = step r (step r c unmounted) (shut i) in
        (d.conn_status ≡ reconnecting) × IsPending d.reconnect_timer d.page.timeouts
  unfolding step on_unmounted start_close
  unmounted_reconnects c i s w e o l n =
      let (bw, bs, bl) = clear_timers_lem c in
      let b = clear_heartbeat (clear_reconnect c) in
      let (ls, ll) = close_ws_lem b i s (bw ∙ w) (ap (lookup i) bs ∙ e) in
      rw ls (
        subst (λ d. (d.conn_status ≡ reconnecting) × IsPending d.reconnect_timer d.page.timeouts)
          (sym (
            shut_lem (close_ws b) i (start_close s)
              (ap (λ q. (start_close (record s { ready_state = q })).ready_state) o) l))
          (disconnect-IsPending (set_ready_state (close_ws b) i closed) (ll ∙ bl ∙ n)))
