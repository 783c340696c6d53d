-- ===== src/WebRtc/Session.antt =====
-- `useChat` with `useWebRTC`: the runs of both.
use chat_serve.Base.{ℕ, ◌≡◌, sym, subst, List, [], ◌∷◌, none, All, nat_eq, list_eq}
use chat_serve.Chat.Connection.{leave}
use chat_serve.Chat.Events.{Event, signals, new, run}
use chat_serve.Chat.Calls.{IsKept}
use chat_serve.Chat.Calls.Run.{IsKeeping, run_kept, leave-rtc}
use chat_serve.WebRtc.State.{Calls, Platform, new_calls}
use chat_serve.WebRtc.Events.{CallEvent, act, web_rtc}
use chat_serve.WebRtc.Pairs.{owner, IsPaired, close_peer-IsPaired}
use chat_serve.WebRtc.Pairs.Same.{same-IsPaired, handle_media-same}
use chat_serve.WebRtc.Pairs.Signals.{
  connect_to-IsPaired, handle_offer-IsPaired, handle_answer-IsPaired, handle_ice-IsPaired,
}
use chat_serve.WebRtc.Pairs.Run.{act-IsPaired, hangup_all-IsPaired, new_calls-IsPaired}
use chat_serve.WebRtc.Hangup.{hangup_all_closes}

-- A step of the peer connections in a run of the chat is one of the events of `useWebRTC`.
abbrev pub IsCallEvent : Platform → Event Calls → Type 0
IsCallEvent p (signals f) = (e : CallEvent) × ((c : Calls) → f c ≡ act p c e)
IsCallEvent p _ = Unit

module _ (p : Platform) where
  web_rtc-IsKept : IsKept (web_rtc p) IsPaired
  unfolding web_rtc
  web_rtc-IsKept = record {
    close_peer = close_peer-IsPaired;
    hangup_all = hangup_all-IsPaired;
    connect_to = λ my_id ms c k. connect_to-IsPaired my_id ms c k;
    handle_offer = handle_offer-IsPaired p;
    handle_answer = handle_answer-IsPaired p;
    handle_ice = handle_ice-IsPaired p;
    handle_media = λ c from kind state. same-IsPaired _ c (handle_media-same c from kind state);
  }

  call-IsKeeping : (e : Event Calls) → IsCallEvent p e → IsKeeping IsPaired e
  call-IsKeeping (signals f) (e, h) =
      λ c q. subst (λ x. IsPaired x.0) (sym (h c)) (act-IsPaired p c e q)
  call-IsKeeping (Event.joins _ _) h = tt
  call-IsKeeping (Event.sends _ _) h = tt
  call-IsKeeping Event.leaves h = tt
  call-IsKeeping (Event.transfers _) h = tt
  call-IsKeeping (Event.opened _ _) h = tt
  call-IsKeeping (Event.received _ _ _) h = tt
  call-IsKeeping (Event.shut _) h = tt
  call-IsKeeping (Event.timeout _) h = tt
  call-IsKeeping (Event.interval _ _ _) h = tt
  call-IsKeeping Event.unmounted h = tt

  calls-IsKeeping : (es : List (Event Calls)) → All (IsCallEvent p) es → All (IsKeeping IsPaired) es
  calls-IsKeeping [] h = tt
  calls-IsKeeping (e ∷ es) (h, k) = (call-IsKeeping e h, calls-IsKeeping es k)

  -- In every run of the chat whose steps of the peer connections are events of `useWebRTC`: each
  -- open connection is the one that the peer has that its handlers are for, and each connection of a
  -- peer is open and has handlers for that peer.
  pub run-IsPaired :
      (es : List (Event Calls))
      → All (IsCallEvent p) es
      → IsPaired (run (web_rtc p) (new new_calls) es).rtc
  unfolding new
  run-IsPaired es h =
      run_kept (web_rtc p) web_rtc-IsKept es (new new_calls) (calls-IsKeeping es h)
        new_calls-IsPaired

  -- When the user leaves after any such run, no peer connection is open.
  pub leave_closes :
      (es : List (Event Calls)) (i : ℕ)
      → All (IsCallEvent p) es
      → owner (leave (web_rtc p) (run (web_rtc p) (new new_calls) es)).rtc.connections i ≡ none
  unfolding web_rtc
  leave_closes es i h =
      let c = run (web_rtc p) (new new_calls) es in
      subst (λ x. owner x.connections i ≡ none) (sym (leave-rtc (web_rtc p) c))
        (hangup_all_closes c.rtc i (run-IsPaired es h))
