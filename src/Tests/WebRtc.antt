-- ===== src/Tests/WebRtc.antt =====
-- Calls between two clients, with the theorems on `useWebRTC` at their states.
use chat_serve.Base.{
  ℕ, ◌≡◌, ◌*◌, refl, false, true, List, [], ◌∷◌, ◌++◌, some, none, nat_eq, list_eq, lookup, insert,
  erase, map, keys,
}
use chat_serve.Text.{lit}
use chat_serve.Notice.{call_failed}
use chat_serve.Transfer.State.{add_system_message}
use chat_serve.Chat.State.{Chat, Moment, Member, text, nick_of}
use chat_serve.Chat.Connection.{leave}
use chat_serve.Chat.Routing.{handle_text_message}
use chat_serve.Chat.Events.{Event, joins, opened, received, signals, run, new}
use chat_serve.WebRtc.State.{
  audio, video, kind_text, accept_remote, Accept, done, described, granted, Calls, Platform,
  new_calls, await,
}
use chat_serve.WebRtc.Peers.{
  peer_of, get_peer, create_pc, close_peer, close_all, remove_peer, change_connection,
  new_connection,
}
use chat_serve.WebRtc.Media.{
  mic_live, hangup_all, media_command, state_text, has_live_track, notify_media_state, toggle_mic,
  set_mic_gain, ensure_mic_on, toggle_media, take_stream, finish_media, set_track_enabled,
  send_to_peers, get_send_audio_track, process_track, on_track, change_tracks, add_my_tracks,
  tear_down_audio,
}
use chat_serve.WebRtc.Signals.{
  connect_to, start_connect, handle_offer, accept_fresh, set_remote, send_answer, settle, resume,
}
use chat_serve.WebRtc.Events.{act, web_rtc, sets_mic_gain, toggles_media, settles}
use chat_serve.WebRtc.Pairs.{owner, pc_at, IsPaired}
use chat_serve.WebRtc.Pairs.Signals.{connect_to-IsPaired}
use chat_serve.WebRtc.Pairs.Run.{new_calls-IsPaired}
use chat_serve.WebRtc.Hangup.{hangup_all_stops, is_stopped}
use chat_serve.WebRtc.Session.{run-IsPaired, leave_closes}
use chat_serve.WebRtc.Handshake.{offer_arrives, accepting, offered}
use chat_serve.WebRtc.Answer.{answer_sent}
use chat_serve.WebRtc.Connect.{bad_offer_ends_call}
use chat_serve.WebRtc.Leaver.{leaver_removed}
use chat_serve.WebRtc.Granted.{granted_turns_on, is_on}
use chat_serve.WebRtc.Switches.{toggle_mic_twice}

-- A platform on which base64 is the text itself, and one on which no text is base64.
abbrev plain : Platform
plain = record {
  btoa = λ s. s;
  atob = λ s. some s;
  has_user_media = true;
  is_candidate = λ s. true;
}

abbrev deaf : Platform
deaf = record { btoa = λ s. s; atob = λ s. none; has_user_media = false; is_candidate = λ s. false }

abbrev at : ℕ → Moment
at seconds = record {
  now = seconds * 1000000;
  clock = record { hours = 12; minutes = 0 };
  locale_time = lit "12:00";
}

abbrev members : List Member
members = record { id = lit "5"; nick = lit "bob" } ∷ []

-- After a call of `bob`
abbrev calling : Calls
calling = (connect_to (lit "4") members new_calls (lit "5")).0

calling-IsPaired : IsPaired calling
calling-IsPaired = connect_to-IsPaired (lit "4") members new_calls (lit "5") new_calls-IsPaired

abbrev meeting : List (Event Calls)
meeting =
    joins (lit "r") (lit "ann")
    ∷ opened 0 (at 1)
    ∷ received 0 (at 2) (text (lit "OK|r|ann|4"))
    ∷ received 0 (at 3) (text (lit "MEMBERS|5:bob"))
    ∷ received 0 (at 4) (text (lit "OFFER|5|sdp"))
    ∷ signals (λ c. act plain c (settles 0 done))
    ∷ signals (λ c. act plain c (toggles_media video))
    ∷ []

run-IsPaired_example : IsPaired (run (web_rtc plain) (new new_calls) meeting).rtc
run-IsPaired_example = run-IsPaired plain meeting (
  tt,
  (tt, (tt, (tt, (tt, ((settles 0 done, λ c. refl), ((toggles_media video, λ c. refl), tt)))))),
)

leave_closes_example :
    owner (leave (web_rtc plain) (run (web_rtc plain) (new new_calls) meeting)).rtc.connections 0
    ≡ none
leave_closes_example = leave_closes plain meeting 0 (
  tt,
  (tt, (tt, (tt, (tt, ((settles 0 done, λ c. refl), ((toggles_media video, λ c. refl), tt)))))),
)

-- With the microphone on, at a gain of a half
abbrev speaking : Calls
speaking = (settle plain (act plain new_calls (sets_mic_gain 50)).0 0 granted).0

hangup_all_stops_example :
    ((hangup_all speaking).my_stream ≡ none)
    × ((hangup_all speaking).cam_on ≡ false)
    × ((hangup_all speaking).mic_on ≡ false)
    × (is_stopped (hangup_all speaking).tracks 0 ≡ true)
unfolding settle resume act set_mic_gain ensure_mic_on toggle_media has_live_track await take_stream
    finish_media set_track_enabled send_to_peers get_send_audio_track process_track on_track
    change_tracks lookup insert erase
hangup_all_stops_example = hangup_all_stops speaking 0 refl

offer_arrives_example :
    let d =
      (handle_text_message
        (web_rtc plain)
        (new new_calls)
        (at 1)
        (lit "OFFER|" ++ (lit "5" ++ b'|' ∷ lit "sdp"))).rtc in
    (lookup 0 d.connections ≡ some (offered (lit "5") (lit "sdp")))
    × (lookup 0 d.tasks ≡ some (accept_remote (accepting 0 (lit "5") (lit "5") (lit "sdp"))))
unfolding new lookup pc_at nick_of
offer_arrives_example =
    offer_arrives plain (new new_calls) (at 1) (lit "5") (lit "sdp") refl (refl, tt) refl

-- `ann` in a room with `bob`, whom she calls
abbrev ann : Chat Calls
ann = record (new calling) { my_id = lit "4"; member_list = members }

-- `bob` with the offer of `ann`, whom he does not call
abbrev offer_of_ann : Accept
offer_of_ann = accepting 0 (lit "4") (lit "ann") (lit "sdp")

abbrev called : Calls
called = (handle_offer plain new_calls (lit "4") (lit "ann") (lit "sdp")).0

answer_sent_example :
    let d = (settle plain called 0 done).0 in
    let e = (settle plain d 1 (described (lit "ok"))).0 in
    (settle plain e 2 done).1
    ≡ send_answer plain (lit "4") (lit "ok") ∷ notify_media_state called (lit "4")
unfolding handle_offer accept_fresh get_peer create_pc close_peer peer_of set_remote
    change_connection lookup insert await owner settle resume erase
answer_sent_example = answer_sent plain called 0 offer_of_ann (lit "ok") refl refl refl

bad_offer_ends_call_example :
    let (d, effects) = handle_offer deaf calling (lit "5") (lit "bob") (lit "?") in
    (owner d.connections 0 ≡ none)
    × (lookup 1 d.connections ≡ some (new_connection (lit "5")))
    × (pc_at d.peers (lit "5") ≡ some 1)
    × ((peer_of d.peers (lit "5")).media_state ≡ [])
    × (effects ≡ add_system_message (call_failed (lit "bob")) ∷ [])
unfolding connect_to start_connect create_pc close_peer add_my_tracks peer_of pc_at lookup insert
    await
bad_offer_ends_call_example =
    bad_offer_ends_call deaf calling (lit "5") (lit "bob") (lit "?") 0 calling-IsPaired refl refl

-- The user hangs up while the browser asks about the camera.
abbrev hung_up : Calls
hung_up = hangup_all (act plain new_calls (toggles_media video)).0

granted_turns_on_example :
    (is_on video (settle plain hung_up 0 granted).0 ≡ true)
    × ((settle plain hung_up 0 granted).0.mic_gain ≡ 0)
unfolding act toggle_media has_live_track await hangup_all close_all tear_down_audio change_tracks
    lookup insert
granted_turns_on_example = granted_turns_on plain hung_up 0 video false refl

toggle_mic_twice_example :
    let (d, off) = toggle_mic plain speaking in
    let (e, on) = toggle_mic plain d in
    (mic_live d ≡ false)
    × (mic_live e ≡ true)
    × (e.mic_gain ≡ speaking.mic_gain)
    × (off ≡ map (λ k. media_command k (kind_text audio) (state_text false)) (keys speaking.peers))
    × (on ≡ map (λ k. media_command k (kind_text audio) (state_text true)) (keys speaking.peers))
unfolding settle resume act set_mic_gain ensure_mic_on toggle_media has_live_track await take_stream
    finish_media set_track_enabled send_to_peers get_send_audio_track process_track on_track
    change_tracks lookup insert erase
toggle_mic_twice_example = toggle_mic_twice plain speaking refl refl refl

leaver_removed_example :
    let d = handle_text_message (web_rtc plain) ann (at 1) (lit "LEAVE|5") in
    (d.member_list ≡ (remove_peer calling members (lit "5")).1)
    × (d.rtc ≡ (remove_peer calling members (lit "5")).0)
    × (lookup (lit "5") d.rtc.peers ≡ none)
    × (owner d.rtc.connections 0 ≡ none)
unfolding connect_to start_connect create_pc close_peer add_my_tracks peer_of lookup insert await
    new pc_at
leaver_removed_example =
    leaver_removed plain ann (at 1) (lit "5") 0 (refl, tt) calling-IsPaired refl
