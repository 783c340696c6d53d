-- ===== src/WebRtc/Media.antt =====
-- The switches of the user's media in `useWebRTC`, and the end of all calls.
mod Tracks
unfoldable pub use Tracks.*
use chat_serve.Base.{
  ℕ, suc, Bool, true, false, not, ◌&&◌, ◌||◌, List, [], ◌∷◌, ◌++◌, map, Option, none, some,
  if◌then◌else◌, ltb, nat_beq, list_eq, nat_eq, Dict, lookup, insert, keys, filter, find,
}
use chat_serve.Text.{Text, lit}
use chat_serve.Notice.{no_media}
use chat_serve.Transfer.State.{Effect, send_command, add_system_message}
use chat_serve.WebRtc.State.{
  MediaKind, audio, video, kind_text, Track, Peer, user_media, Calls, CallStep, Platform, await,
}
use chat_serve.WebRtc.Peers.{close_all}

-- `openingMic = false` behind `ensureMicOn`'s `await`
abbrev pub end_opening : Bool → Calls → Calls
end_opening from_mic c = if from_mic then record c { opening_mic = false } else c

-- `toggleMedia`, and `startMyMedia` in it up to its `await`
unfoldable pub toggle_media : Platform → Calls → MediaKind → (from_mic : Bool) → CallStep
unfolding set_track_enabled has_live_track
toggle_media p c kind from_mic =
    if (elim kind [ video ↦ c.cam_on | audio ↦ c.mic_on ])
    then set_track_enabled (end_opening from_mic c) kind false
    else if has_live_track c kind
    then set_track_enabled (end_opening from_mic c) kind true
    else if p.has_user_media
    then (await c (user_media kind from_mic), [])
    else (end_opening from_mic c, add_system_message no_media ∷ [])

-- The new track to a connection that has it not
unfoldable pub send_to_peer : Calls → ℕ → Option ℕ → Calls × Bool
unfolding add_track is_sent
send_to_peer c t none = (c, false)
send_to_peer c t (some i) = if is_sent c i t then (c, false) else add_track c i t

-- The loop of `toggleMedia` over the peers
unfoldable pub send_to_peers : Calls → ℕ → List (Text × Peer) → Calls × Bool
unfolding send_to_peer
send_to_peers c t [] = (c, false)
send_to_peers c t ((_, peer) ∷ rest) =
    let (d, threw) = send_to_peer c t peer.pc in
    elim threw [ true ↦ (d, true) | false ↦ send_to_peers d t rest ]

-- The rest of `toggleMedia`, when `startMyMedia` has its stream
unfoldable pub finish_media : Calls → MediaKind → CallStep
unfolding on_track send_to_peers set_track_enabled
finish_media c kind = elim (find (on_track c (λ track. is_kind track.kind kind)) (my_tracks c)) [
  | none ↦ set_track_enabled c kind true
  | some t ↦
      let (d, threw) = send_to_peers c t c.peers in
      if threw then (d, []) else set_track_enabled d kind true
]

-- `myStream` with the track of the stream that `getUserMedia` gives: one track of the kind
abbrev pub add_stream : Calls → MediaKind → Calls
add_stream c kind = record c {
  my_stream = some (my_tracks c ++ c.next_track ∷ []);
  tracks =
      insert c.next_track
        (record { kind = kind; is_live = true; enabled = true; muted = false; mic_gain = false })
        c.tracks;
  next_track = suc c.next_track;
}

-- `startMyMedia` behind its `await`
unfoldable pub take_stream : Calls → MediaKind → Calls
unfolding get_send_audio_track
take_stream c kind = set_flag (get_send_audio_track (add_stream c kind)) kind true

unfoldable pub ensure_mic_on : Platform → Calls → CallStep
unfolding has_live_track set_track_enabled
ensure_mic_on p c =
    if c.mic_on || c.opening_mic
    then (c, [])
    else if has_live_track c audio
    then set_track_enabled c audio true
    else toggle_media p (record c { opening_mic = true }) audio true

-- The gain, for the display and in the gain node
abbrev pub put_gain : Calls → ℕ → Calls
put_gain c g = record c {
  mic_gain = g;
  gain_node = elim c.gain_node [ none ↦ none | some _ ↦ some g ];
}

-- `setMicGain`, with its argument as a number
unfoldable pub set_mic_gain : Platform → Calls → ℕ → CallStep
unfolding ensure_mic_on set_track_enabled
set_mic_gain p c g =
    let d = put_gain c g in if ltb 0 g then ensure_mic_on p d else set_track_enabled d audio false

abbrev pub mic_live : Calls → Bool
mic_live c = c.mic_on && ltb 0 c.mic_gain

abbrev pub volume_live : Calls → Bool
volume_live c = ltb 0 c.volume

unfoldable pub toggle_mic : Platform → Calls → CallStep
unfolding set_mic_gain
toggle_mic p c =
    if mic_live c
    then set_mic_gain p (record c { last_mic_gain = c.mic_gain }) 0
    else set_mic_gain p c (if ltb 0 c.last_mic_gain then c.last_mic_gain else 100)

unfoldable pub toggle_volume : Calls → Calls
toggle_volume c =
    if volume_live c
    then record c { last_volume = c.volume; volume = 0 }
    else record c { volume = c.last_volume }

-- `t.stop()` for each track
abbrev pub stop_tracks : List ℕ → Dict ℕ Track → Dict ℕ Track
stop_tracks = change_tracks λ track. record track { is_live = false }

-- `tearDownAudio`
unfoldable pub tear_down_audio : Calls → Calls
unfolding change_tracks
tear_down_audio c = record c {
  tracks = elim c.mic_raw_track [ none ↦ c.tracks | some t ↦ stop_tracks (t ∷ []) c.tracks ];
  mic_raw_track = none;
  gain_node = none;
}

unfoldable pub hangup_all : Calls → Calls
unfolding close_all change_tracks tear_down_audio
hangup_all c =
    let d = close_all c (keys c.peers) in
    record (tear_down_audio
      (record d { my_stream = none; tracks = stop_tracks (my_tracks d) d.tracks })) {
        cam_on = false;
        mic_on = false;
      }
