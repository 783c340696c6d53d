-- ===== src/WebRtc/Media/Tracks.antt =====
-- The tracks of `useWebRTC`: finding and changing them, and sending them on a connection.
use chat_serve.Base.{
  ℕ, suc, Bool, true, false, not, ◌&&◌, List, [], ◌∷◌, ◌++◌, map, none, some, if◌then◌else◌,
  nat_beq, list_eq, nat_eq, Dict, lookup, insert, keys, filter, find,
}
use chat_serve.Text.{Text, lit}
use chat_serve.Transfer.State.{Effect, send_command}
use chat_serve.WebRtc.State.{MediaKind, audio, video, kind_text, Track, Calls, CallStep}

abbrev pub is_kind : MediaKind → MediaKind → Bool
is_kind audio audio = true
is_kind video video = true
is_kind _ _ = false

-- A test of the track that the number stands for.
unfoldable pub on_track : Calls → (Track → Bool) → ℕ → Bool
on_track c test t = elim (lookup t c.tracks) [ none ↦ false | some track ↦ test track ]

-- `myStream.value?.getTracks()`
abbrev pub my_tracks : Calls → List ℕ
my_tracks c = elim c.my_stream [ none ↦ [] | some ts ↦ ts ]

abbrev pub live_of : MediaKind → Track → Bool
live_of kind track = is_kind track.kind kind && track.is_live

abbrev pub any : (ℕ → Bool) → List ℕ → Bool
any test [] = false
any test (t ∷ ts) = if test t then true else any test ts

unfoldable pub has_live_track : Calls → MediaKind → Bool
unfolding on_track
has_live_track c kind = any (on_track c (live_of kind)) (my_tracks c)

-- A change of each of some tracks
unfoldable pub change_tracks : (Track → Track) → List ℕ → Dict ℕ Track → Dict ℕ Track
change_tracks change [] tracks = tracks
change_tracks change (t ∷ ts) tracks =
    change_tracks change ts
      (elim (lookup t tracks) [ none ↦ tracks | some track ↦ insert t (change track) tracks ])

abbrev pub state_text : Bool → Text
state_text enabled = if enabled then lit "on" else lit "off"

abbrev pub media_command : Text → Text → Text → Effect
media_command peer_id kind state =
    send_command (lit "MEDIA|" ++ (peer_id ++ (lit "|" ++ (kind ++ (lit "|" ++ state)))))

abbrev pub set_flag : Calls → MediaKind → Bool → Calls
set_flag c video enabled = record c { cam_on = enabled }
set_flag c audio enabled = record c { mic_on = enabled }

unfoldable pub set_track_enabled : Calls → MediaKind → Bool → CallStep
unfolding on_track change_tracks
set_track_enabled c kind enabled = elim c.my_stream [
  | none ↦ (c, [])
  | some ts ↦ (
    set_flag
        (record c {
          tracks =
              change_tracks (λ track. record track { enabled = enabled })
                (filter (on_track c (λ track. is_kind track.kind kind)) ts) c.tracks;
        })
        kind enabled,
    map (λ peer_id. media_command peer_id (kind_text kind) (state_text enabled)) (keys c.peers),
  )
]

-- `getSendAudioTrack` on the raw track that it finds
unfoldable pub process_track : Calls → List ℕ → ℕ → Calls
unfolding on_track
process_track c ts raw = record c {
  my_stream = some (
      filter (λ t. not (nat_beq t raw))
        (filter (λ t. not (on_track c (λ track. is_kind track.kind audio && track.mic_gain) t)) ts)
      ++ c.next_track ∷ []);
  gain_node = some c.mic_gain;
  mic_raw_track = some raw;
  tracks =
      insert c.next_track
        (record { kind = audio; is_live = true; enabled = true; muted = false; mic_gain = true })
        c.tracks;
  next_track = suc c.next_track;
}

-- `getSendAudioTrack`, whose result nobody uses
unfoldable pub get_send_audio_track : Calls → Calls
unfolding on_track process_track
get_send_audio_track c = elim c.my_stream [
  | none ↦ c
  | some ts ↦
      if any (on_track c (λ track. live_of audio track && track.mic_gain)) ts
      then c
      else elim (find (on_track c (λ track. live_of audio track && not track.mic_gain)) ts) [
        | none ↦ c
        | some raw ↦ process_track c ts raw
      ]
]

-- `pc.addTrack(track, myStream.value)`; the flag tells that it throws, on a closed connection
unfoldable pub add_track : Calls → ℕ → ℕ → Calls × Bool
add_track c i t = elim (lookup i c.connections) [
  | none ↦ (c, false)
  | some pc ↦ if pc.is_closed then (c, true) else (
    record c {
      connections = insert i (record pc { senders = pc.senders ++ t ∷ [] }) c.connections;
    },
    false,
  )
]

-- `pc.getSenders().some(s => s.track === track)`
unfoldable pub is_sent : Calls → ℕ → ℕ → Bool
is_sent c i t = elim (lookup i c.connections) [
  | none ↦ false
  | some pc ↦ any (λ s. nat_beq s t) pc.senders
]

-- The loop of `addMyTracksToPC`
unfoldable pub add_tracks : Calls → ℕ → List ℕ → Calls × Bool
unfolding on_track add_track is_sent
add_tracks c i [] = (c, false)
add_tracks c i (t ∷ ts) =
    let (d, threw) =
      if on_track c (λ track. track.is_live) t && not (is_sent c i t)
      then add_track c i t
      else (c, false) in
    elim threw [ true ↦ (d, true) | false ↦ add_tracks d i ts ]

-- `addMyTracksToPC`
unfoldable pub add_my_tracks : Calls → ℕ → Calls × Bool
unfolding get_send_audio_track add_tracks
add_my_tracks c i = elim c.my_stream [
  | none ↦ (c, false)
  | some _ ↦ let d = get_send_audio_track c in add_tracks d i (my_tracks d)
]

-- `notifyMediaState`
abbrev pub notify_media_state : Calls → Text → List Effect
notify_media_state c peer_id =
    media_command peer_id (lit "video") (state_text c.cam_on)
    ∷ media_command peer_id (lit "audio") (state_text c.mic_on)
    ∷ []
