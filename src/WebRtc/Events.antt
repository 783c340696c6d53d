-- ===== src/WebRtc/Events.antt =====
-- What happens to the peer connections besides the server's signals: the user's switches, and what
-- the browser calls back. `web_rtc` is what the chat takes.
use chat_serve.Base.{
  ℕ, suc, ◌+◌, true, false, [], ◌∷◌, ◌++◌, Option, none, some, if◌then◌else◌, list_eq, nat_eq,
  lookup, insert,
}
use chat_serve.Text.{Text, lit}
use chat_serve.Transfer.State.{send_command}
use chat_serve.Chat.State.{Rtc}
use chat_serve.WebRtc.State.{
  MediaKind, Track, Peer, Connection, negotiate_offer, Outcome, Calls, CallStep, Platform, await,
}
use chat_serve.WebRtc.Peers.{close_peer, change_peer_of}
use chat_serve.WebRtc.Media.{toggle_media, set_mic_gain, toggle_mic, toggle_volume, hangup_all}
use chat_serve.WebRtc.Signals.{
  connect_to, handle_offer, handle_answer, handle_ice, handle_media, settle,
}

pub data ConnectionState : Type 0 where
  connecting connected disconnected failed closed : ConnectionState

-- `ended`, `mute` and `unmute` of a remote track
pub data TrackChange : Type 0 where
  ended mute unmute : TrackChange

pub data CallEvent : Type 0 where
  -- the user
  toggles_media : MediaKind → CallEvent
  sets_mic_gain : ℕ → CallEvent
  toggles_mic : CallEvent
  toggles_volume : CallEvent
  sets_volume : ℕ → CallEvent
  -- a promise, by the number of what awaits it
  settles : ℕ → Outcome → CallEvent
  -- the handlers of a connection
  negotiation_needed : ℕ → CallEvent
  ice_candidate : ℕ → (json : Option Text) → CallEvent
  track_added : ℕ → MediaKind → CallEvent
  state_changed : ℕ → ConnectionState → CallEvent
  -- a remote track of a connection
  track_changed : (pc track : ℕ) → TrackChange → CallEvent

-- A handler of a connection runs while the connection is open.
unfoldable pub when_open : Calls → ℕ → (Connection → CallStep) → CallStep
when_open c i handler = elim (lookup i c.connections) [
  | none ↦ (c, [])
  | some pc ↦ if pc.is_closed then (c, []) else handler pc
]

-- `bumpMediaTick`
abbrev pub bump_media_tick : Peer → Peer
bump_media_tick peer = record peer { media_tick = peer.media_tick + 1 }

-- `pc.ontrack`, with a new remote track
unfoldable pub ontrack : Calls → ℕ → MediaKind → Connection → Calls
ontrack c i kind pc =
    change_peer_of
      (record c {
        tracks =
            insert c.next_track
              (record {
                kind = kind;
                is_live = true;
                enabled = true;
                muted = false;
                mic_gain = false;
              })
              c.tracks;
        next_track = suc c.next_track;
      })
      i
      (λ peer. bump_media_tick (record peer {
        stream = some ((elim peer.stream [ none ↦ [] | some ts ↦ ts ]) ++ c.next_track ∷ []);
      }))
      pc.peer_id

-- `pc.onconnectionstatechange`
unfoldable pub onconnectionstatechange : Calls → Text → ConnectionState → Calls
onconnectionstatechange c peer_id disconnected = close_peer c peer_id
onconnectionstatechange c peer_id failed = close_peer c peer_id
onconnectionstatechange c peer_id closed = close_peer c peer_id
onconnectionstatechange c peer_id _ = c

abbrev pub apply_change : TrackChange → Track → Track
apply_change ended track = record track { is_live = false }
apply_change mute track = record track { muted = true }
apply_change unmute track = record track { muted = false }

-- A remote track changes, and its handler counts
unfoldable pub on_track_changed : Calls → ℕ → ℕ → TrackChange → Calls
on_track_changed c i t change =
    let d = record c {
      tracks = elim (lookup t c.tracks) [
        | none ↦ c.tracks
        | some track ↦ insert t (apply_change change track) c.tracks
      ];
    } in
    elim (lookup i c.connections) [
      | none ↦ d
      | some pc ↦ change_peer_of d i bump_media_tick pc.peer_id
    ]

module _ (p : Platform) where
  unfoldable pub act : Calls → CallEvent → CallStep
  unfolding when_open ontrack onconnectionstatechange on_track_changed
  act c (toggles_media kind) = toggle_media p c kind false
  act c (sets_mic_gain g) = set_mic_gain p c g
  act c toggles_mic = toggle_mic p c
  act c toggles_volume = (toggle_volume c, [])
  act c (sets_volume v) = (record c { volume = v }, [])
  act c (settles i outcome) = settle p c i outcome
  act c (negotiation_needed i) = when_open c i λ pc. (await c (negotiate_offer i pc.peer_id), [])
  act c (ice_candidate i none) = (c, [])
  act c (ice_candidate i (some json)) =
      when_open c i
        λ pc. (c, send_command (lit "ICE|" ++ (pc.peer_id ++ (lit "|" ++ p.btoa json))) ∷ [])
  act c (track_added i kind) = when_open c i λ pc. (ontrack c i kind pc, [])
  act c (state_changed i s) = when_open c i λ pc. (onconnectionstatechange c pc.peer_id s, [])
  act c (track_changed i t change) = (on_track_changed c i t change, [])

  -- The part of `useWebRTC` that `useChat` calls
  unfoldable pub web_rtc : Rtc Calls
  web_rtc = record {
    close_peer = close_peer;
    hangup_all = hangup_all;
    connect_to = connect_to;
    handle_offer = handle_offer p;
    handle_answer = handle_answer p;
    handle_ice = handle_ice p;
    handle_media = handle_media;
  }
