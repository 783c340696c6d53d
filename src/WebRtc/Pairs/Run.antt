-- ===== src/WebRtc/Pairs/Run.antt =====
-- Every step of `useWebRTC` and the pairs of peers and open connections.
use chat_serve.Base.{
  nat_eq, list_eq, ℕ, refl, false, List, [], ◌∷◌, Option, none, some, arith, lookup, keys,
}
use chat_serve.Text.{Text}
use chat_serve.WebRtc.State.{
  Connection, Calls, CallStep, MediaKind, Platform, negotiate_offer, new_calls,
}
use chat_serve.WebRtc.Peers.{peer_of, close_peer, close_all}
use chat_serve.WebRtc.Media.{hangup_all, tear_down_audio}
use chat_serve.WebRtc.Events.{
  CallEvent, ConnectionState, connecting, connected, disconnected, closed, toggles_media,
  sets_mic_gain, toggles_mic, toggles_volume, sets_volume, settles, negotiation_needed,
  ice_candidate, track_added, state_changed, track_changed, when_open, ontrack,
  onconnectionstatechange, on_track_changed, act, TrackChange,
}
use chat_serve.WebRtc.Pairs.{owner, pc_at, IsPaired, close_peer-IsPaired}
use chat_serve.WebRtc.Pairs.Same.{
  SamePairs, same-IsPaired, same_trans, same_parts, change_peer_of-same,
}
use chat_serve.WebRtc.Pairs.Media.{
  toggle_media-same, set_mic_gain-same, toggle_mic-same, toggle_volume-same,
}
use chat_serve.WebRtc.Pairs.Signals.{IsPaired-if, IsPaired-case, await-IsPaired, settle-IsPaired}

for_connection :
    (o : Option Connection) (d : Calls) (f : Connection → Calls) (c : Calls)
    → SamePairs d c
    → ((pc : Connection) → SamePairs (f pc) c)
    → SamePairs (elim o as (λ _. Calls) [ none ↦ d | some pc ↦ f pc ]) c
for_connection none d f c s h = s
for_connection (some pc) d f c s h = h pc

module _ (p : Platform) where
  when_open-IsPaired :
      (c : Calls) (i : ℕ) (handler : Connection → CallStep)
      → IsPaired c
      → ((pc : Connection) → IsPaired (handler pc).0)
      → IsPaired (when_open c i handler).0
  unfolding when_open
  when_open-IsPaired c i handler h k =
      IsPaired-case (lookup i c.connections) _ _ h λ pc. IsPaired-if pc.is_closed _ _ h (k pc)

  ontrack-same :
      (c : Calls) (i : ℕ) (kind : MediaKind) (pc : Connection) → SamePairs (ontrack c i kind pc) c
  unfolding ontrack
  ontrack-same c i kind pc =
      same_trans _ _ c (change_peer_of-same _ i _ pc.peer_id (λ peer. refl))
        (same_parts _ c refl refl refl)

  onconnectionstatechange-IsPaired :
      (c : Calls) (k : Text) (s : ConnectionState)
      → IsPaired c
      → IsPaired (onconnectionstatechange c k s)
  unfolding onconnectionstatechange
  onconnectionstatechange-IsPaired c k connecting h = h
  onconnectionstatechange-IsPaired c k connected h = h
  onconnectionstatechange-IsPaired c k disconnected h = close_peer-IsPaired c k h
  onconnectionstatechange-IsPaired c k ConnectionState.failed h = close_peer-IsPaired c k h
  onconnectionstatechange-IsPaired c k closed h = close_peer-IsPaired c k h

  on_track_changed-same :
      (c : Calls) (i t : ℕ) (change : TrackChange) → SamePairs (on_track_changed c i t change) c
  unfolding on_track_changed
  on_track_changed-same c i t change =
      for_connection (lookup i c.connections) _ _ c (same_parts _ c refl refl refl) λ pc.
        same_trans _ _ c (change_peer_of-same _ i _ pc.peer_id (λ peer. refl))
          (same_parts _ c refl refl refl)

  -- Whatever happens, each open connection stays that of the peer it is for.
  pub act-IsPaired : (c : Calls) (e : CallEvent) → IsPaired c → IsPaired (act p c e).0
  unfolding act
  act-IsPaired c (toggles_media kind) h = same-IsPaired _ c (toggle_media-same p c kind false) h
  act-IsPaired c (sets_mic_gain g) h = same-IsPaired _ c (set_mic_gain-same p c g) h
  act-IsPaired c toggles_mic h = same-IsPaired _ c (toggle_mic-same p c) h
  act-IsPaired c toggles_volume h = same-IsPaired _ c (toggle_volume-same c) h
  act-IsPaired c (sets_volume v) h = same-IsPaired _ c (same_parts _ c refl refl refl) h
  act-IsPaired c (settles i o) h = settle-IsPaired p c i o h
  act-IsPaired c (negotiation_needed i) h =
      when_open-IsPaired c i _ h λ pc. await-IsPaired c (negotiate_offer i pc.peer_id) h
  act-IsPaired c (ice_candidate i none) h = h
  act-IsPaired c (ice_candidate i (some json)) h = when_open-IsPaired c i _ h λ pc. h
  act-IsPaired c (track_added i kind) h =
      when_open-IsPaired c i _ h λ pc. same-IsPaired _ c (ontrack-same c i kind pc) h
  act-IsPaired c (state_changed i s) h =
      when_open-IsPaired c i _ h λ pc. onconnectionstatechange-IsPaired c pc.peer_id s h
  act-IsPaired c (track_changed i t change) h =
      same-IsPaired _ c (on_track_changed-same c i t change) h

pub close_all-IsPaired : (ids : List Text) (c : Calls) → IsPaired c → IsPaired (close_all c ids)
unfolding close_all
close_all-IsPaired [] c h = h
close_all-IsPaired (k ∷ ids) c h =
    close_all-IsPaired ids (close_peer c k) (close_peer-IsPaired c k h)

pub hangup_all-IsPaired : (c : Calls) → IsPaired c → IsPaired (hangup_all c)
unfolding hangup_all tear_down_audio
hangup_all-IsPaired c h =
    same-IsPaired _ _ (same_parts _ (close_all c (keys c.peers)) refl refl refl)
      (close_all-IsPaired (keys c.peers) c h)

pub new_calls-IsPaired : IsPaired new_calls
unfolding owner pc_at peer_of lookup
new_calls-IsPaired = record {
  paired = λ i k. ((λ e. ground arith), (λ e. ground arith));
  fresh = λ i le. refl;
}
