-- ===== src/WebRtc/Hangup.antt =====
-- `hangupAll` of `useWebRTC`: what it leaves behind.
use chat_serve.Base.{
  ℕ, ◌≡◌, refl, ◌∙◌, Bool, true, false, ◌||◌, List, [], ◌∷◌, Option, none, some, if◌then◌else◌,
  arith, ◌===◌, nat_beq, nat_beq_iff, list_eq, nat_eq, list_beq_iff, Dict, lookup, insert, keys,
  lookup-erase, lookup-insert, Option-cases, inl, inr, not,
}
use chat_serve.Text.{Text}
use chat_serve.WebRtc.State.{Track, Peer, Calls}
use chat_serve.WebRtc.Peers.{close_peer, close_all}
use chat_serve.WebRtc.Media.{
  my_tracks, any, change_tracks, stop_tracks, tear_down_audio, hangup_all,
}
use chat_serve.WebRtc.Pairs.{owner, pc_at-none, IsPaired}
use chat_serve.WebRtc.Pairs.Run.{hangup_all-IsPaired}

abbrev pub has_id : Text → List Text → Bool
has_id k [] = false
has_id k (j ∷ js) = if j === k then true else has_id k js

lookup-keys : (k : Text) (m : Dict Text Peer) → has_id k (keys m) ≡ false → lookup k m ≡ none
unfolding lookup
lookup-keys k [] h = refl
lookup-keys k ((j, peer) ∷ m) h = ground (arith, lookup-keys k m)

peers-close_peer :
    (c : Calls) (j k : Text)
    → lookup k (close_peer c j).peers ≡ (if j === k then none else lookup k c.peers)
unfolding close_peer
peers-close_peer c j k = elim (Option-cases (lookup j c.peers)) [
  | inl e ↦ rw (e, close_peer) (ground (arith, e, list_beq_iff j k))
  | inr (peer, e) ↦ elim (Option-cases peer.pc) [
    | inl f ↦ rw (e, close_peer, f) (lookup-erase j k c.peers)
    | inr (i, f) ↦ rw (e, close_peer, f) (lookup-erase j k c.peers)
  ]
]

peers-close_all :
    (ids : List Text) (c : Calls) (k : Text)
    → lookup k (close_all c ids).peers ≡ (if has_id k ids then none else lookup k c.peers)
unfolding close_all
peers-close_all [] c k = refl
peers-close_all (j ∷ ids) c k =
    ground (arith, peers-close_all ids (close_peer c j) k, peers-close_peer c j k)

peers-hangup_all : (c : Calls) (k : Text) → lookup k (hangup_all c).peers ≡ none
unfolding hangup_all tear_down_audio
peers-hangup_all c k = ground (arith, peers-close_all (keys c.peers) c k, lookup-keys k c.peers)

-- After `hangupAll` no peer is left, and no connection is open: whatever the number, it is not that of
-- an open connection. The state before it has each open connection with its peer.
pub hangup_all_closes : (c : Calls) (i : ℕ) → IsPaired c → owner (hangup_all c).connections i ≡ none
hangup_all_closes c i h = elim (Option-cases (owner (hangup_all c).connections i)) [
  | inl e ↦ e
  | inr (k, e) ↦ ground (
    arith,
    e,
    (hangup_all-IsPaired c h).paired i k,
    pc_at-none k (hangup_all c).peers (peers-hangup_all c k),
  )
]

-- No track of that number is live.
abbrev pub is_stopped : Dict ℕ Track → ℕ → Bool
is_stopped tracks t = elim (lookup t tracks) [ none ↦ true | some track ↦ not track.is_live ]

abbrev stop : Track → Track
stop track = record track { is_live = false }

abbrev stop_one : ℕ → Dict ℕ Track → Dict ℕ Track
stop_one s m = elim (lookup s m) [ none ↦ m | some track ↦ insert s (stop track) m ]

stop_one_lem :
    (s t : ℕ) (m : Dict ℕ Track)
    → is_stopped (stop_one s m) t ≡ (if nat_beq s t then true else is_stopped m t)
stop_one_lem s t m = elim (Option-cases (lookup s m)) [
  | inl e ↦ rw (e, stop_one) (ground (arith, e, nat_beq_iff s t))
  | inr (track, e) ↦ rw (e, stop_one) (ground (arith, lookup-insert s t (stop track) m))
]

stop_tracks_lem :
    (ts : List ℕ) (m : Dict ℕ Track) (t : ℕ)
    → is_stopped (stop_tracks ts m) t ≡ (if any (λ s. nat_beq s t) ts then true else is_stopped m t)
unfolding change_tracks
stop_tracks_lem [] m t = refl
stop_tracks_lem (s ∷ ts) m t =
    stop_tracks_lem ts (stop_one s m) t ∙ ground (arith, stop_one_lem s t m)

-- What closing the peers leaves as it is.
record SameMedia (d c : Calls) : Type 0 where
  stream : d.my_stream ≡ c.my_stream
  raw : d.mic_raw_track ≡ c.mic_raw_track
  tracks : d.tracks ≡ c.tracks

media-close_peer : (c : Calls) (k : Text) → SameMedia (close_peer c k) c
unfolding close_peer
media-close_peer c k = record { stream = ground arith; raw = ground arith; tracks = ground arith }

media-close_all : (ids : List Text) (c : Calls) → SameMedia (close_all c ids) c
unfolding close_all
media-close_all [] c = record { stream = refl; raw = refl; tracks = refl }
media-close_all (k ∷ ids) c =
    let s = media-close_all ids (close_peer c k) in
    let t = media-close_peer c k in
    record { stream = s.stream ∙ t.stream; raw = s.raw ∙ t.raw; tracks = s.tracks ∙ t.tracks }

abbrev pub is_raw : Option ℕ → ℕ → Bool
is_raw none t = false
is_raw (some s) t = nat_beq s t

torn_down :
    (m : Dict ℕ Track) (ts : List ℕ) (raw : Option ℕ) (t : ℕ)
    → (any (λ s. nat_beq s t) ts || is_raw raw t) ≡ true
    → is_stopped
        (elim raw as (λ _. Dict ℕ Track) [
          | none ↦ stop_tracks ts m
          | some r ↦ stop_tracks (r ∷ []) (stop_tracks ts m)
        ])
        t
      ≡ true
torn_down m ts none t h = ground (arith, h, stop_tracks_lem ts m t)
torn_down m ts (some r) t h =
    stop_tracks_lem (r ∷ []) (stop_tracks ts m) t ∙ ground (arith, h, stop_tracks_lem ts m t)

-- After `hangupAll` there is no stream, both switches are off, and every track that was in `myStream`
-- and the raw track of the microphone are stopped.
pub hangup_all_stops :
    (c : Calls) (t : ℕ)
    → (any (λ s. nat_beq s t) (my_tracks c) || is_raw c.mic_raw_track t) ≡ true
    → ((hangup_all c).my_stream ≡ none)
      × ((hangup_all c).cam_on ≡ false)
      × ((hangup_all c).mic_on ≡ false)
      × (is_stopped (hangup_all c).tracks t ≡ true)
unfolding hangup_all tear_down_audio
hangup_all_stops c t h =
    let s = media-close_all (keys c.peers) c in
    (
      refl,
      refl,
      refl,
      torn_down _ (my_tracks d) d.mic_raw_track t (rw (my_tracks, s.stream, s.raw) h),
    )
  where
    d : Calls
    d = close_all c (keys c.peers)
