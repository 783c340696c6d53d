-- ===== src/WebRtc/Pairs/Media.antt =====
-- The media of `useWebRTC` and the pairs of peers and open connections.
use chat_serve.Base.{
  nat_eq, ℕ, refl, sym, Bool, true, false, List, [], ◌∷◌, Option, none, some, if◌then◌else◌, arith,
  not, ◌&&◌, ltb, lookup, find, Option-cases, Bool-cases, inl, inr,
}
use chat_serve.Text.{Text}
use chat_serve.WebRtc.State.{Peer, Calls, CallStep, MediaKind, audio, video, Platform, user_media}
use chat_serve.WebRtc.Branches.{in_if, in_option, in_thrown}
use chat_serve.WebRtc.Media.{
  set_flag, set_track_enabled, process_track, get_send_audio_track, add_track, is_sent, add_tracks,
  add_my_tracks, end_opening, toggle_media, send_to_peers, send_to_peer, finish_media, add_stream,
  take_stream, ensure_mic_on, put_gain, set_mic_gain, mic_live, toggle_mic, toggle_volume,
  my_tracks, on_track, is_kind,
}
use chat_serve.WebRtc.Pairs.Same.{
  SamePairs, same_refl, same_trans, same_if, same_parts, same_entry, await-same,
}

set_flag-same : (c : Calls) (k : MediaKind) (b : Bool) → SamePairs (set_flag c k b) c
set_flag-same c audio b = same_parts _ c refl refl refl
set_flag-same c video b = same_parts _ c refl refl refl

pub same_step :
    (b : Bool) (x y : CallStep) (c : Calls)
    → SamePairs x.0 c
    → SamePairs y.0 c
    → SamePairs (if b then x else y).0 c
same_step b x y c s t = in_if (λ d. SamePairs d c) b x y s t

pub set_track_enabled-same :
    (c : Calls) (k : MediaKind) (b : Bool) → SamePairs (set_track_enabled c k b).0 c
unfolding set_track_enabled
set_track_enabled-same c k b = elim (Option-cases c.my_stream) [
  | inl e ↦ rw (e, set_track_enabled) (same_parts _ _ refl refl refl)
  | inr (ts, e) ↦
      rw (e, set_track_enabled)
        (same_trans _ _ _ (set_flag-same _ k b) (same_parts _ _ refl refl refl))
]

process_track-same : (c : Calls) (ts : List ℕ) (t : ℕ) → SamePairs (process_track c ts t) c
unfolding process_track
process_track-same c ts t = same_parts _ c refl refl refl

pub get_send_audio_track-same : (c : Calls) → SamePairs (get_send_audio_track c) c
unfolding get_send_audio_track process_track
get_send_audio_track-same c = same_parts _ _ (ground arith) (ground arith) (ground arith)

pub add_track-same : (c : Calls) (i t : ℕ) → SamePairs (add_track c i t).0 c
unfolding add_track
add_track-same c i t = elim (Option-cases (lookup i c.connections)) [
  | inl e ↦ rw (e, add_track) (same_refl c)
  | inr (pc, e) ↦ elim (Bool-cases pc.is_closed) [
    | inl f ↦ rw (e, add_track, f) (same_refl c)
    | inr f ↦
        simp (e, add_track, f)
          (record {
            owners = λ j. same_entry i j pc _ c.connections e (sym f) refl;
            pcs = λ k. refl;
            next = refl;
          })
  ]
]

maybe_add-same :
    (b : Bool) (c : Calls) (i t : ℕ) → SamePairs (if b then add_track c i t else (c, false)).0 c
maybe_add-same true c i t = add_track-same c i t
maybe_add-same false c i t = same_refl c

pub add_tracks-same : (ts : List ℕ) (i : ℕ) (c : Calls) → SamePairs (add_tracks c i ts).0 c
unfolding add_tracks
add_tracks-same [] i c = same_refl c
add_tracks-same (t ∷ ts) i c =
    in_thrown (λ d. SamePairs d c) _ _ _ added (same_trans _ _ c (add_tracks-same ts i _) added)
  where
    added :
        SamePairs
          (if on_track c (λ track. track.is_live) t && not (is_sent c i t)
            then add_track c i t
            else (c, false)).0
          c
    added = maybe_add-same (on_track c (λ track. track.is_live) t && not (is_sent c i t)) c i t

-- A step for `myStream`, if there is one
with_stream :
    (o : Option (List ℕ)) (x : Calls × Bool) (c : Calls)
    → SamePairs x.0 c
    → SamePairs (elim o as (λ _. Calls × Bool) [ none ↦ (c, false) | some _ ↦ x ]).0 c
with_stream none x c s = same_refl c
with_stream (some _) x c s = s

pub add_my_tracks-same : (c : Calls) (i : ℕ) → SamePairs (add_my_tracks c i).0 c
unfolding add_my_tracks
add_my_tracks-same c i =
    with_stream c.my_stream _ c
      (same_trans _ _ c (add_tracks-same _ i _) (get_send_audio_track-same c))

pub end_opening-same : (b : Bool) (c : Calls) → SamePairs (end_opening b c) c
end_opening-same true c = same_parts _ c refl refl refl
end_opening-same false c = same_refl c

pub toggle_media-same :
    (p : Platform) (c : Calls) (kind : MediaKind) (b : Bool)
    → SamePairs (toggle_media p c kind b).0 c
unfolding toggle_media
toggle_media-same p c kind b = same_step _ _ _ c (switched false) (
    same_step _ _ _ c (switched true)
      (same_step _ _ _ c (await-same c (user_media kind b)) (end_opening-same b c)))
  where
    switched : (on : Bool) → SamePairs (set_track_enabled (end_opening b c) kind on).0 c
    switched on =
        same_trans _ _ c (set_track_enabled-same (end_opening b c) kind on) (end_opening-same b c)

send_to_peer-same : (o : Option ℕ) (c : Calls) (t : ℕ) → SamePairs (send_to_peer c t o).0 c
unfolding send_to_peer
send_to_peer-same none c t = same_refl c
send_to_peer-same (some i) c t = elim (Bool-cases (is_sent c i t)) [
  | inl e ↦ simp (e, send_to_peer) (same_parts _ _ refl refl refl)
  | inr e ↦ simp (e, send_to_peer) (add_track-same c i t)
]

send_to_peers-same :
    (ps : List (Text × Peer)) (t : ℕ) (c : Calls) → SamePairs (send_to_peers c t ps).0 c
unfolding send_to_peers
send_to_peers-same [] t c = same_refl c
send_to_peers-same ((k, peer) ∷ ps) t c =
    in_thrown (λ d. SamePairs d c) _ _ _ (send_to_peer-same peer.pc c t)
      (same_trans _ _ c (send_to_peers-same ps t _) (send_to_peer-same peer.pc c t))

pub finish_media-same : (c : Calls) (kind : MediaKind) → SamePairs (finish_media c kind).0 c
unfolding finish_media
finish_media-same c kind =
    in_option (λ d. SamePairs d c)
      (find (on_track c (λ track. is_kind track.kind kind)) (my_tracks c)) _ _
      (set_track_enabled-same c kind true)
      λ t.
        same_step _ _ _ c (send_to_peers-same c.peers t c)
          (same_trans _ _ c (set_track_enabled-same _ kind true) (send_to_peers-same c.peers t c))

pub take_stream-same : (c : Calls) (kind : MediaKind) → SamePairs (take_stream c kind) c
unfolding take_stream
take_stream-same c kind = same_trans _ _ c (set_flag-same _ kind true) (
    same_trans _ _ c (get_send_audio_track-same (add_stream c kind))
      (same_parts _ c refl refl refl))

ensure_mic_on-same : (p : Platform) (c : Calls) → SamePairs (ensure_mic_on p c).0 c
unfolding ensure_mic_on
ensure_mic_on-same p c = same_step _ _ _ c (same_refl c) (
    same_step _ _ _ c (set_track_enabled-same c audio true) (
      same_trans _ _ c (toggle_media-same p (record c { opening_mic = true }) audio true)
        (same_parts _ c refl refl refl)))

pub set_mic_gain-same : (p : Platform) (c : Calls) (g : ℕ) → SamePairs (set_mic_gain p c g).0 c
unfolding set_mic_gain
set_mic_gain-same p c g =
    same_step _ _ _ c
      (same_trans _ _ c (ensure_mic_on-same p (put_gain c g)) (same_parts _ c refl refl refl))
      (same_trans _ _ c (set_track_enabled-same (put_gain c g) audio false)
        (same_parts _ c refl refl refl))

pub toggle_mic-same : (p : Platform) (c : Calls) → SamePairs (toggle_mic p c).0 c
unfolding toggle_mic
toggle_mic-same p c =
    same_step (mic_live c) (set_mic_gain p (record c { last_mic_gain = c.mic_gain }) 0)
      (set_mic_gain p c wanted) c
      (same_trans _ _ c (set_mic_gain-same p (record c { last_mic_gain = c.mic_gain }) 0)
        (same_parts _ c refl refl refl))
      (set_mic_gain-same p c wanted)
  where
    wanted : ℕ
    wanted = if ltb 0 c.last_mic_gain then c.last_mic_gain else 100

pub toggle_volume-same : (c : Calls) → SamePairs (toggle_volume c) c
unfolding toggle_volume
toggle_volume-same c =
    same_if _ _ _ c (same_parts _ c refl refl refl) (same_parts _ c refl refl refl)
