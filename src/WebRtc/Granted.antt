-- ===== src/WebRtc/Granted.antt =====
-- `toggleMedia` of `useWebRTC` when `getUserMedia` has given its stream.
use chat_serve.Base.{
  ℕ, ◌≡◌, refl, ◌∙◌, subst, Bool, true, false, List, [], ◌∷◌, Option, none, some, arith, lookup,
  erase, find, Bool-cases, inl, inr, nat_eq, list_eq,
}
use chat_serve.Text.{Text}
use chat_serve.WebRtc.State.{MediaKind, audio, video, Peer, Calls, Platform, user_media, granted}
use chat_serve.WebRtc.Branches.{in_if, in_option, in_thrown}
use chat_serve.WebRtc.Media.{
  is_kind, on_track, my_tracks, set_flag, set_track_enabled, get_send_audio_track, process_track,
  add_track, is_sent, end_opening, send_to_peer, send_to_peers, finish_media, add_stream,
  take_stream,
}
use chat_serve.WebRtc.Signals.{resume, settle}
use chat_serve.WebRtc.Answer.{settle_lem}

-- The switch of a kind
abbrev pub is_on : MediaKind → Calls → Bool
is_on video c = c.cam_on
is_on audio c = c.mic_on

-- Two states with the same switches and the same gain
record SameSwitches (d c : Calls) : Type 0 where
  cam : d.cam_on ≡ c.cam_on
  mic : d.mic_on ≡ c.mic_on
  gain : d.mic_gain ≡ c.mic_gain

switches_refl : (c : Calls) → SameSwitches c c
switches_refl c = record { cam = refl; mic = refl; gain = refl }

switches_trans : (e d c : Calls) → SameSwitches e d → SameSwitches d c → SameSwitches e c
switches_trans e d c s t = record {
  cam = s.cam ∙ t.cam;
  mic = s.mic ∙ t.mic;
  gain = s.gain ∙ t.gain;
}

add_track-switches : (c : Calls) (i t : ℕ) → SameSwitches (add_track c i t).0 c
unfolding add_track
add_track-switches c i t = record { cam = ground arith; mic = ground arith; gain = ground arith }

send_to_peer-switches : (c : Calls) (t : ℕ) (o : Option ℕ) → SameSwitches (send_to_peer c t o).0 c
unfolding send_to_peer
send_to_peer-switches c t none = switches_refl c
send_to_peer-switches c t (some i) = elim (Bool-cases (is_sent c i t)) [
  | inl e ↦ simp (e, send_to_peer) (switches_refl c)
  | inr e ↦ simp (e, send_to_peer) (add_track-switches c i t)
]

send_to_peers-switches :
    (ps : List (Text × Peer)) (t : ℕ) (c : Calls) → SameSwitches (send_to_peers c t ps).0 c
unfolding send_to_peers
send_to_peers-switches [] t c = switches_refl c
send_to_peers-switches ((k, peer) ∷ ps) t c =
    let s = send_to_peer-switches c t peer.pc in
    let d = (send_to_peer c t peer.pc).0 in
    in_thrown (λ x. SameSwitches x c) (send_to_peer c t peer.pc).1 (d, true) (send_to_peers d t ps)
      s (switches_trans _ d c (send_to_peers-switches ps t d) s)

-- The switch is on, and the gain is `g`.
record IsOn (kind : MediaKind) (g : ℕ) (c : Calls) : Type 0 where
  on : is_on kind c ≡ true
  gain : c.mic_gain ≡ g

same-IsOn :
    (kind : MediaKind) (g : ℕ) (d c : Calls) → SameSwitches d c → IsOn kind g c → IsOn kind g d
same-IsOn audio g d c s h = record { on = s.mic ∙ h.on; gain = s.gain ∙ h.gain }
same-IsOn video g d c s h = record { on = s.cam ∙ h.on; gain = s.gain ∙ h.gain }

set_flag-IsOn : (kind : MediaKind) (c : Calls) → IsOn kind c.mic_gain (set_flag c kind true)
set_flag-IsOn audio c = record { on = refl; gain = refl }
set_flag-IsOn video c = record { on = refl; gain = refl }

set_track_enabled-IsOn :
    (kind : MediaKind) (g : ℕ) (c : Calls)
    → IsOn kind g c
    → IsOn kind g (set_track_enabled c kind true).0
unfolding set_track_enabled
set_track_enabled-IsOn audio g c h = record {
  on = ground (arith, h.on);
  gain = ground (arith, h.gain);
}
set_track_enabled-IsOn video g c h = record {
  on = ground (arith, h.on);
  gain = ground (arith, h.gain);
}

finish_media-IsOn :
    (kind : MediaKind) (g : ℕ) (c : Calls) → IsOn kind g c → IsOn kind g (finish_media c kind).0
unfolding finish_media
finish_media-IsOn kind g c h =
    in_option (IsOn kind g) (find (on_track c (λ track. is_kind track.kind kind)) (my_tracks c)) _ _
      (set_track_enabled-IsOn kind g c h)
      λ t.
        let d = (send_to_peers c t c.peers).0 in
        let k = same-IsOn kind g d c (send_to_peers-switches c.peers t c) h in
        in_if (IsOn kind g) _ _ _ k (set_track_enabled-IsOn kind g d k)

gain-get_send_audio_track : (c : Calls) → (get_send_audio_track c).mic_gain ≡ c.mic_gain
unfolding get_send_audio_track process_track
gain-get_send_audio_track c = ground arith

end_opening-IsOn :
    (b : Bool) (kind : MediaKind) (g : ℕ) (c : Calls)
    → IsOn kind g c
    → IsOn kind g (end_opening b c)
end_opening-IsOn true audio g c h = record { on = h.on; gain = h.gain }
end_opening-IsOn true video g c h = record { on = h.on; gain = h.gain }
end_opening-IsOn false kind g c h = h

take_stream-IsOn : (kind : MediaKind) (c : Calls) → IsOn kind c.mic_gain (take_stream c kind)
unfolding take_stream
take_stream-IsOn kind c =
    subst (λ g. IsOn kind g (take_stream c kind)) (gain-get_send_audio_track (add_stream c kind))
      (set_flag-IsOn kind (get_send_audio_track (add_stream c kind)))

module _ (p : Platform) where
  -- When the browser gives the stream that a switch has waited for, the switch is on afterwards and
  -- the gain is what it was, whatever has happened in between: also after `hangupAll`, and also when
  -- the gain has been set to 0 meanwhile.
  pub granted_turns_on :
      (c : Calls) (t : ℕ) (kind : MediaKind) (from_mic : Bool)
      → lookup t c.tasks ≡ some (user_media kind from_mic)
      → (is_on kind (settle p c t granted).0 ≡ true)
        × ((settle p c t granted).0.mic_gain ≡ c.mic_gain)
  unfolding resume
  granted_turns_on c t kind from_mic h = (k.on, k.gain)
    where
      d : Calls
      d = record c { tasks = erase t c.tasks }

      k : IsOn kind c.mic_gain (settle p c t granted).0
      k = rw (settle_lem p c t (user_media kind from_mic) granted h) (
          finish_media-IsOn kind c.mic_gain _
            (end_opening-IsOn from_mic kind c.mic_gain _ (take_stream-IsOn kind d)))
