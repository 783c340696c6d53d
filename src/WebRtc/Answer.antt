-- ===== src/WebRtc/Answer.antt =====
-- `acceptOffer` of `useWebRTC` behind its promises.
use chat_serve.Base.{
  ℕ, ◌≡◌, refl, ap, ◌∙◌, Bool, true, false, not, ◌&&◌, List, [], ◌∷◌, some, arith, nat_eq, list_eq,
  lookup, erase, lookup-insert_self, Option-cases, Bool-cases, inl, inr,
}
use chat_serve.Text.{Text}
use chat_serve.WebRtc.State.{
  Calls, Platform, await, Accept, Task, Outcome, accept_remote, accept_answer, accept_local, done,
  described,
}
use chat_serve.WebRtc.Media.{
  add_track, add_tracks, add_my_tracks, get_send_audio_track, process_track, notify_media_state,
  on_track, is_sent, my_tracks,
}
use chat_serve.WebRtc.Signals.{send_answer, accepted, resume, settle}
use chat_serve.WebRtc.Pairs.{owner}
use chat_serve.WebRtc.Pairs.Media.{add_track-same, get_send_audio_track-same}

-- A track is added to an open connection without an exception.
add_track_open :
    (c : Calls) (i t : ℕ) (k : Text) → owner c.connections i ≡ some k → (add_track c i t).1 ≡ false
unfolding add_track owner
add_track_open c i t k h = ground arith

add_track-flags :
    (c : Calls) (i t : ℕ)
    → ((add_track c i t).0.cam_on ≡ c.cam_on) × ((add_track c i t).0.mic_on ≡ c.mic_on)
unfolding add_track
add_track-flags c i t = (ground arith, ground arith)

-- The tracks are added, and the switches stay.
abbrev IsAdded : Calls × Bool → Calls → Type 0
IsAdded r c = (r.1 ≡ false) × (r.0.cam_on ≡ c.cam_on) × (r.0.mic_on ≡ c.mic_on)

IsAdded-trans :
    (r : Calls × Bool) (d c : Calls)
    → IsAdded r d
    → d.cam_on ≡ c.cam_on
    → d.mic_on ≡ c.mic_on
    → IsAdded r c
IsAdded-trans r d c h k l = (h.0, h.1 ∙ k, h.2 ∙ l)

add_tracks_open :
    (ts : List ℕ) (c : Calls) (i : ℕ) (k : Text)
    → owner c.connections i ≡ some k
    → IsAdded (add_tracks c i ts) c
unfolding add_tracks
add_tracks_open [] c i k h = (refl, refl, refl)
add_tracks_open (t ∷ ts) c i k h =
    elim (Bool-cases (on_track c (λ track. track.is_live) t && not (is_sent c i t))) [
      | inl e ↦
          simp (e, add_tracks, add_track_open c i t k h)
            (IsAdded-trans (add_tracks d i ts) d c
              (add_tracks_open ts d i k ((add_track-same c i t).owners i ∙ h))
              (add_track-flags c i t).0 (add_track-flags c i t).1)
      | inr e ↦ simp (e, add_tracks) (add_tracks_open ts c i k h)
    ]
  where
    d : Calls
    d = (add_track c i t).0

get_send_audio_track-flags :
    (c : Calls)
    → ((get_send_audio_track c).cam_on ≡ c.cam_on) × ((get_send_audio_track c).mic_on ≡ c.mic_on)
unfolding get_send_audio_track process_track
get_send_audio_track-flags c = (ground arith, ground arith)

add_my_tracks_open :
    (c : Calls) (i : ℕ) (k : Text) → owner c.connections i ≡ some k → IsAdded (add_my_tracks c i) c
unfolding add_my_tracks
add_my_tracks_open c i k h = elim (Option-cases c.my_stream) [
  | inl e ↦ simp (e, add_my_tracks) (refl, refl, refl)
  | inr (ts, e) ↦
      simp (e, add_my_tracks)
        (IsAdded-trans (add_tracks d i (my_tracks d)) d c
          (add_tracks_open (my_tracks d) d i k ((get_send_audio_track-same c).owners i ∙ h))
          (get_send_audio_track-flags c).0 (get_send_audio_track-flags c).1)
]
  where
    d : Calls
    d = get_send_audio_track c

awaited : (c : Calls) (task : Task) → lookup c.next_task (await c task).tasks ≡ some task
unfolding await
awaited c task = lookup-insert_self c.next_task task c.tasks

module _ (p : Platform) where
  -- The rest of `acceptOffer` on the open connection of the peer
  accepted_open :
      (c : Calls) (a : Accept)
      → a.is_fresh ≡ true
      → owner c.connections a.pc ≡ some a.from_id
      → (accepted p c a).1 ≡ notify_media_state c a.from_id
  unfolding accepted
  accepted_open c a f h =
      let s = add_my_tracks_open c a.pc a.from_id h in
      rw (f, accepted, s.0, notify_media_state, s.1, s.2) refl

  pub settle_lem :
      (c : Calls) (t : ℕ) (task : Task) (o : Outcome)
      → lookup t c.tasks ≡ some task
      → settle p c t o ≡ resume p (record c { tasks = erase t c.tasks }) task o
  unfolding settle
  settle_lem c t task o h = simp (h, settle) refl

  remote_set :
      (c : Calls) (t : ℕ) (a : Accept)
      → lookup t c.tasks ≡ some (accept_remote a)
      → settle p c t done ≡ (await (record c { tasks = erase t c.tasks }) (accept_answer a), [])
  unfolding resume
  remote_set c t a h = settle_lem c t _ done h

  answer_made :
      (c : Calls) (t : ℕ) (a : Accept) (sdp : Text)
      → lookup t c.tasks ≡ some (accept_answer a)
      → settle p c t (described sdp)
        ≡ (await (record c { tasks = erase t c.tasks }) (accept_local a sdp), [])
  unfolding resume
  answer_made c t a sdp h = settle_lem c t _ (described sdp) h

  answer_set :
      (c : Calls) (t : ℕ) (a : Accept) (sdp : Text)
      → lookup t c.tasks ≡ some (accept_local a sdp)
      → (settle p c t done).1
        ≡ send_answer p a.from_id sdp ∷ (accepted p (record c { tasks = erase t c.tasks }) a).1
  unfolding resume
  answer_set c t a sdp h = ap (λ x. x.1) (settle_lem c t _ done h)

  -- A peer that has a new connection, on which the offer is being set, answers. When the browser has
  -- set the offer, made an answer and set it, the first thing sent is the answer as base64 to the
  -- peer that made the offer, and then come the states of the camera and the microphone.
  pub answer_sent :
      (c : Calls) (t : ℕ) (a : Accept) (sdp : Text)
      → lookup t c.tasks ≡ some (accept_remote a)
      → a.is_fresh ≡ true
      → owner c.connections a.pc ≡ some a.from_id
      → let d = (settle p c t done).0 in
        let e = (settle p d c.next_task (described sdp)).0 in
        (settle p e d.next_task done).1
        ≡ send_answer p a.from_id sdp ∷ notify_media_state c a.from_id
  unfolding await
  answer_sent c t a sdp l f h =
      rw
        (
          remote_set c t a l,
          answer_made d c.next_task a sdp
              (awaited (record c { tasks = erase t c.tasks }) (accept_answer a)),
          answer_set e _ a sdp
              (awaited (record d { tasks = erase c.next_task d.tasks }) (accept_local a sdp)),
        )
        (ap (send_answer p a.from_id sdp ∷◌) (accepted_open _ a f h))
    where
      d : Calls
      d = await (record c { tasks = erase t c.tasks }) (accept_answer a)

      e : Calls
      e = await (record d { tasks = erase c.next_task d.tasks }) (accept_local a sdp)
