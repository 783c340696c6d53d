-- ===== src/WebRtc/Switches.antt =====
-- The switches of `useWebRTC`: `setTrackEnabled`, `toggleMic` and `toggleVolume`.
use chat_serve.Base.{
  ℕ, ◌≡◌, refl, ap, ◌∙◌, subst, Bool, true, false, ◌||◌, List, [], ◌∷◌, map, Option, none, some,
  if◌then◌else◌, arith, ltb, nat_beq_iff, Dict, lookup, insert, keys, filter, lookup-insert,
  Option-cases, inl, inr, nat_eq, list_eq,
}
use chat_serve.Transfer.State.{Effect}
use chat_serve.WebRtc.State.{MediaKind, audio, video, kind_text, Track, Calls, CallStep, Platform}
use chat_serve.WebRtc.Media.{
  is_kind, on_track, my_tracks, any, live_of, has_live_track, change_tracks, set_flag,
  set_track_enabled, media_command, state_text, ensure_mic_on, put_gain, set_mic_gain, mic_live,
  toggle_mic,
}

abbrev set_enabled : Bool → Track → Track
set_enabled b track = record track { enabled = b }

-- A test of a track that does not look at whether it is enabled
abbrev IsBlind : (Track → Bool) → Type 0
IsBlind test = (b : Bool) (track : Track) → test (set_enabled b track) ≡ test track

abbrev test_at : Dict ℕ Track → (Track → Bool) → ℕ → Bool
test_at tracks test t = elim (lookup t tracks) [ none ↦ false | some track ↦ test track ]

enable_one : (b : Bool) (s : ℕ) (m : Dict ℕ Track) → Dict ℕ Track
enable_one b s m = elim (lookup s m) [ none ↦ m | some track ↦ insert s (set_enabled b track) m ]

test-enable_one :
    (b : Bool) (test : Track → Bool) (s t : ℕ) (m : Dict ℕ Track)
    → IsBlind test
    → test_at (enable_one b s m) test t ≡ test_at m test t
unfolding enable_one
test-enable_one b test s t m h = elim (Option-cases (lookup s m)) [
  | inl e ↦ simp (e, enable_one) refl
  | inr (track, e) ↦
      simp (e, enable_one)
        (ground (arith, lookup-insert s t (set_enabled b track) m, nat_beq_iff s t, h b track))
]

test-change_tracks :
    (b : Bool) (test : Track → Bool) (ts : List ℕ) (t : ℕ) (m : Dict ℕ Track)
    → IsBlind test
    → test_at (change_tracks (set_enabled b) ts m) test t ≡ test_at m test t
unfolding change_tracks enable_one
test-change_tracks b test [] t m h = refl
test-change_tracks b test (s ∷ ts) t m h =
    test-change_tracks b test ts t (enable_one b s m) h ∙ test-enable_one b test s t m h

any_ext : (f g : ℕ → Bool) (ts : List ℕ) → ((t : ℕ) → f t ≡ g t) → any f ts ≡ any g ts
any_ext f g [] h = refl
any_ext f g (t ∷ ts) h = rw (h t, any_ext f g ts h) refl

-- `setTrackEnabled` with a stream
abbrev set_tracks : Calls → MediaKind → Bool → List ℕ → Calls
set_tracks c kind b ts =
    set_flag
      (record c {
        tracks =
            change_tracks (set_enabled b)
              (filter (on_track c (λ track. is_kind track.kind kind)) ts) c.tracks;
      })
      kind b

abbrev tell_all : Calls → MediaKind → Bool → List Effect
tell_all c kind b = map (λ k. media_command k (kind_text kind) (state_text b)) (keys c.peers)

set_track_enabled_lem :
    (c : Calls) (kind : MediaKind) (b : Bool) (ts : List ℕ)
    → c.my_stream ≡ some ts
    → set_track_enabled c kind b ≡ (set_tracks c kind b ts, tell_all c kind b)
unfolding set_track_enabled
set_track_enabled_lem c kind b ts e =
    ap
      (λ (o : Option (List ℕ)). elim o as (λ _. CallStep) [
        | none ↦ (c, [])
        | some ts' ↦ (set_tracks c kind b ts', tell_all c kind b)
      ])
      e

-- Enabling tracks leaves what is live.
live-set_tracks :
    (c : Calls) (kind other : MediaKind) (b : Bool) (ts : List ℕ)
    → has_live_track (set_tracks c kind b ts) other ≡ has_live_track c other
unfolding has_live_track on_track
live-set_tracks c audio other b ts =
    any_ext _ _ (my_tracks c)
      λ t. test-change_tracks b (live_of other) _ t c.tracks (λ b' track. refl)
live-set_tracks c video other b ts =
    any_ext _ _ (my_tracks c)
      λ t. test-change_tracks b (live_of other) _ t c.tracks (λ b' track. refl)

live_stream :
    (c : Calls) (kind : MediaKind)
    → has_live_track c kind ≡ true
    → (ts : List ℕ) × (c.my_stream ≡ some ts)
unfolding has_live_track
live_stream c kind h = elim (Option-cases c.my_stream) [
  | inl e ↦ ground (
    arith,
    subst
        (λ (o : Option (List ℕ)).
          any (on_track c (live_of kind)) (elim o [ none ↦ [] | some ts ↦ ts ]) ≡ true)
        e h,
  )
  | inr (ts, e) ↦ (ts, e)
]

if_true : {A : Type 0} (b : Bool) (x y : A) → b ≡ true → (if b then x else y) ≡ x
if_true b x y e = rw e refl

if_false : {A : Type 0} (b : Bool) (x y : A) → b ≡ false → (if b then x else y) ≡ y
if_false b x y e = rw e refl

module _ (p : Platform) where
  -- The microphone is switched off: the gain that it had is kept.
  mic_off :
      (c : Calls) (ts : List ℕ)
      → mic_live c ≡ true
      → c.my_stream ≡ some ts
      → toggle_mic p c ≡ (
        set_tracks (put_gain (record c { last_mic_gain = c.mic_gain }) 0) audio false ts,
        tell_all c audio false,
      )
  unfolding toggle_mic set_mic_gain
  mic_off c ts h e =
      simp (h, toggle_mic)
        (set_track_enabled_lem (put_gain (record c { last_mic_gain = c.mic_gain }) 0) audio false ts
          e)

  ensured :
      (d : Calls) (ts : List ℕ)
      → d.mic_on ≡ false
      → d.opening_mic ≡ false
      → has_live_track d audio ≡ true
      → d.my_stream ≡ some ts
      → ensure_mic_on p d ≡ (set_tracks d audio true ts, tell_all d audio true)
  unfolding ensure_mic_on
  ensured d ts h k m e =
      if_false (d.mic_on || d.opening_mic) _ _ (ground (arith, h, k))
      ∙ if_true (has_live_track d audio) _ _ m
      ∙ set_track_enabled_lem d audio true ts e

  gain_up :
      (c : Calls) (g : ℕ) → ltb 0 g ≡ true → set_mic_gain p c g ≡ ensure_mic_on p (put_gain c g)
  unfolding set_mic_gain
  gain_up c g l = if_true (ltb 0 g) (ensure_mic_on p (put_gain c g)) _ l

  toggled_on :
      (c : Calls)
      → c.mic_on ≡ false
      → ltb 0 c.last_mic_gain ≡ true
      → toggle_mic p c ≡ set_mic_gain p c c.last_mic_gain
  unfolding toggle_mic
  toggled_on c h l =
      if_false (mic_live c) (set_mic_gain p (record c { last_mic_gain = c.mic_gain }) 0) _
        (ground (arith, h))
      ∙ ap (set_mic_gain p c) (if_true (ltb 0 c.last_mic_gain) c.last_mic_gain 100 l)

  -- And on
  mic_on_again :
      (c : Calls) (ts : List ℕ)
      → c.mic_on ≡ false
      → c.opening_mic ≡ false
      → ltb 0 c.last_mic_gain ≡ true
      → has_live_track c audio ≡ true
      → c.my_stream ≡ some ts
      → toggle_mic p c
        ≡ (set_tracks (put_gain c c.last_mic_gain) audio true ts, tell_all c audio true)
  unfolding has_live_track on_track
  mic_on_again c ts h k l m e =
      toggled_on c h l
      ∙ gain_up c c.last_mic_gain l
      ∙ ensured (put_gain c c.last_mic_gain) ts h k m e

  -- The microphone, where it is live and has a live track, is switched off by one click, with every
  -- peer told once, and by the next click it is live again with the gain that it had, and every peer
  -- is told once.
  pub toggle_mic_twice :
      (c : Calls)
      → mic_live c ≡ true
      → c.opening_mic ≡ false
      → has_live_track c audio ≡ true
      → let (d, off) = toggle_mic p c in
        let (e, on) = toggle_mic p d in
        (mic_live d ≡ false)
        × (mic_live e ≡ true)
        × (e.mic_gain ≡ c.mic_gain)
        × (off ≡ map (λ k. media_command k (kind_text audio) (state_text false)) (keys c.peers))
        × (on ≡ map (λ k. media_command k (kind_text audio) (state_text true)) (keys c.peers))
  unfolding has_live_track
  toggle_mic_twice c h k m =
      let (ts, e) = live_stream c audio m in
      let zero_gain = put_gain (record c { last_mic_gain = c.mic_gain }) 0 in
      let off = mic_off c ts h e in
      let on =
        mic_on_again (set_tracks zero_gain audio false ts) ts refl k (ground (arith, h))
          (live-set_tracks zero_gain audio audio false ts ∙ m) e in
      rw (off, on) (refl, ground (arith, h), refl, refl, refl)
