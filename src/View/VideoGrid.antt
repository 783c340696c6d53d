-- ===== src/View/VideoGrid.antt =====
-- web/src/components/VideoGrid.vue: the cells of the members, and which of them show a video. What a
-- video element plays is not kept, only whether the member has one.
use chat_serve.Base.{
  ℕ, ◌+◌, ◌*◌, ◌-◌, ◌/◌, ◌≤◌, ◌<◌, ◌≡◌, inl, inr, refl, subst, eq_refl, ◌∙◌, ap, Bool, true, false,
  not, ◌&&◌, List, [], ◌∷◌, ◌++◌, none, some, if◌then◌else◌, arith, leb, list_eq, nat_eq,
  list_beq_iff, ◌===◌, Dict, lookup, insert, keep_entries, lookup-insert, Bool-cases,
}
use chat_serve.Text.{Text, lit}
use chat_serve.Chat.State.{Member}
use chat_serve.WebRtc.State.{video, Track, Peer, Calls}
use chat_serve.WebRtc.Media.{any, is_kind, on_track, mic_live}

-- `peers[id]?.mediaState?.[kind] === state`
unfoldable pub tells : Dict Text Peer → (id kind state : Text) → Bool
tells peers id kind state = elim (lookup id peers) [
  | none ↦ false
  | some peer ↦ elim (lookup kind peer.media_state) [ none ↦ false | some s ↦ s === state ]
]

module _ (c : Calls) (my_id : Text) where
  unfoldable pub mic_open : Text → Bool
  unfolding tells
  mic_open id = if id === my_id then mic_live c else tells c.peers id (lit "audio") (lit "on")

  abbrev pub is_visible : Track → Bool
  is_visible track = is_kind track.kind video && track.is_live && not track.muted

  -- `peer.stream?.getVideoTracks().some(…)`
  abbrev pub shows : Peer → Bool
  shows peer = elim peer.stream [ none ↦ false | some ts ↦ any (on_track c is_visible) ts ]

  unfoldable pub has_live_video : Text → Bool
  unfolding tells
  has_live_video id =
      if id === my_id
      then (elim c.my_stream [ none ↦ false | some _ ↦ c.cam_on ])
      else elim (lookup id c.peers) [
        | none ↦ false
        | some peer ↦ if tells c.peers id (lit "video") (lit "off") then false else shows peer
      ]

  -- The first loop of `updateVideos`; `elements` are those that are mounted.
  unfoldable pub mark : Dict Text Bool → List Member → Dict Text Bool → Dict Text Bool
  unfolding has_live_video
  mark elements [] active = active
  mark elements (m ∷ ms) active = mark elements ms (elim (lookup m.id elements) [
    | some true ↦ insert m.id (has_live_video m.id) active
    | _ ↦ active
  ])

abbrev pub is_member : Text → List Member → Bool
is_member id [] = false
is_member id (m ∷ ms) = if m.id === id then true else is_member id ms

unfoldable pub update_videos :
    Calls → Text → Dict Text Bool → List Member → Dict Text Bool → Dict Text Bool
unfolding mark
update_videos c my_id elements members active =
    keep_entries (λ id _. is_member id members) (mark c my_id elements members active)

-- `videoEls.value[m.id] = el`, with whether `el` is there
unfoldable pub bind_video : Dict Text Bool → Text → Bool → Dict Text Bool
bind_video elements id is_there = insert id is_there elements

unfoldable pub cols : ℕ → ℕ
cols n = if leb n 1 then 1 else if leb n 4 then 2 else if leb n 9 then 3 else 4

-- `Math.ceil(n / cols)`
unfoldable pub rows : ℕ → ℕ
unfolding cols
rows n = (n + (cols n - 1)) / cols n

unfoldable pub name_of_cell : Text → Member → Text
name_of_cell my_id m = m.nick ++ (if m.id === my_id then lit "（我）" else [])

keep-lookup :
    (p : Text → Bool) (j : Text) (m : Dict Text Bool)
    → lookup j (keep_entries (λ k _. p k) m) ≡ (if p j then lookup j m else none)
unfolding lookup
keep-lookup p j [] = ground arith
keep-lookup p j ((k, v) ∷ m) = elim (Bool-cases (k === j)) [
  | inl same ↦ ground (arith, same, ap p ((list_beq_iff k j).0 same), keep-lookup p j m)
  | inr other ↦ ground (arith, other, keep-lookup p j m)
]

abbrev is_mounted : Dict Text Bool → Text → Bool
is_mounted elements id = elim (lookup id elements) [ none ↦ false | some b ↦ b ]

-- The step of the loop for one member
abbrev mark_one : Calls → Text → Dict Text Bool → Text → Dict Text Bool → Dict Text Bool
mark_one c my_id elements k active = elim (lookup k elements) [
  | some true ↦ insert k (has_live_video c my_id k) active
  | _ ↦ active
]

mark_one_self :
    (c : Calls) (my_id : Text) (elements : Dict Text Bool) (k : Text) (active : Dict Text Bool)
    → lookup k (mark_one c my_id elements k active)
      ≡ (if is_mounted elements k then some (has_live_video c my_id k) else lookup k active)
mark_one_self c my_id elements k active =
    ground (arith, lookup-insert k k (has_live_video c my_id k) active, eq_refl k)

mark_one_other :
    (c : Calls) (my_id : Text) (elements : Dict Text Bool) (k j : Text) (active : Dict Text Bool)
    → (k === j) ≡ false
    → lookup j (mark_one c my_id elements k active) ≡ lookup j active
mark_one_other c my_id elements k j active h =
    ground (arith, lookup-insert k j (has_live_video c my_id k) active, h)

mark_one_lem :
    (c : Calls) (my_id : Text) (elements : Dict Text Bool) (k j : Text) (active : Dict Text Bool)
    → lookup j (mark_one c my_id elements k active) ≡ (
        if (k === j) && is_mounted elements j
        then some (has_live_video c my_id j)
        else lookup j active)
mark_one_lem c my_id elements k j active = elim (Bool-cases (k === j)) [
  | inl same ↦ rw same (
      subst
        (λ i.
          lookup i (mark_one c my_id elements k active)
          ≡ (if is_mounted elements i then some (has_live_video c my_id i) else lookup i active))
        ((list_beq_iff k j).0 same) (mark_one_self c my_id elements k active))
  | inr other ↦ rw other (mark_one_other c my_id elements k j active other)
]

mark_lem :
    (c : Calls) (my_id : Text) (elements : Dict Text Bool) (ms : List Member)
    (active : Dict Text Bool) (id : Text)
    → lookup id (mark c my_id elements ms active) ≡ (
        if is_member id ms && is_mounted elements id
        then some (has_live_video c my_id id)
        else lookup id active)
unfolding mark
mark_lem c my_id elements [] active id = refl
mark_lem c my_id elements (m ∷ ms) active id =
    mark_lem c my_id elements ms (mark_one c my_id elements m.id active) id
    ∙ ground (arith, mark_one_lem c my_id elements m.id id active)

-- Each cell's entry after `updateVideos`, for every id: none for an id that is no member's; for a
-- member whose video element is mounted, whether the member has a live video now; for any other
-- member, what it was.
pub update_videos_lem :
    (c : Calls) (my_id : Text) (elements : Dict Text Bool) (ms : List Member)
    (active : Dict Text Bool) (id : Text)
    → lookup id (update_videos c my_id elements ms active) ≡ (
        if is_member id ms
        then (if is_mounted elements id then some (has_live_video c my_id id) else lookup id active)
        else none)
unfolding update_videos
update_videos_lem c my_id elements ms active id =
    keep-lookup (λ k. is_member k ms) id _ ∙ ground (arith, mark_lem c my_id elements ms active id)

-- The grid has a cell for each member, at most four in a row, and no row without a member.
pub grid_fits :
    (n : ℕ) → (n ≤ cols n * rows n) × (1 ≤ cols n) × (cols n ≤ 4) × (cols n * rows n < n + cols n)
unfolding rows cols
grid_fits n = (ground arith, ground arith, ground arith, ground arith)
