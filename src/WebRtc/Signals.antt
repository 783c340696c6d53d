-- ===== src/WebRtc/Signals.antt =====
-- `connectTo`, the signals of the other peers, and what the asynchronous functions of `useWebRTC` go
-- on with. What runs between two promises of the platform is one step.
use chat_serve.Base.{
  ℕ, true, false, List, [], ◌∷◌, ◌++◌, none, some, if◌then◌else◌, ◌===◌, list_eq, nat_eq, lookup,
  insert, erase, find,
}
use chat_serve.Text.{Text, lit}
use chat_serve.Notice.{connect_failed, call_failed, media_refused}
use chat_serve.Transfer.State.{Effect, send_command, add_system_message}
use chat_serve.Chat.State.{Member}
use chat_serve.WebRtc.State.{
  Description, offer, answer, Accept, Task, connect_offer, connect_local, negotiate_offer,
  negotiate_local, accept_remote, accept_answer, accept_local, user_media, Outcome, done, described,
  granted, failed, Calls, CallStep, Platform, await,
}
use chat_serve.WebRtc.Peers.{peer_of, get_peer, change_connection, close_peer, create_pc}
use chat_serve.WebRtc.Media.{
  add_my_tracks, notify_media_state, take_stream, finish_media, end_opening,
}

-- `(peer && peer.nick) || peerId`
unfoldable pub name_of : List Member → Text → Text
name_of members peer_id = elim (find (λ m. m.id === peer_id) members) [
  | none ↦ peer_id
  | some m ↦ elim m.nick [ [] ↦ peer_id | c ∷ nick ↦ c ∷ nick ]
]

-- `connectTo` behind its guard, up to its first `await`
unfoldable pub start_connect : List Member → Calls → Text → CallStep
unfolding name_of
start_connect members c peer_id =
    let d = (add_my_tracks (create_pc c peer_id) c.next_connection).0 in
    (
      await d (connect_offer c.next_connection peer_id (name_of members peer_id)),
      notify_media_state d peer_id,
    )

unfoldable pub connect_to : (my_id : Text) → List Member → Calls → (peer_id : Text) → CallStep
unfolding start_connect
connect_to my_id members c peer_id =
    if peer_id === my_id
    then (c, [])
    else elim (lookup peer_id c.peers) [ some _ ↦ (c, []) | none ↦ start_connect members c peer_id ]

-- `pc.setRemoteDescription(d)` as it is called
unfoldable pub set_remote : Calls → ℕ → Description → Calls
set_remote c i d = record c {
  connections =
      change_connection i (λ pc. record pc { remote = pc.remote ++ d ∷ [] }) c.connections;
}

abbrev pub say_call_failed : Calls → Text → CallStep
say_call_failed c nick = (c, add_system_message (call_failed nick) ∷ [])

-- `acceptOffer` up to its first `await`, where `atob` gives the text
abbrev pub start_accept : Calls → Accept → (sdp : Text) → CallStep
start_accept c a sdp = (await (set_remote c a.pc (offer sdp)) (accept_remote a), [])

module _ (p : Platform) where
  -- `handleOffer` behind its first try
  unfoldable pub accept_fresh : Calls → (from_id from_nick sdp_base64 : Text) → CallStep
  unfolding set_remote
  accept_fresh c from_id from_nick sdp_base64 =
      let d = create_pc c from_id in
      elim (p.atob sdp_base64) [
        | none ↦ say_call_failed d from_nick
        | some sdp ↦
            start_accept d
              (record {
                pc = c.next_connection;
                from_id = from_id;
                from_nick = from_nick;
                sdp_base64 = sdp_base64;
                is_fresh = true;
              })
              sdp
      ]

  -- The handler of the first try
  abbrev pub accept_again : Calls → (from_id from_nick sdp_base64 : Text) → CallStep
  accept_again c from_id from_nick sdp_base64 =
      accept_fresh (close_peer c from_id) from_id from_nick sdp_base64

  unfoldable pub handle_offer : Calls → (from_id from_nick sdp_base64 : Text) → CallStep
  unfolding accept_fresh set_remote
  handle_offer c from_id from_nick sdp_base64 =
      let d = get_peer c from_id in
      elim (peer_of c.peers from_id).pc [
        | none ↦ accept_fresh d from_id from_nick sdp_base64
        | some i ↦ elim (p.atob sdp_base64) [
          | none ↦ accept_again d from_id from_nick sdp_base64
          | some sdp ↦
              start_accept d
                (record {
                  pc = i;
                  from_id = from_id;
                  from_nick = from_nick;
                  sdp_base64 = sdp_base64;
                  is_fresh = false;
                })
                sdp
        ]
      ]

  unfoldable pub handle_answer : Calls → (from_id sdp_base64 : Text) → CallStep
  unfolding set_remote
  handle_answer c from_id sdp_base64 = elim (peer_of c.peers from_id).pc [
    | none ↦ (c, [])
    | some i ↦ elim (p.atob sdp_base64) [
      | none ↦ (c, [])
      | some sdp ↦ (set_remote c i (answer sdp), [])
    ]
  ]

  -- `pc.addIceCandidate(new RTCIceCandidate(JSON.parse(json)))`
  abbrev pub add_candidate : Calls → ℕ → Text → Calls
  add_candidate c i json = record c {
    connections =
        change_connection i (λ pc. record pc { candidates = pc.candidates ++ json ∷ [] })
          c.connections;
  }

  unfoldable pub handle_ice : Calls → (from_id candidate_base64 : Text) → CallStep
  handle_ice c from_id candidate_base64 = elim (peer_of c.peers from_id).pc [
    | none ↦ (c, [])
    | some i ↦ elim (p.atob candidate_base64) [
      | none ↦ (c, [])
      | some json ↦ (if p.is_candidate json then add_candidate c i json else c, [])
    ]
  ]

  -- What follows a failure in `acceptOffer`
  unfoldable pub accept_failed : Calls → Accept → CallStep
  unfolding accept_fresh
  accept_failed c a =
      if a.is_fresh
      then say_call_failed c a.from_nick
      else accept_again c a.from_id a.from_nick a.sdp_base64

  -- What follows `acceptOffer` in `handleOffer`
  unfoldable pub accepted : Calls → Accept → CallStep
  accepted c a =
      if a.is_fresh
      then (let (d, threw) = add_my_tracks c a.pc in
          if threw then say_call_failed d a.from_nick else (d, notify_media_state d a.from_id))
      else (c, [])

  abbrev pub send_offer : Text → Text → Effect
  send_offer peer_id sdp = send_command (lit "OFFER|" ++ (peer_id ++ (lit "|" ++ p.btoa sdp)))

  abbrev pub send_answer : Text → Text → Effect
  send_answer peer_id sdp = send_command (lit "ANSWER|" ++ (peer_id ++ (lit "|" ++ p.btoa sdp)))

  -- What an asynchronous function does when the promise that it awaits settles. Other outcomes do not
  -- fit the promise.
  unfoldable pub resume : Calls → Task → Outcome → CallStep
  unfolding accept_failed accepted
  resume c (connect_offer i peer_id name) (described sdp) =
      (await c (connect_local i peer_id name sdp), [])
  resume c (connect_offer i peer_id name) (failed _) =
      (c, add_system_message (connect_failed name) ∷ [])
  resume c (connect_local i peer_id name sdp) done = (c, send_offer peer_id sdp ∷ [])
  resume c (connect_local i peer_id name sdp) (failed _) =
      (c, add_system_message (connect_failed name) ∷ [])
  resume c (negotiate_offer i peer_id) (described _) = (await c (negotiate_local i peer_id), [])
  resume c (negotiate_local i peer_id) (described sdp) = (c, send_offer peer_id sdp ∷ [])
  resume c (accept_remote a) done = (await c (accept_answer a), [])
  resume c (accept_remote a) (failed _) = accept_failed c a
  resume c (accept_answer a) (described sdp) = (await c (accept_local a sdp), [])
  resume c (accept_answer a) (failed _) = accept_failed c a
  resume c (accept_local a sdp) done =
      let (d, effects) = accepted c a in (d, send_answer a.from_id sdp ∷ effects)
  resume c (accept_local a sdp) (failed _) = accept_failed c a
  resume c (user_media kind from_mic) granted =
      finish_media (end_opening from_mic (take_stream c kind)) kind
  resume c (user_media kind from_mic) (failed message) =
      (end_opening from_mic c, add_system_message (media_refused message) ∷ [])
  resume c _ _ = (c, [])

  -- A promise settles
  unfoldable pub settle : Calls → ℕ → Outcome → CallStep
  unfolding resume
  settle c i outcome = elim (lookup i c.tasks) [
    | none ↦ (c, [])
    | some task ↦ resume (record c { tasks = erase i c.tasks }) task outcome
  ]

unfoldable pub handle_media : Calls → (from_id kind state : Text) → Calls
handle_media c from_id kind state =
    let peer = peer_of c.peers from_id in
    record c {
      peers =
          insert from_id (record peer { media_state = insert kind state peer.media_state }) c.peers;
    }
