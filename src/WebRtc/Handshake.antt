-- ===== src/WebRtc/Handshake.antt =====
-- `connectTo`, `handleOffer` and `handleAnswer` of `useWebRTC` at the two ends of a call.
use chat_serve.Base.{
  ℕ, ◌≡◌, true, [], ◌∷◌, ◌++◌, none, some, arith, nat_eq, list_eq, Dict, lookup, lookup-insert_self,
  Option-cases, inl, inr,
}
use chat_serve.Text.{Text, lit, Lacks}
use chat_serve.Chat.State.{Chat, Moment, nick_of}
use chat_serve.Chat.Routing.{handle_text_message}
use chat_serve.Chat.Calls.{with_rtc-rtc}
use chat_serve.Chat.Signals.{offer_lem, answer_lem}
use chat_serve.WebRtc.State.{
  Connection, Calls, Platform, await, offer, answer, Accept, accept_remote,
}
use chat_serve.WebRtc.Peers.{get_peer, change_connection, close_peer, create_pc, new_connection}
use chat_serve.WebRtc.Signals.{set_remote, accept_fresh, handle_offer, handle_answer}
use chat_serve.WebRtc.Events.{web_rtc}
use chat_serve.WebRtc.Pairs.{pc_at}

lookup-change :
    (i : ℕ) (f : Connection → Connection) (pc : Connection) (m : Dict ℕ Connection)
    → lookup i m ≡ some pc
    → lookup i (change_connection i f m) ≡ some (f pc)
unfolding change_connection
lookup-change i f pc m e = rw (e, change_connection) (lookup-insert_self i (f pc) m)

next_task-close_peer : (c : Calls) (k : Text) → (close_peer c k).next_task ≡ c.next_task
unfolding close_peer
next_task-close_peer c k = ground arith

-- The connection of a peer for which `createPC` has just run, when the other end's text is set on it
abbrev pub offered : Text → Text → Connection
offered from sdp = record (new_connection from) { remote = offer sdp ∷ [] }

abbrev pub accepting : ℕ → (from nick payload : Text) → Accept
accepting i from nick payload = record {
  pc = i;
  from_id = from;
  from_nick = nick;
  sdp_base64 = payload;
  is_fresh = true;
}

module _ (p : Platform) where
  accept_fresh_lem :
      (c : Calls) (from nick payload sdp : Text)
      → p.atob payload ≡ some sdp
      → (lookup c.next_connection (accept_fresh p c from nick payload).0.connections
          ≡ some (offered from sdp))
        × (lookup c.next_task (accept_fresh p c from nick payload).0.tasks
            ≡ some (accept_remote (accepting c.next_connection from nick payload)))
  unfolding accept_fresh set_remote create_pc await
  accept_fresh_lem c from nick payload sdp e =
      rw (e, accept_fresh)
        (
          lookup-change c.next_connection _ (new_connection from) (create_pc c from).connections
              (lookup-insert_self c.next_connection _ _),
          rw (next_task-close_peer c from) (lookup-insert_self c.next_task _ _),
        )

  -- An offer from a peer that has no connection yet
  handle_offer_new :
      (c : Calls) (from nick payload sdp : Text)
      → pc_at c.peers from ≡ none
      → p.atob payload ≡ some sdp
      → (lookup c.next_connection (handle_offer p c from nick payload).0.connections
          ≡ some (offered from sdp))
        × (lookup c.next_task (handle_offer p c from nick payload).0.tasks
            ≡ some (accept_remote (accepting c.next_connection from nick payload)))
  unfolding handle_offer pc_at get_peer
  handle_offer_new c from nick payload sdp h e = elim (Option-cases (lookup from c.peers)) [
    | inl f ↦ rw (h, handle_offer, f, get_peer) (accept_fresh_lem _ from nick payload sdp e)
    | inr (peer, f) ↦ rw (h, handle_offer, f, get_peer) (accept_fresh_lem c from nick payload sdp e)
  ]

  -- An offer comes as base64 from a peer to which the client has no connection, and whose id has no
  -- bar: then the client has a new open connection for that peer, on which just the text of the offer
  -- is set as the remote one, and waits to accept it. `atob` is taken to undo `btoa` on that text.
  pub offer_arrives :
      (c : Chat Calls) (at : Moment) (from sdp : Text)
      → p.atob (p.btoa sdp) ≡ some sdp
      → Lacks b'|' from
      → pc_at c.rtc.peers from ≡ none
      → let d =
          (handle_text_message
            (web_rtc p)
            c
            at
            (lit "OFFER|" ++ (from ++ b'|' ∷ p.btoa sdp))).rtc in
        let a = accepting c.rtc.next_connection from (nick_of c.member_list from) (p.btoa sdp) in
        (lookup c.rtc.next_connection d.connections ≡ some (offered from sdp))
        × (lookup c.rtc.next_task d.tasks ≡ some (accept_remote a))
  unfolding web_rtc
  offer_arrives c at from sdp e h k =
      rw (offer_lem (web_rtc p) c at from (p.btoa sdp) h, with_rtc-rtc)
        (handle_offer_new c.rtc from (nick_of c.member_list from) (p.btoa sdp) sdp k e)

  -- An answer comes as base64 from a peer to which the client has a connection, and whose id has no
  -- bar: just the text of the answer is set as the remote one on that connection, behind what was set
  -- before. `atob` is taken to undo `btoa` on that text.
  answer_arrives :
      (c : Chat Calls) (at : Moment) (from sdp : Text) (i : ℕ) (pc : Connection)
      → p.atob (p.btoa sdp) ≡ some sdp
      → Lacks b'|' from
      → pc_at c.rtc.peers from ≡ some i
      → lookup i c.rtc.connections ≡ some pc
      → lookup i
          (handle_text_message
            (web_rtc p)
            c
            at
            (lit "ANSWER|" ++ (from ++ b'|' ∷ p.btoa sdp))).rtc.connections
        ≡ some (record pc { remote = pc.remote ++ answer sdp ∷ [] })
  unfolding web_rtc handle_answer pc_at set_remote
  answer_arrives c at from sdp i pc e h k l =
      rw (answer_lem (web_rtc p) c at from (p.btoa sdp) h, with_rtc-rtc, k, handle_answer, e)
        (lookup-change i _ pc c.rtc.connections l)
