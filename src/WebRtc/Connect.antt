-- ===== src/WebRtc/Connect.antt =====
-- Peers and connections of `useWebRTC`: calling twice, and offers that are no base64.
use chat_serve.Base.{
  ℕ, ◌≡◌, refl, ap, subst, ◌∙◌, true, false, List, [], ◌∷◌, none, some, if◌then◌else◌, arith, ◌===◌,
  nat_eq, list_eq, nat_beq_iff, eq_refl, Dict, lookup, lookup-insert_self, lookup-erase_self,
  Option-cases, Bool-cases, inl, inr,
}
use chat_serve.Text.{Text}
use chat_serve.Notice.{call_failed}
use chat_serve.Transfer.State.{add_system_message}
use chat_serve.Chat.State.{Member}
use chat_serve.WebRtc.State.{Peer, new_peer, Calls, Platform}
use chat_serve.WebRtc.Peers.{peer_of, get_peer, close_peer, create_pc, new_connection}
use chat_serve.WebRtc.Signals.{start_connect, connect_to, accept_fresh, handle_offer}
use chat_serve.WebRtc.Pairs.{
  owner, pc_at, pc_at-none, pc_at-create_pc, owner-create_pc, owner-close_peer, next-close_peer,
  IsPaired,
}
use chat_serve.WebRtc.Pairs.Same.{await-same}
use chat_serve.WebRtc.Pairs.Media.{add_my_tracks-same}

-- The peer that `start_connect` calls has the new connection.
start_connect_pc :
    (members : List Member) (c : Calls) (k : Text)
    → pc_at (start_connect members c k).0.peers k ≡ some c.next_connection
unfolding start_connect
start_connect_pc members c k =
    (await-same _ _).pcs k
    ∙ (add_my_tracks-same (create_pc c k) c.next_connection).pcs k
    ∙ pc_at-create_pc c k k
    ∙ ap (λ b. if b then some c.next_connection else pc_at c.peers k) (eq_refl k)

module _ (my_id : Text) (members : List Member) (c : Calls) (k : Text) where
  connect_self : (k === my_id) ≡ true → connect_to my_id members c k ≡ (c, [])
  unfolding connect_to
  connect_self f = simp (f, connect_to) refl

  connect_known :
      (peer : Peer) → lookup k c.peers ≡ some peer → connect_to my_id members c k ≡ (c, [])
  unfolding connect_to
  connect_known peer e = elim (Bool-cases (k === my_id)) [
    | inl f ↦ simp (f, connect_to) refl
    | inr f ↦ simp (f, e, connect_to) refl
  ]

  connect_new :
      (k === my_id) ≡ false
      → lookup k c.peers ≡ none
      → connect_to my_id members c k ≡ start_connect members c k
  unfolding connect_to
  connect_new f e = simp (f, e, connect_to) refl

-- Calling a peer a second time, at once, changes nothing more and sends nothing more.
pub connect_once :
    (my_id : Text) (members : List Member) (c : Calls) (k : Text)
    → connect_to my_id members (connect_to my_id members c k).0 k
      ≡ ((connect_to my_id members c k).0, [])
connect_once my_id members c k = elim (Bool-cases (k === my_id)) [
  | inl f ↦ rw (connect_self my_id members c k f) (connect_self my_id members c k f)
  | inr f ↦ elim (Option-cases (lookup k c.peers)) [
    | inr (peer, e) ↦
        rw (connect_known my_id members c k peer e) (connect_known my_id members c k peer e)
    | inl e ↦ rw (connect_new my_id members c k f e) started
  ]
]
  where
    d : Calls
    d = (start_connect members c k).0

    started : connect_to my_id members d k ≡ (d, [])
    started = elim (Option-cases (lookup k d.peers)) [
      | inl e ↦ ground (arith, pc_at-none k d.peers e, start_connect_pc members c k)
      | inr (peer, e) ↦ connect_known my_id members d k peer e
    ]

get_peer-lookup : (c : Calls) (k : Text) (i : ℕ) → pc_at c.peers k ≡ some i → get_peer c k ≡ c
unfolding get_peer
get_peer-lookup c k i h = elim (Option-cases (lookup k c.peers)) [
  | inl e ↦ ground (arith, pc_at-none k c.peers e, h)
  | inr (peer, e) ↦ rw (e, get_peer) refl
]

pub lookup-close_peer : (c : Calls) (k : Text) → lookup k (close_peer c k).peers ≡ none
unfolding close_peer
lookup-close_peer c k = elim (Option-cases (lookup k c.peers)) [
  | inl e ↦ simp (e, close_peer) refl
  | inr (peer, e) ↦ elim (Option-cases peer.pc) [
    | inl f ↦ simp (e, close_peer, f) (lookup-erase_self k c.peers)
    | inr (i, f) ↦ simp (e, close_peer, f) (lookup-erase_self k c.peers)
  ]
]

peer-create_pc :
    (c : Calls) (k : Text)
    → peer_of (create_pc c k).peers k ≡ record {
      pc = some c.next_connection;
      stream = some [];
      media_state = (peer_of c.peers k).media_state;
      media_tick = 0;
    }
unfolding create_pc peer_of
peer-create_pc c k = rw (lookup-insert_self k _ (close_peer c k).peers, peer_of) refl

-- The connection that takes the place of the closed one is as `new RTCPeerConnection` makes it.
connection-create_pc :
    (c : Calls) (k : Text)
    → lookup c.next_connection (create_pc (close_peer c k) k).connections ≡ some (new_connection k)
unfolding create_pc
connection-create_pc c k =
    subst (λ i. lookup i (create_pc (close_peer c k) k).connections ≡ some (new_connection k))
      (next-close_peer c k)
      (lookup-insert_self (close_peer c k).next_connection (new_connection k)
        (close_peer (close_peer c k) k).connections)

peer_of-none : (k : Text) (m : Dict Text Peer) → lookup k m ≡ none → peer_of m k ≡ new_peer
unfolding peer_of
peer_of-none k m e = rw (e, peer_of) refl

module _ (p : Platform) where
  -- A failed attempt makes a new connection and says so.
  accept_fresh_bad :
      (c : Calls) (k nick payload : Text)
      → p.atob payload ≡ none
      → accept_fresh p c k nick payload
        ≡ (create_pc c k, add_system_message (call_failed nick) ∷ [])
  unfolding accept_fresh
  accept_fresh_bad c k nick payload e = simp (e, accept_fresh) refl

  handle_offer_bad :
      (c : Calls) (k nick payload : Text) (i : ℕ)
      → pc_at c.peers k ≡ some i
      → p.atob payload ≡ none
      → handle_offer p c k nick payload
        ≡ (create_pc (close_peer c k) k, add_system_message (call_failed nick) ∷ [])
  unfolding handle_offer pc_at
  handle_offer_bad c k nick payload i h e =
      simp (h, e, handle_offer, get_peer-lookup c k i h)
        (accept_fresh_bad (close_peer c k) k nick payload e)

  -- An offer that is no base64 ends the call with the peer that it comes from: its open connection is
  -- closed, a new one takes its place as the peer's, with no track added, no description set and no
  -- candidate, the user is told once that the call has failed, and the media switches that the peer had
  -- told are forgotten. Connections and peers are in pairs.
  pub bad_offer_ends_call :
      (c : Calls) (k nick payload : Text) (i : ℕ)
      → IsPaired c
      → pc_at c.peers k ≡ some i
      → p.atob payload ≡ none
      → let (d, effects) = handle_offer p c k nick payload in
        (owner d.connections i ≡ none)
        × (lookup c.next_connection d.connections ≡ some (new_connection k))
        × (pc_at d.peers k ≡ some c.next_connection)
        × ((peer_of d.peers k).media_state ≡ [])
        × (effects ≡ add_system_message (call_failed nick) ∷ [])
  bad_offer_ends_call c k nick payload i h l e =
      rw (handle_offer_bad c k nick payload i l e, peer-create_pc)
        (
          ground (
            arith,
            owner-create_pc d k i,
            owner-close_peer c k i,
            next-close_peer c k,
            (h.paired i k).1 l,
            h.fresh c.next_connection,
            l,
            nat_beq_iff c.next_connection i,
          ),
          connection-create_pc c k,
          ground (arith, pc_at-create_pc d k k, eq_refl k, next-close_peer c k),
          ap (λ (x : Peer). x.media_state) (peer_of-none k d.peers (lookup-close_peer c k)),
          refl,
        )
    where
      d : Calls
      d = close_peer c k
