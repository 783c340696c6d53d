-- ===== src/WebRtc/Pairs.antt =====
-- Peers and open connections of `useWebRTC`: which belongs to which.
pub mod Same
pub mod Media
pub mod Signals
pub mod Run
use chat_serve.Base.{
  ℕ, suc, ◌+◌, ◌≤◌, ◌≡◌, ◌≢◌, refl, sym, subst, ap, ◌∙◌, ◌↔◌, Bool, true, false, not, List, [], ◌∷◌,
  ◌++◌, Option, none, some, if◌then◌else◌, arith, ◌===◌, list_eq, nat_eq, list_beq_iff, nat_beq_iff,
  nat_beq, Dict, lookup, insert, erase, keys, lookup-insert, lookup-erase, Option-cases, Bool-cases,
  inl, inr,
}
use chat_serve.Text.{Text}
use chat_serve.WebRtc.State.{Peer, new_peer, Connection, Calls}
use chat_serve.WebRtc.Peers.{
  peer_of, get_peer, change_connection, close_connection, close_peer, new_connection, create_pc,
  close_all, change_peer_of,
}

-- The peer that an open connection belongs to.
unfoldable pub owner : Dict ℕ Connection → ℕ → Option Text
owner connections i = elim (lookup i connections) [
  | none ↦ none
  | some pc ↦ if pc.is_closed then none else some pc.peer_id
]

-- The connection that a peer has.
unfoldable pub pc_at : Dict Text Peer → Text → Option ℕ
unfolding peer_of
pc_at peers peer_id = (peer_of peers peer_id).pc

-- The open connections and the connections of the peers are the same, each open one that of the peer
-- that its handlers are for; a number that is not given out yet is no connection's.
pub record IsPaired (c : Calls) : Type 0 where
  pub paired :
      (i : ℕ) (peer_id : Text)
      → (owner c.connections i ≡ some peer_id) ↔ (pc_at c.peers peer_id ≡ some i)
  pub fresh : (i : ℕ) → c.next_connection ≤ i → owner c.connections i ≡ none

pub owner-insert :
    (i j : ℕ) (pc : Connection) (m : Dict ℕ Connection)
    → owner (insert i pc m) j
      ≡ (if i === j then (if pc.is_closed then none else some pc.peer_id) else owner m j)
unfolding owner
owner-insert i j pc m = ground (arith, lookup-insert i j pc m)

pub pc_at-insert :
    (k j : Text) (peer : Peer) (m : Dict Text Peer)
    → pc_at (insert k peer m) j ≡ (if k === j then peer.pc else pc_at m j)
unfolding pc_at
pc_at-insert k j peer m = ground (arith, lookup-insert k j peer m)

pc_at-erase :
    (k j : Text) (m : Dict Text Peer) → pc_at (erase k m) j ≡ (if k === j then none else pc_at m j)
unfolding pc_at
pc_at-erase k j m = ground (arith, lookup-erase k j m)

-- The owner after a connection is closed, if there is one.
abbrev pub owner_without : Option ℕ → ℕ → Option Text → Option Text
owner_without none j o = o
owner_without (some i) j o = if i === j then none else o

owner-close :
    (i j : ℕ) (m : Dict ℕ Connection)
    → owner (change_connection i close_connection m) j ≡ owner_without (some i) j (owner m j)
unfolding change_connection owner
owner-close i j m = elim (Option-cases (lookup i m)) [
  | inl e ↦ rw (e, change_connection) (ground (arith, e, nat_beq_iff i j))
  | inr (pc, e) ↦
      rw (e, change_connection) (ground (arith, lookup-insert i j (close_connection pc) m))
]

pub pc_at-none : (k : Text) (m : Dict Text Peer) → lookup k m ≡ none → pc_at m k ≡ none
unfolding pc_at peer_of
pc_at-none k m e = rw (e, pc_at) refl

pub pc_at-some :
    (k : Text) (m : Dict Text Peer) (peer : Peer) → lookup k m ≡ some peer → pc_at m k ≡ peer.pc
unfolding pc_at peer_of
pc_at-some k m peer e = rw (e, pc_at) refl

pc_at_absent :
    (k j : Text) (m : Dict Text Peer)
    → lookup k m ≡ none
    → pc_at m j ≡ (if k === j then none else pc_at m j)
pc_at_absent k j m e = elim (Bool-cases (k === j)) [
  | inl same ↦
      rw same (subst (λ x. pc_at m x ≡ none) ((list_beq_iff k j).0 same) (pc_at-none k m e))
  | inr other ↦ rw other refl
]

pub pc_at-close_peer :
    (c : Calls) (k j : Text)
    → pc_at (close_peer c k).peers j ≡ (if k === j then none else pc_at c.peers j)
unfolding close_peer
pc_at-close_peer c k j = elim (Option-cases (lookup k c.peers)) [
  | inl e ↦ rw (e, close_peer) (pc_at_absent k j c.peers e)
  | inr (peer, e) ↦ elim (Option-cases peer.pc) [
    | inl f ↦ rw (e, close_peer, f) (pc_at-erase k j c.peers)
    | inr (i, f) ↦ rw (e, close_peer, f) (pc_at-erase k j c.peers)
  ]
]

pub owner-close_peer :
    (c : Calls) (k : Text) (j : ℕ)
    → owner (close_peer c k).connections j
      ≡ owner_without (pc_at c.peers k) j (owner c.connections j)
unfolding close_peer
owner-close_peer c k j = elim (Option-cases (lookup k c.peers)) [
  | inl e ↦ rw (e, close_peer, pc_at-none k c.peers e) refl
  | inr (peer, e) ↦ elim (Option-cases peer.pc) [
    | inl f ↦ rw (e, close_peer, pc_at-some k c.peers peer e, f) refl
    | inr (i, f) ↦
        rw (e, close_peer, pc_at-some k c.peers peer e, f) (owner-close i j c.connections)
  ]
]

pub next-close_peer : (c : Calls) (k : Text) → (close_peer c k).next_connection ≡ c.next_connection
unfolding close_peer
next-close_peer c k = ground arith

-- Closing a peer keeps the others in pairs.
pub close_peer-IsPaired : (c : Calls) (k : Text) → IsPaired c → IsPaired (close_peer c k)
close_peer-IsPaired c k h = record {
  paired = λ i id.
      rw (owner-close_peer c k i, pc_at-close_peer c k id)
        (ground (arith, h.paired i id, h.paired i k, list_beq_iff k id));
  fresh = λ i le. rw (owner-close_peer c k i) (ground (arith, h.fresh i, next-close_peer c k));
}

pub pc_at-create_pc :
    (c : Calls) (k j : Text)
    → pc_at (create_pc c k).peers j ≡ (if k === j then some c.next_connection else pc_at c.peers j)
unfolding create_pc
pc_at-create_pc c k j = ground (
  arith,
  pc_at-insert k j
      (record {
        pc = some c.next_connection;
        stream = some [];
        media_state = (peer_of c.peers k).media_state;
        media_tick = 0;
      })
      (close_peer c k).peers,
  pc_at-close_peer c k j,
)

pub owner-create_pc :
    (c : Calls) (k : Text) (j : ℕ)
    → owner (create_pc c k).connections j ≡ (
        if c.next_connection === j
        then some k
        else owner_without (pc_at c.peers k) j (owner c.connections j))
unfolding create_pc
owner-create_pc c k j = ground (
  arith,
  owner-insert c.next_connection j (new_connection k) (close_peer c k).connections,
  owner-close_peer c k j,
)

next-create_pc : (c : Calls) (k : Text) → (create_pc c k).next_connection ≡ suc c.next_connection
unfolding create_pc
next-create_pc c k = refl

pub create_pc-IsPaired : (c : Calls) (k : Text) → IsPaired c → IsPaired (create_pc c k)
create_pc-IsPaired c k h = record {
  paired = λ i id.
      rw (owner-create_pc c k i, pc_at-create_pc c k id)
        (ground (
          arith,
          h.paired i id,
          h.paired i k,
          h.paired c.next_connection id,
          h.fresh c.next_connection,
          list_beq_iff k id,
        ));
  fresh = λ i le. rw (owner-create_pc c k i) (ground (arith, h.fresh i, next-create_pc c k));
}
