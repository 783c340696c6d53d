-- ===== src/WebRtc/Pairs/Same.antt =====
-- Steps of `useWebRTC` that make and close no connection: the media, and the calls on a connection.
use chat_serve.Base.{
  ℕ, ◌≡◌, refl, sym, ap, ◌∙◌, Bool, true, false, none, some, if◌then◌else◌, arith, ◌===◌, list_eq,
  nat_eq, list_beq_iff, nat_beq_iff, Dict, lookup, insert, Option-cases, Bool-cases, inl, inr,
}
use chat_serve.Text.{Text}
use chat_serve.WebRtc.State.{Peer, new_peer, Connection, Calls, Task, await, Description}
use chat_serve.WebRtc.Peers.{get_peer, change_connection, change_peer_of}
use chat_serve.WebRtc.Signals.{set_remote, handle_media}
use chat_serve.WebRtc.Pairs.{
  owner, pc_at, IsPaired, owner-insert, pc_at-insert, pc_at-some, pc_at-none,
}

-- Two states with the same pairs of peers and open connections.
pub record SamePairs (d c : Calls) : Type 0 where
  pub owners : (i : ℕ) → owner d.connections i ≡ owner c.connections i
  pub pcs : (k : Text) → pc_at d.peers k ≡ pc_at c.peers k
  pub next : d.next_connection ≡ c.next_connection

pub same-IsPaired : (d c : Calls) → SamePairs d c → IsPaired c → IsPaired d
same-IsPaired d c s h = record {
  paired = λ i k. rw (s.owners i, s.pcs k) (h.paired i k);
  fresh = λ i le. rw (s.owners i) (h.fresh i (omega (arith, s.next)));
}

pub same_refl : (c : Calls) → SamePairs c c
same_refl c = record { owners = λ i. refl; pcs = λ k. refl; next = refl }

pub same_trans : (e d c : Calls) → SamePairs e d → SamePairs d c → SamePairs e c
same_trans e d c s t = record {
  owners = λ i. s.owners i ∙ t.owners i;
  pcs = λ k. s.pcs k ∙ t.pcs k;
  next = s.next ∙ t.next;
}

pub same_if :
    (b : Bool) (x y c : Calls) → SamePairs x c → SamePairs y c → SamePairs (if b then x else y) c
same_if true x y c s t = s
same_if false x y c s t = t

-- The part of the state that no switch of the media touches.
pub same_parts :
    (d c : Calls)
    → d.peers ≡ c.peers
    → d.connections ≡ c.connections
    → d.next_connection ≡ c.next_connection
    → SamePairs d c
same_parts d c p q n = record {
  owners = λ i. ap (λ m. owner m i) q;
  pcs = λ k. ap (λ m. pc_at m k) p;
  next = n;
}

owner_entry :
    (j : ℕ) (pc : Connection) (m : Dict ℕ Connection)
    → lookup j m ≡ some pc
    → owner m j ≡ (if pc.is_closed then none else some pc.peer_id)
unfolding owner
owner_entry j pc m e = rw (e, owner) refl

pub same_entry :
    (i j : ℕ) (pc pc' : Connection) (m : Dict ℕ Connection)
    → lookup i m ≡ some pc
    → pc'.is_closed ≡ pc.is_closed
    → pc'.peer_id ≡ pc.peer_id
    → owner (insert i pc' m) j ≡ owner m j
same_entry i j pc pc' m e h k =
    ground (arith, owner-insert i j pc' m, owner_entry i pc m e, nat_beq_iff i j)

-- A change of a connection that leaves its peer and its end alone
pub owner-change :
    (i j : ℕ) (f : Connection → Connection) (m : Dict ℕ Connection)
    → ((pc : Connection) → (f pc).is_closed ≡ pc.is_closed)
    → ((pc : Connection) → (f pc).peer_id ≡ pc.peer_id)
    → owner (change_connection i f m) j ≡ owner m j
unfolding change_connection
owner-change i j f m h k = elim (Option-cases (lookup i m)) [
  | inl e ↦ rw (e, change_connection) refl
  | inr (pc, e) ↦ rw (e, change_connection) (same_entry i j pc (f pc) m e (h pc) (k pc))
]

pub set_remote-same : (c : Calls) (i : ℕ) (d : Description) → SamePairs (set_remote c i d) c
unfolding set_remote
set_remote-same c i d = record {
  owners = λ j. owner-change i j _ c.connections (λ pc. refl) (λ pc. refl);
  pcs = λ k. refl;
  next = refl;
}

-- An entry of a peer that keeps the peer's connection
pub insert_peer-same :
    (c : Calls) (k : Text) (peer : Peer)
    → peer.pc ≡ pc_at c.peers k
    → SamePairs (record c { peers = insert k peer c.peers }) c
insert_peer-same c k peer h = record {
  owners = λ i. refl;
  pcs = λ j. pc_at-insert k j peer c.peers ∙ same_at j;
  next = refl;
}
  where
    same_at : (j : Text) → (if k === j then peer.pc else pc_at c.peers j) ≡ pc_at c.peers j
    same_at j = elim (Bool-cases (k === j)) [
      | inl same ↦ rw same (h ∙ ap (pc_at c.peers) ((list_beq_iff k j).0 same))
      | inr other ↦ rw other refl
    ]

pub handle_media-same :
    (c : Calls) (from_id kind state : Text) → SamePairs (handle_media c from_id kind state) c
unfolding handle_media pc_at
handle_media-same c from_id kind state = insert_peer-same c from_id _ refl

pub get_peer-same : (c : Calls) (k : Text) → SamePairs (get_peer c k) c
unfolding get_peer
get_peer-same c k = elim (Option-cases (lookup k c.peers)) [
  | inl e ↦ rw (e, get_peer) (insert_peer-same c k new_peer (sym (pc_at-none k c.peers e)))
  | inr (peer, e) ↦ rw (e, get_peer) (same_refl c)
]

pub await-same : (c : Calls) (t : Task) → SamePairs (await c t) c
unfolding await
await-same c t = same_parts _ c refl refl refl

pub change_peer_of-same :
    (c : Calls) (i : ℕ) (f : Peer → Peer) (k : Text)
    → ((peer : Peer) → (f peer).pc ≡ peer.pc)
    → SamePairs (change_peer_of c i f k) c
unfolding change_peer_of
change_peer_of-same c i f k h = elim (Option-cases (lookup k c.peers)) [
  | inl e ↦ rw (e, change_peer_of) (same_refl c)
  | inr (peer, e) ↦ elim (Option-cases peer.pc) [
    | inl p ↦ rw (e, change_peer_of, p) (same_refl c)
    | inr (j, p) ↦
        rw (e, change_peer_of, p)
          (same_if (j === i) _ _ c
            (insert_peer-same c k (f peer) (h peer ∙ sym (pc_at-some k c.peers peer e)))
            (same_refl c))
  ]
]
