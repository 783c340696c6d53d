-- ===== src/WebRtc/Peers.antt =====
-- The peers of `useWebRTC`: making, closing and finding their connections.
use chat_serve.Base.{
  ℕ, suc, true, false, List, [], ◌∷◌, none, some, if◌then◌else◌, ◌===◌, list_eq, nat_eq, Dict,
  lookup, insert, erase, filter, not,
}
use chat_serve.Text.{Text}
use chat_serve.Chat.State.{Member}
use chat_serve.WebRtc.State.{Peer, new_peer, Connection, Calls}

-- `getPeer`: the peer, which is in `peers` from then on
unfoldable pub peer_of : Dict Text Peer → Text → Peer
peer_of peers peer_id = elim (lookup peer_id peers) [ none ↦ new_peer | some peer ↦ peer ]

unfoldable pub get_peer : Calls → Text → Calls
get_peer c peer_id = elim (lookup peer_id c.peers) [
  | none ↦ record c { peers = insert peer_id new_peer c.peers }
  | some peer ↦ c
]

-- A change of the connection that the number stands for.
unfoldable pub change_connection :
    ℕ → (Connection → Connection) → Dict ℕ Connection → Dict ℕ Connection
change_connection i change connections = elim (lookup i connections) [
  | none ↦ connections
  | some pc ↦ insert i (change pc) connections
]

-- `pc.onconnectionstatechange = null; pc.close()`
abbrev pub close_connection : Connection → Connection
close_connection pc = record pc { is_closed = true }

unfoldable pub close_peer : Calls → Text → Calls
close_peer c peer_id = elim (lookup peer_id c.peers) [
  | none ↦ c
  | some peer ↦
      let d = record c { peers = erase peer_id c.peers } in
      elim peer.pc [
        | none ↦ d
        | some i ↦ record d { connections = change_connection i close_connection c.connections }
      ]
]

-- `new RTCPeerConnection(rtcConfig)` with handlers for that peer
abbrev pub new_connection : Text → Connection
new_connection peer_id = record {
  peer_id = peer_id;
  is_closed = false;
  senders = [];
  remote = [];
  candidates = [];
}

-- `createPC`; the connection that it returns is number `c.next_connection`
unfoldable pub create_pc : Calls → Text → Calls
create_pc c peer_id =
    let d = close_peer c peer_id in
    record d {
      peers =
          insert peer_id
            (record {
              pc = some c.next_connection;
              stream = some [];
              media_state = (peer_of c.peers peer_id).media_state;
              media_tick = 0;
            })
            d.peers;
      connections = insert c.next_connection (new_connection peer_id) d.connections;
      next_connection = suc c.next_connection;
    }

-- The loop of `hangupAll`
unfoldable pub close_all : Calls → List Text → Calls
close_all c [] = c
close_all c (peer_id ∷ ids) = close_all (close_peer c peer_id) ids

-- The peer whose connection is number `i`: the object that the handlers of that connection change
unfoldable pub change_peer_of : Calls → ℕ → (Peer → Peer) → Text → Calls
change_peer_of c i change peer_id = elim (lookup peer_id c.peers) [
  | none ↦ c
  | some peer ↦ elim peer.pc [
    | none ↦ c
    | some j ↦ if j === i then record c { peers = insert peer_id (change peer) c.peers } else c
  ]
]

-- `removePeer`, with the list of members
unfoldable pub remove_peer : Calls → List Member → Text → Calls × List Member
unfolding close_peer
remove_peer c members peer_id = (close_peer c peer_id, filter (λ m. not (m.id === peer_id)) members)
