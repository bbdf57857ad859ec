-- ===== src/Server.antt =====
-- FileServer of server.go, with sendMessage, broadcast and OnPeer of mesh_util.go and Dial of
-- p2p/tcp_transport.go.
pub mod Broadcast
pub mod Up
pub mod Keeps
use peer_store.Prelude.{ℕ, Option, none, some, List, ◌≡◌, refl, ◌∷◌, [], Bytes}
use peer_store.Result.{
  Exec, Result, ok, err, ◌>>=◌, ◌>>◌, pure, try, encode_failed, peer_missing, dial_failed,
}
use peer_store.Message.{Network, Message}
use peer_store.Host.{Host}
use peer_store.Disk.{Disk}
use peer_store.Store.{Store}
use peer_store.Chord.{NodeRef, ChordNode}
use peer_store.Peer.{Peer, Peers, send, incoming_message, find_peer, put_peer, each}

-- `chord` is nil on a node of the mesh. `pending` is the node's map of requests that wait for an
-- answer, each with what is in its channel, and `requests` counts the requests so far. `network` is the variable of that name, and `disk` what the store's files are on. `addr` is the
-- address on which the transport listens.
pub record Server : Type 0 where
  pub addr : Bytes
  pub network : Network
  pub store : Store
  pub disk : Disk
  pub peers : Peers
  pub chord : Option ChordNode
  pub pending : List (Bytes × Option NodeRef)
  pub requests : ℕ

abbrev pub on_disk : {A : Type 0} → Exec Disk A → Exec Server A
on_disk m s = let (r, d) = m s.disk in (r, record s { disk = d })

abbrev pub on_peers : {A : Type 0} → Exec Peers A → Exec Server A
on_peers m s = let (r, ps) = m s.peers in (r, record s { peers = ps })

abbrev pub put_back : {A : Type 0} → Bytes → Server → Result A × Peer → Result A × Server
put_back a s (r, p) = (r, record s { peers = put_peer a p s.peers })

-- A call on `s.peers[a]`, which is an error where there is none.
unfoldable pub at_peer : {A : Type 0} → Bytes → Exec Peer A → Exec Server A
at_peer a m s = elim (find_peer a s.peers) [
  | none ↦ (err peer_missing, s)
  | some p ↦ put_back a s (m p)
]

pub at_peer_lem :
    {A : Type 0} (a : Bytes) (m : Exec Peer A) (s : Server) (p : Peer) (r : Result A × Peer)
    → find_peer a s.peers ≡ some p
    → m p ≡ r
    → at_peer a m s ≡ put_back a s r
unfolding at_peer
at_peer_lem a m s p r there e = rw (at_peer, there, e) refl

pub at_peer-none :
    {A : Type 0} (a : Bytes) (m : Exec Peer A) (s : Server)
    → find_peer a s.peers ≡ none
    → at_peer a m s ≡ (err peer_missing, s)
unfolding at_peer
at_peer-none a m s absent = rw (at_peer, absent) refl

-- The two writes of a message: an error of the first is dropped.
unfoldable pub send_bytes : Bytes → Exec Peer Unit
send_bytes buf = do try (send (incoming_message ∷ [])); send buf

module _ (h : Host) where
  unfoldable pub send_message : Message → Exec Peer Unit
  send_message msg p = elim (h.encode_message msg) [
    | none ↦ (err encode_failed, p)
    | some buf ↦ send_bytes buf p
  ]

  unfoldable pub broadcast : Message → Exec Server Unit
  broadcast msg s = elim (h.encode_message msg) [
    | none ↦ (err encode_failed, s)
    | some buf ↦ on_peers (each (send_bytes buf)) s
  ]

unfoldable pub on_peer : Bytes → Peer → Exec Server Unit
unfolding put_peer
on_peer remote p s = (ok tt, record s { peers = put_peer remote p s.peers })

-- `net` tells whether net.Dial succeeds, and gives the remote address and the connection. The peer
-- is in the map by the time that the caller has slept.
unfoldable pub dial : (Bytes → Option (Bytes × Peer)) → Bytes → Exec Server Bytes
unfolding on_peer
dial net a s = elim (net a) [
  | none ↦ (err dial_failed, s)
  | some (remote, p) ↦ (do on_peer remote p; pure remote) s
]
