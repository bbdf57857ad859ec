-- ===== src/Node.antt =====
-- A node of the Chord ring with its connections: what the methods of ChordNode and its handlers share.
pub mod Request
pub mod Answer
pub mod Remote
pub mod Handlers
pub mod Maintain
pub mod Transfer
pub mod Files
pub mod Keeps
use peer_store.Prelude.{
  ℕ, Bool, Option, none, some, List, [], ◌∷◌, if◌then◌else◌, Bytes, bytes_eq, ◌≡◌, arith,
}
use peer_store.Result.{Exec, ok, err, ◌>>=◌, pure, peer_missing, not_initialized}
use peer_store.Chord.{NodeRef, ChordNode}
use peer_store.Peer.{Peer, find_peer}
use peer_store.Server.{Server}

-- A FindSuccessorResponse with the address of the connection on which it came.
pub record Response : Type 0 where
  pub from : Bytes
  pub node_id : Bytes
  pub node_addr : Bytes
  pub request_id : Bytes

-- What the node meets outside: whether and where a Dial connects, the time at each request, and the
-- responses that the node's loop handles while it waits for the answer to a request. Nothing else
-- happens during a wait.
pub record World : Type 0 where
  pub net : Bytes → Option (Bytes × Peer)
  pub now : ℕ → ℕ
  pub arrivals : Bytes → List Response

-- A method of a node that is there, or the error that each handler gives where it is not.
unfoldable pub on_node : {A : Type 0} → (ChordNode → Exec Server A) → Exec Server A
on_node f s = elim s.chord [ none ↦ (err not_initialized, s) | some n ↦ f n s ]

unfoldable pub set_node : (ChordNode → ChordNode) → Exec Server Unit
set_node f s = (ok tt, record s { chord = elim s.chord [ none ↦ none | some n ↦ some (f n) ] })

module _ (s : Server) (n : ChordNode) (here : s.chord ≡ some n) where
  pub on_node_lem : {A : Type 0} (f : ChordNode → Exec Server A) → on_node f s ≡ f n s
  unfolding on_node
  on_node_lem f = ground arith

  pub set_node_lem :
      (f : ChordNode → ChordNode) → set_node f s ≡ (ok tt, record s { chord = some (f n) })
  unfolding set_node
  set_node_lem f = ground arith

-- `s.peers[a]`, asked only whether it is there.
unfoldable pub has_peer : Bytes → Exec Server Unit
has_peer a s = elim (find_peer a s.peers) [ none ↦ (err peer_missing, s) | some _ ↦ (ok tt, s) ]

-- A call, and a deferred one that runs when it has returned.
abbrev pub deferring : {A : Type 0} → (Server → Server) → Exec Server A → Exec Server A
deferring cleanup m s = let (r, s') = m s in (r, cleanup s')

-- The key set of the map `responsibles`.
unfoldable pub add_key : Bytes → List Bytes → List Bytes
add_key cid [] = cid ∷ []
add_key cid (c ∷ cs) = let rest = add_key cid cs in if bytes_eq c cid then c ∷ cs else c ∷ rest

unfoldable pub remove_key : Bytes → List Bytes → List Bytes
remove_key cid [] = []
remove_key cid (c ∷ cs) = let rest = remove_key cid cs in if bytes_eq c cid then rest else c ∷ rest

unfoldable pub take_on : Bytes → Exec Server Unit
take_on cid = set_node (λ n. record n { responsibles = add_key cid n.responsibles })

unfoldable pub let_go : Bytes → Exec Server Unit
let_go cid = set_node (λ n. record n { responsibles = remove_key cid n.responsibles })
