-- ===== src/Chord.antt =====
-- chord.go and chord_util.go: the state of one Chord node and its local decisions.
pub mod Closest
pub mod Routing
pub mod Lookup
pub mod Stabilize
pub mod Transfer
pub mod Gaps
use peer_store.Prelude.{
  ℕ, zero, suc, Bool, true, false, Option, none, some, List, [], ltb, if◌then◌else◌, Bytes,
  bytes_eq,
}
use peer_store.Ring.{id_bits, is_between}
use peer_store.Ring.BigInt.{set_bytes}
use peer_store.Host.{Host}

-- What the code reads through a `*ChordNode` that points to a node, itself or another: neither
-- field is ever written again.
pub record NodeRef : Type 0 where
  pub id : ℕ
  pub address : Bytes

-- `fingers` is the array of M pointers, read at indices below M; `none` is nil. `responsibles` is
-- the key set of the map, in the order in which a `range` visits it.
pub record ChordNode : Type 0 where
  pub id : ℕ
  pub address : Bytes
  pub successor : Option NodeRef
  pub predecessor : Option NodeRef
  pub fingers : ℕ → Option NodeRef
  pub responsibles : List Bytes

abbrev pub self : ChordNode → NodeRef
self n = record { id = n.id; address = n.address }

unfoldable pub hash_to_node_id : Host → Bytes → ℕ
hash_to_node_id h str = set_bytes (h.sha1 str)

-- NewChordNode; `addr` is the transport's address.
unfoldable pub new_chord_node : Host → Bytes → ChordNode
unfolding hash_to_node_id
new_chord_node h addr = record {
  id = hash_to_node_id h addr;
  address = addr;
  successor = some (record { id = hash_to_node_id h addr; address = addr });
  predecessor = none;
  fingers = λ _. none;
  responsibles = [];
}

-- The assignments of Create under the lock.
unfoldable pub create : ChordNode → ChordNode
create n = record n {
  predecessor = none;
  successor = some (self n);
  fingers = λ i. if ltb i id_bits then some (self n) else n.fingers i;
}

-- The loop of closestPrecedingNode with `i` rounds left: index i - 1 is next.
unfoldable pub scan_fingers : ChordNode → ℕ → ℕ → Option NodeRef
scan_fingers n id zero = none
scan_fingers n id (suc i) =
    let rest = scan_fingers n id i in
    elim (n.fingers i) [
      | none ↦ rest
      | some f ↦ if is_between f.id n.id id false then some f else rest
    ]

unfoldable pub closest_preceding_node : ChordNode → ℕ → NodeRef
closest_preceding_node n id = elim (scan_fingers n id id_bits) [ none ↦ self n | some f ↦ f ]

-- FindSuccessor up to its remote call: the node that it returns, or the one that it asks.
pub data Route : Type 0 where
  answer : NodeRef → Route
  forward : NodeRef → Route

unfoldable pub route_past : ChordNode → NodeRef → ℕ → Route
route_past n succ id =
    if bytes_eq succ.address n.address
    then answer (self n)
    else if is_between id n.id succ.id true
    then answer succ
    else let closest = closest_preceding_node n id in
      if bytes_eq closest.address n.address then answer succ else forward closest

unfoldable pub route : ChordNode → ℕ → Route
unfolding route_past
route n id = elim n.successor [ none ↦ answer (self n) | some succ ↦ route_past n succ id ]
