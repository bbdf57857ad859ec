-- ===== src/Chord/Lookup.antt =====
-- FindSuccessor over a whole ring: findSuccessorRemote in chord_util.go sends a request to the node
-- that `route` names, handleMessageFindSuccessor in chord_handler.go runs FindSuccessor there, and
-- handleMessageFindSuccessorResponse hands the answer back. Every request is delivered and answered
-- here; `Node.Remote` has the requests with the cases in which they are not.
pub mod Total
pub mod Correct
pub mod Hops
use peer_store.Prelude.{ℕ, zero, suc, ◌<◌, ◌≡◌, Option, none, some, Bytes}
use peer_store.Ring.{id_bits, ring_size}
use peer_store.Chord.{NodeRef, ChordNode, Route, answer, forward, route}

-- The nodes that can be reached, by address.
abbrev pub Nodes : Type 0
Nodes = Bytes → Option ChordNode

-- FindSuccessor at `n`, where at most `fuel` nodes take part; `none` means that the fuel ran out
-- or that a request went to an address where no node is.
unfoldable pub lookup : Nodes → ℕ → ChordNode → ℕ → Option NodeRef
lookup nodes zero n id = none
lookup nodes (suc fuel) n id = elim (route n id) [
  | answer r ↦ some r
  | forward c ↦ elim (nodes c.address) [ none ↦ none | some m ↦ lookup nodes fuel m id ]
]

-- The pointer names a node that is there, with its identifier.
pub record IsKnown (nodes : Nodes) (r : NodeRef) (m : ChordNode) : Type 0 where
  pub present : nodes r.address ≡ some m
  pub same_id : m.id ≡ r.id

-- Every node is at its own address, has an identifier in range and a successor, and all pointers
-- that a lookup follows name nodes that are there.
pub record IsLinked (nodes : Nodes) : Type 0 where
  pub addressed : (a : Bytes) (n : ChordNode) → nodes a ≡ some n → n.address ≡ a
  pub bounded : (a : Bytes) (n : ChordNode) → nodes a ≡ some n → n.id < ring_size
  pub has_successor :
      (a : Bytes) (n : ChordNode)
      → nodes a ≡ some n
      → (s : NodeRef) × (m : ChordNode) × (n.successor ≡ some s) × IsKnown nodes s m
  pub fingers_known :
      (a : Bytes) (n : ChordNode) (i : ℕ) (f : NodeRef)
      → nodes a ≡ some n
      → i < id_bits
      → n.fingers i ≡ some f
      → (m : ChordNode) × IsKnown nodes f m
