-- ===== src/Overlay.antt =====
-- The ring as a whole: the nodes of chord.go with the messages that travel between them while the
-- routines of chord_util.go and the handlers of chord_handler.go maintain it. A step is one of these
-- at one node; messages arrive in any order, or never. Every node is reached at the address that it
-- listens on, no node leaves, and files are left out.
pub mod Sound
pub mod Answers
pub mod Reachable
pub mod Arc
pub mod Round
pub mod Settled
pub mod Placed
use peer_store.Prelude.{
  ℕ, ◌<◌, ◌≡◌, Bool, true, false, Option, none, some, List, [], ◌∷◌, ◌++◌, if◌then◌else◌, Bytes,
  bytes_eq,
}
use peer_store.Host.{Host}
use peer_store.Ring.{id_bits, finger_id}
use peer_store.Ring.BigInt.{set_bytes, big_bytes}
use peer_store.Chord.{
  NodeRef, ChordNode, Route, answer, forward, route, hash_to_node_id, new_chord_node, create,
}
use peer_store.Chord.Lookup.{Nodes}
use peer_store.Chord.Stabilize.{is_alone, handle_message_notify, handle_get_predecessor_response}
use peer_store.Node.Maintain.{set_finger, set_successor}

-- A message, with the address that it goes to first. A `searching` is the chain of FindSuccessor
-- calls by which the node at `origin` fixes finger `i`, where it has come to; a `found` is its result.
pub data Mail : Type 0 where
  asking_predecessor : (to from : Bytes) → Mail
  predecessor_is : (to from node_id node_addr : Bytes) (has_pred : Bool) → Mail
  notifying : (to node_id node_addr : Bytes) → Mail
  searching : (to origin : Bytes) (i : ℕ) (id : Bytes) → Mail
  found : (to : Bytes) (i : ℕ) (node_id node_addr : Bytes) → Mail

abbrev pub target : Mail → Bytes
target (asking_predecessor to from) = to
target (predecessor_is to from node_id node_addr has_pred) = to
target (notifying to node_id node_addr) = to
target (searching to origin i id) = to
target (found to i node_id node_addr) = to

pub record Overlay : Type 0 where
  pub nodes : Nodes
  pub mail : List Mail

unfoldable pub put : Bytes → ChordNode → Nodes → Nodes
put a n nodes b = if bytes_eq b a then some n else nodes b

-- The node at `a` becomes `n`, and messages go out.
abbrev pub act : Bytes → ChordNode → List Mail → Overlay → Overlay
act a n out o = record { nodes = put a n o.nodes; mail = o.mail ++ out }

abbrev pub say_predecessor : Bytes → Bytes → Option NodeRef → Mail
say_predecessor to from none = predecessor_is to from [] [] false
say_predecessor to from (some p) = predecessor_is to from (big_bytes p.id) p.address true

-- The messages of stabilize and of sendNotify. stabilize sends nothing where the node has no connection
-- under the address of its successor: `connected` are the addresses in its map of peers.
abbrev pub own_notify : ChordNode → Bytes → Mail
own_notify n to = notifying to (big_bytes n.id) n.address

unfoldable pub stabilizing : (Bytes → Bool) → ChordNode → List Mail
unfolding is_alone
stabilizing connected n = if is_alone n then [] else elim n.successor [
  | none ↦ []
  | some s ↦
      if connected s.address
      then asking_predecessor s.address n.address ∷ own_notify n s.address ∷ []
      else []
]

-- FindSuccessor at a node that has been asked: its answer goes back, or the next node is asked.
abbrev pub search_on : Bytes → ℕ → Bytes → Route → Mail
search_on origin i id (answer r) = found origin i (big_bytes r.id) r.address
search_on origin i id (forward c) = searching c.address origin i id

-- What a node becomes on a message, and what it sends.
unfoldable pub receive : ChordNode → Mail → ChordNode × List Mail
unfolding route
receive n (asking_predecessor to from) = (n, say_predecessor from n.address n.predecessor ∷ [])
receive n (predecessor_is to from node_id node_addr has_pred) =
    (handle_get_predecessor_response n from node_id node_addr has_pred, [])
receive n (notifying to node_id node_addr) = ((handle_message_notify n node_id node_addr).0, [])
receive n (searching to origin i id) = (n, search_on origin i id (route n (set_bytes id)) ∷ [])
receive n (found to i node_id node_addr) =
    (set_finger i (record { id = set_bytes node_id; address = node_addr }) n, [])

-- fixFinger for finger `i`: FindSuccessor answers at once, or another node is asked.
abbrev pub fixed_from : ChordNode → ℕ → Route → ChordNode × List Mail
fixed_from n i (answer r) = (set_finger i r n, [])
fixed_from n i (forward c) =
    (n, searching c.address n.address i (big_bytes (finger_id n.id i)) ∷ [])

unfoldable pub fixing : ChordNode → ℕ → ChordNode × List Mail
unfolding route
fixing n i = fixed_from n i (route n (finger_id n.id i))

-- A new node at `a` that has joined by the node at `remote`.
unfoldable pub joining : Host → Bytes → Bytes → ChordNode
unfolding hash_to_node_id
joining h a remote =
    set_successor (record { id = hash_to_node_id h remote; address = remote })
      (record (new_chord_node h a) { predecessor = none })

-- The first node, after Create.
abbrev pub alone : Host → Bytes → Overlay
alone h a = record { nodes = put a (create (new_chord_node h a)) (λ b. none); mail = [] }

pub data Step (h : Host) (o : Overlay) : Overlay → Type 0 where
  stabilized :
      (a : Bytes) (n : ChordNode) (connected : Bytes → Bool)
      → o.nodes a ≡ some n
      → Step h o (act a n (stabilizing connected n) o)
  finger_fixed :
      (a : Bytes) (n : ChordNode) (i : ℕ)
      → o.nodes a ≡ some n
      → i < id_bits
      → Step h o (act a (fixing n i).0 (fixing n i).1 o)
  -- checkPredecessor, where the Dial fails
  predecessor_dropped :
      (a : Bytes) (n : ChordNode)
      → o.nodes a ≡ some n
      → Step h o (act a (record n { predecessor = none }) [] o)
  joined :
      (a remote : Bytes) (n : ChordNode)
      → o.nodes a ≡ none
      → o.nodes remote ≡ some n
      → Step h o (act a (joining h a remote) (own_notify (joining h a remote) remote ∷ []) o)
  delivered :
      (before after : List Mail) (m : Mail) (n : ChordNode)
      → o.mail ≡ before ++ m ∷ after
      → o.nodes (target m) ≡ some n
      → Step h o
          (act (target m) (receive n m).0 (receive n m).1 (record o { mail = before ++ after }))
  -- a send that fails, a request that times out
  lost :
      (before after : List Mail) (m : Mail)
      → o.mail ≡ before ++ m ∷ after
      → Step h o (record o { mail = before ++ after })

pub data Leads (h : Host) (o : Overlay) : Overlay → Type 0 where
  start : Leads h o o
  later : {p q : Overlay} → Leads h o p → Step h p q → Leads h o q

-- What a ring that the node at `a` has created can become.
abbrev pub Reach : Host → Bytes → Overlay → Type 0
Reach h a = Leads h (alone h a)
