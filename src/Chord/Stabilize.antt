-- ===== src/Chord/Stabilize.antt =====
-- How a node changes its neighbours: notify of chord_util.go,
-- handleMessageGetPredecessorResponse and handleMessageNotify of chord_handler.go. The messages
-- that bring these about are left out here.
pub mod Closer
use peer_store.Prelude.{
  ℕ, Bool, true, false, not, ◌&&◌, ◌||◌, Option, none, some, Bytes, bytes_eq, ◌==◌, if◌then◌else◌,
}
use peer_store.Ring.{is_between}
use peer_store.Ring.BigInt.{set_bytes}
use peer_store.Chord.{NodeRef, ChordNode}

-- Whether notify takes the node for its predecessor.
unfoldable pub accepts : ChordNode → NodeRef → Bool
accepts n node = elim n.predecessor [ none ↦ true | some p ↦ is_between node.id p.id n.id false ]

-- `n.successor.Address == n.Address`; NewChordNode never leaves a nil successor, which would panic.
unfoldable pub is_alone : ChordNode → Bool
is_alone n = elim n.successor [ none ↦ false | some s ↦ bytes_eq s.address n.address ]

-- The new node, and whether transferResponsibilities is started.
unfoldable pub notify : ChordNode → NodeRef → ChordNode × Bool
unfolding accepts is_alone
notify n node =
    if accepts n node
    then (
      record n {
        predecessor = some node;
        successor = if is_alone n then some node else n.successor;
      },
      elim n.predecessor [ none ↦ true | some p ↦ not (p.id == node.id) ],
    )
    else (n, false)

unfoldable pub handle_message_notify : ChordNode → Bytes → Bytes → ChordNode × Bool
unfolding notify
handle_message_notify n node_id node_addr =
    notify n (record { id = set_bytes node_id; address = node_addr })

-- Whether the node that the successor names as its predecessor becomes the successor.
unfoldable pub improves : ChordNode → Bytes → NodeRef → Bool
improves n from node = elim n.successor [
  | none ↦ false
  | some s ↦ bytes_eq from s.address && is_between node.id n.id s.id false
]

unfoldable pub handle_get_predecessor_response :
    ChordNode → Bytes → Bytes → Bytes → Bool → ChordNode
unfolding improves
handle_get_predecessor_response n from node_id node_addr has_pred =
    let node : NodeRef = record { id = set_bytes node_id; address = node_addr } in
    if has_pred && improves n from node then record n { successor = some node } else n
