-- ===== src/Chord/Stabilize/Closer.antt =====
-- Neighbours only come closer.
use peer_store.Prelude.{
  ◌<◌, ◌≡◌, ◌⊎◌, true, false, some, arith, Bool, Bytes, if◌then◌else◌, Bool-cases, inl, inr, ◌&&◌,
  bytes_eq_iff,
}
use peer_store.Ring.{ring_size, clockwise, is_between}
use peer_store.Ring.Between.{inside_closer, inside_adds}
use peer_store.Ring.BigInt.{set_bytes}
use peer_store.Chord.{NodeRef, ChordNode}
use peer_store.Chord.Stabilize.{is_alone, notify, improves, handle_get_predecessor_response}

-- For identifiers below 2^160, notify on a node with predecessor `p`: either the new node is strictly
-- between the two, becomes the predecessor, which is then closer, becomes the successor too where
-- the node was its own successor, and the transfer of files is started; or the node stays as it was
-- and nothing is transferred.
pub notify_closer :
    (n : ChordNode) (node p : NodeRef)
    → n.predecessor ≡ some p
    → n.id < ring_size
    → node.id < ring_size
    → p.id < ring_size
    → (((notify n node).0.predecessor ≡ some node)
        × ((notify n node).1 ≡ true)
        × (clockwise node.id n.id < clockwise p.id n.id)
        × ((notify n node).0.successor ≡ (if is_alone n then some node else n.successor)))
      ⊎ (((notify n node).0 ≡ n)
          × ((notify n node).1 ≡ false)
          × (is_between node.id p.id n.id false ≡ false))
unfolding notify
notify_closer n node p h hn hm hp = elim (Bool-cases (is_between node.id p.id n.id false)) [
  | inl inside ↦
      let closer = inside_closer node.id p.id n.id hm hp hn inside in
      let apart = inside_adds node.id p.id n.id hm hp hn inside in
      inl (ground arith, ground arith, closer, ground arith)
  | inr outside ↦ inr (ground arith, ground arith, outside)
]

-- For identifiers below 2^160, the answer to GetPredecessor at a node with successor `s`: either it
-- comes from the successor's address and names a node strictly between the two, which becomes the
-- successor and is closer; or the node stays as it was.
pub response_closer :
    (n : ChordNode) (s : NodeRef) (from node_id node_addr : Bytes) (has_pred : Bool)
    → n.successor ≡ some s
    → n.id < ring_size
    → s.id < ring_size
    → set_bytes node_id < ring_size
    → (((handle_get_predecessor_response n from node_id node_addr has_pred).successor
          ≡ some (record { id = set_bytes node_id; address = node_addr }))
        × (from ≡ s.address)
        × (has_pred ≡ true)
        × ((0 < clockwise n.id (set_bytes node_id))
            × (clockwise n.id (set_bytes node_id) < clockwise n.id s.id)))
      ⊎ (handle_get_predecessor_response n from node_id node_addr has_pred ≡ n)
unfolding handle_get_predecessor_response
response_closer n s from node_id node_addr has_pred h hn hs hm =
    elim (Bool-cases
      (has_pred && improves n from (record { id = set_bytes node_id; address = node_addr }))) [
        | inl better ↦ inl (
          ground arith,
          ground (arith, bytes_eq_iff from s.address),
          ground arith,
          inside_adds (set_bytes node_id) n.id s.id hm hn hs (ground arith),
        )
        | inr worse ↦ inr (ground arith)
      ]
