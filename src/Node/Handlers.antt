-- ===== src/Node/Handlers.antt =====
-- chord_handler.go: what a node of the ring does on a message from a peer.
pub mod Files
pub mod Keeps
use peer_store.Prelude.{ℕ, Bool, true, false, Option, none, some, [], ◌∷◌, if◌then◌else◌, Bytes}
use peer_store.Result.{Exec, ok, err, ◌>>=◌, ◌>>◌, pure, peer_missing}
use peer_store.Message.{Message, find_successor_response, get_predecessor_response}
use peer_store.Host.{Host}
use peer_store.Ring.BigInt.{set_bytes, big_bytes}
use peer_store.Chord.{NodeRef, ChordNode}
use peer_store.Chord.Stabilize.{handle_get_predecessor_response}
use peer_store.Peer.{Peer, Peers, find_peer}
use peer_store.Server.{Server, at_peer, send_message, dial}
use peer_store.Node.{World, on_node, set_node, has_peer}
use peer_store.Node.Remote.{similar_peer, find_successor_of}

-- The loop that runs the handlers handles no message while one of them waits.
abbrev pub in_loop : World → World
in_loop w = record w { arrivals = λ rid. [] }

-- The peer for the answer after a Dial of the logical address: the one that has been dialled, or,
-- where the Dial failed, the one from which the request came.
unfoldable pub dial_back : World → Bytes → Bytes → Exec Server Bytes
dial_back w logical from s =
    let (r, s') = dial w.net logical s in
    elim r [
      | ok remote ↦ (do has_peer remote; pure remote) s'
      | err _ ↦ (do has_peer from; pure from) s'
    ]

unfoldable pub answering_peer : World → Bytes → Bytes → Exec Server Bytes
answering_peer w logical from s = elim (find_peer logical s.peers) [
  | some _ ↦ (ok logical, s)
  | none ↦ elim (similar_peer logical s.peers) [
    | some a ↦ (ok a, s)
    | none ↦ dial_back w logical from s
  ]
]

module _ (h : Host) where
  unfoldable pub handle_message_find_successor :
      World → ℕ → Bytes → Bytes → Bytes → Bytes → Exec Server Unit
  handle_message_find_successor w fuel from id from_addr request_id = on_node (λ n. do
    successor ← find_successor_of h (in_loop w) fuel n (set_bytes id)
    a ← answering_peer w from_addr from
    at_peer a (
        send_message h
          (find_successor_response (big_bytes successor.id) successor.address request_id)))

  abbrev pub predecessor_message : Option NodeRef → Message
  predecessor_message none = get_predecessor_response [] [] false
  predecessor_message (some p) = get_predecessor_response (big_bytes p.id) p.address true

  unfoldable pub handle_message_get_predecessor : Bytes → Exec Server Unit
  handle_message_get_predecessor from =
      on_node (λ n. at_peer from (send_message h (predecessor_message n.predecessor)))

unfoldable pub handle_message_get_predecessor_response :
    Bytes → Bytes → Bytes → Bool → Exec Server Unit
handle_message_get_predecessor_response from node_id node_addr has_pred =
    on_node (λ n. set_node (λ m. handle_get_predecessor_response m from node_id node_addr has_pred))
