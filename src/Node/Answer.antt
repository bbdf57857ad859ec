-- ===== src/Node/Answer.antt =====
-- handleMessageFindSuccessorResponse of chord_handler.go.
use peer_store.Prelude.{
  not, ◌&&◌, Option, none, some, List, [], ◌∷◌, if◌then◌else◌, Bytes, bytes_eq, has_prefix,
}
use peer_store.Result.{Exec, ok, ◌>>◌, pure, try}
use peer_store.Message.{Message, find_successor_response}
use peer_store.Host.{Host}
use peer_store.Ring.BigInt.{set_bytes}
use peer_store.Chord.{NodeRef}
use peer_store.Peer.{addresses}
use peer_store.Server.{Server, at_peer, send_message}
use peer_store.Node.{Response, on_node}
use peer_store.Node.Request.{first_part, has_parts}

-- A write to a channel with room for one value, which is skipped where it is full.
abbrev pub offer : NodeRef → Option NodeRef → Option NodeRef
offer r none = some r
offer r (some old) = some old

-- The channel of the request, if it waits, is offered the answer.
unfoldable pub signal :
    Bytes → NodeRef → List (Bytes × Option NodeRef) → List (Bytes × Option NodeRef)
signal id r [] = []
signal id r ((k, c) ∷ ps) =
    let rest = signal id r ps in if bytes_eq k id then (k, offer r c) ∷ ps else (k, c) ∷ rest

-- The loop over the peers that may be the original requester. Each write is a goroutine of its own in
-- the source; here they run in order.
unfoldable pub forward_to : Host → Bytes → Message → List Bytes → Exec Server Unit
forward_to h original msg [] = pure tt
forward_to h original msg (a ∷ rest) = do
  if has_prefix a original then try (at_peer a (send_message h msg)) else pure tt
  forward_to h original msg rest

unfoldable pub forward_response : Host → Response → Exec Server Unit
forward_response h m s =
    if has_parts m.request_id && not (bytes_eq (first_part m.request_id) s.addr)
    then forward_to h (first_part m.request_id)
        (find_successor_response m.node_id m.node_addr m.request_id) (addresses s.peers) s
    else (ok tt, s)

unfoldable pub answer_request : Response → Exec Server Unit
answer_request m s = (
  ok tt,
  record s {
    pending =
        signal m.request_id (record { id = set_bytes m.node_id; address = m.node_addr }) s.pending;
  },
)

unfoldable pub handle_message_find_successor_response : Host → Response → Exec Server Unit
handle_message_find_successor_response h m =
    on_node (λ n. do forward_response h m; answer_request m)
