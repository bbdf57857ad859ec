-- ===== src/Dispatch/Keeps.antt =====
-- Whatever messages come, the node stays who it is.
use peer_store.Prelude.{ℕ, ◌≡◌, refl, ap, Option, Option-cases, inl, inr, List, [], ◌∷◌, Bytes}
use peer_store.Message.{
  Message, find_successor, find_successor_response, get_predecessor, get_predecessor_response,
  notify, store_chord_file, get_chord_file, delete_chord_file, get_file, store_file, delete_file,
  add_file,
}
use peer_store.Host.{Host}
use peer_store.Store.{Store}
use peer_store.Server.{Server}
use peer_store.Server.Keeps.{id_of, identity, Keeps, bind-Keeps}
use peer_store.Mesh.Keeps.{get_file-Keeps, store_file-Keeps, delete_file-Keeps, add_file-Keeps}
use peer_store.Node.{World}
use peer_store.Node.Remote.Keeps.{response-Keeps}
use peer_store.Node.Handlers.Keeps.{
  find_successor_message-Keeps, get_predecessor-Keeps, notify-Keeps, predecessor_response-Keeps,
}
use peer_store.Node.Handlers.Files.Keeps.{
  store_chord_file-Keeps, get_chord_file-Keeps, delete_chord_file-Keeps,
}
use peer_store.Dispatch.{handle_message, on_rpc, loop}

module _ (h : Host) (w : World) (fuel : ℕ) where
  handle_message-Keeps : (from : Bytes) (msg : Message) → Keeps (handle_message h w fuel from msg)
  unfolding handle_message
  handle_message-Keeps from (find_successor id from_addr request_id) =
      find_successor_message-Keeps h w fuel from id from_addr request_id
  handle_message-Keeps from (find_successor_response node_id node_addr request_id) =
      response-Keeps h
        (record { from = from; node_id = node_id; node_addr = node_addr; request_id = request_id })
  handle_message-Keeps from (get_predecessor from_addr) = get_predecessor-Keeps h from
  handle_message-Keeps from (get_predecessor_response node_id node_addr has_pred) =
      predecessor_response-Keeps from node_id node_addr has_pred
  handle_message-Keeps from (notify node_id node_addr) = notify-Keeps h node_id node_addr
  handle_message-Keeps from (store_chord_file cid key from_addr transfer) =
      store_chord_file-Keeps h from cid key
  handle_message-Keeps from (get_chord_file cid from_addr) = get_chord_file-Keeps h from cid
  handle_message-Keeps from (delete_chord_file cid from_addr) = delete_chord_file-Keeps h cid
  handle_message-Keeps from (get_file cid) = get_file-Keeps h from cid
  handle_message-Keeps from (store_file cid key part total_parts size) =
      store_file-Keeps h from cid key part total_parts size
  handle_message-Keeps from (delete_file cid) = delete_file-Keeps cid
  handle_message-Keeps from (add_file addr local_addr network) =
      add_file-Keeps w.net from addr local_addr network

  on_rpc-Keeps : (from payload : Bytes) → Keeps (on_rpc h w fuel from payload)
  unfolding on_rpc
  on_rpc-Keeps from payload s = elim (Option-cases (h.decode_message payload)) [
    | inl e ↦ rw (on_rpc, e) refl
    | inr (msg, e) ↦ rw (on_rpc, e) (handle_message-Keeps from msg s)
  ]

  loop-Keeps : (rpcs : List (Bytes × Bytes)) → Keeps (loop h w fuel rpcs)
  unfolding loop
  loop-Keeps [] = λ s. refl
  loop-Keeps ((from, payload) ∷ rpcs) =
      bind-Keeps (on_rpc h w fuel from payload) _ (on_rpc-Keeps from payload) (λ u. loop-Keeps rpcs)

-- Whatever payloads the loop takes off the channel, from whatever addresses, and whatever the outside
-- does meanwhile: the node keeps its address, its store keeps its root and its path transform, and a
-- node of a ring stays one, with the identifier and the address that it had there, while a node that
-- is on no ring stays on none.
pub loop_keeps_identity :
    (h : Host) (w : World) (fuel : ℕ) (rpcs : List (Bytes × Bytes)) (s : Server)
    → ((loop h w fuel rpcs s).1.addr ≡ s.addr)
      × ((loop h w fuel rpcs s).1.store ≡ s.store)
      × (id_of (loop h w fuel rpcs s).1.chord ≡ id_of s.chord)
unfolding identity
loop_keeps_identity h w fuel rpcs s =
    let same = loop-Keeps h w fuel rpcs s in
    (
      ap (λ (x : Bytes × Store × Option (ℕ × Bytes)). x.0) same,
      ap (λ (x : Bytes × Store × Option (ℕ × Bytes)). x.1) same,
      ap (λ (x : Bytes × Store × Option (ℕ × Bytes)). x.2) same,
    )
