-- ===== src/Dispatch.antt =====
-- handleMessage of server.go and the loop of mesh_util.go that calls it.
pub mod Keeps
use peer_store.Prelude.{ℕ, none, some, List, [], ◌∷◌, Bytes}
use peer_store.Result.{Exec, ok, ◌>>◌, pure, try}
use peer_store.Message.{
  Message, find_successor, find_successor_response, get_predecessor, get_predecessor_response,
  notify, store_chord_file, get_chord_file, delete_chord_file, get_file, store_file, delete_file,
  add_file,
}
use peer_store.Host.{Host}
use peer_store.Server.{Server}
use peer_store.Mesh.Handlers.{
  handle_message_get_file, handle_message_store_file, handle_message_delete_file,
  handle_message_add_file,
}
use peer_store.Node.{World}
use peer_store.Node.Answer.{handle_message_find_successor_response}
use peer_store.Node.Handlers.{
  handle_message_find_successor, handle_message_get_predecessor,
  handle_message_get_predecessor_response,
}
use peer_store.Node.Transfer.{handle_message_notify_at}
use peer_store.Node.Handlers.Files.{
  handle_message_store_chord_file, handle_message_get_chord_file, handle_message_delete_chord_file,
}

module _ (h : Host) (w : World) (fuel : ℕ) where
  unfoldable pub handle_message : Bytes → Message → Exec Server Unit
  handle_message from (find_successor id from_addr request_id) =
      handle_message_find_successor h w fuel from id from_addr request_id
  handle_message from (find_successor_response node_id node_addr request_id) =
      handle_message_find_successor_response h
        (record { from = from; node_id = node_id; node_addr = node_addr; request_id = request_id })
  handle_message from (get_predecessor from_addr) = handle_message_get_predecessor h from
  handle_message from (get_predecessor_response node_id node_addr has_pred) =
      handle_message_get_predecessor_response from node_id node_addr has_pred
  handle_message from (notify node_id node_addr) = handle_message_notify_at h node_id node_addr
  handle_message from (store_chord_file cid key from_addr transfer) =
      handle_message_store_chord_file h from cid key
  handle_message from (get_chord_file cid from_addr) = handle_message_get_chord_file h from cid
  handle_message from (delete_chord_file cid from_addr) = handle_message_delete_chord_file h cid
  handle_message from (get_file cid) = handle_message_get_file h from cid
  handle_message from (store_file cid key part total_parts size) =
      handle_message_store_file h from cid key part total_parts size
  handle_message from (delete_file cid) = handle_message_delete_file cid
  handle_message from (add_file addr local_addr network) =
      handle_message_add_file w.net from addr local_addr network

  -- A payload that does not decode leaves an empty message, for which no handler is called.
  unfoldable pub on_rpc : Bytes → Bytes → Exec Server Unit
  on_rpc from payload s = elim (h.decode_message payload) [
    | none ↦ (ok tt, s)
    | some msg ↦ try (handle_message from msg) s
  ]

  -- The loop over what comes on the channel: the address and the payload of each RPC.
  unfoldable pub loop : List (Bytes × Bytes) → Exec Server Unit
  loop [] = pure tt
  loop ((from, payload) ∷ rpcs) = do on_rpc from payload; loop rpcs
