-- ===== src/Mesh/Handlers.antt =====
-- mesh_handler.go: what a node of the mesh does on a message from a peer. The CloseStream that ends the
-- reading of a file is in `Transport.Turns`, which has the WaitGroup of a connection.
pub mod Stored
pub mod Served
use peer_store.Prelude.{
  ℕ, ◌||◌, Option, none, some, List, [], ◌∷◌, ◌==◌, if◌then◌else◌, length, Bytes, bytes_eq,
}
use peer_store.Result.{
  Exec, Result, ok, err, ◌>>=◌, ◌>>◌, pure, raise, gets, modify, try, file_not_found, peer_missing,
}
use peer_store.Message.{Network, Metadata}
use peer_store.Host.{Host}
use peer_store.Store.Ops.{has, delete, read_metadata, read_stream, write_encrypt}
use peer_store.Peer.{Peer, read_limited, find_peer}
use peer_store.Server.{Server, on_disk, at_peer, dial}
use peer_store.Mesh.Transfer.{serve_file, serve_part}

module _ (h : Host) where
  unfoldable pub serve : Bytes → Bytes → Exec Server Unit
  serve from cid s =
      (do
        metadata ← on_disk (read_metadata h s.store s.network cid)
        (file_size, file) ← on_disk (read_stream s.store cid)
        at_peer from (
            if s.network.split
            then serve_part metadata.part file_size file
            else serve_file metadata.file_name file_size file))
        s

  unfoldable pub handle_message_get_file : Bytes → Bytes → Exec Server Unit
  handle_message_get_file from cid s =
      if has s.store cid s.disk then serve from cid s else (err file_not_found, s)

  unfoldable pub handle_message_store_file : Bytes → Bytes → Bytes → ℕ → ℕ → ℕ → Exec Server Unit
  handle_message_store_file from cid key part total_parts size s =
      (do
        data_buffer ← at_peer from (read_limited size)
        on_disk (write_encrypt h s.store s.network cid key data_buffer part total_parts)
        pure tt)
        s

unfoldable pub handle_message_delete_file : Bytes → Exec Server Unit
handle_message_delete_file cid s = on_disk (delete s.store cid) s

-- The loop over the nodes of the message. Each Dial runs in a goroutine and its error is logged.
unfoldable pub dial_nodes :
    (Bytes → Option (Bytes × Peer)) → Bytes → Bytes → List Bytes → Exec Server Unit
dial_nodes net local_addr addr [] = pure tt
dial_nodes net local_addr addr (a ∷ nodes) = do
  if bytes_eq a local_addr || bytes_eq a addr || length a == 0 then pure tt else try (dial net a)
  dial_nodes net local_addr addr nodes

unfoldable pub handle_message_add_file :
    (Bytes → Option (Bytes × Peer)) → Bytes → Bytes → Bytes → Network → Exec Server Unit
handle_message_add_file net from addr local_addr network s =
    if length addr == 0
    then (ok tt, record s { network = record s.network { nodes = network.nodes } })
    else let s' = record s { network = network } in
      elim (find_peer from s.peers) [
        | none ↦ (err peer_missing, s')
        | some _ ↦ dial_nodes net local_addr addr network.nodes s'
      ]
