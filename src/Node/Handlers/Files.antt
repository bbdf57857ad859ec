-- ===== src/Node/Handlers/Files.antt =====
-- The handlers of chord_handler.go that move files.
pub mod RoundTrip
pub mod Stored
pub mod Keeps
use peer_store.Prelude.{ℕ, ◌^◌, ◌%◌, [], ◌∷◌, ◌==◌, length, if◌then◌else◌, Bytes}
use peer_store.Result.{
  Exec, ok, err, ◌>>=◌, ◌>>◌, pure, raise, bad_signal, empty_file, file_not_found,
}
use peer_store.Host.{Host}
use peer_store.Store.Ops.{has, read_metadata, read_stream, write_encrypt}
use peer_store.Peer.{Peer, incoming_stream, send, little_endian, from_little_endian}
use peer_store.Server.{Server, on_disk, at_peer}
use peer_store.Mesh.Ops.{remove}
use peer_store.Node.{on_node, has_peer, take_on, let_go}
use peer_store.Node.Files.{read_full, read_rest}

-- What handleMessageStoreChordFile reads: the signal, then the file to the end of the connection.
unfoldable pub receive_stored : Exec Peer Bytes
receive_stored = do
  first ← read_full 1
  if from_little_endian first == incoming_stream then pure tt else raise bad_signal
  file ← read_rest
  if length file == 0 then raise empty_file else pure file

-- What handleMessageGetChordFile writes, with the length of the name in 32 bits.
unfoldable pub serve_chord_file : Bytes → Bytes → Exec Peer Unit
serve_chord_file file_name file = do
  send (incoming_stream ∷ [])
  send (little_endian 4 (length file_name % 2 ^ 32))
  send file_name
  send file

module _ (h : Host) where
  unfoldable pub store_received : Bytes → Bytes → Bytes → Exec Server Unit
  store_received cid key file s =
      (do on_disk (write_encrypt h s.store s.network cid key file 0 0); take_on cid) s

  unfoldable pub handle_message_store_chord_file : Bytes → Bytes → Bytes → Exec Server Unit
  handle_message_store_chord_file from cid key =
      on_node (λ n. do file ← at_peer from receive_stored; store_received cid key file)

  unfoldable pub serve_stored : Bytes → Bytes → Exec Server Unit
  serve_stored from cid s =
      (do
        has_peer from
        metadata ← on_disk (read_metadata h s.store s.network cid)
        (size, file) ← on_disk (read_stream s.store cid)
        at_peer from (serve_chord_file metadata.file_name file))
        s

  unfoldable pub handle_message_get_chord_file : Bytes → Bytes → Exec Server Unit
  handle_message_get_chord_file from cid =
      on_node
        (λ n s. if has s.store cid s.disk then serve_stored from cid s else (err file_not_found, s))

  unfoldable pub handle_message_delete_chord_file : Bytes → Exec Server Unit
  handle_message_delete_chord_file cid = on_node (λ n. do let_go cid; remove h cid)
