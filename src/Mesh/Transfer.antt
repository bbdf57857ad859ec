-- ===== src/Mesh/Transfer.antt =====
-- What handleMessageGetFile of mesh_handler.go writes to a peer, and what a round of getAll and
-- getSplit of mesh.go reads.
pub mod RoundTrip
use peer_store.Prelude.{ℕ, ◌∷◌, [], length, Bytes}
use peer_store.Result.{Exec, ◌>>=◌, ◌>>◌, pure, try}
use peer_store.Peer.{Peer, incoming_stream, send, copy_to, write_int64, read_int64, read_limited}

-- `network.Split` is false: the sizes of the name and of the file, the name, the file.
unfoldable pub serve_file : Bytes → ℕ → Bytes → Exec Peer Unit
serve_file file_name file_size file = do
  try (send (incoming_stream ∷ []))
  write_int64 (length file_name)
  write_int64 file_size
  copy_to file_name
  copy_to file

-- `network.Split` is true: the number of the part, its size, the part.
unfoldable pub serve_part : ℕ → ℕ → Bytes → Exec Peer Unit
serve_part part_number file_size file = do
  try (send (incoming_stream ∷ []))
  write_int64 part_number
  write_int64 file_size
  copy_to file

-- The name of the file, and the size that is left to be read by the store.
unfoldable pub receive_name : Exec Peer (ℕ × Bytes)
receive_name = do
  key_size ← read_int64
  file_size ← read_int64
  key ← read_limited key_size
  pure (file_size, key)

unfoldable pub receive_part : Exec Peer (ℕ × Bytes)
receive_part = do
  part_number ← read_int64
  file_size ← read_int64
  enc_data ← read_limited file_size
  pure (part_number, enc_data)
