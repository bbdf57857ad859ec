-- ===== src/Mesh/Ops/Get.antt =====
-- Get of mesh.go. The CloseStream after a file has been read is in `Transport.Turns`.
use peer_store.Prelude.{ℕ, none, some, List, [], ◌∷◌, ◌==◌, length, if◌then◌else◌, Bytes}
use peer_store.Result.{
  Exec, Result, ok, err, ◌>>=◌, ◌>>◌, pure, gets, try, missing_metadata, no_parts, incomplete,
}
use peer_store.Message.{Metadata, get_file, zero_metadata}
use peer_store.Host.{Host}
use peer_store.Crypto.{decrypt}
use peer_store.Disk.{write}
use peer_store.Store.Ops.{has, read_decrypt, read_metadata, write_metadata, open_file_for_writing}
use peer_store.Peer.{read_limited, addresses}
use peer_store.Server.{Server, on_disk, at_peer, broadcast}
use peer_store.Mesh.Split.{ReaderMap, combine_file}
use peer_store.Mesh.Transfer.{receive_name, receive_part}

-- An assignment to `readerMap[i]`.
unfoldable pub put_part : ℕ → Bytes → ReaderMap → ReaderMap
put_part i b [] = (i, b) ∷ []
put_part i b ((j, c) ∷ m) =
    let rest = put_part i b m in if j == i then (j, b) ∷ m else (j, c) ∷ rest

-- The local variables of getSplit.
pub record Collected : Type 0 where
  pub reader_map : ReaderMap
  pub metadata : Metadata

module _ (h : Host) (cid : Bytes) where
  -- writeStream takes the file from the connection once it has opened its own.
  unfoldable pub fetch_file : Bytes → Exec Server Unit
  fetch_file a s =
      (do
        (file_size, key) ← at_peer a receive_name
        f ← on_disk (open_file_for_writing s.store cid)
        file ← at_peer a (read_limited file_size)
        on_disk (write f file)
        try (on_disk (write_metadata h s.store s.network cid key 0 0)))
        s

  unfoldable pub fetch_files : List Bytes → Exec Server Unit
  fetch_files [] = pure tt
  fetch_files (a ∷ rest) = do fetch_file a; fetch_files rest

  unfoldable pub fetch_missing : Exec Server Unit
  fetch_missing s =
      if has s.store cid s.disk
      then (ok tt, s)
      else (do broadcast h (get_file cid); fetch_files (addresses s.peers)) s

  unfoldable pub get_all : Exec Server (Bytes × Bytes)
  get_all s =
      (do
        fetch_missing
        (n, file, metadata) ← on_disk (read_decrypt h s.store s.network cid)
        pure (file, metadata.file_name))
        s

  -- The metadata is read from the local disk, unless it has been found before.
  unfoldable pub find_metadata : Metadata → Server → Metadata
  find_metadata m s =
      if m.total_parts == 0
      then elim (read_metadata h s.store s.network cid s.disk).0 [
        | ok metadata ↦ metadata
        | err _ ↦ m
      ]
      else m

  unfoldable pub collect_parts : List Bytes → Collected → Exec Server Collected
  collect_parts [] c = pure c
  collect_parts (a ∷ rest) c = do
    (part_number, enc_data) ← at_peer a receive_part
    net ← gets (λ (s : Server). s.network)
    let w = decrypt h net enc_data
    metadata ← gets (find_metadata c.metadata)
    collect_parts rest (elim w.result [
      | none ↦ c
      | some _ ↦ record {
        reader_map = put_part part_number w.bytes c.reader_map;
        metadata = metadata;
      }
    ])

  unfoldable pub local_part : Exec Server Collected
  local_part s =
      if has s.store cid s.disk
      then (do
        (n, file, metadata) ← on_disk (read_decrypt h s.store s.network cid)
        pure (record { reader_map = (metadata.part, file) ∷ []; metadata = metadata }))
          s
      else (ok (record { reader_map = []; metadata = zero_metadata }), s)

  -- The checks after the loop, and the file with its name.
  unfoldable pub combine_parts : Collected → Result (Bytes × Bytes)
  combine_parts c =
      if length c.reader_map == 0
      then err no_parts
      else if c.metadata.total_parts == 0
      then err missing_metadata
      else if length c.reader_map == c.metadata.total_parts
      then elim (combine_file c.reader_map) [
        | ok file ↦ ok (file, c.metadata.file_name)
        | err e ↦ err e
      ]
      else err incomplete

  unfoldable pub get_split : Exec Server (Bytes × Bytes)
  get_split s =
      (do
        c ← local_part
        broadcast h (get_file cid)
        collected ← collect_parts (addresses s.peers) c
        λ s'. (combine_parts collected, s'))
        s

  unfoldable pub get : Exec Server (Bytes × Bytes)
  get s = if s.network.split then get_split s else get_all s
