-- ===== src/Mesh/Ops.antt =====
-- mesh.go: how a node of the mesh stores, gets and removes a file, and lets another node in. A sleep
-- stands for the time in which the other nodes act, which is in what the connections still deliver.
pub mod Get
pub mod Add
pub mod Remove
pub mod Stored
pub mod Fetched
pub mod Gathered
pub mod Parted
use peer_store.Prelude.{
  ℕ, zero, suc, ◌+◌, ◌≡◌, Option, none, some, List, [], ◌∷◌, ◌++◌, take, drop, length,
  if◌then◌else◌, Bytes, text, bytes_eq,
}
use peer_store.Result.{
  Exec, Result, ok, err, ◌>>=◌, ◌>>◌, pure, raise, gets, try, encrypt_failed, nil_pointer, continue,
}
use peer_store.Message.{Message, Network, store_file, delete_file}
use peer_store.Host.{Host}
use peer_store.Crypto.{encrypt, block_size}
use peer_store.Disk.{Disk}
use peer_store.Store.{hex_encode}
use peer_store.Store.Ops.{write_encrypt, delete, or_raise}
use peer_store.Peer.{Peer, Peers, incoming_stream, send, copy_to, each, addresses}
use peer_store.Server.{Server, on_disk, on_peers, at_peer, send_message, broadcast}
use peer_store.Mesh.Split.{split_file}

-- The writes of encrypt to the peers: with AES the initialisation vector comes first.
unfoldable pub copy_encrypted : Network → Bytes → Exec Peers Unit
copy_encrypted net b =
    if bytes_eq net.enc_type (text "AES")
    then (do each (copy_to (take block_size b)); each (copy_to (drop block_size b)))
    else each (copy_to b)

module _ (h : Host) where
  unfoldable pub generate_cid : Bytes → Bytes
  generate_cid content = hex_encode (h.sha1 content)

  -- encrypt(fileBuffer, mw) with a writer to every peer.
  unfoldable pub encrypt_to_peers : Bytes → Exec Server Unit
  encrypt_to_peers content s =
      let w = encrypt h s.network (h.random s.disk.draws block_size) content in
      (do on_peers (copy_encrypted s.network w.bytes); or_raise encrypt_failed w.result; pure tt)
        (record s { disk = record s.disk { draws = s.disk.draws + 1 } })

  unfoldable pub store_all : Bytes → Bytes → Exec Server Bytes
  store_all key content s =
      let cid = generate_cid content in
      (do
        size ← on_disk (write_encrypt h s.store s.network cid key content 0 0)
        try (broadcast h (store_file cid key 0 0 size))
        try (on_peers (each (send (incoming_stream ∷ []))))
        encrypt_to_peers content
        pure cid)
        s

  unfoldable pub send_part : Bytes → Bytes → ℕ → ℕ → Bytes → Exec Peer Unit
  send_part cid key part_index total_parts part = do
    send_message h (store_file cid key part_index total_parts (length part))
    try (send (incoming_stream ∷ []))
    copy_to part

  -- The loop over the peers, which ends where no part is left.
  unfoldable pub send_parts : Bytes → Bytes → ℕ → List Bytes → ℕ → List Bytes → Exec Server Unit
  send_parts cid key total_parts [] part_index parts = pure tt
  send_parts cid key total_parts (a ∷ rest) part_index [] = pure tt
  send_parts cid key total_parts (a ∷ rest) part_index (part ∷ parts) = do
    at_peer a (send_part cid key part_index total_parts part)
    send_parts cid key total_parts rest (part_index + 1) parts

  -- `parts` is what splitFile made; `parts[0]` would panic on none.
  unfoldable pub store_parts : Bytes → Bytes → List Bytes → Exec Server Bytes
  store_parts cid key [] s = (err nil_pointer, s)
  store_parts cid key (part ∷ parts) s =
      let total_parts = length (part ∷ parts) in
      (do
        on_disk (write_encrypt h s.store s.network cid key part 1 total_parts)
        send_parts cid key total_parts (addresses s.peers) 2 parts
        pure cid)
        s

  unfoldable pub store_split : Bytes → Bytes → Exec Server Bytes
  store_split key content s = elim (split_file (length s.network.nodes) content) [
    | err e ↦ (err e, s)
    | ok parts ↦ store_parts (generate_cid content) key parts s
  ]

  unfoldable pub store : Bytes → Bytes → Exec Server Bytes
  store key content s =
      if s.network.split then store_split key content s else store_all key content s

  unfoldable pub remove : Bytes → Exec Server Unit
  remove cid s = (do broadcast h (delete_file cid); on_disk (delete s.store cid)) s
