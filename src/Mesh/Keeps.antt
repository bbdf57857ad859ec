-- ===== src/Mesh/Keeps.antt =====
-- What the mesh does on a message leaves the identity of the node alone.
use peer_store.Prelude.{
  ℕ, ◌∙◌, ◌||◌, ◌==◌, refl, Bool-cases, Option-cases, inl, inr, List, [], ◌∷◌, Option, length,
  Bytes, bytes_eq, if◌then◌else◌,
}
use peer_store.Message.{Network, get_file, delete_file}
use peer_store.Host.{Host}
use peer_store.Disk.{write}
use peer_store.Peer.{Peer, find_peer, addresses, read_limited}
use peer_store.Store.Ops.{
  has, delete, read_metadata, read_stream, read_decrypt, open_file_for_writing, write_encrypt,
}
use peer_store.Server.{broadcast, dial}
use peer_store.Server.Keeps.{
  identity, Keeps, bind-Keeps, disk_first, peer_first, on_disk-Keeps, at_peer-Keeps,
  broadcast-Keeps, dial-Keeps,
}
use peer_store.Mesh.Transfer.{serve_file, serve_part, receive_name}
use peer_store.Mesh.Handlers.{
  serve, handle_message_get_file, handle_message_store_file, handle_message_delete_file, dial_nodes,
  handle_message_add_file,
}
use peer_store.Mesh.Ops.{remove}
use peer_store.Mesh.Ops.Get.{fetch_file, fetch_files, fetch_missing, get_all}

module _ (h : Host) where
  serve-Keeps : (from cid : Bytes) → Keeps (serve h from cid)
  unfolding serve
  serve-Keeps from cid s =
      disk_first (read_metadata h s.store s.network cid) _
        (λ metadata. disk_first (read_stream s.store cid) _ (λ (size, file). at_peer-Keeps from (
          if s.network.split
          then serve_part metadata.part size file
          else serve_file metadata.file_name size file)))
        s

  pub get_file-Keeps : (from cid : Bytes) → Keeps (handle_message_get_file h from cid)
  unfolding handle_message_get_file
  get_file-Keeps from cid s = elim (Bool-cases (has s.store cid s.disk)) [
    | inl e ↦ rw (handle_message_get_file, e) (serve-Keeps from cid s)
    | inr e ↦ rw (handle_message_get_file, e) refl
  ]

  pub store_file-Keeps :
      (from cid key : Bytes) (part total_parts size : ℕ)
      → Keeps (handle_message_store_file h from cid key part total_parts size)
  unfolding handle_message_store_file
  store_file-Keeps from cid key part total_parts size s =
      peer_first from (read_limited size) _
        (λ file.
          disk_first (write_encrypt h s.store s.network cid key file part total_parts) _
            (λ n s'. refl))
        s

  pub remove-Keeps : (cid : Bytes) → Keeps (remove h cid)
  unfolding remove
  remove-Keeps cid s =
      bind-Keeps (broadcast h (delete_file cid)) _ (broadcast-Keeps h (delete_file cid))
        (λ u. on_disk-Keeps (delete s.store cid)) s

  fetch_file-Keeps : (cid a : Bytes) → Keeps (fetch_file h cid a)
  unfolding fetch_file identity
  fetch_file-Keeps cid a s =
      peer_first a receive_name _
        (λ (file_size, key). disk_first (open_file_for_writing s.store cid) _ (λ f.
          peer_first a (read_limited file_size) _
            (λ file. disk_first (write f file) _ (λ u s'. refl))))
        s

  fetch_files-Keeps : (cid : Bytes) (addrs : List Bytes) → Keeps (fetch_files h cid addrs)
  unfolding fetch_files
  fetch_files-Keeps cid [] s = refl
  fetch_files-Keeps cid (a ∷ addrs) s =
      bind-Keeps (fetch_file h cid a) _ (fetch_file-Keeps cid a) (λ u. fetch_files-Keeps cid addrs)
        s

  missing : (cid : Bytes) → Keeps (fetch_missing h cid)
  unfolding fetch_missing
  missing cid s = elim (Bool-cases (has s.store cid s.disk)) [
    | inl e ↦ rw (fetch_missing, e) refl
    | inr e ↦
        rw (fetch_missing, e)
          (bind-Keeps (broadcast h (get_file cid)) _ (broadcast-Keeps h (get_file cid))
            (λ u. fetch_files-Keeps cid (addresses s.peers)) s)
  ]

  pub get_all-Keeps : (cid : Bytes) → Keeps (get_all h cid)
  unfolding get_all
  get_all-Keeps cid s =
      bind-Keeps (fetch_missing h cid) _ (missing cid)
        (λ u. disk_first (read_decrypt h s.store s.network cid) _ (λ found s'. refl)) s

module _ (net : Bytes → Option (Bytes × Peer)) where
  dial_nodes-Keeps :
      (local_addr addr : Bytes) (nodes : List Bytes) → Keeps (dial_nodes net local_addr addr nodes)
  unfolding dial_nodes
  dial_nodes-Keeps local_addr addr [] s = refl
  dial_nodes-Keeps local_addr addr (a ∷ nodes) s =
      elim (Bool-cases (bytes_eq a local_addr || bytes_eq a addr || length a == 0)) [
        | inl e ↦ rw (dial_nodes, e) (dial_nodes-Keeps local_addr addr nodes s)
        | inr e ↦
            rw (dial_nodes, e)
              (dial_nodes-Keeps local_addr addr nodes (dial net a s).1 ∙ dial-Keeps net a s)
      ]

  pub add_file-Keeps :
      (from addr local_addr : Bytes) (network : Network)
      → Keeps (handle_message_add_file net from addr local_addr network)
  unfolding handle_message_add_file identity
  add_file-Keeps from addr local_addr network s = elim (Bool-cases (length addr == 0)) [
    | inl e ↦ rw (handle_message_add_file, e) refl
    | inr e ↦ elim (Option-cases (find_peer from s.peers)) [
      | inl f ↦ rw (handle_message_add_file, e, f) refl
      | inr (p, f) ↦
          rw (handle_message_add_file, e, f)
            (dial_nodes-Keeps local_addr addr network.nodes (record s { network = network }))
    ]
  ]

pub delete_file-Keeps : (cid : Bytes) → Keeps (handle_message_delete_file cid)
unfolding handle_message_delete_file identity
delete_file-Keeps cid s = refl
