-- ===== src/Node/Handlers/Files/Keeps.antt =====
-- The handlers of the files of a ring leave the identity of the node alone.
use peer_store.Prelude.{refl, Bool-cases, inl, inr, Bytes}
use peer_store.Host.{Host}
use peer_store.Store.Ops.{has, read_metadata, read_stream, write_encrypt}
use peer_store.Server.Keeps.{Keeps, bind-Keeps, disk_first, peer_first, at_peer-Keeps}
use peer_store.Mesh.Keeps.{remove-Keeps}
use peer_store.Node.{has_peer, let_go}
use peer_store.Node.Keeps.{on_node-Keeps, take_on-Keeps, let_go-Keeps, has_peer-Keeps}
use peer_store.Node.Handlers.Files.{
  receive_stored, serve_chord_file, store_received, serve_stored, handle_message_store_chord_file,
  handle_message_get_chord_file, handle_message_delete_chord_file,
}

module _ (h : Host) where
  store_received-Keeps : (cid key file : Bytes) → Keeps (store_received h cid key file)
  unfolding store_received
  store_received-Keeps cid key file s =
      disk_first (write_encrypt h s.store s.network cid key file 0 0) _ (λ n. take_on-Keeps cid) s

  pub store_chord_file-Keeps :
      (from cid key : Bytes) → Keeps (handle_message_store_chord_file h from cid key)
  unfolding handle_message_store_chord_file
  store_chord_file-Keeps from cid key =
      on_node-Keeps _
        (λ n. peer_first from receive_stored _ (λ file. store_received-Keeps cid key file))

  serve_stored-Keeps : (from cid : Bytes) → Keeps (serve_stored h from cid)
  unfolding serve_stored
  serve_stored-Keeps from cid s =
      bind-Keeps (has_peer from) _ (has_peer-Keeps from)
        (λ u. disk_first (read_metadata h s.store s.network cid) _ (λ metadata.
          disk_first (read_stream s.store cid) _
            (λ (size, file). at_peer-Keeps from (serve_chord_file metadata.file_name file))))
        s

  pub get_chord_file-Keeps : (from cid : Bytes) → Keeps (handle_message_get_chord_file h from cid)
  unfolding handle_message_get_chord_file
  get_chord_file-Keeps from cid = on_node-Keeps _ (λ n s.
      elim (Bool-cases (has s.store cid s.disk)) [
        | inl e ↦ rw e (serve_stored-Keeps from cid s)
        | inr e ↦ rw e refl
      ])

  pub delete_chord_file-Keeps : (cid : Bytes) → Keeps (handle_message_delete_chord_file h cid)
  unfolding handle_message_delete_chord_file
  delete_chord_file-Keeps cid =
      on_node-Keeps _ (λ n. bind-Keeps (let_go cid) _ (let_go-Keeps cid) (λ u. remove-Keeps h cid))
