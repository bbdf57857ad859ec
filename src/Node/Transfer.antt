-- ===== src/Node/Transfer.antt =====
-- transferResponsibilities of chord_util.go, and handleMessageNotify of chord_handler.go, which
-- starts it. It runs as soon as it has been started.
use peer_store.Prelude.{Bool, true, none, some, List, [], ◌∷◌, if◌then◌else◌, Bytes}
use peer_store.Result.{Exec, ok, ◌>>=◌, ◌>>◌, pure, try}
use peer_store.Message.{store_chord_file}
use peer_store.Host.{Host}
use peer_store.Chord.{NodeRef, ChordNode}
use peer_store.Chord.Stabilize.{handle_message_notify}
use peer_store.Chord.Transfer.{files_to_transfer}
use peer_store.Peer.{Peer, incoming_stream, send, copy_to}
use peer_store.Server.{Server, at_peer, send_message}
use peer_store.Mesh.Ops.Get.{get_all}
use peer_store.Node.{on_node, let_go}

module _ (h : Host) where
  unfoldable pub send_file : Bytes → Bytes → Bytes → Bool → Bytes → Exec Peer Unit
  send_file cid key from_addr transfer file = do
    send_message h (store_chord_file cid key from_addr transfer)
    try (send (incoming_stream ∷ []))
    copy_to file

  -- A file that cannot be read or sent is skipped and stays with the node.
  unfoldable pub transfer_file : ChordNode → NodeRef → Bytes → Exec Server Unit
  transfer_file n pred cid = try (do
    (file, file_name) ← get_all h cid
    at_peer pred.address (send_file cid file_name n.address true file)
    let_go cid)

  unfoldable pub transfer_files : ChordNode → NodeRef → List Bytes → Exec Server Unit
  transfer_files n pred [] = pure tt
  transfer_files n pred (cid ∷ cids) = do transfer_file n pred cid; transfer_files n pred cids

  unfoldable pub transfer_responsibilities : ChordNode → Exec Server Unit
  transfer_responsibilities n s = elim n.predecessor [
    | none ↦ (ok tt, s)
    | some pred ↦ transfer_files n pred (files_to_transfer h n) s
  ]

  abbrev pub after_notify : ChordNode × Bool → Exec Server Unit
  after_notify (n, started) s =
      let s' = record s { chord = some n } in
      if started then transfer_responsibilities n s' else (ok tt, s')

  unfoldable pub handle_message_notify_at : Bytes → Bytes → Exec Server Unit
  handle_message_notify_at node_id node_addr =
      on_node (λ n. after_notify (handle_message_notify n node_id node_addr))
