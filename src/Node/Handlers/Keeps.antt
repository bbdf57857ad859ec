-- ===== src/Node/Handlers/Keeps.antt =====
-- The handlers of a node of a ring leave the identity of the node alone.
use peer_store.Prelude.{
  ℕ, ◌≡◌, ◌∙◌, refl, ap, sym, Bool, true, false, none, some, Bool-cases, Option-cases, inl, inr,
  List, [], ◌∷◌, Option, Bytes, ◌&&◌,
}
use peer_store.Result.{Result, ok, err, ◌>>◌, pure}
use peer_store.Message.{find_successor_response}
use peer_store.Host.{Host}
use peer_store.Ring.BigInt.{big_bytes, set_bytes}
use peer_store.Chord.{NodeRef, ChordNode}
use peer_store.Chord.Stabilize.{
  accepts, improves, handle_message_notify, handle_get_predecessor_response,
}
use peer_store.Chord.Stabilize
use peer_store.Chord.Transfer.{files_to_transfer}
use peer_store.Peer.{find_peer}
use peer_store.Server.{Server, at_peer, send_message, dial}
use peer_store.Server.Keeps.{
  id_of, identity, Keeps, bind-Keeps, peer_first, at_peer-Keeps, dial-Keeps,
}
use peer_store.Mesh.Keeps.{get_all-Keeps}
use peer_store.Mesh.Ops.Get.{get_all}
use peer_store.Node.{World, has_peer}
use peer_store.Node.Keeps.{
  on_node-Keeps, method-Keeps, set_node-Keeps, let_go-Keeps, has_peer-Keeps,
}
use peer_store.Node.Remote.{similar_peer, find_successor_of}
use peer_store.Node.Remote.Keeps.{find_successor-Keeps}
use peer_store.Node.Handlers.{
  in_loop, dial_back, answering_peer, predecessor_message, handle_message_find_successor,
  handle_message_get_predecessor, handle_message_get_predecessor_response,
}
use peer_store.Node.Transfer.{
  send_file, transfer_file, transfer_files, transfer_responsibilities, after_notify,
  handle_message_notify_at,
}

module _ (w : World) where
  found : (a : Bytes) → Keeps (do has_peer a; pure a)
  found a = bind-Keeps (has_peer a) (λ _. pure a) (has_peer-Keeps a) (λ u s. refl)

  after_dial :
      (from : Bytes) (r : Result Bytes) (s : Server)
      → identity
          (elim r as (λ _. Result Bytes × Server) [
            | ok remote ↦ (do has_peer remote; pure remote) s
            | err _ ↦ (do has_peer from; pure from) s
          ]).1
        ≡ identity s
  after_dial from (ok remote) s = found remote s
  after_dial from (err e) s = found from s

  dial_back-Keeps : (logical from : Bytes) → Keeps (dial_back w logical from)
  unfolding dial_back
  dial_back-Keeps logical from s =
      after_dial from (dial w.net logical s).0 (dial w.net logical s).1 ∙ dial-Keeps w.net logical s

  answering_peer-Keeps : (logical from : Bytes) → Keeps (answering_peer w logical from)
  unfolding answering_peer
  answering_peer-Keeps logical from s = elim (Option-cases (find_peer logical s.peers)) [
    | inr (p, e) ↦ rw (answering_peer, e) refl
    | inl e ↦ elim (Option-cases (similar_peer logical s.peers)) [
      | inr (a, f) ↦ rw (answering_peer, e, f) refl
      | inl f ↦ rw (answering_peer, e, f) (dial_back-Keeps logical from s)
    ]
  ]

module _ (h : Host) where
  pub find_successor_message-Keeps :
      (w : World) (fuel : ℕ) (from id from_addr request_id : Bytes)
      → Keeps (handle_message_find_successor h w fuel from id from_addr request_id)
  unfolding handle_message_find_successor
  find_successor_message-Keeps w fuel from id from_addr request_id = on_node-Keeps _ (λ n.
      bind-Keeps (find_successor_of h (in_loop w) fuel n (set_bytes id)) _
        (find_successor-Keeps h (in_loop w) fuel n (set_bytes id))
        (λ r.
          bind-Keeps (answering_peer w from_addr from) _ (answering_peer-Keeps w from_addr from)
            (λ a.
              at_peer-Keeps a
                (send_message h (find_successor_response (big_bytes r.id) r.address request_id)))))

  pub get_predecessor-Keeps : (from : Bytes) → Keeps (handle_message_get_predecessor h from)
  unfolding handle_message_get_predecessor
  get_predecessor-Keeps from =
      on_node-Keeps _
        (λ n. at_peer-Keeps from (send_message h (predecessor_message h n.predecessor)))

  send_file-Keeps :
      (n : ChordNode) (pred : NodeRef) (cid file name : Bytes)
      → Keeps (at_peer pred.address (send_file h cid name n.address true file))
  send_file-Keeps n pred cid file name =
      at_peer-Keeps pred.address (send_file h cid name n.address true file)

  transfer_file-Keeps :
      (n : ChordNode) (pred : NodeRef) (cid : Bytes) → Keeps (transfer_file h n pred cid)
  unfolding transfer_file
  transfer_file-Keeps n pred cid s =
      bind-Keeps (get_all h cid) _ (get_all-Keeps h cid)
        (λ (file, name).
          peer_first pred.address (send_file h cid name n.address true file) _
            (λ u. let_go-Keeps cid))
        s

  transfer_files-Keeps :
      (n : ChordNode) (pred : NodeRef) (cids : List Bytes) → Keeps (transfer_files h n pred cids)
  unfolding transfer_files
  transfer_files-Keeps n pred [] s = refl
  transfer_files-Keeps n pred (cid ∷ cids) s =
      bind-Keeps (transfer_file h n pred cid) _ (transfer_file-Keeps n pred cid)
        (λ u. transfer_files-Keeps n pred cids) s

  to_predecessor :
      (n : ChordNode) (pred : Option NodeRef) (s : Server)
      → identity
          (elim pred as (λ _. Result {0} Unit × Server) [
            | none ↦ (ok tt, s)
            | some p ↦ transfer_files h n p (files_to_transfer h n) s
          ]).1
        ≡ identity s
  to_predecessor n none s = refl
  to_predecessor n (some p) s = transfer_files-Keeps n p (files_to_transfer h n) s

  transfer_responsibilities-Keeps : (n : ChordNode) → Keeps (transfer_responsibilities h n)
  unfolding transfer_responsibilities
  transfer_responsibilities-Keeps n s = to_predecessor n n.predecessor s

  same_id : (n : ChordNode) (r : NodeRef) → id_of (some (Stabilize.notify n r).0) ≡ id_of (some n)
  unfolding Stabilize.notify
  same_id n r = elim (Bool-cases (accepts n r)) [ inl e ↦ rw e refl | inr e ↦ rw e refl ]

  node_set :
      (n m : ChordNode) (s : Server)
      → s.chord ≡ some n
      → id_of (some m) ≡ id_of (some n)
      → identity (record s { chord = some m }) ≡ identity s
  unfolding identity
  node_set n m s here same =
      ap (λ (x : Option (ℕ × Bytes)). (s.addr, s.store, x)) (same ∙ ap id_of (sym here))

  after_notify-Keeps :
      (n m : ChordNode) (started : Bool) (s : Server)
      → s.chord ≡ some n
      → id_of (some m) ≡ id_of (some n)
      → identity (after_notify h (m, started) s).1 ≡ identity s
  after_notify-Keeps n m true s here same =
      transfer_responsibilities-Keeps m (record s { chord = some m }) ∙ node_set n m s here same
  after_notify-Keeps n m false s here same = node_set n m s here same

  pub notify-Keeps :
      (node_id node_addr : Bytes) → Keeps (handle_message_notify_at h node_id node_addr)
  unfolding handle_message_notify_at handle_message_notify
  notify-Keeps node_id node_addr = method-Keeps _ (λ n s here.
      let r : NodeRef = record { id = set_bytes node_id; address = node_addr } in
      after_notify-Keeps n (Stabilize.notify n r).0 (Stabilize.notify n r).1 s here (same_id n r))

adopted :
    (n : ChordNode) (from node_id node_addr : Bytes) (has_pred : Bool)
    → id_of (some (handle_get_predecessor_response n from node_id node_addr has_pred))
      ≡ id_of (some n)
unfolding handle_get_predecessor_response
adopted n from node_id node_addr has_pred =
    elim (Bool-cases
      (has_pred && improves n from (record { id = set_bytes node_id; address = node_addr }))) [
        | inl e ↦ rw e refl
        | inr e ↦ rw e refl
      ]

pub predecessor_response-Keeps :
    (from node_id node_addr : Bytes) (has_pred : Bool)
    → Keeps (handle_message_get_predecessor_response from node_id node_addr has_pred)
unfolding handle_message_get_predecessor_response
predecessor_response-Keeps from node_id node_addr has_pred = on_node-Keeps _ (λ n.
    set_node-Keeps (λ m. handle_get_predecessor_response m from node_id node_addr has_pred)
      (λ m. adopted m from node_id node_addr has_pred))
