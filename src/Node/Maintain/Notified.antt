-- ===== src/Node/Maintain/Notified.antt =====
-- What a round of stabilize sends, and what the successor makes of it.
use peer_store.Prelude.{
  Option, Bool, none, false, Bool-cases, inl, inr, ℕ, ◌≡◌, refl, ap, ◌∙◌, true, some, [], ◌∷◌, ◌++◌,
  append_assoc, Bytes,
}
use peer_store.Result.{Result, ok}
use peer_store.Message.{get_predecessor, notify}
use peer_store.Host.{Host}
use peer_store.Ring.BigInt.{big_bytes, set_bytes, set_bytes-big_bytes}
use peer_store.Chord.{NodeRef, ChordNode, self}
use peer_store.Chord.Stabilize.{is_alone, accepts, handle_message_notify}
use peer_store.Chord.Transfer.{files_to_transfer, files_to_transfer-none}
use peer_store.Chord.Stabilize
use peer_store.Peer.{Peer, find_peer, put_peer, incoming_message}
use peer_store.Peer.Int64.{sending}
use peer_store.Peer.Map.{find_peer-put_peer}
use peer_store.Server.{Server, at_peer_lem, send_message}
use peer_store.Server.Broadcast.{send_message_lem}
use peer_store.Node.{World, on_node_lem}
use peer_store.Node.Maintain.{stabilize, ask_successor}
use peer_store.Node.Transfer.{
  handle_message_notify_at, after_notify, transfer_files, transfer_responsibilities,
}
use peer_store.Dispatch.{on_rpc, handle_message}

module _ (h : Host) (n : ChordNode) (succ : NodeRef) (s : Server) (p : Peer) (buf buf' : Bytes)
    (there : find_peer succ.address s.peers ≡ some p) (up : p.up ≡ true)
    (enc : h.encode_message (get_predecessor n.address) ≡ some buf)
    (enc' : h.encode_message (notify (big_bytes n.id) n.address) ≡ some buf') where
  abbrev told_once : Peer
  told_once = sending p (incoming_message ∷ buf)

  abbrev told_twice : Peer
  told_twice = sending told_once (incoming_message ∷ buf')

  ask_successor_lem : ask_successor h n succ s ≡ (
    ok tt,
    record s { peers = put_peer succ.address told_twice (put_peer succ.address told_once s.peers) },
  )
  unfolding ask_successor
  ask_successor_lem =
      let s1 = record s { peers = put_peer succ.address told_once s.peers } in
      let first =
        at_peer_lem succ.address (send_message h (get_predecessor n.address)) s p _ there
          (send_message_lem h (get_predecessor n.address) buf p enc up) in
      let second =
        at_peer_lem succ.address (send_message h (notify (big_bytes n.id) n.address)) s1 told_once _
          (find_peer-put_peer succ.address told_once s.peers)
          (send_message_lem h (notify (big_bytes n.id) n.address) buf' told_once enc' up) in
      rw (first, second) refl

module _ (h : Host) (m : ChordNode) (no_files : m.responsibles ≡ []) where
  abbrev offers : Server → Option NodeRef → Result {0} Unit × Server
  offers t none = (ok tt, t)
  offers t (some p) = transfer_files h m p (files_to_transfer h m) t

  hands_nothing : (pred : Option NodeRef) (t : Server) → offers t pred ≡ (ok tt, t)
  unfolding transfer_files
  hands_nothing none t = refl
  hands_nothing (some p) t = rw (files_to_transfer-none h m no_files) refl

  transfers_nothing : (t : Server) → transfer_responsibilities h m t ≡ (ok tt, t)
  unfolding transfer_responsibilities
  transfers_nothing t = hands_nothing m.predecessor t

  -- The node is set, and no file goes anywhere.
  settles :
      (started : Bool) (t : Server)
      → after_notify h (m, started) t ≡ (ok tt, record t { chord = some m })
  settles true t = transfers_nothing (record t { chord = some m })
  settles false t = refl

notify_responsibles :
    (m : ChordNode) (r : NodeRef) → (Stabilize.notify m r).0.responsibles ≡ m.responsibles
unfolding Stabilize.notify
notify_responsibles m r = elim (Bool-cases (accepts m r)) [ inl e ↦ rw e refl | inr e ↦ rw e refl ]

hears :
    (m : ChordNode) (r : NodeRef) (id_bytes : Bytes)
    → set_bytes id_bytes ≡ r.id
    → handle_message_notify m id_bytes r.address ≡ Stabilize.notify m r
unfolding handle_message_notify
hears m r id_bytes named =
    ap (λ (i : ℕ). Stabilize.notify m (record { id = i; address = r.address })) named

-- A node that is responsible for no file ends as notify leaves it.
pub is_notified :
    (h : Host) (w : World) (fuel : ℕ) (t : Server) (m : ChordNode) (from id_bytes payload : Bytes)
    (r : NodeRef)
    → t.chord ≡ some m
    → m.responsibles ≡ []
    → set_bytes id_bytes ≡ r.id
    → h.decode_message payload ≡ some (notify id_bytes r.address)
    → on_rpc h w fuel from payload t ≡ (ok tt, record t { chord = some (Stabilize.notify m r).0 })
unfolding on_rpc handle_message handle_message_notify_at
is_notified h w fuel t m from id_bytes payload r here no_files named dec =
    let handled : handle_message h w fuel from (notify id_bytes r.address) t
        ≡ (ok tt, record t { chord = some (Stabilize.notify m r).0 }) =
      on_node_lem t m here _
      ∙ rw (hears m r id_bytes named) (
          settles h (Stabilize.notify m r).0 (notify_responsibles m r ∙ no_files)
            (Stabilize.notify m r).1 t) in
    rw (on_rpc, dec, handled) refl

abbrev asks : Host → ChordNode → Server → Option NodeRef → Result {0} Unit × Server
asks h n s none = (ok tt, s)
asks h n s (some r) = ask_successor h n r s

-- A node that is not alone, with a successor among its peers that can be written to, for messages
-- that encode: stabilize sends the successor the request for its predecessor and then the
-- notification, and nothing else. Where the payload of the second is decoded as the notification, by
-- a node that is responsible for no file, whatever connection it comes on, that node ends as notify
-- leaves it, told of the sender's identifier and address.
pub stabilize-notify :
    (h : Host) (w : World) (fuel : ℕ) (s t : Server) (n m : ChordNode) (succ : NodeRef) (p : Peer)
    (from buf buf' : Bytes)
    → n.successor ≡ some succ
    → is_alone n ≡ false
    → find_peer succ.address s.peers ≡ some p
    → p.up ≡ true
    → h.encode_message (get_predecessor n.address) ≡ some buf
    → h.encode_message (notify (big_bytes n.id) n.address) ≡ some buf'
    → h.decode_message buf' ≡ some (notify (big_bytes n.id) n.address)
    → t.chord ≡ some m
    → m.responsibles ≡ []
    → (s' : Server) × (stabilize h n s ≡ (ok tt, s'))
      × (find_peer succ.address s'.peers
          ≡ some (sending p (incoming_message ∷ buf ++ incoming_message ∷ buf')))
      × (on_rpc h w fuel from buf' t
          ≡ (ok tt, record t { chord = some (Stabilize.notify m (self n)).0 }))
unfolding stabilize
stabilize-notify h w fuel s t n m succ p from buf buf' next other there up enc enc' dec here
      no_files =
    let q = sending (sending p (incoming_message ∷ buf)) (incoming_message ∷ buf') in
    let ps = put_peer succ.address (sending p (incoming_message ∷ buf)) s.peers in
    (
      record s { peers = put_peer succ.address q ps },
      rw other (ap (asks h n s) next ∙ ask_successor_lem h n succ s p buf buf' there up enc enc'),
      find_peer-put_peer succ.address q ps
          ∙ ap (λ (b : Bytes). some (record p { sent = b }))
              (append_assoc p.sent (incoming_message ∷ buf) (incoming_message ∷ buf')),
      is_notified h w fuel t m from (big_bytes n.id) buf' (self n) here no_files
          (set_bytes-big_bytes n.id) dec,
    )
