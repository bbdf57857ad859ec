-- ===== src/Node/Remote/Round.antt =====
-- One round of findSuccessorRemote on a direct connection.
use peer_store.Prelude.{
  ℕ, ◌+◌, ◌≡◌, refl, ap, ◌∙◌, true, none, some, Option, List, [], ◌∷◌, Bytes, bytes_eq, Bool-cases,
  inl, inr,
}
use peer_store.Result.{Result, Exec, ok}
use peer_store.Message.{find_successor}
use peer_store.Host.{Host}
use peer_store.Ring.BigInt.{big_bytes}
use peer_store.Chord.{NodeRef, ChordNode, forward, route}
use peer_store.Peer.{Peer, find_peer, put_peer, incoming_message}
use peer_store.Peer.Int64.{sending}
use peer_store.Server.{Server, at_peer_lem, send_message}
use peer_store.Server.Broadcast.{send_message_lem}
use peer_store.Node.{World}
use peer_store.Node.Remote.{
  choose_peer, register, unregister, handle_all, request, received, drop_request, on_answer,
  find_successor_of, find_successor_remote,
}

pub received-drop_request :
    (rid : Bytes) (ps : List (Bytes × Option NodeRef)) → received rid (drop_request rid ps) ≡ none
unfolding received drop_request
received-drop_request rid [] = refl
received-drop_request rid ((k, c) ∷ ps) = elim (Bool-cases (bytes_eq k rid)) [
  | inl e ↦ rw e (received-drop_request rid ps)
  | inr e ↦ rw (e, e) (received-drop_request rid ps)
]

module _ (h : Host) (w : World) (fuel : ℕ) (n : ChordNode) (id : ℕ) where
  pub find_successor_of_forward :
      (c : NodeRef) (s : Server)
      → route n id ≡ forward c
      → find_successor_of h w fuel n id s ≡ find_successor_remote h w fuel n.address c.address id s
  unfolding find_successor_of
  find_successor_of_forward c s e = rw (find_successor_of, e) refl

-- The node once it has registered the request and sent it.
abbrev pub asked : Bytes → Bytes → Bytes → Peer → Server → Server
asked rid addr buf p s = record s {
  pending = (rid, none) ∷ drop_request rid s.pending;
  requests = s.requests + 1;
  peers = put_peer addr (sending p (incoming_message ∷ buf)) s.peers;
}

abbrev pub finished : Bytes → Result NodeRef × Server → Result NodeRef × Server
finished rid (r, s) = (r, unregister rid s)

module _ (h : Host) (w : World) (from addr rid buf : Bytes) (id : ℕ) (s : Server) (p : Peer)
    (there : find_peer addr s.peers ≡ some p) (up : p.up ≡ true)
    (enc : h.encode_message (find_successor (big_bytes id) from rid) ≡ some buf) where
  choose_direct : (s' : Server) → s'.peers ≡ s.peers → choose_peer w addr s' ≡ (ok (addr, true), s')
  unfolding choose_peer
  choose_direct s' same =
      let there' : find_peer addr s'.peers ≡ some p = ap (find_peer addr) same ∙ there in
      rw (choose_peer, there') refl

  pub request_lem :
      (retry : Exec Server NodeRef) (s' : Server)
      → handle_all h (w.arrivals rid) (asked rid addr buf p s) ≡ (ok tt, s')
      → request h w retry from addr rid id s
        ≡ finished rid (on_answer true retry (received rid s'.pending) s')
  unfolding request register
  request_lem retry s' handled =
      let s1 = record s {
        pending = (rid, none) ∷ drop_request rid s.pending;
        requests = s.requests + 1;
      } in
      rw
        (
          choose_direct s1 refl,
          at_peer_lem addr (send_message h (find_successor (big_bytes id) from rid)) s1 p _ there
              (send_message_lem h (find_successor (big_bytes id) from rid) buf p enc up),
          handled,
        )
        refl
