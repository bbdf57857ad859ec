-- ===== src/Node/Remote/Stalled.antt =====
-- A request that a handler sends gets no answer, since the loop handles nothing while it waits.
use peer_store.Prelude.{ℕ, zero, suc, ◌≡◌, refl, ◌∙◌, true, none, some, ◌∷◌, Bytes, bytes_eq_refl}
use peer_store.Result.{err, not_returned}
use peer_store.Message.{find_successor}
use peer_store.Host.{Host}
use peer_store.Ring.BigInt.{big_bytes, set_bytes}
use peer_store.Chord.{NodeRef, ChordNode, forward, route}
use peer_store.Peer.{Peer, find_peer, incoming_message}
use peer_store.Peer.Int64.{sending}
use peer_store.Peer.Map.{find_peer-put_peer}
use peer_store.Server.{Server}
use peer_store.Node.{World, on_node_lem}
use peer_store.Node.Request.{request_id}
use peer_store.Node.Remote.{handle_all, find_successor_remote, received, unregister}
use peer_store.Node.Remote.Round.{asked, request_lem, find_successor_of_forward}
use peer_store.Node.Handlers.{in_loop, handle_message_find_successor}

module _ (h : Host) (w : World) (from addr : Bytes) (id : ℕ)
    (encodes : (rid : Bytes)
      → (buf : Bytes) × (h.encode_message (find_successor (big_bytes id) from rid)
          ≡ some buf)) where
  unanswered :
      (rid buf : Bytes) (p : Peer) (s : Server)
      → received rid (asked rid addr buf p s).pending ≡ none
  unfolding received
  unanswered rid buf p s = rw (bytes_eq_refl rid) refl

  pub never_returns :
      (fuel : ℕ) (s : Server) (p : Peer)
      → find_peer addr s.peers ≡ some p
      → p.up ≡ true
      → (s' : Server) × (find_successor_remote h (in_loop w) fuel from addr id s
          ≡ (err not_returned, s'))
  unfolding find_successor_remote handle_all
  never_returns zero s p there up = (s, refl)
  never_returns (suc fuel) s p there up =
      let rid = request_id from addr (w.now s.requests) in
      let (buf, enc) = encodes rid in
      let s1 = asked rid addr buf p s in
      let q = sending p (incoming_message ∷ buf) in
      let (s2, again) = never_returns fuel s1 q (find_peer-put_peer addr q s.peers) up in
      (
        unregister rid s2,
        request_lem h (in_loop w) from addr rid buf id s p there up enc
              (find_successor_remote h (in_loop w) fuel from addr id) s1 refl
            ∙ rw (unanswered rid buf p s, again) refl,
      )

-- A node that is asked for the successor of an identifier which it passes on to a node at the other
-- end of a writable connection never answers: however many rounds its request is given, the handler
-- has not returned, since no answer can be handled while it waits. The requests encode.
pub forwarded_request_stalls :
    (h : Host) (w : World) (fuel : ℕ) (s : Server) (n : ChordNode) (c : NodeRef) (p : Peer)
    (from id_bytes from_addr rid : Bytes)
    → s.chord ≡ some n
    → route n (set_bytes id_bytes) ≡ forward c
    → find_peer c.address s.peers ≡ some p
    → p.up ≡ true
    → ((r : Bytes)
        → (buf : Bytes) × (h.encode_message
              (find_successor (big_bytes (set_bytes id_bytes)) n.address r)
            ≡ some buf))
    → (s' : Server) × (handle_message_find_successor h w fuel from id_bytes from_addr rid s
        ≡ (err not_returned, s'))
unfolding handle_message_find_successor
forwarded_request_stalls h w fuel s n c p from id_bytes from_addr rid here far there up encodes =
    let (s', e) =
      never_returns h w n.address c.address (set_bytes id_bytes) encodes fuel s p there up in
    (
      s',
      on_node_lem s n here _
          ∙ rw (find_successor_of_forward h (in_loop w) fuel n (set_bytes id_bytes) c s far, e)
              refl,
    )
