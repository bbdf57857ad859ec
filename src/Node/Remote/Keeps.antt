-- ===== src/Node/Remote/Keeps.antt =====
-- FindSuccessor with its requests leaves the identity of the node alone.
use peer_store.Prelude.{
  ℕ, zero, suc, ◌≡◌, ◌∙◌, ◌&&◌, refl, Bool, true, false, not, none, some, Bool-cases, Option-cases,
  inl, inr, List, [], ◌∷◌, Option, Bytes, bytes_eq, has_prefix,
}
use peer_store.Result.{Exec, pure, gets}
use peer_store.Message.{Message, find_successor, find_successor_response}
use peer_store.Host.{Host}
use peer_store.Ring.BigInt.{big_bytes}
use peer_store.Chord.{NodeRef, ChordNode, Route, answer, forward, route}
use peer_store.Peer.{find_peer, addresses}
use peer_store.Server.{Server, at_peer, send_message, dial}
use peer_store.Server.Keeps.{identity, Keeps, bind-Keeps, peer_first, at_peer-Keeps, dial-Keeps}
use peer_store.Node.{World, Response, has_peer}
use peer_store.Node.Answer.{
  forward_to, forward_response, answer_request, handle_message_find_successor_response,
}
use peer_store.Node.Request.{first_part, has_parts, request_id}
use peer_store.Node.Remote.{
  similar_peer, dial_peer, choose_peer, handle_all, register, unregister, received, on_answer,
  request, find_successor_remote, find_successor_of,
}
use peer_store.Node.Keeps.{on_node-Keeps, has_peer-Keeps}

module _ (h : Host) where
  forward_to-Keeps :
      (original : Bytes) (msg : Message) (targets : List Bytes)
      → Keeps (forward_to h original msg targets)
  unfolding forward_to
  forward_to-Keeps original msg [] s = refl
  forward_to-Keeps original msg (a ∷ rest) s = elim (Bool-cases (has_prefix a original)) [
    | inl e ↦
        rw (forward_to, e)
          (forward_to-Keeps original msg rest (at_peer a (send_message h msg) s).1
            ∙ at_peer-Keeps a (send_message h msg) s)
    | inr e ↦ rw (forward_to, e) (forward_to-Keeps original msg rest s)
  ]

  forward_response-Keeps : (m : Response) → Keeps (forward_response h m)
  unfolding forward_response
  forward_response-Keeps m s =
      elim (Bool-cases
        (has_parts m.request_id && not (bytes_eq (first_part m.request_id) s.addr))) [
          | inl e ↦
              rw (forward_response, e)
                (forward_to-Keeps (first_part m.request_id)
                  (find_successor_response m.node_id m.node_addr m.request_id) (addresses s.peers)
                  s)
          | inr e ↦ rw (forward_response, e) refl
        ]

  answer_request-Keeps : (m : Response) → Keeps (answer_request m)
  unfolding answer_request identity
  answer_request-Keeps m s = refl

  pub response-Keeps : (m : Response) → Keeps (handle_message_find_successor_response h m)
  unfolding handle_message_find_successor_response
  response-Keeps m = on_node-Keeps _ (λ n.
      bind-Keeps (forward_response h m) _ (forward_response-Keeps m) (λ u. answer_request-Keeps m))

  handle_all-Keeps : (ms : List Response) → Keeps (handle_all h ms)
  unfolding handle_all
  handle_all-Keeps [] s = refl
  handle_all-Keeps (m ∷ ms) s =
      handle_all-Keeps ms (handle_message_find_successor_response h m s).1 ∙ response-Keeps m s

  module _ (w : World) where
    dial_peer-Keeps : (addr : Bytes) → Keeps (dial_peer w addr)
    unfolding dial_peer
    dial_peer-Keeps addr =
        bind-Keeps (dial w.net addr) _ (dial-Keeps w.net addr)
          (λ remote. bind-Keeps (has_peer remote) _ (has_peer-Keeps remote) (λ u s'. refl))

    choose_peer-Keeps : (addr : Bytes) → Keeps (choose_peer w addr)
    unfolding choose_peer
    choose_peer-Keeps addr s = elim (Option-cases (find_peer addr s.peers)) [
      | inr (p, e) ↦ rw (choose_peer, e) refl
      | inl e ↦ elim (Option-cases (similar_peer addr s.peers)) [
        | inr (a, f) ↦ rw (choose_peer, e, f) refl
        | inl f ↦
            rw (choose_peer, e, f)
              (bind-Keeps (dial_peer w addr) _ (dial_peer-Keeps addr) (λ remote s'. refl) s)
      ]
    ]

    register-Keeps : (rid : Bytes) → Keeps (register rid)
    unfolding register identity
    register-Keeps rid s = refl

    on_answer-Keeps :
        (direct : Bool) (retry : Exec Server NodeRef) (reply : Option NodeRef)
        → Keeps retry
        → Keeps (on_answer direct retry reply)
    on_answer-Keeps direct retry (some r) k s = refl
    on_answer-Keeps true retry none k s = k s
    on_answer-Keeps false retry none k s = refl

    unregistered : (rid : Bytes) (s : Server) → identity (unregister rid s) ≡ identity s
    unfolding unregister identity
    unregistered rid s = refl

    request-Keeps :
        (retry : Exec Server NodeRef) (from addr rid : Bytes) (id : ℕ)
        → Keeps retry
        → Keeps (request h w retry from addr rid id)
    unfolding request
    request-Keeps retry from addr rid id k s =
        unregistered rid _
        ∙ bind-Keeps (register rid) _ (register-Keeps rid)
            (λ u. bind-Keeps (choose_peer w addr) _ (choose_peer-Keeps addr) (λ (a, direct).
              peer_first a (send_message h (find_successor (big_bytes id) from rid)) _ (λ u.
                bind-Keeps (handle_all h (w.arrivals rid)) _ (handle_all-Keeps (w.arrivals rid))
                  (λ u.
                    bind-Keeps (gets (λ (s : Server). received rid s.pending))
                      (on_answer direct retry) (λ s'. refl)
                      (λ reply. on_answer-Keeps direct retry reply k)))))
            s

    remote-Keeps :
        (fuel : ℕ) (from addr : Bytes) (id : ℕ)
        → Keeps (find_successor_remote h w fuel from addr id)
    unfolding find_successor_remote
    remote-Keeps zero from addr id s = refl
    remote-Keeps (suc fuel) from addr id s =
        request-Keeps (find_successor_remote h w fuel from addr id) from addr
          (request_id from addr (w.now s.requests)) id (remote-Keeps fuel from addr id) s

    -- What FindSuccessor does on each decision of the node.
    on_route : ℕ → ChordNode → ℕ → Route → Exec Server NodeRef
    on_route fuel n id (answer r) = pure r
    on_route fuel n id (forward c) = find_successor_remote h w fuel n.address c.address id

    on_route-Keeps : (fuel : ℕ) (n : ChordNode) (id : ℕ) (r : Route) → Keeps (on_route fuel n id r)
    unfolding on_route
    on_route-Keeps fuel n id (answer r) s = refl
    on_route-Keeps fuel n id (forward c) s = remote-Keeps fuel n.address c.address id s

    pub find_successor-Keeps :
        (fuel : ℕ) (n : ChordNode) (id : ℕ) → Keeps (find_successor_of h w fuel n id)
    unfolding find_successor_of on_route
    find_successor-Keeps fuel n id s = on_route-Keeps fuel n id (route n id) s
