-- ===== src/Node/Remote/Answered.antt =====
-- A request whose answer arrives returns it.
use peer_store.Prelude.{
  ℕ, suc, ◌≡◌, ◌≢◌, refl, sym, ap, ◌∙◌, true, false, none, some, List, [], ◌∷◌, ◌++◌, All, Option,
  Bytes, bytes_eq, bytes_eq_refl, if◌then◌else◌, bytes_eq_iff, has_prefix, not, ◌&&◌, Option-cases,
  Bool-cases, inl, inr,
}
use peer_store.Result.{Exec, ok}
use peer_store.Message.{Message, find_successor, find_successor_response}
use peer_store.Host.{Host}
use peer_store.Ring.BigInt.{big_bytes, set_bytes}
use peer_store.Chord.{NodeRef, ChordNode}
use peer_store.Peer.{Peer, Peers, find_peer, put_peer, addresses}
use peer_store.Server.{Server, at_peer, send_message}
use peer_store.Node.{World, Response, on_node_lem}
use peer_store.Node.Request.{request_id, first_part, has_parts}
use peer_store.Node.Answer.{
  offer, signal, forward_to, forward_response, answer_request,
  handle_message_find_successor_response,
}
use peer_store.Node.Remote.{handle_all, find_successor_remote, received, unregister, drop_request}
use peer_store.Node.Remote.Round.{asked, request_lem, received-drop_request}

abbrev pub answered : Response → NodeRef
answered m = record { id = set_bytes m.node_id; address = m.node_addr }

-- Passing an answer on changes nothing but the peers.
abbrev pub OnlyPeers : Server → Exec Server Unit → Type 0
OnlyPeers s m = (ps : Peers) × (m s ≡ (ok tt, record s { peers = ps }))

at_peer_state :
    (a : Bytes) (m : Exec Peer Unit) (s : Server)
    → (ps : Peers) × ((at_peer a m s).1 ≡ record s { peers = ps })
unfolding at_peer
at_peer_state a m s = elim (Option-cases (find_peer a s.peers)) [
  | inl e ↦ (s.peers, rw (at_peer, e) refl)
  | inr (p, e) ↦ (put_peer a (m p).1 s.peers, rw (at_peer, e) refl)
]

forward_to_peers :
    (h : Host) (original : Bytes) (msg : Message) (targets : List Bytes) (s : Server)
    → OnlyPeers s (forward_to h original msg targets)
unfolding forward_to
forward_to_peers h original msg [] s = (s.peers, refl)
forward_to_peers h original msg (a ∷ rest) s = elim (Bool-cases (has_prefix a original)) [
  | inl e ↦
      let (ps, e1) = at_peer_state a (send_message h msg) s in
      let (qs, e2) = forward_to_peers h original msg rest (record s { peers = ps }) in
      (qs, rw (e, e1, e2) refl)
  | inr e ↦ let (qs, e2) = forward_to_peers h original msg rest s in (qs, rw (e, e2) refl)
]

forward_response_peers : (h : Host) (m : Response) (s : Server) → OnlyPeers s (forward_response h m)
unfolding forward_response
forward_response_peers h m s =
    elim (Bool-cases (has_parts m.request_id && not (bytes_eq (first_part m.request_id) s.addr))) [
      | inl e ↦
          let (ps, e1) =
            forward_to_peers h (first_part m.request_id)
              (find_successor_response m.node_id m.node_addr m.request_id) (addresses s.peers) s in
          (ps, rw (forward_response, e, e1) refl)
      | inr e ↦ (s.peers, rw (forward_response, e) refl)
    ]

-- What a response does to a node of the ring: the channel of its request is offered the answer.
handle_response :
    (h : Host) (m : Response) (s : Server) (n : ChordNode)
    → s.chord ≡ some n
    → (ps : Peers) × (handle_message_find_successor_response h m s
        ≡ (ok tt, record s { peers = ps; pending = signal m.request_id (answered m) s.pending }))
unfolding handle_message_find_successor_response answer_request
handle_response h m s n here =
    let (ps, e) = forward_response_peers h m s in (ps, on_node_lem s n here _ ∙ rw e refl)

received_head :
    (rid : Bytes) (c : Option NodeRef) (ps : List (Bytes × Option NodeRef))
    → received rid ((rid, c) ∷ ps) ≡ c
unfolding received
received_head rid c ps = rw (bytes_eq_refl rid) refl

-- The channel of the request `rid` after the responses.
channel : Bytes → Option NodeRef → List Response → Option NodeRef
channel rid c [] = c
channel rid c (m ∷ ms) =
    channel rid (if bytes_eq m.request_id rid then offer (answered m) c else c) ms

channel_full : (rid : Bytes) (r : NodeRef) (ms : List Response) → channel rid (some r) ms ≡ some r
unfolding channel
channel_full rid r [] = refl
channel_full rid r (m ∷ ms) = elim (Bool-cases (bytes_eq m.request_id rid)) [
  | inl e ↦ rw e (channel_full rid r ms)
  | inr e ↦ rw e (channel_full rid r ms)
]

differ : (a b : Bytes) → a ≢ b → bytes_eq a b ≡ false
differ a b ne = elim (Bool-cases (bytes_eq a b)) [
  | inl e ↦ absurd (ne ((bytes_eq_iff a b).0 e))
  | inr e ↦ e
]

channel_first :
    (rid : Bytes) (before after : List Response) (m : Response)
    → All (λ (x : Response). x.request_id ≢ rid) before
    → m.request_id ≡ rid
    → channel rid none (before ++ m ∷ after) ≡ some (answered m)
unfolding channel
channel_first rid [] after m others own =
    rw (channel, own, bytes_eq_refl rid) (channel_full rid (answered m) after)
channel_first rid (x ∷ before) after m others own =
    rw (channel, differ x.request_id rid others.0) (channel_first rid before after m others.1 own)

signal_head :
    (id rid : Bytes) (r : NodeRef) (c : Option NodeRef) (ps : List (Bytes × Option NodeRef))
    → (qs : List (Bytes × Option NodeRef)) × (signal id r ((rid, c) ∷ ps)
        ≡ (rid, if bytes_eq id rid then offer r c else c) ∷ qs)
unfolding signal
signal_head id rid r c ps = elim (Bool-cases (bytes_eq id rid)) [
  | inl e ↦ (ps, rw ((bytes_eq_iff id rid).0 e, bytes_eq_refl rid) refl)
  | inr e ↦ (
    signal id r ps,
    rw (e, differ rid id (λ same. cc (e, (bytes_eq_iff id rid).1 (sym same)))) refl,
  )
]

-- What handling responses leaves of a node: it is there, and the request `rid` is its first.
record IsAfter (rid : Bytes) (n : ChordNode) (c : Option NodeRef) (s : Server) : Type 0 where
  there : s.chord ≡ some n
  rest : List (Bytes × Option NodeRef)
  first : s.pending ≡ (rid, c) ∷ rest

handle_all-channel :
    (h : Host) (rid : Bytes) (n : ChordNode) (ms : List Response) (c : Option NodeRef) (s : Server)
    → IsAfter rid n c s
    → (s' : Server) × (handle_all h ms s ≡ (ok tt, s')) × IsAfter rid n (channel rid c ms) s'
unfolding handle_all channel
handle_all-channel h rid n [] c s a = (s, refl, a)
handle_all-channel h rid n (m ∷ ms) c s a =
    let (ps, e) = handle_response h m s n a.there in
    let (qs, f) = signal_head m.request_id rid (answered m) c a.rest in
    let s1 = record s { peers = ps; pending = signal m.request_id (answered m) s.pending } in
    let (s', e', a') =
      handle_all-channel h rid n ms (if bytes_eq m.request_id rid then offer (answered m) c else c)
        s1
        (record {
          there = a.there;
          rest = qs;
          first = ap (signal m.request_id (answered m)) a.first ∙ f;
        }) in
    (s', rw e e', a')

-- On a direct connection that can be written to, for a request that encodes: if among the responses
-- that arrive while the node waits there is one with the request's own ID, findSuccessorRemote
-- returns, at its first round, the node that the first such response names, whatever came before it
-- under other IDs; and the request waits no longer.
pub find_successor_remote-answered :
    (h : Host) (w : World) (fuel id : ℕ) (from addr buf : Bytes) (s : Server) (n : ChordNode)
    (p : Peer) (before after : List Response) (m : Response)
    → s.chord ≡ some n
    → find_peer addr s.peers ≡ some p
    → p.up ≡ true
    → let rid = request_id from addr (w.now s.requests) in
      h.encode_message (find_successor (big_bytes id) from rid) ≡ some buf
      → w.arrivals rid ≡ before ++ m ∷ after
      → All (λ (x : Response). x.request_id ≢ rid) before
      → m.request_id ≡ rid
      → (s' : Server) × (find_successor_remote h w (suc fuel) from addr id s
          ≡ (ok (answered m), s'))
        × (received rid s'.pending ≡ none)
unfolding find_successor_remote unregister
find_successor_remote-answered h w fuel id from addr buf s n p before after m here there up enc
      arrive others own =
    let rid = request_id from addr (w.now s.requests) in
    let (s1, handled, a) =
      handle_all-channel h rid n (w.arrivals rid) none (asked rid addr buf p s)
        (record { there = here; rest = drop_request rid s.pending; first = refl }) in
    let full : received rid s1.pending ≡ some (answered m) =
      ap (received rid) a.first
      ∙ received_head rid (channel rid none (w.arrivals rid)) a.rest
      ∙ ap (channel rid none) arrive
      ∙ channel_first rid before after m others own in
    (
      unregister rid s1,
      request_lem h w from addr rid buf id s p there up enc
            (find_successor_remote h w fuel from addr id) s1 handled
          ∙ rw full refl,
      received-drop_request rid s1.pending,
    )
