-- ===== src/Node/Remote.antt =====
-- FindSuccessor of chord.go with findSuccessorRemote of chord_util.go.
pub mod Round
pub mod Stalled
pub mod Locked
pub mod Answered
pub mod Keeps
use peer_store.Prelude.{
  ℕ, zero, suc, ◌+◌, Bool, true, false, not, ◌&&◌, ◌||◌, Option, none, some, List, [], ◌∷◌,
  if◌then◌else◌, Bytes, bytes_eq, has_prefix,
}
use peer_store.Result.{
  Exec, ok, err, ◌>>=◌, ◌>>◌, pure, raise, gets, try, peer_missing, timed_out, not_returned,
}
use peer_store.Message.{find_successor}
use peer_store.Host.{Host}
use peer_store.Ring.BigInt.{big_bytes}
use peer_store.Chord.{NodeRef, ChordNode, Route, answer, forward, route}
use peer_store.Peer.{Peers, find_peer}
use peer_store.Server.{Server, at_peer, send_message, dial}
use peer_store.Node.{World, Response, deferring, has_peer}
use peer_store.Node.Request.{request_id}
use peer_store.Node.Answer.{handle_message_find_successor_response}

-- The first peer whose address begins with `addr`, or with which `addr` begins.
unfoldable pub similar_peer : Bytes → Peers → Option Bytes
similar_peer addr [] = none
similar_peer addr ((a, p) ∷ ps) =
    let rest = similar_peer addr ps in
    if has_prefix a addr || has_prefix addr a then some a else rest

unfoldable pub dial_peer : World → Bytes → Exec Server Bytes
dial_peer w addr = do remote ← dial w.net addr; has_peer remote; pure remote

-- The address of the peer to use, and whether it is the one that was asked for.
unfoldable pub choose_peer : World → Bytes → Exec Server (Bytes × Bool)
choose_peer w addr s = elim (find_peer addr s.peers) [
  | some _ ↦ (ok (addr, true), s)
  | none ↦ elim (similar_peer addr s.peers) [
    | some a ↦ (ok (a, false), s)
    | none ↦ (do remote ← dial_peer w addr; pure (remote, false)) s
  ]
]

-- pendingRequests.Delete
unfoldable pub drop_request : Bytes → List (Bytes × Option NodeRef) → List (Bytes × Option NodeRef)
drop_request id [] = []
drop_request id ((k, c) ∷ ps) =
    let rest = drop_request id ps in if bytes_eq k id then rest else (k, c) ∷ rest

-- What is in the request's channel.
unfoldable pub received : Bytes → List (Bytes × Option NodeRef) → Option NodeRef
received id [] = none
received id ((k, c) ∷ ps) = let rest = received id ps in if bytes_eq k id then c else rest

-- The loop handles what arrives, and logs the errors.
unfoldable pub handle_all : Host → List Response → Exec Server Unit
handle_all h [] = pure tt
handle_all h (m ∷ ms) = do try (handle_message_find_successor_response h m); handle_all h ms

-- pendingRequests.Store with a new channel.
unfoldable pub register : Bytes → Exec Server Unit
register rid s = (
  ok tt,
  record s { pending = (rid, none) ∷ drop_request rid s.pending; requests = s.requests + 1 },
)

unfoldable pub unregister : Bytes → Server → Server
unregister rid s = record s { pending = drop_request rid s.pending }

-- The select: an answer, or the timer; `retry` is the call of the function itself.
abbrev pub on_answer : Bool → Exec Server NodeRef → Option NodeRef → Exec Server NodeRef
on_answer direct retry (some r) = pure r
on_answer true retry none = retry
on_answer false retry none = raise timed_out

module _ (h : Host) (w : World) where
  -- One round of findSuccessorRemote under the request ID `rid`.
  unfoldable pub request : Exec Server NodeRef → Bytes → Bytes → Bytes → ℕ → Exec Server NodeRef
  request retry from addr rid id = deferring (unregister rid) (do
    register rid
    (a, direct) ← choose_peer w addr
    at_peer a (send_message h (find_successor (big_bytes id) from rid))
    handle_all h (w.arrivals rid)
    reply ← gets (λ (s : Server). received rid s.pending)
    on_answer direct retry reply)

  -- `from` is the node's own address. The retry on a direct connection has no bound: `fuel` is the
  -- number of requests, and `not_returned` that they were not enough.
  unfoldable pub find_successor_remote : ℕ → Bytes → Bytes → ℕ → Exec Server NodeRef
  find_successor_remote zero from addr id = raise not_returned
  find_successor_remote (suc fuel) from addr id =
      let retry = find_successor_remote fuel from addr id in
      λ s. request retry from addr (request_id from addr (w.now s.requests)) id s

  unfoldable pub find_successor_of : ℕ → ChordNode → ℕ → Exec Server NodeRef
  find_successor_of fuel n id = elim (route n id) [
    | answer r ↦ pure r
    | forward c ↦ find_successor_remote fuel n.address c.address id
  ]
