-- ===== src/Transport/Accept.antt =====
-- TCPTransport of p2p/tcp_transport.go: its options, the handling of a connection and the accept
-- loop. The connections are handled one after another, though each has a goroutine of its own.
use peer_store.Prelude.{
  ℕ, ◌≡◌, refl, sym, ap, ◌∙◌, append-nil, Option, none, some, Bool, if◌then◌else◌, List, [], ◌∷◌,
  ◌++◌, append_assoc, Bytes,
}
use peer_store.Result.{Exec, Result, ok, err, ◌>>=◌, continue, pure, raise, nil_pointer, io_failed}
use peer_store.Peer.{Peer, put_peer}
use peer_store.Server.{Server, on_peer}
use peer_store.Transport.Connection.{Delivered, read_loop}

-- NOTHandShakeFunc of p2p/handshake.go.
unfoldable pub not_hand_shake_func : Exec Peer Unit
not_hand_shake_func = pure tt

-- The decoder is DefaultDecoder.
pub record TcpTransportOptions : Type 0 where
  pub listen_address : Bytes
  pub hand_shake_func : Exec Peer Unit
  pub on_peer : Option (Bytes → Peer → Exec Server Unit)

abbrev dropped : Delivered
dropped = record { rpcs = []; left = [] }

-- What Accept gives: a connection, with the address at its other end; net.ErrClosed; another error,
-- beside which the connection is nil.
pub data Accepted : Type 0 where
  connected : Bytes → Peer → Accepted
  listener_closed accept_failed : Accepted

-- Each connection has `more remote` for the bytes that its Reads find.
module _ (opts : TcpTransportOptions) (more : Bytes → ℕ → ℕ) (rounds : ℕ) where
  -- `t.OnPeer(peer)`, if there is an OnPeer; on its error the connection is dropped.
  unfoldable pub announce : Bytes → Peer → Delivered → Exec Server Delivered
  announce remote p d s = elim opts.on_peer [
    | none ↦ (ok d, s)
    | some f ↦ let (r, s') = f remote p s in elim r [ ok _ ↦ (ok d, s') | err _ ↦ (ok dropped, s') ]
  ]

  -- handleConn on a connection, with what its read loop delivers in so many rounds; the peer that is
  -- announced stands with what they leave. On nil the first method of the connection panics.
  unfoldable pub handle_conn : Option (Bytes × Peer) → Exec Server Delivered
  unfolding announce
  handle_conn none s = (err nil_pointer, s)
  handle_conn (some (remote, p)) s =
      let (r, q) = opts.hand_shake_func p in
      elim r [
        | err _ ↦ (ok dropped, s)
        | ok _ ↦
            let d = read_loop (more remote) rounds remote q.inbox in
            announce remote (record q { inbox = d.left }) d s
      ]

  -- What the accepted connections deliver.
  unfoldable pub accept_loop : List Accepted → Exec Server (List (Bytes × Bytes))
  accept_loop [] = pure []
  accept_loop (listener_closed ∷ rest) = pure []
  accept_loop (accept_failed ∷ rest) = do
    d ← handle_conn none
    rpcs ← accept_loop rest
    pure (d.rpcs ++ rpcs)
  accept_loop (connected remote p ∷ rest) = do
    d ← handle_conn (some (remote, p))
    rpcs ← accept_loop rest
    pure (d.rpcs ++ rpcs)

  -- `listens` tells whether net.Listen succeeds.
  unfoldable pub listen_and_accept : Bool → List Accepted → Exec Server (List (Bytes × Bytes))
  listen_and_accept listens accepted = if listens then accept_loop accepted else raise io_failed

-- The transport of StartServer.
unfoldable pub tcp_transport_options : Bytes → TcpTransportOptions
tcp_transport_options listen_addr = record {
  listen_address = listen_addr;
  hand_shake_func = not_hand_shake_func;
  on_peer = some on_peer;
}

-- The node once the connections have been announced, and what they have delivered.
abbrev pub met : (Bytes → ℕ → ℕ) → ℕ → List (Bytes × Peer) → Server → Server
met more rounds [] s = s
met more rounds ((a, p) ∷ cs) s = met more rounds cs (record s {
  peers = put_peer a (record p { inbox = (read_loop (more a) rounds a p.inbox).left }) s.peers;
})

abbrev pub heard : (Bytes → ℕ → ℕ) → ℕ → List (Bytes × Peer) → List (Bytes × Bytes)
heard more rounds [] = []
heard more rounds ((a, p) ∷ cs) = (read_loop (more a) rounds a p.inbox).rpcs ++ heard more rounds cs

abbrev pub arrivals : List (Bytes × Peer) → List Accepted → List Accepted
arrivals [] rest = rest
arrivals ((a, p) ∷ cs) rest = connected a p ∷ arrivals cs rest

abbrev before : {A : Type 0} → List A → Result (List A) × Server → Result (List A) × Server
before xs (ok ys, s) = (ok (xs ++ ys), s)
before xs (err e, s) = (err e, s)

before_rest :
    {A : Type 0} (xs : List A) (r : Result (List A)) (s : Server)
    → continue r (λ ys. pure (xs ++ ys)) s ≡ before xs (r, s)
before_rest xs (ok ys) s = refl
before_rest xs (err e) s = refl

before_twice :
    {A : Type 0} (xs ys : List A) (r : Result (List A) × Server)
    → before xs (before ys r) ≡ before (xs ++ ys) r
before_twice xs ys (ok zs, s) = ap (λ l. (ok l, s)) (sym (append_assoc xs ys zs))
before_twice xs ys (err e, s) = refl

module _ (addr : Bytes) (more : Bytes → ℕ → ℕ) (rounds : ℕ) where
  abbrev accepting : List Accepted → Exec Server (List (Bytes × Bytes))
  accepting = accept_loop (tcp_transport_options addr) more rounds

  accept_one :
      (a : Bytes) (p : Peer) (rest : List Accepted) (s : Server)
      → accepting (connected a p ∷ rest) s
        ≡ before
            (read_loop (more a) rounds a p.inbox).rpcs
            (accepting rest (met more rounds ((a, p) ∷ []) s))
  unfolding accept_loop handle_conn tcp_transport_options not_hand_shake_func on_peer
  accept_one a p rest s =
      let after = accepting rest (met more rounds ((a, p) ∷ []) s) in
      before_rest (read_loop (more a) rounds a p.inbox).rpcs after.0 after.1

  accept_all :
      (cs : List (Bytes × Peer)) (rest : List Accepted) (s : Server)
      → accepting (arrivals cs rest) s
        ≡ before (heard more rounds cs) (accepting rest (met more rounds cs s))
  accept_all [] rest s = nothing_before (accepting rest s)
    where
      nothing_before : (r : Result (List (Bytes × Bytes)) × Server) → r ≡ before [] r
      nothing_before (ok xs, s) = refl
      nothing_before (err e, s) = refl
  accept_all ((a, p) ∷ cs) rest s =
      let s1 = met more rounds ((a, p) ∷ []) s in
      accept_one a p (arrivals cs rest) s
      ∙ ap (before (read_loop (more a) rounds a p.inbox).rpcs) (accept_all cs rest s1)
      ∙ before_twice (read_loop (more a) rounds a p.inbox).rpcs (heard more rounds cs)
          (accepting rest (met more rounds cs s1))

  -- Of the connections `cs` the transport of StartServer makes peers, each at its remote address and
  -- standing where its read loop leaves it, and it delivers what their read loops decode, in order.
  -- When the listener is closed the accept loop ends and takes nothing that comes after; when Accept
  -- fails in any other way it goes on to handle a connection that is nil, which panics.
  pub accept_loop_ends :
      (cs : List (Bytes × Peer)) (rest : List Accepted) (s : Server)
      → (accept_loop
            (tcp_transport_options addr)
            more
            rounds
            (arrivals cs (listener_closed ∷ rest))
            s
          ≡ (ok (heard more rounds cs), met more rounds cs s))
        × (accept_loop
              (tcp_transport_options addr)
              more
              rounds
              (arrivals cs (accept_failed ∷ rest))
              s
            ≡ (err nil_pointer, met more rounds cs s))
  unfolding accept_loop handle_conn
  accept_loop_ends cs rest s = (
    accept_all cs (listener_closed ∷ rest) s
        ∙ ap (λ l. (ok l, met more rounds cs s)) (append-nil (heard more rounds cs)),
    accept_all cs (accept_failed ∷ rest) s,
  )
