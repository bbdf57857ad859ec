-- ===== src/Examples/Turns.antt =====
-- Two goroutines on one connection, and a search with its loop, at concrete values.
use peer_store.Prelude.{
  ◌≡◌, ◌⊎◌, refl, arith, true, false, List, [], ◌∷◌, ◌++◌, length, take, drop, Bytes, text,
  bytes_eq, has_suffix, replicate,
}
use peer_store.Result.{ok, err, nil_pointer}
use peer_store.Config.{Config, parse_config, is_first_node, initialize_network}
use peer_store.Config.Valid.{started_network-IsKeyed}
use peer_store.Crypto.Keys.{new_encryption_key, generate_nonce}
use peer_store.Crypto.RoundTrip.{IsKeyed}
use peer_store.Message.{zero_network}
use peer_store.Peer.{Peer, incoming_stream, incoming_message}
use peer_store.Transport.Turns.{
  Conn, receiving, closed, failed, panicked, new_tcp_peer, receives, fails, closes, peeking,
  waiting, wakes, Steps, start, later,
}
use peer_store.Transport.Turns.Received.{
  halfway, stopped, stream_received, stream_ends, failed_stream_hangs,
}
use peer_store.Transport.Turns.Raced.{race_decides}
use peer_store.Transport.Accept.{
  tcp_transport_options, accept_loop, arrivals, listener_closed, accept_failed, heard, met,
  accept_loop_ends,
}
use peer_store.Examples.Machine.{machine, machine-HostLaws}
use peer_store.Examples.Network.{open_peer}
use peer_store.Examples.Contents.{node}

abbrev file : Bytes
file = text "hi"

abbrev rest : Bytes
rest = text "next"

-- The handler has read one of the two bytes.
reads_one : Steps (halfway [] file rest) (halfway (text "h") (text "i") rest)
unfolding take drop
reads_one = later start (receives 1 1 [] refl (omega arith) (omega arith))

reads_two : Steps (halfway [] file rest) (halfway file [] rest)
unfolding take drop
reads_two = later reads_one (receives 1 0 (text "h") refl (omega arith) (omega arith))

-- The stream is closed, and the read loop has woken and begun to read what follows.
abbrev resumed : Conn
resumed = record (halfway file [] rest) { count = 0; handler = closed file; reader = peeking }

resumes : Steps (halfway [] file rest) resumed
resumes = later (later reads_two (closes 0 file refl refl)) (wakes refl refl)

stream_received_example :
    ((got : Bytes) × (more : Bytes) × (resumed.handler ≡ receiving (length more) got)
      × (got ++ more ≡ file)
      × (resumed.wire ≡ more ++ rest)
      × (resumed.payloads ≡ []))
    ⊎ ((resumed.handler ≡ failed) × (resumed.wire ≡ rest) × (resumed.payloads ≡ []))
    ⊎ (resumed.handler ≡ closed file)
stream_received_example = stream_received file rest resumed resumes

stream_ends_example :
    (d : Conn) × Steps (halfway (text "h") (text "i") rest) d × (d.handler ≡ closed file)
stream_ends_example =
    stream_ends file rest (halfway (text "h") (text "i") rest) reads_one (λ e. cc e)

failed_stream_hangs_example :
    ((stopped rest).reader ≡ waiting) × ((stopped rest).wire ≡ rest) × (stopped rest ≡ stopped rest)
failed_stream_hangs_example =
    failed_stream_hangs file rest (stopped rest) (stopped rest) (later reads_two (fails file refl))
      refl start

race_decides_example :
    Steps (new_tcp_peer (incoming_stream ∷ (file ++ rest)) (length file)) (halfway [] file rest)
    × ((c : Conn) × Steps (new_tcp_peer (incoming_stream ∷ (file ++ rest)) (length file)) c
        × (c.handler ≡ panicked))
race_decides_example = race_decides file rest

abbrev callers : List (Bytes × Peer)
callers = (text "k", record open_peer { inbox = incoming_message ∷ text "gob" }) ∷ []

accept_loop_ends_example :
    (accept_loop
        (tcp_transport_options (text "n"))
        (λ a k. 0)
        2
        (arrivals callers (listener_closed ∷ accept_failed ∷ []))
        node
      ≡ (ok (heard (λ a k. 0) 2 callers), met (λ a k. 0) 2 callers node))
    × (accept_loop
          (tcp_transport_options (text "n"))
          (λ a k. 0)
          2
          (arrivals callers (accept_failed ∷ accept_failed ∷ []))
          node
        ≡ (err nil_pointer, met (λ a k. 0) 2 callers node))
accept_loop_ends_example =
    accept_loop_ends (text "n") (λ a k. 0) 2 callers (accept_failed ∷ []) node

abbrev flags : Config
flags = record {
  architecture = text "mesh";
  encryption = text "AES";
  split = true;
  join_addr = [];
  listen_addr = text ":3000";
  api_port = 8080;
}

started_network-IsKeyed_example :
    IsKeyed (initialize_network flags (new_encryption_key machine 0) (replicate 12 7) zero_network)
unfolding parse_config is_first_node bytes_eq has_suffix generate_nonce
started_network-IsKeyed_example =
    started_network-IsKeyed machine machine-HostLaws flags flags false 0 1 (replicate 12 7)
      zero_network refl refl refl
