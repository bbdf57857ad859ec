-- ===== src/Transport/Turns/Raced.antt =====
-- Whether the read loop or the handler comes first.
use peer_store.Prelude.{
  ℕ, suc, ◌≡◌, refl, ap, sym, zero, [], ◌∷◌, ◌++◌, length, length-append, take, drop, Bytes, arith,
}
use peer_store.Peer.{incoming_stream}
use peer_store.Transport.Turns.{
  Conn, receiving, panicked, new_tcp_peer, peeks_stream, adds, receives, panics, Step, Steps, start,
  later,
}
use peer_store.Transport.Turns.Received.{halfway}

module _ (file rest : Bytes) where
  abbrev arriving : Conn
  arriving = new_tcp_peer (incoming_stream ∷ (file ++ rest)) (length file)

  early : (n : ℕ) → n ≡ length file → (c : Conn) × Steps arriving c × (c.handler ≡ panicked)
  unfolding new_tcp_peer
  early zero e = (_, later start (panics [] (ap (λ k. receiving k []) (sym e)) refl), refl)
  early (suc n) e =
      let wire = incoming_stream ∷ (file ++ rest) in
      let first : Step arriving (record arriving {
        wire = drop (suc n) wire;
        handler = receiving 0 (take (suc n) wire);
      }) =
        receives (suc n) 0 [] (ap (λ k. receiving k []) (omega (arith, e))) (omega arith)
          (omega (arith, e, length-append file rest)) in
      (_, later (later start first) (panics (take (suc n) wire) refl refl), refl)

  -- The message that announces a file has started the handler, and the file comes behind the byte for
  -- streams. Some steps from there lead to where the read loop waits for the end of the stream with the
  -- whole file unread, and some to where CloseStream panics in the handler.
  pub race_decides :
      Steps arriving (halfway [] file rest)
      × ((c : Conn) × Steps arriving c × (c.handler ≡ panicked))
  unfolding new_tcp_peer
  race_decides = (
    later (later start (peeks_stream (file ++ rest) refl refl)) (adds refl),
    early (length file) refl,
  )
