-- ===== src/Mesh/Ops/Add.antt =====
-- Add of mesh.go.
use peer_store.Prelude.{Option, ◌∷◌, [], ◌++◌, length, if◌then◌else◌, ◌==◌, true, Bytes, text}
use peer_store.Result.{Exec, ok, err, ◌>>=◌, ◌>>◌, try, empty_address, nil_pointer}
use peer_store.Message.{Network, add_file}
use peer_store.Host.{Host}
use peer_store.Peer.{Peer}
use peer_store.Server.{Server, at_peer, send_message, broadcast, dial}

-- `key` and `nonce` are what NewEncryptionKey and GenerateNonce draw.
unfoldable pub started_network : Bytes → Bytes → Server → Network
started_network key nonce s =
    if length s.network.nodes == 0
    then record {
      enc_type = text "AES";
      enc_key = key;
      nonce = nonce;
      nodes = s.network.nodes ++ s.addr ∷ [];
      split = true;
    }
    else s.network

module _ (h : Host) (net : Bytes → Option (Bytes × Peer)) (key nonce : Bytes) where
  -- After a Dial that failed the remote address is nil, and its String panics.
  unfoldable pub dial_new : Bytes → Exec Server Bytes
  dial_new addr s =
      let (r, s') = dial net addr s in
      elim r [ ok remote ↦ (ok remote, s') | err _ ↦ (err nil_pointer, s') ]

  unfoldable pub greet : Bytes → Network → Exec Server Unit
  greet addr network s =
      if length addr == 0
      then (err empty_address, s)
      else (do
        remote ← dial_new addr
        at_peer remote (try (send_message h (add_file remote s.addr network))))
          s

  unfoldable pub add : Bytes → Exec Server Unit
  add addr s =
      let network = started_network key nonce s in
      let network' = record network { nodes = network.nodes ++ addr ∷ [] } in
      (do try (broadcast h (add_file [] s.addr network')); greet addr network')
        (record s { network = network' })
