-- ===== src/Mesh/Handlers/Served.antt =====
-- What handleMessageGetFile of mesh_handler.go puts on the connection.
use peer_store.Prelude.{
  ◌<◌, ◌^◌, ◌≡◌, ◌∙◌, refl, ap, true, false, some, Bool, ◌∷◌, length, Bytes, if◌then◌else◌,
}
use peer_store.Result.{ok}
use peer_store.Message.{Metadata}
use peer_store.Host.{Host}
use peer_store.Disk.Laws.{open_file_lem, stat_lem}
use peer_store.Store.Ops.{full_path, has, read_metadata, read_stream}
use peer_store.Peer.{Peer, find_peer, put_peer, incoming_stream}
use peer_store.Peer.Int64.{sending}
use peer_store.Server.{Server, at_peer, at_peer_lem}
use peer_store.Mesh.Transfer.{serve_file, serve_part}
use peer_store.Mesh.Transfer.RoundTrip.{file_packet, serve_file_lem}
use peer_store.Mesh.Handlers.{serve, handle_message_get_file}

module _ (h : Host) (t : Server) (from cid c : Bytes) (metadata : Metadata) (p : Peer)
    (whole : t.network.split ≡ false) (there : t.disk.file (full_path t.store cid) ≡ some c)
    (meta : read_metadata h t.store t.network cid t.disk ≡ (ok metadata, t.disk))
    (known : find_peer from t.peers ≡ some p) (up : p.up ≡ true)
    (short : length metadata.file_name < 2 ^ 63) (small : length c < 2 ^ 63) where
  abbrev pub served : Server
  served = record t {
    peers = put_peer from (sending p (incoming_stream ∷ file_packet metadata.file_name c)) t.peers;
  }

  serve_whole :
      at_peer from
        (if t.network.split
          then serve_part metadata.part (length c) c
          else serve_file metadata.file_name (length c) c)
        t
      ≡ (ok tt, served)
  serve_whole =
      ap
        (λ (b : Bool).
          at_peer from
            (if b
              then serve_part metadata.part (length c) c
              else serve_file metadata.file_name (length c) c)
            t)
        whole
      ∙ at_peer_lem from (serve_file metadata.file_name (length c) c) t p _ known
          (serve_file_lem p up c small metadata.file_name short)

  pub serves : handle_message_get_file h from cid t ≡ (ok tt, served)
  unfolding handle_message_get_file serve has read_stream
  serves =
      rw
        (
          stat_lem (full_path t.store cid) t.disk c there,
          meta,
          open_file_lem (full_path t.store cid) t.disk c there,
          serve_whole,
        )
        refl
