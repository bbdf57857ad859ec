-- ===== src/Mesh/Ops/Fetched.antt =====
-- A file that one node of the mesh has and another one gets.
pub mod Kept
use peer_store.Prelude.{
  ℕ, ◌<◌, ◌^◌, ◌≡◌, ◌≢◌, ◌∙◌, refl, ap, sym, subst, true, false, some, arith, [], ◌∷◌, ◌++◌, length,
  Bytes, text, bytes_eq_iff, bytes_eq_refl,
}
use peer_store.Result.{ok}
use peer_store.Message.{Network, Metadata, get_file}
use peer_store.Host.{Host, HostLaws}
use peer_store.Crypto.{encrypt, decrypt}
use peer_store.Crypto.RoundTrip.{IsKeyed, wrote, decrypt-encrypt}
use peer_store.Disk.{Disk, or_empty}
use peer_store.Disk.Laws.{made, put, made-parent, made_same, stat_lem, write_lem}
use peer_store.Store.{Store}
use peer_store.Store.Ops.{
  dir_path, full_path, metadata_path, has, open_file_for_writing, write_metadata, read_decrypt,
}
use peer_store.Store.Written.{
  IsPlain, IsFree, metadata_path_join, metadata_one_element, encrypted, open_lem, paths_differ,
  metadata_of, write_metadata_lem, read_decrypt_lem,
}
use peer_store.Store.Frame.{read_parts}
use peer_store.Mesh.Ops.Fetched.Kept.{
  opened, received, fetched, file_fetched, metadata_fetched, metadata_written,
}
use peer_store.Peer.{
  Peer, Peers, find_peer, put_peer, incoming_message, incoming_stream, read_limited, addresses,
  each,
}
use peer_store.Peer.Int64.{reading, sending, read_limited_lem}
use peer_store.Peer.Map.{find_peer-put_peer}
use peer_store.Server.{Server, at_peer, at_peer_lem, broadcast, send_bytes}
use peer_store.Server.Broadcast.{send_bytes_up, broadcast_encoded}
use peer_store.Mesh.Transfer.{receive_name}
use peer_store.Mesh.Transfer.RoundTrip.{file_packet, receive_name_lem}
use peer_store.Mesh.Handlers.{handle_message_get_file}
use peer_store.Mesh.Handlers.Served.{serves}
use peer_store.Mesh.Handlers.Stored.{get_all_local}
use peer_store.Mesh.Ops.Get.{fetch_file, fetch_files, fetch_missing, get_all}

module _ (h : Host) (a cid name c after : Bytes) (q : Peer) (s : Server)
    (there : find_peer a s.peers ≡ some (reading q (file_packet name c ++ after)))
    (short : length name < 2 ^ 63) (small : length c < 2 ^ 63) where
  -- The node once the name has been read, and once the file has.
  abbrev named : Server
  named = record s { peers = put_peer a (reading q (c ++ after)) s.peers }

  abbrev read : Disk → Server
  read d = record named { peers = put_peer a (reading q after) named.peers; disk = d }

  reads_file :
      (d : Disk) → at_peer a (read_limited (length c)) (record named { disk = d }) ≡ (ok c, read d)
  reads_file d =
      at_peer_lem a (read_limited (length c)) (record named { disk = d }) (reading q (c ++ after)) _
        (find_peer-put_peer a (reading q (c ++ after)) s.peers) (read_limited_lem q after c small)

  fetch_file_lem :
      (d : Disk)
      → open_file_for_writing s.store cid s.disk
        ≡ (ok (full_path s.store cid), opened s.store cid s.disk)
      → write_metadata h s.store s.network cid name 0 0 (received s.store cid c s.disk) ≡ (ok tt, d)
      → fetch_file h cid a s ≡ (ok tt, read d)
  unfolding fetch_file received
  fetch_file_lem d creates written =
      rw
        (
          at_peer_lem a receive_name s _ _ there (receive_name_lem q c after small name short),
          creates,
          reads_file (opened s.store cid s.disk),
          write_lem (full_path s.store cid) (opened s.store cid s.disk) c,
          written,
        )
        refl

-- A node with one peer, which has sent the file; `d` is the disk once the file has been fetched.
module _ (h : Host) (a cid name c after buf : Bytes) (q : Peer) (s : Server)
    (one : s.peers ≡ (a, reading q (file_packet name c ++ after)) ∷ []) (up : q.up ≡ true)
    (absent : has s.store cid s.disk ≡ false) (enc : h.encode_message (get_file cid) ≡ some buf)
    (short : length name < 2 ^ 63) (small : length c < 2 ^ 63) where
  abbrev asked : Server
  asked = record s {
    peers = (a, sending (reading q (file_packet name c ++ after)) (incoming_message ∷ buf)) ∷ [];
  }

  asks : broadcast h (get_file cid) s ≡ (ok tt, asked)
  unfolding each
  asks = broadcast_encoded h (get_file cid) s buf (ok tt) asked.peers enc (
      ap (each (send_bytes buf)) one
      ∙ rw (send_bytes_up buf (reading q (file_packet name c ++ after)) up) refl)

  answering :
      find_peer a asked.peers
      ≡ some (reading (sending q (incoming_message ∷ buf)) (file_packet name c ++ after))
  unfolding find_peer
  answering = rw (bytes_eq_refl a) refl

  abbrev got : Disk → Server
  got d =
      read h a cid name c after (sending q (incoming_message ∷ buf)) asked answering short small d

  fetches_all :
      (d : Disk)
      → fetch_file h cid a asked ≡ (ok tt, got d)
      → fetch_files h cid (addresses s.peers) asked ≡ (ok tt, got d)
  unfolding fetch_files addresses
  fetches_all d fetches =
      ap (λ (ps : Peers). fetch_files h cid (addresses ps) asked) one ∙ rw fetches refl

  gets_file :
      (file : Bytes) (n : ℕ) (metadata : Metadata) (d : Disk)
      → fetch_file h cid a asked ≡ (ok tt, got d)
      → read_decrypt h s.store s.network cid d ≡ (ok (n, file, metadata), d)
      → get_all h cid s ≡ (ok (file, metadata.file_name), got d)
  unfolding get_all fetch_missing
  gets_file file n metadata d fetches reads = rw (absent, asks, fetches_all d fetches, reads) refl

-- A node of the mesh fetches a file: the node `t`, which does not split files, reads it under `cid`,
-- with its name, from its own disk, and the connection to the asking node can be written to. Its
-- handler of the request writes one packet. Where the asking node has no such file, the same
-- network, with a key that fits, room on the disk under a plain name, an initialisation vector, a
-- host that keeps its laws, and one peer, which it can write to and from which that packet comes, getAll
-- there returns the file and its name, and a second call returns them from its own disk. The name and
-- the stored file are shorter than 2^63 bytes.
pub get-handle_message_get_file :
    (h : Host) (laws : HostLaws h) (s t : Server) (p q : Peer) (from a cid file after buf v : Bytes)
    (n : ℕ) (metadata : Metadata)
    → t.network.split ≡ false
    → read_decrypt h t.store t.network cid t.disk ≡ (ok (n, file, metadata), t.disk)
    → find_peer from t.peers ≡ some p
    → p.up ≡ true
    → length metadata.file_name < 2 ^ 63
    → ((c : Bytes) → t.disk.file (full_path t.store cid) ≡ some c → length c < 2 ^ 63)
    → s.network ≡ t.network
    → IsKeyed s.network
    → has s.store cid s.disk ≡ false
    → IsPlain (s.store.transform cid)
    → IsFree s.store cid s.disk
    → h.random s.disk.draws 16 ≡ some v
    → q.up ≡ true
    → h.encode_message (get_file cid) ≡ some buf
    → (packet : Bytes) × (handle_message_get_file h from cid t ≡ (
      ok tt,
      record t { peers = put_peer from (sending p (incoming_stream ∷ packet)) t.peers },
    ))
      × (s' : Server) × (get_all h cid (record s { peers = (a, reading q (packet ++ after)) ∷ [] })
          ≡ (ok (file, metadata.file_name), s'))
      × (get_all h cid s' ≡ (ok (file, metadata.file_name), s'))
unfolding has
get-handle_message_get_file h laws s t p q from a cid file after buf v n metadata whole readable
      known up short small same keyed absent plain free r up' enc =
    let (c, there, dec, meta) =
      read_parts h t.store t.network cid t.disk n file metadata readable in
    let name = metadata.file_name in
    let s0 = record s { peers = (a, reading q (file_packet name c ++ after)) ∷ [] } in
    let fits = small c there in
    let differ = paths_differ s.store cid s.disk plain free in
    let (buffer, enc', buffer_bytes) = laws.encodes_metadata (metadata_of s.store cid name 0 0) in
    let (m, (done, dec')) =
      decrypt-encrypt h laws s.network v buffer (laws.random_length _ 16 v r) buffer_bytes keyed in
    let d = fetched s.store cid c m s.disk in
    let found : read_decrypt h s.store s.network cid d
        ≡ (ok (n, file, metadata_of s.store cid name 0 0), d) =
      read_decrypt_lem h s.store s.network cid d c m file buffer n (length m)
        (metadata_of s.store cid name 0 0) (file_fetched s.store cid c m s.disk differ)
        (metadata_fetched s.store cid c m s.disk differ)
        (subst (λ (net : Network). decrypt h net c ≡ wrote file n) (sym same) dec) dec'
        (laws.decode-encode_metadata (metadata_of s.store cid name 0 0) buffer enc') in
    let asked_node = asked h a cid name c after buf q s0 refl up' absent enc short fits in
    let fetches =
      fetch_file_lem h a cid name c after (sending q (incoming_message ∷ buf)) asked_node
        (answering h a cid name c after buf q s0 refl up' absent enc short fits) short fits d
        (open_lem s.store cid s.disk plain free)
        (metadata_written h s.store s.network cid name c buffer m (length m) s.disk free enc'
          (rw r done)) in
    let s' = got h a cid name c after buf q s0 refl up' absent enc short fits d in
    (
      file_packet name c,
      serves h t from cid c metadata p whole there meta known up short fits,
      s',
      gets_file h a cid name c after buf q s0 refl up' absent enc short fits file n
          (metadata_of s.store cid name 0 0) d fetches found,
      get_all_local h cid file n (metadata_of s.store cid name 0 0) s'
          (stat_lem (full_path s.store cid) d c (file_fetched s.store cid c m s.disk differ)) found,
    )
