-- ===== src/Node/Handlers/Files/Stored.antt =====
-- A file that another node of the ring sends, with the signal before it and without.
use peer_store.Prelude.{
  ℕ, ◌+◌, ◌≡◌, ◌≢◌, true, false, some, refl, ◌∙◌, arith, List, [], ◌∷◌, ◌==◌, length, Bytes,
  bytes_eq_refl,
}
use peer_store.Result.{ok}
use peer_store.Host.{Host, HostLaws, AreBytes}
use peer_store.Chord.{ChordNode}
use peer_store.Crypto.RoundTrip.{IsKeyed}
use peer_store.Disk.{Disk, elem}
use peer_store.Message.{Metadata}
use peer_store.Store.Ops.{has, read_decrypt, write_encrypt}
use peer_store.Store.Written.{IsPlain, IsFree, metadata_of}
use peer_store.Store.RoundTrip.{IsStored, read-write}
use peer_store.Peer.{Peer, find_peer, put_peer, incoming_stream, from_little_endian}
use peer_store.Peer.Int64.{reading}
use peer_store.Server.{Server, at_peer_lem}
use peer_store.Node.{World, add_key, take_on, on_node_lem, set_node_lem}
use peer_store.Node.Files.{read_rest, get_chord, chord_get_file, get_here}
use peer_store.Node.Handlers.Files.{receive_stored, store_received, handle_message_store_chord_file}
use peer_store.Node.Handlers.Files.RoundTrip.{read_full_lem}

one_byte : (b : ℕ) → from_little_endian (b ∷ []) ≡ b
unfolding from_little_endian
one_byte b = omega arith

some_bytes : (file : Bytes) → file ≢ [] → (length file == 0) ≡ false
some_bytes [] ne = absurd (ne refl)
some_bytes (b ∷ file) ne = ground arith

receive_stored_ok :
    (q : Peer) (file : Bytes)
    → file ≢ []
    → receive_stored (reading q (incoming_stream ∷ file)) ≡ (ok file, reading q [])
unfolding receive_stored read_rest
receive_stored_ok q file ne =
    rw
      (
        read_full_lem q (incoming_stream ∷ []) file 1 refl,
        one_byte incoming_stream,
        some_bytes file ne,
      )
      refl

abbrev pub taken_on : Bytes → ChordNode → ChordNode
taken_on cid n = record n { responsibles = add_key cid n.responsibles }

module _ (h : Host) (from cid key : Bytes) (s : Server) (n : ChordNode) (p : Peer)
    (here : s.chord ≡ some n) where
  handler_stores :
      (file : Bytes) (k : ℕ) (d : Disk)
      → file ≢ []
      → find_peer from s.peers ≡ some (reading p (incoming_stream ∷ file))
      → write_encrypt h s.store s.network cid key file 0 0 s.disk ≡ (ok k, d)
      → handle_message_store_chord_file h from cid key s ≡ (
        ok tt,
        record s {
          disk = d;
          peers = put_peer from (reading p []) s.peers;
          chord = some (taken_on cid n);
        },
      )
  unfolding handle_message_store_chord_file store_received take_on
  handler_stores file k d ne there written =
      let s1 = record s { peers = put_peer from (reading p []) s.peers } in
      let s2 = record s1 { disk = d } in
      on_node_lem s n here _
      ∙ rw
          (
            at_peer_lem from receive_stored s _ _ there (receive_stored_ok p file ne),
            written,
            set_node_lem s2 n here (taken_on cid),
          )
          refl

pub elem-add_key : (cid : Bytes) (cs : List Bytes) → elem cid (add_key cid cs) ≡ true
unfolding add_key elem
elem-add_key cid [] = ground (arith, bytes_eq_refl cid)
elem-add_key cid (c ∷ cs) = ground (arith, elem-add_key cid cs)

get_chord_local :
    (h : Host) (w : World) (fuel k : ℕ) (cid file : Bytes) (metadata : Metadata) (s : Server)
    (n : ChordNode)
    → s.chord ≡ some n
    → has s.store cid s.disk ≡ true
    → read_decrypt h s.store s.network cid s.disk ≡ (ok (k, file, metadata), s.disk)
    → get_chord h w fuel cid s ≡ (ok (file, metadata.file_name), s)
unfolding get_chord chord_get_file get_here
get_chord_local h w fuel k cid file metadata s n here present read =
    on_node_lem s n here _ ∙ rw (present, read) refl

-- On a host that keeps its laws: where a peer that is in the map sends the signal and a file of bytes
-- that is not empty, and the node has room on the disk, a network whose key fits and two
-- initialisation vectors, handleMessageStoreChordFile succeeds, reads the connection to its end, has
-- stored the file, and the node is responsible for it; GetChord then returns the file and its name.
pub get-handle_message_store_chord_file :
    (h : Host) (laws : HostLaws h) (w : World) (fuel : ℕ) (s : Server) (n : ChordNode) (p : Peer)
    (from cid key file v v' : Bytes)
    → s.chord ≡ some n
    → find_peer from s.peers ≡ some (reading p (incoming_stream ∷ file))
    → file ≢ []
    → IsKeyed s.network
    → IsPlain (s.store.transform cid)
    → IsFree s.store cid s.disk
    → AreBytes file
    → h.random s.disk.draws 16 ≡ some v
    → h.random (s.disk.draws + 1) 16 ≡ some v'
    → (k : ℕ) × (s' : Server) × (handle_message_store_chord_file h from cid key s ≡ (ok tt, s'))
      × (s'.peers ≡ put_peer from (reading p []) s.peers)
      × IsStored h s.store s.network cid file k (metadata_of s.store cid key 0 0) s.disk s'.disk
      × (s'.chord ≡ some (taken_on cid n))
      × (elem cid (taken_on cid n).responsibles ≡ true)
      × (get_chord h w fuel cid s' ≡ (ok (file, key), s'))
get-handle_message_store_chord_file h laws w fuel s n p from cid key file v v' here there ne keyed
      plain free bytes r r' =
    let (k, d, written, stored) =
      read-write h laws s.store s.network cid key file 0 0 s.disk v v' keyed plain free bytes r
        r' in
    let s' = record s {
      disk = d;
      peers = put_peer from (reading p []) s.peers;
      chord = some (taken_on cid n);
    } in
    (
      k,
      s',
      handler_stores h from cid key s n p here file k d ne there written,
      refl,
      stored,
      refl,
      elem-add_key cid n.responsibles,
      get_chord_local h w fuel k cid file (metadata_of s.store cid key 0 0) s' (taken_on cid n) refl
          stored.present stored.read_back,
    )
