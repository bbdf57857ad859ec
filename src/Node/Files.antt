-- ===== src/Node/Files.antt =====
-- StoreFile, GetFile and DeleteFile of chord.go.
use peer_store.Prelude.{
  ℕ, true, false, none, some, [], ◌∷◌, ltb, length, take, drop, if◌then◌else◌, Bytes, bytes_eq,
}
use peer_store.Result.{
  Exec, ok, err, ◌>>=◌, ◌>>◌, pure, raise, try, read_failed, too_long, nil_pointer, file_not_found,
}
use peer_store.Message.{store_chord_file, get_chord_file, delete_chord_file}
use peer_store.Host.{Host}
use peer_store.Ring.{is_between}
use peer_store.Chord.{NodeRef, ChordNode, hash_to_node_id}
use peer_store.Store.Ops.{has, read_decrypt, write_encrypt}
use peer_store.Peer.{Peer, incoming_stream, send, find_peer, from_little_endian}
use peer_store.Server.{Server, on_disk, at_peer, send_message}
use peer_store.Mesh.Ops.{generate_cid, remove}
use peer_store.Node.{World, on_node, take_on, let_go}
use peer_store.Node.Remote.{dial_peer, find_successor_of}

-- The connection to a node: the one that is there, or a new one.
unfoldable pub connect : World → Bytes → Exec Server Bytes
connect w addr s = elim (find_peer addr s.peers) [
  | some _ ↦ (ok addr, s)
  | none ↦ dial_peer w addr s
]

-- io.ReadFull
unfoldable pub read_full : ℕ → Exec Peer Bytes
read_full n p =
    if ltb (length p.inbox) n
    then (err read_failed, record p { inbox = [] })
    else (ok (take n p.inbox), record p { inbox = drop n p.inbox })

-- Reads to the end.
unfoldable pub read_rest : Exec Peer Bytes
read_rest p = (ok p.inbox, record p { inbox = [] })

abbrev pub max_filename : ℕ
max_filename = 1000

-- What GetFile reads once it has sent its request: a signal, which is not checked, the length of the
-- name, the name, the file.
unfoldable pub receive_chord_file : Exec Peer (Bytes × Bytes)
receive_chord_file = do
  read_full 1
  filename_len_bytes ← read_full 4
  let filename_len = from_little_endian filename_len_bytes
  if ltb max_filename filename_len then raise too_long else pure tt
  filename ← read_full filename_len
  file_data ← read_rest
  pure (file_data, filename)

module _ (h : Host) (w : World) (fuel : ℕ) where
  -- The node to which StoreFile gives a file: asked for only if the file is not between the node and
  -- its successor.
  unfoldable pub responsible_node : ChordNode → ℕ → Exec Server NodeRef
  responsible_node n file_id = elim n.successor [
    | none ↦ raise nil_pointer
    | some succ ↦
        if is_between file_id n.id succ.id true
        then pure succ
        else find_successor_of h w fuel n file_id
  ]

  unfoldable pub store_here : Bytes → Bytes → Bytes → Exec Server Bytes
  store_here cid key file_data s =
      (do on_disk (write_encrypt h s.store s.network cid key file_data 0 0); take_on cid; pure cid)
        s

  unfoldable pub store_there : ChordNode → NodeRef → Bytes → Bytes → Bytes → Exec Server Bytes
  store_there n responsible cid key file_data = do
    a ← connect w responsible.address
    at_peer a (do
      send_message h (store_chord_file cid key n.address false)
      try (send (incoming_stream ∷ []))
      send file_data)
    pure cid

  unfoldable pub chord_store_file : Bytes → Bytes → ChordNode → Exec Server Bytes
  chord_store_file key file_data n = do
    let cid = generate_cid h file_data
    responsible ← responsible_node n (hash_to_node_id h cid)
    if bytes_eq responsible.address n.address
        then store_here cid key file_data
        else store_there n responsible cid key file_data

  unfoldable pub get_here : Bytes → Exec Server (Bytes × Bytes)
  get_here cid s =
      (do
        (n, file, metadata) ← on_disk (read_decrypt h s.store s.network cid)
        pure (file, metadata.file_name))
        s

  unfoldable pub get_there : ChordNode → NodeRef → Bytes → Exec Server (Bytes × Bytes)
  get_there n responsible cid = do
    a ← connect w responsible.address
    at_peer a (do send_message h (get_chord_file cid n.address); receive_chord_file)

  unfoldable pub get_remote : ChordNode → Bytes → Exec Server (Bytes × Bytes)
  get_remote n cid = do
    responsible ← find_successor_of h w fuel n (hash_to_node_id h cid)
    if bytes_eq responsible.address n.address
        then raise file_not_found
        else get_there n responsible cid

  unfoldable pub chord_get_file : Bytes → ChordNode → Exec Server (Bytes × Bytes)
  chord_get_file cid n s = if has s.store cid s.disk then get_here cid s else get_remote n cid s

  unfoldable pub delete_here : Bytes → Exec Server Unit
  delete_here cid = do let_go cid; remove h cid

  unfoldable pub delete_there : ChordNode → NodeRef → Bytes → Exec Server Unit
  delete_there n responsible cid = do
    a ← connect w responsible.address
    at_peer a (send_message h (delete_chord_file cid n.address))

  unfoldable pub chord_delete_file : Bytes → ChordNode → Exec Server Unit
  chord_delete_file cid n = do
    responsible ← find_successor_of h w fuel n (hash_to_node_id h cid)
    if bytes_eq responsible.address n.address
        then delete_here cid
        else delete_there n responsible cid

  -- StoreChord, GetChord and DeleteChord
  unfoldable pub store_chord : Bytes → Bytes → Exec Server Bytes
  store_chord key file_data = on_node (chord_store_file key file_data)

  unfoldable pub get_chord : Bytes → Exec Server (Bytes × Bytes)
  get_chord cid = on_node (chord_get_file cid)

  unfoldable pub delete_chord : Bytes → Exec Server Unit
  delete_chord cid = on_node (chord_delete_file cid)
