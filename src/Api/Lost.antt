-- ===== src/Api/Lost.antt =====
-- What becomes of a file that is posted on the first node of a ring.
use peer_store.Prelude.{
  ℕ, ◌≡◌, refl, ◌∙◌, true, false, some, [], length, Bytes, text, bytes_eq, bytes_eq_refl, ◌==◌,
}
use peer_store.Result.{ok, err, decode_failed}
use peer_store.Message.{zero_network}
use peer_store.Host.{Host, HostLaws}
use peer_store.Config.{Config}
use peer_store.Disk.{Disk}
use peer_store.Disk.Laws.{stat_lem}
use peer_store.Chord.{self, create, new_chord_node, hash_to_node_id}
use peer_store.Store.{new_store}
use peer_store.Store.Address.{cas_path_transform-IsAddress}
use peer_store.Store.Ops.{full_path, has, write_encrypt, read_decrypt}
use peer_store.Store.Written.{IsFree}
use peer_store.Store.Unkeyed.{chord_mode_loses_files}
use peer_store.Server.{Server}
use peer_store.Mesh.Ops.{generate_cid}
use peer_store.Node.{World, on_node_lem, set_node_lem, take_on}
use peer_store.Node.Files.{
  store_chord, chord_store_file, responsible_node, store_here, get_chord, chord_get_file, get_here,
}
use peer_store.Start.{start_server, new_file_server}
use peer_store.Node.Handlers.Files.Stored.{taken_on}
use peer_store.Start.First.{alone_node, first_node, is_chord_lem, start_server_first, between_alone}
use peer_store.Api.{stored, failure, handle_api_store, handle_api_retrieve}
use peer_store.Api.RoundTrip.{post, get_request, cid_not_empty}

module _ (h : Host) (w : World) (fuel : ℕ) (key nonce : Bytes) (c : Config) (disk : Disk) where
  abbrev node : Server
  node = first_node h key nonce c disk

  abbrev keeping : Bytes → Disk → Server
  keeping cid d = record node { disk = d; chord = some (taken_on cid (alone_node h c)) }

  responsible_alone :
      (id : ℕ)
      → responsible_node h w fuel (alone_node h c) id node ≡ (ok (self (alone_node h c)), node)
  unfolding responsible_node create new_chord_node
  responsible_alone id = rw (between_alone (hash_to_node_id h c.listen_addr) id) refl

  stores_alone :
      (name content : Bytes) (d : Disk)
      → write_encrypt h node.store node.network (generate_cid h content) name content 0 0 disk
        ≡ (ok 0, d)
      → store_chord h w fuel name content node
        ≡ (ok (generate_cid h content), keeping (generate_cid h content) d)
  unfolding store_chord chord_store_file store_here take_on new_file_server
  stores_alone name content d written =
      let cid = generate_cid h content in
      on_node_lem node (alone_node h c) refl _
      ∙ rw
          (
            responsible_alone (hash_to_node_id h cid),
            bytes_eq_refl (alone_node h c).address,
            written,
            set_node_lem (record node { disk = d }) (alone_node h c) refl (taken_on cid),
          )
          refl

  fails_alone :
      (cid : Bytes) (d : Disk)
      → d.file (full_path node.store cid) ≡ some []
      → read_decrypt h node.store node.network cid d ≡ (err decode_failed, d)
      → get_chord h w fuel cid (keeping cid d) ≡ (err decode_failed, keeping cid d)
  unfolding get_chord chord_get_file get_here has new_file_server
  fails_alone cid d empty failed =
      on_node_lem (keeping cid d) (taken_on cid (alone_node h c)) refl _
      ∙ rw (stat_lem (full_path node.store cid) d [] empty, failed) refl

module _ (h : Host) (w : World) (fuel : ℕ) (architecture : Bytes)
    (chord : bytes_eq architecture (text "chord") ≡ true) where
  store_reply :
      (name content cid : Bytes) (s s' : Server)
      → store_chord h w fuel name content s ≡ (ok cid, s')
      → handle_api_store h w fuel architecture (post name content) s ≡ (ok (stored cid name), s')
  unfolding handle_api_store bytes_eq
  store_reply name content cid s s' ran = rw (chord, ran) refl

  retrieve_failure :
      (cid : Bytes) (s s' : Server)
      → (length cid == 0) ≡ false
      → get_chord h w fuel cid s ≡ (err decode_failed, s')
      → handle_api_retrieve h w fuel architecture (get_request cid) s ≡ (ok (failure 500), s')
  unfolding handle_api_retrieve bytes_eq
  retrieve_failure cid s s' some_cid ran = rw (some_cid, chord, ran) refl

-- A node that StartServer starts in chord mode with no address to join, on a host that keeps its laws
-- and a disk with room for the file: an upload of any file is answered as stored under its content
-- identifier, what is on the disk is empty, and a download of that identifier is answered with 500.
pub upload_lost :
    (h : Host) (laws : HostLaws h) (w : World) (fuel : ℕ) (key nonce name content : Bytes)
    (c : Config) (disk : Disk)
    → c.architecture ≡ text "chord"
    → c.join_addr ≡ []
    → let cid = generate_cid h content in
      let s = first_node h key nonce c disk in
      IsFree s.store cid disk
      → (s' : Server) × (start_server h w key nonce c zero_network disk ≡ (ok tt, s))
        × (handle_api_store h w fuel c.architecture (post name content) s
            ≡ (ok (stored cid name), s'))
        × (s'.disk.file (full_path s.store cid) ≡ some [])
        × (handle_api_retrieve h w fuel c.architecture (get_request cid) s'
            ≡ (ok (failure 500), s'))
unfolding new_file_server new_store
upload_lost h laws w fuel key nonce name content c disk chord first free =
    let cid = generate_cid h content in
    let s = first_node h key nonce c disk in
    let (d, written, empty, failed) =
      chord_mode_loses_files h laws s.store c key nonce cid name content 0 0 disk chord
        (cas_path_transform-IsAddress h laws cid).plain free in
    let s' = keeping h w fuel key nonce c disk cid d in
    (
      s',
      start_server_first h w key nonce c disk chord first,
      store_reply h w fuel c.architecture (is_chord_lem c chord) name content cid s s'
          (stores_alone h w fuel key nonce c disk name content d written),
      empty,
      retrieve_failure h w fuel c.architecture (is_chord_lem c chord) cid s' s'
          (cid_not_empty h laws content) (fails_alone h w fuel key nonce c disk cid d empty failed),
    )
