-- ===== src/Mesh/Ops/Stored.antt =====
-- What Store of mesh.go keeps on the node itself, and Get finds there.
use peer_store.Prelude.{
  ℕ, ◌+◌, ◌≡◌, refl, ap, ◌∙◌, false, some, [], ◌∷◌, take, drop, length, Bytes, bytes_eq, text, Bool,
  if◌then◌else◌, Bool-cases, inl, inr,
}
use peer_store.Result.{ok}
use peer_store.Message.{Network, store_file}
use peer_store.Host.{Host, HostLaws, AreBytes}
use peer_store.Crypto.{encrypt, block_size}
use peer_store.Crypto.RoundTrip.{IsKeyed, wrote, decrypt-encrypt}
use peer_store.Disk.{Disk, stat}
use peer_store.Store.{Store}
use peer_store.Store.Ops.{has, write_encrypt}
use peer_store.Store.Written.{IsPlain, IsFree, metadata_of}
use peer_store.Store.RoundTrip.{read-write}
use peer_store.Store.Frame.{read_same}
use peer_store.Peer.{Peers, incoming_stream, send, copy_to, each}
use peer_store.Peer.Int64.{send_lem, copy_to_lem}
use peer_store.Server.{Server}
use peer_store.Server.Broadcast.{AreUp}
use peer_store.Server.Up.{Reaches, each-Reaches, broadcast-Reaches}
use peer_store.Mesh.Handlers.Stored.{get_all_local}
use peer_store.Mesh.Ops.{
  copy_encrypted, generate_cid, encrypt_to_peers, store_all, store_split, store,
}
use peer_store.Mesh.Ops.Get.{get_all, get_split, get}

copy_each : (b : Bytes) (ps : Peers) → AreUp ps → Reaches (each (copy_to b)) ps
copy_each b ps ups = each-Reaches (copy_to b) b ps (λ p up. copy_to_lem p up b) ups

copy_encrypted-Reaches :
    (net : Network) (b : Bytes) (ps : Peers) → AreUp ps → Reaches (copy_encrypted net b) ps
unfolding copy_encrypted
copy_encrypted-Reaches net b ps ups = elim (Bool-cases (bytes_eq net.enc_type (text "AES"))) [
  | inl aes ↦
      let (qs, e, ups') = copy_each (take block_size b) ps ups in
      let (rs, f, ups'') = copy_each (drop block_size b) qs ups' in (rs, rw (aes, e, f) refl, ups'')
  | inr other ↦ let (qs, e, ups') = copy_each b ps ups in (qs, rw (other, e) refl, ups')
]

-- The next encryption.
abbrev drawn : Disk → Disk
drawn d = record d { draws = d.draws + 1 }

encrypt_to_peers_lem :
    (h : Host) (content c : Bytes) (n : ℕ) (s : Server)
    → AreUp s.peers
    → encrypt h s.network (h.random s.disk.draws 16) content ≡ wrote c n
    → (qs : Peers) × (encrypt_to_peers h content s
        ≡ (ok tt, record s { peers = qs; disk = drawn s.disk }))
unfolding encrypt_to_peers
encrypt_to_peers_lem h content c n s ups done =
    let (qs, e, _) = copy_encrypted-Reaches s.network c s.peers ups in (qs, rw (done, e) refl)

store_all_lem :
    (h : Host) (key content c : Bytes) (n k : ℕ) (s : Server) (d : Disk)
    → AreUp s.peers
    → write_encrypt h s.store s.network (generate_cid h content) key content 0 0 s.disk ≡ (ok n, d)
    → encrypt h s.network (h.random d.draws 16) content ≡ wrote c k
    → (qs : Peers) × (store_all h key content s
        ≡ (ok (generate_cid h content), record s { peers = qs; disk = drawn d }))
unfolding store_all
store_all_lem h key content c n k s d ups written done =
    let s1 = record s { disk = d } in
    let (ps, told, ups1) =
      broadcast-Reaches h (store_file (generate_cid h content) key 0 0 n) s1 ups in
    let (rs, announced, ups2) =
      each-Reaches (send (incoming_stream ∷ [])) (incoming_stream ∷ []) ps
        (λ p up. send_lem p up (incoming_stream ∷ [])) ups1 in
    let (qs, sent) = encrypt_to_peers_lem h content c k (record s1 { peers = rs }) ups2 done in
    (qs, rw (written, told, announced, sent) refl)

has_drawn : (s : Store) (id : Bytes) (d : Disk) → has s id (drawn d) ≡ has s id d
unfolding has stat
has_drawn s id d = refl

module _ (h : Host) (s : Server) (whole : s.network.split ≡ false) where
  store_whole : (key content : Bytes) → store h key content s ≡ store_all h key content s
  unfolding store
  store_whole key content =
      ap (λ (b : Bool). if b then store_split h key content s else store_all h key content s) whole

  get_whole : (cid : Bytes) → get h cid s ≡ get_all h cid s
  unfolding get
  get_whole cid = ap (λ (b : Bool). if b then get_split h cid s else get_all h cid s) whole

-- On a host that keeps its laws, where the network does not split, its key fits, every connection can
-- be written to, the disk has room under a plain name for the file's content identifier, and there
-- are three initialisation vectors: Store of a file of bytes succeeds and returns the identifier, and
-- Get of the identifier on the same node then returns the file and its name.
pub get-store :
    (h : Host) (laws : HostLaws h) (s : Server) (key content v v' v'' : Bytes)
    → s.network.split ≡ false
    → IsKeyed s.network
    → AreUp s.peers
    → IsPlain (s.store.transform (generate_cid h content))
    → IsFree s.store (generate_cid h content) s.disk
    → AreBytes content
    → h.random s.disk.draws 16 ≡ some v
    → h.random (s.disk.draws + 1) 16 ≡ some v'
    → h.random (s.disk.draws + 2) 16 ≡ some v''
    → (s' : Server) × (store h key content s ≡ (ok (generate_cid h content), s'))
      × (get h (generate_cid h content) s' ≡ (ok (content, key), s'))
get-store h laws s key content v v' v'' whole keyed ups plain free bytes r r' r'' =
    let cid = generate_cid h content in
    let metadata = metadata_of s.store cid key 0 0 in
    let (n, d, written, stored) =
      read-write h laws s.store s.network cid key content 0 0 s.disk v v' keyed plain free bytes r
        r' in
    let (c, (done, _)) =
      decrypt-encrypt h laws s.network v'' content (laws.random_length _ 16 v'' r'') bytes keyed in
    let (qs, ran) =
      store_all_lem h key content c n (length c) s d ups written (rw (stored.drawn, r'') done) in
    let s' = record s { peers = qs; disk = drawn d } in
    (
      s',
      store_whole h s whole key content ∙ ran,
      get_whole h s' whole cid
          ∙ (get_all_local h cid content n metadata s' (has_drawn s.store cid d ∙ stored.present) (
              read_same h s.store s.network cid d (drawn d) (n, content, metadata) refl refl
                stored.read_back)),
    )
