-- ===== src/Mesh/Ops/Gathered.antt =====
-- getSplit of mesh.go, where every peer answers with its part.
use peer_store.Prelude.{
  ℕ, suc, ◌<◌, ◌^◌, ◌≡◌, ◌≢◌, ◌∙◌, refl, sym, ap, true, false, none, some, arith, List, [], ◌∷◌,
  ◌++◌, append_assoc, append-nil, All, All-zip, length, Bytes, bytes_eq, bytes_eq_refl, ◌==◌, Bool,
  if◌then◌else◌, Bool-cases, inl, inr,
}
use peer_store.Result.{ok}
use peer_store.Message.{Network, Metadata, get_file}
use peer_store.Host.{Host}
use peer_store.Crypto.{Written, decrypt}
use peer_store.Crypto.RoundTrip.{wrote}
use peer_store.Store.Ops.{has, read_decrypt}
use peer_store.Peer.{Peer, Peers, find_peer, put_peer, incoming_message, addresses}
use peer_store.Peer.Int64.{reading, sending}
use peer_store.Peer.Map.{find_peer-put_peer_other}
use peer_store.Server.{Server, at_peer_lem, broadcast}
use peer_store.Server.Broadcast.{AreUp, told, each-told, broadcast_encoded}
use peer_store.Mesh.Split.{ReaderMap, part_at, split_file, combine_file}
use peer_store.Mesh.Split.RoundTrip.{HasParts, combine-split, split_balanced}
use peer_store.Mesh.Transfer.{receive_part}
use peer_store.Mesh.Transfer.RoundTrip.{part_packet, receive_part_lem}
use peer_store.Mesh.Ops.Get.{
  put_part, Collected, find_metadata, collect_parts, local_part, combine_parts, get_split, get_all,
  get,
}

-- What one peer sends: part `number`, which is stored as `stored` and decrypts to `content`.
pub record Delivery : Type 0 where
  pub from : Bytes
  pub peer : Peer
  pub number : ℕ
  pub stored : Bytes
  pub content : Bytes
  pub size : ℕ
  pub after : Bytes

abbrev pub packet : Delivery → Bytes
packet d = part_packet d.number d.stored ++ d.after

abbrev pub peers_of : List Delivery → Peers
peers_of [] = []
peers_of (d ∷ ds) = (d.from, reading d.peer (packet d)) ∷ peers_of ds

abbrev pub parts_in : List Delivery → ReaderMap
parts_in [] = []
parts_in (d ∷ ds) = (d.number, d.content) ∷ parts_in ds

-- No two come from one address.
abbrev pub AreApart : List Delivery → Type 0
AreApart [] = Unit
AreApart (d ∷ ds) = All (λ e. bytes_eq d.from e.from ≡ false) ds × AreApart ds

-- No number has come before.
abbrev pub AreNew : ReaderMap → List Delivery → Type 0
AreNew m [] = Unit
AreNew m (d ∷ ds) = (part_at d.number m ≡ none) × AreNew (m ++ (d.number, d.content) ∷ []) ds

module _ (h : Host) (net : Network) where
  pub record IsDelivered (d : Delivery) : Type 0 where
    pub up : d.peer.up ≡ true
    pub small_number : d.number < 2 ^ 63
    pub small : length d.stored < 2 ^ 63
    pub decrypts : decrypt h net d.stored ≡ wrote d.content d.size

put_part_new :
    (i : ℕ) (b : Bytes) (m : ReaderMap) → part_at i m ≡ none → put_part i b m ≡ m ++ (i, b) ∷ []
unfolding put_part part_at
put_part_new i b [] new = refl
put_part_new i b ((j, c) ∷ m) new = elim (Bool-cases (j == i)) [
  | inl same ↦ cc (rw same at new)
  | inr other ↦ rw (other, put_part_new i b m (rw other at new)) refl
]

-- Its packet waits on the connection.
abbrev Waits : Peers → Delivery → Type 0
Waits ps d = (q : Peer) × (find_peer d.from ps ≡ some (reading q (packet d)))

module _ (h : Host) (cid : Bytes) (metadata : Metadata)
    (whole : (metadata.total_parts == 0) ≡ false) where
  abbrev collected : ReaderMap → Collected
  collected m = record { reader_map = m; metadata = metadata }

  found_before : (s : Server) → find_metadata h cid metadata s ≡ metadata
  unfolding find_metadata
  found_before s = rw whole refl

  abbrev taken : Delivery → Peer → Server → Server
  taken d q s = record s { peers = put_peer d.from (reading q d.after) s.peers }

  abbrev with_decrypted : Delivery → ReaderMap → Metadata → Written → Collected
  with_decrypted d m found w = elim w.result [
    | none ↦ collected m
    | some _ ↦ record { reader_map = put_part d.number w.bytes m; metadata = found }
  ]

  collect_step :
      (d : Delivery) (rest : List Bytes) (m : ReaderMap) (s : Server) (q : Peer)
      → IsDelivered h s.network d
      → find_peer d.from s.peers ≡ some (reading q (packet d))
      → collect_parts h cid (d.from ∷ rest) (collected m) s
        ≡ collect_parts h cid rest (collected (put_part d.number d.content m)) (taken d q s)
  unfolding collect_parts
  collect_step d rest m s q k there =
      let received : collect_parts h cid (d.from ∷ rest) (collected m) s
          ≡ collect_parts h cid rest
              (with_decrypted d m (find_metadata h cid metadata (taken d q s))
                (decrypt h s.network d.stored))
              (taken d q s) =
        rw
          (at_peer_lem d.from receive_part s _ _ there
            (receive_part_lem q d.stored d.after k.small d.number k.small_number))
          refl in
      received
      ∙ ap
          (λ (w : Written).
            collect_parts h cid rest
              (with_decrypted d m (find_metadata h cid metadata (taken d q s)) w) (taken d q s))
          k.decrypts
      ∙ ap
          (λ (found : Metadata).
            collect_parts h cid rest
              (record { reader_map = put_part d.number d.content m; metadata = found })
              (taken d q s))
          (found_before (taken d q s))

  collects :
      (ds : List Delivery) (m : ReaderMap) (s : Server)
      → All (IsDelivered h s.network) ds
      → All (Waits s.peers) ds
      → AreApart ds
      → AreNew m ds
      → (s' : Server) × (collect_parts h cid (addresses (peers_of ds)) (collected m) s
          ≡ (ok (collected (m ++ parts_in ds)), s'))
  unfolding collect_parts addresses
  collects [] m s served waits apart new = (s, rw (append-nil m) refl)
  collects (d ∷ ds) m s (k, served) ((q, there), waits) (others, apart) (fresh, new) =
      let s1 = taken d q s in
      let entry : ℕ × Bytes = (d.number, d.content) in
      let still_waits : All (Waits s1.peers) ds =
        All-zip _ _ (Waits s1.peers)
          (λ e other (p, at).
            (p, find_peer-put_peer_other d.from e.from (reading q d.after) s.peers other ∙ at))
          ds others waits in
      let (s', rest) = collects ds (m ++ entry ∷ []) s1 served still_waits apart new in
      (
        s',
        collect_step d (addresses (peers_of ds)) m s q k there
            ∙ ap (λ (x : ReaderMap). collect_parts h cid (addresses (peers_of ds)) (collected x) s1)
                (put_part_new d.number d.content m fresh)
            ∙ rest
            ∙ ap (λ (x : ReaderMap). (ok (collected x), s'))
                (append_assoc m (entry ∷ []) (parts_in ds)),
      )

-- A broadcast leaves every packet on its connection.
told-Waits :
    (buf : Bytes) (ds : List Delivery) → AreApart ds → All (Waits (told buf (peers_of ds))) ds
unfolding find_peer
told-Waits buf [] apart = tt
told-Waits buf (d ∷ ds) (others, apart) = (
  (sending d.peer (incoming_message ∷ buf), rw (bytes_eq_refl d.from) refl),
  All-zip _ _ (Waits (told buf (peers_of (d ∷ ds)))) (λ e other (p, at). (p, rw other at)) ds others
      (told-Waits buf ds apart),
)

module _ (h : Host) (net : Network) where
  delivered_up : (ds : List Delivery) → All (IsDelivered h net) ds → AreUp (peers_of ds)
  delivered_up [] served = tt
  delivered_up (d ∷ ds) (k, served) = (k.up, delivered_up ds served)

module _ (h : Host) (cid : Bytes) (s : Server) where
  local_part_lem :
      (first : Bytes) (n : ℕ) (metadata : Metadata)
      → has s.store cid s.disk ≡ true
      → read_decrypt h s.store s.network cid s.disk ≡ (ok (n, first, metadata), s.disk)
      → local_part h cid s
        ≡ (ok (record { reader_map = (metadata.part, first) ∷ []; metadata = metadata }), s)
  unfolding local_part
  local_part_lem first n metadata present read = rw (present, read) refl

combine_all :
    (h : Host) (cid : Bytes) (metadata : Metadata) (m : ReaderMap) (file : Bytes)
    → metadata.total_parts ≢ 0
    → length m ≡ metadata.total_parts
    → combine_file m ≡ ok file
    → combine_parts h cid (record { reader_map = m; metadata = metadata })
      ≡ ok (file, metadata.file_name)
unfolding combine_parts
combine_all h cid metadata m file some_parts count combined =
    let filled : (length m == 0) ≡ false = ground arith in
    let known : (metadata.total_parts == 0) ≡ false = ground arith in
    let complete : (length m == metadata.total_parts) ≡ true = ground arith in
    rw (filled, known, complete, combined) refl

length-parts_in : (ds : List Delivery) → length (parts_in ds) ≡ length ds
length-parts_in [] = refl
length-parts_in (d ∷ ds) = ap suc (length-parts_in ds)

length-split :
    (n : ℕ) (content : Bytes) (ps : List Bytes)
    → n ≢ 0
    → split_file n content ≡ ok ps
    → length ps ≡ n
length-split n content ps ne split =
    let (qs, split', count, _, _) = split_balanced n content ne in
    let same : ps ≡ qs = cc (split, split') in ap (length {A = Bytes}) same ∙ count

-- A node that splits files gets one whose other parts are elsewhere: it has one part, with the
-- metadata, on its own disk, and every one of its peers, one to each address, can be written to and
-- sends one further part, with its number, that decrypts under the node's network; no number comes
-- twice, and the numbers and the stored parts are below 2^63. Where these are, in any order, the
-- parts that splitFile makes of the content for as many nodes as the metadata says, Get returns the
-- content with the name of the metadata.
pub get-parts :
    (h : Host) (cid buf first content : Bytes) (n : ℕ) (metadata : Metadata) (ps : List Bytes)
    (ds : List Delivery) (s : Server)
    → s.network.split ≡ true
    → metadata.total_parts ≢ 0
    → split_file metadata.total_parts content ≡ ok ps
    → has s.store cid s.disk ≡ true
    → read_decrypt h s.store s.network cid s.disk ≡ (ok (n, first, metadata), s.disk)
    → h.encode_message (get_file cid) ≡ some buf
    → All (IsDelivered h s.network) ds
    → AreApart ds
    → AreNew ((metadata.part, first) ∷ []) ds
    → HasParts ((metadata.part, first) ∷ parts_in ds) 1 ps
    → suc (length ds) ≡ metadata.total_parts
    → (s' : Server) × (get h cid (record s { peers = peers_of ds })
        ≡ (ok (content, metadata.file_name), s'))
unfolding get get_split
get-parts h cid buf first content n metadata ps ds s splits some_parts split present reads enc
      served apart new parts count =
    let known : (metadata.total_parts == 0) ≡ false = ground arith in
    let s0 = record s { peers = peers_of ds } in
    let asked = record s { peers = told buf (peers_of ds) } in
    let asks : broadcast h (get_file cid) s0 ≡ (ok tt, asked) =
      broadcast_encoded h (get_file cid) s0 buf (ok tt) asked.peers enc
        (each-told buf (peers_of ds) (delivered_up h s.network ds served)) in
    let m : ReaderMap = (metadata.part, first) ∷ parts_in ds in
    let size : length m ≡ metadata.total_parts = omega (arith, length-parts_in ds, count) in
    let (s', gathered) =
      collects h cid metadata known ds ((metadata.part, first) ∷ []) asked served
        (told-Waits buf ds apart) apart new in
    let combined =
      combine-split metadata.total_parts content ps m some_parts split parts
        (size ∙ sym (length-split metadata.total_parts content ps some_parts split)) in
    (
      s',
      ap (λ (b : Bool). if b then get_split h cid s0 else get_all h cid s0) splits
          ∙ rw
              (
                local_part_lem h cid s0 first n metadata present reads,
                asks,
                gathered,
                combine_all h cid metadata m content some_parts size combined,
              )
              refl,
    )
